-- ===== src/Sync/Threads.antt =====
-- src/sync.rs, `thread_id`: the identity of the thread, kept in a thread-local cell.
use async_winit.Prelude.{ℕ, zero, suc, ◌≡◌, refl, Option, none, some}

-- The cell `THREAD_ID`; `gone` is the time behind its destructor.
pub data ThreadLocal : Type 0 where
  gone : ThreadLocal
  kept : Option ℕ → ThreadLocal

-- `current` is `thread::current().id()`.
unfoldable pub thread_id : ℕ → ThreadLocal → ℕ × ThreadLocal
thread_id current gone = (current, gone)
thread_id current (kept none) = (current, kept (some current))
thread_id current (kept (some id)) = (id, kept (some id))

-- So many calls of one thread, and what the last one returns.
unfoldable pub calls : ℕ → ℕ → ThreadLocal → ℕ × ThreadLocal
unfolding thread_id
calls zero current cell = thread_id current cell
calls (suc n) current cell = calls n current (thread_id current cell).1

calls_kept : (n current : ℕ) → (calls n current (kept (some current))).0 ≡ current
unfolding calls thread_id
calls_kept zero current = refl
calls_kept (suc n) current = calls_kept n current

calls_gone : (n current : ℕ) → (calls n current gone).0 ≡ current
unfolding calls thread_id
calls_gone zero current = refl
calls_gone (suc n) current = calls_gone n current

-- However often a thread asks, from its start on or while its locals are gone, it gets its identity.
thread_id_current :
    (n current : ℕ)
    → ((calls n current (kept none)).0 ≡ current) × ((calls n current gone).0 ≡ current)
unfolding calls thread_id
thread_id_current zero current = (refl, refl)
thread_id_current (suc n) current = (calls_kept n current, calls_gone (suc n) current)
