-- ===== src/Sync.antt =====
-- src/sync.rs: the primitives that the reactor is generic over. A concurrent queue is an interface,
-- which the crate concurrent-queue meets in the thread-safe build; the queue of the other build is
-- the file's own.
pub mod ThreadUnsafe
pub mod Channels
pub mod Locks
pub mod Threads
use async_winit.Prelude.{ℕ, ◌≡◌, ◌<◌, ◌≤◌, Option, none, some, List, [], ◌∷◌, ◌++◌, length}

-- `push` gives `none` where the source gives the value back in `Err`; `items` are the values in the
-- order in which `try_iter` yields them.
pub record QueueApi (T : Type 0) : Type 1 where
  pub Queue : Type 0
  pub capacity : Queue → ℕ
  pub push : Queue → T → Option Queue
  pub try_next : Queue → Option (T × Queue)
  pub items : Queue → List T
  pub push-some :
      (q q' : Queue) (v : T)
      → push q v ≡ some q'
      → (items q' ≡ items q ++ v ∷ []) × (capacity q' ≡ capacity q)
  pub push-none : (q : Queue) (v : T) → push q v ≡ none → capacity q ≤ length (items q)
  pub try_next-nil : (q : Queue) → items q ≡ [] → try_next q ≡ none
  pub try_next-cons :
      (q : Queue) (v : T) (vs : List T)
      → items q ≡ v ∷ vs
      → (q' : Queue) × (try_next q ≡ some (v, q')) × (items q' ≡ vs) × (capacity q' ≡ capacity q)
