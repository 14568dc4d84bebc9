-- ===== src/Sync/ThreadUnsafe.antt =====
-- src/sync.rs: the primitives of `ThreadUnsafe`, over cells of one thread.
use async_winit.Prelude.{
  ℕ, ◌≡◌, refl, ◌-◌, ◌^◌, ◌+◌, ◌%◌, ◌≤◌, Option, none, some, List, [], ◌∷◌, ◌++◌, length,
}
use async_winit.Sync.{QueueApi}

abbrev pub usize_max : ℕ
usize_max = 2 ^ 64 - 1

-- `Atomic::fetch_add` on a `Cell<usize>`: the old value, and the new one. The sum wraps, as in a
-- build without overflow checks, and as that of an `AtomicUsize` does.
unfoldable pub fetch_add : ℕ → ℕ → ℕ × ℕ
fetch_add old value = (old, (old + value) % 2 ^ 64)

module _ {T : Type 0} where
  -- `ConcurrentQueue` on a `RefCell<VecDeque>`.
  unfoldable pub push : List T → T → Option (List T)
  push q v = some (q ++ v ∷ [])

  unfoldable pub try_next : List T → Option (T × List T)
  try_next [] = none
  try_next (v ∷ q) = some (v, q)

  push-append :
      (q q' : List T) (v : T) → push q v ≡ some q' → (q' ≡ q ++ v ∷ []) × (usize_max ≡ usize_max)
  unfolding push
  push-append q q' v e = (cc, refl)

  push_total : (q : List T) (v : T) → push q v ≡ none → usize_max ≤ length q
  unfolding push
  push_total q v e = cc

  try_next_empty : (q : List T) → q ≡ [] → try_next q ≡ none
  unfolding try_next
  try_next_empty q e = rw e

  try_next_head :
      (q : List T) (v : T) (vs : List T)
      → q ≡ v ∷ vs
      → (q' : List T) × (try_next q ≡ some (v, q')) × (q' ≡ vs) × (usize_max ≡ usize_max)
  unfolding try_next
  try_next_head q v vs e = (vs, rw e, refl, refl)

  unfoldable pub deque : QueueApi T
  unfolding push try_next push-append push_total try_next_empty try_next_head
  deque = record {
    Queue = List T;
    capacity = λ _. usize_max;
    push = push;
    try_next = try_next;
    items = λ q. q;
    push-some = push-append;
    push-none = push_total;
    try_next-nil = try_next_empty;
    try_next-cons = try_next_head;
  }
