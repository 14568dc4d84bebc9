-- ===== src/Handler.antt =====
-- src/handler.rs: the listener list of an event handler (`State`, `Listener`) and its operations.
-- A result `none` is a panic: an index that the slab does not hold, or an `unwrap` of `None`.
pub mod Links
pub mod Invariant
pub mod Insert
pub mod Remove
pub mod Waiter
pub mod Turns
pub mod Directs
pub mod Run
use async_winit.Prelude.{
  ℕ, Bool, true, false, ◌&&◌, Option, none, some, List, [], ◌==◌, if◌then◌else◌, ◌>>=◌, map_option,
}
use async_winit.Slab.{SlabApi}
use async_winit.Task.{Waker, will_wake}

pub record Listener : Type 0 where
  pub next : Option ℕ
  pub prev : Option ℕ
  pub waker : Option Waker
  pub notified : Bool

-- The listener that `insert` creates.
unfoldable pub fresh_listener : Option (ℕ × ℕ) → Listener
fresh_listener head_and_tail = record {
  next = none;
  prev = map_option (λ ht. ht.1) head_and_tail;
  waker = none;
  notified = false;
}

-- The new head and tail after listener `l` leaves its index.
unfoldable pub unlink_ends : Option (ℕ × ℕ) → ℕ → Listener → Option (Option (ℕ × ℕ))
unlink_ends none index l = none
unlink_ends (some (head, tail)) index l =
    if head == index && tail == index
    then some none
    else if head == index
    then (l.next >>= λ n. some (some (n, tail)))
    else if tail == index
    then (l.prev >>= λ p. some (some (head, p)))
    else some (some (head, tail))

unfoldable pub keep_waker : Option Waker → Waker → Waker
keep_waker none new_waker = new_waker
keep_waker (some old) new_waker = if will_wake old new_waker then old else new_waker

module _ (slab : SlabApi Listener) where
  open slab use {Slab, empty, get, vacant_key}

  -- `D` is the type of direct listeners, `E` that of events.
  pub record State (D E : Type 0) : Type 0 where
    pub listeners : Slab
    pub directs : List D
    pub head_and_tail : Option (ℕ × ℕ)
    pub waker : Option Waker
    pub active : Option E

  module _ {D E : Type 0} where
    abbrev pub new : State D E
    new = record {
      listeners = empty;
      directs = [];
      head_and_tail = none;
      waker = none;
      active = none;
    }

  -- `self.listeners[i]`, changed by `f`.
  unfoldable pub modify : Slab → ℕ → (Listener → Listener) → Option Slab
  modify ls i f = get ls i >>= λ l. some (slab.set ls i (f l))

  unfoldable pub modify_opt : Slab → Option ℕ → (Listener → Listener) → Option Slab
  unfolding modify
  modify_opt ls none f = some ls
  modify_opt ls (some i) f = modify ls i f

  module _ {D E : Type 0} where
    unfoldable pub insert : State D E → Option (ℕ × State D E)
    insert s =
        let index = vacant_key s.listeners in
        let ls = slab.insert s.listeners (fresh_listener s.head_and_tail) in
        elim s.head_and_tail [
          | some (head, tail) ↦ modify ls tail (λ l. record l { next = some index }) >>= λ ls'.
              some (index, record s { listeners = ls'; head_and_tail = some (head, index) })
          | none ↦ some (index, record s { listeners = ls; head_and_tail = some (index, index) })
        ]

    unfoldable pub remove : State D E → ℕ → Option (Listener × State D E)
    remove s index = do
      l ← get s.listeners index
      ends ← unlink_ends s.head_and_tail index l
      ls ← modify_opt (slab.remove s.listeners index) l.next (λ n. record n { prev = l.prev })
      ls' ← modify_opt ls l.prev (λ p. record p { next = l.next })
      some (l, record s { listeners = ls'; head_and_tail = ends })

    unfoldable pub take_notification : State D E → ℕ → Option (Bool × State D E)
    take_notification s index = do
      l ← get s.listeners index
      ls ← modify s.listeners index (λ l. record l { notified = false })
      some (l.notified, record s { listeners = ls })

    unfoldable pub register_waker : State D E → ℕ → Waker → Option (State D E)
    register_waker s index w = do
      ls ← modify s.listeners index (λ l. record l { waker = some (keep_waker l.waker w) })
      some (record s { listeners = ls })

    unfoldable pub notify : State D E → ℕ → Option (Option Waker × State D E)
    notify s index = do
      l ← get s.listeners index
      if l.notified then some (none, s) else do
        ls ← modify s.listeners index (λ l. record l { waker = none; notified = true })
        some (l.waker, record s { listeners = ls })
