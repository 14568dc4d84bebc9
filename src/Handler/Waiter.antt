-- ===== src/Handler/Waiter.antt =====
-- src/handler.rs: `Waiter`, `HoldGuard` and the part of `Handler::run_with` behind the direct
-- listeners. Each takes the lock once, so each is one step; with the new state it returns the
-- wakers that it wakes, in order. `none` is a panic.
use async_winit.Prelude.{
  ℕ, Bool, true, false, Option, none, some, List, [], if◌then◌else◌, ◌>>=◌, is_some,
}
use async_winit.Slab.{SlabApi}
use async_winit.Task.{Waker, will_wake, Poll, ready, pending, wake_opt}
use async_winit.Handler.{Listener, State, remove, take_notification, register_waker, notify}

module _ (slab : SlabApi Listener) {D E : Type 0} where
  unfoldable pub notify_next : State slab D E → ℕ → Option (State slab D E × List Waker)
  notify_next s index = slab.get s.listeners index >>= λ l. elim l.next [
    | some next ↦ notify slab s next >>= λ r. some (r.1, wake_opt r.0)
    | none ↦ some (record s { active = none; waker = none }, wake_opt s.waker)
  ]

  -- `Stream::poll_next`, of the waiter at `index` polled with the waker `w`.
  unfoldable pub poll_next :
      State slab D E → ℕ → Waker → Option (Poll (Option E) × State slab D E × List Waker)
  poll_next s index w = take_notification slab s index >>= λ r. elim r.0 [
    | true ↦ elim r.1.active [
      | none ↦ some (pending, r.1, [])
      | some e ↦ notify_next r.1 index >>= λ n. some (ready (some e), n.0, n.1)
    ]
    | false ↦ register_waker slab r.1 index w >>= λ s'. some (pending, s', [])
  ]

  -- `Future::poll`.
  unfoldable pub poll : State slab D E → ℕ → Waker → Option (Poll E × State slab D E × List Waker)
  poll s index w = poll_next s index w >>= λ r. elim r.0 [
    | ready o ↦ o >>= λ e. some (ready e, r.1, r.2)
    | pending ↦ some (pending, r.1, r.2)
  ]

  -- One poll of `hold`: the event, and the next listener is not notified.
  unfoldable pub hold : State slab D E → ℕ → Waker → Option (Poll E × State slab D E)
  hold s index w = take_notification slab s index >>= λ r. elim r.0 [
    | true ↦ elim r.1.active [ none ↦ some (pending, r.1) | some e ↦ some (ready e, r.1) ]
    | false ↦ register_waker slab r.1 index w >>= λ s'. some (pending, s')
  ]

  -- `Drop` of a `HoldGuard` of the waiter at `index`.
  unfoldable pub drop_guard : State slab D E → ℕ → Option (State slab D E × List Waker)
  drop_guard s index = notify_next s index

  -- `Drop` of a `Waiter`.
  unfoldable pub drop_waiter : State slab D E → ℕ → Option (State slab D E × List Waker)
  drop_waiter s index =
      remove slab s index >>= λ r. if r.0.notified then notify_next r.1 index else some (r.1, [])

  -- `run_with` behind the direct listeners: whether there is a listener to wait for.
  unfoldable pub start : State slab D E → E → Option (Bool × State slab D E × List Waker)
  start s e = elim s.head_and_tail [
    | none ↦ some (false, s, [])
    | some ends ↦
        notify slab (record s { active = some e }) ends.0 >>= λ r. some (true, r.1, wake_opt r.0)
  ]

  -- The waker that the task awaiting `run_with` leaves behind.
  unfoldable pub set_waker : State slab D E → Option Waker → Waker → State slab D E
  set_waker s none w = record s { waker = some w }
  set_waker s (some old) w = if will_wake old w then s else record s { waker = some w }

  -- One poll of the future that `run_with` awaits.
  unfoldable pub poll_done : State slab D E → Waker → Poll (Unit {0}) × State slab D E
  poll_done s w =
      if is_some s.head_and_tail
      then (if is_some s.active then (pending, set_waker s s.waker w) else (ready tt, s))
      else (ready tt, s)
