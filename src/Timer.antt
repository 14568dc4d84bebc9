-- ===== src/Timer.antt =====
-- src/timer.rs: `Timer`, over the reactor. A result `none` of an operation on the reactor means that
-- the fuel of its push loop ran out; Reactor.Timers shows that two rounds are enough.
pub mod Wakes
pub mod Fires
pub mod Unwraps
use async_winit.Prelude.{
  ℕ, Bool, true, false, not, Option, none, some, ltb, if◌then◌else◌, ◌>>=◌, is_some,
}
use async_winit.Task.{Waker, will_wake, Poll, ready, pending}
use async_winit.Time.{Instant, duration_max, checked_add}
use async_winit.Sync.{QueueApi}
use async_winit.Reactor.{TimerOp, Reactor, insert_timer, remove_timer}

pub record Timer : Type 0 where
  pub id_and_waker : Option (ℕ × Waker)
  pub deadline : Option Instant
  pub period : ℕ

unfoldable pub never : Timer
never = record { id_and_waker = none; deadline = none; period = duration_max }

unfoldable pub will_fire : Timer → Bool
will_fire t = is_some t.deadline

unfoldable pub interval_at : Instant → ℕ → Timer
interval_at start period = record { id_and_waker = none; deadline = some start; period = period }

unfoldable pub at : Instant → Timer
unfolding interval_at
at deadline = interval_at deadline duration_max

-- `now` is the time read.
unfoldable pub after : ℕ → Instant → ℕ → Timer
unfolding at never
after max_instant now duration = elim (checked_add max_instant now duration) [
  | none ↦ never
  | some deadline ↦ at deadline
]

unfoldable pub interval : ℕ → Instant → ℕ → Timer
unfolding interval_at never
interval max_instant now period = elim (checked_add max_instant now period) [
  | none ↦ never
  | some deadline ↦ interval_at deadline period
]

module _ (queue : QueueApi TimerOp) {Op : Type 0} (channel : QueueApi Op)
    (max_instant fuel : ℕ) where
  -- `remove_timer` where there is an id and a deadline.
  unfoldable pub deregister :
      Reactor queue channel → Option Instant → Option (ℕ × Waker) → Option (Reactor queue channel)
  deregister r none registered = some r
  deregister r (some deadline) none = some r
  deregister r (some deadline) (some (id, _)) = remove_timer queue channel fuel r deadline id

  -- Both fields are taken out, whether or not both are set.
  unfoldable pub clear : Timer → Reactor queue channel → Option (Timer × Reactor queue channel)
  unfolding deregister
  clear t r = deregister r t.deadline t.id_and_waker >>= λ r'.
      some (record t { id_and_waker = none; deadline = none }, r')

  unfoldable pub set_never : Timer → Reactor queue channel → Option (Timer × Reactor queue channel)
  unfolding clear
  set_never t r = clear t r >>= λ c. some (record (c.0) { deadline = none }, c.1)

  -- The second half of `set_interval_at`: the timer is registered again where it has an id.
  unfoldable pub reregister :
      Instant
      → Timer
      → Option (ℕ × Waker)
      → Reactor queue channel
      → Option (Timer × Reactor queue channel)
  reregister start t none r = some (t, r)
  reregister start t (some (_, waker)) r = insert_timer queue channel fuel r start waker >>= λ i.
      some (record t { id_and_waker = some (i.0, waker) }, i.1)

  unfoldable pub set_interval_at :
      Timer → Instant → ℕ → Reactor queue channel → Option (Timer × Reactor queue channel)
  unfolding clear reregister
  set_interval_at t start period r = clear t r >>= λ c.
      let t' : Timer = record (c.0) { deadline = some start; period = period } in
      reregister start t' t'.id_and_waker (c.1)

  unfoldable pub set_at :
      Timer → Instant → Reactor queue channel → Option (Timer × Reactor queue channel)
  unfolding set_interval_at
  set_at t deadline r = set_interval_at t deadline duration_max r

  unfoldable pub set_after :
      Timer → Instant → ℕ → Reactor queue channel → Option (Timer × Reactor queue channel)
  unfolding set_at set_never
  set_after t now duration r = elim (checked_add max_instant now duration) [
    | none ↦ set_never t r
    | some deadline ↦ set_at t deadline r
  ]

  unfoldable pub set_interval :
      Timer → Instant → ℕ → Reactor queue channel → Option (Timer × Reactor queue channel)
  unfolding set_interval_at set_never
  set_interval t now period r = elim (checked_add max_instant now period) [
    | none ↦ set_never t r
    | some deadline ↦ set_interval_at t deadline period r
  ]

  -- A timer with this deadline enters the reactor, with the waker of the task that polls.
  unfoldable pub register :
      Timer → Instant → Waker → Reactor queue channel → Option (Timer × Reactor queue channel)
  register t deadline w r = insert_timer queue channel fuel r deadline w >>= λ i.
      some (record t { id_and_waker = some (i.0, w); deadline = some deadline }, i.1)

  -- The branch of `poll_next` in which the timer fires.
  unfoldable pub fire :
      Timer
      → Instant
      → Waker
      → Reactor queue channel
      → Option (Poll (Option Instant) × Timer × Reactor queue channel)
  unfolding deregister register
  fire t deadline w r = deregister r (some deadline) t.id_and_waker >>= λ r1.
      elim (checked_add max_instant deadline t.period) [
        | some next ↦ register t next w r1 >>= λ n. some (ready (some deadline), n.0, n.1)
        | none ↦ some (ready (some deadline), record t { id_and_waker = none; deadline = none }, r1)
      ]

  -- The branch in which it waits.
  unfoldable pub wait :
      Timer
      → Option (ℕ × Waker)
      → Instant
      → Waker
      → Reactor queue channel
      → Option (Poll (Option Instant) × Timer × Reactor queue channel)
  unfolding register
  wait t none deadline w r = register t deadline w r >>= λ n. some (pending, n.0, n.1)
  wait t (some (id, old)) deadline w r =
      if not (will_wake old w)
      then (remove_timer queue channel fuel r deadline id >>= λ r1.
          register t deadline w r1 >>= λ n. some (pending, n.0, n.1))
      else some (pending, t, r)

  -- `Stream::poll_next` at the time `now`, by a task with the waker `w`.
  unfoldable pub poll_next :
      Timer
      → Instant
      → Waker
      → Reactor queue channel
      → Option (Poll (Option Instant) × Timer × Reactor queue channel)
  poll_next t now w r = elim t.deadline [
    | none ↦ some (pending, t, r)
    | some deadline ↦
        if ltb deadline now then fire t deadline w r else wait t t.id_and_waker deadline w r
  ]

  -- `Future::poll`: the option is unwrapped.
  unfoldable pub poll :
      Timer
      → Instant
      → Waker
      → Reactor queue channel
      → Option (Poll Instant × Timer × Reactor queue channel)
  poll t now w r = poll_next t now w r >>= λ p. elim p.0 [
    | pending ↦ some (pending, p.1, p.2)
    | ready o ↦ o >>= λ instant. some (ready instant, p.1, p.2)
  ]

  -- `Drop`.
  unfoldable pub drop_timer : Timer → Reactor queue channel → Option (Reactor queue channel)
  unfolding clear
  drop_timer t r = clear t r >>= λ c. some (c.1)
