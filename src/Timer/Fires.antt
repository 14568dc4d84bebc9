-- ===== src/Timer/Fires.antt =====
-- src/timer.rs: when a timer fires, what it returns, and when it fires again.
use async_winit.Prelude.{
  ℕ, zero, suc, ◌+◌, ◌*◌, ◌≤◌, ◌<◌, ◌≡◌, refl, ◌∙◌, Option, none, some, List, [], ◌∷◌, ◌>>=◌, arith,
}
use async_winit.Task.{Waker, Poll, ready, pending}
use async_winit.Time.{Instant, checked_add, duration_max}
use async_winit.Sync.{QueueApi}
use async_winit.Wheel
use async_winit.Wheel.{lookup, Wheel}
use async_winit.Reactor.{TimerOp, Reactor}
use async_winit.Reactor.Timers.{settled, IsSound, remove_timer-settled}
use async_winit.Timer.{Timer, deregister, set_interval_at, fire, poll_next, at, interval_at}
use async_winit.Timer.Wakes.{Waits, IsSound-le, register-Waits}

module _ (queue : QueueApi TimerOp) {Op : Type 0} (channel : QueueApi Op)
    (max_instant fuel : ℕ) where
  deregister-settled :
      (n : ℕ) (r : Reactor queue channel) (deadline : Instant) (registered : Option (ℕ × Waker))
      → IsSound queue channel (suc n) r
      → 2 ≤ fuel
      → (r' : Reactor queue channel) × (deregister queue channel max_instant fuel r
            (some deadline)
            registered
          ≡ some r')
        × IsSound queue channel n r'
        × (settled queue channel r' ≡ elim registered [
          | none ↦ settled queue channel r
          | some (id, _) ↦ Wheel.remove deadline id (settled queue channel r)
        ])
  unfolding deregister
  deregister-settled n r deadline none s two =
      (r, refl, IsSound-le queue channel max_instant fuel s, refl)
  deregister-settled n r deadline (some (id, w)) s two =
      let (r', eq, st, _, s') = remove_timer-settled queue channel n fuel r deadline id s two in
      (r', eq, s', st)

  -- What a poll leaves that fires: with a next deadline the timer waits for it, and else never more.
  abbrev pub Next : Timer → Option Instant → Waker → Reactor queue channel → Type 0
  Next t none w r = (t.id_and_waker ≡ none) × (t.deadline ≡ none)
  Next t (some next) w r = Waits queue channel max_instant fuel t next w r

  fire-Next :
      (n : ℕ) (t : Timer) (deadline : Instant) (next : Option Instant) (w : Waker)
      (r : Reactor queue channel)
      → IsSound queue channel (suc (suc n)) r
      → 2 ≤ fuel
      → checked_add max_instant deadline t.period ≡ next
      → (t' : Timer) × (r' : Reactor queue channel) × (fire queue channel max_instant fuel t
            deadline w r
          ≡ some (ready (some deadline), t', r'))
        × Next t' next w r'
        × (t'.period ≡ t.period)
        × IsSound queue channel n r'
  unfolding fire
  fire-Next n t deadline none w r s two e =
      let (r1, eq, s1, _) = deregister-settled (suc n) r deadline t.id_and_waker s two in
      (
        record t { id_and_waker = none; deadline = none },
        r1,
        ground arith,
        (refl, refl),
        refl,
        IsSound-le queue channel max_instant fuel s1,
      )
  fire-Next n t deadline (some next) w r s two e =
      let (r1, eq, s1, _) = deregister-settled (suc n) r deadline t.id_and_waker s two in
      let (t', r', eq', wt, p, s') =
        register-Waits queue channel max_instant fuel n t next w r1 s1 two in
      (t', r', ground arith, wt, p, s')

  -- In a reactor that is sound with two spare pushes, a timer that is polled behind its deadline
  -- returns that deadline, and waits for the next one, a period later, or has neither deadline nor
  -- id where no instant is that late; the period stays.
  pub poll_next-Next :
      (n : ℕ) (t : Timer) (deadline now : Instant) (w : Waker) (r : Reactor queue channel)
      → IsSound queue channel (suc (suc n)) r
      → 2 ≤ fuel
      → t.deadline ≡ some deadline
      → deadline < now
      → (t' : Timer) × (r' : Reactor queue channel) × (poll_next queue channel max_instant fuel t
            now w r
          ≡ some (ready (some deadline), t', r'))
        × Next t' (checked_add max_instant deadline t.period) w r'
        × (t'.period ≡ t.period)
        × IsSound queue channel n r'
  unfolding poll_next
  poll_next-Next n t deadline now w r s two d late =
      let (t', r', eq, nx, p, s') =
        fire-Next n t deadline (checked_add max_instant deadline t.period) w r s two refl in
      (t', r', ground arith, nx, p, s')

  -- `rounds` polls, at the times `now i`.
  unfoldable pub poll_times :
      ℕ
      → ℕ
      → (ℕ → Instant)
      → Timer
      → Waker
      → Reactor queue channel
      → Option (List (Poll (Option Instant)) × Timer × Reactor queue channel)
  poll_times zero i now t w r = some ([], t, r)
  poll_times (suc rounds) i now t w r =
      poll_next queue channel max_instant fuel t (now i) w r >>= λ p.
      poll_times rounds (i + 1) now (p.1) w (p.2) >>= λ rest. some (p.0 ∷ rest.0, rest.1, rest.2)

  -- The instants `start`, `start + period`, and so on.
  unfoldable pub ticks : ℕ → Instant → ℕ → List (Poll (Option Instant))
  ticks zero start period = []
  ticks (suc k) start period = ready (some start) ∷ ticks k (start + period) period

  poll_times_from :
      (k i : ℕ) (now : ℕ → Instant) (t : Timer) (start : Instant) (period : ℕ) (w : Waker)
      (r : Reactor queue channel)
      → IsSound queue channel (k + k) r
      → 2 ≤ fuel
      → t.deadline ≡ some start
      → t.period ≡ period
      → start + k * period ≤ max_instant
      → ((j : ℕ) → j < k → start + j * period < now (i + j))
      → (t' : Timer) × (r' : Reactor queue channel) × (poll_times k i now t w r
          ≡ some (ticks k start period, t', r'))
        × (t'.deadline ≡ some (start + k * period))
  unfolding poll_times ticks
  poll_times_from zero i now t start period w r s two d p fits late = (t, r, refl, ground arith)
  poll_times_from (suc k) i now t start period w r s two d p fits late =
      let more : suc k + suc k ≡ suc (suc (k + k)) = omega arith in
      let here : start < now i = ground (arith, late 0) in
      let (t1, r1, eq, nx, p1, s1) =
        poll_next-Next (k + k) t start (now i) w r (rw more at s) two d here in
      let next : checked_add max_instant start t.period ≡ some (start + period) = ground arith in
      let waits : Waits queue channel max_instant fuel t1 (start + period) w r1 = rw next at nx in
      let (t2, r2, eq2, d2) =
        poll_times_from k (i + 1) now t1 (start + period) period w r1 s1 two waits.deadline_eq
          (p1 ∙ p) (omega arith)
          (λ j h.
            let e : i + 1 + j ≡ i + suc j = omega arith in
            rw e (omega (arith, late (suc j) (omega arith)))) in
      (t2, r2, ground arith, ground arith)

  -- Where the reactor is sound with two spare pushes for each poll, the last instant can be
  -- represented, and each poll comes behind its instant, `k` polls of an interval timer return the
  -- instants of its interval, without drift, and the timer waits for the next one.
  pub poll_times-ticks :
      (k : ℕ) (now : ℕ → Instant) (start : Instant) (period : ℕ) (w : Waker)
      (r : Reactor queue channel)
      → IsSound queue channel (k + k) r
      → 2 ≤ fuel
      → start + k * period ≤ max_instant
      → ((j : ℕ) → j < k → start + j * period < now j)
      → (t' : Timer) × (r' : Reactor queue channel) × (poll_times k 0 now
            (interval_at start period)
            w
            r
          ≡ some (ticks k start period, t', r'))
        × (t'.deadline ≡ some (start + k * period))
  unfolding interval_at
  poll_times-ticks k now start period w r s two fits late =
      poll_times_from k 0 now (interval_at start period) start period w r s two refl refl fits
        (λ j h. let e : 0 + j ≡ j = omega arith in rw e (late j h))

  -- In a reactor that is sound with two spare pushes, where no instant is as late as
  -- `Duration::MAX`, a timer made by `at` and polled behind its deadline returns it, and is pending
  -- whenever it is polled again.
  pub at_fires_once :
      (n : ℕ) (deadline now : Instant) (w : Waker) (r : Reactor queue channel)
      → IsSound queue channel (suc (suc n)) r
      → 2 ≤ fuel
      → deadline < now
      → max_instant < duration_max
      → (t' : Timer) × (r' : Reactor queue channel) × (poll_next queue channel max_instant fuel
            (at deadline)
            now
            w
            r
          ≡ some (ready (some deadline), t', r'))
        × ((later : Instant) (v : Waker) (r'' : Reactor queue channel)
            → poll_next queue channel max_instant fuel t' later v r'' ≡ some (pending, t', r''))
  unfolding at poll_next
  at_fires_once n deadline now w r s two late small =
      let (t', r', eq, nx, p, s') =
        poll_next-Next n (at deadline) deadline now w r s two refl late in
      let never_again : checked_add max_instant deadline duration_max ≡ none = ground arith in
      let ended : (t'.id_and_waker ≡ none) × (t'.deadline ≡ none) = rw never_again at nx in
      (t', r', eq, λ later v r''. ground arith)

  -- In a reactor that is sound with a spare push, a timer with a deadline and an id is the new
  -- interval's after `set_interval_at`, without an id; the reactor is less its old entry, and has no
  -- new one for it.
  pub set_interval_at_forgets :
      (n : ℕ) (t : Timer) (deadline start : Instant) (id period : ℕ) (w : Waker)
      (r : Reactor queue channel)
      → IsSound queue channel (suc n) r
      → 2 ≤ fuel
      → t.deadline ≡ some deadline
      → t.id_and_waker ≡ some (id, w)
      → (r' : Reactor queue channel) × (set_interval_at queue channel max_instant fuel t start
            period r
          ≡ some (interval_at start period, r'))
        × (settled queue channel r' ≡ Wheel.remove deadline id (settled queue channel r))
  unfolding set_interval_at interval_at deregister
  set_interval_at_forgets n t deadline start id period w r s two d i =
      let (r', eq, _, st) = deregister-settled n r deadline (some (id, w)) s two in
      (r', ground arith, st)
