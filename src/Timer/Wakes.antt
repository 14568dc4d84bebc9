-- ===== src/Timer/Wakes.antt =====
-- src/timer.rs: a timer that waits is in the reactor, under the waker of the task that polled it.
use async_winit.Prelude.{
  ℕ, suc, ◌+◌, ◌≤◌, ◌≡◌, refl, true, Option, none, some, List, [], ◌∷◌, ◌++◌, Bool-cases, inl, inr,
  arith, map, has, has-append,
}
use async_winit.Task.{Waker, will_wake, pending}
use async_winit.Time.{Instant}
use async_winit.Sync.{QueueApi}
use async_winit.Wheel.{Entry, Wheel, lookup}
use async_winit.Wheel.Order.{lookup-insert}
use async_winit.Reactor.{TimerOp, Reactor, process_timers}
use async_winit.Reactor.Timers.{settled, IsSound, insert_timer-settled, remove_timer-settled}
use async_winit.Reactor.Rounds.{DueFrom, process_timers-Round}
use async_winit.Timer.{Timer, register, wait, poll_next}

lookup_later : (t : Instant) (id : ℕ) (es : Wheel) → DueFrom (t + 1) es → lookup t id es ≡ none
unfolding lookup
lookup_later t id [] h = refl
lookup_later t id (e ∷ es) h = ground (arith, lookup_later t id es h.1)

lookup_woken :
    (t : Instant) (id : ℕ) (es later : Wheel) (w : Waker)
    → lookup t id (es ++ later) ≡ some w
    → lookup t id later ≡ none
    → has w (map (λ (e : Entry). e.waker) es) ≡ true
unfolding lookup
lookup_woken t id [] later w h l = cc
lookup_woken t id (e ∷ es) later w h l = ground (arith, lookup_woken t id es later w)

module _ (queue : QueueApi TimerOp) {Op : Type 0} (channel : QueueApi Op)
    (max_instant fuel : ℕ) where
  -- The timer `t` waits for `deadline`, and the reactor wakes `w` then.
  pub record Waits (t : Timer) (deadline : Instant) (w : Waker) (r : Reactor queue channel)
      : Type 0 where
    pub id : ℕ
    pub registered : t.id_and_waker ≡ some (id, w)
    pub deadline_eq : t.deadline ≡ some deadline
    pub found : lookup deadline id (settled queue channel r) ≡ some w

  pub IsSound-le :
      {n : ℕ} {r : Reactor queue channel}
      → IsSound queue channel (suc n) r
      → IsSound queue channel n r
  IsSound-le s = record {
    is_sorted = s.is_sorted;
    within = s.within;
    some_room = s.some_room;
    spare = elim s.spare [ inl bounded ↦ inl bounded | inr free ↦ inr (omega arith) ];
  }

  pub register-Waits :
      (n : ℕ) (t : Timer) (deadline : Instant) (w : Waker) (r : Reactor queue channel)
      → IsSound queue channel (suc n) r
      → 2 ≤ fuel
      → (t' : Timer) × (r' : Reactor queue channel) × (register queue channel max_instant fuel t
            deadline w r
          ≡ some (t', r'))
        × Waits t' deadline w r'
        × (t'.period ≡ t.period)
        × IsSound queue channel n r'
  unfolding register
  register-Waits n t deadline w r s two =
      let (r', eq, st, _, s') = insert_timer-settled queue channel n fuel r deadline w s two in
      (
        record t { id_and_waker = some (r.timer_id, w); deadline = some deadline },
        r',
        ground arith,
        record {
          id = r.timer_id;
          registered = refl;
          deadline_eq = refl;
          found = rw st (
              ground (
                arith,
                lookup-insert deadline r.timer_id w deadline r.timer_id (settled queue channel r),
              ));
        },
        refl,
        s',
      )

  module _ (n : ℕ) (t : Timer) (deadline : Instant) (w : Waker) (r : Reactor queue channel)
      (sound : IsSound queue channel (suc (suc n)) r) (two : 2 ≤ fuel) where
    wait-Waits :
        (now : Instant) (registered : Option (ℕ × Waker))
        → t.id_and_waker ≡ registered
        → t.deadline ≡ some deadline
        → ((id : ℕ) (old : Waker)
            → registered ≡ some (id, old)
            → lookup deadline id (settled queue channel r) ≡ some old)
        → (t' : Timer) × (r' : Reactor queue channel) × (wait queue channel max_instant fuel t
              registered deadline w r
            ≡ some (pending, t', r'))
          × Waits t' deadline w r'
          × IsSound queue channel n r'
    unfolding wait
    wait-Waits now none e d found =
        let (t', r', eq, wt, _, s) = register-Waits (suc n) t deadline w r sound two in
        (t', r', ground arith, wt, IsSound-le s)
    wait-Waits now (some (id, old)) e d found = elim (Bool-cases (will_wake old w)) [
      | inl same ↦ (
        t,
        r,
        ground arith,
        record {
          id = id;
          registered = ground arith;
          deadline_eq = d;
          found = ground (arith, found id old refl);
        },
        IsSound-le (IsSound-le sound),
      )
      | inr other ↦
          let (r1, eq1, _, _, s1) =
            remove_timer-settled queue channel (suc n) fuel r deadline id sound two in
          let (t', r', eq, wt, _, s) = register-Waits n t deadline w r1 s1 two in
          (t', r', ground arith, wt, s)
    ]

    -- In a reactor that is sound with two spare pushes, a timer that is polled at its deadline or
    -- before, and that is in the reactor if it has an id, is pending, and the reactor has it under the
    -- waker of this poll.
    pub poll_next-Waits :
        (now : Instant)
        → t.deadline ≡ some deadline
        → now ≤ deadline
        → ((id : ℕ) (old : Waker)
            → t.id_and_waker ≡ some (id, old)
            → lookup deadline id (settled queue channel r) ≡ some old)
        → (t' : Timer) × (r' : Reactor queue channel) × (poll_next queue channel max_instant fuel t
              now w r
            ≡ some (pending, t', r'))
          × Waits t' deadline w r'
          × IsSound queue channel n r'
    unfolding poll_next
    poll_next-Waits now d early found =
        let (t', r', eq, wt, s) = wait-Waits now t.id_and_waker refl d found in
        (t', r', ground arith, wt, s)

  -- In a sound reactor, where the instant behind the deadline can be represented, a round of timers
  -- at the very deadline of a waiting timer wakes its task; polled at the same time the timer is
  -- pending and stays as it is, and the reactor has no timer with this deadline any more.
  pub poll_next_lost :
      (n : ℕ) (t : Timer) (deadline : Instant) (w : Waker) (r : Reactor queue channel)
      (wakers : List Waker)
      → IsSound queue channel n r
      → deadline + 1 ≤ max_instant
      → (wt : Waits t deadline w r)
      → (r' : Reactor queue channel) × (ws : List Waker) × (d : Option Instant) × (process_timers
            queue channel max_instant r deadline wakers
          ≡ some (r', ws, d))
        × (poll_next queue channel max_instant fuel t deadline w r' ≡ some (pending, t, r'))
        × (has w ws ≡ true)
        × ((id : ℕ) → lookup deadline id (settled queue channel r') ≡ none)
  unfolding poll_next wait
  poll_next_lost n t deadline w r wakers sound fits wt =
      let (r', ws, d, eq, empty, _, round) =
        process_timers-Round queue channel n max_instant r deadline wakers sound fits in
      let gone = lookup_later deadline wt.id r'.timers round.others_later in
      let woken =
        lookup_woken deadline wt.id round.ready r'.timers w (rw round.parts at wt.found) gone in
      (
        r',
        ws,
        d,
        eq,
        ground (arith, wt.registered, wt.deadline_eq),
        ground (arith, round.wakes, has-append w wakers (map (λ (e : Entry). e.waker) round.ready)),
        λ id. ground (arith, empty, lookup_later deadline id r'.timers round.others_later),
      )
