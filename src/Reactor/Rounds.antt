-- ===== src/Reactor/Rounds.antt =====
-- src/reactor.rs, `process_timers`: which timers a round wakes, which it leaves, and the deadline
-- that it reports.
use async_winit.Prelude.{
  ℕ, ◌+◌, ◌≤◌, ◌≡◌, refl, false, Option, none, some, List, [], ◌∷◌, ◌++◌, sym, map, head?,
  map_option, arith,
}
use async_winit.Task.{Waker}
use async_winit.Time.{Instant}
use async_winit.Sync.{QueueApi}
use async_winit.Wheel.{Entry, Wheel, IsSorted, Behind, before, keys_before, split_off}
use async_winit.Wheel.Order.{split_off-IsSorted}
use async_winit.Reactor.{TimerOp, Reactor, process_timers}
use async_winit.Reactor.Timers.{settled, IsSound, process_timer_ops-settled, apply_ops-IsSorted}

-- Every entry is due at this time.
abbrev pub DueBy : Instant → Wheel → Type 0
DueBy now [] = Unit {0}
DueBy now (e ∷ es) = (e.deadline ≤ now) × DueBy now es

-- Every entry is due at this time or later.
abbrev pub DueFrom : Instant → Wheel → Type 0
DueFrom t [] = Unit {0}
DueFrom t (e ∷ es) = (t ≤ e.deadline) × DueFrom t es

DueBy-keys_before : (now : Instant) (es : Wheel) → DueBy now (keys_before (now + 1) 0 es)
unfolding keys_before
DueBy-keys_before now [] = tt
DueBy-keys_before now (e ∷ es) = ground (arith, DueBy-keys_before now es)

DueFrom-split_off : (t : Instant) (es : Wheel) → DueFrom t (split_off t 0 es)
unfolding split_off
DueFrom-split_off t [] = tt
DueFrom-split_off t (e ∷ es) = ground (arith, DueFrom-split_off t es)

keys_before-nil :
    (t : Instant) (i : ℕ) (u : Instant) (j : ℕ) (es : Wheel)
    → before u j t i ≡ false
    → Behind u j es
    → keys_before t i es ≡ []
unfolding keys_before
keys_before-nil t i u j [] h b = refl
keys_before-nil t i u j (e ∷ es) h b = ground (arith, keys_before-nil t i u j es h b.1)

-- A sorted wheel is what comes before the key, and then what does not.
keys_before-append :
    (t : Instant) (i : ℕ) (es : Wheel) → IsSorted es → keys_before t i es ++ split_off t i es ≡ es
unfolding keys_before split_off
keys_before-append t i [] s = refl
keys_before-append t i (e ∷ es) s =
    ground (arith, keys_before-append t i es s.1, keys_before-nil t i e.deadline e.id es)

DueFrom-Behind : (t : Instant) (i : ℕ) (es : Wheel) → Behind t i es → DueFrom t es
DueFrom-Behind t i [] b = tt
DueFrom-Behind t i (e ∷ es) b = (ground arith, DueFrom-Behind t i es b.1)

-- The time to wait for: now, if a timer is ready, and otherwise the first deadline.
abbrev pub wait_until : Instant → Wheel → Wheel → Option Instant
wait_until now [] pending = map_option (λ e. e.deadline) (head? pending)
wait_until now (_ ∷ _) pending = some now

-- No entry is due before this time, and with no time there is no entry.
abbrev pub NoneBefore : Option Instant → Wheel → Type 0
NoneBefore none es = es ≡ []
NoneBefore (some u) es = DueFrom u es

DueFrom-le : (t u : Instant) (es : Wheel) → t ≤ u → DueFrom u es → DueFrom t es
DueFrom-le t u [] h d = tt
DueFrom-le t u (e ∷ es) h d = (omega (arith, d.0), DueFrom-le t u es h d.1)

NoneBefore-wait_until :
    (now : Instant) (ready pending : Wheel)
    → IsSorted pending
    → DueFrom (now + 1) pending
    → NoneBefore (wait_until now ready pending) pending
NoneBefore-wait_until now [] [] s d = refl
NoneBefore-wait_until now [] (e ∷ es) s d = (omega arith, DueFrom-Behind e.deadline e.id es s.0)
NoneBefore-wait_until now (r ∷ ready) pending s d = DueFrom-le now (now + 1) pending (omega arith) d

module _ (queue : QueueApi TimerOp) {Op : Type 0} (channel : QueueApi Op) where
  -- What a round at the time `now` makes of a wheel.
  pub record Round (wheel : Wheel) (now : Instant) (wakers : List Waker) (t : Reactor queue channel)
      (ws : List Waker) (d : Option Instant) : Type 0 where
    pub ready : Wheel
    pub parts : wheel ≡ ready ++ t.timers
    pub ready_due : DueBy now ready
    pub others_later : DueFrom (now + 1) t.timers
    pub is_sorted : IsSorted t.timers
    pub wakes : ws ≡ wakers ++ map (λ (e : Entry). e.waker) ready
    pub deadline : d ≡ wait_until now ready t.timers
    pub none_before : NoneBefore d t.timers

  -- In a sound reactor, at a time whose successor can be represented, a round of timers succeeds and
  -- works off the queue; it wakes the timers of a first part of the wheel, all due by now, behind
  -- the wakers that were there, leaves the rest, all later and in order, and reports now if a timer
  -- was due, and otherwise the first deadline: no timer that is left is due before the time it
  -- reports.
  pub process_timers-Round :
      (n max_instant : ℕ) (r : Reactor queue channel) (now : Instant) (wakers : List Waker)
      → IsSound queue channel n r
      → now + 1 ≤ max_instant
      → (t : Reactor queue channel) × (ws : List Waker) × (d : Option Instant) × (process_timers
            queue channel max_instant r now wakers
          ≡ some (t, ws, d))
        × (queue.items t.timer_op_queue ≡ [])
        × (t.timer_id ≡ r.timer_id)
        × Round (settled queue channel r) now wakers t ws d
  unfolding process_timers
  process_timers-Round n max_instant r now wakers room fits =
      let (q, eq, empty, cap) = process_timer_ops-settled queue channel n r room in
      let wheel = settled queue channel r in
      let s = apply_ops-IsSorted (queue.items r.timer_op_queue) r.timers room.is_sorted in
      let pending = split_off (now + 1) 0 wheel in
      let ready = keys_before (now + 1) 0 wheel in
      (
        record r { timers = pending; timer_op_queue = q },
        wakers ++ map (λ (e : Entry). e.waker) ready,
        wait_until now ready pending,
        ground (arith, eq),
        empty,
        refl,
        record {
          ready = ready;
          parts = sym (keys_before-append (now + 1) 0 wheel s);
          ready_due = DueBy-keys_before now wheel;
          others_later = DueFrom-split_off (now + 1) wheel;
          is_sorted = split_off-IsSorted (now + 1) 0 wheel s;
          wakes = refl;
          deadline = refl;
          none_before =
              NoneBefore-wait_until now ready pending (split_off-IsSorted (now + 1) 0 wheel s)
                (DueFrom-split_off (now + 1) wheel);
        },
      )
