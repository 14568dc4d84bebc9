-- ===== src/Handler/Turns/Polls.antt =====
-- src/handler.rs: what a poll of a waiter, of `hold` and of `run_with` returns.
use async_winit.Prelude.{
  ℕ, ◌≡◌, refl, true, false, Option, none, some, List, [], has, ap, sym, ◌∙◌, Option-cases, inl,
  inr, arith, ◌==◌, map_option,
}
use async_winit.Slab.{SlabApi}
use async_winit.Task.{Waker, ready, pending}
use async_winit.Handler.{Listener, State, take_notification, register_waker, keep_waker}
use async_winit.Handler.Links.{is_key, next_of}
use async_winit.Handler.Invariant.{IsLinked, get-some, status}
use async_winit.Handler.Waiter.{poll_next, hold, drop_guard}
use async_winit.Handler.Turns.{Turn, offered, held, offered_to, notified_at, waker_at, Represents}
use async_winit.Handler.Turns.Flags.{take_notification-Sets, register_waker-Sets}
use async_winit.Handler.Turns.Steps.{Passed, notify_next-Passed}

keep_waker-eq : (o : Option Waker) (w : Waker) → keep_waker o w ≡ w
unfolding keep_waker
keep_waker-eq none w = refl
keep_waker-eq (some old) w = ground arith

module _ (slab : SlabApi Listener) {D E : Type 0} where
  -- The waiter at `i` sleeps, with the waker `w`.
  pub record Sleeps (s : State slab D E) (xs : List ℕ) (turn : Turn) (i : ℕ) (w : Waker)
      (t : State slab D E) : Type 0 where
    pub represents : Represents slab t xs turn
    pub registered : waker_at (slab.get t.listeners i) ≡ some w
    pub waker : t.waker ≡ s.waker
    pub active : t.active ≡ s.active
    pub directs : t.directs ≡ s.directs
    pub others :
        (j : ℕ)
        → (i == j) ≡ false
        → map_option status (slab.get t.listeners j) ≡ map_option status (slab.get s.listeners j)

  Passed-of :
      (s1 s : State slab D E) (xs : List ℕ) (i : ℕ) (t : State slab D E) (ws : List Waker)
      → Passed slab s1 xs i t ws
      → s1.active ≡ s.active
      → s1.waker ≡ s.waker
      → s1.directs ≡ s.directs
      → ((j : ℕ) → waker_at (slab.get s1.listeners j) ≡ waker_at (slab.get s.listeners j))
      → Passed slab s xs i t ws
  Passed-of s1 s xs i t ws p act wk ds wakers = record {
    represents = p.represents;
    wakes = elim (Option-cases (next_of xs i)) [
      | inl last ↦ ground (arith, p.wakes)
      | inr (n, more) ↦ ground (arith, p.wakes, wakers n)
    ];
    active = ground (arith, p.active);
    waker = ground (arith, p.waker);
    directs = p.directs ∙ ds;
    others = λ j q. p.others j q ∙ wakers j;
  }

  module _ (s : State slab D E) (xs : List ℕ) (i : ℕ) (w : Waker) where
    -- What `take_notification` leaves where the event is offered to `i`.
    taken_turn :
        Represents slab s xs (offered i)
        → (e : E) × (t : State slab D E) × (s.active ≡ some e)
          × (take_notification slab s i ≡ some (true, t))
          × IsLinked slab t xs
          × (t.active ≡ some e)
          × (t.waker ≡ s.waker)
          × (t.directs ≡ s.directs)
          × ((j : ℕ) → notified_at (slab.get t.listeners j) ≡ false)
          × ((j : ℕ) → waker_at (slab.get t.listeners j) ≡ waker_at (slab.get s.listeners j))
    taken_turn r =
        let (l, here, _) = get-some slab r.is_linked i (r.present i (ground arith)) in
        let (e, act) = r.active_eq i refl in
        let (t, eq, set) = take_notification-Sets slab r.is_linked i l here in
        (
          e,
          t,
          act,
          ground (arith, r.flags i),
          set.is_linked,
          ground (arith, set.active),
          set.waker,
          set.directs,
          (λ j. ground (arith, set.statuses j, r.flags j)),
          λ j. ground (arith, set.statuses j),
        )

    -- What `take_notification` and `register_waker` leave where it is not.
    slept :
        (turn : Turn)
        → Represents slab s xs turn
        → has i xs ≡ true
        → is_key (offered_to turn) i ≡ false
        → (t u : State slab D E) × (take_notification slab s i ≡ some (false, t))
          × (register_waker slab t i w ≡ some u)
          × Sleeps s xs turn i w u
    slept turn r h no_turn =
        let (l, here, _) = get-some slab r.is_linked i h in
        let (t, took, set) = take_notification-Sets slab r.is_linked i l here in
        let off : l.notified ≡ false = ground (arith, r.flags i) in
        let (l', here', _) = get-some slab set.is_linked i h in
        let (u, reg, set') = register_waker-Sets slab set.is_linked i l' here' w in
        let kept = keep_waker-eq l'.waker w in
        (
          t,
          u,
          took ∙ ap (λ b. some (b, t)) off,
          reg,
          record {
            represents = record {
              is_linked = set'.is_linked;
              flags =
                  λ j. ground (arith, set'.statuses j, set.statuses j, r.flags j, set.statuses i);
              present = r.present;
              idle_eq = λ q. ground (arith, set'.active, set.active, r.idle_eq q);
              active_eq = λ j q.
                  let (e, act) = r.active_eq j q in (e, ground (arith, set'.active, set.active));
            };
            registered = ground (arith, set'.statuses i);
            waker = set'.waker ∙ set.waker;
            active = set'.active ∙ set.active;
            directs = set'.directs ∙ set.directs;
            others = λ j q. ground (arith, set'.statuses j, set.statuses j);
          },
        )

    -- A waiter that the event is offered to returns it when it is polled, and passes the turn to the
    -- next listener, which is woken, or ends the event and wakes the task that runs it.
    pub poll_next-offered :
        Represents slab s xs (offered i)
        → (e : E) × (t : State slab D E) × (ws : List Waker) × (s.active ≡ some e)
          × (poll_next slab s i w ≡ some (ready (some e), t, ws))
          × Passed slab s xs i t ws
    unfolding poll_next
    poll_next-offered r =
        let (e, s1, act, took, v, act1, wk, ds, quiet, wakers) = taken_turn r in
        let (t, ws, eq, p) =
          notify_next-Passed slab s1 xs i e v quiet (r.present i (ground arith)) act1 in
        (e, t, ws, act, ground arith, Passed-of s1 s xs i t ws p (act1 ∙ sym act) wk ds wakers)

    -- A waiter of the list that has no offer is pending when it is polled and wakes nobody; its waker
    -- is that of this poll, and the listeners, their order, the wakers and the flags of the others,
    -- the direct listeners, the turn, the event and the waker of the running task are the same.
    pub poll_next-waits :
        (turn : Turn)
        → Represents slab s xs turn
        → has i xs ≡ true
        → is_key (offered_to turn) i ≡ false
        → (t : State slab D E) × (poll_next slab s i w ≡ some (pending, t, []))
          × Sleeps s xs turn i w t
    unfolding poll_next
    poll_next-waits turn r h no_turn =
        let (t, u, took, reg, sl) = slept turn r h no_turn in (u, ground arith, sl)

    -- `hold` of the waiter that the event is offered to returns the event and keeps the turn.
    pub hold-offered :
        Represents slab s xs (offered i)
        → (e : E) × (t : State slab D E) × (s.active ≡ some e)
          × (hold slab s i w ≡ some (ready e, t))
          × Represents slab t xs (held i)
          × (t.active ≡ some e)
    unfolding hold
    hold-offered r =
        let (e, t, act, took, v, act1, wk, ds, quiet, wakers) = taken_turn r in
        (
          e,
          t,
          act,
          ground arith,
          record {
            is_linked = v;
            flags = quiet;
            present = r.present;
            idle_eq = λ q. cc;
            active_eq = λ j q. (e, act1);
          },
          act1,
        )

    pub hold-waits :
        (turn : Turn)
        → Represents slab s xs turn
        → has i xs ≡ true
        → is_key (offered_to turn) i ≡ false
        → (t : State slab D E) × (hold slab s i w ≡ some (pending, t)) × Sleeps s xs turn i w t
    unfolding hold
    hold-waits turn r h no_turn =
        let (t, u, took, reg, sl) = slept turn r h no_turn in (u, ground arith, sl)

    -- The drop of the guard of a waiter that holds the event passes the turn to the next listener,
    -- which is woken, or ends the event and wakes the task that runs it.
    pub drop_guard-held :
        Represents slab s xs (held i)
        → (t : State slab D E) × (ws : List Waker) × (drop_guard slab s i ≡ some (t, ws))
          × Passed slab s xs i t ws
    unfolding drop_guard
    drop_guard-held r =
        let (e, act) = r.active_eq i refl in
        notify_next-Passed slab s xs i e r.is_linked r.flags (r.present i (ground arith)) act
