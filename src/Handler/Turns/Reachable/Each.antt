-- ===== src/Handler/Turns/Reachable/Each.antt =====
-- src/handler.rs: each step of the code keeps a state that stands for a list of listeners and a turn.
use async_winit.Prelude.{
  ℕ, ◌≡◌, refl, Bool, true, false, Option, none, some, List, [], ◌∷◌, has, erase, arith, Bool-cases,
  inl, inr, sym, ap, ◌∙◌,
}
use async_winit.Slab.{SlabApi}
use async_winit.Task.{Waker, Poll, ready, pending}
use async_winit.Handler.{Listener, State, new}
use async_winit.Handler.Links.{is_key, next_of, links-none}
use async_winit.Handler.Waiter.{poll_next, hold, drop_guard, drop_waiter, start, poll_done}
use async_winit.Handler.Turns.{
  Turn, idle, offered, held, offer, offered_to, bearer, holder, Represents,
}
use async_winit.Handler.Turns.Polls.{
  poll_next-offered, poll_next-waits, hold-offered, hold-waits, drop_guard-held,
}
use async_winit.Handler.Turns.Runs.{insert-Represents, drop_waiter-Represents, drop_waiter_panics}
use async_winit.Handler.Turns.Delivery.{start-Represents, poll_done-idle, poll_done-waits}
use async_winit.Handler.Turns.Reachable.{
  Step, joins, leaves, polls, holds, hold_waits, releases, starts, awaits, Reachable, initial,
  later, Stands,
}

holder-offer : (o : Option ℕ) → holder (offer o) ≡ none
holder-offer none = refl
holder-offer (some i) = refl

offered_only : (turn : Turn) (i : ℕ) → is_key (offered_to turn) i ≡ true → turn ≡ offered i
offered_only idle i q = absurd (ground arith)
offered_only (offered j) i q = ap offered (ground arith)
offered_only (held j) i q = absurd (ground arith)

offered_free : (turn : Turn) (i : ℕ) → is_key (offered_to turn) i ≡ true → holder turn ≡ none
offered_free idle i q = refl
offered_free (offered j) i q = refl
offered_free (held j) i q = absurd (ground arith)

held_only : (turn : Turn) (i : ℕ) → holder turn ≡ some i → turn ≡ held i
held_only idle i q = absurd (ground arith)
held_only (offered j) i q = absurd (ground arith)
held_only (held j) i q = ap held (ground arith)

free :
    (turn : Turn) (g : Option ℕ) (i : ℕ)
    → holder turn ≡ g
    → is_key g i ≡ false
    → is_key (offered_to turn) i ≡ false
    → is_key (bearer turn) i ≡ false
free idle g i hd not_i other = refl
free (offered j) g i hd not_i other = other
free (held j) g i hd not_i other = ground arith

module _ (slab : SlabApi Listener) {D E : Type 0} where
  moved :
      (turn : Turn) {t' t : State slab D E} {xs ys : List ℕ} {g : Option ℕ}
      → Represents slab t' xs turn
      → t' ≡ t
      → ys ≡ xs
      → holder turn ≡ g
      → Stands slab t ys g
  moved turn r q p h = record { turn = turn; represents = rw (sym q, p) r; holds = h }

  module _ (s : State slab D E) (xs : List ℕ) (i : ℕ) (w : Waker) (h : has i xs ≡ true) where
    poll_next-Stands :
        (turn : Turn) (g : Option ℕ) (o : Poll (Option E)) (t : State slab D E) (ws : List Waker)
        → Represents slab s xs turn
        → holder turn ≡ g
        → poll_next slab s i w ≡ some (o, t, ws)
        → Stands slab t xs g
    poll_next-Stands turn g o t ws r hd e = elim (Bool-cases (is_key (offered_to turn) i)) [
      | inl mine ↦
          let (e', t', ws', _, eq, p) =
            poll_next-offered slab s xs i w (rw (offered_only turn i mine) at r) in
          moved (offer (next_of xs i)) p.represents (ground arith) refl
            (holder-offer (next_of xs i) ∙ sym (offered_free turn i mine) ∙ hd)
      | inr other ↦
          let (t', eq, sl) = poll_next-waits slab s xs i w turn r h other in
          moved turn sl.represents (ground arith) refl hd
    ]

    hold-Stands :
        (turn : Turn) (g : Option ℕ) (e : E) (t : State slab D E)
        → Represents slab s xs turn
        → holder turn ≡ g
        → hold slab s i w ≡ some (ready e, t)
        → Stands slab t xs (some i)
    hold-Stands turn g e t r hd q = elim (Bool-cases (is_key (offered_to turn) i)) [
      | inl mine ↦
          let (e', t', _, eq, r', _) =
            hold-offered slab s xs i w (rw (offered_only turn i mine) at r) in
          moved (held i) r' (ground arith) refl refl
      | inr other ↦
          let (t', eq, sl) = hold-waits slab s xs i w turn r h other in absurd (ground arith)
    ]

    hold_waits-Stands :
        (turn : Turn) (g : Option ℕ) (t : State slab D E)
        → Represents slab s xs turn
        → holder turn ≡ g
        → hold slab s i w ≡ some (pending, t)
        → Stands slab t xs g
    hold_waits-Stands turn g t r hd q = elim (Bool-cases (is_key (offered_to turn) i)) [
      | inl mine ↦
          let (e', t', _, eq, r', _) =
            hold-offered slab s xs i w (rw (offered_only turn i mine) at r) in
          absurd (ground arith)
      | inr other ↦
          let (t', eq, sl) = hold-waits slab s xs i w turn r h other in
          moved turn sl.represents (ground arith) refl hd
    ]

    drop_waiter-Stands :
        (turn : Turn) (g : Option ℕ) (t : State slab D E) (ws : List Waker)
        → Represents slab s xs turn
        → holder turn ≡ g
        → is_key g i ≡ false
        → drop_waiter slab s i ≡ some (t, ws)
        → Stands slab t (erase i xs) g
    drop_waiter-Stands turn g t ws r hd not_i q = elim (Bool-cases (is_key (offered_to turn) i)) [
      | inl mine ↦
          let none_left = drop_waiter_panics slab s xs i (rw (offered_only turn i mine) at r) in
          absurd (ground arith)
      | inr other ↦
          let (t', eq, r') =
            drop_waiter-Represents slab s xs turn i r h (free turn g i hd not_i other) in
          moved turn r' (ground arith) refl hd
    ]

  drop_guard-Stands :
      (s : State slab D E) (xs : List ℕ) (i : ℕ) (turn : Turn) (g : Option ℕ) (t : State slab D E)
      (ws : List Waker)
      → Represents slab s xs turn
      → holder turn ≡ some i
      → drop_guard slab s i ≡ some (t, ws)
      → Stands slab t xs none
  drop_guard-Stands s xs i turn g t ws r hd q =
      let (t', ws', eq, p) = drop_guard-held slab s xs i 0 (rw (held_only turn i hd) at r) in
      moved (offer (next_of xs i)) p.represents (ground arith) refl (holder-offer (next_of xs i))

  start-Stands :
      (s : State slab D E) (xs : List ℕ) (turn : Turn) (g : Option ℕ) (e : E) (b : Bool)
      (t : State slab D E) (ws : List Waker)
      → Represents slab s xs turn
      → holder turn ≡ g
      → s.active ≡ none
      → start slab s e ≡ some (b, t, ws)
      → Stands slab t xs g
  unfolding start
  start-Stands s [] turn g e b t ws r hd not_i q =
      moved turn r (ground (arith, r.is_linked.ends_eq)) refl hd
  start-Stands s (x ∷ xs) idle g e b t ws r hd not_i q =
      let (t', eq, act, _, r') = start-Represents slab s x xs e r in
      moved (offered x) r' (ground arith) refl hd
  start-Stands s (x ∷ xs) (offered j) g e b t ws r hd not_i q =
      let (e', act) = r.active_eq j refl in absurd (ground arith)
  start-Stands s (x ∷ xs) (held j) g e b t ws r hd not_i q =
      let (e', act) = r.active_eq j refl in absurd (ground arith)

  poll_done-Stands :
      (s : State slab D E) (xs : List ℕ) (turn : Turn) (g : Option ℕ) (w : Waker)
      (o : Poll (Unit {0})) (t : State slab D E)
      → Represents slab s xs turn
      → holder turn ≡ g
      → poll_done slab s w ≡ (o, t)
      → Stands slab t xs g
  unfolding poll_done
  poll_done-Stands s [] turn g w o t r hd q =
      moved turn r (ground (arith, r.is_linked.ends_eq)) refl hd
  poll_done-Stands s (x ∷ xs) idle g w o t r hd q =
      let eq = poll_done-idle slab s (x ∷ xs) w r in moved idle r (ground arith) refl hd
  poll_done-Stands s (x ∷ xs) (offered j) g w o t r hd q =
      let (t', eq, _, _, _, r') = poll_done-waits slab s x xs (offered j) j w r refl in
      moved (offered j) r' (ground arith) refl hd
  poll_done-Stands s (x ∷ xs) (held j) g w o t r hd q =
      let (t', eq, _, _, _, r') = poll_done-waits slab s x xs (held j) j w r refl in
      moved (held j) r' (ground arith) refl hd

  Step-Stands :
      (s : State slab D E) (xs : List ℕ) (g : Option ℕ) (t : State slab D E) (ys : List ℕ)
      (g' : Option ℕ)
      → Stands slab s xs g
      → Step slab s xs g t ys g'
      → Stands slab t ys g'
  Step-Stands s xs g t ys g' st (joins k q p u) =
      let (k', t', eq, _, r') = insert-Represents slab s xs st.turn st.represents in
      moved st.turn r' (ground arith) (ground arith) (st.holds ∙ sym u)
  Step-Stands s xs g t ys g' st (leaves i ws h f q p u) =
      rw (p, u) (drop_waiter-Stands s xs i 0 h st.turn g t ws st.represents st.holds f q)
  Step-Stands s xs g t ys g' st (polls i w o ws h f q p u) =
      rw (p, u) (poll_next-Stands s xs i w h st.turn g o t ws st.represents st.holds q)
  Step-Stands s xs g t ys g' st (holds i w e h f q p u) =
      rw (p, u) (hold-Stands s xs i w h st.turn g e t st.represents st.holds q)
  Step-Stands s xs g t ys g' st (hold_waits i w h f q p u) =
      rw (p, u) (hold_waits-Stands s xs i w h st.turn g t st.represents st.holds q)
  Step-Stands s xs g t ys g' st (releases i ws b q p u) =
      rw (p, u) (drop_guard-Stands s xs i st.turn g t ws st.represents (st.holds ∙ b) q)
  Step-Stands s xs g t ys g' st (starts e b ws free_now q p u) =
      rw (p, u) (start-Stands s xs st.turn g e b t ws st.represents st.holds free_now q)
  Step-Stands s xs g t ys g' st (awaits w o q p u) =
      rw (p, u) (poll_done-Stands s xs st.turn g w o t st.represents st.holds q)

  new-Stands : Stands slab (new slab {D = D} {E = E}) [] none
  new-Stands = record {
    turn = idle;
    represents = record {
      is_linked = record {
        linked = λ i. ground (arith, slab.get-empty i, links-none none [] i refl);
        distinct = tt;
        ends_eq = refl;
      };
      flags = λ i. ground (arith, slab.get-empty i);
      present = λ i q. absurd (ground arith);
      idle_eq = λ q. refl;
      active_eq = λ i q. absurd (ground arith);
    };
    holds = refl;
  }

  -- Whatever steps the waiters, the guards and the task that runs an event take from a new state on,
  -- in any order, where an event is run while none is active: the state stands for the waiters that
  -- live, in the order in which they came, and for a turn, which is held where there is a guard, by
  -- its waiter, and only there.
  pub Reachable-Stands :
      (s : State slab D E) (xs : List ℕ) (g : Option ℕ) → Reachable slab s xs g → Stands slab s xs g
  Reachable-Stands s xs g initial = new-Stands
  Reachable-Stands t ys g' (later r step) =
      Step-Stands _ _ _ t ys g' (Reachable-Stands _ _ _ r) step
