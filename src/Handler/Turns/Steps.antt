-- ===== src/Handler/Turns/Steps.antt =====
-- src/handler.rs: each step of a waiter, of a guard and of `run_with` moves the turn.
use async_winit.Prelude.{
  ℕ, ◌≡◌, refl, true, false, Option, none, some, List, has, arith, inl, inr, Option-cases,
}
use async_winit.Slab.{SlabApi}
use async_winit.Task.{Waker, wake_opt}
use async_winit.Handler.{Listener, State}
use async_winit.Handler.Links.{is_key, next_of, links-next_of, has-next_of}
use async_winit.Handler.Invariant.{IsLinked, get-some}
use async_winit.Handler.Waiter.{notify_next}
use async_winit.Handler.Turns.{offer, notified_at, waker_at, Represents}
use async_winit.Handler.Turns.Flags.{notify-Sets}

module _ (slab : SlabApi Listener) {D E : Type 0} where
  -- Who is woken when the turn leaves `i`: the next listener, or the task in `run_with`.
  abbrev pub woken : State slab D E → List ℕ → ℕ → Option Waker
  woken s xs i = elim (next_of xs i) [ none ↦ s.waker | some n ↦ waker_at (slab.get s.listeners n) ]

  -- The turn has left `i`.
  pub record Passed (s : State slab D E) (xs : List ℕ) (i : ℕ) (t : State slab D E)
      (ws : List Waker) : Type 0 where
    pub represents : Represents slab t xs (offer (next_of xs i))
    pub wakes : ws ≡ wake_opt (woken s xs i)
    pub active : t.active ≡ elim (next_of xs i) [ none ↦ none | some n ↦ s.active ]
    pub waker : t.waker ≡ elim (next_of xs i) [ none ↦ none | some n ↦ s.waker ]
    pub directs : t.directs ≡ s.directs
    pub others :
        (j : ℕ)
        → is_key (next_of xs i) j ≡ false
        → waker_at (slab.get t.listeners j) ≡ waker_at (slab.get s.listeners j)

  pub notify_next-Passed :
      (s : State slab D E) (xs : List ℕ) (i : ℕ) (e : E)
      → IsLinked slab s xs
      → ((j : ℕ) → notified_at (slab.get s.listeners j) ≡ false)
      → has i xs ≡ true
      → s.active ≡ some e
      → (t : State slab D E) × (ws : List Waker) × (notify_next slab s i ≡ some (t, ws))
        × Passed s xs i t ws
  unfolding notify_next
  notify_next-Passed s xs i e v quiet h act =
      let (l, here, lk) = get-some slab v i h in
      let nx = links-next_of none xs i l.prev l.next lk in
      elim (Option-cases (next_of xs i)) [
        | inl last ↦ (
          record s { active = none; waker = none },
          wake_opt s.waker,
          ground arith,
          record {
            represents = rw last (record {
              is_linked = record { linked = v.linked; distinct = v.distinct; ends_eq = v.ends_eq };
              flags = λ j. ground (arith, quiet j);
              present = λ j q. cc;
              idle_eq = λ _. refl;
              active_eq = λ j q. cc;
            });
            wakes = ground arith;
            active = ground arith;
            waker = ground arith;
            directs = refl;
            others = λ j q. refl;
          },
        )
        | inr (n, more) ↦
            let (ln, at_n, _) = get-some slab v n (has-next_of xs i n more) in
            let (t, eq, set) = notify-Sets slab v n ln at_n (ground (arith, quiet n)) in
            (
              t,
              wake_opt ln.waker,
              ground arith,
              record {
                represents = rw more (record {
                  is_linked = set.is_linked;
                  flags = λ j. ground (arith, quiet j, set.statuses j);
                  present = λ j q. ground (arith, has-next_of xs i n more);
                  idle_eq = λ q. cc;
                  active_eq = λ j q. (e, ground (arith, set.active));
                });
                wakes = ground arith;
                active = ground (arith, set.active);
                waker = ground (arith, set.waker);
                directs = set.directs;
                others = λ j q. ground (arith, set.statuses j);
              },
            )
      ]
