-- ===== src/Handler/Turns/Runs.antt =====
-- src/handler.rs: listeners that come and go between the turns, and `run_with` from start to end.
use async_winit.Prelude.{
  ℕ, ◌≡◌, true, false, none, some, List, [], ◌∷◌, ◌++◌, has, arith, erase, has-append, has-erase,
}
use async_winit.Slab.{SlabApi}
use async_winit.Handler.{Listener, State, insert}
use async_winit.Handler.Links.{is_key}
use async_winit.Handler.Invariant.{get-none}
use async_winit.Handler.Insert.{insert-Inserted}
use async_winit.Handler.Remove.{remove-Removed}
use async_winit.Handler.Waiter.{notify_next, drop_waiter}
use async_winit.Handler.Turns.{Turn, offered, bearer, Represents}

module _ (slab : SlabApi Listener) {D E : Type 0} where
  -- A new waiter, at whatever time, gets a key that is not in the list, stands last and leaves the
  -- turn alone.
  pub insert-Represents :
      (s : State slab D E) (xs : List ℕ) (turn : Turn)
      → Represents slab s xs turn
      → (k : ℕ) × (t : State slab D E) × (insert slab s ≡ some (k, t))
        × (has k xs ≡ false)
        × Represents slab t (xs ++ k ∷ []) turn
  insert-Represents s xs turn r =
      let (k, t, eq, ins) = insert-Inserted slab s xs r.is_linked in
      (
        k,
        t,
        eq,
        ins.fresh,
        record {
          is_linked = ins.is_linked;
          flags = λ i. ground (
            arith,
            ins.statuses i,
            r.flags i,
            r.present i,
            ins.fresh,
            get-none slab r.is_linked i,
          );
          present = λ i q. ground (arith, has-append i xs (k ∷ []), r.present i);
          idle_eq = λ q. ground (arith, ins.active, r.idle_eq q);
          active_eq = λ i q. let (e, act) = r.active_eq i q in (e, ground (arith, ins.active));
        },
      )

  -- A waiter of the list that has the event neither offered nor held is dropped: it leaves the list,
  -- nobody is woken, and the turn is the same.
  pub drop_waiter-Represents :
      (s : State slab D E) (xs : List ℕ) (turn : Turn) (i : ℕ)
      → Represents slab s xs turn
      → has i xs ≡ true
      → is_key (bearer turn) i ≡ false
      → (t : State slab D E) × (drop_waiter slab s i ≡ some (t, []))
        × Represents slab t (erase i xs) turn
  unfolding drop_waiter
  drop_waiter-Represents s xs turn i r h other =
      let (l, t, eq, rem) = remove-Removed slab s xs i r.is_linked h in
      (
        t,
        ground (arith, rem.taken, r.flags i),
        record {
          is_linked = rem.is_linked;
          flags = λ j. ground (arith, rem.statuses j, r.flags j, r.flags i);
          present = λ j q. ground (arith, has-erase i j xs r.is_linked.distinct, r.present j);
          idle_eq = λ q. ground (arith, rem.active, r.idle_eq q);
          active_eq = λ j q. let (e, act) = r.active_eq j q in (e, ground (arith, rem.active));
        },
      )

  -- A waiter that is dropped while the event is offered to it panics: the listener is taken out of
  -- the slab and then looked up there.
  pub drop_waiter_panics :
      (s : State slab D E) (xs : List ℕ) (i : ℕ)
      → Represents slab s xs (offered i)
      → drop_waiter slab s i ≡ none
  unfolding drop_waiter notify_next
  drop_waiter_panics s xs i r =
      let (l, t, eq, rem) = remove-Removed slab s xs i r.is_linked (r.present i (ground arith)) in
      ground (arith, rem.statuses i, rem.taken, r.flags i)
