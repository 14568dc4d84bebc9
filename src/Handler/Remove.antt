-- ===== src/Handler/Remove.antt =====
-- src/handler.rs, `State::remove`: a listener leaves the list, and its neighbours are joined.
use async_winit.Prelude.{
  ℕ, ◌≡◌, refl, Option, none, some, List, true, has, map_option, is_some, arith, ◌==◌,
  if◌then◌else◌, erase, Distinct-erase, Option-cases, inl, inr,
}
use async_winit.Slab.{SlabApi}
use async_winit.Handler.{Listener, State, remove, modify, modify_opt}
use async_winit.Handler.Links.{
  links-erase, is_key, ends, is_some-links, links-next, links-prev, links_irrefl, neighbours_ne,
}
use async_winit.Handler.Invariant.{status, IsLinked, get-some, unlink_ends-ends}

module _ (slab : SlabApi Listener) where
  -- A write at an optional key that is taken.
  modify_opt_lem :
      (ls : slab.Slab) (o : Option ℕ) (f : Listener → Listener)
      → ((i : ℕ) → is_key o i ≡ true → is_some (slab.get ls i) ≡ true)
      → (ls' : slab.Slab) × (modify_opt slab ls o f ≡ some ls')
        × ((j : ℕ)
            → slab.get ls' j ≡ (if is_key o j then map_option f (slab.get ls j) else slab.get ls j))
  unfolding modify_opt modify
  modify_opt_lem ls none f h = (ls, refl, λ j. refl)
  modify_opt_lem ls (some i) f h = elim (Option-cases (slab.get ls i)) [
    | inl e ↦ absurd (ground (arith, h i))
    | inr (l, e) ↦
        (slab.set ls i (f l), ground arith, λ j. ground (arith, slab.get-set ls i l (f l) j))
  ]

  module _ {D E : Type 0} where
    -- The state less the listener `l` at `k`.
    pub record Removed (s : State slab D E) (xs : List ℕ) (k : ℕ) (l : Listener)
        (t : State slab D E) : Type 0 where
      pub taken : slab.get s.listeners k ≡ some l
      pub is_linked : IsLinked slab t (erase k xs)
      pub statuses :
          (i : ℕ)
          → map_option status (slab.get t.listeners i)
            ≡ (if k == i then none else map_option status (slab.get s.listeners i))
      pub directs : t.directs ≡ s.directs
      pub waker : t.waker ≡ s.waker
      pub active : t.active ≡ s.active

    -- Where the listeners with the keys `xs` form a doubly linked list and `k` is one of them,
    -- `remove` of `k` succeeds and returns that listener; the others form a list in the same order,
    -- with their wakers and flags, and the rest of the state is the same.
    pub remove-Removed :
        (s : State slab D E) (xs : List ℕ) (k : ℕ)
        → IsLinked slab s xs
        → has k xs ≡ true
        → (l : Listener) × (t : State slab D E) × (remove slab s k ≡ some (l, t))
          × Removed s xs k l t
    unfolding remove
    remove-Removed s xs k v h =
        let (l, held, lk) = get-some slab v k h in
        let ls = slab.remove s.listeners k in
        let gone = slab.get-remove s.listeners k in
        let (self_p, self_n) = links_irrefl none xs k l.prev l.next v.distinct refl lk in
        let (ls1, e1, g1) =
          modify_opt_lem ls l.next (λ n. record n { prev = l.prev })
            (λ i q. ground (
              arith,
              gone i,
              v.linked i,
              is_some-links none xs i,
              links-next none xs k l.prev l.next i,
            )) in
        let (ls2, e2, g2) =
          modify_opt_lem ls1 l.prev (λ n. record n { next = l.next })
            (λ i q. ground (
              arith,
              g1 i,
              gone i,
              v.linked i,
              is_some-links none xs i,
              links-prev none xs k l.prev l.next i,
            )) in
        (
          l,
          record s { listeners = ls2; head_and_tail = ends (erase k xs) },
          ground (arith, v.ends_eq, unlink_ends-ends xs k l v.distinct lk),
          record {
            taken = held;
            is_linked = record {
              linked = λ i. ground (
                arith,
                g2 i,
                g1 i,
                gone i,
                v.linked i,
                neighbours_ne none xs k l.prev l.next i v.distinct (λ q. cc) lk,
                links-erase none xs k l.prev l.next i v.distinct (λ j q. cc) lk,
              );
              distinct = Distinct-erase k xs v.distinct;
              ends_eq = refl;
            };
            statuses = λ i. ground (arith, g2 i, g1 i, gone i);
            directs = refl;
            waker = refl;
            active = refl;
          },
        )
