-- ===== src/Handler/Invariant.antt =====
-- src/handler.rs: what it means that the listeners of a state form a doubly linked list.
use async_winit.Prelude.{
  ℕ, ◌≡◌, Option, none, some, List, [], ◌∷◌, Bool, true, false, Distinct, erase, has, map_option,
  arith, Option-cases, inl, inr,
}
use async_winit.Slab.{SlabApi}
use async_winit.Handler.{Listener, State, unlink_ends, modify}
use async_winit.Handler.Links.{
  Link, links, links-none, last_or-some, last_or-erase, ends, is_some-links,
}

abbrev pub link : Listener → Link
link l = (l.prev, l.next)

-- What the links do not concern.
abbrev pub status : Listener → Option ℕ × Bool
status l = (l.waker, l.notified)

module _ (slab : SlabApi Listener) where
  module _ {D E : Type 0} where
    -- The listeners are those with the keys `xs`, linked in this order.
    pub record IsLinked (s : State slab D E) (xs : List ℕ) : Type 0 where
      pub linked : (i : ℕ) → map_option link (slab.get s.listeners i) ≡ links none xs i
      pub distinct : Distinct xs
      pub ends_eq : s.head_and_tail ≡ ends xs

    module _ {s : State slab D E} {xs : List ℕ} (v : IsLinked s xs) where
      pub get-none : (i : ℕ) → has i xs ≡ false → slab.get s.listeners i ≡ none
      get-none i h = ground (arith, v.linked i, links-none none xs i h)

      pub get-some :
          (i : ℕ)
          → has i xs ≡ true
          → (l : Listener) × (slab.get s.listeners i ≡ some l) × (links none xs i ≡ some (link l))
      get-some i h = elim (Option-cases (slab.get s.listeners i)) [
        | inl e ↦ absurd (ground (arith, v.linked i, is_some-links none xs i))
        | inr (l, e) ↦ (l, e, ground (arith, v.linked i))
      ]

  -- A write at a key that is taken.
  pub modify_lem :
      (ls : slab.Slab) (i : ℕ) (f : Listener → Listener) (l : Listener)
      → slab.get ls i ≡ some l
      → modify slab ls i f ≡ some (slab.set ls i (f l))
  unfolding modify
  modify_lem ls i f l e = rw e

pub unlink_ends-ends :
    (xs : List ℕ) (k : ℕ) (l : Listener)
    → Distinct xs
    → links none xs k ≡ some (link l)
    → unlink_ends (ends xs) k l ≡ some (ends (erase k xs))
unfolding unlink_ends links
unlink_ends-ends [] k l d e = cc
unlink_ends-ends (x ∷ []) k l d e = ground arith
unlink_ends-ends (x ∷ y ∷ ys) k l d e =
    let (t, eq, h) = last_or-some y ys in
    let (u, some_u, _) = last_or-some x (erase k (y ∷ ys)) in
    ground (arith, last_or-erase none (x ∷ y ∷ ys) k t l.prev l.next d)
