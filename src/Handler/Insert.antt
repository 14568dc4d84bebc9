-- ===== src/Handler/Insert.antt =====
-- src/handler.rs, `State::insert`: a new listener goes to the end of the list.
use async_winit.Prelude.{
  ℕ, ◌≡◌, refl, Option, none, some, List, [], ◌∷◌, ◌++◌, false, has, map_option, arith, ◌==◌,
  if◌then◌else◌, Distinct-append_one,
}
use async_winit.Slab.{SlabApi}
use async_winit.Handler.{Listener, State, fresh_listener, insert, modify}
use async_winit.Handler.Links.{
  links, links-append_one, is_some-links, last_or-some, last_or-append_one, ends,
}
use async_winit.Handler.Invariant.{link, status, IsLinked, get-some}

module _ (slab : SlabApi Listener) {D E : Type 0} where
  -- The listeners of `t` are those of `s` and a fresh one at `k`; the rest of the state is the same.
  pub record Inserted (s : State slab D E) (xs : List ℕ) (k : ℕ) (t : State slab D E) : Type 0 where
    pub fresh : has k xs ≡ false
    pub is_linked : IsLinked slab t (xs ++ k ∷ [])
    pub statuses :
        (i : ℕ)
        → map_option status (slab.get t.listeners i)
          ≡ (if k == i then some (none, false) else map_option status (slab.get s.listeners i))
    pub directs : t.directs ≡ s.directs
    pub waker : t.waker ≡ s.waker
    pub active : t.active ≡ s.active

  module _ (s : State slab D E) (xs : List ℕ) (v : IsLinked slab s xs) where
    vacant_fresh : has (slab.vacant_key s.listeners) xs ≡ false
    vacant_fresh = ground (
      arith,
      slab.get-vacant_key s.listeners,
      v.linked (slab.vacant_key s.listeners),
      is_some-links none xs (slab.vacant_key s.listeners),
    )

    -- The slab once the new listener, and the `next` of the last one, are written.
    Inserted-of :
        (ls : slab.Slab) (e : Option (ℕ × ℕ))
        → e ≡ ends (xs ++ slab.vacant_key s.listeners ∷ [])
        → ((i : ℕ)
            → map_option link (slab.get ls i)
              ≡ links none (xs ++ slab.vacant_key s.listeners ∷ []) i)
        → ((i : ℕ)
            → map_option status (slab.get ls i) ≡ (
                if slab.vacant_key s.listeners == i
                then some (none, false)
                else map_option status (slab.get s.listeners i)))
        → Inserted s xs
            (slab.vacant_key s.listeners)
            (record s { listeners = ls; head_and_tail = e })
    Inserted-of ls e at_ends l st = record {
      fresh = vacant_fresh;
      is_linked = record {
        linked = l;
        distinct = Distinct-append_one xs _ v.distinct vacant_fresh;
        ends_eq = at_ends;
      };
      statuses = st;
      directs = refl;
      waker = refl;
      active = refl;
    }

  insert_empty :
      (s : State slab D E)
      → s.head_and_tail ≡ none
      → insert slab s
        ≡ some (
          slab.vacant_key s.listeners,
          record s {
            listeners = slab.insert s.listeners (fresh_listener s.head_and_tail);
            head_and_tail = some (slab.vacant_key s.listeners, slab.vacant_key s.listeners);
          },
        )
  unfolding insert
  insert_empty s e = ground arith

  insert_last :
      (s : State slab D E) (head tail : ℕ) (l : Listener)
      → s.head_and_tail ≡ some (head, tail)
      → slab.get (slab.insert s.listeners (fresh_listener s.head_and_tail)) tail ≡ some l
      → insert slab s
        ≡ some (
          slab.vacant_key s.listeners,
          record s {
            listeners =
                slab.set
                  (slab.insert s.listeners (fresh_listener s.head_and_tail))
                  tail
                  (record l { next = some (slab.vacant_key s.listeners) });
            head_and_tail = some (head, slab.vacant_key s.listeners);
          },
        )
  unfolding insert modify
  insert_last s head tail l e h = ground arith

  -- Where the listeners with the keys `xs` form a doubly linked list, `insert` succeeds with a key
  -- that is not among them, and these with the new one behind them form a list; the new listener has
  -- no waker and is not notified, the others keep theirs, and the rest of the state is the same.
  pub insert-Inserted :
      (s : State slab D E) (xs : List ℕ)
      → IsLinked slab s xs
      → (k : ℕ) × (t : State slab D E) × (insert slab s ≡ some (k, t)) × Inserted s xs k t
  unfolding insert fresh_listener
  insert-Inserted s [] v =
      let k = slab.vacant_key s.listeners in
      let new = fresh_listener s.head_and_tail in
      let at = slab.get-insert s.listeners new in
      (
        k,
        _,
        insert_empty s v.ends_eq,
        Inserted-of s [] v (slab.insert s.listeners new) _ refl
            (λ i. ground (arith, at i, v.linked i, links-append_one none [] k i, v.ends_eq))
            (λ i. ground (arith, at i)),
      )
  insert-Inserted s (x ∷ xs) v =
      let k = slab.vacant_key s.listeners in
      let new = fresh_listener s.head_and_tail in
      let (t, last, taken) = last_or-some x xs in
      let (l, held, _) = get-some slab v t taken in
      let l' : Listener = record l { next = some k } in
      let at = slab.get-insert s.listeners new in
      let kept : slab.get (slab.insert s.listeners new) t ≡ some l =
        ground (arith, at t, vacant_fresh s (x ∷ xs) v) in
      let written = slab.get-set (slab.insert s.listeners new) t l l' in
      (
        k,
        _,
        insert_last s x t l (ground (arith, v.ends_eq)) kept,
        Inserted-of s (x ∷ xs) v (slab.set (slab.insert s.listeners new) t l') _
            (ground (arith, last_or-append_one (some x) xs k))
            (λ i. ground (
              arith,
              written i kept,
              at i,
              v.linked i,
              links-append_one none (x ∷ xs) k i,
              v.ends_eq,
              vacant_fresh s (x ∷ xs) v,
            ))
            (λ i. ground (arith, written i kept, at i)),
      )
