-- ===== src/Sync/Channels/Slots.antt =====
-- Channels that meet the interface: a list of values for each kind and number, of at most one value.
use mathlib.Core.Path.{subst, subst_refl}
use mathlib.Core.HLevel.{hedberg}
use async_winit.Prelude.{
  ℕ, ◌+◌, ◌≡◌, refl, ap, ◌∙◌, Bool, true, false, ◌&&◌, Option, none, some, List, [], ◌∷◌, ltb, ◌==◌,
  if◌then◌else◌, arith, is_empty, head?, map_option,
}
use async_winit.Sync.Channels.{ChannelApi}

module _ {I : Type 0} (A : I → Type 0) where
  pub record Slots : Type 0 where
    pub next : ℕ
    pub opened : ℕ → Bool
    pub slots : (k : I) → ℕ → List (A k)

  unfoldable pub live : ℕ → Slots → Bool
  live j s = ltb j s.next && s.opened j

  unfoldable pub add : I → Slots → Slots
  add k s = record {
    next = s.next + 1;
    opened = λ j. if s.next == j then true else s.opened j;
    slots = λ k' j. if s.next == j then [] else s.slots k' j;
  }

  unfoldable pub take_first : (k : I) → ℕ → Slots → Option (A k × Slots)
  take_first k i s =
      map_option (λ v. (v, record s { slots = λ k' j. if i == j then [] else s.slots k' j }))
        (head? (s.slots k i))

  unfoldable pub close : ℕ → Slots → Slots
  close i s = record s { opened = λ j. if i == j then false else s.opened j }

  unfoldable pub cast : {k k' : I} → Dec (k ≡ k') → A k → List (A k') → List (A k')
  cast (yes p) v old = subst A p v ∷ []
  cast (no _) v old = old

  module _ (dec : Discrete I) where
    cast_self : (k : I) (v : A k) (old : List (A k)) (d : Dec (k ≡ k)) → cast d v old ≡ v ∷ []
    unfolding cast
    cast_self k v old (yes p) =
        ap (λ x. x ∷ []) (ap (λ (q : k ≡ k). subst A q v) (hedberg dec k k p refl) ∙ subst_refl A v)
    cast_self k v old (no n) = absurd (n refl)

    unfoldable pub put : (k : I) → ℕ → A k → Slots → Slots
    unfolding cast
    put k i v s = record s {
      slots = λ k' j. if i == j then cast (dec k k') v (s.slots k' j) else s.slots k' j;
    }

    unfoldable pub send : (k : I) → ℕ → A k → Slots → Option Slots
    unfolding live put
    send k i v s = if live i s && is_empty (s.slots k i) then some (put k i v s) else none

    add-live :
        (k : I) (s : Slots) (j : ℕ) → live j (add k s) ≡ (if s.next == j then true else live j s)
    unfolding live add
    add-live k s j = ground arith

    send-some :
        (k : I) (i : ℕ) (v : A k) (s : Slots)
        → live i s ≡ true
        → s.slots k i ≡ []
        → (s' : Slots) × (send k i v s ≡ some s')
          × (s'.slots k i ≡ v ∷ [])
          × ((j : ℕ) → live j s' ≡ live j s)
          × ((k' : I) (j : ℕ) → (i == j) ≡ false → s'.slots k' j ≡ s.slots k' j)
    unfolding send live put
    send-some k i v s o e = (
      put k i v s,
      ground arith,
      ground (arith, cast_self k v (s.slots k i) (dec k k)),
      λ j. refl,
      λ k' j n. rw n,
    )

    send-none : (k : I) (i : ℕ) (v : A k) (s : Slots) → live i s ≡ false → send k i v s ≡ none
    unfolding send
    send-none k i v s c = rw c

    take_first-some :
        (k : I) (i : ℕ) (v : A k) (s : Slots)
        → s.slots k i ≡ v ∷ []
        → (s' : Slots) × (take_first k i s ≡ some (v, s')) × (s'.slots k i ≡ [])
    unfolding take_first
    take_first-some k i v s e =
        (record s { slots = λ k' j. if i == j then [] else s.slots k' j }, rw e, ground arith)

    take_first-none : (k : I) (i : ℕ) (s : Slots) → s.slots k i ≡ [] → take_first k i s ≡ none
    unfolding take_first
    take_first-none k i s e = rw e

    close-live :
        (i : ℕ) (s : Slots) (j : ℕ) → live j (close i s) ≡ (if i == j then false else live j s)
    unfolding live close
    close-live i s j = ground arith

    close-slots :
        (i : ℕ) (s : Slots) (k : I) (j : ℕ) → (i == j) ≡ false → (close i s).slots k j ≡ s.slots k j
    unfolding close
    close-slots i s k j n = refl

    fresh_not_live : (s : Slots) → live s.next s ≡ false
    unfolding live
    fresh_not_live s = ground arith

    unfoldable pub slots_api : ChannelApi A
    unfolding live add take_first close send fresh_not_live add-live send-some send-none
        take_first-some take_first-none close-live close-slots cast_self
    slots_api = record {
      Store = Slots;
      fresh = λ s. s.next;
      make = add;
      try_send = send;
      try_recv = take_first;
      drop_receiver = close;
      contents = λ k i s. s.slots k i;
      is_open = live;
      fresh_closed = fresh_not_live;
      is_open-make = add-live;
      contents-make = λ k s k' j. refl;
      try_send-some = send-some;
      try_send-none = send-none;
      try_recv-some = take_first-some;
      try_recv-none = take_first-none;
      is_open-drop_receiver = close-live;
      contents-drop_receiver = close-slots;
    }
