-- ===== src/Wheel/Order.antt =====
-- The map behind the timer wheel: its operations keep the order, and look-ups see them.
use async_winit.Prelude.{ℕ, true, none, some, [], ◌∷◌, if◌then◌else◌, ◌≡◌, refl, arith}
use async_winit.Task.{Waker}
use async_winit.Time.{Instant}
use async_winit.Wheel.{
  Wheel, before, same_key, insert, remove, lookup, keys_before, split_off, Behind, IsSorted,
}

Behind-trans :
    (t : Instant) (i : ℕ) (u : Instant) (j : ℕ) (es : Wheel)
    → before t i u j ≡ true
    → Behind u j es
    → Behind t i es
Behind-trans t i u j [] h b = tt
Behind-trans t i u j (e ∷ es) h b = (ground arith, Behind-trans t i u j es h b.1)

Behind-insert :
    (t : Instant) (i : ℕ) (u : Instant) (j : ℕ) (w : Waker) (es : Wheel)
    → before t i u j ≡ true
    → Behind t i es
    → Behind t i (insert u j w es)
unfolding insert
Behind-insert t i u j w [] h b = (h, tt)
Behind-insert t i u j w (e ∷ es) h b = ground (arith, Behind-insert t i u j w es h b.1)

pub insert-IsSorted :
    (t : Instant) (i : ℕ) (w : Waker) (es : Wheel) → IsSorted es → IsSorted (insert t i w es)
unfolding insert
insert-IsSorted t i w [] s = (tt, tt)
insert-IsSorted t i w (e ∷ es) s = ground (
  arith,
  insert-IsSorted t i w es s.1,
  Behind-insert e.deadline e.id t i w es,
  Behind-trans t i e.deadline e.id es,
)

Behind-remove :
    (t : Instant) (i : ℕ) (u : Instant) (j : ℕ) (es : Wheel)
    → Behind t i es
    → Behind t i (remove u j es)
unfolding remove
Behind-remove t i u j [] b = tt
Behind-remove t i u j (e ∷ es) b = ground (arith, Behind-remove t i u j es b.1)

pub remove-IsSorted : (t : Instant) (i : ℕ) (es : Wheel) → IsSorted es → IsSorted (remove t i es)
unfolding remove
remove-IsSorted t i [] s = tt
remove-IsSorted t i (e ∷ es) s =
    ground (arith, remove-IsSorted t i es s.1, Behind-remove e.deadline e.id t i es s.0)

lookup-Behind : (t : Instant) (i : ℕ) (es : Wheel) → Behind t i es → lookup t i es ≡ none
unfolding lookup
lookup-Behind t i [] b = refl
lookup-Behind t i (e ∷ es) b = ground (arith, lookup-Behind t i es b.1)

pub lookup-insert :
    (t : Instant) (i : ℕ) (w : Waker) (u : Instant) (j : ℕ) (es : Wheel)
    → lookup u j (insert t i w es) ≡ (if same_key t i u j then some w else lookup u j es)
unfolding lookup insert
lookup-insert t i w u j [] = refl
lookup-insert t i w u j (e ∷ es) = ground (arith, lookup-insert t i w u j es)

pub lookup-remove :
    (t : Instant) (i : ℕ) (u : Instant) (j : ℕ) (es : Wheel)
    → IsSorted es
    → lookup u j (remove t i es) ≡ (if same_key t i u j then none else lookup u j es)
unfolding lookup remove
lookup-remove t i u j [] s = ground arith
lookup-remove t i u j (e ∷ es) s =
    ground (arith, lookup-remove t i u j es s.1, lookup-Behind e.deadline e.id es s.0)

Behind-split_off :
    (t : Instant) (i : ℕ) (u : Instant) (j : ℕ) (es : Wheel)
    → Behind t i es
    → Behind t i (split_off u j es)
unfolding split_off
Behind-split_off t i u j [] b = tt
Behind-split_off t i u j (e ∷ es) b = ground (arith, Behind-split_off t i u j es b.1)

pub split_off-IsSorted :
    (t : Instant) (i : ℕ) (es : Wheel) → IsSorted es → IsSorted (split_off t i es)
unfolding split_off
split_off-IsSorted t i [] s = tt
split_off-IsSorted t i (e ∷ es) s =
    ground (arith, split_off-IsSorted t i es s.1, Behind-split_off e.deadline e.id t i es s.0)

pub lookup-split_off :
    (t : Instant) (i : ℕ) (u : Instant) (j : ℕ) (es : Wheel)
    → lookup u j (split_off t i es) ≡ (if before u j t i then none else lookup u j es)
unfolding lookup split_off
lookup-split_off t i u j [] = ground arith
lookup-split_off t i u j (e ∷ es) = ground (arith, lookup-split_off t i u j es)

pub lookup-keys_before :
    (t : Instant) (i : ℕ) (u : Instant) (j : ℕ) (es : Wheel)
    → lookup u j (keys_before t i es) ≡ (if before u j t i then lookup u j es else none)
unfolding lookup keys_before
lookup-keys_before t i u j [] = ground arith
lookup-keys_before t i u j (e ∷ es) = ground (arith, lookup-keys_before t i u j es)
