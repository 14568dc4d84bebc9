-- ===== src/Handler/Turns/Reachable.antt =====
-- src/handler.rs: all the steps that waiters, guards and the task of `run_with` take on one state, in
-- any order.
pub mod Each
use async_winit.Prelude.{
  ℕ, ◌≡◌, refl, Bool, true, false, Option, none, some, List, [], ◌∷◌, ◌++◌, has, erase, arith,
  Bool-cases, inl, inr, sym, ap, ◌∙◌, ◌==◌, if◌then◌else◌, head?,
}
use async_winit.Slab.{SlabApi}
use async_winit.Task.{Waker, Poll, ready, pending}
use async_winit.Handler.{Listener, State, new, insert}
use async_winit.Handler.Links.{is_key, next_of, links-none}
use async_winit.Handler.Waiter.{poll_next, hold, drop_guard, drop_waiter, start, poll_done}
use async_winit.Handler.Turns.{
  Turn, idle, offered, held, offer, offered_to, bearer, holder, Represents,
}
use async_winit.Handler.Turns.Polls.{
  poll_next-offered, poll_next-waits, hold-offered, hold-waits, drop_guard-held,
}
use async_winit.Handler.Turns.Runs.{insert-Represents, drop_waiter-Represents, drop_waiter_panics}
use async_winit.Handler.Turns.Delivery.{start-Represents, poll_done-idle, poll_done-waits}

module _ (slab : SlabApi Listener) {D E : Type 0} where
  -- One step of the code, with the keys of the waiters that live, in the order in which they came,
  -- and the waiter that a guard borrows. A borrowed waiter is neither polled nor dropped, and an
  -- event is run where none is active.
  pub data Step (s : State slab D E) (xs : List ℕ) (g : Option ℕ) (t : State slab D E) (ys : List ℕ)
      (g' : Option ℕ) : Type 0 where
    joins : (k : ℕ) → insert slab s ≡ some (k, t) → ys ≡ xs ++ k ∷ [] → g' ≡ g → Step s xs g t ys g'
    leaves :
        (i : ℕ) (ws : List Waker)
        → has i xs ≡ true
        → is_key g i ≡ false
        → drop_waiter slab s i ≡ some (t, ws)
        → ys ≡ erase i xs
        → g' ≡ g
        → Step s xs g t ys g'
    polls :
        (i : ℕ) (w : Waker) (o : Poll (Option E)) (ws : List Waker)
        → has i xs ≡ true
        → is_key g i ≡ false
        → poll_next slab s i w ≡ some (o, t, ws)
        → ys ≡ xs
        → g' ≡ g
        → Step s xs g t ys g'
    holds :
        (i : ℕ) (w : Waker) (e : E)
        → has i xs ≡ true
        → is_key g i ≡ false
        → hold slab s i w ≡ some (ready e, t)
        → ys ≡ xs
        → g' ≡ some i
        → Step s xs g t ys g'
    hold_waits :
        (i : ℕ) (w : Waker)
        → has i xs ≡ true
        → is_key g i ≡ false
        → hold slab s i w ≡ some (pending, t)
        → ys ≡ xs
        → g' ≡ g
        → Step s xs g t ys g'
    releases :
        (i : ℕ) (ws : List Waker)
        → g ≡ some i
        → drop_guard slab s i ≡ some (t, ws)
        → ys ≡ xs
        → g' ≡ none
        → Step s xs g t ys g'
    starts :
        (e : E) (b : Bool) (ws : List Waker)
        → s.active ≡ none
        → start slab s e ≡ some (b, t, ws)
        → ys ≡ xs
        → g' ≡ g
        → Step s xs g t ys g'
    awaits :
        (w : Waker) (o : Poll (Unit {0}))
        → poll_done slab s w ≡ (o, t)
        → ys ≡ xs
        → g' ≡ g
        → Step s xs g t ys g'

  pub data Reachable : State slab D E → List ℕ → Option ℕ → Type 0 where
    initial : Reachable (new slab) [] none
    later :
        {s : State slab D E} {xs : List ℕ} {g : Option ℕ} {t : State slab D E} {ys : List ℕ}
        {g' : Option ℕ}
        → Reachable s xs g
        → Step s xs g t ys g'
        → Reachable t ys g'

  -- The state stands for these waiters and a turn that the guard's waiter holds.
  pub record Stands (t : State slab D E) (ys : List ℕ) (g : Option ℕ) : Type 0 where
    pub turn : Turn
    pub represents : Represents slab t ys turn
    pub holds : holder turn ≡ g
