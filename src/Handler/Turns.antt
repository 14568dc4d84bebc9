-- ===== src/Handler/Turns.antt =====
-- src/handler.rs: an event seen as a turn that passes along the listeners. This is the abstract
-- machine that the slab, the links and the flags implement.
pub mod Flags
pub mod Steps
pub mod Polls
pub mod Runs
pub mod Delivery
pub mod Reachable
use async_winit.Prelude.{
  ℕ, ◌≡◌, Bool, true, false, Option, none, some, List, [], ◌∷◌, ◌==◌, if◌then◌else◌, head?, has,
  map_option,
}
use async_winit.Slab.{SlabApi}
use async_winit.Handler.{Listener, State}
use async_winit.Handler.Links.{is_key}
use async_winit.Handler.Invariant.{IsLinked}

-- Nobody has the event, or it is offered to a listener, or a listener holds a guard on it.
pub data Turn : Type 0 where
  idle : Turn
  offered : ℕ → Turn
  held : ℕ → Turn

abbrev pub offer : Option ℕ → Turn
offer none = idle
offer (some i) = offered i

abbrev pub offered_to : Turn → Option ℕ
offered_to (offered i) = some i
offered_to _ = none

abbrev pub holder : Turn → Option ℕ
holder (held i) = some i
holder _ = none

-- The one listener that has the event in hand, offered or held.
abbrev pub bearer : Turn → Option ℕ
bearer idle = none
bearer (offered i) = some i
bearer (held i) = some i

abbrev pub notified_at : Option Listener → Bool
notified_at none = false
notified_at (some l) = l.notified

abbrev pub waker_at : Option Listener → Option ℕ
waker_at none = none
waker_at (some l) = l.waker

module _ (slab : SlabApi Listener) {D E : Type 0} where
  -- The state `s` stands for the listeners `xs`, in this order, and the turn `t`.
  pub record Represents (s : State slab D E) (xs : List ℕ) (t : Turn) : Type 0 where
    pub is_linked : IsLinked slab s xs
    pub flags : (i : ℕ) → notified_at (slab.get s.listeners i) ≡ is_key (offered_to t) i
    pub present : (i : ℕ) → is_key (bearer t) i ≡ true → has i xs ≡ true
    pub idle_eq : bearer t ≡ none → s.active ≡ none
    pub active_eq : (i : ℕ) → bearer t ≡ some i → (e : E) × (s.active ≡ some e)
