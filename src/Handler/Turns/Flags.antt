-- ===== src/Handler/Turns/Flags.antt =====
-- src/handler.rs: what one write to a listener's flag or waker does to the list.
use async_winit.Prelude.{
  ℕ, ◌≡◌, refl, Bool, true, false, Option, none, some, List, ◌==◌, if◌then◌else◌, map_option, arith,
}
use async_winit.Slab.{SlabApi}
use async_winit.Task.{Waker}
use async_winit.Handler.{
  Listener, State, modify, keep_waker, take_notification, register_waker, notify,
}
use async_winit.Handler.Invariant.{IsLinked, link, status}

module _ (slab : SlabApi Listener) {D E : Type 0} where
  -- `t` is `s` but for the waker and the flag at `i`.
  pub record Sets (s : State slab D E) (xs : List ℕ) (i : ℕ) (w : Option Waker) (b : Bool)
      (t : State slab D E) : Type 0 where
    pub is_linked : IsLinked slab t xs
    pub statuses :
        (j : ℕ)
        → map_option status (slab.get t.listeners j)
          ≡ (if i == j then some (w, b) else map_option status (slab.get s.listeners j))
    pub directs : t.directs ≡ s.directs
    pub waker : t.waker ≡ s.waker
    pub active : t.active ≡ s.active

  module _ {s : State slab D E} {xs : List ℕ} (v : IsLinked slab s xs) (i : ℕ) (l : Listener)
      (here : slab.get s.listeners i ≡ some l) where
    set-Sets :
        (l' : Listener)
        → link l' ≡ link l
        → Sets s xs i l'.waker l'.notified (record s { listeners = slab.set s.listeners i l' })
    set-Sets l' same = record {
      is_linked = record {
        linked = λ j. ground (arith, slab.get-set s.listeners i l l' j here, v.linked j);
        distinct = v.distinct;
        ends_eq = v.ends_eq;
      };
      statuses = λ j. ground (arith, slab.get-set s.listeners i l l' j here);
      directs = refl;
      waker = refl;
      active = refl;
    }

    pub take_notification-Sets :
        (t : State slab D E) × (take_notification slab s i ≡ some (l.notified, t))
        × Sets s xs i l.waker false t
    unfolding take_notification modify
    take_notification-Sets = (
      record s { listeners = slab.set s.listeners i (record l { notified = false }) },
      ground arith,
      set-Sets _ refl,
    )

    pub register_waker-Sets :
        (w : Waker)
        → (t : State slab D E) × (register_waker slab s i w ≡ some t)
          × Sets s xs i (some (keep_waker l.waker w)) l.notified t
    unfolding register_waker modify
    register_waker-Sets w = (
      record s {
        listeners = slab.set s.listeners i (record l { waker = some (keep_waker l.waker w) });
      },
      ground arith,
      set-Sets _ refl,
    )

    pub notify-Sets :
        l.notified ≡ false
        → (t : State slab D E) × (notify slab s i ≡ some (l.waker, t)) × Sets s xs i none true t
    unfolding notify modify
    notify-Sets off = (
      record s { listeners = slab.set s.listeners i (record l { waker = none; notified = true }) },
      ground arith,
      set-Sets _ refl,
    )
