-- ===== src/Examples/Runs.antt =====
-- src/handler.rs: a waiter that comes, and an event that is offered to it.
use async_winit.Prelude.{ℕ, refl, true, false, none, some, [], ◌∷◌}
use async_winit.Slab.Entries.{entries, entry, fill_vacant, first_vacant, write}
use async_winit.Handler.{State, new, insert, fresh_listener, notify, modify}
use async_winit.Handler.Waiter.{start}
use async_winit.Handler.Turns.Reachable.{Step, joins, starts, initial, later, Stands}
use async_winit.Handler.Turns.Reachable.Each.{Reachable-Stands}

unfoldable one_waiter : State entries ℕ ℕ
unfolding entries
one_waiter = record {
  listeners = some (record { next = none; prev = none; waker = none; notified = false }) ∷ [];
  directs = [];
  head_and_tail = some (0, 0);
  waker = none;
  active = none;
}

unfoldable one_offered : State entries ℕ ℕ
unfolding entries
one_offered = record {
  listeners = some (record { next = none; prev = none; waker = none; notified = true }) ∷ [];
  directs = [];
  head_and_tail = some (0, 0);
  waker = none;
  active = some 5;
}

comes : Step entries (new entries) [] none one_waiter (0 ∷ []) none
unfolding insert fresh_listener entries entry fill_vacant first_vacant one_waiter
comes = joins 0 refl refl refl

is_offered : Step entries one_waiter (0 ∷ []) none one_offered (0 ∷ []) none
unfolding start notify modify entries entry write one_waiter one_offered
is_offered = starts 5 true [] refl refl refl refl

Reachable-Stands_example : Stands entries one_offered (0 ∷ []) none
Reachable-Stands_example =
    Reachable-Stands entries one_offered (0 ∷ []) none (later (later initial comes) is_offered)
