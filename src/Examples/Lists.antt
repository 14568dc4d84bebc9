-- ===== src/Examples/Lists.antt =====
-- src/handler.rs on two waiters, under the keys 0 and 1.
use async_winit.Prelude.{
  ◌+◌, ℕ, zero, suc, ◌≡◌, refl, Bool, true, false, Option, none, some, List, [], ◌∷◌, ◌++◌, map,
  arith, map_option,
}
use async_winit.Task.{Waker, ready, pending}
use async_winit.Slab.Entries.{entries, entry}
use async_winit.Handler.{Listener, State, insert, remove}
use async_winit.Handler.Links.{links, is_key}
use async_winit.Handler.Invariant.{IsLinked, link}
use async_winit.Handler.Insert.{Inserted, insert-Inserted}
use async_winit.Handler.Remove.{Removed, remove-Removed}
use async_winit.Handler.Directs.{wait_direct, run_direct_listeners}
use async_winit.Handler.Directs.Keeps.{run_direct_listeners-keeps}
use async_winit.Handler.Run.Begins.{Begun, run_with-Begun}
use async_winit.Handler.Waiter.{poll_next, hold, drop_guard, drop_waiter}
use async_winit.Handler.Turns.{idle, offered, held, notified_at, Represents}
use async_winit.Handler.Turns.Steps.{Passed}
use async_winit.Handler.Turns.Polls.{
  Sleeps, poll_next-offered, poll_next-waits, hold-offered, hold-waits, drop_guard-held,
}
use async_winit.Handler.Turns.Runs.{drop_waiter_panics}
use async_winit.Handler.Turns.Delivery.{Delivered, run_with-Delivered}

-- The first waiter is notified or not, and an event is active or not.
unfoldable two_waiters : Bool → Option ℕ → State entries ℕ ℕ
unfolding entries
two_waiters notified active = record {
  listeners =
      some (record { next = some 1; prev = none; waker = some 7; notified = notified })
      ∷ some (record { next = none; prev = some 0; waker = some 8; notified = false })
      ∷ [];
  directs = [];
  head_and_tail = some (0, 1);
  waker = some 9;
  active = active;
}

abbrev keys : List ℕ
keys = 0 ∷ 1 ∷ []

two_waiters-linked :
    (b : Bool) (active : Option ℕ) (i : ℕ)
    → map_option link (entries.get ((two_waiters b active).listeners) i) ≡ links none keys i
unfolding entries entry two_waiters links
two_waiters-linked b active zero = refl
two_waiters-linked b active (suc zero) = refl
two_waiters-linked b active (suc (suc i)) = ground arith

two_waiters-IsLinked : (b : Bool) (active : Option ℕ) → IsLinked entries (two_waiters b active) keys
unfolding two_waiters
two_waiters-IsLinked b active = record {
  linked = two_waiters-linked b active;
  distinct = (refl, (refl, tt));
  ends_eq = refl;
}

two_waiters-notified :
    (b : Bool) (active : Option ℕ) (i : ℕ)
    → notified_at (entries.get ((two_waiters b active).listeners) i)
      ≡ (elim b [ true ↦ is_key (some 0) i | false ↦ false ])
unfolding entries entry two_waiters
two_waiters-notified true active zero = refl
two_waiters-notified false active zero = refl
two_waiters-notified true active (suc zero) = refl
two_waiters-notified false active (suc zero) = refl
two_waiters-notified true active (suc (suc i)) = ground arith
two_waiters-notified false active (suc (suc i)) = refl

two_waiters-idle : Represents entries (two_waiters false none) keys idle
unfolding two_waiters
two_waiters-idle = record {
  is_linked = two_waiters-IsLinked false none;
  flags = two_waiters-notified false none;
  present = λ i q. ground arith;
  idle_eq = λ q. refl;
  active_eq = λ i q. absurd (ground arith);
}

two_waiters-offered : Represents entries (two_waiters true (some 5)) keys (offered 0)
unfolding two_waiters
two_waiters-offered = record {
  is_linked = two_waiters-IsLinked true (some 5);
  flags = two_waiters-notified true (some 5);
  present = λ i q. ground arith;
  idle_eq = λ q. absurd (ground arith);
  active_eq = λ i q. (5, refl);
}

two_waiters-held : Represents entries (two_waiters false (some 5)) keys (held 0)
unfolding two_waiters
two_waiters-held = record {
  is_linked = two_waiters-IsLinked false (some 5);
  flags = two_waiters-notified false (some 5);
  present = λ i q. ground arith;
  idle_eq = λ q. absurd (ground arith);
  active_eq = λ i q. (5, refl);
}

run_with-Delivered_example : Delivered entries (two_waiters false none) 0 (1 ∷ []) 5 (λ i. i + 20) 9
run_with-Delivered_example =
    run_with-Delivered entries (two_waiters false none) 0 (1 ∷ []) 5 (λ i. i + 20) 9
      two_waiters-idle

insert-Inserted_example :
    (k : ℕ) × (t : State entries ℕ ℕ) × (insert entries (two_waiters false none) ≡ some (k, t))
    × Inserted entries (two_waiters false none) keys k t
insert-Inserted_example =
    insert-Inserted entries (two_waiters false none) keys (two_waiters-IsLinked false none)

remove-Removed_example :
    (l : Listener) × (t : State entries ℕ ℕ) × (remove entries (two_waiters false none) 1
      ≡ some (l, t))
    × Removed entries (two_waiters false none) keys 1 l t
remove-Removed_example =
    remove-Removed entries (two_waiters false none) keys 1 (two_waiters-IsLinked false none) refl

poll_next-offered_example :
    (e : ℕ) × (t : State entries ℕ ℕ) × (ws : List Waker) × ((two_waiters true (some 5)).active
      ≡ some e)
    × (poll_next entries (two_waiters true (some 5)) 0 7 ≡ some (ready (some e), t, ws))
    × Passed entries (two_waiters true (some 5)) keys 0 t ws
poll_next-offered_example =
    poll_next-offered entries (two_waiters true (some 5)) keys 0 7 two_waiters-offered

poll_next-waits_example :
    (t : State entries ℕ ℕ) × (poll_next entries (two_waiters true (some 5)) 1 6
      ≡ some (pending, t, []))
    × Sleeps entries (two_waiters true (some 5)) keys (offered 0) 1 6 t
poll_next-waits_example =
    poll_next-waits entries (two_waiters true (some 5)) keys 1 6 (offered 0) two_waiters-offered
      refl refl

hold-offered_example :
    (e : ℕ) × (t : State entries ℕ ℕ) × ((two_waiters true (some 5)).active ≡ some e)
    × (hold entries (two_waiters true (some 5)) 0 7 ≡ some (ready e, t))
    × Represents entries t keys (held 0)
    × (t.active ≡ some e)
hold-offered_example = hold-offered entries (two_waiters true (some 5)) keys 0 7 two_waiters-offered

hold-waits_example :
    (t : State entries ℕ ℕ) × (hold entries (two_waiters true (some 5)) 1 6 ≡ some (pending, t))
    × Sleeps entries (two_waiters true (some 5)) keys (offered 0) 1 6 t
hold-waits_example =
    hold-waits entries (two_waiters true (some 5)) keys 1 6 (offered 0) two_waiters-offered refl
      refl

drop_guard-held_example :
    (t : State entries ℕ ℕ) × (ws : List Waker) × (drop_guard entries (two_waiters false (some 5)) 0
      ≡ some (t, ws))
    × Passed entries (two_waiters false (some 5)) keys 0 t ws
drop_guard-held_example =
    drop_guard-held entries (two_waiters false (some 5)) keys 0 7 two_waiters-held

drop_waiter_panics_example : drop_waiter entries (two_waiters true (some 5)) 0 ≡ none
drop_waiter_panics_example =
    drop_waiter_panics entries (two_waiters true (some 5)) keys 0 two_waiters-offered

-- Two direct listeners, of which each registers a third when it is called.
abbrev two_directs : State entries ℕ ℕ
two_directs = record (two_waiters false none) { directs = 1 ∷ 2 ∷ [] }

abbrev registering : ℕ → ℕ → State entries ℕ ℕ → ℕ → Bool × ℕ × State entries ℕ ℕ × ℕ
registering d e s env = (false, d, wait_direct entries s 100, env)

abbrev adds_one : ℕ → ℕ → State entries ℕ ℕ → ℕ → List ℕ
adds_one d e s env = 100 ∷ []

registers_one :
    (d e : ℕ) (s : State entries ℕ ℕ) (env : ℕ)
    → (registering d e s env).2.directs ≡ s.directs ++ adds_one d e s env
unfolding wait_direct
registers_one d e s env = refl

run_direct_listeners-keeps_example :
    (kept : List ℕ) × ((run_direct_listeners entries registering 5 two_directs 0).1.directs
      ≡ 100 ∷ 100 ∷ kept)
    × (map (λ d. d) kept ≡ map (λ d. d) (two_directs.directs))
run_direct_listeners-keeps_example =
    run_direct_listeners-keeps entries registering adds_one (λ d. d) (λ d e s env. refl)
      registers_one 5 two_directs 0

registering_keeps :
    (d e : ℕ) (s : State entries ℕ ℕ) (env : ℕ) (xs : List ℕ)
    → Represents entries s xs idle
    → (ys : List ℕ) × Represents entries (registering d e s env).2 ys idle
unfolding wait_direct
registering_keeps d e s env xs r = (
  xs,
  record {
    is_linked = record {
      linked = r.is_linked.linked;
      distinct = r.is_linked.distinct;
      ends_eq = r.is_linked.ends_eq;
    };
    flags = r.flags;
    present = r.present;
    idle_eq = r.idle_eq;
    active_eq = r.active_eq;
  },
)

run_with-Begun_example : Begun entries registering registering_keeps 5 (two_waiters false none) 0
run_with-Begun_example =
    run_with-Begun entries registering registering_keeps 5 (two_waiters false none) 0 keys
      two_waiters-idle
