-- ===== src/Examples/Sleeps.antt =====
-- src/filter.rs and src/event_loop.rs: a loop that is asleep while a timer comes due.
use async_winit.Prelude.{◌≡◌, refl, some, List, [], ◌∷◌, arith, inr}
use async_winit.Sync.ThreadUnsafe.{deque}
use async_winit.Filter.{Filter, World, Event, new_events, other}
use async_winit.EventLoop.{run_events}
use async_winit.EventLoop.Asleep.{AllPass, ReadsClock, IsAsleep, run_events-IsAsleep}
use async_winit.Examples.Loops.{quiet, due, ops, numbers, fresh}

quiet-ReadsClock : ReadsClock quiet (λ env. env)
unfolding quiet
quiet-ReadsClock w = (omega arith, (refl, refl))

unfoldable three_events : List (Event quiet.Other)
unfolding quiet
three_events = new_events ∷ other tt ∷ new_events ∷ []

three_events_pass : AllPass quiet (λ env. env) three_events
unfolding three_events quiet
three_events_pass = (
  (λ w. (w, refl, (refl, refl))),
  ((λ w. (w, refl, (refl, refl))), ((λ w. (w, refl, (refl, refl))), tt)),
)

due-IsAsleep : IsAsleep quiet (λ env. env) due.env (7 ∷ []) fresh due
unfolding due quiet deque
due-IsAsleep = record {
  quiet = refl;
  sound = record {
    is_sorted = (tt, tt);
    within = omega arith;
    some_room = omega arith;
    spare = inr (omega arith);
  };
  same_user = refl;
  wakers = refl;
}

run_events-IsAsleep_example :
    (f : Filter) × (w : World ops numbers quiet.Env) × (run_events quiet 1
        (λ v. v)
        three_events
        fresh
        due
      ≡ some (f, w))
    × IsAsleep quiet (λ env. env) due.env (7 ∷ []) f w
run_events-IsAsleep_example =
    run_events-IsAsleep quiet (λ env. env) quiet-ReadsClock 0 three_events due.env (7 ∷ []) fresh
      due three_events_pass due-IsAsleep
