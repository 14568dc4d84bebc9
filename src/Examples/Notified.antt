-- ===== src/Examples/Notified.antt =====
-- src/filter.rs: the loop of a task that waits, to which a notification comes.
use async_winit.Prelude.{ℕ, ◌≡◌, refl, true, false, none, some, List, [], ◌∷◌, arith, inr}
use async_winit.Sync.Channels.{thread_safe}
use async_winit.Sync.Channels.Slots.{slots_api}
use async_winit.Sync.ThreadUnsafe.{deque}
use async_winit.Notifier.{ReactorWaker}
use async_winit.Reactor.{notify_proxy}
use async_winit.Reactor.Windows
use async_winit.Filter.{FilterApi, Filter, Event, new_events, other}
use async_winit.EventLoop.{run_events}
use async_winit.EventLoop.Asleep.{AllPass, ReadsClock, IsAsleep}
use async_winit.EventLoop.Unsent.{run_events-unsent}
use async_winit.Ops.Request.{EventLoopOp}
use async_winit.Tasks.{Progress}
use async_winit.Tasks.Host.{host, set_delivery}
use async_winit.Examples.Answers.{counting, slots, timer_ops, loop_ops}
use async_winit.Examples.Windows.{winit_numbers}
use async_winit.Examples.Tasks.{TaskWorld, still, start_world}

abbrev waiting_host : FilterApi timer_ops (EventLoopOp counting) loop_ops
waiting_host = host counting slots timer_ops loop_ops winit_numbers ℕ ℕ thread_safe still

abbrev task_of : waiting_host.Env → Progress counting ℕ
task_of env = env.task

-- The task was polled and is not notified, and a wake-up was sent before.
abbrev proxy_before : ReactorWaker
proxy_before = record { notified = false; awake = false; sent = 1 }

unfoldable waiting_world : TaskWorld
unfolding start_world
waiting_world = record start_world {
  reactor = record (start_world.reactor) { proxy = some proxy_before };
}

abbrev no_wakers : Filter
no_wakers = record { deadline = none; wakers = []; yielding = false }

abbrev later_events : List (Event (Windows.Event winit_numbers ℕ))
later_events = other (Windows.rest 2) ∷ new_events ∷ []

waiting-ReadsClock : ReadsClock waiting_host task_of
unfolding still
waiting-ReadsClock w = (omega arith, (refl, refl))

later_events_pass : AllPass waiting_host task_of (new_events ∷ later_events)
unfolding set_delivery Windows.post_event
later_events_pass = (
  (λ w. (_, refl, (refl, refl))),
  ((λ w. (_, refl, (refl, refl))), ((λ w. (_, refl, (refl, refl))), tt)),
)

waiting_world-IsAsleep :
    IsAsleep waiting_host task_of start_world.env.task [] no_wakers waiting_world
unfolding waiting_world start_world deque slots_api
waiting_world-IsAsleep = record {
  quiet = refl;
  sound = record {
    is_sorted = tt;
    within = omega arith;
    some_room = omega arith;
    spare = inr (omega arith);
  };
  same_user = refl;
  wakers = refl;
}

waiting_world_proxy : waiting_world.reactor.proxy ≡ some proxy_before
unfolding waiting_world
waiting_world_proxy = refl

run_events-unsent_example :
    (f : Filter) × (w : TaskWorld) × (run_events waiting_host 1
        (λ v. v)
        (new_events ∷ later_events)
        no_wakers
        waiting_world
      ≡ some (f, w))
    × IsAsleep waiting_host task_of start_world.env.task [] f w
    × ((notify_proxy timer_ops loop_ops w.reactor).proxy
        ≡ some (record { notified = true; awake = true; sent = 1 }))
run_events-unsent_example =
    run_events-unsent waiting_host task_of waiting-ReadsClock 0 later_events start_world.env.task []
      no_wakers waiting_world proxy_before later_events_pass waiting_world-IsAsleep
      waiting_world_proxy
