-- ===== src/Examples/Tasks.antt =====
-- src/platform/run_return.rs and src/filter.rs: a task that hides a window and then asks for its size, and a
-- future that asks for the exit.
use async_winit.Prelude.{
  inl, inr, ℕ, ◌≡◌, ◌<◌, refl, map_option, true, false, none, some, [], ◌∷◌, List, arith,
}
use async_winit.Sync.Channels.{thread_safe}
use async_winit.Sync.Channels.Slots.{slots_api}
use async_winit.Sync.ThreadUnsafe.{deque}
use async_winit.Reactor.{process_timers, process_timer_ops, drain_ops}
use async_winit.Reactor.Windows
use async_winit.Reactor.Windows.{Delivery, get, post_event}
use async_winit.Wheel.{keys_before, split_off}
use async_winit.Filter
use async_winit.Filter.{
  FilterApi, World, Event, Run, new_events, other, future_returned, parker_waker, on_wakeup,
  handle_event, post, poll_once,
}
use async_winit.EventLoop.{set_exit_with_code}
use async_winit.EventLoop.Repolls.{SetsExit, handle_event-set_exit}
use async_winit.Platform.RunReturn.{block_on_demand}
use async_winit.Window.Methods.Calls
use async_winit.Tasks.{Task, finish, await, running, direct_run, awaits}
use async_winit.Tasks.Host.{Outside, HostWorld, host}
use async_winit.Tasks.Steps.{Vacant}
use async_winit.Tasks.Returns.{AllPass, wakeups, block_on_demand-direct_run}
use async_winit.Examples.Answers.{counting, slots, window, timer_ops, loop_ops}
use async_winit.Window.Registration.{resized_event}
use async_winit.Window.Registration
use async_winit.Examples.Windows.{winit_numbers}
use async_winit.Examples.Loops.{ops, numbers, fresh}
use async_winit.Notifier.{ReactorWaker}
use async_winit.Tasks.Live.{ClockRuns}

abbrev pub TaskWorld : Type 0
TaskWorld = HostWorld counting slots timer_ops loop_ops winit_numbers ℕ ℕ

-- The clock stands still at 40, and each answer wakes the task.
unfoldable pub still : Outside TaskWorld (Delivery winit_numbers ℕ)
still = record {
  poll_handler = λ k d w. some (true, w);
  wake = λ k w. w;
  unpark = λ w. w;
  park = λ d w. w;
  answer_wakes = λ w. true;
  clock = λ n. 40;
  max_instant = 1000;
}

-- The window is hidden, and what its size is then is what the task returns.
unfoldable pub hides : Task counting ℕ
unfolding counting
hides =
    await (Calls.set_visible window false)
      (λ _. await (Calls.inner_size window) (λ size. finish size))

unfoldable pub start_world : TaskWorld
unfolding slots counting deque slots_api
start_world = record {
  reactor = record {
    exit_code = 0;
    evl_ops = [];
    windows = (3, 0) ∷ [];
    proxy = none;
    timers = [];
    timer_op_queue = [];
    timer_id = 1;
  };
  env = record {
    windows = 5;
    store = record { next = 0; opened = λ j. false; slots = λ k j. [] };
    task = running hides;
    delivery = none;
    used = λ d. false;
    reads = 0;
  };
}

-- Three wake-ups, the first behind another event, and behind them the window, whose handlers nobody
-- uses, is resized.
abbrev five_events : List (Event (Windows.Event winit_numbers ℕ))
five_events =
    other (Windows.rest 2)
    ∷ new_events
    ∷ new_events
    ∷ new_events
    ∷ other (Windows.window_event 3 (resized_event 9))
    ∷ []

still-ClockRuns : ClockRuns counting slots timer_ops loop_ops winit_numbers ℕ ℕ thread_safe still
unfolding still
still-ClockRuns n = omega arith

start_world-Vacant : Vacant loop_ops start_world.reactor.evl_ops
unfolding start_world deque
start_world-Vacant = record { empty = refl; room = omega arith }

start_world_fresh : start_world.reactor.proxy ≡ none
unfolding start_world
start_world_fresh = refl

start_world_task : start_world.env.task ≡ running hides
unfolding start_world
start_world_task = refl

five_events_pass :
    AllPass counting slots timer_ops loop_ops winit_numbers ℕ ℕ thread_safe still still-ClockRuns
      (start_world.reactor.windows, start_world.env.used)
      five_events
unfolding post_event get start_world Registration.signal
five_events_pass = (
  (λ r e. inl refl),
  (
    tt,
    (
      tt,
      (tt, ((λ r e. inr (Windows.to_window 0 (Registration.resized, 9), rw e refl, inl refl)), tt)),
    ),
  ),
)

hides_twice :
    awaits counting hides start_world.env.windows
    < wakeups counting slots timer_ops loop_ops winit_numbers ℕ ℕ thread_safe still still-ClockRuns
        five_events
unfolding awaits hides start_world counting
hides_twice = omega arith

block_on_demand-direct_run_example :
    (w : TaskWorld) × (block_on_demand
        (host counting slots timer_ops loop_ops winit_numbers ℕ ℕ thread_safe still)
        2
        five_events
        true
        start_world
      ≡ some (future_returned (direct_run counting hides start_world.env.windows).0, w))
    × (w.env.windows ≡ (direct_run counting hides start_world.env.windows).1)
block_on_demand-direct_run_example =
    block_on_demand-direct_run counting slots timer_ops loop_ops winit_numbers ℕ ℕ thread_safe still
      still-ClockRuns 0 five_events true hides start_world start_world_fresh start_world-Vacant
      start_world_task five_events_pass hides_twice

-- A future that asks for the exit with code 7 and returns 3.
abbrev leaving : FilterApi ops ℕ numbers
leaving = record {
  Env = Unit;
  Out = ℕ;
  Other = Unit;
  poll_future =
      λ k w. some (some 3, record w { reactor = set_exit_with_code ops numbers 7 w.reactor });
  post_event = λ e w. w;
  poll_event = λ k w. some (true, w);
  drain_loop_queue = λ w. some w;
  wake = λ k w. w;
  park = λ d w. w;
  read_clock = λ w. (40, w);
  max_instant = 1000;
}

leaving-SetsExit : SetsExit leaving 7 3
leaving-SetsExit k w = refl

-- A future that was notified.
unfoldable told : World ops numbers leaving.Env
unfolding deque
told = record {
  reactor = record {
    exit_code = 0;
    evl_ops = [];
    windows = [];
    proxy = some (record { notified = true; awake = true; sent = 0 });
    timers = [];
    timer_op_queue = [];
    timer_id = 1;
  };
  env = tt;
}

told_run :
    on_wakeup leaving new_events (record { filter = fresh; output = none; world = told })
    ≡ some (record { filter = fresh; output = none; world = told })
unfolding on_wakeup Filter.change_notifier Filter.round_of_timers Filter.set_filter Filter.set_world
    process_timers process_timer_ops drain_ops keys_before split_off deque told
told_run = refl

told_passes :
    leaving.poll_event parker_waker (leaving.post_event new_events told) ≡ some (true, told)
told_passes = refl

told_notified : map_option (λ (p : ReactorWaker). p.notified) told.reactor.proxy ≡ some true
unfolding told
told_notified = refl

handle_event-set_exit_example :
    (s1 s2 : Run leaving) × (post leaving 9 new_events
        (record { filter = fresh; output = none; world = told })
      ≡ some s1)
    × (poll_once leaving s1 ≡ some (true, s2))
    × (s2.output ≡ some 3)
    × (poll_once leaving s2 ≡ none)
    × (handle_event leaving 9 new_events fresh told ≡ none)
handle_event-set_exit_example =
    handle_event-set_exit leaving 9 7 3 new_events fresh told told
      (record { filter = fresh; output = none; world = told }) leaving-SetsExit told_run refl
      told_passes told_notified
