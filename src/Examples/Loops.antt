-- ===== src/Examples/Loops.antt =====
-- src/filter.rs, with a future that is never ready and an event that nobody holds up.
use async_winit.Prelude.{ℕ, ◌≡◌, refl, true, false, none, some, [], ◌∷◌}
use async_winit.Sync.{QueueApi}
use async_winit.Sync.ThreadUnsafe.{deque}
use async_winit.Wheel.{keys_before, split_off}
use async_winit.Reactor.{TimerOp, exit_requested, process_timers, process_timer_ops, drain_ops}
use async_winit.Filter.{
  FilterApi, Filter, World, new_events, handle_event, on_wakeup, change_notifier, round_of_timers,
  set_filter, set_world, post, poll_notified, poll_once, about_to_sleep, before_sleep, control_flow,
  result_of, wait_until, output,
}

abbrev pub ops : QueueApi TimerOp
ops = deque

abbrev pub numbers : QueueApi ℕ
numbers = deque

-- The clock stands still at 40, and nothing else happens.
unfoldable pub quiet : FilterApi ops ℕ numbers
quiet = record {
  Env = Unit;
  Out = ℕ;
  Other = Unit;
  poll_future = λ k w. some (none, w);
  post_event = λ e w. w;
  poll_event = λ k w. some (true, w);
  drain_loop_queue = λ w. some w;
  wake = λ k w. w;
  park = λ d w. w;
  read_clock = λ w. (40, w);
  max_instant = 1000;
}

-- One timer is due, whose task has the waker 7.
unfoldable pub due : World ops numbers quiet.Env
unfolding quiet deque
due = record {
  reactor = record {
    exit_code = 0;
    evl_ops = [];
    windows = [];
    proxy = some (record { notified = false; awake = false; sent = 0 });
    timers = record { deadline = 30; id = 0; waker = 7 } ∷ [];
    timer_op_queue = [];
    timer_id = 1;
  };
  env = tt;
}

-- The same world behind the round of timers.
unfoldable behind : World ops numbers quiet.Env
unfolding quiet deque due
behind = record due {
  reactor = record (due.reactor) {
    proxy = some (record { notified = false; awake = true; sent = 0 });
    timers = [];
  };
}

abbrev pub fresh : Filter
fresh = record { deadline = none; wakers = []; yielding = false }

abbrev left : Filter
left = record { deadline = some 40; wakers = 7 ∷ []; yielding = false }

wakes_up :
    on_wakeup quiet new_events (record { filter = fresh; output = none; world = due })
    ≡ some (record { filter = left; output = none; world = behind })
unfolding on_wakeup change_notifier round_of_timers set_filter set_world process_timers
    process_timer_ops drain_ops keys_before split_off quiet deque due behind
wakes_up = refl

returns : handle_event quiet 2 new_events fresh due ≡ some (output tt, wait_until 40, left, behind)
unfolding handle_event on_wakeup change_notifier round_of_timers set_filter set_world process_timers
    process_timer_ops drain_ops keys_before split_off quiet deque due behind post poll_notified
    poll_once about_to_sleep before_sleep control_flow result_of exit_requested
returns = refl
