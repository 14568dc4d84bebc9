-- ===== src/Examples/Blocks.antt =====
-- src/event_loop.rs, `block_on`: two events, each of which is followed by a notification.
use async_winit.Prelude.{◌≡◌, refl, true, some, [], ◌∷◌}
use async_winit.Sync.ThreadUnsafe.{deque}
use async_winit.Notifier.{notify}
use async_winit.Wheel.{keys_before, split_off}
use async_winit.Reactor.{
  notify_proxy, set_proxy, process_timers, process_timer_ops, drain_ops, exit_requested,
}
use async_winit.Reactor.Global.{new}
use async_winit.Filter
use async_winit.Filter.{World, new_events}
use async_winit.EventLoop.{block_on, run_events}
use async_winit.Examples.Loops.{quiet, ops, numbers, fresh}

unfoldable unstarted : World ops numbers quiet.Env
unfolding quiet deque new
unstarted = record { reactor = new ops numbers [] []; env = tt }

unfoldable notified_meanwhile : World ops numbers quiet.Env → World ops numbers quiet.Env
notified_meanwhile w = record w { reactor = notify_proxy ops numbers w.reactor }

-- The notifier is awake, and has sent nothing.
unfoldable slept : World ops numbers quiet.Env
unfolding unstarted quiet deque new
slept = record unstarted {
  reactor = record (unstarted.reactor) {
    proxy = some (record { notified = true; awake = true; sent = 0 });
  };
}

two_rounds :
    block_on quiet 3 notified_meanwhile (new_events ∷ new_events ∷ []) unstarted
    ≡ some (fresh, slept)
unfolding block_on run_events notified_meanwhile unstarted slept new quiet deque notify_proxy notify
    set_proxy Filter.new Filter.handle_event Filter.on_wakeup Filter.change_notifier
    Filter.round_of_timers Filter.set_filter Filter.set_world process_timers process_timer_ops
    drain_ops keys_before split_off Filter.post Filter.poll_notified Filter.poll_once
    Filter.poll_wrapped Filter.after_pending Filter.about_to_sleep Filter.before_sleep
    Filter.drain_queue Filter.control_flow Filter.result_of exit_requested
two_rounds = refl
