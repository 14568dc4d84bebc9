-- ===== src/Examples/Programs.antt =====
-- src/reactor.rs, src/sync.rs, src/window.rs and src/event_loop.rs, with windows, threads and exit codes
-- that are small numbers.
use async_winit.Prelude.{
  ℕ, ◌≡◌, ◌<◌, ◌≤◌, ◌+◌, ◌-◌, ◌*◌, ◌⊎◌, ◌^◌, refl, true, false, none, some, List, [], ◌∷◌, ◌==◌,
  if◌then◌else◌, ◌>>=◌, map_option, map, arith,
}
use async_winit.Sync.{QueueApi}
use async_winit.Sync.ThreadUnsafe.{deque}
use async_winit.Reactor.{TimerOp, Reactor, exit_requested, request_exit}
use async_winit.Reactor.Exit.{exit_code-packed}
use async_winit.Reactor.Global.{new}
use async_winit.Reactor.Global.Once.{get_reactor-once, ask_unsafe, ask_safe, nothing_made}
use async_winit.Reactor.Windows.{get, to_window, post_event, window_event}
use async_winit.Reactor.Windows.Routes.{
  Change, inserted, removed, run_changes, latest, post_event-run_changes,
}
use async_winit.Window.Registration
use async_winit.Window.Registration.{signal, resized_event}
use async_winit.Window.Registration.Reaches.{event_of, is_received}
use async_winit.Window.Handlers.Reached.{handler, post_event-handler}
use async_winit.Window.Lifetime.{Shared, clone, drop_window}
use async_winit.Window.Lifetime.Owners.{
  Reaches, Owned, built, cloned, asked, dropped, Reaches-Owned, drop_window-last,
}
use async_winit.Filter
use async_winit.Filter.{Run, control_flow, set_world, World, new_events}
use async_winit.EventLoop.{set_exit_with_code}
use async_winit.EventLoop.Exits.{poll_exit, all_of, control_flow-exit_with_code}
use async_winit.Examples.Windows.{winit_numbers}
use async_winit.Examples.Answers.{counting, two_asked, window, timer_ops, loop_ops}
use async_winit.Examples.Loops.{quiet, due}

abbrev ops : QueueApi TimerOp
ops = deque

abbrev evl : QueueApi ℕ
evl = deque

unfoldable fresh : Reactor ops evl
unfolding deque new
fresh = new ops evl [] []

fresh_windows : fresh.windows ≡ []
unfolding fresh new
fresh_windows = refl

-- Window 3 comes, window 4 comes, and window 3 goes.
abbrev changes : List Change
changes = inserted 3 ∷ inserted 4 ∷ removed 3 ∷ []

post_event-run_changes_example :
    post_event {winit = winit_numbers} {Rest = ℕ} ops evl
      (window_event 4 (resized_event 9))
      (run_changes ops evl changes 0 fresh).1
    ≡ (latest ops evl changes 0 4 none >>= λ registration.
        map_option (to_window registration) (signal winit_numbers (resized_event 9)))
post_event-run_changes_example =
    post_event-run_changes ops evl changes 0 4 (resized_event 9) fresh fresh_windows

get_reactor-once_example :
    (ask_unsafe
        (1 ∷ 2 ∷ 1 ∷ [])
        (record { reactor_thread_id = none; reactor = []; made = nothing_made })
      ≡ map (λ thread. if thread == 1 then some 0 else none) (1 ∷ 2 ∷ 1 ∷ []))
    × (ask_safe (2 ∷ 1 ∷ []) (record { reactor = none; made = nothing_made })
        ≡ map {A = ℕ} (λ _. some 0) (2 ∷ 1 ∷ []))
get_reactor-once_example = get_reactor-once 1 (2 ∷ 1 ∷ [])

exit_code-packed_example :
    ((3 < 2 ^ 31) × ((request_exit ops evl fresh 3).exit_code ≡ 2 * 3 + 1))
    ⊎ ((2 ^ 31 ≤ 3) × ((request_exit ops evl fresh 3).exit_code + 2 * (2 ^ 32 - 3) ≡ 2 ^ 64 + 1))
exit_code-packed_example = exit_code-packed ops evl fresh 3 (omega arith)

one_window_of : get (counting.id window.inner) two_asked.reactor.windows ≡ some window.registration
unfolding get two_asked counting window
one_window_of = refl

post_event-handler_example :
    ((event_of winit_numbers (λ s. s) Registration.resized 9 >>= λ e.
    post_event {Rest = ℕ} timer_ops loop_ops
      (window_event (counting.id window.inner) e)
      two_asked.reactor)
      ≡ (if is_received winit_numbers Registration.resized
          then none
          else some (
              to_window
                (handler winit_numbers Registration.resized window).0
                (Registration.resized, 9))))
    × ((handler winit_numbers Registration.resized window).1 ≡ Registration.resized)
post_event-handler_example =
    post_event-handler winit_numbers timer_ops loop_ops ℕ (λ s. s) (λ s. refl) two_asked.reactor
      window Registration.resized 9 one_window_of

unfoldable with_window : Reactor ops evl
with_window = record fresh { windows = (3, 0) ∷ [] }

has_window : get 3 with_window.windows ≡ some 0
unfolding get with_window
has_window = refl

-- The window is cloned, and one of its two handles asks and is dropped.
unfoldable one_left : Shared ops evl
one_left = drop_window 3 (clone (clone (record { strong_count = 1; reactor = with_window })))

one_left-Reaches : Reaches 3 0 1 1 one_left
unfolding one_left
one_left-Reaches = dropped (asked (cloned (built with_window has_window)))

Reaches-Owned_example : Owned 3 0 1 1 one_left
Reaches-Owned_example = Reaches-Owned 3 0 one_left-Reaches

drop_window-last_example :
    get 3 (drop_window 3 one_left).reactor.windows ≡ (if 1 == 0 then none else some 0)
drop_window-last_example = drop_window-last 3 0 one_left-Reaches

unfoldable quiet_run : Run quiet
quiet_run = record {
  filter = record { deadline = none; wakers = []; yielding = false };
  output = none;
  world = due;
}

-- Others drop the request, and then ask for the exit with code 9.
unfoldable dropped_request : Reactor ops evl → Reactor ops evl
dropped_request r = record r { exit_code = 0 }

unfoldable asked_for_nine : Reactor ops evl → Reactor ops evl
asked_for_nine r = set_exit_with_code ops evl 9 r

control_flow-exit_with_code_example :
    (poll_exit ops evl (dropped_request ∷ asked_for_nine ∷ []) 7 false quiet_run.world.reactor ≡ (
      true,
      all_of ops evl
          (dropped_request ∷ asked_for_nine ∷ [])
          (set_exit_with_code ops evl 7 quiet_run.world.reactor),
    ))
    × (exit_requested ops evl (set_exit_with_code ops evl 7 quiet_run.world.reactor) ≡ some 7)
    × (control_flow quiet (
          set_world quiet quiet_run (record (quiet_run.world) {
            reactor = set_exit_with_code ops evl 7 quiet_run.world.reactor;
          }))
        ≡ Filter.exit)
control_flow-exit_with_code_example =
    control_flow-exit_with_code quiet dropped_request (asked_for_nine ∷ []) 7 quiet_run
      (omega arith)
