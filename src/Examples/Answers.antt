-- ===== src/Examples/Answers.antt =====
-- src/window.rs, src/reactor.rs and src/event_loop.rs with a window system that counts its calls: a
-- setter adds one, and a getter returns the count.
use async_winit.Prelude.{
  ℕ, ◌+◌, ◌≡◌, ◌<◌, refl, true, false, none, some, List, [], ◌∷◌, ok, length, arith,
}
use async_winit.Sync.{QueueApi}
use async_winit.Sync.Channels.{ChannelApi, thread_safe, thread_unsafe}
use async_winit.Sync.Channels.Slots.{slots_api}
use async_winit.Sync.ThreadUnsafe.{deque}
use async_winit.Reactor.{TimerOp}
use async_winit.Ops.Winit.{WinitWindows}
use async_winit.Ops.Request
use async_winit.Ops.Request.{
  Answer, Kind, Kind-discrete, EventLoopOp, geometry, look, flag, done, built,
}
use async_winit.Reactor.Loop.{World, drain_loop_queue}
use async_winit.Reactor.Loop.Drain.{Answered, perform_all}
use async_winit.Window.Lifetime.Opens.{Opens, finish_build-Opens}
use async_winit.Window.Methods.{Window, ask}
use async_winit.Window.Methods.Calls
use async_winit.Window.Methods.Calls.{call, direct}
use async_winit.Window.Methods.Answers.{IsReady, Answers, drain_loop_queue-Answered}
use async_winit.Window.Methods.Answers.Every.{call-Answers}
use async_winit.Window.Methods.Cancelled.{ask-drop_receiver}
use async_winit.Examples.Windows.{numbers, by_attributes}

unfoldable pub counting : WinitWindows
unfolding by_attributes
counting = record {
  types = numbers;
  api = by_attributes;
  Window = ℕ;
  PhysicalPosition = ℕ;
  PhysicalSize = ℕ;
  NotSupportedError = ℕ;
  ExternalError = ℕ;
  OsError = ℕ;
  ImePurpose = ℕ;
  UserAttentionType = ℕ;
  CursorIcon = ℕ;
  CursorGrabMode = ℕ;
  ResizeDirection = ℕ;
  Monitor = ℕ;
  ScaleFactor = ℕ;
  Env = ℕ;
  inner_position = λ a0 env. (ok env, env);
  outer_position = λ a0 env. (ok env, env);
  set_outer_position = λ a0 a1 env. (tt, env + 1);
  inner_size = λ a0 env. (env, env);
  set_min_inner_size = λ a0 a1 env. (tt, env + 1);
  set_max_inner_size = λ a0 a1 env. (tt, env + 1);
  outer_size = λ a0 env. (env, env);
  resize_increments = λ a0 env. (some env, env);
  set_resize_increments = λ a0 a1 env. (tt, env + 1);
  set_title = λ a0 a1 env. (tt, env + 1);
  set_transparent = λ a0 a1 env. (tt, env + 1);
  set_resizable = λ a0 a1 env. (tt, env + 1);
  set_visible = λ a0 a1 env. (tt, env + 1);
  is_resizable = λ a0 env. (true, env);
  is_visible = λ a0 env. (some true, env);
  set_minimized = λ a0 a1 env. (tt, env + 1);
  is_minimized = λ a0 env. (some true, env);
  set_maximized = λ a0 a1 env. (tt, env + 1);
  is_maximized = λ a0 env. (true, env);
  set_fullscreen = λ a0 a1 env. (tt, env + 1);
  fullscreen = λ a0 env. (some env, env);
  set_decorations = λ a0 a1 env. (tt, env + 1);
  is_decorated = λ a0 env. (true, env);
  set_window_level = λ a0 a1 env. (tt, env + 1);
  set_window_icon = λ a0 a1 env. (tt, env + 1);
  set_ime_cursor_area = λ a0 a1 a2 env. (tt, env + 1);
  set_ime_allowed = λ a0 a1 env. (tt, env + 1);
  set_ime_purpose = λ a0 a1 env. (tt, env + 1);
  focus_window = λ a0 env. (tt, env + 1);
  has_focus = λ a0 env. (true, env);
  request_user_attention = λ a0 a1 env. (tt, env + 1);
  set_theme = λ a0 a1 env. (tt, env + 1);
  theme = λ a0 env. (some env, env);
  set_content_protected = λ a0 a1 env. (tt, env + 1);
  title = λ a0 env. (env, env);
  set_cursor_icon = λ a0 a1 env. (tt, env + 1);
  set_cursor_position = λ a0 a1 env. (ok tt, env + 1);
  set_cursor_grab = λ a0 a1 env. (ok tt, env + 1);
  set_cursor_visible = λ a0 a1 env. (tt, env + 1);
  drag_window = λ a0 env. (ok tt, env + 1);
  drag_resize_window = λ a0 a1 env. (ok tt, env + 1);
  set_cursor_hittest = λ a0 a1 env. (ok tt, env + 1);
  current_monitor = λ a0 env. (some env, env);
  primary_monitor = λ env. (some env, env);
  available_monitors = λ env. (env ∷ [], env);
  build = λ a0 env. (ok env, env);
  request_inner_size = λ a0 a1 env. (some env, env);
  request_redraw = λ a0 env. (tt, env + 1);
  scale_factor = λ a0 env. (env, env);
  set_enabled_buttons = λ a0 a1 env. (tt, env + 1);
  enabled_buttons = λ a0 env. (env, env);
  id = λ w. w;
}

unfoldable pub slots : ChannelApi (Answer counting)
slots = slots_api (Answer counting) Kind-discrete

abbrev pub timer_ops : QueueApi TimerOp
timer_ops = deque

abbrev pub loop_ops : QueueApi (EventLoopOp counting)
loop_ops = deque

-- Window 3 is to be hidden, and its size is asked for.
unfoldable pub two_ops : List (EventLoopOp counting)
unfolding counting
two_ops =
    record { request = look (Request.set_visible 3 false); waker = 0 }
    ∷ record { request = geometry (Request.inner_size 3); waker = 1 }
    ∷ []

unfoldable pub two_slots : slots.Store
unfolding slots slots_api
two_slots =
    slots.make Request.size
      (slots.make done (record { next = 0; opened = λ j. false; slots = λ k j. [] }))

unfoldable pub two_asked : World counting slots timer_ops loop_ops
unfolding two_ops slots slots_api deque counting
two_asked = record {
  reactor = record {
    exit_code = 0;
    evl_ops = two_ops;
    windows = (3, 0) ∷ [];
    proxy = none;
    timers = [];
    timer_op_queue = [];
    timer_id = 1;
  };
  env = 5;
  store = two_slots;
}

two_asked-IsReady : IsReady slots timer_ops loop_ops two_asked
unfolding two_asked two_ops two_slots slots slots_api deque
two_asked-IsReady = record {
  waiting = (refl, refl, refl, (refl, refl, refl, tt));
  within = omega arith;
}

two_asked_room :
    length (loop_ops.items two_asked.reactor.evl_ops) < loop_ops.capacity two_asked.reactor.evl_ops
unfolding two_asked two_ops deque
two_asked_room = omega arith

unfoldable pub window : Window counting
unfolding counting
window = record { inner = 3; registration = 0 }

call-Answers_example :
    Answers slots timer_ops loop_ops thread_safe Request.maybe_flag
      (call counting slots timer_ops loop_ops (Calls.is_visible window))
      (direct counting (Calls.is_visible window))
      two_asked
call-Answers_example =
    call-Answers slots timer_ops loop_ops thread_safe (Calls.is_visible window) two_asked
      two_asked-IsReady two_asked_room

drain_loop_queue-Answered_example :
    (drained : World counting slots timer_ops loop_ops) × (drain_loop_queue counting slots timer_ops
        loop_ops thread_unsafe two_asked
      ≡ some drained)
    × (loop_ops.items drained.reactor.evl_ops ≡ [])
    × (drained.env ≡ perform_all (loop_ops.items two_asked.reactor.evl_ops) two_asked.env)
    × Answered slots (loop_ops.items two_asked.reactor.evl_ops) two_asked.env drained.store
drain_loop_queue-Answered_example =
    drain_loop_queue-Answered slots timer_ops loop_ops thread_unsafe two_asked two_asked-IsReady

ask-drop_receiver_example :
    (rx : ℕ) × (asked : World counting slots timer_ops loop_ops) × (ask counting slots timer_ops
        loop_ops Request.available_monitors two_asked
      ≡ some (rx, asked))
    × (drain_loop_queue counting slots timer_ops loop_ops thread_safe
          (record asked { store = slots.drop_receiver rx asked.store })
        ≡ none)
ask-drop_receiver_example =
    ask-drop_receiver slots timer_ops loop_ops Request.available_monitors two_asked
      two_asked-IsReady two_asked_room

finish_build-Opens_example : Opens counting timer_ops loop_ops window.inner 1 two_asked.reactor
finish_build-Opens_example =
    finish_build-Opens counting timer_ops loop_ops window.inner 1 two_asked.reactor
