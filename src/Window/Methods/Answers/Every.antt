-- ===== src/Window/Methods/Answers/Every.antt =====
-- src/window.rs: what every method of a window comes to.
use async_winit.Prelude.{◌<◌, length}
use async_winit.Sync.{QueueApi}
use async_winit.Sync.Channels.{ChannelApi, Safety}
use async_winit.Reactor.{TimerOp}
use async_winit.Reactor.Loop.{World}
use async_winit.Ops.Winit.{WinitWindows}
use async_winit.Ops.Request
use async_winit.Ops.Request.{
  Answer, Kind, Request, EventLoopOp, reply, geometry, look, focus, cursor,
}
use async_winit.Ops.Run.{perform}
use async_winit.Window.Methods.Calls.{
  Call, kind_of, direct, call, inner_position, outer_position, set_outer_position, inner_size,
  outer_size, set_min_inner_size, set_max_inner_size, resize_increments, set_resize_increments,
  set_title, set_visible, is_visible, set_transparent, set_resizable, is_resizable, set_minimized,
  is_minimized, set_maximized, is_maximized, set_fullscreen, fullscreen, set_decorations,
  is_decorated, set_window_level, set_window_icon, set_ime_position, set_ime_allowed,
  set_ime_purpose, focus_window, is_focused, request_user_attention, set_theme, theme,
  set_content_protected, title, set_cursor_icon, set_cursor_position, set_cursor_grab,
  set_cursor_visible, drag_window, drag_resize_window, set_cursor_hittest, current_monitor,
}
use async_winit.Window.Methods.Answers.{IsReady, Answers, ask-Answers}

module _ {winit : WinitWindows} (channels : ChannelApi (Answer winit)) (queue : QueueApi TimerOp)
    (channel : QueueApi (EventLoopOp winit)) where
  -- Where the operations of the queue wait on open and empty channels of their own, and the queue
  -- has room for one more: each of the 43 asynchronous methods of a window asks, and finds no answer
  -- yet; a drain then succeeds and empties the queue, and the window system is as winit's method of
  -- that name leaves it, called once behind all that was asked before; the method receives what that
  -- method returned.
  pub call-Answers :
      (safety : Safety) (c : Call winit) (w : World winit channels queue channel)
      → IsReady channels queue channel w
      → length (channel.items w.reactor.evl_ops) < channel.capacity w.reactor.evl_ops
      → Answers channels queue channel safety
          (kind_of winit c)
          (call winit channels queue channel c)
          (direct winit c)
          w
  unfolding call perform
  call-Answers safety (inner_position x) w =
      ask-Answers channels queue channel safety (geometry (Request.inner_position x.inner)) w
  call-Answers safety (outer_position x) w =
      ask-Answers channels queue channel safety (geometry (Request.outer_position x.inner)) w
  call-Answers safety (set_outer_position x a) w =
      ask-Answers channels queue channel safety (geometry (Request.set_outer_position x.inner a)) w
  call-Answers safety (inner_size x) w =
      ask-Answers channels queue channel safety (geometry (Request.inner_size x.inner)) w
  call-Answers safety (outer_size x) w =
      ask-Answers channels queue channel safety (geometry (Request.outer_size x.inner)) w
  call-Answers safety (set_min_inner_size x a) w =
      ask-Answers channels queue channel safety (geometry (Request.set_min_inner_size x.inner a)) w
  call-Answers safety (set_max_inner_size x a) w =
      ask-Answers channels queue channel safety (geometry (Request.set_max_inner_size x.inner a)) w
  call-Answers safety (resize_increments x) w =
      ask-Answers channels queue channel safety (geometry (Request.resize_increments x.inner)) w
  call-Answers safety (set_resize_increments x a) w =
      ask-Answers channels queue channel safety (geometry (Request.set_resize_increments x.inner a))
        w
  call-Answers safety (set_title x a) w =
      ask-Answers channels queue channel safety (look (Request.set_title x.inner a)) w
  call-Answers safety (set_visible x a) w =
      ask-Answers channels queue channel safety (look (Request.set_visible x.inner a)) w
  call-Answers safety (is_visible x) w =
      ask-Answers channels queue channel safety (look (Request.visible x.inner)) w
  call-Answers safety (set_transparent x a) w =
      ask-Answers channels queue channel safety (look (Request.set_transparent x.inner a)) w
  call-Answers safety (set_resizable x a) w =
      ask-Answers channels queue channel safety (look (Request.set_resizable x.inner a)) w
  call-Answers safety (is_resizable x) w =
      ask-Answers channels queue channel safety (look (Request.resizable x.inner)) w
  call-Answers safety (set_minimized x a) w =
      ask-Answers channels queue channel safety (look (Request.set_minimized x.inner a)) w
  call-Answers safety (is_minimized x) w =
      ask-Answers channels queue channel safety (look (Request.minimized x.inner)) w
  call-Answers safety (set_maximized x a) w =
      ask-Answers channels queue channel safety (look (Request.set_maximized x.inner a)) w
  call-Answers safety (is_maximized x) w =
      ask-Answers channels queue channel safety (look (Request.maximized x.inner)) w
  call-Answers safety (set_fullscreen x a) w =
      ask-Answers channels queue channel safety (look (Request.set_fullscreen x.inner a)) w
  call-Answers safety (fullscreen x) w =
      ask-Answers channels queue channel safety (look (Request.fullscreen x.inner)) w
  call-Answers safety (set_decorations x a) w =
      ask-Answers channels queue channel safety (look (Request.set_decorated x.inner a)) w
  call-Answers safety (is_decorated x) w =
      ask-Answers channels queue channel safety (look (Request.decorated x.inner)) w
  call-Answers safety (set_window_level x a) w =
      ask-Answers channels queue channel safety (look (Request.set_window_level x.inner a)) w
  call-Answers safety (set_window_icon x a) w =
      ask-Answers channels queue channel safety (look (Request.set_window_icon x.inner a)) w
  call-Answers safety (set_ime_position x a b) w =
      ask-Answers channels queue channel safety (focus (Request.set_ime_cursor_area x.inner a b)) w
  call-Answers safety (set_ime_allowed x a) w =
      ask-Answers channels queue channel safety (focus (Request.set_ime_allowed x.inner a)) w
  call-Answers safety (set_ime_purpose x a) w =
      ask-Answers channels queue channel safety (focus (Request.set_ime_purpose x.inner a)) w
  call-Answers safety (focus_window x) w =
      ask-Answers channels queue channel safety (focus (Request.focus_window x.inner)) w
  call-Answers safety (is_focused x) w =
      ask-Answers channels queue channel safety (focus (Request.focused x.inner)) w
  call-Answers safety (request_user_attention x a) w =
      ask-Answers channels queue channel safety (focus (Request.request_user_attention x.inner a)) w
  call-Answers safety (set_theme x a) w =
      ask-Answers channels queue channel safety (focus (Request.set_theme x.inner a)) w
  call-Answers safety (theme x) w =
      ask-Answers channels queue channel safety (focus (Request.theme x.inner)) w
  call-Answers safety (set_content_protected x a) w =
      ask-Answers channels queue channel safety (focus (Request.set_protected_content x.inner a)) w
  call-Answers safety (title x) w =
      ask-Answers channels queue channel safety (focus (Request.title x.inner)) w
  call-Answers safety (set_cursor_icon x a) w =
      ask-Answers channels queue channel safety (cursor (Request.set_cursor_icon x.inner a)) w
  call-Answers safety (set_cursor_position x a) w =
      ask-Answers channels queue channel safety (cursor (Request.set_cursor_position x.inner a)) w
  call-Answers safety (set_cursor_grab x a) w =
      ask-Answers channels queue channel safety (cursor (Request.set_cursor_grab x.inner a)) w
  call-Answers safety (set_cursor_visible x a) w =
      ask-Answers channels queue channel safety (cursor (Request.set_cursor_visible x.inner a)) w
  call-Answers safety (drag_window x) w =
      ask-Answers channels queue channel safety (cursor (Request.drag_window x.inner)) w
  call-Answers safety (drag_resize_window x a) w =
      ask-Answers channels queue channel safety (cursor (Request.drag_resize_window x.inner a)) w
  call-Answers safety (set_cursor_hittest x a) w =
      ask-Answers channels queue channel safety (cursor (Request.set_cursor_hit_test x.inner a)) w
  call-Answers safety (current_monitor x) w =
      ask-Answers channels queue channel safety (cursor (Request.current_monitor x.inner)) w
