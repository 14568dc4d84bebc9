-- ===== src/Window/Methods/Cursor.antt =====
-- src/window.rs: the methods of a window about the cursor, and the monitor.
use async_winit.Prelude.{Bool}
use async_winit.Sync.{QueueApi}
use async_winit.Sync.Channels.{ChannelApi}
use async_winit.Reactor.{TimerOp}
use async_winit.Ops.Winit.{WinitWindows}
use async_winit.Ops.Request
use async_winit.Ops.Request.{Answer, EventLoopOp, cursor}
use async_winit.Window.Methods.{Window, Asks, ask}

module _ (winit : WinitWindows) (channels : ChannelApi (Answer winit)) (queue : QueueApi TimerOp)
    (channel : QueueApi (EventLoopOp winit)) where
  open winit use {types, CursorIcon, CursorGrabMode, ResizeDirection}
  open types use {Position}

  unfoldable pub set_cursor_icon : Window winit → CursorIcon → Asks winit channels queue channel
  set_cursor_icon w a =
      ask winit channels queue channel (cursor (Request.set_cursor_icon w.inner a))

  unfoldable pub set_cursor_position : Window winit → Position → Asks winit channels queue channel
  set_cursor_position w a =
      ask winit channels queue channel (cursor (Request.set_cursor_position w.inner a))

  unfoldable pub set_cursor_grab : Window winit → CursorGrabMode → Asks winit channels queue channel
  set_cursor_grab w a =
      ask winit channels queue channel (cursor (Request.set_cursor_grab w.inner a))

  unfoldable pub set_cursor_visible : Window winit → Bool → Asks winit channels queue channel
  set_cursor_visible w a =
      ask winit channels queue channel (cursor (Request.set_cursor_visible w.inner a))

  unfoldable pub drag_window : Window winit → Asks winit channels queue channel
  drag_window w = ask winit channels queue channel (cursor (Request.drag_window w.inner))

  unfoldable pub drag_resize_window :
      Window winit → ResizeDirection → Asks winit channels queue channel
  drag_resize_window w a =
      ask winit channels queue channel (cursor (Request.drag_resize_window w.inner a))

  unfoldable pub set_cursor_hittest : Window winit → Bool → Asks winit channels queue channel
  set_cursor_hittest w a =
      ask winit channels queue channel (cursor (Request.set_cursor_hit_test w.inner a))

  unfoldable pub current_monitor : Window winit → Asks winit channels queue channel
  current_monitor w = ask winit channels queue channel (cursor (Request.current_monitor w.inner))
