-- ===== src/Window/Direct/Agrees.antt =====
-- src/window.rs: the two methods of a window that there are twice, at once and through the event loop.
use async_winit.Prelude.{◌<◌, length}
use async_winit.Sync.{QueueApi}
use async_winit.Sync.Channels.{ChannelApi, Safety}
use async_winit.Reactor.{TimerOp}
use async_winit.Reactor.Loop.{World}
use async_winit.Ops.Winit.{WinitWindows}
use async_winit.Ops.Request.{Answer, EventLoopOp, flag, done}
use async_winit.Window.Methods.{Window}
use async_winit.Window.Methods.Calls
use async_winit.Window.Methods.Calls.{call}
use async_winit.Window.Methods.Focus.{is_focused, set_ime_position}
use async_winit.Window.Methods.Answers.{IsReady, Answers}
use async_winit.Window.Methods.Answers.Every.{call-Answers}
use async_winit.Window.Direct.{has_focus, set_ime_cursor_area}

module _ {winit : WinitWindows} (channels : ChannelApi (Answer winit)) (queue : QueueApi TimerOp)
    (channel : QueueApi (EventLoopOp winit)) where
  -- Where the queue is ready and has room, `is_focused` is answered with what `has_focus` returns, and
  -- `set_ime_position` does what `set_ime_cursor_area` does, behind all that was asked before.
  pub is_focused-has_focus :
      (safety : Safety) (window : Window winit) (position : winit.types.Position)
      (size : winit.types.Size) (w : World winit channels queue channel)
      → IsReady channels queue channel w
      → length (channel.items w.reactor.evl_ops) < channel.capacity w.reactor.evl_ops
      → Answers channels queue channel safety flag
          (is_focused winit channels queue channel window)
          (has_focus window)
          w
        × Answers channels queue channel safety done
            (set_ime_position winit channels queue channel window position size)
            (set_ime_cursor_area window position size)
            w
  unfolding has_focus set_ime_cursor_area call
  is_focused-has_focus safety window position size w r room = (
    call-Answers channels queue channel safety (Calls.is_focused window) w r room,
    call-Answers channels queue channel safety (Calls.set_ime_position window position size) w r
        room,
  )
