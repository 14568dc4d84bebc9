-- ===== src/Window/Methods/Geometry.antt =====
-- src/window.rs: the methods of a window about sizes and positions.
use async_winit.Prelude.{Option}
use async_winit.Sync.{QueueApi}
use async_winit.Sync.Channels.{ChannelApi}
use async_winit.Reactor.{TimerOp}
use async_winit.Ops.Winit.{WinitWindows}
use async_winit.Ops.Request
use async_winit.Ops.Request.{Answer, EventLoopOp, geometry}
use async_winit.Window.Methods.{Window, Asks, ask}

module _ (winit : WinitWindows) (channels : ChannelApi (Answer winit)) (queue : QueueApi TimerOp)
    (channel : QueueApi (EventLoopOp winit)) where
  open winit use {types}
  open types use {Position, Size}

  unfoldable pub inner_position : Window winit → Asks winit channels queue channel
  inner_position w = ask winit channels queue channel (geometry (Request.inner_position w.inner))

  unfoldable pub outer_position : Window winit → Asks winit channels queue channel
  outer_position w = ask winit channels queue channel (geometry (Request.outer_position w.inner))

  unfoldable pub set_outer_position : Window winit → Position → Asks winit channels queue channel
  set_outer_position w a =
      ask winit channels queue channel (geometry (Request.set_outer_position w.inner a))

  unfoldable pub inner_size : Window winit → Asks winit channels queue channel
  inner_size w = ask winit channels queue channel (geometry (Request.inner_size w.inner))

  unfoldable pub outer_size : Window winit → Asks winit channels queue channel
  outer_size w = ask winit channels queue channel (geometry (Request.outer_size w.inner))

  unfoldable pub set_min_inner_size : Window winit → Option Size → Asks winit channels queue channel
  set_min_inner_size w a =
      ask winit channels queue channel (geometry (Request.set_min_inner_size w.inner a))

  unfoldable pub set_max_inner_size : Window winit → Option Size → Asks winit channels queue channel
  set_max_inner_size w a =
      ask winit channels queue channel (geometry (Request.set_max_inner_size w.inner a))

  unfoldable pub resize_increments : Window winit → Asks winit channels queue channel
  resize_increments w =
      ask winit channels queue channel (geometry (Request.resize_increments w.inner))

  unfoldable pub set_resize_increments :
      Window winit → Option Size → Asks winit channels queue channel
  set_resize_increments w a =
      ask winit channels queue channel (geometry (Request.set_resize_increments w.inner a))
