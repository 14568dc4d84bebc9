-- ===== src/Window/Methods/Look.antt =====
-- src/window.rs: the methods of a window about what the window looks like.
use async_winit.Prelude.{Bool, Option}
use async_winit.Sync.{QueueApi}
use async_winit.Sync.Channels.{ChannelApi}
use async_winit.Reactor.{TimerOp}
use async_winit.Ops.Winit.{WinitWindows}
use async_winit.Ops.Request
use async_winit.Ops.Request.{Answer, EventLoopOp, look}
use async_winit.Window.Methods.{Window, Asks, ask}

module _ (winit : WinitWindows) (channels : ChannelApi (Answer winit)) (queue : QueueApi TimerOp)
    (channel : QueueApi (EventLoopOp winit)) where
  open winit use {types}
  open types use {Title, Fullscreen, WindowLevel, Icon}

  unfoldable pub set_title : Window winit → Title → Asks winit channels queue channel
  set_title w a = ask winit channels queue channel (look (Request.set_title w.inner a))

  unfoldable pub set_visible : Window winit → Bool → Asks winit channels queue channel
  set_visible w a = ask winit channels queue channel (look (Request.set_visible w.inner a))

  unfoldable pub is_visible : Window winit → Asks winit channels queue channel
  is_visible w = ask winit channels queue channel (look (Request.visible w.inner))

  unfoldable pub set_transparent : Window winit → Bool → Asks winit channels queue channel
  set_transparent w a = ask winit channels queue channel (look (Request.set_transparent w.inner a))

  unfoldable pub set_resizable : Window winit → Bool → Asks winit channels queue channel
  set_resizable w a = ask winit channels queue channel (look (Request.set_resizable w.inner a))

  unfoldable pub is_resizable : Window winit → Asks winit channels queue channel
  is_resizable w = ask winit channels queue channel (look (Request.resizable w.inner))

  unfoldable pub set_minimized : Window winit → Bool → Asks winit channels queue channel
  set_minimized w a = ask winit channels queue channel (look (Request.set_minimized w.inner a))

  unfoldable pub is_minimized : Window winit → Asks winit channels queue channel
  is_minimized w = ask winit channels queue channel (look (Request.minimized w.inner))

  unfoldable pub set_maximized : Window winit → Bool → Asks winit channels queue channel
  set_maximized w a = ask winit channels queue channel (look (Request.set_maximized w.inner a))

  unfoldable pub is_maximized : Window winit → Asks winit channels queue channel
  is_maximized w = ask winit channels queue channel (look (Request.maximized w.inner))

  unfoldable pub set_fullscreen :
      Window winit → Option Fullscreen → Asks winit channels queue channel
  set_fullscreen w a = ask winit channels queue channel (look (Request.set_fullscreen w.inner a))

  unfoldable pub fullscreen : Window winit → Asks winit channels queue channel
  fullscreen w = ask winit channels queue channel (look (Request.fullscreen w.inner))

  unfoldable pub set_decorations : Window winit → Bool → Asks winit channels queue channel
  set_decorations w a = ask winit channels queue channel (look (Request.set_decorated w.inner a))

  unfoldable pub is_decorated : Window winit → Asks winit channels queue channel
  is_decorated w = ask winit channels queue channel (look (Request.decorated w.inner))

  unfoldable pub set_window_level : Window winit → WindowLevel → Asks winit channels queue channel
  set_window_level w a =
      ask winit channels queue channel (look (Request.set_window_level w.inner a))

  unfoldable pub set_window_icon : Window winit → Option Icon → Asks winit channels queue channel
  set_window_icon w a = ask winit channels queue channel (look (Request.set_window_icon w.inner a))
