-- ===== src/Window/Methods/Focus.antt =====
-- src/window.rs: the methods of a window about input methods, focus, theme and title.
use async_winit.Prelude.{Bool, Option}
use async_winit.Sync.{QueueApi}
use async_winit.Sync.Channels.{ChannelApi}
use async_winit.Reactor.{TimerOp}
use async_winit.Ops.Winit.{WinitWindows}
use async_winit.Ops.Request
use async_winit.Ops.Request.{Answer, EventLoopOp, focus}
use async_winit.Window.Methods.{Window, Asks, ask}

module _ (winit : WinitWindows) (channels : ChannelApi (Answer winit)) (queue : QueueApi TimerOp)
    (channel : QueueApi (EventLoopOp winit)) where
  open winit use {types, ImePurpose, UserAttentionType}
  open types use {Position, Size, Theme}

  unfoldable pub set_ime_position :
      Window winit → Position → Size → Asks winit channels queue channel
  set_ime_position w a b =
      ask winit channels queue channel (focus (Request.set_ime_cursor_area w.inner a b))

  unfoldable pub set_ime_allowed : Window winit → Bool → Asks winit channels queue channel
  set_ime_allowed w a = ask winit channels queue channel (focus (Request.set_ime_allowed w.inner a))

  unfoldable pub set_ime_purpose : Window winit → ImePurpose → Asks winit channels queue channel
  set_ime_purpose w a = ask winit channels queue channel (focus (Request.set_ime_purpose w.inner a))

  unfoldable pub focus_window : Window winit → Asks winit channels queue channel
  focus_window w = ask winit channels queue channel (focus (Request.focus_window w.inner))

  unfoldable pub is_focused : Window winit → Asks winit channels queue channel
  is_focused w = ask winit channels queue channel (focus (Request.focused w.inner))

  unfoldable pub request_user_attention :
      Window winit → Option UserAttentionType → Asks winit channels queue channel
  request_user_attention w a =
      ask winit channels queue channel (focus (Request.request_user_attention w.inner a))

  unfoldable pub set_theme : Window winit → Option Theme → Asks winit channels queue channel
  set_theme w a = ask winit channels queue channel (focus (Request.set_theme w.inner a))

  unfoldable pub theme : Window winit → Asks winit channels queue channel
  theme w = ask winit channels queue channel (focus (Request.theme w.inner))

  unfoldable pub set_content_protected : Window winit → Bool → Asks winit channels queue channel
  set_content_protected w a =
      ask winit channels queue channel (focus (Request.set_protected_content w.inner a))

  unfoldable pub title : Window winit → Asks winit channels queue channel
  title w = ask winit channels queue channel (focus (Request.title w.inner))
