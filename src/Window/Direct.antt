-- ===== src/Window/Direct.antt =====
-- src/window.rs: the methods of a window that call winit at once, in the caller's thread, and do not ask
-- the event loop.
pub mod Agrees
use async_winit.Prelude.{ℕ, Bool, Option}
use async_winit.Ops.Winit.{WinitWindows}
use async_winit.Window.Methods.{Window}

module _ {winit : WinitWindows} where
  unfoldable pub has_focus : Window winit → winit.Env → Bool × winit.Env
  has_focus w = winit.has_focus w.inner

  unfoldable pub request_inner_size :
      Window winit → winit.types.Size → winit.Env → Option winit.PhysicalSize × winit.Env
  request_inner_size w size = winit.request_inner_size w.inner size

  unfoldable pub window : Window winit → winit.Window
  window w = w.inner

  unfoldable pub id : Window winit → ℕ
  id w = winit.id w.inner

  unfoldable pub scale_factor : Window winit → winit.Env → winit.ScaleFactor × winit.Env
  scale_factor w = winit.scale_factor w.inner

  unfoldable pub request_redraw : Window winit → winit.Env → Unit {0} × winit.Env
  request_redraw w = winit.request_redraw w.inner

  unfoldable pub set_enabled_buttons :
      Window winit → winit.types.WindowButtons → winit.Env → Unit {0} × winit.Env
  set_enabled_buttons w buttons = winit.set_enabled_buttons w.inner buttons

  unfoldable pub enabled_buttons : Window winit → winit.Env → winit.types.WindowButtons × winit.Env
  enabled_buttons w = winit.enabled_buttons w.inner

  unfoldable pub set_ime_cursor_area :
      Window winit → winit.types.Position → winit.types.Size → winit.Env → Unit {0} × winit.Env
  set_ime_cursor_area w position size = winit.set_ime_cursor_area w.inner position size
