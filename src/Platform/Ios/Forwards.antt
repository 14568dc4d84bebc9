-- ===== src/Platform/Ios/Forwards.antt =====
-- src/platform/ios.rs: the methods of a window that the platform adds, over those of winit.
use async_winit.Prelude.{Bool}
use async_winit.Ops.Winit.{WinitWindows}
use async_winit.Window.Methods.{Window}
use async_winit.Window.Direct.{window}

-- What winit has on this platform.
pub record WindowExt (winit : WinitWindows) : Type 1 where
  pub Pointer : Type 0
  pub ScaleFactor : Type 0
  pub ValidOrientations : Type 0
  pub ScreenEdge : Type 0
  pub ui_window : winit.Window → winit.Env → Pointer × winit.Env
  pub ui_view_controller : winit.Window → winit.Env → Pointer × winit.Env
  pub ui_view : winit.Window → winit.Env → Pointer × winit.Env
  pub set_scale_factor : winit.Window → ScaleFactor → winit.Env → Unit {0} × winit.Env
  pub set_valid_orientations : winit.Window → ValidOrientations → winit.Env → Unit {0} × winit.Env
  pub set_prefers_home_indicator_hidden : winit.Window → Bool → winit.Env → Unit {0} × winit.Env
  pub set_preferred_screen_edges_deferring_system_gestures :
      winit.Window → ScreenEdge → winit.Env → Unit {0} × winit.Env
  pub set_prefers_status_bar_hidden : winit.Window → Bool → winit.Env → Unit {0} × winit.Env

module _ {winit : WinitWindows} (ext : WindowExt winit) where
  unfoldable pub ui_window : Window winit → winit.Env → ext.Pointer × winit.Env
  unfolding window
  ui_window w = ext.ui_window (window w)

  unfoldable pub ui_view_controller : Window winit → winit.Env → ext.Pointer × winit.Env
  unfolding window
  ui_view_controller w = ext.ui_view_controller (window w)

  unfoldable pub ui_view : Window winit → winit.Env → ext.Pointer × winit.Env
  unfolding window
  ui_view w = ext.ui_view (window w)

  unfoldable pub set_scale_factor :
      Window winit → ext.ScaleFactor → winit.Env → Unit {0} × winit.Env
  unfolding window
  set_scale_factor w scale_factor = ext.set_scale_factor (window w) scale_factor

  unfoldable pub set_valid_orientations :
      Window winit → ext.ValidOrientations → winit.Env → Unit {0} × winit.Env
  unfolding window
  set_valid_orientations w valid_orientations =
      ext.set_valid_orientations (window w) valid_orientations

  unfoldable pub set_prefers_home_indicator_hidden :
      Window winit → Bool → winit.Env → Unit {0} × winit.Env
  unfolding window
  set_prefers_home_indicator_hidden w hidden =
      ext.set_prefers_home_indicator_hidden (window w) hidden

  unfoldable pub set_preferred_screen_edges_deferring_system_gestures :
      Window winit → ext.ScreenEdge → winit.Env → Unit {0} × winit.Env
  unfolding window
  set_preferred_screen_edges_deferring_system_gestures w edges =
      ext.set_preferred_screen_edges_deferring_system_gestures (window w) edges

  unfoldable pub set_prefers_status_bar_hidden :
      Window winit → Bool → winit.Env → Unit {0} × winit.Env
  unfolding window
  set_prefers_status_bar_hidden w hidden = ext.set_prefers_status_bar_hidden (window w) hidden
