-- ===== src/Platform/Windows/Forwards.antt =====
-- src/platform/windows.rs: the methods of a window and of the builder of event loops that the platform adds, over those of winit.
use async_winit.Prelude.{Bool, Option}
use async_winit.Ops.Winit.{WinitWindows}
use async_winit.Window.Methods.{Window}
use async_winit.Window.Direct.{window}

-- What winit has on this platform.
pub record WindowExt (winit : WinitWindows) : Type 1 where
  pub Icon : Type 0
  pub MsgHook : Type 0
  pub Builder : Type 0
  pub set_enable : winit.Window → Bool → winit.Env → Unit {0} × winit.Env
  pub set_taskbar_icon : winit.Window → Option Icon → winit.Env → Unit {0} × winit.Env
  pub set_skip_taskbar : winit.Window → Bool → winit.Env → Unit {0} × winit.Env
  pub set_undecorated_shadow : winit.Window → Bool → winit.Env → Unit {0} × winit.Env
  pub with_any_thread : Bool → Builder → Builder
  pub with_dpi_aware : Bool → Builder → Builder
  pub with_msg_hook : MsgHook → Builder → Builder

module _ {winit : WinitWindows} (ext : WindowExt winit) where
  unfoldable pub set_enable : Window winit → Bool → winit.Env → Unit {0} × winit.Env
  unfolding window
  set_enable w enabled = ext.set_enable (window w) enabled

  unfoldable pub set_taskbar_icon :
      Window winit → Option ext.Icon → winit.Env → Unit {0} × winit.Env
  unfolding window
  set_taskbar_icon w taskbar_icon = ext.set_taskbar_icon (window w) taskbar_icon

  unfoldable pub set_skip_taskbar : Window winit → Bool → winit.Env → Unit {0} × winit.Env
  unfolding window
  set_skip_taskbar w skip = ext.set_skip_taskbar (window w) skip

  unfoldable pub set_undecorated_shadow : Window winit → Bool → winit.Env → Unit {0} × winit.Env
  unfolding window
  set_undecorated_shadow w shadow = ext.set_undecorated_shadow (window w) shadow

  unfoldable pub with_any_thread : Bool → ext.Builder → ext.Builder
  with_any_thread any_thread builder = ext.with_any_thread any_thread builder

  unfoldable pub with_dpi_aware : Bool → ext.Builder → ext.Builder
  with_dpi_aware dpi_aware builder = ext.with_dpi_aware dpi_aware builder

  unfoldable pub with_msg_hook : ext.MsgHook → ext.Builder → ext.Builder
  with_msg_hook callback builder = ext.with_msg_hook callback builder
