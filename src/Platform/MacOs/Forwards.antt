-- ===== src/Platform/MacOs/Forwards.antt =====
-- src/platform/macos.rs: the methods of a window and of the builder of event loops that the platform adds, over those of winit.
use async_winit.Prelude.{Bool}
use async_winit.Ops.Winit.{WinitWindows}
use async_winit.Window.Methods.{Window}
use async_winit.Window.Direct.{window}

-- What winit has on this platform.
pub record WindowExt (winit : WinitWindows) : Type 1 where
  pub Pointer : Type 0
  pub OptionAsAlt : Type 0
  pub ActivationPolicy : Type 0
  pub Builder : Type 0
  pub ns_view : winit.Window → winit.Env → Pointer × winit.Env
  pub ns_window : winit.Window → winit.Env → Pointer × winit.Env
  pub simple_fullscreen : winit.Window → winit.Env → Bool × winit.Env
  pub set_simple_fullscreen : winit.Window → Bool → winit.Env → Bool × winit.Env
  pub has_shadow : winit.Window → winit.Env → Bool × winit.Env
  pub set_has_shadow : winit.Window → Bool → winit.Env → Unit {0} × winit.Env
  pub is_document_edited : winit.Window → winit.Env → Bool × winit.Env
  pub set_document_edited : winit.Window → Bool → winit.Env → Unit {0} × winit.Env
  pub set_option_as_alt : winit.Window → OptionAsAlt → winit.Env → Unit {0} × winit.Env
  pub option_as_alt : winit.Window → winit.Env → OptionAsAlt × winit.Env
  pub with_activate_ignoring_other_apps : Bool → Builder → Builder
  pub with_activation_policy : ActivationPolicy → Builder → Builder
  pub with_default_menu : Bool → Builder → Builder

module _ {winit : WinitWindows} (ext : WindowExt winit) where
  unfoldable pub ns_view : Window winit → winit.Env → ext.Pointer × winit.Env
  unfolding window
  ns_view w = ext.ns_view (window w)

  unfoldable pub ns_window : Window winit → winit.Env → ext.Pointer × winit.Env
  unfolding window
  ns_window w = ext.ns_window (window w)

  unfoldable pub simple_fullscreen : Window winit → winit.Env → Bool × winit.Env
  unfolding window
  simple_fullscreen w = ext.simple_fullscreen (window w)

  unfoldable pub set_simple_fullscreen : Window winit → Bool → winit.Env → Bool × winit.Env
  unfolding window
  set_simple_fullscreen w fullscreen = ext.set_simple_fullscreen (window w) fullscreen

  unfoldable pub has_shadow : Window winit → winit.Env → Bool × winit.Env
  unfolding window
  has_shadow w = ext.has_shadow (window w)

  unfoldable pub set_has_shadow : Window winit → Bool → winit.Env → Unit {0} × winit.Env
  unfolding window
  set_has_shadow w has_shadow = ext.set_has_shadow (window w) has_shadow

  unfoldable pub is_document_edited : Window winit → winit.Env → Bool × winit.Env
  unfolding window
  is_document_edited w = ext.is_document_edited (window w)

  unfoldable pub set_document_edited : Window winit → Bool → winit.Env → Unit {0} × winit.Env
  unfolding window
  set_document_edited w edited = ext.set_document_edited (window w) edited

  unfoldable pub set_option_as_alt :
      Window winit → ext.OptionAsAlt → winit.Env → Unit {0} × winit.Env
  unfolding window
  set_option_as_alt w option_as_alt = ext.set_option_as_alt (window w) option_as_alt

  unfoldable pub option_as_alt : Window winit → winit.Env → ext.OptionAsAlt × winit.Env
  unfolding window
  option_as_alt w = ext.option_as_alt (window w)

  unfoldable pub with_activate_ignoring_other_apps : Bool → ext.Builder → ext.Builder
  with_activate_ignoring_other_apps ignore builder =
      ext.with_activate_ignoring_other_apps ignore builder

  unfoldable pub with_activation_policy : ext.ActivationPolicy → ext.Builder → ext.Builder
  with_activation_policy activation_policy builder =
      ext.with_activation_policy activation_policy builder

  unfoldable pub with_default_menu : Bool → ext.Builder → ext.Builder
  with_default_menu enable builder = ext.with_default_menu enable builder
