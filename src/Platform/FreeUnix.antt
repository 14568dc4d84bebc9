-- ===== src/Platform/FreeUnix.antt =====
-- src/platform/free_unix.rs: the settings where both X11 and Wayland are built in.
pub mod Names
use async_winit.Prelude.{Bool, List}
use async_winit.Platform.X11
use async_winit.Platform.X11.{X11Api}
use async_winit.Platform.Wayland

module _ (Name WindowType ScreenId Size : Type 0) where
  pub record PlatformSpecific : Type 0 where
    pub x11 : X11.PlatformSpecific Name WindowType ScreenId Size
    pub wayland : Wayland.PlatformSpecific Name

module _ {Name WindowType ScreenId Size : Type 0} where
  -- `Default`.
  unfoldable pub default : PlatformSpecific Name WindowType ScreenId Size
  unfolding X11.default Wayland.default
  default = record { x11 = X11.default; wayland = Wayland.default }

  unfoldable pub set_x11_window_type :
      List WindowType
      → PlatformSpecific Name WindowType ScreenId Size
      → PlatformSpecific Name WindowType ScreenId Size
  unfolding X11.set_x11_window_type
  set_x11_window_type v p = record p { x11 = X11.set_x11_window_type v p.x11 }

  unfoldable pub set_x11_name :
      Name × Name
      → PlatformSpecific Name WindowType ScreenId Size
      → PlatformSpecific Name WindowType ScreenId Size
  unfolding X11.set_x11_name Wayland.set_x11_name
  set_x11_name v p = record {
    x11 = X11.set_x11_name v p.x11;
    wayland = Wayland.set_x11_name v p.wayland;
  }

  unfoldable pub set_x11_screen_id :
      ScreenId
      → PlatformSpecific Name WindowType ScreenId Size
      → PlatformSpecific Name WindowType ScreenId Size
  unfolding X11.set_x11_screen_id
  set_x11_screen_id v p = record p { x11 = X11.set_x11_screen_id v p.x11 }

  unfoldable pub set_x11_override_redirect :
      Bool
      → PlatformSpecific Name WindowType ScreenId Size
      → PlatformSpecific Name WindowType ScreenId Size
  unfolding X11.set_x11_override_redirect
  set_x11_override_redirect v p = record p { x11 = X11.set_x11_override_redirect v p.x11 }

  unfoldable pub set_x11_base_size :
      Size
      → PlatformSpecific Name WindowType ScreenId Size
      → PlatformSpecific Name WindowType ScreenId Size
  unfolding X11.set_x11_base_size
  set_x11_base_size v p = record p { x11 = X11.set_x11_base_size v p.x11 }

  unfoldable pub apply_to :
      {Builder : Type 0}
      → X11Api Name WindowType ScreenId Size Builder
      → (Name × Name → Builder → Builder)
      → PlatformSpecific Name WindowType ScreenId Size
      → Builder
      → Builder
  unfolding X11.apply_to Wayland.apply_to
  apply_to api with_name p wb = X11.apply_to api p.x11 (Wayland.apply_to with_name p.wayland wb)
