-- ===== src/Platform/X11.antt =====
-- src/platform/x11.rs: the settings of a window builder on X11, and how they are handed to winit's
-- builder, which is a parameter.
use async_winit.Prelude.{Bool, true, false, Option, none, some, List, [], is_empty, if◌then◌else◌}
use async_winit.Platform.{if_some}

module _ (Name WindowType ScreenId Size : Type 0) where
  pub record PlatformSpecific : Type 0 where
    pub x11_window_type : List WindowType
    pub x11_name : Option (Name × Name)
    pub x11_screen_id : Option ScreenId
    pub x11_override_redirect : Bool
    pub x11_base_size : Option Size

  pub record X11Api (Builder : Type 0) : Type 0 where
    pub with_x11_screen : ScreenId → Builder → Builder
    pub with_override_redirect : Bool → Builder → Builder
    pub with_x11_window_type : List WindowType → Builder → Builder
    pub with_base_size : Size → Builder → Builder

module _ {Name WindowType ScreenId Size : Type 0} where
  -- `Default`.
  unfoldable pub default : PlatformSpecific Name WindowType ScreenId Size
  default = record {
    x11_window_type = [];
    x11_name = none;
    x11_screen_id = none;
    x11_override_redirect = false;
    x11_base_size = none;
  }

  unfoldable pub set_x11_window_type :
      List WindowType
      → PlatformSpecific Name WindowType ScreenId Size
      → PlatformSpecific Name WindowType ScreenId Size
  set_x11_window_type v p = record p { x11_window_type = v }

  unfoldable pub set_x11_name :
      Name × Name
      → PlatformSpecific Name WindowType ScreenId Size
      → PlatformSpecific Name WindowType ScreenId Size
  set_x11_name v p = record p { x11_name = some v }

  unfoldable pub set_x11_screen_id :
      ScreenId
      → PlatformSpecific Name WindowType ScreenId Size
      → PlatformSpecific Name WindowType ScreenId Size
  set_x11_screen_id v p = record p { x11_screen_id = some v }

  unfoldable pub set_x11_override_redirect :
      Bool
      → PlatformSpecific Name WindowType ScreenId Size
      → PlatformSpecific Name WindowType ScreenId Size
  set_x11_override_redirect v p = record p { x11_override_redirect = v }

  unfoldable pub set_x11_base_size :
      Size
      → PlatformSpecific Name WindowType ScreenId Size
      → PlatformSpecific Name WindowType ScreenId Size
  set_x11_base_size v p = record p { x11_base_size = some v }

  module _ {Builder : Type 0} (api : X11Api Name WindowType ScreenId Size Builder) where
    unfoldable pub apply_to : PlatformSpecific Name WindowType ScreenId Size → Builder → Builder
    unfolding if_some
    apply_to p wb0 =
        let wb1 = if_some p.x11_screen_id api.with_x11_screen wb0 in
        let wb2 = if p.x11_override_redirect then api.with_override_redirect true wb1 else wb1 in
        let wb3 =
          if is_empty p.x11_window_type
          then wb2
          else api.with_x11_window_type p.x11_window_type wb2 in
        if_some p.x11_base_size api.with_base_size wb3
