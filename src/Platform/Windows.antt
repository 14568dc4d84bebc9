-- ===== src/Platform/Windows.antt =====
-- src/platform/windows.rs: the settings of a window builder that the platform has, and how they are handed to
-- winit's builder, which is a parameter.
-- The file declares the trait that sets them, and does not implement it.
pub mod Applies
pub mod Forwards
use async_winit.Prelude.{◌≡◌, Option, none, some, Bool}
use async_winit.Platform.{if_some}

module _ (HWnd HMenu Icon : Type 0) where
  pub record PlatformSpecific : Type 0 where
    pub owner_window : Option HWnd
    pub menu : Option HMenu
    pub taskbar_icon : Option Icon
    pub no_redirection_bitmap : Option Bool
    pub drag_and_drop : Option Bool
    pub skip_taskbar : Option Bool
    pub undecorated_shadow : Option Bool

  -- What winit's builder is given by its methods of these names.
  pub record Attributes : Type 0 where
    pub owner_window : HWnd
    pub menu : HMenu
    pub taskbar_icon : Option Icon
    pub no_redirection_bitmap : Bool
    pub drag_and_drop : Bool
    pub skip_taskbar : Bool
    pub undecorated_shadow : Bool

  -- winit's builder, with its attributes of the platform.
  pub record WindowsApi : Type 1 where
    pub Builder : Type 0
    pub attributes : Builder → Attributes
    pub with_owner_window : HWnd → Builder → Builder
    pub with_menu : HMenu → Builder → Builder
    pub with_taskbar_icon : Option Icon → Builder → Builder
    pub with_no_redirection_bitmap : Bool → Builder → Builder
    pub with_drag_and_drop : Bool → Builder → Builder
    pub with_skip_taskbar : Bool → Builder → Builder
    pub with_undecorated_shadow : Bool → Builder → Builder
    pub with_owner_window-sets :
        (v : HWnd) (b : Builder)
        → attributes (with_owner_window v b) ≡ record (attributes b) { owner_window = v }
    pub with_menu-sets :
        (v : HMenu) (b : Builder) → attributes (with_menu v b) ≡ record (attributes b) { menu = v }
    pub with_taskbar_icon-sets :
        (v : Option Icon) (b : Builder)
        → attributes (with_taskbar_icon v b) ≡ record (attributes b) { taskbar_icon = v }
    pub with_no_redirection_bitmap-sets :
        (v : Bool) (b : Builder)
        → attributes (with_no_redirection_bitmap v b)
          ≡ record (attributes b) { no_redirection_bitmap = v }
    pub with_drag_and_drop-sets :
        (v : Bool) (b : Builder)
        → attributes (with_drag_and_drop v b) ≡ record (attributes b) { drag_and_drop = v }
    pub with_skip_taskbar-sets :
        (v : Bool) (b : Builder)
        → attributes (with_skip_taskbar v b) ≡ record (attributes b) { skip_taskbar = v }
    pub with_undecorated_shadow-sets :
        (v : Bool) (b : Builder)
        → attributes (with_undecorated_shadow v b)
          ≡ record (attributes b) { undecorated_shadow = v }

module _ {HWnd HMenu Icon : Type 0} where
  -- `Default`.
  unfoldable pub default : PlatformSpecific HWnd HMenu Icon
  default = record {
    owner_window = none;
    menu = none;
    taskbar_icon = none;
    no_redirection_bitmap = none;
    drag_and_drop = none;
    skip_taskbar = none;
    undecorated_shadow = none;
  }

  module _ (api : WindowsApi HWnd HMenu Icon) where
    unfoldable pub apply_to : PlatformSpecific HWnd HMenu Icon → api.Builder → api.Builder
    unfolding if_some
    apply_to p wb0 =
        let wb1 = if_some p.owner_window api.with_owner_window wb0 in
        let wb2 = if_some p.menu api.with_menu wb1 in
        let wb3 = if_some p.taskbar_icon (λ v. api.with_taskbar_icon (some v)) wb2 in
        let wb4 = if_some p.no_redirection_bitmap api.with_no_redirection_bitmap wb3 in
        let wb5 = if_some p.drag_and_drop api.with_drag_and_drop wb4 in
        let wb6 = if_some p.skip_taskbar api.with_skip_taskbar wb5 in
        if_some p.undecorated_shadow api.with_undecorated_shadow wb6
