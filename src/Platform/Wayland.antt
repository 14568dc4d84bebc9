-- ===== src/Platform/Wayland.antt =====
-- src/platform/wayland.rs: the one setting of a window builder on Wayland. winit's `with_name` is a
-- parameter.
use async_winit.Prelude.{Option, none, some}
use async_winit.Platform.{if_some}

module _ (Name : Type 0) where
  pub record PlatformSpecific : Type 0 where
    pub name : Option (Name × Name)

module _ {Name : Type 0} where
  -- `Default`.
  unfoldable pub default : PlatformSpecific Name
  default = record { name = none }

  unfoldable pub set_x11_name : Name × Name → PlatformSpecific Name → PlatformSpecific Name
  set_x11_name v p = record p { name = some v }

  unfoldable pub apply_to :
      {Builder : Type 0}
      → (Name × Name → Builder → Builder)
      → PlatformSpecific Name
      → Builder
      → Builder
  unfolding if_some
  apply_to with_name p wb = if_some p.name with_name wb
