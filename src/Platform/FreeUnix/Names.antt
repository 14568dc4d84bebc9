-- ===== src/Platform/FreeUnix/Names.antt =====
-- src/platform/x11.rs and src/platform/free_unix.rs: what becomes of the name that a window builder is
-- given.
use async_winit.Prelude.{◌≡◌, refl}
use async_winit.Platform.{if_some}
use async_winit.Platform.X11
use async_winit.Platform.X11.{X11Api}
use async_winit.Platform.FreeUnix
use async_winit.Platform.FreeUnix.{PlatformSpecific}
use async_winit.Platform.Wayland

module _ {Name WindowType ScreenId Size Builder : Type 0}
    (api : X11Api Name WindowType ScreenId Size Builder)
    (with_name : Name × Name → Builder → Builder) where
  pub apply_to-set_x11_name :
      (name : Name × Name) (p : PlatformSpecific Name WindowType ScreenId Size) (wb : Builder)
      → (X11.apply_to api (X11.set_x11_name name p.x11) wb ≡ X11.apply_to api p.x11 wb)
        × (FreeUnix.apply_to api with_name (FreeUnix.set_x11_name name p) wb
            ≡ X11.apply_to api p.x11 (with_name name wb))
  unfolding X11.apply_to X11.set_x11_name FreeUnix.apply_to FreeUnix.set_x11_name Wayland.apply_to
      Wayland.set_x11_name if_some
  apply_to-set_x11_name name p wb = (refl, refl)
