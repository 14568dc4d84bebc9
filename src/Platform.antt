-- ===== src/Platform.antt =====
-- src/platform: the settings of a window builder that only some platforms have. Which of the modules
-- below is built in is up to the platform.
pub mod Windows
pub mod MacOs
pub mod Ios
pub mod X11
pub mod Wayland
pub mod FreeUnix
pub mod RunReturn
use async_winit.Prelude.{Option, none, some}

module _ {B V : Type 0} where
  -- `if let Some(v) = o { wb = wb.with(v); }`.
  unfoldable pub if_some : Option V → (V → B → B) → B → B
  if_some none with_value wb = wb
  if_some (some v) with_value wb = with_value v wb

module _ {V : Type 0} where
  abbrev pub or_else : Option V → V → V
  or_else none v = v
  or_else (some v') v = v'
