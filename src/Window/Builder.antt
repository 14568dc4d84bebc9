-- ===== src/Window/Builder.antt =====
-- src/window.rs: `WindowAttributes`, `WindowBuilder` and `into_winit_builder`. winit's own builder,
-- its types and the settings of the platform are an interface; a generic argument `S: Into<T>` is
-- the `T` that it is turned into.
pub mod Settings
pub mod Given
use async_winit.Prelude.{◌≡◌, Bool, true, false, Option, none, some}

pub record Types : Type 1 where
  pub Size : Type 0
  pub Position : Type 0
  pub WindowButtons : Type 0
  pub Title : Type 0
  pub Fullscreen : Type 0
  pub Icon : Type 0
  pub Theme : Type 0
  pub WindowLevel : Type 0
  -- `WindowButtons::all()`, `WindowLevel::default()` and the title "winit window".
  pub all_buttons : WindowButtons
  pub default_level : WindowLevel
  pub winit_window : Title

module _ (types : Types) where
  open types use {Size, Position, WindowButtons, Title, Fullscreen, Icon, Theme, WindowLevel}

  pub record WindowAttributes : Type 0 where
    pub inner_size : Option Size
    pub min_inner_size : Option Size
    pub max_inner_size : Option Size
    pub position : Option Position
    pub resizable : Bool
    pub enabled_buttons : WindowButtons
    pub title : Title
    pub fullscreen : Option Fullscreen
    pub maximized : Bool
    pub visible : Bool
    pub transparent : Bool
    pub decorations : Bool
    pub window_icon : Option Icon
    pub preferred_theme : Option Theme
    pub resize_increments : Option Size
    pub content_protected : Bool
    pub window_level : WindowLevel
    pub active : Bool

  unfoldable pub default_attributes : WindowAttributes
  default_attributes = record {
    inner_size = none;
    min_inner_size = none;
    max_inner_size = none;
    position = none;
    resizable = true;
    enabled_buttons = types.all_buttons;
    title = types.winit_window;
    fullscreen = none;
    maximized = false;
    visible = true;
    transparent = false;
    decorations = true;
    window_icon = none;
    preferred_theme = none;
    resize_increments = none;
    content_protected = false;
    window_level = types.default_level;
    active = true;
  }

-- winit's builder: its setters each set the attribute of their name, and no other.
pub record WinitApi (types : Types) : Type 1 where
  pub Builder : Type 0
  pub new : Builder
  pub attributes : Builder → WindowAttributes types
  pub with_inner_size : types.Size → Builder → Builder
  pub with_min_inner_size : types.Size → Builder → Builder
  pub with_max_inner_size : types.Size → Builder → Builder
  pub with_position : types.Position → Builder → Builder
  pub with_resizable : Bool → Builder → Builder
  pub with_enabled_buttons : types.WindowButtons → Builder → Builder
  pub with_title : types.Title → Builder → Builder
  pub with_fullscreen : Option types.Fullscreen → Builder → Builder
  pub with_maximized : Bool → Builder → Builder
  pub with_visible : Bool → Builder → Builder
  pub with_transparent : Bool → Builder → Builder
  pub with_decorations : Bool → Builder → Builder
  pub with_window_icon : Option types.Icon → Builder → Builder
  pub with_theme : Option types.Theme → Builder → Builder
  pub with_resize_increments : types.Size → Builder → Builder
  pub with_content_protected : Bool → Builder → Builder
  pub with_window_level : types.WindowLevel → Builder → Builder
  pub with_active : Bool → Builder → Builder
  pub with_inner_size-sets :
      (v : types.Size) (b : Builder)
      → attributes (with_inner_size v b) ≡ record (attributes b) { inner_size = some v }
  pub with_min_inner_size-sets :
      (v : types.Size) (b : Builder)
      → attributes (with_min_inner_size v b) ≡ record (attributes b) { min_inner_size = some v }
  pub with_max_inner_size-sets :
      (v : types.Size) (b : Builder)
      → attributes (with_max_inner_size v b) ≡ record (attributes b) { max_inner_size = some v }
  pub with_position-sets :
      (v : types.Position) (b : Builder)
      → attributes (with_position v b) ≡ record (attributes b) { position = some v }
  pub with_resizable-sets :
      (v : Bool) (b : Builder)
      → attributes (with_resizable v b) ≡ record (attributes b) { resizable = v }
  pub with_enabled_buttons-sets :
      (v : types.WindowButtons) (b : Builder)
      → attributes (with_enabled_buttons v b) ≡ record (attributes b) { enabled_buttons = v }
  pub with_title-sets :
      (v : types.Title) (b : Builder)
      → attributes (with_title v b) ≡ record (attributes b) { title = v }
  pub with_fullscreen-sets :
      (v : Option types.Fullscreen) (b : Builder)
      → attributes (with_fullscreen v b) ≡ record (attributes b) { fullscreen = v }
  pub with_maximized-sets :
      (v : Bool) (b : Builder)
      → attributes (with_maximized v b) ≡ record (attributes b) { maximized = v }
  pub with_visible-sets :
      (v : Bool) (b : Builder)
      → attributes (with_visible v b) ≡ record (attributes b) { visible = v }
  pub with_transparent-sets :
      (v : Bool) (b : Builder)
      → attributes (with_transparent v b) ≡ record (attributes b) { transparent = v }
  pub with_decorations-sets :
      (v : Bool) (b : Builder)
      → attributes (with_decorations v b) ≡ record (attributes b) { decorations = v }
  pub with_window_icon-sets :
      (v : Option types.Icon) (b : Builder)
      → attributes (with_window_icon v b) ≡ record (attributes b) { window_icon = v }
  pub with_theme-sets :
      (v : Option types.Theme) (b : Builder)
      → attributes (with_theme v b) ≡ record (attributes b) { preferred_theme = v }
  pub with_resize_increments-sets :
      (v : types.Size) (b : Builder)
      → attributes (with_resize_increments v b)
        ≡ record (attributes b) { resize_increments = some v }
  pub with_content_protected-sets :
      (v : Bool) (b : Builder)
      → attributes (with_content_protected v b) ≡ record (attributes b) { content_protected = v }
  pub with_window_level-sets :
      (v : types.WindowLevel) (b : Builder)
      → attributes (with_window_level v b) ≡ record (attributes b) { window_level = v }
  pub with_active-sets :
      (v : Bool) (b : Builder) → attributes (with_active v b) ≡ record (attributes b) { active = v }
  -- What the source leaves unset where it has no value.
  pub new-inner_size : (attributes new).inner_size ≡ none
  pub new-min_inner_size : (attributes new).min_inner_size ≡ none
  pub new-max_inner_size : (attributes new).max_inner_size ≡ none
  pub new-position : (attributes new).position ≡ none
  pub new-window_icon : (attributes new).window_icon ≡ none
  pub new-resize_increments : (attributes new).resize_increments ≡ none
  -- `PlatformSpecific`, its default, and `apply_to`.
  pub Platform : Type 0
  pub default_platform : Platform
  pub apply_to : Platform → Builder → Builder

module _ {types : Types} (winit : WinitApi types) where
  open types use {Size, Position, WindowButtons, Title, Fullscreen, Icon, Theme, WindowLevel}

  pub record WindowBuilder : Type 0 where
    pub window : WindowAttributes types
    pub initial_builder : Option winit.Builder
    pub platform : winit.Platform

  unfoldable pub new : WindowBuilder
  unfolding default_attributes
  new = record {
    window = default_attributes types;
    initial_builder = none;
    platform = winit.default_platform;
  }

  unfoldable pub new_with_builder : winit.Builder → WindowBuilder
  unfolding new
  new_with_builder builder = record new { initial_builder = some builder }

  unfoldable pub with_inner_size : Size → WindowBuilder → WindowBuilder
  with_inner_size v b = record b { window = record (b.window) { inner_size = some v } }

  unfoldable pub with_min_inner_size : Size → WindowBuilder → WindowBuilder
  with_min_inner_size v b = record b { window = record (b.window) { min_inner_size = some v } }

  unfoldable pub with_max_inner_size : Size → WindowBuilder → WindowBuilder
  with_max_inner_size v b = record b { window = record (b.window) { max_inner_size = some v } }

  unfoldable pub with_position : Position → WindowBuilder → WindowBuilder
  with_position v b = record b { window = record (b.window) { position = some v } }

  unfoldable pub with_resizable : Bool → WindowBuilder → WindowBuilder
  with_resizable v b = record b { window = record (b.window) { resizable = v } }

  unfoldable pub with_enabled_buttons : WindowButtons → WindowBuilder → WindowBuilder
  with_enabled_buttons v b = record b { window = record (b.window) { enabled_buttons = v } }

  unfoldable pub with_title : Title → WindowBuilder → WindowBuilder
  with_title v b = record b { window = record (b.window) { title = v } }

  unfoldable pub with_fullscreen : Option Fullscreen → WindowBuilder → WindowBuilder
  with_fullscreen v b = record b { window = record (b.window) { fullscreen = v } }

  unfoldable pub with_maximized : Bool → WindowBuilder → WindowBuilder
  with_maximized v b = record b { window = record (b.window) { maximized = v } }

  unfoldable pub with_visible : Bool → WindowBuilder → WindowBuilder
  with_visible v b = record b { window = record (b.window) { visible = v } }

  unfoldable pub with_transparent : Bool → WindowBuilder → WindowBuilder
  with_transparent v b = record b { window = record (b.window) { transparent = v } }

  unfoldable pub with_decorations : Bool → WindowBuilder → WindowBuilder
  with_decorations v b = record b { window = record (b.window) { decorations = v } }

  unfoldable pub with_window_icon : Option Icon → WindowBuilder → WindowBuilder
  with_window_icon v b = record b { window = record (b.window) { window_icon = v } }

  unfoldable pub with_theme : Option Theme → WindowBuilder → WindowBuilder
  with_theme v b = record b { window = record (b.window) { preferred_theme = v } }

  unfoldable pub with_resize_increments : Size → WindowBuilder → WindowBuilder
  with_resize_increments v b = record b {
    window = record (b.window) { resize_increments = some v };
  }

  unfoldable pub with_content_protected : Bool → WindowBuilder → WindowBuilder
  with_content_protected v b = record b { window = record (b.window) { content_protected = v } }

  unfoldable pub with_window_level : WindowLevel → WindowBuilder → WindowBuilder
  with_window_level v b = record b { window = record (b.window) { window_level = v } }

  unfoldable pub with_active : Bool → WindowBuilder → WindowBuilder
  with_active v b = record b { window = record (b.window) { active = v } }

  -- `if let Some(v) = o { builder = set(v) }`.
  abbrev pub set_if :
      {A : Type 0} → (A → winit.Builder → winit.Builder) → Option A → winit.Builder → winit.Builder
  set_if set none b = b
  set_if set (some v) b = set v b

  -- The settings that are made in every case, between the sizes and the icon.
  unfoldable pub plain : WindowAttributes types → winit.Builder → winit.Builder
  plain w b = winit.with_decorations w.decorations (
      winit.with_transparent w.transparent (
        winit.with_visible w.visible (
          winit.with_maximized w.maximized (
            winit.with_fullscreen w.fullscreen (
              winit.with_title w.title (
                winit.with_enabled_buttons w.enabled_buttons
                  (winit.with_resizable w.resizable b)))))))

  -- The sizes and the position, each where there is one.
  unfoldable pub sized : WindowAttributes types → winit.Builder
  sized w = set_if winit.with_position w.position (
      set_if winit.with_max_inner_size w.max_inner_size (
        set_if winit.with_min_inner_size w.min_inner_size
          (set_if winit.with_inner_size w.inner_size winit.new)))

  -- The settings up to the theme, on a builder with the sizes.
  unfoldable pub themed : WindowAttributes types → winit.Builder → winit.Builder
  unfolding plain
  themed w b =
      winit.with_theme w.preferred_theme
        (set_if (λ icon. winit.with_window_icon (some icon)) w.window_icon (plain w b))

  -- The builder that is put together where no initial one was given.
  unfoldable pub assemble : WindowAttributes types → winit.Builder
  unfolding sized themed
  assemble w = winit.with_active w.active (
      winit.with_window_level w.window_level (
        winit.with_content_protected w.content_protected
          (set_if winit.with_resize_increments w.resize_increments (themed w (sized w)))))

  unfoldable pub into_winit_builder : WindowBuilder → winit.Builder
  unfolding assemble
  into_winit_builder b =
      winit.apply_to b.platform (elim b.initial_builder [ some ib ↦ ib | none ↦ assemble b.window ])
