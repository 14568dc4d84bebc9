-- ===== src/Ops/Winit.antt =====
-- What src/reactor.rs and src/window.rs call of winit: the methods of a window, the monitors, and the
-- building of a window. Each acts on a state `Env` of the window system and returns what winit's
-- method of that name returns.
use async_winit.Prelude.{ℕ, Bool, Option, List, Result}
use async_winit.Window.Builder.{Types, WinitApi}

pub record WinitWindows : Type 1 where
  -- The types and the builder of Window.Builder.
  pub types : Types
  pub api : WinitApi types
  pub Window : Type 0
  pub PhysicalPosition : Type 0
  pub PhysicalSize : Type 0
  pub NotSupportedError : Type 0
  pub ExternalError : Type 0
  pub OsError : Type 0
  pub ImePurpose : Type 0
  pub UserAttentionType : Type 0
  pub CursorIcon : Type 0
  pub CursorGrabMode : Type 0
  pub ResizeDirection : Type 0
  pub Monitor : Type 0
  pub ScaleFactor : Type 0
  pub Env : Type 0
  pub inner_position : Window → Env → Result PhysicalPosition NotSupportedError × Env
  pub outer_position : Window → Env → Result PhysicalPosition NotSupportedError × Env
  pub set_outer_position : Window → types.Position → Env → Unit {0} × Env
  pub inner_size : Window → Env → PhysicalSize × Env
  pub set_min_inner_size : Window → Option types.Size → Env → Unit {0} × Env
  pub set_max_inner_size : Window → Option types.Size → Env → Unit {0} × Env
  pub outer_size : Window → Env → PhysicalSize × Env
  pub resize_increments : Window → Env → Option PhysicalSize × Env
  pub set_resize_increments : Window → Option types.Size → Env → Unit {0} × Env
  pub set_title : Window → types.Title → Env → Unit {0} × Env
  pub set_transparent : Window → Bool → Env → Unit {0} × Env
  pub set_resizable : Window → Bool → Env → Unit {0} × Env
  pub set_visible : Window → Bool → Env → Unit {0} × Env
  pub is_resizable : Window → Env → Bool × Env
  pub is_visible : Window → Env → Option Bool × Env
  pub set_minimized : Window → Bool → Env → Unit {0} × Env
  pub is_minimized : Window → Env → Option Bool × Env
  pub set_maximized : Window → Bool → Env → Unit {0} × Env
  pub is_maximized : Window → Env → Bool × Env
  pub set_fullscreen : Window → Option types.Fullscreen → Env → Unit {0} × Env
  pub fullscreen : Window → Env → Option types.Fullscreen × Env
  pub set_decorations : Window → Bool → Env → Unit {0} × Env
  pub is_decorated : Window → Env → Bool × Env
  pub set_window_level : Window → types.WindowLevel → Env → Unit {0} × Env
  pub set_window_icon : Window → Option types.Icon → Env → Unit {0} × Env
  pub set_ime_cursor_area : Window → types.Position → types.Size → Env → Unit {0} × Env
  pub set_ime_allowed : Window → Bool → Env → Unit {0} × Env
  pub set_ime_purpose : Window → ImePurpose → Env → Unit {0} × Env
  pub focus_window : Window → Env → Unit {0} × Env
  pub has_focus : Window → Env → Bool × Env
  pub request_user_attention : Window → Option UserAttentionType → Env → Unit {0} × Env
  pub set_theme : Window → Option types.Theme → Env → Unit {0} × Env
  pub theme : Window → Env → Option types.Theme × Env
  pub set_content_protected : Window → Bool → Env → Unit {0} × Env
  pub title : Window → Env → types.Title × Env
  pub set_cursor_icon : Window → CursorIcon → Env → Unit {0} × Env
  pub set_cursor_position : Window → types.Position → Env → Result (Unit {0}) ExternalError × Env
  pub set_cursor_grab : Window → CursorGrabMode → Env → Result (Unit {0}) ExternalError × Env
  pub set_cursor_visible : Window → Bool → Env → Unit {0} × Env
  pub drag_window : Window → Env → Result (Unit {0}) ExternalError × Env
  pub drag_resize_window : Window → ResizeDirection → Env → Result (Unit {0}) ExternalError × Env
  pub set_cursor_hittest : Window → Bool → Env → Result (Unit {0}) ExternalError × Env
  pub current_monitor : Window → Env → Option Monitor × Env
  -- `EventLoopWindowTarget` and `WindowBuilder::build`.
  pub primary_monitor : Env → Option Monitor × Env
  pub available_monitors : Env → List Monitor × Env
  pub build : api.Builder → Env → Result Window OsError × Env
  -- Methods that src/window.rs calls at once.
  pub request_inner_size : Window → types.Size → Env → Option PhysicalSize × Env
  pub request_redraw : Window → Env → Unit {0} × Env
  pub scale_factor : Window → Env → ScaleFactor × Env
  pub set_enabled_buttons : Window → types.WindowButtons → Env → Unit {0} × Env
  pub enabled_buttons : Window → Env → types.WindowButtons × Env
  -- `Window::id`, of the kind that the reactor keys its map by.
  pub id : Window → ℕ
