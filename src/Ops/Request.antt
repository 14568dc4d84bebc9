-- ===== src/Ops/Request.antt =====
-- src/reactor.rs, `EventLoopOp`: what is asked of the event loop, and what kind of answer its waker
-- takes. The variants that name a window stand in four groups, each in the order of the source.
use async_winit.Prelude.{ℕ, Bool, Option, List, Result}
use async_winit.Window.Builder.{WindowBuilder}
use async_winit.Ops.Winit.{WinitWindows}

-- The types that answers have.
pub data Kind : Type 0 where
  built : Kind
  monitor : Kind
  monitors : Kind
  position : Kind
  done : Kind
  size : Kind
  increments : Kind
  flag : Kind
  maybe_flag : Kind
  fullscreen_state : Kind
  theme_state : Kind
  text : Kind
  outcome : Kind

pub Kind-discrete : Discrete Kind
Kind-discrete = hlevel

module _ (winit : WinitWindows) where
  open winit use {
    types, Window, PhysicalPosition, PhysicalSize, NotSupportedError, ExternalError, OsError,
    ImePurpose, UserAttentionType, CursorIcon, CursorGrabMode, ResizeDirection, Monitor,
  }
  open types use {Position, Size, Title, Fullscreen, WindowLevel, Icon, Theme}

  abbrev pub Answer : Kind → Type 0
  Answer built = Result Window OsError
  Answer monitor = Option Monitor
  Answer monitors = List Monitor
  Answer position = Result PhysicalPosition NotSupportedError
  Answer done = Unit {0}
  Answer size = PhysicalSize
  Answer increments = Option PhysicalSize
  Answer flag = Bool
  Answer maybe_flag = Option Bool
  Answer fullscreen_state = Option Fullscreen
  Answer theme_state = Option Theme
  Answer text = Title
  Answer outcome = Result (Unit {0}) ExternalError

  -- Positions and sizes.
  pub data GeometryOp : Type 0 where
    inner_position : Window → GeometryOp
    outer_position : Window → GeometryOp
    set_outer_position : Window → Position → GeometryOp
    inner_size : Window → GeometryOp
    set_min_inner_size : Window → Option Size → GeometryOp
    set_max_inner_size : Window → Option Size → GeometryOp
    outer_size : Window → GeometryOp
    resize_increments : Window → GeometryOp
    set_resize_increments : Window → Option Size → GeometryOp

  abbrev pub geometry_reply : GeometryOp → Kind
  geometry_reply (inner_position w) = position
  geometry_reply (outer_position w) = position
  geometry_reply (set_outer_position w a) = done
  geometry_reply (inner_size w) = size
  geometry_reply (set_min_inner_size w a) = done
  geometry_reply (set_max_inner_size w a) = done
  geometry_reply (outer_size w) = size
  geometry_reply (resize_increments w) = increments
  geometry_reply (set_resize_increments w a) = done

  -- What the window looks like.
  pub data LookOp : Type 0 where
    set_title : Window → Title → LookOp
    set_transparent : Window → Bool → LookOp
    set_resizable : Window → Bool → LookOp
    set_visible : Window → Bool → LookOp
    resizable : Window → LookOp
    visible : Window → LookOp
    set_minimized : Window → Bool → LookOp
    minimized : Window → LookOp
    set_maximized : Window → Bool → LookOp
    maximized : Window → LookOp
    set_fullscreen : Window → Option Fullscreen → LookOp
    fullscreen : Window → LookOp
    set_decorated : Window → Bool → LookOp
    decorated : Window → LookOp
    set_window_level : Window → WindowLevel → LookOp
    set_window_icon : Window → Option Icon → LookOp

  abbrev pub look_reply : LookOp → Kind
  look_reply (set_title w a) = done
  look_reply (set_transparent w a) = done
  look_reply (set_resizable w a) = done
  look_reply (set_visible w a) = done
  look_reply (resizable w) = flag
  look_reply (visible w) = maybe_flag
  look_reply (set_minimized w a) = done
  look_reply (minimized w) = maybe_flag
  look_reply (set_maximized w a) = done
  look_reply (maximized w) = flag
  look_reply (set_fullscreen w a) = done
  look_reply (fullscreen w) = fullscreen_state
  look_reply (set_decorated w a) = done
  look_reply (decorated w) = flag
  look_reply (set_window_level w a) = done
  look_reply (set_window_icon w a) = done

  -- Input methods, focus, theme and title.
  pub data FocusOp : Type 0 where
    set_ime_cursor_area : Window → Position → Size → FocusOp
    set_ime_allowed : Window → Bool → FocusOp
    set_ime_purpose : Window → ImePurpose → FocusOp
    focus_window : Window → FocusOp
    focused : Window → FocusOp
    request_user_attention : Window → Option UserAttentionType → FocusOp
    set_theme : Window → Option Theme → FocusOp
    theme : Window → FocusOp
    set_protected_content : Window → Bool → FocusOp
    title : Window → FocusOp

  abbrev pub focus_reply : FocusOp → Kind
  focus_reply (set_ime_cursor_area w a b) = done
  focus_reply (set_ime_allowed w a) = done
  focus_reply (set_ime_purpose w a) = done
  focus_reply (focus_window w) = done
  focus_reply (focused w) = flag
  focus_reply (request_user_attention w a) = done
  focus_reply (set_theme w a) = done
  focus_reply (theme w) = theme_state
  focus_reply (set_protected_content w a) = done
  focus_reply (title w) = text

  -- The cursor, and the monitor.
  pub data CursorOp : Type 0 where
    set_cursor_icon : Window → CursorIcon → CursorOp
    set_cursor_position : Window → Position → CursorOp
    set_cursor_grab : Window → CursorGrabMode → CursorOp
    set_cursor_visible : Window → Bool → CursorOp
    drag_window : Window → CursorOp
    drag_resize_window : Window → ResizeDirection → CursorOp
    set_cursor_hit_test : Window → Bool → CursorOp
    current_monitor : Window → CursorOp

  abbrev pub cursor_reply : CursorOp → Kind
  cursor_reply (set_cursor_icon w a) = done
  cursor_reply (set_cursor_position w a) = outcome
  cursor_reply (set_cursor_grab w a) = outcome
  cursor_reply (set_cursor_visible w a) = done
  cursor_reply (drag_window w) = outcome
  cursor_reply (drag_resize_window w a) = outcome
  cursor_reply (set_cursor_hit_test w a) = outcome
  cursor_reply (current_monitor w) = monitor

  -- The variants of `EventLoopOp`, less their wakers.
  pub data Request : Type 0 where
    build_window : WindowBuilder winit.api → Request
    primary_monitor : Request
    available_monitors : Request
    geometry : GeometryOp → Request
    look : LookOp → Request
    focus : FocusOp → Request
    cursor : CursorOp → Request

  abbrev pub reply : Request → Kind
  reply (build_window b) = built
  reply primary_monitor = monitor
  reply available_monitors = monitors
  reply (geometry op) = geometry_reply op
  reply (look op) = look_reply op
  reply (focus op) = focus_reply op
  reply (cursor op) = cursor_reply op

  -- An operation: the request, and the sending end of the one-off channel for its answer.
  pub record EventLoopOp : Type 0 where
    pub request : Request
    pub waker : ℕ
