-- ===== src/Window/Methods/Calls.antt =====
-- src/window.rs: the calls of a window's methods, as data, and the method of winit's window that has the
-- same name. Of two methods of src/window.rs the name differs: `is_focused` is winit's `has_focus`,
-- and `set_ime_position` its `set_ime_cursor_area`.
use async_winit.Prelude.{Bool, Option}
use async_winit.Sync.{QueueApi}
use async_winit.Sync.Channels.{ChannelApi}
use async_winit.Reactor.{TimerOp}
use async_winit.Ops.Winit.{WinitWindows}
use async_winit.Ops.Request.{
  Answer, Kind, EventLoopOp, monitor, position, done, size, increments, flag, maybe_flag,
  fullscreen_state, theme_state, text, outcome,
}
use async_winit.Window.Methods.{Window, Asks}
use async_winit.Window.Methods.Geometry
use async_winit.Window.Methods.Look
use async_winit.Window.Methods.Focus
use async_winit.Window.Methods.Cursor

module _ (winit : WinitWindows) where
  open winit use {types, ImePurpose, UserAttentionType, CursorIcon, CursorGrabMode, ResizeDirection}
  open types use {Position, Size, Title, Fullscreen, WindowLevel, Icon, Theme}

  pub data Call : Type 0 where
    inner_position : Window winit → Call
    outer_position : Window winit → Call
    set_outer_position : Window winit → Position → Call
    inner_size : Window winit → Call
    outer_size : Window winit → Call
    set_min_inner_size : Window winit → Option Size → Call
    set_max_inner_size : Window winit → Option Size → Call
    resize_increments : Window winit → Call
    set_resize_increments : Window winit → Option Size → Call
    set_title : Window winit → Title → Call
    set_visible : Window winit → Bool → Call
    is_visible : Window winit → Call
    set_transparent : Window winit → Bool → Call
    set_resizable : Window winit → Bool → Call
    is_resizable : Window winit → Call
    set_minimized : Window winit → Bool → Call
    is_minimized : Window winit → Call
    set_maximized : Window winit → Bool → Call
    is_maximized : Window winit → Call
    set_fullscreen : Window winit → Option Fullscreen → Call
    fullscreen : Window winit → Call
    set_decorations : Window winit → Bool → Call
    is_decorated : Window winit → Call
    set_window_level : Window winit → WindowLevel → Call
    set_window_icon : Window winit → Option Icon → Call
    set_ime_position : Window winit → Position → Size → Call
    set_ime_allowed : Window winit → Bool → Call
    set_ime_purpose : Window winit → ImePurpose → Call
    focus_window : Window winit → Call
    is_focused : Window winit → Call
    request_user_attention : Window winit → Option UserAttentionType → Call
    set_theme : Window winit → Option Theme → Call
    theme : Window winit → Call
    set_content_protected : Window winit → Bool → Call
    title : Window winit → Call
    set_cursor_icon : Window winit → CursorIcon → Call
    set_cursor_position : Window winit → Position → Call
    set_cursor_grab : Window winit → CursorGrabMode → Call
    set_cursor_visible : Window winit → Bool → Call
    drag_window : Window winit → Call
    drag_resize_window : Window winit → ResizeDirection → Call
    set_cursor_hittest : Window winit → Bool → Call
    current_monitor : Window winit → Call

  -- The kind of a call's answer.
  abbrev pub kind_of : Call → Kind
  kind_of (inner_position w) = position
  kind_of (outer_position w) = position
  kind_of (set_outer_position w a) = done
  kind_of (inner_size w) = size
  kind_of (outer_size w) = size
  kind_of (set_min_inner_size w a) = done
  kind_of (set_max_inner_size w a) = done
  kind_of (resize_increments w) = increments
  kind_of (set_resize_increments w a) = done
  kind_of (set_title w a) = done
  kind_of (set_visible w a) = done
  kind_of (is_visible w) = maybe_flag
  kind_of (set_transparent w a) = done
  kind_of (set_resizable w a) = done
  kind_of (is_resizable w) = flag
  kind_of (set_minimized w a) = done
  kind_of (is_minimized w) = maybe_flag
  kind_of (set_maximized w a) = done
  kind_of (is_maximized w) = flag
  kind_of (set_fullscreen w a) = done
  kind_of (fullscreen w) = fullscreen_state
  kind_of (set_decorations w a) = done
  kind_of (is_decorated w) = flag
  kind_of (set_window_level w a) = done
  kind_of (set_window_icon w a) = done
  kind_of (set_ime_position w a b) = done
  kind_of (set_ime_allowed w a) = done
  kind_of (set_ime_purpose w a) = done
  kind_of (focus_window w) = done
  kind_of (is_focused w) = flag
  kind_of (request_user_attention w a) = done
  kind_of (set_theme w a) = done
  kind_of (theme w) = theme_state
  kind_of (set_content_protected w a) = done
  kind_of (title w) = text
  kind_of (set_cursor_icon w a) = done
  kind_of (set_cursor_position w a) = outcome
  kind_of (set_cursor_grab w a) = outcome
  kind_of (set_cursor_visible w a) = done
  kind_of (drag_window w) = outcome
  kind_of (drag_resize_window w a) = outcome
  kind_of (set_cursor_hittest w a) = outcome
  kind_of (current_monitor w) = monitor

  -- What winit's own method does.
  abbrev pub direct : (c : Call) → winit.Env → Answer winit (kind_of c) × winit.Env
  direct (inner_position w) env = winit.inner_position w.inner env
  direct (outer_position w) env = winit.outer_position w.inner env
  direct (set_outer_position w a) env = winit.set_outer_position w.inner a env
  direct (inner_size w) env = winit.inner_size w.inner env
  direct (outer_size w) env = winit.outer_size w.inner env
  direct (set_min_inner_size w a) env = winit.set_min_inner_size w.inner a env
  direct (set_max_inner_size w a) env = winit.set_max_inner_size w.inner a env
  direct (resize_increments w) env = winit.resize_increments w.inner env
  direct (set_resize_increments w a) env = winit.set_resize_increments w.inner a env
  direct (set_title w a) env = winit.set_title w.inner a env
  direct (set_visible w a) env = winit.set_visible w.inner a env
  direct (is_visible w) env = winit.is_visible w.inner env
  direct (set_transparent w a) env = winit.set_transparent w.inner a env
  direct (set_resizable w a) env = winit.set_resizable w.inner a env
  direct (is_resizable w) env = winit.is_resizable w.inner env
  direct (set_minimized w a) env = winit.set_minimized w.inner a env
  direct (is_minimized w) env = winit.is_minimized w.inner env
  direct (set_maximized w a) env = winit.set_maximized w.inner a env
  direct (is_maximized w) env = winit.is_maximized w.inner env
  direct (set_fullscreen w a) env = winit.set_fullscreen w.inner a env
  direct (fullscreen w) env = winit.fullscreen w.inner env
  direct (set_decorations w a) env = winit.set_decorations w.inner a env
  direct (is_decorated w) env = winit.is_decorated w.inner env
  direct (set_window_level w a) env = winit.set_window_level w.inner a env
  direct (set_window_icon w a) env = winit.set_window_icon w.inner a env
  direct (set_ime_position w a b) env = winit.set_ime_cursor_area w.inner a b env
  direct (set_ime_allowed w a) env = winit.set_ime_allowed w.inner a env
  direct (set_ime_purpose w a) env = winit.set_ime_purpose w.inner a env
  direct (focus_window w) env = winit.focus_window w.inner env
  direct (is_focused w) env = winit.has_focus w.inner env
  direct (request_user_attention w a) env = winit.request_user_attention w.inner a env
  direct (set_theme w a) env = winit.set_theme w.inner a env
  direct (theme w) env = winit.theme w.inner env
  direct (set_content_protected w a) env = winit.set_content_protected w.inner a env
  direct (title w) env = winit.title w.inner env
  direct (set_cursor_icon w a) env = winit.set_cursor_icon w.inner a env
  direct (set_cursor_position w a) env = winit.set_cursor_position w.inner a env
  direct (set_cursor_grab w a) env = winit.set_cursor_grab w.inner a env
  direct (set_cursor_visible w a) env = winit.set_cursor_visible w.inner a env
  direct (drag_window w) env = winit.drag_window w.inner env
  direct (drag_resize_window w a) env = winit.drag_resize_window w.inner a env
  direct (set_cursor_hittest w a) env = winit.set_cursor_hittest w.inner a env
  direct (current_monitor w) env = winit.current_monitor w.inner env

  module _ (channels : ChannelApi (Answer winit)) (queue : QueueApi TimerOp)
      (channel : QueueApi (EventLoopOp winit)) where
    -- The method of src/window.rs.
    unfoldable pub call : Call → Asks winit channels queue channel
    unfolding Geometry.inner_position Geometry.outer_position Geometry.set_outer_position
        Geometry.inner_size Geometry.outer_size Geometry.set_min_inner_size
        Geometry.set_max_inner_size Geometry.resize_increments Geometry.set_resize_increments
        Look.set_title Look.set_visible Look.is_visible Look.set_transparent Look.set_resizable
        Look.is_resizable Look.set_minimized Look.is_minimized Look.set_maximized Look.is_maximized
        Look.set_fullscreen Look.fullscreen Look.set_decorations Look.is_decorated
        Look.set_window_level Look.set_window_icon Focus.set_ime_position Focus.set_ime_allowed
        Focus.set_ime_purpose Focus.focus_window Focus.is_focused Focus.request_user_attention
        Focus.set_theme Focus.theme Focus.set_content_protected Focus.title Cursor.set_cursor_icon
        Cursor.set_cursor_position Cursor.set_cursor_grab Cursor.set_cursor_visible
        Cursor.drag_window Cursor.drag_resize_window Cursor.set_cursor_hittest
        Cursor.current_monitor
    call (inner_position w) = Geometry.inner_position winit channels queue channel w
    call (outer_position w) = Geometry.outer_position winit channels queue channel w
    call (set_outer_position w a) = Geometry.set_outer_position winit channels queue channel w a
    call (inner_size w) = Geometry.inner_size winit channels queue channel w
    call (outer_size w) = Geometry.outer_size winit channels queue channel w
    call (set_min_inner_size w a) = Geometry.set_min_inner_size winit channels queue channel w a
    call (set_max_inner_size w a) = Geometry.set_max_inner_size winit channels queue channel w a
    call (resize_increments w) = Geometry.resize_increments winit channels queue channel w
    call (set_resize_increments w a) =
        Geometry.set_resize_increments winit channels queue channel w a
    call (set_title w a) = Look.set_title winit channels queue channel w a
    call (set_visible w a) = Look.set_visible winit channels queue channel w a
    call (is_visible w) = Look.is_visible winit channels queue channel w
    call (set_transparent w a) = Look.set_transparent winit channels queue channel w a
    call (set_resizable w a) = Look.set_resizable winit channels queue channel w a
    call (is_resizable w) = Look.is_resizable winit channels queue channel w
    call (set_minimized w a) = Look.set_minimized winit channels queue channel w a
    call (is_minimized w) = Look.is_minimized winit channels queue channel w
    call (set_maximized w a) = Look.set_maximized winit channels queue channel w a
    call (is_maximized w) = Look.is_maximized winit channels queue channel w
    call (set_fullscreen w a) = Look.set_fullscreen winit channels queue channel w a
    call (fullscreen w) = Look.fullscreen winit channels queue channel w
    call (set_decorations w a) = Look.set_decorations winit channels queue channel w a
    call (is_decorated w) = Look.is_decorated winit channels queue channel w
    call (set_window_level w a) = Look.set_window_level winit channels queue channel w a
    call (set_window_icon w a) = Look.set_window_icon winit channels queue channel w a
    call (set_ime_position w a b) = Focus.set_ime_position winit channels queue channel w a b
    call (set_ime_allowed w a) = Focus.set_ime_allowed winit channels queue channel w a
    call (set_ime_purpose w a) = Focus.set_ime_purpose winit channels queue channel w a
    call (focus_window w) = Focus.focus_window winit channels queue channel w
    call (is_focused w) = Focus.is_focused winit channels queue channel w
    call (request_user_attention w a) =
        Focus.request_user_attention winit channels queue channel w a
    call (set_theme w a) = Focus.set_theme winit channels queue channel w a
    call (theme w) = Focus.theme winit channels queue channel w
    call (set_content_protected w a) = Focus.set_content_protected winit channels queue channel w a
    call (title w) = Focus.title winit channels queue channel w
    call (set_cursor_icon w a) = Cursor.set_cursor_icon winit channels queue channel w a
    call (set_cursor_position w a) = Cursor.set_cursor_position winit channels queue channel w a
    call (set_cursor_grab w a) = Cursor.set_cursor_grab winit channels queue channel w a
    call (set_cursor_visible w a) = Cursor.set_cursor_visible winit channels queue channel w a
    call (drag_window w) = Cursor.drag_window winit channels queue channel w
    call (drag_resize_window w a) = Cursor.drag_resize_window winit channels queue channel w a
    call (set_cursor_hittest w a) = Cursor.set_cursor_hittest winit channels queue channel w a
    call (current_monitor w) = Cursor.current_monitor winit channels queue channel w
