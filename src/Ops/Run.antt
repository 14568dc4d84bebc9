-- ===== src/Ops/Run.antt =====
-- src/reactor.rs, `EventLoopOp::run`: each variant calls one method of winit's, whose result is sent
-- to the waker.
use async_winit.Prelude.{Option, some, ◌>>=◌}
use async_winit.Sync.Channels.{ChannelApi, Safety}
use async_winit.Oneoff.{send}
use async_winit.Window.Builder.{into_winit_builder}
use async_winit.Ops.Winit.{WinitWindows}
use async_winit.Ops.Request.{
  Answer, GeometryOp, LookOp, FocusOp, CursorOp, Request, EventLoopOp, geometry_reply, look_reply,
  focus_reply, cursor_reply, reply, build_window, primary_monitor, available_monitors, geometry,
  look, focus, cursor, inner_position, outer_position, set_outer_position, inner_size,
  set_min_inner_size, set_max_inner_size, outer_size, resize_increments, set_resize_increments,
  set_title, set_transparent, set_resizable, set_visible, resizable, visible, set_minimized,
  minimized, set_maximized, maximized, set_fullscreen, fullscreen, set_decorated, decorated,
  set_window_level, set_window_icon, set_ime_cursor_area, set_ime_allowed, set_ime_purpose,
  focus_window, focused, request_user_attention, set_theme, theme, set_protected_content, title,
  set_cursor_icon, set_cursor_position, set_cursor_grab, set_cursor_visible, drag_window,
  drag_resize_window, set_cursor_hit_test, current_monitor,
}

module _ (winit : WinitWindows) where
  unfoldable pub perform_geometry :
      (op : GeometryOp winit) → winit.Env → Answer winit (geometry_reply winit op) × winit.Env
  perform_geometry (inner_position w) env = winit.inner_position w env
  perform_geometry (outer_position w) env = winit.outer_position w env
  perform_geometry (set_outer_position w a) env = winit.set_outer_position w a env
  perform_geometry (inner_size w) env = winit.inner_size w env
  perform_geometry (set_min_inner_size w a) env = winit.set_min_inner_size w a env
  perform_geometry (set_max_inner_size w a) env = winit.set_max_inner_size w a env
  perform_geometry (outer_size w) env = winit.outer_size w env
  perform_geometry (resize_increments w) env = winit.resize_increments w env
  perform_geometry (set_resize_increments w a) env = winit.set_resize_increments w a env

  unfoldable pub perform_look :
      (op : LookOp winit) → winit.Env → Answer winit (look_reply winit op) × winit.Env
  perform_look (set_title w a) env = winit.set_title w a env
  perform_look (set_transparent w a) env = winit.set_transparent w a env
  perform_look (set_resizable w a) env = winit.set_resizable w a env
  perform_look (set_visible w a) env = winit.set_visible w a env
  perform_look (resizable w) env = winit.is_resizable w env
  perform_look (visible w) env = winit.is_visible w env
  perform_look (set_minimized w a) env = winit.set_minimized w a env
  perform_look (minimized w) env = winit.is_minimized w env
  perform_look (set_maximized w a) env = winit.set_maximized w a env
  perform_look (maximized w) env = winit.is_maximized w env
  perform_look (set_fullscreen w a) env = winit.set_fullscreen w a env
  perform_look (fullscreen w) env = winit.fullscreen w env
  perform_look (set_decorated w a) env = winit.set_decorations w a env
  perform_look (decorated w) env = winit.is_decorated w env
  perform_look (set_window_level w a) env = winit.set_window_level w a env
  perform_look (set_window_icon w a) env = winit.set_window_icon w a env

  unfoldable pub perform_focus :
      (op : FocusOp winit) → winit.Env → Answer winit (focus_reply winit op) × winit.Env
  perform_focus (set_ime_cursor_area w a b) env = winit.set_ime_cursor_area w a b env
  perform_focus (set_ime_allowed w a) env = winit.set_ime_allowed w a env
  perform_focus (set_ime_purpose w a) env = winit.set_ime_purpose w a env
  perform_focus (focus_window w) env = winit.focus_window w env
  perform_focus (focused w) env = winit.has_focus w env
  perform_focus (request_user_attention w a) env = winit.request_user_attention w a env
  perform_focus (set_theme w a) env = winit.set_theme w a env
  perform_focus (theme w) env = winit.theme w env
  perform_focus (set_protected_content w a) env = winit.set_content_protected w a env
  perform_focus (title w) env = winit.title w env

  unfoldable pub perform_cursor :
      (op : CursorOp winit) → winit.Env → Answer winit (cursor_reply winit op) × winit.Env
  perform_cursor (set_cursor_icon w a) env = winit.set_cursor_icon w a env
  perform_cursor (set_cursor_position w a) env = winit.set_cursor_position w a env
  perform_cursor (set_cursor_grab w a) env = winit.set_cursor_grab w a env
  perform_cursor (set_cursor_visible w a) env = winit.set_cursor_visible w a env
  perform_cursor (drag_window w) env = winit.drag_window w env
  perform_cursor (drag_resize_window w a) env = winit.drag_resize_window w a env
  perform_cursor (set_cursor_hit_test w a) env = winit.set_cursor_hittest w a env
  perform_cursor (current_monitor w) env = winit.current_monitor w env

  -- The call of winit's, and what it returns.
  unfoldable pub perform :
      (r : Request winit) → winit.Env → Answer winit (reply winit r) × winit.Env
  unfolding perform_geometry perform_look perform_focus perform_cursor
  perform (build_window b) env = winit.build (into_winit_builder winit.api b) env
  perform primary_monitor env = winit.primary_monitor env
  perform available_monitors env = winit.available_monitors env
  perform (geometry op) env = perform_geometry op env
  perform (look op) env = perform_look op env
  perform (focus op) env = perform_focus op env
  perform (cursor op) env = perform_cursor op env

  -- The call, and then the answer to the waker; `none` is a panic.
  module _ (channels : ChannelApi (Answer winit)) (safety : Safety) where
    unfoldable pub run :
        EventLoopOp winit → winit.Env → channels.Store → Option (winit.Env × channels.Store)
    run op env s =
        let (answer, env') = perform op.request env in
        send channels safety (reply winit op.request) op.waker answer s >>= λ s'. some (env', s')
