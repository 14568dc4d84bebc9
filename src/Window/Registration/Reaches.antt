-- ===== src/Window/Registration/Reaches.antt =====
-- src/window/registration.rs: which handlers some window event reaches.
use async_winit.Prelude.{
  ◌≡◌, ◌≢◌, refl, ap, Bool, true, false, Option, none, some, ◌>>=◌, arith, if◌then◌else◌,
}
use async_winit.Window.Registration.{
  Winit, WindowEvent, Field, Payload, Signal, signal, redraw_requested_event, close_requested_event,
  resized_event, moved_event, axis_motion_event, cursor_entered_event, cursor_left_event,
  cursor_moved_event, destroyed_event, focused_event, ime_event, keyboard_input_event,
  modifiers_changed_event, mouse_input_event, mouse_wheel_event, occluded_event,
  scale_factor_changed_event, smart_magnify_event, theme_changed_event, touch_event,
  touchpad_magnify_event, touchpad_pressure_event, touchpad_rotate_event, redraw_requested,
  close_requested, resized, moved, destroyed, focused, received_character, keyboard_input,
  modifiers_changed, ime, cursor_moved, cursor_entered, cursor_left, mouse_wheel, mouse_input,
  touchpad_magnify, smart_magnify, touchpad_rotate, touchpad_pressure, axis_motion, touch,
  scale_factor_changed, theme_changed, occluded,
}

module _ (winit : Winit) where
  -- Which event a run of a handler comes from, given how modifiers are made from their state.
  abbrev pub event_of :
      (winit.ModifiersState → winit.Modifiers)
      → (f : Field winit) → Payload winit f
      → Option (WindowEvent winit)
  event_of from redraw_requested p = some redraw_requested_event
  event_of from close_requested p = some close_requested_event
  event_of from resized p = some (resized_event p)
  event_of from moved p = some (moved_event p)
  event_of from destroyed p = some destroyed_event
  event_of from focused p = some (focused_event p)
  event_of from received_character p = none
  event_of from keyboard_input p = some (keyboard_input_event p.device_id p.event p.is_synthetic)
  event_of from modifiers_changed p = some (modifiers_changed_event (from p))
  event_of from ime p = some (ime_event p)
  event_of from cursor_moved p = some (cursor_moved_event p.device_id p.position)
  event_of from cursor_entered p = some (cursor_entered_event p)
  event_of from cursor_left p = some (cursor_left_event p)
  event_of from mouse_wheel p = some (mouse_wheel_event p.device_id p.delta p.phase)
  event_of from mouse_input p = some (mouse_input_event p.device_id p.state p.button)
  event_of from touchpad_magnify p = some (touchpad_magnify_event p.device_id p.delta p.phase)
  event_of from smart_magnify p = some (smart_magnify_event p)
  event_of from touchpad_rotate p = some (touchpad_rotate_event p.device_id p.delta p.phase)
  event_of from touchpad_pressure p = some (touchpad_pressure_event p.device_id p.pressure p.stage)
  event_of from axis_motion p = some (axis_motion_event p.device_id p.axis p.value)
  event_of from touch p = some (touch_event p)
  event_of from scale_factor_changed p =
      some (scale_factor_changed_event p.scale_factor p.inner_size_writer)
  event_of from theme_changed p = some (theme_changed_event p)
  event_of from occluded p = some (occluded_event p)

  abbrev pub is_received : Field winit → Bool
  is_received received_character = true
  is_received _ = false

  abbrev reaches_received : Option (Signal winit) → Bool
  reaches_received none = false
  reaches_received (some (f, p)) = is_received f

  never_received : (e : WindowEvent winit) → reaches_received (signal winit e) ≡ false
  unfolding signal
  never_received e = ground arith

  -- Where every modifiers state comes from some modifiers, each handler but that of
  -- `received_character` is run, with any payload, for the event of its name.
  pub signal-event_of :
      (from : winit.ModifiersState → winit.Modifiers)
      → ((s : winit.ModifiersState) → winit.state (from s) ≡ s)
      → (f : Field winit) (p : Payload winit f)
      → (event_of from f p >>= λ e. signal winit e) ≡ (if is_received f then none else some (f, p))
  unfolding signal
  signal-event_of from back redraw_requested p = refl
  signal-event_of from back close_requested p = refl
  signal-event_of from back modifiers_changed p = ap (λ s. some (modifiers_changed, s)) (back p)
  signal-event_of from back resized p = refl
  signal-event_of from back moved p = refl
  signal-event_of from back destroyed p = refl
  signal-event_of from back focused p = refl
  signal-event_of from back received_character p = refl
  signal-event_of from back keyboard_input p = refl
  signal-event_of from back ime p = refl
  signal-event_of from back cursor_moved p = refl
  signal-event_of from back cursor_entered p = refl
  signal-event_of from back cursor_left p = refl
  signal-event_of from back mouse_wheel p = refl
  signal-event_of from back mouse_input p = refl
  signal-event_of from back touchpad_magnify p = refl
  signal-event_of from back smart_magnify p = refl
  signal-event_of from back touchpad_rotate p = refl
  signal-event_of from back touchpad_pressure p = refl
  signal-event_of from back axis_motion p = refl
  signal-event_of from back touch p = refl
  signal-event_of from back scale_factor_changed p = refl
  signal-event_of from back theme_changed p = refl
  signal-event_of from back occluded p = refl

  -- No window event at all runs the handler of `received_character`.
  pub signal-received_character_never :
      (e : WindowEvent winit) (c : winit.Char) → signal winit e ≢ some (received_character, c)
  signal-received_character_never e c q = ground (arith, never_received e)
