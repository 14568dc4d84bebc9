-- ===== src/Window/Handlers.antt =====
-- src/window.rs: the handlers that a window gives out. A handler is known by the registration that it
-- stands in, and its field there.
pub mod Reached
use async_winit.Prelude.{ℕ}
use async_winit.Window.Registration
use async_winit.Window.Registration.{Winit, Field}
use async_winit.Ops.Winit.{WinitWindows}
use async_winit.Window.Methods.{Window}

abbrev pub Handle : Winit → Type 0
Handle events = ℕ × Field events

module _ (events : Winit) {winit : WinitWindows} where
  unfoldable pub redraw_requested : Window winit → Handle events
  redraw_requested w = (w.registration, Registration.redraw_requested)

  unfoldable pub close_requested : Window winit → Handle events
  close_requested w = (w.registration, Registration.close_requested)

  unfoldable pub resized : Window winit → Handle events
  resized w = (w.registration, Registration.resized)

  unfoldable pub moved : Window winit → Handle events
  moved w = (w.registration, Registration.moved)

  unfoldable pub destroyed : Window winit → Handle events
  destroyed w = (w.registration, Registration.destroyed)

  unfoldable pub focused : Window winit → Handle events
  focused w = (w.registration, Registration.focused)

  unfoldable pub keyboard_input : Window winit → Handle events
  keyboard_input w = (w.registration, Registration.keyboard_input)

  unfoldable pub modifiers_changed : Window winit → Handle events
  modifiers_changed w = (w.registration, Registration.modifiers_changed)

  unfoldable pub received_character : Window winit → Handle events
  received_character w = (w.registration, Registration.received_character)

  unfoldable pub ime : Window winit → Handle events
  ime w = (w.registration, Registration.ime)

  unfoldable pub cursor_moved : Window winit → Handle events
  cursor_moved w = (w.registration, Registration.cursor_moved)

  unfoldable pub cursor_entered : Window winit → Handle events
  cursor_entered w = (w.registration, Registration.cursor_entered)

  unfoldable pub cursor_left : Window winit → Handle events
  cursor_left w = (w.registration, Registration.cursor_left)

  unfoldable pub mouse_wheel : Window winit → Handle events
  mouse_wheel w = (w.registration, Registration.mouse_wheel)

  unfoldable pub mouse_input : Window winit → Handle events
  mouse_input w = (w.registration, Registration.mouse_input)

  unfoldable pub touchpad_magnify : Window winit → Handle events
  touchpad_magnify w = (w.registration, Registration.touchpad_magnify)

  unfoldable pub touchpad_pressure : Window winit → Handle events
  touchpad_pressure w = (w.registration, Registration.touchpad_pressure)

  unfoldable pub touch : Window winit → Handle events
  touch w = (w.registration, Registration.touch)

  unfoldable pub scale_factor_changed : Window winit → Handle events
  scale_factor_changed w = (w.registration, Registration.scale_factor_changed)

  unfoldable pub touchpad_rotate : Window winit → Handle events
  touchpad_rotate w = (w.registration, Registration.touchpad_rotate)

  unfoldable pub smart_magnify : Window winit → Handle events
  smart_magnify w = (w.registration, Registration.smart_magnify)

  unfoldable pub axis_motion : Window winit → Handle events
  axis_motion w = (w.registration, Registration.axis_motion)

  unfoldable pub theme_changed : Window winit → Handle events
  theme_changed w = (w.registration, Registration.theme_changed)

  unfoldable pub occluded : Window winit → Handle events
  occluded w = (w.registration, Registration.occluded)
