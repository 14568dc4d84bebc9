-- ===== src/Window/Handlers/Reached.antt =====
-- src/window.rs, src/reactor.rs and src/window/registration.rs together: the handler that a window
-- gives out for an event is the one that the event is run with.
use async_winit.Prelude.{
  ℕ, ◌≡◌, refl, ap, ◌∙◌, Bool, true, false, Option, none, some, ◌>>=◌, if◌then◌else◌, map_option,
}
use async_winit.Sync.{QueueApi}
use async_winit.Reactor.{TimerOp, Reactor}
use async_winit.Reactor.Windows.{get, post_event, window_event, to_window}
use async_winit.Window.Registration
use async_winit.Window.Registration.{Winit, WindowEvent, Field, Payload, signal}
use async_winit.Window.Registration.Reaches.{event_of, is_received, signal-event_of}
use async_winit.Ops.Winit.{WinitWindows}
use async_winit.Window.Methods.{Window}
use async_winit.Window.Handlers.{
  Handle, redraw_requested, close_requested, resized, moved, destroyed, focused, keyboard_input,
  modifiers_changed, received_character, ime, cursor_moved, cursor_entered, cursor_left,
  mouse_wheel, mouse_input, touchpad_magnify, touchpad_pressure, touch, scale_factor_changed,
  touchpad_rotate, smart_magnify, axis_motion, theme_changed, occluded,
}

map_option-unless :
    {A B : Type 0} (g : A → B) (b : Bool) (a : A)
    → map_option g (if b then none else some a) ≡ (if b then none else some (g a))
map_option-unless g true a = refl
map_option-unless g false a = refl

posted :
    (events : Winit) (queue : QueueApi TimerOp) {Op : Type 0} (channel : QueueApi Op)
    (Rest : Type 0) (r : Reactor queue channel) (id registration : ℕ)
    (e : Option (WindowEvent events))
    → get id r.windows ≡ some registration
    → (e >>= λ e'. post_event {Rest = Rest} queue channel (window_event id e') r)
      ≡ map_option (to_window registration) (e >>= λ e'. signal events e')
unfolding post_event
posted events queue channel Rest r id registration none here = refl
posted events queue channel Rest r id registration (some e) here = rw here refl

module _ (events : Winit) {winit : WinitWindows} where
  -- The method of a window that gives the handler of a name out.
  abbrev pub handler : Field events → Window winit → Handle events
  handler Registration.redraw_requested w = redraw_requested events w
  handler Registration.close_requested w = close_requested events w
  handler Registration.resized w = resized events w
  handler Registration.moved w = moved events w
  handler Registration.destroyed w = destroyed events w
  handler Registration.focused w = focused events w
  handler Registration.keyboard_input w = keyboard_input events w
  handler Registration.modifiers_changed w = modifiers_changed events w
  handler Registration.received_character w = received_character events w
  handler Registration.ime w = ime events w
  handler Registration.cursor_moved w = cursor_moved events w
  handler Registration.cursor_entered w = cursor_entered events w
  handler Registration.cursor_left w = cursor_left events w
  handler Registration.mouse_wheel w = mouse_wheel events w
  handler Registration.mouse_input w = mouse_input events w
  handler Registration.touchpad_magnify w = touchpad_magnify events w
  handler Registration.touchpad_pressure w = touchpad_pressure events w
  handler Registration.touch w = touch events w
  handler Registration.scale_factor_changed w = scale_factor_changed events w
  handler Registration.touchpad_rotate w = touchpad_rotate events w
  handler Registration.smart_magnify w = smart_magnify events w
  handler Registration.axis_motion w = axis_motion events w
  handler Registration.theme_changed w = theme_changed events w
  handler Registration.occluded w = occluded events w

  handler_lem : (f : Field events) (w : Window winit) → handler f w ≡ (w.registration, f)
  unfolding redraw_requested close_requested resized moved destroyed focused keyboard_input
      modifiers_changed received_character ime cursor_moved cursor_entered cursor_left mouse_wheel
      mouse_input touchpad_magnify touchpad_pressure touch scale_factor_changed touchpad_rotate
      smart_magnify axis_motion theme_changed occluded
  handler_lem Registration.redraw_requested w = refl
  handler_lem Registration.close_requested w = refl
  handler_lem Registration.resized w = refl
  handler_lem Registration.moved w = refl
  handler_lem Registration.destroyed w = refl
  handler_lem Registration.focused w = refl
  handler_lem Registration.keyboard_input w = refl
  handler_lem Registration.modifiers_changed w = refl
  handler_lem Registration.received_character w = refl
  handler_lem Registration.ime w = refl
  handler_lem Registration.cursor_moved w = refl
  handler_lem Registration.cursor_entered w = refl
  handler_lem Registration.cursor_left w = refl
  handler_lem Registration.mouse_wheel w = refl
  handler_lem Registration.mouse_input w = refl
  handler_lem Registration.touchpad_magnify w = refl
  handler_lem Registration.touchpad_pressure w = refl
  handler_lem Registration.touch w = refl
  handler_lem Registration.scale_factor_changed w = refl
  handler_lem Registration.touchpad_rotate w = refl
  handler_lem Registration.smart_magnify w = refl
  handler_lem Registration.axis_motion w = refl
  handler_lem Registration.theme_changed w = refl
  handler_lem Registration.occluded w = refl

  -- Where a window is in the map under its registration, and every modifiers state comes from some
  -- modifiers: the event of a name is handed, with its payload, to the handler that the window gives
  -- out under this name; of `received_character` there is no event.
  pub post_event-handler :
      (queue : QueueApi TimerOp) {Op : Type 0} (channel : QueueApi Op) (Rest : Type 0)
      (from : events.ModifiersState → events.Modifiers)
      → ((s : events.ModifiersState) → events.state (from s) ≡ s)
      → (r : Reactor queue channel) (w : Window winit) (f : Field events) (p : Payload events f)
      → get (winit.id w.inner) r.windows ≡ some w.registration
      → ((event_of events from f p >>= λ e.
            post_event {Rest = Rest} queue channel (window_event (winit.id w.inner) e) r)
          ≡ (if is_received events f then none else some (to_window (handler f w).0 (f, p))))
        × ((handler f w).1 ≡ f)
  unfolding post_event
  post_event-handler queue channel Rest from back r w f p here =
      let own = handler_lem f w in
      let all = ap (map_option (to_window w.registration)) (signal-event_of events from back f p) in
      (
        rw own (
            posted events queue channel Rest r _ w.registration (event_of events from f p) here
            ∙ all
            ∙ map_option-unless (to_window w.registration) (is_received events f) (f, p)),
        rw own refl,
      )
