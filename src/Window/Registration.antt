-- ===== src/Window/Registration.antt =====
-- src/window/registration.rs: the handlers of a window, and which of them a window event runs, with
-- what payload. The types that the file takes from winit are parameters; an event that the match
-- does not name is `unhandled`.
pub mod Reaches
use async_winit.Prelude.{Option, none, some}

pub record Winit : Type 1 where
  pub DeviceId : Type 0
  pub KeyEvent : Type 0
  pub Position : Type 0
  pub Size : Type 0
  pub Point : Type 0
  pub MouseScrollDelta : Type 0
  pub TouchPhase : Type 0
  pub ElementState : Type 0
  pub MouseButton : Type 0
  pub Float : Type 0
  pub Pressure : Type 0
  pub Stage : Type 0
  pub AxisId : Type 0
  pub InnerSizeWriter : Type 0
  pub Flag : Type 0
  pub Char : Type 0
  pub Modifiers : Type 0
  pub ModifiersState : Type 0
  pub Ime : Type 0
  pub Touch : Type 0
  pub Theme : Type 0
  pub Unhandled : Type 0
  -- `Modifiers::state`.
  pub state : Modifiers → ModifiersState

-- The payloads that the file declares.
module _ (winit : Winit) where
  open winit use {
    DeviceId, KeyEvent, Position, Size, Point, MouseScrollDelta, TouchPhase, ElementState,
    MouseButton, Float, Pressure, Stage, AxisId, InnerSizeWriter, Flag, Char, Modifiers,
    ModifiersState, Ime, Touch, Theme, Unhandled,
  }

  pub record KeyboardInput : Type 0 where
    pub device_id : DeviceId
    pub event : KeyEvent
    pub is_synthetic : Flag

  pub record CursorMoved : Type 0 where
    pub device_id : DeviceId
    pub position : Position

  pub record MouseWheel : Type 0 where
    pub device_id : DeviceId
    pub delta : MouseScrollDelta
    pub phase : TouchPhase

  pub record MouseInput : Type 0 where
    pub device_id : DeviceId
    pub state : ElementState
    pub button : MouseButton

  pub record TouchpadMagnify : Type 0 where
    pub device_id : DeviceId
    pub delta : Float
    pub phase : TouchPhase

  pub record TouchpadRotate : Type 0 where
    pub device_id : DeviceId
    pub delta : Pressure
    pub phase : TouchPhase

  pub record TouchpadPressure : Type 0 where
    pub device_id : DeviceId
    pub pressure : Pressure
    pub stage : Stage

  pub record AxisMotion : Type 0 where
    pub device_id : DeviceId
    pub axis : AxisId
    pub value : Float

  -- `ScaleFactorChanging`, and its clonable form `ScaleFactorChanged`.
  pub record ScaleFactor : Type 0 where
    pub scale_factor : Float
    pub inner_size_writer : InnerSizeWriter

  -- The events as winit gives them; fields that the match skips are left out.
  pub data WindowEvent : Type 0 where
    redraw_requested_event : WindowEvent
    close_requested_event : WindowEvent
    resized_event : Size → WindowEvent
    moved_event : Point → WindowEvent
    axis_motion_event : DeviceId → AxisId → Float → WindowEvent
    cursor_entered_event : DeviceId → WindowEvent
    cursor_left_event : DeviceId → WindowEvent
    cursor_moved_event : DeviceId → Position → WindowEvent
    destroyed_event : WindowEvent
    focused_event : Flag → WindowEvent
    ime_event : Ime → WindowEvent
    keyboard_input_event : DeviceId → KeyEvent → Flag → WindowEvent
    modifiers_changed_event : Modifiers → WindowEvent
    mouse_input_event : DeviceId → ElementState → MouseButton → WindowEvent
    mouse_wheel_event : DeviceId → MouseScrollDelta → TouchPhase → WindowEvent
    occluded_event : Flag → WindowEvent
    scale_factor_changed_event : Float → InnerSizeWriter → WindowEvent
    smart_magnify_event : DeviceId → WindowEvent
    theme_changed_event : Theme → WindowEvent
    touch_event : Touch → WindowEvent
    touchpad_magnify_event : DeviceId → Float → TouchPhase → WindowEvent
    touchpad_pressure_event : DeviceId → Pressure → Stage → WindowEvent
    touchpad_rotate_event : DeviceId → Pressure → TouchPhase → WindowEvent
    unhandled : Unhandled → WindowEvent

  -- The fields of `Registration`, in the order of their declaration.
  pub data Field : Type 0 where
    redraw_requested : Field
    close_requested : Field
    resized : Field
    moved : Field
    destroyed : Field
    focused : Field
    received_character : Field
    keyboard_input : Field
    modifiers_changed : Field
    ime : Field
    cursor_moved : Field
    cursor_entered : Field
    cursor_left : Field
    mouse_wheel : Field
    mouse_input : Field
    touchpad_magnify : Field
    smart_magnify : Field
    touchpad_rotate : Field
    touchpad_pressure : Field
    axis_motion : Field
    touch : Field
    scale_factor_changed : Field
    theme_changed : Field
    occluded : Field

  -- The type of events of each field's handler.
  abbrev pub Payload : Field → Type 0
  Payload redraw_requested = Unit {0}
  Payload close_requested = Unit {0}
  Payload resized = Size
  Payload moved = Point
  Payload destroyed = Unit {0}
  Payload focused = Flag
  Payload received_character = Char
  Payload keyboard_input = KeyboardInput
  Payload modifiers_changed = ModifiersState
  Payload ime = Ime
  Payload cursor_moved = CursorMoved
  Payload cursor_entered = DeviceId
  Payload cursor_left = DeviceId
  Payload mouse_wheel = MouseWheel
  Payload mouse_input = MouseInput
  Payload touchpad_magnify = TouchpadMagnify
  Payload smart_magnify = DeviceId
  Payload touchpad_rotate = TouchpadRotate
  Payload touchpad_pressure = TouchpadPressure
  Payload axis_motion = AxisMotion
  Payload touch = Touch
  Payload scale_factor_changed = ScaleFactor
  Payload theme_changed = Theme
  Payload occluded = Flag

  -- A run of one field's handler.
  abbrev pub Signal : Type 0
  Signal = (f : Field) × Payload f

  -- `signal`: the handler that is run, and what it is run with.
  unfoldable pub signal : WindowEvent → Option Signal
  signal redraw_requested_event = some (redraw_requested, tt)
  signal close_requested_event = some (close_requested, tt)
  signal (resized_event size) = some (resized, size)
  signal (moved_event posn) = some (moved, posn)
  signal (axis_motion_event device_id axis value) =
      some (axis_motion, record { device_id = device_id; axis = axis; value = value })
  signal (cursor_entered_event device_id) = some (cursor_entered, device_id)
  signal (cursor_left_event device_id) = some (cursor_left, device_id)
  signal (cursor_moved_event device_id position) =
      some (cursor_moved, record { device_id = device_id; position = position })
  signal destroyed_event = some (destroyed, tt)
  signal (focused_event foc) = some (focused, foc)
  signal (ime_event i) = some (ime, i)
  signal (keyboard_input_event device_id event is_synthetic) =
      some (
        keyboard_input,
        record { device_id = device_id; event = event; is_synthetic = is_synthetic },
      )
  signal (modifiers_changed_event mods) = some (modifiers_changed, winit.state mods)
  signal (mouse_input_event device_id state button) =
      some (mouse_input, record { device_id = device_id; state = state; button = button })
  signal (mouse_wheel_event device_id delta phase) =
      some (mouse_wheel, record { device_id = device_id; delta = delta; phase = phase })
  signal (occluded_event occ) = some (occluded, occ)
  signal (scale_factor_changed_event scale_factor inner_size_writer) = some (
    scale_factor_changed,
    record { scale_factor = scale_factor; inner_size_writer = inner_size_writer },
  )
  signal (smart_magnify_event device_id) = some (smart_magnify, device_id)
  signal (theme_changed_event theme) = some (theme_changed, theme)
  signal (touch_event t) = some (touch, t)
  signal (touchpad_magnify_event device_id delta phase) =
      some (touchpad_magnify, record { device_id = device_id; delta = delta; phase = phase })
  signal (touchpad_pressure_event device_id pressure stage) =
      some (touchpad_pressure, record { device_id = device_id; pressure = pressure; stage = stage })
  signal (touchpad_rotate_event device_id delta phase) =
      some (touchpad_rotate, record { device_id = device_id; delta = delta; phase = phase })
  signal (unhandled e) = none
