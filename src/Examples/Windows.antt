-- ===== src/Examples/Windows.antt =====
-- src/window.rs and src/window/registration.rs, with numbers for winit's types.
use async_winit.Prelude.{ℕ, ◌+◌, ◌≡◌, ◌≢◌, refl, false, some, List, [], ◌∷◌, ◌>>=◌}
use async_winit.Window.Registration.{
  Winit, signal, mouse_wheel, close_requested_event, received_character,
}
use async_winit.Window.Registration.Reaches.{
  event_of, signal-event_of, signal-received_character_never,
}
use async_winit.Window.Builder.{
  Types, WinitApi, WindowAttributes, default_attributes, new, new_with_builder, into_winit_builder,
}
use async_winit.Window.Builder.Settings.{
  Setting, visible, title, inner_size, apply_all, into_winit_builder-new,
}
use async_winit.Window.Builder.Given.{
  Change, window, platform, change_all, platforms, into_winit_builder-new_with_builder,
}

abbrev pub winit_numbers : Winit
winit_numbers = record {
  DeviceId = ℕ;
  KeyEvent = ℕ;
  Position = ℕ;
  Size = ℕ;
  Point = ℕ;
  MouseScrollDelta = ℕ;
  TouchPhase = ℕ;
  ElementState = ℕ;
  MouseButton = ℕ;
  Float = ℕ;
  Pressure = ℕ;
  Stage = ℕ;
  AxisId = ℕ;
  InnerSizeWriter = ℕ;
  Flag = ℕ;
  Char = ℕ;
  Modifiers = ℕ;
  ModifiersState = ℕ;
  Ime = ℕ;
  Touch = ℕ;
  Theme = ℕ;
  Unhandled = ℕ;
  state = λ m. m;
}

signal-event_of_example :
    (event_of winit_numbers (λ s. s) mouse_wheel (record { device_id = 1; delta = 2; phase = 3 })
      >>= λ e. signal winit_numbers e)
    ≡ some (mouse_wheel, record { device_id = 1; delta = 2; phase = 3 })
signal-event_of_example =
    signal-event_of winit_numbers (λ s. s) (λ s. refl) mouse_wheel
      (record { device_id = 1; delta = 2; phase = 3 })

signal-received_character_never_example :
    signal winit_numbers close_requested_event ≢ some (received_character, 65)
signal-received_character_never_example =
    signal-received_character_never winit_numbers close_requested_event 65

abbrev pub numbers : Types
numbers = record {
  Size = ℕ;
  Position = ℕ;
  WindowButtons = ℕ;
  Title = ℕ;
  Fullscreen = ℕ;
  Icon = ℕ;
  Theme = ℕ;
  WindowLevel = ℕ;
  all_buttons = 7;
  default_level = 1;
  winit_window = 100;
}

-- winit's builder as the record of its attributes, which a platform leaves alone.
unfoldable pub by_attributes : WinitApi numbers
unfolding default_attributes
by_attributes = record {
  Builder = WindowAttributes numbers;
  new = default_attributes numbers;
  attributes = λ b. b;
  with_inner_size = λ v b. record b { inner_size = some v };
  with_min_inner_size = λ v b. record b { min_inner_size = some v };
  with_max_inner_size = λ v b. record b { max_inner_size = some v };
  with_position = λ v b. record b { position = some v };
  with_resizable = λ v b. record b { resizable = v };
  with_enabled_buttons = λ v b. record b { enabled_buttons = v };
  with_title = λ v b. record b { title = v };
  with_fullscreen = λ v b. record b { fullscreen = v };
  with_maximized = λ v b. record b { maximized = v };
  with_visible = λ v b. record b { visible = v };
  with_transparent = λ v b. record b { transparent = v };
  with_decorations = λ v b. record b { decorations = v };
  with_window_icon = λ v b. record b { window_icon = v };
  with_theme = λ v b. record b { preferred_theme = v };
  with_resize_increments = λ v b. record b { resize_increments = some v };
  with_content_protected = λ v b. record b { content_protected = v };
  with_window_level = λ v b. record b { window_level = v };
  with_active = λ v b. record b { active = v };
  with_inner_size-sets = λ v b. refl;
  with_min_inner_size-sets = λ v b. refl;
  with_max_inner_size-sets = λ v b. refl;
  with_position-sets = λ v b. refl;
  with_resizable-sets = λ v b. refl;
  with_enabled_buttons-sets = λ v b. refl;
  with_title-sets = λ v b. refl;
  with_fullscreen-sets = λ v b. refl;
  with_maximized-sets = λ v b. refl;
  with_visible-sets = λ v b. refl;
  with_transparent-sets = λ v b. refl;
  with_decorations-sets = λ v b. refl;
  with_window_icon-sets = λ v b. refl;
  with_theme-sets = λ v b. refl;
  with_resize_increments-sets = λ v b. refl;
  with_content_protected-sets = λ v b. refl;
  with_window_level-sets = λ v b. refl;
  with_active-sets = λ v b. refl;
  new-inner_size = refl;
  new-min_inner_size = refl;
  new-max_inner_size = refl;
  new-position = refl;
  new-window_icon = refl;
  new-resize_increments = refl;
  Platform = Unit;
  default_platform = tt;
  apply_to = λ p b. b;
}

abbrev three_settings : List (Setting by_attributes)
three_settings = visible false ∷ title 4 ∷ inner_size 640 ∷ []

into_winit_builder-new_example :
    (inner : by_attributes.Builder) × (into_winit_builder by_attributes
        (apply_all by_attributes three_settings (new by_attributes))
      ≡ by_attributes.apply_to by_attributes.default_platform inner)
    × (by_attributes.attributes inner
        ≡ (apply_all by_attributes three_settings (new by_attributes)).window)
into_winit_builder-new_example = into_winit_builder-new by_attributes three_settings

-- The platform here is a number that is the builder's window level.
unfoldable by_level : WinitApi numbers
unfolding by_attributes
by_level = record by_attributes {
  Platform = ℕ;
  default_platform = 0;
  apply_to = λ p b. record b { window_level = p };
}

unfoldable three_changes : List (Change by_level)
unfolding by_level by_attributes
three_changes = window (visible false) ∷ platform (λ p. p + 5) ∷ window (title 4) ∷ []

into_winit_builder-new_with_builder_example :
    into_winit_builder by_level
      (change_all by_level three_changes (new_with_builder by_level by_level.new))
    ≡ by_level.apply_to (platforms by_level three_changes by_level.default_platform) by_level.new
into_winit_builder-new_with_builder_example =
    into_winit_builder-new_with_builder by_level three_changes by_level.new
