-- ===== src/Examples/Platforms.antt =====
-- src/platform/macos.rs, with a builder that is its attributes.
use async_winit.Prelude.{◌≡◌, refl, Bool, true, false}
use async_winit.Platform.MacOs.{
  PlatformSpecific, Attributes, MacOsApi, default, apply_to, with_has_shadow, with_title_hidden,
}
use async_winit.Platform.MacOs.Applies.{apply_to-overlay, overlay}

unfoldable by_attributes : MacOsApi Bool
by_attributes = record {
  Builder = Attributes Bool;
  attributes = λ b. b;
  with_movable_by_window_background = λ v b. record b { movable_by_window_background = v };
  with_titlebar_transparent = λ v b. record b { titlebar_transparent = v };
  with_title_hidden = λ v b. record b { title_hidden = v };
  with_titlebar_hidden = λ v b. record b { titlebar_hidden = v };
  with_titlebar_buttons_hidden = λ v b. record b { titlebar_buttons_hidden = v };
  with_fullsize_content_view = λ v b. record b { fullsize_content_view = v };
  with_disallow_hidpi = λ v b. record b { disallow_hidpi = v };
  with_has_shadow = λ v b. record b { has_shadow = v };
  with_accepts_first_mouse = λ v b. record b { accepts_first_mouse = v };
  with_option_as_alt = λ v b. record b { option_as_alt = v };
  with_movable_by_window_background-sets = λ v b. refl;
  with_titlebar_transparent-sets = λ v b. refl;
  with_title_hidden-sets = λ v b. refl;
  with_titlebar_hidden-sets = λ v b. refl;
  with_titlebar_buttons_hidden-sets = λ v b. refl;
  with_fullsize_content_view-sets = λ v b. refl;
  with_disallow_hidpi-sets = λ v b. refl;
  with_has_shadow-sets = λ v b. refl;
  with_accepts_first_mouse-sets = λ v b. refl;
  with_option_as_alt-sets = λ v b. refl;
}

abbrev plain : Attributes Bool
plain = record {
  movable_by_window_background = false;
  titlebar_transparent = false;
  title_hidden = false;
  titlebar_hidden = false;
  titlebar_buttons_hidden = false;
  fullsize_content_view = false;
  disallow_hidpi = false;
  has_shadow = false;
  accepts_first_mouse = false;
  option_as_alt = false;
}

abbrev two_settings : PlatformSpecific Bool
two_settings = with_has_shadow false (with_title_hidden true default)

unfoldable plain_builder : by_attributes.Builder
unfolding by_attributes
plain_builder = plain

two_settings_applied :
    by_attributes.attributes (apply_to by_attributes two_settings plain_builder)
    ≡ overlay by_attributes two_settings (by_attributes.attributes plain_builder)
two_settings_applied = apply_to-overlay by_attributes two_settings plain_builder
