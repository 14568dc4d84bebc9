-- ===== src/Platform/MacOs.antt =====
-- src/platform/macos.rs: the settings of a window builder that the platform has, and how they are handed to
-- winit's builder, which is a parameter.
pub mod Applies
pub mod Forwards
use async_winit.Prelude.{◌≡◌, Option, none, some, Bool}
use async_winit.Platform.{if_some}

module _ (OptionAsAlt : Type 0) where
  pub record PlatformSpecific : Type 0 where
    pub movable_by_window_background : Option Bool
    pub titlebar_transparent : Option Bool
    pub title_hidden : Option Bool
    pub titlebar_hidden : Option Bool
    pub titlebar_buttons_hidden : Option Bool
    pub fullsize_content_view : Option Bool
    pub disallow_hidpi : Option Bool
    pub has_shadow : Option Bool
    pub accepts_first_mouse : Option Bool
    pub option_as_alt : Option OptionAsAlt

  -- What winit's builder is given by its methods of these names.
  pub record Attributes : Type 0 where
    pub movable_by_window_background : Bool
    pub titlebar_transparent : Bool
    pub title_hidden : Bool
    pub titlebar_hidden : Bool
    pub titlebar_buttons_hidden : Bool
    pub fullsize_content_view : Bool
    pub disallow_hidpi : Bool
    pub has_shadow : Bool
    pub accepts_first_mouse : Bool
    pub option_as_alt : OptionAsAlt

  -- winit's builder, with its attributes of the platform.
  pub record MacOsApi : Type 1 where
    pub Builder : Type 0
    pub attributes : Builder → Attributes
    pub with_movable_by_window_background : Bool → Builder → Builder
    pub with_titlebar_transparent : Bool → Builder → Builder
    pub with_title_hidden : Bool → Builder → Builder
    pub with_titlebar_hidden : Bool → Builder → Builder
    pub with_titlebar_buttons_hidden : Bool → Builder → Builder
    pub with_fullsize_content_view : Bool → Builder → Builder
    pub with_disallow_hidpi : Bool → Builder → Builder
    pub with_has_shadow : Bool → Builder → Builder
    pub with_accepts_first_mouse : Bool → Builder → Builder
    pub with_option_as_alt : OptionAsAlt → Builder → Builder
    pub with_movable_by_window_background-sets :
        (v : Bool) (b : Builder)
        → attributes (with_movable_by_window_background v b)
          ≡ record (attributes b) { movable_by_window_background = v }
    pub with_titlebar_transparent-sets :
        (v : Bool) (b : Builder)
        → attributes (with_titlebar_transparent v b)
          ≡ record (attributes b) { titlebar_transparent = v }
    pub with_title_hidden-sets :
        (v : Bool) (b : Builder)
        → attributes (with_title_hidden v b) ≡ record (attributes b) { title_hidden = v }
    pub with_titlebar_hidden-sets :
        (v : Bool) (b : Builder)
        → attributes (with_titlebar_hidden v b) ≡ record (attributes b) { titlebar_hidden = v }
    pub with_titlebar_buttons_hidden-sets :
        (v : Bool) (b : Builder)
        → attributes (with_titlebar_buttons_hidden v b)
          ≡ record (attributes b) { titlebar_buttons_hidden = v }
    pub with_fullsize_content_view-sets :
        (v : Bool) (b : Builder)
        → attributes (with_fullsize_content_view v b)
          ≡ record (attributes b) { fullsize_content_view = v }
    pub with_disallow_hidpi-sets :
        (v : Bool) (b : Builder)
        → attributes (with_disallow_hidpi v b) ≡ record (attributes b) { disallow_hidpi = v }
    pub with_has_shadow-sets :
        (v : Bool) (b : Builder)
        → attributes (with_has_shadow v b) ≡ record (attributes b) { has_shadow = v }
    pub with_accepts_first_mouse-sets :
        (v : Bool) (b : Builder)
        → attributes (with_accepts_first_mouse v b)
          ≡ record (attributes b) { accepts_first_mouse = v }
    pub with_option_as_alt-sets :
        (v : OptionAsAlt) (b : Builder)
        → attributes (with_option_as_alt v b) ≡ record (attributes b) { option_as_alt = v }

module _ {OptionAsAlt : Type 0} where
  -- `Default`.
  unfoldable pub default : PlatformSpecific OptionAsAlt
  default = record {
    movable_by_window_background = none;
    titlebar_transparent = none;
    title_hidden = none;
    titlebar_hidden = none;
    titlebar_buttons_hidden = none;
    fullsize_content_view = none;
    disallow_hidpi = none;
    has_shadow = none;
    accepts_first_mouse = none;
    option_as_alt = none;
  }

  unfoldable pub with_accepts_first_mouse :
      Bool → PlatformSpecific OptionAsAlt → PlatformSpecific OptionAsAlt
  with_accepts_first_mouse v p = record p { accepts_first_mouse = some v }

  unfoldable pub with_movable_by_window_background :
      Bool → PlatformSpecific OptionAsAlt → PlatformSpecific OptionAsAlt
  with_movable_by_window_background v p = record p { movable_by_window_background = some v }

  unfoldable pub with_disallow_hidpi :
      Bool → PlatformSpecific OptionAsAlt → PlatformSpecific OptionAsAlt
  with_disallow_hidpi v p = record p { disallow_hidpi = some v }

  unfoldable pub with_has_shadow :
      Bool → PlatformSpecific OptionAsAlt → PlatformSpecific OptionAsAlt
  with_has_shadow v p = record p { has_shadow = some v }

  unfoldable pub with_fullsize_content_view :
      Bool → PlatformSpecific OptionAsAlt → PlatformSpecific OptionAsAlt
  with_fullsize_content_view v p = record p { fullsize_content_view = some v }

  unfoldable pub with_titlebar_buttons_hidden :
      Bool → PlatformSpecific OptionAsAlt → PlatformSpecific OptionAsAlt
  with_titlebar_buttons_hidden v p = record p { titlebar_buttons_hidden = some v }

  unfoldable pub with_titlebar_hidden :
      Bool → PlatformSpecific OptionAsAlt → PlatformSpecific OptionAsAlt
  with_titlebar_hidden v p = record p { titlebar_hidden = some v }

  unfoldable pub with_option_as_alt :
      OptionAsAlt → PlatformSpecific OptionAsAlt → PlatformSpecific OptionAsAlt
  with_option_as_alt v p = record p { option_as_alt = some v }

  unfoldable pub with_title_hidden :
      Bool → PlatformSpecific OptionAsAlt → PlatformSpecific OptionAsAlt
  with_title_hidden v p = record p { title_hidden = some v }

  unfoldable pub with_titlebar_transparent :
      Bool → PlatformSpecific OptionAsAlt → PlatformSpecific OptionAsAlt
  with_titlebar_transparent v p = record p { titlebar_transparent = some v }

  module _ (api : MacOsApi OptionAsAlt) where
    unfoldable pub apply_to : PlatformSpecific OptionAsAlt → api.Builder → api.Builder
    unfolding if_some
    apply_to p wb0 =
        let wb1 =
          if_some p.movable_by_window_background api.with_movable_by_window_background wb0 in
        let wb2 = if_some p.titlebar_transparent api.with_titlebar_transparent wb1 in
        let wb3 = if_some p.title_hidden api.with_title_hidden wb2 in
        let wb4 = if_some p.titlebar_hidden api.with_titlebar_hidden wb3 in
        let wb5 = if_some p.titlebar_buttons_hidden api.with_titlebar_buttons_hidden wb4 in
        let wb6 = if_some p.fullsize_content_view api.with_fullsize_content_view wb5 in
        let wb7 = if_some p.disallow_hidpi api.with_disallow_hidpi wb6 in
        let wb8 = if_some p.has_shadow api.with_has_shadow wb7 in
        let wb9 = if_some p.accepts_first_mouse api.with_accepts_first_mouse wb8 in
        if_some p.option_as_alt api.with_option_as_alt wb9
