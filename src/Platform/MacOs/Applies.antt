-- ===== src/Platform/MacOs/Applies.antt =====
-- src/platform/macos.rs, `apply_to`: what winit's builder is given.
use async_winit.Prelude.{◌≡◌, refl, ap, ◌∙◌, Option, none, some, Bool}
use async_winit.Platform.{if_some, or_else}
use async_winit.Platform.MacOs.{PlatformSpecific, Attributes, MacOsApi, apply_to}

module _ {OptionAsAlt : Type 0} (api : MacOsApi OptionAsAlt) where
  movable_by_window_background-sets :
      (o : Option Bool) (b : api.Builder)
      → api.attributes (if_some o api.with_movable_by_window_background b)
        ≡ record (api.attributes b) {
          movable_by_window_background = or_else o (api.attributes b).movable_by_window_background;
        }
  unfolding if_some
  movable_by_window_background-sets none b = refl
  movable_by_window_background-sets (some v) b = api.with_movable_by_window_background-sets v b

  titlebar_transparent-sets :
      (o : Option Bool) (b : api.Builder)
      → api.attributes (if_some o api.with_titlebar_transparent b) ≡ record (api.attributes b) {
        titlebar_transparent = or_else o (api.attributes b).titlebar_transparent;
      }
  unfolding if_some
  titlebar_transparent-sets none b = refl
  titlebar_transparent-sets (some v) b = api.with_titlebar_transparent-sets v b

  title_hidden-sets :
      (o : Option Bool) (b : api.Builder)
      → api.attributes (if_some o api.with_title_hidden b)
        ≡ record (api.attributes b) { title_hidden = or_else o (api.attributes b).title_hidden }
  unfolding if_some
  title_hidden-sets none b = refl
  title_hidden-sets (some v) b = api.with_title_hidden-sets v b

  titlebar_hidden-sets :
      (o : Option Bool) (b : api.Builder)
      → api.attributes (if_some o api.with_titlebar_hidden b) ≡ record (api.attributes b) {
        titlebar_hidden = or_else o (api.attributes b).titlebar_hidden;
      }
  unfolding if_some
  titlebar_hidden-sets none b = refl
  titlebar_hidden-sets (some v) b = api.with_titlebar_hidden-sets v b

  titlebar_buttons_hidden-sets :
      (o : Option Bool) (b : api.Builder)
      → api.attributes (if_some o api.with_titlebar_buttons_hidden b) ≡ record (api.attributes b) {
        titlebar_buttons_hidden = or_else o (api.attributes b).titlebar_buttons_hidden;
      }
  unfolding if_some
  titlebar_buttons_hidden-sets none b = refl
  titlebar_buttons_hidden-sets (some v) b = api.with_titlebar_buttons_hidden-sets v b

  fullsize_content_view-sets :
      (o : Option Bool) (b : api.Builder)
      → api.attributes (if_some o api.with_fullsize_content_view b) ≡ record (api.attributes b) {
        fullsize_content_view = or_else o (api.attributes b).fullsize_content_view;
      }
  unfolding if_some
  fullsize_content_view-sets none b = refl
  fullsize_content_view-sets (some v) b = api.with_fullsize_content_view-sets v b

  disallow_hidpi-sets :
      (o : Option Bool) (b : api.Builder)
      → api.attributes (if_some o api.with_disallow_hidpi b)
        ≡ record (api.attributes b) { disallow_hidpi = or_else o (api.attributes b).disallow_hidpi }
  unfolding if_some
  disallow_hidpi-sets none b = refl
  disallow_hidpi-sets (some v) b = api.with_disallow_hidpi-sets v b

  has_shadow-sets :
      (o : Option Bool) (b : api.Builder)
      → api.attributes (if_some o api.with_has_shadow b)
        ≡ record (api.attributes b) { has_shadow = or_else o (api.attributes b).has_shadow }
  unfolding if_some
  has_shadow-sets none b = refl
  has_shadow-sets (some v) b = api.with_has_shadow-sets v b

  accepts_first_mouse-sets :
      (o : Option Bool) (b : api.Builder)
      → api.attributes (if_some o api.with_accepts_first_mouse b) ≡ record (api.attributes b) {
        accepts_first_mouse = or_else o (api.attributes b).accepts_first_mouse;
      }
  unfolding if_some
  accepts_first_mouse-sets none b = refl
  accepts_first_mouse-sets (some v) b = api.with_accepts_first_mouse-sets v b

  option_as_alt-sets :
      (o : Option OptionAsAlt) (b : api.Builder)
      → api.attributes (if_some o api.with_option_as_alt b)
        ≡ record (api.attributes b) { option_as_alt = or_else o (api.attributes b).option_as_alt }
  unfolding if_some
  option_as_alt-sets none b = refl
  option_as_alt-sets (some v) b = api.with_option_as_alt-sets v b

  -- The settings, laid over the attributes that a builder has.
  abbrev pub overlay :
      PlatformSpecific OptionAsAlt → Attributes OptionAsAlt → Attributes OptionAsAlt
  overlay p a = record {
    movable_by_window_background =
        or_else p.movable_by_window_background a.movable_by_window_background;
    titlebar_transparent = or_else p.titlebar_transparent a.titlebar_transparent;
    title_hidden = or_else p.title_hidden a.title_hidden;
    titlebar_hidden = or_else p.titlebar_hidden a.titlebar_hidden;
    titlebar_buttons_hidden = or_else p.titlebar_buttons_hidden a.titlebar_buttons_hidden;
    fullsize_content_view = or_else p.fullsize_content_view a.fullsize_content_view;
    disallow_hidpi = or_else p.disallow_hidpi a.disallow_hidpi;
    has_shadow = or_else p.has_shadow a.has_shadow;
    accepts_first_mouse = or_else p.accepts_first_mouse a.accepts_first_mouse;
    option_as_alt = or_else p.option_as_alt a.option_as_alt;
  }

  -- Where each method of winit's builder sets its own attribute and no other, a builder that the
  -- settings of a platform are applied to has those that are set, and keeps its own elsewhere.
  pub apply_to-overlay :
      (p : PlatformSpecific OptionAsAlt) (b : api.Builder)
      → api.attributes (apply_to api p b) ≡ overlay p (api.attributes b)
  unfolding apply_to if_some
  apply_to-overlay p wb0 =
      let wb1 = if_some p.movable_by_window_background api.with_movable_by_window_background wb0 in
      let wb2 = if_some p.titlebar_transparent api.with_titlebar_transparent wb1 in
      let wb3 = if_some p.title_hidden api.with_title_hidden wb2 in
      let wb4 = if_some p.titlebar_hidden api.with_titlebar_hidden wb3 in
      let wb5 = if_some p.titlebar_buttons_hidden api.with_titlebar_buttons_hidden wb4 in
      let wb6 = if_some p.fullsize_content_view api.with_fullsize_content_view wb5 in
      let wb7 = if_some p.disallow_hidpi api.with_disallow_hidpi wb6 in
      let wb8 = if_some p.has_shadow api.with_has_shadow wb7 in
      let wb9 = if_some p.accepts_first_mouse api.with_accepts_first_mouse wb8 in
      let e1 = movable_by_window_background-sets p.movable_by_window_background wb0 in
      let e2 =
        titlebar_transparent-sets p.titlebar_transparent wb1
        ∙ ap
            (λ (a : Attributes OptionAsAlt). record a {
              titlebar_transparent = or_else p.titlebar_transparent a.titlebar_transparent;
            })
            e1 in
      let e3 =
        title_hidden-sets p.title_hidden wb2
        ∙ ap
            (λ (a : Attributes OptionAsAlt). record a {
              title_hidden = or_else p.title_hidden a.title_hidden;
            })
            e2 in
      let e4 =
        titlebar_hidden-sets p.titlebar_hidden wb3
        ∙ ap
            (λ (a : Attributes OptionAsAlt). record a {
              titlebar_hidden = or_else p.titlebar_hidden a.titlebar_hidden;
            })
            e3 in
      let e5 =
        titlebar_buttons_hidden-sets p.titlebar_buttons_hidden wb4
        ∙ ap
            (λ (a : Attributes OptionAsAlt). record a {
              titlebar_buttons_hidden = or_else p.titlebar_buttons_hidden a.titlebar_buttons_hidden;
            })
            e4 in
      let e6 =
        fullsize_content_view-sets p.fullsize_content_view wb5
        ∙ ap
            (λ (a : Attributes OptionAsAlt). record a {
              fullsize_content_view = or_else p.fullsize_content_view a.fullsize_content_view;
            })
            e5 in
      let e7 =
        disallow_hidpi-sets p.disallow_hidpi wb6
        ∙ ap
            (λ (a : Attributes OptionAsAlt). record a {
              disallow_hidpi = or_else p.disallow_hidpi a.disallow_hidpi;
            })
            e6 in
      let e8 =
        has_shadow-sets p.has_shadow wb7
        ∙ ap
            (λ (a : Attributes OptionAsAlt). record a {
              has_shadow = or_else p.has_shadow a.has_shadow;
            })
            e7 in
      let e9 =
        accepts_first_mouse-sets p.accepts_first_mouse wb8
        ∙ ap
            (λ (a : Attributes OptionAsAlt). record a {
              accepts_first_mouse = or_else p.accepts_first_mouse a.accepts_first_mouse;
            })
            e8 in
      option_as_alt-sets p.option_as_alt wb9
      ∙ ap
          (λ (a : Attributes OptionAsAlt). record a {
            option_as_alt = or_else p.option_as_alt a.option_as_alt;
          })
          e9
