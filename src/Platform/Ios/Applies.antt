-- ===== src/Platform/Ios/Applies.antt =====
-- src/platform/ios.rs, `apply_to`: what winit's builder is given.
use async_winit.Prelude.{◌≡◌, refl, ap, ◌∙◌, Option, none, some, Bool}
use async_winit.Platform.{if_some, or_else}
use async_winit.Platform.Ios.{PlatformSpecific, Attributes, IosApi, apply_to}

module _ {ScaleFactor ValidOrientations ScreenEdge : Type 0}
    (api : IosApi ScaleFactor ValidOrientations ScreenEdge) where
  scale_factor-sets :
      (o : Option ScaleFactor) (b : api.Builder)
      → api.attributes (if_some o api.with_scale_factor b)
        ≡ record (api.attributes b) { scale_factor = or_else o (api.attributes b).scale_factor }
  unfolding if_some
  scale_factor-sets none b = refl
  scale_factor-sets (some v) b = api.with_scale_factor-sets v b

  valid_orientations-sets :
      (o : Option ValidOrientations) (b : api.Builder)
      → api.attributes (if_some o api.with_valid_orientations b) ≡ record (api.attributes b) {
        valid_orientations = or_else o (api.attributes b).valid_orientations;
      }
  unfolding if_some
  valid_orientations-sets none b = refl
  valid_orientations-sets (some v) b = api.with_valid_orientations-sets v b

  prefers_home_indicator_hidden-sets :
      (o : Option Bool) (b : api.Builder)
      → api.attributes (if_some o api.with_prefers_home_indicator_hidden b)
        ≡ record (api.attributes b) {
          prefers_home_indicator_hidden =
              or_else o (api.attributes b).prefers_home_indicator_hidden;
        }
  unfolding if_some
  prefers_home_indicator_hidden-sets none b = refl
  prefers_home_indicator_hidden-sets (some v) b = api.with_prefers_home_indicator_hidden-sets v b

  preferred_screen_edges_deferring_system_gestures-sets :
      (o : Option ScreenEdge) (b : api.Builder)
      → api.attributes (if_some o api.with_preferred_screen_edges_deferring_system_gestures b)
        ≡ record (api.attributes b) {
          preferred_screen_edges_deferring_system_gestures =
              or_else o (api.attributes b).preferred_screen_edges_deferring_system_gestures;
        }
  unfolding if_some
  preferred_screen_edges_deferring_system_gestures-sets none b = refl
  preferred_screen_edges_deferring_system_gestures-sets (some v) b =
      api.with_preferred_screen_edges_deferring_system_gestures-sets v b

  prefers_status_bar_hidden-sets :
      (o : Option Bool) (b : api.Builder)
      → api.attributes (if_some o api.with_prefers_status_bar_hidden b)
        ≡ record (api.attributes b) {
          prefers_status_bar_hidden = or_else o (api.attributes b).prefers_status_bar_hidden;
        }
  unfolding if_some
  prefers_status_bar_hidden-sets none b = refl
  prefers_status_bar_hidden-sets (some v) b = api.with_prefers_status_bar_hidden-sets v b

  -- The settings, laid over the attributes that a builder has.
  abbrev pub overlay :
      PlatformSpecific ScaleFactor ValidOrientations ScreenEdge
      → Attributes ScaleFactor ValidOrientations ScreenEdge
      → Attributes ScaleFactor ValidOrientations ScreenEdge
  overlay p a = record {
    scale_factor = or_else p.scale_factor a.scale_factor;
    valid_orientations = or_else p.valid_orientations a.valid_orientations;
    prefers_home_indicator_hidden =
        or_else p.prefers_home_indicator_hidden a.prefers_home_indicator_hidden;
    preferred_screen_edges_deferring_system_gestures =
        or_else p.preferred_screen_edges_deferring_system_gestures
          a.preferred_screen_edges_deferring_system_gestures;
    prefers_status_bar_hidden = or_else p.prefers_status_bar_hidden a.prefers_status_bar_hidden;
  }

  -- A builder that the settings are applied to has those that are set, and keeps its own elsewhere.
  pub apply_to-overlay_ios :
      (p : PlatformSpecific ScaleFactor ValidOrientations ScreenEdge) (b : api.Builder)
      → api.attributes (apply_to api p b) ≡ overlay p (api.attributes b)
  unfolding apply_to if_some
  apply_to-overlay_ios p wb0 =
      let wb1 = if_some p.scale_factor api.with_scale_factor wb0 in
      let wb2 = if_some p.valid_orientations api.with_valid_orientations wb1 in
      let wb3 =
        if_some p.prefers_home_indicator_hidden api.with_prefers_home_indicator_hidden wb2 in
      let wb4 =
        if_some p.preferred_screen_edges_deferring_system_gestures
          api.with_preferred_screen_edges_deferring_system_gestures wb3 in
      let e1 = scale_factor-sets p.scale_factor wb0 in
      let e2 =
        valid_orientations-sets p.valid_orientations wb1
        ∙ ap
            (λ (a : Attributes ScaleFactor ValidOrientations ScreenEdge). record a {
              valid_orientations = or_else p.valid_orientations a.valid_orientations;
            })
            e1 in
      let e3 =
        prefers_home_indicator_hidden-sets p.prefers_home_indicator_hidden wb2
        ∙ ap
            (λ (a : Attributes ScaleFactor ValidOrientations ScreenEdge). record a {
              prefers_home_indicator_hidden =
                  or_else p.prefers_home_indicator_hidden a.prefers_home_indicator_hidden;
            })
            e2 in
      let e4 =
        preferred_screen_edges_deferring_system_gestures-sets
          p.preferred_screen_edges_deferring_system_gestures wb3
        ∙ ap
            (λ (a : Attributes ScaleFactor ValidOrientations ScreenEdge). record a {
              preferred_screen_edges_deferring_system_gestures =
                  or_else p.preferred_screen_edges_deferring_system_gestures
                    a.preferred_screen_edges_deferring_system_gestures;
            })
            e3 in
      prefers_status_bar_hidden-sets p.prefers_status_bar_hidden wb4
      ∙ ap
          (λ (a : Attributes ScaleFactor ValidOrientations ScreenEdge). record a {
            prefers_status_bar_hidden =
                or_else p.prefers_status_bar_hidden a.prefers_status_bar_hidden;
          })
          e4
