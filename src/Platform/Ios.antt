-- ===== src/Platform/Ios.antt =====
-- src/platform/ios.rs: the settings of a window builder that the platform has, and how they are handed to
-- winit's builder, which is a parameter.
pub mod Applies
pub mod Forwards
use async_winit.Prelude.{◌≡◌, Option, none, some, Bool}
use async_winit.Platform.{if_some}

module _ (ScaleFactor ValidOrientations ScreenEdge : Type 0) where
  pub record PlatformSpecific : Type 0 where
    pub scale_factor : Option ScaleFactor
    pub valid_orientations : Option ValidOrientations
    pub prefers_home_indicator_hidden : Option Bool
    pub preferred_screen_edges_deferring_system_gestures : Option ScreenEdge
    pub prefers_status_bar_hidden : Option Bool

  -- What winit's builder is given by its methods of these names.
  pub record Attributes : Type 0 where
    pub scale_factor : ScaleFactor
    pub valid_orientations : ValidOrientations
    pub prefers_home_indicator_hidden : Bool
    pub preferred_screen_edges_deferring_system_gestures : ScreenEdge
    pub prefers_status_bar_hidden : Bool

  -- winit's builder, with its attributes of the platform.
  pub record IosApi : Type 1 where
    pub Builder : Type 0
    pub attributes : Builder → Attributes
    pub with_scale_factor : ScaleFactor → Builder → Builder
    pub with_valid_orientations : ValidOrientations → Builder → Builder
    pub with_prefers_home_indicator_hidden : Bool → Builder → Builder
    pub with_preferred_screen_edges_deferring_system_gestures : ScreenEdge → Builder → Builder
    pub with_prefers_status_bar_hidden : Bool → Builder → Builder
    pub with_scale_factor-sets :
        (v : ScaleFactor) (b : Builder)
        → attributes (with_scale_factor v b) ≡ record (attributes b) { scale_factor = v }
    pub with_valid_orientations-sets :
        (v : ValidOrientations) (b : Builder)
        → attributes (with_valid_orientations v b)
          ≡ record (attributes b) { valid_orientations = v }
    pub with_prefers_home_indicator_hidden-sets :
        (v : Bool) (b : Builder)
        → attributes (with_prefers_home_indicator_hidden v b)
          ≡ record (attributes b) { prefers_home_indicator_hidden = v }
    pub with_preferred_screen_edges_deferring_system_gestures-sets :
        (v : ScreenEdge) (b : Builder)
        → attributes (with_preferred_screen_edges_deferring_system_gestures v b)
          ≡ record (attributes b) { preferred_screen_edges_deferring_system_gestures = v }
    pub with_prefers_status_bar_hidden-sets :
        (v : Bool) (b : Builder)
        → attributes (with_prefers_status_bar_hidden v b)
          ≡ record (attributes b) { prefers_status_bar_hidden = v }

module _ {ScaleFactor ValidOrientations ScreenEdge : Type 0} where
  -- `Default`.
  unfoldable pub default : PlatformSpecific ScaleFactor ValidOrientations ScreenEdge
  default = record {
    scale_factor = none;
    valid_orientations = none;
    prefers_home_indicator_hidden = none;
    preferred_screen_edges_deferring_system_gestures = none;
    prefers_status_bar_hidden = none;
  }

  unfoldable pub with_scale_factor :
      ScaleFactor
      → PlatformSpecific ScaleFactor ValidOrientations ScreenEdge
      → PlatformSpecific ScaleFactor ValidOrientations ScreenEdge
  with_scale_factor v p = record p { scale_factor = some v }

  unfoldable pub with_valid_orientations :
      ValidOrientations
      → PlatformSpecific ScaleFactor ValidOrientations ScreenEdge
      → PlatformSpecific ScaleFactor ValidOrientations ScreenEdge
  with_valid_orientations v p = record p { valid_orientations = some v }

  unfoldable pub with_prefers_home_indicator_hidden :
      Bool
      → PlatformSpecific ScaleFactor ValidOrientations ScreenEdge
      → PlatformSpecific ScaleFactor ValidOrientations ScreenEdge
  with_prefers_home_indicator_hidden v p = record p { prefers_home_indicator_hidden = some v }

  unfoldable pub with_preferred_screen_edges_deferring_system_gestures :
      ScreenEdge
      → PlatformSpecific ScaleFactor ValidOrientations ScreenEdge
      → PlatformSpecific ScaleFactor ValidOrientations ScreenEdge
  with_preferred_screen_edges_deferring_system_gestures v p = record p {
    preferred_screen_edges_deferring_system_gestures = some v;
  }

  unfoldable pub with_prefers_status_bar_hidden :
      Bool
      → PlatformSpecific ScaleFactor ValidOrientations ScreenEdge
      → PlatformSpecific ScaleFactor ValidOrientations ScreenEdge
  with_prefers_status_bar_hidden v p = record p { prefers_status_bar_hidden = some v }

  module _ (api : IosApi ScaleFactor ValidOrientations ScreenEdge) where
    unfoldable pub apply_to :
        PlatformSpecific ScaleFactor ValidOrientations ScreenEdge → api.Builder → api.Builder
    unfolding if_some
    apply_to p wb0 =
        let wb1 = if_some p.scale_factor api.with_scale_factor wb0 in
        let wb2 = if_some p.valid_orientations api.with_valid_orientations wb1 in
        let wb3 =
          if_some p.prefers_home_indicator_hidden api.with_prefers_home_indicator_hidden wb2 in
        let wb4 =
          if_some p.preferred_screen_edges_deferring_system_gestures
            api.with_preferred_screen_edges_deferring_system_gestures wb3 in
        if_some p.prefers_status_bar_hidden api.with_prefers_status_bar_hidden wb4
