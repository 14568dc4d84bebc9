-- ===== src/Window/Builder/Given.antt =====
-- src/window.rs: which settings of a window builder reach winit where a builder of winit's was given. The
-- setters of the platform, in src/platform, are changes of the builder's `PlatformSpecific`.
use async_winit.Prelude.{◌≡◌, refl, ap, ◌∙◌, some, List, [], ◌∷◌}
use async_winit.Window.Builder.{
  Types, WinitApi, WindowBuilder, new, new_with_builder, into_winit_builder,
}
use async_winit.Window.Builder.Settings.{Setting, apply, apply-initial, apply-platform}

module _ {types : Types} (winit : WinitApi types) where
  -- A call of a setter of window.rs, or of one of the platform.
  pub data Change : Type 0 where
    window : Setting winit → Change
    platform : (winit.Platform → winit.Platform) → Change

  abbrev pub change : Change → WindowBuilder winit → WindowBuilder winit
  change (window s) b = apply winit s b
  change (platform f) b = record b { platform = f b.platform }

  abbrev pub change_all : List Change → WindowBuilder winit → WindowBuilder winit
  change_all [] b = b
  change_all (c ∷ cs) b = change_all cs (change c b)

  -- What the changes of the platform come to, in their order.
  abbrev pub platforms : List Change → winit.Platform → winit.Platform
  platforms [] p = p
  platforms (window s ∷ cs) p = platforms cs p
  platforms (platform f ∷ cs) p = platforms cs (f p)

  into_winit_builder-given :
      (cs : List Change) (builder : winit.Builder) (b : WindowBuilder winit)
      → b.initial_builder ≡ some builder
      → into_winit_builder winit (change_all cs b)
        ≡ winit.apply_to (platforms cs b.platform) builder
  unfolding into_winit_builder
  into_winit_builder-given [] builder b given = rw given refl
  into_winit_builder-given (window s ∷ cs) builder b given =
      into_winit_builder-given cs builder (apply winit s b) (apply-initial winit s b ∙ given)
      ∙ ap (λ p. winit.apply_to (platforms cs p) builder) (apply-platform winit s b)
  into_winit_builder-given (platform f ∷ cs) builder b given =
      into_winit_builder-given cs builder (record b { platform = f b.platform }) given

  -- Behind any calls of setters, a builder that was made by `new_with_builder` hands winit the
  -- builder that it was given, with `apply_to` of the settings of the platform as their setters left
  -- them, called in this order: the settings of the window are ignored.
  pub into_winit_builder-new_with_builder :
      (cs : List Change) (builder : winit.Builder)
      → into_winit_builder winit (change_all cs (new_with_builder winit builder))
        ≡ winit.apply_to (platforms cs winit.default_platform) builder
  unfolding new new_with_builder
  into_winit_builder-new_with_builder cs builder =
      into_winit_builder-given cs builder (new_with_builder winit builder) refl
