-- ===== src/Window/Builder/Settings.antt =====
-- src/window.rs: which settings of a window builder reach winit.
use async_winit.Prelude.{◌≡◌, refl, ap, ◌∙◌, Option, none, some, List, [], ◌∷◌, Bool}
use async_winit.Window.Builder.{
  Types, WindowAttributes, WinitApi, WindowBuilder, new, set_if, sized, plain, themed, assemble,
  into_winit_builder, with_inner_size, with_min_inner_size, with_max_inner_size, with_position,
  with_resizable, with_enabled_buttons, with_title, with_fullscreen, with_maximized, with_visible,
  with_transparent, with_decorations, with_window_icon, with_theme, with_resize_increments,
  with_content_protected, with_window_level, with_active,
}

module _ {types : Types} (winit : WinitApi types) where
  -- A call of one of the setters.
  pub data Setting : Type 0 where
    inner_size : types.Size → Setting
    min_inner_size : types.Size → Setting
    max_inner_size : types.Size → Setting
    position : types.Position → Setting
    resizable : Bool → Setting
    enabled_buttons : types.WindowButtons → Setting
    title : types.Title → Setting
    fullscreen : Option types.Fullscreen → Setting
    maximized : Bool → Setting
    visible : Bool → Setting
    transparent : Bool → Setting
    decorations : Bool → Setting
    window_icon : Option types.Icon → Setting
    theme : Option types.Theme → Setting
    resize_increments : types.Size → Setting
    content_protected : Bool → Setting
    window_level : types.WindowLevel → Setting
    active : Bool → Setting

  unfoldable pub apply : Setting → WindowBuilder winit → WindowBuilder winit
  unfolding with_inner_size with_min_inner_size with_max_inner_size with_position with_resizable
      with_enabled_buttons with_title with_fullscreen with_maximized with_visible with_transparent
      with_decorations with_window_icon with_theme with_resize_increments with_content_protected
      with_window_level with_active
  apply (inner_size v) b = with_inner_size winit v b
  apply (min_inner_size v) b = with_min_inner_size winit v b
  apply (max_inner_size v) b = with_max_inner_size winit v b
  apply (position v) b = with_position winit v b
  apply (resizable v) b = with_resizable winit v b
  apply (enabled_buttons v) b = with_enabled_buttons winit v b
  apply (title v) b = with_title winit v b
  apply (fullscreen v) b = with_fullscreen winit v b
  apply (maximized v) b = with_maximized winit v b
  apply (visible v) b = with_visible winit v b
  apply (transparent v) b = with_transparent winit v b
  apply (decorations v) b = with_decorations winit v b
  apply (window_icon v) b = with_window_icon winit v b
  apply (theme v) b = with_theme winit v b
  apply (resize_increments v) b = with_resize_increments winit v b
  apply (content_protected v) b = with_content_protected winit v b
  apply (window_level v) b = with_window_level winit v b
  apply (active v) b = with_active winit v b

  unfoldable pub apply_all : List Setting → WindowBuilder winit → WindowBuilder winit
  apply_all [] b = b
  apply_all (s ∷ ss) b = apply_all ss (apply s b)

  pub apply-initial :
      (s : Setting) (b : WindowBuilder winit) → (apply s b).initial_builder ≡ b.initial_builder
  unfolding apply
  apply-initial (inner_size v) b = refl
  apply-initial (min_inner_size v) b = refl
  apply-initial (max_inner_size v) b = refl
  apply-initial (position v) b = refl
  apply-initial (resizable v) b = refl
  apply-initial (enabled_buttons v) b = refl
  apply-initial (title v) b = refl
  apply-initial (fullscreen v) b = refl
  apply-initial (maximized v) b = refl
  apply-initial (visible v) b = refl
  apply-initial (transparent v) b = refl
  apply-initial (decorations v) b = refl
  apply-initial (window_icon v) b = refl
  apply-initial (theme v) b = refl
  apply-initial (resize_increments v) b = refl
  apply-initial (content_protected v) b = refl
  apply-initial (window_level v) b = refl
  apply-initial (active v) b = refl

  pub apply-platform : (s : Setting) (b : WindowBuilder winit) → (apply s b).platform ≡ b.platform
  unfolding apply
  apply-platform (inner_size v) b = refl
  apply-platform (min_inner_size v) b = refl
  apply-platform (max_inner_size v) b = refl
  apply-platform (position v) b = refl
  apply-platform (resizable v) b = refl
  apply-platform (enabled_buttons v) b = refl
  apply-platform (title v) b = refl
  apply-platform (fullscreen v) b = refl
  apply-platform (maximized v) b = refl
  apply-platform (visible v) b = refl
  apply-platform (transparent v) b = refl
  apply-platform (decorations v) b = refl
  apply-platform (window_icon v) b = refl
  apply-platform (theme v) b = refl
  apply-platform (resize_increments v) b = refl
  apply-platform (content_protected v) b = refl
  apply-platform (window_level v) b = refl
  apply-platform (active v) b = refl

  apply_all-initial :
      (ss : List Setting) (b : WindowBuilder winit)
      → (apply_all ss b).initial_builder ≡ b.initial_builder
  unfolding apply_all
  apply_all-initial [] b = refl
  apply_all-initial (s ∷ ss) b = apply_all-initial ss (apply s b) ∙ apply-initial s b

  apply_all-platform :
      (ss : List Setting) (b : WindowBuilder winit) → (apply_all ss b).platform ≡ b.platform
  unfolding apply_all
  apply_all-platform [] b = refl
  apply_all-platform (s ∷ ss) b = apply_all-platform ss (apply s b) ∙ apply-platform s b

  set_if-inner_size :
      (o : Option types.Size) (b : winit.Builder)
      → (winit.attributes b).inner_size ≡ none
      → winit.attributes (set_if winit winit.with_inner_size o b)
        ≡ record (winit.attributes b) { inner_size = o }
  set_if-inner_size none b e = ap (λ v. record (winit.attributes b) { inner_size = v }) e
  set_if-inner_size (some v) b e = winit.with_inner_size-sets v b

  set_if-min_inner_size :
      (o : Option types.Size) (b : winit.Builder)
      → (winit.attributes b).min_inner_size ≡ none
      → winit.attributes (set_if winit winit.with_min_inner_size o b)
        ≡ record (winit.attributes b) { min_inner_size = o }
  set_if-min_inner_size none b e = ap (λ v. record (winit.attributes b) { min_inner_size = v }) e
  set_if-min_inner_size (some v) b e = winit.with_min_inner_size-sets v b

  set_if-max_inner_size :
      (o : Option types.Size) (b : winit.Builder)
      → (winit.attributes b).max_inner_size ≡ none
      → winit.attributes (set_if winit winit.with_max_inner_size o b)
        ≡ record (winit.attributes b) { max_inner_size = o }
  set_if-max_inner_size none b e = ap (λ v. record (winit.attributes b) { max_inner_size = v }) e
  set_if-max_inner_size (some v) b e = winit.with_max_inner_size-sets v b

  set_if-position :
      (o : Option types.Position) (b : winit.Builder)
      → (winit.attributes b).position ≡ none
      → winit.attributes (set_if winit winit.with_position o b)
        ≡ record (winit.attributes b) { position = o }
  set_if-position none b e = ap (λ v. record (winit.attributes b) { position = v }) e
  set_if-position (some v) b e = winit.with_position-sets v b

  set_if-window_icon :
      (o : Option types.Icon) (b : winit.Builder)
      → (winit.attributes b).window_icon ≡ none
      → winit.attributes (set_if winit (λ icon. winit.with_window_icon (some icon)) o b)
        ≡ record (winit.attributes b) { window_icon = o }
  set_if-window_icon none b e = ap (λ v. record (winit.attributes b) { window_icon = v }) e
  set_if-window_icon (some v) b e = winit.with_window_icon-sets (some v) b

  set_if-resize_increments :
      (o : Option types.Size) (b : winit.Builder)
      → (winit.attributes b).resize_increments ≡ none
      → winit.attributes (set_if winit winit.with_resize_increments o b)
        ≡ record (winit.attributes b) { resize_increments = o }
  set_if-resize_increments none b e =
      ap (λ v. record (winit.attributes b) { resize_increments = v }) e
  set_if-resize_increments (some v) b e = winit.with_resize_increments-sets v b

  -- The settings that are made in every case, between the sizes and the icon.
  plain-attributes :
      (w : WindowAttributes types) (b : winit.Builder)
      → winit.attributes (plain winit w b) ≡ record (winit.attributes b) {
        resizable = w.resizable;
        enabled_buttons = w.enabled_buttons;
        title = w.title;
        fullscreen = w.fullscreen;
        maximized = w.maximized;
        visible = w.visible;
        transparent = w.transparent;
        decorations = w.decorations;
      }
  unfolding plain
  plain-attributes w b = rw (
    winit.with_decorations-sets, winit.with_transparent-sets, winit.with_visible-sets,
    winit.with_maximized-sets, winit.with_fullscreen-sets, winit.with_title-sets,
    winit.with_enabled_buttons-sets, winit.with_resizable-sets,
  )

  -- The sizes and the position, on a fresh builder.
  sized-attributes :
      (w : WindowAttributes types)
      → winit.attributes (sized winit w) ≡ record (winit.attributes winit.new) {
        inner_size = w.inner_size;
        min_inner_size = w.min_inner_size;
        max_inner_size = w.max_inner_size;
        position = w.position;
      }
  unfolding sized
  sized-attributes w =
      let b1 = set_if winit winit.with_inner_size w.inner_size winit.new in
      let e1 = set_if-inner_size w.inner_size winit.new winit.new-inner_size in
      let b2 = set_if winit winit.with_min_inner_size w.min_inner_size b1 in
      let e2 =
        set_if-min_inner_size w.min_inner_size b1
          (ap (λ a. a.min_inner_size) e1 ∙ winit.new-min_inner_size)
        ∙ ap (λ (a : WindowAttributes types). record a { min_inner_size = w.min_inner_size }) e1 in
      let b3 = set_if winit winit.with_max_inner_size w.max_inner_size b2 in
      let e3 =
        set_if-max_inner_size w.max_inner_size b2
          (ap (λ a. a.max_inner_size) e2 ∙ winit.new-max_inner_size)
        ∙ ap (λ (a : WindowAttributes types). record a { max_inner_size = w.max_inner_size }) e2 in
      set_if-position w.position b3 (ap (λ a. a.position) e3 ∙ winit.new-position)
      ∙ ap (λ (a : WindowAttributes types). record a { position = w.position }) e3

  -- With the settings that are made in every case, the icon and the theme.
  themed-attributes :
      (w : WindowAttributes types) (b : winit.Builder)
      → (winit.attributes b).window_icon ≡ none
      → winit.attributes (themed winit w b) ≡ record (winit.attributes b) {
        resizable = w.resizable;
        enabled_buttons = w.enabled_buttons;
        title = w.title;
        fullscreen = w.fullscreen;
        maximized = w.maximized;
        visible = w.visible;
        transparent = w.transparent;
        decorations = w.decorations;
        window_icon = w.window_icon;
        preferred_theme = w.preferred_theme;
      }
  unfolding themed
  themed-attributes w b e =
      let e1 = plain-attributes w b in
      rw (
        winit.with_theme-sets,
        set_if-window_icon w.window_icon (plain winit w b) (ap (λ a. a.window_icon) e1 ∙ e),
        e1,
      )

  -- Each attribute of the builder that is put together is the one of the settings.
  assemble-attributes : (w : WindowAttributes types) → winit.attributes (assemble winit w) ≡ w
  unfolding assemble
  assemble-attributes w =
      let e1 = sized-attributes w in
      let e2 =
        themed-attributes w (sized winit w) (ap (λ a. a.window_icon) e1 ∙ winit.new-window_icon) in
      let b = themed winit w (sized winit w) in
      let e3 = set_if-resize_increments w.resize_increments b (
        ap (λ a. a.resize_increments) e2
        ∙ ap (λ a. a.resize_increments) e1
        ∙ winit.new-resize_increments) in
      rw (
        winit.with_active-sets, winit.with_window_level-sets, winit.with_content_protected-sets, e3,
        e2, e1,
      )

  -- Behind any settings, a builder that was made by `new` hands winit a builder with all its
  -- attributes, to which the platform's settings are then applied.
  pub into_winit_builder-new :
      (ss : List Setting)
      → (inner : winit.Builder) × (into_winit_builder winit (apply_all ss (new winit))
          ≡ winit.apply_to winit.default_platform inner)
        × (winit.attributes inner ≡ (apply_all ss (new winit)).window)
  unfolding into_winit_builder new
  into_winit_builder-new ss =
      let first = apply_all-initial ss (new winit) in
      let same = apply_all-platform ss (new winit) in
      (
        assemble winit ((apply_all ss (new winit)).window),
        rw (first, same),
        assemble-attributes ((apply_all ss (new winit)).window),
      )
