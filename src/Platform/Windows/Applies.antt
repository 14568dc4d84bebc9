-- ===== src/Platform/Windows/Applies.antt =====
-- src/platform/windows.rs, `apply_to`: what winit's builder is given.
use async_winit.Prelude.{◌≡◌, refl, ap, ◌∙◌, Option, none, some, map_option, Bool}
use async_winit.Platform.{if_some, or_else}
use async_winit.Platform.Windows.{PlatformSpecific, Attributes, WindowsApi, apply_to}

module _ {HWnd HMenu Icon : Type 0} (api : WindowsApi HWnd HMenu Icon) where
  owner_window-sets :
      (o : Option HWnd) (b : api.Builder)
      → api.attributes (if_some o api.with_owner_window b)
        ≡ record (api.attributes b) { owner_window = or_else o (api.attributes b).owner_window }
  unfolding if_some
  owner_window-sets none b = refl
  owner_window-sets (some v) b = api.with_owner_window-sets v b

  menu-sets :
      (o : Option HMenu) (b : api.Builder)
      → api.attributes (if_some o api.with_menu b)
        ≡ record (api.attributes b) { menu = or_else o (api.attributes b).menu }
  unfolding if_some
  menu-sets none b = refl
  menu-sets (some v) b = api.with_menu-sets v b

  taskbar_icon-sets :
      (o : Option Icon) (b : api.Builder)
      → api.attributes (if_some o (λ v. api.with_taskbar_icon (some v)) b)
        ≡ record (api.attributes b) {
          taskbar_icon = or_else (map_option some o) (api.attributes b).taskbar_icon;
        }
  unfolding if_some
  taskbar_icon-sets none b = refl
  taskbar_icon-sets (some v) b = api.with_taskbar_icon-sets (some v) b

  no_redirection_bitmap-sets :
      (o : Option Bool) (b : api.Builder)
      → api.attributes (if_some o api.with_no_redirection_bitmap b) ≡ record (api.attributes b) {
        no_redirection_bitmap = or_else o (api.attributes b).no_redirection_bitmap;
      }
  unfolding if_some
  no_redirection_bitmap-sets none b = refl
  no_redirection_bitmap-sets (some v) b = api.with_no_redirection_bitmap-sets v b

  drag_and_drop-sets :
      (o : Option Bool) (b : api.Builder)
      → api.attributes (if_some o api.with_drag_and_drop b)
        ≡ record (api.attributes b) { drag_and_drop = or_else o (api.attributes b).drag_and_drop }
  unfolding if_some
  drag_and_drop-sets none b = refl
  drag_and_drop-sets (some v) b = api.with_drag_and_drop-sets v b

  skip_taskbar-sets :
      (o : Option Bool) (b : api.Builder)
      → api.attributes (if_some o api.with_skip_taskbar b)
        ≡ record (api.attributes b) { skip_taskbar = or_else o (api.attributes b).skip_taskbar }
  unfolding if_some
  skip_taskbar-sets none b = refl
  skip_taskbar-sets (some v) b = api.with_skip_taskbar-sets v b

  undecorated_shadow-sets :
      (o : Option Bool) (b : api.Builder)
      → api.attributes (if_some o api.with_undecorated_shadow b) ≡ record (api.attributes b) {
        undecorated_shadow = or_else o (api.attributes b).undecorated_shadow;
      }
  unfolding if_some
  undecorated_shadow-sets none b = refl
  undecorated_shadow-sets (some v) b = api.with_undecorated_shadow-sets v b

  -- The settings, laid over the attributes that a builder has.
  abbrev pub overlay :
      PlatformSpecific HWnd HMenu Icon → Attributes HWnd HMenu Icon → Attributes HWnd HMenu Icon
  overlay p a = record {
    owner_window = or_else p.owner_window a.owner_window;
    menu = or_else p.menu a.menu;
    taskbar_icon = or_else (map_option some p.taskbar_icon) a.taskbar_icon;
    no_redirection_bitmap = or_else p.no_redirection_bitmap a.no_redirection_bitmap;
    drag_and_drop = or_else p.drag_and_drop a.drag_and_drop;
    skip_taskbar = or_else p.skip_taskbar a.skip_taskbar;
    undecorated_shadow = or_else p.undecorated_shadow a.undecorated_shadow;
  }

  -- A builder that the settings are applied to has those that are set, and keeps its own elsewhere.
  pub apply_to-overlay_windows :
      (p : PlatformSpecific HWnd HMenu Icon) (b : api.Builder)
      → api.attributes (apply_to api p b) ≡ overlay p (api.attributes b)
  unfolding apply_to if_some
  apply_to-overlay_windows p wb0 =
      let wb1 = if_some p.owner_window api.with_owner_window wb0 in
      let wb2 = if_some p.menu api.with_menu wb1 in
      let wb3 = if_some p.taskbar_icon (λ v. api.with_taskbar_icon (some v)) wb2 in
      let wb4 = if_some p.no_redirection_bitmap api.with_no_redirection_bitmap wb3 in
      let wb5 = if_some p.drag_and_drop api.with_drag_and_drop wb4 in
      let wb6 = if_some p.skip_taskbar api.with_skip_taskbar wb5 in
      let e1 = owner_window-sets p.owner_window wb0 in
      let e2 =
        menu-sets p.menu wb1
        ∙ ap (λ (a : Attributes HWnd HMenu Icon). record a { menu = or_else p.menu a.menu }) e1 in
      let e3 =
        taskbar_icon-sets p.taskbar_icon wb2
        ∙ ap
            (λ (a : Attributes HWnd HMenu Icon). record a {
              taskbar_icon = or_else (map_option some p.taskbar_icon) a.taskbar_icon;
            })
            e2 in
      let e4 =
        no_redirection_bitmap-sets p.no_redirection_bitmap wb3
        ∙ ap
            (λ (a : Attributes HWnd HMenu Icon). record a {
              no_redirection_bitmap = or_else p.no_redirection_bitmap a.no_redirection_bitmap;
            })
            e3 in
      let e5 =
        drag_and_drop-sets p.drag_and_drop wb4
        ∙ ap
            (λ (a : Attributes HWnd HMenu Icon). record a {
              drag_and_drop = or_else p.drag_and_drop a.drag_and_drop;
            })
            e4 in
      let e6 =
        skip_taskbar-sets p.skip_taskbar wb5
        ∙ ap
            (λ (a : Attributes HWnd HMenu Icon). record a {
              skip_taskbar = or_else p.skip_taskbar a.skip_taskbar;
            })
            e5 in
      undecorated_shadow-sets p.undecorated_shadow wb6
      ∙ ap
          (λ (a : Attributes HWnd HMenu Icon). record a {
            undecorated_shadow = or_else p.undecorated_shadow a.undecorated_shadow;
          })
          e6
