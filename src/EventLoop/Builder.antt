-- ===== src/EventLoop/Builder.antt =====
-- src/event_loop.rs, `EventLoopBuilder`, with the event loops of src/platform: winit's builder and event loop
-- are an interface, and `none` is a panic. `S` are the statics of `Reactor::get`.
use async_winit.Prelude.{
  ℕ, ◌≡◌, Bool, true, false, not, Option, none, some, if◌then◌else◌, ◌>>=◌, arith,
}

-- Which backends are built in.
pub record Features : Type 0 where
  pub x11 : Bool
  pub wayland : Bool

pub record LoopApi : Type 1 where
  pub Builder : Type 0
  pub EventLoop : Type 0
  pub with_user_event : Builder
  -- `none` is an error, of which the source takes the `unwrap`.
  pub build : Builder → Option EventLoop
  pub is_x11 : EventLoop → Bool
  pub is_wayland : EventLoop → Bool
  pub with_x11 : Builder → Builder
  pub with_wayland : Builder → Builder
  pub with_any_thread : Bool → Builder → Builder
  pub with_android_app : ℕ → Builder → Builder

-- What winit documents: a loop runs on a backend that is built in, and on one of them only.
pub record OneBackend (winit : LoopApi) (features : Features) : Type 0 where
  pub x11_only :
      (l : winit.EventLoop)
      → winit.is_x11 l ≡ true
      → (features.x11 ≡ true) × (winit.is_wayland l ≡ false)
  pub wayland_only :
      (l : winit.EventLoop)
      → winit.is_x11 l ≡ false
      → (features.wayland ≡ true) × (winit.is_wayland l ≡ true)

-- The reactor is known by its number. The proxy and the display handle are left out.
pub record EventLoopWindowTarget : Type 0 where
  pub reactor : ℕ
  pub is_wayland : Bool

module _ (winit : LoopApi) where
  pub record EventLoop : Type 0 where
    pub inner : winit.EventLoop
    pub window_target : EventLoopWindowTarget

  unfoldable pub new_builder : winit.Builder
  new_builder = winit.with_user_event

  unfoldable pub uses_wayland : Features → winit.EventLoop → Bool
  uses_wayland features inner =
      if features.x11
      then not (winit.is_x11 inner)
      else if features.wayland
      then winit.is_wayland inner
      else false

  module _ {S : Type 0} (get : S → Option ℕ × S) (features : Features) where
    unfoldable pub build : winit.Builder → S → Option EventLoop × S
    build builder s = elim (winit.build builder) [
      | none ↦ (none, s)
      | some inner ↦
          let (reactor, s') = get s in
          (
            reactor >>= λ r. some (record {
              inner = inner;
              window_target = record { reactor = r; is_wayland = uses_wayland features inner };
            }),
            s',
          )
    ]

    -- `EventLoop::new`.
    unfoldable pub new : S → Option EventLoop × S
    unfolding build new_builder
    new s = build new_builder s

  -- The methods of the platforms.
  unfoldable pub is_x11 : EventLoopWindowTarget → Bool
  is_x11 target = not target.is_wayland

  unfoldable pub is_wayland : EventLoopWindowTarget → Bool
  is_wayland target = target.is_wayland

  -- `todo!()`.
  unfoldable pub wayland_display : EventLoopWindowTarget → Option ℕ
  wayland_display target = none

  unfoldable pub with_x11 : winit.Builder → winit.Builder
  with_x11 builder = winit.with_x11 builder

  unfoldable pub with_wayland : winit.Builder → winit.Builder
  with_wayland builder = winit.with_wayland builder

  unfoldable pub with_any_thread : Bool → winit.Builder → winit.Builder
  with_any_thread any_thread builder = winit.with_any_thread any_thread builder

  unfoldable pub with_android_app : ℕ → winit.Builder → winit.Builder
  with_android_app app builder = winit.with_android_app app builder

  -- The target of a loop that is built says of its backend what winit says.
  build-OneBackend :
      {S : Type 0} (get : S → Option ℕ × S) (features : Features) (builder : winit.Builder) (s : S)
      (l : EventLoop)
      → OneBackend winit features
      → (build get features builder s).0 ≡ some l
      → (is_x11 l.window_target ≡ winit.is_x11 l.inner)
        × (is_wayland l.window_target ≡ winit.is_wayland l.inner)
  unfolding build is_x11 is_wayland uses_wayland
  build-OneBackend get features builder s l one e =
      ground (arith, one.x11_only l.inner, one.wayland_only l.inner)
