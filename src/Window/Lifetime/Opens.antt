-- ===== src/Window/Lifetime/Opens.antt =====
-- src/window.rs, `WindowBuilder::build`: the answer to the operation, and where the events of the new
-- window go.
use async_winit.Prelude.{ℕ, suc, arith, ◌≡◌, ◌<◌, refl, length, ◌==◌, if◌then◌else◌, map_option, ok}
use async_winit.Sync.{QueueApi}
use async_winit.Sync.Channels.{ChannelApi, Safety}
use async_winit.Reactor.{TimerOp, Reactor}
use async_winit.Reactor.Loop.{World}
use async_winit.Reactor.Windows.{insert, insert_window, post_event, window_event, to_window}
use async_winit.Reactor.Windows.Routes.{get-insert}
use async_winit.Window.Registration.{Winit, WindowEvent, signal}
use async_winit.Window.Builder.{WindowBuilder, into_winit_builder}
use async_winit.Ops.Winit.{WinitWindows}
use async_winit.Ops.Request.{Answer, EventLoopOp, build_window, built}
use async_winit.Ops.Run.{perform}
use async_winit.Window.Methods.{Window}
use async_winit.Window.Methods.Answers.{IsReady, Answers, ask-Answers}
use async_winit.Window.Lifetime.{build, finish_build}

module _ {winit : WinitWindows} (channels : ChannelApi (Answer winit)) (queue : QueueApi TimerOp)
    (channel : QueueApi (EventLoopOp winit)) where
  pub build-Answers :
      (safety : Safety) (builder : WindowBuilder winit.api) (w : World winit channels queue channel)
      → IsReady channels queue channel w
      → length (channel.items w.reactor.evl_ops) < channel.capacity w.reactor.evl_ops
      → Answers channels queue channel safety built
          (build winit channels queue channel builder)
          (winit.build (into_winit_builder winit.api builder))
          w
  unfolding build perform
  build-Answers safety builder w r room =
      ask-Answers channels queue channel safety (build_window builder) w r room

module _ (winit : WinitWindows) (queue : QueueApi TimerOp) {Op : Type 0}
    (channel : QueueApi Op) where
  -- Where a window that is received has its events handled.
  pub record Opens (inner : winit.Window) (next : ℕ) (r : Reactor queue channel) : Type 1 where
    pub window : Window winit
    pub reactor : Reactor queue channel
    pub finishes :
        finish_build winit queue channel (ok inner) next r ≡ (ok window, suc next, reactor)
    pub inner_eq : window.inner ≡ inner
    pub routes :
        (events : Winit) (Rest : Type 0) (j : ℕ) (event : WindowEvent events)
        → post_event {Rest = Rest} queue channel (window_event j event) reactor ≡ (
            if winit.id inner == j
            then map_option (to_window window.registration) (signal events event)
            else post_event {Rest = Rest} queue channel (window_event j event) r)

  -- What `build` does with a window that it received succeeds: the handle is for this window, the
  -- next registration is used up, the events of the window are handed to the handle's registration,
  -- and those of any other window where they were handed before.
  pub finish_build-Opens :
      (inner : winit.Window) (next : ℕ) (r : Reactor queue channel) → Opens inner next r
  unfolding finish_build insert_window post_event
  finish_build-Opens inner next r = record {
    window = record { inner = inner; registration = next };
    reactor = record r { windows = insert (winit.id inner) next r.windows };
    finishes = refl;
    inner_eq = refl;
    routes = λ events Rest j event. ground (arith, get-insert (winit.id inner) next j r.windows);
  }
