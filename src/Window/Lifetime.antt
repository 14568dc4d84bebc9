-- ===== src/Window/Lifetime.antt =====
-- src/window.rs: the building of a window, and its end. `build` asks for a window like the methods do;
-- the registration of the new window is the next of the supply.
pub mod Opens
pub mod Owners
use async_winit.Prelude.{ℕ, suc, ◌+◌, ◌-◌, Option, ◌==◌, if◌then◌else◌, Result, ok, err}
use async_winit.Sync.{QueueApi}
use async_winit.Sync.Channels.{ChannelApi}
use async_winit.Reactor.{TimerOp, Reactor}
use async_winit.Reactor.Windows.{insert_window, remove_window}
use async_winit.Reactor.Loop.{World}
use async_winit.Window.Builder.{WindowBuilder}
use async_winit.Ops.Winit.{WinitWindows}
use async_winit.Ops.Request.{Answer, EventLoopOp, build_window}
use async_winit.Window.Methods.{Window, Asks, ask}

module _ (winit : WinitWindows) (channels : ChannelApi (Answer winit)) (queue : QueueApi TimerOp)
    (channel : QueueApi (EventLoopOp winit)) where
  -- `WindowBuilder::build` up to `rx.recv().await`.
  unfoldable pub build : WindowBuilder winit.api → Asks winit channels queue channel
  build builder = ask winit channels queue channel (build_window builder)

module _ (winit : WinitWindows) (queue : QueueApi TimerOp) {Op : Type 0}
    (channel : QueueApi Op) where
  -- The rest of `WindowBuilder::build`, with what was received.
  unfoldable pub finish_build :
      Result winit.Window winit.OsError
      → ℕ
      → Reactor queue channel
      → Result (Window winit) winit.OsError × ℕ × Reactor queue channel
  finish_build (err e) next r = (err e, next, r)
  finish_build (ok inner) next r =
      let (registration, next', r') = insert_window queue channel (winit.id inner) next r in
      (ok (record { inner = inner; registration = registration }), next', r')

-- winit's window behind its `Rc`: how many own it, be it a `Window` or an operation in the queue, and
-- the reactor. There are no weak references.
pub record Shared (queue : QueueApi TimerOp) {Op : Type 0} (channel : QueueApi Op) : Type 0 where
  pub strong_count : ℕ
  pub reactor : Reactor queue channel

module _ {queue : QueueApi TimerOp} {Op : Type 0} {channel : QueueApi Op} where
  -- `Clone for Window`, and `self.inner.clone()` in a method.
  unfoldable pub clone : Shared queue channel → Shared queue channel
  clone s = record s { strong_count = s.strong_count + 1 }

  -- The end of one owner's field.
  unfoldable pub release : Shared queue channel → Shared queue channel
  release s = record s { strong_count = s.strong_count - 1 }

  -- `Drop for Window`, where `Rc::get_mut` wants the only owner, and then that of the field `inner`.
  unfoldable pub drop_window : ℕ → Shared queue channel → Shared queue channel
  unfolding release
  drop_window id s =
      if s.strong_count == 1
      then release (record s { reactor = remove_window queue channel id s.reactor })
      else release s
