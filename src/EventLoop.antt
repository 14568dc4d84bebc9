-- ===== src/EventLoop.antt =====
-- src/event_loop.rs, `EventLoopWindowTarget`: what a task does through the event loop's target, whose
-- `reactor` the operations here act on.
pub mod Builder
pub mod Exits
pub mod Repolls
pub mod Asleep
pub mod Unsent
use async_winit.Prelude.{ℕ, Bool, true, if◌then◌else◌, Option, some, List, [], ◌∷◌, ◌>>=◌}
use async_winit.Task.{Poll, pending}
use async_winit.Sync.{QueueApi}
use async_winit.Sync.Channels.{ChannelApi}
use async_winit.Reactor.{TimerOp, Reactor, request_exit}
use async_winit.Filter.{FilterApi, Filter, World, Event, handle_event}
use async_winit.Filter
use async_winit.Ops.Winit.{WinitWindows}
use async_winit.Ops.Request
use async_winit.Ops.Request.{Answer, EventLoopOp}
use async_winit.Window.Methods.{Asks, ask}

module _ (queue : QueueApi TimerOp) {Op : Type 0} (channel : QueueApi Op) where
  unfoldable pub set_exit_with_code : ℕ → Reactor queue channel → Reactor queue channel
  set_exit_with_code code r = request_exit queue channel r code

  unfoldable pub set_exit : Reactor queue channel → Reactor queue channel
  set_exit r = request_exit queue channel r 0

  -- One poll of `exit_with_code` and of `exit`, whose results have no values, and whether it was polled
  -- before: the first poll asks for the exit, and all are pending.
  unfoldable pub exit_with_code :
      ℕ → Bool → Reactor queue channel → Poll ⊥ × Bool × Reactor queue channel
  exit_with_code code polled r = (pending, true, if polled then r else set_exit_with_code code r)

  unfoldable pub exit : Bool → Reactor queue channel → Poll ⊥ × Bool × Reactor queue channel
  exit polled r = (pending, true, if polled then r else set_exit r)

module _ (winit : WinitWindows) (channels : ChannelApi (Answer winit)) (queue : QueueApi TimerOp)
    (channel : QueueApi (EventLoopOp winit)) where
  -- Both up to `rx.recv().await`.
  unfoldable pub primary_monitor : Asks winit channels queue channel
  primary_monitor = ask winit channels queue channel Request.primary_monitor

  unfoldable pub available_monitors : Asks winit channels queue channel
  available_monitors = ask winit channels queue channel Request.available_monitors

module _ {queue : QueueApi TimerOp} {Op : Type 0} {channel : QueueApi Op}
    (api : FilterApi queue Op channel) where
  -- `inner.run(move |event, elwt| { filter.handle_event(future.as_mut(), event, elwt); })`, for the
  -- events that winit calls the closure with until it leaves the loop. `meanwhile` is what others do
  -- while winit waits for the next one.
  unfoldable pub run_events :
      ℕ
      → (World queue channel api.Env → World queue channel api.Env)
      → List (Event api.Other)
      → Filter
      → World queue channel api.Env
      → Option (Filter × World queue channel api.Env)
  run_events fuel meanwhile [] f w = some (f, w)
  run_events fuel meanwhile (e ∷ es) f w =
      handle_event api fuel e f w >>= λ r. run_events fuel meanwhile es (r.2) (meanwhile (r.3))

  unfoldable pub block_on :
      ℕ
      → (World queue channel api.Env → World queue channel api.Env)
      → List (Event api.Other)
      → World queue channel api.Env
      → Option (Filter × World queue channel api.Env)
  unfolding run_events
  block_on fuel meanwhile events w =
      let (filter, reactor) = Filter.new api w.reactor in
      run_events fuel meanwhile events filter (record w { reactor = reactor })
