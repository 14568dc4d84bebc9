-- ===== src/EventLoop/Exits.antt =====
-- src/event_loop.rs with src/reactor.rs and src/filter.rs: what an exit that was asked for, and a
-- question about the monitors, come to.
use async_winit.Prelude.{ℕ, ◌≡◌, ◌<◌, ◌^◌, Bool, refl, true, false, some, length, List, [], ◌∷◌}
use async_winit.Sync.{QueueApi}
use async_winit.Sync.Channels.{ChannelApi, Safety}
use async_winit.Reactor.{TimerOp, Reactor, exit_requested}
use async_winit.Reactor.Exit.{exit_requested-request_exit}
use async_winit.Reactor.Loop.{World}
use async_winit.Filter.{FilterApi, Run, ControlFlow, control_flow, set_world}
use async_winit.Filter
use async_winit.Ops.Winit.{WinitWindows}
use async_winit.Ops.Request
use async_winit.Ops.Request.{Answer, EventLoopOp, monitor, monitors}
use async_winit.Ops.Run.{perform}
use async_winit.Window.Methods.Answers.{IsReady, Answers, ask-Answers}
use async_winit.EventLoop.{set_exit_with_code, exit_with_code, primary_monitor, available_monitors}

module _ (queue : QueueApi TimerOp) {Op : Type 0} (channel : QueueApi Op) where
  -- The task is polled, and behind each poll others do this or that.
  abbrev pub poll_exit :
      List (Reactor queue channel → Reactor queue channel)
      → ℕ
      → Bool
      → Reactor queue channel
      → Bool × Reactor queue channel
  poll_exit [] code polled r = (polled, r)
  poll_exit (f ∷ fs) code polled r =
      let (_, polled', r') = exit_with_code queue channel code polled r in
      poll_exit fs code polled' (f r')

  -- What the others do, without the task.
  abbrev pub all_of :
      List (Reactor queue channel → Reactor queue channel)
      → Reactor queue channel
      → Reactor queue channel
  all_of [] r = r
  all_of (f ∷ fs) r = all_of fs (f r)

  pub poll_exit_again :
      (fs : List (Reactor queue channel → Reactor queue channel)) (code : ℕ)
      (r : Reactor queue channel)
      → poll_exit fs code true r ≡ (true, all_of fs r)
  unfolding exit_with_code
  poll_exit_again [] code r = refl
  poll_exit_again (f ∷ fs) code r = poll_exit_again fs code (f r)

module _ {queue : QueueApi TimerOp} {Op : Type 0} {channel : QueueApi Op}
    (api : FilterApi queue Op channel) where
  control_flow_exits :
      (s : Run api) (code : ℕ)
      → exit_requested queue channel s.world.reactor ≡ some code
      → control_flow api s ≡ Filter.exit
  unfolding control_flow
  control_flow_exits s code e = rw (e, control_flow) refl

  -- However often a task polls `exit_with_code`, and whatever others do to the reactor behind each
  -- poll, the reactor comes out as if the exit had been requested once, before anything that the
  -- others do. By that request the reactor has the 32-bit code, and the flow that `handle_event`
  -- ends with there is `exit`, which carries no code.
  pub control_flow-exit_with_code :
      (f : Reactor queue channel → Reactor queue channel)
      (fs : List (Reactor queue channel → Reactor queue channel)) (code : ℕ) (s : Run api)
      → code < 2 ^ 32
      → (poll_exit queue channel (f ∷ fs) code false s.world.reactor ≡ (
        true,
        all_of queue channel (f ∷ fs) (set_exit_with_code queue channel code s.world.reactor),
      ))
        × (exit_requested queue channel (set_exit_with_code queue channel code s.world.reactor)
            ≡ some code)
        × (control_flow api (
              set_world api s (record (s.world) {
                reactor = set_exit_with_code queue channel code s.world.reactor;
              }))
            ≡ Filter.exit)
  unfolding set_exit_with_code set_world exit_with_code
  control_flow-exit_with_code f fs code s h =
      let asked = exit_requested-request_exit queue channel s.world.reactor code h in
      (poll_exit_again queue channel fs code _, asked, control_flow_exits _ code asked)

module _ {winit : WinitWindows} (channels : ChannelApi (Answer winit)) (queue : QueueApi TimerOp)
    (channel : QueueApi (EventLoopOp winit)) where
  pub monitors-Answers :
      (safety : Safety) (w : World winit channels queue channel)
      → IsReady channels queue channel w
      → length (channel.items w.reactor.evl_ops) < channel.capacity w.reactor.evl_ops
      → Answers channels queue channel safety monitor
          (primary_monitor winit channels queue channel)
          winit.primary_monitor
          w
        × Answers channels queue channel safety monitors
            (available_monitors winit channels queue channel)
            winit.available_monitors
            w
  unfolding primary_monitor available_monitors perform
  monitors-Answers safety w r room = (
    ask-Answers channels queue channel safety Request.primary_monitor w r room,
    ask-Answers channels queue channel safety Request.available_monitors w r room,
  )
