-- ===== src/Reactor/Global/Starts.antt =====
-- src/reactor.rs, `Reactor::new`: where the invariants of the reactor start.
use async_winit.Prelude.{ℕ, ◌≡◌, ◌≤◌, ◌<◌, [], length, ap, arith, inr}
use async_winit.Sync.{QueueApi}
use async_winit.Sync.Channels.{ChannelApi}
use async_winit.Reactor.{TimerOp}
use async_winit.Reactor.Timers.{IsSound}
use async_winit.Reactor.Global.{new}
use async_winit.Reactor.Loop.{World}
use async_winit.Ops.Winit.{WinitWindows}
use async_winit.Ops.Request.{Answer, EventLoopOp}
use async_winit.Window.Methods.Answers.{IsReady}

module _ {winit : WinitWindows} (channels : ChannelApi (Answer winit)) (queue : QueueApi TimerOp)
    (channel : QueueApi (EventLoopOp winit)) where
  -- The world that a program starts in.
  abbrev pub start :
      queue.Queue → channel.Queue → winit.Env → channels.Store → World winit channels queue channel
  start q e env s = record { reactor = new queue channel q e; env = env; store = s }

  -- A new reactor, with queues that are empty and with room for as many pushes of timers as are
  -- wanted, and at least one, is sound for these pushes; its event loop operations are within the
  -- capacity and all wait on open and empty channels of their own.
  pub new-IsSound :
      (n : ℕ) (q : queue.Queue) (e : channel.Queue) (env : winit.Env) (s : channels.Store)
      → queue.items q ≡ []
      → channel.items e ≡ []
      → 0 < queue.capacity q
      → n ≤ queue.capacity q
      → IsSound queue channel n (new queue channel q e)
        × IsReady channels queue channel (start q e env s)
  unfolding new
  new-IsSound n q e env s none_queued none_asked some_room spare = (
    record {
      is_sorted = tt;
      within = omega (arith, ap length none_queued);
      some_room = some_room;
      spare = inr (omega (arith, ap length none_queued));
    },
    record { waiting = rw none_asked tt; within = omega (arith, ap length none_asked) },
  )
