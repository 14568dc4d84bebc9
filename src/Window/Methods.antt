-- ===== src/Window/Methods.antt =====
-- src/window.rs: the methods of a window that ask the event loop. Each makes a one-off channel, pushes
-- an operation with its sending end, and returns the receiving end, which its task then awaits.
pub mod Geometry
pub mod Look
pub mod Focus
pub mod Cursor
pub mod Calls
pub mod Answers
pub mod Cancelled
use async_winit.Prelude.{ℕ, Option, some, ◌>>=◌}
use async_winit.Sync.{QueueApi}
use async_winit.Sync.Channels.{ChannelApi}
use async_winit.Oneoff.{oneoff}
use async_winit.Reactor.{TimerOp}
use async_winit.Reactor.Loop.{World, push_event_loop_op}
use async_winit.Ops.Winit.{WinitWindows}
use async_winit.Ops.Request.{Answer, Request, EventLoopOp, reply}

module _ (winit : WinitWindows) where
  -- `registration` is the handle under which the reactor keeps the window's handlers.
  pub record Window : Type 0 where
    pub inner : winit.Window
    pub registration : ℕ

  module _ (channels : ChannelApi (Answer winit)) (queue : QueueApi TimerOp)
      (channel : QueueApi (EventLoopOp winit)) where
    -- What each method does up to `rx.recv().await`. `none` means that the channel is full and the
    -- task waits.
    abbrev pub Asks : Type 0
    Asks = World winit channels queue channel → Option (ℕ × World winit channels queue channel)

    unfoldable pub ask : Request winit → Asks
    ask request w =
        let (rx, store) = oneoff channels (reply winit request) w.store in
        push_event_loop_op winit channels queue channel w.reactor
          (record { request = request; waker = rx })
        >>= λ reactor. some (rx, record w { reactor = reactor; store = store })
