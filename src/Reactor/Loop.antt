-- ===== src/Reactor/Loop.antt =====
-- src/reactor.rs: the queue of event loop operations, which tasks push to and the loop drains.
pub mod Drain
use async_winit.Prelude.{ℕ, zero, suc, Option, none, some, ◌>>=◌, length}
use async_winit.Sync.{QueueApi}
use async_winit.Sync.Channels.{ChannelApi, Safety, thread_safe, thread_unsafe}
use async_winit.Reactor.{TimerOp, Reactor, notify_proxy}
use async_winit.Ops.Winit.{WinitWindows}
use async_winit.Ops.Request.{Answer, EventLoopOp}
use async_winit.Ops.Run.{run}

module _ (winit : WinitWindows) (channels : ChannelApi (Answer winit)) (queue : QueueApi TimerOp)
    (channel : QueueApi (EventLoopOp winit)) where
  -- The reactor, the window system and the one-off channels.
  pub record World : Type 0 where
    pub reactor : Reactor queue channel
    pub env : winit.Env
    pub store : channels.Store

  -- One poll of `push_event_loop_op`: `none` where the channel is full, so that the task waits.
  unfoldable pub push_event_loop_op :
      Reactor queue channel → EventLoopOp winit → Option (Reactor queue channel)
  push_event_loop_op r op = channel.push r.evl_ops op >>= λ q.
      some (notify_proxy queue channel (record r { evl_ops = q }))

  -- `Receiver::len`: that of the thread-unsafe build is `todo!()`, a panic.
  unfoldable pub len : Safety → channel.Queue → Option ℕ
  len thread_safe q = some (length (channel.items q))
  len thread_unsafe q = none

  unfoldable pub evl_ops_len : Safety → Reactor queue channel → Option ℕ
  unfolding len
  evl_ops_len safety r = len safety r.evl_ops

  module _ (safety : Safety) where
    -- `for _ in 0..limit`: an operation is received and run, until there is none.
    unfoldable pub drain :
        ℕ
        → channel.Queue
        → winit.Env
        → channels.Store
        → Option (channel.Queue × winit.Env × channels.Store)
    drain zero q env s = some (q, env, s)
    drain (suc limit) q env s = elim (channel.try_next q) [
      | none ↦ some (q, env, s)
      | some (op, q') ↦ run winit channels safety op env s >>= λ r. drain limit q' (r.0) (r.1)
    ]

    unfoldable pub drain_loop_queue : World → Option World
    unfolding drain
    drain_loop_queue w =
        drain (channel.capacity w.reactor.evl_ops) w.reactor.evl_ops w.env w.store >>= λ d.
        some (record { reactor = record (w.reactor) { evl_ops = d.0 }; env = d.1; store = d.2 })
