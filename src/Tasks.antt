-- ===== src/Tasks.antt =====
-- src/window.rs, the `rx.recv().await` of the methods: a future that awaits the methods of windows, one
-- behind the other, as the state machine that its polls drive.
pub mod Host
pub mod Live
pub mod Steps
pub mod Once
pub mod Polls
pub mod Events
pub mod Returns
use async_winit.Prelude.{ℕ, zero, suc, ◌+◌, Option, none, some}
use async_winit.Task.{ready, pending}
use async_winit.Sync.{QueueApi}
use async_winit.Sync.Channels.{ChannelApi}
use async_winit.Oneoff.{recv}
use async_winit.Reactor.{TimerOp}
use async_winit.Reactor.Loop.{World}
use async_winit.Ops.Winit.{WinitWindows}
use async_winit.Ops.Request.{Answer, EventLoopOp}
use async_winit.Window.Methods.Calls.{Call, kind_of, direct, call}

module _ (winit : WinitWindows) where
  -- The method that is awaited next, and what follows its answer.
  pub data Task (A : Type 0) : Type 0 where
    finish : A → Task A
    await : (c : Call winit) → (Answer winit (kind_of winit c) → Task A) → Task A

  -- Between two polls. `waiting` has the receiving end.
  pub data Progress (A : Type 0) : Type 0 where
    running : Task A → Progress A
    waiting : (c : Call winit) → ℕ → (Answer winit (kind_of winit c) → Task A) → Progress A
    returned : Progress A

  module _ {A : Type 0} where
    -- The same task where each method is winit's own, which returns at once.
    unfoldable pub direct_run : Task A → winit.Env → A × winit.Env
    direct_run (finish a) env = (a, env)
    direct_run (await c next) env = direct_run (next (direct winit c env).0) (direct winit c env).1

    -- How many methods it awaits.
    unfoldable pub awaits : Task A → winit.Env → ℕ
    awaits (finish a) env = zero
    awaits (await c next) env = suc (awaits (next (direct winit c env).0) (direct winit c env).1)

  module _ (channels : ChannelApi (Answer winit)) (queue : QueueApi TimerOp)
      (channel : QueueApi (EventLoopOp winit)) {A : Type 0} where
    -- It goes on until it is done, has to wait for an answer, or for room in the channel.
    unfoldable pub resume :
        Task A
        → World winit channels queue channel
        → Option A × Progress A × World winit channels queue channel
    resume (finish a) w = (some a, returned, w)
    resume (await c next) w = elim (call winit channels queue channel c w) [
      | none ↦ (none, running (await c next), w)
      | some (rx, w') ↦
          let (answer, s) = recv channels (kind_of winit c) rx w'.store in
          elim answer [
            | ready a ↦ resume (next a) (record w' { store = s })
            | pending ↦ (none, waiting c rx next, record w' { store = s })
          ]
    ]

    -- One poll. A future that has returned panics.
    unfoldable pub poll :
        Progress A
        → World winit channels queue channel
        → Option (Option A × Progress A × World winit channels queue channel)
    poll (running t) w = some (resume t w)
    poll (waiting c rx next) w =
        let (answer, s) = recv channels (kind_of winit c) rx w.store in
        elim answer [
          | ready a ↦ some (resume (next a) (record w { store = s }))
          | pending ↦ some (none, waiting c rx next, record w { store = s })
        ]
    poll returned w = none
