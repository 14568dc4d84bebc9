-- ===== src/Tasks/Steps.antt =====
-- src/filter.rs, src/reactor.rs and src/window.rs together: a poll of a task, and the drain behind it.
use async_winit.Prelude.{ℕ, ◌≡◌, refl, ◌∙◌, ap, ◌<◌, none, some, [], map_option, arith}
use async_winit.Task.{ready}
use async_winit.Notifier.{notify}
use async_winit.Sync.{QueueApi}
use async_winit.Sync.Channels.{ChannelApi, Safety}
use async_winit.Oneoff.{recv}
use async_winit.Reactor.{TimerOp}
use async_winit.Reactor.Loop
use async_winit.Reactor.Loop.Drain.{perform_all}
use async_winit.Ops.Winit.{WinitWindows}
use async_winit.Ops.Request.{Answer, EventLoopOp}
use async_winit.Window.Methods.Answers.{Answers}
use async_winit.Window.Methods.Answers.Every.{call-Answers}
use async_winit.Window.Methods.Calls.{kind_of, direct, Call, call}
use async_winit.Tasks.{Task, await, Progress, running, waiting, returned, resume, poll}

-- The queue is empty and has room.
pub record Vacant {Op : Type 0} (channel : QueueApi Op) (q : channel.Queue) : Type 0 where
  pub empty : channel.items q ≡ []
  pub room : 0 < channel.capacity q

module _ {winit : WinitWindows} (channels : ChannelApi (Answer winit)) (queue : QueueApi TimerOp)
    (channel : QueueApi (EventLoopOp winit)) where
  Vacant-Answers :
      (safety : Safety) (c : Call winit) (w : Loop.World winit channels queue channel)
      → Vacant channel w.reactor.evl_ops
      → Answers channels queue channel safety
          (kind_of winit c)
          (call winit channels queue channel c)
          (direct winit c)
          w
  Vacant-Answers safety c w v =
      call-Answers channels queue channel safety c w
        (record { waiting = rw v.empty tt; within = rw v.empty (omega arith) }) (rw v.empty v.room)

module _ {winit : WinitWindows} (channels : ChannelApi (Answer winit)) (queue : QueueApi TimerOp)
    (channel : QueueApi (EventLoopOp winit)) {A : Type 0} where
  -- What is left of the task: where it waits, its answer is there.
  abbrev pub Left : Task winit A → Progress winit A → channels.Store → Type 0
  Left t (running t') s = t' ≡ t
  Left t (waiting c rx next) s =
      (a : Answer winit (kind_of winit c)) × (s' : channels.Store) × (recv channels
          (kind_of winit c) rx s
        ≡ (ready a, s'))
      × (next a ≡ t)
  Left t returned s = ⊥

  pub poll-Left :
      (t : Task winit A) (p : Progress winit A) (w : Loop.World winit channels queue channel)
      → Left t p w.store
      → (s : channels.Store) × (poll winit channels queue channel p w
          ≡ some (resume winit channels queue channel t (record w { store = s })))
  unfolding poll
  poll-Left t (running t') w l = (w.store, rw l refl)
  poll-Left t (waiting c rx next) w (a, s', got, l) = (s', rw (got, l, poll) (rw got refl))
  poll-Left t returned w l = absurd l

  pub resume-await :
      (safety : Safety) (c : Call winit) (next : Answer winit (kind_of winit c) → Task winit A)
      (w : Loop.World winit channels queue channel)
      → Vacant channel w.reactor.evl_ops
      → (rx : ℕ) × (asked drained : Loop.World winit channels queue channel) × (resume winit
            channels queue channel
            (await c next)
            w
          ≡ (none, waiting c rx next, asked))
        × (Loop.drain_loop_queue winit channels queue channel safety asked ≡ some drained)
        × (asked.reactor.proxy ≡ map_option notify w.reactor.proxy)
        × (drained.reactor.proxy ≡ map_option notify w.reactor.proxy)
        × (drained.reactor.windows ≡ w.reactor.windows)
        × Vacant channel drained.reactor.evl_ops
        × (drained.env ≡ (direct winit c w.env).1)
        × Left (next (direct winit c w.env).0) (waiting c rx next) drained.store
  unfolding resume
  resume-await safety c next w v =
      let a = Vacant-Answers channels queue channel safety c w v in
      let before = perform_all (channel.items w.reactor.evl_ops) w.env in
      let same : before ≡ w.env = ap (λ ops. perform_all ops w.env) v.empty in
      (
        a.rx,
        a.asked,
        a.drained,
        rw (a.asks_eq, a.waits, resume) (rw a.waits refl),
        a.drains,
        a.asked_proxy,
        a.drained_proxy,
        a.handlers,
        record { empty = a.empty; room = rw a.capacity v.room },
        a.env ∙ ap (λ env. (direct winit c env).1) same,
        (
          (direct winit c before).0,
          a.store,
          a.receives,
          ap (λ env. next (direct winit c env).0) same,
        ),
      )
