-- ===== src/Window/Methods/Cancelled.antt =====
-- src/window.rs, src/oneoff.rs and src/sync.rs together: a method whose task is dropped while its
-- operation is in the queue.
use async_winit.Prelude.{
  ℕ, zero, suc, ◌≡◌, ◌<◌, refl, ◌∙◌, false, none, some, List, [], ◌∷◌, ◌++◌, length, has, arith,
  Option-cases, inl, inr,
}
use async_winit.Sync.{QueueApi}
use async_winit.Sync.Channels.{ChannelApi, thread_safe}
use async_winit.Sync.Channels
use async_winit.Oneoff.{oneoff, send}
use async_winit.Oneoff.Answers.{send-Sends}
use async_winit.Reactor.{TimerOp, notify_proxy}
use async_winit.Reactor.Loop.{World, drain, push_event_loop_op, drain_loop_queue}
use async_winit.Reactor.Loop.Drain.{
  Waiting, wakers, Waiting-Sends, Waiting-make, Waiting-drop_receiver,
}
use async_winit.Ops.Winit.{WinitWindows}
use async_winit.Ops.Request.{Answer, Request, EventLoopOp, reply}
use async_winit.Ops.Run.{run, perform}
use async_winit.Window.Methods.{ask}
use async_winit.Window.Methods.Answers.{IsReady}

module _ {winit : WinitWindows} (channels : ChannelApi (Answer winit)) (queue : QueueApi TimerOp)
    (channel : QueueApi (EventLoopOp winit)) where
  drain_closed :
      (limit : ℕ) (q : channel.Queue) (ops : List (EventLoopOp winit)) (op : EventLoopOp winit)
      (rest : List (EventLoopOp winit)) (env : winit.Env) (s : channels.Store)
      → channel.items q ≡ ops ++ op ∷ rest
      → length ops < limit
      → Waiting channels ops s
      → has op.waker (wakers ops) ≡ false
      → channels.is_open op.waker s ≡ false
      → drain winit channels queue channel thread_safe limit q env s ≡ none
  unfolding drain run send Channels.try_send
  drain_closed zero q ops op rest env s e h w n closed = absurd (omega arith)
  drain_closed (suc limit) q [] op rest env s e h w n closed =
      let (q1, next, _, _) = channel.try_next-cons q op rest e in
      rw (next, drain)
        (rw
          (
            channels.try_send-none (reply winit op.request) op.waker
                (perform winit op.request env).0 s closed,
            run,
            send,
            Channels.try_send,
          )
          refl)
  drain_closed (suc limit) q (o ∷ ops) op rest env s e h (o1, c1, d1, w) n closed =
      let (q1, next, its, _) = channel.try_next-cons q o (ops ++ op ∷ rest) e in
      let (a, env1) = perform winit o.request env in
      let (s1, sent, sends) =
        send-Sends channels thread_safe (reply winit o.request) o.waker a s o1 c1 in
      rw (next, drain)
        (rw (sent, run)
          (drain_closed limit q1 ops op rest env1 s1 its (omega arith)
            (Waiting-Sends channels ops o a s s1 sends d1 w) (ground arith)
            (sends.opened op.waker ∙ closed)))

  -- Where the operations of the queue wait on open and empty channels of their own, and the queue
  -- has room for one more: a task asks for anything and then drops its receiving end, and in the
  -- thread-safe build the next drain panics.
  pub ask-drop_receiver :
      (request : Request winit) (w : World winit channels queue channel)
      → IsReady channels queue channel w
      → length (channel.items w.reactor.evl_ops) < channel.capacity w.reactor.evl_ops
      → (rx : ℕ) × (asked : World winit channels queue channel) × (ask winit channels queue channel
            request w
          ≡ some (rx, asked))
        × (drain_loop_queue winit channels queue channel thread_safe
              (record asked { store = channels.drop_receiver rx asked.store })
            ≡ none)
  unfolding ask oneoff push_event_loop_op notify_proxy drain_loop_queue
  ask-drop_receiver request w r room =
      elim (Option-cases (
        channel.push w.reactor.evl_ops
          (record { request = request; waker = channels.fresh w.store }))) [
            | inl full ↦ absurd (
                omega (
                  arith,
                  channel.push-none w.reactor.evl_ops
                      (record { request = request; waker = channels.fresh w.store }) full,
                ))
            | inr (q, pushed) ↦
                let op : EventLoopOp winit = record {
                  request = request;
                  waker = channels.fresh w.store;
                } in
                let k = reply winit request in
                let rx = channels.fresh w.store in
                let ops = channel.items w.reactor.evl_ops in
                let s = channels.make k w.store in
                let (its, cap) = channel.push-some w.reactor.evl_ops q op pushed in
                let (waits, fresh) = Waiting-make channels ops k w.store r.waiting in
                let gone : channels.is_open rx (channels.drop_receiver rx s) ≡ false =
                  ground (arith, channels.is_open-drop_receiver rx s rx) in
                let closed =
                  drain_closed (channel.capacity q) q ops op [] w.env (channels.drop_receiver rx s)
                    its (omega (arith, cap)) (Waiting-drop_receiver channels ops rx s waits fresh)
                    fresh gone in
                (
                  rx,
                  record {
                    reactor = notify_proxy queue channel (record (w.reactor) { evl_ops = q });
                    env = w.env;
                    store = s;
                  },
                  rw pushed,
                  rw closed,
                )
          ]
