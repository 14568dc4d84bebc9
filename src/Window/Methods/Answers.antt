-- ===== src/Window/Methods/Answers.antt =====
-- src/window.rs and src/reactor.rs together: a method of a window, the loop that drains the queue, and
-- the answer that the method's task receives.
pub mod Every
use async_winit.Prelude.{
  ℕ, ◌<◌, ◌≤◌, ◌≡◌, refl, ap, some, [], ◌∷◌, ◌++◌, length, length-append, arith, Option-cases, inl,
  inr, true, map_option, ◌∙◌,
}
use async_winit.Task.{ready, pending}
use async_winit.Sync.{QueueApi}
use async_winit.Sync.Channels.{ChannelApi, Safety}
use async_winit.Notifier.{notify}
use async_winit.Oneoff.{oneoff, recv}
use async_winit.Oneoff.Answers.{recv_ready}
use async_winit.Reactor.{TimerOp, notify_proxy}
use async_winit.Reactor.Loop.{World, push_event_loop_op, drain_loop_queue}
use async_winit.Reactor.Loop.Drain.{
  Waiting, Answered, perform_all, perform_all-append, Answered-last, Waiting-make, Waiting-append,
  drain-Answered,
}
use async_winit.Ops.Winit.{WinitWindows}
use async_winit.Ops.Request
use async_winit.Ops.Request.{
  Answer, Kind, Request, EventLoopOp, reply, geometry, look, focus, cursor,
}
use async_winit.Ops.Run.{perform}
use async_winit.Window.Methods.{Asks, ask}
use async_winit.Window.Methods.Calls.{
  Call, kind_of, direct, call, inner_position, outer_position, set_outer_position, inner_size,
  outer_size, set_min_inner_size, set_max_inner_size, resize_increments, set_resize_increments,
  set_title, set_visible, is_visible, set_transparent, set_resizable, is_resizable, set_minimized,
  is_minimized, set_maximized, is_maximized, set_fullscreen, fullscreen, set_decorations,
  is_decorated, set_window_level, set_window_icon, set_ime_position, set_ime_allowed,
  set_ime_purpose, focus_window, is_focused, request_user_attention, set_theme, theme,
  set_content_protected, title, set_cursor_icon, set_cursor_position, set_cursor_grab,
  set_cursor_visible, drag_window, drag_resize_window, set_cursor_hittest, current_monitor,
}

module _ {winit : WinitWindows} (channels : ChannelApi (Answer winit)) (queue : QueueApi TimerOp)
    (channel : QueueApi (EventLoopOp winit)) where
  -- The queue is within its capacity, and its operations wait on channels of their own.
  pub record IsReady (w : World winit channels queue channel) : Type 0 where
    pub waiting : Waiting channels (channel.items w.reactor.evl_ops) w.store
    pub within : length (channel.items w.reactor.evl_ops) ≤ channel.capacity w.reactor.evl_ops

  -- Where the operations of the queue wait on open and empty channels of their own, and are no more
  -- than its capacity, a drain succeeds and empties the queue; the window system is as their calls
  -- leave it, one behind the other in the order in which they were pushed, and each channel holds
  -- what the call of its operation returned, and nothing else.
  pub drain_loop_queue-Answered :
      (safety : Safety) (w : World winit channels queue channel)
      → IsReady w
      → (drained : World winit channels queue channel) × (drain_loop_queue winit channels queue
            channel safety w
          ≡ some drained)
        × (channel.items drained.reactor.evl_ops ≡ [])
        × (drained.env ≡ perform_all (channel.items w.reactor.evl_ops) w.env)
        × Answered channels (channel.items w.reactor.evl_ops) w.env drained.store
  unfolding drain_loop_queue
  drain_loop_queue-Answered safety w r =
      let (q, s, eq, empty, answered, _, _) =
        drain-Answered channels safety queue channel (channel.capacity w.reactor.evl_ops)
          w.reactor.evl_ops _ w.env w.store refl r.within r.waiting in
      (
        record {
          reactor = record (w.reactor) { evl_ops = q };
          env = perform_all (channel.items w.reactor.evl_ops) w.env;
          store = s;
        },
        rw eq,
        empty,
        refl,
        answered,
      )

  -- A method asks, the loop drains its queue, and the method's task gets the answer of `act`, called
  -- behind all that was asked before.
  pub record Answers (safety : Safety) (k : Kind) (asks : Asks winit channels queue channel)
      (act : winit.Env → Answer winit k × winit.Env) (w : World winit channels queue channel)
      : Type 0 where
    pub rx : ℕ
    pub asked : World winit channels queue channel
    pub drained : World winit channels queue channel
    pub store : channels.Store
    pub asks_eq : asks w ≡ some (rx, asked)
    pub is_ready : IsReady asked
    pub waits : recv channels k rx asked.store ≡ (pending, asked.store)
    pub drains : drain_loop_queue winit channels queue channel safety asked ≡ some drained
    pub env : drained.env ≡ (act (perform_all (channel.items w.reactor.evl_ops) w.env)).1
    pub asked_proxy : asked.reactor.proxy ≡ map_option notify w.reactor.proxy
    pub drained_proxy : drained.reactor.proxy ≡ map_option notify w.reactor.proxy
    pub handlers : drained.reactor.windows ≡ w.reactor.windows
    pub capacity : channel.capacity drained.reactor.evl_ops ≡ channel.capacity w.reactor.evl_ops
    pub empty : channel.items drained.reactor.evl_ops ≡ []
    pub receives :
        recv channels k rx drained.store
        ≡ (ready (act (perform_all (channel.items w.reactor.evl_ops) w.env)).0, store)

  pub ask-Answers :
      (safety : Safety) (request : Request winit) (w : World winit channels queue channel)
      → IsReady w
      → length (channel.items w.reactor.evl_ops) < channel.capacity w.reactor.evl_ops
      → Answers safety
          (reply winit request)
          (ask winit channels queue channel request)
          (perform winit request)
          w
  unfolding ask oneoff push_event_loop_op notify_proxy drain_loop_queue recv
  ask-Answers safety request w r room =
      elim (Option-cases (
        channel.push w.reactor.evl_ops
          (record { request = request; waker = channels.fresh w.store }))) [
            | inl full ↦ absurd (
                omega (
                  arith,
                  channel.push-none w.reactor.evl_ops
                      (record { request = request; waker = channels.fresh w.store }) full,
                ))
            | inr (q, pushed) ↦
                let op : EventLoopOp winit = record {
                  request = request;
                  waker = channels.fresh w.store;
                } in
                let k = reply winit request in
                let rx = channels.fresh w.store in
                let ops = channel.items w.reactor.evl_ops in
                let s = channels.make k w.store in
                let (its, cap) = channel.push-some w.reactor.evl_ops q op pushed in
                let (waits, fresh) = Waiting-make channels ops k w.store r.waiting in
                let opened : channels.is_open rx s ≡ true =
                  ground (arith, channels.is_open-make k w.store rx) in
                let vacant : channels.contents k rx s ≡ [] =
                  ground (arith, channels.contents-make k w.store k rx) in
                let all = Waiting-append channels ops op s waits fresh opened vacant in
                let len : length (ops ++ op ∷ []) ≤ channel.capacity q =
                  omega (arith, ap length its, length-append ops (op ∷ []), cap) in
                let (q', s', eq, done, answered, _, cap') =
                  drain-Answered channels safety queue channel (channel.capacity q) q
                    (ops ++ op ∷ []) w.env s its len all in
                let (s'', got) =
                  recv_ready channels k rx _ s' (Answered-last channels ops op w.env s' answered) in
                record {
                  rx = rx;
                  asked = record {
                    reactor = notify_proxy queue channel (record (w.reactor) { evl_ops = q });
                    env = w.env;
                    store = s;
                  };
                  drained = record {
                    reactor =
                        record (notify_proxy queue channel (record (w.reactor) { evl_ops = q })) {
                          evl_ops = q';
                        };
                    env = perform_all (ops ++ op ∷ []) w.env;
                    store = s';
                  };
                  store = s'';
                  asks_eq = rw pushed;
                  is_ready = record { waiting = rw its all; within = rw its len };
                  waits = rw (channels.try_recv-none k rx s vacant, recv);
                  drains = rw eq;
                  env = perform_all-append ops op w.env;
                  asked_proxy = refl;
                  drained_proxy = refl;
                  handlers = refl;
                  capacity = cap' ∙ cap;
                  empty = done;
                  receives = got;
                }
          ]
