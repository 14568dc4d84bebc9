-- ===== src/Tasks/Host.antt =====
-- src/filter.rs, src/reactor.rs and src/window.rs together: what the filter of a thread is run with
-- whose future is a task of `Tasks`. The window system, the clock, the parker and the channels' wake-ups
-- are parameters, and so is what a handler does that was used; one that was not, whose `run_with`
-- finds no state, is done at once.
use async_winit.Prelude.{
  ℕ, suc, Bool, true, not, ◌&&◌, Option, none, some, ◌>>=◌, if◌then◌else◌, is_empty, ◌==◌,
}
use async_winit.Task.{Waker}
use async_winit.Time.{Instant}
use async_winit.Sync.{QueueApi}
use async_winit.Sync.Channels.{ChannelApi, Safety}
use async_winit.Reactor.{TimerOp, notify_proxy}
use async_winit.Reactor.Loop
use async_winit.Reactor.Loop.{drain_loop_queue}
use async_winit.Reactor.Windows
use async_winit.Reactor.Windows.{Delivery}
use async_winit.Window.Registration.{Winit}
use async_winit.Filter.{FilterApi, World, notifier_waker, parker_waker, new_events, other}
use async_winit.Ops.Winit.{WinitWindows}
use async_winit.Ops.Request.{Answer, EventLoopOp}
use async_winit.Tasks.{Progress, poll}

-- The task, the handler that an event was delivered to, which handlers were used before, so that their
-- state is made, and how often the clock was read.
pub record Host (winit : WinitWindows) (channels : ChannelApi (Answer winit)) (D A : Type 0)
    : Type 0 where
  pub windows : winit.Env
  pub store : channels.Store
  pub task : Progress winit A
  pub delivery : Option D
  pub used : D → Bool
  pub reads : ℕ

-- What stands outside: what polling a handler that was used does, the wakers of other tasks, the parker, whether the
-- answers that a drain sends wake the task, and the clock.
pub record Outside (W D : Type 0) : Type 0 where
  pub poll_handler : Waker → D → W → Option (Bool × W)
  pub wake : Waker → W → W
  pub unpark : W → W
  pub park : Option Instant → W → W
  pub answer_wakes : W → Bool
  pub clock : ℕ → Instant
  pub max_instant : ℕ

module _ (winit : WinitWindows) (channels : ChannelApi (Answer winit)) (queue : QueueApi TimerOp)
    (channel : QueueApi (EventLoopOp winit)) (events : Winit) (Rest A : Type 0) where
  abbrev pub HostWorld : Type 0
  HostWorld = World queue channel (Host winit channels (Delivery events Rest) A)

  -- The part that `drain_loop_queue` and the methods act on, and the world with another such part.
  unfoldable pub loop_world : HostWorld → Loop.World winit channels queue channel
  loop_world w = record { reactor = w.reactor; env = w.env.windows; store = w.env.store }

  unfoldable pub set_loop_world : HostWorld → Loop.World winit channels queue channel → HostWorld
  set_loop_world w l = record {
    reactor = l.reactor;
    env = record (w.env) { windows = l.env; store = l.store };
  }

  unfoldable pub set_delivery : HostWorld → Option (Delivery events Rest) → HostWorld
  set_delivery w d = record w { env = record (w.env) { delivery = d } }

  unfoldable pub poll_task : HostWorld → Option (Option A × HostWorld)
  unfolding loop_world set_loop_world
  poll_task w = poll winit channels queue channel w.env.task (loop_world w) >>= λ p.
      let w' = set_loop_world w (p.2) in
      some (p.0, record w' { env = record (w'.env) { task = p.1 } })

  module _ (safety : Safety) (outside : Outside HostWorld (Delivery events Rest)) where
    -- The drain, and the wake-up of the task, which is a notification.
    unfoldable pub drain : HostWorld → Option HostWorld
    unfolding loop_world set_loop_world
    drain w = drain_loop_queue winit channels queue channel safety (loop_world w) >>= λ l.
        let w' = set_loop_world w l in
        let wakes = not (is_empty (channel.items w.reactor.evl_ops)) && outside.answer_wakes w in
        some (if wakes then record w' { reactor = notify_proxy queue channel w'.reactor } else w')

    -- `ReactorWaker::wake`, and `EventPostWaker::wake`, which unparks behind that.
    unfoldable pub wake_task : Waker → HostWorld → HostWorld
    wake_task k w =
        let notified = record w { reactor = notify_proxy queue channel w.reactor } in
        if k == notifier_waker
        then notified
        else if k == parker_waker
        then outside.unpark notified
        else outside.wake k w

    abbrev pub host : FilterApi queue (EventLoopOp winit) channel
    host = record {
      Env = Host winit channels (Delivery events Rest) A;
      Out = A;
      Other = Windows.Event events Rest;
      poll_future = λ k w. poll_task w;
      post_event = λ e w. elim e [
        | new_events ↦ set_delivery w none
        | other o ↦ set_delivery w (Windows.post_event queue channel o w.reactor)
      ];
      poll_event = λ k w. elim w.env.delivery [
        | none ↦ some (true, w)
        | some d ↦ if w.env.used d then outside.poll_handler k d w else some (true, w)
      ];
      drain_loop_queue = drain;
      wake = wake_task;
      park = outside.park;
      read_clock = λ w. (
        outside.clock w.env.reads,
        record w { env = record (w.env) { reads = suc w.env.reads } },
      );
      max_instant = outside.max_instant;
    }
