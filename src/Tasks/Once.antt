-- ===== src/Tasks/Once.antt =====
-- src/filter.rs, src/reactor.rs and src/window.rs together: one round of the loop of `handle_event` that polls
-- the task while it is notified.
use mathlib.Core.Path.{subst}
use async_winit.Prelude.{
  ℕ, suc, ◌≡◌, refl, ◌∙◌, sym, ap, inl, inr, true, false, Option, none, some, Bool-cases, arith,
  not, ◌&&◌, is_empty,
}
use async_winit.Notifier.{ReactorWaker, notify}
use async_winit.Sync.{QueueApi}
use async_winit.Sync.Channels.{ChannelApi, Safety}
use async_winit.Reactor.{TimerOp, notify_proxy}
use async_winit.Reactor.Loop
use async_winit.Reactor.Windows.{Delivery}
use async_winit.Window.Registration.{Winit}
use async_winit.Filter.{
  FilterApi, Run, change_notifier, set_filter, set_world, poll_wrapped, drain_queue, after_pending,
  poll_once,
}
use async_winit.Ops.Winit.{WinitWindows}
use async_winit.Ops.Request.{Answer, EventLoopOp}
use async_winit.Window.Methods.Calls.{Call, kind_of, direct}
use async_winit.Tasks
use async_winit.Tasks.{Task, finish, await, Progress, direct_run, awaits, resume}
use async_winit.Tasks.Host.{Outside, HostWorld, host, loop_world, set_loop_world, poll_task, drain}
use async_winit.Tasks.Live.{Routes, View, view}
use async_winit.Tasks.Steps.{Left, Vacant, resume-await}

module _ (winit : WinitWindows) (channels : ChannelApi (Answer winit)) (queue : QueueApi TimerOp)
    (channel : QueueApi (EventLoopOp winit)) (events : Winit) (Rest A : Type 0) (safety : Safety)
    (outside : Outside
      (HostWorld winit channels queue channel events Rest A)
      (Delivery events Rest)) where
  abbrev pub api : FilterApi queue (EventLoopOp winit) channel
  api = host winit channels queue channel events Rest A safety outside

  -- A task that has `n` methods to await still and will return `result`.
  pub record IsLive (handlers : Routes (Delivery events Rest)) (result : A × winit.Env) (n : ℕ)
      (v : View winit channels channel (Delivery events Rest) A) : Type 0 where
    pub task : Task winit A
    pub notified : v.notified ≡ some true
    pub kept : v.handlers ≡ handlers
    pub vacant : Vacant channel v.evl_ops
    pub left : Left channels queue channel task v.task v.store
    pub returns : direct_run winit task v.windows ≡ result
    pub counts : awaits winit task v.windows ≡ n

  pub record HasReturned (handlers : Routes (Delivery events Rest)) (env : winit.Env)
      (v : View winit channels channel (Delivery events Rest) A) : Type 0 where
    pub notified : v.notified ≡ some false
    pub kept : v.handlers ≡ handlers
    pub windows : v.windows ≡ env

  notify-notified : (p : ReactorWaker) → (notify p).notified ≡ true
  unfolding notify
  notify-notified p = ground arith

  drain-view :
      (w : HostWorld winit channels queue channel events Rest A)
      (l : Loop.World winit channels queue channel) (p : ReactorWaker)
      → Loop.drain_loop_queue winit channels queue channel safety
          (loop_world winit channels queue channel events Rest A w)
        ≡ some l
      → l.reactor.proxy ≡ some p
      → p.notified ≡ true
      → (w' : HostWorld winit channels queue channel events Rest A) × (drain winit channels queue
            channel events Rest A safety outside w
          ≡ some w')
        × (view winit channels queue channel events Rest A w' ≡ record {
          notified = some true;
          evl_ops = l.reactor.evl_ops;
          handlers = (l.reactor.windows, w.env.used);
          windows = l.env;
          store = l.store;
          task = w.env.task;
        })
  unfolding drain set_loop_world view notify_proxy notify
  drain-view w l p drained proxy notified =
      let w1 = set_loop_world winit channels queue channel events Rest A w l in
      elim (Bool-cases
        (not (is_empty (channel.items w.reactor.evl_ops)) && outside.answer_wakes w)) [
          | inl wakes ↦ (
            record w1 { reactor = notify_proxy queue channel w1.reactor },
            rw (drained, wakes) refl,
            rw (proxy, notified) refl,
          )
          | inr quiet ↦ (w1, rw (drained, quiet) refl, rw (proxy, notified) refl)
        ]

  abbrev pub seen : Run api → View winit channels channel (Delivery events Rest) A
  seen s = view winit channels queue channel events Rest A s.world

  -- Behind a poll that left the task so, with this part of the world.
  unfoldable polled_run :
      Run api → Option A → Progress winit A → Loop.World winit channels queue channel → Run api
  unfolding set_loop_world
  polled_run s o task l =
      let w = set_loop_world winit channels queue channel events Rest A s.world l in
      record s { output = o; world = record w { env = record (w.env) { task = task } } }

  -- The part of the world that the poll acts on.
  abbrev pub polled_world :
      Run api → ReactorWaker → channels.Store → Loop.World winit channels queue channel
  polled_world s p store = record {
    reactor = record (s.world.reactor) { proxy = some (record p { notified = false }) };
    env = s.world.env.windows;
    store = store;
  }

  pub once-finish :
      (s : Run api) (p : ReactorWaker) (a : A) (store : channels.Store)
      → s.filter.yielding ≡ false
      → s.output ≡ none
      → s.world.reactor.proxy ≡ some p
      → p.notified ≡ true
      → Tasks.poll winit channels queue channel s.world.env.task
          (polled_world s p s.world.env.store)
        ≡ some (resume winit channels queue channel (finish a) (polled_world s p store))
      → (s' : Run api) × (poll_once api s ≡ some (true, s'))
        × (s'.filter.yielding ≡ false)
        × (s'.output ≡ some a)
        × (s'.world.reactor.proxy ≡ some (record p { notified = false }))
        × ((seen s').handlers ≡ (s.world.reactor.windows, s.world.env.used))
        × (s'.world.env.windows ≡ s.world.env.windows)
  unfolding view poll_once change_notifier set_world poll_wrapped poll_task loop_world
      set_loop_world resume polled_run
  once-finish s p a store y o proxy notified polled = (
    polled_run s (some a) Tasks.returned (polled_world s p store),
    rw (y, proxy, notified, o, polled) refl,
    y,
    refl,
    refl,
    refl,
    refl,
  )

  once-pending :
      (s : Run api) (p q : ReactorWaker) (task : Progress winit A)
      (asked : Loop.World winit channels queue channel)
      (w : HostWorld winit channels queue channel events Rest A)
      → s.filter.yielding ≡ false
      → s.output ≡ none
      → s.world.reactor.proxy ≡ some p
      → p.notified ≡ true
      → Tasks.poll winit channels queue channel s.world.env.task
          (polled_world s p s.world.env.store)
        ≡ some (none, task, asked)
      → asked.reactor.proxy ≡ some q
      → q.notified ≡ true
      → drain winit channels queue channel events Rest A safety outside
          (polled_run s none task asked).world
        ≡ some w
      → poll_once api s
        ≡ some (
          true,
          record s { filter = record (s.filter) { yielding = true }; output = none; world = w },
        )
  unfolding poll_once change_notifier set_world set_filter poll_wrapped poll_task loop_world
      set_loop_world polled_run after_pending drain_queue
  once-pending s p q task asked w y o proxy notified polled asked_proxy again drained = ground arith

  pub once-await :
      (s : Run api) (p : ReactorWaker) (c : Call winit)
      (next : Answer winit (kind_of winit c) → Task winit A) (store : channels.Store)
      (result : A × winit.Env) (n : ℕ)
      → s.filter.yielding ≡ false
      → s.output ≡ none
      → s.world.reactor.proxy ≡ some p
      → p.notified ≡ true
      → Tasks.poll winit channels queue channel s.world.env.task
          (polled_world s p s.world.env.store)
        ≡ some (resume winit channels queue channel (await c next) (polled_world s p store))
      → Vacant channel s.world.reactor.evl_ops
      → direct_run winit (await c next) s.world.env.windows ≡ result
      → awaits winit (await c next) s.world.env.windows ≡ suc n
      → (s' : Run api) × (poll_once api s ≡ some (true, s'))
        × (s'.filter.yielding ≡ true)
        × (s'.output ≡ none)
        × IsLive (s.world.reactor.windows, s.world.env.used) result n (seen s')
  unfolding polled_run direct_run awaits loop_world
  once-await s p c next store result n y o proxy notified polled vacant r k =
      let (rx, asked, l, resumed, drained, asked_proxy, drained_proxy, kept, vacant', env, left) =
        resume-await channels queue channel safety c next (polled_world s p store) vacant in
      let q = notify (record p { notified = false }) in
      let s2 = polled_run s none (Tasks.waiting c rx next) asked in
      let (w', eq, v) = drain-view s2.world l q drained drained_proxy (notify-notified _) in
      (
        record s { filter = record (s.filter) { yielding = true }; output = none; world = w' },
        once-pending s p q (Tasks.waiting c rx next) asked w' y o proxy notified
            (polled ∙ ap some resumed) asked_proxy (notify-notified (record p { notified = false }))
            eq,
        refl,
        refl,
        subst (IsLive (s.world.reactor.windows, s.world.env.used) result n) (sym v) (record {
          task = next (direct winit c s.world.env.windows).0;
          notified = refl;
          kept = ap (λ windows. (windows, s.world.env.used)) kept;
          vacant = vacant';
          left = left;
          returns = rw env r;
          counts = rw env (omega (arith, k));
        }),
      )
