-- ===== src/Tasks/Live.antt =====
-- src/filter.rs, src/reactor.rs and src/window.rs together: one event of the loop, for a task that has not
-- returned yet.
use async_winit.Prelude.{
  ◌⊎◌, inl, inr, ap, ◌∙◌, true, false, ℕ, ◌≡◌, ◌≢◌, refl, ◌<◌, Bool, false, Option, none, some,
  List, map_option, arith,
}
use async_winit.Notifier.{ReactorWaker}
use async_winit.Sync.{QueueApi}
use async_winit.Sync.Channels.{ChannelApi, Safety}
use async_winit.Reactor.{TimerOp, Reactor, process_timers, process_timer_ops}
use async_winit.Reactor.Windows
use async_winit.Reactor.Windows.{Delivery}
use async_winit.Window.Registration.{Winit}
use async_winit.Filter.{
  parker_waker, FilterApi, Run, Event, new_events, other, on_wakeup, change_notifier, set_filter,
  set_world, round_of_timers, post,
}
use async_winit.Ops.Winit.{WinitWindows}
use async_winit.Ops.Request.{Answer, EventLoopOp}
use async_winit.Tasks.{Progress}
use async_winit.Tasks.Host.{Outside, HostWorld, host, set_delivery}

-- The windows, and which handlers were used.
abbrev pub Routes : Type 0 → Type 0
Routes D = List (ℕ × ℕ) × (D → Bool)

-- What the task's progress depends on.
pub record View (winit : WinitWindows) (channels : ChannelApi (Answer winit))
    (channel : QueueApi (EventLoopOp winit)) (D A : Type 0) : Type 0 where
  pub notified : Option Bool
  pub evl_ops : channel.Queue
  pub handlers : Routes D
  pub windows : winit.Env
  pub store : channels.Store
  pub task : Progress winit A

module _ (winit : WinitWindows) (channels : ChannelApi (Answer winit)) (queue : QueueApi TimerOp)
    (channel : QueueApi (EventLoopOp winit)) (events : Winit) (Rest A : Type 0) where
  unfoldable pub view :
      HostWorld winit channels queue channel events Rest A
      → View winit channels channel (Delivery events Rest) A
  view w = record {
    notified = map_option (λ (p : ReactorWaker). p.notified) w.reactor.proxy;
    evl_ops = w.reactor.evl_ops;
    handlers = (w.reactor.windows, w.env.used);
    windows = w.env.windows;
    store = w.env.store;
    task = w.env.task;
  }

  module _ (safety : Safety)
      (outside : Outside
        (HostWorld winit channels queue channel events Rest A)
        (Delivery events Rest)) where
    abbrev api : FilterApi queue (EventLoopOp winit) channel
    api = host winit channels queue channel events Rest A safety outside

    -- `NewEvents` ends the yielding.
    abbrev pub yields : Event api.Other → Bool → Bool
    yields new_events b = false
    yields (other o) b = b

    -- The clock never reads the last instant.
    abbrev pub ClockRuns : Type 0
    ClockRuns = (n : ℕ) → outside.clock n < outside.max_instant

    pub wakes_up :
        (e : Event api.Other) (s : Run api) (b : Bool)
        → ClockRuns
        → (view s.world).notified ≡ some b
        → on_wakeup api e s ≢ none
    unfolding on_wakeup change_notifier set_filter set_world round_of_timers process_timers
        process_timer_ops view
    wakes_up new_events s b runs n stuck = ground (arith, runs s.world.env.reads)
    wakes_up (other o) s b runs n stuck = ground arith

    pub on_wakeup-view :
        (e : Event api.Other) (s s' : Run api)
        → on_wakeup api e s ≡ some s'
        → (view s'.world ≡ view s.world)
          × (s'.output ≡ s.output)
          × (s'.filter.yielding ≡ yields e s.filter.yielding)
    unfolding on_wakeup change_notifier set_filter set_world round_of_timers process_timers
        process_timer_ops view
    on_wakeup-view new_events s s' e = ground arith
    on_wakeup-view (other o) s s' e = ground arith

    -- The event is for no handler, for one that was not used, or for one that is done with it at once.
    abbrev pub Passes : Routes (Delivery events Rest) → Event api.Other → Type 0
    Passes routes new_events = Unit {0}
    Passes routes (other o) =
        (r : Reactor queue channel)
        → r.windows ≡ routes.0
        → (Windows.post_event queue channel o r ≡ none)
          ⊎ ((d : Delivery events Rest) × (Windows.post_event queue channel o r ≡ some d)
              × ((routes.1 d ≡ false)
                  ⊎ ((w : HostWorld winit channels queue channel events Rest A)
                      → outside.poll_handler parker_waker d w ≡ some (true, w))))

    handler_done :
        (w : HostWorld winit channels queue channel events Rest A) (d : Delivery events Rest)
        → (w.env.used d ≡ false)
          ⊎ ((v : HostWorld winit channels queue channel events Rest A)
              → outside.poll_handler parker_waker d v ≡ some (true, v))
        → api.poll_event parker_waker
            (set_delivery winit channels queue channel events Rest A w (some d))
          ≡ some (true, set_delivery winit channels queue channel events Rest A w (some d))
    unfolding set_delivery
    handler_done w d (inl fresh) = rw fresh refl
    handler_done w d (inr quick) =
        ground (arith, quick (set_delivery winit channels queue channel events Rest A w (some d)))

    pub post-view :
        (fuel : ℕ) (e : Event api.Other) (s : Run api)
        → Passes (view s.world).handlers e
        → (s' : Run api) × (post api fuel e s ≡ some s')
          × (view s'.world ≡ view s.world)
          × (s'.output ≡ s.output)
          × (s'.filter.yielding ≡ s.filter.yielding)
    unfolding post set_world set_delivery view
    post-view fuel new_events s passes = (
      set_world api s (set_delivery winit channels queue channel events Rest A s.world none),
      refl,
      refl,
      refl,
      refl,
    )
    post-view fuel (other o) s passes = elim (passes s.world.reactor refl) [
      | inl nobody ↦ (
        set_world api s (set_delivery winit channels queue channel events Rest A s.world none),
        rw nobody refl,
        refl,
        refl,
        refl,
      )
      | inr (d, posted, done) ↦
          let w = set_delivery winit channels queue channel events Rest A s.world (some d) in
          let eq : api.poll_event parker_waker (api.post_event (other o) s.world) ≡ some (true, w) =
            ap
              (λ p.
                api.poll_event parker_waker
                  (set_delivery winit channels queue channel events Rest A s.world p))
              posted
            ∙ handler_done s.world d done in
          (set_world api s w, rw eq refl, refl, refl, refl)
    ]
