-- ===== src/Tasks/Returns.antt =====
-- src/platform/run_return.rs with src/filter.rs, src/reactor.rs and src/window.rs: what a task that awaits
-- methods of windows comes to.
use async_winit.Prelude.{ℕ, suc, ◌+◌, ◌≡◌, ◌<◌, none, some, List, [], ◌∷◌, inl, inr, arith, refl}
use async_winit.Sync.{QueueApi}
use async_winit.Sync.Channels.{ChannelApi, Safety}
use async_winit.Reactor.{TimerOp, set_proxy}
use async_winit.Reactor.Windows.{Delivery}
use async_winit.Window.Registration.{Winit}
use async_winit.Filter
use async_winit.Filter.{
  FilterApi, Filter, Event, new_events, other, future_returned, output, handle_event,
}
use async_winit.Platform.RunReturn.{demand_events, block_on_demand, keep_output}
use async_winit.Ops.Winit.{WinitWindows}
use async_winit.Ops.Request.{Answer, EventLoopOp}
use async_winit.Tasks.{Task, running, direct_run, awaits}
use async_winit.Tasks.Host.{Outside, HostWorld, host}
use async_winit.Tasks.Live.{Routes, view, Passes, ClockRuns}
use async_winit.Tasks.Steps.{Vacant}
use async_winit.Tasks.Once.{IsLive, HasReturned}
use async_winit.Tasks.Events.{ticks, event-IsLive, event-HasReturned}

module _ (winit : WinitWindows) (channels : ChannelApi (Answer winit)) (queue : QueueApi TimerOp)
    (channel : QueueApi (EventLoopOp winit)) (events : Winit) (Rest A : Type 0) (safety : Safety)
    (outside : Outside
      (HostWorld winit channels queue channel events Rest A)
      (Delivery events Rest))
    (clock_runs : ClockRuns winit channels queue channel events Rest A safety outside) where
  abbrev api : FilterApi queue (EventLoopOp winit) channel
  api = host winit channels queue channel events Rest A safety outside

  abbrev pub AllPass : Routes (Delivery events Rest) → List (Event api.Other) → Type 0
  AllPass handlers [] = Unit {0}
  AllPass handlers (e ∷ es) =
      Passes winit channels queue channel events Rest A safety outside handlers e
      × AllPass handlers es

  -- How many of the events are `NewEvents`.
  abbrev pub wakeups : List (Event api.Other) → ℕ
  wakeups [] = 0
  wakeups (e ∷ es) =
      ticks winit channels queue channel events Rest A safety outside clock_runs e + wakeups es

  returned-demand :
      (fuel : ℕ) (handlers : Routes (Delivery events Rest)) (env : winit.Env) (a : A)
      (es : List (Event api.Other)) (f : Filter)
      (w : HostWorld winit channels queue channel events Rest A)
      → HasReturned winit channels queue channel events Rest A safety outside handlers env
          (view winit channels queue channel events Rest A w)
      → AllPass handlers es
      → (f' : Filter) × (w' : HostWorld winit channels queue channel events Rest A) × (demand_events
            api
            (suc (suc fuel))
            es
            (some a)
            f
            w
          ≡ some (some a, f', w'))
        × (w'.env.windows ≡ env)
  unfolding demand_events keep_output view
  returned-demand fuel handlers env a [] f w done pass = (f, w, refl, done.windows)
  returned-demand fuel handlers env a (e ∷ es) f w done (p, pass) =
      let (c, f1, w1, eq, done1) =
        event-HasReturned winit channels queue channel events Rest A safety outside clock_runs fuel
          handlers env e f w done p in
      let (f2, w2, eq2, same) = returned-demand fuel handlers env a es f1 w1 done1 pass in
      (f2, w2, rw eq eq2, same)

  live-demand :
      (fuel : ℕ) (handlers : Routes (Delivery events Rest)) (result : A × winit.Env) (n : ℕ)
      (es : List (Event api.Other)) (f : Filter)
      (w : HostWorld winit channels queue channel events Rest A)
      → IsLive winit channels queue channel events Rest A safety outside handlers result n
          (view winit channels queue channel events Rest A w)
      → AllPass handlers es
      → n < wakeups es
      → (f' : Filter) × (w' : HostWorld winit channels queue channel events Rest A) × (demand_events
            api
            (suc (suc fuel))
            es
            none
            f
            w
          ≡ some (some (result.0), f', w'))
        × (w'.env.windows ≡ result.1)
  unfolding demand_events keep_output
  live-demand fuel handlers result n [] f w live pass h = absurd (omega (arith, h))
  live-demand fuel handlers result n (e ∷ es) f w live (p, pass) h =
      let (o, c, f1, w1, eq, handled) =
        event-IsLive winit channels queue channel events Rest A safety outside clock_runs fuel
          handlers result n e f w live p in
      elim handled [
        | inl (out, done) ↦
            let (f2, w2, eq2, same) =
              returned-demand fuel handlers (result.1) (result.0) es f1 w1 done pass in
            (f2, w2, rw eq (rw out eq2), same)
        | inr (m, less, out, live1) ↦
            let (f2, w2, eq2, same) =
              live-demand fuel handlers result m es f1 w1 live1 pass (omega (arith, h, less)) in
            (f2, w2, rw eq (rw out eq2), same)
      ]

  -- Where no notifier was there before, the queue of operations is empty and has room, the clock
  -- never reads the last instant, and each event is for no handler, for one that was not used, or
  -- for one that is done with it at once: a future that awaits methods of windows, one behind the
  -- other, is run by `block_on_demand`, for more `NewEvents` than it awaits methods; a fuel of two
  -- is enough, and it returns what the future returned, which is what it returns where each method
  -- is winit's own and returns at once; the window system, too, is as it is there.
  pub block_on_demand-direct_run :
      {Exit : Type 0} (fuel : ℕ) (es : List (Event api.Other)) (exit : Exit) (t : Task winit A)
      (w : HostWorld winit channels queue channel events Rest A)
      → w.reactor.proxy ≡ none
      → Vacant channel w.reactor.evl_ops
      → w.env.task ≡ running t
      → AllPass (w.reactor.windows, w.env.used) es
      → awaits winit t w.env.windows < wakeups es
      → (w' : HostWorld winit channels queue channel events Rest A) × (block_on_demand api
            (suc (suc fuel))
            es
            exit
            w
          ≡ some (future_returned (direct_run winit t w.env.windows).0, w'))
        × (w'.env.windows ≡ (direct_run winit t w.env.windows).1)
  unfolding block_on_demand Filter.new set_proxy view
  block_on_demand-direct_run fuel es exit t w fresh vacant starts pass h =
      let (f0, r0) = Filter.new api w.reactor in
      let (f', w', eq, same) =
        live-demand fuel (w.reactor.windows, w.env.used) (direct_run winit t w.env.windows)
          (awaits winit t w.env.windows) es f0 (record w { reactor = r0 })
          (record {
            task = t;
            notified = rw fresh refl;
            kept = rw fresh refl;
            vacant = rw fresh vacant;
            left = rw starts refl;
            returns = refl;
            counts = refl;
          })
          pass h in
      (w', rw eq refl, same)
