-- ===== src/Tasks/Events.antt =====
-- src/filter.rs, src/reactor.rs and src/window.rs together: one call of `handle_event`, for an event that no
-- handler takes.
use mathlib.Core.Path.{subst}
use async_winit.Prelude.{
  ℕ, suc, refl, ◌≡◌, ◌≤◌, ◌+◌, ◌⊎◌, inl, inr, Bool, true, false, none, some, Option-cases,
  Bool-cases, arith, ap, sym, ◌∙◌,
}
use async_winit.Sync.{QueueApi}
use async_winit.Sync.Channels.{ChannelApi, Safety}
use async_winit.Reactor.{TimerOp}
use async_winit.Reactor.Windows.{Delivery}
use async_winit.Window.Registration.{Winit}
use async_winit.Filter.{
  FilterApi, Filter, Event, new_events, other, Run, ReturnOrFinish, output, future_returned,
  ControlFlow, on_wakeup, post, result_of, control_flow, handle_event,
}
use async_winit.Filter.Steps.{once-yielding, stops, stops-unnotified, handle_event_lem}
use async_winit.Ops.Winit.{WinitWindows}
use async_winit.Ops.Request.{Answer, EventLoopOp}
use async_winit.Tasks.Host.{Outside, HostWorld, host}
use async_winit.Tasks.Live.{
  Routes, View, view, wakes_up, on_wakeup-view, post-view, Passes, ClockRuns, yields,
}
use async_winit.Tasks.Once.{IsLive, HasReturned}
use async_winit.Tasks.Polls.{Polled, poll_notified-IsLive}

module _ (winit : WinitWindows) (channels : ChannelApi (Answer winit)) (queue : QueueApi TimerOp)
    (channel : QueueApi (EventLoopOp winit)) (events : Winit) (Rest A : Type 0) (safety : Safety)
    (outside : Outside
      (HostWorld winit channels queue channel events Rest A)
      (Delivery events Rest))
    (clock_runs : ClockRuns winit channels queue channel events Rest A safety outside) where
  abbrev api' : FilterApi queue (EventLoopOp winit) channel
  api' = host winit channels queue channel events Rest A safety outside

  abbrev begin : Filter → HostWorld winit channels queue channel events Rest A → Run api'
  begin f w = record { filter = f; output = none; world = w }

  -- Up to where the task is polled, nothing that it depends on has changed.
  posted :
      (fuel : ℕ) (e : Event api'.Other) (f : Filter)
      (w : HostWorld winit channels queue channel events Rest A) (b : Bool)
      → (view winit channels queue channel events Rest A w).notified ≡ some b
      → Passes winit channels queue channel events Rest A safety outside
          (w.reactor.windows, w.env.used)
          e
      → (s1 s2 : Run api') × (on_wakeup api' e (begin f w) ≡ some s1)
        × (post api' fuel e s1 ≡ some s2)
        × (view winit channels queue channel events Rest A s2.world
            ≡ view winit channels queue channel events Rest A w)
        × (s2.output ≡ none)
        × (s2.filter.yielding
            ≡ yields winit channels queue channel events Rest A safety outside e f.yielding)
  unfolding view
  posted fuel e f w b known passes = elim (Option-cases (on_wakeup api' e (begin f w))) [
    | inl stuck ↦ absurd (
        wakes_up winit channels queue channel events Rest A safety outside e (begin f w) b
          clock_runs known stuck)
    | inr (s1, woken) ↦
        let (v1, o1, y1) =
          on_wakeup-view winit channels queue channel events Rest A safety outside e (begin f w) s1
            woken in
        let (s2, eq, v2, o2, y2) =
          post-view winit channels queue channel events Rest A safety outside fuel e s1 (
            subst (λ h. Passes winit channels queue channel events Rest A safety outside h e)
              (sym
                (ap (λ (v : View winit channels channel (Delivery events Rest) A). v.handlers) v1))
              passes) in
        (s1, s2, woken, eq, v2 ∙ v1, o2 ∙ o1, y2 ∙ y1)
  ]

  -- A wake-up lets the task be polled.
  abbrev pub ticks : Event api'.Other → ℕ
  ticks new_events = 1
  ticks (other o) = 0

  -- The task has returned with this event, or is to be polled so often still.
  abbrev pub Handled :
      Routes (Delivery events Rest)
      → A × winit.Env
      → ℕ
      → Event api'.Other
      → ReturnOrFinish (Unit {0}) A
      → Filter
      → HostWorld winit channels queue channel events Rest A
      → Type 0
  Handled handlers result n e o f w =
      ((o ≡ future_returned (result.0))
        × HasReturned winit channels queue channel events Rest A safety outside handlers (result.1)
            (view winit channels queue channel events Rest A w))
      ⊎ ((m : ℕ) × (m + ticks e ≤ n)
          × (o ≡ output tt)
          × IsLive winit channels queue channel events Rest A safety outside handlers result m
              (view winit channels queue channel events Rest A w))

  yields-ticks :
      (e : Event api'.Other) (b : Bool)
      → yields winit channels queue channel events Rest A safety outside e b ≡ true
      → ticks e ≡ 0
  yields-ticks new_events b y = ground arith
  yields-ticks (other o) b y = refl

  Polled-ticks :
      (handlers : Routes (Delivery events Rest)) (result : A × winit.Env) (n : ℕ)
      (e : Event api'.Other) (s : Run api')
      → Polled winit channels queue channel events Rest A safety outside handlers result n s
      → Handled handlers result n e (result_of api' s.output) s.filter s.world
  unfolding result_of
  Polled-ticks handlers result n e s (inl (out, done)) = inl (rw out refl, done)
  Polled-ticks handlers result n new_events s (inr (m, k, out, live)) =
      inr (m, omega (arith, k), rw out refl, live)
  Polled-ticks handlers result n (other x) s (inr (m, k, out, live)) =
      inr (m, omega (arith, k), rw out refl, live)

  pub event-IsLive :
      (fuel : ℕ) (handlers : Routes (Delivery events Rest)) (result : A × winit.Env) (n : ℕ)
      (e : Event api'.Other) (f : Filter) (w : HostWorld winit channels queue channel events Rest A)
      → IsLive winit channels queue channel events Rest A safety outside handlers result n
          (view winit channels queue channel events Rest A w)
      → Passes winit channels queue channel events Rest A safety outside handlers e
      → (o : ReturnOrFinish (Unit {0}) A) × (c : ControlFlow) × (f' : Filter) × (w' : HostWorld
          winit channels queue channel events Rest A)
        × (handle_event api' (suc (suc fuel)) e f w ≡ some (o, c, f', w'))
        × Handled handlers result n e o f' w'
  unfolding result_of view
  event-IsLive fuel handlers result n e f w live passes =
      let (s1, s2, woken, eq, v, o, y) = posted (suc (suc fuel)) e f w true live.notified (
        subst (λ h. Passes winit channels queue channel events Rest A safety outside h e)
          (sym live.kept) passes) in
      let live2 =
        subst (IsLive winit channels queue channel events Rest A safety outside handlers result n)
          (sym v) live in
      elim (Bool-cases s2.filter.yielding) [
        | inl waits ↦
            let eq3 = stops api' (suc fuel) s2 (once-yielding api' s2 waits) in
            (
              result_of api' s2.output,
              control_flow api' s2,
              s2.filter,
              s2.world,
              handle_event_lem api' (suc (suc fuel)) e f w s1 s2 s2 woken eq eq3,
              inr (n, omega (arith, yields-ticks e f.yielding (sym y ∙ waits)), rw o refl, live2),
            )
        | inr goes ↦
            let (s3, eq3, polled) =
              poll_notified-IsLive winit channels queue channel events Rest A safety outside fuel
                handlers result n s2 goes o live2 in
            (
              result_of api' s3.output,
              control_flow api' s3,
              s3.filter,
              s3.world,
              handle_event_lem api' (suc (suc fuel)) e f w s1 s2 s3 woken eq eq3,
              Polled-ticks handlers result n e s3 polled,
            )
      ]

  pub event-HasReturned :
      (fuel : ℕ) (handlers : Routes (Delivery events Rest)) (env : winit.Env) (e : Event api'.Other)
      (f : Filter) (w : HostWorld winit channels queue channel events Rest A)
      → HasReturned winit channels queue channel events Rest A safety outside handlers env
          (view winit channels queue channel events Rest A w)
      → Passes winit channels queue channel events Rest A safety outside handlers e
      → (c : ControlFlow) × (f' : Filter) × (w' : HostWorld winit channels queue channel events Rest
          A)
        × (handle_event api' (suc (suc fuel)) e f w ≡ some (output tt, c, f', w'))
        × HasReturned winit channels queue channel events Rest A safety outside handlers env
            (view winit channels queue channel events Rest A w')
  unfolding view result_of
  event-HasReturned fuel handlers env e f w done passes =
      let (s1, s2, woken, eq, v, o, y) = posted (suc (suc fuel)) e f w false done.notified (
        subst (λ h. Passes winit channels queue channel events Rest A safety outside h e)
          (sym done.kept) passes) in
      let done2 =
        subst (HasReturned winit channels queue channel events Rest A safety outside handlers env)
          (sym v) done in
      (
        control_flow api' s2,
        s2.filter,
        s2.world,
        handle_event_lem api' (suc (suc fuel)) e f w s1 s2 s2 woken eq
              (stops-unnotified api' (suc fuel) s2 done2.notified)
            ∙ rw o refl,
        done2,
      )
