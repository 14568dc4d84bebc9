-- ===== src/EventLoop/Repolls.antt =====
-- src/filter.rs with src/event_loop.rs: a future that asks for the exit of the loop and returns.
use async_winit.Prelude.{
  ℕ, zero, suc, ◌≡◌, refl, Bool, true, false, Option, none, some, arith, Option-cases, inl, inr,
  map_option,
}
use async_winit.Sync.{QueueApi}
use async_winit.Notifier.{ReactorWaker, notify}
use async_winit.Reactor.{TimerOp, request_exit, notify_proxy}
use async_winit.Filter.{
  FilterApi, Filter, World, Event, Run, notifier_waker, parker_waker, change_notifier, set_world,
  set_filter, round_of_timers, new_events, other, poll_wrapped, poll_once, poll_notified, on_wakeup,
  post, handle_event,
}
use async_winit.EventLoop.{set_exit_with_code}

module _ {queue : QueueApi TimerOp} {Op : Type 0} {channel : QueueApi Op}
    (api : FilterApi queue Op channel) where
  abbrev notified : World queue channel api.Env → Option Bool
  notified w = map_option (λ (p : ReactorWaker). p.notified) w.reactor.proxy

  set_exit-notified :
      (code : ℕ) (w : World queue channel api.Env) (b : Bool)
      → notified w ≡ some b
      → notified (record w { reactor = set_exit_with_code queue channel code w.reactor })
        ≡ some true
  unfolding set_exit_with_code request_exit notify_proxy notify
  set_exit-notified code w b e = ground arith

  -- What has returned and is notified is polled again, which is a panic.
  returned_again :
      (s : Run api) (out : api.Out)
      → s.output ≡ some out
      → s.filter.yielding ≡ false
      → notified s.world ≡ some true
      → poll_once api s ≡ none
  unfolding poll_once change_notifier set_world poll_wrapped
  returned_again s out o y n = ground arith

  once_again :
      (fuel : ℕ) (s t : Run api)
      → poll_once api s ≡ some (true, t)
      → poll_once api t ≡ none
      → poll_notified api fuel s ≡ none
  unfolding poll_notified
  once_again zero s t e e' = refl
  once_again (suc zero) s t e e' = ground arith
  once_again (suc (suc fuel)) s t e e' = ground arith

  abbrev pub SetsExit : ℕ → api.Out → Type 0
  SetsExit code out =
      (k : _) (w : World queue channel api.Env)
      → api.poll_future k w
        ≡ some (some out, record w { reactor = set_exit_with_code queue channel code w.reactor })

  poll_once-set_exit :
      (code : ℕ) (out : api.Out) (s : Run api)
      → SetsExit code out
      → s.output ≡ none
      → s.filter.yielding ≡ false
      → notified s.world ≡ some true
      → (t : Run api) × (poll_once api s ≡ some (true, t))
        × (t.output ≡ some out)
        × (poll_once api t ≡ none)
  unfolding poll_once change_notifier set_world poll_wrapped
  poll_once-set_exit code out s sets o y n = elim (Option-cases s.world.reactor.proxy) [
    | inl missing ↦ absurd (ground arith)
    | inr (p, proxy) ↦
        let w = record (s.world) {
          reactor = record (s.world.reactor) { proxy = some (record p { notified = false }) };
        } in
        let w' = record w { reactor = set_exit_with_code queue channel code w.reactor } in
        let t = record s { output = some out; world = w' } in
        (
          t,
          ground (arith, sets notifier_waker w),
          refl,
          returned_again t out refl y (set_exit-notified code w false (ground arith)),
        )
  ]

  on_wakeup-output :
      (e : Event api.Other) (s t : Run api) → on_wakeup api e s ≡ some t → t.output ≡ s.output
  unfolding on_wakeup change_notifier set_filter set_world round_of_timers
  on_wakeup-output new_events s t e = ground arith
  on_wakeup-output (other o) s t e = ground arith

  -- Where the future asks for the exit and returns, the event passes at once, and the future is
  -- notified and does not yield: the loop of `handle_event` polls the future, which returns, and
  -- goes round once more, since the request has notified it. This round, which has no fuel, has no
  -- result: it polls a future that has returned, which is a panic. So `handle_event` has none
  -- either.
  pub handle_event-set_exit :
      (fuel code : ℕ) (out : api.Out) (e : Event api.Other) (f : Filter)
      (w v : World queue channel api.Env) (s : Run api)
      → SetsExit code out
      → on_wakeup api e (record { filter = f; output = none; world = w }) ≡ some s
      → s.filter.yielding ≡ false
      → api.poll_event parker_waker (api.post_event e s.world) ≡ some (true, v)
      → notified v ≡ some true
      → (s1 s2 : Run api) × (post api fuel e s ≡ some s1)
        × (poll_once api s1 ≡ some (true, s2))
        × (s2.output ≡ some out)
        × (poll_once api s2 ≡ none)
        × (handle_event api fuel e f w ≡ none)
  unfolding handle_event post set_world
  handle_event-set_exit fuel code out e f w v s sets woken y passes n =
      let o = on_wakeup-output e _ s woken in
      let s1 = set_world api s v in
      let (s2, eq, returned, panics) = poll_once-set_exit code out s1 sets o y n in
      let stuck = once_again fuel s1 s2 eq panics in
      (s1, s2, ground arith, eq, returned, panics, ground arith)
