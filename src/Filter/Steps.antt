-- ===== src/Filter/Steps.antt =====
-- src/filter.rs: where the loop of `handle_event` that polls the future stops.
use async_winit.Prelude.{
  ℕ, suc, ◌≡◌, refl, true, false, none, some, arith, map_option, Option-cases, Bool-cases, inl, inr,
}
use async_winit.Notifier.{ReactorWaker}
use async_winit.Sync.{QueueApi}
use async_winit.Reactor.{TimerOp}
use async_winit.Filter.{
  FilterApi, Filter, World, Event, Run, change_notifier, set_world, poll_once, poll_notified,
  on_wakeup, post, result_of, control_flow, handle_event,
}
use async_winit.Filter.Sleep.{no_sleep}

module _ {queue : QueueApi TimerOp} {Op : Type 0} {channel : QueueApi Op}
    (api : FilterApi queue Op channel) where
  pub once-unnotified :
      (s : Run api) (p : ReactorWaker)
      → s.filter.yielding ≡ false
      → s.world.reactor.proxy ≡ some p
      → p.notified ≡ false
      → poll_once api s ≡ some (false, s)
  unfolding poll_once change_notifier set_world
  once-unnotified s p y proxy quiet = ground arith

  pub once-yielding : (s : Run api) → s.filter.yielding ≡ true → poll_once api s ≡ some (false, s)
  unfolding poll_once
  once-yielding s y = ground arith

  pub stops :
      (fuel : ℕ) (s : Run api)
      → poll_once api s ≡ some (false, s)
      → poll_notified api (suc fuel) s ≡ some s
  unfolding poll_notified
  stops fuel s e = ground arith

  pub twice :
      (fuel : ℕ) (s s' : Run api)
      → poll_once api s ≡ some (true, s')
      → poll_once api s' ≡ some (false, s')
      → poll_notified api (suc (suc fuel)) s ≡ some s'
  unfolding poll_notified
  twice fuel s s' e e' = ground arith

  pub handle_event_lem :
      (fuel : ℕ) (e : Event api.Other) (f : Filter) (w : World queue channel api.Env)
      (s1 s2 s3 : Run api)
      → on_wakeup api e (record { filter = f; output = none; world = w }) ≡ some s1
      → post api fuel e s1 ≡ some s2
      → poll_notified api fuel s2 ≡ some s3
      → handle_event api fuel e f w
        ≡ some (result_of api s3.output, control_flow api s3, s3.filter, s3.world)
  unfolding handle_event
  handle_event_lem fuel e f w s1 s2 s3 a b c = rw (a, b, c, no_sleep api e s3) refl

  -- A future that is not notified is not polled.
  pub stops-unnotified :
      (fuel : ℕ) (s : Run api)
      → map_option (λ (p : ReactorWaker). p.notified) s.world.reactor.proxy ≡ some false
      → poll_notified api (suc fuel) s ≡ some s
  stops-unnotified fuel s quiet = stops fuel s (elim (Bool-cases s.filter.yielding) [
    | inl waits ↦ once-yielding s waits
    | inr goes ↦ elim (Option-cases s.world.reactor.proxy) [
      | inl missing ↦ absurd (ground (arith, quiet))
      | inr (p, proxy) ↦ once-unnotified s p goes proxy (ground (arith, quiet))
    ]
  ])
