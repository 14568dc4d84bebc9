-- ===== src/Filter/Sleep.antt =====
-- src/filter.rs, `handle_event`: what becomes of the wakers.
use async_winit.Prelude.{
  ℕ, zero, suc, ◌≡◌, Bool, true, none, some, refl, Option-cases, inl, inr, arith,
}
use async_winit.Sync.{QueueApi}
use async_winit.Reactor.{TimerOp}
use async_winit.Filter.{
  Filter, FilterApi, Event, new_events, other, ControlFlow, ReturnOrFinish, World, Run, set_world,
  change_notifier, poll_wrapped, after_pending, drain_queue, poll_once, poll_notified,
  about_to_sleep, on_wakeup, post, before_sleep, handle_event, parker_waker,
}

module _ {queue : QueueApi TimerOp} {Op : Type 0} {channel : QueueApi Op}
    (api : FilterApi queue Op channel) where
  poll_once-wakers :
      (s : Run api) (b : Bool) (t : Run api)
      → poll_once api s ≡ some (b, t)
      → t.filter.wakers ≡ s.filter.wakers
  unfolding poll_once change_notifier poll_wrapped after_pending drain_queue
  poll_once-wakers s b t e = ground arith

  poll_notified-wakers :
      (fuel : ℕ) (s t : Run api)
      → poll_notified api fuel s ≡ some t
      → t.filter.wakers ≡ s.filter.wakers
  unfolding poll_notified
  poll_notified-wakers zero s t e = cc
  poll_notified-wakers (suc fuel) s t e = elim (Option-cases (poll_once api s)) [
    | inl stuck ↦ absurd (ground arith)
    | inr ((b, u), eq) ↦ ground (arith, poll_once-wakers s b u eq, poll_notified-wakers fuel u t)
  ]

  post-wakers :
      (fuel : ℕ) (e : Event api.Other) (s t : Run api) (v : World queue channel api.Env)
      → api.poll_event parker_waker (api.post_event e s.world) ≡ some (true, v)
      → post api fuel e s ≡ some t
      → t.filter.wakers ≡ s.filter.wakers
  unfolding post set_world
  post-wakers fuel e s t v quick eq = ground arith

  pub no_sleep :
      (e : Event api.Other) (s : Run api) → before_sleep api (about_to_sleep api e) s ≡ some s
  unfolding before_sleep about_to_sleep
  no_sleep new_events s = refl
  no_sleep (other e) s = refl

  -- Where the event's listeners let it pass at once and `handle_event` returns, no waker of the
  -- filter is woken: those that were there once the wake-up was handled are all still there.
  pub handle_event-wakers :
      (fuel : ℕ) (e : Event api.Other) (f f' : Filter) (w w' : World queue channel api.Env)
      (s : Run api) (v : World queue channel api.Env) (o : ReturnOrFinish (Unit {0}) api.Out)
      (c : ControlFlow)
      → on_wakeup api e (record { filter = f; output = none; world = w }) ≡ some s
      → api.poll_event parker_waker (api.post_event e s.world) ≡ some (true, v)
      → handle_event api fuel e f w ≡ some (o, c, f', w')
      → f'.wakers ≡ s.filter.wakers
  unfolding handle_event
  handle_event-wakers fuel e f f' w w' s v o c woke quick eq =
      elim (Option-cases (post api fuel e s)) [
        | inl stuck ↦ absurd (ground arith)
        | inr (t, eq1) ↦ elim (Option-cases (poll_notified api fuel t)) [
          | inl stuck ↦ absurd (ground arith)
          | inr (u, eq2) ↦ ground (
            arith,
            no_sleep e u,
            post-wakers fuel e s t v quick eq1,
            poll_notified-wakers fuel t u eq2,
          )
        ]
      ]
