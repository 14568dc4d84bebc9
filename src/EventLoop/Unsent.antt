-- ===== src/EventLoop/Unsent.antt =====
-- src/filter.rs, the flag `awake` of the notifier: what a notification of a loop that sleeps sends to winit.
use async_winit.Prelude.{
  ℕ, suc, ◌≡◌, refl, ◌∙◌, ap, true, false, some, List, [], ◌∷◌, map_option, arith,
}
use async_winit.Task.{Waker}
use async_winit.Notifier.{ReactorWaker, notify}
use async_winit.Sync.{QueueApi}
use async_winit.Reactor.{TimerOp, notify_proxy}
use async_winit.Filter.{FilterApi, Filter, World, Event, new_events, other}
use async_winit.EventLoop.{run_events}
use async_winit.EventLoop.Asleep.{AllPass, ReadsClock, IsAsleep, awakened, handle_event-IsAsleep}

module _ {queue : QueueApi TimerOp} {Op : Type 0} {channel : QueueApi Op}
    (api : FilterApi queue Op channel) {U : Type 0} (user : api.Env → U)
    (reads : ReadsClock api user) where
  awakened-awake :
      (e : Event api.Other) (n : ℕ)
      → awakened api user e (record { notified = false; awake = true; sent = n })
        ≡ record { notified = false; awake = true; sent = n }
  awakened-awake new_events n = refl
  awakened-awake (other o) n = refl

  run_events-awake :
      (fuel : ℕ) (es : List (Event api.Other)) (u : U) (kept : List Waker) (f : Filter)
      (w : World queue channel api.Env) (n : ℕ)
      → AllPass api user es
      → IsAsleep api user u kept f w
      → w.reactor.proxy ≡ some (record { notified = false; awake = true; sent = n })
      → (f' : Filter) × (w' : World queue channel api.Env) × (run_events api
            (suc fuel)
            (λ v. v)
            es
            f
            w
          ≡ some (f', w'))
        × IsAsleep api user u kept f' w'
        × (w'.reactor.proxy ≡ some (record { notified = false; awake = true; sent = n }))
  unfolding run_events
  run_events-awake fuel [] u kept f w n pass a q = (f, w, refl, a, q)
  run_events-awake fuel (e ∷ es) u kept f w n (p, pass) a q =
      let (c, f1, w1, eq, proxy, a1) = handle_event-IsAsleep api user reads fuel e u kept f w p a in
      let q1 = proxy ∙ ap (map_option (awakened api user e)) q ∙ ap some (awakened-awake e n) in
      let (f2, w2, eq2, a2, q2) = run_events-awake fuel es u kept f1 w1 n pass a1 q1 in
      (f2, w2, rw eq eq2, a2, q2)

  -- Where the reactor is sound, the clock does nothing else and never reads the last instant, no
  -- listener holds any of the events up, and the future is not notified: for any such events, of
  -- which the first is `NewEvents`, and any fuel but none, the loop returns and is asleep still; but
  -- its notifier is awake, so that a notification of the loop, as it waits for the next event, marks
  -- the notifier and sends winit nothing: the notifier has sent what it had sent before.
  pub run_events-unsent :
      (fuel : ℕ) (es : List (Event api.Other)) (u : U) (kept : List Waker) (f : Filter)
      (w : World queue channel api.Env) (p : ReactorWaker)
      → AllPass api user (new_events ∷ es)
      → IsAsleep api user u kept f w
      → w.reactor.proxy ≡ some p
      → (f' : Filter) × (w' : World queue channel api.Env) × (run_events api
            (suc fuel)
            (λ v. v)
            (new_events ∷ es)
            f
            w
          ≡ some (f', w'))
        × IsAsleep api user u kept f' w'
        × ((notify_proxy queue channel w'.reactor).proxy
            ≡ some (record { notified = true; awake = true; sent = p.sent }))
  unfolding run_events notify_proxy notify
  run_events-unsent fuel es u kept f w p (passes, pass) a q =
      let (c, f1, w1, eq, proxy, a1) =
        handle_event-IsAsleep api user reads fuel new_events u kept f w passes a in
      let quiet : p.notified ≡ false = ground (arith, a.quiet) in
      let q1 =
        proxy
        ∙ ap (map_option (awakened api user new_events)) q
        ∙ ap (λ b. some (record { notified = b; awake = true; sent = p.sent })) quiet in
      let (f2, w2, eq2, a2, q2) = run_events-awake fuel es u kept f1 w1 p.sent pass a1 q1 in
      (f2, w2, rw eq eq2, a2, rw q2 refl)
