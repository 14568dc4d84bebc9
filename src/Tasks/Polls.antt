-- ===== src/Tasks/Polls.antt =====
-- src/filter.rs, src/reactor.rs and src/window.rs together: the loop of `handle_event` that polls the
-- task while it is notified.
use mathlib.Core.Path.{subst}
use async_winit.Prelude.{
  ℕ, suc, ◌≡◌, refl, ◌∙◌, sym, ap, ◌⊎◌, inl, inr, true, false, none, some, map_option, Option-cases,
  arith,
}
use async_winit.Notifier.{ReactorWaker}
use async_winit.Sync.{QueueApi}
use async_winit.Sync.Channels.{ChannelApi, Safety}
use async_winit.Reactor.{TimerOp}
use async_winit.Reactor.Windows.{Delivery}
use async_winit.Window.Registration.{Winit}
use async_winit.Filter.{Run, poll_notified}
use async_winit.Filter.Steps.{once-unnotified, once-yielding, twice}
use async_winit.Ops.Winit.{WinitWindows}
use async_winit.Ops.Request.{Answer, EventLoopOp}
use async_winit.Window.Methods.Calls.{direct}
use async_winit.Tasks
use async_winit.Tasks.{Task, finish, await, Progress, direct_run, awaits, resume}
use async_winit.Tasks.Host.{Outside, HostWorld}
use async_winit.Tasks.Live.{Routes, view}
use async_winit.Tasks.Once.{api, IsLive, HasReturned, seen, polled_world, once-finish, once-await}
use async_winit.Tasks.Steps.{Vacant, poll-Left}

module _ (winit : WinitWindows) (channels : ChannelApi (Answer winit)) (queue : QueueApi TimerOp)
    (channel : QueueApi (EventLoopOp winit)) (events : Winit) (Rest A : Type 0) (safety : Safety)
    (outside : Outside
      (HostWorld winit channels queue channel events Rest A)
      (Delivery events Rest)) where
  -- Behind the loop: the task has returned, or awaits one method less.
  abbrev pub Polled :
      Routes (Delivery events Rest)
      → A × winit.Env
      → ℕ
      → Run (api winit channels queue channel events Rest A safety outside)
      → Type 0
  Polled handlers result n s =
      ((s.output ≡ some (result.0))
        × HasReturned winit channels queue channel events Rest A safety outside handlers (result.1)
            (seen winit channels queue channel events Rest A safety outside s))
      ⊎ ((m : ℕ) × (n ≡ suc m)
          × (s.output ≡ none)
          × IsLive winit channels queue channel events Rest A safety outside handlers result m
              (seen winit channels queue channel events Rest A safety outside s))

  -- The loop, for a task with so much left.
  polls :
      (t : Task winit A) (fuel : ℕ)
      (s : Run (api winit channels queue channel events Rest A safety outside)) (p : ReactorWaker)
      (store : channels.Store) (result : A × winit.Env) (n : ℕ)
      → s.filter.yielding ≡ false
      → s.output ≡ none
      → s.world.reactor.proxy ≡ some p
      → p.notified ≡ true
      → Tasks.poll winit channels queue channel s.world.env.task (
          polled_world winit channels queue channel events Rest A safety outside s p
            s.world.env.store)
        ≡ some (
            resume winit channels queue channel t
              (polled_world winit channels queue channel events Rest A safety outside s p store))
      → Vacant channel s.world.reactor.evl_ops
      → direct_run winit t s.world.env.windows ≡ result
      → awaits winit t s.world.env.windows ≡ n
      → (s' : Run (api winit channels queue channel events Rest A safety outside)) × (poll_notified
            (api winit channels queue channel events Rest A safety outside)
            (suc (suc fuel))
            s
          ≡ some s')
        × Polled (s.world.reactor.windows, s.world.env.used) result n s'
  unfolding view direct_run awaits
  polls (finish a) fuel s p store result n y o proxy notified polled vacant r k =
      let (s', eq, y', out, quiet, kept, windows) =
        once-finish winit channels queue channel events Rest A safety outside s p a store y o proxy
          notified polled in
      (
        s',
        twice (api winit channels queue channel events Rest A safety outside) fuel s s' eq (
            once-unnotified (api winit channels queue channel events Rest A safety outside) s'
              (record p { notified = false }) y' quiet refl),
        inl (
          out ∙ ap (λ (x : A × winit.Env). some (x.0)) r,
          record {
            notified = ap (map_option (λ (q : ReactorWaker). q.notified)) quiet;
            kept = kept;
            windows = windows ∙ ap (λ (x : A × winit.Env). x.1) r;
          },
        ),
      )
  polls (await c next) fuel s p store result n y o proxy notified polled vacant r k =
      let m =
        awaits winit (next (direct winit c s.world.env.windows).0)
          (direct winit c s.world.env.windows).1 in
      let (s', eq, y', out, live) =
        once-await winit channels queue channel events Rest A safety outside s p c next store result
          m y o proxy notified polled vacant r refl in
      (
        s',
        twice (api winit channels queue channel events Rest A safety outside) fuel s s' eq
            (once-yielding (api winit channels queue channel events Rest A safety outside) s' y'),
        inr (m, sym k, out, live),
      )

  pub poll_notified-IsLive :
      (fuel : ℕ) (handlers : Routes (Delivery events Rest)) (result : A × winit.Env) (n : ℕ)
      (s : Run (api winit channels queue channel events Rest A safety outside))
      → s.filter.yielding ≡ false
      → s.output ≡ none
      → IsLive winit channels queue channel events Rest A safety outside handlers result n
          (seen winit channels queue channel events Rest A safety outside s)
      → (s' : Run (api winit channels queue channel events Rest A safety outside)) × (poll_notified
            (api winit channels queue channel events Rest A safety outside)
            (suc (suc fuel))
            s
          ≡ some s')
        × Polled handlers result n s'
  unfolding view
  poll_notified-IsLive fuel handlers result n s y o live =
      elim (Option-cases s.world.reactor.proxy) [
        | inl missing ↦ absurd (ground (arith, live.notified))
        | inr (p, proxy) ↦
            let (store, polled) =
              poll-Left channels queue channel live.task s.world.env.task
                (polled_world winit channels queue channel events Rest A safety outside s p
                  s.world.env.store)
                live.left in
            let (s', eq, done) =
              polls live.task fuel s p store result n y o proxy (ground (arith, live.notified))
                polled live.vacant live.returns live.counts in
            (s', eq, subst (λ h. Polled h result n s') live.kept done)
      ]
