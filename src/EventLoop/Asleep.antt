-- ===== src/EventLoop/Asleep.antt =====
-- src/event_loop.rs with src/filter.rs and src/reactor.rs: a loop whose future is not notified.
use async_winit.Prelude.{
  ℕ, suc, ◌+◌, ◌≤◌, ◌≡◌, refl, ◌∙◌, sym, ap, true, false, Option, none, some, List, [], ◌∷◌, ◌++◌,
  append_assoc, map, map_option, length, Option-cases, inl, inr, arith,
}
use mathlib.Core.Path.{subst}
use mathlib.Core.List.{map-append}
use async_winit.Task.{Waker}
use async_winit.Notifier.{ReactorWaker}
use async_winit.Sync.{QueueApi}
use async_winit.Wheel.{Entry, Wheel}
use async_winit.Reactor.{TimerOp, Reactor, process_timers, process_timer_ops}
use async_winit.Reactor.Timers.{apply_ops, IsSound, settled, process_timer_ops-settled}
use async_winit.Reactor.Rounds.{process_timers-Round}
use async_winit.Filter.{
  FilterApi, Filter, World, Event, new_events, other, Run, parker_waker, set_filter, set_world,
  change_notifier, round_of_timers, on_wakeup, post, handle_event, output, result_of, control_flow,
  ControlFlow,
}
use async_winit.Filter.Steps.{stops-unnotified, handle_event_lem}
use async_winit.EventLoop.{run_events}

map_option-id : {A : Type 0} → (o : Option A) → map_option (λ x. x) o ≡ o
map_option-id none = refl
map_option-id (some a) = refl

-- The wakers of the timers of a wheel.
abbrev pub wakers_of : Wheel → List Waker
wakers_of es = map (λ (e : Entry). e.waker) es

module _ (queue : QueueApi TimerOp) {Op : Type 0} (channel : QueueApi Op) where
  process_timers-kept :
      (max_instant : ℕ) (r t : Reactor queue channel) (now : ℕ) (wakers : List ℕ) (ws : List ℕ)
      (d : _)
      → process_timers queue channel max_instant r now wakers ≡ some (t, ws, d)
      → (t.proxy ≡ r.proxy)
        × (t.timer_op_queue ≡ (process_timer_ops queue channel r).timer_op_queue)
  unfolding process_timers process_timer_ops
  process_timers-kept max_instant r t now wakers ws d e = ground arith

  -- A round leaves the reactor sound.
  process_timers-IsSound :
      (max_instant : ℕ) (r : Reactor queue channel) (now : ℕ) (wakers : List ℕ)
      → IsSound queue channel 0 r
      → now + 1 ≤ max_instant
      → (t : Reactor queue channel) × (ws : List ℕ) × (d : _) × (process_timers queue channel
            max_instant r now wakers
          ≡ some (t, ws, d))
        × IsSound queue channel 0 t
        × (t.proxy ≡ r.proxy)
        × (ws ++ wakers_of (settled queue channel t)
            ≡ wakers ++ wakers_of (settled queue channel r))
  process_timers-IsSound max_instant r now wakers sound fits =
      let (t, ws, d, eq, empty, _, round) =
        process_timers-Round queue channel 0 max_instant r now wakers sound fits in
      let (q, eq', _, cap) = process_timer_ops-settled queue channel 0 r sound in
      let (proxy, kept) = process_timers-kept max_instant r t now wakers ws d eq in
      let same : queue.capacity t.timer_op_queue ≡ queue.capacity r.timer_op_queue =
        ap queue.capacity (kept ∙ ap (λ x. x.timer_op_queue) eq') ∙ cap in
      (
        t,
        ws,
        d,
        eq,
        record {
          is_sorted = round.is_sorted;
          within = omega (arith, ap length empty);
          some_room = omega (arith, same, sound.some_room);
          spare = inr (omega (arith, ap length empty));
        },
        proxy,
        ap (λ ops. ws ++ wakers_of (apply_ops ops t.timers)) empty
            ∙ ap (λ x. x ++ wakers_of t.timers) round.wakes
            ∙ append_assoc wakers (wakers_of round.ready) (wakers_of t.timers)
            ∙ ap (λ x. wakers ++ x)
                (sym (map-append (λ (e : Entry). e.waker) round.ready t.timers)
                  ∙ sym (ap wakers_of round.parts)),
      )

module _ {queue : QueueApi TimerOp} {Op : Type 0} {channel : QueueApi Op}
    (api : FilterApi queue Op channel) {U : Type 0} (user : api.Env → U) where
  -- What the user's part of a world is, and the reactor, are the same.
  abbrev Same : World queue channel api.Env → World queue channel api.Env → Type 0
  Same w w' = (w'.reactor ≡ w.reactor) × (user w'.env ≡ user w.env)

  -- No listener holds the event up.
  abbrev pub Passes : Event api.Other → Type 0
  Passes e =
      (w : World queue channel api.Env)
      → (v : World queue channel api.Env) × (api.poll_event parker_waker (api.post_event e w)
          ≡ some (true, v))
        × Same w v

  abbrev pub AllPass : List (Event api.Other) → Type 0
  AllPass [] = Unit {0}
  AllPass (e ∷ es) = Passes e × AllPass es

  -- The clock does nothing else, and never reads the last instant.
  abbrev pub ReadsClock : Type 0
  ReadsClock =
      (w : World queue channel api.Env)
      → ((api.read_clock w).0 + 1 ≤ api.max_instant) × Same w (api.read_clock w).1

  -- The future is not notified. `kept` are the wakers of the filter and of the timers.
  pub record IsAsleep (u : U) (kept : List Waker) (f : Filter) (w : World queue channel api.Env)
      : Type 0 where
    pub quiet : map_option (λ (p : ReactorWaker). p.notified) w.reactor.proxy ≡ some false
    pub sound : IsSound queue channel 0 w.reactor
    pub same_user : user w.env ≡ u
    pub wakers : f.wakers ++ wakers_of (settled queue channel w.reactor) ≡ kept

  -- What an event makes of the notifier.
  abbrev pub awakened : Event api.Other → ReactorWaker → ReactorWaker
  awakened new_events p = record p { awake = true }
  awakened (other o) p = p

  module _ (reads : ReadsClock) where
    on_wakeup-IsAsleep :
        (e : Event api.Other) (u : U) (kept : List Waker) (f : Filter)
        (w : World queue channel api.Env)
        → IsAsleep u kept f w
        → (s : Run api) × (on_wakeup api e (record { filter = f; output = none; world = w })
            ≡ some s)
          × (s.output ≡ none)
          × (s.world.reactor.proxy ≡ map_option (awakened e) w.reactor.proxy)
          × IsAsleep u kept s.filter s.world
    unfolding on_wakeup change_notifier set_filter set_world round_of_timers
    on_wakeup-IsAsleep (other o) u kept f w a =
        (_, refl, refl, sym (map_option-id w.reactor.proxy), a)
    on_wakeup-IsAsleep new_events u kept f w a = elim (Option-cases w.reactor.proxy) [
      | inl missing ↦ absurd (ground (arith, a.quiet))
      | inr (p, proxy) ↦
          let w1 = record w {
            reactor = record (w.reactor) { proxy = some (record p { awake = true }) };
          } in
          let (fits, same) = reads w1 in
          let (now, w2) = api.read_clock w1 in
          let (t, ws, d, eq, sound, kept_proxy, conserved) =
            process_timers-IsSound queue channel api.max_instant w2.reactor now f.wakers
              (subst (IsSound queue channel 0) (sym (same.0)) (record {
                is_sorted = a.sound.is_sorted;
                within = a.sound.within;
                some_room = a.sound.some_room;
                spare = a.sound.spare;
              }))
              fits in
          (
            record {
              filter = record { deadline = d; wakers = ws; yielding = false };
              output = none;
              world = record w2 { reactor = t };
            },
            rw (proxy, eq) refl,
            refl,
            kept_proxy
                ∙ ap (λ r. r.proxy) (same.0)
                ∙ sym (ap (map_option (awakened new_events)) proxy),
            record {
              quiet =
                  ap (map_option (λ (q : ReactorWaker). q.notified))
                    (kept_proxy ∙ ap (λ r. r.proxy) (same.0))
                  ∙ (ground (arith, a.quiet));
              sound = sound;
              same_user = same.1 ∙ a.same_user;
              wakers =
                  conserved
                  ∙ ap (λ r. f.wakers ++ wakers_of (settled queue channel r)) (same.0)
                  ∙ a.wakers;
            },
          )
    ]

    pub handle_event-IsAsleep :
        (fuel : ℕ) (e : Event api.Other) (u : U) (kept : List Waker) (f : Filter)
        (w : World queue channel api.Env)
        → Passes e
        → IsAsleep u kept f w
        → (c : ControlFlow) × (f' : Filter) × (w' : World queue channel api.Env) × (handle_event api
              (suc fuel)
              e
              f
              w
            ≡ some (output tt, c, f', w'))
          × (w'.reactor.proxy ≡ map_option (awakened e) w.reactor.proxy)
          × IsAsleep u kept f' w'
    unfolding post set_world result_of
    handle_event-IsAsleep fuel e u kept f w passes a =
        let (s, woken, out, proxy, b) = on_wakeup-IsAsleep e u kept f w a in
        let (v, eq, same) = passes s.world in
        let s' = record s { world = v } in
        let b' : IsAsleep u kept s'.filter s'.world = record {
          quiet =
              ap (λ r. map_option (λ (p : ReactorWaker). p.notified) r.proxy) (same.0) ∙ b.quiet;
          sound = subst (IsSound queue channel 0) (sym (same.0)) b.sound;
          same_user = same.1 ∙ b.same_user;
          wakers =
              ap (λ r. s.filter.wakers ++ wakers_of (settled queue channel r)) (same.0) ∙ b.wakers;
        } in
        (
          control_flow api s',
          s'.filter,
          v,
          handle_event_lem api (suc fuel) e f w s s' s' woken (rw eq refl)
                (stops-unnotified api fuel s' b'.quiet)
              ∙ rw out refl,
          ap (λ r. r.proxy) (same.0) ∙ proxy,
          b',
        )

    -- Where the reactor is sound, the clock does nothing else and never reads the last instant, no
    -- listener holds any of the events up, and the future is not notified: for any such events and any
    -- fuel but none, the loop returns with the future not notified still, and with the part of the
    -- world that neither the clock nor the posting of events changes as it was; the wakers that the
    -- filter keeps and those of the timers are together the same, in their order, whichever timers
    -- came due.
    pub run_events-IsAsleep :
        (fuel : ℕ) (es : List (Event api.Other)) (u : U) (kept : List Waker) (f : Filter)
        (w : World queue channel api.Env)
        → AllPass es
        → IsAsleep u kept f w
        → (f' : Filter) × (w' : World queue channel api.Env) × (run_events api
              (suc fuel)
              (λ v. v)
              es
              f
              w
            ≡ some (f', w'))
          × IsAsleep u kept f' w'
    unfolding run_events
    run_events-IsAsleep fuel [] u kept f w pass a = (f, w, refl, a)
    run_events-IsAsleep fuel (e ∷ es) u kept f w (p, pass) a =
        let (c, f1, w1, eq, _, a1) = handle_event-IsAsleep fuel e u kept f w p a in
        let (f2, w2, eq2, a2) = run_events-IsAsleep fuel es u kept f1 w1 pass a1 in
        (f2, w2, rw eq eq2, a2)
