-- ===== src/Handler/Directs.antt =====
-- src/handler.rs, `Handler::run_direct_listeners`: the closures that see an event first. Calling one
-- and awaiting its future, which is the user's code, is a parameter that acts on the state of the
-- handler, whose lock is free meanwhile, and on what stands outside. A closure may change when it is
-- called. That the task is dropped in the middle is left out.
pub mod Keeps
use async_winit.Prelude.{Bool, true, false, List, [], ◌∷◌, ◌++◌, if◌then◌else◌}
use async_winit.Slab.{SlabApi}
use async_winit.Handler.{Listener, State}

module _ (slab : SlabApi Listener) {D E : Type 0} where
  -- `wait_direct`.
  unfoldable pub wait_direct : State slab D E → D → State slab D E
  wait_direct s f = record s { directs = s.directs ++ f ∷ [] }

  module _ {Env : Type 0}
      (call : D → E → State slab D E → Env → Bool × D × State slab D E × Env) where
    -- `for direct in &mut directs.directs { if direct(event.clone()).await { return true; } }`.
    unfoldable pub call_each :
        List D → E → State slab D E → Env → Bool × List D × State slab D E × Env
    call_each [] e s env = (false, [], s, env)
    call_each (d ∷ ds) e s env =
        let (stop, d', s', env') = call d e s env in
        let rest = call_each ds e s' env' in
        if stop then (true, d' ∷ ds, s', env') else (rest.0, d' ∷ rest.1, rest.2, rest.3)

    unfoldable pub run_taken : List D → E → State slab D E → Env → Bool × State slab D E × Env
    run_taken [] e s env = (false, s, env)
    run_taken (d ∷ ds) e s env =
        let r = call_each (d ∷ ds) e (record s { directs = [] }) env in
        (r.0, record (r.2) { directs = r.2.directs ++ r.1 }, r.3)

    -- The listeners are taken out, called in turn until one returns true, and put back behind those
    -- that stand in the state by then.
    unfoldable pub run_direct_listeners : E → State slab D E → Env → Bool × State slab D E × Env
    unfolding run_taken
    run_direct_listeners e s env = run_taken s.directs e s env
