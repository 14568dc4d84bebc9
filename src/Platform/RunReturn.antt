-- ===== src/Platform/RunReturn.antt =====
-- src/platform/run_return.rs, `block_on_demand`: the loop that hands its caller what the future returns.
use async_winit.Prelude.{ℕ, Option, none, some, List, [], ◌∷◌, ◌>>=◌}
use async_winit.Sync.{QueueApi}
use async_winit.Reactor.{TimerOp}
use async_winit.Filter
use async_winit.Filter.{
  FilterApi, Filter, World, Event, ReturnOrFinish, output, future_returned, handle_event,
}

module _ {queue : QueueApi TimerOp} {Op : Type 0} {channel : QueueApi Op}
    (api : FilterApi queue Op channel) where
  -- `*output = Some(out)` where the future has returned.
  unfoldable pub keep_output : ReturnOrFinish (Unit {0}) api.Out → Option api.Out → Option api.Out
  keep_output (future_returned out) kept = some out
  keep_output (output u) kept = kept

  -- The closure, for the events that winit calls it with, also behind `elwt.exit()`.
  unfoldable pub demand_events :
      ℕ
      → List (Event api.Other)
      → Option api.Out
      → Filter
      → World queue channel api.Env
      → Option (Option api.Out × Filter × World queue channel api.Env)
  demand_events fuel [] kept f w = some (kept, f, w)
  demand_events fuel (e ∷ es) kept f w = handle_event api fuel e f w >>= λ r.
      demand_events fuel es (keep_output (r.0) kept) (r.2) (r.3)

  -- `exit` is what winit's `run_on_demand` returns.
  unfoldable pub block_on_demand :
      {Exit : Type 0}
      → ℕ
      → List (Event api.Other)
      → Exit
      → World queue channel api.Env
      → Option (ReturnOrFinish Exit api.Out × World queue channel api.Env)
  unfolding demand_events
  block_on_demand fuel events exit w =
      let (filter, reactor) = Filter.new api w.reactor in
      demand_events fuel events none filter (record w { reactor = reactor }) >>= λ r.
      some (elim r.0 [ some out ↦ future_returned out | none ↦ output exit ], r.2)
