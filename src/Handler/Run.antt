-- ===== src/Handler/Run.antt =====
-- src/handler.rs: `Handler`, whose state is made when it is first used, and `run_with` up to where it
-- waits for the listeners.
pub mod Begins
use async_winit.Prelude.{ℕ, Bool, true, false, Option, none, some, List, [], ◌>>=◌, if◌then◌else◌}
use async_winit.Slab.{SlabApi}
use async_winit.Task.{Waker}
use async_winit.Handler.{Listener, State, insert, new as new_state}
use async_winit.Handler.Waiter.{start}
use async_winit.Handler.Directs
use async_winit.Handler.Directs.{run_direct_listeners}

-- `OnceLock<Box<Mutex<State>>>`.
abbrev pub Handler : SlabApi Listener → Type 0 → Type 0 → Type 0
Handler slab D E = Option (State slab D E)

module _ (slab : SlabApi Listener) {D E : Type 0} where
  -- `Handler::new`.
  unfoldable pub new : Handler slab D E
  new = none

  -- `Handler::state`: `get_or_init`.
  unfoldable pub state : Handler slab D E → State slab D E
  state none = new_state slab
  state (some s) = s

  -- `Handler::wait_direct`, and `Waiter::new`: the number of the waiter.
  unfoldable pub wait_direct : Handler slab D E → D → Handler slab D E
  unfolding state
  wait_direct h f = some (Directs.wait_direct slab (state h) f)

  unfoldable pub wait : Handler slab D E → Option (ℕ × Handler slab D E)
  unfolding state
  wait h = insert slab (state h) >>= λ r. some (r.0, some (r.1))

  module _ {Env : Type 0}
      (call : D → E → State slab D E → Env → Bool × D × State slab D E × Env) where
    -- Whether the task then waits, for `poll_done`.
    unfoldable pub run_with :
        Handler slab D E → E → Env → Option (Bool × Handler slab D E × Env × List Waker)
    run_with none event env = some (false, none, env, [])
    run_with (some s) event env =
        let (stop, s', env') = run_direct_listeners slab call event s env in
        if stop
        then some (false, some s', env', [])
        else (start slab s' event >>= λ r. some (r.0, some (r.1), env', r.2))
