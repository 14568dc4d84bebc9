-- ===== src/Reactor/Global.antt =====
-- src/sync.rs, `get_reactor` of both builds, and src/reactor.rs, `Reactor::new`: the one reactor of a
-- program. A reactor is known by a number, a thread by its identity. A result `none` is a panic; it
-- comes with the statics behind it, for a panic of one thread does not undo them.
pub mod Once
pub mod Starts
use async_winit.Prelude.{
  ℕ, suc, Bool, true, false, Option, none, some, List, [], ◌∷◌, ◌==◌, if◌then◌else◌,
}
use async_winit.Sync.{QueueApi}
use async_winit.Reactor.{TimerOp, Reactor}
use async_winit.Reactor.Windows.{get, insert}

module _ (queue : QueueApi TimerOp) {Op : Type 0} (channel : QueueApi Op) where
  -- `Reactor::new`, with the two queues that it makes.
  unfoldable pub new : queue.Queue → channel.Queue → Reactor queue channel
  new timer_op_queue evl_ops = record {
    exit_code = 0;
    evl_ops = evl_ops;
    windows = [];
    proxy = none;
    timers = [];
    timer_op_queue = timer_op_queue;
    timer_id = 1;
  }

-- `ALREADY_EXISTS`, and the number of reactors made.
pub record Made : Type 0 where
  pub already_exists : Bool
  pub count : ℕ

-- `Reactor::new`, where it may be called: `ALREADY_EXISTS.swap(true)`, and a panic on the second call.
unfoldable pub make : Made → Option ℕ × Made
make s =
    let s' = record s { already_exists = true } in
    if s.already_exists then (none, s') else (some (s.count), record s' { count = suc s.count })

-- The statics of `ThreadUnsafe::get_reactor`; `reactor` has an entry for each thread whose
-- thread-local `REACTOR` is set.
pub record Unsafe : Type 0 where
  pub reactor_thread_id : Option ℕ
  pub reactor : List (ℕ × ℕ)
  pub made : Made

-- `REACTOR_THREAD_ID.get_or_init(|| thread_id)`.
unfoldable pub get_or_init : ℕ → Option ℕ → ℕ
get_or_init thread_id none = thread_id
get_or_init thread_id (some id) = id

-- `reactor.borrow_mut().get_or_insert_with(|| Rc::new(Reactor::new()))`.
unfoldable pub get_or_insert : ℕ → Unsafe → Option ℕ × Unsafe
get_or_insert thread_id s = elim (get thread_id s.reactor) [
  | some r ↦ (some r, s)
  | none ↦
      let (made, s') = make s.made in
      elim made [
        | none ↦ (none, record s { made = s' })
        | some r ↦ (some r, record s { reactor = insert thread_id r s.reactor; made = s' })
      ]
]

unfoldable pub get_reactor_unsafe : ℕ → Unsafe → Option ℕ × Unsafe
get_reactor_unsafe thread_id s =
    let id = get_or_init thread_id s.reactor_thread_id in
    let s' = record s { reactor_thread_id = some id } in
    if thread_id == id then get_or_insert thread_id s' else (none, s')

-- The statics of `ThreadSafe::get_reactor`.
pub record Safe : Type 0 where
  pub reactor : Option ℕ
  pub made : Made

-- `REACTOR.get_or_init(|| Arc::new(Reactor::new()))`.
unfoldable pub get_reactor_safe : Safe → Option ℕ × Safe
get_reactor_safe s = elim s.reactor [
  | some r ↦ (some r, s)
  | none ↦
      let (made, s') = make s.made in
      elim made [
        | none ↦ (none, record s { made = s' })
        | some r ↦ (some r, record { reactor = some r; made = s' })
      ]
]
