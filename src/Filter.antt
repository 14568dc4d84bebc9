-- ===== src/Filter.antt =====
-- src/filter.rs: `Filter::handle_event`. A world is the reactor and what stands outside the crate;
-- the futures that are polled, the wakers, the window target and the parker are parameters that act
-- on it. The notifier is the reactor's proxy. A result `none` is a panic, or the end of the fuel of
-- one of the two loops.
pub mod Sleep
pub mod Steps
use async_winit.Prelude.{
  ℕ, zero, suc, Bool, true, false, not, ◌&&◌, Option, none, some, List, [], ◌∷◌, leb, if◌then◌else◌,
  ◌>>=◌,
}
use async_winit.Task.{Waker}
use async_winit.Time.{Instant}
use async_winit.Notifier.{ReactorWaker}
use async_winit.Sync.{QueueApi}
use async_winit.Reactor.{TimerOp, Reactor, process_timers, exit_requested, set_proxy}

pub data ReturnOrFinish (O T : Type 0) : Type 0 where
  output : O → ReturnOrFinish O T
  future_returned : T → ReturnOrFinish O T

-- The events that the filter tells apart.
pub data Event (Other : Type 0) : Type 0 where
  new_events : Event Other
  other : Other → Event Other

-- What `handle_event` asks of the window target at its end.
pub data ControlFlow : Type 0 where
  exit : ControlFlow
  poll : ControlFlow
  wait_until : Instant → ControlFlow
  wait : ControlFlow

pub record Filter : Type 0 where
  pub deadline : Option Instant
  pub wakers : List Waker
  pub yielding : Bool

-- The two cached wakers.
abbrev pub notifier_waker : Waker
notifier_waker = 0

abbrev pub parker_waker : Waker
parker_waker = 1

-- The earlier of two deadlines.
unfoldable pub min_deadline : Option Instant → Option Instant → Option Instant
min_deadline none none = none
min_deadline none (some b) = some b
min_deadline (some a) none = some a
min_deadline (some a) (some b) = some (if leb a b then a else b)

module _ (queue : QueueApi TimerOp) {Op : Type 0} (channel : QueueApi Op) (Env : Type 0) where
  pub record World : Type 0 where
    pub reactor : Reactor queue channel
    pub env : Env

-- What the filter is run with. `poll_event` polls the future that `post_event` returns.
pub record FilterApi (queue : QueueApi TimerOp) (Op : Type 0) (channel : QueueApi Op) : Type 1 where
  pub Env : Type 0
  pub Out : Type 0
  pub Other : Type 0
  pub poll_future : Waker → World queue channel Env → Option (Option Out × World queue channel Env)
  pub post_event : Event Other → World queue channel Env → World queue channel Env
  pub poll_event : Waker → World queue channel Env → Option (Bool × World queue channel Env)
  pub drain_loop_queue : World queue channel Env → Option (World queue channel Env)
  pub wake : Waker → World queue channel Env → World queue channel Env
  pub park : Option Instant → World queue channel Env → World queue channel Env
  pub read_clock : World queue channel Env → Instant × World queue channel Env
  pub max_instant : ℕ

-- The filter, what the wrapped future has stored so far, and the world.
pub record Run {queue : QueueApi TimerOp} {Op : Type 0} {channel : QueueApi Op}
    (api : FilterApi queue Op channel) : Type 0 where
  pub filter : Filter
  pub output : Option api.Out
  pub world : World queue channel api.Env

module _ {queue : QueueApi TimerOp} {Op : Type 0} {channel : QueueApi Op}
    (api : FilterApi queue Op channel) where
  -- `Filter::new`: the filter, and the reactor with its notifier for a proxy.
  unfoldable pub new : Reactor queue channel → Filter × Reactor queue channel
  new r = (
    record { deadline = none; wakers = []; yielding = false },
    set_proxy queue channel r (record { notified = true; awake = false; sent = 0 }),
  )

  unfoldable pub set_filter : Run api → Filter → Run api
  set_filter s f = record s { filter = f }

  unfoldable pub set_world : Run api → World queue channel api.Env → Run api
  set_world s w = record s { world = w }

  -- A change of the notifier.
  unfoldable pub change_notifier : (ReactorWaker → ReactorWaker) → Run api → Option (Run api)
  unfolding set_world
  change_notifier f s = s.world.reactor.proxy >>= λ p.
      some (
        set_world s
          (record (s.world) { reactor = record (s.world.reactor) { proxy = some (f p) } }))

  unfoldable pub round_of_timers : Run api → Option (Option Instant × Run api)
  unfolding set_world
  round_of_timers s =
      let (now, w) = api.read_clock s.world in
      process_timers queue channel api.max_instant w.reactor now s.filter.wakers >>= λ r. some (
        r.2,
        record s {
          filter = record (s.filter) { wakers = r.1 };
          world = record w { reactor = r.0 };
        },
      )

  -- The user's future, wrapped to store its result; to poll it again behind that is a panic.
  unfoldable pub poll_wrapped : Waker → Run api → Option (Bool × Run api)
  poll_wrapped w s = elim s.output [
    | some _ ↦ none
    | none ↦ api.poll_future w s.world >>= λ p. elim p.0 [
      | some out ↦ some (true, record s { output = some out; world = p.1 })
      | none ↦ some (false, record s { world = p.1 })
    ]
  ]

  -- `future.or(notifier)`: the user's future first, and the event's where that is pending.
  unfoldable pub poll_driver : Run api → Option (Bool × Run api)
  unfolding poll_wrapped set_world
  poll_driver s = poll_wrapped parker_waker s >>= λ p.
      if p.0
      then some (true, p.1)
      else (api.poll_event parker_waker p.1.world >>= λ q. some (q.0, set_world (p.1) (q.1)))

  unfoldable pub wake_all : List Waker → World queue channel api.Env → World queue channel api.Env
  wake_all [] w = w
  wake_all (k ∷ ks) w = wake_all ks (api.wake k w)

  -- `for waker in self.wakers.drain(..) { waker.wake() }`.
  unfoldable pub drain_wakers : Run api → Run api
  unfolding wake_all
  drain_wakers s = record s {
    filter = record (s.filter) { wakers = [] };
    world = wake_all s.filter.wakers s.world;
  }

  -- `self.reactor.drain_loop_queue(elwt)`.
  unfoldable pub drain_queue : Run api → Option (Run api)
  unfolding set_world
  drain_queue s = api.drain_loop_queue s.world >>= λ w. some (set_world s w)

  -- One round of the loop that blocks on the parker: whether it goes on.
  unfoldable pub block_once : Run api → Option (Bool × Run api)
  unfolding set_world
  block_once s = poll_driver s >>= λ p.
      if p.0
      then some (false, p.1)
      else (drain_queue (p.1) >>= λ d. round_of_timers d >>= λ t.
          let deadline = min_deadline t.0 t.1.filter.deadline in
          let woken = drain_wakers (t.1) in
          some (true, set_world woken (api.park deadline woken.world)))

  unfoldable pub block_on : ℕ → Run api → Option (Run api)
  block_on zero s = none
  block_on (suc fuel) s =
      let again = block_on fuel in block_once s >>= λ p. if p.0 then again (p.1) else some (p.1)

  -- Behind a pending poll: where the future is notified still, it yields.
  unfoldable pub after_pending : Run api → Option (Run api)
  unfolding set_filter set_world
  after_pending s = s.world.reactor.proxy >>= λ n.
      let f = if n.notified then record (s.filter) { yielding = true } else s.filter in
      drain_queue (set_filter s f)

  -- One round of the loop that polls the future while it is notified.
  unfoldable pub poll_once : Run api → Option (Bool × Run api)
  poll_once s =
      if s.filter.yielding
      then some (false, s)
      else (s.world.reactor.proxy >>= λ before.
          change_notifier (λ n. record n { notified = false }) s >>= λ s1.
          if before.notified
          then (poll_wrapped notifier_waker s1 >>= λ p.
              if p.0 then some (true, p.1) else (after_pending (p.1) >>= λ s2. some (true, s2)))
          else some (false, s1))

  unfoldable pub poll_notified : ℕ → Run api → Option (Run api)
  poll_notified zero s = none
  poll_notified (suc fuel) s =
      let again = poll_notified fuel in poll_once s >>= λ p. if p.0 then again (p.1) else some (p.1)

  -- No event of the match says that the loop is about to sleep.
  unfoldable pub about_to_sleep : Event api.Other → Bool
  about_to_sleep new_events = false
  about_to_sleep (other e) = false

  -- What is done where the loop has just woken up.
  unfoldable pub on_wakeup : Event api.Other → Run api → Option (Run api)
  on_wakeup new_events s =
      change_notifier (λ n. record n { awake = true })
        (set_filter s (record (s.filter) { yielding = false }))
      >>= λ s1. round_of_timers s1 >>= λ t.
          some (set_filter (t.1) (record (t.1.filter) { deadline = t.0 }))
  on_wakeup (other e) s = some s

  -- The event is posted, and where a listener holds it up, the thread blocks.
  unfoldable pub post : ℕ → Event api.Other → Run api → Option (Run api)
  post fuel e s = api.poll_event parker_waker (api.post_event e s.world) >>= λ q.
      if q.0
      then some (set_world s (q.1))
      else (drain_queue (record s { filter = record (s.filter) { yielding = false }; world = q.1 })
          >>= λ d. block_on fuel d)

  unfoldable pub control_flow : Run api → ControlFlow
  control_flow s = elim (exit_requested queue channel s.world.reactor) [
    | some _ ↦ exit
    | none ↦
        if s.filter.yielding
        then poll
        else elim s.filter.deadline [ some d ↦ wait_until d | none ↦ wait ]
  ]

  unfoldable pub result_of : Option api.Out → ReturnOrFinish (Unit {0}) api.Out
  result_of none = output tt
  result_of (some out) = future_returned out

  -- `drain_loop_queue` and the wakers, where the loop is about to sleep.
  unfoldable pub before_sleep : Bool → Run api → Option (Run api)
  before_sleep true s = drain_queue s >>= λ d. some (drain_wakers d)
  before_sleep false s = some s

  unfoldable pub handle_event :
      ℕ
      → Event api.Other
      → Filter
      → World queue channel api.Env
      → Option
          (ReturnOrFinish (Unit {0}) api.Out × ControlFlow × Filter × World queue channel api.Env)
  handle_event fuel e f w = on_wakeup e (record { filter = f; output = none; world = w }) >>= λ s1.
      post fuel e s1 >>= λ s2. poll_notified fuel s2 >>= λ s3.
      before_sleep (about_to_sleep e) s3 >>= λ s4.
      some (result_of s4.output, control_flow s4, s4.filter, s4.world)
