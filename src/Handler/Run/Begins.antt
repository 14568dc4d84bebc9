-- ===== src/Handler/Run/Begins.antt =====
-- src/handler.rs, `run_with` as a whole: the direct listeners first, then the offer to the listeners.
use async_winit.Prelude.{
  ℕ, ◌≡◌, refl, Bool, true, false, not, ◌&&◌, none, some, List, [], ◌∷◌, Bool-cases, inl, inr,
  head?, is_empty, arith, if◌then◌else◌,
}
use async_winit.Slab.{SlabApi}
use async_winit.Task.{Waker, wake_opt}
use async_winit.Handler.{Listener, State}
use async_winit.Handler.Waiter.{start}
use async_winit.Handler.Turns.{idle, offer, waker_at, Represents}
use async_winit.Handler.Turns.Delivery.{start-Represents}
use async_winit.Handler.Directs.{call_each, run_taken, run_direct_listeners}
use async_winit.Handler.Run.{run_with}

module _ (slab : SlabApi Listener) {D E Env : Type 0}
    (call : D → E → State slab D E → Env → Bool × D × State slab D E × Env)
    (keeps : (d : D) (e : E) (s : State slab D E) (env : Env) (xs : List ℕ)
      → Represents slab s xs idle
      → (ys : List ℕ) × Represents slab (call d e s env).2 ys idle) where
  set_directs-Represents :
      (s : State slab D E) (ds : List D) (xs : List ℕ)
      → Represents slab s xs idle
      → Represents slab (record s { directs = ds }) xs idle
  set_directs-Represents s ds xs r = record {
    is_linked = record {
      linked = r.is_linked.linked;
      distinct = r.is_linked.distinct;
      ends_eq = r.is_linked.ends_eq;
    };
    flags = r.flags;
    present = r.present;
    idle_eq = r.idle_eq;
    active_eq = r.active_eq;
  }

  call_each-Represents :
      (ds : List D) (e : E) (s : State slab D E) (env : Env) (xs : List ℕ)
      → Represents slab s xs idle
      → (ys : List ℕ) × Represents slab (call_each slab call ds e s env).2 ys idle
  unfolding call_each
  call_each-Represents [] e s env xs r = (xs, r)
  call_each-Represents (d ∷ ds) e s env xs r =
      let (ys, q) = keeps d e s env xs r in
      elim (Bool-cases ((call d e s env).0)) [
        | inl stop ↦ (ys, rw (stop, if◌then◌else◌) q)
        | inr go ↦
            let (zs, q') = call_each-Represents ds e (call d e s env).2 (call d e s env).3 ys q in
            (zs, rw (go, if◌then◌else◌) q')
      ]

  run_taken-Represents :
      (ds : List D) (e : E) (s : State slab D E) (env : Env) (xs : List ℕ)
      → Represents slab s xs idle
      → (ys : List ℕ) × Represents slab (run_taken slab call ds e s env).1 ys idle
  unfolding run_taken
  run_taken-Represents [] e s env xs r = (xs, r)
  run_taken-Represents (d ∷ ds) e s env xs r =
      let (ys, q) =
        call_each-Represents (d ∷ ds) e (record s { directs = [] }) env xs
          (set_directs-Represents s [] xs r) in
      (ys, set_directs-Represents _ _ ys q)

  run_direct_listeners-Represents :
      (e : E) (s : State slab D E) (env : Env) (xs : List ℕ)
      → Represents slab s xs idle
      → (ys : List ℕ) × Represents slab (run_direct_listeners slab call e s env).1 ys idle
  unfolding run_direct_listeners
  run_direct_listeners-Represents e s env xs r = run_taken-Represents s.directs e s env xs r

  -- The event was run, and where nothing stopped it, it is offered to the first listener.
  pub record Begun (e : E) (s : State slab D E) (env : Env) : Type 0 where
    pub listeners : List ℕ
    pub state : State slab D E
    pub wakes : List Waker
    pub waits : Bool
    pub runs :
        run_with slab call (some s) e env
        ≡ some (waits, some state, (run_direct_listeners slab call e s env).2, wakes)
    pub waits_eq :
        waits ≡ (not (run_direct_listeners slab call e s env).0 && not (is_empty listeners))
    pub represents :
        Represents slab state listeners (if waits then offer (head? listeners) else idle)
    pub active : state.active ≡ (if waits then some e else none)

  begins :
      (e : E) (s : State slab D E) (env : Env) (ys : List ℕ)
      → (run_direct_listeners slab call e s env).0 ≡ false
      → Represents slab (run_direct_listeners slab call e s env).1 ys idle
      → Begun e s env
  unfolding run_with start
  begins e s env [] go q = record {
    listeners = [];
    state = (run_direct_listeners slab call e s env).1;
    wakes = [];
    waits = false;
    runs = rw (go, if◌then◌else◌) (rw (q.is_linked.ends_eq, start) refl);
    waits_eq = ground arith;
    represents = q;
    active = q.idle_eq refl;
  }
  begins e s env (y ∷ ys) go q =
      let (t, eq, act, _, q') =
        start-Represents slab (run_direct_listeners slab call e s env).1 y ys e q in
      record {
        listeners = y ∷ ys;
        state = t;
        wakes =
            wake_opt (waker_at (slab.get (run_direct_listeners slab call e s env).1.listeners y));
        waits = true;
        runs = rw (go, if◌then◌else◌) (rw eq refl);
        waits_eq = ground arith;
        represents = q';
        active = act;
      }

  -- Where the state stands for some listeners, nobody has an event, and a call of a direct listener
  -- leaves that so, for whichever listeners: `run_with` succeeds and does to what stands outside
  -- what the direct listeners do; it waits exactly where none of them stops the event and there are
  -- listeners then, and the event is active and offered to the first of these; otherwise it is done,
  -- and nobody has an event.
  pub run_with-Begun :
      (e : E) (s : State slab D E) (env : Env) (xs : List ℕ)
      → Represents slab s xs idle
      → Begun e s env
  unfolding run_with
  run_with-Begun e s env xs r =
      let (ys, q) = run_direct_listeners-Represents e s env xs r in
      elim (Bool-cases ((run_direct_listeners slab call e s env).0)) [
        | inl stop ↦ record {
          listeners = ys;
          state = (run_direct_listeners slab call e s env).1;
          wakes = [];
          waits = false;
          runs = rw (stop, if◌then◌else◌) refl;
          waits_eq = ground arith;
          represents = q;
          active = q.idle_eq refl;
        }
        | inr go ↦ begins e s env ys go q
      ]
