-- ===== src/Handler/Directs/Keeps.antt =====
-- src/handler.rs, `Handler::run_direct_listeners`: no direct listener is lost.
use async_winit.Prelude.{
  ◌≡◌, refl, ap, ◌∙◌, Bool, List, [], ◌∷◌, ◌++◌, map, append_assoc, append-nil, arith, Bool-cases,
  inl, inr, sym, if◌then◌else◌,
}
use async_winit.Slab.{SlabApi}
use async_winit.Handler.{Listener, State}
use async_winit.Handler.Directs.{call_each, run_taken, run_direct_listeners}

module _ (slab : SlabApi Listener) {D E Env : Type 0}
    (call : D → E → State slab D E → Env → Bool × D × State slab D E × Env)
    (adds : D → E → State slab D E → Env → List D) where
  -- What the calls add, one behind the other, of which the first that returns true is the last.
  abbrev pub registered : List D → E → State slab D E → Env → List D
  registered [] e s env = []
  registered (d ∷ ds) e s env =
      let r = call d e s env in
      let rest = registered ds e (r.2) (r.3) in adds d e s env ++ (if r.0 then [] else rest)

  module _ {Name : Type 0} (name : D → Name)
      (keeps_name : (d : D) (e : E) (s : State slab D E) (env : Env)
        → name ((call d e s env).1) ≡ name d)
      (registers : (d : D) (e : E) (s : State slab D E) (env : Env)
        → (call d e s env).2.directs ≡ s.directs ++ adds d e s env) where
    call_each-keeps :
        (ds : List D) (e : E) (s : State slab D E) (env : Env)
        → (map name ((call_each slab call ds e s env).1) ≡ map name ds)
          × ((call_each slab call ds e s env).2.directs ≡ s.directs ++ registered ds e s env)
    unfolding call_each
    call_each-keeps [] e s env = (refl, sym (append-nil s.directs))
    call_each-keeps (d ∷ ds) e s env =
        let r = call d e s env in
        let (names, reg) = call_each-keeps ds e (r.2) (r.3) in
        let mine = registers d e s env in
        let more = adds d e s env in
        elim (Bool-cases (r.0)) [
          | inl stop ↦ (
            ground (arith, keeps_name d e s env),
            rw stop (mine ∙ ap (λ a. s.directs ++ a) (sym (append-nil more))),
          )
          | inr go ↦ (
            ground (arith, keeps_name d e s env),
            rw go (
                reg
                ∙ ap (λ a. a ++ registered ds e (r.2) (r.3)) mine
                ∙ append_assoc s.directs more (registered ds e (r.2) (r.3))),
          )
        ]

    run_taken-keeps :
        (ds : List D) (e : E) (s : State slab D E) (env : Env)
        → s.directs ≡ ds
        → (kept : List D) × ((run_taken slab call ds e s env).1.directs
            ≡ registered ds e (record s { directs = [] }) env ++ kept)
          × (map name kept ≡ map name s.directs)
    unfolding run_taken
    run_taken-keeps [] e s env q = ([], q, ap (map name) (sym q))
    run_taken-keeps (d ∷ ds) e s env q =
        let (names, reg) = call_each-keeps (d ∷ ds) e (record s { directs = [] }) env in
        let kept = (call_each slab call (d ∷ ds) e (record s { directs = [] }) env).1 in
        (kept, ap (λ a. a ++ kept) reg, names ∙ ap (map name) (sym q))

    -- Where a listener keeps its name when it is called, and a call adds listeners at the end only,
    -- behind a run stand those that the calls added, in the order of the calls, of which the first
    -- that stops the event is the last, and then those that were there before, all of them and in
    -- their order, whether or not one of them stopped the event.
    pub run_direct_listeners-keeps :
        (e : E) (s : State slab D E) (env : Env)
        → (kept : List D) × ((run_direct_listeners slab call e s env).1.directs
            ≡ registered s.directs e (record s { directs = [] }) env ++ kept)
          × (map name kept ≡ map name s.directs)
    unfolding run_direct_listeners
    run_direct_listeners-keeps e s env = run_taken-keeps s.directs e s env refl
