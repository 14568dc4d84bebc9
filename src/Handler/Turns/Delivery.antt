-- ===== src/Handler/Turns/Delivery.antt =====
-- src/handler.rs, `Handler::run_with`: from the offer to the first listener until the task that
-- runs the handler is woken.
use async_winit.Prelude.{
  ℕ, ◌≡◌, refl, true, Option, some, List, [], ◌∷◌, ◌++◌, has, ◌∙◌, Distinct, map, arith, ◌>>=◌,
  has-append, head?, ◌==◌, false, append_assoc,
}
use async_winit.Slab.{SlabApi}
use async_winit.Task.{Waker, wake_opt, Poll, ready, pending}
use async_winit.Handler.{Listener, State}
use async_winit.Handler.Links.{next_of, last_or-some}
use async_winit.Handler.Invariant.{IsLinked, get-some}
use async_winit.Handler.Waiter.{poll_next, start, poll_done, set_waker}
use async_winit.Handler.Turns.{Turn, idle, offered, bearer, waker_at, Represents}
use async_winit.Handler.Turns.Flags.{notify-Sets}
use async_winit.Handler.Turns.Polls.{poll_next-offered}

next_of-append :
    (pre : List ℕ) (x : ℕ) (xs : List ℕ)
    → Distinct (pre ++ x ∷ xs)
    → next_of (pre ++ x ∷ xs) x ≡ head? xs
next_of-append [] x xs d = ground arith
next_of-append (y ∷ pre) x xs d =
    ground (arith, next_of-append pre x xs d.1, has-append y pre (x ∷ xs))

Distinct-behind : (pre xs : List ℕ) → Distinct (pre ++ xs) → Distinct xs
Distinct-behind [] xs d = d
Distinct-behind (y ∷ pre) xs d = Distinct-behind pre xs (d.1)

module _ (slab : SlabApi Listener) {D E : Type 0} where
  -- The waiters at these keys are polled in turn: what each returns, and all that is woken.
  unfoldable pub poll_each :
      State slab D E
      → List ℕ
      → (ℕ → Waker)
      → Option (List (Poll (Option E)) × State slab D E × List Waker)
  poll_each s [] wakers = some ([], s, [])
  poll_each s (i ∷ is) wakers = poll_next slab s i (wakers i) >>= λ r.
      poll_each r.1 is wakers >>= λ rest. some (r.0 ∷ rest.0, rest.1, r.2 ++ rest.2)

  -- The wakers of the listeners at these keys, in their order.
  abbrev pub wakers_of : State slab D E → List ℕ → List Waker
  wakers_of s [] = []
  wakers_of s (i ∷ is) = wake_opt (waker_at (slab.get s.listeners i)) ++ wakers_of s is

  wakers_of_same :
      (s t : State slab D E) (n : ℕ) (is : List ℕ)
      → has n is ≡ false
      → ((j : ℕ)
          → (n == j) ≡ false
          → waker_at (slab.get t.listeners j) ≡ waker_at (slab.get s.listeners j))
      → wakers_of t is ≡ wakers_of s is
  wakers_of_same s t n [] h same = refl
  wakers_of_same s t n (i ∷ is) h same =
      ground (arith, same i, wakers_of_same s t n is (ground arith) same)

  -- An event is offered to the first listener, whose waker is woken; with no listener nothing changes.
  pub start-Represents :
      (s : State slab D E) (x : ℕ) (xs : List ℕ) (e : E)
      → Represents slab s (x ∷ xs) idle
      → (t : State slab D E) × (start slab s e
          ≡ some (true, t, wake_opt (waker_at (slab.get s.listeners x))))
        × (t.active ≡ some e)
        × ((j : ℕ)
            → (x == j) ≡ false
            → waker_at (slab.get t.listeners j) ≡ waker_at (slab.get s.listeners j))
        × Represents slab t (x ∷ xs) (offered x)
  unfolding start
  start-Represents s x xs e r =
      let s1 : State slab D E = record s { active = some e } in
      let v : IsLinked slab s1 (x ∷ xs) = record {
        linked = r.is_linked.linked;
        distinct = r.is_linked.distinct;
        ends_eq = r.is_linked.ends_eq;
      } in
      let (l, here, _) = get-some slab v x (ground arith) in
      let (t, eq, set) = notify-Sets slab v x l here (ground (arith, r.flags x)) in
      let (u, last, _) = last_or-some x xs in
      (
        t,
        ground (arith, v.ends_eq),
        set.active,
        (λ j q. ground (arith, set.statuses j)),
        record {
          is_linked = set.is_linked;
          flags = λ j. ground (arith, set.statuses j, r.flags j);
          present = λ j q. ground arith;
          idle_eq = λ q. cc;
          active_eq = λ j q. (e, set.active);
        },
      )

  pub poll_done-idle :
      (s : State slab D E) (xs : List ℕ) (w : Waker)
      → Represents slab s xs idle
      → poll_done slab s w ≡ (ready tt, s)
  unfolding poll_done
  poll_done-idle s xs w r = ground (arith, r.idle_eq refl)

  pub poll_done-waits :
      (s : State slab D E) (x : ℕ) (xs : List ℕ) (turn : Turn) (i : ℕ) (w : Waker)
      → Represents slab s (x ∷ xs) turn
      → bearer turn ≡ some i
      → (t : State slab D E) × (poll_done slab s w ≡ (pending, t))
        × (t.waker ≡ some w)
        × (t.active ≡ s.active)
        × (t.listeners ≡ s.listeners)
        × Represents slab t (x ∷ xs) turn
  unfolding poll_done set_waker
  poll_done-waits s x xs turn i w r q =
      let (e, act) = r.active_eq i q in
      let (u, last, _) = last_or-some x xs in
      (
        record s { waker = some w },
        ground (arith, r.is_linked.ends_eq),
        refl,
        refl,
        refl,
        record {
          is_linked = record {
            linked = r.is_linked.linked;
            distinct = r.is_linked.distinct;
            ends_eq = r.is_linked.ends_eq;
          };
          flags = r.flags;
          present = r.present;
          idle_eq = r.idle_eq;
          active_eq = r.active_eq;
        },
      )

  -- The event is offered to `x`, and the task waits for it with the waker `w`.
  record Underway (s : State slab D E) (all : List ℕ) (x : ℕ) (e : E) (w : Waker) : Type 0 where
    represents : Represents slab s all (offered x)
    active : s.active ≡ some e
    waker : s.waker ≡ some w

  -- One listener behind which there is another is polled.
  poll-hands_over :
      (s : State slab D E) (pre : List ℕ) (x y : ℕ) (ys : List ℕ) (k : Waker) (e : E) (w : Waker)
      → Underway s (pre ++ x ∷ y ∷ ys) x e w
      → (t : State slab D E) × (poll_next slab s x k
          ≡ some (ready (some e), t, wake_opt (waker_at (slab.get s.listeners y))))
        × (wakers_of t ys ≡ wakers_of s ys)
        × Underway t ((pre ++ x ∷ []) ++ y ∷ ys) y e w
  poll-hands_over s pre x y ys k e w u =
      let r = u.represents in
      let nx = next_of-append pre x (y ∷ ys) r.is_linked.distinct in
      let (e', t, ws, act', eq, p) = poll_next-offered slab s (pre ++ x ∷ y ∷ ys) x k r in
      let d = Distinct-behind pre (x ∷ y ∷ ys) r.is_linked.distinct in
      let act = u.active in
      let wk = u.waker in
      (
        t,
        ground (arith, p.wakes),
        wakers_of_same s t y ys (ground arith) (λ j q. p.others j (ground arith)),
        record {
          represents = rw (append_assoc pre (x ∷ []) (y ∷ ys)) (rw nx at p.represents);
          active = ground (arith, p.active);
          waker = ground (arith, p.waker);
        },
      )

  poll_each-delivers :
      (s : State slab D E) (pre : List ℕ) (x : ℕ) (xs : List ℕ) (wakers : ℕ → Waker) (e : E)
      (w : Waker)
      → Underway s (pre ++ x ∷ xs) x e w
      → (t : State slab D E) × (poll_each s (x ∷ xs) wakers
          ≡ some (map (λ _. ready (some e)) (x ∷ xs), t, wakers_of s xs ++ w ∷ []))
        × Represents slab t (pre ++ x ∷ xs) idle
  unfolding poll_each
  poll_each-delivers s pre x [] wakers e w u =
      let r = u.represents in
      let nx = next_of-append pre x [] r.is_linked.distinct in
      let (e', t, ws, act', eq, p) = poll_next-offered slab s (pre ++ x ∷ []) x (wakers x) r in
      let act = u.active in let wk = u.waker in (t, ground (arith, p.wakes), rw nx at p.represents)
  poll_each-delivers s pre x (y ∷ ys) wakers e w u =
      let (t, eq, same, u') = poll-hands_over s pre x y ys (wakers x) e w u in
      let (t', eq', done) = poll_each-delivers t (pre ++ x ∷ []) y ys wakers e w u' in
      (
        t',
        ground (
          arith,
          append_assoc (wake_opt (waker_at (slab.get s.listeners y))) (wakers_of s ys) (w ∷ []),
        ),
        rw (append_assoc pre (x ∷ []) (y ∷ ys)) at done,
      )

  -- Behind the polls of `x` and some more, but not of all, the event is offered to the next one.
  poll_each-goes_on :
      (s : State slab D E) (pre : List ℕ) (x : ℕ) (ys : List ℕ) (z : ℕ) (zs : List ℕ)
      (wakers : ℕ → Waker) (e : E) (w : Waker)
      → Underway s (pre ++ x ∷ (ys ++ z ∷ zs)) x e w
      → (t : State slab D E) × (ws : List Waker) × (poll_each s (x ∷ ys) wakers
          ≡ some (map (λ _. ready (some e)) (x ∷ ys), t, ws))
        × Represents slab t (pre ++ x ∷ (ys ++ z ∷ zs)) (offered z)
  unfolding poll_each
  poll_each-goes_on s pre x [] z zs wakers e w u =
      let (t, eq, same, u') = poll-hands_over s pre x z zs (wakers x) e w u in
      (
        t,
        wake_opt (waker_at (slab.get s.listeners z)) ++ [],
        ground arith,
        rw (append_assoc pre (x ∷ []) (z ∷ zs)) at u'.represents,
      )
  poll_each-goes_on s pre x (y ∷ ys) z zs wakers e w u =
      let (t, eq, same, u') = poll-hands_over s pre x y (ys ++ z ∷ zs) (wakers x) e w u in
      let (t', ws, eq', r) = poll_each-goes_on t (pre ++ x ∷ []) y ys z zs wakers e w u' in
      (
        t',
        wake_opt (waker_at (slab.get s.listeners y)) ++ ws,
        rw (eq, eq') refl,
        rw (append_assoc pre (x ∷ []) (y ∷ (ys ++ z ∷ zs))) at r,
      )

  -- All of `run_with` behind the direct listeners, for the listeners `x ∷ xs`.
  pub record Delivered (s : State slab D E) (x : ℕ) (xs : List ℕ) (e : E) (wakers : ℕ → Waker)
      (w : Waker) : Type 0 where
    pub first : State slab D E
    pub waiting : State slab D E
    pub last : State slab D E
    pub starts : start slab s e ≡ some (true, first, wake_opt (waker_at (slab.get s.listeners x)))
    pub waits : poll_done slab first w ≡ (pending, waiting)
    -- Where `x` and `ys` were polled, and `z ∷ zs` not yet.
    pub still_waits :
        (ys : List ℕ) (z : ℕ) (zs : List ℕ)
        → ys ++ z ∷ zs ≡ xs
        → (t u : State slab D E) × (ws : List Waker) × (poll_each waiting (x ∷ ys) wakers
            ≡ some (map (λ _. ready (some e)) (x ∷ ys), t, ws))
          × (poll_done slab t w ≡ (pending, u))
    pub polls :
        poll_each waiting (x ∷ xs) wakers
        ≡ some (map (λ _. ready (some e)) (x ∷ xs), last, wakers_of s xs ++ w ∷ [])
    pub ends_ready : poll_done slab last w ≡ (ready tt, last)
    pub represents : Represents slab last (x ∷ xs) idle

  -- Where the state stands for the listeners `x ∷ xs` and nobody has an event, an event is offered
  -- to `x`, whose waker is woken, and the task that runs it waits; the waiters, polled in the order
  -- of the list, return this event each. These polls wake the wakers of `xs`, in their order, and
  -- behind them the task, and nobody else; as long as some of `x ∷ xs` were not polled, the task
  -- still waits when it is polled, and behind the last it goes on. The state then stands for the
  -- same listeners with no event.
  pub run_with-Delivered :
      (s : State slab D E) (x : ℕ) (xs : List ℕ) (e : E) (wakers : ℕ → Waker) (w : Waker)
      → Represents slab s (x ∷ xs) idle
      → Delivered s x xs e wakers w
  run_with-Delivered s x xs e wakers w r =
      let (s1, eq1, act1, others, r1) = start-Represents s x xs e r in
      let (s2, eq2, wk2, act2, ls, r2) = poll_done-waits s1 x xs (offered x) x w r1 refl in
      let u : Underway s2 (x ∷ xs) x e w = record {
        represents = r2;
        active = act2 ∙ act1;
        waker = wk2;
      } in
      let (t, eq3, r3) = poll_each-delivers s2 [] x xs wakers e w u in
      let same = wakers_of_same s s2 x xs (r.is_linked.distinct.0) (λ j q. rw ls (others j q)) in
      record {
        first = s1;
        waiting = s2;
        last = t;
        starts = eq1;
        waits = eq2;
        still_waits = λ ys z zs split.
            let (v, ws, eq, rv) = poll_each-goes_on s2 [] x ys z zs wakers e w (rw split u) in
            let (v', done, _, _, _, _) =
              poll_done-waits v x (ys ++ z ∷ zs) (offered z) z w rv refl in
            (v, v', ws, eq, done);
        polls = rw same at eq3;
        ends_ready = poll_done-idle t (x ∷ xs) w r3;
        represents = r3;
      }
