-- ===== src/Reactor/Timers.antt =====
-- src/reactor.rs: the timer operations of the reactor, and what a round of timers wakes.
use async_winit.Prelude.{
  ℕ, zero, suc, ◌+◌, ◌≤◌, ◌<◌, ◌≡◌, refl, ◌∙◌, ap, some, List, [], ◌∷◌, ◌++◌, length, Option-cases,
  inl, inr, ◌⊎◌, arith, length-append, ◌%◌, ◌^◌,
}
use async_winit.Task.{Waker}
use async_winit.Time.{Instant}
use async_winit.Sync.{QueueApi}
use async_winit.Sync.ThreadUnsafe.{fetch_add}
use async_winit.Wheel
use async_winit.Wheel.{Entry, Wheel, IsSorted}
use async_winit.Wheel.Order.{insert-IsSorted, remove-IsSorted}
use async_winit.Reactor.{
  TimerOp, insert_timer_op, remove_timer_op, apply_op, Reactor, drain_ops, process_timer_ops,
  push_op, insert_timer, remove_timer, notify_proxy,
}

-- All the operations of a list, in order.
abbrev pub apply_ops : List TimerOp → Wheel → Wheel
apply_ops [] wheel = wheel
apply_ops (op ∷ ops) wheel = apply_ops ops (apply_op op wheel)

pub apply_op-IsSorted :
    (op : TimerOp) (wheel : Wheel) → IsSorted wheel → IsSorted (apply_op op wheel)
unfolding apply_op
apply_op-IsSorted (insert_timer_op t i w) wheel s = insert-IsSorted t i w wheel s
apply_op-IsSorted (remove_timer_op t i) wheel s = remove-IsSorted t i wheel s

pub apply_ops-IsSorted :
    (ops : List TimerOp) (wheel : Wheel) → IsSorted wheel → IsSorted (apply_ops ops wheel)
apply_ops-IsSorted [] wheel s = s
apply_ops-IsSorted (op ∷ ops) wheel s =
    apply_ops-IsSorted ops (apply_op op wheel) (apply_op-IsSorted op wheel s)

pub apply_ops-append :
    (ops more : List TimerOp) (wheel : Wheel)
    → apply_ops (ops ++ more) wheel ≡ apply_ops more (apply_ops ops wheel)
apply_ops-append [] more wheel = refl
apply_ops-append (op ∷ ops) more wheel = apply_ops-append ops more (apply_op op wheel)

module _ (queue : QueueApi TimerOp) {Op : Type 0} (channel : QueueApi Op) where
  drain_ops_all :
      (limit : ℕ) (q : queue.Queue) (ops : List TimerOp) (wheel : Wheel)
      → queue.items q ≡ ops
      → length ops ≤ limit
      → (q' : queue.Queue) × (drain_ops queue channel limit q wheel ≡ (q', apply_ops ops wheel))
        × (queue.items q' ≡ [])
        × (queue.capacity q' ≡ queue.capacity q)
  unfolding drain_ops
  drain_ops_all zero q [] wheel e h = (q, refl, e, refl)
  drain_ops_all zero q (op ∷ ops) wheel e h = absurd (omega arith)
  drain_ops_all (suc limit) q [] wheel e h = (q, rw (queue.try_next-nil q e, drain_ops), e, refl)
  drain_ops_all (suc limit) q (op ∷ ops) wheel e h =
      let (q', got, rest, cap) = queue.try_next-cons q op ops e in
      let (q'', eq, done, cap') =
        drain_ops_all limit q' ops (apply_op op wheel) rest (omega arith) in
      (q'', ground arith, done, cap' ∙ cap)

  -- What the wheel becomes once the queue is worked off.
  abbrev pub settled : Reactor queue channel → Wheel
  settled r = apply_ops (queue.items r.timer_op_queue) r.timers

  -- A push that succeeds does not overfill the queue, as the bounded queues document it.
  abbrev pub IsBounded : Type 0
  IsBounded =
      (q q' : queue.Queue) (op : TimerOp)
      → queue.push q op ≡ some q'
      → length (queue.items q') ≤ queue.capacity q'

  -- The wheel is in order, the queue holds no more than its capacity, which is not zero, and `n`
  -- pushes leave it so.
  pub record IsSound (n : ℕ) (r : Reactor queue channel) : Type 0 where
    pub is_sorted : IsSorted r.timers
    pub within : length (queue.items r.timer_op_queue) ≤ queue.capacity r.timer_op_queue
    pub some_room : 0 < queue.capacity r.timer_op_queue
    pub spare :
        IsBounded ⊎ (length (queue.items r.timer_op_queue) + n ≤ queue.capacity r.timer_op_queue)

  -- One call of `process_timer_ops` works off the whole queue.
  pub process_timer_ops-settled :
      (n : ℕ) (r : Reactor queue channel)
      → IsSound n r
      → (q : queue.Queue) × (process_timer_ops queue channel r
          ≡ record r { timer_op_queue = q; timers = settled r })
        × (queue.items q ≡ [])
        × (queue.capacity q ≡ queue.capacity r.timer_op_queue)
  unfolding process_timer_ops
  process_timer_ops-settled n r room =
      let (q, eq, done, cap) =
        drain_ops_all (queue.capacity r.timer_op_queue) r.timer_op_queue _ r.timers refl
          room.within in
      (q, ap (λ d. record r { timer_op_queue = d.0; timers = d.1 }) eq, done, cap)

  -- `push_op` pushes within two rounds, and the operation takes effect behind all earlier ones.
  pub push_op-settled :
      (n fuel : ℕ) (r : Reactor queue channel) (op : TimerOp)
      → IsSound (suc n) r
      → 2 ≤ fuel
      → (t : Reactor queue channel) × (push_op queue channel fuel r op ≡ some t)
        × (settled t ≡ apply_op op (settled r))
        × IsSound n t
        × (t ≡ record r { timers = t.timers; timer_op_queue = t.timer_op_queue })
  unfolding push_op
  push_op-settled n zero r op room two = absurd (omega arith)
  push_op-settled n (suc zero) r op room two = absurd (omega arith)
  push_op-settled n (suc (suc fuel)) r op room two =
      elim (Option-cases (queue.push r.timer_op_queue op)) [
        | inl full ↦
            let (q, eq, empty, cap) = process_timer_ops-settled (suc n) r room in
            elim (Option-cases (queue.push q op)) [
              | inl full' ↦
                  absurd
                    (omega (arith, queue.push-none q op full', ap length empty, room.some_room))
              | inr (q', pushed) ↦
                  let (its, cap') = queue.push-some q q' op pushed in
                  let one : queue.items q' ≡ op ∷ [] = ground (arith, empty) in
                  (
                    record r { timer_op_queue = q'; timers = settled r },
                    ground (arith, eq),
                    ground arith,
                    record {
                      is_sorted =
                          apply_ops-IsSorted (queue.items r.timer_op_queue) r.timers room.is_sorted;
                      within = omega (arith, ap length one, room.some_room);
                      some_room = omega (arith, room.some_room);
                      spare = elim room.spare [
                        | inl bounded ↦ inl bounded
                        | inr free ↦
                            absurd (omega (arith, queue.push-none r.timer_op_queue op full))
                      ];
                    },
                    refl,
                  )
            ]
        | inr (q, pushed) ↦
            let (its, cap) = queue.push-some r.timer_op_queue q op pushed in
            (
              record r { timer_op_queue = q },
              ground arith,
              rw its (apply_ops-append (queue.items r.timer_op_queue) (op ∷ []) r.timers),
              record {
                is_sorted = room.is_sorted;
                within = elim room.spare [
                  | inl bounded ↦ bounded r.timer_op_queue q op pushed
                  | inr free ↦
                      omega (
                        arith,
                        ap length its,
                        length-append (queue.items r.timer_op_queue) (op ∷ []),
                      )
                ];
                some_room = omega (arith, room.some_room);
                spare = elim room.spare [
                  | inl bounded ↦ inl bounded
                  | inr free ↦ inr (
                      omega (
                        arith,
                        ap length its,
                        length-append (queue.items r.timer_op_queue) (op ∷ []),
                      ))
                ];
              },
              refl,
            )
      ]

  -- In a reactor that is sound with a spare push, two rounds are enough for `insert_timer`: it
  -- returns the old counter, puts the waker under the deadline and that id behind all earlier
  -- operations, and counts up with wrap-around.
  pub insert_timer-settled :
      (n fuel : ℕ) (r : Reactor queue channel) (deadline : Instant) (waker : Waker)
      → IsSound (suc n) r
      → 2 ≤ fuel
      → (t : Reactor queue channel) × (insert_timer queue channel fuel r deadline waker
          ≡ some (r.timer_id, t))
        × (settled t ≡ Wheel.insert deadline r.timer_id waker (settled r))
        × (t.timer_id ≡ (r.timer_id + 1) % 2 ^ 64)
        × IsSound n t
  unfolding insert_timer fetch_add notify_proxy apply_op
  insert_timer-settled n fuel r deadline waker room two =
      let (t, eq, st, has_room, same) =
        push_op-settled n fuel (record r { timer_id = (r.timer_id + 1) % 2 ^ 64 })
          (insert_timer_op deadline r.timer_id waker)
          (record {
            is_sorted = room.is_sorted;
            within = room.within;
            some_room = room.some_room;
            spare = room.spare;
          })
          two in
      (
        notify_proxy queue channel t,
        ground arith,
        st,
        ground (arith, same),
        record {
          is_sorted = has_room.is_sorted;
          within = has_room.within;
          some_room = has_room.some_room;
          spare = has_room.spare;
        },
      )

  -- In a reactor that is sound with a spare push, two rounds are enough for `remove_timer`: it takes
  -- away the entry under that deadline and id behind all earlier operations, and changes the queue
  -- and the wheel only.
  pub remove_timer-settled :
      (n fuel : ℕ) (r : Reactor queue channel) (deadline : Instant) (id : ℕ)
      → IsSound (suc n) r
      → 2 ≤ fuel
      → (t : Reactor queue channel) × (remove_timer queue channel fuel r deadline id ≡ some t)
        × (settled t ≡ Wheel.remove deadline id (settled r))
        × (t ≡ record r { timers = t.timers; timer_op_queue = t.timer_op_queue })
        × IsSound n t
  unfolding remove_timer apply_op
  remove_timer-settled n fuel r deadline id room two =
      let (t, eq, st, has_room, same) =
        push_op-settled n fuel r (remove_timer_op deadline id) room two in
      (t, eq, st, same, has_room)
