-- ===== src/Reactor.antt =====
-- src/reactor.rs: the reactor and its operations, one call at a time. The queue of timer operations
-- and the channel of event loop operations are interfaces; `Op` is the type of the latter's values.
-- The handlers of `evl_registration` are modelled by Handler.
pub mod Exit
pub mod Timers
pub mod Rounds
pub mod Loop
pub mod Windows
pub mod Global
use async_winit.Prelude.{
  ℕ, zero, suc, ◌+◌, ◌*◌, ◌/◌, ◌%◌, ◌^◌, ◌-◌, Bool, true, false, Option, none, some, List, [], ◌∷◌,
  ◌++◌, ltb, ◌==◌, if◌then◌else◌, head?, map, map_option, ◌>>=◌,
}
use async_winit.Task.{Waker}
use async_winit.Time.{Instant, checked_add}
use async_winit.Notifier.{ReactorWaker, notify}
use async_winit.Sync.{QueueApi}
use async_winit.Sync.ThreadUnsafe.{fetch_add}
use async_winit.Wheel.{Entry, Wheel, keys_before, split_off}
use async_winit.Wheel

pub data TimerOp : Type 0 where
  insert_timer_op : Instant → ℕ → Waker → TimerOp
  remove_timer_op : Instant → ℕ → TimerOp

-- What `process_timer_ops` does with one operation.
unfoldable pub apply_op : TimerOp → Wheel → Wheel
apply_op (insert_timer_op deadline id waker) wheel = Wheel.insert deadline id waker wheel
apply_op (remove_timer_op deadline id) wheel = Wheel.remove deadline id wheel

-- `value | NEEDS_EXIT`, with `NEEDS_EXIT` the lowest bit.
unfoldable pub or_needs_exit : ℕ → ℕ
or_needs_exit value = value / 2 * 2 + 1

-- A cast from `i32` to `i64`, and an arithmetic shift right by one of an `i64`, on bit patterns.
unfoldable pub sign_extend : ℕ → ℕ
sign_extend code = if ltb code (2 ^ 31) then code else code + (2 ^ 64 - 2 ^ 32)

unfoldable pub shift_right_one : ℕ → ℕ
shift_right_one value = if ltb value (2 ^ 63) then value / 2 else value / 2 + 2 ^ 63

module _ (queue : QueueApi TimerOp) {Op : Type 0} (channel : QueueApi Op) where
  pub record Reactor : Type 0 where
    pub exit_code : ℕ
    pub evl_ops : channel.Queue
    pub windows : List (ℕ × ℕ)
    pub proxy : Option ReactorWaker
    pub timers : Wheel
    pub timer_op_queue : queue.Queue
    pub timer_id : ℕ

  unfoldable pub exit_requested : Reactor → Option ℕ
  exit_requested r =
      if r.exit_code % 2 == 0 then none else some (shift_right_one r.exit_code % 2 ^ 32)

  -- `Reactor::notify`.
  unfoldable pub notify_proxy : Reactor → Reactor
  notify_proxy r = record r { proxy = map_option notify r.proxy }

  unfoldable pub set_proxy : Reactor → ReactorWaker → Reactor
  set_proxy r waker = elim r.proxy [ none ↦ record r { proxy = some waker } | some old ↦ r ]

  unfoldable pub request_exit : Reactor → ℕ → Reactor
  request_exit r code =
      notify_proxy (record r { exit_code = or_needs_exit (sign_extend code * 2 % 2 ^ 64) })

  -- `try_iter().take(limit)`, each operation applied to the wheel.
  unfoldable pub drain_ops : ℕ → queue.Queue → Wheel → queue.Queue × Wheel
  drain_ops zero q wheel = (q, wheel)
  drain_ops (suc limit) q wheel = elim (queue.try_next q) [
    | none ↦ (q, wheel)
    | some (op, q') ↦ drain_ops limit q' (apply_op op wheel)
  ]

  unfoldable pub process_timer_ops : Reactor → Reactor
  process_timer_ops r =
      let drained = drain_ops (queue.capacity r.timer_op_queue) r.timer_op_queue r.timers in
      record r { timer_op_queue = drained.0; timers = drained.1 }

  -- `while let Err(e) = push(op)`, on fuel: `none` means that the fuel ran out.
  unfoldable pub push_op : ℕ → Reactor → TimerOp → Option Reactor
  push_op zero r op = none
  push_op (suc fuel) r op =
      let again = push_op fuel (process_timer_ops r) op in
      elim (queue.push r.timer_op_queue op) [
        | some q ↦ some (record r { timer_op_queue = q })
        | none ↦ again
      ]

  unfoldable pub insert_timer : ℕ → Reactor → Instant → Waker → Option (ℕ × Reactor)
  insert_timer fuel r deadline waker =
      let (id, next_id) = fetch_add r.timer_id 1 in
      push_op fuel (record r { timer_id = next_id }) (insert_timer_op deadline id waker) >>= λ r'.
      some (id, notify_proxy r')

  unfoldable pub remove_timer : ℕ → Reactor → Instant → ℕ → Option Reactor
  remove_timer fuel r deadline id = push_op fuel r (remove_timer_op deadline id)

  -- The new reactor, the wakers with those of the ready timers behind them, and the deadline. `now`
  -- is the time read, and `none` the panic of an overflow in `now + Duration::from_nanos(1)`.
  unfoldable pub process_timers :
      ℕ → Reactor → Instant → List Waker → Option (Reactor × List Waker × Option Instant)
  process_timers max_instant r now wakers =
      let r' = process_timer_ops r in
      checked_add max_instant now 1 >>= λ soon.
      let pending = split_off soon 0 r'.timers in
      let ready = keys_before soon 0 r'.timers in
      let deadline : Option Instant = elim ready [
        | [] ↦ map_option (λ (e : Entry). e.deadline) (head? pending)
        | _ ∷ _ ↦ some now
      ] in
      some (record r' { timers = pending }, wakers ++ map (λ (e : Entry). e.waker) ready, deadline)
