-- ===== src/Examples/Timers.antt =====
-- src/reactor.rs and src/timer.rs, with queues of the thread-unsafe build.
use async_winit.Prelude.{
  ℕ, ◌+◌, ◌*◌, ◌<◌, ◌≡◌, refl, true, false, Option, none, some, List, [], ◌∷◌, inr, arith, has, ◌%◌,
  ◌^◌, ◌-◌,
}
use async_winit.Task.{Waker, ready, pending}
use async_winit.Time.{Instant, checked_add}
use async_winit.Sync.{QueueApi}
use async_winit.Sync.ThreadUnsafe.{deque}
use async_winit.Wheel
use async_winit.Wheel.{lookup}
use async_winit.Reactor.{
  TimerOp, insert_timer_op, apply_op, Reactor, process_timers, insert_timer, remove_timer,
  exit_requested, request_exit,
}
use async_winit.Reactor.Exit.{exit_requested-request_exit}
use async_winit.Reactor.Timers.{settled, IsSound, insert_timer-settled, remove_timer-settled}
use async_winit.Reactor.Rounds.{Round, process_timers-Round}
use async_winit.Timer.{Timer, at, interval_at, set_interval_at, poll_next}
use async_winit.Timer.Wakes.{Waits, poll_next-Waits, poll_next_lost}
use async_winit.Timer.Fires.{
  Next, poll_next-Next, poll_times, ticks, poll_times-ticks, at_fires_once, set_interval_at_forgets,
}

abbrev ops : QueueApi TimerOp
ops = deque

abbrev numbers : QueueApi ℕ
numbers = deque

-- A reactor with one timer, due at 40 under the id 3, whose insertion is still in the queue.
unfoldable one_timer : Reactor ops numbers
unfolding deque
one_timer = record {
  exit_code = 0;
  evl_ops = [];
  windows = [];
  proxy = some (record { notified = false; awake = false; sent = 0 });
  timers = [];
  timer_op_queue = insert_timer_op 40 3 7 ∷ [];
  timer_id = 4;
}

one_timer-IsSound : (n : ℕ) → n < 100 → IsSound ops numbers n one_timer
unfolding one_timer deque
one_timer-IsSound n small = record {
  is_sorted = tt;
  within = ground arith;
  some_room = ground arith;
  spare = inr (ground arith);
}

-- The timer that waits in it.
abbrev waiting : Timer
waiting = record { id_and_waker = some (3, 7); deadline = some 40; period = 10 }

waiting-found : lookup 40 3 (settled ops numbers one_timer) ≡ some 7
unfolding one_timer deque lookup apply_op Wheel.insert
waiting-found = refl

ten_rounds : IsSound ops numbers 10 one_timer
ten_rounds = one_timer-IsSound 10 (ground arith)

poll_times-ticks_example :
    (t' : Timer) × (r' : Reactor ops numbers) × (poll_times ops numbers 1000 2 3 0
        (λ j. 50 + j * 20)
        (interval_at 5 10)
        7
        one_timer
      ≡ some (ticks ops numbers 1000 2 3 5 10, t', r'))
    × (t'.deadline ≡ some (5 + 3 * 10))
poll_times-ticks_example =
    poll_times-ticks ops numbers 1000 2 3 (λ j. 50 + j * 20) 5 10 7 one_timer
      (one_timer-IsSound 6 (ground arith)) (ground arith) (ground arith) (λ j h. omega arith)

process_timers-Round_example :
    (t : Reactor ops numbers) × (ws : List Waker) × (d : Option Instant) × (process_timers ops
        numbers 1000 one_timer 45
        (1 ∷ [])
      ≡ some (t, ws, d))
    × (ops.items t.timer_op_queue ≡ [])
    × (t.timer_id ≡ one_timer.timer_id)
    × Round ops numbers (settled ops numbers one_timer) 45 (1 ∷ []) t ws d
process_timers-Round_example =
    process_timers-Round ops numbers 10 1000 one_timer 45 (1 ∷ []) ten_rounds (ground arith)

insert_timer-settled_example :
    (t : Reactor ops numbers) × (insert_timer ops numbers 2 one_timer 60 8
      ≡ some (one_timer.timer_id, t))
    × (settled ops numbers t ≡ Wheel.insert 60 one_timer.timer_id 8 (settled ops numbers one_timer))
    × (t.timer_id ≡ (one_timer.timer_id + 1) % 2 ^ 64)
    × IsSound ops numbers 9 t
insert_timer-settled_example =
    insert_timer-settled ops numbers 9 2 one_timer 60 8 ten_rounds (ground arith)

remove_timer-settled_example :
    (t : Reactor ops numbers) × (remove_timer ops numbers 2 one_timer 40 3 ≡ some t)
    × (settled ops numbers t ≡ Wheel.remove 40 3 (settled ops numbers one_timer))
    × (t ≡ record one_timer { timers = t.timers; timer_op_queue = t.timer_op_queue })
    × IsSound ops numbers 9 t
remove_timer-settled_example =
    remove_timer-settled ops numbers 9 2 one_timer 40 3 ten_rounds (ground arith)

-- The code -1.
exit_requested-request_exit_example :
    exit_requested ops numbers (request_exit ops numbers one_timer (2 ^ 32 - 1)) ≡ some (2 ^ 32 - 1)
exit_requested-request_exit_example =
    exit_requested-request_exit ops numbers one_timer (2 ^ 32 - 1) (ground arith)

poll_next-Waits_example :
    (t' : Timer) × (r' : Reactor ops numbers) × (poll_next ops numbers 1000 2 waiting 30 8 one_timer
      ≡ some (pending, t', r'))
    × Waits ops numbers 1000 2 t' 40 8 r'
    × IsSound ops numbers 8 r'
poll_next-Waits_example =
    poll_next-Waits ops numbers 1000 2 8 waiting 40 8 one_timer ten_rounds (ground arith) 30 refl
      (ground arith) (λ id old e. ground (arith, waiting-found))

waiting-Waits : Waits ops numbers 1000 2 waiting 40 7 one_timer
waiting-Waits = record { id = 3; registered = refl; deadline_eq = refl; found = waiting-found }

poll_next_lost_example :
    (r' : Reactor ops numbers) × (ws : List Waker) × (d : Option Instant) × (process_timers ops
        numbers 1000 one_timer 40 []
      ≡ some (r', ws, d))
    × (poll_next ops numbers 1000 2 waiting 40 7 r' ≡ some (pending, waiting, r'))
    × (has 7 ws ≡ true)
    × ((id : ℕ) → lookup 40 id (settled ops numbers r') ≡ none)
poll_next_lost_example =
    poll_next_lost ops numbers 1000 2 10 waiting 40 7 one_timer [] ten_rounds (ground arith)
      waiting-Waits

poll_next-Next_example :
    (t' : Timer) × (r' : Reactor ops numbers) × (poll_next ops numbers 1000 2 waiting 70 7 one_timer
      ≡ some (ready (some 40), t', r'))
    × Next ops numbers 1000 2 t' (checked_add 1000 40 10) 7 r'
    × (t'.period ≡ 10)
    × IsSound ops numbers 8 r'
poll_next-Next_example =
    poll_next-Next ops numbers 1000 2 8 waiting 40 70 7 one_timer ten_rounds (ground arith) refl
      (ground arith)

at_fires_once_example :
    (t' : Timer) × (r' : Reactor ops numbers) × (poll_next ops numbers 1000 2 (at 40) 70 7 one_timer
      ≡ some (ready (some 40), t', r'))
    × ((later : Instant) (v : Waker) (r'' : Reactor ops numbers)
        → poll_next ops numbers 1000 2 t' later v r'' ≡ some (pending, t', r''))
at_fires_once_example =
    at_fires_once ops numbers 1000 2 8 40 70 7 one_timer ten_rounds (ground arith) (ground arith)
      (ground arith)

set_interval_at_forgets_example :
    (r' : Reactor ops numbers) × (set_interval_at ops numbers 1000 2 waiting 90 10 one_timer
      ≡ some (interval_at 90 10, r'))
    × (settled ops numbers r' ≡ Wheel.remove 40 3 (settled ops numbers one_timer))
set_interval_at_forgets_example =
    set_interval_at_forgets ops numbers 1000 2 9 waiting 40 90 3 10 7 one_timer ten_rounds
      (ground arith) refl refl
