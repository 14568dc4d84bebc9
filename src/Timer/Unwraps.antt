-- ===== src/Timer/Unwraps.antt =====
-- src/timer.rs, the timer as a future: what is unwrapped is there.
use async_winit.Prelude.{ℕ, ◌≡◌, Option, some, arith, map_option}
use async_winit.Task.{Waker, Poll, ready, pending}
use async_winit.Time.{Instant}
use async_winit.Sync.{QueueApi}
use async_winit.Reactor.{TimerOp, Reactor}
use async_winit.Timer.{Timer, poll_next, poll, fire, wait, register}

module _ (queue : QueueApi TimerOp) {Op : Type 0} (channel : QueueApi Op)
    (fuel max_instant : ℕ) where
  abbrev wrap : Poll Instant → Poll (Option Instant)
  wrap (ready i) = ready (some i)
  wrap pending = pending

  -- A poll of the future is that of the stream, which never ends.
  pub poll-poll_next :
      (t : Timer) (now : Instant) (w : Waker) (r : Reactor queue channel)
      → map_option
          (λ (p : Poll Instant × Timer × Reactor queue channel). (wrap p.0, p.1, p.2))
          (poll queue channel max_instant fuel t now w r)
        ≡ poll_next queue channel max_instant fuel t now w r
  unfolding poll poll_next fire wait register
  poll-poll_next t now w r = ground arith
