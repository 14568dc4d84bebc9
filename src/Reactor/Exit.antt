-- ===== src/Reactor/Exit.antt =====
-- src/reactor.rs: the exit code, packed into one integer with the flag that says it is set.
use async_winit.Prelude.{
  ℕ, ◌≡◌, ◌+◌, ◌-◌, ◌≤◌, ◌⊎◌, inl, inr, ltb, Bool-cases, ◌*◌, ◌%◌, ◌<◌, ◌^◌, some, arith,
}
use async_winit.Sync.{QueueApi}
use async_winit.Reactor.{
  TimerOp, Reactor, exit_requested, request_exit, notify_proxy, or_needs_exit, sign_extend,
  shift_right_one,
}

unpacked :
    (code : ℕ)
    → code < 2 ^ 32
    → shift_right_one (or_needs_exit (sign_extend code * 2 % 2 ^ 64)) % 2 ^ 32 ≡ code
unfolding shift_right_one or_needs_exit sign_extend
unpacked code h = ground arith

module _ (queue : QueueApi TimerOp) {Op : Type 0} (channel : QueueApi Op) where
  -- Every 32-bit exit code that is requested is read back, the negative ones included.
  pub exit_requested-request_exit :
      (r : Reactor queue channel) (code : ℕ)
      → code < 2 ^ 32
      → exit_requested queue channel (request_exit queue channel r code) ≡ some code
  unfolding exit_requested request_exit notify_proxy or_needs_exit
  exit_requested-request_exit r code h = ground (arith, unpacked code h)

  -- The packed form of a 32-bit exit code is twice the signed code plus one, in 64-bit two's
  -- complement: `2 * code + 1` for a code below `2^31`, which stands for itself, and for any other,
  -- which stands for `code - 2^32`, less than `2^64 + 1` by twice `2^32 - code`.
  pub exit_code-packed :
      (r : Reactor queue channel) (code : ℕ)
      → code < 2 ^ 32
      → ((code < 2 ^ 31) × ((request_exit queue channel r code).exit_code ≡ 2 * code + 1))
        ⊎ ((2 ^ 31 ≤ code)
            × ((request_exit queue channel r code).exit_code + 2 * (2 ^ 32 - code) ≡ 2 ^ 64 + 1))
  unfolding request_exit notify_proxy or_needs_exit sign_extend
  exit_code-packed r code h = elim (Bool-cases (ltb code (2 ^ 31))) [
    | inl small ↦ inl (ground arith, ground arith)
    | inr big ↦ inr (ground arith, ground arith)
  ]
