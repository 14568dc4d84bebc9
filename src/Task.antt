-- ===== src/Task.antt =====
-- What the source uses of std::task: wakers and the result of a poll.
use async_winit.Prelude.{ℕ, Bool, Option, none, some, List, [], ◌∷◌, ◌==◌}

-- The identity of a task. `will_wake` compares identities, and a clone has the same one.
abbrev pub Waker : Type 0
Waker = ℕ

abbrev pub will_wake : Waker → Waker → Bool
will_wake a b = a == b

pub data Poll {ℓ} (A : Type ℓ) : Type ℓ where
  ready : A → Poll A
  pending : Poll A

-- `if let Some(waker) = w { waker.wake() }`: the wakers that a step wakes, in order.
abbrev pub wake_opt : Option Waker → List Waker
wake_opt none = []
wake_opt (some w) = w ∷ []
