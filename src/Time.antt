-- ===== src/Time.antt =====
-- What the source uses of std::time. An instant is a number of nanoseconds since an epoch of the
-- platform, of which it can represent those up to `max_instant`; a duration is a number of them.
use async_winit.Prelude.{ℕ, ◌+◌, ◌-◌, ◌*◌, ◌^◌, Option, none, some, leb, if◌then◌else◌}

abbrev pub Instant : Type 0
Instant = ℕ

-- `Duration::MAX`.
abbrev pub duration_max : ℕ
duration_max = (2 ^ 64 - 1) * 1_000_000_000 + 999_999_999

abbrev pub checked_add : ℕ → Instant → ℕ → Option Instant
checked_add max_instant t d = if leb (t + d) max_instant then some (t + d) else none
