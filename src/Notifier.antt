-- ===== src/Notifier.antt =====
-- src/filter.rs: `ReactorWaker`, through which tasks wake the event loop. `sent` counts the events
-- that its proxy has sent.
use async_winit.Prelude.{ℕ, ◌+◌, Bool, true, if◌then◌else◌}

pub record ReactorWaker : Type 0 where
  pub notified : Bool
  pub awake : Bool
  pub sent : ℕ

unfoldable pub notify : ReactorWaker → ReactorWaker
notify r =
    if r.notified
    then r
    else if r.awake
    then record r { notified = true }
    else record r { notified = true; sent = r.sent + 1 }
