-- ===== src/Window/Lifetime/Owners.antt =====
-- src/window.rs: a window that is cloned and dropped while its operations come and go.
use async_winit.Prelude.{
  ℕ, zero, suc, ◌⊎◌, ◌≡◌, ◌+◌, refl, ◌∙◌, false, none, some, ◌==◌, if◌then◌else◌, arith, inl, inr,
}
use async_winit.Sync.{QueueApi}
use async_winit.Reactor.{TimerOp, Reactor}
use async_winit.Reactor.Windows.{get, remove_window}
use async_winit.Reactor.Windows.Routes.{get-remove}
use async_winit.Window.Lifetime.{Shared, clone, release, drop_window}

module _ {queue : QueueApi TimerOp} {Op : Type 0} {channel : QueueApi Op}
    (id registration : ℕ) where
  -- The states of a window behind its building, with the number of its handles and of its operations
  -- that still stand in the queue. Only a handle is cloned or asks.
  pub data Reaches : ℕ → ℕ → Shared queue channel → Type 0 where
    built :
        (r : Reactor queue channel)
        → get id r.windows ≡ some registration
        → Reaches 1 0 (record { strong_count = 1; reactor = r })
    cloned :
        {h p : ℕ} {s : Shared queue channel}
        → Reaches (suc h) p s
        → Reaches (suc (suc h)) p (clone s)
    asked :
        {h p : ℕ} {s : Shared queue channel}
        → Reaches (suc h) p s
        → Reaches (suc h) (suc p) (clone s)
    answered : {h p : ℕ} {s : Shared queue channel} → Reaches h (suc p) s → Reaches h p (release s)
    dropped :
        {h p : ℕ} {s : Shared queue channel} → Reaches (suc h) p s → Reaches h p (drop_window id s)
    -- Whatever leaves this window in the map, or out of it.
    others :
        {h p : ℕ} {s : Shared queue channel} (r : Reactor queue channel)
        → get id r.windows ≡ get id s.reactor.windows
        → Reaches h p s
        → Reaches h p (record s { reactor = r })

  -- Each handle and each operation owns the window, and while there is a handle, it is in the map.
  pub record Owned (h p : ℕ) (s : Shared queue channel) : Type 0 where
    pub counted : s.strong_count ≡ h + p
    pub mapped : (h ≡ 0) ⊎ (get id s.reactor.windows ≡ some registration)

  -- The window is in the map.
  here :
      {h p : ℕ} {s : Shared queue channel}
      → Owned (suc h) p s
      → get id s.reactor.windows ≡ some registration
  here o = elim o.mapped [ inl e ↦ absurd (omega (arith, e)) | inr e ↦ e ]

  last_or_mapped :
      (h p : ℕ) (s : Shared queue channel)
      → Owned (suc h) p s
      → (h ≡ 0) ⊎ (get id (drop_window id s).reactor.windows ≡ some registration)
  unfolding drop_window release
  last_or_mapped zero p s o = inl refl
  last_or_mapped (suc h) p s o =
      let shared : (s.strong_count == 1) ≡ false = ground (arith, o.counted) in
      inr (rw (shared, if◌then◌else◌) (here o))

  drop_window-Owned :
      (h p : ℕ) (s : Shared queue channel) → Owned (suc h) p s → Owned h p (drop_window id s)
  unfolding drop_window release
  drop_window-Owned h p s o = record {
    counted = ground (arith, o.counted);
    mapped = last_or_mapped h p s o;
  }

  -- Whatever clones, drops, operations and answers there were since a window was built, its strong
  -- count is the number of its handles and of its operations in the queue, and if it has a handle,
  -- it is in the map under its registration.
  pub Reaches-Owned : {h p : ℕ} {s : Shared queue channel} → Reaches h p s → Owned h p s
  unfolding clone release
  Reaches-Owned (built r e) = record { counted = refl; mapped = inr e }
  Reaches-Owned (cloned c) =
      let o = Reaches-Owned c in
      record { counted = omega (arith, o.counted); mapped = inr (here o) }
  Reaches-Owned (asked c) =
      let o = Reaches-Owned c in
      record { counted = omega (arith, o.counted); mapped = inr (here o) }
  Reaches-Owned (answered c) =
      let o = Reaches-Owned c in record { counted = omega (arith, o.counted); mapped = o.mapped }
  Reaches-Owned (dropped {h} {p} {s} c) = drop_window-Owned h p s (Reaches-Owned c)
  Reaches-Owned (others r e c) =
      let o = Reaches-Owned c in
      record {
        counted = o.counted;
        mapped = elim o.mapped [ inl n ↦ inl n | inr e' ↦ inr (e ∙ e') ];
      }

  -- Whatever clones, drops, operations and answers there were since a window was built, the last
  -- handle that is dropped takes the window out of the map if no operation on it stands in the
  -- queue, and leaves it there otherwise.
  pub drop_window-last :
      {p : ℕ} {s : Shared queue channel}
      → Reaches 1 p s
      → get id (drop_window id s).reactor.windows ≡ (if p == 0 then none else some registration)
  unfolding drop_window release remove_window
  drop_window-last {p} {s} c =
      let o = Reaches-Owned c in
      let mapped = here o in ground (arith, o.counted, mapped, get-remove id id s.reactor.windows)
