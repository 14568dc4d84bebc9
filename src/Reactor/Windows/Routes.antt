-- ===== src/Reactor/Windows/Routes.antt =====
-- src/reactor.rs: where the events of a window go, in the course of windows that come and go.
use async_winit.Prelude.{
  ℕ, suc, ◌≡◌, refl, ap, ◌∙◌, Option, none, some, List, [], ◌∷◌, ◌==◌, if◌then◌else◌, ◌>>=◌,
  map_option, arith,
}
use async_winit.Sync.{QueueApi}
use async_winit.Reactor.{TimerOp, Reactor}
use async_winit.Window.Registration.{Winit, WindowEvent, signal}
use async_winit.Reactor.Windows.{
  get, remove, insert, insert_window, remove_window, window_event, to_window, post_event,
}

pub get-remove :
    (id j : ℕ) (windows : List (ℕ × ℕ))
    → get j (remove id windows) ≡ (if id == j then none else get j windows)
unfolding get remove
get-remove id j [] = ground arith
get-remove id j (w ∷ windows) = ground (arith, get-remove id j windows)

pub get-insert :
    (id registration j : ℕ) (windows : List (ℕ × ℕ))
    → get j (insert id registration windows)
      ≡ (if id == j then some registration else get j windows)
unfolding get insert
get-insert id registration j windows = ground (arith, get-remove id j windows)

-- A window comes or goes.
pub data Change : Type 0 where
  inserted : ℕ → Change
  removed : ℕ → Change

module _ (queue : QueueApi TimerOp) {Op : Type 0} (channel : QueueApi Op) where
  -- The changes, one after the other, with the supply of registrations.
  abbrev pub run_changes : List Change → ℕ → Reactor queue channel → ℕ × Reactor queue channel
  run_changes [] next r = (next, r)
  run_changes (inserted id ∷ changes) next r =
      let (_, next', r') = insert_window queue channel id next r in run_changes changes next' r'
  run_changes (removed id ∷ changes) next r =
      run_changes changes next (remove_window queue channel id r)

  -- The registration that the last change of a window leaves it with, where it had `before`.
  abbrev pub latest : List Change → ℕ → ℕ → Option ℕ → Option ℕ
  latest [] next j before = before
  latest (inserted id ∷ changes) next j before =
      latest changes (suc next) j (if id == j then some next else before)
  latest (removed id ∷ changes) next j before =
      latest changes next j (if id == j then none else before)

  get-run_changes :
      (changes : List Change) (next j : ℕ) (r : Reactor queue channel)
      → get j (run_changes changes next r).1.windows ≡ latest changes next j (get j r.windows)
  unfolding insert_window remove_window
  get-run_changes [] next j r = refl
  get-run_changes (inserted id ∷ changes) next j r =
      get-run_changes changes (suc next) j (record r { windows = insert id next r.windows })
      ∙ ap (latest changes (suc next) j) (get-insert id next j r.windows)
  get-run_changes (removed id ∷ changes) next j r =
      get-run_changes changes next j (record r { windows = remove id r.windows })
      ∙ ap (latest changes next j) (get-remove id j r.windows)

  -- After any windows were inserted and removed, where there were none at first, an event of a
  -- window is handed to the registration that the last insertion of this window made, with the
  -- handler of the event's name, and to none where the window was never inserted, or removed since,
  -- or the event has no handler.
  pub post_event-run_changes :
      {winit : Winit} {Rest : Type 0} (changes : List Change) (next j : ℕ)
      (event : WindowEvent winit) (r : Reactor queue channel)
      → r.windows ≡ []
      → post_event {winit = winit} {Rest = Rest} queue channel
          (window_event j event)
          (run_changes changes next r).1
        ≡ (latest changes next j none >>= λ registration.
            map_option (to_window registration) (signal winit event))
  unfolding post_event get
  post_event-run_changes {winit = winit} changes next j event r empty =
      ap
        (λ (o : Option ℕ).
          o >>= λ registration. map_option (to_window registration) (signal winit event))
        (get-run_changes changes next j r ∙ (rw empty refl))
