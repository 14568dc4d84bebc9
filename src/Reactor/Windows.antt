-- ===== src/Reactor/Windows.antt =====
-- src/reactor.rs: the map of windows, and which handler an event of winit is handed to. A registration
-- is known by a number, and `Rc::new` makes the next one.
pub mod Routes
use async_winit.Prelude.{
  ℕ, suc, Option, none, some, List, [], ◌∷◌, ◌==◌, if◌then◌else◌, ◌>>=◌, map_option,
}
use async_winit.Sync.{QueueApi}
use async_winit.Reactor.{TimerOp, Reactor}
use async_winit.Window.Registration.{Winit, WindowEvent, Signal, signal}

-- `HashMap::get`, `remove` and `insert`, on the pairs of a key and a value.
unfoldable pub get : ℕ → List (ℕ × ℕ) → Option ℕ
get id [] = none
get id (w ∷ windows) = if w.0 == id then some (w.1) else get id windows

unfoldable pub remove : ℕ → List (ℕ × ℕ) → List (ℕ × ℕ)
remove id [] = []
remove id (w ∷ windows) = let rest = remove id windows in if w.0 == id then rest else w ∷ rest

unfoldable pub insert : ℕ → ℕ → List (ℕ × ℕ) → List (ℕ × ℕ)
insert id registration windows = (id, registration) ∷ remove id windows

module _ (queue : QueueApi TimerOp) {Op : Type 0} (channel : QueueApi Op) where
  -- The registration, the supply of the following ones, and the reactor.
  unfoldable pub insert_window : ℕ → ℕ → Reactor queue channel → ℕ × ℕ × Reactor queue channel
  insert_window id next r = (next, suc next, record r { windows = insert id next r.windows })

  unfoldable pub remove_window : ℕ → Reactor queue channel → Reactor queue channel
  remove_window id r = record r { windows = remove id r.windows }

module _ (winit : Winit) (Rest : Type 0) where
  -- winit's events; those that the match does not name are `rest`.
  pub data Event : Type 0 where
    window_event : ℕ → WindowEvent winit → Event
    resumed_event : Event
    suspended_event : Event
    rest : Rest → Event

  -- The handler that is run: one of a window's registration, or one of `GlobalRegistration`.
  pub data Delivery : Type 0 where
    to_window : ℕ → Signal winit → Delivery
    resumed : Delivery
    suspended : Delivery

module _ {winit : Winit} {Rest : Type 0} (queue : QueueApi TimerOp) {Op : Type 0}
    (channel : QueueApi Op) where
  -- `post_event`: the handler that the event is run with, if any.
  unfoldable pub post_event :
      Event winit Rest → Reactor queue channel → Option (Delivery winit Rest)
  post_event (window_event window_id event) r = get window_id r.windows >>= λ registration.
      map_option (to_window registration) (signal winit event)
  post_event resumed_event r = some resumed
  post_event suspended_event r = some suspended
  post_event (rest e) r = none
