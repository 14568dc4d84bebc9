-- ===== src/Wheel.antt =====
-- src/reactor.rs: the timer wheel, a `BTreeMap<(Instant, usize), Waker>`. A map is the list of its
-- entries in the order of their keys.
pub mod Order
use async_winit.Prelude.{
  ℕ, Bool, true, false, ◌&&◌, ◌||◌, Option, none, some, List, [], ◌∷◌, ltb, ◌==◌, if◌then◌else◌,
  map, ◌≡◌, ◌<◌, ◌⊎◌,
}
use async_winit.Task.{Waker}
use async_winit.Time.{Instant}

pub record Entry : Type 0 where
  pub deadline : Instant
  pub id : ℕ
  pub waker : Waker

abbrev pub Wheel : Type 0
Wheel = List Entry

-- The order of the keys, deadline first.
abbrev pub before : Instant → ℕ → Instant → ℕ → Bool
before t i u j = ltb t u || (t == u) && ltb i j

abbrev pub same_key : Instant → ℕ → Instant → ℕ → Bool
same_key t i u j = (t == u) && (i == j)

-- `insert`: the value of a key that is taken is replaced.
unfoldable pub insert : Instant → ℕ → Waker → Wheel → Wheel
insert t i w [] = record { deadline = t; id = i; waker = w } ∷ []
insert t i w (e ∷ es) =
    if same_key e.deadline e.id t i
    then record { deadline = t; id = i; waker = w } ∷ es
    else if before t i e.deadline e.id
    then record { deadline = t; id = i; waker = w } ∷ e ∷ es
    else e ∷ insert t i w es

unfoldable pub remove : Instant → ℕ → Wheel → Wheel
remove t i [] = []
remove t i (e ∷ es) = if same_key e.deadline e.id t i then es else e ∷ remove t i es

unfoldable pub lookup : Instant → ℕ → Wheel → Option Waker
lookup t i [] = none
lookup t i (e ∷ es) = if same_key e.deadline e.id t i then some e.waker else lookup t i es

-- `split_off`: the entries before the key stay, the others are handed out.
unfoldable pub keys_before : Instant → ℕ → Wheel → Wheel
keys_before t i [] = []
keys_before t i (e ∷ es) =
    if before e.deadline e.id t i then e ∷ keys_before t i es else keys_before t i es

unfoldable pub split_off : Instant → ℕ → Wheel → Wheel
split_off t i [] = []
split_off t i (e ∷ es) =
    if before e.deadline e.id t i then split_off t i es else e ∷ split_off t i es

-- Every key of the wheel comes behind this one.
abbrev pub Behind : Instant → ℕ → Wheel → Type 0
Behind t i [] = Unit {0}
Behind t i (e ∷ es) = (before t i e.deadline e.id ≡ true) × Behind t i es

abbrev pub IsSorted : Wheel → Type 0
IsSorted [] = Unit {0}
IsSorted (e ∷ es) = Behind e.deadline e.id es × IsSorted es
