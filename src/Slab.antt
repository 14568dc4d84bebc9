-- ===== src/Slab.antt =====
-- The slab crate, which the handler's listener list stands on, as an interface: a store of values
-- under keys that it chooses. `vacant_key` is the key that the next `insert` returns.
pub mod Entries
use async_winit.Prelude.{ℕ, ◌≡◌, Option, none, some, List, [], ◌∷◌, ◌==◌, if◌then◌else◌, arith}

pub record SlabApi (T : Type 0) : Type 1 where
  pub Slab : Type 0
  pub empty : Slab
  pub get : Slab → ℕ → Option T
  pub vacant_key : Slab → ℕ
  pub insert : Slab → T → Slab
  -- A write through `IndexMut`, or through a `Cell` of the value.
  pub set : Slab → ℕ → T → Slab
  pub remove : Slab → ℕ → Slab
  pub get-empty : (j : ℕ) → get empty j ≡ none
  pub get-vacant_key : (s : Slab) → get s (vacant_key s) ≡ none
  pub get-insert :
      (s : Slab) (v : T) (j : ℕ)
      → get (insert s v) j ≡ (if vacant_key s == j then some v else get s j)
  pub get-set :
      (s : Slab) (i : ℕ) (u v : T) (j : ℕ)
      → get s i ≡ some u
      → get (set s i v) j ≡ (if i == j then some v else get s j)
  pub get-remove : (s : Slab) (i j : ℕ) → get (remove s i) j ≡ (if i == j then none else get s j)
