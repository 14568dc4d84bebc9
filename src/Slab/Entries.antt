-- ===== src/Slab/Entries.antt =====
-- A slab that meets the interface: a list of entries, where a new value goes to the first vacant one.
use async_winit.Prelude.{
  ℕ, zero, suc, ◌≡◌, refl, Option, none, some, List, [], ◌∷◌, ◌==◌, if◌then◌else◌, arith,
}
use async_winit.Slab.{SlabApi}

module _ {T : Type 0} where
  unfoldable pub entry : List (Option T) → ℕ → Option T
  entry [] j = none
  entry (e ∷ es) zero = e
  entry (e ∷ es) (suc j) = entry es j

  unfoldable pub first_vacant : List (Option T) → ℕ
  first_vacant [] = 0
  first_vacant (none ∷ es) = 0
  first_vacant (some v ∷ es) = suc (first_vacant es)

  unfoldable pub fill_vacant : List (Option T) → T → List (Option T)
  fill_vacant [] v = some v ∷ []
  fill_vacant (none ∷ es) v = some v ∷ es
  fill_vacant (some u ∷ es) v = some u ∷ fill_vacant es v

  unfoldable pub write : List (Option T) → ℕ → Option T → List (Option T)
  write [] i o = []
  write (e ∷ es) zero o = o ∷ es
  write (e ∷ es) (suc i) o = e ∷ write es i o

  pub entry-first_vacant : (es : List (Option T)) → entry es (first_vacant es) ≡ none
  unfolding entry first_vacant
  entry-first_vacant [] = refl
  entry-first_vacant (none ∷ es) = refl
  entry-first_vacant (some v ∷ es) = entry-first_vacant es

  pub entry-fill_vacant :
      (es : List (Option T)) (v : T) (j : ℕ)
      → entry (fill_vacant es v) j ≡ (if first_vacant es == j then some v else entry es j)
  unfolding entry first_vacant fill_vacant
  entry-fill_vacant [] v zero = refl
  entry-fill_vacant [] v (suc j) = ground arith
  entry-fill_vacant (none ∷ es) v zero = refl
  entry-fill_vacant (none ∷ es) v (suc j) = ground arith
  entry-fill_vacant (some u ∷ es) v zero = ground arith
  entry-fill_vacant (some u ∷ es) v (suc j) = ground (arith, entry-fill_vacant es v j)

  pub entry-write :
      (es : List (Option T)) (i : ℕ) (u v : T) (j : ℕ)
      → entry es i ≡ some u
      → entry (write es i (some v)) j ≡ (if i == j then some v else entry es j)
  unfolding entry write
  entry-write [] i u v j e = cc
  entry-write (e ∷ es) zero u v zero h = refl
  entry-write (e ∷ es) zero u v (suc j) h = ground arith
  entry-write (e ∷ es) (suc i) u v zero h = ground arith
  entry-write (e ∷ es) (suc i) u v (suc j) h = ground (arith, entry-write es i u v j h)

  pub entry-write-none :
      (es : List (Option T)) (i j : ℕ)
      → entry (write es i none) j ≡ (if i == j then none else entry es j)
  unfolding entry write
  entry-write-none [] i j = ground arith
  entry-write-none (e ∷ es) zero zero = refl
  entry-write-none (e ∷ es) zero (suc j) = ground arith
  entry-write-none (e ∷ es) (suc i) zero = ground arith
  entry-write-none (e ∷ es) (suc i) (suc j) = ground (arith, entry-write-none es i j)

  unfoldable pub entries : SlabApi T
  unfolding entry first_vacant fill_vacant write
  entries = record {
    Slab = List (Option T);
    empty = [];
    get = entry;
    vacant_key = first_vacant;
    insert = fill_vacant;
    set = λ es i v. write es i (some v);
    remove = λ es i. write es i none;
    get-empty = λ j. refl;
    get-vacant_key = entry-first_vacant;
    get-insert = entry-fill_vacant;
    get-set = entry-write;
    get-remove = entry-write-none;
  }
