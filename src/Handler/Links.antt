-- ===== src/Handler/Links.antt =====
-- The links of a doubly linked list of keys: `prev` and `next` of each, read off the keys in order.
use async_winit.Prelude.{
  ℕ, ◌≡◌, refl, Bool, true, false, Option, none, some, List, [], ◌∷◌, ◌++◌, ◌==◌, if◌then◌else◌,
  Bool-cases, inl, inr, is_some, map_option, head?, has, erase, Distinct, arith,
}

abbrev pub Link : Type 0
Link = Option ℕ × Option ℕ

-- Whether an optional key is this one.
abbrev pub is_key : Option ℕ → ℕ → Bool
is_key none i = false
is_key (some k) i = k == i

-- `prev` and `next` of `i` in the list of keys, where `p` stands before the first.
unfoldable pub links : Option ℕ → List ℕ → ℕ → Option Link
links p [] i = none
links p (x ∷ xs) i = if x == i then some (p, head? xs) else links (some x) xs i

abbrev pub last_or : Option ℕ → List ℕ → Option ℕ
last_or p [] = p
last_or p (x ∷ xs) = last_or (some x) xs

-- `head_and_tail` of the list of keys.
abbrev pub ends : List ℕ → Option (ℕ × ℕ)
ends [] = none
ends (x ∷ xs) = elim (last_or (some x) xs) [ none ↦ none | some t ↦ some (x, t) ]

abbrev pub set_next : Option ℕ → Link → Link
set_next n (a, b) = (a, n)

abbrev pub set_prev : Option ℕ → Link → Link
set_prev p (a, b) = (p, b)

pub links-none : (p : Option ℕ) (xs : List ℕ) (i : ℕ) → has i xs ≡ false → links p xs i ≡ none
unfolding links
links-none p [] i h = refl
links-none p (x ∷ xs) i h = ground (arith, links-none (some x) xs i)

is_key-last_or :
    (p : Option ℕ) (xs : List ℕ) (i : ℕ)
    → has i xs ≡ false
    → is_key p i ≡ false
    → is_key (last_or p xs) i ≡ false
is_key-last_or p [] i h k = k
is_key-last_or p (x ∷ xs) i h k = is_key-last_or (some x) xs i (ground arith) (ground arith)

-- A key at the end: it follows the last one.
pub links-append_one :
    (p : Option ℕ) (xs : List ℕ) (k i : ℕ)
    → has k xs ≡ false
    → Distinct xs
    → links p (xs ++ k ∷ []) i ≡ (
        if k == i
        then some (last_or p xs, none)
        else if is_key (last_or none xs) i
        then map_option (set_next (some k)) (links p xs i)
        else links p xs i)
unfolding links
links-append_one p [] k i h d = ground arith
links-append_one p (x ∷ []) k i h d = ground arith
links-append_one p (x ∷ y ∷ ys) k i h d =
    ground (arith, links-append_one (some x) (y ∷ ys) k i, is_key-last_or (some y) ys x)

-- The key before and the key behind, where there are such, stand in the list.
pub links-prev :
    (p : Option ℕ) (xs : List ℕ) (k : ℕ) (a b : Option ℕ) (i : ℕ)
    → links p xs k ≡ some (a, b)
    → has i xs ≡ false
    → is_key p i ≡ false
    → is_key a i ≡ false
unfolding links
links-prev p [] k a b i e h q = cc
links-prev p (x ∷ xs) k a b i e h q = ground (arith, links-prev (some x) xs k a b i)

pub links-next :
    (p : Option ℕ) (xs : List ℕ) (k : ℕ) (a b : Option ℕ) (i : ℕ)
    → links p xs k ≡ some (a, b)
    → has i xs ≡ false
    → is_key b i ≡ false
unfolding links
links-next p [] k a b i e h = cc
links-next p (x ∷ []) k a b i e h = ground arith
links-next p (x ∷ y ∷ ys) k a b i e h = ground (arith, links-next (some x) (y ∷ ys) k a b i)

-- With the head gone the next key has `p` before it.
links-tail :
    (p q : Option ℕ) (xs : List ℕ) (i : ℕ)
    → Distinct xs
    → links p xs i
      ≡ (if is_key (head? xs) i then map_option (set_prev p) (links q xs i) else links q xs i)
unfolding links
links-tail p q [] i d = refl
links-tail p q (x ∷ xs) i d = ground arith

-- The list less one key: its neighbours are linked to each other.
pub links-erase :
    (p : Option ℕ) (xs : List ℕ) (k : ℕ) (a b : Option ℕ) (i : ℕ)
    → Distinct xs
    → ((j : ℕ) → is_key p j ≡ true → has j xs ≡ false)
    → links p xs k ≡ some (a, b)
    → links p (erase k xs) i ≡ (
        if k == i
        then none
        else if is_key b i
        then map_option (set_prev a) (links p xs i)
        else if is_key a i
        then map_option (set_next b) (links p xs i)
        else links p xs i)
unfolding links
links-erase p [] k a b i d q e = cc
links-erase p (x ∷ []) k a b i d q e = ground (arith, q i)
links-erase p (x ∷ y ∷ ys) k a b i d q e = elim (Bool-cases (x == k)) [
  | inl here ↦ ground (arith, q i, links-none (some y) ys i)
  | inr miss ↦
      let ih = links-erase (some x) (y ∷ ys) k a b i d.1 (λ j h. ground arith) (ground arith) in
      ground (
        arith,
        ih,
        links-next (some x) (y ∷ ys) k a b x,
        links-prev (some y) ys k a b x,
        links-prev (some y) ys k a b y,
      )
]

pub is_some-links : (p : Option ℕ) (xs : List ℕ) (i : ℕ) → is_some (links p xs i) ≡ has i xs
unfolding links
is_some-links p [] i = refl
is_some-links p (x ∷ xs) i = ground (arith, is_some-links (some x) xs i)

pub last_or-some :
    (x : ℕ) (xs : List ℕ) → (t : ℕ) × (last_or (some x) xs ≡ some t) × (has t (x ∷ xs) ≡ true)
last_or-some x [] = (x, refl, ground arith)
last_or-some x (y ∷ ys) = let (t, e, h) = last_or-some y ys in (t, e, ground arith)

pub last_or-append_one : (p : Option ℕ) (xs : List ℕ) (k : ℕ) → last_or p (xs ++ k ∷ []) ≡ some k
last_or-append_one p [] k = refl
last_or-append_one p (x ∷ xs) k = last_or-append_one (some x) xs k

-- What stands after the last key, and which key that is.
pub links-last :
    (p : Option ℕ) (x : ℕ) (xs : List ℕ) (t : ℕ)
    → Distinct (x ∷ xs)
    → last_or (some x) xs ≡ some t
    → map_option (λ l. l.1) (links p (x ∷ xs) t) ≡ some none
unfolding links
links-last p x [] t d e = ground arith
links-last p x (y ∷ ys) t d e =
    let (u, eq, h) = last_or-some y ys in ground (arith, links-last (some x) y ys t d.1)

pub last_or-erase :
    (p : Option ℕ) (xs : List ℕ) (k t : ℕ) (a b : Option ℕ)
    → Distinct xs
    → last_or p xs ≡ some t
    → links p xs k ≡ some (a, b)
    → last_or p (erase k xs) ≡ (if t == k then a else some t)
unfolding links
last_or-erase p [] k t a b d l e = cc
last_or-erase p (x ∷ []) k t a b d l e = ground arith
last_or-erase p (x ∷ y ∷ ys) k t a b d l e =
    let (u, eq, h) = last_or-some y ys in
    ground (arith, last_or-erase (some x) (y ∷ ys) k t a b d.1)

-- No key is its own neighbour.
pub links_irrefl :
    (p : Option ℕ) (xs : List ℕ) (k : ℕ) (a b : Option ℕ)
    → Distinct xs
    → is_key p k ≡ false
    → links p xs k ≡ some (a, b)
    → (is_key a k ≡ false) × (is_key b k ≡ false)
unfolding links
links_irrefl p [] k a b d h e = cc
links_irrefl p (x ∷ []) k a b d h e = ground arith
links_irrefl p (x ∷ y ∷ ys) k a b d h e = ground (arith, links_irrefl (some x) (y ∷ ys) k a b d.1)

-- The two neighbours of a key differ.
pub neighbours_ne :
    (p : Option ℕ) (xs : List ℕ) (k : ℕ) (a b : Option ℕ) (i : ℕ)
    → Distinct xs
    → (is_key p i ≡ true → has i xs ≡ false)
    → links p xs k ≡ some (a, b)
    → is_key a i ≡ true
    → is_key b i ≡ false
unfolding links
neighbours_ne p [] k a b i d h e q = cc
neighbours_ne p (x ∷ []) k a b i d h e q = ground arith
neighbours_ne p (x ∷ y ∷ ys) k a b i d h e q =
    ground (arith, neighbours_ne (some x) (y ∷ ys) k a b i d.1, links-next (some y) ys k a b x)

-- The key behind `i`, if any, stands in the list.
abbrev pub next_of : List ℕ → ℕ → Option ℕ
next_of [] i = none
next_of (x ∷ xs) i = if x == i then head? xs else next_of xs i

pub links-next_of :
    (p : Option ℕ) (xs : List ℕ) (i : ℕ) (a b : Option ℕ)
    → links p xs i ≡ some (a, b)
    → next_of xs i ≡ b
unfolding links
links-next_of p [] i a b e = cc
links-next_of p (x ∷ xs) i a b e = ground (arith, links-next_of (some x) xs i a b)

pub has-next_of : (xs : List ℕ) (i n : ℕ) → next_of xs i ≡ some n → has n xs ≡ true
has-next_of [] i n e = cc
has-next_of (x ∷ []) i n e = ground arith
has-next_of (x ∷ y ∷ ys) i n e = ground (arith, has-next_of (y ∷ ys) i n)
