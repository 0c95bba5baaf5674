-- ===== src/Prelude/Sets.antt =====
-- `HashSet<String>` as a list without repetitions, the order in which Rust walks one, and what
-- adding, removing and counting do to it.
use Prim.Native.Nat.{◌+◌, ◌≤◌, ◌<◌}
use Prim.Native.String.{String}
use mathlib.Core.Path.{◌≡◌, refl, ap}
use mathlib.Core.Logic.{inl, inr}
use mathlib.Core.Bool.{true, false, not, ◌&&◌, ◌||◌}
use mathlib.Core.List.{List, [], ◌∷◌, ◌++◌}
use native.Mathlib.Omega.{arith}
use text.Mathlib.Text.{◌==◌ as str_eq}
use text.Mathlib.TextEquality.{eq_iff}
use text.Mathlib.TextPositions.{eq_refl}
use onde_resilience.Prelude.Tests.{if◌then◌else◌, Bool-cases}
use onde_resilience.Prelude.Lists.{length, contains, push_back}

abbrev pub Distinct : List String → Type 0
Distinct [] = Unit {0}
Distinct (x ∷ xs) = (contains xs x ≡ false) × Distinct xs

unfoldable pub set_insert : String → List String → List String
set_insert x xs = if contains xs x then xs else push_back xs x

unfoldable pub set_remove : String → List String → List String
set_remove x [] = []
set_remove x (y ∷ ys) = if str_eq y x then set_remove x ys else y ∷ set_remove x ys

-- The elements of `xs` that are not in `keep`.
unfoldable pub misses : List String → List String → List String
misses keep [] = []
misses keep (x ∷ xs) = if contains keep x then misses keep xs else x ∷ misses keep xs

-- The order of `HashSet::iter`: any order, with each element once.
pub record SetOrder : Type 0 where
  pub iter : List String → List String
  pub iter-contains : (xs : List String) (x : String) → contains (iter xs) x ≡ contains xs x
  pub iter-length : (xs : List String) → length (iter xs) ≡ length xs
  pub iter-Distinct : (xs : List String) → Distinct xs → Distinct (iter xs)

pub contains-append :
    (xs ys : List String) (x : String) → contains (xs ++ ys) x ≡ (contains xs x || contains ys x)
contains-append [] ys x = refl
contains-append (z ∷ xs) ys x = ground (arith, contains-append xs ys x)

pub contains-push_back :
    (xs : List String) (x y : String) → contains (push_back xs x) y ≡ (contains xs y || str_eq x y)
contains-push_back [] x y = ground arith
contains-push_back (z ∷ xs) x y = ground (arith, contains-push_back xs x y)

pub Distinct-push_back :
    (xs : List String) (x : String)
    → Distinct xs
    → contains xs x ≡ false
    → Distinct (push_back xs x)
Distinct-push_back [] x d h = (refl, tt)
Distinct-push_back (z ∷ xs) x d h = (
  ground (arith, contains-push_back xs x z, eq_iff x z, eq_iff z x, d.0),
  Distinct-push_back xs x d.1 (ground arith),
)

pub contains-set_insert :
    (x : String) (xs : List String) (y : String)
    → contains (set_insert x xs) y ≡ (contains xs y || str_eq x y)
unfolding set_insert
contains-set_insert x xs y = ground (arith, contains-push_back xs x y, eq_iff x y)

pub contains-set_remove :
    (x : String) (xs : List String) (y : String)
    → contains (set_remove x xs) y ≡ (contains xs y && not (str_eq x y))
unfolding set_remove
contains-set_remove x [] y = refl
contains-set_remove x (z ∷ xs) y =
    ground (arith, contains-set_remove x xs y, eq_iff x y, eq_iff z x, eq_iff z y)

pub Distinct-set_remove : (x : String) (xs : List String) → Distinct xs → Distinct (set_remove x xs)
unfolding set_remove
Distinct-set_remove x [] d = tt
Distinct-set_remove x (z ∷ xs) d = elim (Bool-cases (str_eq z x)) [
  | inl same ↦ rw same (Distinct-set_remove x xs d.1)
  | inr apart ↦
      rw apart (ground (arith, contains-set_remove x xs z, d.0), Distinct-set_remove x xs d.1)
]

pub set_remove-absent :
    (x : String) (xs : List String) → contains xs x ≡ false → set_remove x xs ≡ xs
unfolding set_remove
set_remove-absent x [] h = refl
set_remove-absent x (z ∷ xs) h = ground (arith, set_remove-absent x xs)

-- Removing an element that is there makes the set smaller by one.
pub length-set_remove :
    (x : String) (xs : List String)
    → Distinct xs
    → contains xs x ≡ true
    → length (set_remove x xs) + 1 ≡ length xs
unfolding set_remove
length-set_remove x [] d h = ground arith
length-set_remove x (z ∷ xs) d h = elim (Bool-cases (str_eq z x)) [
  | inl same ↦ rw (same, set_remove-absent x xs (ground (arith, eq_iff z x, d.0))) (omega arith)
  | inr apart ↦ rw apart (omega (arith, length-set_remove x xs d.1 (ground arith)))
]

length-set_remove-le : (x : String) (xs : List String) → length (set_remove x xs) ≤ length xs
unfolding set_remove
length-set_remove-le x [] = omega arith
length-set_remove-le x (z ∷ xs) = ground (arith, length-set_remove-le x xs)

length-set_remove-lt :
    (x : String) (xs : List String) → contains xs x ≡ true → length (set_remove x xs) < length xs
unfolding set_remove
length-set_remove-lt x [] h = ground arith
length-set_remove-lt x (z ∷ xs) h =
    ground (arith, length-set_remove-le x xs, length-set_remove-lt x xs)

misses-agree :
    (keep other xs : List String)
    → ((y : String) → contains xs y ≡ true → contains keep y ≡ contains other y)
    → misses keep xs ≡ misses other xs
unfolding misses
misses-agree keep other [] h = refl
misses-agree keep other (x ∷ xs) h =
    rw (h x (ground (arith, eq_refl x)), misses-agree keep other xs λ y i. h y (ground arith))

-- Distinct elements that are all but `misses` in `keep` cannot be more than `keep` holds.
pub length-misses :
    (xs keep : List String) → Distinct xs → length xs ≤ length (misses keep xs) + length keep
unfolding misses
length-misses [] keep d = omega arith
length-misses (x ∷ xs) keep d = elim (Bool-cases (contains keep x)) [
  | inr out ↦ rw out (omega (arith, length-misses xs keep d.1))
  | inl held ↦
      let less = length-misses xs (set_remove x keep) d.1 in
      let same =
        misses-agree (set_remove x keep) keep xs
          λ y i. ground (arith, contains-set_remove x keep y, eq_iff x y, d.0) in
      rw held (omega (arith, less, ap length same, length-set_remove-lt x keep held))
]
