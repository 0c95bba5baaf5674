-- ===== src/Dtn/Removal.antt =====
-- The removal idiom of `tick` and `collect_forwarded` (core/crates/dtn-router/src/lib.rs): the
-- indices that a scan notes are removed from the back, which leaves what the scan did not note.
use mathlib.Core.List.{reverse-cons}
use onde_resilience.Prelude.{
  ℕ, suc, ◌+◌, ◌<◌, arith, length, ◌≡◌, refl, ap, Bool, not, inl, inr, List, [], ◌∷◌, ◌++◌, map,
  reverse, if◌then◌else◌, remove_at, keep_if, Bool-cases, reverse-map,
}
use onde_resilience.Prelude.Words.{u64_mod, add_u64, add_u64-exact}
use onde_resilience.Dtn.{DtnMessage, remove_each}

-- The indices, from `idx` on, at which a scan by `p` notes an element.
abbrev pub hits : (DtnMessage → Bool) → ℕ → List DtnMessage → List ℕ
hits p idx [] = []
hits p idx (x ∷ xs) = if p x then idx ∷ hits p (suc idx) xs else hits p (suc idx) xs

hits-suc :
    (p : DtnMessage → Bool) (idx : ℕ) (xs : List DtnMessage)
    → hits p (suc idx) xs ≡ map suc (hits p idx xs)
hits-suc p idx [] = refl
hits-suc p idx (x ∷ xs) = elim (Bool-cases (p x)) [
  | inl hit ↦ rw hit (ap (◌∷◌ (suc idx)) (hits-suc p (suc idx) xs))
  | inr miss ↦ rw miss (hits-suc p (suc idx) xs)
]

remove_each-append :
    (is js : List ℕ) (xs : List DtnMessage)
    → remove_each (is ++ js) xs ≡ remove_each js (remove_each is xs)
unfolding remove_each
remove_each-append [] js xs = refl
remove_each-append (i ∷ is) js xs = remove_each-append is js (remove_at xs i)

-- Indices that are all one further leave the head alone.
remove_each-map-suc :
    (is : List ℕ) (x : DtnMessage) (xs : List DtnMessage)
    → remove_each (map suc is) (x ∷ xs) ≡ x ∷ remove_each is xs
unfolding remove_each
remove_each-map-suc [] x xs = refl
remove_each-map-suc (i ∷ is) x xs = remove_each-map-suc is x (remove_at xs i)

remove_shifted :
    (is : List ℕ) (x : DtnMessage) (xs : List DtnMessage)
    → remove_each (reverse (map suc is)) (x ∷ xs) ≡ x ∷ remove_each (reverse is) xs
remove_shifted is x xs = rw reverse-map (remove_each-map-suc (reverse is) x xs)

module _ (p : DtnMessage → Bool) (f : DtnMessage → DtnMessage) where
  -- Removed from the back, the noted indices take away exactly the elements that `p` notes, also
  -- where the scan has changed each element by `f`.
  pub remove_hits :
      (xs : List DtnMessage)
      → remove_each (reverse (hits p 0 xs)) (map f xs) ≡ map f (keep_if (λ x. not (p x)) xs)
  unfolding remove_each
  remove_hits [] = refl
  remove_hits (x ∷ xs) = elim (Bool-cases (p x)) [
    | inl hit ↦
        rw (hit, hits-suc p 0 xs, reverse-cons, remove_each-append, remove_shifted) (remove_hits xs)
    | inr miss ↦ rw (miss, hits-suc p 0 xs, remove_shifted) (ap (◌∷◌ (f x)) (remove_hits xs))
  ]

-- A counter that goes up once for each element.
abbrev pub count_from : ℕ → List DtnMessage → ℕ
count_from n [] = n
count_from n (x ∷ xs) = count_from (add_u64 n 1) xs

pub count_from-length :
    (n : ℕ) (xs : List DtnMessage) → n + length xs < u64_mod → count_from n xs ≡ n + length xs
count_from-length n [] h = omega arith
count_from-length n (x ∷ xs) h =
    rw (add_u64-exact n 1 (omega arith)) (omega (arith, count_from-length (n + 1) xs (omega arith)))
