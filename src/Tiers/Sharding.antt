-- ===== src/Tiers/Sharding.antt =====
-- Which messages are for this place: `should_store_locally` of core/src/storage/mod.rs.
use Prim.Native.Char.{code}
use onde_resilience.Prelude.{
  ℕ, zero, suc, ◌≤◌, ◌<◌, ◌≡◌, ◌↔◌, ◌⊎◌, inl, inr, refl, ap, ap₂, String, true, false, List, [],
  ◌∷◌, ◌++◌, arith, if◌then◌else◌, leb, ◌==◌, ==_iff, length, Bool-cases,
}
use onde_resilience.Tiers.{MessageTier, common_prefix, should_store_locally, tier_eq}

-- The characters of a text, by their codes.
abbrev pub chars : String → List ℕ
chars String.[] = []
chars (String.◌∷◌ c s) = code c ∷ chars s

abbrev pub IsPrefix : List ℕ → List ℕ → Type 0
IsPrefix p xs = (rest : List ℕ) × (xs ≡ p ++ rest)

-- Two texts begin with the same `n` characters.
abbrev pub Share : ℕ → String → String → Type 0
Share n s t = (p : List ℕ) × (length p ≡ n) × IsPrefix p (chars s) × IsPrefix p (chars t)

share : (n : ℕ) (s t : String) → n ≤ common_prefix s t → Share n s t
unfolding common_prefix
share zero s t h = ([], refl, (chars s, refl), (chars t, refl))
share (suc n) String.[] t h = absurd (omega arith)
share (suc n) (String.◌∷◌ a s) String.[] h = absurd (omega arith)
share (suc n) (String.◌∷◌ a s) (String.◌∷◌ b t) h = elim (Bool-cases (code a == code b)) [
  | inl same ↦
      let (p, size, (r, e), (q, f)) = share n s t (ground arith) in
      (
        code a ∷ p,
        omega arith,
        (r, ap (◌∷◌ (code a)) e),
        (q, ap₂ ◌∷◌ (omega (arith, (==_iff (code a) (code b)).0 same)) f),
      )
  | inr apart ↦ absurd (ground arith)
]

shared :
    (p : List ℕ) (s t : String)
    → IsPrefix p (chars s)
    → IsPrefix p (chars t)
    → length p ≤ common_prefix s t
unfolding common_prefix
shared [] s t h k = omega arith
shared (x ∷ p) String.[] t (r, h) k = cc
shared (x ∷ p) (String.◌∷◌ a s) String.[] h (q, k) = cc
shared (x ∷ p) (String.◌∷◌ a s) (String.◌∷◌ b t) (r, h) (q, k) =
    ground (arith, shared p s t (r, ap tail h) (q, ap tail k), ap (head x) h, ap (head x) k)
  where
    tail : List ℕ → List ℕ
    tail [] = []
    tail (y ∷ ys) = ys

    head : ℕ → List ℕ → ℕ
    head x [] = x
    head x (y ∷ ys) = y

near_iff :
    (g my : String) (n : ℕ)
    → ((if n == 0 then false else leb n (common_prefix g my)) ≡ true) ↔ ((0 < n) × Share n g my)
near_iff g my n = (
  (λ h. (ground arith, share n g my (ground arith))),
  λ (positive, (p, size, h, k)). ground (arith, shared p g my h k),
)

either :
    (g my : String) (tier : MessageTier) (n : ℕ)
    → tier_eq tier MessageTier.critical ≡ false
    → (tier ≡ MessageTier.critical → ⊥)
    → (should_store_locally g my tier n ≡ true)
      ↔ ((tier ≡ MessageTier.critical) ⊎ ((0 < n) × Share n g my))
unfolding should_store_locally
either g my tier n other never = rw other (
  (λ h. inr ((near_iff g my n).0 h)),
  λ h. elim h [ inl is ↦ absurd (never is) | inr near ↦ (near_iff g my n).1 near ],
)

-- A message is stored here exactly when it is critical, or its geohash and the local one begin
-- with the same number of characters as the policy asks for, which is not zero.
pub should_store_locally_iff :
    (geohash my_geohash : String) (tier : MessageTier) (prefix_len : ℕ)
    → (should_store_locally geohash my_geohash tier prefix_len ≡ true)
      ↔ ((tier ≡ MessageTier.critical) ⊎ ((0 < prefix_len) × Share prefix_len geohash my_geohash))
unfolding should_store_locally tier_eq
should_store_locally_iff geohash my_geohash MessageTier.critical n = (λ _. inl refl, λ _. refl)
should_store_locally_iff geohash my_geohash MessageTier.important n =
    either geohash my_geohash MessageTier.important n refl λ h. cc
should_store_locally_iff geohash my_geohash MessageTier.normal n =
    either geohash my_geohash MessageTier.normal n refl λ h. cc
should_store_locally_iff geohash my_geohash MessageTier.low n =
    either geohash my_geohash MessageTier.low n refl λ h. cc
