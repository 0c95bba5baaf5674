-- ===== src/Prelude/IntMap.antt =====
-- `HashMap<u32, V>` as an association list with each key once, and what it holds when all of its
-- keys lie below a bound.
use Prim.Native.Nat.{ℕ, zero, suc, ◌+◌, ◌≤◌, ◌<◌}
use mathlib.Core.Path.{◌≡◌, refl, ap}
use mathlib.Core.Logic.{inl, inr}
use mathlib.Core.Bool.{Bool, true, false, ◌||◌}
use mathlib.Core.List.{List, [], ◌∷◌}
use mathlib.Core.Option.{Option, none, some}
use native.Mathlib.Omega.{arith}
use onde_resilience.Prelude.Tests.{if◌then◌else◌, ◌==◌, Bool-cases}
use onde_resilience.Prelude.Lists.{length}

abbrev pub IntMap {ℓ} : Type ℓ → Type ℓ
IntMap V = List (ℕ × V)

module _ {ℓ} {V : Type ℓ} where
  unfoldable pub lookup : ℕ → IntMap V → Option V
  lookup key [] = none
  lookup key ((other, value) ∷ entries) = if other == key then some value else lookup key entries

  unfoldable pub contains_key : ℕ → IntMap V → Bool
  contains_key key [] = false
  contains_key key ((other, value) ∷ entries) = other == key || contains_key key entries

  unfoldable pub insert : ℕ → V → IntMap V → IntMap V
  insert key value [] = (key, value) ∷ []
  insert key value ((other, old) ∷ entries) =
      if other == key then (key, value) ∷ entries else (other, old) ∷ insert key value entries

  abbrev pub Unique : IntMap V → Type 0
  Unique [] = Unit {0}
  Unique ((key, value) ∷ entries) = (contains_key key entries ≡ false) × Unique entries

  abbrev pub Below : ℕ → IntMap V → Type 0
  Below n [] = Unit {0}
  Below n ((key, value) ∷ entries) = (key < n) × Below n entries

  pub lookup-insert :
      (key other : ℕ) (value : V) (entries : IntMap V)
      → lookup other (insert key value entries)
        ≡ (if key == other then some value else lookup other entries)
  unfolding lookup insert
  lookup-insert key other value [] = refl
  lookup-insert key other value ((first, old) ∷ entries) =
      ground (arith, lookup-insert key other value entries)

  pub contains_key-insert :
      (key other : ℕ) (value : V) (entries : IntMap V)
      → contains_key other (insert key value entries) ≡ (key == other || contains_key other entries)
  unfolding contains_key insert
  contains_key-insert key other value [] = refl
  contains_key-insert key other value ((first, old) ∷ entries) =
      ground (arith, contains_key-insert key other value entries)

  pub contains_key-lookup :
      (key : ℕ) (entries : IntMap V)
      → contains_key key entries ≡ true
      → (value : V) × (lookup key entries ≡ some value)
  unfolding contains_key lookup
  contains_key-lookup key [] h = cc
  contains_key-lookup key ((first, old) ∷ entries) h = elim (Bool-cases (first == key)) [
    | inl same ↦ (old, rw same refl)
    | inr apart ↦
        let (value, e) = contains_key-lookup key entries (ground arith) in (value, rw apart e)
  ]

  pub lookup-contains_key :
      (key : ℕ) (entries : IntMap V) (value : V)
      → lookup key entries ≡ some value
      → contains_key key entries ≡ true
  unfolding contains_key lookup
  lookup-contains_key key [] value h = cc
  lookup-contains_key key ((first, old) ∷ entries) value h =
      ground (arith, lookup-contains_key key entries value)

  pub Unique-insert :
      (key : ℕ) (value : V) (entries : IntMap V)
      → Unique entries
      → Unique (insert key value entries)
  unfolding insert contains_key
  Unique-insert key value [] u = (refl, tt)
  Unique-insert key value ((first, old) ∷ entries) u = elim (Bool-cases (first == key)) [
    | inl same ↦ rw same (ground (arith, u.0), u.1)
    | inr apart ↦ rw apart (
      ground (arith, contains_key-insert key first value entries, u.0),
      Unique-insert key value entries u.1,
    )
  ]

  pub Below-insert :
      (n key : ℕ) (value : V) (entries : IntMap V)
      → key < n
      → Below n entries
      → Below n (insert key value entries)
  unfolding insert contains_key
  Below-insert n key value [] h b = (h, tt)
  Below-insert n key value ((first, old) ∷ entries) h b = elim (Bool-cases (first == key)) [
    | inl same ↦ rw same (h, b.1)
    | inr apart ↦ rw apart (b.0, Below-insert n key value entries h b.1)
  ]

  pub length-insert_new :
      (key : ℕ) (value : V) (entries : IntMap V)
      → contains_key key entries ≡ false
      → length (insert key value entries) ≡ length entries + 1
  unfolding contains_key insert
  length-insert_new key value [] h = omega arith
  length-insert_new key value ((first, old) ∷ entries) h =
      ground (arith, length-insert_new key value entries)

  unfoldable pub remove : ℕ → IntMap V → IntMap V
  remove key [] = []
  remove key ((other, value) ∷ entries) =
      if other == key then entries else (other, value) ∷ remove key entries

  contains_key-remove-le :
      (key other : ℕ) (entries : IntMap V)
      → contains_key other (remove key entries) ≡ true
      → contains_key other entries ≡ true
  unfolding contains_key remove
  contains_key-remove-le key other [] h = h
  contains_key-remove-le key other ((first, old) ∷ entries) h =
      ground (arith, contains_key-remove-le key other entries)

  pub Unique-remove : (key : ℕ) (entries : IntMap V) → Unique entries → Unique (remove key entries)
  unfolding remove
  Unique-remove key [] u = tt
  Unique-remove key ((first, old) ∷ entries) u = elim (Bool-cases (first == key)) [
    | inl same ↦ rw same u.1
    | inr apart ↦ rw apart (
      ground (arith, contains_key-remove-le key first entries, u.0),
      Unique-remove key entries u.1,
    )
  ]

  Below-weaken :
      (n : ℕ) (entries : IntMap V)
      → contains_key n entries ≡ false
      → Below (suc n) entries
      → Below n entries
  unfolding contains_key
  Below-weaken n [] h b = tt
  Below-weaken n ((first, old) ∷ entries) h b =
      (ground (arith, b.0), Below-weaken n entries (ground arith) b.1)

  pub Below-remove :
      (n : ℕ) (entries : IntMap V)
      → Unique entries
      → Below (suc n) entries
      → Below n (remove n entries)
  unfolding remove
  Below-remove n [] u b = tt
  Below-remove n ((first, old) ∷ entries) u b = elim (Bool-cases (first == n)) [
    | inl same ↦ rw same (Below-weaken n entries (ground (arith, u.0)) b.1)
    | inr apart ↦ rw apart (ground (arith, b.0), Below-remove n entries u.1 b.1)
  ]

  length-remove :
      (key : ℕ) (entries : IntMap V)
      → length entries ≡ length (remove key entries) + (if contains_key key entries then 1 else 0)
  unfolding contains_key remove
  length-remove key [] = omega arith
  length-remove key ((first, old) ∷ entries) = ground (arith, length-remove key entries)

  -- Distinct keys below `n` are at most `n`.
  pub length-Below-le :
      (n : ℕ) (entries : IntMap V) → Unique entries → Below n entries → length entries ≤ n
  length-Below-le zero [] u b = omega arith
  length-Below-le zero (e ∷ entries) u b = absurd (omega (arith, b.0))
  length-Below-le (suc n) entries u b = ground (
    arith,
    length-remove n entries,
    length-Below-le n (remove n entries) (Unique-remove n entries u) (Below-remove n entries u b),
  )

  -- As many distinct keys below `n` as there can be are all of them.
  pub contains_key-full :
      (n : ℕ) (entries : IntMap V)
      → Unique entries
      → Below n entries
      → length entries ≡ n
      → (key : ℕ) → key < n
      → contains_key key entries ≡ true
  contains_key-full zero entries u b full key h = elim h [ ]
  contains_key-full (suc n) entries u b full key h =
      let u' = Unique-remove n entries u in
      let b' = Below-remove n entries u b in
      let less = length-Below-le n (remove n entries) u' b' in
      let counted = length-remove n entries in
      let there : contains_key n entries ≡ true = ground arith in
      elim (Bool-cases (key == n)) [
        | inl same ↦ ground arith
        | inr apart ↦
            contains_key-remove-le n key entries
              (contains_key-full n (remove n entries) u' b' (ground arith) key (ground arith))
      ]

  contains_key-remove_other :
      (key other : ℕ) (entries : IntMap V)
      → (key == other) ≡ false
      → contains_key other entries ≡ true
      → contains_key other (remove key entries) ≡ true
  unfolding contains_key remove
  contains_key-remove_other key other [] apart h = h
  contains_key-remove_other key other ((first, old) ∷ entries) apart h =
      ground (arith, contains_key-remove_other key other entries)

  -- A map that has every key below `n` and no other has `n` entries.
  pub length-full :
      (n : ℕ) (entries : IntMap V)
      → Unique entries
      → Below n entries
      → ((key : ℕ) → key < n → contains_key key entries ≡ true)
      → length entries ≡ n
  length-full zero entries u b all = omega (arith, length-Below-le zero entries u b)
  length-full (suc n) entries u b all =
      let rest =
        length-full n (remove n entries) (Unique-remove n entries u) (Below-remove n entries u b)
          (λ key h.
            contains_key-remove_other n key entries (ground arith) (all key (omega arith))) in
      ground (arith, length-remove n entries, rest, all n (omega arith))

  -- What is found after a removal was there before.
  pub lookup-remove_le :
      (key other : ℕ) (entries : IntMap V) (value : V)
      → Unique entries
      → lookup other (remove key entries) ≡ some value
      → lookup other entries ≡ some value
  unfolding lookup remove
  lookup-remove_le key other [] value u h = h
  lookup-remove_le key other ((first, old) ∷ entries) value u h = elim (Bool-cases (first == key)) [
    | inl same ↦ elim (Bool-cases (first == other)) [
      | inl same' ↦
          let e : first ≡ other = ground arith in
          absurd (
            cc (
              lookup-contains_key other entries value (rw same at h),
              u.0,
              ap (λ (k : ℕ). contains_key k entries) e,
            ))
      | inr apart ↦ rw apart (rw same at h)
    ]
    | inr other' ↦ elim (Bool-cases (first == other)) [
      | inl same' ↦ ground (arith, h, other', same')
      | inr apart ↦ ground (arith, h, other', apart, lookup-remove_le key other entries value u.1)
    ]
  ]
