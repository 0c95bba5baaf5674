-- ===== src/Prelude/Assoc.antt =====
-- `HashMap<String, V>` as an association list. `insert` writes over the entry of the key where
-- there is one; the laws say what each operation does to a look-up and to the number of entries.
use Prim.Native.Nat.{suc, ◌≤◌, ◌<◌}
use Prim.Native.String.{String}
use mathlib.Core.Path.{◌≡◌, refl}
use mathlib.Core.List.{List, [], ◌∷◌}
use mathlib.Core.Option.{Option, none, some}
use native.Mathlib.Omega.{arith}
use text.Mathlib.Text.{◌==◌ as str_eq}
use text.Mathlib.TextEquality.{eq_iff}
use text.Mathlib.TextPositions.{eq_refl}
use onde_resilience.Prelude.Tests.{if◌then◌else◌}
use onde_resilience.Prelude.Lists.{length}

abbrev pub Assoc {ℓ} : Type ℓ → Type ℓ
Assoc V = List (String × V)

module _ {ℓ} {V : Type ℓ} where
  unfoldable pub lookup : String → Assoc V → Option V
  lookup key [] = none
  lookup key ((other, value) ∷ entries) =
      if str_eq other key then some value else lookup key entries

  unfoldable pub insert : String → V → Assoc V → Assoc V
  insert key value [] = (key, value) ∷ []
  insert key value ((other, old) ∷ entries) =
      if str_eq other key then (key, value) ∷ entries else (other, old) ∷ insert key value entries

  unfoldable pub remove : String → Assoc V → Assoc V
  remove key [] = []
  remove key ((other, old) ∷ entries) =
      let rest = remove key entries in if str_eq other key then rest else (other, old) ∷ rest

  -- `get(key).unwrap_or(fallback)`, and the value behind `entry(key).or_default()`.
  unfoldable pub lookup_or : V → String → Assoc V → V
  unfolding lookup
  lookup_or fallback key entries = elim (lookup key entries) [
    | none ↦ fallback
    | some value ↦ value
  ]

  pub lookup_or-some :
      (fallback : V) (key : String) (entries : Assoc V) {value : V}
      → lookup key entries ≡ some value
      → lookup_or fallback key entries ≡ value
  unfolding lookup_or
  lookup_or-some fallback key entries h = rw (h, lookup_or)

  pub lookup_or-none :
      (fallback : V) (key : String) (entries : Assoc V)
      → lookup key entries ≡ none
      → lookup_or fallback key entries ≡ fallback
  unfolding lookup_or
  lookup_or-none fallback key entries h = rw (h, lookup_or)

  pub lookup-insert :
      (key other : String) (value : V) (entries : Assoc V)
      → lookup other (insert key value entries)
        ≡ (if str_eq key other then some value else lookup other entries)
  unfolding lookup insert
  lookup-insert key other value [] = refl
  lookup-insert key other value ((first, old) ∷ entries) = ground (
    arith,
    eq_iff key other,
    eq_iff first key,
    eq_iff first other,
    lookup-insert key other value entries,
  )

  pub lookup-insert_self :
      (key : String) (value : V) (entries : Assoc V)
      → lookup key (insert key value entries) ≡ some value
  lookup-insert_self key value entries = simp (lookup-insert, eq_refl)

  pub lookup-remove :
      (key other : String) (entries : Assoc V)
      → lookup other (remove key entries)
        ≡ (if str_eq key other then none else lookup other entries)
  unfolding lookup remove
  lookup-remove key other [] = ground arith
  lookup-remove key other ((first, old) ∷ entries) = ground (
    arith,
    eq_iff key other,
    eq_iff first key,
    eq_iff first other,
    lookup-remove key other entries,
  )

  pub lookup_or-insert :
      (fallback : V) (key other : String) (value : V) (entries : Assoc V)
      → lookup_or fallback other (insert key value entries)
        ≡ (if str_eq key other then value else lookup_or fallback other entries)
  unfolding lookup_or
  lookup_or-insert fallback key other value entries =
      ground (arith, lookup-insert key other value entries)

  pub lookup_or-remove :
      (fallback : V) (key other : String) (entries : Assoc V)
      → lookup_or fallback other (remove key entries)
        ≡ (if str_eq key other then fallback else lookup_or fallback other entries)
  unfolding lookup_or
  lookup_or-remove fallback key other entries = ground (arith, lookup-remove key other entries)

  pub length-insert-le :
      (key : String) (value : V) (entries : Assoc V)
      → length (insert key value entries) ≤ suc (length entries)
  unfolding insert
  length-insert-le key value [] = omega arith
  length-insert-le key value ((other, old) ∷ entries) =
      ground (arith, length-insert-le key value entries)

  -- Writing over an entry that is there adds none.
  pub length-insert_present :
      (key : String) (value old : V) (entries : Assoc V)
      → lookup key entries ≡ some old
      → length (insert key value entries) ≡ length entries
  unfolding insert lookup
  length-insert_present key value old [] h = ground arith
  length-insert_present key value old ((other, held) ∷ entries) h =
      ground (arith, length-insert_present key value old entries)

  pub length-remove-le :
      (key : String) (entries : Assoc V) → length (remove key entries) ≤ length entries
  unfolding remove
  length-remove-le key [] = omega arith
  length-remove-le key ((other, old) ∷ entries) = ground (arith, length-remove-le key entries)

  -- Removing an entry that is there makes the map smaller.
  pub length-remove-lt :
      (key : String) (old : V) (entries : Assoc V)
      → lookup key entries ≡ some old
      → length (remove key entries) < length entries
  unfolding remove lookup
  length-remove-lt key old [] h = ground arith
  length-remove-lt key old ((other, held) ∷ entries) h =
      ground (arith, length-remove-lt key old entries, length-remove-le key entries)
