-- ===== src/Prelude/Utf8.antt =====
-- `str::as_bytes` and `String::from_utf8` of Rust's standard library: UTF-8, read strictly (no
-- overlong form, no surrogate, nothing above 10FFFF in hexadecimal).
use Prim.Native.Char.{Char, char, code, IsLt}
use Prim.Native.Nat.{ℕ, zero, suc, ◌+◌, ◌-◌, ◌*◌, ◌/◌, ◌%◌, ◌≤◌, ◌<◌, compare, Ordering}
use Prim.Native.String.{String}
use mathlib.Core.Path.{◌≡◌, refl, ap, ◌∙◌}
use mathlib.Core.Logic.{inl, inr}
use mathlib.Core.Bool.{Bool, true, false, ◌&&◌}
use mathlib.Core.List.{List, [], ◌∷◌, ◌++◌}
use mathlib.Core.Option.{Option, none, some}
use native.Mathlib.Omega.{arith}
use text.Mathlib.TextEquality.{Char-path}
use onde_resilience.Prelude.Tests.{ltb, leb, if◌then◌else◌, Bool-cases}
use onde_resilience.Prelude.Lists.{length, length-append}

-- The three comparisons of a scalar value, as the built-in module reads them.
abbrev Both : Ordering → Ordering → Type 0
Both Ordering.lt o = IsLt o
Both Ordering.eq _ = ⊥
Both Ordering.gt _ = ⊥

abbrev Scalar : Ordering → Ordering → Ordering → Type 0
Scalar Ordering.lt _ _ = Unit {0}
Scalar Ordering.eq o p = Both o p
Scalar Ordering.gt o p = Both o p

dec_less : (o : Ordering) → Dec (IsLt o)
dec_less Ordering.lt = yes tt
dec_less Ordering.eq = no (λ h. h)
dec_less Ordering.gt = no (λ h. h)

dec_both : (o p : Ordering) → Dec (Both o p)
dec_both Ordering.lt p = dec_less p
dec_both Ordering.eq p = no (λ h. h)
dec_both Ordering.gt p = no (λ h. h)

dec_scalar : (o p q : Ordering) → Dec (Scalar o p q)
dec_scalar Ordering.lt p q = yes tt
dec_scalar Ordering.eq p q = dec_both p q
dec_scalar Ordering.gt p q = dec_both p q

-- `char::from_u32`
scalar_char : ℕ → Option Char
unfolding dec_scalar dec_both dec_less
scalar_char n = elim (dec_scalar (compare n 55296) (compare 57343 n) (compare n 1114112)) [
  | yes p ↦ some (char n p)
  | no _ ↦ none
]

scalar_char-code : (c : Char) → scalar_char (code c) ≡ some c
unfolding scalar_char
scalar_char-code (char n p) =
    (elim (dec_scalar (compare n 55296) (compare 57343 n) (compare n 1114112))
      as (λ d.
        (elim d as (λ _. Option Char) [ yes q ↦ some (char n q) | no _ ↦ none ])
        ≡ some (char n p)) [
          | yes q ↦ ap some (Char-path (char n q) (char n p) refl)
          | no h ↦ absurd (h p)
        ])

encode_char : Char → List ℕ
encode_char c =
    let n = code c in
    if ltb n 128
    then n ∷ []
    else if ltb n 2048
    then (192 + n / 64) ∷ (128 + n % 64) ∷ []
    else if ltb n 65536
    then (224 + n / 4096) ∷ (128 + n / 64 % 64) ∷ (128 + n % 64) ∷ []
    else (240 + n / 262144) ∷ (128 + n / 4096 % 64) ∷ (128 + n / 64 % 64) ∷ (128 + n % 64) ∷ []

unfoldable pub as_bytes : String → List ℕ
unfolding encode_char
as_bytes String.[] = []
as_bytes (String.◌∷◌ c s) = encode_char c ++ as_bytes s

abbrev is_tail : ℕ → Bool
is_tail b = leb 128 b && ltb b 192

-- A decoded number that its form may stand for, and what follows.
accept : Bool → ℕ → List ℕ → Option (Char × List ℕ)
unfolding scalar_char
accept false n rest = none
accept true n rest = elim (scalar_char n) [ none ↦ none | some c ↦ some (c, rest) ]

take_two : ℕ → List ℕ → Option (Char × List ℕ)
take_two a (b ∷ rest) = accept (is_tail b) ((a - 192) * 64 + (b - 128)) rest
take_two a [] = none

take_three : ℕ → List ℕ → Option (Char × List ℕ)
take_three a (b ∷ c ∷ rest) =
    let n = (a - 224) * 4096 + (b - 128) * 64 + (c - 128) in
    accept (is_tail b && is_tail c && leb 2048 n) n rest
take_three a _ = none

take_four : ℕ → List ℕ → Option (Char × List ℕ)
take_four a (b ∷ c ∷ d ∷ rest) =
    let n = (a - 240) * 262144 + (b - 128) * 4096 + (c - 128) * 64 + (d - 128) in
    accept (is_tail b && is_tail c && is_tail d && leb 65536 n) n rest
take_four a _ = none

-- The first character of a byte sequence.
take_char : List ℕ → Option (Char × List ℕ)
unfolding take_two take_three take_four
take_char [] = none
take_char (a ∷ rest) =
    if ltb a 128
    then accept true a rest
    else if leb 194 a && ltb a 224
    then take_two a rest
    else if leb 224 a && ltb a 240
    then take_three a rest
    else if leb 240 a && ltb a 245
    then take_four a rest
    else none

prepend : Char → Option String → Option String
prepend c none = none
prepend c (some s) = some (String.◌∷◌ c s)

decode_fuel : ℕ → List ℕ → Option String
unfolding take_char prepend
decode_fuel fuel [] = some String.[]
decode_fuel zero (b ∷ bs) = none
decode_fuel (suc fuel) (b ∷ bs) = elim (take_char (b ∷ bs)) [
  | none ↦ none
  | some (c, rest) ↦ prepend c (decode_fuel fuel rest)
]

-- Each character takes a byte at least, so the number of bytes is fuel enough.
unfoldable pub from_utf8 : List ℕ → Option String
unfolding decode_fuel accept
from_utf8 bytes = decode_fuel (length bytes) bytes

accept-code : (c : Char) (rest : List ℕ) → accept true (code c) rest ≡ some (c, rest)
unfolding accept
accept-code c rest = rw (scalar_char-code c, accept)

scalar_lt :
    (n : ℕ) (o p q : Ordering)
    → compare n 55296 ≡ o
    → compare n 1114112 ≡ q
    → Scalar o p q
    → n < 1114112
scalar_lt n Ordering.lt p q a b h = ground arith
scalar_lt n Ordering.eq Ordering.lt Ordering.lt a b h = ground arith
scalar_lt n Ordering.gt Ordering.lt Ordering.lt a b h = ground arith
scalar_lt n Ordering.eq Ordering.lt Ordering.eq a b h = absurd h
scalar_lt n Ordering.eq Ordering.lt Ordering.gt a b h = absurd h
scalar_lt n Ordering.gt Ordering.lt Ordering.eq a b h = absurd h
scalar_lt n Ordering.gt Ordering.lt Ordering.gt a b h = absurd h
scalar_lt n Ordering.eq Ordering.eq q a b h = absurd h
scalar_lt n Ordering.eq Ordering.gt q a b h = absurd h
scalar_lt n Ordering.gt Ordering.eq q a b h = absurd h
scalar_lt n Ordering.gt Ordering.gt q a b h = absurd h

code-lt : (c : Char) → code c < 1114112
code-lt (char n p) = scalar_lt n (compare n 55296) (compare 57343 n) (compare n 1114112) refl refl p

module _ (n : ℕ) (rest : List ℕ) where
  two_bytes :
      128 ≤ n → n < 2048 → take_char ((192 + n / 64) ∷ (128 + n % 64) ∷ rest) ≡ accept true n rest
  unfolding take_char
  two_bytes low high = ground arith

  three_bytes :
      2048 ≤ n
      → n < 65536
      → take_char ((224 + n / 4096) ∷ (128 + n / 64 % 64) ∷ (128 + n % 64) ∷ rest)
        ≡ accept true n rest
  unfolding take_char
  three_bytes low high = ground arith

  four_bytes :
      65536 ≤ n
      → n < 1114112
      → take_char
          ((240 + n / 262144) ∷ (128 + n / 4096 % 64) ∷ (128 + n / 64 % 64) ∷ (128 + n % 64) ∷ rest)
        ≡ accept true n rest
  unfolding take_char
  four_bytes low high = ground arith

take_char-encode_char :
    (c : Char) (rest : List ℕ) → take_char (encode_char c ++ rest) ≡ some (c, rest)
unfolding encode_char take_char
take_char-encode_char c rest = elim (Bool-cases (ltb (code c) 128)) [
  | inl one ↦ rw (one, take_char, one) (accept-code c rest)
  | inr more ↦ elim (Bool-cases (ltb (code c) 2048)) [
    | inl two ↦
        rw (more, two) (two_bytes (code c) rest (ground arith) (ground arith) ∙ accept-code c rest)
    | inr more' ↦ elim (Bool-cases (ltb (code c) 65536)) [
      | inl three ↦
          rw (more, more', three)
            (three_bytes (code c) rest (ground arith) (ground arith) ∙ accept-code c rest)
      | inr four ↦
          rw (more, more', four)
            (four_bytes (code c) rest (ground arith) (code-lt c) ∙ accept-code c rest)
    ]
  ]
]

encode_char-cons : (c : Char) → (b : ℕ) × (bs : List ℕ) × (encode_char c ≡ b ∷ bs)
unfolding encode_char
encode_char-cons c = elim (Bool-cases (ltb (code c) 128)) [
  | inl one ↦ (code c, [], rw one)
  | inr more ↦ elim (Bool-cases (ltb (code c) 2048)) [
    | inl two ↦ (192 + code c / 64, (128 + code c % 64) ∷ [], rw (more, two))
    | inr more' ↦ elim (Bool-cases (ltb (code c) 65536)) [
      | inl three ↦ (
        224 + code c / 4096,
        (128 + code c / 64 % 64) ∷ (128 + code c % 64) ∷ [],
        rw (more, more', three),
      )
      | inr four ↦ (
        240 + code c / 262144,
        (128 + code c / 4096 % 64) ∷ (128 + code c / 64 % 64) ∷ (128 + code c % 64) ∷ [],
        rw (more, more', four),
      )
    ]
  ]
]

decode_step :
    (fuel : ℕ) (c : Char) (bs : List ℕ)
    → decode_fuel (suc fuel) (encode_char c ++ bs) ≡ prepend c (decode_fuel fuel bs)
unfolding decode_fuel
decode_step fuel c bs =
    let (b, rest, e) = encode_char-cons c in
    let t : take_char (b ∷ (rest ++ bs)) ≡ some (c, bs) = rw e at (take_char-encode_char c bs) in
    rw e (rw (t, decode_fuel))

decode_fuel-as_bytes :
    (s : String) (fuel : ℕ) → length (as_bytes s) ≤ fuel → decode_fuel fuel (as_bytes s) ≡ some s
unfolding as_bytes decode_fuel prepend
decode_fuel-as_bytes String.[] fuel h = refl
decode_fuel-as_bytes (String.◌∷◌ c s) zero h =
    let (b, rest, e) = encode_char-cons c in
    absurd (omega (arith, length-append (encode_char c) (as_bytes s), ap length e))
decode_fuel-as_bytes (String.◌∷◌ c s) (suc fuel) h =
    let (b, rest, e) = encode_char-cons c in
    rw (
      decode_step,
      decode_fuel-as_bytes s fuel
          (omega (arith, length-append (encode_char c) (as_bytes s), ap length e)),
    )

-- What `as_bytes` writes, `from_utf8` reads back.
pub from_utf8-as_bytes : (s : String) → from_utf8 (as_bytes s) ≡ some s
unfolding from_utf8
from_utf8-as_bytes s = decode_fuel-as_bytes s (length (as_bytes s)) (omega arith)
