-- ===== src/Protocol/HexExample.antt =====
-- A concrete hexadecimal codec, as the examples of core/src/protocol/mod.rs use it.
use Prim.Native.Char.{Char, code}
use onde_resilience.Prelude.{
  ℕ, zero, suc, ◌+◌, ◌-◌, ◌*◌, ◌/◌, ◌%◌, ◌<◌, ◌≡◌, refl, ap, String, Option, none, some, List, [],
  ◌∷◌, arith, if◌then◌else◌, ltb, leb, ◌==◌, ◌&&◌, All,
}
use onde_resilience.Protocol.{HexCodec, IsByte}

digit : ℕ → Char
digit n =
    if n == 0
    then "0"
    else if n == 1
    then "1"
    else if n == 2
    then "2"
    else if n == 3
    then "3"
    else if n == 4
    then "4"
    else if n == 5
    then "5"
    else if n == 6
    then "6"
    else if n == 7
    then "7"
    else if n == 8
    then "8"
    else if n == 9
    then "9"
    else if n == 10
    then "a"
    else if n == 11
    then "b"
    else if n == 12
    then "c"
    else if n == 13
    then "d"
    else if n == 14
    then "e"
    else "f"

value : Char → Option ℕ
value c =
    if leb 48 (code c) && ltb (code c) 58
    then some (code c - 48)
    else if leb 97 (code c) && ltb (code c) 103
    then some (code c - 87)
    else none

value-digit : (n : ℕ) → n < 16 → value (digit n) ≡ some n
unfolding value digit
value-digit zero h = refl
value-digit (suc zero) h = refl
value-digit (suc (suc zero)) h = refl
value-digit (suc (suc (suc zero))) h = refl
value-digit (suc (suc (suc (suc zero)))) h = refl
value-digit (suc (suc (suc (suc (suc zero))))) h = refl
value-digit (suc (suc (suc (suc (suc (suc zero)))))) h = refl
value-digit (suc (suc (suc (suc (suc (suc (suc zero))))))) h = refl
value-digit (suc (suc (suc (suc (suc (suc (suc (suc zero)))))))) h = refl
value-digit (suc (suc (suc (suc (suc (suc (suc (suc (suc zero))))))))) h = refl
value-digit (suc (suc (suc (suc (suc (suc (suc (suc (suc (suc zero)))))))))) h = refl
value-digit (suc (suc (suc (suc (suc (suc (suc (suc (suc (suc (suc zero))))))))))) h = refl
value-digit (suc (suc (suc (suc (suc (suc (suc (suc (suc (suc (suc (suc zero)))))))))))) h = refl
value-digit (suc (suc (suc (suc (suc (suc (suc (suc (suc (suc (suc (suc (suc zero))))))))))))) h =
    refl
value-digit (suc (suc (suc (suc (suc (suc (suc (suc (suc (suc (suc (suc (suc (suc zero))))))))))))))
      h =
    refl
value-digit
      (suc (suc (suc (suc (suc (suc (suc (suc (suc (suc (suc (suc (suc (suc (suc zero)))))))))))))))
      h =
    refl
value-digit
      (suc
        (suc (suc (suc (suc (suc (suc (suc (suc (suc (suc (suc (suc (suc (suc (suc n))))))))))))))))
      h =
    absurd (omega arith)

unfoldable pub encode : List ℕ → String
unfolding digit
encode [] = String.[]
encode (b ∷ bs) = String.◌∷◌ (digit (b / 16)) (String.◌∷◌ (digit (b % 16)) (encode bs))

join : Option ℕ → Option ℕ → Option (List ℕ) → Option (List ℕ)
join (some a) (some b) (some rest) = some ((a * 16 + b) ∷ rest)
join _ _ _ = none

unfoldable pub decode : String → Option (List ℕ)
unfolding value join
decode String.[] = some []
decode (String.◌∷◌ a String.[]) = none
decode (String.◌∷◌ a (String.◌∷◌ b s)) = join (value a) (value b) (decode s)

pub decode-encode : (bytes : List ℕ) → All IsByte bytes → decode (encode bytes) ≡ some bytes
unfolding decode encode
decode-encode [] h = refl
decode-encode (b ∷ bs) h =
    rw
      (
        value-digit (b / 16) (omega arith),
        value-digit (b % 16) (omega arith),
        decode-encode bs h.1,
        join,
      )
      (ap (λ (k : ℕ). some (k ∷ bs)) (omega arith))

abbrev pub hex : HexCodec
hex = record { encode = encode; decode = decode; decode-encode = decode-encode }
