-- ===== src/Protocol/Validate.antt =====
-- Validation and proof of work of core/src/protocol/mod.rs. The crates it calls (serde_json, sha2,
-- ed25519-dalek, hex) and the clock are parameters.
pub mod Accepted
pub mod Pow
mod Examples
use Prim.Native.Char.{code}
use onde_resilience.Prelude.{
  ℕ, zero, suc, ◌+◌, ◌-◌, ◌/◌, ◌%◌, String, Bool, true, false, ◌&&◌, not, Option, none, some, List,
  [], ◌∷◌, ◌++◌, if◌then◌else◌, ltb, ◌==◌, str_eq,
}
use onde_resilience.Prelude.Result.{Result, ok, err, and_then}
use onde_resilience.Prelude.Utf8.{as_bytes}
use onde_resilience.Protocol.{OndeMessageType, MeshEvent, HexCodec, kind_code}
use onde_resilience.Protocol.Wire.{decode_hex}

pub record Crates : Type 0 where
  pub hex : HexCodec
  -- `serde_json::to_vec` of `[pubkey, created_at, kind, tags, content]`
  pub canonical_json : String → ℕ → ℕ → List String → String → List ℕ
  -- `Sha256::digest`
  pub sha256 : List ℕ → List ℕ
  -- `format!("{hash:x}")` of a digest
  pub lower_hex : List ℕ → String
  -- `VerifyingKey::from_bytes(key).is_ok()`
  pub key_valid : List ℕ → Bool
  -- `vk.verify(message, signature).is_ok()`
  pub signature_ok : List ℕ → List ℕ → List ℕ → Bool

pub data ValidationError : Type 0 where
  alert_too_long created_in_future id_mismatch missing_signature invalid_pubkey_encoding :
      ValidationError
  invalid_signature_encoding invalid_signature invalid_pow : ValidationError
  pow_below_minimum : ℕ → ℕ → ValidationError

abbrev pub max_alert_size : ℕ
max_alert_size = 280

abbrev pub max_clock_skew_secs : ℕ
max_clock_skew_secs = 300

abbrev pub min_pow_difficulty : ℕ
min_pow_difficulty = 1

-- `chars().count()`
unfoldable pub char_count : String → ℕ
char_count String.[] = 0
char_count (String.◌∷◌ c s) = suc (char_count s)

-- The decimal digits of a `u64`: twenty rounds are enough for its twenty digits.
unfoldable pub decimal : ℕ → ℕ → List ℕ → List ℕ
decimal zero n acc = acc
decimal (suc fuel) n acc =
    let more = decimal fuel (n / 10) ((48 + n % 10) ∷ acc) in
    if ltb n 10 then (48 + n) ∷ acc else more

-- `starts_with(&"0".repeat(n))`
unfoldable pub leading_zeros : ℕ → String → Bool
leading_zeros zero s = true
leading_zeros (suc n) String.[] = false
leading_zeros (suc n) (String.◌∷◌ c s) = code c == 48 && leading_zeros n s

abbrev pub check : Bool → ValidationError → Result ValidationError (Unit {0})
check true e = ok tt
check false e = err e

abbrev pub or_refuse {ℓ} : {A : Type ℓ} → ValidationError → Option A → Result ValidationError A
or_refuse e none = err e
or_refuse e (some a) = ok a

abbrev pub is_alert : OndeMessageType → Bool
is_alert OndeMessageType.alert = true
is_alert _ = false

module _ (crates : Crates) where
  open crates use {hex, canonical_json, sha256, lower_hex, key_valid, signature_ok}

  unfoldable pub compute_id : String → ℕ → OndeMessageType → List String → String → String
  compute_id pubkey created_at kind tags content =
      hex.encode (sha256 (canonical_json pubkey created_at (kind_code kind) tags content))

  -- `Identity::verify_from_pubkey`
  unfoldable pub verify_from_pubkey : List ℕ → List ℕ → List ℕ → Bool
  verify_from_pubkey key message sig = if key_valid key then signature_ok key message sig else false

  unfoldable pub signature_valid : MeshEvent → Bool
  signature_valid e = elim (decode_hex hex 32 e.pubkey) [
    | none ↦ false
    | some key ↦ elim (decode_hex hex 64 e.sig) [
      | none ↦ false
      | some sig ↦ verify_from_pubkey key (as_bytes e.id) sig
    ]
  ]

  -- The hash of `format!("{event_id}:{nonce}")`.
  unfoldable pub pow_hash : String → ℕ → String
  pow_hash id nonce = lower_hex (sha256 (as_bytes id ++ b':' ∷ decimal 20 nonce []))

  unfoldable pub verify_pow : String → ℕ → ℕ → Bool
  verify_pow id nonce difficulty = leading_zeros difficulty (pow_hash id nonce)

  -- The loop of `compute_pow`: `left` rounds remain from `nonce` on.
  unfoldable pub pow_loop : String → ℕ → ℕ → ℕ → Option ℕ
  pow_loop id difficulty nonce zero = none
  pow_loop id difficulty nonce (suc left) = elim (verify_pow id nonce difficulty) [
    | true ↦ some nonce
    | false ↦ pow_loop id difficulty (suc nonce) left
  ]

  unfoldable pub compute_pow : MeshEvent → ℕ → MeshEvent × Bool
  compute_pow e max_iterations = elim (pow_loop e.id e.pow_difficulty 0 max_iterations) [
    | none ↦ (e, false)
    | some nonce ↦ (record e { pow_nonce = nonce }, true)
  ]

  -- `validate_with_pow_min`, at the time `now`.
  unfoldable pub validate_with_pow_min : ℕ → ℕ → MeshEvent → Result ValidationError (Unit {0})
  validate_with_pow_min now min_difficulty e =
      and_then
        (check (not (is_alert e.kind && ltb max_alert_size (char_count e.content))) alert_too_long)
        λ _.
          and_then
            (check (not (ltb now e.created_at && ltb max_clock_skew_secs (e.created_at - now)))
              created_in_future)
            λ _.
              and_then
                (check (str_eq e.id (compute_id e.pubkey e.created_at e.kind e.tags e.content))
                  id_mismatch)
                λ _. and_then (check (not (str_eq e.sig "")) missing_signature) λ _.
                  and_then (or_refuse invalid_pubkey_encoding (decode_hex hex 32 e.pubkey)) λ key.
                    and_then (or_refuse invalid_signature_encoding (decode_hex hex 64 e.sig)) λ sig.
                      and_then
                        (check (verify_from_pubkey key (as_bytes e.id) sig) invalid_signature)
                        λ _.
                          and_then
                            (check (not (ltb e.pow_difficulty min_difficulty))
                              (pow_below_minimum e.pow_difficulty min_difficulty))
                            λ _. check (verify_pow e.id e.pow_nonce e.pow_difficulty) invalid_pow

  -- `validate`: the fixed floor of the network.
  unfoldable pub validate : ℕ → MeshEvent → Result ValidationError (Unit {0})
  validate now e = validate_with_pow_min now min_pow_difficulty e

  -- `is_expired`
  unfoldable pub is_expired : ℕ → ℕ → MeshEvent → Bool
  is_expired now max_age e = ltb max_age (now - e.created_at)
