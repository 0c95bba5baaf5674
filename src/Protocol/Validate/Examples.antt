-- ===== src/Protocol/Validate/Examples.antt =====
-- Validation and proof of work of core/src/protocol/mod.rs, with concrete functions for the crates.
use onde_resilience.Prelude.{ℕ, ◌<◌, ◌≡◌, ◌↔◌, refl, ap, true, false, List, arith, replicate, ◌⊎◌}
use onde_resilience.Prelude.Result.{ok, err}
use onde_resilience.Prelude.Utf8.{as_bytes}
use onde_resilience.Protocol.{kind_code}
use onde_resilience.Protocol.HexExample.{encode, decode}
use onde_resilience.Protocol.CratesExample.{sum, digest, crates, event}
use onde_resilience.Protocol.Wire.{decode_hex}
use onde_resilience.Protocol.Validate.{
  ValidationError, compute_id, verify_from_pubkey, verify_pow, pow_loop, pow_hash, compute_pow,
  validate_with_pow_min, validate, decimal, leading_zeros, char_count,
}
use onde_resilience.Protocol.Validate.Accepted.{IsAccepted, validate_iff}
use onde_resilience.Protocol.Validate.Pow.{compute_pow_lem}

program : Unit {0}
unfolding encode decode as_bytes sum digest kind_code decode_hex compute_id verify_from_pubkey
    pow_hash verify_pow pow_loop compute_pow validate_with_pow_min validate decimal leading_zeros
    char_count
program = tt

good : IsAccepted crates 900 1 (event 1) (replicate 32 1) (replicate 64 2)
unfolding program
good = record {
  short = λ _. omega arith;
  timely = omega arith;
  canonical = refl;
  signed = λ h. omega (arith, ap char_count h);
  key_bytes = refl;
  sig_bytes = refl;
  verified = refl;
  enough = omega arith;
  worked = refl;
}

validate_iff_example :
    (validate_with_pow_min crates 900 1 (event 1) ≡ ok tt)
    ↔ ((key : List ℕ) × (sig : List ℕ) × IsAccepted crates 900 1 (event 1) key sig)
validate_iff_example = validate_iff crates 900 1 (event 1)

-- The left side holds, so the conditions can be met.
event_accepted : validate_with_pow_min crates 900 1 (event 1) ≡ ok tt
event_accepted = (validate_iff crates 900 1 (event 1)).1 (replicate 32 1, replicate 64 2, good)

compute_pow_lem_example :
    ((compute_pow crates (event 0) 100 ≡ (event 0, false))
      × ((n : ℕ) → n < 100 → verify_pow crates (event 0).id n 1 ≡ false))
    ⊎ ((nonce : ℕ) × (compute_pow crates (event 0) 100 ≡ (event nonce, true))
        × (nonce < 100)
        × (verify_pow crates (event 0).id nonce 1 ≡ true)
        × ((n : ℕ) → n < nonce → verify_pow crates (event 0).id n 1 ≡ false))
compute_pow_lem_example = compute_pow_lem crates (event 0) 100

found : compute_pow crates (event 0) 100 ≡ (event 1, true)
unfolding program
found = refl

-- An event without enough work, with another content or from the future is refused.
refusals :
    (validate crates 900 (event 0) ≡ err ValidationError.invalid_pow)
    × (validate_with_pow_min crates 900 2 (event 1) ≡ err (ValidationError.pow_below_minimum 1 2))
    × (validate crates 900 (record (event 1) { content = "eau" }) ≡ err ValidationError.id_mismatch)
    × (validate crates 600 (event 1) ≡ err ValidationError.created_in_future)
unfolding program
refusals = (refl, refl, refl, refl)
