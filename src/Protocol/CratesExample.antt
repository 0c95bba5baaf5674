-- ===== src/Protocol/CratesExample.antt =====
-- Concrete functions for the crates of core/src/protocol/mod.rs, and a signed alert.
use onde_resilience.Prelude.{ℕ, ◌+◌, ◌*◌, ◌%◌, List, [], ◌∷◌, ◌==◌, length, replicate}
use onde_resilience.Prelude.Utf8.{as_bytes}
use onde_resilience.Protocol.{OndeMessageType, MeshEvent}
use onde_resilience.Protocol.HexExample.{encode, hex}
use onde_resilience.Protocol.Validate.{Crates, compute_id}

unfoldable pub sum : List ℕ → ℕ
sum [] = 0
sum (b ∷ bs) = (b + 31 * sum bs) % 256

-- A checksum in place of the digest.
unfoldable pub digest : List ℕ → List ℕ
unfolding sum
digest bytes = sum bytes ∷ []

abbrev pub crates : Crates
crates = record {
  hex = hex;
  canonical_json =
      λ pubkey created_at kind tags content. created_at % 256 ∷ kind ∷ as_bytes content;
  sha256 = digest;
  lower_hex = encode;
  key_valid = λ key. length key == 32;
  signature_ok = λ key message sig. length sig == 64;
}

abbrev pub event : ℕ → MeshEvent
event nonce = record {
  id = compute_id crates (encode (replicate 32 1)) 1000 OndeMessageType.alert [] "eau coupée";
  pubkey = encode (replicate 32 1);
  created_at = 1000;
  kind = OndeMessageType.alert;
  tags = [];
  content = "eau coupée";
  sig = encode (replicate 64 2);
  pow_nonce = nonce;
  pow_difficulty = 1;
  ttl = 0;
}
