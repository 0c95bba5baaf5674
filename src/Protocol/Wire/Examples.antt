-- ===== src/Protocol/Wire/Examples.antt =====
-- The wire format of core/src/protocol/mod.rs on a concrete event, with a concrete hexadecimal codec.
use onde_resilience.Prelude.{ℕ, ◌<◌, ◌≡◌, refl, List, [], ◌∷◌, arith, length, ◌⊎◌, replicate}
use onde_resilience.Prelude.Bytes.{to_le_bytes, from_le_bytes}
use onde_resilience.Prelude.Result.{ok, err}
use onde_resilience.Prelude.Utf8.{as_bytes, from_utf8}
use onde_resilience.Padding.{pad, bucket_for}
use onde_resilience.Padding.Buckets.{IsBucket}
use onde_resilience.Protocol.{OndeMessageType, MeshEvent, kind_code, kind_from_code}
use onde_resilience.Protocol.HexExample.{encode, decode, hex}
use onde_resilience.Protocol.Wire.{
  WireError, to_wire_bytes, from_wire_bytes, decode_hex, write_event, write_string, write_tags,
  ◌>>=◌, take_bytes, take_u8, take_u32, take_u64, take_string, take_tags, read_kind, check_tags,
  read_event, all_zero?,
}
use onde_resilience.Protocol.Wire.RoundTrip.{IsWireEvent, wire_round_trip}

abbrev id_bytes : List ℕ
id_bytes = 171 ∷ replicate 31 0

abbrev hello : MeshEvent
hello = record {
  id = encode id_bytes;
  pubkey = encode (replicate 32 1);
  created_at = 1700000000;
  kind = OndeMessageType.mutual_aid;
  tags = "eau" ∷ "zone" ∷ [];
  content = "besoin d'eau à Lyon";
  sig = encode (replicate 64 2);
  pow_nonce = 7;
  pow_difficulty = 2;
  ttl = 0;
}

program : Unit {0}
unfolding encode decode as_bytes from_utf8 bucket_for pad to_le_bytes from_le_bytes decode_hex
    kind_code kind_from_code write_event write_string write_tags take_bytes take_u8 take_u32
    take_u64 take_string take_tags read_kind check_tags read_event all_zero? to_wire_bytes
    from_wire_bytes ◌>>=◌
program = tt

hello-IsWireEvent : IsWireEvent hex hello id_bytes (replicate 32 1) (replicate 64 2)
unfolding program
hello-IsWireEvent = record {
  id_hex = (refl, omega arith, refl);
  pubkey_hex = (refl, omega arith, refl);
  sig_hex = (refl, omega arith, refl);
  id_nonzero = refl;
  created_at_fits = omega arith;
  nonce_fits = omega arith;
  tags_few = omega arith;
  tags_fit = omega arith;
  content_fits = omega arith;
}

wire_round_trip_example :
    (bytes : List ℕ) × (to_wire_bytes hex hello ≡ ok bytes)
    × (from_wire_bytes hex bytes ≡ ok hello)
    × (IsBucket (length bytes) ⊎ (16384 < length bytes))
wire_round_trip_example =
    wire_round_trip hex hello id_bytes (replicate 32 1) (replicate 64 2) hello-IsWireEvent

-- A packet of zeros, an empty one and a cut one are refused.
refused :
    (from_wire_bytes hex (replicate 256 0) ≡ err WireError.all_zero)
    × (from_wire_bytes hex [] ≡ err (WireError.truncated 32 0 0))
    × (from_wire_bytes hex (1 ∷ 2 ∷ []) ≡ err (WireError.truncated 32 0 2))
unfolding program
refused = (refl, refl, refl)
