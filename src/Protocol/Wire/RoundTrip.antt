-- ===== src/Protocol/Wire/RoundTrip.antt =====
-- The round trip of the wire format of core/src/protocol/mod.rs.
use onde_resilience.Prelude.{
  ℕ, ◌%◌, ◌^◌, ◌≤◌, ◌<◌, ◌≡◌, refl, String, false, ◌⊎◌, inl, inr, some, List, [], ◌∷◌, ◌++◌, arith,
  length, All, replicate,
}
use onde_resilience.Prelude.Bytes.{to_le_bytes}
use onde_resilience.Prelude.Result.{ok, and_then}
use onde_resilience.Padding.{pad}
use onde_resilience.Padding.Buckets.{IsBucket, pad_lem}
use onde_resilience.Protocol.{OndeMessageType, MeshEvent, HexCodec, IsByte, kind_code}
use onde_resilience.Protocol.Kinds.{kind_codes}
use onde_resilience.Protocol.Wire.{
  decode_hex, write_event, write_tags, write_string, to_wire_bytes, read_kind, check_tags,
  read_event, all_zero?, from_wire_bytes,
}
use onde_resilience.Protocol.Wire.Reading.{
  Reads, Reads-pure, Reads-lift, Reads-bind, Reads-take_bytes, Reads-take_u8, Reads-take_u32,
  Reads-take_u64, FitsU32, Reads-take_string, Reads-take_tags,
}

-- A text is the hexadecimal form of `n` bytes.
abbrev pub IsHex : HexCodec → ℕ → List ℕ → String → Type 0
IsHex hex n bytes s = (length bytes ≡ n) × (All IsByte bytes) × (s ≡ hex.encode bytes)

-- An event that the wire can carry, with the bytes behind its three hexadecimal fields.
pub record IsWireEvent (hex : HexCodec) (e : MeshEvent) (id pubkey sig : List ℕ) : Type 0 where
  pub id_hex : IsHex hex 32 id e.id
  pub pubkey_hex : IsHex hex 32 pubkey e.pubkey
  pub sig_hex : IsHex hex 64 sig e.sig
  pub id_nonzero : all_zero? id ≡ false
  pub created_at_fits : e.created_at < 2 ^ 64
  pub nonce_fits : e.pow_nonce < 2 ^ 64
  pub tags_few : length e.tags ≤ 10000
  pub tags_fit : All FitsU32 e.tags
  pub content_fits : FitsU32 e.content

decode_hex-IsHex :
    (hex : HexCodec) (n : ℕ) (bytes : List ℕ) (s : String)
    → IsHex hex n bytes s
    → decode_hex hex n s ≡ some bytes
unfolding decode_hex
decode_hex-IsHex hex n bytes s (size, small, e) =
    rw (e, hex.decode-encode bytes small, decode_hex) (ground arith)

read_kind-kind_code : (kind : OndeMessageType) → read_kind (kind_code kind) ≡ ok kind
unfolding read_kind
read_kind-kind_code kind = rw (kind_codes.0 kind, read_kind)

all_zero?-append : (xs ys : List ℕ) → all_zero? xs ≡ false → all_zero? (xs ++ ys) ≡ false
unfolding all_zero?
all_zero?-append [] ys h = cc
all_zero?-append (x ∷ xs) ys h = ground (arith, all_zero?-append xs ys)

module _ (hex : HexCodec) (e : MeshEvent) (id pubkey sig : List ℕ)
    (good : IsWireEvent hex e id pubkey sig) where
  few_tags : length e.tags % 2 ^ 32 ≡ length e.tags
  few_tags = omega (arith, good.tags_few)

  checked_tags : check_tags (length e.tags) ≡ ok tt
  unfolding check_tags
  checked_tags = ground (arith, good.tags_few)

  rebuilt :
      ◌≡◌ {A = MeshEvent}
        (record e { id = hex.encode id; pubkey = hex.encode pubkey; sig = hex.encode sig })
        e
  rebuilt = rw (← good.id_hex.2, ← good.pubkey_hex.2, ← good.sig_hex.2)

  -- The reader takes back each field in turn.
  Reads-read_event : Reads (read_event hex) (write_event e id pubkey sig) e
  unfolding read_event write_event
  Reads-read_event = Reads-bind _ _ id _ id e (Reads-take_bytes 32 id good.id_hex.0) (
      Reads-bind _ _ pubkey _ pubkey e (Reads-take_bytes 32 pubkey good.pubkey_hex.0) (
        Reads-bind _ _ (to_le_bytes 8 e.created_at) _ e.created_at e
          (Reads-take_u64 e.created_at good.created_at_fits)
          (Reads-bind _ _ (kind_code e.kind ∷ []) _ (kind_code e.kind) e
            (Reads-take_u8 (kind_code e.kind))
            (Reads-bind _ _ [] _ e.kind e (Reads-lift _ e.kind (read_kind-kind_code e.kind)) (
              rw few_tags (
                Reads-bind _ _ (to_le_bytes 4 (length e.tags)) _ (length e.tags) e
                  (Reads-take_u32 (length e.tags) (omega (arith, good.tags_few)))
                  (Reads-bind _ _ [] _ tt e (Reads-lift _ tt checked_tags) (
                    Reads-bind _ _ (write_tags e.tags) _ e.tags e
                      (Reads-take_tags e.tags good.tags_fit)
                      (Reads-bind _ _ (write_string e.content) _ e.content e
                        (Reads-take_string e.content good.content_fits)
                        (Reads-bind _ _ sig _ sig e (Reads-take_bytes 64 sig good.sig_hex.0) (
                          Reads-bind _ _ (to_le_bytes 8 e.pow_nonce) _ e.pow_nonce e
                            (Reads-take_u64 e.pow_nonce good.nonce_fits)
                            (Reads-bind _ _ (e.pow_difficulty ∷ []) _ e.pow_difficulty e
                              (Reads-take_u8 e.pow_difficulty)
                              (Reads-bind _ _ (e.ttl ∷ []) [] e.ttl e (Reads-take_u8 e.ttl)
                                (rw rebuilt (Reads-pure e)))))))))))))))

  encoded : to_wire_bytes hex e ≡ ok (pad (write_event e id pubkey sig))
  unfolding to_wire_bytes
  encoded = rw (
    decode_hex-IsHex hex 32 id e.id good.id_hex,
    decode_hex-IsHex hex 32 pubkey e.pubkey good.pubkey_hex,
    decode_hex-IsHex hex 64 sig e.sig good.sig_hex,
    and_then,
  )

  real : (n : ℕ) → all_zero? (write_event e id pubkey sig ++ replicate n 0) ≡ false
  unfolding write_event
  real n =
      all_zero?-append (write_event e id pubkey sig) (replicate n 0)
        (all_zero?-append id _ good.id_nonzero)

  decoded : (n : ℕ) → from_wire_bytes hex (write_event e id pubkey sig ++ replicate n 0) ≡ ok e
  unfolding from_wire_bytes
  decoded n =
      let bytes = write_event e id pubkey sig ++ replicate n 0 in
      let (r', run, h) =
        Reads-read_event.at (replicate n 0) (record { buf = bytes; pos = 0 })
          (record { inside = omega arith; ahead = refl }) in
      rw run (ground (arith, real n))

padded_size :
    (plain : List ℕ)
    → IsBucket (length (pad plain)) ⊎ ((16384 < length plain) × (pad plain ≡ plain))
    → IsBucket (length (pad plain)) ⊎ (16384 < length (pad plain))
padded_size plain (inl fits) = inl fits
padded_size plain (inr (long, same)) = inr (rw same long)

-- An event whose fields fit the format is encoded, to a message with the length of a bucket or
-- above the largest one; the receiver reads the same event back from it, whatever zeros the
-- padding put behind it.
pub wire_round_trip :
    (hex : HexCodec) (e : MeshEvent) (id pubkey sig : List ℕ)
    → IsWireEvent hex e id pubkey sig
    → (bytes : List ℕ) × (to_wire_bytes hex e ≡ ok bytes)
      × (from_wire_bytes hex bytes ≡ ok e)
      × (IsBucket (length bytes) ⊎ (16384 < length bytes))
wire_round_trip hex e id pubkey sig good =
    let plain = write_event e id pubkey sig in
    let ((n, padded), size) = pad_lem plain in
    (
      pad plain,
      encoded hex e id pubkey sig good,
      rw padded (decoded hex e id pubkey sig good n),
      padded_size plain size,
    )
