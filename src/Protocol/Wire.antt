-- ===== src/Protocol/Wire.antt =====
-- The wire format of core/src/protocol/mod.rs: `to_wire_bytes`, `from_wire_bytes` and the bounded
-- reader behind it.
pub mod Reading
pub mod RoundTrip
mod Examples
use onde_resilience.Prelude.{
  ℕ, zero, suc, ◌+◌, ◌-◌, ◌%◌, ◌^◌, String, Bool, true, false, ◌&&◌, not, Option, none, some, List,
  [], ◌∷◌, ◌++◌, if◌then◌else◌, ltb, ◌==◌, length, take, drop,
}
use onde_resilience.Prelude.Bytes.{to_le_bytes, from_le_bytes}
use onde_resilience.Prelude.Result.{Result, ok, err, and_then}
use onde_resilience.Prelude.Utf8.{as_bytes, from_utf8}
use onde_resilience.Padding.{pad}
use onde_resilience.Protocol.{OndeMessageType, MeshEvent, HexCodec, kind_code, kind_from_code}

-- The errors, one for each message that the source formats.
pub data WireError : Type 0 where
  invalid_event_id invalid_pubkey invalid_signature all_zero not_utf8 : WireError
  truncated : ℕ → ℕ → ℕ → WireError
  too_many_tags : ℕ → WireError
  unknown_kind : ℕ → WireError

-- `decode_hex_32` and `decode_hex_64`: a text that decodes to `n` bytes.
unfoldable pub decode_hex : HexCodec → ℕ → String → Option (List ℕ)
decode_hex hex n s = elim (hex.decode s) [
  | none ↦ none
  | some bytes ↦ if length bytes == n then some bytes else none
]

abbrev pub or_error {ℓ} : {A : Type ℓ} → WireError → Option A → Result WireError A
or_error e none = err e
or_error e (some a) = ok a

-- A text with its length in front.
unfoldable pub write_string : String → List ℕ
write_string s = to_le_bytes 4 (length (as_bytes s) % 2 ^ 32) ++ as_bytes s

unfoldable pub write_tags : List String → List ℕ
write_tags [] = []
write_tags (t ∷ ts) = write_string t ++ write_tags ts

-- The bytes of an event whose id, key and signature are decoded, before the padding.
unfoldable pub write_event : MeshEvent → List ℕ → List ℕ → List ℕ → List ℕ
write_event e id pubkey sig =
    id
    ++ (pubkey
        ++ (to_le_bytes 8 e.created_at
            ++ (kind_code e.kind
                ∷ (to_le_bytes 4 (length e.tags % 2 ^ 32)
                    ++ (write_tags e.tags
                        ++ (write_string e.content
                            ++ (sig
                                ++ (to_le_bytes 8 e.pow_nonce
                                    ++ e.pow_difficulty ∷ e.ttl ∷ []))))))))

unfoldable pub to_wire_bytes : HexCodec → MeshEvent → Result WireError (List ℕ)
to_wire_bytes hex e = and_then (or_error WireError.invalid_event_id (decode_hex hex 32 e.id)) λ id.
    and_then (or_error WireError.invalid_pubkey (decode_hex hex 32 e.pubkey)) λ pubkey.
      and_then (or_error WireError.invalid_signature (decode_hex hex 64 e.sig))
        λ sig. ok (pad (write_event e id pubkey sig))

pub record WireReader : Type 0 where
  pub buf : List ℕ
  pub pos : ℕ

-- A read returns its value and the reader behind it, or the error.
abbrev pub Reader {ℓ} : Type ℓ → Type ℓ
Reader A = WireReader → Result WireError (A × WireReader)

module _ {ℓ} {A : Type ℓ} where
  abbrev pub pure : A → Reader A
  pure a r = ok (a, r)

  abbrev pub lift : Result WireError A → Reader A
  lift (ok a) r = ok (a, r)
  lift (err e) r = err e

infixl 10 ◌>>=◌
unfoldable pub ◌>>=◌ {ℓ κ} : {A : Type ℓ} {B : Type κ} → Reader A → (A → Reader B) → Reader B
◌>>=◌ m f r = elim (m r) [ ok (a, r') ↦ f a r' | err e ↦ err e ]

-- `take`
unfoldable pub take_bytes : ℕ → Reader (List ℕ)
take_bytes n r =
    if ltb (length r.buf) (r.pos + n)
    then err (WireError.truncated n r.pos (length r.buf - r.pos))
    else ok (take n (drop r.pos r.buf), record r { pos = r.pos + n })

-- `bytes[0]` of a slice of one byte.
abbrev pub first_byte : List ℕ → ℕ
first_byte [] = 0
first_byte (b ∷ bs) = b

unfoldable pub take_u8 : Reader ℕ
take_u8 = do bytes ← take_bytes 1; pure (first_byte bytes)

unfoldable pub take_u32 : Reader ℕ
take_u32 = do bytes ← take_bytes 4; pure (from_le_bytes bytes)

unfoldable pub take_u64 : Reader ℕ
take_u64 = do bytes ← take_bytes 8; pure (from_le_bytes bytes)

unfoldable pub take_string : Reader String
take_string = do
  len ← take_u32
  bytes ← take_bytes len
  lift (or_error WireError.not_utf8 (from_utf8 bytes))

-- The loop over the tags.
unfoldable pub take_tags : ℕ → Reader (List String)
take_tags zero = pure []
take_tags (suc n) = do tag ← take_string; tags ← take_tags n; pure (tag ∷ tags)

unfoldable pub read_kind : ℕ → Result WireError OndeMessageType
read_kind code = elim (kind_from_code code) [
  | ok kind ↦ ok kind
  | err other ↦ err (WireError.unknown_kind other)
]

unfoldable pub check_tags : ℕ → Result WireError (Unit {0})
check_tags n = if ltb 10000 n then err (WireError.too_many_tags n) else ok tt

unfoldable pub read_event : HexCodec → Reader MeshEvent
read_event hex = do
  id ← take_bytes 32
  pubkey ← take_bytes 32
  created_at ← take_u64
  code ← take_u8
  kind ← lift (read_kind code)
  tags_len ← take_u32
  _ ← lift (check_tags tags_len)
  tags ← take_tags tags_len
  content ← take_string
  sig ← take_bytes 64
  pow_nonce ← take_u64
  pow_difficulty ← take_u8
  ttl ← take_u8
  pure (record {
    id = hex.encode id;
    pubkey = hex.encode pubkey;
    created_at = created_at;
    kind = kind;
    tags = tags;
    content = content;
    sig = hex.encode sig;
    pow_nonce = pow_nonce;
    pow_difficulty = pow_difficulty;
    ttl = ttl;
  })

unfoldable pub all_zero? : List ℕ → Bool
all_zero? [] = true
all_zero? (b ∷ bs) = b == 0 && all_zero? bs

abbrev is_empty : List ℕ → Bool
is_empty [] = true
is_empty (b ∷ bs) = false

abbrev pub event_of : Result WireError (MeshEvent × WireReader) → Result WireError MeshEvent
event_of (ok (e, r)) = ok e
event_of (err e) = err e

unfoldable pub from_wire_bytes : HexCodec → List ℕ → Result WireError MeshEvent
from_wire_bytes hex bytes =
    if not (is_empty bytes) && all_zero? bytes
    then err WireError.all_zero
    else event_of (read_event hex (record { buf = bytes; pos = 0 }))
