-- ===== src/Protocol/Wire/Reading.antt =====
-- How the reader of core/src/protocol/mod.rs moves: a rule for each way to build a read.
use onde_resilience.Prelude.{
  ℕ, ◌+◌, ◌%◌, ◌^◌, ◌≤◌, ◌<◌, ◌≡◌, refl, ap, ◌∙◌, String, false, List, [], ◌∷◌, ◌++◌, append_assoc,
  arith, ltb, length, All, drop, length-append, take-append, drop-append, drop-drop, length-drop,
}
use onde_resilience.Prelude.Bytes.{
  to_le_bytes, from_le_bytes, length-to_le_bytes, from_le_bytes-to_le_bytes,
}
use onde_resilience.Prelude.Result.{Result, ok}
use onde_resilience.Prelude.Utf8.{as_bytes, from_utf8, from_utf8-as_bytes}
use onde_resilience.Protocol.Wire.{
  WireError, WireReader, Reader, pure, lift, or_error, ◌>>=◌, take_bytes, take_u8, take_u32,
  take_u64, take_string, take_tags, first_byte, write_string, write_tags,
}

-- The reader stands in front of `rest`.
pub record At (r : WireReader) (rest : List ℕ) : Type 0 where
  pub inside : r.pos ≤ length r.buf
  pub ahead : drop r.pos r.buf ≡ rest

-- Where the bytes `xs` stand ahead, `m` reads exactly these and returns `a`.
pub record Reads {ℓ} {A : Type ℓ} (m : Reader A) (xs : List ℕ) (a : A) : Type ℓ where
  pub at :
      (rest : List ℕ) (r : WireReader)
      → At r (xs ++ rest)
      → (r' : WireReader) × (m r ≡ ok (a, r')) × At r' rest

module _ {ℓ} {A : Type ℓ} where
  pub Reads-pure : (a : A) → Reads (pure a) [] a
  Reads-pure a = record { at = λ rest r h. (r, refl, h) }

  pub Reads-lift : (m : Result WireError A) (a : A) → m ≡ ok a → Reads (lift m) [] a
  Reads-lift m a e = record { at = λ rest r h. (r, rw e, h) }

module _ {ℓ κ} {A : Type ℓ} {B : Type κ} where
  pub Reads-bind :
      (m : Reader A) (f : A → Reader B) (xs ys : List ℕ) (a : A) (b : B)
      → Reads m xs a
      → Reads (f a) ys b
      → Reads (m >>= f) (xs ++ ys) b
  unfolding ◌>>=◌
  Reads-bind m f xs ys a b hm hf = record {
    at = λ rest r h.
        let (r', run, h') = hm.at (ys ++ rest) r (rw append_assoc at h) in
        let (r'', run', h'') = hf.at rest r' h' in (r'', rw (run, ◌>>=◌) run', h'');
  }

pub Reads-take_bytes : (n : ℕ) (xs : List ℕ) → length xs ≡ n → Reads (take_bytes n) xs xs
unfolding take_bytes
Reads-take_bytes n xs e = record {
  at = λ rest r h.
      let size = length-drop r.pos r.buf in
      let size' : length (drop r.pos r.buf) ≡ length xs + length rest =
        ap length h.ahead ∙ length-append xs rest in
      let enough : ltb (length r.buf) (r.pos + n) ≡ false = ground (arith, h.inside) in
      (
        record r { pos = r.pos + n },
        rw (enough, take_bytes, h.ahead) (rw (← e, take-append)),
        record {
          inside = omega arith;
          ahead =
              drop-drop r.pos n (r.pos + n) r.buf refl
              ∙ rw h.ahead (rw (← e) (drop-append xs rest));
        },
      );
}

module _ {ℓ κ} {A : Type ℓ} {B : Type κ} where
  -- A read whose value is only changed by a function.
  Reads-map :
      (m : Reader A) (f : A → B) (xs : List ℕ) (a : A) (b : B)
      → f a ≡ b
      → Reads m xs a
      → Reads (m >>= λ x. pure (f x)) xs b
  unfolding ◌>>=◌
  Reads-map m f xs a b e hm = record {
    at = λ rest r h. let (r', run, h') = hm.at rest r h in (r', rw (run, ◌>>=◌) (rw e), h');
  }

module _ {ℓ κ} {A : Type ℓ} {B : Type κ} where
  -- A read whose value then passes a check.
  Reads-check :
      (m : Reader A) (f : A → Result WireError B) (xs : List ℕ) (a : A) (b : B)
      → f a ≡ ok b
      → Reads m xs a
      → Reads (m >>= λ x. lift (f x)) xs b
  unfolding ◌>>=◌
  Reads-check m f xs a b e hm = record {
    at = λ rest r h. let (r', run, h') = hm.at rest r h in (r', rw (run, ◌>>=◌) (rw e), h');
  }

pub Reads-take_u8 : (n : ℕ) → Reads take_u8 (n ∷ []) n
unfolding take_u8
Reads-take_u8 n = Reads-map _ first_byte (n ∷ []) (n ∷ []) n refl (Reads-take_bytes 1 (n ∷ []) refl)

pub Reads-take_u32 : (n : ℕ) → n < 2 ^ 32 → Reads take_u32 (to_le_bytes 4 n) n
unfolding take_u32
Reads-take_u32 n h =
    Reads-map _ from_le_bytes _ _ n (from_le_bytes-to_le_bytes 4 n h)
      (Reads-take_bytes 4 (to_le_bytes 4 n) (length-to_le_bytes 4 n))

pub Reads-take_u64 : (n : ℕ) → n < 2 ^ 64 → Reads take_u64 (to_le_bytes 8 n) n
unfolding take_u64
Reads-take_u64 n h =
    Reads-map _ from_le_bytes _ _ n (from_le_bytes-to_le_bytes 8 n h)
      (Reads-take_bytes 8 (to_le_bytes 8 n) (length-to_le_bytes 8 n))

-- A text is short enough for the length in front of it.
abbrev pub FitsU32 : String → Type 0
FitsU32 s = length (as_bytes s) < 2 ^ 32

pub Reads-take_string : (s : String) → FitsU32 s → Reads take_string (write_string s) s
unfolding take_string write_string
Reads-take_string s h =
    let n = length (as_bytes s) in
    let small : n % 2 ^ 32 ≡ n = omega arith in
    rw small (
      Reads-bind _ _ (to_le_bytes 4 n) (as_bytes s) n s (Reads-take_u32 n h) (
        Reads-check _ (λ bytes. or_error WireError.not_utf8 (from_utf8 bytes)) (as_bytes s)
          (as_bytes s) s (rw from_utf8-as_bytes) (Reads-take_bytes n (as_bytes s) refl)))

pub Reads-take_tags :
    (tags : List String) → All FitsU32 tags → Reads (take_tags (length tags)) (write_tags tags) tags
unfolding take_tags write_tags
Reads-take_tags [] h = Reads-pure []
Reads-take_tags (t ∷ ts) h =
    Reads-bind _ _ (write_string t) (write_tags ts) t (t ∷ ts) (Reads-take_string t h.0)
      (Reads-map _ (λ tags. t ∷ tags) (write_tags ts) ts (t ∷ ts) refl (Reads-take_tags ts h.1))
