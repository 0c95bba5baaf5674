-- ===== src/Zim/Clusters.antt =====
-- A cluster of a ZIM archive (`parse_cluster` of core/crates/zim-parser/src/content.rs). The loop
-- runs on the number of bytes of the cluster; each round takes four at least.
use onde_resilience.Prelude.{
  ℕ, suc, zero, ◌+◌, ◌-◌, ◌%◌, ◌≤◌, ◌<◌, ◌≡◌, refl, ap, ◌∙◌, Bool, true, false, ◌||◌, not, Option,
  none, some, List, [], ◌∷◌, ◌++◌, arith, if◌then◌else◌, leb, ltb, ◌==◌, length, drop, slice,
  Bool-cases, Option-cases, inl, inr, drop-append, drop-drop, take-append_at, length-append,
  append_assoc,
}
use onde_resilience.Prelude.Bytes.{to_le_bytes, length-to_le_bytes}
use onde_resilience.Prelude.Result.{Result, ok, err, and_then, map_ok, Result-cases}
use onde_resilience.Zim.{ZimError}
use onde_resilience.Zim.Entries.{read_number, read_number_at}

pub record BlobRaw : Type 0 where
  pub offset_in_cluster : ℕ
  pub size : ℕ
  pub bytes : List ℕ

-- One round of the loop, if there is one.
unfoldable pub next_blob : List ℕ → ℕ → ℕ → ℕ → Option (Result ZimError BlobRaw)
next_blob input start end pos =
    if leb end pos
    then none
    else some (
        if ltb end (pos + 4)
        then err ZimError.truncated_header
        else and_then (read_number 4 input pos) λ size.
          if ltb end (pos + 4 + size)
          then err
              (ZimError.out_of_bounds ((pos + 4 + size) % 4294967296) (length input % 4294967296))
          else ok (record {
            offset_in_cluster = (pos - start) % 4294967296;
            size = size;
            bytes = slice (pos + 4) (pos + 4 + size) input;
          }))

unfoldable pub blob_loop : ℕ → List ℕ → ℕ → ℕ → ℕ → Result ZimError (List BlobRaw)
blob_loop zero input start end pos = ok []
blob_loop (suc fuel) input start end pos = elim (next_blob input start end pos) [
  | none ↦ ok []
  | some (err e) ↦ err e
  | some (ok b) ↦ map_ok (λ blobs. b ∷ blobs) (blob_loop fuel input start end (pos + 4 + b.size))
]

unfoldable pub is_code : ℕ → Bool
is_code code = code == 49 || (code == 52 || code == 53)

unfoldable pub parse_cluster : List ℕ → ℕ → ℕ → Result ZimError (ℕ × List BlobRaw)
parse_cluster input start end =
    if leb (length input) start || (ltb (length input) end || ltb end (start + 1))
    then err (ZimError.out_of_bounds (start % 4294967296) (length input % 4294967296))
    else and_then (read_number 1 input start) λ code.
      if not (is_code code)
      then err (ZimError.unknown_compression code)
      else map_ok (λ blobs. (code, blobs)) (blob_loop (end - start) input start end (start + 1))

-- Blobs, each behind its size.
abbrev pub payload : List (List ℕ) → List ℕ
payload [] = []
payload (b ∷ blobs) = to_le_bytes 4 (length b) ++ (b ++ payload blobs)

-- Where each of them stands.
abbrev pub located : ℕ → List (List ℕ) → List BlobRaw
located offset [] = []
located offset (b ∷ blobs) =
    record { offset_in_cluster = offset; size = length b; bytes = b }
    ∷ located (offset + 4 + length b) blobs

payload-length :
    (b : List ℕ) (blobs : List (List ℕ))
    → length (payload (b ∷ blobs)) ≡ 4 + length b + length (payload blobs)
payload-length b blobs = omega (
  arith,
  length-append (to_le_bytes 4 (length b)) (b ++ payload blobs),
  length-append b (payload blobs),
  length-to_le_bytes 4 (length b),
)

next_blob-here :
    (input b rest : List ℕ) (start end pos : ℕ)
    → drop pos input ≡ to_le_bytes 4 (length b) ++ (b ++ rest)
    → length b < 4294967296
    → pos + 4 + length b ≤ end
    → pos - start < 4294967296
    → (next_blob input start end pos
        ≡ some (ok (record { offset_in_cluster = pos - start; size = length b; bytes = b })))
      × (drop (pos + 4 + length b) input ≡ rest)
unfolding next_blob
next_blob-here input b rest start end pos here small fits near =
    let (read, behind) =
      read_number_at input (b ++ rest) pos 4 (length b) (omega arith) here small in
    let more : leb end pos ≡ false = ground (arith, fits) in
    let room : ltb end (pos + 4) ≡ false = ground (arith, fits) in
    let whole : ltb end (pos + 4 + length b) ≡ false = ground (arith, fits) in
    let offset : (pos - start) % 4294967296 ≡ pos - start = omega (arith, near) in
    let part : slice (pos + 4) (pos + 4 + length b) input ≡ b =
      rw behind (take-append_at b rest (pos + 4 + length b - (pos + 4)) (omega arith)) in
    (
      rw (more, room, read, whole, offset, part) refl,
      drop-drop (pos + 4) (length b) (pos + 4 + length b) input refl
          ∙ ap (drop (length b)) behind
          ∙ drop-append b rest,
    )

finished : (input : List ℕ) (start end pos : ℕ) → end ≡ pos → next_blob input start end pos ≡ none
unfolding next_blob
finished input start end pos h = let over : leb end pos ≡ true = ground (arith, h) in rw over refl

blob_loop-payload :
    (blobs : List (List ℕ)) (fuel : ℕ) (input after : List ℕ) (start end pos : ℕ)
    → drop pos input ≡ payload blobs ++ after
    → end ≡ pos + length (payload blobs)
    → start ≤ pos
    → end - start < 4294967296
    → length (payload blobs) < fuel
    → blob_loop fuel input start end pos ≡ ok (located (pos - start) blobs)
unfolding blob_loop
blob_loop-payload blobs zero input after start end pos here stop begun near enough =
    absurd (omega (arith, enough))
blob_loop-payload [] (suc fuel) input after start end pos here stop begun near enough =
    rw (finished input start end pos (omega (arith, stop)), blob_loop) refl
blob_loop-payload (b ∷ blobs) (suc fuel) input after start end pos here stop begun near enough =
    let size = payload-length b blobs in
    let (found, behind) =
      next_blob-here input b (payload blobs ++ after) start end pos
        (here
          ∙ append_assoc (to_le_bytes 4 (length b)) (b ++ payload blobs) after
          ∙ ap (λ xs. to_le_bytes 4 (length b) ++ xs) (append_assoc b (payload blobs) after))
        (omega (arith, stop, size, near, begun)) (omega (arith, stop, size))
        (omega (arith, stop, size, near)) in
    let rest =
      blob_loop-payload blobs fuel input after start end (pos + 4 + length b) behind
        (omega (arith, stop, size)) (omega (arith, begun)) near (omega (arith, enough, size)) in
    let next : pos + 4 + length b - start ≡ pos - start + 4 + length b = omega (arith, begun) in
    rw (found, blob_loop, rest)
      (ap
        (λ o. ok (
          record { offset_in_cluster = pos - start; size = length b; bytes = b } ∷ located o blobs))
        next)

inside :
    (before cluster after : List ℕ) (n : ℕ)
    → length cluster ≡ suc n
    → (leb (length (before ++ (cluster ++ after))) (length before)
        || (ltb (length (before ++ (cluster ++ after))) (length before + length cluster)
            || ltb (length before + length cluster) (length before + 1)))
      ≡ false
inside before cluster after n size =
    ground (arith, length-append before (cluster ++ after), length-append cluster after, size)

-- A cluster that is laid out anywhere in an archive, with a known compression code and fewer than
-- 2^32 bytes, is parsed to exactly its blobs in their order, each with its size and with the offset
-- of its size field from the start of the cluster.
pub parse_cluster-payload :
    (before after : List ℕ) (code : ℕ) (blobs : List (List ℕ))
    → is_code code ≡ true
    → code < 256
    → length (payload blobs) + 1 < 4294967296
    → parse_cluster
        (before ++ ((code ∷ payload blobs) ++ after))
        (length before)
        (length before + length (code ∷ payload blobs))
      ≡ ok (code, located 1 blobs)
unfolding parse_cluster to_le_bytes
parse_cluster-payload before after code blobs known byte small =
    let p = length before in
    let whole = (code ∷ payload blobs) ++ after in
    let input = before ++ whole in
    let end = p + length (code ∷ payload blobs) in
    let here : drop p input ≡ to_le_bytes 1 code ++ (payload blobs ++ after) =
      drop-append before whole ∙ ap (λ c. c ∷ (payload blobs ++ after)) (omega (arith, byte)) in
    let (head, behind) =
      read_number_at input (payload blobs ++ after) p 1 code (omega arith) here byte in
    let rest =
      blob_loop-payload blobs (end - p) input after p end (p + 1) behind (omega arith) (omega arith)
        (omega (arith, small)) (omega arith) in
    let first : p + 1 - p ≡ 1 = omega arith in
    rw (inside before (code ∷ payload blobs) after (length (payload blobs)) refl, head, known, rest)
      (ap (λ o. ok (code, located o blobs)) first)

next_blob-more :
    (input : List ℕ) (start end pos : ℕ) (r : Result ZimError BlobRaw)
    → next_blob input start end pos ≡ some r
    → pos < end
unfolding next_blob
next_blob-more input start end pos r h = elim (Bool-cases (leb end pos)) [
  | inl over ↦ absurd (ground (arith, h, over))
  | inr more ↦ ground (arith, more)
]

-- More rounds than bytes that are left give what any such number of rounds gives: the loop ends on
-- every input before its rounds do.
pub blob_loop-enough :
    (f g : ℕ) (input : List ℕ) (start end pos : ℕ)
    → end - pos < f
    → end - pos < g
    → blob_loop f input start end pos ≡ blob_loop g input start end pos
unfolding blob_loop
blob_loop-enough zero g input start end pos hf hg = absurd (omega (arith, hf))
blob_loop-enough (suc f) zero input start end pos hf hg = absurd (omega (arith, hg))
blob_loop-enough (suc f) (suc g) input start end pos hf hg =
    elim (Option-cases (next_blob input start end pos)) [
      | inl over ↦ rw (over, blob_loop) refl
      | inr (r, found) ↦ elim (Result-cases r) [
        | inl (e, bad) ↦ rw (found, bad, blob_loop) refl
        | inr (b, good) ↦
            let more = next_blob-more input start end pos r found in
            rw (found, good, blob_loop)
              (ap (map_ok (λ (blobs : List BlobRaw). b ∷ blobs)) (
                blob_loop-enough f g input start end (pos + 4 + b.size) (omega (arith, hf, more))
                  (omega (arith, hg, more))))
      ]
    ]
