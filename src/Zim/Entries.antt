-- ===== src/Zim/Entries.antt =====
-- A directory entry of a ZIM archive (core/crates/zim-parser/src/entries.rs). `lossy` is
-- `String::from_utf8_lossy` with the zeros trimmed; a byte stands for the `char` it becomes. A
-- position that is found lies within the input, so the code's second tests never fire and are left
-- out.
use onde_resilience.Prelude.{
  ℕ, ◌+◌, ◌-◌, ◌%◌, ◌^◌, ◌<◌, ◌≡◌, refl, ap, sym, ◌∙◌, String, false, some, List, [], ◌∷◌, ◌++◌,
  arith, if◌then◌else◌, leb, ltb, ◌==◌, length, take, drop, slice, Bool-cases, inl, inr,
  drop-append, drop-drop, take-append, take-append_at, length-append, length-drop,
}
use onde_resilience.Prelude.Bytes.{
  from_le_bytes, to_le_bytes, length-to_le_bytes, from_le_bytes-to_le_bytes,
}
use onde_resilience.Prelude.Result.{Result, ok, err, and_then}
use onde_resilience.Zim.{ZimError, get_range, zero_position, read_cstr}
use onde_resilience.Zim.Header.{NoZero}

pub record Dirent : Type 0 where
  pub url : String
  pub title : String
  pub namespace : ℕ
  pub mime_index : ℕ
  pub cluster_index : ℕ
  pub blob_offset_in_cluster : ℕ
  pub blob_size : ℕ

-- A little-endian number of `width` bytes.
unfoldable pub read_number : ℕ → List ℕ → ℕ → Result ZimError ℕ
read_number width input p =
    and_then (get_range input p (p + width)) λ bytes. ok (from_le_bytes bytes)

module _ (lossy : List ℕ → String) where
  unfoldable pub parse_dirent : List ℕ → ℕ → Result ZimError Dirent
  parse_dirent input off =
      if leb (length input) off
      then err (ZimError.out_of_bounds (off % 4294967296) (length input % 4294967296))
      else and_then (read_cstr lossy input off) λ url.
        and_then (read_cstr lossy input url.1) λ title.
          and_then (read_number 1 input title.1) λ namespace.
            let q = title.1 + 1 in
            and_then (read_number 2 input q) λ mime_index.
              and_then (read_number 4 input (q + 2)) λ cluster_index.
                and_then (read_number 4 input (q + 2 + 4)) λ blob_offset.
                  and_then (read_number 4 input (q + 2 + 4 + 4)) λ blob_size. ok (record {
                    url = url.0;
                    title = title.0;
                    namespace = namespace;
                    mime_index = mime_index;
                    cluster_index = cluster_index;
                    blob_offset_in_cluster = blob_offset;
                    blob_size = blob_size;
                  })

zero_position-found :
    (raw rest : List ℕ) → NoZero raw → zero_position (raw ++ (0 ∷ rest)) ≡ some (length raw)
unfolding zero_position
zero_position-found [] rest clean = refl
zero_position-found (b ∷ raw) rest (nonzero, clean) =
    let other : (b == 0) ≡ false = elim (Bool-cases (b == 0)) [
      | inl same ↦ absurd (nonzero (ground (arith, same)))
      | inr apart ↦ apart
    ] in
    rw (other, zero_position-found raw rest clean) refl

-- A number that stands at a position.
pub read_number_at :
    (input rest : List ℕ) (p width n : ℕ)
    → 0 < width
    → drop p input ≡ to_le_bytes width n ++ rest
    → n < 256 ^ width
    → (read_number width input p ≡ ok n) × (drop (p + width) input ≡ rest)
unfolding read_number get_range
read_number_at input rest p width n some_width here small =
    let size = length-to_le_bytes width n in
    let long : ltb (length input) (p + width) ≡ false =
      not_short input p width _ _ (ap length here ∙ length-append (to_le_bytes width n) rest) size
        some_width in
    let part : slice p (p + width) input ≡ to_le_bytes width n =
      rw here
        (take-append_at (to_le_bytes width n) rest (p + width - p) (size ∙ width_of p width)) in
    (
      rw (long, part, from_le_bytes-to_le_bytes width n small) refl,
      drop-drop p width (p + width) input refl
          ∙ ap (drop width) here
          ∙ rest_of (to_le_bytes width n) rest width size,
    )
  where
    width_of : (p width : ℕ) → width ≡ p + width - p
    width_of p width = omega arith

    rest_of : (xs rest : List ℕ) (n : ℕ) → length xs ≡ n → drop n (xs ++ rest) ≡ rest
    rest_of xs rest n h = rw (sym h) (drop-append xs rest)

    not_short :
        (input : List ℕ) (p width k more : ℕ)
        → length (drop p input) ≡ k + more
        → k ≡ width
        → 0 < width
        → ltb (length input) (p + width) ≡ false
    not_short input p width h size some_width = ground (arith, length-drop p input, h, size)

module _ (lossy : List ℕ → String) where
  read_cstr_at :
      (input raw rest : List ℕ) (p : ℕ)
      → NoZero raw
      → drop p input ≡ raw ++ (0 ∷ rest)
      → (read_cstr lossy input p ≡ ok (lossy raw, p + length raw + 1))
        × (drop (p + length raw + 1) input ≡ rest)
  unfolding read_cstr
  read_cstr_at input raw rest p clean here =
      let found : zero_position (drop p input) ≡ some (length raw) =
        rw here (zero_position-found raw rest clean) in
      let text : take (length raw) (drop p input) ≡ raw = rw here (take-append raw (0 ∷ rest)) in
      (
        rw (found, read_cstr, text) refl,
        drop-drop p (length raw + 1) (p + length raw + 1) input (omega arith)
            ∙ ap (drop (length raw + 1)) here
            ∙ drop-drop (length raw) 1 (length raw + 1) (raw ++ (0 ∷ rest)) refl
            ∙ ap (drop 1) (drop-append raw (0 ∷ rest)),
      )

  -- The layout of an entry.
  abbrev pub layout : List ℕ → List ℕ → ℕ → ℕ → ℕ → ℕ → ℕ → List ℕ → List ℕ
  layout url title namespace mime_index cluster_index blob_offset blob_size after =
      url
      ++ (0
          ∷ (title
              ++ (0
                  ∷ (to_le_bytes 1 namespace
                      ++ (to_le_bytes 2 mime_index
                          ++ (to_le_bytes 4 cluster_index
                              ++ (to_le_bytes 4 blob_offset
                                  ++ (to_le_bytes 4 blob_size ++ after))))))))

  -- An entry that is laid out anywhere in an archive, with texts without zero bytes and numbers in
  -- the ranges of their fields, is read back from its position, whatever stands before and behind.
  pub parse_dirent-layout :
      (before after url title : List ℕ)
      (namespace mime_index cluster_index blob_offset blob_size : ℕ)
      → NoZero url
      → NoZero title
      → namespace < 256
      → mime_index < 65536
      → cluster_index < 4294967296
      → blob_offset < 4294967296
      → blob_size < 4294967296
      → parse_dirent lossy
          (before
            ++ layout url title namespace mime_index cluster_index blob_offset blob_size after)
          (length before)
        ≡ ok (record {
          url = lossy url;
          title = lossy title;
          namespace = namespace;
          mime_index = mime_index;
          cluster_index = cluster_index;
          blob_offset_in_cluster = blob_offset;
          blob_size = blob_size;
        })
  unfolding parse_dirent
  parse_dirent-layout before after url title namespace mime_index cluster_index blob_offset
        blob_size clean_url clean_title h1 h2 h3 h4 h5 =
      let tail5 = to_le_bytes 4 blob_size ++ after in
      let tail4 = to_le_bytes 4 blob_offset ++ tail5 in
      let tail3 = to_le_bytes 4 cluster_index ++ tail4 in
      let tail2 = to_le_bytes 2 mime_index ++ tail3 in
      let tail1 = to_le_bytes 1 namespace ++ tail2 in
      let whole = url ++ (0 ∷ (title ++ (0 ∷ tail1))) in
      let input = before ++ whole in
      let off = length before in
      let p1 = off + length url + 1 in
      let p2 = p1 + length title + 1 in
      let inside : leb (length input) off ≡ false =
        starts_inside before url (title ++ (0 ∷ tail1)) in
      let (r1, d1) =
        read_cstr_at input url (title ++ (0 ∷ tail1)) off clean_url (drop-append before whole) in
      let (r2, d2) = read_cstr_at input title tail1 p1 clean_title d1 in
      let (r3, d3) = read_number_at input tail2 p2 1 namespace (omega arith) d2 h1 in
      let (r4, d4) = read_number_at input tail3 (p2 + 1) 2 mime_index (omega arith) d3 h2 in
      let (r5, d5) = read_number_at input tail4 (p2 + 1 + 2) 4 cluster_index (omega arith) d4 h3 in
      let (r6, d6) =
        read_number_at input tail5 (p2 + 1 + 2 + 4) 4 blob_offset (omega arith) d5 h4 in
      let (r7, d7) =
        read_number_at input after (p2 + 1 + 2 + 4 + 4) 4 blob_size (omega arith) d6 h5 in
      rw (inside, r1, r2, r3, r4, r5, r6, r7) refl
    where
      starts_inside :
          (before url rest : List ℕ)
          → leb (length (before ++ (url ++ (0 ∷ rest)))) (length before) ≡ false
      starts_inside before url rest =
          ground (arith, length-append before (url ++ (0 ∷ rest)), length-append url (0 ∷ rest))
