-- ===== src/Zim.antt =====
-- The header of a ZIM archive (core/crates/zim-parser/src/header.rs). `lossy` is what
-- `String::from_utf8_lossy` makes of bytes. `get(a..b)` gives b - a bytes or nothing, so the code's
-- tests of their number never fire and are left out.
pub mod Header
pub mod Entries
pub mod Clusters
mod Examples
use onde_resilience.Prelude.{
  ℕ, suc, ◌+◌, ◌*◌, ◌%◌, String, Bool, true, false, ◌||◌, not, Option, none, some, List, [], ◌∷◌,
  if◌then◌else◌, ltb, ◌==◌, length, take, drop, slice,
}
use onde_resilience.Prelude.Bytes.{from_le_bytes, bytes_eq}
use onde_resilience.Prelude.Result.{Result, ok, err, and_then}

pub data ZimError : Type 0 where
  truncated_header invalid_magic : ZimError
  bad_version : ℕ → ZimError
  out_of_bounds : ℕ → ℕ → ZimError
  unknown_compression : ℕ → ZimError

pub record ZimHeader : Type 0 where
  pub major_version : ℕ
  pub minor_version : ℕ
  pub uuid : List ℕ
  pub header_size : ℕ
  pub article_count : ℕ
  pub media_count : ℕ
  pub creator : String
  pub publisher : String
  pub title : String
  pub description : String
  pub language : String
  pub mime_list_pos : ℕ
  pub cluster_ptr_pos : ℕ
  pub url_ptr_pos : ℕ
  pub title_ptr_pos : ℕ

abbrev pub u32_max : ℕ
u32_max = 4294967295

-- `data.get(from..to).ok_or(ZimError::TruncatedHeader)`
unfoldable pub get_range : List ℕ → ℕ → ℕ → Result ZimError (List ℕ)
get_range input from to =
    if ltb (length input) to then err ZimError.truncated_header else ok (slice from to input)

-- `iter().position(|&b| b == 0)`
unfoldable pub zero_position : List ℕ → Option ℕ
zero_position [] = none
zero_position (b ∷ bs) =
    let rest = zero_position bs in
    if b == 0 then some 0 else elim rest [ none ↦ none | some i ↦ some (suc i) ]

-- A guard that fails with an error.
abbrev pub refuse : Bool → ZimError → Result ZimError (Unit {0})
refuse true e = err e
refuse false e = ok tt

-- The end of a table of `count` positions.
unfoldable pub table_end : ℕ → ℕ → ℕ → Result ZimError ℕ
table_end len count pos =
    let end = pos + count * 4 in
    if ltb len end || ltb u32_max end
    then err (ZimError.out_of_bounds (if ltb u32_max pos then u32_max else pos) (len % 4294967296))
    else ok end

unfoldable pub read_tables : ℕ → ℕ → ℕ → Result ZimError (ℕ × ℕ × ℕ)
read_tables len count mime = and_then (table_end len count mime) λ cluster.
    and_then (table_end len count cluster)
      λ url. and_then (table_end len count url) λ titles. ok (cluster, url, titles)

-- What stands before the texts.
pub record Prefix : Type 0 where
  pub version : List ℕ
  pub uuid_bytes : List ℕ
  pub fixed : List ℕ

pub record Texts : Type 0 where
  pub texts : String × String × String × String × String
  pub text_end : ℕ

unfoldable pub read_prefix : List ℕ → Result ZimError Prefix
read_prefix input = and_then (get_range input 0 4) λ magic.
    and_then (refuse (not (bytes_eq magic (75 ∷ 73 ∷ 77 ∷ 0 ∷ []))) ZimError.invalid_magic) λ _.
      and_then (get_range input 4 8) λ ver.
        let major = from_le_bytes (take 2 ver) in
        and_then (refuse (ltb 6 major) (ZimError.bad_version major)) λ _.
          and_then (get_range input 8 24) λ uuid.
            and_then (get_range input 24 36)
              λ fixed. ok (record { version = ver; uuid_bytes = uuid; fixed = fixed })

module _ (lossy : List ℕ → String) where
  unfoldable pub read_cstr : List ℕ → ℕ → Result ZimError (String × ℕ)
  read_cstr input start = elim (zero_position (drop start input)) [
    | none ↦ err ZimError.truncated_header
    | some i ↦ ok (lossy (take i (drop start input)), start + i + 1)
  ]

  -- The five texts from 36 on, and the position behind them.
  unfoldable pub read_texts : List ℕ → Result ZimError Texts
  read_texts input = and_then (read_cstr input 36) λ c1. and_then (read_cstr input c1.1) λ c2.
      and_then (read_cstr input c2.1) λ c3. and_then (read_cstr input c3.1) λ c4.
        and_then (read_cstr input c4.1)
          λ c5. ok (record { texts = (c1.0, c2.0, c3.0, c4.0, c5.0); text_end = c5.1 })

  unfoldable pub parse : List ℕ → Result ZimError ZimHeader
  parse input = and_then (read_prefix input) λ p. and_then (read_texts input) λ t.
      let count = from_le_bytes (slice 4 8 p.fixed) in
      let mime = t.text_end % 4294967296 in
      and_then (read_tables (length input) count mime) λ tables.
        let (creator, publisher, title, description, language) = t.texts in
        let (cluster, url, titles) = tables in
        ok (record {
          major_version = from_le_bytes (take 2 p.version);
          minor_version = from_le_bytes (drop 2 p.version);
          uuid = p.uuid_bytes;
          header_size = from_le_bytes (take 4 p.fixed);
          article_count = count;
          media_count = from_le_bytes (drop 8 p.fixed);
          creator = creator;
          publisher = publisher;
          title = title;
          description = description;
          language = language;
          mime_list_pos = mime;
          cluster_ptr_pos = cluster;
          url_ptr_pos = url;
          title_ptr_pos = titles;
        })
