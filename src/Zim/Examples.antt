-- ===== src/Zim/Examples.antt =====
-- A small ZIM header (core/crates/zim-parser/src/header.rs).
use onde_resilience.Prelude.{
  ◌+◌, ℕ, ◌≡◌, refl, String, List, [], ◌∷◌, ◌++◌, arith, if◌then◌else◌, ◌==◌, length, replicate,
}
use onde_resilience.Prelude.Bytes.{to_le_bytes, from_le_bytes, bytes_eq}
use onde_resilience.Prelude.Result.{ok, err}
use onde_resilience.Zim.{
  ZimHeader, ZimError, get_range, zero_position, table_end, read_tables, read_prefix, read_cstr,
  read_texts, parse,
}
use onde_resilience.Zim.Entries.{parse_dirent, layout, parse_dirent-layout}
use onde_resilience.Zim.Clusters.{is_code, payload, located, parse_cluster, parse_cluster-payload}
use onde_resilience.Zim.Header.{IsHeader, parse_lem}

abbrev lossy : List ℕ → String
lossy bytes = if length bytes == 0 then "" else "onde"

abbrev archive : List ℕ
archive =
    75 ∷ 73 ∷ 77 ∷ 0 ∷ 6 ∷ 0 ∷ 3 ∷ 0 ∷ []
    ++ replicate 16 7
    ++ (80 ∷ 0 ∷ 0 ∷ 0 ∷ 1 ∷ 0 ∷ 0 ∷ 0 ∷ 0 ∷ 0 ∷ 0 ∷ 0 ∷ [])
    ++ (79 ∷ 0 ∷ 75 ∷ 0 ∷ 0 ∷ 83 ∷ 0 ∷ 102 ∷ 0 ∷ [])
    ++ replicate 16 1

abbrev header : ZimHeader
header = record {
  major_version = 6;
  minor_version = 3;
  uuid = replicate 16 7;
  header_size = 80;
  article_count = 1;
  media_count = 0;
  creator = "onde";
  publisher = "onde";
  title = "";
  description = "onde";
  language = "onde";
  mime_list_pos = 45;
  cluster_ptr_pos = 49;
  url_ptr_pos = 53;
  title_ptr_pos = 57;
}

program : Unit {0}
unfolding from_le_bytes bytes_eq get_range zero_position table_end read_tables read_prefix read_cstr
    read_texts parse
program = tt

parsed : parse lossy archive ≡ ok header
unfolding program
parsed = refl

-- Where the tables do not fit, and where the magic number is another one.
refused :
    (parse lossy (75 ∷ 73 ∷ 77 ∷ []) ≡ err ZimError.truncated_header)
    × (parse lossy (75 ∷ 73 ∷ 78 ∷ 0 ∷ []) ≡ err ZimError.invalid_magic)
    × (table_end 60 4294967295 46 ≡ err (ZimError.out_of_bounds 46 60))
unfolding program
refused = (refl, refl, refl)

parse_lem_example : IsHeader lossy archive header
parse_lem_example = parse_lem lossy archive header (omega arith) parsed

-- An entry behind the header.
parse_dirent-layout_example :
    parse_dirent lossy (archive ++ layout lossy (97 ∷ []) [] 65 2 3 40 9 (1 ∷ [])) (length archive)
    ≡ ok (record {
      url = "onde";
      title = "";
      namespace = 65;
      mime_index = 2;
      cluster_index = 3;
      blob_offset_in_cluster = 40;
      blob_size = 9;
    })
parse_dirent-layout_example =
    parse_dirent-layout lossy archive (1 ∷ []) (97 ∷ []) [] 65 2 3 40 9
      ((λ h. omega (arith, h)), tt) tt (omega arith) (omega arith) (omega arith) (omega arith)
      (omega arith)

-- Two blobs behind the header.
parse_cluster-payload_example :
    parse_cluster
      (archive ++ ((49 ∷ payload ((1 ∷ 2 ∷ []) ∷ [] ∷ [])) ++ (9 ∷ [])))
      (length archive)
      (length archive + length (49 ∷ payload ((1 ∷ 2 ∷ []) ∷ [] ∷ [])))
    ≡ ok (49, located 1 ((1 ∷ 2 ∷ []) ∷ [] ∷ []))
unfolding is_code to_le_bytes
parse_cluster-payload_example =
    parse_cluster-payload archive (9 ∷ []) 49 ((1 ∷ 2 ∷ []) ∷ [] ∷ []) refl (omega arith)
      (omega arith)
