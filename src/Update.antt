-- ===== src/Update.antt =====
-- `UpdateProtocol` of core/src/update/mod.rs: the state machine that takes an announcement, a
-- manifest and the chunks of a file, verifies the file and installs it. The write to the disk is a
-- parameter: whether it succeeds.
pub mod Chunks
pub mod Transfer
pub mod Versions
pub mod Reached
pub mod Idle
pub mod Installing
mod Examples
use onde_resilience.Prelude.{
  ℕ, zero, suc, ◌+◌, ◌-◌, ◌*◌, ◌/◌, String, Bool, true, false, ◌||◌, not, Option, none, some, List,
  [], ◌∷◌, ◌++◌, if◌then◌else◌, ltb, leb, ◌==◌, length, take, drop, slice, min, push_back,
}
use onde_resilience.Prelude.Bytes.{bytes_eq}
use onde_resilience.Prelude.IntMap.{IntMap, lookup, insert, contains_key}
use onde_resilience.Prelude.Result.{Result, ok, err, and_then}
use onde_resilience.Prelude.Words.{saturating_sub}
use onde_resilience.Protocol.Validate.{Crates}
use onde_resilience.Release.{
  Version, version_le, SignedError, UpdateAnnouncement, UpdateManifest, Identity,
  signed_manifest_len, from_apk, hash_apk, sign_announcement, sign_update_manifest,
  verify_announcement, verify_update_manifest, verify_apk_signature,
}

-- 200 MiB
abbrev pub max_apk_size : ℕ
max_apk_size = 209715200

abbrev pub max_chunks : ℕ
max_chunks = 12800

pub record InstalledUpdate : Type 0 where
  pub version : Version
  pub apk_sha256 : List ℕ
  pub installed_at : ℕ
  pub apk_path : Option String

pub data ChunkStatus : Type 0 where
  accepted duplicate : ChunkStatus

pub data UpdateError : Type 0 where
  invalid_signature : SignedError → UpdateError
  -- the two texts of `handle_manifest`
  out_of_bounds : UpdateError
  too_many_chunks : ℕ → UpdateError
  not_newer : Version → Version → UpdateError
  manifest_mismatch no_pending_transfer : UpdateError
  chunk_index_out_of_bounds : ℕ → ℕ → UpdateError
  chunk_too_large : ℕ → ℕ → ℕ → UpdateError
  incomplete_transfer : ℕ → ℕ → UpdateError
  verification_failed : SignedError → UpdateError
  install_failed : UpdateError

pub record PendingUpdate : Type 0 where
  pub version : Version
  pub manifest : UpdateManifest
  pub manifest_wire : List ℕ
  pub manifest_signature : List ℕ
  pub peer : String
  pub chunks : IntMap (List ℕ)
  pub expected_chunks : ℕ

pub record VerifiedState : Type 0 where
  pub version : Version
  pub apk_sha256 : List ℕ

pub record UpdateProtocol : Type 0 where
  pub root_pubkey : List ℕ
  pub current_version : Version
  pub pending : Option PendingUpdate
  pub last_verified : Option VerifiedState
  pub installed : List InstalledUpdate

abbrev pub new : List ℕ → Version → UpdateProtocol
new root_pubkey current_version = record {
  root_pubkey = root_pubkey;
  current_version = current_version;
  pending = none;
  last_verified = none;
  installed = [];
}

-- `div_ceil` is the quotient rounded up.
unfoldable pub chunk_count : ℕ → ℕ → ℕ
chunk_count apk_len chunk_size =
    if chunk_size == 0 then 0 else (apk_len + (chunk_size - 1)) / chunk_size

unfoldable pub chunk : List ℕ → ℕ → ℕ → Option (List ℕ)
chunk apk index chunk_size =
    let start = index * chunk_size in
    if leb (length apk) start
    then none
    else some (slice start (min (start + chunk_size) (length apk)) apk)

-- The longest chunk that `handle_chunk` takes at an index.
unfoldable pub max_len : PendingUpdate → ℕ → ℕ
max_len p index =
    if index == p.expected_chunks - 1
    then saturating_sub p.manifest.apk_size (index * p.manifest.chunk_size)
    else p.manifest.chunk_size

unfoldable pub handle_chunk :
    UpdateProtocol → ℕ → List ℕ → UpdateProtocol × Result UpdateError ChunkStatus
handle_chunk s index bytes = elim s.pending [
  | none ↦ (s, err UpdateError.no_pending_transfer)
  | some p ↦
      if leb p.expected_chunks index
      then (s, err (UpdateError.chunk_index_out_of_bounds index p.expected_chunks))
      else if ltb (max_len p index) (length bytes)
      then (s, err (UpdateError.chunk_too_large index (length bytes) (max_len p index)))
      else if contains_key index p.chunks
      then (s, ok ChunkStatus.duplicate)
      else (
        record s { pending = some (record p { chunks = insert index bytes p.chunks }) },
        ok ChunkStatus.accepted,
      )
]

unfoldable pub chunks_received : UpdateProtocol → ℕ
chunks_received s = elim s.pending [ none ↦ 0 | some p ↦ length p.chunks ]

unfoldable pub total_chunks : UpdateProtocol → ℕ
total_chunks s = elim s.pending [ none ↦ 0 | some p ↦ p.expected_chunks ]

unfoldable pub pending_peer : UpdateProtocol → Option String
pending_peer s = elim s.pending [ none ↦ none | some p ↦ some p.peer ]

-- The loop of `assemble_and_verify`: the chunks from index `i` on, `rounds` of them.
unfoldable pub assemble : IntMap (List ℕ) → ℕ → ℕ → Option (List ℕ)
assemble chunks i zero = some []
assemble chunks i (suc rounds) = elim (lookup i chunks) [
  | none ↦ none
  | some bytes ↦ elim (assemble chunks (suc i) rounds) [
    | none ↦ none
    | some rest ↦ some (bytes ++ rest)
  ]
]

-- A stable sort: an update goes behind those of its version.
unfoldable pub insert_sorted : InstalledUpdate → List InstalledUpdate → List InstalledUpdate
insert_sorted u [] = u ∷ []
insert_sorted u (v ∷ vs) =
    if version_le v.version u.version then v ∷ insert_sorted u vs else u ∷ v ∷ vs

unfoldable pub sort_loop : List InstalledUpdate → List InstalledUpdate → List InstalledUpdate
sort_loop [] sorted = sorted
sort_loop (u ∷ us) sorted = sort_loop us (insert_sorted u sorted)

-- `sort_by_key(|u| u.version)`
unfoldable pub sort_by_version : List InstalledUpdate → List InstalledUpdate
sort_by_version us = sort_loop us []

-- `last()`
unfoldable pub last : List InstalledUpdate → Option InstalledUpdate
last [] = none
last (u ∷ []) = some u
last (u ∷ v ∷ us) = last (v ∷ us)

-- The push, the sort and the new current version, shared by the two ways to install.
unfoldable pub push_installed : UpdateProtocol → InstalledUpdate → UpdateProtocol
push_installed s u =
    let installed = sort_by_version (push_back s.installed u) in
    record s {
      installed = installed;
      current_version = elim (last installed) [ none ↦ s.current_version | some v ↦ v.version ];
    }

unfoldable pub record_install :
    UpdateProtocol → Version → List ℕ → ℕ → Option String → UpdateProtocol
record_install s version apk_sha256 installed_at apk_path = push_installed s (record {
  version = version;
  apk_sha256 = apk_sha256;
  installed_at = installed_at;
  apk_path = apk_path;
})

unfoldable pub reject_pending : UpdateProtocol → UpdateProtocol
reject_pending s = record s { pending = none; last_verified = none }

unfoldable pub has_pending : UpdateProtocol → Bool
has_pending s = elim s.pending [ none ↦ false | some p ↦ true ]

unfoldable pub has_verified : UpdateProtocol → Bool
has_verified s = elim s.last_verified [ none ↦ false | some v ↦ true ]

unfoldable pub latest_installed : UpdateProtocol → Option InstalledUpdate
latest_installed s = last s.installed

module _ (crates : Crates) where
  unfoldable pub build_announcement :
      Version → List ℕ → Identity → ℕ → UpdateAnnouncement × List ℕ × List ℕ
  build_announcement version apk root timestamp =
      let announcement : UpdateAnnouncement = record {
        version = version;
        apk_sha256 = hash_apk crates apk;
        timestamp = timestamp;
      } in
      (
        announcement,
        (sign_announcement root announcement).0,
        (sign_announcement root announcement).1,
      )

  unfoldable pub build_manifest :
      List ℕ → Identity → List ℕ → ℕ → ℕ → UpdateManifest × List ℕ × List ℕ
  build_manifest apk root dev_pubkey timestamp chunk_size =
      let manifest : UpdateManifest = record {
        apk_manifest = from_apk crates apk dev_pubkey timestamp;
        apk_size = length apk;
        chunk_size = chunk_size;
      } in
      (manifest, (sign_update_manifest root manifest).0, (sign_update_manifest root manifest).1)

  unfoldable pub handle_announcement :
      UpdateProtocol → List ℕ → List ℕ → Result UpdateError UpdateAnnouncement
  handle_announcement s bytes sig = elim (verify_announcement crates s.root_pubkey bytes sig) [
    | err e ↦ err (UpdateError.invalid_signature e)
    | ok a ↦
        if version_le a.version s.current_version
        then err (UpdateError.not_newer s.current_version a.version)
        else ok a
  ]

  -- The guards of `handle_manifest` behind the signature.
  unfoldable pub check_manifest :
      UpdateAnnouncement → UpdateManifest → Result UpdateError (Unit {0})
  check_manifest a m =
      let expected = chunk_count m.apk_size m.chunk_size in
      if not (bytes_eq m.apk_manifest.apk_hash a.apk_sha256)
      then err UpdateError.manifest_mismatch
      else if ltb max_apk_size m.apk_size || m.chunk_size == 0
      then err UpdateError.out_of_bounds
      else if ltb max_chunks expected
      then err (UpdateError.too_many_chunks expected)
      else ok tt

  unfoldable pub handle_manifest :
      UpdateProtocol
      → UpdateAnnouncement
      → List ℕ
      → List ℕ
      → String
      → UpdateProtocol × Result UpdateError (Unit {0})
  handle_manifest s a bytes sig peer =
      elim (verify_update_manifest crates s.root_pubkey bytes sig) [
        | err e ↦ (s, err (UpdateError.invalid_signature e))
        | ok m ↦ elim (check_manifest a m) [
          | err e ↦ (s, err e)
          | ok _ ↦ (
            record s {
              pending = some (record {
                version = a.version;
                manifest = m;
                manifest_wire = bytes;
                manifest_signature = sig;
                peer = peer;
                chunks = [];
                expected_chunks = chunk_count m.apk_size m.chunk_size;
              });
              last_verified = none;
            },
            ok tt,
          )
        ]
      ]

  -- The last part of `assemble_and_verify`: the transfer is over, whatever the check says.
  unfoldable pub verify_assembled :
      UpdateProtocol → PendingUpdate → List ℕ → UpdateProtocol × Result UpdateError (List ℕ)
  verify_assembled s p apk =
      elim (verify_apk_signature crates apk (take signed_manifest_len p.manifest_wire)
        p.manifest_signature s.root_pubkey) [
          | err e ↦ (record s { pending = none }, err (UpdateError.verification_failed e))
          | ok _ ↦ (
            record s {
              pending = none;
              last_verified =
                  some (record { version = p.version; apk_sha256 = hash_apk crates apk });
            },
            ok apk,
          )
        ]

  unfoldable pub assemble_and_verify : UpdateProtocol → UpdateProtocol × Result UpdateError (List ℕ)
  assemble_and_verify s = elim s.pending [
    | none ↦ (s, err UpdateError.no_pending_transfer)
    | some p ↦
        let received = length p.chunks in
        if not (received == p.expected_chunks)
        then (s, err (UpdateError.incomplete_transfer received p.expected_chunks))
        else elim (assemble p.chunks 0 p.expected_chunks) [
          | none ↦ (s, err (UpdateError.incomplete_transfer received p.expected_chunks))
          | some apk ↦
              if not (length apk == p.manifest.apk_size)
              then (s, err (UpdateError.incomplete_transfer (length apk) p.manifest.apk_size))
              else verify_assembled s p apk
        ]
  ]

  -- `written` is the outcome of `std::fs::write`.
  unfoldable pub install_verified :
      Bool
      → UpdateProtocol
      → List ℕ
      → String
      → ℕ
      → UpdateProtocol × Result UpdateError InstalledUpdate
  install_verified written s apk dest_path installed_at = elim s.last_verified [
    | none ↦ (s, err UpdateError.no_pending_transfer)
    | some v ↦
        let u : InstalledUpdate = record {
          version = v.version;
          apk_sha256 = v.apk_sha256;
          installed_at = installed_at;
          apk_path = some dest_path;
        } in
        if not (bytes_eq (hash_apk crates apk) v.apk_sha256)
        then (s, err (UpdateError.verification_failed SignedError.apk_hash_mismatch))
        else if not written
        then (s, err UpdateError.install_failed)
        else (record (push_installed s u) { last_verified = none; pending = none }, ok u)
  ]
