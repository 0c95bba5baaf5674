-- ===== src/Release/Signing.antt =====
-- What the build team signs (core/src/update/mod.rs, core/src/crypto/mod.rs) is what a node reads.

use onde_resilience.Prelude.{
  ℕ, ◌^◌, ◌<◌, ◌≡◌, refl, true, List, ◌++◌, arith, length, take, slice-past, take-append_at,
  take-all, length-append,
}
use onde_resilience.Prelude.Bytes.{
  to_le_bytes, length-to_le_bytes, from_le_bytes-to_le_bytes, bytes_eq, bytes_eq_refl,
}
use onde_resilience.Prelude.Result.{ok}
use onde_resilience.Protocol.Validate.{Crates, verify_from_pubkey}
use onde_resilience.Release.{
  ApkManifest, UpdateAnnouncement, UpdateManifest, Identity, apk_magic, announcement_magic,
  manifest_bytes, is_manifest, read_manifest, parse_signed_manifest, announcement_bytes,
  read_announcement, manifest_wire, sign_apk_manifest, sign_update_manifest, sign_announcement,
  verify_apk_manifest, verify_announcement, verify_update_manifest, verify_apk_signature,
}

-- Ed25519: what a key pair signs, its public key accepts.
abbrev pub Signs : Crates → Identity → Type 0
Signs crates root =
    (message : List ℕ)
    → verify_from_pubkey crates root.verifying_key message (root.sign message) ≡ true

pub record IsApkManifest (m : ApkManifest) : Type 0 where
  pub hash_size : length m.apk_hash ≡ 32
  pub key_size : length m.dev_pubkey ≡ 32
  pub timestamp_fits : m.timestamp < 2 ^ 64

pub record IsUpdateManifest (m : UpdateManifest) : Type 0 where
  pub inner : IsApkManifest m.apk_manifest
  pub size_fits : m.apk_size < 2 ^ 64
  pub chunk_fits : m.chunk_size < 2 ^ 32

pub record IsAnnouncement (a : UpdateAnnouncement) : Type 0 where
  pub major_fits : a.version.major < 2 ^ 16
  pub minor_fits : a.version.minor < 2 ^ 16
  pub patch_fits : a.version.patch < 2 ^ 16
  pub hash_size : length a.apk_sha256 ≡ 32
  pub timestamp_fits : a.timestamp < 2 ^ 64

module _ (m : ApkManifest) (good : IsApkManifest m) where
  length-manifest_bytes : length (manifest_bytes m) ≡ 80
  unfolding manifest_bytes
  length-manifest_bytes = omega (
    arith,
    length-append m.apk_hash (m.dev_pubkey ++ to_le_bytes 8 m.timestamp),
    length-append m.dev_pubkey (to_le_bytes 8 m.timestamp),
    length-to_le_bytes 8 m.timestamp,
    good.hash_size,
    good.key_size,
  )

  take-manifest_bytes : take 8 (manifest_bytes m) ≡ apk_magic
  unfolding manifest_bytes
  take-manifest_bytes = refl

  is_manifest-manifest_bytes : is_manifest (manifest_bytes m) ≡ true
  unfolding is_manifest
  is_manifest-manifest_bytes =
      rw (length-manifest_bytes, take-manifest_bytes) (bytes_eq_refl apk_magic)

  read_manifest-manifest_bytes : read_manifest (manifest_bytes m) ≡ m
  unfolding read_manifest manifest_bytes
  read_manifest-manifest_bytes =
      let tail = to_le_bytes 8 m.timestamp in
      let size = good.hash_size in
      let key = good.key_size in
      rw
        (
          slice-past apk_magic (m.apk_hash ++ (m.dev_pubkey ++ tail)) 8 8 40 refl (omega arith),
          slice-past apk_magic (m.apk_hash ++ (m.dev_pubkey ++ tail)) 8 40 72 refl (omega arith),
          slice-past apk_magic (m.apk_hash ++ (m.dev_pubkey ++ tail)) 8 72 80 refl (omega arith),
          slice-past m.apk_hash (m.dev_pubkey ++ tail) 32 32 64 size (omega arith),
          slice-past m.apk_hash (m.dev_pubkey ++ tail) 32 64 72 size (omega arith),
          slice-past m.dev_pubkey tail 32 32 40 key (omega arith),
          take-append_at m.apk_hash (m.dev_pubkey ++ tail) 32 size,
          take-append_at m.dev_pubkey tail 32 key,
          take-all tail 8 (length-to_le_bytes 8 m.timestamp),
          from_le_bytes-to_le_bytes 8 m.timestamp (omega (arith, good.timestamp_fits)),
        )
        refl

module _ (a : UpdateAnnouncement) (good : IsAnnouncement a) where
  length-announcement_bytes : length (announcement_bytes a) ≡ 54
  unfolding announcement_bytes
  length-announcement_bytes = omega (
    arith,
    length-append a.apk_sha256 (to_le_bytes 8 a.timestamp),
    length-append (to_le_bytes 2 a.version.patch) (a.apk_sha256 ++ to_le_bytes 8 a.timestamp),
    length-append (to_le_bytes 2 a.version.minor)
        (to_le_bytes 2 a.version.patch ++ (a.apk_sha256 ++ to_le_bytes 8 a.timestamp)),
    length-append (to_le_bytes 2 a.version.major) (
        to_le_bytes 2 a.version.minor
        ++ (to_le_bytes 2 a.version.patch ++ (a.apk_sha256 ++ to_le_bytes 8 a.timestamp))),
    length-to_le_bytes 8 a.timestamp,
    length-to_le_bytes 2 a.version.major,
    length-to_le_bytes 2 a.version.minor,
    length-to_le_bytes 2 a.version.patch,
    good.hash_size,
  )

  read_announcement-announcement_bytes : read_announcement (announcement_bytes a) ≡ a
  unfolding read_announcement announcement_bytes to_le_bytes
  read_announcement-announcement_bytes =
      let tail = to_le_bytes 8 a.timestamp in
      let size = good.hash_size in
      rw
        (
          take-append_at a.apk_sha256 tail 32 size,
          slice-past a.apk_sha256 tail 32 32 40 size (omega arith),
          take-all tail 8 (length-to_le_bytes 8 a.timestamp),
          from_le_bytes-to_le_bytes 8 a.timestamp (omega (arith, good.timestamp_fits)),
          from_le_bytes-to_le_bytes 2 a.version.major (omega (arith, good.major_fits)),
          from_le_bytes-to_le_bytes 2 a.version.minor (omega (arith, good.minor_fits)),
          from_le_bytes-to_le_bytes 2 a.version.patch (omega (arith, good.patch_fits)),
        )
        refl

module _ (crates : Crates) (root : Identity) (signs : Signs crates root) where
  pub verify-sign_announcement :
      (a : UpdateAnnouncement)
      → IsAnnouncement a
      → verify_announcement crates root.verifying_key
          (sign_announcement root a).1
          (sign_announcement root a).0
        ≡ ok a
  unfolding verify_announcement sign_announcement
  verify-sign_announcement a good =
      rw
        (
          length-announcement_bytes a good,
          let e : bytes_eq (take 8 (announcement_bytes a)) announcement_magic ≡ true =
                unfold announcement_bytes in bytes_eq_refl announcement_magic in
              e,
          signs (announcement_bytes a),
          read_announcement-announcement_bytes a good,
        )
        refl

  pub verify_apk_manifest-sign :
      (m : ApkManifest)
      → IsApkManifest m
      → verify_apk_manifest crates root.verifying_key
          (manifest_bytes m)
          (root.sign (manifest_bytes m))
        ≡ true
  unfolding verify_apk_manifest bytes_eq
  verify_apk_manifest-sign m good =
      rw (length-manifest_bytes m good, take-manifest_bytes m good) (signs (manifest_bytes m))

  pub verify-sign_update_manifest :
      (m : UpdateManifest)
      → IsUpdateManifest m
      → verify_update_manifest crates root.verifying_key
          (sign_update_manifest root m).1
          (sign_update_manifest root m).0
        ≡ ok m
  unfolding verify_update_manifest sign_update_manifest sign_apk_manifest manifest_wire
      parse_signed_manifest
  verify-sign_update_manifest m good =
      let inner = manifest_bytes m.apk_manifest in
      let sizes = to_le_bytes 8 m.apk_size in
      let chunk = to_le_bytes 4 m.chunk_size in
      let size = length-manifest_bytes m.apk_manifest good.inner in
      rw
        (
          length-append inner (sizes ++ chunk),
          length-append sizes chunk,
          length-to_le_bytes 8 m.apk_size,
          length-to_le_bytes 4 m.chunk_size,
          take-append_at inner (sizes ++ chunk) 80 size,
          size,
          verify_apk_manifest-sign m.apk_manifest good.inner,
          is_manifest-manifest_bytes m.apk_manifest good.inner,
          read_manifest-manifest_bytes m.apk_manifest good.inner,
          slice-past inner (sizes ++ chunk) 80 80 88 size (omega arith),
          slice-past inner (sizes ++ chunk) 80 88 92 size (omega arith),
          slice-past sizes chunk 8 8 12 (length-to_le_bytes 8 m.apk_size) (omega arith),
          take-append_at sizes chunk 8 (length-to_le_bytes 8 m.apk_size),
          take-all chunk 4 (length-to_le_bytes 4 m.chunk_size),
          from_le_bytes-to_le_bytes 8 m.apk_size (omega (arith, good.size_fits)),
          from_le_bytes-to_le_bytes 4 m.chunk_size (omega (arith, good.chunk_fits)),
        )
        refl

  -- The file that a signed manifest is about passes the check from end to end.
  pub verify_apk_signature-sign :
      (m : UpdateManifest) (apk : List ℕ)
      → IsUpdateManifest m
      → crates.sha256 apk ≡ m.apk_manifest.apk_hash
      → verify_apk_signature crates apk
          (take 80 (sign_update_manifest root m).1)
          (sign_update_manifest root m).0
          root.verifying_key
        ≡ ok m.apk_manifest
  unfolding verify_apk_signature sign_update_manifest sign_apk_manifest manifest_wire
  verify_apk_signature-sign m apk good hash =
      rw
        (
          take-append_at (manifest_bytes m.apk_manifest)
              (to_le_bytes 8 m.apk_size ++ to_le_bytes 4 m.chunk_size) 80
              (length-manifest_bytes m.apk_manifest good.inner),
          verify_apk_manifest-sign m.apk_manifest good.inner,
          is_manifest-manifest_bytes m.apk_manifest good.inner,
          read_manifest-manifest_bytes m.apk_manifest good.inner,
          hash,
          bytes_eq_refl m.apk_manifest.apk_hash,
        )
        refl

  -- For a key pair whose signatures verify, and fields in the ranges of their types: a node
  -- reads back the announcement and the update manifest that the team signed.
  pub signed_round_trip :
      (a : UpdateAnnouncement) (m : UpdateManifest)
      → IsAnnouncement a
      → IsUpdateManifest m
      → (verify_announcement crates root.verifying_key
            (sign_announcement root a).1
            (sign_announcement root a).0
          ≡ ok a)
        × (verify_update_manifest crates root.verifying_key
              (sign_update_manifest root m).1
              (sign_update_manifest root m).0
            ≡ ok m)
  signed_round_trip a m good fine =
      (verify-sign_announcement a good, verify-sign_update_manifest m fine)
