-- ===== src/Release.antt =====
-- The signed messages of an application update: `ApkManifest` and `verify_apk_signature` of
-- core/src/crypto/mod.rs, and `Version`, `UpdateAnnouncement` and `UpdateManifest` of
-- core/src/update/mod.rs. SHA-256 and Ed25519 are those of the record Crates.
pub mod Signing
pub mod Authentic
use onde_resilience.Prelude.{
  ℕ, ◌+◌, Bool, true, false, ◌&&◌, ◌||◌, not, List, [], ◌∷◌, ◌++◌, if◌then◌else◌, ltb, leb, ◌==◌,
  length, slice, take,
}
use onde_resilience.Prelude.Bytes.{to_le_bytes, from_le_bytes, bytes_eq}
use onde_resilience.Prelude.Result.{Result, ok, err, map_ok, and_then}
use onde_resilience.Protocol.Validate.{Crates, verify_from_pubkey}

pub record Version : Type 0 where
  pub major : ℕ
  pub minor : ℕ
  pub patch : ℕ

-- The derived order: the first component that differs decides.
unfoldable pub version_le : Version → Version → Bool
version_le a b =
    ltb a.major b.major
    || (a.major == b.major && (ltb a.minor b.minor || (a.minor == b.minor && leb a.patch b.patch)))

-- The messages of the two modules that say why a signed text is refused.
pub data SignedError : Type 0 where
  malformed_announcement announcement_untrusted malformed_manifest manifest_untrusted : SignedError
  malformed_signed_manifest apk_untrusted malformed_apk_manifest apk_hash_mismatch : SignedError

-- `b"ONDEAPK1"`
abbrev pub apk_magic : List ℕ
apk_magic = b'O' ∷ b'N' ∷ b'D' ∷ b'E' ∷ b'A' ∷ b'P' ∷ b'K' ∷ b'1' ∷ []

-- `b"ONDENEW1"`
abbrev pub announcement_magic : List ℕ
announcement_magic = b'O' ∷ b'N' ∷ b'D' ∷ b'E' ∷ b'N' ∷ b'E' ∷ b'W' ∷ b'1' ∷ []

abbrev pub signed_manifest_len : ℕ
signed_manifest_len = 80

abbrev pub manifest_wire_len : ℕ
manifest_wire_len = 92

pub record ApkManifest : Type 0 where
  pub apk_hash : List ℕ
  pub dev_pubkey : List ℕ
  pub timestamp : ℕ

pub record UpdateAnnouncement : Type 0 where
  pub version : Version
  pub apk_sha256 : List ℕ
  pub timestamp : ℕ

pub record UpdateManifest : Type 0 where
  pub apk_manifest : ApkManifest
  pub apk_size : ℕ
  pub chunk_size : ℕ

-- A key pair of the build team: `sign` is `Identity::sign`.
pub record Identity : Type 0 where
  pub verifying_key : List ℕ
  pub sign : List ℕ → List ℕ

-- `ApkManifest::to_signed_bytes`
unfoldable pub manifest_bytes : ApkManifest → List ℕ
manifest_bytes m = apk_magic ++ (m.apk_hash ++ (m.dev_pubkey ++ to_le_bytes 8 m.timestamp))

-- `ApkManifest::sign`
unfoldable pub sign_apk_manifest : Identity → ApkManifest → List ℕ × List ℕ
sign_apk_manifest root m = (root.sign (manifest_bytes m), manifest_bytes m)

-- The fields of a text of the right length, as both parsers read them.
unfoldable pub read_manifest : List ℕ → ApkManifest
read_manifest bytes = record {
  apk_hash = slice 8 40 bytes;
  dev_pubkey = slice 40 72 bytes;
  timestamp = from_le_bytes (slice 72 80 bytes);
}

-- `length == 80 && starts_with(APK_MAGIC)`, the test of both parsers.
unfoldable pub is_manifest : List ℕ → Bool
is_manifest bytes = length bytes == signed_manifest_len && bytes_eq (take 8 bytes) apk_magic

unfoldable pub parse_signed_manifest : List ℕ → Result SignedError ApkManifest
parse_signed_manifest bytes =
    if is_manifest bytes
    then ok (read_manifest bytes)
    else err SignedError.malformed_signed_manifest

-- `UpdateAnnouncement::to_signed_bytes`
unfoldable pub announcement_bytes : UpdateAnnouncement → List ℕ
announcement_bytes a =
    announcement_magic
    ++ (to_le_bytes 2 a.version.major
        ++ (to_le_bytes 2 a.version.minor
            ++ (to_le_bytes 2 a.version.patch ++ (a.apk_sha256 ++ to_le_bytes 8 a.timestamp))))

-- `UpdateAnnouncement::sign`
unfoldable pub sign_announcement : Identity → UpdateAnnouncement → List ℕ × List ℕ
sign_announcement root a = (root.sign (announcement_bytes a), announcement_bytes a)

unfoldable pub read_announcement : List ℕ → UpdateAnnouncement
read_announcement bytes = record {
  version = record {
    major = from_le_bytes (slice 8 10 bytes);
    minor = from_le_bytes (slice 10 12 bytes);
    patch = from_le_bytes (slice 12 14 bytes);
  };
  apk_sha256 = slice 14 46 bytes;
  timestamp = from_le_bytes (slice 46 54 bytes);
}

-- `UpdateManifest::to_wire_bytes`
unfoldable pub manifest_wire : UpdateManifest → List ℕ
manifest_wire m =
    manifest_bytes m.apk_manifest ++ (to_le_bytes 8 m.apk_size ++ to_le_bytes 4 m.chunk_size)

-- `UpdateManifest::sign`
unfoldable pub sign_update_manifest : Identity → UpdateManifest → List ℕ × List ℕ
sign_update_manifest root m = ((sign_apk_manifest root m.apk_manifest).0, manifest_wire m)

module _ (crates : Crates) where
  -- `ApkManifest::verify`
  unfoldable pub verify_apk_manifest : List ℕ → List ℕ → List ℕ → Bool
  verify_apk_manifest root bytes sig =
      if ltb (length bytes) 8 || not (bytes_eq (take 8 bytes) apk_magic)
      then false
      else if not (length bytes == signed_manifest_len)
      then false
      else verify_from_pubkey crates root bytes sig

  -- `ApkManifest::from_apk`
  unfoldable pub from_apk : List ℕ → List ℕ → ℕ → ApkManifest
  from_apk apk dev_pubkey timestamp = record {
    apk_hash = crates.sha256 apk;
    dev_pubkey = dev_pubkey;
    timestamp = timestamp;
  }

  unfoldable pub verify_apk_signature :
      List ℕ → List ℕ → List ℕ → List ℕ → Result SignedError ApkManifest
  verify_apk_signature apk bytes sig root =
      if not (verify_apk_manifest root bytes sig)
      then err SignedError.apk_untrusted
      else if not (is_manifest bytes)
      then err SignedError.malformed_apk_manifest
      else if not (bytes_eq (crates.sha256 apk) (read_manifest bytes).apk_hash)
      then err SignedError.apk_hash_mismatch
      else ok (read_manifest bytes)

  -- `UpdateAnnouncement::verify`
  unfoldable pub verify_announcement :
      List ℕ → List ℕ → List ℕ → Result SignedError UpdateAnnouncement
  verify_announcement root bytes sig =
      if not (length bytes == 54) || not (bytes_eq (take 8 bytes) announcement_magic)
      then err SignedError.malformed_announcement
      else if not (verify_from_pubkey crates root bytes sig)
      then err SignedError.announcement_untrusted
      else ok (read_announcement bytes)

  -- `UpdateAnnouncement::hash_apk`
  unfoldable pub hash_apk : List ℕ → List ℕ
  hash_apk apk = crates.sha256 apk

  -- `UpdateManifest::verify`
  unfoldable pub verify_update_manifest :
      List ℕ → List ℕ → List ℕ → Result SignedError UpdateManifest
  verify_update_manifest root bytes sig =
      let signed = take signed_manifest_len bytes in
      if not (length bytes == manifest_wire_len)
      then err SignedError.malformed_manifest
      else if not (verify_apk_manifest root signed sig)
      then err SignedError.manifest_untrusted
      else and_then (parse_signed_manifest signed) λ apk_manifest. ok (record {
        apk_manifest = apk_manifest;
        apk_size = from_le_bytes (slice 80 88 bytes);
        chunk_size = from_le_bytes (slice 88 92 bytes);
      })
