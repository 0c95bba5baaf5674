-- ===== src/Release/Authentic.antt =====
-- What a manifest that passes the checks of core/src/crypto/mod.rs and core/src/update/mod.rs says:
-- the pinned root has signed the hash that it carries.
use onde_resilience.Prelude.{ℕ, ◌≡◌, true, ◌↔◌, List, arith, ap, sym, ◌∙◌}
use onde_resilience.Prelude.Bytes.{bytes_eq_iff}
use onde_resilience.Prelude.Result.{ok}
use onde_resilience.Protocol.Validate.{Crates, verify_from_pubkey}
use onde_resilience.Release.{
  ApkManifest, is_manifest, read_manifest, verify_apk_manifest, verify_apk_signature,
}

-- The root has signed a manifest of 80 bytes that begins with the magic and carries this hash.
pub record IsAuthentic (crates : Crates) (root hash : List ℕ) : Type 0 where
  pub bytes : List ℕ
  pub sig : List ℕ
  pub signed : verify_from_pubkey crates root bytes sig ≡ true
  pub well_formed : is_manifest bytes ≡ true
  pub carries : (read_manifest bytes).apk_hash ≡ hash

module _ (crates : Crates) (root bytes sig : List ℕ) where
  pub verify_apk_manifest_iff :
      (verify_apk_manifest crates root bytes sig ≡ true)
      ↔ ((verify_from_pubkey crates root bytes sig ≡ true) × (is_manifest bytes ≡ true))
  unfolding verify_apk_manifest is_manifest
  verify_apk_manifest_iff = (λ h. (ground arith, ground arith), λ h. ground (arith, h.0, h.1))

  -- The three checks together: the signature, the form, and the hash of the file.
  pub verify_apk_signature_iff :
      (apk : List ℕ) (m : ApkManifest)
      → (verify_apk_signature crates apk bytes sig root ≡ ok m) ↔ (
          (verify_from_pubkey crates root bytes sig ≡ true)
          × (is_manifest bytes ≡ true)
          × (read_manifest bytes ≡ m)
          × (crates.sha256 apk ≡ m.apk_hash))
  unfolding verify_apk_signature
  verify_apk_signature_iff apk m =
      let same = bytes_eq_iff (crates.sha256 apk) (read_manifest bytes).apk_hash in
      let checked = verify_apk_manifest_iff in
      (
        λ h. ground (arith, same.0, checked.0),
        λ h. ground (
          arith,
          h.0,
          h.1,
          h.2,
          h.3,
          same.1,
          checked.1,
          ap (λ (r : ApkManifest). r.apk_hash) h.2,
        ),
      )

  -- A verified file has a hash that the root has signed.
  pub verify_apk_signature-IsAuthentic :
      (apk : List ℕ) (m : ApkManifest)
      → verify_apk_signature crates apk bytes sig root ≡ ok m
      → IsAuthentic crates root (crates.sha256 apk)
  verify_apk_signature-IsAuthentic apk m h =
      let (signed, formed, reads, hash) = (verify_apk_signature_iff apk m).0 h in
      record {
        bytes = bytes;
        sig = sig;
        signed = signed;
        well_formed = formed;
        carries = ap (λ (r : ApkManifest). r.apk_hash) reads ∙ sym hash;
      }
