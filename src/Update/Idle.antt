-- ===== src/Update/Idle.antt =====
-- Calls of core/src/update/mod.rs among which no transfer is verified.
use onde_resilience.Prelude.{
  ℕ, ◌≡◌, refl, sym, ap, ◌∙◌, String, Bool, Option, none, List, [], arith, take, inl, inr,
}
use onde_resilience.Prelude.Result.{Result-cases, err}
use onde_resilience.Protocol.Validate.{Crates}
use onde_resilience.Release.{
  Version, UpdateAnnouncement, signed_manifest_len, verify_update_manifest, verify_apk_signature,
}
use onde_resilience.Update.{
  UpdateProtocol, PendingUpdate, UpdateError, push_installed, record_install, reject_pending,
  handle_chunk, check_manifest, handle_manifest, verify_assembled, assemble_and_verify,
  install_verified,
}
use onde_resilience.Update.Reached.{
  handle_chunk-cases, assemble_and_verify-cases, install_verified-cases,
}

module _ (crates : Crates) where
  -- Any sequence of calls, with any arguments, of which no `assemble_and_verify` succeeds.
  pub data Idle (s : UpdateProtocol) : UpdateProtocol → Type 0 where
    here : Idle s s
    manifest_received :
        {t : UpdateProtocol}
        → Idle s t
        → (a : UpdateAnnouncement) (bytes sig : List ℕ) (peer : String)
        → Idle s (handle_manifest crates t a bytes sig peer).0
    chunk_received :
        {t : UpdateProtocol}
        → Idle s t
        → (index : ℕ) (bytes : List ℕ) → Idle s (handle_chunk t index bytes).0
    not_assembled :
        {t : UpdateProtocol}
        → Idle s t
        → (e : UpdateError) → (assemble_and_verify crates t).1 ≡ err e
        → Idle s (assemble_and_verify crates t).0
    installed :
        {t : UpdateProtocol}
        → Idle s t
        → (written : Bool) (apk : List ℕ) (dest_path : String) (installed_at : ℕ)
        → Idle s (install_verified crates written t apk dest_path installed_at).0
    recorded :
        {t : UpdateProtocol}
        → Idle s t
        → (version : Version) (apk_sha256 : List ℕ) (installed_at : ℕ) (apk_path : Option String)
        → Idle s (record_install t version apk_sha256 installed_at apk_path)
    rejected : {t : UpdateProtocol} → Idle s t → Idle s (reject_pending t)

  handle_manifest-none :
      (t : UpdateProtocol) (a : UpdateAnnouncement) (bytes sig : List ℕ) (peer : String)
      → t.last_verified ≡ none
      → (handle_manifest crates t a bytes sig peer).0.last_verified ≡ none
  unfolding handle_manifest
  handle_manifest-none t a bytes sig peer h =
      elim (Result-cases (verify_update_manifest crates t.root_pubkey bytes sig)) [
        | inl (e, bad) ↦ rw (bad, handle_manifest) h
        | inr (m, signed) ↦
            rw (signed, handle_manifest)
              (elim (Result-cases (check_manifest crates a m)) [
                | inl (e, bad) ↦ rw (bad, handle_manifest) h
                | inr (tt, good) ↦ rw (good, handle_manifest) refl
              ])
      ]

  verify_assembled-none :
      (t : UpdateProtocol) (p : PendingUpdate) (apk : List ℕ) (e : UpdateError)
      → (verify_assembled crates t p apk).1 ≡ err e
      → t.last_verified ≡ none
      → (verify_assembled crates t p apk).0.last_verified ≡ none
  unfolding verify_assembled
  verify_assembled-none t p apk e failed h =
      elim (Result-cases (
        verify_apk_signature crates apk (take signed_manifest_len p.manifest_wire)
          p.manifest_signature t.root_pubkey)) [
            | inl (e', bad) ↦ rw (bad, verify_assembled) h
            | inr (m, good) ↦ ground (arith, good, failed)
          ]

  -- Nothing is verified by calls of which no `assemble_and_verify` succeeds.
  pub Idle-none :
      {s t : UpdateProtocol} → Idle s t → s.last_verified ≡ none → t.last_verified ≡ none
  unfolding record_install push_installed reject_pending
  Idle-none here h = h
  Idle-none (manifest_received {t = t} calls a bytes sig peer) h =
      handle_manifest-none t a bytes sig peer (Idle-none calls h)
  Idle-none (chunk_received {t = t} calls index bytes) h =
      elim (handle_chunk-cases crates [] t index bytes) [
        | inl same ↦ rw same (Idle-none calls h)
        | inr (p, _, _, _, after) ↦ rw after (Idle-none calls h)
      ]
  Idle-none (not_assembled {t = t} calls e failed) h =
      elim (assemble_and_verify-cases crates [] t) [
        | inl same ↦ rw same (Idle-none calls h)
        | inr (p, apk, _, run) ↦
            rw run (
              verify_assembled-none t p apk e (sym (ap (λ r. r.1) run) ∙ failed)
                (Idle-none calls h))
      ]
  Idle-none (installed {t = t} calls written apk dest_path installed_at) h =
      elim (install_verified-cases crates [] written t apk dest_path installed_at) [
        | inl (e, same) ↦ rw same (Idle-none calls h)
        | inr (v, u, _, _, _, _, run) ↦ rw run refl
      ]
  Idle-none (recorded calls version apk_sha256 installed_at apk_path) h = Idle-none calls h
  Idle-none (rejected calls) h = refl

  -- Without a verified file, nothing can be installed.
  pub install_verified-none :
      (written : Bool) (t : UpdateProtocol) (apk : List ℕ) (dest_path : String) (installed_at : ℕ)
      → t.last_verified ≡ none
      → install_verified crates written t apk dest_path installed_at
        ≡ (t, err UpdateError.no_pending_transfer)
  unfolding install_verified
  install_verified-none written t apk dest_path installed_at h = rw h refl
