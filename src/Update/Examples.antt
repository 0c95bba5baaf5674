-- ===== src/Update/Examples.antt =====
-- A small application that is announced, sent in three chunks, verified and installed
-- (core/src/update/mod.rs), and the theorems at this transfer.
use onde_resilience.Prelude.{
  ℕ, ◌<◌, ◌≤◌, ◌≡◌, ◌⊎◌, refl, true, false, none, some, List, [], ◌∷◌, ◌==◌, arith, any_of,
  replicate, length, All,
}
use onde_resilience.Prelude.Bytes.{to_le_bytes, from_le_bytes, bytes_eq}
use onde_resilience.Prelude.IntMap.{lookup, insert, contains_key}
use onde_resilience.Prelude.Result.{ok, err}
use onde_resilience.Protocol.HexExample.{encode, hex}
use onde_resilience.Protocol.CratesExample.{sum}
use onde_resilience.Protocol.Validate.{Crates, verify_from_pubkey}
use onde_resilience.Release.{
  Version, version_le, Identity, UpdateAnnouncement, UpdateManifest, verify_announcement,
  verify_update_manifest, sign_announcement, sign_update_manifest, hash_apk,
}
use onde_resilience.Release.Signing.{Signs, signed_round_trip}
use onde_resilience.Release.Authentic.{IsAuthentic}
use onde_resilience.Update.{
  UpdateProtocol, PendingUpdate, InstalledUpdate, UpdateError, new, max_apk_size, chunk_count,
  handle_announcement, handle_manifest, handle_chunk, max_len, assemble_and_verify,
  install_verified, push_installed, record_install,
}
use onde_resilience.Release.{
  from_apk, sign_apk_manifest, manifest_wire, manifest_bytes, verify_apk_manifest,
  verify_apk_signature, parse_signed_manifest, is_manifest, read_manifest,
}
use onde_resilience.Update.{
  build_announcement, build_manifest, check_manifest, assemble, verify_assembled, sort_by_version,
  sort_loop, insert_sorted, last,
}
use onde_resilience.Update.Transfer.{IsRelease, deliver, offered, manifest, transfer_lem}
use onde_resilience.Update.Versions.{Held}
use onde_resilience.Update.Reached.{
  Reached, reached-IsUpdate, IsUpdate, start, manifest_received, chunk_received, assembled,
}
use onde_resilience.Update.Idle.{Idle}
use onde_resilience.Update.Installing.{held_bytes, held_bytes-max, install_verified_lem}

-- A checksum in place of the digest, and signatures of the right length.
abbrev crates : Crates
crates = record {
  hex = hex;
  canonical_json = λ pubkey created_at kind tags content. [];
  sha256 = λ bytes. sum bytes ∷ replicate 31 0;
  lower_hex = encode;
  key_valid = λ key. length key == 32;
  signature_ok = λ key message sig. length sig == 64;
}

abbrev root : Identity
root = record { verifying_key = replicate 32 5; sign = λ message. replicate 64 9 }

signs : Signs crates root
unfolding verify_from_pubkey
signs message = refl

abbrev first : Version
first = record { major = 1; minor = 0; patch = 0 }

abbrev next : Version
next = record { major = 1; minor = 2; patch = 0 }

abbrev receiver : UpdateProtocol
receiver = new (replicate 32 5) first

abbrev apk : List ℕ
apk = 1 ∷ 2 ∷ 3 ∷ 4 ∷ 5 ∷ []

is_newer : version_le next first ≡ false
unfolding version_le
is_newer = refl

three_chunks : chunk_count 5 2 ≡ 3
unfolding chunk_count
three_chunks = refl

release : IsRelease crates root receiver apk (replicate 32 7) next 100 90 2
release = record {
  pinned = refl;
  newer = is_newer;
  major_fits = omega arith;
  minor_fits = omega arith;
  patch_fits = omega arith;
  announced_fits = omega arith;
  built_fits = omega arith;
  key_size = refl;
  hash_size = refl;
  apk_fits = omega arith;
  size_pos = omega arith;
  size_fits = omega arith;
  few = omega (arith, three_chunks);
}

abbrev indices : List ℕ
indices = 2 ∷ 0 ∷ 1 ∷ 0 ∷ []

every : (k : ℕ) → k < chunk_count 5 2 → any_of (λ i. i == k) indices ≡ true
every k h = ground (arith, three_chunks)

abbrev announced : UpdateAnnouncement × List ℕ × List ℕ
announced = offered crates root signs receiver apk (replicate 32 7) next 100 90 2 "mairie" release

abbrev sent : UpdateManifest × List ℕ × List ℕ
sent = manifest crates root signs receiver apk (replicate 32 7) next 100 90 2 "mairie" release

abbrev begun : UpdateProtocol
begun = (handle_manifest crates receiver announced.0 sent.2 sent.1 "mairie").0

transfer_lem_example :
    (handle_announcement crates receiver announced.2 announced.1 ≡ ok announced.0)
    × ((handle_manifest crates receiver announced.0 sent.2 sent.1 "mairie").1 ≡ ok tt)
    × (assemble_and_verify crates (deliver begun apk 2 indices) ≡ (
      record receiver {
        pending = none;
        last_verified = some (record { version = next; apk_sha256 = crates.sha256 apk });
      },
      ok apk,
    ))
transfer_lem_example =
    transfer_lem crates root signs receiver apk (replicate 32 7) next 100 90 2 "mairie" release
      indices every

abbrev half : UpdateProtocol
half = (handle_chunk begun 1 (3 ∷ 4 ∷ [])).0

half-Reached : Reached crates (replicate 32 5) first half
half-Reached =
    chunk_received (manifest_received start announced.0 sent.2 sent.1 "mairie") 1 (3 ∷ 4 ∷ [])

abbrev half_pending : PendingUpdate
half_pending = record {
  version = next;
  manifest = sent.0;
  manifest_wire = sent.2;
  manifest_signature = sent.1;
  peer = "mairie";
  chunks = (1, 3 ∷ 4 ∷ []) ∷ [];
  expected_chunks = 3;
}

half_runs : half.pending ≡ some half_pending
unfolding offered manifest build_announcement build_manifest from_apk hash_apk handle_manifest
    verify_update_manifest sign_update_manifest sign_apk_manifest manifest_wire manifest_bytes
    to_le_bytes from_le_bytes verify_apk_manifest bytes_eq verify_from_pubkey parse_signed_manifest
    is_manifest read_manifest chunk_count check_manifest handle_chunk max_len contains_key insert
    sum
half_runs = refl

reached-IsUpdate_example : IsUpdate crates (replicate 32 5) half
reached-IsUpdate_example = reached-IsUpdate crates (replicate 32 5) first half half-Reached

held_bytes-max_example :
    (held_bytes half_pending.chunks ≤ sent.0.apk_size)
    × (held_bytes half_pending.chunks ≤ max_apk_size)
held_bytes-max_example =
    held_bytes-max crates (replicate 32 5) first half half-Reached half_pending half_runs

abbrev whole : UpdateProtocol
whole =
    (assemble_and_verify crates (handle_chunk (handle_chunk half 0 (1 ∷ 2 ∷ [])).0 2 (5 ∷ [])).0).0

whole-Reached : Reached crates (replicate 32 5) first whole
whole-Reached = assembled (chunk_received (chunk_received half-Reached 0 (1 ∷ 2 ∷ [])) 2 (5 ∷ []))

-- After the installation, a manifest is taken again, and an installation is recorded.
abbrev later : UpdateProtocol
later =
    record_install
      (handle_manifest crates (install_verified crates true whole apk "onde.apk" 120).0 announced.0
        sent.2 sent.1 "mairie").0
      first (6 ∷ []) 130 none

install_verified_lem_example :
    ((e : UpdateError) × (install_verified crates true whole apk "onde.apk" 120 ≡ (whole, err e)))
    ⊎ ((u : InstalledUpdate) × (after : UpdateProtocol) × (install_verified crates true whole apk
            "onde.apk" 120
          ≡ (after, ok u))
        × IsAuthentic crates (replicate 32 5) (crates.sha256 apk)
        × (u.apk_sha256 ≡ crates.sha256 apk)
        × All
            (λ (v : InstalledUpdate). version_le v.version after.current_version ≡ true)
            after.installed
        × Held u after.installed
        × (install_verified crates true later (6 ∷ []) "autre.apk" 140
            ≡ (later, err UpdateError.no_pending_transfer)))
install_verified_lem_example =
    install_verified_lem crates (replicate 32 5) first whole whole-Reached true apk "onde.apk" 120
      later
      (Idle.recorded (Idle.manifest_received Idle.here announced.0 sent.2 sent.1 "mairie") first
        (6 ∷ []) 130 none)
      true (6 ∷ []) "autre.apk" 140

-- The whole run installs version 1.2.0.
whole_installs : (install_verified crates true whole apk "onde.apk" 120).0.current_version ≡ next
unfolding offered manifest build_announcement build_manifest from_apk hash_apk handle_manifest
    verify_update_manifest sign_update_manifest sign_apk_manifest manifest_wire manifest_bytes
    to_le_bytes from_le_bytes verify_apk_manifest bytes_eq verify_from_pubkey parse_signed_manifest
    is_manifest read_manifest chunk_count check_manifest handle_chunk max_len contains_key insert
    sum assemble_and_verify assemble lookup verify_assembled verify_apk_signature install_verified
    push_installed sort_by_version sort_loop insert_sorted last
whole_installs = refl

signed_round_trip_example :
    (verify_announcement crates
        (replicate 32 5)
        (sign_announcement root announced.0).1
        (sign_announcement root announced.0).0
      ≡ ok announced.0)
    × (verify_update_manifest crates
          (replicate 32 5)
          (sign_update_manifest root sent.0).1
          (sign_update_manifest root sent.0).0
        ≡ ok sent.0)
unfolding offered manifest build_announcement hash_apk build_manifest from_apk
signed_round_trip_example =
    signed_round_trip crates root signs announced.0 sent.0
      (record {
        major_fits = omega arith;
        minor_fits = omega arith;
        patch_fits = omega arith;
        hash_size = refl;
        timestamp_fits = omega arith;
      })
      (record {
        inner = record { hash_size = refl; key_size = refl; timestamp_fits = omega arith };
        size_fits = omega arith;
        chunk_fits = omega arith;
      })
