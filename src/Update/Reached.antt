-- ===== src/Update/Reached.antt =====
-- The states that any sequence of calls of `UpdateProtocol` (core/src/update/mod.rs) reaches.
use onde_resilience.Prelude.{
  ℕ, ◌≤◌, ◌<◌, ◌≡◌, refl, ◌⊎◌, String, Bool, inl, inr, Option, none, some, List, arith, ltb, leb,
  ◌==◌, length, take, Bool-cases, Option-cases, All, subst,
}
use onde_resilience.Prelude.Bytes.{bytes_eq, bytes_eq_iff}
use onde_resilience.Prelude.IntMap.{
  lookup, insert, contains_key, Unique, Below, Unique-insert, Below-insert, lookup-insert,
}
use onde_resilience.Prelude.Result.{ok, err, Result-cases}
use onde_resilience.Protocol.Validate.{Crates}
use onde_resilience.Release.{
  Version, SignedError, UpdateAnnouncement, UpdateManifest, signed_manifest_len,
  verify_update_manifest, verify_apk_signature, hash_apk,
}
use onde_resilience.Release.Authentic.{IsAuthentic, verify_apk_signature-IsAuthentic}
use onde_resilience.Update.{
  UpdateProtocol, PendingUpdate, VerifiedState, InstalledUpdate, UpdateError, new, max_apk_size,
  max_chunks, chunk_count, max_len, last, push_installed, record_install, reject_pending,
  handle_chunk, check_manifest, handle_manifest, assemble, verify_assembled, assemble_and_verify,
  install_verified,
}
use onde_resilience.Update.Versions.{
  IsSorted, IsCurrent, All-push_installed, push_installed-IsSorted, push_installed-IsCurrent,
}

-- A transfer within the limits, whose chunks have distinct indices in range and no more bytes than
-- their places.
pub record IsTransfer (p : PendingUpdate) : Type 0 where
  pub small : p.manifest.apk_size ≤ max_apk_size
  pub pos : 0 < p.manifest.chunk_size
  pub count : p.expected_chunks ≡ chunk_count p.manifest.apk_size p.manifest.chunk_size
  pub few : p.expected_chunks ≤ max_chunks
  pub unique : Unique p.chunks
  pub below : Below p.expected_chunks p.chunks
  pub short : (k : ℕ) (value : List ℕ) → lookup k p.chunks ≡ some value → length value ≤ max_len p k

abbrev pub PendingFine : Option PendingUpdate → Type 0
PendingFine none = Unit {0}
PendingFine (some p) = IsTransfer p

module _ (crates : Crates) (root : List ℕ) where
  abbrev pub VerifiedFine : Option VerifiedState → Type 0
  VerifiedFine none = Unit {0}
  VerifiedFine (some v) = IsAuthentic crates root v.apk_sha256

  pub record IsUpdate (s : UpdateProtocol) : Type 0 where
    pub pinned : s.root_pubkey ≡ root
    pub pending_fine : PendingFine s.pending
    pub verified_fine : VerifiedFine s.last_verified
    pub sorted : IsSorted s.installed
    pub current : IsCurrent (last s.installed) s.current_version
    pub authentic : All (λ (u : InstalledUpdate). IsAuthentic crates root u.apk_sha256) s.installed

  -- Every sequence of calls from a new protocol. `record_install` trusts its caller: the hash that
  -- it is given is one that the root has signed.
  pub data Reached (first : Version) : UpdateProtocol → Type 0 where
    start : Reached first (new root first)
    manifest_received :
        {s : UpdateProtocol}
        → Reached first s
        → (a : UpdateAnnouncement) (bytes sig : List ℕ) (peer : String)
        → Reached first (handle_manifest crates s a bytes sig peer).0
    chunk_received :
        {s : UpdateProtocol}
        → Reached first s
        → (index : ℕ) (bytes : List ℕ) → Reached first (handle_chunk s index bytes).0
    assembled :
        {s : UpdateProtocol} → Reached first s → Reached first (assemble_and_verify crates s).0
    installed :
        {s : UpdateProtocol}
        → Reached first s
        → (written : Bool) (apk : List ℕ) (dest_path : String) (installed_at : ℕ)
        → Reached first (install_verified crates written s apk dest_path installed_at).0
    recorded :
        {s : UpdateProtocol}
        → Reached first s
        → (version : Version) (apk_sha256 : List ℕ) (installed_at : ℕ) (apk_path : Option String)
        → IsAuthentic crates root apk_sha256
        → Reached first (record_install s version apk_sha256 installed_at apk_path)
    rejected : {s : UpdateProtocol} → Reached first s → Reached first (reject_pending s)

  check_manifest-limits :
      (a : UpdateAnnouncement) (m : UpdateManifest)
      → check_manifest crates a m ≡ ok tt
      → (m.apk_size ≤ max_apk_size)
        × (0 < m.chunk_size)
        × (chunk_count m.apk_size m.chunk_size ≤ max_chunks)
  unfolding check_manifest
  check_manifest-limits a m h = (ground arith, ground arith, ground arith)

  handle_manifest-IsUpdate :
      (s : UpdateProtocol) (a : UpdateAnnouncement) (bytes sig : List ℕ) (peer : String)
      → IsUpdate s
      → IsUpdate (handle_manifest crates s a bytes sig peer).0
  unfolding handle_manifest lookup
  handle_manifest-IsUpdate s a bytes sig peer good =
      elim (Result-cases (verify_update_manifest crates s.root_pubkey bytes sig)) [
        | inl (e, h) ↦ rw (h, handle_manifest) good
        | inr (m, h) ↦
            rw (h, handle_manifest)
              (elim (Result-cases (check_manifest crates a m)) [
                | inl (e, k) ↦ rw (k, handle_manifest) good
                | inr (tt, k) ↦
                    let (small, pos, few) = check_manifest-limits a m k in
                    rw (k, handle_manifest)
                      (record {
                        pinned = good.pinned;
                        pending_fine = record {
                          small = small;
                          pos = pos;
                          count = refl;
                          few = few;
                          unique = tt;
                          below = tt;
                          short = λ i value e. cc;
                        };
                        verified_fine = tt;
                        sorted = good.sorted;
                        current = good.current;
                        authentic = good.authentic;
                      })
              ])
      ]

  insert-IsTransfer :
      (p : PendingUpdate) (index : ℕ) (bytes : List ℕ)
      → IsTransfer p
      → index < p.expected_chunks
      → length bytes ≤ max_len p index
      → IsTransfer (record p { chunks = insert index bytes p.chunks })
  unfolding max_len
  insert-IsTransfer p index bytes good inside fits = record {
    small = good.small;
    pos = good.pos;
    count = good.count;
    few = good.few;
    unique = Unique-insert index bytes p.chunks good.unique;
    below = Below-insert p.expected_chunks index bytes p.chunks inside good.below;
    short = λ k value e. elim (Bool-cases (index == k)) [
      | inl same ↦ ground (arith, lookup-insert index k bytes p.chunks, e, same, fits)
      | inr apart ↦
          good.short k value (ground (arith, lookup-insert index k bytes p.chunks, e, apart))
    ];
  }

  pub handle_chunk-cases :
      (s : UpdateProtocol) (index : ℕ) (bytes : List ℕ)
      → ((handle_chunk s index bytes).0 ≡ s)
        ⊎ ((p : PendingUpdate) × (s.pending ≡ some p)
            × (index < p.expected_chunks)
            × (length bytes ≤ max_len p index)
            × ((handle_chunk s index bytes).0
                ≡ record s { pending = some (record p { chunks = insert index bytes p.chunks }) }))
  unfolding handle_chunk
  handle_chunk-cases s index bytes = elim (Option-cases s.pending) [
    | inl h ↦ inl (ground (arith, h))
    | inr (p, h) ↦ elim (Bool-cases (leb p.expected_chunks index)) [
      | inl out ↦ inl (ground (arith, h, out))
      | inr inside ↦ elim (Bool-cases (ltb (max_len p index) (length bytes))) [
        | inl long ↦ inl (ground (arith, h, inside, long))
        | inr fits ↦ elim (Bool-cases (contains_key index p.chunks)) [
          | inl held ↦ inl (ground (arith, h, inside, fits, held))
          | inr fresh ↦ inr (
            p,
            h,
            ground (arith, inside),
            ground (arith, fits),
            ground (arith, h, inside, fits, fresh),
          )
        ]
      ]
    ]
  ]

  handle_chunk-IsUpdate :
      (s : UpdateProtocol) (index : ℕ) (bytes : List ℕ)
      → IsUpdate s
      → IsUpdate (handle_chunk s index bytes).0
  handle_chunk-IsUpdate s index bytes good = elim (handle_chunk-cases s index bytes) [
    | inl same ↦ rw same good
    | inr (p, h, inside, fits, after) ↦ rw after (record {
      pinned = good.pinned;
      pending_fine =
          insert-IsTransfer p index bytes (subst PendingFine h good.pending_fine) inside fits;
      verified_fine = good.verified_fine;
      sorted = good.sorted;
      current = good.current;
      authentic = good.authentic;
    })
  ]

  without_pending : (s : UpdateProtocol) → IsUpdate s → IsUpdate (record s { pending = none })
  without_pending s good = record {
    pinned = good.pinned;
    pending_fine = tt;
    verified_fine = good.verified_fine;
    sorted = good.sorted;
    current = good.current;
    authentic = good.authentic;
  }

  verify_assembled-IsUpdate :
      (s : UpdateProtocol) (p : PendingUpdate) (apk : List ℕ)
      → IsUpdate s
      → IsUpdate (verify_assembled crates s p apk).0
  unfolding verify_assembled hash_apk
  verify_assembled-IsUpdate s p apk good =
      elim (Result-cases (
        verify_apk_signature crates apk (take signed_manifest_len p.manifest_wire)
          p.manifest_signature s.root_pubkey)) [
            | inl (e, h) ↦ rw (h, verify_assembled) (without_pending s good)
            | inr (m, h) ↦
                rw (h, verify_assembled)
                  (record {
                    pinned = good.pinned;
                    pending_fine = tt;
                    verified_fine =
                        subst (λ r. IsAuthentic crates r (crates.sha256 apk)) good.pinned
                          (verify_apk_signature-IsAuthentic crates s.root_pubkey
                            (take signed_manifest_len p.manifest_wire) p.manifest_signature apk m
                            h);
                    sorted = good.sorted;
                    current = good.current;
                    authentic = good.authentic;
                  })
          ]

  pub assemble_and_verify-cases :
      (s : UpdateProtocol)
      → ((assemble_and_verify crates s).0 ≡ s)
        ⊎ ((p : PendingUpdate) × (apk : List ℕ) × (s.pending ≡ some p)
            × (assemble_and_verify crates s ≡ verify_assembled crates s p apk))
  unfolding assemble_and_verify
  assemble_and_verify-cases s = elim (Option-cases s.pending) [
    | inl h ↦ inl (ground (arith, h))
    | inr (p, h) ↦ elim (Bool-cases (length p.chunks == p.expected_chunks)) [
      | inr less ↦ inl (ground (arith, h, less))
      | inl full ↦ elim (Option-cases (assemble p.chunks 0 p.expected_chunks)) [
        | inl gap ↦ inl (ground (arith, h, full, gap))
        | inr (apk, joined) ↦ elim (Bool-cases (length apk == p.manifest.apk_size)) [
          | inr short ↦ inl (ground (arith, h, full, joined, short))
          | inl whole ↦ inr (p, apk, h, ground (arith, h, full, joined, whole))
        ]
      ]
    ]
  ]

  assemble_and_verify-IsUpdate :
      (s : UpdateProtocol) → IsUpdate s → IsUpdate (assemble_and_verify crates s).0
  assemble_and_verify-IsUpdate s good = elim (assemble_and_verify-cases s) [
    | inl same ↦ rw same good
    | inr (p, apk, h, run) ↦ rw run (verify_assembled-IsUpdate s p apk good)
  ]

  push_installed-IsUpdate :
      (s : UpdateProtocol) (u : InstalledUpdate)
      → IsUpdate s
      → IsAuthentic crates root u.apk_sha256
      → IsUpdate (push_installed s u)
  push_installed-IsUpdate s u good signed = record {
    pinned = unfold push_installed in good.pinned;
    pending_fine = unfold push_installed in good.pending_fine;
    verified_fine = unfold push_installed in good.verified_fine;
    sorted = push_installed-IsSorted s u;
    current = push_installed-IsCurrent s u;
    authentic = All-push_installed _ s u good.authentic signed;
  }

  -- What an installation is: the file is the verified one, and the write has succeeded.
  pub install_verified-cases :
      (written : Bool) (s : UpdateProtocol) (apk : List ℕ) (dest_path : String) (installed_at : ℕ)
      → ((e : UpdateError) × (install_verified crates written s apk dest_path installed_at
            ≡ (s, err e)))
        ⊎ ((v : VerifiedState) × (u : InstalledUpdate) × (s.last_verified ≡ some v)
            × (crates.sha256 apk ≡ v.apk_sha256)
            × (u.apk_sha256 ≡ v.apk_sha256)
            × (u.version ≡ v.version)
            × (install_verified crates written s apk dest_path installed_at
                ≡ (record (push_installed s u) { last_verified = none; pending = none }, ok u)))
  unfolding install_verified hash_apk
  install_verified-cases written s apk dest_path installed_at =
      elim (Option-cases s.last_verified) [
        | inl h ↦ inl (UpdateError.no_pending_transfer, ground (arith, h))
        | inr (v, h) ↦ elim (Bool-cases (bytes_eq (crates.sha256 apk) v.apk_sha256)) [
          | inr other ↦ inl (
            UpdateError.verification_failed SignedError.apk_hash_mismatch,
            ground (arith, h, other),
          )
          | inl same ↦ elim (Bool-cases written) [
            | inr failed ↦ inl (UpdateError.install_failed, ground (arith, h, same, failed))
            | inl done ↦ inr (
              v,
              record {
                version = v.version;
                apk_sha256 = v.apk_sha256;
                installed_at = installed_at;
                apk_path = some dest_path;
              },
              h,
              (bytes_eq_iff (crates.sha256 apk) v.apk_sha256).0 same,
              refl,
              refl,
              ground (arith, h, same, done),
            )
          ]
        ]
      ]

  after_install-IsUpdate :
      (s : UpdateProtocol)
      → IsUpdate s
      → IsUpdate (record s { last_verified = none; pending = none })
  after_install-IsUpdate s good = record {
    pinned = good.pinned;
    pending_fine = tt;
    verified_fine = tt;
    sorted = good.sorted;
    current = good.current;
    authentic = good.authentic;
  }

  pub verified-IsAuthentic :
      (s : UpdateProtocol) (v : VerifiedState)
      → IsUpdate s
      → s.last_verified ≡ some v
      → IsAuthentic crates root v.apk_sha256
  verified-IsAuthentic s v good h = subst VerifiedFine h good.verified_fine

  install_verified-IsUpdate :
      (written : Bool) (s : UpdateProtocol) (apk : List ℕ) (dest_path : String) (installed_at : ℕ)
      → IsUpdate s
      → IsUpdate (install_verified crates written s apk dest_path installed_at).0
  install_verified-IsUpdate written s apk dest_path installed_at good =
      elim (install_verified-cases written s apk dest_path installed_at) [
        | inl (e, same) ↦ rw same good
        | inr (v, u, h, hash, named, _, run) ↦ rw run (
            after_install-IsUpdate (push_installed s u)
              (push_installed-IsUpdate s u good (rw named (verified-IsAuthentic s v good h))))
      ]

  record_install-IsUpdate :
      (s : UpdateProtocol) (version : Version) (hash : List ℕ) (installed_at : ℕ)
      (apk_path : Option String)
      → IsUpdate s
      → IsAuthentic crates root hash
      → IsUpdate (record_install s version hash installed_at apk_path)
  unfolding record_install
  record_install-IsUpdate s version hash installed_at apk_path good signed =
      push_installed-IsUpdate s _ good signed

  reject_pending-IsUpdate : (s : UpdateProtocol) → IsUpdate s → IsUpdate (reject_pending s)
  unfolding reject_pending
  reject_pending-IsUpdate s good = after_install-IsUpdate s good

  -- Every state that a sequence of calls reaches, where record_install is given hashes that the
  -- pinned root has signed: the transfer that runs is of at most 200 MiB in at most 12,800 chunks,
  -- holds each index once and in range, and no chunk is longer than its place; what is verified and
  -- what is installed has a hash that the root has signed; the installed updates are sorted by
  -- version, and the current version is that of the last one.
  pub reached-IsUpdate : (first : Version) (s : UpdateProtocol) → Reached first s → IsUpdate s
  reached-IsUpdate first s start = record {
    pinned = refl;
    pending_fine = tt;
    verified_fine = tt;
    sorted = tt;
    current = unfold last in tt;
    authentic = tt;
  }
  reached-IsUpdate first s (manifest_received {s = before} r a bytes sig peer) =
      handle_manifest-IsUpdate before a bytes sig peer (reached-IsUpdate first before r)
  reached-IsUpdate first s (chunk_received {s = before} r index bytes) =
      handle_chunk-IsUpdate before index bytes (reached-IsUpdate first before r)
  reached-IsUpdate first s (assembled {s = before} r) =
      assemble_and_verify-IsUpdate before (reached-IsUpdate first before r)
  reached-IsUpdate first s (installed {s = before} r written apk dest_path installed_at) =
      install_verified-IsUpdate written before apk dest_path installed_at
        (reached-IsUpdate first before r)
  reached-IsUpdate first s (recorded {s = before} r version hash installed_at apk_path signed) =
      record_install-IsUpdate before version hash installed_at apk_path
        (reached-IsUpdate first before r) signed
  reached-IsUpdate first s (rejected {s = before} r) =
      reject_pending-IsUpdate before (reached-IsUpdate first before r)
