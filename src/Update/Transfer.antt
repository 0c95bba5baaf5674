-- ===== src/Update/Transfer.antt =====
-- A whole transfer of core/src/update/mod.rs: what the announcer builds reaches the receiver, in
-- whatever order the chunks come and however often.
use native.Mathlib.Nat.{zero-add, zero-mul}
use onde_resilience.Prelude.{
  ℕ, ◌+◌, ◌*◌, ◌≤◌, ◌<◌, ◌≡◌, refl, ap, sym, ◌∙◌, inl, inr, none, some, ◌^◌, List, [], ◌∷◌, true,
  false, ◌||◌, if◌then◌else◌, leb, ◌==◌, arith, length, take, drop, any_of, Bool-cases, length-drop,
  length-take-le, length-take-le_length, String, Option-cases,
}
use onde_resilience.Prelude.IntMap.{
  IntMap, lookup, insert, contains_key, Unique, Below, lookup-insert, contains_key-insert,
  contains_key-lookup, Unique-insert, Below-insert, length-full,
}
use onde_resilience.Prelude.Bytes.{bytes_eq_refl}
use onde_resilience.Prelude.Result.{Result, ok}
use onde_resilience.Protocol.Validate.{Crates}
use onde_resilience.Release.{
  Version, version_le, UpdateAnnouncement, UpdateManifest, Identity, hash_apk, from_apk,
  verify_announcement, verify_update_manifest, verify_apk_signature, signed_manifest_len,
}
use onde_resilience.Release.Signing.{
  Signs, verify-sign_announcement, verify-sign_update_manifest, verify_apk_signature-sign,
  IsUpdateManifest,
}
use onde_resilience.Update.{
  UpdateError, max_chunks, max_apk_size, build_announcement, build_manifest, handle_announcement,
  check_manifest, handle_manifest, verify_assembled, assemble_and_verify, chunk_count, chunk,
  assemble, UpdateProtocol, PendingUpdate, max_len, handle_chunk,
}
use onde_resilience.Update.Chunks.{lt-chunk_count_iff, chunk-some, chunk-none, assemble-chunks}

-- A transfer of this file that has gone well so far.
pub record Holds (apk : List ℕ) (p : PendingUpdate) : Type 0 where
  pub pos : 0 < p.manifest.chunk_size
  pub size : p.manifest.apk_size ≡ length apk
  pub count : p.expected_chunks ≡ chunk_count (length apk) p.manifest.chunk_size
  pub unique : Unique p.chunks
  pub below : Below p.expected_chunks p.chunks
  pub right :
      (k : ℕ) (value : List ℕ)
      → lookup k p.chunks ≡ some value
      → chunk apk k p.manifest.chunk_size ≡ some value

-- The chunks of the receiver after one more.
hold : IntMap (List ℕ) → ℕ → List ℕ → IntMap (List ℕ)
hold chunks i bytes = if contains_key i chunks then chunks else insert i bytes chunks

hold_all : List ℕ → ℕ → IntMap (List ℕ) → List ℕ → IntMap (List ℕ)
hold_all apk size chunks [] = chunks
hold_all apk size chunks (i ∷ indices) = elim (chunk apk i size) [
  | none ↦ hold_all apk size chunks indices
  | some bytes ↦ hold_all apk size (hold chunks i bytes) indices
]

-- The chunks of these indices reach the receiver, one after the other.
pub deliver : UpdateProtocol → List ℕ → ℕ → List ℕ → UpdateProtocol
deliver s apk size [] = s
deliver s apk size (i ∷ indices) = elim (chunk apk i size) [
  | none ↦ deliver s apk size indices
  | some bytes ↦ deliver (handle_chunk s i bytes).0 apk size indices
]

module _ (apk : List ℕ) (p : PendingUpdate) (good : Holds apk p) where
  chunk-inside :
      (i : ℕ) (bytes : List ℕ)
      → chunk apk i p.manifest.chunk_size ≡ some bytes
      → (i < p.expected_chunks)
        × (bytes ≡ take p.manifest.chunk_size (drop (i * p.manifest.chunk_size) apk))
  chunk-inside i bytes h = elim (Bool-cases (leb (length apk) (i * p.manifest.chunk_size))) [
    | inl out ↦ absurd (cc (chunk-none apk i p.manifest.chunk_size (ground arith)))
    | inr within ↦ (
      rw good.count
          ((lt-chunk_count_iff i (length apk) p.manifest.chunk_size good.pos).1 (ground arith)),
      cc (chunk-some apk i p.manifest.chunk_size (ground arith)),
    )
  ]

  fits :
      (i : ℕ) (bytes : List ℕ)
      → chunk apk i p.manifest.chunk_size ≡ some bytes
      → length bytes ≤ max_len p i
  unfolding max_len
  fits i bytes h =
      let (_, e) = chunk-inside i bytes h in
      let short = length-take-le p.manifest.chunk_size (drop (i * p.manifest.chunk_size) apk) in
      let within =
        length-take-le_length p.manifest.chunk_size (drop (i * p.manifest.chunk_size) apk) in
      let left = length-drop (i * p.manifest.chunk_size) apk in rw e (ground (arith, good.size))

  hold-Holds :
      (i : ℕ) (bytes : List ℕ)
      → chunk apk i p.manifest.chunk_size ≡ some bytes
      → Holds apk (record p { chunks = hold p.chunks i bytes })
  unfolding hold
  hold-Holds i bytes h = elim (Bool-cases (contains_key i p.chunks)) [
    | inl held ↦ rw held good
    | inr fresh ↦ rw fresh (record {
      pos = good.pos;
      size = good.size;
      count = good.count;
      unique = Unique-insert i bytes p.chunks good.unique;
      below = Below-insert p.expected_chunks i bytes p.chunks (chunk-inside i bytes h).0 good.below;
      right = λ k value e. elim (Bool-cases (i == k)) [
        | inl same ↦ ground (arith, lookup-insert i k bytes p.chunks, e, same, h)
        | inr apart ↦
            good.right k value (ground (arith, lookup-insert i k bytes p.chunks, e, apart))
      ];
    })
  ]

module _ (s : UpdateProtocol) (apk : List ℕ) where
  handle_chunk-hold :
      (p : PendingUpdate) (i : ℕ) (bytes : List ℕ)
      → Holds apk p
      → chunk apk i p.manifest.chunk_size ≡ some bytes
      → (handle_chunk (record s { pending = some p }) i bytes).0
        ≡ record s { pending = some (record p { chunks = hold p.chunks i bytes }) }
  unfolding handle_chunk hold
  handle_chunk-hold p i bytes good h =
      ground (arith, fits apk p good i bytes h, (chunk-inside apk p good i bytes h).0)

  hold_all-Holds :
      (indices : List ℕ) (p : PendingUpdate)
      → Holds apk p
      → Holds apk (record p { chunks = hold_all apk p.manifest.chunk_size p.chunks indices })
  unfolding hold_all
  hold_all-Holds [] p good = good
  hold_all-Holds (i ∷ indices) p good = elim (Option-cases (chunk apk i p.manifest.chunk_size)) [
    | inl out ↦ rw (out, hold_all) (hold_all-Holds indices p good)
    | inr (bytes, cut) ↦
        rw (cut, hold_all)
          (hold_all-Holds indices (record p { chunks = hold p.chunks i bytes })
            (hold-Holds apk p good i bytes cut))
  ]

  deliver-hold_all :
      (indices : List ℕ) (p : PendingUpdate)
      → Holds apk p
      → deliver (record s { pending = some p }) apk p.manifest.chunk_size indices ≡ record s {
        pending = some (record p { chunks = hold_all apk p.manifest.chunk_size p.chunks indices });
      }
  unfolding deliver hold_all
  deliver-hold_all [] p good = refl
  deliver-hold_all (i ∷ indices) p good = elim (Option-cases (chunk apk i p.manifest.chunk_size)) [
    | inl out ↦ rw (out, deliver, hold_all) (deliver-hold_all indices p good)
    | inr (bytes, cut) ↦
        rw (cut, deliver, hold_all, handle_chunk-hold p i bytes good cut)
          (deliver-hold_all indices (record p { chunks = hold p.chunks i bytes })
            (hold-Holds apk p good i bytes cut))
  ]

contains_key-hold :
    (chunks : IntMap (List ℕ)) (i k : ℕ) (bytes : List ℕ)
    → contains_key k (hold chunks i bytes) ≡ (i == k || contains_key k chunks)
unfolding hold
contains_key-hold chunks i k bytes = ground (arith, contains_key-insert i k bytes chunks)

-- Every index that was asked for, or held before, is held in the end.
contains_key-hold_all :
    (apk : List ℕ) (size : ℕ) (indices : List ℕ) (chunks : IntMap (List ℕ)) (k : ℕ)
    → k * size < length apk
    → (contains_key k chunks || any_of (λ i. i == k) indices) ≡ true
    → contains_key k (hold_all apk size chunks indices) ≡ true
unfolding hold_all
contains_key-hold_all apk size [] chunks k inside h = ground arith
contains_key-hold_all apk size (i ∷ indices) chunks k inside h =
    elim (Option-cases (chunk apk i size)) [
      | inl out ↦
          rw (out, hold_all)
            (contains_key-hold_all apk size indices chunks k inside (elim (Bool-cases (i == k)) [
              | inl same ↦
                  let e : i ≡ k = ground arith in
                  absurd (cc (chunk-some apk k size inside, ap (λ (j : ℕ). chunk apk j size) e))
              | inr apart ↦ ground arith
            ]))
      | inr (bytes, cut) ↦
          rw (cut, hold_all)
            (contains_key-hold_all apk size indices (hold chunks i bytes) k inside
              (ground (arith, contains_key-hold chunks i k bytes)))
    ]

-- A manifest that passes its checks starts a transfer.
pub handle_manifest-accepts :
    (crates : Crates) (s : UpdateProtocol) (a : UpdateAnnouncement) (bytes sig : List ℕ)
    (peer : String) (m : UpdateManifest)
    → verify_update_manifest crates s.root_pubkey bytes sig ≡ ok m
    → check_manifest crates a m ≡ ok tt
    → handle_manifest crates s a bytes sig peer ≡ (
      record s {
        pending = some (record {
          version = a.version;
          manifest = m;
          manifest_wire = bytes;
          manifest_signature = sig;
          peer = peer;
          chunks = [];
          expected_chunks = chunk_count m.apk_size m.chunk_size;
        });
        last_verified = none;
      },
      ok tt,
    )
unfolding handle_manifest
handle_manifest-accepts crates s a bytes sig peer m read checked =
    rw (read, handle_manifest, checked) refl

-- A transfer of a file that has all its chunks assembles to the file.
assemble-Holds :
    (apk : List ℕ) (p : PendingUpdate)
    → Holds apk p
    → ((k : ℕ) → k < p.expected_chunks → contains_key k p.chunks ≡ true)
    → assemble p.chunks 0 p.expected_chunks ≡ some apk
assemble-Holds apk p good all =
    let size = p.manifest.chunk_size in
    let n = p.expected_chunks in
    let inside = lt-chunk_count_iff n (length apk) size good.pos in
    let whole : length apk ≤ (0 + n) * size =
      rw (zero-add n) (elim (Bool-cases (leb (length apk) (n * size))) [
        | inl h ↦ ground arith
        | inr h ↦ absurd (ground (arith, inside.1 (ground arith), good.count))
      ]) in
    assemble-chunks apk size p.chunks 0 n good.pos
      (λ k low high.
        let (value, e) = contains_key-lookup k p.chunks (all k (omega arith)) in
        e ∙ sym (good.right k value e))
      (λ k high. (lt-chunk_count_iff k (length apk) size good.pos).0 (ground (arith, good.count)))
      whole
    ∙ ap (λ (k : ℕ). some (drop k apk)) (zero-mul size)

-- What the build team may offer, and what the receiver takes.
pub record IsRelease (crates : Crates) (root : Identity) (s : UpdateProtocol) (apk dev : List ℕ)
    (version : Version) (announced built size : ℕ) : Type 0 where
  pub pinned : s.root_pubkey ≡ root.verifying_key
  pub newer : version_le version s.current_version ≡ false
  pub major_fits : version.major < 2 ^ 16
  pub minor_fits : version.minor < 2 ^ 16
  pub patch_fits : version.patch < 2 ^ 16
  pub announced_fits : announced < 2 ^ 64
  pub built_fits : built < 2 ^ 64
  pub key_size : length dev ≡ 32
  pub hash_size : length (crates.sha256 apk) ≡ 32
  pub apk_fits : length apk ≤ max_apk_size
  pub size_pos : 0 < size
  pub size_fits : size < 2 ^ 32
  pub few : chunk_count (length apk) size ≤ max_chunks

module _ (crates : Crates) (root : Identity) (signs : Signs crates root) (s : UpdateProtocol)
    (apk dev : List ℕ) (version : Version) (announced built size : ℕ) (peer : String)
    (good : IsRelease crates root s apk dev version announced built size) where
  unfoldable pub offered : UpdateAnnouncement × List ℕ × List ℕ
  offered = build_announcement crates version apk root announced

  unfoldable pub manifest : UpdateManifest × List ℕ × List ℕ
  manifest = build_manifest crates apk root dev built size

  offered-read : verify_announcement crates s.root_pubkey offered.2 offered.1 ≡ ok offered.0
  unfolding offered build_announcement hash_apk
  offered-read = rw good.pinned (
      verify-sign_announcement crates root signs offered.0 (record {
        major_fits = good.major_fits;
        minor_fits = good.minor_fits;
        patch_fits = good.patch_fits;
        hash_size = good.hash_size;
        timestamp_fits = good.announced_fits;
      }))

  taken : handle_announcement crates s offered.2 offered.1 ≡ ok offered.0
  unfolding handle_announcement
  taken =
      rw (offered-read, handle_announcement)
        (unfold offered in unfold build_announcement in rw good.newer refl)

  IsUpdateManifest-manifest : IsUpdateManifest manifest.0
  unfolding manifest build_manifest from_apk
  IsUpdateManifest-manifest = record {
    inner = record {
      hash_size = good.hash_size;
      key_size = good.key_size;
      timestamp_fits = good.built_fits;
    };
    size_fits = omega (arith, good.apk_fits);
    chunk_fits = good.size_fits;
  }

  manifest-read : verify_update_manifest crates s.root_pubkey manifest.2 manifest.1 ≡ ok manifest.0
  unfolding manifest build_manifest from_apk
  manifest-read =
      rw good.pinned
        (verify-sign_update_manifest crates root signs manifest.0 IsUpdateManifest-manifest)

  check-passes : check_manifest crates offered.0 manifest.0 ≡ ok tt
  unfolding check_manifest offered build_announcement hash_apk manifest build_manifest from_apk
  check-passes =
      rw (bytes_eq_refl (crates.sha256 apk))
        (ground (arith, good.apk_fits, good.size_pos, good.few))

  started : PendingUpdate
  unfolding offered build_announcement hash_apk manifest build_manifest from_apk
  started = record {
    version = version;
    manifest = manifest.0;
    manifest_wire = manifest.2;
    manifest_signature = manifest.1;
    peer = peer;
    chunks = [];
    expected_chunks = chunk_count (length apk) size;
  }

  handle_manifest-started :
      handle_manifest crates s offered.0 manifest.2 manifest.1 peer
      ≡ (record s { pending = some started; last_verified = none }, ok tt)
  unfolding started offered build_announcement manifest build_manifest
  handle_manifest-started =
      handle_manifest-accepts crates s offered.0 manifest.2 manifest.1 peer manifest.0 manifest-read
        check-passes

  Holds-started : Holds apk started
  unfolding started manifest build_manifest lookup
  Holds-started = record {
    pos = good.size_pos;
    size = refl;
    count = refl;
    unique = tt;
    below = tt;
    right = λ k value e. cc;
  }

  received : List ℕ → PendingUpdate
  unfolding started manifest build_manifest
  received indices = record started { chunks = hold_all apk size started.chunks indices }

  deliver-received :
      (indices : List ℕ)
      → deliver (record s { pending = some started; last_verified = none }) apk size indices
        ≡ record s { pending = some (received indices); last_verified = none }
  unfolding received started manifest build_manifest
  deliver-received indices =
      deliver-hold_all (record s { last_verified = none }) apk indices started Holds-started

  Holds-received : (indices : List ℕ) → Holds apk (received indices)
  unfolding received started manifest build_manifest
  Holds-received indices = hold_all-Holds s apk indices started Holds-started

  module _ (indices : List ℕ)
      (every : (k : ℕ)
        → k < chunk_count (length apk) size
        → any_of (λ i. i == k) indices ≡ true) where
    all-received :
        (k : ℕ)
        → k < (received indices).expected_chunks
        → contains_key k (received indices).chunks ≡ true
    unfolding received started
    all-received k h =
        contains_key-hold_all apk size indices [] k
          ((lt-chunk_count_iff k (length apk) size good.size_pos).0 h) (ground (arith, every k h))

    verify-received :
        verify_apk_signature crates apk
          (take signed_manifest_len (received indices).manifest_wire)
          (received indices).manifest_signature
          s.root_pubkey
        ≡ ok manifest.0.apk_manifest
    unfolding received started manifest build_manifest from_apk
    verify-received =
        rw good.pinned (
          verify_apk_signature-sign crates root signs manifest.0 apk IsUpdateManifest-manifest refl)

    named : (received indices).version ≡ version
    unfolding received started
    named = refl

    assembled :
        assemble_and_verify crates
          (record s { pending = some (received indices); last_verified = none })
        ≡ (
          record s {
            pending = none;
            last_verified = some (record { version = version; apk_sha256 = crates.sha256 apk });
          },
          ok apk,
        )
    unfolding assemble_and_verify verify_assembled hash_apk
    assembled =
        rw
          (
            length-full (received indices).expected_chunks (received indices).chunks
                (Holds-received indices).unique (Holds-received indices).below all-received,
            assemble-Holds apk (received indices) (Holds-received indices) all-received,
            assemble_and_verify,
            verify-received,
            verify_assembled,
          )
          (ground (arith, (Holds-received indices).size, named))

    -- Where the receiver pins the team's key, the version is newer than its own, the fields are in
    -- the ranges of their types and the file within the limits: the announcement and the manifest
    -- that the team builds are taken, and after chunks of the file at indices that come in any order,
    -- with repetitions and with none left out, the file is assembled and verified. The verified state
    -- is then that of this file, no transfer is in progress, one that was before is given up, and
    -- nothing else differs from the receiver's state before.
    pub transfer_lem :
        (handle_announcement crates s offered.2 offered.1 ≡ ok offered.0)
        × ((handle_manifest crates s offered.0 manifest.2 manifest.1 peer).1 ≡ ok tt)
        × (assemble_and_verify crates (
              deliver
                (handle_manifest crates s offered.0 manifest.2 manifest.1 peer).0
                apk
                size
                indices)
            ≡ (
              record s {
                pending = none;
                last_verified = some (record { version = version; apk_sha256 = crates.sha256 apk });
              },
              ok apk,
            ))
    transfer_lem = (
      taken,
      ap (λ (r : UpdateProtocol × Result UpdateError (Unit {0})). r.1) handle_manifest-started,
      rw (handle_manifest-started, deliver-received indices) assembled,
    )
