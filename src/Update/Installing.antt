-- ===== src/Update/Installing.antt =====
-- What an installation of core/src/update/mod.rs guarantees, and how much a transfer holds.
use native.Mathlib.Nat.{zero-mul}
use onde_resilience.Prelude.{
  ◌⊎◌, ℕ, zero, suc, ◌+◌, ◌-◌, ◌*◌, ◌≤◌, ◌≡◌, refl, sym, ◌∙◌, String, Bool, true, false, inl, inr,
  none, some, List, [], ◌∷◌, arith, ◌==◌, length, All, subst, Bool-cases,
}
use onde_resilience.Prelude.IntMap.{
  IntMap, lookup, contains_key, remove, Unique, Below, Unique-remove, Below-remove,
  lookup-remove_le, contains_key-lookup,
}
use onde_resilience.Prelude.Result.{ok, err}
use onde_resilience.Protocol.Validate.{Crates}
use onde_resilience.Release.{Version, version_le}
use onde_resilience.Release.Authentic.{IsAuthentic}
use onde_resilience.Update.{
  UpdateProtocol, PendingUpdate, InstalledUpdate, UpdateError, max_apk_size, push_installed,
  max_len, install_verified,
}
use onde_resilience.Update.Chunks.{lt-chunk_count_iff}
use onde_resilience.Update.Versions.{push_installed-greatest, Held, push_installed-Held}
use onde_resilience.Update.Idle.{Idle, Idle-none, install_verified-none}
use onde_resilience.Update.Reached.{
  Reached, IsTransfer, PendingFine, reached-IsUpdate, install_verified-cases, verified-IsAuthentic,
}

-- The bytes that a receiver keeps.
pub held_bytes : IntMap (List ℕ) → ℕ
held_bytes [] = 0
held_bytes ((key, value) ∷ entries) = length value + held_bytes entries

-- The places of the indices below `n`, added up.
places : (ℕ → ℕ) → ℕ → ℕ
places place zero = 0
places place (suc n) = place n + places place n

held_bytes-remove :
    (key : ℕ) (entries : IntMap (List ℕ)) (value : List ℕ)
    → lookup key entries ≡ some value
    → held_bytes entries ≡ length value + held_bytes (remove key entries)
unfolding held_bytes remove lookup
held_bytes-remove key [] value h = cc
held_bytes-remove key ((other, old) ∷ entries) value h = elim (Bool-cases (other == key)) [
  | inl same ↦ ground (arith, h, same)
  | inr apart ↦ ground (arith, held_bytes-remove key entries value, h, apart)
]

held_bytes-remove_absent :
    (key : ℕ) (entries : IntMap (List ℕ))
    → contains_key key entries ≡ false
    → held_bytes (remove key entries) ≡ held_bytes entries
unfolding held_bytes remove contains_key
held_bytes-remove_absent key [] h = refl
held_bytes-remove_absent key ((other, old) ∷ entries) h =
    ground (arith, held_bytes-remove_absent key entries)

held_bytes-le :
    (place : ℕ → ℕ) (n : ℕ) (entries : IntMap (List ℕ))
    → Unique entries
    → Below n entries
    → ((k : ℕ) (value : List ℕ) → lookup k entries ≡ some value → length value ≤ place k)
    → held_bytes entries ≤ places place n
unfolding held_bytes places
held_bytes-le place zero [] u b short = omega arith
held_bytes-le place zero (e ∷ entries) u b short = absurd (omega (arith, b.0))
held_bytes-le place (suc n) entries u b short =
    let rest =
      held_bytes-le place n (remove n entries) (Unique-remove n entries u)
        (Below-remove n entries u b)
        (λ k value h. short k value (lookup-remove_le n k entries value u h)) in
    elim (Bool-cases (contains_key n entries)) [
      | inr out ↦ omega (arith, rest, held_bytes-remove_absent n entries out)
      | inl held ↦
          let (value, e) = contains_key-lookup n entries held in
          omega (arith, rest, held_bytes-remove n entries value e, short n value e)
    ]

-- All but the last place have the size of a chunk.
places-max_len :
    (p : PendingUpdate) (n : ℕ)
    → n ≤ p.expected_chunks - 1
    → places (max_len p) n ≡ n * p.manifest.chunk_size
unfolding places max_len
places-max_len p zero h = omega (arith, zero-mul p.manifest.chunk_size)
places-max_len p (suc n) h = grind (arith, places-max_len p n (omega arith))

places-le :
    (p : PendingUpdate) (n : ℕ)
    → IsTransfer p
    → p.expected_chunks ≡ n
    → places (max_len p) n ≤ p.manifest.apk_size
unfolding places max_len
places-le p zero good e = omega arith
places-le p (suc n) good e =
    let size = p.manifest.chunk_size in
    let inside =
      (lt-chunk_count_iff n p.manifest.apk_size size good.pos).0 (omega (arith, good.count)) in
    ground (arith, places-max_len p n (omega arith), inside)

module _ (crates : Crates) (root : List ℕ) (first : Version) (s : UpdateProtocol)
    (reached : Reached crates root first s) where
  -- In every state that calls reach, where record_install is given hashes that the pinned root has
  -- signed, a transfer keeps no more bytes than the file is to have, and no more than 200 MiB.
  pub held_bytes-max :
      (p : PendingUpdate)
      → s.pending ≡ some p
      → (held_bytes p.chunks ≤ p.manifest.apk_size) × (held_bytes p.chunks ≤ max_apk_size)
  held_bytes-max p h =
      let good = subst PendingFine h (reached-IsUpdate crates root first s reached).pending_fine in
      let held =
        held_bytes-le (max_len p) p.expected_chunks p.chunks good.unique good.below good.short in
      let all = places-le p p.expected_chunks good refl in (omega arith, omega (arith, good.small))

  -- In every state that calls reach, where record_install is given hashes that the pinned root has
  -- signed: installing a file either fails without a change, or the hash of this very file is one
  -- that the root has signed, the current version is then at least that of every installed update,
  -- and the new one is among them. After a success, whatever calls follow with any arguments, no
  -- file at any place can be installed as long as no `assemble_and_verify` has succeeded again.
  pub install_verified_lem :
      (written : Bool) (apk : List ℕ) (dest_path : String) (installed_at : ℕ)
      (later : UpdateProtocol)
      (calls : Idle crates (install_verified crates written s apk dest_path installed_at).0 later)
      (again : Bool) (file : List ℕ) (place : String) (time : ℕ)
      → ((e : UpdateError) × (install_verified crates written s apk dest_path installed_at
            ≡ (s, err e)))
        ⊎ ((u : InstalledUpdate) × (after : UpdateProtocol) × (install_verified crates written s apk
                dest_path installed_at
              ≡ (after, ok u))
            × IsAuthentic crates root (crates.sha256 apk)
            × (u.apk_sha256 ≡ crates.sha256 apk)
            × All
                (λ (v : InstalledUpdate). version_le v.version after.current_version ≡ true)
                after.installed
            × Held u after.installed
            × (install_verified crates again later file place time
                ≡ (later, err UpdateError.no_pending_transfer)))
  install_verified_lem written apk dest_path installed_at later calls again file place time =
      let good = reached-IsUpdate crates root first s reached in
      elim (install_verified-cases crates root written s apk dest_path installed_at) [
        | inl (e, same) ↦ inl (e, same)
        | inr (v, u, h, hash, named, _, run) ↦ inr (
          u,
          record (push_installed s u) { last_verified = none; pending = none },
          run,
          rw hash (verified-IsAuthentic crates root s v good h),
          named ∙ sym hash,
          push_installed-greatest s u,
          push_installed-Held s u,
          install_verified-none crates again later file place time
              (Idle-none crates calls (rw run refl)),
        )
      ]
