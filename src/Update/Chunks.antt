-- ===== src/Update/Chunks.antt =====
-- How a file is cut into chunks and joined again (core/src/update/mod.rs).
use native.Mathlib.Nat.{add-zero as add_zero, le-div_iff_mul-le}
use onde_resilience.Prelude.{
  ℕ, zero, suc, ◌+◌, ◌-◌, ◌*◌, ◌≤◌, ◌<◌, ◌≡◌, ap, sym, ◌∙◌, ◌↔◌, ◌⊎◌, inl, inr, none, some, List,
  leb, arith, length, take, drop, min, Bool-cases, take-min, take-append-drop, length-drop,
  drop-drop, drop-all,
}
use onde_resilience.Prelude.IntMap.{IntMap, lookup}
use onde_resilience.Update.{chunk_count, chunk, assemble}

-- A file has a chunk at exactly the indices whose first byte it has.
pub lt-chunk_count_iff : (i len size : ℕ) → 0 < size → (i < chunk_count len size) ↔ (i * size < len)
unfolding chunk_count
lt-chunk_count_iff i len size pos =
    let rounds = le-div_iff_mul-le {k = size} {x = suc i} {y = len + (size - 1)} pos in
    (λ h. grind (arith, rounds.0 (ground arith)), λ h. ground (arith, rounds.1 (grind arith)))

pub chunk-some :
    (apk : List ℕ) (i size : ℕ)
    → i * size < length apk
    → chunk apk i size ≡ some (take size (drop (i * size) apk))
unfolding chunk
chunk-some apk i size h =
    let left = length-drop (i * size) apk in
    let end = min (i * size + size) (length apk) - i * size in
    let case : (length (drop (i * size) apk) ≤ end) ⊎ (size ≡ end) =
      elim (Bool-cases (leb (length apk) (i * size + size))) [
        | inl short ↦ inl (ground arith)
        | inr long ↦ inr (ground arith)
      ] in
    rw (take-min end size (drop (i * size) apk) (ground arith) case) (ground arith)

pub chunk-none : (apk : List ℕ) (i size : ℕ) → length apk ≤ i * size → chunk apk i size ≡ none
unfolding chunk
chunk-none apk i size h = ground arith

-- The chunks from an index on, joined, are the file from their first byte on.
pub assemble-chunks :
    (apk : List ℕ) (size : ℕ) (chunks : IntMap (List ℕ)) (i rounds : ℕ)
    → 0 < size
    → ((k : ℕ) → i ≤ k → k < i + rounds → lookup k chunks ≡ chunk apk k size)
    → ((k : ℕ) → k < i + rounds → k * size < length apk)
    → length apk ≤ (i + rounds) * size
    → assemble chunks i rounds ≡ some (drop (i * size) apk)
unfolding assemble
assemble-chunks apk size chunks i zero pos same within whole =
    ap some (sym (drop-all (i * size) apk (omega (arith, ap (λ (k : ℕ). k * size) (add_zero i)))))
assemble-chunks apk size chunks i (suc rounds) pos same within whole =
    let here =
      same i (omega arith) (omega arith) ∙ chunk-some apk i size (within i (omega arith)) in
    let rest =
      assemble-chunks apk size chunks (suc i) rounds pos
        (λ k low high. same k (omega arith) (omega arith)) (λ k high. within k (omega arith))
        (grind (arith, whole)) in
    let next = drop-drop (i * size) size (suc i * size) apk (grind arith) in
    rw (here, assemble, rest, assemble, next)
      (ap some (take-append-drop size (drop (i * size) apk)))
