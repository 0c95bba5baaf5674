-- ===== src/Dtn/Worst.antt =====
-- `worst_index` of core/crates/dtn-router/src/lib.rs against its description: the least urgent
-- message, and among those the oldest.
use mathlib.Core.Path.{subst₂}
use onde_resilience.Prelude.{
  ℕ, suc, ◌+◌, ◌≤◌, ◌<◌, ◌≡◌, refl, ◌⊎◌, inl, inr, true, false, sym, none, some, List, [], ◌∷◌,
  arith, get_elem?, All, Bool-cases,
}
use onde_resilience.Dtn.{DtnMessage, is_worse, worst_loop, worst_index}

-- A message of priority `p` and time `t` is dropped no later than one of priority `q` and time `s`.
abbrev pub Precedes : ℕ → ℕ → ℕ → ℕ → Type 0
Precedes p t q s = (q < p) ⊎ ((q ≡ p) × (t ≤ s))

abbrev pub IsLeastUrgent : ℕ → ℕ → List DtnMessage → Type 0
IsLeastUrgent p t = All (λ m. Precedes p t m.priority m.timestamp_ms)

Precedes-trans : (p t q s u v : ℕ) → Precedes p t q s → Precedes q s u v → Precedes p t u v
Precedes-trans p t q s u v h k = ground arith

better :
    (m : DtnMessage) (j p t : ℕ)
    → is_worse m (some (j, p, t)) ≡ true
    → Precedes m.priority m.timestamp_ms p t
unfolding is_worse
better m j p t h = ground arith

not_better :
    (m : DtnMessage) (j p t : ℕ)
    → is_worse m (some (j, p, t)) ≡ false
    → Precedes p t m.priority m.timestamp_ms
unfolding is_worse
not_better m j p t h = ground arith

-- Where the worst message stands: before the scan, or in what is scanned.
abbrev Found : ℕ → List DtnMessage → ℕ → ℕ → ℕ → ℕ → ℕ → ℕ → Type 0
Found i rest j p t k q s =
    ((k ≡ j) × (q ≡ p) × (s ≡ t))
    ⊎ ((d : ℕ) × (m : DtnMessage) × (k ≡ i + d)
        × (get_elem? rest d ≡ some m)
        × (m.priority ≡ q)
        × (m.timestamp_ms ≡ s))

module _ (i : ℕ) (m : DtnMessage) (rest : List DtnMessage) (j p t k q s : ℕ) where
  newly_worst :
      Found (suc i) rest i m.priority m.timestamp_ms k q s → Found i (m ∷ rest) j p t k q s
  newly_worst (inl (a, b, c)) = inr (0, m, omega arith, refl, sym b, sym c)
  newly_worst (inr (d, n, e, g, u, v)) = inr (suc d, n, omega arith, g, u, v)

  worst_before : Found (suc i) rest j p t k q s → Found i (m ∷ rest) j p t k q s
  worst_before (inl h) = inl h
  worst_before (inr (d, n, e, g, u, v)) = inr (suc d, n, omega arith, g, u, v)

worst_loop_lem :
    (i : ℕ) (rest : List DtnMessage) (j p t : ℕ)
    → (k : ℕ) × (q : ℕ) × (s : ℕ) × (worst_loop i rest (some (j, p, t)) ≡ some (k, q, s))
      × IsLeastUrgent q s rest
      × Precedes q s p t
      × Found i rest j p t k q s
unfolding worst_loop
worst_loop_lem i [] j p t = (j, p, t, refl, tt, inr (refl, omega arith), inl (refl, refl, refl))
worst_loop_lem i (m ∷ rest) j p t = elim (Bool-cases (is_worse m (some (j, p, t)))) [
  | inl worse ↦
      let (k, q, s, run, least, beats, found) =
        worst_loop_lem (suc i) rest i m.priority m.timestamp_ms in
      (
        k,
        q,
        s,
        rw worse run,
        (beats, least),
        Precedes-trans _ _ _ _ _ _ beats (better m j p t worse),
        newly_worst i m rest j p t k q s found,
      )
  | inr fine ↦
      let (k, q, s, run, least, beats, found) = worst_loop_lem (suc i) rest j p t in
      (
        k,
        q,
        s,
        rw fine run,
        (Precedes-trans _ _ _ _ _ _ beats (not_better m j p t fine), least),
        beats,
        worst_before i m rest j p t k q s found,
      )
]

module _ (m : DtnMessage) (rest : List DtnMessage) (k q s : ℕ) where
  worst_at :
      Found 1 rest 0 m.priority m.timestamp_ms k q s
      → IsLeastUrgent q s (m ∷ rest)
      → (w : DtnMessage) × (get_elem? (m ∷ rest) k ≡ some w)
        × IsLeastUrgent w.priority w.timestamp_ms (m ∷ rest)
  worst_at (inl (a, b, c)) least = (m, rw a, subst₂ (λ x y. IsLeastUrgent x y (m ∷ rest)) b c least)
  worst_at (inr (d, n, e, g, u, v)) least =
      let e' : k ≡ suc d = omega arith in
      (n, rw e' g, subst₂ (λ x y. IsLeastUrgent x y (m ∷ rest)) (sym u) (sym v) least)

-- The scan of a buffer that is not empty.
pub worst_index-cons :
    (m : DtnMessage) (rest : List DtnMessage)
    → (idx : ℕ) × (w : DtnMessage) × (worst_index (m ∷ rest) ≡ some idx)
      × (get_elem? (m ∷ rest) idx ≡ some w)
      × IsLeastUrgent w.priority w.timestamp_ms (m ∷ rest)
unfolding worst_index worst_loop is_worse
worst_index-cons m rest =
    let (k, q, s, run, least, beats, found) = worst_loop_lem 1 rest 0 m.priority m.timestamp_ms in
    let (w, here, worst) = worst_at m rest k q s found (beats, least) in
    (k, w, rw (run, worst_index), here, worst)

-- A buffer has a worst message exactly when it holds one: the message at the index found has the
-- highest priority number, and no message of that priority is older.
pub worst_index_lem :
    (buf : List DtnMessage)
    → ((buf ≡ []) × (worst_index buf ≡ none))
      ⊎ ((idx : ℕ) × (w : DtnMessage) × (worst_index buf ≡ some idx)
          × (get_elem? buf idx ≡ some w)
          × IsLeastUrgent w.priority w.timestamp_ms buf)
unfolding worst_index worst_loop
worst_index_lem [] = inl (refl, refl)
worst_index_lem (m ∷ rest) = inr (worst_index-cons m rest)
