-- ===== src/Protocol/Validate/Pow.antt =====
-- The proof of work of core/src/protocol/mod.rs: what `compute_pow` finds, `verify_pow` accepts.
use onde_resilience.Prelude.{
  ℕ, zero, suc, ◌+◌, ◌≤◌, ◌<◌, ◌≡◌, subst, ◌==◌, ==_iff, String, true, false, Option, none, some,
  arith, Bool-cases, Option-cases, inl, inr, ◌⊎◌,
}
use onde_resilience.Protocol.{MeshEvent}
use onde_resilience.Protocol.Validate.{Crates, verify_pow, pow_loop, compute_pow}

module _ (crates : Crates) where
  -- The loop stops at the first nonce that works, or has seen that none does.
  abbrev pub Search : String → ℕ → ℕ → ℕ → Option ℕ → Type 0
  Search id difficulty start left none =
      (n : ℕ) → start ≤ n → n < start + left → verify_pow crates id n difficulty ≡ false
  Search id difficulty start left (some nonce) =
      (nonce < start + left)
      × (verify_pow crates id nonce difficulty ≡ true)
      × ((n : ℕ) → start ≤ n → n < nonce → verify_pow crates id n difficulty ≡ false)

  module _ (id : String) (difficulty : ℕ) where
    later :
        (start left : ℕ) (o : Option ℕ)
        → verify_pow crates id start difficulty ≡ false
        → Search id difficulty (suc start) left o
        → Search id difficulty start (suc left) o
    later start left none miss h = λ n low high. elim (Bool-cases (start == n)) [
      | inl here ↦
          subst (λ k. verify_pow crates id k difficulty ≡ false) ((==_iff start n).0 here) miss
      | inr apart ↦ h n (ground arith) (omega arith)
    ]
    later start left (some nonce) miss (bound, works, before) = (
      omega arith,
      works,
      λ n low high. elim (Bool-cases (start == n)) [
        | inl here ↦
            subst (λ k. verify_pow crates id k difficulty ≡ false) ((==_iff start n).0 here) miss
        | inr apart ↦ before n (ground arith) high
      ],
    )

    pow_loop-Search :
        (start left : ℕ)
        → Search id difficulty start left (pow_loop crates id difficulty start left)
    unfolding pow_loop
    pow_loop-Search start zero = λ n low high. absurd (omega arith)
    pow_loop-Search start (suc left) = elim (Bool-cases (verify_pow crates id start difficulty)) [
      | inl hit ↦ rw (hit, pow_loop) (omega arith, hit, λ n low high. absurd (omega arith))
      | inr miss ↦ rw (miss, pow_loop) (later start left _ miss (pow_loop-Search (suc start) left))
    ]

  -- Either compute_pow reports a failure, the event is unchanged and no nonce below the limit works,
  -- or it has put in the least nonce that works, changed nothing else, and the check accepts it.
  pub compute_pow_lem :
      (e : MeshEvent) (limit : ℕ)
      → ((compute_pow crates e limit ≡ (e, false))
          × ((n : ℕ) → n < limit → verify_pow crates e.id n e.pow_difficulty ≡ false))
        ⊎ ((nonce : ℕ) × (compute_pow crates e limit ≡ (record e { pow_nonce = nonce }, true))
            × (nonce < limit)
            × (verify_pow crates e.id nonce e.pow_difficulty ≡ true)
            × ((n : ℕ) → n < nonce → verify_pow crates e.id n e.pow_difficulty ≡ false))
  unfolding compute_pow
  compute_pow_lem e limit =
      let found = pow_loop-Search e.id e.pow_difficulty 0 limit in
      elim (Option-cases (pow_loop crates e.id e.pow_difficulty 0 limit)) [
        | inl miss ↦
            let all = subst (Search e.id e.pow_difficulty 0 limit) miss found in
            inl (rw (miss, compute_pow), λ n h. all n (omega arith) (omega arith))
        | inr (nonce, hit) ↦
            let (bound, works, before) = subst (Search e.id e.pow_difficulty 0 limit) hit found in
            inr (nonce, rw (hit, compute_pow), omega arith, works, λ n h. before n (omega arith) h)
      ]
