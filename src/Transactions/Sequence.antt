-- ===== src/Transactions/Sequence.antt =====
-- What a pool of core/src/crypto/mod.rs stands for: one log of transactions in the order in which
-- they were submitted, of which a prefix is committed.
use onde_resilience.Prelude.{
  ℕ, zero, suc, slice-past, ◌+◌, ◌-◌, ◌%◌, ◌<◌, ◌≡◌, ◌↔◌, refl, ap, ap₂, sym, ◌⊎◌, ◌∙◌, Bool, true,
  false, ◌&&◌, ◌||◌, not, inl, inr, List, [], ◌∷◌, ◌++◌, map, arith, ltb, leb, ◌==◌, length, take,
  drop, slice, any_of, push_back, min, max, All, str_eq, append_assoc, length-append, length-map,
  take-append-drop, Bool-cases, length-take,
}
use mathlib.Core.List.{map-append}
use onde_resilience.Prelude.Result.{ok, err}
use onde_resilience.Prelude.Words.{add_u64, u64_mod}
use onde_resilience.Protocol.Validate.{Crates}
use onde_resilience.Transactions.{
  ZkTransaction, TxPool, SubmitError, commit, next_loop, next_expected_nonce, has_valid_proof,
  submit, commit_pending,
}

-- The log, and how many of its transactions are committed.
pub record Ledger : Type 0 where
  pub log : List ZkTransaction
  pub sealed : ℕ

abbrev pub ledger : TxPool → Ledger
ledger pool = record {
  log = map commit (pool.committed ++ pool.pending);
  sealed = length pool.committed;
}

-- At most so many more transactions of the log are committed.
abbrev pub seal : ℕ → Ledger → Ledger
seal n l = record l { sealed = min (l.sealed + n) (length l.log) }

abbrev pub append : ZkTransaction → Ledger → Ledger
append tx l = record l { log = push_back l.log (commit tx) }

-- A transaction of the same sender with this nonce or a later one.
abbrev pub supersedes : ZkTransaction → ZkTransaction → Bool
supersedes tx t = str_eq t.sender tx.sender && leb tx.nonce t.nonce

abbrev pub Fits : ZkTransaction → Type 0
Fits t = t.nonce + 1 < u64_mod

map-commit_twice : (txs : List ZkTransaction) → map commit (map commit txs) ≡ map commit txs
map-commit_twice [] = refl
map-commit_twice (t ∷ txs) = ap (◌∷◌ (commit t)) (map-commit_twice txs)

any_of-commit :
    (tx : ZkTransaction) (txs : List ZkTransaction)
    → any_of (supersedes tx) (map commit txs) ≡ any_of (supersedes tx) txs
any_of-commit tx [] = refl
any_of-commit tx (t ∷ txs) = rw (any_of-commit tx txs) refl

pub any_of-append {ℓ} :
    {A : Type ℓ} (p : A → Bool) (xs ys : List A)
    → any_of p (xs ++ ys) ≡ (any_of p xs || any_of p ys)
any_of-append p [] ys = refl
any_of-append p (x ∷ xs) ys = ground (arith, any_of-append p xs ys)

-- The loop stays at or below a nonce exactly when nothing supersedes it.
pub next_loop-le :
    (tx : ZkTransaction) (next : ℕ) (txs : List ZkTransaction)
    → All Fits txs
    → leb (next_loop tx.sender next txs) tx.nonce
      ≡ (leb next tx.nonce && not (any_of (supersedes tx) txs))
unfolding next_loop add_u64
next_loop-le tx next [] fits = ground arith
next_loop-le tx next (t ∷ txs) fits = elim (Bool-cases (str_eq t.sender tx.sender)) [
  | inl same ↦
      rw same
        (ground (arith, fits.0, next_loop-le tx (max next ((t.nonce + 1) % u64_mod)) txs fits.1))
  | inr other ↦ rw other (next_loop-le tx next txs fits.1)
]

take-map : (n : ℕ) (txs : List ZkTransaction) → take n (map commit txs) ≡ map commit (take n txs)
take-map zero txs = refl
take-map (suc n) [] = refl
take-map (suc n) (t ∷ txs) = ap (◌∷◌ (commit t)) (take-map n txs)

All-append {ℓ κ} :
    {A : Type ℓ} (P : A → Type κ) (xs ys : List A) → All P xs → All P ys → All P (xs ++ ys)
All-append P [] ys h k = k
All-append P (x ∷ xs) ys h k = (h.0, All-append P xs ys h.1 k)

-- The test of `submit` for a nonce that is waiting already.
abbrev repeats : ZkTransaction → ZkTransaction → Bool
repeats tx t = str_eq t.sender tx.sender && (t.nonce == tx.nonce)

repeats-supersedes :
    (tx : ZkTransaction) (txs : List ZkTransaction)
    → any_of (repeats tx) txs ≡ true
    → any_of (supersedes tx) txs ≡ true
repeats-supersedes tx [] h = h
repeats-supersedes tx (t ∷ txs) h = ground (arith, repeats-supersedes tx txs)

module _ (crates : Crates) (pool : TxPool) where
  commit_pending-log :
      (n : ℕ)
      → map commit
          ((commit_pending crates pool n).0.committed ++ (commit_pending crates pool n).0.pending)
        ≡ map commit (pool.committed ++ pool.pending)
  unfolding commit_pending
  commit_pending-log n =
      let k = min n (length pool.pending) in
      simp (map-append, map-commit_twice, append_assoc)
        (ap (λ (txs : List ZkTransaction). map commit pool.committed ++ txs)
          (sym (map-append commit (take k pool.pending) (drop k pool.pending))
            ∙ ap (map commit) (take-append-drop k pool.pending)))

  commit_pending-sealed :
      (n : ℕ)
      → length (commit_pending crates pool n).0.committed
        ≡ min (length pool.committed + n) (length (map commit (pool.committed ++ pool.pending)))
  unfolding commit_pending
  commit_pending-sealed n =
      let k = min n (length pool.pending) in
      ground (
        arith,
        length-append pool.committed (map commit (take k pool.pending)),
        length-map commit (take k pool.pending),
        length-take k pool.pending (ground arith),
        length-map commit (pool.committed ++ pool.pending),
        length-append pool.committed pool.pending,
      )

  commit_pending-batch :
      (n : ℕ)
      → (commit_pending crates pool n).1
        ≡ slice (ledger pool).sealed (seal n (ledger pool)).sealed (ledger pool).log
  unfolding commit_pending
  commit_pending-batch n =
      let l = ledger pool in
      let size = length-map commit pool.committed in
      let total : length l.log ≡ length pool.committed + length pool.pending = omega (
        arith,
        length-map commit (pool.committed ++ pool.pending),
        length-append pool.committed pool.pending,
      ) in
      let to = (seal n l).sealed in
      let start : 0 ≡ l.sealed - l.sealed = omega arith in
      let amount : min n (length pool.pending) ≡ to - l.sealed - (l.sealed - l.sealed) =
        ground (arith, total) in
      sym (take-map (min n (length pool.pending)) pool.pending)
      ∙ ap₂ (λ (j i : ℕ). take j (drop i (map commit pool.pending))) amount start
      ∙ sym (
          slice-past (map commit pool.committed) (map commit pool.pending) l.sealed l.sealed to size
            (omega arith))
      ∙ ap (slice l.sealed to) (sym (map-append commit pool.committed pool.pending))

  -- commit_pending changes the log no more than by sealing the next transactions, as many as asked
  -- for or as there are, and returns exactly those, in their order, marked as committed.
  pub commit_pending_refines :
      (n : ℕ)
      → (ledger (commit_pending crates pool n).0 ≡ seal n (ledger pool))
        × ((commit_pending crates pool n).1
            ≡ slice (ledger pool).sealed (seal n (ledger pool)).sealed (ledger pool).log)
  commit_pending_refines n = (
    ap₂ (λ log sealed. record { log = log; sealed = sealed }) (commit_pending-log n)
        (commit_pending-sealed n),
    commit_pending-batch n,
  )

  superseded :
      (tx : ZkTransaction)
      → any_of (supersedes tx) (ledger pool).log
        ≡ (any_of (supersedes tx) pool.committed || any_of (supersedes tx) pool.pending)
  superseded tx =
      any_of-commit tx (pool.committed ++ pool.pending)
      ∙ any_of-append (supersedes tx) pool.committed pool.pending

  submit-cases :
      (tx : ZkTransaction)
      → All Fits pool.pending
      → All Fits pool.committed
      → ((e : SubmitError) × (submit crates pool tx ≡ (pool, err e))
          × ((has_valid_proof crates tx ≡ false)
              ⊎ (any_of (supersedes tx) (ledger pool).log ≡ true)))
        ⊎ ((submit crates pool tx ≡ (record pool { pending = push_back pool.pending tx }, ok tt))
            × (has_valid_proof crates tx ≡ true)
            × (any_of (supersedes tx) (ledger pool).log ≡ false))
  unfolding submit next_expected_nonce
  submit-cases tx waiting done =
      let both =
        next_loop-le tx 0 (pool.pending ++ pool.committed)
          (All-append Fits pool.pending pool.committed waiting done)
        ∙ ap (λ b. leb 0 tx.nonce && not b)
            (any_of-append (supersedes tx) pool.pending pool.committed) in
      elim (Bool-cases (has_valid_proof crates tx)) [
        | inr bad ↦ inl (SubmitError.invalid_proof, ground (arith, bad), inl bad)
        | inl valid ↦ elim (Bool-cases (any_of (repeats tx) pool.pending)) [
          | inl twice ↦ inl (
            SubmitError.duplicate_nonce,
            ground (arith, valid, twice),
            inr (ground (arith, superseded tx, repeats-supersedes tx pool.pending twice)),
          )
          | inr once ↦ elim (Bool-cases (ltb tx.nonce (next_expected_nonce pool tx.sender))) [
            | inl stale ↦ inl (
              SubmitError.stale_nonce,
              ground (arith, valid, once, stale),
              inr (ground (arith, superseded tx, both, stale)),
            )
            | inr fresh ↦ inr (
              ground (arith, valid, once, fresh),
              valid,
              ground (arith, superseded tx, both, fresh),
            )
          ]
        ]
      ]

  -- Where no nonce of the pool is the largest of a word, submit takes a transaction exactly when its
  -- proof is valid and the log holds none of its sender with this nonce or a later one; it then
  -- stands last in the log and nothing more is sealed, and otherwise nothing changes.
  pub submit_refines :
      (tx : ZkTransaction)
      → All Fits pool.pending
      → All Fits pool.committed
      → (((submit crates pool tx).1 ≡ ok tt) ↔ (
          (has_valid_proof crates tx ≡ true) × (any_of (supersedes tx) (ledger pool).log ≡ false)))
        × (((e : SubmitError) × (submit crates pool tx ≡ (pool, err e)))
            ⊎ (((submit crates pool tx).1 ≡ ok tt)
                × (ledger (submit crates pool tx).0 ≡ append tx (ledger pool))))
  submit_refines tx waiting done = elim (submit-cases tx waiting done) [
    | inl (e, run, why) ↦ rw run (
      (λ h. cc, λ h. absurd (elim why [ inl bad ↦ cc (h.0, bad) | inr old ↦ cc (h.1, old) ])),
      inl (e, refl),
    )
    | inr (run, valid, free) ↦ rw run (
      (λ h. (valid, free), λ h. refl),
      inr (
        refl,
        ap (λ log. record { log = log; sealed = length pool.committed })
            (ap (map commit) (sym (append_assoc pool.committed pool.pending (tx ∷ [])))
              ∙ map-append commit (pool.committed ++ pool.pending) (tx ∷ [])),
      ),
    )
  ]
