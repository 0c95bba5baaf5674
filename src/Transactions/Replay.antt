-- ===== src/Transactions/Replay.antt =====
-- What the pool of core/src/crypto/mod.rs has taken it never takes again.
use mathlib.Core.List.{map-append}
use onde_resilience.Prelude.{
  subst, ℕ, ◌+◌, ◌≤◌, ◌<◌, ◌≡◌, ◌⊎◌, ap, sym, ◌∙◌, String, Bool, true, ◌&&◌, inl, inr, List, [],
  ◌∷◌, ◌++◌, map, arith, if◌then◌else◌, ltb, ◌==◌, any_of, push_back, max, str_eq, eq_refl,
  append_assoc, Bool-cases,
}
use onde_resilience.Prelude.Result.{ok, err}
use onde_resilience.Prelude.Words.{add_u64, u64_mod, add_u64-exact}
use onde_resilience.Protocol.Validate.{Crates}
use onde_resilience.Transactions.{
  ZkTransaction, TxPool, SubmitError, commit, next_loop, next_expected_nonce, has_valid_proof,
  submit, commit_pending,
}
use onde_resilience.Transactions.Sequence.{ledger, commit_pending_refines, any_of-append, Ledger}

-- A transaction of this sender with this nonce.
abbrev pub names : String → ℕ → ZkTransaction → Bool
names sender nonce t = str_eq t.sender sender && (t.nonce == nonce)

-- The log has one.
abbrev pub Taken : String → ℕ → TxPool → Type 0
Taken sender nonce pool = any_of (names sender nonce) (ledger pool).log ≡ true

-- The pools that calls lead to from a first one.
pub data Later (crates : Crates) (first : TxPool) : TxPool → Type 0 where
  same : {pool : TxPool} → pool ≡ first → Later crates first pool
  submitted :
      {pool : TxPool}
      → Later crates first pool
      → (tx : ZkTransaction) → Later crates first (submit crates pool tx).0
  committed :
      {pool : TxPool}
      → Later crates first pool
      → (max_batch : ℕ) → Later crates first (commit_pending crates pool max_batch).0

next_loop-ge :
    (sender : String) (next : ℕ) (txs : List ZkTransaction) → next ≤ next_loop sender next txs
unfolding next_loop
next_loop-ge sender next [] = omega arith
next_loop-ge sender next (t ∷ txs) = elim (Bool-cases (str_eq t.sender sender)) [
  | inl h ↦ rw h (ground (arith, next_loop-ge sender (max next (add_u64 t.nonce 1)) txs))
  | inr h ↦ rw h (next_loop-ge sender next txs)
]

lt-next_loop :
    (sender : String) (nonce next : ℕ) (txs : List ZkTransaction)
    → nonce + 1 < u64_mod
    → any_of (names sender nonce) (map commit txs) ≡ true
    → nonce < next_loop sender next txs
unfolding next_loop
lt-next_loop sender nonce next [] fits h = cc
lt-next_loop sender nonce next (t ∷ txs) fits h = elim (Bool-cases (names sender nonce t)) [
  | inl here ↦
      ground (
        arith,
        here,
        next_loop-ge sender (max next (add_u64 t.nonce 1)) txs,
        add_u64-exact t.nonce 1,
      )
  | inr other ↦
      lt-next_loop sender nonce
        (if str_eq t.sender sender then max next (add_u64 t.nonce 1) else next) txs fits
        (ground (arith, other))
]

map-commit-swap :
    (p : ZkTransaction → Bool) (xs ys : List ZkTransaction)
    → any_of p (map commit (xs ++ ys)) ≡ any_of p (map commit (ys ++ xs))
map-commit-swap p xs ys =
    rw (map-append commit xs ys, map-append commit ys xs)
      (ground (
        arith,
        any_of-append p (map commit xs) (map commit ys),
        any_of-append p (map commit ys) (map commit xs),
      ))

module _ (crates : Crates) where
  -- submit refuses without a change, or the transaction waits last.
  submit-push :
      (pool : TxPool) (tx : ZkTransaction)
      → ((e : SubmitError) × (submit crates pool tx ≡ (pool, err e)))
        ⊎ ((submit crates pool tx ≡ (record pool { pending = push_back pool.pending tx }, ok tt))
            × (next_expected_nonce pool tx.sender ≤ tx.nonce))
  unfolding submit
  submit-push pool tx = elim (Bool-cases (has_valid_proof crates tx)) [
    | inr bad ↦ inl (SubmitError.invalid_proof, ground (arith, bad))
    | inl valid ↦ elim (Bool-cases (any_of (names tx.sender tx.nonce) pool.pending)) [
      | inl twice ↦ inl (SubmitError.duplicate_nonce, ground (arith, valid, twice))
      | inr once ↦ elim (Bool-cases (ltb tx.nonce (next_expected_nonce pool tx.sender))) [
        | inl stale ↦ inl (SubmitError.stale_nonce, ground (arith, valid, once, stale))
        | inr fresh ↦ inr (ground (arith, valid, once, fresh), ground (arith, fresh))
      ]
    ]
  ]

  submit-keeps :
      (pool : TxPool) (tx : ZkTransaction) (sender : String) (nonce : ℕ)
      → Taken sender nonce pool
      → Taken sender nonce (submit crates pool tx).0
  unfolding submit
  submit-keeps pool tx sender nonce h = elim (submit-push pool tx) [
    | inl (e, run) ↦ rw run h
    | inr (run, _) ↦
        rw (run, sym (append_assoc pool.committed pool.pending (tx ∷ [])), map-append)
          (ground (
            arith,
            any_of-append (names sender nonce) (map commit (pool.committed ++ pool.pending))
                (commit tx ∷ []),
            h,
          ))
  ]

  holds_on :
      (first pool : TxPool) (sender : String) (nonce : ℕ)
      → Later crates first pool
      → Taken sender nonce first
      → Taken sender nonce pool
  holds_on first pool sender nonce (same e) h = rw e h
  holds_on first pool sender nonce (submitted {pool = before} l tx) h =
      submit-keeps before tx sender nonce (holds_on first before sender nonce l h)
  holds_on first pool sender nonce (committed {pool = before} l n) h =
      ap (λ (l' : Ledger). any_of (names sender nonce) l'.log)
        (commit_pending_refines crates before n).0
      ∙ holds_on first before sender nonce l h

  refused_again :
      (pool : TxPool) (tx : ZkTransaction) (nonce : ℕ)
      → nonce + 1 < u64_mod
      → tx.nonce ≤ nonce
      → Taken tx.sender nonce pool
      → (e : SubmitError) × (submit crates pool tx ≡ (pool, err e))
  unfolding next_expected_nonce
  refused_again pool tx nonce fits old h = elim (submit-push pool tx) [
    | inl refused ↦ refused
    | inr (_, fresh) ↦
        let above =
          lt-next_loop tx.sender nonce 0 (pool.pending ++ pool.committed) fits
            (map-commit-swap (names tx.sender nonce) pool.pending pool.committed ∙ h) in
        absurd (omega arith)
  ]

  submit-Taken :
      (pool : TxPool) (tx : ZkTransaction)
      → (submit crates pool tx).1 ≡ ok tt
      → Taken tx.sender tx.nonce (submit crates pool tx).0
  submit-Taken pool tx h = elim (submit-push pool tx) [
    | inl (e, run) ↦ absurd (cc (run, h))
    | inr (run, _) ↦
        rw (run, sym (append_assoc pool.committed pool.pending (tx ∷ [])), map-append)
          (ground (
            arith,
            any_of-append (names tx.sender tx.nonce) (map commit (pool.committed ++ pool.pending))
                (commit tx ∷ []),
            eq_refl tx.sender,
          ))
  ]

  -- Once a transaction is taken, with a nonce below the largest of a word, no pool that later calls
  -- lead to takes one of the same sender with this nonce or an earlier one: it is refused without
  -- a change.
  pub submit_again :
      (pool later : TxPool) (tx again : ZkTransaction)
      → (submit crates pool tx).1 ≡ ok tt
      → tx.nonce + 1 < u64_mod
      → Later crates (submit crates pool tx).0 later
      → again.sender ≡ tx.sender
      → again.nonce ≤ tx.nonce
      → (e : SubmitError) × (submit crates later again ≡ (later, err e))
  submit_again pool later tx again h fits l e old = refused_again later again tx.nonce fits old (
      subst (λ sender. Taken sender tx.nonce later) (sym e)
        (holds_on (submit crates pool tx).0 later tx.sender tx.nonce l (submit-Taken pool tx h)))
