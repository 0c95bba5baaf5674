-- ===== src/Transactions/Examples.antt =====
-- A pool with two transactions of one sender (core/src/crypto/mod.rs), and the theorems at it.
use onde_resilience.Prelude.{
  ℕ, ◌≡◌, ◌⊎◌, ◌↔◌, refl, true, false, [], ◌∷◌, arith, any_of, replicate, slice,
}
use onde_resilience.Prelude.Result.{ok, err}
use onde_resilience.Prelude.Utf8.{as_bytes}
use onde_resilience.Prelude.Words.{add_u64}
use onde_resilience.Protocol.HexExample.{encode, hex}
use onde_resilience.Protocol.CratesExample.{sum}
use onde_resilience.Protocol.Validate.{Crates, decimal}
use onde_resilience.Transactions.{
  ZkTransaction, TxPool, SubmitError, new, new_transaction, prove, tx_text, verify_proof,
  has_valid_proof, all_hexdigits, is_hexdigit, texts_eq, next_loop, next_expected_nonce, submit,
  commit_pending, last_root, next_root,
}
use onde_resilience.Transactions.Sequence.{
  ledger, seal, append, supersedes, submit_refines, commit_pending_refines,
}
use onde_resilience.Transactions.Replay.{same, committed, submit_again}

-- A checksum in place of the digest.
abbrev crates : Crates
crates = record {
  hex = hex;
  canonical_json = λ pubkey created_at kind tags content. [];
  sha256 = λ bytes. sum bytes ∷ replicate 31 0;
  lower_hex = encode;
  key_valid = λ key. true;
  signature_ok = λ key message sig. true;
}

abbrev payment : ℕ → ZkTransaction
payment nonce = new_transaction crates 1000 "ana" "bruno" 250 nonce

abbrev pool : TxPool
pool = record {
  pending = payment 1 ∷ [];
  committed = payment 0 ∷ [];
  state_roots = "genesis" ∷ "r" ∷ [];
}

taken : (submit crates pool (payment 2)).1 ≡ ok tt
unfolding submit has_valid_proof verify_proof new_transaction prove tx_text decimal sum
    all_hexdigits is_hexdigit texts_eq next_expected_nonce next_loop add_u64 as_bytes encode
taken = refl

-- A nonce that is taken already is refused as a duplicate, and an earlier one as stale.
refused :
    ((submit crates pool (payment 1)).1 ≡ err SubmitError.duplicate_nonce)
    × ((submit crates pool (payment 0)).1 ≡ err SubmitError.stale_nonce)
unfolding submit has_valid_proof verify_proof new_transaction prove tx_text decimal sum
    all_hexdigits is_hexdigit texts_eq next_expected_nonce next_loop add_u64 as_bytes encode
refused = (refl, refl)

commit_pending_refines_example :
    (ledger (commit_pending crates pool 5).0 ≡ seal 5 (ledger pool))
    × ((commit_pending crates pool 5).1
        ≡ slice (ledger pool).sealed (seal 5 (ledger pool)).sealed (ledger pool).log)
commit_pending_refines_example = commit_pending_refines crates pool 5

submit_refines_example :
    (((submit crates pool (payment 2)).1 ≡ ok tt) ↔ (
      (has_valid_proof crates (payment 2) ≡ true)
      × (any_of (supersedes (payment 2)) (ledger pool).log ≡ false)))
    × (((e : SubmitError) × (submit crates pool (payment 2) ≡ (pool, err e)))
        ⊎ (((submit crates pool (payment 2)).1 ≡ ok tt)
            × (ledger (submit crates pool (payment 2)).0 ≡ append (payment 2) (ledger pool))))
unfolding new_transaction
submit_refines_example = submit_refines crates pool (payment 2) (omega arith, tt) (omega arith, tt)

abbrev after : TxPool
after = (commit_pending crates (submit crates pool (payment 2)).0 9).0

submit_again_example : (e : SubmitError) × (submit crates after (payment 2) ≡ (after, err e))
unfolding new_transaction
submit_again_example =
    submit_again crates pool after (payment 2) (payment 2) taken (omega arith)
      (committed (same refl) 9) refl (omega arith)

-- A nonce of the largest word is taken twice: the next nonce that is expected wraps around.
wrapped_twice :
    (submit crates
      (commit_pending crates (submit crates new (payment 18446744073709551615)).0 1).0
      (payment 18446744073709551615)).1
    ≡ ok tt
unfolding submit has_valid_proof verify_proof new_transaction prove tx_text decimal sum
    all_hexdigits is_hexdigit texts_eq next_expected_nonce next_loop add_u64 as_bytes encode
    commit_pending next_root last_root
wrapped_twice = refl
