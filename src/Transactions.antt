-- ===== src/Transactions.antt =====
-- The pool of offline transactions of core/src/crypto/mod.rs: `ZkProof`, `ZkTransaction` and
-- `TxPool`. SHA-256 and hex are those of the record Crates, and the clock is an argument.
pub mod Sequence
pub mod Replay
mod Examples
use Prim.Native.Char.{code}
use onde_resilience.Prelude.{
  ℕ, ◌+◌, String, Bool, true, false, ◌&&◌, ◌||◌, not, Option, none, some, List, [], ◌∷◌, ◌++◌, map,
  if◌then◌else◌, ltb, leb, ◌==◌, length, take, drop, any_of, push_back, str_eq, min, max,
}
use onde_resilience.Prelude.Result.{Result, ok, err}
use onde_resilience.Prelude.Utf8.{as_bytes}
use onde_resilience.Prelude.Words.{add_u64}
use onde_resilience.Protocol.Validate.{Crates, decimal}

pub record ZkProof : Type 0 where
  pub commitment : String
  pub public_inputs : List String
  pub proof_data : List ℕ

pub record ZkTransaction : Type 0 where
  pub tx_id : String
  pub sender : String
  pub receiver : String
  pub amount_micro : ℕ
  pub nonce : ℕ
  pub timestamp : ℕ
  pub zk_proof : ZkProof
  pub committed : Bool

pub record TxPool : Type 0 where
  pub pending : List ZkTransaction
  pub committed : List ZkTransaction
  pub state_roots : List String

pub data SubmitError : Type 0 where
  invalid_proof duplicate_nonce stale_nonce : SubmitError

abbrev pub new : TxPool
new = record { pending = []; committed = []; state_roots = "genesis" ∷ [] }

-- The bytes of `format!("{sender}:{receiver}:{amount_micro}:{nonce}")`.
unfoldable pub tx_text : String → String → ℕ → ℕ → List ℕ
tx_text sender receiver amount_micro nonce =
    as_bytes sender
    ++ b':'
      ∷ (as_bytes receiver ++ b':' ∷ (decimal 20 amount_micro [] ++ b':' ∷ decimal 20 nonce []))

-- `is_ascii_hexdigit`
unfoldable pub is_hexdigit : ℕ → Bool
is_hexdigit c =
    (leb b'0' c && leb c b'9') || ((leb b'a' c && leb c b'f') || (leb b'A' c && leb c b'F'))

-- `chars().all(|c| c.is_ascii_hexdigit())`
unfoldable pub all_hexdigits : String → Bool
all_hexdigits String.[] = true
all_hexdigits (String.◌∷◌ c s) = is_hexdigit (code c) && all_hexdigits s

-- `==` of two lists of texts.
unfoldable pub texts_eq : List String → List String → Bool
texts_eq [] [] = true
texts_eq [] (y ∷ ys) = false
texts_eq (x ∷ xs) [] = false
texts_eq (x ∷ xs) (y ∷ ys) = str_eq x y && texts_eq xs ys

-- The loop of `next_expected_nonce`; `nonce + 1` wraps around in a release build.
unfoldable pub next_loop : String → ℕ → List ZkTransaction → ℕ
next_loop sender next [] = next
next_loop sender next (tx ∷ txs) =
    next_loop sender (if str_eq tx.sender sender then max next (add_u64 tx.nonce 1) else next) txs

unfoldable pub next_expected_nonce : TxPool → String → ℕ
next_expected_nonce pool sender = next_loop sender 0 (pool.pending ++ pool.committed)

-- `last()`
unfoldable pub last_root : List String → Option String
last_root [] = none
last_root (r ∷ []) = some r
last_root (r ∷ q ∷ roots) = last_root (q ∷ roots)

unfoldable pub pending_count : TxPool → ℕ
pending_count pool = length pool.pending

unfoldable pub committed_count : TxPool → ℕ
committed_count pool = length pool.committed

unfoldable pub state_root : TxPool → Option String
state_root pool = last_root pool.state_roots

-- `tx.committed = true` of the loop of `commit_pending`.
abbrev pub commit : ZkTransaction → ZkTransaction
commit tx = record tx { committed = true }

module _ (crates : Crates) where
  open crates use {hex, sha256}

  -- `ZkProof::prove`
  unfoldable pub prove : String → String → ℕ → ℕ → ZkProof
  prove sender receiver amount_micro nonce =
      let digest = sha256 (tx_text sender receiver amount_micro nonce) in
      record {
        commitment = hex.encode digest;
        public_inputs = sender ∷ receiver ∷ [];
        proof_data = digest;
      }

  -- `ZkProof::verify`
  unfoldable pub verify_proof : ZkProof → Bool
  verify_proof proof =
      length (as_bytes proof.commitment) == 64
      && (all_hexdigits proof.commitment
          && (length proof.proof_data == 32
              && str_eq (hex.encode proof.proof_data) proof.commitment))

  -- `ZkTransaction::new`, at the time `now`.
  unfoldable pub new_transaction : ℕ → String → String → ℕ → ℕ → ZkTransaction
  new_transaction now sender receiver amount_micro nonce = record {
    tx_id = hex.encode (sha256 (tx_text sender receiver amount_micro nonce));
    sender = sender;
    receiver = receiver;
    amount_micro = amount_micro;
    nonce = nonce;
    timestamp = now;
    zk_proof = prove sender receiver amount_micro nonce;
    committed = false;
  }

  unfoldable pub has_valid_proof : ZkTransaction → Bool
  has_valid_proof tx =
      if not (verify_proof tx.zk_proof)
      then false
      else str_eq tx.zk_proof.commitment
          (hex.encode (sha256 (tx_text tx.sender tx.receiver tx.amount_micro tx.nonce)))
        && texts_eq tx.zk_proof.public_inputs (tx.sender ∷ tx.receiver ∷ [])

  unfoldable pub submit : TxPool → ZkTransaction → TxPool × Result SubmitError (Unit {0})
  submit pool tx =
      if not (has_valid_proof tx)
      then (pool, err SubmitError.invalid_proof)
      else if any_of (λ t. str_eq t.sender tx.sender && (t.nonce == tx.nonce)) pool.pending
      then (pool, err SubmitError.duplicate_nonce)
      else if ltb tx.nonce (next_expected_nonce pool tx.sender)
      then (pool, err SubmitError.stale_nonce)
      else (record pool { pending = push_back pool.pending tx }, ok tt)

  -- The root after a batch: the hash of `format!("{last}:{committed}")`; there is always a last one.
  unfoldable pub next_root : List String → ℕ → List String
  next_root roots count = elim (last_root roots) [
    | none ↦ roots
    | some last ↦
        push_back roots (hex.encode (sha256 (as_bytes last ++ b':' ∷ decimal 20 count [])))
  ]

  unfoldable pub commit_pending : TxPool → ℕ → TxPool × List ZkTransaction
  commit_pending pool max_batch =
      let batch_size = min max_batch (length pool.pending) in
      let batch = map commit (take batch_size pool.pending) in
      let committed' = pool.committed ++ batch in
      (
        record {
          pending = drop batch_size pool.pending;
          committed = committed';
          state_roots =
              if length batch == 0
              then pool.state_roots
              else next_root pool.state_roots (length committed');
        },
        batch,
      )
