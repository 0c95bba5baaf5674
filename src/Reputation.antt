-- ===== src/Reputation.antt =====
-- `ReputationSystem` of core/src/reputation/mod.rs and the abuse records of
-- core/src/reputation/spam.rs. Arithmetic on `f64` is the parameter Float: a type with the
-- operations that the code calls; what Reputation/Work assumes of it is the record IsF64 there.
pub mod Work
pub mod Endorsing
pub mod Reporting
pub mod Recovery
pub mod Gate
pub mod Sound
mod Examples
use onde_resilience.Prelude.{
  ℕ, zero, suc, ◌+◌, ◌-◌, ◌/◌, String, Bool, true, false, ◌&&◌, ◌||◌, not, Option, none, some, List,
  [], ◌∷◌, if◌then◌else◌, ltb, leb, ◌==◌, length, push_back, pop_front, keep_if, any_of, str_eq,
}
use onde_resilience.Prelude.Assoc.{Assoc, lookup, lookup_or, insert}
use onde_resilience.Prelude.Words.{add_u64, saturating_sub}
use onde_resilience.Prelude.Result.{Result, ok, err, map_ok}
use onde_resilience.Spam.{AbuseReason, from_code}

pub record Float (F : Type 0) : Type 0 where
  -- the literal of so many hundredths
  pub hundredths : ℕ → F
  -- `n as f64`
  pub of_u64 : ℕ → F
  -- `x.round() as u8`
  pub round_u8 : F → ℕ
  pub le : F → F → Bool
  pub lt : F → F → Bool
  pub add : F → F → F
  pub sub : F → F → F
  pub mul : F → F → F
  pub div : F → F → F
  pub max : F → F → F
  pub min : F → F → F

pub data TrustAction : Type 0 where
  accept throttle deprioritize ignore : TrustAction

pub record Endorsement : Type 0 where
  pub endorser : String
  pub endorsed : String
  pub timestamp : ℕ

pub record AbuseReport : Type 0 where
  pub reporter : String
  pub offender : String
  pub reason : ℕ
  pub timestamp : ℕ

pub record AbuseRecord (F : Type 0) : Type 0 where
  pub score : F
  pub updated_at : ℕ

-- (reporter, offender, reason)
abbrev pub ReportKey : Type 0
ReportKey = String × String × ℕ

pub record ReputationSystem (F : Type 0) : Type 0 where
  pub scores : Assoc F
  pub endorsements : Assoc (List Endorsement)
  pub activity : Assoc ℕ
  pub abuse : Assoc (AbuseRecord F)
  pub abuse_report_keys : List ReportKey
  pub abuse_report_order : List ReportKey

pub data ReputationError : Type 0 where
  self_endorsement endorser_not_trusted duplicate_endorsement endorsement_not_verified :
      ReputationError
  report_not_verified self_report unknown_reason reporter_not_trusted duplicate_report :
      ReputationError

abbrev pub required_endorsements : ℕ
required_endorsements = 3

abbrev pub max_pow_difficulty : ℕ
max_pow_difficulty = 4

abbrev pub base_pow_difficulty : ℕ
base_pow_difficulty = 2

abbrev pub max_abuse_reports_tracked : ℕ
max_abuse_reports_tracked = 2048

unfoldable pub key_eq : ReportKey → ReportKey → Bool
key_eq (a, b, c) (x, y, z) = str_eq a x && str_eq b y && (c == z)

unfoldable pub has_key : ReportKey → List ReportKey → Bool
has_key key keys = any_of (λ k. key_eq k key) keys

-- `HashSet::remove`
unfoldable pub remove_key : ReportKey → List ReportKey → List ReportKey
remove_key key keys = keep_if (λ k. not (key_eq k key)) keys

-- The loop that forgets the oldest keys, one round for each key that is there at most.
unfoldable pub forget : ℕ → List ReportKey → List ReportKey → List ReportKey × List ReportKey
forget zero keys queue = (keys, queue)
forget (suc fuel) keys [] = (keys, [])
forget (suc fuel) keys (old ∷ queue) =
    let rest = forget fuel (remove_key old keys) queue in
    if ltb max_abuse_reports_tracked (length (old ∷ queue)) then rest else (keys, old ∷ queue)

-- `u8::clamp`
unfoldable pub clamp_u8 : ℕ → ℕ → ℕ → ℕ
clamp_u8 n low high = if ltb n low then low else if ltb high n then high else n

module _ {F : Type 0} (float : Float F) where
  open float use {hundredths, of_u64, round_u8, le, lt, add, sub, mul, div}

  abbrev pub trusted_threshold : F
  trusted_threshold = hundredths 70

  abbrev pub endorsement_threshold : F
  endorsement_threshold = hundredths 70

  abbrev pub endorsement_decay : F
  endorsement_decay = hundredths 50

  abbrev pub genesis_trust : F
  genesis_trust = hundredths 80

  abbrev pub unknown_trust : F
  unknown_trust = hundredths 0

  abbrev pub new : ReputationSystem F
  new = record {
    scores = [];
    endorsements = [];
    activity = [];
    abuse = [];
    abuse_report_keys = [];
    abuse_report_order = [];
  }

  -- `f64::clamp`
  unfoldable pub clamp : F → F → F → F
  clamp x low high = if lt x low then low else if lt high x then high else x

  unfoldable pub penalty : AbuseReason → F
  penalty AbuseReason.excessive_rate = hundredths 30
  penalty AbuseReason.invalid_event = hundredths 10
  penalty AbuseReason.insufficient_pow = hundredths 20

  unfoldable pub action_for_abuse : F → TrustAction
  action_for_abuse abuse =
      if le (hundredths 80) abuse
      then TrustAction.ignore
      else if le (hundredths 40) abuse
      then TrustAction.deprioritize
      else if le (hundredths 15) abuse
      then TrustAction.throttle
      else TrustAction.accept

  unfoldable pub decayed_abuse : F → ℕ → ℕ → F
  decayed_abuse score updated_at now =
      float.max (sub score (mul (of_u64 (saturating_sub now updated_at / 3600)) (hundredths 1)))
        (hundredths 0)

  unfoldable pub level_at : AbuseRecord F → ℕ → F
  level_at r now = decayed_abuse r.score r.updated_at now

  -- `AbuseRecord::record`: the new record, whose score it returns.
  unfoldable pub record_abuse : AbuseRecord F → F → ℕ → AbuseRecord F
  record_abuse r amount now = record {
    score = float.min (add (level_at r now) amount) (hundredths 100);
    updated_at = now;
  }

  -- `AbuseRecord::default()`
  abbrev pub no_abuse : AbuseRecord F
  no_abuse = record { score = hundredths 0; updated_at = 0 }

  unfoldable pub set_trusted : ReputationSystem F → String → F → ReputationSystem F
  set_trusted s pubkey score = record s {
    scores = insert pubkey (clamp score (hundredths 0) (hundredths 100)) s.scores;
  }

  unfoldable pub bootstrap : ReputationSystem F → List String → ReputationSystem F
  bootstrap s [] = s
  bootstrap s (peer ∷ peers) = bootstrap (set_trusted s peer genesis_trust) peers

  unfoldable pub score_in : Assoc F → String → F
  score_in scores pubkey = lookup_or unknown_trust pubkey scores

  unfoldable pub score : ReputationSystem F → String → F
  score s pubkey = score_in s.scores pubkey

  unfoldable pub is_trusted : ReputationSystem F → String → Bool
  is_trusted s pubkey = le trusted_threshold (score s pubkey)

  unfoldable pub qualified : Assoc F → List Endorsement → ℕ
  qualified scores list =
      length
        (keep_if (λ (e : Endorsement). le endorsement_threshold (score_in scores e.endorser)) list)

  unfoldable pub endorsement_count : ReputationSystem F → String → ℕ
  endorsement_count s pubkey = qualified s.scores (lookup_or [] pubkey s.endorsements)

  -- The scores after the endorsement: the gain, and the promotion of a node with enough of them.
  unfoldable pub promote : Assoc F → List Endorsement → String → String → Assoc F
  promote scores list endorser endorsed =
      let new_score =
        float.max (score_in scores endorsed) (mul (score_in scores endorser) endorsement_decay) in
      let gained = insert endorsed new_score scores in
      if leb required_endorsements (qualified gained list) && lt new_score trusted_threshold
      then insert endorsed trusted_threshold gained
      else gained

  unfoldable pub endorse :
      ReputationSystem F → String → String → ℕ → ReputationSystem F × Result ReputationError F
  endorse s endorser endorsed timestamp =
      let list = lookup_or [] endorsed s.endorsements in
      let list' =
        push_back list
          (record { endorser = endorser; endorsed = endorsed; timestamp = timestamp }) in
      let scores' = promote s.scores list' endorser endorsed in
      if str_eq endorser endorsed
      then (s, err ReputationError.self_endorsement)
      else if lt (score s endorser) endorsement_threshold
      then (s, err ReputationError.endorser_not_trusted)
      else if any_of (λ (e : Endorsement). str_eq e.endorser endorser) list
      then (s, err ReputationError.duplicate_endorsement)
      else (
        record s { scores = scores'; endorsements = insert endorsed list' s.endorsements },
        ok (score_in scores' endorsed),
      )

  unfoldable pub apply_remote_endorsement :
      ReputationSystem F
      → Endorsement
      → Bool
      → ReputationSystem F × Result ReputationError (Unit {0})
  apply_remote_endorsement s e endorser_sig_verified =
      let (after, result) = endorse s e.endorser e.endorsed e.timestamp in
      if not endorser_sig_verified
      then (s, err ReputationError.endorsement_not_verified)
      else (after, map_ok (λ _. tt) result)

  unfoldable pub record_activity : ReputationSystem F → String → ReputationSystem F
  record_activity s pubkey =
      let n = add_u64 (lookup_or 0 pubkey s.activity) 1 in
      let counted = record s { activity = insert pubkey n s.activity } in
      if leb 10 n && lt (score s pubkey) trusted_threshold
      then record counted {
        scores =
            insert pubkey (float.min (add (score s pubkey) (hundredths 2)) trusted_threshold)
              s.scores;
      }
      else counted

  unfoldable pub penalize : ReputationSystem F → String → F → ReputationSystem F
  penalize s pubkey amount = record s {
    scores = insert pubkey (float.max (sub (score s pubkey) amount) (hundredths 0)) s.scores;
  }

  unfoldable pub stored_abuse_level : ReputationSystem F → String → F
  stored_abuse_level s author = elim (lookup author s.abuse) [
    | none ↦ hundredths 0
    | some r ↦ r.score
  ]

  unfoldable pub abuse_level : ReputationSystem F → String → ℕ → F
  abuse_level s author now = elim (lookup author s.abuse) [
    | none ↦ hundredths 0
    | some r ↦ level_at r now
  ]

  unfoldable pub required_pow_difficulty_inner : ReputationSystem F → String → ℕ
  required_pow_difficulty_inner s pubkey =
      let t = div (score s pubkey) trusted_threshold in
      let diff =
        sub (of_u64 max_pow_difficulty)
          (mul t (of_u64 (max_pow_difficulty - base_pow_difficulty))) in
      if le trusted_threshold (score s pubkey)
      then 0
      else if le (score s pubkey) unknown_trust
      then max_pow_difficulty
      else clamp_u8 (round_u8 diff) base_pow_difficulty max_pow_difficulty

  unfoldable pub required_pow_difficulty : ReputationSystem F → String → ℕ
  required_pow_difficulty s pubkey =
      if le (hundredths 15) (stored_abuse_level s pubkey)
      then max_pow_difficulty
      else required_pow_difficulty_inner s pubkey

  unfoldable pub required_pow_difficulty_at : ReputationSystem F → String → ℕ → ℕ
  required_pow_difficulty_at s pubkey now =
      if le (hundredths 15) (abuse_level s pubkey now)
      then max_pow_difficulty
      else required_pow_difficulty_inner s pubkey

  unfoldable pub record_violation :
      ReputationSystem F → String → AbuseReason → ℕ → ReputationSystem F × F
  record_violation s author reason now =
      let r = record_abuse (lookup_or no_abuse author s.abuse) (penalty reason) now in
      (record s { abuse = insert author r s.abuse }, r.score)

  unfoldable pub fold_abuse_decay : ReputationSystem F → String → ℕ → ReputationSystem F × F
  fold_abuse_decay s author now = elim (lookup author s.abuse) [
    | none ↦ (s, hundredths 0)
    | some r ↦ (
      record s {
        abuse = insert author (record { score = level_at r now; updated_at = now }) s.abuse;
      },
      level_at r now,
    )
  ]

  unfoldable pub action_for : ReputationSystem F → String → ℕ → TrustAction
  action_for s author now = action_for_abuse (abuse_level s author now)

  unfoldable pub effective_score : ReputationSystem F → String → ℕ → F
  effective_score s author now =
      clamp (sub (score s author) (abuse_level s author now)) (hundredths 0) (hundredths 100)

  unfoldable pub apply_remote_abuse_report :
      ReputationSystem F → AbuseReport → Bool → ReputationSystem F × Result ReputationError F
  apply_remote_abuse_report s report reporter_sig_verified =
      let key : ReportKey = (report.reporter, report.offender, report.reason) in
      let r =
        record_abuse (lookup_or no_abuse report.offender s.abuse) (hundredths 10)
          report.timestamp in
      let (keys, queue) =
        forget (suc (length s.abuse_report_order))
          (if has_key key s.abuse_report_keys
            then s.abuse_report_keys
            else push_back s.abuse_report_keys key)
          (push_back s.abuse_report_order key) in
      if not reporter_sig_verified
      then (s, err ReputationError.report_not_verified)
      else if str_eq report.reporter report.offender
      then (s, err ReputationError.self_report)
      else elim (from_code report.reason) [
        | none ↦ (s, err ReputationError.unknown_reason)
        | some _ ↦
            if lt (score s report.reporter) endorsement_threshold
            then (s, err ReputationError.reporter_not_trusted)
            else if has_key key s.abuse_report_keys
            then (s, err ReputationError.duplicate_report)
            else (
              record s {
                abuse = insert report.offender r s.abuse;
                abuse_report_keys = keys;
                abuse_report_order = queue;
              },
              ok r.score,
            )
      ]

  unfoldable pub abuse_report_count : ReputationSystem F → ℕ
  abuse_report_count s = length s.abuse_report_keys

  unfoldable pub known_count : ReputationSystem F → ℕ
  known_count s = length s.scores
