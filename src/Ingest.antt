-- ===== src/Ingest.antt =====
-- What a node of core/src/node/mod.rs makes of the content of an event that comes from a peer: the
-- checks of social payloads and the errors; the handlers and the dispatcher are in Receive. The
-- crates base64 and serde_json are parameters. The clock does not move during a call.
pub mod Receive
pub mod Kept
pub mod Invariant
pub mod Forged
mod Examples
use Prim.Native.Char.{code}
use onde_resilience.Prelude.{
  ℕ, String, Bool, true, false, ◌&&◌, ◌||◌, not, Option, none, some, List, [], ◌∷◌, if◌then◌else◌,
  ltb, ◌==◌, length, push_back, str_eq,
}
use onde_resilience.Prelude.Sets.{SetOrder}
use onde_resilience.Prelude.Result.{Result, ok, err, and_then}
use onde_resilience.Prelude.Utf8.{as_bytes}
use onde_resilience.Metrics.{record_ingested, record_rejected}
use onde_resilience.Protocol.{OndeMessageType, MeshEvent}
use onde_resilience.Protocol.Validate.{
  Crates, ValidationError, signature_valid, is_alert, char_count,
}
use onde_resilience.Tiers.{MessageTier, TieredMessage, Deflate, store, find_id}
use onde_resilience.Spam.{AbuseReason, MapOrder}
use onde_resilience.Reputation.{
  Float, ReputationError, Endorsement, AbuseReport, apply_remote_endorsement,
  apply_remote_abuse_report, record_violation,
}
use onde_resilience.Reputation.Gate.{validate_with_reputation, add_event_with_reputation}
use onde_resilience.Social.{
  SocialPost, SocialComment, SocialError, is_blank, refuse_if, validate_post, validate_comment,
  check_social_payload_size, validate_social_target_ref, validate_social_pubkey_ref,
  max_private_message_body, max_moderation_reason,
}
use onde_resilience.Node.{
  ℤ, pos, negsuc, SocialWrite, Node, AdmissionDecision, RejectReason, note_peer_traffic,
  admit_peer_event,
}

-- `payload[field]` of a JSON value, as each type.
pub record Value : Type 0 where
  pub as_str : String → Option String
  pub as_i64 : String → Option ℤ
  pub as_bool : String → Option Bool

-- The decoders: base64 and JSON for reputation, JSON for social events; an error is its text.
pub record Decoders : Type 0 where
  pub endorsement : String → Result String Endorsement
  pub abuse_report : String → Result String AbuseReport
  pub post : String → Result String SocialPost
  pub comment : String → Result String SocialComment
  pub value : String → Result String Value

pub data HandlerError : Type 0 where
  too_large signer_mismatch unverified : HandlerError
  undecoded unknown_table : String → HandlerError
  bad_direction empty_text : HandlerError
  text_length : ℕ → HandlerError
  invalid : ValidationError → HandlerError
  social : SocialError → HandlerError
  reputation : ReputationError → HandlerError

pub data SocialEventOutcome : Type 0 where
  ignored vote_applied follow_applied message_stored moderation_applied : SocialEventOutcome
  post_stored comment_stored : String → SocialEventOutcome

-- `Ignored`, `Applied` or `Rejected` of the two handlers of reputation.
pub data Handled {ℓ} (A : Type ℓ) : Type ℓ where
  ignored : Handled A
  applied : A → Handled A
  rejected : HandlerError → Handled A

pub data PeerEventOutcome (F : Type 0) : Type 0 where
  refused : RejectReason F → PeerEventOutcome F
  invalid_event : HandlerError → PeerEventOutcome F
  alert_stored alert_not_stored endorsement_applied other : PeerEventOutcome F
  endorsement_rejected abuse_report_rejected : HandlerError → PeerEventOutcome F
  abuse_report_applied : F → PeerEventOutcome F
  social_event : SocialEventOutcome → PeerEventOutcome F

-- `text.starts_with(part)` and `text.contains(part)`
unfoldable pub starts_with : String → String → Bool
starts_with s String.[] = true
starts_with String.[] (String.◌∷◌ d part) = false
starts_with (String.◌∷◌ c s) (String.◌∷◌ d part) = code c == code d && starts_with s part

unfoldable pub text_contains : String → String → Bool
text_contains String.[] part = starts_with String.[] part
text_contains (String.◌∷◌ c s) part = starts_with (String.◌∷◌ c s) part || text_contains s part

-- `e.contains("PoW")` of the text of an error.
unfoldable pub mentions_pow : HandlerError → Bool
mentions_pow (HandlerError.invalid (ValidationError.pow_below_minimum d m)) = true
mentions_pow (HandlerError.invalid ValidationError.invalid_pow) = true
mentions_pow (HandlerError.undecoded text) = text_contains text "PoW"
mentions_pow (HandlerError.unknown_table text) = text_contains text "PoW"
mentions_pow _ = false

-- The reason for which an author is penalized.
unfoldable pub reason_of : HandlerError → AbuseReason
reason_of e = if mentions_pow e then AbuseReason.insufficient_pow else AbuseReason.invalid_event

-- The test for `"Duplicate"`, `"not trusted"` and `"cannot endorse itself"`.
unfoldable pub political_noise : HandlerError → Bool
political_noise (HandlerError.reputation ReputationError.duplicate_endorsement) = true
political_noise (HandlerError.reputation ReputationError.endorser_not_trusted) = true
political_noise (HandlerError.reputation ReputationError.self_endorsement) = true
political_noise (HandlerError.undecoded text) =
    text_contains text "Duplicate"
    || (text_contains text "not trusted" || text_contains text "cannot endorse itself")
political_noise _ = false

abbrev pub as_invalid {ℓ} : {A : Type ℓ} → Result ValidationError A → Result HandlerError A
as_invalid (ok a) = ok a
as_invalid (err e) = err (HandlerError.invalid e)

abbrev pub as_social {ℓ} : {A : Type ℓ} → Result SocialError A → Result HandlerError A
as_social (ok a) = ok a
as_social (err e) = err (HandlerError.social e)

abbrev pub as_text {ℓ} : {A : Type ℓ} → Result String A → Result HandlerError A
as_text (ok a) = ok a
as_text (err e) = err (HandlerError.undecoded e)

abbrev pub or_else {ℓ} : {A : Type ℓ} → Option A → A → A
or_else none a = a
or_else (some b) a = b

abbrev pub guard : Bool → HandlerError → Result HandlerError (Unit {0})
guard true e = err e
guard false e = ok tt

-- `(-1..=1).contains(&direction)`
unfoldable pub is_direction : ℤ → Bool
is_direction (pos n) = ltb n 2
is_direction (negsuc n) = n == 0

-- The checks of a social payload: what to write to the cache, and the outcome.
abbrev pub SocialPlan : Type 0
SocialPlan = List SocialWrite × SocialEventOutcome

-- The writes of the cache, one after the other.
unfoldable pub cache_write :
    Option (List SocialWrite) → List SocialWrite → Option (List SocialWrite)
cache_write none writes = none
cache_write (some log) [] = some log
cache_write (some log) (w ∷ writes) = cache_write (some (push_back log w)) writes

module _ (crates : Crates) (decoders : Decoders) where
  open decoders use {post, comment, value}

  unfoldable pub plan_post : MeshEvent → Result HandlerError SocialPlan
  plan_post e = and_then (as_social (check_social_payload_size e.content 524288)) λ _.
      and_then (as_text (post e.content)) λ p.
        and_then (as_social (validate_post crates.hex p)) λ _. ok (
          SocialWrite.ensure_user p.author_pubkey ∷ SocialWrite.insert_post p ∷ [],
          SocialEventOutcome.post_stored p.id,
        )

  unfoldable pub plan_comment : MeshEvent → Result HandlerError SocialPlan
  plan_comment e = and_then (as_social (check_social_payload_size e.content 524288)) λ _.
      and_then (as_text (comment e.content)) λ c.
        and_then (as_social (validate_comment crates.hex c)) λ _. ok (
          SocialWrite.ensure_user c.author_pubkey ∷ SocialWrite.insert_comment c ∷ [],
          SocialEventOutcome.comment_stored c.id,
        )

  unfoldable pub plan_vote : MeshEvent → Result HandlerError SocialPlan
  plan_vote e = and_then (as_social (check_social_payload_size e.content 4096)) λ _.
      and_then (as_text (value e.content)) λ v.
        let target = or_else (v.as_str "target_id") "" in
        let direction = or_else (v.as_i64 "direction") (pos 1) in
        let table = or_else (v.as_str "target_table") "posts" in
        and_then (as_social (validate_social_target_ref target)) λ _.
          and_then (guard (not (is_direction direction)) HandlerError.bad_direction) λ _.
            and_then
              (guard (not (str_eq table "posts" || str_eq table "comments"))
                (HandlerError.unknown_table table))
              λ _. ok (
                SocialWrite.vote e.pubkey target direction table ∷ [],
                SocialEventOutcome.vote_applied,
              )

  unfoldable pub plan_follow : MeshEvent → Result HandlerError SocialPlan
  plan_follow e = and_then (as_social (check_social_payload_size e.content 4096)) λ _.
      and_then (as_text (value e.content)) λ v.
        let followed = or_else (v.as_str "followed") "" in
        let unfollow = or_else (v.as_bool "unfollow") false in
        and_then (as_social (validate_social_pubkey_ref followed)) λ _. ok (
          (if unfollow
                then SocialWrite.unfollow e.pubkey followed
                else SocialWrite.follow e.pubkey followed)
              ∷ [],
          SocialEventOutcome.follow_applied,
        )

  -- `fresh_id` is `generate_social_id()`.
  unfoldable pub plan_message : String → MeshEvent → Result HandlerError SocialPlan
  plan_message fresh_id e = and_then (as_social (check_social_payload_size e.content 16384)) λ _.
      and_then (as_text (value e.content)) λ v.
        let recipient = or_else (v.as_str "recipient") "" in
        let body = or_else (v.as_str "body") "" in
        and_then (as_social (validate_social_pubkey_ref recipient)) λ _.
          and_then (guard (is_blank body) HandlerError.empty_text) λ _.
            and_then
              (guard (ltb max_private_message_body (char_count body))
                (HandlerError.text_length max_private_message_body))
              λ _. ok (
                SocialWrite.insert_message fresh_id e.pubkey recipient body ∷ [],
                SocialEventOutcome.message_stored,
              )

  unfoldable pub plan_moderation : String → MeshEvent → Result HandlerError SocialPlan
  plan_moderation fresh_id e = and_then (as_social (check_social_payload_size e.content 8192)) λ _.
      and_then (as_text (value e.content)) λ v.
        let target = or_else (v.as_str "target_id") "" in
        let reason = or_else (v.as_str "reason") "" in
        and_then (as_social (validate_social_target_ref target)) λ _.
          and_then (guard (is_blank reason) HandlerError.empty_text) λ _.
            and_then
              (guard (ltb max_moderation_reason (char_count reason))
                (HandlerError.text_length max_moderation_reason))
              λ _. ok (
                SocialWrite.submit_report fresh_id e.pubkey target reason ∷ [],
                SocialEventOutcome.moderation_applied,
              )
