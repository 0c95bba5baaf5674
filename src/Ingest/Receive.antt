-- ===== src/Ingest/Receive.antt =====
-- The handlers of core/src/node/mod.rs behind the gate, and the dispatcher `receive_peer_event`.
-- Results that the code drops are dropped here too.
use onde_resilience.Prelude.{
  ℕ, String, Bool, true, false, not, Option, none, some, List, if◌then◌else◌, ltb, length,
  push_back, str_eq,
}
use onde_resilience.Prelude.Sets.{SetOrder}
use onde_resilience.Prelude.Result.{Result, ok, err, and_then}
use onde_resilience.Prelude.Utf8.{as_bytes}
use onde_resilience.Metrics.{record_ingested, record_rejected}
use onde_resilience.Protocol.{OndeMessageType, MeshEvent}
use onde_resilience.Protocol.Validate.{Crates, signature_valid, is_alert}
use onde_resilience.Tiers.{MessageTier, Deflate, store, find_id}
use onde_resilience.Spam.{AbuseReason, MapOrder}
use onde_resilience.Reputation.{
  Float, apply_remote_endorsement, apply_remote_abuse_report, record_violation,
}
use onde_resilience.Reputation.Gate.{validate_with_reputation, add_event_with_reputation}
use onde_resilience.Node.{Node, AdmissionDecision, note_peer_traffic, admit_peer_event}
use onde_resilience.Ingest.{
  Decoders, HandlerError, SocialEventOutcome, Handled, PeerEventOutcome, SocialPlan, as_text,
  as_invalid, guard, or_else, reason_of, political_noise, cache_write, plan_post, plan_comment,
  plan_vote, plan_follow, plan_message, plan_moderation,
}

unfoldable pub is_endorsement : OndeMessageType → Bool
is_endorsement OndeMessageType.endorsement = true
is_endorsement _ = false

unfoldable pub is_abuse_report : OndeMessageType → Bool
is_abuse_report OndeMessageType.abuse_report = true
is_abuse_report _ = false

-- The arms of the dispatcher's match, and the kinds of each.
pub data Arm : Type 0 where
  alerts endorsements abuse_reports social_events others : Arm

unfoldable pub arm_of : OndeMessageType → Arm
arm_of OndeMessageType.alert = Arm.alerts
arm_of OndeMessageType.endorsement = Arm.endorsements
arm_of OndeMessageType.abuse_report = Arm.abuse_reports
arm_of OndeMessageType.social_post = Arm.social_events
arm_of OndeMessageType.social_comment = Arm.social_events
arm_of OndeMessageType.social_vote = Arm.social_events
arm_of OndeMessageType.social_follow = Arm.social_events
arm_of OndeMessageType.social_message = Arm.social_events
arm_of OndeMessageType.social_moderation = Arm.social_events
arm_of _ = Arm.others

module _ {F : Type 0} (float : Float F) (deflate : Deflate) (map_order : MapOrder)
    (set_order : SetOrder) (crates : Crates) (decoders : Decoders) where
  unfoldable pub persist_message : Node F → String → MessageTier → List ℕ → ℕ → String → Node F
  persist_message n id tier payload created_at geohash =
      let msg = or_else (find_id id n.message_store.messages) (record {
        id = id;
        tier = tier;
        created_at = created_at;
        payload = payload;
        original_size = length payload;
        geohash = geohash;
      }) in
      elim n.persistence [
        | none ↦ n
        | some stored ↦ record n { persistence = some (push_back stored msg) }
      ]

  -- The relay in the gossip, at the time `now`.
  unfoldable pub relay : ℕ → Node F → MeshEvent → Node F × Result HandlerError Bool
  relay now n e =
      let (gossip, added) =
        add_event_with_reputation float crates n.reputation now set_order n.gossip e in
      (record n { gossip = gossip }, as_invalid added)

  unfoldable pub store_alert : Node F → MeshEvent → Node F × Bool
  store_alert n e =
      let (messages, stored) =
        store deflate n.message_store e.id MessageTier.critical (as_bytes e.content) e.created_at
          n.my_geohash in
      let kept = record n { message_store = messages } in
      if stored
      then (
        persist_message kept e.id MessageTier.critical (as_bytes e.content) e.created_at
            n.my_geohash,
        true,
      )
      else (kept, false)

  unfoldable pub handle_incoming_alert : ℕ → Node F → MeshEvent → Node F × Result HandlerError Bool
  handle_incoming_alert now n e =
      let (relayed, added) = relay now n e in
      if not (is_alert e.kind)
      then (n, ok false)
      else elim (validate_with_reputation float crates n.reputation now e) [
        | err why ↦ (n, err (HandlerError.invalid why))
        | ok _ ↦ elim added [
          | err why ↦ (relayed, err why)
          | ok _ ↦ let (after, stored) = store_alert relayed e in (after, ok stored)
        ]
      ]

  -- The checks that an endorsement and an abuse report go through: the size, the decoding, the
  -- announced author and the signature.
  unfoldable pub checked :
      {A : Type 0} → (String → Result String A) → (A → String) → MeshEvent → Result HandlerError A
  checked decode author e =
      and_then (guard (ltb 1024 (length (as_bytes e.content))) HandlerError.too_large) λ _.
        and_then (as_text (decode e.content)) λ a.
          and_then (guard (not (str_eq (author a) e.pubkey)) HandlerError.signer_mismatch)
            λ _. and_then (guard (not (signature_valid crates e)) HandlerError.unverified) λ _. ok a

  unfoldable pub handle_incoming_endorsement : ℕ → Node F → MeshEvent → Node F × Handled (Unit {0})
  handle_incoming_endorsement now n e =
      if not (is_endorsement e.kind)
      then (n, Handled.ignored)
      else elim (checked decoders.endorsement (λ a. a.endorser) e) [
        | err why ↦ (n, Handled.rejected why)
        | ok a ↦
            let (reputation, result) = apply_remote_endorsement float n.reputation a true in
            let after = record n { reputation = reputation } in
            elim result [
              | err why ↦ (after, Handled.rejected (HandlerError.reputation why))
              | ok _ ↦ ((relay now after e).0, Handled.applied tt)
            ]
      ]

  unfoldable pub handle_incoming_abuse_report : ℕ → Node F → MeshEvent → Node F × Handled F
  handle_incoming_abuse_report now n e =
      if not (is_abuse_report e.kind)
      then (n, Handled.ignored)
      else elim (checked decoders.abuse_report (λ a. a.reporter) e) [
        | err why ↦ (n, Handled.rejected why)
        | ok a ↦
            let (reputation, result) = apply_remote_abuse_report float n.reputation a true in
            let after = record n { reputation = reputation } in
            elim result [
              | err why ↦ (after, Handled.rejected (HandlerError.reputation why))
              | ok level ↦ ((relay now after e).0, Handled.applied level)
            ]
      ]

  -- What the kind of an event asks of the cache, if it is a social kind.
  unfoldable pub plan_social : String → MeshEvent → Option (Result HandlerError SocialPlan)
  plan_social fresh_id e = elim e.kind [
    | OndeMessageType.social_post ↦ some (plan_post crates decoders e)
    | OndeMessageType.social_comment ↦ some (plan_comment crates decoders e)
    | OndeMessageType.social_vote ↦ some (plan_vote crates decoders e)
    | OndeMessageType.social_follow ↦ some (plan_follow crates decoders e)
    | OndeMessageType.social_message ↦ some (plan_message crates decoders fresh_id e)
    | OndeMessageType.social_moderation ↦ some (plan_moderation crates decoders fresh_id e)
    | _ ↦ none
  ]

  unfoldable pub handle_incoming_social :
      ℕ → String → Node F → MeshEvent → Node F × Result HandlerError SocialEventOutcome
  handle_incoming_social now fresh_id n e =
      let (relayed, added) = relay now n e in
      elim (plan_social fresh_id e) [
        | none ↦ (n, ok SocialEventOutcome.ignored)
        | some (err why) ↦ (n, err why)
        | some (ok (writes, outcome)) ↦
            elim (validate_with_reputation float crates n.reputation now e) [
              | err why ↦ (n, err (HandlerError.invalid why))
              | ok _ ↦ elim added [
                | err why ↦ (relayed, err why)
                | ok _ ↦ (
                  record relayed { social_store = cache_write relayed.social_store writes },
                  ok outcome,
                )
              ]
            ]
      ]

  unfoldable pub penalize : ℕ → Node F → MeshEvent → AbuseReason → Node F
  penalize now n e reason = record n {
    reputation = (record_violation float n.reputation e.pubkey reason now).0;
  }

  -- The arm of a kind whose handler says what a violation was.
  unfoldable pub or_penalize :
      {A : Type 0}
      → ℕ
      → MeshEvent
      → (A → PeerEventOutcome F)
      → Node F × Result HandlerError A
      → Node F × PeerEventOutcome F
  or_penalize now e outcome (after, ok a) = (after, outcome a)
  or_penalize now e outcome (after, err why) =
      (penalize now after e (reason_of why), PeerEventOutcome.invalid_event why)

  unfoldable pub endorsement_arm :
      ℕ → MeshEvent → Node F × Handled (Unit {0}) → Node F × PeerEventOutcome F
  endorsement_arm now e (after, Handled.applied _) = (after, PeerEventOutcome.endorsement_applied)
  endorsement_arm now e (after, Handled.ignored) = (after, PeerEventOutcome.other)
  endorsement_arm now e (after, Handled.rejected why) = (
    if political_noise why then after else penalize now after e AbuseReason.invalid_event,
    PeerEventOutcome.endorsement_rejected why,
  )

  unfoldable pub abuse_report_arm : Node F × Handled F → Node F × PeerEventOutcome F
  abuse_report_arm (after, Handled.applied level) =
      (after, PeerEventOutcome.abuse_report_applied level)
  abuse_report_arm (after, Handled.ignored) = (after, PeerEventOutcome.other)
  abuse_report_arm (after, Handled.rejected why) =
      (after, PeerEventOutcome.abuse_report_rejected why)

  -- `match &event.kind` of the dispatcher.
  unfoldable pub dispatch : ℕ → String → Node F → MeshEvent → Arm → Node F × PeerEventOutcome F
  dispatch now fresh_id n e Arm.alerts =
      or_penalize now e
        (λ stored.
          if stored then PeerEventOutcome.alert_stored else PeerEventOutcome.alert_not_stored)
        (handle_incoming_alert now n e)
  dispatch now fresh_id n e Arm.endorsements =
      endorsement_arm now e (handle_incoming_endorsement now n e)
  dispatch now fresh_id n e Arm.abuse_reports =
      abuse_report_arm (handle_incoming_abuse_report now n e)
  dispatch now fresh_id n e Arm.social_events =
      or_penalize now e PeerEventOutcome.social_event (handle_incoming_social now fresh_id n e)
  dispatch now fresh_id n e Arm.others = (n, PeerEventOutcome.other)

  -- The presence of the author of an admitted event.
  unfoldable pub note_author : ℕ → Node F → MeshEvent → Node F
  note_author now n e = if str_eq e.pubkey n.pubkey then n else note_peer_traffic e.pubkey now n

  unfoldable pub receive_peer_event_inner :
      ℕ → String → Node F → MeshEvent → Node F × PeerEventOutcome F
  receive_peer_event_inner now fresh_id n e =
      let (gated, decision) = admit_peer_event float map_order crates now n e in
      elim decision [
        | AdmissionDecision.rejected reason ↦ (gated, PeerEventOutcome.refused reason)
        | AdmissionDecision.admitted ↦
            dispatch now fresh_id (note_author now gated e) e (arm_of e.kind)
      ]

  -- The counter that an outcome moves.
  unfoldable pub count_outcome : PeerEventOutcome F → Node F → Node F
  count_outcome PeerEventOutcome.alert_stored n = record n { metrics = record_ingested n.metrics }
  count_outcome PeerEventOutcome.endorsement_applied n = record n {
    metrics = record_ingested n.metrics;
  }
  count_outcome (PeerEventOutcome.abuse_report_applied _) n = record n {
    metrics = record_ingested n.metrics;
  }
  count_outcome (PeerEventOutcome.social_event SocialEventOutcome.ignored) n = n
  count_outcome (PeerEventOutcome.social_event _) n = record n {
    metrics = record_ingested n.metrics;
  }
  count_outcome (PeerEventOutcome.refused _) n = record n { metrics = record_rejected n.metrics }
  count_outcome (PeerEventOutcome.invalid_event _) n = record n {
    metrics = record_rejected n.metrics;
  }
  count_outcome (PeerEventOutcome.endorsement_rejected _) n = record n {
    metrics = record_rejected n.metrics;
  }
  count_outcome (PeerEventOutcome.abuse_report_rejected _) n = record n {
    metrics = record_rejected n.metrics;
  }
  count_outcome _ n = n

  unfoldable pub receive_peer_event : ℕ → String → Node F → MeshEvent → Node F × PeerEventOutcome F
  receive_peer_event now fresh_id n e =
      let (after, outcome) = receive_peer_event_inner now fresh_id n e in
      (count_outcome outcome after, outcome)
