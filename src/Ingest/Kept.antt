-- ===== src/Ingest/Kept.antt =====
-- What `receive_peer_event` of core/src/node/mod.rs keeps of the components that it drives.
use onde_resilience.Prelude.{
  ℕ, ◌≤◌, ◌<◌, String, true, List, inl, inr, arith, length, Bool-cases, Option-cases,
}
use onde_resilience.Prelude.Sets.{SetOrder}
use onde_resilience.Prelude.Result.{Result, ok, err, Result-cases}
use onde_resilience.Prelude.Utf8.{as_bytes}
use onde_resilience.Protocol.{MeshEvent}
use onde_resilience.Protocol.Validate.{Crates, is_alert}
use onde_resilience.Gossip.Invariant.{IsGossip}
use onde_resilience.Gossip.Reached.{insert_new-IsGossip}
use onde_resilience.Tiers.{MessageTier, Deflate}
use onde_resilience.Tiers.Budget.{IsStore, store_lem, max_bytes-small}
use onde_resilience.Spam.{AbuseReason, MapOrder, SpamGuard}
use onde_resilience.Spam.Window.{later-IsWindow}
use onde_resilience.Spam.Admission.{IsGuard}
use onde_resilience.Reputation.{Float, apply_remote_endorsement, apply_remote_abuse_report}
use onde_resilience.Reputation.Gate.{validate_with_reputation, add_event_with_reputation}
use onde_resilience.Reputation.Sound.{
  IsSound, record_violation-IsSound, apply_remote_endorsement-IsSound,
  apply_remote_abuse_report-IsSound,
}
use onde_resilience.Node.{Node}
use onde_resilience.Ingest.{
  Decoders, HandlerError, Handled, PeerEventOutcome, reason_of, political_noise,
}
use onde_resilience.Ingest.Receive.{
  Arm, is_endorsement, is_abuse_report, persist_message, relay, store_alert, handle_incoming_alert,
  checked, handle_incoming_endorsement, handle_incoming_abuse_report, plan_social,
  handle_incoming_social, penalize, or_penalize, endorsement_arm, abuse_report_arm, dispatch,
}

-- The guard, the gossip, the reputation and the store are each in their bounds.
abbrev pub IsKept : {F : Type 0} → ℕ → Node F → Type 0
IsKept clock n =
    IsGuard 48 clock n.spam_guard
    × IsGossip n.gossip
    × IsSound n.reputation
    × IsStore n.message_store

pub later-IsGuard :
    (cap clock now : ℕ) (g : SpamGuard) → clock ≤ now → IsGuard cap clock g → IsGuard cap now g
later-IsGuard cap clock now g later good = record {
  authors_distinct = good.authors_distinct;
  tracked_bounded = good.tracked_bounded;
  windows = λ author. later-IsWindow clock now _ later (good.windows author);
  windows_bounded = good.windows_bounded;
}

module _ {F : Type 0} (float : Float F) (deflate : Deflate) (map_order : MapOrder)
    (set_order : SetOrder) (crates : Crates) (decoders : Decoders) (now : ℕ) (fresh_id : String)
    (e : MeshEvent) where
  relay-IsKept :
      (n : Node F)
      → IsKept now n
      → IsKept now (relay float deflate map_order set_order crates decoders now n e).0
  unfolding relay add_event_with_reputation
  relay-IsKept n (guarded, gossiping, sound, stored) =
      elim (Result-cases (validate_with_reputation float crates n.reputation now e)) [
        | inl (why, bad) ↦ rw (bad, add_event_with_reputation) (guarded, gossiping, sound, stored)
        | inr (_, good) ↦
            rw (good, add_event_with_reputation)
              (guarded, insert_new-IsGossip set_order crates n.gossip e gossiping, sound, stored)
      ]

  persist_message-IsKept :
      (n : Node F) (id : String) (tier : MessageTier) (payload : List ℕ) (created_at : ℕ)
      (geohash : String)
      → IsKept now n
      → IsKept now (
          persist_message float deflate map_order set_order crates decoders n id tier payload
            created_at geohash)
  unfolding persist_message
  persist_message-IsKept n id tier payload created_at geohash good =
      elim (Option-cases n.persistence) [
        | inl absent ↦ rw (absent, persist_message) good
        | inr (log, held) ↦ rw (held, persist_message) good
      ]

  -- The content is shorter than half of the words of 64 bits.
  store_alert-IsKept :
      (n : Node F)
      → length (as_bytes e.content) < 9223372036854775808
      → IsKept now n
      → IsKept now (store_alert float deflate map_order set_order crates decoders n e).0
  unfolding store_alert
  store_alert-IsKept n short (guarded, gossiping, sound, stored) =
      elim (store_lem deflate n.message_store e.id MessageTier.critical (as_bytes e.content)
        e.created_at n.my_geohash stored
        (omega (arith, stored.in_budget, max_bytes-small n.message_store.policy, short))) [
          | inl (same, _) ↦ rw same (guarded, gossiping, sound, stored)
          | inr (kept, _, _, _, after) ↦ rw kept (
              persist_message-IsKept _ e.id MessageTier.critical (as_bytes e.content) e.created_at
                n.my_geohash (guarded, gossiping, sound, after.stored_good))
        ]

  handle_incoming_alert-IsKept :
      (n : Node F)
      → length (as_bytes e.content) < 9223372036854775808
      → IsKept now n
      → IsKept now
          (handle_incoming_alert float deflate map_order set_order crates decoders now n e).0
  unfolding handle_incoming_alert
  handle_incoming_alert-IsKept n short good = elim (Bool-cases (is_alert e.kind)) [
    | inr apart ↦ rw apart good
    | inl here ↦ elim (Result-cases (validate_with_reputation float crates n.reputation now e)) [
      | inl (why, bad) ↦ rw (here, bad) good
      | inr (_, fine) ↦
          elim (Result-cases (relay float deflate map_order set_order crates decoders now n e).1) [
            | inl (why, bad) ↦ rw (here, fine, bad) (relay-IsKept n good)
            | inr (_, added) ↦
                rw (here, fine, added) (store_alert-IsKept _ short (relay-IsKept n good))
          ]
    ]
  ]

  handle_incoming_social-IsKept :
      (n : Node F)
      → IsKept now n
      → IsKept now
          (handle_incoming_social float deflate map_order set_order crates decoders now fresh_id n
            e).0
  unfolding handle_incoming_social
  handle_incoming_social-IsKept n good =
      elim (Option-cases
        (plan_social float deflate map_order set_order crates decoders fresh_id e)) [
          | inl other ↦ rw (other, handle_incoming_social) good
          | inr (plan, social) ↦ elim (Result-cases plan) [
            | inl (why, bad) ↦ rw (social, bad, handle_incoming_social) good
            | inr ((writes, outcome), planned) ↦
                elim (Result-cases (validate_with_reputation float crates n.reputation now e)) [
                  | inl (why, bad) ↦ rw (social, planned, handle_incoming_social, bad) good
                  | inr (_, fine) ↦
                      elim (Result-cases
                        (relay float deflate map_order set_order crates decoders now n e).1) [
                          | inl (why, bad) ↦
                              rw (social, planned, handle_incoming_social, fine, bad)
                                (relay-IsKept n good)
                          | inr (_, added) ↦
                              rw (social, planned, handle_incoming_social, fine, added)
                                (relay-IsKept n good)
                        ]
                ]
          ]
        ]

  handle_incoming_endorsement-IsKept :
      (n : Node F)
      → IsKept now n
      → IsKept now
          (handle_incoming_endorsement float deflate map_order set_order crates decoders now n e).0
  unfolding handle_incoming_endorsement
  handle_incoming_endorsement-IsKept n (guarded, gossiping, sound, stored) =
      elim (Bool-cases (is_endorsement e.kind)) [
        | inr apart ↦ rw apart (guarded, gossiping, sound, stored)
        | inl here ↦
            elim (Result-cases (
              checked float deflate map_order set_order crates decoders decoders.endorsement
                (λ a. a.endorser) e)) [
                  | inl (why, bad) ↦ rw (here, bad) (guarded, gossiping, sound, stored)
                  | inr (a, good) ↦
                      let after = apply_remote_endorsement-IsSound float n.reputation a sound in
                      elim (Result-cases (apply_remote_endorsement float n.reputation a true).1) [
                        | inl (why, bad) ↦ rw (here, good, bad) (guarded, gossiping, after, stored)
                        | inr (_, taken) ↦
                            rw (here, good, taken)
                              (relay-IsKept _ (guarded, gossiping, after, stored))
                      ]
                ]
      ]

  handle_incoming_abuse_report-IsKept :
      (n : Node F)
      → IsKept now n
      → IsKept now
          (handle_incoming_abuse_report float deflate map_order set_order crates decoders now n e).0
  unfolding handle_incoming_abuse_report
  handle_incoming_abuse_report-IsKept n (guarded, gossiping, sound, stored) =
      elim (Bool-cases (is_abuse_report e.kind)) [
        | inr apart ↦ rw apart (guarded, gossiping, sound, stored)
        | inl here ↦
            elim (Result-cases (
              checked float deflate map_order set_order crates decoders decoders.abuse_report
                (λ a. a.reporter) e)) [
                  | inl (why, bad) ↦ rw (here, bad) (guarded, gossiping, sound, stored)
                  | inr (a, good) ↦
                      let after = apply_remote_abuse_report-IsSound float n.reputation a sound in
                      elim (Result-cases (apply_remote_abuse_report float n.reputation a true).1) [
                        | inl (why, bad) ↦ rw (here, good, bad) (guarded, gossiping, after, stored)
                        | inr (level, taken) ↦
                            rw (here, good, taken)
                              (relay-IsKept _ (guarded, gossiping, after, stored))
                      ]
                ]
      ]

  penalize-IsKept :
      (n : Node F) (reason : AbuseReason)
      → IsKept now n
      → IsKept now (penalize float deflate map_order set_order crates decoders now n e reason)
  unfolding penalize
  penalize-IsKept n reason (guarded, gossiping, sound, stored) = (
    guarded,
    gossiping,
    record_violation-IsSound float n.reputation e.pubkey reason now sound,
    stored,
  )

  or_penalize-IsKept :
      {A : Type 0} (outcome : A → PeerEventOutcome F) (after : Node F) (r : Result HandlerError A)
      → IsKept now after
      → IsKept now
          (or_penalize float deflate map_order set_order crates decoders now e outcome (after, r)).0
  unfolding or_penalize
  or_penalize-IsKept outcome after (ok a) good = good
  or_penalize-IsKept outcome after (err why) good = penalize-IsKept after (reason_of why) good

  endorsement_arm-IsKept :
      (after : Node F) (r : Handled (Unit {0}))
      → IsKept now after
      → IsKept now
          (endorsement_arm float deflate map_order set_order crates decoders now e (after, r)).0
  unfolding endorsement_arm
  endorsement_arm-IsKept after (Handled.applied _) good = good
  endorsement_arm-IsKept after Handled.ignored good = good
  endorsement_arm-IsKept after (Handled.rejected why) good =
      elim (Bool-cases (political_noise why)) [
        | inl noise ↦ rw noise good
        | inr fault ↦ rw fault (penalize-IsKept after AbuseReason.invalid_event good)
      ]

  abuse_report_arm-IsKept :
      (after : Node F) (r : Handled F)
      → IsKept now after
      → IsKept now (abuse_report_arm float deflate map_order set_order crates decoders (after, r)).0
  unfolding abuse_report_arm
  abuse_report_arm-IsKept after (Handled.applied _) good = good
  abuse_report_arm-IsKept after Handled.ignored good = good
  abuse_report_arm-IsKept after (Handled.rejected why) good = good

  pub dispatch-IsKept :
      (n : Node F) (arm : Arm)
      → length (as_bytes e.content) < 9223372036854775808
      → IsKept now n
      → IsKept now
          (dispatch float deflate map_order set_order crates decoders now fresh_id n e arm).0
  unfolding dispatch
  dispatch-IsKept n Arm.alerts short good =
      or_penalize-IsKept _ _ _ (handle_incoming_alert-IsKept n short good)
  dispatch-IsKept n Arm.endorsements short good =
      endorsement_arm-IsKept _ _ (handle_incoming_endorsement-IsKept n good)
  dispatch-IsKept n Arm.abuse_reports short good =
      abuse_report_arm-IsKept _ _ (handle_incoming_abuse_report-IsKept n good)
  dispatch-IsKept n Arm.social_events short good =
      or_penalize-IsKept _ _ _ (handle_incoming_social-IsKept n good)
  dispatch-IsKept n Arm.others short good = good
