-- ===== src/Ingest/Invariant.antt =====
-- The invariant of a node that receives (`receive_peer_event` of core/src/node/mod.rs), for one
-- event and for any sequence of them.
use onde_resilience.Prelude.{
  ℕ, ◌≤◌, ◌<◌, ◌≡◌, ◌⊎◌, refl, String, inl, inr, arith, length, List, [], ◌∷◌, Bool-cases, str_eq,
}
use onde_resilience.Prelude.Sets.{SetOrder}
use onde_resilience.Prelude.Utf8.{as_bytes}
use onde_resilience.Protocol.{MeshEvent}
use onde_resilience.Protocol.Validate.{Crates, signature_valid}
use onde_resilience.Gossip.{is_known}
use onde_resilience.Tiers.{Deflate}
use onde_resilience.Spam.{AbuseReason, MapOrder, admit_with_budget, u64_max}
use onde_resilience.Spam.Admission.{IsGuard, admit-IsGuard}
use onde_resilience.Reputation.{Float, action_for}
use onde_resilience.Reputation.Sound.{record_violation-IsSound}
use onde_resilience.Node.{
  Node, RejectReason, AdmissionDecision, rejected, admitted, is_ignore, heal_grace_active,
  budget_at, note_peer_traffic, admit_peer_event,
}
use onde_resilience.Ingest.{Decoders, SocialEventOutcome, PeerEventOutcome}
use onde_resilience.Ingest.Receive.{
  arm_of, note_author, receive_peer_event_inner, count_outcome, receive_peer_event,
}
use onde_resilience.Ingest.Kept.{IsKept, later-IsGuard, dispatch-IsKept}

Decision-cases :
    {F : Type 0} (d : AdmissionDecision F)
    → ((reason : RejectReason F) × (d ≡ rejected reason)) ⊎ (d ≡ admitted)
Decision-cases (AdmissionDecision.rejected reason) = inl (reason, refl)
Decision-cases AdmissionDecision.admitted = inr refl

-- What arrives: when, the id a message or a report would get, and the event.
abbrev pub Arrival : Type 0
Arrival = ℕ × String × MeshEvent

-- The times do not go back nor reach the last one, and no content is too long.
abbrev pub IsTimed : ℕ → List Arrival → Type 0
IsTimed clock [] = Unit
IsTimed clock ((now, _, e) ∷ arrivals) =
    (clock ≤ now)
    × (now < u64_max)
    × (length (as_bytes e.content) < 9223372036854775808)
    × IsTimed now arrivals

-- The time of the last arrival.
abbrev pub clock_after : ℕ → List Arrival → ℕ
clock_after clock [] = clock
clock_after clock ((now, _, _) ∷ arrivals) = clock_after now arrivals

module _ {F : Type 0} (float : Float F) (deflate : Deflate) (map_order : MapOrder)
    (set_order : SetOrder) (crates : Crates) (decoders : Decoders) where
  admit_peer_event-IsKept :
      (clock now : ℕ) (n : Node F) (e : MeshEvent)
      → clock ≤ now
      → now < u64_max
      → IsKept clock n
      → IsKept now (admit_peer_event float map_order crates now n e).0
  unfolding admit_peer_event budget_at
  admit_peer_event-IsKept clock now n e later early (guarded, gossiping, sound, stored) =
      let held = later-IsGuard 48 clock now n.spam_guard later guarded in
      let grown : IsGuard 48 now
          (admit_with_budget map_order n.spam_guard e.pubkey now (budget_at float now n)).0 =
        admit-IsGuard map_order n.spam_guard e.pubkey now (budget_at float now n) 48 clock guarded
          later
          (elim (Bool-cases (heal_grace_active now n)) [
            | inl heal ↦ rw heal (omega arith)
            | inr calm ↦ rw calm (omega arith)
          ])
          early in
      elim (Bool-cases (signature_valid crates e)) [
        | inr bad ↦ rw bad (held, gossiping, sound, stored)
        | inl signed ↦ elim (Bool-cases (str_eq e.pubkey n.pubkey)) [
          | inl own ↦ rw (signed, own) (held, gossiping, sound, stored)
          | inr foreign ↦ elim (Bool-cases (is_known n.gossip e.id)) [
            | inl known ↦ rw (signed, foreign, known) (held, gossiping, sound, stored)
            | inr fresh ↦
                elim (Bool-cases (is_ignore (action_for float n.reputation e.pubkey now))) [
                  | inl ignored ↦
                      rw (signed, foreign, fresh, ignored) (held, gossiping, sound, stored)
                  | inr heard ↦
                      elim (Bool-cases
                        (admit_with_budget map_order n.spam_guard e.pubkey now
                          (budget_at float now n)).1) [
                            | inl room ↦
                                rw (signed, foreign, fresh, heard, room)
                                  (grown, gossiping, sound, stored)
                            | inr over ↦
                                rw (signed, foreign, fresh, heard, over)
                                  (
                                    grown,
                                    gossiping,
                                    record_violation-IsSound float n.reputation e.pubkey
                                        AbuseReason.excessive_rate now sound,
                                    stored,
                                  )
                          ]
                ]
          ]
        ]
      ]

  note_author-IsKept :
      (now : ℕ) (n : Node F) (e : MeshEvent)
      → IsKept now n
      → IsKept now (note_author float deflate map_order set_order crates decoders now n e)
  unfolding note_author note_peer_traffic
  note_author-IsKept now n e good = elim (Bool-cases (str_eq e.pubkey n.pubkey)) [
    | inl own ↦ rw own good
    | inr foreign ↦ rw foreign good
  ]

  count_outcome-IsKept :
      (now : ℕ) (outcome : PeerEventOutcome F) (n : Node F)
      → IsKept now n
      → IsKept now (count_outcome float deflate map_order set_order crates decoders outcome n)
  unfolding count_outcome
  count_outcome-IsKept now (PeerEventOutcome.refused _) n good = good
  count_outcome-IsKept now (PeerEventOutcome.invalid_event _) n good = good
  count_outcome-IsKept now PeerEventOutcome.alert_stored n good = good
  count_outcome-IsKept now PeerEventOutcome.alert_not_stored n good = good
  count_outcome-IsKept now PeerEventOutcome.endorsement_applied n good = good
  count_outcome-IsKept now PeerEventOutcome.other n good = good
  count_outcome-IsKept now (PeerEventOutcome.endorsement_rejected _) n good = good
  count_outcome-IsKept now (PeerEventOutcome.abuse_report_rejected _) n good = good
  count_outcome-IsKept now (PeerEventOutcome.abuse_report_applied _) n good = good
  count_outcome-IsKept now (PeerEventOutcome.social_event SocialEventOutcome.ignored) n good = good
  count_outcome-IsKept now (PeerEventOutcome.social_event SocialEventOutcome.vote_applied) n good =
      good
  count_outcome-IsKept now (PeerEventOutcome.social_event SocialEventOutcome.follow_applied) n
        good =
      good
  count_outcome-IsKept now (PeerEventOutcome.social_event SocialEventOutcome.message_stored) n
        good =
      good
  count_outcome-IsKept now (PeerEventOutcome.social_event SocialEventOutcome.moderation_applied) n
        good =
      good
  count_outcome-IsKept now (PeerEventOutcome.social_event (SocialEventOutcome.post_stored _)) n
        good =
      good
  count_outcome-IsKept now (PeerEventOutcome.social_event (SocialEventOutcome.comment_stored _)) n
        good =
      good

  -- The arrivals in turn.
  unfoldable pub receive_all : Node F → List Arrival → Node F
  receive_all n [] = n
  receive_all n ((now, fresh_id, e) ∷ arrivals) =
      receive_all
        (receive_peer_event float deflate map_order set_order crates decoders now fresh_id n e).0
        arrivals

  inner-IsKept :
      (clock now : ℕ) (fresh_id : String) (n : Node F) (e : MeshEvent)
      → clock ≤ now
      → now < u64_max
      → length (as_bytes e.content) < 9223372036854775808
      → IsKept clock n
      → IsKept now
          (receive_peer_event_inner float deflate map_order set_order crates decoders now fresh_id n
            e).0
  unfolding receive_peer_event_inner
  inner-IsKept clock now fresh_id n e later early short good =
      let gated = admit_peer_event-IsKept clock now n e later early good in
      elim (Decision-cases (admit_peer_event float map_order crates now n e).1) [
        | inl (reason, h) ↦ rw (receive_peer_event_inner, h) gated
        | inr h ↦
            rw (receive_peer_event_inner, h)
              (dispatch-IsKept float deflate map_order set_order crates decoders now fresh_id e _
                (arm_of e.kind) short (note_author-IsKept now _ e gated))
      ]

  -- Whatever peers send, at times that do not go back and with contents under 2^63 bytes, the guard
  -- keeps at most 1,024 authors with at most 48 times each, the gossip its bounds, the reputation
  -- one endorsement per pair and one report per key, and the store its budget and distinct ids.
  pub receive_all-IsKept :
      (clock : ℕ) (n : Node F) (arrivals : List Arrival)
      → IsTimed clock arrivals
      → IsKept clock n
      → IsKept (clock_after clock arrivals) (receive_all n arrivals)
  unfolding receive_all receive_peer_event
  receive_all-IsKept clock n [] timed good = good
  receive_all-IsKept clock n ((now, fresh_id, e) ∷ arrivals) (later, early, short, timed) good =
      receive_all-IsKept now _ arrivals timed
        (count_outcome-IsKept now _ _ (inner-IsKept clock now fresh_id n e later early short good))
