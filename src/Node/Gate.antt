-- ===== src/Node/Gate.antt =====
-- The gate in front of what a node receives (core/src/node/mod.rs).
use onde_resilience.Prelude.{
  ℕ, ◌-◌, ◌<◌, ◌≡◌, ◌≢◌, refl, String, true, false, inl, inr, List, arith, if◌then◌else◌, length,
  Bool-cases, str_eq, eq_iff,
}
use onde_resilience.Spam.{MapOrder, admit_with_budget}
use onde_resilience.Spam.Window.{in_window}
use onde_resilience.Spam.Admission.{IsGuard, admissions}
use onde_resilience.Spam.Decision.{admit_lem}
use onde_resilience.Protocol.{MeshEvent, OndeMessageType}
use onde_resilience.Protocol.Validate.{Crates, signature_valid}
use onde_resilience.Gossip.{is_known}
use onde_resilience.Reputation.{Float, action_for}
use onde_resilience.Node.{
  Node, admitted, rejected, invalid_signature, is_ignore, heal_grace_active, budget_at,
  admit_peer_event,
}

module _ {F : Type 0} (float : Float F) (order : MapOrder) (crates : Crates) (now : ℕ) (n : Node F)
    (event : MeshEvent) where
  -- The gate looks at the id, the author and the signature only: a copy of an event with another
  -- content, kind, time, tags or proof of work is treated as the event is.
  pub admit_peer_event-copy :
      (created_at : ℕ) (kind : OndeMessageType) (tags : List String) (content : String)
      (pow_nonce pow_difficulty ttl : ℕ)
      → admit_peer_event float order crates now n (record event {
        created_at = created_at;
        kind = kind;
        tags = tags;
        content = content;
        pow_nonce = pow_nonce;
        pow_difficulty = pow_difficulty;
        ttl = ttl;
      })
        ≡ admit_peer_event float order crates now n event
  unfolding admit_peer_event signature_valid
  admit_peer_event-copy created_at kind tags content pow_nonce pow_difficulty ttl = refl

  -- An event without a valid signature is rejected, and nothing of the node changes.
  pub admit_peer_event-unsigned :
      signature_valid crates event ≡ false
      → admit_peer_event float order crates now n event ≡ (n, rejected invalid_signature)
  unfolding admit_peer_event
  admit_peer_event-unsigned forged = rw forged refl

  -- With a guard in its bounds: where the gate admits an event of another node that is not known
  -- yet, its signature is valid, its author is not ignored, and the author had fewer admissions in
  -- the window than the budget, which is 12, and 48 only while the grace after a partition lasts.
  pub admit_peer_event_bounded :
      (cap clock : ℕ)
      → IsGuard cap clock n.spam_guard
      → event.pubkey ≢ n.pubkey
      → is_known n.gossip event.id ≡ false
      → (admit_peer_event float order crates now n event).1 ≡ admitted
      → (signature_valid crates event ≡ true)
        × (is_ignore (action_for float n.reputation event.pubkey now) ≡ false)
        × (length
              (in_window (now - n.spam_guard.window_secs) (admissions n.spam_guard event.pubkey))
            < (if heal_grace_active now n then 48 else 12))
  unfolding admit_peer_event budget_at
  admit_peer_event_bounded cap clock good other fresh in_ =
      let within =
        (admit_lem order n.spam_guard event.pubkey now (budget_at float now n) cap clock
          good).0.0 in
      let foreign : str_eq event.pubkey n.pubkey ≡ false =
        elim (Bool-cases (str_eq event.pubkey n.pubkey)) [
          | inl same ↦ absurd (other ((eq_iff event.pubkey n.pubkey).0 same))
          | inr apart ↦ apart
        ] in
      elim (Bool-cases (signature_valid crates event)) [
        | inr bad ↦ absurd (ground (arith, in_, bad))
        | inl signed ↦
            elim (Bool-cases (is_ignore (action_for float n.reputation event.pubkey now))) [
              | inl ignored ↦ absurd (ground (arith, in_, signed, foreign, fresh, ignored))
              | inr heard ↦
                  elim (Bool-cases
                    (admit_with_budget order n.spam_guard event.pubkey now
                      (budget_at float now n)).1) [
                        | inr over ↦
                            absurd (ground (arith, in_, signed, foreign, fresh, heard, over))
                        | inl room ↦ (signed, heard, within room)
                      ]
            ]
      ]
