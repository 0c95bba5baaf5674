-- ===== src/Publish.antt =====
-- What a node publishes (`publish_alert` and `publish_mutual_aid` of core/src/node/mod.rs). The
-- blurred time of the event is an argument, and `sign` is the node's Ed25519 key.
pub mod Throttled
mod Examples
use onde_resilience.Prelude.{ℕ, String, Bool, true, false, ◌&&◌, not, List, [], if◌then◌else◌, ltb}
use onde_resilience.Prelude.Sets.{SetOrder}
use onde_resilience.Prelude.Result.{Result, ok, err, and_then}
use onde_resilience.Prelude.Utf8.{as_bytes}
use onde_resilience.Protocol.{OndeMessageType, MeshEvent}
use onde_resilience.Protocol.Validate.{Crates, ValidationError, char_count, compute_id, compute_pow}
use onde_resilience.Spam.{MapOrder}
use onde_resilience.Tiers.{MessageTier, Deflate, store}
use onde_resilience.Reputation.{Float, required_pow_difficulty}
use onde_resilience.Reputation.Gate.{validate_with_reputation, add_event_with_reputation}
use onde_resilience.Node.{Node, publish_allowed, record_publish}
use onde_resilience.Ingest.{Decoders}
use onde_resilience.Ingest.Receive.{persist_message}

pub data PublishError : Type 0 where
  too_long rate_limited pow_failed : PublishError
  invalid : ValidationError → PublishError

-- Which of the two functions runs: the kind of the event and the tier of what is stored.
pub data Publication : Type 0 where
  alert mutual_aid : Publication

abbrev pub kind_of : Publication → OndeMessageType
kind_of Publication.alert = OndeMessageType.alert
kind_of Publication.mutual_aid = OndeMessageType.mutual_aid

abbrev pub tier_of : Publication → MessageTier
tier_of Publication.alert = MessageTier.critical
tier_of Publication.mutual_aid = MessageTier.important

abbrev pub refuse_publication : Bool → PublishError → Result PublishError (Unit {0})
refuse_publication true e = err e
refuse_publication false e = ok tt

abbrev pub as_refusal {ℓ} : {A : Type ℓ} → Result ValidationError A → Result PublishError A
as_refusal (ok a) = ok a
as_refusal (err e) = err (PublishError.invalid e)

module _ (crates : Crates) (sign : List ℕ → List ℕ) where
  -- `MeshEvent::new_signed` and `with_pow_difficulty`.
  unfoldable pub new_signed : String → ℕ → ℕ → OndeMessageType → String → List String → MeshEvent
  new_signed pubkey created_at difficulty kind content tags =
      let id = compute_id crates pubkey created_at kind tags content in
      record {
        id = id;
        pubkey = pubkey;
        created_at = created_at;
        kind = kind;
        tags = tags;
        content = content;
        sig = crates.hex.encode (sign (as_bytes id));
        pow_nonce = 0;
        pow_difficulty = difficulty;
        ttl = 5;
      }

module _ {F : Type 0} (float : Float F) (deflate : Deflate) (map_order : MapOrder)
    (set_order : SetOrder) (crates : Crates) (decoders : Decoders) (sign : List ℕ → List ℕ) where
  unfoldable pub enforce_publish_throttle : ℕ → Node F → Result PublishError (Unit {0})
  enforce_publish_throttle now n =
      refuse_publication (not (publish_allowed float now n)) PublishError.rate_limited

  -- The event, with its work done, if it may be published.
  unfoldable pub prepare : ℕ → ℕ → Publication → Node F → String → Result PublishError MeshEvent
  prepare now created_at publication n content =
      and_then (refuse_publication (ltb 280 (char_count content)) PublishError.too_long) λ _.
        and_then (enforce_publish_throttle now n) λ _.
          let difficulty = required_pow_difficulty float n.reputation n.pubkey in
          let event =
            new_signed crates sign n.pubkey created_at difficulty (kind_of publication) content
              [] in
          let worked = compute_pow crates event 2000000 in
          and_then (refuse_publication (ltb 0 difficulty && not worked.1) PublishError.pow_failed)
            λ _.
              let ready = if ltb 0 difficulty then worked.0 else event in
              and_then (as_refusal (validate_with_reputation float crates n.reputation now ready))
                λ _. ok ready

  unfoldable pub store_published : Publication → Node F → MeshEvent → Node F
  store_published publication n e =
      let (messages, stored) =
        store deflate n.message_store e.id (tier_of publication) (as_bytes e.content) e.created_at
          n.my_geohash in
      let kept = record n { message_store = messages } in
      if stored
      then persist_message float deflate map_order set_order crates decoders kept e.id
          (tier_of publication) (as_bytes e.content) e.created_at n.my_geohash
      else kept

  unfoldable pub publish :
      ℕ → ℕ → Publication → Node F → String → Node F × Result PublishError MeshEvent
  publish now created_at publication n content =
      elim (prepare now created_at publication n content) [
        | err e ↦ (n, err e)
        | ok event ↦
            let (gossip, added) =
              add_event_with_reputation float crates n.reputation now set_order n.gossip event in
            let relayed = record n { gossip = gossip } in
            elim added [
              | err e ↦ (relayed, err (PublishError.invalid e))
              | ok _ ↦
                  (record_publish float now (store_published publication relayed event), ok event)
            ]
      ]
