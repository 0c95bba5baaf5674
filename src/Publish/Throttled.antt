-- ===== src/Publish/Throttled.antt =====
-- What a publication of core/src/node/mod.rs guarantees, and when the next one is refused.
use onde_resilience.Prelude.{
  ℕ, ◌+◌, ◌≤◌, ◌<◌, ◌≡◌, refl, subst, ◌&&◌, if◌then◌else◌, [], ◌∙◌, String, Bool, true, false, not,
  inl, inr, List, arith, ltb, leb, Bool-cases, Option-cases,
}
use onde_resilience.Prelude.Sets.{SetOrder}
use onde_resilience.Prelude.Words.{saturating_sub}
use onde_resilience.Prelude.Utf8.{as_bytes}
use onde_resilience.Prelude.Result.{Result, ok, err, and_then-eq-ok, Result-cases}
use onde_resilience.Protocol.{MeshEvent}
use onde_resilience.Protocol.Validate.{Crates, char_count, ValidationError, compute_pow}
use onde_resilience.Gossip.{GossipProtocol}
use onde_resilience.Spam.{MapOrder}
use onde_resilience.Tiers.{Deflate, store}
use onde_resilience.Reputation.{Float, required_pow_difficulty}
use onde_resilience.Reputation.Gate.{validate_with_reputation, add_event_with_reputation}
use onde_resilience.Node.{Node, publish_allowed, publish_interval_secs, record_publish}
use onde_resilience.Ingest.{Decoders}
use onde_resilience.Ingest.Receive.{persist_message}
use onde_resilience.Publish.{
  PublishError, Publication, kind_of, tier_of, refuse_publication, as_refusal, new_signed,
  enforce_publish_throttle, prepare, store_published, publish,
}

below : (size : ℕ) → ltb 280 size ≡ false → size ≤ 280
below size h = ground (arith, h)

negated : (b : Bool) → not b ≡ false → b ≡ true
negated true h = refl
negated false h = cc

ok-injective : {a b : MeshEvent} → ◌≡◌ {A = Result PublishError MeshEvent} (ok a) (ok b) → a ≡ b
ok-injective h = cc

refused :
    (why : PublishError) (e : MeshEvent)
    → ◌≡◌ {A = Result PublishError MeshEvent} (err why) (ok e)
    → ⊥
refused why e h = cc

not_prepared :
    {F : Type 0} (float : Float F) (deflate : Deflate) (map_order : MapOrder) (set_order : SetOrder)
    (crates : Crates) (decoders : Decoders) (sign : List ℕ → List ℕ) (later stamp : ℕ)
    (next : Publication) (m : Node F) (text : String)
    → char_count text ≤ 280
    → publish_allowed float later m ≡ false
    → prepare float deflate map_order set_order crates decoders sign later stamp next m text
      ≡ err PublishError.rate_limited
unfolding prepare enforce_publish_throttle
not_prepared float deflate map_order set_order crates decoders sign later stamp next m text short
      wait =
    let fits : ltb 280 (char_count text) ≡ false = ground (arith, short) in rw (fits, wait) refl

limited :
    {F : Type 0} (float : Float F) (deflate : Deflate) (map_order : MapOrder) (set_order : SetOrder)
    (crates : Crates) (decoders : Decoders) (sign : List ℕ → List ℕ) (later stamp : ℕ)
    (next : Publication) (m : Node F) (text : String)
    → char_count text ≤ 280
    → publish_allowed float later m ≡ false
    → publish float deflate map_order set_order crates decoders sign later stamp next m text
      ≡ (m, err PublishError.rate_limited)
unfolding publish
limited float deflate map_order set_order crates decoders sign later stamp next m text short wait =
    let stopped =
      not_prepared float deflate map_order set_order crates decoders sign later stamp next m text
        short wait in
    rw (stopped, publish) refl

module _ {F : Type 0} (float : Float F) (deflate : Deflate) (map_order : MapOrder)
    (set_order : SetOrder) (crates : Crates) (decoders : Decoders) (sign : List ℕ → List ℕ)
    (now created_at : ℕ) (publication : Publication) (n : Node F) (content : String) where
  -- The interval depends on what storing does not change.
  interval-store_published :
      (m : Node F) (e : MeshEvent)
      → publish_interval_secs float (
          record_publish float now (
            store_published float deflate map_order set_order crates decoders sign publication m e))
        ≡ publish_interval_secs float m
  unfolding publish_interval_secs record_publish store_published persist_message
  interval-store_published m e =
      elim (Bool-cases
        (store deflate m.message_store e.id (tier_of publication) (as_bytes e.content) e.created_at
          m.my_geohash).1) [
            | inr away ↦ rw away refl
            | inl stored ↦ elim (Option-cases m.persistence) [
              | inl absent ↦ rw (stored, absent, persist_message) refl
              | inr (log, held) ↦ rw (stored, held, persist_message) refl
            ]
          ]

  interval-relayed :
      (g : GossipProtocol)
      → publish_interval_secs float (record n { gossip = g }) ≡ publish_interval_secs float n
  unfolding publish_interval_secs
  interval-relayed g = refl

  too_soon :
      (later : ℕ) (m : Node F)
      → m.last_publish_at ≡ now
      → now ≤ later
      → later < now + publish_interval_secs float m
      → publish_allowed float later m ≡ false
  unfolding publish_allowed publish_interval_secs
  too_soon later m at after soon =
      rw at (waits (publish_interval_secs float m) later now after soon)
    where
      waits :
          (interval later now : ℕ)
          → now ≤ later
          → later < now + interval
          → leb interval (saturating_sub later now) ≡ false
      waits interval later now after soon = ground (arith, after, soon)

  abbrev difficulty : ℕ
  difficulty = required_pow_difficulty float n.reputation n.pubkey

  abbrev event : MeshEvent
  event = new_signed crates sign n.pubkey created_at difficulty (kind_of publication) content []

  abbrev worked : MeshEvent × Bool
  worked = compute_pow crates event 2000000

  abbrev ready : MeshEvent
  ready = if ltb 0 difficulty then worked.0 else event

  -- What a publication that succeeds has been.
  record IsPublished (e : MeshEvent) : Type 0 where
    short : char_count content ≤ 280
    allowed : publish_allowed float now n ≡ true
    valid : validate_with_reputation float crates n.reputation now e ≡ ok tt

  passed : (b : Bool) (e : PublishError) (u : Unit {0}) → refuse_publication b e ≡ ok u → b ≡ false
  passed true e u h = cc
  passed false e u h = refl

  as_valid :
      (r : Result ValidationError (Unit {0})) (u : Unit {0}) → as_refusal r ≡ ok u → r ≡ ok tt
  as_valid (ok _) u h = refl
  as_valid (err e) u h = cc

  prepare_lem :
      (e : MeshEvent)
      → prepare float deflate map_order set_order crates decoders sign now created_at publication n
          content
        ≡ ok e
      → IsPublished e
  unfolding prepare enforce_publish_throttle
  prepare_lem e h =
      let (u1, fits, h1) =
        and_then-eq-ok (refuse_publication (ltb 280 (char_count content)) PublishError.too_long) _
          h in
      let (u2, free, h2) =
        and_then-eq-ok
          (refuse_publication (not (publish_allowed float now n)) PublishError.rate_limited) _ h1 in
      let (u3, done, h3) =
        and_then-eq-ok
          (refuse_publication (ltb 0 difficulty && not worked.1) PublishError.pow_failed) _ h2 in
      let (u4, checked, h4) =
        and_then-eq-ok (as_refusal (validate_with_reputation float crates n.reputation now ready)) _
          h3 in
      record {
        short = below (char_count content) (passed _ _ u1 fits);
        allowed = negated (publish_allowed float now n) (passed _ _ u2 free);
        valid =
            subst (λ x. validate_with_reputation float crates n.reputation now x ≡ ok tt)
              (ok-injective h4) (as_valid _ u4 checked);
      }

  fields-store_published :
      (m : Node F) (e : MeshEvent)
      → (record_publish float now (
          store_published float deflate map_order set_order crates decoders sign publication m
            e)).last_publish_at
        ≡ now
  unfolding record_publish
  fields-store_published m e = refl

  publish-cases :
      (e : MeshEvent)
      → (publish float deflate map_order set_order crates decoders sign now created_at publication n
          content).1
        ≡ ok e
      → IsPublished e
        × ((publish float deflate map_order set_order crates decoders sign now created_at
              publication n content).0.last_publish_at
            ≡ now)
        × (publish_interval_secs float
              (publish float deflate map_order set_order crates decoders sign now created_at
                publication n content).0
            ≡ publish_interval_secs float n)
  unfolding publish
  publish-cases e h =
      elim (Result-cases (
        prepare float deflate map_order set_order crates decoders sign now created_at publication n
          content)) [
            | inl (why, bad) ↦ absurd (refused why e (rw (bad, publish) at h))
            | inr (event, good) ↦
                let ready_event = prepare_lem event good in
                elim (Result-cases
                  (add_event_with_reputation float crates n.reputation now set_order n.gossip
                    event).1) [
                      | inl (why, bad) ↦
                          absurd
                            (refused (PublishError.invalid why) e (rw (good, publish, bad) at h))
                      | inr (_, added) ↦ (
                        subst IsPublished (ok-injective (rw (good, publish, added) at h))
                            ready_event,
                        rw (good, publish, added) (fields-store_published _ event),
                        rw (good, publish, added)
                            (interval-store_published _ event ∙ interval-relayed _),
                      )
                    ]
          ]

  -- A publication that succeeds has at most 280 characters and is valid by the node's own
  -- reputation; and until the interval of the node has passed, a next one that is short enough is
  -- refused as rate limited, without a change, whatever it is.
  pub publish_lem :
      (e : MeshEvent)
      → (publish float deflate map_order set_order crates decoders sign now created_at publication n
          content).1
        ≡ ok e
      → (char_count content ≤ 280)
        × (validate_with_reputation float crates n.reputation now e ≡ ok tt)
        × ((later stamp : ℕ) (next : Publication) (text : String)
            → now ≤ later
            → later < now + publish_interval_secs float n
            → char_count text ≤ 280
            → publish float deflate map_order set_order crates decoders sign later stamp next
                (publish float deflate map_order set_order crates decoders sign now created_at
                  publication n content).0
                text
              ≡ (
                (publish float deflate map_order set_order crates decoders sign now created_at
                    publication n content).0,
                err PublishError.rate_limited,
              ))
  publish_lem e h =
      let (good, at, interval) = publish-cases e h in
      (
        good.short,
        good.valid,
        λ later stamp next text after soon short.
            limited float deflate map_order set_order crates decoders sign later stamp next _ text
              short (too_soon later _ at after (rw interval soon)),
      )
