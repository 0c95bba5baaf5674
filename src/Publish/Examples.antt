-- ===== src/Publish/Examples.antt =====
-- A trusted node that publishes (core/src/node/mod.rs).
use onde_resilience.Prelude.{ℕ, ◌+◌, ◌≤◌, ◌<◌, ◌≡◌, refl, String, List, [], replicate}
use onde_resilience.Prelude.Assoc.{lookup, lookup_or, insert}
use onde_resilience.Prelude.Result.{Result, ok, err}
use onde_resilience.Prelude.Utf8.{as_bytes}
use onde_resilience.Protocol.{OndeMessageType, MeshEvent, kind_code}
use onde_resilience.Protocol.CratesExample.{crates, event, sum, digest}
use onde_resilience.Protocol.HexExample.{encode, decode}
use onde_resilience.Protocol.Wire.{decode_hex}
use onde_resilience.Protocol.Validate.{
  char_count, compute_id, verify_from_pubkey, pow_hash, verify_pow, decimal, leading_zeros,
  validate_with_pow_min,
}
use onde_resilience.Reputation.{
  set_trusted, clamp, score_in, score, is_trusted, stored_abuse_level, clamp_u8,
  required_pow_difficulty_inner, required_pow_difficulty,
}
use onde_resilience.Reputation.Gate.{validate_with_reputation, add_event_with_reputation}
use onde_resilience.Gossip.{insert_new}
use onde_resilience.Tiers.{Deflate}
use onde_resilience.Node.{Node, publish_interval_secs, publish_allowed}
use onde_resilience.Node.NodeExample.{float, listed, insertion_order, hut}
use onde_resilience.Ingest.{Decoders}
use onde_resilience.Publish.{
  Publication, PublishError, new_signed, enforce_publish_throttle, prepare, publish,
}
use onde_resilience.Publish.Throttled.{publish_lem}

abbrev deflate : Deflate
deflate = record {
  compress = λ bytes. bytes;
  decompress = λ bytes. ok bytes;
  decompress-compress = λ bytes. refl;
}

abbrev decoders : Decoders
decoders = record {
  endorsement = λ text. err text;
  abuse_report = λ text. err text;
  post = λ text. err text;
  comment = λ text. err text;
  value = λ text. err text;
}

abbrev sign : List ℕ → List ℕ
sign message = replicate 64 2

-- The node has the key that it trusts itself.
abbrev station : Node ℕ
station = record hut { pubkey = (event 0).pubkey }

abbrev sent : Result PublishError MeshEvent
sent =
    (publish float deflate listed insertion_order crates decoders sign 900 890 Publication.alert
      station "feu").1

program : Unit {0}
unfolding encode decode as_bytes sum digest kind_code decode_hex compute_id verify_from_pubkey
    pow_hash verify_pow validate_with_pow_min decimal leading_zeros char_count lookup lookup_or
    insert set_trusted clamp score_in score is_trusted stored_abuse_level clamp_u8
    required_pow_difficulty_inner required_pow_difficulty validate_with_reputation
    add_event_with_reputation insert_new publish_interval_secs publish_allowed new_signed
    enforce_publish_throttle prepare publish
program = tt

abbrev alert : MeshEvent
alert = new_signed crates sign (event 0).pubkey 890 0 OndeMessageType.alert "feu" []

published : sent ≡ ok alert
unfolding program
published = refl

publish_lem_example :
    (char_count "feu" ≤ 280)
    × (validate_with_reputation float crates station.reputation 900 alert ≡ ok tt)
    × ((later stamp : ℕ) (next : Publication) (text : String)
        → 900 ≤ later
        → later < 900 + publish_interval_secs float station
        → char_count text ≤ 280
        → publish float deflate listed insertion_order crates decoders sign later stamp next
            (publish float deflate listed insertion_order crates decoders sign 900 890
              Publication.alert station "feu").0
            text
          ≡ (
            (publish float deflate listed insertion_order crates decoders sign 900 890
                Publication.alert station "feu").0,
            err PublishError.rate_limited,
          ))
publish_lem_example =
    publish_lem float deflate listed insertion_order crates decoders sign 900 890 Publication.alert
      station "feu" alert published
