-- ===== src/Ingest/Examples.antt =====
-- A node that receives (core/src/node/mod.rs), on a concrete state.
use onde_resilience.Prelude.{◌≤◌, ◌≡◌, refl, String, true, List, [], ◌∷◌, arith, length}
use onde_resilience.Prelude.Assoc.{lookup, lookup_or, insert}
use onde_resilience.Prelude.Result.{ok, err}
use onde_resilience.Prelude.Utf8.{as_bytes}
use onde_resilience.Protocol.{OndeMessageType}
use onde_resilience.Protocol.CratesExample.{crates, event}
use onde_resilience.Protocol.HexExample.{encode, decode}
use onde_resilience.Protocol.CratesExample.{sum, digest}
use onde_resilience.Protocol.Wire.{decode_hex}
use onde_resilience.Protocol.Validate.{signature_valid, verify_from_pubkey}
use onde_resilience.Gossip.{new as new_gossip}
use onde_resilience.Gossip.Reached.{IsReached, reached-IsGossip}
use onde_resilience.Tiers.{Deflate, max_bytes, sum_by}
use onde_resilience.Reputation.{
  Endorsement, set_trusted, clamp, score_in, score, qualified, promote, endorse,
  apply_remote_endorsement,
}
use onde_resilience.Node.NodeExample.{float, listed, insertion_order, hut}
use onde_resilience.Ingest.{Decoders, Handled}
use onde_resilience.Ingest.Receive.{handle_incoming_endorsement}
use onde_resilience.Ingest.Kept.{IsKept}
use onde_resilience.Ingest.Invariant.{Arrival, IsTimed, receive_all, receive_all-IsKept}
use onde_resilience.Ingest.Forged.{handle_incoming_endorsement-forged}

abbrev deflate : Deflate
deflate = record {
  compress = λ bytes. bytes;
  decompress = λ bytes. ok bytes;
  decompress-compress = λ bytes. refl;
}

abbrev dan_by : String → Endorsement
dan_by endorser = record { endorser = endorser; endorsed = "dan"; timestamp = 1 }

abbrev decoders : Decoders
decoders = record {
  endorsement = λ text. ok (dan_by (event 0).pubkey);
  abuse_report = λ text. err "abuse report";
  post = λ text. err "post";
  comment = λ text. err "comment";
  value = λ text. err "value";
}

hut-IsKept : IsKept 0 hut
unfolding lookup_or lookup max_bytes sum_by set_trusted
hut-IsKept = (
  record {
    authors_distinct = tt;
    tracked_bounded = omega arith;
    windows = λ author. tt;
    windows_bounded = λ author. omega arith;
  },
  reached-IsGossip insertion_order crates new_gossip IsReached.start,
  (
    (λ pubkey. (tt, refl)),
    record { reported_same = refl; reported_distinct = tt; reported_bounded = omega arith },
  ),
  record { in_budget = omega arith; ids_distinct = tt },
)

-- An alert, the same alert again, and an endorsement.
abbrev arrivals : List Arrival
arrivals =
    (900, "m1", event 1)
    ∷ (901, "m2", event 1)
    ∷ (960, "m3", record (event 1) { kind = OndeMessageType.endorsement; content = "AAAA" })
    ∷ []

arrivals-IsTimed : IsTimed 0 arrivals
unfolding as_bytes
arrivals-IsTimed = (
  omega arith,
  omega arith,
  omega arith,
  (omega arith, omega arith, omega arith, (omega arith, omega arith, omega arith, tt)),
)

receive_all-IsKept_example :
    IsKept 960 (receive_all float deflate listed insertion_order crates decoders hut arrivals)
receive_all-IsKept_example =
    receive_all-IsKept float deflate listed insertion_order crates decoders 0 hut arrivals
      arrivals-IsTimed hut-IsKept

program : Unit {0}
unfolding encode decode as_bytes sum digest decode_hex verify_from_pubkey signature_valid lookup
    lookup_or insert set_trusted clamp score_in score qualified promote endorse
    apply_remote_endorsement
program = tt

small : length (as_bytes "AAAA") ≤ 1024
unfolding program
small = omega arith

accepted : (apply_remote_endorsement float hut.reputation (dan_by (event 0).pubkey) true).1 ≡ ok tt
unfolding program
accepted = refl

signed : signature_valid crates (event 0) ≡ true
unfolding program
signed = refl

handle_incoming_endorsement-forged_example :
    ((handle_incoming_endorsement float deflate listed insertion_order crates decoders 900 hut
        (record (event 0) { kind = OndeMessageType.endorsement; content = "AAAA" })).1
      ≡ Handled.applied tt)
    × ((handle_incoming_endorsement float deflate listed insertion_order crates decoders 900 hut
          (record (event 0) { kind = OndeMessageType.endorsement; content = "AAAA" })).0.reputation
        ≡ (apply_remote_endorsement float hut.reputation (dan_by (event 0).pubkey) true).0)
handle_incoming_endorsement-forged_example =
    handle_incoming_endorsement-forged float deflate listed insertion_order crates decoders 900 hut
      (event 0) "AAAA" (dan_by (event 0).pubkey) signed small refl refl accepted
