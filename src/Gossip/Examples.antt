-- ===== src/Gossip/Examples.antt =====
-- The gossip of core/src/protocol/mod.rs on concrete states.
use onde_resilience.Prelude.{
  ◌≡◌, refl, true, false, ◌⊎◌, none, [], ◌∷◌, ◌++◌, arith, contains, replicate,
}
use onde_resilience.Prelude.Assoc.{lookup, insert, lookup_or}
use onde_resilience.Prelude.Sets.{SetOrder, Distinct}
use onde_resilience.Prelude.Result.{ok, err}
use onde_resilience.Prelude.Utf8.{as_bytes}
use onde_resilience.Protocol.{MeshEvent, kind_code}
use onde_resilience.Protocol.HexExample.{encode, decode}
use onde_resilience.Protocol.CratesExample.{crates, event, sum, digest}
use onde_resilience.Protocol.Wire.{all_zero?}
use onde_resilience.Protocol.Validate.{ValidationError, validate, compute_id}
use onde_resilience.Gossip.{
  GossipProtocol, max_delivered_per_peer, new, ids_of, receive_event, peek_pending_for_peer,
  get_pending_for_peer, select, push_bounded, mark_delivered_to_peer,
}
use onde_resilience.Gossip.Sending.{unsent, last, sent_to, get_pending_for_peer_lem}
use onde_resilience.Gossip.Once.{get_pending_again}
use onde_resilience.Gossip.Invariant.{IsGossip}
use onde_resilience.Gossip.Receiving.{IsTaken, receive_event_lem}
use onde_resilience.Gossip.Reached.{IsReached, reached-IsGossip, Call}
use onde_resilience.Gossip.Packets.{HasWire}

abbrev insertion_order : SetOrder
insertion_order = record {
  iter = λ xs. xs;
  iter-contains = λ xs x. refl;
  iter-length = λ xs. refl;
  iter-Distinct = λ xs d. d;
}

abbrev taken : GossipProtocol
taken = (receive_event insertion_order crates 900 new (event 1)).0

taken-IsReached : IsReached insertion_order crates taken
taken-IsReached = IsReached.call new taken IsReached.start (Call.receives 900 new (event 1))

reached-IsGossip_example : IsGossip taken
reached-IsGossip_example = reached-IsGossip insertion_order crates taken taken-IsReached

new-IsGossip : IsGossip new
new-IsGossip = reached-IsGossip insertion_order crates new IsReached.start

receive_event_lem_example :
    ((receive_event insertion_order crates 900 new (event 1) ≡ (new, false))
      × ((contains [] (event 1).id ≡ true)
          ⊎ ((why : ValidationError) × (validate crates 900 (event 1) ≡ err why))))
    ⊎ (((receive_event insertion_order crates 900 new (event 1)).1 ≡ true)
        × (contains [] (event 1).id ≡ false)
        × (validate crates 900 (event 1) ≡ ok tt)
        × IsTaken new taken (event 1)
        × IsGossip taken)
receive_event_lem_example = receive_event_lem insertion_order crates 900 new (event 1) new-IsGossip

-- One event was sent to ana, another is new.
abbrev second : MeshEvent
second = record (event 1) { id = encode (replicate 32 9) }

abbrev loaded : GossipProtocol
loaded = record {
  known_events = (event 1).id ∷ second.id ∷ [];
  pending_broadcasts = event 1 ∷ second ∷ [];
  delivered = ("ana", (event 1).id ∷ []) ∷ [];
  metrics = none;
}

program : Unit {0}
unfolding as_bytes encode decode sum digest kind_code compute_id lookup insert lookup_or select
    push_bounded peek_pending_for_peer mark_delivered_to_peer get_pending_for_peer all_zero?
program = tt

ana_sent : sent_to loaded "ana" ≡ (event 1).id ∷ []
unfolding program
ana_sent = refl

get_pending_for_peer_lem_example :
    ((get_pending_for_peer loaded "ana").1 ≡ unsent (sent_to loaded "ana") (event 1 ∷ second ∷ []))
    × (sent_to (get_pending_for_peer loaded "ana").0 "ana"
        ≡ last max_delivered_per_peer (
            sent_to loaded "ana" ++ ids_of (unsent (sent_to loaded "ana") (event 1 ∷ second ∷ []))))
    × ((get_pending_for_peer loaded "ana").0.pending_broadcasts ≡ event 1 ∷ second ∷ [])
    × ((get_pending_for_peer loaded "ana").0.known_events ≡ loaded.known_events)
    × ((get_pending_for_peer loaded "ana").0.metrics ≡ loaded.metrics)
get_pending_for_peer_lem_example =
    get_pending_for_peer_lem loaded "ana" (rw ana_sent (omega arith)) (omega arith) "ana"

get_pending_again_example :
    (get_pending_for_peer (get_pending_for_peer loaded "ana").0 "ana").1 ≡ []
get_pending_again_example = get_pending_again loaded "ana" (rw ana_sent (omega arith))

-- What is sent is the event that ana has not.
sent_second : (get_pending_for_peer loaded "ana").1 ≡ second ∷ []
unfolding program
sent_second = refl

loaded-Distinct : Distinct loaded.known_events
unfolding program
loaded-Distinct = (refl, (refl, tt))

second-HasWire : HasWire crates second
unfolding program
second-HasWire = (
  replicate 32 9,
  replicate 32 1,
  replicate 64 2,
  record {
    id_hex = (refl, omega arith, refl);
    pubkey_hex = (refl, omega arith, refl);
    sig_hex = (refl, omega arith, refl);
    id_nonzero = refl;
    created_at_fits = omega arith;
    nonce_fits = omega arith;
    tags_few = omega arith;
    tags_fit = tt;
    content_fits = omega arith;
  },
)

abbrev one : GossipProtocol
one = record new { pending_broadcasts = second ∷ [] }

one_sent : sent_to one "ana" ≡ []
unfolding program
one_sent = refl
