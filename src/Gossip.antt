-- ===== src/Gossip.antt =====
-- `GossipProtocol` of core/src/protocol/mod.rs: the events a node knows, its outbox, and what each
-- peer has been sent. The order in which Rust walks a `HashSet` is a parameter.
pub mod Sending
pub mod Once
pub mod Evicting
pub mod Invariant
pub mod Receiving
pub mod Reached
pub mod Packets
mod Examples
use onde_resilience.Prelude.{
  ℕ, zero, suc, ◌+◌, ◌-◌, ◌%◌, ◌^◌, String, Bool, true, false, not, ◌&&◌, Option, none, some, List,
  [], ◌∷◌, map, if◌then◌else◌, ltb, leb, ◌==◌, length, push_back, pop_front, contains,
}
use onde_resilience.Prelude.Assoc.{Assoc, lookup_or, insert}
use onde_resilience.Prelude.Sets.{SetOrder, set_insert, set_remove}
use onde_resilience.Prelude.Result.{Result, ok, err, map_ok, and_then}
use onde_resilience.Metrics.{NodeMetrics, record_gossiped, with_metrics}
use onde_resilience.Protocol.{MeshEvent}
use onde_resilience.Protocol.Wire.{WireError, to_wire_bytes}
use onde_resilience.Protocol.Validate.{Crates, ValidationError, validate}

abbrev pub max_known_events : ℕ
max_known_events = 10000

abbrev pub max_pending_broadcasts : ℕ
max_pending_broadcasts = 1000

abbrev pub max_delivered_per_peer : ℕ
max_delivered_per_peer = 2000

pub record GossipProtocol : Type 0 where
  pub known_events : List String
  pub pending_broadcasts : List MeshEvent
  -- peer → ids of the events already sent to it
  pub delivered : Assoc (List String)
  pub metrics : Option NodeMetrics

abbrev pub new : GossipProtocol
new = record { known_events = []; pending_broadcasts = []; delivered = []; metrics = none }

unfoldable pub set_metrics : NodeMetrics → GossipProtocol → GossipProtocol
set_metrics m g = record g { metrics = some m }

unfoldable pub is_known : GossipProtocol → String → Bool
is_known g id = contains g.known_events id

unfoldable pub known_count : GossipProtocol → ℕ
known_count g = length g.known_events

abbrev pub ids_of : List MeshEvent → List String
ids_of events = map (λ (e : MeshEvent). e.id) events

-- The loop of `expire_old_known` over the ids: `evicted` of the `overflow` are gone.
unfoldable pub evict : List String → ℕ → ℕ → List String → List String → List String
evict keep overflow evicted [] known = known
evict keep overflow evicted (id ∷ ids) known = elim (leb overflow evicted) [
  | true ↦ known
  | false ↦ elim (contains keep id) [
    | true ↦ evict keep overflow evicted ids known
    | false ↦ evict keep overflow (suc evicted) ids (set_remove id known)
  ]
]

-- The loop of `peek_pending_for_peer` over the outbox.
unfoldable pub select : List String → ℕ → List MeshEvent → List MeshEvent → List MeshEvent
select delivered_set max [] to_send = to_send
select delivered_set max (event ∷ events) to_send = elim (leb max (length to_send)) [
  | true ↦ to_send
  | false ↦ elim (contains delivered_set event.id) [
    | true ↦ select delivered_set max events to_send
    | false ↦ select delivered_set max events (push_back to_send event)
  ]
]

-- `peek_pending_for_peer`: the entry of the peer is created where there is none.
unfoldable pub peek_pending_for_peer : GossipProtocol → String → ℕ → GossipProtocol × List MeshEvent
peek_pending_for_peer g peer_id max =
    let delivered_set = lookup_or [] peer_id g.delivered in
    if max == 0 then (g, []) else (
      record g { delivered = insert peer_id delivered_set g.delivered },
      select delivered_set max g.pending_broadcasts [],
    )

-- The loop of `mark_delivered_to_peer` over the ids.
unfoldable pub push_bounded : List String → List String → List String
push_bounded delivered_set [] = delivered_set
push_bounded delivered_set (id ∷ ids) =
    push_bounded
      (push_back
        (if leb max_delivered_per_peer (length delivered_set)
          then pop_front delivered_set
          else delivered_set)
        id)
      ids

unfoldable pub mark_delivered_to_peer : GossipProtocol → String → List String → GossipProtocol
mark_delivered_to_peer g peer_id [] = g
mark_delivered_to_peer g peer_id (id ∷ ids) = record g {
  delivered =
      insert peer_id (push_bounded (lookup_or [] peer_id g.delivered) (id ∷ ids)) g.delivered;
}

-- `usize::MAX`
abbrev pub usize_max : ℕ
usize_max = 18446744073709551615

unfoldable pub get_pending_for_peer : GossipProtocol → String → GossipProtocol × List MeshEvent
get_pending_for_peer g peer_id =
    let (peeked, to_send) = peek_pending_for_peer g peer_id usize_max in
    (mark_delivered_to_peer peeked peer_id (ids_of to_send), to_send)

module _ (crates : Crates) where
  -- `map(to_wire_bytes)` and `collect` into a `Result`.
  unfoldable pub collect_wire : List MeshEvent → Result WireError (List (List ℕ))
  collect_wire [] = ok []
  collect_wire (e ∷ events) =
      and_then (to_wire_bytes crates.hex e) λ packet. map_ok (◌∷◌ packet) (collect_wire events)

  unfoldable pub get_pending_for_peer_wire :
      GossipProtocol → String → GossipProtocol × Result WireError (List (List ℕ))
  get_pending_for_peer_wire g peer_id =
      let (sent, events) = get_pending_for_peer g peer_id in (sent, collect_wire events)

-- The first half of `insert_new`: the event goes into the set and into the bounded outbox.
unfoldable pub push_pending : GossipProtocol → MeshEvent → GossipProtocol
push_pending g event = record g {
  known_events = set_insert event.id g.known_events;
  pending_broadcasts =
      push_back
        (if leb max_pending_broadcasts (length g.pending_broadcasts)
          then pop_front g.pending_broadcasts
          else g.pending_broadcasts)
        event;
}

module _ (order : SetOrder) where
  unfoldable pub expire_old_known : GossipProtocol → GossipProtocol
  expire_old_known g = if leb (length g.known_events) max_known_events then g else record g {
    known_events =
        evict (ids_of g.pending_broadcasts) (length g.known_events - max_known_events) 0
          (order.iter g.known_events) g.known_events;
  }

  unfoldable pub insert_new : GossipProtocol → MeshEvent → GossipProtocol × Bool
  insert_new g event = elim (contains g.known_events event.id) [
    | true ↦ (g, false)
    | false ↦
        let pushed = push_pending g event in
        let settled =
          if ltb max_known_events (length pushed.known_events)
          then expire_old_known pushed
          else pushed in
        (record settled { metrics = with_metrics (record_gossiped 1) settled.metrics }, true)
  ]

  module _ (crates : Crates) where
    unfoldable pub add_event :
        ℕ → GossipProtocol → MeshEvent → GossipProtocol × Result ValidationError Bool
    add_event now g event = elim (validate crates now event) [
      | err reason ↦ (g, err reason)
      | ok _ ↦ let (after, added) = insert_new g event in (after, ok added)
    ]

    unfoldable pub receive_event : ℕ → GossipProtocol → MeshEvent → GossipProtocol × Bool
    receive_event now g event = elim (contains g.known_events event.id) [
      | true ↦ (g, false)
      | false ↦ elim (validate crates now event) [ ok _ ↦ insert_new g event | err _ ↦ (g, false) ]
    ]
