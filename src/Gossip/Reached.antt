-- ===== src/Gossip/Reached.antt =====
-- The states that any sequence of calls of `GossipProtocol` (core/src/protocol/mod.rs) reaches.
use onde_resilience.Prelude.{
  contains, Bool-cases, ℕ, ◌-◌, ◌≤◌, ◌≡◌, refl, String, Bool, true, false, inl, inr, List, [], ◌++◌,
  arith, if◌then◌else◌, length, length-drop, str_eq,
}
use onde_resilience.Prelude.Assoc.{lookup, lookup_or}
use onde_resilience.Prelude.Sets.{SetOrder}
use onde_resilience.Metrics.{NodeMetrics}
use onde_resilience.Protocol.{MeshEvent}
use onde_resilience.Protocol.Validate.{Crates}
use onde_resilience.Gossip.{
  insert_new, set_metrics, GossipProtocol, max_delivered_per_peer, usize_max, new, ids_of,
  add_event, receive_event, peek_pending_for_peer, mark_delivered_to_peer, get_pending_for_peer,
}
use onde_resilience.Gossip.Sending.{
  sent_to, last, mark_delivered_lem, mark_delivered-same, peek_pending_for_peer_lem,
}
use onde_resilience.Gossip.Invariant.{IsGossip, insert_new_lem}
use onde_resilience.Gossip.Receiving.{receive_event_lem, add_event_lem}

length-last-le : (n : ℕ) (ids : List String) → length (last n ids) ≤ n
length-last-le n ids = omega (arith, length-drop (length ids - n) ids)

module _ (g : GossipProtocol) (peer : String) (good : IsGossip g) where
  mark_delivered-IsGossip : (ids : List String) → IsGossip (mark_delivered_to_peer g peer ids)
  mark_delivered-IsGossip ids =
      let (known, outbox, _) = mark_delivered-same g peer ids in
      record {
        known_distinct = rw known good.known_distinct;
        known_bounded = rw known good.known_bounded;
        outbox_bounded = rw outbox good.outbox_bounded;
        outbox_distinct = rw outbox good.outbox_distinct;
        outbox_known = rw (outbox, known) good.outbox_known;
        sent_bounded = λ other.
            rw (mark_delivered_lem g peer other ids (good.sent_bounded peer))
              (either (str_eq peer other) other ids);
      }
    where
      either :
          (b : Bool) (other : String) (ids : List String)
          → length
              (if b then last max_delivered_per_peer (sent_to g peer ++ ids) else sent_to g other)
            ≤ max_delivered_per_peer
      either true other ids = length-last-le max_delivered_per_peer (sent_to g peer ++ ids)
      either false other ids = good.sent_bounded other

  peek-IsGossip : (max : ℕ) → IsGossip (peek_pending_for_peer g peer max).0
  peek-IsGossip max =
      let (_, _, outbox, known, _) = peek_pending_for_peer_lem g peer max peer in
      record {
        known_distinct = rw known good.known_distinct;
        known_bounded = rw known good.known_bounded;
        outbox_bounded = rw outbox good.outbox_bounded;
        outbox_distinct = rw outbox good.outbox_distinct;
        outbox_known = rw (outbox, known) good.outbox_known;
        sent_bounded = λ other.
            let (_, sent, _, _, _) = peek_pending_for_peer_lem g peer max other in
            rw sent (good.sent_bounded other);
      }

new_sent : (peer : String) → sent_to new peer ≡ []
unfolding lookup_or lookup
new_sent peer = refl

get_pending-IsGossip :
    (g : GossipProtocol) (peer : String) → IsGossip g → IsGossip (get_pending_for_peer g peer).0
unfolding get_pending_for_peer
get_pending-IsGossip g peer good =
    mark_delivered-IsGossip (peek_pending_for_peer g peer usize_max).0 peer
      (peek-IsGossip g peer good usize_max) (ids_of (peek_pending_for_peer g peer usize_max).1)

module _ (order : SetOrder) (crates : Crates) where
  -- One call, with any arguments and at any time.
  pub data Call : GossipProtocol → GossipProtocol → Type 0 where
    sets_metrics : (g : GossipProtocol) (m : NodeMetrics) → Call g (set_metrics m g)
    adds :
        (now : ℕ) (g : GossipProtocol) (e : MeshEvent) → Call g (add_event order crates now g e).0
    -- what `add_event_with_reputation` does to an event that meets its author's floor
    inserts : (g : GossipProtocol) (e : MeshEvent) → Call g (insert_new order g e).0
    receives :
        (now : ℕ) (g : GossipProtocol) (e : MeshEvent)
        → Call g (receive_event order crates now g e).0
    peeks :
        (g : GossipProtocol) (peer : String) (max : ℕ) → Call g (peek_pending_for_peer g peer max).0
    marks :
        (g : GossipProtocol) (peer : String) (ids : List String)
        → Call g (mark_delivered_to_peer g peer ids)
    sends : (g : GossipProtocol) (peer : String) → Call g (get_pending_for_peer g peer).0

  pub data IsReached : GossipProtocol → Type 0 where
    start : IsReached new
    call : (g h : GossipProtocol) → IsReached g → Call g h → IsReached h

  set_metrics-IsGossip :
      (m : NodeMetrics) (g : GossipProtocol) → IsGossip g → IsGossip (set_metrics m g)
  unfolding set_metrics
  set_metrics-IsGossip m g good = record {
    known_distinct = good.known_distinct;
    known_bounded = good.known_bounded;
    outbox_bounded = good.outbox_bounded;
    outbox_distinct = good.outbox_distinct;
    outbox_known = good.outbox_known;
    sent_bounded = good.sent_bounded;
  }

  pub insert_new-IsGossip :
      (g : GossipProtocol) (e : MeshEvent) → IsGossip g → IsGossip (insert_new order g e).0
  unfolding insert_new
  insert_new-IsGossip g e good = elim (Bool-cases (contains g.known_events e.id)) [
    | inl held ↦ rw (held, insert_new) good
    | inr free ↦ (insert_new_lem g e good free order).0
  ]

  Call-IsGossip : (g h : GossipProtocol) → Call g h → IsGossip g → IsGossip h
  Call-IsGossip _ _ (sets_metrics g m) good = set_metrics-IsGossip m g good
  Call-IsGossip _ _ (adds now g e) good = elim (add_event_lem order crates now g e good) [
    | inl (_, _, same) ↦ rw same good
    | inr (inl (_, _, same)) ↦ rw same good
    | inr (inr (_, _, _, _, after)) ↦ after
  ]
  Call-IsGossip _ _ (inserts g e) good = insert_new-IsGossip g e good
  Call-IsGossip _ _ (receives now g e) good = elim (receive_event_lem order crates now g e good) [
    | inl (same, _) ↦ rw same good
    | inr (_, _, _, _, after) ↦ after
  ]
  Call-IsGossip _ _ (peeks g peer max) good = peek-IsGossip g peer good max
  Call-IsGossip _ _ (marks g peer ids) good = mark_delivered-IsGossip g peer good ids
  Call-IsGossip _ _ (sends g peer) good = get_pending-IsGossip g peer good

  -- Every state that a sequence of calls reaches from a new protocol keeps its three collections
  -- under their bounds, and its outbox holds known events, each of them once.
  pub reached-IsGossip : (g : GossipProtocol) → IsReached g → IsGossip g
  reached-IsGossip _ start = record {
    known_distinct = tt;
    known_bounded = omega arith;
    outbox_bounded = omega arith;
    outbox_distinct = tt;
    outbox_known = λ x h. h;
    sent_bounded = λ peer. rw (new_sent peer) (omega arith);
  }
  reached-IsGossip _ (call g h before step) = Call-IsGossip g h step (reached-IsGossip g before)
