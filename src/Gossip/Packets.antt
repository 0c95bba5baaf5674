-- ===== src/Gossip/Packets.antt =====
-- `get_pending_for_peer_wire` of core/src/protocol/mod.rs: the packets of the events it sends.
use onde_resilience.Prelude.{
  ℕ, ◌≤◌, ◌≡◌, refl, ◌∙◌, ap, String, List, [], ◌∷◌, map, length, contains, All, Bool-cases, inl,
  inr,
}
use onde_resilience.Prelude.Result.{ok, and_then, map_ok}
use onde_resilience.Protocol.{MeshEvent}
use onde_resilience.Protocol.Wire.{from_wire_bytes}
use onde_resilience.Protocol.Wire.RoundTrip.{IsWireEvent, wire_round_trip}
use onde_resilience.Protocol.Validate.{Crates}
use onde_resilience.Gossip.{
  GossipProtocol, max_delivered_per_peer, usize_max, collect_wire, get_pending_for_peer_wire,
}
use onde_resilience.Gossip.Sending.{unsent, sent_to, get_pending_for_peer_lem}

module _ (crates : Crates) where
  -- An event that has a wire form.
  abbrev pub HasWire : MeshEvent → Type 0
  HasWire e = (id : List ℕ) × (key : List ℕ) × (sig : List ℕ) × IsWireEvent crates.hex e id key sig

  All-unsent :
      (sent : List String) (events : List MeshEvent)
      → All HasWire events
      → All HasWire (unsent sent events)
  All-unsent sent [] h = tt
  All-unsent sent (e ∷ events) h = elim (Bool-cases (contains sent e.id)) [
    | inl held ↦ rw held (All-unsent sent events h.1)
    | inr free ↦ rw free (h.0, All-unsent sent events h.1)
  ]

  collect_wire_lem :
      (events : List MeshEvent)
      → All HasWire events
      → (packets : List (List ℕ)) × (collect_wire crates events ≡ ok packets)
        × (map (from_wire_bytes crates.hex) packets ≡ map ok events)
  unfolding collect_wire
  collect_wire_lem [] h = ([], refl, refl)
  collect_wire_lem (e ∷ events) ((id, key, sig, wire), h) =
      let (packet, written, read, _) = wire_round_trip crates.hex e id key sig wire in
      let (packets, rest, all) = collect_wire_lem events h in
      (packet ∷ packets, rw (written, and_then, rest, map_ok) refl, rw (read, all) refl)

  -- While the peer's record has at most 2,000 ids and the outbox at most `usize::MAX` events, and
  -- every event of the outbox has a wire form, get_pending_for_peer_wire succeeds, and its packets
  -- decode, one by one, to the events that the peer has not been sent.
  pub get_pending_for_peer_wire_lem :
      (g : GossipProtocol) (peer : String)
      → length (sent_to g peer) ≤ max_delivered_per_peer
      → length g.pending_broadcasts ≤ usize_max
      → All HasWire g.pending_broadcasts
      → (packets : List (List ℕ)) × ((get_pending_for_peer_wire crates g peer).1 ≡ ok packets)
        × (map (from_wire_bytes crates.hex) packets
            ≡ map ok (unsent (sent_to g peer) g.pending_broadcasts))
  unfolding get_pending_for_peer_wire
  get_pending_for_peer_wire_lem g peer bound fits wires =
      let (sent, _, _, _, _) = get_pending_for_peer_lem g peer bound fits peer in
      let (packets, done, read) =
        collect_wire_lem (unsent (sent_to g peer) g.pending_broadcasts)
          (All-unsent (sent_to g peer) g.pending_broadcasts wires) in
      (packets, ap (collect_wire crates) sent ∙ done, read)
