-- ===== src/Node/Examples.antt =====
-- The node of core/src/node/mod.rs on a concrete state.
use onde_resilience.Prelude.{
  ℕ, ◌+◌, ◌<◌, ◌≡◌, ◌≢◌, ◌↔◌, refl, String, true, false, some, [], ◌∷◌, arith, if◌then◌else◌,
  length,
}
use onde_resilience.Prelude.Assoc.{lookup, lookup_or, insert}
use onde_resilience.Prelude.Result.{Result, ok}
use onde_resilience.Protocol.{MeshEvent, OndeMessageType, kind_code}
use onde_resilience.Protocol.Validate.{signature_valid, compute_id, verify_from_pubkey}
use onde_resilience.Protocol.CratesExample.{crates, event}
use onde_resilience.Protocol.HexExample.{encode, decode}
use onde_resilience.Protocol.CratesExample.{sum, digest}
use onde_resilience.Protocol.Wire.{decode_hex}
use onde_resilience.Prelude.Utf8.{as_bytes}
use onde_resilience.Gossip.{is_known}
use onde_resilience.Gossip.Sending.{sent_to}
use onde_resilience.Spam.{
  u64_max, drop_stale, last_stamp, oldest, is_empty, evict_oldest, admit_with_budget,
}
use onde_resilience.Spam.Window.{in_window}
use onde_resilience.Spam.Admission.{IsGuard, admissions}
use onde_resilience.Reputation.{
  set_trusted, clamp, score_in, score, is_trusted, decayed_abuse, level_at, abuse_level, action_for,
  action_for_abuse,
}
use onde_resilience.Social.{is_hexdigit, all_hexdigits}
use onde_resilience.Node.{
  Node, RotationPayload, admitted, is_ignore, heal_grace_active, partition_suspected,
  note_peer_traffic, budget_at, admit_peer_event,
}
use onde_resilience.Node.NodeExample.{float, listed, insertion_order, hut}
use onde_resilience.Node.Presence.{note_peer_traffic_lem}
use onde_resilience.Node.Healing.{take_heal_batches, missing, take_heal_batches_all}
use onde_resilience.Node.Gate.{admit_peer_event_bounded}
use onde_resilience.Node.Rotation.{
  applied, is_rotation, announced_key, is_stale, is_current, apply_rotation,
  handle_incoming_rotation,
}
use onde_resilience.Node.Rotation.Replay.{rotate_all, handle_incoming_rotation-once}

program : Unit {0}
unfolding encode decode as_bytes sum digest kind_code decode_hex compute_id verify_from_pubkey
    signature_valid lookup lookup_or insert is_known set_trusted clamp score_in score is_trusted
    decayed_abuse level_at abuse_level action_for action_for_abuse drop_stale last_stamp oldest
    is_empty evict_oldest admit_with_budget heal_grace_active budget_at admit_peer_event is_rotation
    announced_key is_hexdigit all_hexdigits is_stale is_current apply_rotation
    handle_incoming_rotation
program = tt

-- Ana was heard at 100.
abbrev quiet : Node ℕ
quiet = record hut { peer_last_seen = ("ana", 100) ∷ [] }

note_peer_traffic_lem_example :
    ((later : ℕ)
      → later < 500 + 300
      → partition_suspected later (note_peer_traffic "bo" 500 quiet) ≡ false)
    × (partition_suspected 500 quiet ≡ true
        → (later : ℕ) → later < u64_max
        → (heal_grace_active later (note_peer_traffic "bo" 500 quiet) ≡ true) ↔ (later < 500 + 120))
    × (partition_suspected 500 quiet ≡ false
        → (note_peer_traffic "bo" 500 quiet).heal_grace_until ≡ quiet.heal_grace_until)
note_peer_traffic_lem_example = note_peer_traffic_lem quiet "bo" 500

-- Two events wait for ana.
abbrev laden : Node ℕ
laden = record hut {
  gossip = record hut.gossip {
    pending_broadcasts = record (event 0) { id = "a" } ∷ record (event 0) { id = "b" } ∷ [];
  };
}

laden_sizes : (length (sent_to laden.gossip "ana") ≡ 0) × (length (missing laden "ana") ≡ 2)
unfolding lookup_or lookup
laden_sizes = (refl, refl)

take_heal_batches_all_example :
    ((take_heal_batches 1 laden "ana").1 ≡ missing laden "ana")
    × (missing (take_heal_batches 1 laden "ana").0 "ana" ≡ [])
take_heal_batches_all_example =
    take_heal_batches_all 1 laden "ana" (omega (arith, laden_sizes)) (refl, (refl, tt))
      (omega (arith, laden_sizes))

hut-IsGuard : IsGuard 48 0 hut.spam_guard
unfolding lookup_or lookup
hut-IsGuard = record {
  authors_distinct = tt;
  tracked_bounded = omega arith;
  windows = λ author. tt;
  windows_bounded = λ author. omega arith;
}

foreign : (event 0).pubkey ≢ hut.pubkey
unfolding program
foreign h = cc

unknown : is_known hut.gossip (event 0).id ≡ false
unfolding program
unknown = refl

let_in : (admit_peer_event float listed crates 900 hut (event 0)).1 ≡ admitted
unfolding program
let_in = refl

admit_peer_event_bounded_example :
    (signature_valid crates (event 0) ≡ true)
    × (is_ignore (action_for float hut.reputation (event 0).pubkey 900) ≡ false)
    × (length (in_window 840 (admissions hut.spam_guard (event 0).pubkey))
        < (if heal_grace_active 900 hut then 48 else 12))
admit_peer_event_bounded_example =
    admit_peer_event_bounded float listed crates 900 hut (event 0) 48 0 hut-IsGuard foreign unknown
      let_in

abbrev payload_of : String → Result String RotationPayload
payload_of text = ok (record { x25519 = some (event 0).pubkey; rotation = some 3 })

abbrev rotation : MeshEvent
rotation = record (event 0) { kind = OndeMessageType.identity_rotation; content = "AAAA" }

rotated :
    (handle_incoming_rotation float insertion_order crates payload_of 900 hut rotation).1 ≡ applied
unfolding program
rotated = refl

handle_incoming_rotation-once_example :
    (handle_incoming_rotation float insertion_order crates payload_of 999
      (rotate_all float insertion_order crates payload_of
        (handle_incoming_rotation float insertion_order crates payload_of 900 hut rotation).0
        ((950, event 0) ∷ []))
      rotation).1
    ≢ applied
handle_incoming_rotation-once_example =
    handle_incoming_rotation-once float insertion_order crates payload_of 900 999 hut rotation
      ((950, event 0) ∷ []) rotated
