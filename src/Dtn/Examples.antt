-- ===== src/Dtn/Examples.antt =====
-- Runs of the router of core/crates/dtn-router/src/lib.rs on concrete messages.
use onde_resilience.Prelude.{
  ℕ, ◌+◌, ◌%◌, ◌^◌, ◌||◌, if◌then◌else◌, ◌≡◌, ◌≢◌, refl, not, true, false, Bool, Option, none, some,
  String, [], ◌∷◌, map, arith, ◌⊎◌, get_elem?, All, eq_iff,
}
use onde_resilience.Prelude.Assoc.{lookup, lookup_or, insert}
use onde_resilience.Prelude.Words.{add_u8, add_u64}
use onde_resilience.Dtn.{
  MessageType, DtnMessage, DtnRouter, new, buffer, store, tick, encounter, collect_forwarded,
  count_store, is_worse, worst_loop, worst_index, priority_at, make_room, admit, expiry_loop,
  remove_each, decrement_ttl, tick_buffer, push_unique, mark_served, should_deliver, deliverable,
  hand_over, handover_loop, handover_buffer,
}
use onde_resilience.Dtn.Worst.{IsLeastUrgent, worst_index_lem}
use onde_resilience.Dtn.Store.{Policy, store-Policy, IsBounded, store-IsBounded}
use onde_resilience.Dtn.Served.{IsHandedTo, encounter_again, encounter-IsHandedTo}

abbrev note : String → Option String → ℕ → DtnMessage
note id dest priority = record {
  id = id;
  sender = "A";
  destination = dest;
  payload = [];
  msg_type = MessageType.alert;
  ttl = 5;
  hop_count = 0;
  timestamp_ms = 0;
  priority = priority;
  delivered_to = [];
}

abbrev two_notes : DtnRouter
two_notes = record (new 2) {
  buffers = ("A", note "low" (some "B") 9 ∷ note "all" none 3 ∷ []) ∷ [];
  max_buffer = 2;
}

program : Unit {0}
unfolding new lookup_or lookup insert add_u8 add_u64 is_worse worst_loop worst_index priority_at
    make_room admit count_store store expiry_loop remove_each decrement_ttl tick_buffer tick
    push_unique mark_served should_deliver deliverable hand_over handover_loop handover_buffer
    collect_forwarded encounter
program = tt

-- A full buffer drops its least urgent message for a more urgent one.
urgent_replaces :
    buffer (store two_notes "A" (note "now" (some "C") 0)).0 "A"
    ≡ note "all" none 3 ∷ note "now" (some "C") 0 ∷ []
unfolding program
urgent_replaces = refl

-- With a limit of 0 a buffer takes one message, and refuses the next that is no more urgent.
abbrev after_one : DtnRouter
after_one = (store (new 0) "A" (note "one" none 3)).0

limit_zero :
    ((store (new 0) "A" (note "one" none 3)).1 ≡ true)
    × ((store after_one "A" (note "two" none 3)).1 ≡ false)
unfolding program
limit_zero = (refl, refl)

-- The holder hands over both notes, and keeps the broadcast.
first_meeting :
    (map (λ m. m.id) (encounter two_notes "A" "B").1.1 ≡ "low" ∷ "all" ∷ [])
    × (map (λ m. m.id) (buffer (encounter two_notes "A" "B").0 "A") ≡ "all" ∷ [])
unfolding program
first_meeting = (refl, refl)

two_notes-IsBounded : IsBounded two_notes
unfolding program
two_notes-IsBounded node_id = ground (arith, eq_iff "A" node_id)

store-Policy_example :
    (replaced : Bool) × Policy 2
      (buffer two_notes "A")
      (note "now" (some "C") 0)
      (buffer (store two_notes "A" (note "now" (some "C") 0)).0 "A")
      replaced
      (store two_notes "A" (note "now" (some "C") 0)).1
    × (buffer (store two_notes "A" (note "now" (some "C") 0)).0 "B" ≡ buffer two_notes "B")
    × ((store two_notes "A" (note "now" (some "C") 0)).0.stats.total_stored ≡ (
        if (store two_notes "A" (note "now" (some "C") 0)).1
        then (two_notes.stats.total_stored + 1) % 2 ^ 64
        else two_notes.stats.total_stored))
    × ((store two_notes "A" (note "now" (some "C") 0)).0.stats.total_dropped ≡ (
        if replaced || not (store two_notes "A" (note "now" (some "C") 0)).1
        then (two_notes.stats.total_dropped + 1) % 2 ^ 64
        else two_notes.stats.total_dropped))
    × ((store two_notes "A" (note "now" (some "C") 0)).0.stats.total_forwarded
        ≡ two_notes.stats.total_forwarded)
    × ((store two_notes "A" (note "now" (some "C") 0)).0.stats.total_expired
        ≡ two_notes.stats.total_expired)
    × ((store two_notes "A" (note "now" (some "C") 0)).0.stats.total_delivered
        ≡ two_notes.stats.total_delivered)
    × ((store two_notes "A" (note "now" (some "C") 0)).0.max_buffer ≡ two_notes.max_buffer)
store-Policy_example = store-Policy two_notes "A" "B" (note "now" (some "C") 0)

store-IsBounded_example : IsBounded (store two_notes "A" (note "now" (some "C") 0)).0
store-IsBounded_example =
    store-IsBounded two_notes "A" (note "now" (some "C") 0) two_notes-IsBounded

encounter_again_example : (encounter (encounter two_notes "A" "B").0 "A" "B").1 ≡ ([], [])
encounter_again_example = encounter_again two_notes "A" "B"

apart : ◌≢◌ {A = String} "A" "B"
apart = ground (arith, eq_iff "A" "B")

encounter-IsHandedTo_example :
    All (IsHandedTo "B" "A") (encounter two_notes "A" "B").1.0
    × All (IsHandedTo "A" "B") (encounter two_notes "A" "B").1.1
unfolding program
encounter-IsHandedTo_example =
    encounter-IsHandedTo two_notes "A" "B" apart (omega arith) (omega arith)

worst_index_example :
    ((buffer two_notes "A" ≡ []) × (worst_index (buffer two_notes "A") ≡ none))
    ⊎ ((idx : ℕ) × (w : DtnMessage) × (worst_index (buffer two_notes "A") ≡ some idx)
        × (get_elem? (buffer two_notes "A") idx ≡ some w)
        × IsLeastUrgent w.priority w.timestamp_ms (buffer two_notes "A"))
worst_index_example = worst_index_lem (buffer two_notes "A")
