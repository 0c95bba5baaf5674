-- ===== src/Dtn/Encounter.antt =====
-- `collect_forwarded` and `encounter` of core/crates/dtn-router/src/lib.rs: the loop over a buffer
-- against a description message by message.
use onde_resilience.Prelude.{
  ℕ, suc, ◌<◌, ◌≡◌, ◌∙◌, Bool, true, false, not, ◌&&◌, ◌||◌, none, some, String, List, [], ◌∷◌,
  ◌++◌, map, append_assoc, append-nil, arith, leb, if◌then◌else◌, length, keep_if, push_back,
  length-keep_if-le,
}
use onde_resilience.Prelude.Words.{u64_mod, add_u64}
use onde_resilience.Dtn.{
  DtnMessage, Handover, mark_served, should_deliver, deliverable, hand_over, handover_loop,
  handover_buffer,
}
use onde_resilience.Dtn.Removal.{hits, remove_hits, count_from, count_from-length}

-- The hop limit of the message is reached.
abbrev pub is_dead : DtnMessage → Bool
is_dead msg = leb msg.ttl msg.hop_count

abbrev pub is_broadcast : DtnMessage → Bool
is_broadcast msg = elim msg.destination [ none ↦ true | some _ ↦ false ]

-- The message is handed to `to`.
abbrev pub is_handed : String → DtnMessage → Bool
is_handed to msg = not (is_dead msg) && should_deliver to msg

-- The message leaves the buffer: it is dead, or a unicast that is handed over.
abbrev pub leaves : String → DtnMessage → Bool
leaves to msg = is_dead msg || (should_deliver to msg && not (is_broadcast msg))

module _ (from to : String) where
  -- A message as the loop leaves it behind.
  abbrev pub settled : DtnMessage → DtnMessage
  settled msg =
      if is_handed to msg && is_broadcast msg
      then record msg { delivered_to = mark_served from to msg.delivered_to }
      else msg

  -- One round of the loop.
  hand_over_lem :
      (idx : ℕ) (msg : DtnMessage) (acc : Handover)
      → hand_over from to idx msg acc ≡ (
        settled msg,
        record {
          forwarded =
              if is_handed to msg
              then push_back acc.forwarded (deliverable from to msg)
              else acc.forwarded;
          forwarded_count =
              if is_handed to msg then add_u64 acc.forwarded_count 1 else acc.forwarded_count;
          delivered_count =
              if is_handed to msg then add_u64 acc.delivered_count 1 else acc.delivered_count;
          expired_count = if is_dead msg then add_u64 acc.expired_count 1 else acc.expired_count;
          to_remove = if leaves to msg then push_back acc.to_remove idx else acc.to_remove;
        },
      )
  unfolding hand_over
  hand_over_lem idx msg acc = ground arith

  -- The loop, from any state on.
  handover_loop_lem :
      (idx : ℕ) (buf : List DtnMessage) (acc : Handover)
      → handover_loop from to idx buf acc ≡ (
        map settled buf,
        record {
          forwarded = acc.forwarded ++ map (deliverable from to) (keep_if (is_handed to) buf);
          forwarded_count = count_from acc.forwarded_count (keep_if (is_handed to) buf);
          delivered_count = count_from acc.delivered_count (keep_if (is_handed to) buf);
          expired_count = count_from acc.expired_count (keep_if is_dead buf);
          to_remove = acc.to_remove ++ hits (leaves to) idx buf;
        },
      )
  unfolding handover_loop
  handover_loop_lem idx [] acc = rw (append-nil, append-nil)
  handover_loop_lem idx (m ∷ rest) acc =
      rw (hand_over_lem, handover_loop_lem (suc idx) rest)
        (ground (
          arith,
          append_assoc acc.forwarded (deliverable from to m ∷ [])
              (map (deliverable from to) (keep_if (is_handed to) rest)),
          append_assoc acc.to_remove (idx ∷ []) (hits (leaves to) (suc idx) rest),
        ))

  -- The buffer that `collect_forwarded` leaves: what does not leave, in order, each message as the
  -- loop settles it.
  unfoldable pub kept : List DtnMessage → List DtnMessage
  kept buf = map settled (keep_if (λ m. not (leaves to m)) buf)

  -- What it hands over.
  unfoldable pub handed : List DtnMessage → List DtnMessage
  handed buf = map (deliverable from to) (keep_if (is_handed to) buf)

  pub handover_buffer-kept : (buf : List DtnMessage) → (handover_buffer from to buf).0 ≡ kept buf
  unfolding handover_buffer kept
  handover_buffer-kept buf = rw handover_loop_lem (remove_hits (leaves to) settled buf)

  pub forwarded-handover_buffer :
      (buf : List DtnMessage) → (handover_buffer from to buf).1.forwarded ≡ handed buf
  unfolding handover_buffer handed
  forwarded-handover_buffer buf = rw handover_loop_lem

  -- The three counters of a handover.
  pub counts-handover_buffer :
      (buf : List DtnMessage)
      → length buf < u64_mod
      → ((handover_buffer from to buf).1.forwarded_count ≡ length (keep_if (is_handed to) buf))
        × ((handover_buffer from to buf).1.delivered_count ≡ length (keep_if (is_handed to) buf))
        × ((handover_buffer from to buf).1.expired_count ≡ length (keep_if is_dead buf))
  unfolding handover_buffer
  counts-handover_buffer buf fits =
      let some_handed = length-keep_if-le (is_handed to) buf in
      let some_dead = length-keep_if-le is_dead buf in
      let a : count_from 0 (keep_if (is_handed to) buf) ≡ length (keep_if (is_handed to) buf) =
        count_from-length 0 (keep_if (is_handed to) buf) (omega arith) ∙ omega arith in
      let b : count_from 0 (keep_if is_dead buf) ≡ length (keep_if is_dead buf) =
        count_from-length 0 (keep_if is_dead buf) (omega arith) ∙ omega arith in
      rw handover_loop_lem (a, a, b)
