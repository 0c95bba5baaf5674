-- ===== src/Node/Presence.antt =====
-- The book of present peers of core/src/node/mod.rs, and the partition that it suspects.
use onde_resilience.Prelude.{
  ℕ, ◌+◌, ◌-◌, ◌≤◌, ◌<◌, ◌≡◌, ◌↔◌, refl, String, Bool, true, false, not, inl, inr, some, [], ◌∷◌,
  arith, leb, any_of, Bool-cases, str_eq, eq_iff, eq_refl, contains,
}
use onde_resilience.Prelude.Assoc.{Assoc, lookup, insert, lookup-insert_self}
use onde_resilience.Prelude.Sets.{Distinct}
use onde_resilience.Spam.{keys, u64_max}
use onde_resilience.Node.{
  Node, silent, partition_suspected, note_peer_traffic, heal_grace_active, saturating_add,
  tracked_peers,
}

heard : ℕ → Assoc ℕ → Bool
heard now seen = any_of (λ entry. not (silent now entry)) seen

-- A peer that is looked up and has been heard is heard in the book.
lookup-heard :
    (now : ℕ) (seen : Assoc ℕ) (peer : String) (last : ℕ)
    → lookup peer seen ≡ some last
    → now - last < 300
    → heard now seen ≡ true
unfolding heard lookup
lookup-heard now [] peer last h recent = cc
lookup-heard now ((other, t) ∷ seen) peer last h recent = elim (Bool-cases (str_eq other peer)) [
  | inl same ↦ ground (arith, h, same)
  | inr apart ↦ ground (arith, h, apart, lookup-heard now seen peer last)
]

lookup-contains :
    (seen : Assoc ℕ) (peer : String) (last : ℕ)
    → lookup peer seen ≡ some last
    → contains (keys seen) peer ≡ true
unfolding lookup
lookup-contains [] peer last h = cc
lookup-contains ((other, t) ∷ seen) peer last h = ground (arith, lookup-contains seen peer last)

-- Where each peer stands once, the one that is heard is found by a look-up.
heard-lookup :
    (now : ℕ) (seen : Assoc ℕ)
    → Distinct (keys seen)
    → heard now seen ≡ true
    → (peer : String) × (last : ℕ) × (lookup peer seen ≡ some last) × (now - last < 300)
unfolding heard lookup
heard-lookup now [] once h = cc
heard-lookup now ((other, t) ∷ seen) once h = elim (Bool-cases (silent now (other, t))) [
  | inr recent ↦ (other, t, rw (eq_refl other) refl, ground arith)
  | inl quiet ↦
      let (peer, last, found, recent) = heard-lookup now seen once.1 (ground arith) in
      let apart : str_eq other peer ≡ false =
        ground (arith, eq_iff other peer, lookup-contains seen peer last found, once.0) in
      (peer, last, rw apart found, recent)
]

module _ {F : Type 0} (n : Node F) where
  -- Where the book holds each peer once: a partition is suspected exactly when the book is not empty
  -- and every peer of it was last heard 300 seconds ago or earlier.
  pub partition_suspected_iff :
      (now : ℕ)
      → Distinct (keys n.peer_last_seen)
      → (partition_suspected now n ≡ true) ↔ (
          (0 < tracked_peers n)
          × ((peer : String) (last : ℕ)
              → lookup peer n.peer_last_seen ≡ some last
              → 300 ≤ now - last))
  unfolding partition_suspected tracked_peers heard
  partition_suspected_iff now once = (
    λ h. (
      ground (arith, h),
      λ peer last found. elim (Bool-cases (leb 300 (now - last))) [
        | inl old ↦ ground (arith, old)
        | inr recent ↦ absurd (
            ground (
              arith,
              lookup-heard now n.peer_last_seen peer last found (ground (arith, recent)),
              h,
            ))
      ],
    ),
    λ h. elim (Bool-cases (heard now n.peer_last_seen)) [
      | inr none_heard ↦ ground (arith, none_heard, h.0)
      | inl some_heard ↦
          let (peer, last, found, recent) = heard-lookup now n.peer_last_seen once some_heard in
          absurd (omega (arith, h.1 peer last found, recent))
    ],
  )

  -- Hearing a peer ends every suspicion for 300 seconds, and grants 120 seconds of grace (up to
  -- the end of time) exactly where a partition was suspected.
  pub note_peer_traffic_lem :
      (peer : String) (now : ℕ)
      → ((later : ℕ)
          → later < now + 300
          → partition_suspected later (note_peer_traffic peer now n) ≡ false)
        × (partition_suspected now n ≡ true
            → (later : ℕ) → later < u64_max
            → (heal_grace_active later (note_peer_traffic peer now n) ≡ true) ↔ (later < now + 120))
        × (partition_suspected now n ≡ false
            → (note_peer_traffic peer now n).heal_grace_until ≡ n.heal_grace_until)
  unfolding note_peer_traffic heal_grace_active saturating_add
  note_peer_traffic_lem peer now = (
    λ later soon.
        let there =
          lookup-heard later (insert peer now n.peer_last_seen) peer now
            (lookup-insert_self peer now n.peer_last_seen) (omega arith) in
        unfold partition_suspected in unfold heard in ground (arith, there),
    λ h later early. rw h (ground arith, ground arith),
    λ h. rw h refl,
  )
