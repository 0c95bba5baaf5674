-- ===== src/Node/Healing.antt =====
-- The batches of core/src/node/mod.rs that bring a peer up to date after a partition.
use onde_resilience.Prelude.{
  ℕ, zero, suc, ◌+◌, ◌*◌, ◌≤◌, ◌≡◌, refl, ap, sym, ◌∙◌, String, true, false, inl, inr, List, [],
  ◌∷◌, ◌++◌, arith, ◌==◌, length, take, drop, contains, Bool-cases, length-append, length-map,
  length-take-le, length-drop, append-nil, str_eq, eq_iff, eq_refl, drop-all, drop-drop, ap₂,
  length-take-le_length,
}
use onde_resilience.Prelude.Sets.{Distinct, contains-append}
use onde_resilience.Protocol.{MeshEvent}
use onde_resilience.Gossip.{max_delivered_per_peer, ids_of, peek_pending_for_peer}
use onde_resilience.Gossip.Sending.{
  unsent, sent_to, peek_pending_for_peer_lem, mark_delivered_lem, mark_delivered-same,
}
use onde_resilience.Gossip.Once.{last-short}
use onde_resilience.Node.{Node, take_heal_batch}

unsent-append :
    (d m : List String) (events : List MeshEvent)
    → unsent (d ++ m) events ≡ unsent m (unsent d events)
unsent-append d m [] = refl
unsent-append d m (e ∷ events) = elim (Bool-cases (contains d e.id)) [
  | inl held ↦
      let both : contains (d ++ m) e.id ≡ true = ground (arith, contains-append d m e.id) in
      rw (both, held) (unsent-append d m events)
  | inr free ↦
      let same : contains (d ++ m) e.id ≡ contains m e.id =
        ground (arith, contains-append d m e.id) in
      elim (Bool-cases (contains m e.id)) [
        | inl later ↦ rw (same, free, later) (unsent-append d m events)
        | inr out ↦ rw (same, free, out) (ap (◌∷◌ e) (unsent-append d m events))
      ]
]

unsent-other :
    (x : String) (m : List String) (events : List MeshEvent)
    → contains (ids_of events) x ≡ false
    → unsent (x ∷ m) events ≡ unsent m events
unsent-other x m [] h = refl
unsent-other x m (e ∷ events) h =
    let apart : str_eq x e.id ≡ false = ground (arith, eq_iff x e.id, eq_iff e.id x) in
    elim (Bool-cases (contains m e.id)) [
      | inl held ↦ rw (apart, held) (unsent-other x m events (ground arith))
      | inr free ↦ rw (apart, free) (ap (◌∷◌ e) (unsent-other x m events (ground arith)))
    ]

unsent-all : (events : List MeshEvent) → unsent [] events ≡ events
unsent-all [] = refl
unsent-all (e ∷ events) = ap (◌∷◌ e) (unsent-all events)

-- Sending the first events of a list leaves the others.
unsent-take :
    (k : ℕ) (events : List MeshEvent)
    → Distinct (ids_of events)
    → unsent (ids_of (take k events)) events ≡ drop k events
unsent-take zero events once = unsent-all events
unsent-take (suc k) [] once = refl
unsent-take (suc k) (e ∷ events) once =
    rw (eq_refl e.id)
      (unsent-other e.id (ids_of (take k events)) events once.0 ∙ unsent-take k events once.1)

contains-unsent :
    (d : List String) (events : List MeshEvent) (x : String)
    → contains (ids_of events) x ≡ false
    → contains (ids_of (unsent d events)) x ≡ false
contains-unsent d [] x h = refl
contains-unsent d (e ∷ events) x h = elim (Bool-cases (contains d e.id)) [
  | inl held ↦ rw held (contains-unsent d events x (ground arith))
  | inr free ↦ rw free (ground (arith, contains-unsent d events x, h))
]

Distinct-unsent :
    (d : List String) (events : List MeshEvent)
    → Distinct (ids_of events)
    → Distinct (ids_of (unsent d events))
Distinct-unsent d [] once = tt
Distinct-unsent d (e ∷ events) once = elim (Bool-cases (contains d e.id)) [
  | inl held ↦ rw held (Distinct-unsent d events once.1)
  | inr free ↦ rw free (contains-unsent d events e.id once.0, Distinct-unsent d events once.1)
]

take-add {ℓ} :
    {A : Type ℓ} (m n k : ℕ) (xs : List A) → k ≡ m + n → take k xs ≡ take m xs ++ take n (drop m xs)
take-add zero n k xs h = ap (λ (i : ℕ). take i xs) (omega arith)
take-add (suc m) n zero xs h = absurd (omega arith)
take-add (suc m) zero (suc k) [] h = refl
take-add (suc m) (suc n) (suc k) [] h = refl
take-add (suc m) n (suc k) (x ∷ xs) h = ap (◌∷◌ x) (take-add m n k xs (omega arith))

take-long {ℓ} : {A : Type ℓ} (n : ℕ) (xs : List A) → length xs ≤ n → take n xs ≡ xs
take-long zero [] h = refl
take-long (suc n) [] h = refl
take-long zero (x ∷ xs) h = absurd (omega arith)
take-long (suc n) (x ∷ xs) h = ap (◌∷◌ x) (take-long n xs (omega arith))

nothing {ℓ} : {A : Type ℓ} (xs : List A) → length xs ≡ 0 → xs ≡ []
nothing [] h = refl
nothing (x ∷ xs) h = absurd (omega arith)

-- The transport asks so many times, and has all batches.
pub take_heal_batches : {F : Type 0} → ℕ → Node F → String → Node F × List MeshEvent
take_heal_batches zero n peer = (n, [])
take_heal_batches (suc rounds) n peer =
    let (after, batch) = take_heal_batch n peer in
    let (done, rest) = take_heal_batches rounds after peer in (done, batch ++ rest)

module _ {F : Type 0} where
  -- What the outbox still holds for a peer.
  abbrev pub missing : Node F → String → List MeshEvent
  missing n peer = unsent (sent_to n.gossip peer) n.gossip.pending_broadcasts

  heal_step :
      (n : Node F) (peer : String)
      → length (sent_to n.gossip peer) + length (missing n peer) ≤ max_delivered_per_peer
      → ((take_heal_batch n peer).1 ≡ take 32 (missing n peer))
        × ((take_heal_batch n peer).0.gossip.pending_broadcasts ≡ n.gossip.pending_broadcasts)
        × (sent_to (take_heal_batch n peer).0.gossip peer
            ≡ sent_to n.gossip peer ++ ids_of (take 32 (missing n peer)))
  unfolding take_heal_batch
  heal_step n peer room =
      let g = n.gossip in
      let u = missing n peer in
      let peeked = (peek_pending_for_peer g peer 32).0 in
      let batch = (peek_pending_for_peer g peer 32).1 in
      let (mine, kept, outbox, _, _) = peek_pending_for_peer_lem g peer 32 peer in
      elim (Bool-cases (length batch == 0)) [
        | inl none_left ↦
            let gone : take 32 u ≡ [] =
              nothing (take 32 u) (ground (arith, none_left, ap length mine)) in
            rw none_left (mine, outbox, kept ∙ rw gone (sym (append-nil (sent_to g peer))))
        | inr some_left ↦
            let sent = mark_delivered_lem peeked peer peer (ids_of batch) (rw kept (omega arith)) in
            let all = sent_to g peer ++ ids_of (take 32 u) in
            let short : length all ≤ max_delivered_per_peer = omega (
              arith,
              length-append (sent_to g peer) (ids_of (take 32 u)),
              length-map (λ (e : MeshEvent). e.id) (take 32 u),
              length-take-le_length 32 u,
            ) in
            rw some_left (
              mine,
              (mark_delivered-same peeked peer (ids_of batch)).1 ∙ outbox,
              sent ∙ rw (eq_refl peer, kept, mine) (last-short max_delivered_per_peer all short),
            )
      ]

  -- After one batch the peer misses what lay behind it.
  heal_rest :
      (n : Node F) (peer : String)
      → length (sent_to n.gossip peer) + length (missing n peer) ≤ max_delivered_per_peer
      → Distinct (ids_of n.gossip.pending_broadcasts)
      → missing (take_heal_batch n peer).0 peer ≡ drop 32 (missing n peer)
  heal_rest n peer room once =
      let (_, outbox, sent) = heal_step n peer room in
      rw (outbox, sent)
        (unsent-append (sent_to n.gossip peer) (ids_of (take 32 (missing n peer)))
            n.gossip.pending_broadcasts
          ∙ unsent-take 32 (missing n peer)
              (Distinct-unsent (sent_to n.gossip peer) n.gossip.pending_broadcasts once))

  -- While the peer's record and what it misses have at most 2,000 entries and the outbox holds each
  -- event once: as many batches as asked for bring the peer the first of the events that it misses,
  -- 32 for each batch, in order; it misses the others after that.
  pub take_heal_batches_lem :
      (rounds : ℕ) (n : Node F) (peer : String)
      → length (sent_to n.gossip peer) + length (missing n peer) ≤ max_delivered_per_peer
      → Distinct (ids_of n.gossip.pending_broadcasts)
      → ((take_heal_batches rounds n peer).1 ≡ take (rounds * 32) (missing n peer))
        × (missing (take_heal_batches rounds n peer).0 peer ≡ drop (rounds * 32) (missing n peer))
  unfolding take_heal_batches
  take_heal_batches_lem zero n peer room once =
      let none_asked : 0 ≡ 0 * 32 = omega arith in
      (
        ap (λ (k : ℕ). take k (missing n peer)) none_asked,
        ap (λ (k : ℕ). drop k (missing n peer)) none_asked,
      )
  take_heal_batches_lem (suc rounds) n peer room once =
      let u = missing n peer in
      let after = (take_heal_batch n peer).0 in
      let (batch, outbox, sent) = heal_step n peer room in
      let rest = heal_rest n peer room once in
      let left : length (sent_to after.gossip peer) + length (missing after peer)
          ≤ max_delivered_per_peer =
        omega (
          arith,
          ap length sent,
          ap length rest,
          length-append (sent_to n.gossip peer) (ids_of (take 32 u)),
          length-map (λ (e : MeshEvent). e.id) (take 32 u),
          length-take-le 32 u,
          length-take-le_length 32 u,
          length-drop 32 u,
        ) in
      let (more, done) = take_heal_batches_lem rounds after peer left (rw outbox once) in
      let next : suc rounds * 32 ≡ 32 + rounds * 32 = grind arith in
      (
        ap₂ (λ (xs ys : List MeshEvent). xs ++ ys) batch (more ∙ ap (take (rounds * 32)) rest)
            ∙ sym (take-add 32 (rounds * 32) (suc rounds * 32) u next),
        done
            ∙ ap (drop (rounds * 32)) rest
            ∙ sym (drop-drop 32 (rounds * 32) (suc rounds * 32) u next),
      )

  -- While the peer's record and what it misses have at most 2,000 entries and the outbox holds each
  -- event once, as many batches as what is missing takes at 32 events each bring the peer all of it,
  -- in order, and then nothing is missing.
  pub take_heal_batches_all :
      (rounds : ℕ) (n : Node F) (peer : String)
      → length (sent_to n.gossip peer) + length (missing n peer) ≤ max_delivered_per_peer
      → Distinct (ids_of n.gossip.pending_broadcasts)
      → length (missing n peer) ≤ rounds * 32
      → ((take_heal_batches rounds n peer).1 ≡ missing n peer)
        × (missing (take_heal_batches rounds n peer).0 peer ≡ [])
  take_heal_batches_all rounds n peer room once enough =
      let (first, then_missing) = take_heal_batches_lem rounds n peer room once in
      (
        first ∙ take-long (rounds * 32) (missing n peer) enough,
        then_missing ∙ drop-all (rounds * 32) (missing n peer) enough,
      )
