-- ===== src/Gossip/Evicting.antt =====
-- `expire_old_known` of core/src/protocol/mod.rs: how many ids leave, and which stay.
use onde_resilience.Prelude.{
  ℕ, suc, ◌+◌, ◌-◌, ◌≤◌, ◌≡◌, refl, ◌∙◌, sym, String, true, false, List, [], ◌∷◌, arith,
  if◌then◌else◌, ltb, leb, length, contains, Bool-cases, inl, inr, length-map, eq_iff, eq_refl,
}
use onde_resilience.Prelude.Sets.{
  SetOrder, Distinct, misses, length-misses, set_remove, contains-set_remove, Distinct-set_remove,
  length-set_remove,
}
use onde_resilience.Protocol.{MeshEvent}
use onde_resilience.Gossip.{GossipProtocol, max_known_events, ids_of, evict, expire_old_known}

module _ (keep : List String) (overflow : ℕ) where
  -- Nothing comes in, and what is in the outbox stays.
  contains-evict :
      (evicted : ℕ) (ids known : List String) (x : String)
      → (contains (evict keep overflow evicted ids known) x ≡ true → contains known x ≡ true)
        × (contains keep x ≡ true
            → contains known x ≡ true
            → contains (evict keep overflow evicted ids known) x ≡ true)
  unfolding evict
  contains-evict evicted [] known x = (λ h. h, λ k h. h)
  contains-evict evicted (id ∷ ids) known x = elim (Bool-cases (leb overflow evicted)) [
    | inl done ↦ rw (done, evict) (λ h. h, λ k h. h)
    | inr more ↦ elim (Bool-cases (contains keep id)) [
      | inl held ↦ rw (more, evict, held) (contains-evict evicted ids known x)
      | inr free ↦
          let (down, up) = contains-evict (suc evicted) ids (set_remove id known) x in
          let gone = contains-set_remove id known x in
          rw (more, evict, free)
            ((λ h. ground (arith, gone, down h)), λ k h. up k (ground (arith, gone, eq_iff id x)))
    ]
  ]

  Distinct-evict :
      (evicted : ℕ) (ids known : List String)
      → Distinct known
      → Distinct (evict keep overflow evicted ids known)
  unfolding evict
  Distinct-evict evicted [] known d = d
  Distinct-evict evicted (id ∷ ids) known d = elim (Bool-cases (leb overflow evicted)) [
    | inl done ↦ rw (done, evict) d
    | inr more ↦ elim (Bool-cases (contains keep id)) [
      | inl held ↦ rw (more, evict, held) (Distinct-evict evicted ids known d)
      | inr free ↦
          rw (more, evict, free)
            (Distinct-evict (suc evicted) ids (set_remove id known)
              (Distinct-set_remove id known d))
    ]
  ]

  -- Exactly the overflow leaves, where enough ids are not in the outbox.
  length-evict :
      (evicted : ℕ) (ids known : List String)
      → Distinct known
      → Distinct ids
      → ((x : String) → contains ids x ≡ true → contains known x ≡ true)
      → overflow ≤ evicted + length (misses keep ids)
      → length (evict keep overflow evicted ids known) + (overflow - evicted) ≡ length known
  unfolding evict misses
  length-evict evicted [] known d e sub enough = omega arith
  length-evict evicted (id ∷ ids) known d e sub enough = elim (Bool-cases (leb overflow evicted)) [
    | inl done ↦ rw (done, evict) (ground arith)
    | inr more ↦ elim (Bool-cases (contains keep id)) [
      | inl held ↦
          rw (more, evict, held)
            (length-evict evicted ids known d e.1 (λ x i. sub x (ground arith)) (ground arith))
      | inr free ↦
          let rest =
            length-evict (suc evicted) ids (set_remove id known) (Distinct-set_remove id known d)
              e.1 (λ x i. ground (arith, contains-set_remove id known x, sub x, e.0, eq_iff id x))
              (ground arith) in
          rw (more, evict, free)
            (ground
              (arith, length-set_remove id known d (sub id (ground (arith, eq_refl id))), rest))
    ]
  ]

not_over : (n : ℕ) → leb n max_known_events ≡ true → ltb max_known_events n ≡ false
not_over n h = ground arith

is_over : (n : ℕ) → leb n max_known_events ≡ false → ltb max_known_events n ≡ true
is_over n h = ground arith

module _ (order : SetOrder) (g : GossipProtocol) where
  -- The test of `insert_new` before the call is the one inside it.
  pub expire_old_known-twice :
      (if ltb max_known_events (length g.known_events) then expire_old_known order g else g)
      ≡ expire_old_known order g
  unfolding expire_old_known
  expire_old_known-twice = elim (Bool-cases (leb (length g.known_events) max_known_events)) [
    | inl fits ↦ rw (fits, not_over (length g.known_events) fits) refl
    | inr over ↦ rw (is_over (length g.known_events) over) refl
  ]

  -- With distinct known ids and at most 10,000 events in the outbox, `expire_old_known` leaves as
  -- many ids as the smaller of 10,000 and their number, distinct, adds none, takes away none that
  -- is in the outbox, and changes nothing else.
  pub expire_old_known_lem :
      Distinct g.known_events
      → length g.pending_broadcasts ≤ max_known_events
      → (length (expire_old_known order g).known_events ≡ (
          if leb (length g.known_events) max_known_events
          then length g.known_events
          else max_known_events))
        × Distinct (expire_old_known order g).known_events
        × ((x : String)
            → contains (expire_old_known order g).known_events x ≡ true
            → contains g.known_events x ≡ true)
        × ((x : String)
            → contains (ids_of g.pending_broadcasts) x ≡ true
            → contains g.known_events x ≡ true
            → contains (expire_old_known order g).known_events x ≡ true)
        × ((expire_old_known order g).pending_broadcasts ≡ g.pending_broadcasts)
        × ((expire_old_known order g).delivered ≡ g.delivered)
        × ((expire_old_known order g).metrics ≡ g.metrics)
  unfolding expire_old_known
  expire_old_known_lem d small = elim (Bool-cases (leb (length g.known_events) max_known_events)) [
    | inl fits ↦ rw fits (refl, d, λ x h. h, λ x k h. h, refl, refl, refl)
    | inr over ↦
        let keep = ids_of g.pending_broadcasts in
        let known = g.known_events in
        let ids = order.iter known in
        let overflow = length known - max_known_events in
        let free = length-misses ids keep (order.iter-Distinct known d) in
        let all = order.iter-length known in
        let count = length-map (λ (e : MeshEvent). e.id) g.pending_broadcasts in
        let size =
          length-evict keep overflow 0 ids known d (order.iter-Distinct known d)
            (λ x h. sym (order.iter-contains known x) ∙ h) (omega arith) in
        rw over (
          ground arith,
          Distinct-evict keep overflow 0 ids known d,
          λ x. (contains-evict keep overflow 0 ids known x).0,
          λ x. (contains-evict keep overflow 0 ids known x).1,
          refl,
          refl,
          refl,
        )
  ]
