-- ===== src/Gossip/Sending.antt =====
-- What `get_pending_for_peer` of core/src/protocol/mod.rs sends, and what it remembers of it.
use onde_resilience.Prelude.{
  ℕ, zero, suc, ◌-◌, ◌≤◌, ◌≡◌, refl, sym, ap, ◌∙◌, String, not, List, [], ◌∷◌, ◌++◌, append_assoc,
  append-nil, arith, if◌then◌else◌, leb, ◌==◌, ==_iff, length, push_back, pop_front, contains, take,
  drop, keep_if, Bool-cases, inl, inr, length-append, length-keep_if-le, str_eq, eq_iff,
}
use onde_resilience.Prelude.Assoc.{lookup_or, lookup_or-insert}
use onde_resilience.Protocol.{MeshEvent}
use onde_resilience.Gossip.{
  GossipProtocol, max_delivered_per_peer, usize_max, ids_of, select, push_bounded,
  peek_pending_for_peer, mark_delivered_to_peer, get_pending_for_peer,
}

-- The events whose ids are not in a list, in order.
abbrev pub unsent : List String → List MeshEvent → List MeshEvent
unsent sent events = keep_if (λ (e : MeshEvent). not (contains sent e.id)) events

-- The last `n` elements.
abbrev pub last {ℓ} : {A : Type ℓ} → ℕ → List A → List A
last n xs = drop (length xs - n) xs

-- What a peer has been sent, as the state remembers it.
abbrev pub sent_to : GossipProtocol → String → List String
sent_to g peer = lookup_or [] peer g.delivered

take-none : (n : ℕ) (events acc : List MeshEvent) → n ≡ 0 → acc ≡ acc ++ take n events
take-none n events acc h = rw (h, append-nil)

take-empty : (n : ℕ) (acc : List MeshEvent) → acc ≡ acc ++ take n []
take-empty zero acc = rw append-nil
take-empty (suc n) acc = rw append-nil

take-one :
    (n k : ℕ) (e : MeshEvent) (events acc : List MeshEvent)
    → n ≡ suc k
    → push_back acc e ++ take k events ≡ acc ++ take n (e ∷ events)
take-one n k e events acc h = rw (h, append_assoc)

select_lem :
    (d : List String) (max : ℕ) (events acc : List MeshEvent)
    → length acc ≤ max
    → select d max events acc ≡ acc ++ take (max - length acc) (unsent d events)
unfolding select
select_lem d max [] acc h = take-empty (max - length acc) acc
select_lem d max (e ∷ events) acc h = elim (Bool-cases (leb max (length acc))) [
  | inl full ↦ rw (full, select) (take-none (max - length acc) _ acc (ground arith))
  | inr room ↦ elim (Bool-cases (contains d e.id)) [
    | inl held ↦ rw (room, select, held) (select_lem d max events acc h)
    | inr free ↦
        let rest =
          select_lem d max events (push_back acc e) (ground (arith, length-append acc (e ∷ []))) in
        rw (room, select, free)
          (rest
            ∙ take-one (max - length acc) (max - length (push_back acc e)) e (unsent d events) acc
                (ground (arith, length-append acc (e ∷ []))))
  ]
]

select-take :
    (d : List String) (max : ℕ) (events : List MeshEvent)
    → select d max events [] ≡ take max (unsent d events)
select-take d max events =
    select_lem d max events [] (omega arith)
    ∙ ap (λ (n : ℕ). take n (unsent d events)) (omega arith)

take-all : (n : ℕ) (events : List MeshEvent) → length events ≤ n → take n events ≡ events
take-all n [] h = sym (take-empty n [])
take-all zero (e ∷ events) h = elim h [ ]
take-all (suc n) (e ∷ events) h = ap (◌∷◌ e) (take-all n events (omega arith))

drop-none : (n : ℕ) (d : List String) → n ≡ 0 → d ≡ drop n (d ++ [])
drop-none n d h = rw (h, append-nil)

drop-cons : (i j : ℕ) (x : String) (ids : List String) → j ≡ suc i → drop i ids ≡ drop j (x ∷ ids)
drop-cons i j x ids h = rw h refl

length-pop :
    (d : List String) (n : ℕ) (id : String)
    → length d ≡ suc n
    → length (push_back (pop_front d) id) ≡ suc n
length-pop [] n id h = absurd (omega arith)
length-pop (x ∷ d) n id h = omega (arith, length-append d (id ∷ []))

-- A full list gives up its oldest element for a new one.
last-pop :
    (n : ℕ) (d : List String) (id : String) (ids : List String)
    → length d ≡ suc n
    → last (suc n) (push_back (pop_front d) id ++ ids) ≡ last (suc n) (d ++ id ∷ ids)
last-pop n [] id ids h = absurd (omega arith)
last-pop n (x ∷ d) id ids h = rw append_assoc (
    drop-cons (length (d ++ id ∷ ids) - suc n) (suc (length (d ++ id ∷ ids)) - suc n) x
      (d ++ id ∷ ids) (omega (arith, length-append d (id ∷ ids))))

push_bounded-last :
    (d ids : List String)
    → length d ≤ max_delivered_per_peer
    → push_bounded d ids ≡ last max_delivered_per_peer (d ++ ids)
unfolding push_bounded
push_bounded-last d [] h =
    drop-none (length (d ++ []) - max_delivered_per_peer) d (omega (arith, length-append d []))
push_bounded-last d (id ∷ ids) h = elim (Bool-cases (leb max_delivered_per_peer (length d))) [
  | inl full ↦
      let size : length d ≡ 2000 = ground arith in
      rw full (
        push_bounded-last (push_back (pop_front d) id) ids
          (omega (arith, length-pop d 1999 id size))
        ∙ last-pop 1999 d id ids size)
  | inr room ↦ rw room (
      push_bounded-last (push_back d id) ids (ground (arith, length-append d (id ∷ [])))
      ∙ ap (last max_delivered_per_peer) (append_assoc d (id ∷ []) ids))
]

pub mark_delivered_lem :
    (g : GossipProtocol) (peer other : String) (ids : List String)
    → length (sent_to g peer) ≤ max_delivered_per_peer
    → sent_to (mark_delivered_to_peer g peer ids) other ≡ (
        if str_eq peer other
        then last max_delivered_per_peer (sent_to g peer ++ ids)
        else sent_to g other)
unfolding mark_delivered_to_peer push_bounded
mark_delivered_lem g peer other [] h = elim (Bool-cases (str_eq peer other)) [
  | inl same ↦
      rw same (
        ap (sent_to g) (sym ((eq_iff peer other).0 same)) ∙ push_bounded-last (sent_to g peer) [] h)
  | inr apart ↦ rw apart refl
]
mark_delivered_lem g peer other (id ∷ ids) h =
    rw (push_bounded-last (sent_to g peer) (id ∷ ids) h)
      (lookup_or-insert [] peer other _ g.delivered)

pub mark_delivered-same :
    (g : GossipProtocol) (peer : String) (ids : List String)
    → ((mark_delivered_to_peer g peer ids).known_events ≡ g.known_events)
      × ((mark_delivered_to_peer g peer ids).pending_broadcasts ≡ g.pending_broadcasts)
      × ((mark_delivered_to_peer g peer ids).metrics ≡ g.metrics)
unfolding mark_delivered_to_peer
mark_delivered-same g peer [] = (refl, refl, refl)
mark_delivered-same g peer (id ∷ ids) = (refl, refl, refl)

module _ (g : GossipProtocol) (peer : String) where
  same_entry :
      (other : String)
      → (if str_eq peer other then sent_to g peer else sent_to g other) ≡ sent_to g other
  same_entry other = elim (Bool-cases (str_eq peer other)) [
    | inl same ↦ rw same (ap (sent_to g) ((eq_iff peer other).0 same))
    | inr apart ↦ rw apart refl
  ]

  -- `peek_pending_for_peer` selects the oldest events of the outbox that the peer has not been
  -- sent, at most as many as asked for. What the peers have been sent, the outbox, the known events
  -- and the metrics stay.
  pub peek_pending_for_peer_lem :
      (max : ℕ) (other : String)
      → ((peek_pending_for_peer g peer max).1
          ≡ take max (unsent (sent_to g peer) g.pending_broadcasts))
        × (sent_to (peek_pending_for_peer g peer max).0 other ≡ sent_to g other)
        × ((peek_pending_for_peer g peer max).0.pending_broadcasts ≡ g.pending_broadcasts)
        × ((peek_pending_for_peer g peer max).0.known_events ≡ g.known_events)
        × ((peek_pending_for_peer g peer max).0.metrics ≡ g.metrics)
  unfolding peek_pending_for_peer
  peek_pending_for_peer_lem max other = elim (Bool-cases (max == 0)) [
    | inl nothing ↦ rw nothing (
      take-none max (unsent (sent_to g peer) g.pending_broadcasts) [] ((==_iff max 0).0 nothing),
      refl,
      refl,
      refl,
      refl,
    )
    | inr some_asked ↦ rw some_asked (
      select-take (sent_to g peer) max g.pending_broadcasts,
      lookup_or-insert [] peer other (sent_to g peer) g.delivered ∙ same_entry other,
      refl,
      refl,
      refl,
    )
  ]

  -- While the peer's record has at most 2,000 ids and the outbox at most `usize::MAX` events,
  -- `get_pending_for_peer` sends exactly the events of the outbox that the peer has not been sent,
  -- in their order, and adds their ids to what it has been sent, of which the last 2,000 are kept.
  -- What the other peers have been sent, the outbox, the known events and the metrics stay.
  pub get_pending_for_peer_lem :
      length (sent_to g peer) ≤ max_delivered_per_peer
      → length g.pending_broadcasts ≤ usize_max
      → (other : String)
      → ((get_pending_for_peer g peer).1 ≡ unsent (sent_to g peer) g.pending_broadcasts)
        × (sent_to (get_pending_for_peer g peer).0 other ≡ (
            if str_eq peer other
            then last max_delivered_per_peer
                (sent_to g peer ++ ids_of (unsent (sent_to g peer) g.pending_broadcasts))
            else sent_to g other))
        × ((get_pending_for_peer g peer).0.pending_broadcasts ≡ g.pending_broadcasts)
        × ((get_pending_for_peer g peer).0.known_events ≡ g.known_events)
        × ((get_pending_for_peer g peer).0.metrics ≡ g.metrics)
  unfolding get_pending_for_peer
  get_pending_for_peer_lem bound fits other =
      let (mine, kept, outbox, known, metrics) = peek_pending_for_peer_lem usize_max peer in
      let (_, others, _, _, _) = peek_pending_for_peer_lem usize_max other in
      let peeked = (peek_pending_for_peer g peer usize_max).0 in
      let chosen = (peek_pending_for_peer g peer usize_max).1 in
      let all : chosen ≡ unsent (sent_to g peer) g.pending_broadcasts =
        mine
        ∙ take-all usize_max _ (
            omega (
              arith,
              length-keep_if-le (λ (e : MeshEvent). not (contains (sent_to g peer) e.id))
                  g.pending_broadcasts,
            )) in
      let same = mark_delivered-same peeked peer (ids_of chosen) in
      let marked = mark_delivered_lem peeked peer other (ids_of chosen) (rw kept bound) in
      let (known_after, outbox_after, metrics_after) = same in
      (
        all,
        marked ∙ rw (kept, others, all) refl,
        outbox_after ∙ outbox,
        known_after ∙ known,
        metrics_after ∙ metrics,
      )
