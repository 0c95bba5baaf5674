-- ===== src/Gossip/Once.antt =====
-- Nothing is sent twice to a peer (`get_pending_for_peer` of core/src/protocol/mod.rs).
use onde_resilience.Prelude.{
  ℕ, ◌+◌, ◌-◌, ◌≤◌, ◌≡◌, refl, ◌∙◌, String, true, not, List, [], ◌∷◌, ◌++◌, arith, length, contains,
  drop, Bool-cases, inl, inr, length-append, length-keep_if-le, length-map, eq_refl,
}
use onde_resilience.Prelude.Sets.{contains-append}
use onde_resilience.Protocol.{MeshEvent}
use onde_resilience.Gossip.{GossipProtocol, max_delivered_per_peer, ids_of, get_pending_for_peer}
use onde_resilience.Gossip.Sending.{unsent, last, sent_to, get_pending_for_peer_lem}

drop-zero : (n : ℕ) (ids : List String) → n ≡ 0 → drop n ids ≡ ids
drop-zero n ids h = rw h

pub last-short : (n : ℕ) (ids : List String) → length ids ≤ n → last n ids ≡ ids
last-short n ids h = drop-zero (length ids - n) ids (omega arith)

-- What is in a list that holds the sent ids and those of the unsent events is not sent.
unsent-covered :
    (d m : List String) (events : List MeshEvent)
    → ((x : String) → contains d x ≡ true → contains m x ≡ true)
    → ((x : String) → contains (ids_of (unsent d events)) x ≡ true → contains m x ≡ true)
    → unsent m events ≡ []
unsent-covered d m [] old fresh = refl
unsent-covered d m (e ∷ events) old fresh = elim (Bool-cases (contains d e.id)) [
  | inl held ↦ rw (old e.id held) (unsent-covered d m events old λ x i. fresh x (rw held i))
  | inr free ↦
      let here : contains m e.id ≡ true = fresh e.id (rw free (ground (arith, eq_refl e.id))) in
      rw here (unsent-covered d m events old λ x i. fresh x (rw free (ground arith)))
]

-- While a peer's record and the outbox together have at most 2,000 entries, a second call right
-- after the first sends the peer nothing.
pub get_pending_again :
    (g : GossipProtocol) (peer : String)
    → length (sent_to g peer) + length g.pending_broadcasts ≤ max_delivered_per_peer
    → (get_pending_for_peer (get_pending_for_peer g peer).0 peer).1 ≡ []
get_pending_again g peer room =
    let p = g.pending_broadcasts in
    let d = sent_to g peer in
    let after = (get_pending_for_peer g peer).0 in
    let size = length-keep_if-le (λ (e : MeshEvent). not (contains d e.id)) p in
    let grown = length-append d (ids_of (unsent d p)) in
    let count = length-map (λ (e : MeshEvent). e.id) (unsent d p) in
    let (_, sent, outbox, _, _) =
      get_pending_for_peer_lem g peer (omega arith) (omega arith) peer in
    let now : sent_to after peer ≡ d ++ ids_of (unsent d p) =
      sent
      ∙ rw (eq_refl peer)
          (last-short max_delivered_per_peer (d ++ ids_of (unsent d p)) (omega arith)) in
    let (again, _, _, _, _) =
      get_pending_for_peer_lem after peer (rw now (omega arith)) (rw outbox (omega arith)) peer in
    again
    ∙ rw (now, outbox)
        (unsent-covered d (d ++ ids_of (unsent d p)) p
          (λ x h. ground (arith, contains-append d (ids_of (unsent d p)) x))
          λ x h. ground (arith, contains-append d (ids_of (unsent d p)) x))
