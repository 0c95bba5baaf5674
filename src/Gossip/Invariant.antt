-- ===== src/Gossip/Invariant.antt =====
-- What every state of the gossip keeps (core/src/protocol/mod.rs): the bounds on its three
-- collections, and an outbox of known events, each of them once.
use onde_resilience.Prelude.{
  suc, ◌≤◌, ◌<◌, ◌≡◌, refl, ◌∙◌, sym, ap, String, Bool, true, false, ◌||◌, List, [], ◌∷◌, arith,
  if◌then◌else◌, leb, length, contains, push_back, pop_front, length-append, eq_refl, str_eq,
}
use onde_resilience.Prelude.Sets.{
  SetOrder, Distinct, Distinct-push_back, contains-push_back, set_insert, contains-set_insert,
}
use onde_resilience.Metrics.{record_gossiped, with_metrics}
use onde_resilience.Protocol.{MeshEvent}
use onde_resilience.Gossip.{
  GossipProtocol, max_known_events, max_pending_broadcasts, max_delivered_per_peer, ids_of,
  expire_old_known, push_pending, insert_new,
}
use onde_resilience.Gossip.Sending.{sent_to}
use onde_resilience.Gossip.Evicting.{expire_old_known_lem, expire_old_known-twice}

pub record IsGossip (g : GossipProtocol) : Type 0 where
  pub known_distinct : Distinct g.known_events
  pub known_bounded : length g.known_events ≤ max_known_events
  pub outbox_bounded : length g.pending_broadcasts ≤ max_pending_broadcasts
  pub outbox_distinct : Distinct (ids_of g.pending_broadcasts)
  pub outbox_known :
      (x : String)
      → contains (ids_of g.pending_broadcasts) x ≡ true
      → contains g.known_events x ≡ true
  pub sent_bounded : (peer : String) → length (sent_to g peer) ≤ max_delivered_per_peer

-- The outbox after an event has been put in.
abbrev pub outbox_with : List MeshEvent → MeshEvent → List MeshEvent
outbox_with outbox event =
    push_back (if leb max_pending_broadcasts (length outbox) then pop_front outbox else outbox)
      event

map-push_back :
    (events : List MeshEvent) (e : MeshEvent)
    → ids_of (push_back events e) ≡ push_back (ids_of events) e.id
map-push_back [] e = refl
map-push_back (x ∷ events) e = ap (◌∷◌ x.id) (map-push_back events e)

contains-pop :
    (outbox : List MeshEvent) (x : String)
    → contains (ids_of (pop_front outbox)) x ≡ true
    → contains (ids_of outbox) x ≡ true
contains-pop [] x h = h
contains-pop (e ∷ outbox) x h = ground arith

Distinct-pop :
    (outbox : List MeshEvent) → Distinct (ids_of outbox) → Distinct (ids_of (pop_front outbox))
Distinct-pop [] d = tt
Distinct-pop (e ∷ outbox) d = d.1

length-outbox_pop :
    (outbox : List MeshEvent)
    → length outbox ≤ max_pending_broadcasts
    → length (if leb max_pending_broadcasts (length outbox) then pop_front outbox else outbox)
      < max_pending_broadcasts
length-outbox_pop [] h = omega arith
length-outbox_pop (e ∷ outbox) h = ground arith

-- What the outbox gives up leaves it distinct and known.
kept :
    (b : Bool) (outbox : List MeshEvent)
    → Distinct (ids_of outbox)
    → Distinct (ids_of (if b then pop_front outbox else outbox))
      × ((x : String)
          → contains (ids_of (if b then pop_front outbox else outbox)) x ≡ true
          → contains (ids_of outbox) x ≡ true)
kept true outbox d = (Distinct-pop outbox d, contains-pop outbox)
kept false outbox d = (d, λ x h. h)

length-set_insert :
    (x : String) (xs : List String)
    → contains xs x ≡ false
    → (length (set_insert x xs) ≡ suc (length xs)) × (set_insert x xs ≡ push_back xs x)
unfolding set_insert
length-set_insert x xs h = rw h (omega (arith, length-append xs (x ∷ [])), refl)

push_pending-fields :
    (g : GossipProtocol) (e : MeshEvent)
    → ((push_pending g e).pending_broadcasts ≡ outbox_with g.pending_broadcasts e)
      × ((push_pending g e).delivered ≡ g.delivered)
      × ((push_pending g e).metrics ≡ g.metrics)
      × (contains (ids_of (push_pending g e).pending_broadcasts) e.id ≡ true)
unfolding push_pending
push_pending-fields g e =
    let outbox =
      if leb max_pending_broadcasts (length g.pending_broadcasts)
      then pop_front g.pending_broadcasts
      else g.pending_broadcasts in
    (
      refl,
      refl,
      refl,
      rw (map-push_back outbox e)
          (contains-push_back (ids_of outbox) e.id e.id ∙ ground (arith, eq_refl e.id)),
    )

module _ (g : GossipProtocol) (e : MeshEvent) (good : IsGossip g)
    (new_id : contains g.known_events e.id ≡ false) where
  -- The state before the known events are brought back under their bound.
  pushed :
      Distinct (push_pending g e).known_events
      × (length (push_pending g e).known_events ≤ suc max_known_events)
      × (length (push_pending g e).pending_broadcasts ≤ max_pending_broadcasts)
      × Distinct (ids_of (push_pending g e).pending_broadcasts)
      × ((x : String)
          → contains (ids_of (push_pending g e).pending_broadcasts) x ≡ true
          → contains (push_pending g e).known_events x ≡ true)
      × ((x : String)
          → contains (push_pending g e).known_events x
            ≡ (contains g.known_events x || str_eq e.id x))
  unfolding push_pending
  pushed =
      let full = leb max_pending_broadcasts (length g.pending_broadcasts) in
      let outbox = if full then pop_front g.pending_broadcasts else g.pending_broadcasts in
      let (size, same) = length-set_insert e.id g.known_events new_id in
      let (distinct, sub) = kept full g.pending_broadcasts good.outbox_distinct in
      let ids : ids_of (push_back outbox e) ≡ push_back (ids_of outbox) e.id =
        map-push_back outbox e in
      let absent : contains (ids_of outbox) e.id ≡ false =
        ground (arith, sub e.id, good.outbox_known e.id) in
      (
        rw same (Distinct-push_back g.known_events e.id good.known_distinct new_id),
        omega (arith, good.known_bounded),
        omega (
          arith,
          length-append outbox (e ∷ []),
          length-outbox_pop g.pending_broadcasts good.outbox_bounded,
        ),
        rw ids (Distinct-push_back (ids_of outbox) e.id distinct absent),
        λ x h. ground (
          arith,
          contains-set_insert e.id g.known_events x,
          sym (ap (λ (l : List String). contains l x) ids) ∙ h,
          contains-push_back (ids_of outbox) e.id x,
          sub x,
          good.outbox_known x,
        ),
        λ x. contains-set_insert e.id g.known_events x,
      )

  module _ (order : SetOrder) where
    -- A new event is put in: it is known, it is the last of the outbox, no other id becomes known,
    -- nothing that is in the outbox is forgotten, and the peers' records stay.
    pub insert_new_lem :
        IsGossip (insert_new order g e).0
        × ((insert_new order g e).1 ≡ true)
        × ((insert_new order g e).0.pending_broadcasts ≡ outbox_with g.pending_broadcasts e)
        × (contains (insert_new order g e).0.known_events e.id ≡ true)
        × ((x : String)
            → contains (insert_new order g e).0.known_events x ≡ true
            → (contains g.known_events x || str_eq e.id x) ≡ true)
        × ((insert_new order g e).0.delivered ≡ g.delivered)
        × ((insert_new order g e).0.metrics ≡ with_metrics (record_gossiped 1) g.metrics)
    unfolding insert_new
    insert_new_lem =
        let (distinct, size, outbox, ids, known, holds) = pushed in
        let p = push_pending g e in
        let (count, still, down, up, same_outbox, same_sent, same_metrics) =
          expire_old_known_lem order p distinct (omega arith) in
        let (as_put, as_sent, as_counted, is_put) = push_pending-fields g e in
        let settled = expire_old_known order p in
        rw (new_id, insert_new, expire_old_known-twice order p)
          (
            record {
              known_distinct = still;
              known_bounded = ground arith;
              outbox_bounded = rw same_outbox outbox;
              outbox_distinct = rw same_outbox ids;
              outbox_known = rw same_outbox (λ x h. up x h (known x h));
              sent_bounded = λ peer. rw (same_sent, as_sent) (good.sent_bounded peer);
            },
            refl,
            same_outbox ∙ as_put,
            up e.id is_put (ground (arith, holds e.id, eq_refl e.id)),
            λ x h. sym (holds x) ∙ down x h,
            same_sent ∙ as_sent,
            rw (same_metrics, as_counted) refl,
          )
