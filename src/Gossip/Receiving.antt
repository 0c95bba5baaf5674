-- ===== src/Gossip/Receiving.antt =====
-- `add_event` and `receive_event` of core/src/protocol/mod.rs: what is taken, and
-- what is refused without a change.
use onde_resilience.Prelude.{
  ℕ, ◌≡◌, refl, String, true, false, ◌||◌, ◌⊎◌, inl, inr, contains, Bool-cases, str_eq,
}
use onde_resilience.Prelude.Sets.{SetOrder}
use onde_resilience.Prelude.Result.{Result, ok, err}
use onde_resilience.Metrics.{record_gossiped, with_metrics}
use onde_resilience.Protocol.{MeshEvent}
use onde_resilience.Protocol.Validate.{Crates, ValidationError, validate}
use onde_resilience.Gossip.{GossipProtocol, insert_new, add_event, receive_event}
use onde_resilience.Gossip.Invariant.{IsGossip, outbox_with, insert_new_lem}

Result-cases {ℓ κ} :
    {E : Type κ} {A : Type ℓ} (r : Result E A) → ((e : E) × (r ≡ err e)) ⊎ ((a : A) × (r ≡ ok a))
Result-cases (err e) = inl (e, refl)
Result-cases (ok a) = inr (a, refl)

-- The accepted event `e` has come into the state `after`.
pub record IsTaken (g after : GossipProtocol) (e : MeshEvent) : Type 0 where
  pub taken_known : contains after.known_events e.id ≡ true
  pub taken_last : after.pending_broadcasts ≡ outbox_with g.pending_broadcasts e
  pub taken_only :
      (x : String)
      → contains after.known_events x ≡ true
      → (contains g.known_events x || str_eq e.id x) ≡ true
  pub taken_sent : after.delivered ≡ g.delivered
  pub taken_counted : after.metrics ≡ with_metrics (record_gossiped 1) g.metrics

module _ (order : SetOrder) (crates : Crates) (now : ℕ) (g : GossipProtocol) (e : MeshEvent) where
  inserted :
      IsGossip g
      → contains g.known_events e.id ≡ false
      → IsTaken g (insert_new order g e).0 e
        × ((insert_new order g e).1 ≡ true)
        × IsGossip (insert_new order g e).0
  inserted good new_id =
      let (is_good, done, outbox, known, only, sent, counted) =
        insert_new_lem g e good new_id order in
      (
        record {
          taken_known = known;
          taken_last = outbox;
          taken_only = only;
          taken_sent = sent;
          taken_counted = counted;
        },
        done,
        is_good,
      )

  -- In a state that keeps the bounds, `receive_event` either refuses an event that is known or not
  -- valid, and changes nothing, or takes one that is valid and not known into the known events and
  -- the outbox, and the bounds are kept.
  pub receive_event_lem :
      IsGossip g
      → ((receive_event order crates now g e ≡ (g, false))
          × ((contains g.known_events e.id ≡ true)
              ⊎ ((why : ValidationError) × (validate crates now e ≡ err why))))
        ⊎ (((receive_event order crates now g e).1 ≡ true)
            × (contains g.known_events e.id ≡ false)
            × (validate crates now e ≡ ok tt)
            × IsTaken g (receive_event order crates now g e).0 e
            × IsGossip (receive_event order crates now g e).0)
  unfolding receive_event
  receive_event_lem good = elim (Bool-cases (contains g.known_events e.id)) [
    | inl held ↦ inl (rw (held, receive_event), inl held)
    | inr free ↦ elim (Result-cases (validate crates now e)) [
      | inl (why, refused) ↦ inl (rw (free, receive_event, refused), inr (why, refused))
      | inr (_, valid) ↦
          let (taken, done, is_good) = inserted good free in
          inr (rw (free, receive_event, valid) (done, refl, refl, taken, is_good))
    ]
  ]

  -- In a state that keeps the bounds, `add_event` reports why an event is not valid, says `false`
  -- of one that is known, both without a change, and takes every other one, and the bounds are
  -- kept.
  pub add_event_lem :
      IsGossip g
      → ((why : ValidationError) × (validate crates now e ≡ err why)
          × (add_event order crates now g e ≡ (g, err why)))
        ⊎ (((validate crates now e ≡ ok tt)
              × (contains g.known_events e.id ≡ true)
              × (add_event order crates now g e ≡ (g, ok false)))
            ⊎ ((validate crates now e ≡ ok tt)
                × (contains g.known_events e.id ≡ false)
                × ((add_event order crates now g e).1 ≡ ok true)
                × IsTaken g (add_event order crates now g e).0 e
                × IsGossip (add_event order crates now g e).0))
  unfolding add_event insert_new
  add_event_lem good = elim (Result-cases (validate crates now e)) [
    | inl (why, refused) ↦ inl (why, refused, rw (refused, add_event))
    | inr (_, valid) ↦ elim (Bool-cases (contains g.known_events e.id)) [
      | inl held ↦ inr (inl (valid, held, rw (valid, add_event, held, insert_new)))
      | inr free ↦
          let (taken, done, is_good) = inserted good free in
          let (one, two, three) : ((add_event order crates now g e).1 ≡ ok true)
              × IsTaken g (add_event order crates now g e).0 e
              × IsGossip (add_event order crates now g e).0 =
            rw (valid, add_event, done) (refl, taken, is_good) in
          inr (inr (valid, free, one, two, three))
    ]
  ]
