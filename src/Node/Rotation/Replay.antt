-- ===== src/Node/Rotation/Replay.antt =====
-- Rotations one after the other (core/src/node/mod.rs): none is applied twice.
use onde_resilience.Prelude.{
  ℕ, ◌≡◌, ◌≢◌, ap, sym, ◌∙◌, String, true, false, inl, inr, Option, none, some, List, [], ◌∷◌,
  arith, if◌then◌else◌, str_eq, eq_iff, eq_refl, subst, Bool-cases,
}
use onde_resilience.Prelude.Assoc.{lookup}
use onde_resilience.Prelude.Sets.{SetOrder}
use onde_resilience.Prelude.Result.{Result, ok}
use onde_resilience.Protocol.{MeshEvent}
use onde_resilience.Protocol.Validate.{Crates}
use onde_resilience.Reputation.{Float}
use onde_resilience.Node.{Node, RotationPayload}
use onde_resilience.Node.Rotation.{applied, count_of, is_stale, handle_incoming_rotation}
use onde_resilience.Node.Rotation.Applied.{handle_incoming_rotation_lem}

overtakes :
    (last : Option ℕ) (old new : ℕ)
    → is_stale last old ≡ true
    → is_stale last new ≡ false
    → is_stale (some new) old ≡ true
unfolding is_stale
overtakes none old new h g = cc
overtakes (some last) old new h g = ground arith

stale_self : (count : ℕ) → is_stale (some count) count ≡ true
unfolding is_stale
stale_self count = ground arith

ok-injective :
    {a b : RotationPayload} → ◌≡◌ {A = Result String RotationPayload} (ok a) (ok b) → a ≡ b
ok-injective h = cc

module _ {F : Type 0} (float : Float F) (set_order : SetOrder) (crates : Crates)
    (decode : String → Result String RotationPayload) where
  -- Several rotations, each at its time.
  unfoldable pub rotate_all : Node F → List (ℕ × MeshEvent) → Node F
  rotate_all n [] = n
  rotate_all n ((now, e) ∷ events) =
      rotate_all (handle_incoming_rotation float set_order crates decode now n e).0 events

  stays_stale :
      (now : ℕ) (n : Node F) (e : MeshEvent) (peer : String) (count : ℕ)
      → is_stale (lookup peer n.peer_rotation_count) count ≡ true
      → is_stale
          (lookup peer
            (handle_incoming_rotation float set_order crates decode now n e).0.peer_rotation_count)
          count
        ≡ true
  stays_stale now n e peer count old =
      elim (handle_incoming_rotation_lem float set_order crates decode now n e) [
        | inl (_, same) ↦ rw same old
        | inr (r, _, after) ↦
            let (_, counted, _) = after peer in
            rw counted (elim (Bool-cases (str_eq e.pubkey peer)) [
              | inr apart ↦ rw apart old
              | inl same ↦ rw same (
                  overtakes (lookup peer n.peer_rotation_count) count (count_of r.payload.rotation)
                    old
                    (subst
                      (λ (p : String).
                        is_stale (lookup p n.peer_rotation_count) (count_of r.payload.rotation)
                        ≡ false)
                      ((eq_iff e.pubkey peer).0 same) r.newer))
            ])
      ]

  all_stale :
      (events : List (ℕ × MeshEvent)) (n : Node F) (peer : String) (count : ℕ)
      → is_stale (lookup peer n.peer_rotation_count) count ≡ true
      → is_stale (lookup peer (rotate_all n events).peer_rotation_count) count ≡ true
  unfolding rotate_all
  all_stale [] n peer count old = old
  all_stale ((now, e) ∷ events) n peer count old =
      all_stale events _ peer count (stays_stale now n e peer count old)

  -- A rotation that has been applied is not applied again, whatever rotations came in between and
  -- at whatever times.
  pub handle_incoming_rotation-once :
      (now later : ℕ) (n : Node F) (e : MeshEvent) (events : List (ℕ × MeshEvent))
      → (handle_incoming_rotation float set_order crates decode now n e).1 ≡ applied
      → (handle_incoming_rotation float set_order crates decode later
          (rotate_all (handle_incoming_rotation float set_order crates decode now n e).0 events)
          e).1
        ≢ applied
  handle_incoming_rotation-once now later n e events once =
      elim (handle_incoming_rotation_lem float set_order crates decode now n e) [
        | inl (refused, _) ↦ λ h. refused once
        | inr (r, _, after) ↦
            let (_, counted, _) = after e.pubkey in
            let held =
              counted
              ∙ ap
                  (λ b.
                    if b
                    then some (count_of r.payload.rotation)
                    else lookup e.pubkey n.peer_rotation_count)
                  (eq_refl e.pubkey) in
            let old =
              all_stale events (handle_incoming_rotation float set_order crates decode now n e).0
                e.pubkey (count_of r.payload.rotation)
                (rw held (stale_self (count_of r.payload.rotation))) in
            elim (handle_incoming_rotation_lem float set_order crates decode later
              (rotate_all (handle_incoming_rotation float set_order crates decode now n e).0 events)
              e) [
                | inl (refused, _) ↦ refused
                | inr (again, _, _) ↦
                    let same : again.payload ≡ r.payload =
                      ok-injective (sym again.decoded ∙ r.decoded) in
                    λ h. clash (
                      sym again.newer
                      ∙ ap
                          (λ p.
                            is_stale
                              (lookup e.pubkey
                                (rotate_all
                                  (handle_incoming_rotation float set_order crates decode now n e).0
                                  events).peer_rotation_count)
                              (count_of p.rotation))
                          same
                      ∙ old)
              ]
      ]
    where
      clash : false ≡ true → ⊥
      clash h = cc
