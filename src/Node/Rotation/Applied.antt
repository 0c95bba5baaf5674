-- ===== src/Node/Rotation/Applied.antt =====
-- When a rotation is applied, and what it changes (core/src/node/mod.rs).
use onde_resilience.Prelude.{
  ℕ, ◌≡◌, ◌≢◌, ◌⊎◌, refl, ◌∙◌, String, true, false, ◌&&◌, not, inl, inr, some, arith, if◌then◌else◌,
  str_eq, Bool-cases, Option-cases,
}
use onde_resilience.Prelude.Assoc.{lookup, lookup_or, insert, lookup-insert}
use onde_resilience.Prelude.Sets.{SetOrder}
use onde_resilience.Prelude.Result.{Result, Result-cases}
use onde_resilience.Protocol.{MeshEvent}
use onde_resilience.Protocol.Validate.{Crates, signature_valid}
use onde_resilience.Reputation.{Float, is_trusted}
use onde_resilience.Reputation.Gate.{add_event_with_reputation}
use onde_resilience.Node.{Node, RotationPayload}
use onde_resilience.Node.Rotation.{
  applied, is_rotation, count_of, announced_key, is_stale, is_current, apply_rotation,
  handle_incoming_rotation, IsRotation,
}

module _ {F : Type 0} (float : Float F) (set_order : SetOrder) (crates : Crates)
    (decode : String → Result String RotationPayload) where
  cases :
      (now : ℕ) (n : Node F) (e : MeshEvent)
      → (((handle_incoming_rotation float set_order crates decode now n e).1 ≢ applied)
          × ((handle_incoming_rotation float set_order crates decode now n e).0 ≡ n))
        ⊎ ((r : IsRotation float set_order crates decode n e) × (handle_incoming_rotation float
                set_order crates decode now n e
              ≡ (
                record (apply_rotation n e.pubkey r.key (count_of r.payload.rotation)) {
                  gossip =
                      (add_event_with_reputation float crates n.reputation now set_order n.gossip
                        e).0;
                },
                applied,
              )))
  unfolding handle_incoming_rotation apply_rotation
  cases now n e = elim (Bool-cases (is_rotation e.kind)) [
    | inr other ↦ rw other (inl (λ h. cc, refl))
    | inl kind ↦ elim (Result-cases (decode e.content)) [
      | inl (why, bad) ↦ rw (kind, bad) (inl (λ h. cc, refl))
      | inr (payload, good) ↦ elim (Option-cases (announced_key payload.x25519)) [
        | inl absent ↦ rw (kind, good, absent) (inl (λ h. cc, refl))
        | inr (key, held) ↦ elim (Bool-cases (signature_valid crates e)) [
          | inr forged ↦ rw (kind, good, held, forged) (inl (λ h. cc, refl))
          | inl signed ↦ elim (Bool-cases (is_trusted float n.reputation e.pubkey)) [
            | inr stranger ↦ rw (kind, good, held, signed, stranger) (inl (λ h. cc, refl))
            | inl known ↦
                elim (Bool-cases
                  (is_stale (lookup e.pubkey n.peer_rotation_count) (count_of payload.rotation))) [
                    | inl old ↦ rw (kind, good, held, signed, known, old) (inl (λ h. cc, refl))
                    | inr newer ↦
                        elim (Bool-cases (is_current (lookup e.pubkey n.peer_x25519) key)) [
                          | inl same ↦
                              rw (kind, good, held, signed, known, newer, same)
                                (inl (λ h. cc, refl))
                          | inr fresh ↦
                              rw (kind, good, held, signed, known, newer, fresh)
                                (inr (
                                  record {
                                    payload = payload;
                                    key = key;
                                    of_kind = kind;
                                    decoded = good;
                                    announced = held;
                                    signed = signed;
                                    trusted = known;
                                    newer = newer;
                                    fresh = fresh;
                                  },
                                  refl,
                                ))
                        ]
                  ]
          ]
        ]
      ]
    ]
  ]

  -- A rotation is either not applied, and the node is as before; or it is signed, from a trusted
  -- author, newer than the last one and of another key, and then the key and the counter of the
  -- author are the announced ones, the key before is the one in grace, and nothing changes for
  -- another peer.
  pub handle_incoming_rotation_lem :
      (now : ℕ) (n : Node F) (e : MeshEvent)
      → (((handle_incoming_rotation float set_order crates decode now n e).1 ≢ applied)
          × ((handle_incoming_rotation float set_order crates decode now n e).0 ≡ n))
        ⊎ ((r : IsRotation float set_order crates decode n e) × ((handle_incoming_rotation float
                set_order crates decode now n e).1
              ≡ applied)
            × ((peer : String)
                → (lookup peer
                      (handle_incoming_rotation float set_order crates decode now n e).0.peer_x25519
                    ≡ (if str_eq e.pubkey peer then some r.key else lookup peer n.peer_x25519))
                  × (lookup peer
                        (handle_incoming_rotation float set_order crates decode now n
                          e).0.peer_rotation_count
                      ≡ (if str_eq e.pubkey peer
                          then some (count_of r.payload.rotation)
                          else lookup peer n.peer_rotation_count))
                  × (lookup peer
                        (handle_incoming_rotation float set_order crates decode now n
                          e).0.peer_x25519_grace
                      ≡ (if str_eq e.pubkey peer
                            && not (str_eq (lookup_or "" e.pubkey n.peer_x25519) "")
                          then some (lookup_or "" e.pubkey n.peer_x25519)
                          else lookup peer n.peer_x25519_grace))))
  unfolding apply_rotation
  handle_incoming_rotation_lem now n e = elim (cases now n e) [
    | inl refused ↦ inl refused
    | inr (r, same) ↦ rw same (
        inr (
          r,
          refl,
          λ peer. (
            lookup-insert e.pubkey peer r.key n.peer_x25519,
            lookup-insert e.pubkey peer (count_of r.payload.rotation) n.peer_rotation_count,
            graced peer (Bool-cases (str_eq (lookup_or "" e.pubkey n.peer_x25519) "")),
          ),
        ))
  ]
    where
      graced :
          (peer : String)
          → (str_eq (lookup_or "" e.pubkey n.peer_x25519) "" ≡ true)
            ⊎ (str_eq (lookup_or "" e.pubkey n.peer_x25519) "" ≡ false)
          → lookup peer (
              if str_eq (lookup_or "" e.pubkey n.peer_x25519) ""
              then n.peer_x25519_grace
              else insert e.pubkey (lookup_or "" e.pubkey n.peer_x25519) n.peer_x25519_grace)
            ≡ (if str_eq e.pubkey peer && not (str_eq (lookup_or "" e.pubkey n.peer_x25519) "")
                then some (lookup_or "" e.pubkey n.peer_x25519)
                else lookup peer n.peer_x25519_grace)
      graced peer (inl empty) = rw empty (ground arith)
      graced peer (inr full) = rw full (
          lookup-insert e.pubkey peer (lookup_or "" e.pubkey n.peer_x25519) n.peer_x25519_grace
          ∙ ground arith)
