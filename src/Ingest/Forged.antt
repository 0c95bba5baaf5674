-- ===== src/Ingest/Forged.antt =====
-- What the signature of a reputation event covers in core/src/node/mod.rs: its id, which the
-- handlers do not compute again.
use onde_resilience.Prelude.{
  ℕ, ◌≤◌, ◌≡◌, String, refl, true, false, arith, ltb, length, str_eq, eq_iff,
}
use onde_resilience.Prelude.Sets.{SetOrder}
use onde_resilience.Prelude.Result.{Result, ok}
use onde_resilience.Prelude.Utf8.{as_bytes}
use onde_resilience.Protocol.{OndeMessageType, MeshEvent}
use onde_resilience.Protocol.Validate.{Crates, signature_valid}
use onde_resilience.Tiers.{Deflate}
use onde_resilience.Spam.{MapOrder}
use onde_resilience.Reputation.{Float, Endorsement, apply_remote_endorsement}
use onde_resilience.Node.{Node}
use onde_resilience.Ingest.{Decoders, Handled}
use onde_resilience.Ingest.Receive.{is_endorsement, relay, checked, handle_incoming_endorsement}

module _ {F : Type 0} (float : Float F) (deflate : Deflate) (map_order : MapOrder)
    (set_order : SetOrder) (crates : Crates) (decoders : Decoders) (now : ℕ) (n : Node F) where
  checked_lem :
      {A : Type 0} (decode : String → Result String A) (author : A → String) (e : MeshEvent) (a : A)
      → signature_valid crates e ≡ true
      → length (as_bytes e.content) ≤ 1024
      → decode e.content ≡ ok a
      → author a ≡ e.pubkey
      → checked float deflate map_order set_order crates decoders decode author e ≡ ok a
  unfolding checked
  checked_lem decode author e a signed small decoded same =
      let here : str_eq (author a) e.pubkey ≡ true = (eq_iff (author a) e.pubkey).1 same in
      let fits : ltb 1024 (length (as_bytes e.content)) ≡ false = ground arith in
      rw (fits, decoded, here, signed) refl

  -- An endorsement that its announced author never signed: any event of the author, whatever its
  -- kind and content, whose signature is valid, gives one when a relay puts the kind and a content
  -- of at most 1,024 bytes in place of the signed ones. Where that content decodes to an
  -- endorsement by the author that the reputation accepts, the handler applies it.
  pub handle_incoming_endorsement-forged :
      (e : MeshEvent) (content : String) (a : Endorsement)
      → signature_valid crates e ≡ true
      → length (as_bytes content) ≤ 1024
      → decoders.endorsement content ≡ ok a
      → a.endorser ≡ e.pubkey
      → (apply_remote_endorsement float n.reputation a true).1 ≡ ok tt
      → ((handle_incoming_endorsement float deflate map_order set_order crates decoders now n
            (record e { kind = OndeMessageType.endorsement; content = content })).1
          ≡ Handled.applied tt)
        × ((handle_incoming_endorsement float deflate map_order set_order crates decoders now n
              (record e { kind = OndeMessageType.endorsement; content = content })).0.reputation
            ≡ (apply_remote_endorsement float n.reputation a true).0)
  unfolding handle_incoming_endorsement is_endorsement relay signature_valid
  handle_incoming_endorsement-forged e content a signed small decoded same accepted =
      let forged : MeshEvent = record e { kind = OndeMessageType.endorsement; content = content } in
      let good =
        checked_lem decoders.endorsement (λ (x : Endorsement). x.endorser) forged a signed small
          decoded same in
      rw (good, accepted) (refl, refl)
