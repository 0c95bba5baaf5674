-- ===== src/Reputation/Gate.antt =====
-- `validate_with_reputation` and `add_event_with_reputation` of core/src/protocol/mod.rs: the floor
-- of the proof of work that the author's reputation sets.
use onde_resilience.Prelude.{
  ℕ, ◌≤◌, ◌<◌, ◌≡◌, ◌⊎◌, inl, inr, refl, sym, ◌∙◌, Bool, true, false, arith, Bool-cases,
}
use onde_resilience.Prelude.Sets.{SetOrder}
use onde_resilience.Prelude.Result.{Result, ok, err}
use onde_resilience.Protocol.{MeshEvent}
use onde_resilience.Protocol.Validate.{Crates, ValidationError, validate_with_pow_min, verify_pow}
use onde_resilience.Protocol.Validate.Accepted.{validate_iff}
use onde_resilience.Gossip.{GossipProtocol, insert_new}
use onde_resilience.Reputation.{
  Float, ReputationSystem, is_trusted, stored_abuse_level, required_pow_difficulty,
}
use onde_resilience.Reputation.Work.{required_pow_difficulty_lem}

module _ {F : Type 0} (float : Float F) (crates : Crates) (reputation : ReputationSystem F)
    (now : ℕ) where
  unfoldable pub validate_with_reputation : MeshEvent → Result ValidationError (Unit {0})
  validate_with_reputation e =
      validate_with_pow_min crates now (required_pow_difficulty float reputation e.pubkey) e

  unfoldable pub add_event_with_reputation :
      SetOrder → GossipProtocol → MeshEvent → GossipProtocol × Result ValidationError Bool
  add_event_with_reputation order g event = elim (validate_with_reputation event) [
    | err reason ↦ (g, err reason)
    | ok _ ↦ let (after, added) = insert_new order g event in (after, ok added)
  ]

  floor :
      (e : MeshEvent)
      → is_trusted float reputation e.pubkey ≡ false
      → 2 ≤ required_pow_difficulty float reputation e.pubkey
  floor e untrusted =
      let (abused, _, _, between) = required_pow_difficulty_lem float reputation e.pubkey in
      elim (Bool-cases
        (float.le (float.hundredths 15) (stored_abuse_level float reputation e.pubkey))) [
          | inl high ↦ omega (arith, abused high)
          | inr low ↦ (between low untrusted).0
        ]

  -- An event of an author who is not trusted is refused without a change, however it is signed,
  -- where the difficulty it claims is below 2 or its work does not reach that difficulty.
  pub add_event_with_reputation_lem :
      (order : SetOrder) (g : GossipProtocol) (e : MeshEvent)
      → is_trusted float reputation e.pubkey ≡ false
      → (e.pow_difficulty < 2) ⊎ (verify_pow crates e.id e.pow_nonce e.pow_difficulty ≡ false)
      → (why : ValidationError) × (add_event_with_reputation order g e ≡ (g, err why))
  unfolding add_event_with_reputation validate_with_reputation
  add_event_with_reputation_lem order g e untrusted weak = decide (validate_with_reputation e) refl
    where
      bad : true ≡ false → ⊥
      bad h = cc

      decide :
          (r : Result ValidationError (Unit {0}))
          → validate_with_reputation e ≡ r
          → (why : ValidationError) × (add_event_with_reputation order g e ≡ (g, err why))
      decide (err why) h = (why, rw (h, add_event_with_reputation) refl)
      decide (ok _) h =
          let (key, sig, good) =
            (validate_iff crates now (required_pow_difficulty float reputation e.pubkey) e).0 h in
          absurd (elim weak [
            | inl low ↦ omega (arith, floor e untrusted, good.enough)
            | inr idle ↦ bad (sym good.worked ∙ idle)
          ])
