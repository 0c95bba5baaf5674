-- ===== src/Reputation/Endorsing.antt =====
-- `endorse` of core/src/reputation/mod.rs: who may endorse whom, and what an endorsement changes.
use onde_resilience.Prelude.{
  ℕ, ◌≡◌, ◌≢◌, refl, ◌∙◌, sym, ap, subst, String, Bool, true, false, ◌&&◌, ◌⊎◌, inl, inr, List, [],
  ◌∷◌, map, arith, if◌then◌else◌, leb, push_back, any_of, contains, Bool-cases, str_eq, eq_iff,
  eq_refl,
}
use onde_resilience.Prelude.Assoc.{lookup_or, insert, lookup_or-insert}
use onde_resilience.Prelude.Sets.{Distinct, Distinct-push_back, contains-push_back}
use onde_resilience.Prelude.Result.{ok, err}
use onde_resilience.Reputation.{
  Float, ReputationSystem, Endorsement, ReputationError, endorsement_threshold, trusted_threshold,
  endorsement_decay, required_endorsements, score, score_in, qualified, promote, endorse,
}

abbrev pub endorsers : List Endorsement → List String
endorsers list = map (λ (e : Endorsement). e.endorser) list

-- The endorsements that a node has received.
abbrev pub received : {F : Type 0} → ReputationSystem F → String → List Endorsement
received s pubkey = lookup_or [] pubkey s.endorsements

-- Nobody has endorsed a node twice, and no node has endorsed itself.
abbrev pub IsEndorsed : {F : Type 0} → ReputationSystem F → Type 0
IsEndorsed s =
    (pubkey : String)
    → Distinct (endorsers (received s pubkey))
      × (contains (endorsers (received s pubkey)) pubkey ≡ false)

any_of-contains :
    (list : List Endorsement) (endorser : String)
    → any_of (λ (e : Endorsement). str_eq e.endorser endorser) list
      ≡ contains (endorsers list) endorser
any_of-contains [] endorser = refl
any_of-contains (e ∷ list) endorser = rw (any_of-contains list endorser) refl

endorsers-push_back :
    (list : List Endorsement) (e : Endorsement)
    → endorsers (push_back list e) ≡ push_back (endorsers list) e.endorser
endorsers-push_back [] e = refl
endorsers-push_back (x ∷ list) e = ap (◌∷◌ x.endorser) (endorsers-push_back list e)

module _ {F : Type 0} (float : Float F) (s : ReputationSystem F) (endorser endorsed : String)
    (timestamp : ℕ) where
  abbrev pub endorsement : Endorsement
  endorsement = record { endorser = endorser; endorsed = endorsed; timestamp = timestamp }

  -- The score that the endorsement gives, before any promotion.
  abbrev pub gained : F
  gained =
      float.max (score float s endorsed)
        (float.mul (score float s endorser) (endorsement_decay float))

  -- The state after the endorsement has been taken.
  pub record IsTaken (after : ReputationSystem F) : Type 0 where
    pub taken_list : received after endorsed ≡ push_back (received s endorsed) endorsement
    pub taken_others :
        (other : String)
        → endorsed ≢ other
        → (received after other ≡ received s other)
          × (score float after other ≡ score float s other)
    pub taken_score : score float after endorsed ≡ (
        if leb required_endorsements
            (qualified float (insert endorsed gained s.scores) (received after endorsed))
          && float.lt gained (trusted_threshold float)
        then trusted_threshold float
        else gained)
    pub taken_activity : after.activity ≡ s.activity
    pub taken_abuse : after.abuse ≡ s.abuse
    pub taken_keys : after.abuse_report_keys ≡ s.abuse_report_keys
    pub taken_order : after.abuse_report_order ≡ s.abuse_report_order

  different : (a b : String) → a ≢ b → str_eq a b ≡ false
  different a b h = ground (arith, eq_iff a b)

  promoted :
      (b : Bool) (t : F) (other : String)
      → score_in float
          (if b
            then insert endorsed t (insert endorsed gained s.scores)
            else insert endorsed gained s.scores)
          other
        ≡ (if str_eq endorsed other then (if b then t else gained) else score float s other)
  unfolding score_in score
  promoted true t other =
      lookup_or-insert _ endorsed other t (insert endorsed gained s.scores)
      ∙ (elim (Bool-cases (str_eq endorsed other)) [
        | inl same ↦ rw same refl
        | inr apart ↦ rw apart (lookup_or-insert _ endorsed other gained s.scores ∙ rw apart refl)
      ])
  promoted false t other = lookup_or-insert _ endorsed other gained s.scores

  list_after : List Endorsement
  list_after = push_back (received s endorsed) endorsement

  after_taken : ReputationSystem F
  unfolding list_after
  after_taken = record s {
    scores = promote float s.scores list_after endorser endorsed;
    endorsements = insert endorsed list_after s.endorsements;
  }

  received-taken :
      (other : String)
      → received after_taken other
        ≡ (if str_eq endorsed other then list_after else received s other)
  unfolding after_taken
  received-taken other = lookup_or-insert [] endorsed other list_after s.endorsements

  is_promoted : Bool
  unfolding list_after
  is_promoted =
      leb required_endorsements (qualified float (insert endorsed gained s.scores) list_after)
      && float.lt gained (trusted_threshold float)

  score-taken :
      (other : String)
      → score float after_taken other ≡ (
          if str_eq endorsed other
          then (if is_promoted then trusted_threshold float else gained)
          else score float s other)
  unfolding after_taken promote is_promoted score
  score-taken other = promoted is_promoted (trusted_threshold float) other

  own_list : received after_taken endorsed ≡ list_after
  own_list = received-taken endorsed ∙ rw (eq_refl endorsed) refl

  taken : IsTaken after_taken
  unfolding list_after is_promoted after_taken
  taken = record {
    taken_list = own_list;
    taken_others = λ other apart. (
      received-taken other ∙ rw (different endorsed other apart) refl,
      score-taken other ∙ rw (different endorsed other apart) refl,
    );
    taken_score = score-taken endorsed ∙ rw (eq_refl endorsed, own_list) refl;
    taken_activity = refl;
    taken_abuse = refl;
    taken_keys = refl;
    taken_order = refl;
  }

  -- An endorsement fails, without a change, if a node endorses itself, is not trusted, or has
  -- endorsed the other before. Otherwise it is appended to those the other has received, the
  -- other's score becomes the better of its own and half the endorser's, or the threshold of trust
  -- where three qualified ones have been received and it is below. The score and the endorsements
  -- of no other node change, and the records of activity and of abuse stay.
  pub endorse_lem :
      ((endorse float s endorser endorsed timestamp ≡ (s, err ReputationError.self_endorsement))
        × (endorser ≡ endorsed))
      ⊎ (((endorse float s endorser endorsed timestamp
              ≡ (s, err ReputationError.endorser_not_trusted))
            × (endorser ≢ endorsed)
            × (float.lt (score float s endorser) (endorsement_threshold float) ≡ true))
          ⊎ (((endorse float s endorser endorsed timestamp
                  ≡ (s, err ReputationError.duplicate_endorsement))
                × (endorser ≢ endorsed)
                × (float.lt (score float s endorser) (endorsement_threshold float) ≡ false)
                × (contains (endorsers (received s endorsed)) endorser ≡ true))
              ⊎ ((endorser ≢ endorsed)
                  × (float.lt (score float s endorser) (endorsement_threshold float) ≡ false)
                  × (contains (endorsers (received s endorsed)) endorser ≡ false)
                  × ((endorse float s endorser endorsed timestamp).1
                      ≡ ok (score float (endorse float s endorser endorsed timestamp).0 endorsed))
                  × IsTaken (endorse float s endorser endorsed timestamp).0)))
  unfolding endorse promote score after_taken list_after
  endorse_lem = elim (Bool-cases (str_eq endorser endorsed)) [
    | inl self ↦ inl (rw self refl, (eq_iff endorser endorsed).0 self)
    | inr apart ↦
        let other : endorser ≢ endorsed = λ h. ground (arith, (eq_iff endorser endorsed).1 h) in
        elim (Bool-cases (float.lt (score float s endorser) (endorsement_threshold float))) [
          | inl weak ↦ inr (inl (rw (apart, weak) refl, other, weak))
          | inr strong ↦
              let seen = any_of-contains (received s endorsed) endorser in
              elim (Bool-cases
                (any_of (λ (e : Endorsement). str_eq e.endorser endorser) (received s endorsed))) [
                  | inl twice ↦
                      inr (
                        inr (inl (rw (apart, strong, twice) refl, other, strong, sym seen ∙ twice)))
                  | inr fresh ↦ inr (
                      inr (
                        inr (
                          other,
                          strong,
                          sym seen ∙ fresh,
                          rw (apart, strong, fresh) refl,
                          rw (apart, strong, fresh) taken,
                        )))
                ]
        ]
  ]

  -- Where every node's endorsers are distinct and the node is not among them, this holds after
  -- `endorse`, whatever it decides.
  pub endorse-IsEndorsed : IsEndorsed s → IsEndorsed (endorse float s endorser endorsed timestamp).0
  endorse-IsEndorsed good pubkey = elim endorse_lem [
    | inl (same, _) ↦ rw same (good pubkey)
    | inr (inl (same, _, _)) ↦ rw same (good pubkey)
    | inr (inr (inl (same, _, _, _))) ↦ rw same (good pubkey)
    | inr (inr (inr (other, _, fresh, _, after))) ↦ elim (Bool-cases (str_eq endorsed pubkey)) [
      | inr apart ↦
          let (list, _) =
            after.taken_others pubkey (λ h. ground (arith, (eq_iff endorsed pubkey).1 h)) in
          rw list (good pubkey)
      | inl same ↦
          let (distinct, absent) = good endorsed in
          subst
            (λ (p : String).
              Distinct (endorsers (received (endorse float s endorser endorsed timestamp).0 p))
              × (contains (endorsers (received (endorse float s endorser endorsed timestamp).0 p)) p
                  ≡ false))
            ((eq_iff endorsed pubkey).0 same)
            (rw (after.taken_list, endorsers-push_back (received s endorsed) endorsement)
              (
                Distinct-push_back (endorsers (received s endorsed)) endorser distinct fresh,
                contains-push_back (endorsers (received s endorsed)) endorser endorsed
                    ∙ rw (absent, different endorser endorsed other) refl,
              ))
    ]
  ]
