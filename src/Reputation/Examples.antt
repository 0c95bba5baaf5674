-- ===== src/Reputation/Examples.antt =====
-- The reputation of core/src/reputation/mod.rs on concrete states, with whole hundredths in place
-- of floating-point numbers.
use onde_resilience.Prelude.{
  min, ℕ, ◌+◌, ◌-◌, ◌*◌, ◌/◌, ◌≤◌, ◌≡◌, ◌≢◌, ◌⊎◌, inl, refl, String, true, false, some, [], ◌∷◌,
  arith, if◌then◌else◌, ltb, leb, contains,
}
use onde_resilience.Prelude.Assoc.{lookup, lookup_or, insert}
use onde_resilience.Prelude.Result.{ok, err}
use onde_resilience.Protocol.CratesExample.{crates, event}
use onde_resilience.Protocol.Validate.{ValidationError}
use onde_resilience.Prelude.Sets.{SetOrder}
use onde_resilience.Gossip.{new as new_gossip}
use onde_resilience.Spam.{from_code}
use onde_resilience.Reputation.{
  Float, ReputationSystem, AbuseReport, ReputationError, clamp, set_trusted, bootstrap, score_in,
  score, is_trusted, qualified, promote, endorse, stored_abuse_level, clamp_u8,
  required_pow_difficulty_inner, required_pow_difficulty, decayed_abuse, level_at, record_abuse,
  fold_abuse_decay, forget, has_key, key_eq, apply_remote_abuse_report, new,
}
use onde_resilience.Reputation.Work.{IsF64, IsOwed, required_pow_difficulty-IsOwed}
use onde_resilience.Reputation.Endorsing.{IsEndorsed, IsTaken, endorsers, received, endorse_lem}
use onde_resilience.Reputation.Reporting.{IsReported, IsQualified, apply_remote_abuse_report_lem}
use onde_resilience.Reputation.Recovery.{fold_at, fold_at_lem}
use onde_resilience.Reputation.Gate.{add_event_with_reputation, add_event_with_reputation_lem}

abbrev float : Float ℕ
float = record {
  hundredths = λ n. n;
  of_u64 = λ n. n * 100;
  round_u8 = λ x. min 255 ((x + 50) / 100);
  le = leb;
  lt = ltb;
  add = λ x y. x + y;
  sub = λ x y. x - y;
  mul = λ x y. x * y / 100;
  div = λ x y. x * 100 / y;
  max = λ x y. if ltb x y then y else x;
  min = λ x y. if ltb y x then y else x;
}

program : Unit {0}
unfolding lookup lookup_or insert clamp set_trusted bootstrap score_in score is_trusted qualified
    promote endorse stored_abuse_level clamp_u8 required_pow_difficulty_inner
    required_pow_difficulty decayed_abuse level_at record_abuse fold_abuse_decay forget has_key
    key_eq apply_remote_abuse_report from_code
program = tt

abbrev founded : ReputationSystem ℕ
founded = bootstrap float (new float) ("ana" ∷ "bo" ∷ "cy" ∷ [])

abbrev twice : ReputationSystem ℕ
twice = (endorse float (endorse float founded "ana" "dan" 1).0 "bo" "dan" 2).0

-- Two endorsements give 0.40, a third one trust; then no work is due.
promoted :
    (score float twice "dan" ≡ 40)
    × ((endorse float twice "cy" "dan" 3).1 ≡ ok 70)
    × (required_pow_difficulty float twice "dan" ≡ 3)
    × (required_pow_difficulty float (endorse float twice "cy" "dan" 3).0 "dan" ≡ 0)
    × (required_pow_difficulty float twice "eve" ≡ 4)
    × ((endorse float twice "ana" "dan" 9).1 ≡ err ReputationError.duplicate_endorsement)
unfolding program
promoted = (refl, refl, refl, refl, refl, refl)

-- The same in millionths, where the quotients of two hundredths are fine enough.
abbrev fine : Float ℕ
fine = record {
  hundredths = λ n. n * 10000;
  of_u64 = λ n. n * 1000000;
  round_u8 = λ x. min 255 ((x + 500000) / 1000000);
  le = leb;
  lt = ltb;
  add = λ x y. x + y;
  sub = λ x y. x - y;
  mul = λ x y. x * y / 1000000;
  div = λ x y. x * 1000000 / y;
  max = λ x y. if ltb x y then y else x;
  min = λ x y. if ltb y x then y else x;
}

fine-IsF64 : IsF64 fine
fine-IsF64 = record {
  le_trans = λ h k. ground arith;
  literals = λ a b ha hb. ground arith;
  div_le = λ h. ground arith;
  mul_le = λ h. ground arith;
  sub_le = λ h. ground arith;
  round_le = λ h. ground arith;
  at_17 = refl;
  at_18 = refl;
  at_52 = refl;
  at_53 = refl;
}

-- Dan has a score of 0.35.
abbrev half_way : ReputationSystem ℕ
half_way = record (new fine) { scores = ("dan", 350000) ∷ [] }

half_way-IsOwed :
    IsOwed fine (stored_abuse_level fine half_way "dan") (score fine half_way "dan") 3 3
unfolding program
half_way-IsOwed = IsOwed.middle refl refl refl

required_pow_difficulty-IsOwed_example :
    (3 ≤ required_pow_difficulty fine half_way "dan")
    × (required_pow_difficulty fine half_way "dan" ≤ 3)
required_pow_difficulty-IsOwed_example =
    required_pow_difficulty-IsOwed fine fine-IsF64 half_way "dan" 3 3 half_way-IsOwed

abbrev cy : String
cy = "cy"

abbrev dan : String
dan = "dan"

endorse_lem_example :
    ((endorse float twice cy dan 3 ≡ (twice, err ReputationError.self_endorsement)) × (cy ≡ dan))
    ⊎ (((endorse float twice cy dan 3 ≡ (twice, err ReputationError.endorser_not_trusted))
          × (cy ≢ dan)
          × (ltb (score float twice cy) 70 ≡ true))
        ⊎ (((endorse float twice cy dan 3 ≡ (twice, err ReputationError.duplicate_endorsement))
              × (cy ≢ dan)
              × (ltb (score float twice cy) 70 ≡ false)
              × (contains (endorsers (received twice dan)) cy ≡ true))
            ⊎ ((cy ≢ dan)
                × (ltb (score float twice cy) 70 ≡ false)
                × (contains (endorsers (received twice dan)) cy ≡ false)
                × ((endorse float twice cy dan 3).1
                    ≡ ok (score float (endorse float twice cy dan 3).0 dan))
                × IsTaken float twice cy dan 3 (endorse float twice cy dan 3).0)))
endorse_lem_example = endorse_lem float twice cy dan 3

founded-IsEndorsed : IsEndorsed founded
unfolding program
founded-IsEndorsed pubkey = (tt, refl)

abbrev flood : AbuseReport
flood = record { reporter = "ana"; offender = "eve"; reason = 1; timestamp = 7200 }

founded-IsReported : IsReported founded
unfolding program
founded-IsReported = record {
  reported_same = refl;
  reported_distinct = tt;
  reported_bounded = omega arith;
}

apply_remote_abuse_report_lem_example :
    IsReported (apply_remote_abuse_report float founded flood true).0
    × (((why : ReputationError) × (apply_remote_abuse_report float founded flood true
            ≡ (founded, err why)))
        ⊎ (IsQualified float founded flood true
            × ((level : ℕ) × ((apply_remote_abuse_report float founded flood true).1 ≡ ok level))))
apply_remote_abuse_report_lem_example =
    apply_remote_abuse_report_lem float founded flood true founded-IsReported

flood_counts : (apply_remote_abuse_report float founded flood true).1 ≡ ok 10
unfolding program
flood_counts = refl

abbrev abusive : ReputationSystem ℕ
abusive = record (new float) { abuse = ("eve", record { score = 30; updated_at = 0 }) ∷ [] }

eve_held : lookup "eve" abusive.abuse ≡ some (record { score = 30; updated_at = 0 })
unfolding program
eve_held = refl

fold_at_lem_example :
    stored_abuse_level float (fold_at float abusive "eve" (3000 ∷ 6000 ∷ 9000 ∷ [])) "eve" ≡ 30
fold_at_lem_example =
    fold_at_lem float abusive "eve" (record { score = 30; updated_at = 0 })
      (3000 ∷ 6000 ∷ 9000 ∷ []) eve_held refl (omega arith, (omega arith, (omega arith, tt)))

-- One fold after the same time recovers two hundredths.
folded_once : stored_abuse_level float (fold_at float abusive "eve" (9000 ∷ [])) "eve" ≡ 28
unfolding program
folded_once = refl

abbrev insertion_order : SetOrder
insertion_order = record {
  iter = λ xs. xs;
  iter-contains = λ xs x. refl;
  iter-length = λ xs. refl;
  iter-Distinct = λ xs d. d;
}

eve_unknown : is_trusted float abusive (event 1).pubkey ≡ false
unfolding program
eve_unknown = refl

add_event_with_reputation_lem_example :
    (why : ValidationError) × (add_event_with_reputation float crates abusive 900 insertion_order
        new_gossip
        (event 1)
      ≡ (new_gossip, err why))
add_event_with_reputation_lem_example =
    add_event_with_reputation_lem float crates abusive 900 insertion_order new_gossip (event 1)
      eve_unknown (inl (omega arith))
