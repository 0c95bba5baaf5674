-- ===== src/Reputation/Recovery.antt =====
-- `fold_abuse_decay` of core/src/reputation/mod.rs counts whole hours since the last fold.
use onde_resilience.Prelude.{
  ℕ, ◌+◌, ◌/◌, ◌<◌, ◌≡◌, refl, ◌∙◌, sym, ap, subst, String, some, List, [], ◌∷◌, arith,
}
use onde_resilience.Prelude.Assoc.{lookup, insert, lookup-insert_self}
use onde_resilience.Prelude.Words.{saturating_sub}
use onde_resilience.Reputation.{
  Float, ReputationSystem, AbuseRecord, decayed_abuse, level_at, stored_abuse_level,
  fold_abuse_decay,
}

module _ {F : Type 0} (float : Float F) where
  open float use {hundredths, of_u64, sub, mul}

  -- The state after folds at these times, the first of them first.
  abbrev pub fold_at : ReputationSystem F → String → List ℕ → ReputationSystem F
  fold_at s author [] = s
  fold_at s author (now ∷ times) = fold_at (fold_abuse_decay float s author now).0 author times

  -- Each time is less than an hour after the one before it.
  abbrev pub Frequent : ℕ → List ℕ → Type 0
  Frequent last [] = Unit {0}
  Frequent last (now ∷ times) = (now < last + 3600) × Frequent now times

  -- A level that the subtraction of no hours leaves as it is.
  abbrev pub IsLevel : F → Type 0
  IsLevel x = float.max (sub x (mul (of_u64 0) (hundredths 1))) (hundredths 0) ≡ x

  same_hour :
      (x : F) (last now : ℕ) → IsLevel x → now < last + 3600 → decayed_abuse float x last now ≡ x
  unfolding decayed_abuse
  same_hour x last now level soon =
      ap (λ (hours : ℕ). float.max (sub x (mul (of_u64 hours) (hundredths 1))) (hundredths 0))
        (hours last now soon)
      ∙ level
    where
      hours : (last now : ℕ) → now < last + 3600 → saturating_sub now last / 3600 ≡ 0
      hours last now soon = omega arith

  -- From a level that taking off no hours leaves as it is, and where each fold is less than an hour
  -- after the one before it and the first after the record, the folds leave the stored level,
  -- however many there are.
  pub fold_at_lem :
      (s : ReputationSystem F) (author : String) (r : AbuseRecord F) (times : List ℕ)
      → lookup author s.abuse ≡ some r
      → IsLevel r.score
      → Frequent r.updated_at times
      → stored_abuse_level float (fold_at s author times) author ≡ r.score
  unfolding fold_abuse_decay stored_abuse_level level_at
  fold_at_lem s author r [] held level often = rw (held, stored_abuse_level) refl
  fold_at_lem s author r (now ∷ times) held level often =
      let same = same_hour r.score r.updated_at now level often.0 in
      let folded : AbuseRecord F = record {
        score = decayed_abuse float r.score r.updated_at now;
        updated_at = now;
      } in
      rw (held, fold_abuse_decay)
        (fold_at_lem (record s { abuse = insert author folded s.abuse }) author folded times
            (lookup-insert_self author folded s.abuse) (subst IsLevel (sym same) level) often.1
          ∙ same)
