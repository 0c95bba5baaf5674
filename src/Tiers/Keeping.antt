-- ===== src/Tiers/Keeping.antt =====
-- Which messages `sweep_expired` keeps (core/src/storage/mod.rs).
use onde_resilience.Prelude.{
  ℕ, ◌+◌, ◌*◌, ◌∙◌, ltb, ◌≤◌, ◌<◌, ◌≡◌, refl, ap, String, Bool, true, false, not, inl, inr, List,
  [], ◌∷◌, arith, length, keep_if, contains, Bool-cases,
}
use onde_resilience.Prelude.Words.{u64_mod, add_u64, add_u64-exact}
use onde_resilience.Prelude.Sets.{Distinct}
use onde_resilience.Tiers.{
  MessageTier, TieredMessage, TieredMessageStore, sum_by, retention_secs, is_kept, Purged, retain,
  sweep_expired,
}
use onde_resilience.Tiers.Budget.{IsStore, ids_of}

-- The messages that have expired.
abbrev pub expired : ℕ → List TieredMessage → List TieredMessage
expired now messages = keep_if (λ (m : TieredMessage). not (is_kept now m)) messages

pub record IsPurged (now : ℕ) (messages : List TieredMessage) (purged after : Purged) : Type 0 where
  pub purged_count : after.count ≡ purged.count + length (expired now messages)
  pub purged_raw :
      after.raw
      ≡ purged.raw + sum_by (λ (m : TieredMessage). m.original_size) (expired now messages)
  pub purged_stored :
      after.stored
      ≡ purged.stored + sum_by (λ (m : TieredMessage). length m.payload) (expired now messages)

-- What is kept.
pub retain-keep_if :
    (now : ℕ) (messages : List TieredMessage) (purged : Purged)
    → (retain now messages purged).0 ≡ keep_if (is_kept now) messages
unfolding retain
retain-keep_if now [] purged = refl
retain-keep_if now (m ∷ messages) purged = elim (Bool-cases (is_kept now m)) [
  | inl kept ↦ rw (kept, retain) (ap (◌∷◌ m) (retain-keep_if now messages purged))
  | inr gone ↦ rw (gone, retain) (retain-keep_if now messages _)
]

-- As long as the sums fit a word, what is counted is what is not kept.
pub retain-IsPurged :
    (now : ℕ) (messages : List TieredMessage) (purged : Purged)
    → purged.count + length messages < u64_mod
    → purged.raw + sum_by (λ (m : TieredMessage). m.original_size) messages < u64_mod
    → purged.stored + sum_by (λ (m : TieredMessage). length m.payload) messages < u64_mod
    → IsPurged now messages purged (retain now messages purged).1
unfolding retain sum_by
retain-IsPurged now [] purged few small light = record {
  purged_count = omega arith;
  purged_raw = omega arith;
  purged_stored = omega arith;
}
retain-IsPurged now (m ∷ messages) purged few small light = elim (Bool-cases (is_kept now m)) [
  | inl kept ↦
      let total = retain-IsPurged now messages purged (omega arith) (omega arith) (omega arith) in
      rw (kept, retain)
        (record {
          purged_count = rw kept total.purged_count;
          purged_raw = rw kept total.purged_raw;
          purged_stored = rw kept total.purged_stored;
        })
  | inr gone ↦
      let one = add_u64-exact purged.count 1 (omega arith) in
      let raw = add_u64-exact purged.raw m.original_size (omega arith) in
      let stored = add_u64-exact purged.stored (length m.payload) (omega arith) in
      let total =
        retain-IsPurged now messages
          (record {
            count = add_u64 purged.count 1;
            raw = add_u64 purged.raw m.original_size;
            stored = add_u64 purged.stored (length m.payload);
          })
          (omega (arith, one)) (omega (arith, raw)) (omega (arith, stored)) in
      rw (gone, retain)
        (record {
          purged_count = rw gone (omega (arith, total.purged_count, one));
          purged_raw = rw gone (omega (arith, total.purged_raw, raw));
          purged_stored = rw gone (omega (arith, total.purged_stored, stored));
        })
]

contains-keep_if :
    (p : TieredMessage → Bool) (messages : List TieredMessage) (x : String)
    → contains (ids_of messages) x ≡ false
    → contains (ids_of (keep_if p messages)) x ≡ false
contains-keep_if p [] x h = refl
contains-keep_if p (m ∷ messages) x h = ground (arith, contains-keep_if p messages x)

Distinct-keep_if :
    (p : TieredMessage → Bool) (messages : List TieredMessage)
    → Distinct (ids_of messages)
    → Distinct (ids_of (keep_if p messages))
Distinct-keep_if p [] d = tt
Distinct-keep_if p (m ∷ messages) d = elim (Bool-cases (p m)) [
  | inl kept ↦ rw kept (contains-keep_if p messages m.id d.0, Distinct-keep_if p messages d.1)
  | inr gone ↦ rw gone (Distinct-keep_if p messages d.1)
]

pub sum_by-keep_if :
    (f : TieredMessage → ℕ) (p : TieredMessage → Bool) (messages : List TieredMessage)
    → sum_by f (keep_if p messages) + sum_by f (keep_if (λ m. not (p m)) messages)
      ≡ sum_by f messages
unfolding sum_by
sum_by-keep_if f p [] = omega arith
sum_by-keep_if f p (m ∷ messages) = ground (arith, sum_by-keep_if f p messages)

pub length-keep_if-both :
    (p : TieredMessage → Bool) (messages : List TieredMessage)
    → length (keep_if p messages) + length (keep_if (λ m. not (p m)) messages) ≡ length messages
length-keep_if-both p [] = omega arith
length-keep_if-both p (m ∷ messages) = ground (arith, length-keep_if-both p messages)

-- A message that a later sweep keeps is kept by an earlier one.
is_kept-earlier :
    (early late : ℕ) (m : TieredMessage)
    → early ≤ late
    → is_kept late m ≡ true
    → is_kept early m ≡ true
unfolding is_kept
is_kept-earlier early late m h k = ground arith

keep_if-twice :
    (early late : ℕ) (messages : List TieredMessage)
    → early ≤ late
    → keep_if (is_kept late) (keep_if (is_kept early) messages) ≡ keep_if (is_kept late) messages
keep_if-twice early late [] h = refl
keep_if-twice early late (m ∷ messages) h =
    ground (arith, keep_if-twice early late messages h, is_kept-earlier early late m h)

-- How long a message of a tier lives, in seconds: 7 days, 2 days, 6 hours, 1 hour.
abbrev pub lifetime : MessageTier → ℕ
lifetime MessageTier.critical = 7 * 86400
lifetime MessageTier.important = 2 * 86400
lifetime MessageTier.normal = 6 * 3600
lifetime MessageTier.low = 3600

-- The lifetime of a message, from its creation on, is not over.
abbrev pub is_young : ℕ → TieredMessage → Bool
is_young now m = ltb now (m.created_at + lifetime m.tier)

seconds_lem : (tier : MessageTier) → (retention_secs tier ≡ lifetime tier) × (0 < lifetime tier)
unfolding retention_secs
seconds_lem MessageTier.critical = (refl, omega arith)
seconds_lem MessageTier.important = (refl, omega arith)
seconds_lem MessageTier.normal = (refl, omega arith)
seconds_lem MessageTier.low = (refl, omega arith)

is_kept-is_young : (now : ℕ) (m : TieredMessage) → is_kept now m ≡ is_young now m
unfolding is_kept
is_kept-is_young now m = let (same, pos) = seconds_lem m.tier in ground (arith, same, pos)

keep_if-same :
    (p q : TieredMessage → Bool) (messages : List TieredMessage)
    → ((m : TieredMessage) → p m ≡ q m)
    → keep_if p messages ≡ keep_if q messages
keep_if-same p q [] h = refl
keep_if-same p q (m ∷ messages) h = rw (h m, keep_if-same p q messages h) refl

module _ (s : TieredMessageStore) (now : ℕ) where
  sweep_keeps :
      ((sweep_expired s now).0.messages ≡ keep_if (is_kept now) s.messages)
      × ((sweep_expired s now).1 ≡ length (expired now s.messages))
  unfolding sweep_expired
  sweep_keeps =
      let kept = retain-keep_if now s.messages (record { count = 0; raw = 0; stored = 0 }) in
      let sizes = length-keep_if-both (is_kept now) s.messages in (kept, rw kept (omega arith))

  sweep-IsStore : IsStore s → IsStore (sweep_expired s now).0
  unfolding sweep_expired
  sweep-IsStore good =
      let (kept, _) = sweep_keeps in
      let raw = sum_by-keep_if (λ (m : TieredMessage). m.original_size) (is_kept now) s.messages in
      record {
        in_budget = rw kept (omega (arith, good.in_budget));
        ids_distinct = rw kept (Distinct-keep_if (is_kept now) s.messages good.ids_distinct);
      }

  -- A sweep keeps exactly the messages that are younger than 7 days, 2 days, 6 hours or 1 hour, for
  -- the four tiers from the critical one to the low one, in their order, and returns the number of
  -- the others. The policy, the threshold and the place stay, and a store within its budget that
  -- holds each id once remains one.
  pub sweep_expired_lem :
      ((sweep_expired s now).0.messages ≡ keep_if (is_young now) s.messages)
      × ((sweep_expired s now).1 ≡ length (keep_if (λ m. not (is_young now m)) s.messages))
      × ((sweep_expired s now).0.policy ≡ s.policy)
      × ((sweep_expired s now).0.delegate_threshold_bytes ≡ s.delegate_threshold_bytes)
      × ((sweep_expired s now).0.my_geohash ≡ s.my_geohash)
      × (IsStore s → IsStore (sweep_expired s now).0)
  unfolding sweep_expired
  sweep_expired_lem =
      let (kept, count) = sweep_keeps in
      let young = keep_if-same (is_kept now) (is_young now) s.messages (is_kept-is_young now) in
      let old =
        keep_if-same (λ m. not (is_kept now m)) (λ m. not (is_young now m)) s.messages
          (λ m. ap not (is_kept-is_young now m)) in
      (kept ∙ young, count ∙ ap length old, refl, refl, refl, sweep-IsStore)

-- Two sweeps, the second no earlier than the first, leave what the second alone leaves, and
-- their counts add up to its count.
pub sweep_twice :
    (s : TieredMessageStore) (early late : ℕ)
    → early ≤ late
    → ((sweep_expired (sweep_expired s early).0 late).0.messages
        ≡ (sweep_expired s late).0.messages)
      × ((sweep_expired s early).1 + (sweep_expired (sweep_expired s early).0 late).1
          ≡ (sweep_expired s late).1)
sweep_twice s early late h =
    let once = (sweep_expired s early).0 in
    let (kept, count) = sweep_keeps s early in
    let (kept2, count2) = sweep_keeps once late in
    let (kept3, count3) = sweep_keeps s late in
    let same = keep_if-twice early late s.messages h in
    let one = length-keep_if-both (is_kept early) s.messages in
    let two = length-keep_if-both (is_kept late) (keep_if (is_kept early) s.messages) in
    let three = length-keep_if-both (is_kept late) s.messages in
    (
      rw (kept2, kept, same, kept3) refl,
      rw (count, count2, count3, kept) (omega (arith, ap length same)),
    )
