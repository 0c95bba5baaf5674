-- ===== src/Tiers/Gauges.antt =====
-- The gauges `storage_*` of core/src/metrics.rs agree with the store of core/src/storage/mod.rs.
use onde_resilience.Prelude.{
  ℕ, ◌+◌, ◌%◌, ◌<◌, ◌≡◌, refl, ◌∙◌, String, inl, inr, some, List, [], ◌∷◌, arith, ltb, length,
  push_back, Bool-cases, length-append,
}
use onde_resilience.Prelude.Words.{add_u64, u64_mod, add_u64-exact}
use onde_resilience.Metrics.{
  NodeMetrics, with_metrics, record_storage_added, record_storage_removed,
}
use onde_resilience.Tiers.{
  sum_by, Purged, MessageTier, TieredMessage, TieredMessageStore, max_bytes, used_raw_bytes,
  used_bytes, total_count, holds, Deflate, store, restore, is_kept, retain, sweep_expired,
  shard_prefix_len, should_store_locally,
}
use onde_resilience.Tiers.Budget.{sum_by-push_back}
use onde_resilience.Tiers.Keeping.{
  retain-keep_if, retain-IsPurged, sum_by-keep_if, length-keep_if-both,
}

-- The gauges hold the number of messages and the two sums of their sizes.
pub record IsGauged (s : TieredMessageStore) (m : NodeMetrics) : Type 0 where
  pub has_metrics : s.metrics ≡ some m
  pub gauged_events : m.storage_events ≡ total_count s
  pub gauged_raw : m.storage_raw_bytes ≡ used_raw_bytes s
  pub gauged_stored : m.storage_stored_bytes ≡ used_bytes s

-- A word's sum after one more size.
wraps :
    (before size after : ℕ)
    → before % u64_mod + size < u64_mod
    → after ≡ before + size
    → before % u64_mod + size ≡ after % u64_mod
wraps before size after fits h = omega arith

added-IsGauged :
    (s after : TieredMessageStore) (m : NodeMetrics) (x : TieredMessage)
    → IsGauged s m
    → after.messages ≡ push_back s.messages x
    → after.metrics
      ≡ with_metrics (record_storage_added x.original_size (length x.payload)) s.metrics
    → total_count s + 1 < u64_mod
    → used_raw_bytes s + x.original_size < u64_mod
    → used_bytes s + length x.payload < u64_mod
    → IsGauged after (record_storage_added x.original_size (length x.payload) m)
unfolding record_storage_added used_raw_bytes used_bytes total_count
added-IsGauged s after m x good grown put few small light = record {
  has_metrics = put ∙ rw good.has_metrics refl;
  gauged_events =
      add_u64-exact m.storage_events 1 (rw good.gauged_events few)
      ∙ rw (grown, good.gauged_events) (omega (arith, length-append s.messages (x ∷ [])));
  gauged_raw =
      add_u64-exact m.storage_raw_bytes x.original_size (rw good.gauged_raw small)
      ∙ rw (grown, good.gauged_raw)
          (wraps (sum_by (λ (m : TieredMessage). m.original_size) s.messages) x.original_size _
            small (sum_by-push_back (λ (m : TieredMessage). m.original_size) s.messages x));
  gauged_stored =
      add_u64-exact m.storage_stored_bytes (length x.payload) (rw good.gauged_stored light)
      ∙ rw (grown, good.gauged_stored)
          (wraps (sum_by (λ (m : TieredMessage). length m.payload) s.messages) (length x.payload) _
            light (sum_by-push_back (λ (m : TieredMessage). length m.payload) s.messages x));
}

-- Where the three gauges are exact and one more message does not overflow them, they are exact
-- after `restore`.
pub restore-IsGauged :
    (s : TieredMessageStore) (m : NodeMetrics) (x : TieredMessage)
    → IsGauged s m
    → total_count s + 1 < u64_mod
    → used_raw_bytes s + x.original_size < u64_mod
    → used_bytes s + length x.payload < u64_mod
    → (after : NodeMetrics) × IsGauged (restore s x).0 after
unfolding restore
restore-IsGauged s m x good few small light = elim (Bool-cases (holds s x.id)) [
  | inl held ↦ rw held (m, good)
  | inr absent ↦
      elim (Bool-cases (ltb (max_bytes s.policy) (add_u64 (used_raw_bytes s) x.original_size))) [
        | inl over ↦ rw (absent, over) (m, good)
        | inr room ↦
            rw (absent, room)
              (
                record_storage_added x.original_size (length x.payload) m,
                added-IsGauged s _ m x good refl refl few small light,
              )
      ]
]

-- Where the three gauges are exact and one more message does not overflow them, they are exact
-- after `store`.
pub store-IsGauged :
    (deflate : Deflate) (s : TieredMessageStore) (m : NodeMetrics) (id : String)
    (tier : MessageTier) (payload : List ℕ) (created_at : ℕ) (geohash : String)
    → IsGauged s m
    → total_count s + 1 < u64_mod
    → used_raw_bytes s + length payload < u64_mod
    → used_bytes s + length (deflate.compress payload) < u64_mod
    → (after : NodeMetrics) × IsGauged (store deflate s id tier payload created_at geohash).0 after
unfolding store
store-IsGauged deflate s m id tier payload created_at geohash good few small light =
    elim (Bool-cases (holds s id)) [
      | inl held ↦ rw held (m, good)
      | inr absent ↦
          elim (Bool-cases
            (ltb (max_bytes s.policy) (add_u64 (used_raw_bytes s) (length payload)))) [
              | inl over ↦ rw (absent, over) (m, good)
              | inr room ↦
                  elim (Bool-cases
                    (should_store_locally geohash s.my_geohash tier (shard_prefix_len s.policy))) [
                      | inr away ↦ rw (absent, room, away) (m, good)
                      | inl near ↦
                          rw (absent, room, near)
                            (
                              record_storage_added (length payload)
                                  (length (deflate.compress payload)) m,
                              added-IsGauged s _ m
                                  (record {
                                    id = id;
                                    tier = tier;
                                    created_at = created_at;
                                    payload = deflate.compress payload;
                                    original_size = length payload;
                                    geohash = geohash;
                                  })
                                  good refl refl few small light,
                            )
                    ]
            ]
    ]

-- Where the three gauges are exact and the number and the sizes of the messages fit a word, the
-- gauges are exact after `sweep_expired`.
pub sweep-IsGauged :
    (s : TieredMessageStore) (m : NodeMetrics) (now : ℕ)
    → IsGauged s m
    → length s.messages < u64_mod
    → sum_by (λ (x : TieredMessage). x.original_size) s.messages < u64_mod
    → sum_by (λ (x : TieredMessage). length x.payload) s.messages < u64_mod
    → (after : NodeMetrics) × IsGauged (sweep_expired s now).0 after
unfolding sweep_expired record_storage_removed used_raw_bytes used_bytes total_count
sweep-IsGauged s m now good few small light =
    let start : Purged = record { count = 0; raw = 0; stored = 0 } in
    let kept = retain-keep_if now s.messages start in
    let gone = retain-IsPurged now s.messages start (omega arith) (omega arith) (omega arith) in
    let purged = (retain now s.messages start).1 in
    let count = length-keep_if-both (is_kept now) s.messages in
    let raw = sum_by-keep_if (λ (x : TieredMessage). x.original_size) (is_kept now) s.messages in
    let stored =
      sum_by-keep_if (λ (x : TieredMessage). length x.payload) (is_kept now) s.messages in
    (
      record_storage_removed purged.count purged.raw purged.stored m,
      record {
        has_metrics = rw good.has_metrics refl;
        gauged_events = rw kept (omega (arith, good.gauged_events, gone.purged_count));
        gauged_raw = rw kept (omega (arith, good.gauged_raw, gone.purged_raw));
        gauged_stored = rw kept (omega (arith, good.gauged_stored, gone.purged_stored));
      },
    )
