-- ===== src/Tiers/Examples.antt =====
-- The tiered store of core/src/storage/mod.rs on concrete states. The codec puts a mark in front.
use onde_resilience.Prelude.{
  not, ℕ, ◌+◌, ◌≤◌, ◌<◌, ◌≡◌, ◌↔◌, refl, String, true, false, ◌⊎◌, some, List, [], ◌∷◌, arith,
  length, keep_if,
}
use onde_resilience.Prelude.Words.{add_u64}
use onde_resilience.Prelude.Result.{Result, ok, err}
use onde_resilience.Metrics.{NodeMetrics, record_storage_added, record_storage_removed}
use onde_resilience.Tiers.{
  MessageTier, TieredMessage, TieredMessageStore, StoragePolicy, Deflate, with_geohash, max_bytes,
  retention_secs, sum_by, used_raw_bytes, used_bytes, total_count, holds, find_id, shard_prefix_len,
  delegate_threshold, common_prefix, tier_eq, should_store_locally, store, get, restore, is_kept,
  retain, sweep_expired,
}
use onde_resilience.Tiers.Budget.{raw_total, IsStore, IsRefused, IsStored, store_lem}
use onde_resilience.Tiers.Keeping.{is_young, sweep_expired_lem}
use onde_resilience.Tiers.Sharding.{Share, should_store_locally_iff}
use onde_resilience.Tiers.Gauges.{IsGauged}

strip : List ℕ → Result String (List ℕ)
strip [] = err "empty"
strip (b ∷ bs) = ok bs

strip_mark : (bytes : List ℕ) → strip (7 ∷ bytes) ≡ ok bytes
unfolding strip
strip_mark bytes = refl

abbrev deflate : Deflate
deflate = record {
  compress = λ bytes. 7 ∷ bytes;
  decompress = strip;
  decompress-compress = strip_mark;
}

program : Unit {0}
unfolding strip max_bytes retention_secs sum_by used_raw_bytes used_bytes total_count holds find_id
    shard_prefix_len delegate_threshold common_prefix tier_eq should_store_locally store get restore
    is_kept retain sweep_expired record_storage_added record_storage_removed add_u64
program = tt

abbrev old : TieredMessage
old = record {
  id = "a";
  tier = MessageTier.low;
  created_at = 1000;
  payload = 7 ∷ 1 ∷ 2 ∷ [];
  original_size = 2;
  geohash = "u09tvw0";
}

abbrev recent : TieredMessage
recent = record {
  id = "b";
  tier = MessageTier.normal;
  created_at = 4000;
  payload = 7 ∷ 3 ∷ [];
  original_size = 1;
  geohash = "u09tunq";
}

abbrev registry : NodeMetrics
registry = record {
  started_at = 0;
  messages_ingested = 0;
  messages_rejected = 0;
  messages_gossiped = 0;
  messages_duplicated = 0;
  peers_known = 0;
  peers_synced = 0;
  storage_events = 2;
  storage_raw_bytes = 3;
  storage_stored_bytes = 5;
  health_requests = 0;
}

abbrev phone : TieredMessageStore
phone = record (with_geohash StoragePolicy.mobile "u09tunq") {
  messages = old ∷ recent ∷ [];
  metrics = some registry;
}

phone-IsStore : IsStore phone
unfolding program
phone-IsStore = record { in_budget = omega arith; ids_distinct = (refl, (refl, tt)) }

phone-IsGauged : IsGauged phone registry
unfolding program
phone-IsGauged = record {
  has_metrics = refl;
  gauged_events = refl;
  gauged_raw = refl;
  gauged_stored = refl;
}

phone_sizes :
    (total_count phone ≡ 2)
    × (used_raw_bytes phone ≡ 3)
    × (used_bytes phone ≡ 5)
    × (raw_total phone ≡ 3)
    × (sum_by (λ (x : TieredMessage). length x.payload) phone.messages ≡ 5)
unfolding program
phone_sizes = (refl, refl, refl, refl, refl)

store_lem_example :
    ((store deflate phone "c" MessageTier.normal (8 ∷ 9 ∷ []) 5000 "u09tuzz" ≡ (phone, false))
      × IsRefused deflate phone "c" MessageTier.normal (8 ∷ 9 ∷ []) 5000 "u09tuzz")
    ⊎ (((store deflate phone "c" MessageTier.normal (8 ∷ 9 ∷ []) 5000 "u09tuzz").1 ≡ true)
        × (holds phone "c" ≡ false)
        × (raw_total phone + 2 ≤ max_bytes StoragePolicy.mobile)
        × (should_store_locally "u09tuzz" "u09tunq" MessageTier.normal
              (shard_prefix_len StoragePolicy.mobile)
            ≡ true)
        × IsStored deflate phone "c" MessageTier.normal
            (8 ∷ 9 ∷ [])
            5000
            "u09tuzz"
            (store deflate phone "c" MessageTier.normal (8 ∷ 9 ∷ []) 5000 "u09tuzz").0)
store_lem_example =
    store_lem deflate phone "c" MessageTier.normal (8 ∷ 9 ∷ []) 5000 "u09tuzz" phone-IsStore
      (omega (arith, phone_sizes.3))

-- That message is stored and read back; one from another district is not stored.
stored :
    ((store deflate phone "c" MessageTier.normal (8 ∷ 9 ∷ []) 5000 "u09tuzz").1 ≡ true)
    × (get deflate (store deflate phone "c" MessageTier.normal (8 ∷ 9 ∷ []) 5000 "u09tuzz").0 "c"
        ≡ some (ok (8 ∷ 9 ∷ [])))
    × ((store deflate phone "d" MessageTier.normal (8 ∷ []) 5000 "gcpvj0d").1 ≡ false)
    × ((store deflate phone "d" MessageTier.critical (8 ∷ []) 5000 "gcpvj0d").1 ≡ true)
unfolding program
stored = (refl, refl, refl, refl)

sweep_expired_lem_example :
    ((sweep_expired phone 5000).0.messages ≡ keep_if (is_young 5000) (old ∷ recent ∷ []))
    × ((sweep_expired phone 5000).1
        ≡ length (keep_if (λ m. not (is_young 5000 m)) (old ∷ recent ∷ [])))
    × ((sweep_expired phone 5000).0.policy ≡ phone.policy)
    × ((sweep_expired phone 5000).0.delegate_threshold_bytes ≡ phone.delegate_threshold_bytes)
    × ((sweep_expired phone 5000).0.my_geohash ≡ phone.my_geohash)
    × (IsStore phone → IsStore (sweep_expired phone 5000).0)
sweep_expired_lem_example = sweep_expired_lem phone 5000

swept : ((sweep_expired phone 5000).0.messages ≡ recent ∷ []) × ((sweep_expired phone 5000).1 ≡ 1)
unfolding program
swept = (refl, refl)

should_store_locally_iff_example :
    (should_store_locally "u09tuzz" "u09tunq" MessageTier.normal 5 ≡ true)
    ↔ ((MessageTier.normal ≡ MessageTier.critical) ⊎ ((0 < 5) × Share 5 "u09tuzz" "u09tunq"))
should_store_locally_iff_example = should_store_locally_iff "u09tuzz" "u09tunq" MessageTier.normal 5

-- A restored size near 2^64 wraps around in the test of the budget, and is admitted.
restore_wraps :
    (restore phone (record old { id = "huge"; original_size = 18446744073709551615 })).1 ≡ true
unfolding program
restore_wraps = refl
