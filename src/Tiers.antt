-- ===== src/Tiers.antt =====
-- `TieredMessageStore` of core/src/storage/mod.rs: messages by retention tier under the budget of
-- the node's policy. The Deflate codec (flate2) is a parameter.
pub mod Budget
pub mod Keeping
pub mod Sharding
pub mod Gauges
mod Examples
use Prim.Native.Char.{code}
use onde_resilience.Prelude.{
  ℕ, zero, suc, ◌%◌, ◌+◌, ◌-◌, ◌*◌, ◌≡◌, String, Bool, true, false, ◌&&◌, ◌||◌, not, Option, none,
  some, List, [], ◌∷◌, if◌then◌else◌, ltb, leb, ◌==◌, length, push_back, keep_if, any_of, str_eq,
}
use onde_resilience.Prelude.Words.{u64_mod, add_u64, saturating_sub}
use onde_resilience.Prelude.Result.{Result, ok, err}
use onde_resilience.Metrics.{
  NodeMetrics, with_metrics, record_storage_added, record_storage_removed,
}

pub data MessageTier : Type 0 where
  critical important normal low : MessageTier

unfoldable pub retention_secs : MessageTier → ℕ
retention_secs MessageTier.critical = 604800
retention_secs MessageTier.important = 172800
retention_secs MessageTier.normal = 21600
retention_secs MessageTier.low = 3600

pub record TieredMessage : Type 0 where
  pub id : String
  pub tier : MessageTier
  pub created_at : ℕ
  pub payload : List ℕ
  pub original_size : ℕ
  pub geohash : String

pub data StoragePolicy : Type 0 where
  mobile desktop gateway : StoragePolicy

unfoldable pub max_bytes : StoragePolicy → ℕ
max_bytes StoragePolicy.mobile = 67108864
max_bytes StoragePolicy.desktop = 2147483648
max_bytes StoragePolicy.gateway = 17179869184

pub record TieredMessageStore : Type 0 where
  pub messages : List TieredMessage
  pub policy : StoragePolicy
  pub delegate_threshold_bytes : ℕ
  pub my_geohash : String
  pub metrics : Option NodeMetrics

unfoldable pub delegate_threshold : StoragePolicy → ℕ
delegate_threshold StoragePolicy.mobile = 65536
delegate_threshold StoragePolicy.desktop = 1048576
delegate_threshold StoragePolicy.gateway = 16777216

abbrev pub with_geohash : StoragePolicy → String → TieredMessageStore
with_geohash policy my_geohash = record {
  messages = [];
  policy = policy;
  delegate_threshold_bytes = delegate_threshold policy;
  my_geohash = my_geohash;
  metrics = none;
}

abbrev pub new : StoragePolicy → TieredMessageStore
new policy = with_geohash policy "u09tunq"

unfoldable pub set_my_geohash : String → TieredMessageStore → TieredMessageStore
set_my_geohash geohash s = record s { my_geohash = geohash }

unfoldable pub set_metrics : NodeMetrics → TieredMessageStore → TieredMessageStore
set_metrics m s = record s { metrics = some m }

unfoldable pub shard_prefix_len : StoragePolicy → ℕ
shard_prefix_len StoragePolicy.mobile = 5
shard_prefix_len StoragePolicy.desktop = 4
shard_prefix_len StoragePolicy.gateway = 3

-- The sum of the sizes, before it is cut to a word.
unfoldable pub sum_by {ℓ} : {A : Type ℓ} → (A → ℕ) → List A → ℕ
sum_by f [] = 0
sum_by f (x ∷ xs) = f x + sum_by f xs

unfoldable pub used_bytes : TieredMessageStore → ℕ
used_bytes s = sum_by (λ (m : TieredMessage). length m.payload) s.messages % u64_mod

unfoldable pub used_raw_bytes : TieredMessageStore → ℕ
used_raw_bytes s = sum_by (λ (m : TieredMessage). m.original_size) s.messages % u64_mod

unfoldable pub total_count : TieredMessageStore → ℕ
total_count s = length s.messages

unfoldable pub compression_stats : TieredMessageStore → ℕ × ℕ
compression_stats s = (
  sum_by (λ (m : TieredMessage). m.original_size) s.messages % u64_mod,
  sum_by (λ (m : TieredMessage). length m.payload) s.messages % u64_mod,
)

unfoldable pub should_delegate : TieredMessageStore → ℕ → Bool
should_delegate s payload_size = ltb s.delegate_threshold_bytes payload_size

unfoldable pub tier_eq : MessageTier → MessageTier → Bool
tier_eq MessageTier.critical MessageTier.critical = true
tier_eq MessageTier.important MessageTier.important = true
tier_eq MessageTier.normal MessageTier.normal = true
tier_eq MessageTier.low MessageTier.low = true
tier_eq _ _ = false

unfoldable pub count_tier : MessageTier → TieredMessageStore → ℕ
count_tier tier s = length (keep_if (λ (m : TieredMessage). tier_eq m.tier tier) s.messages)

-- The array of `count_by_tier`, in its order.
unfoldable pub count_by_tier : TieredMessageStore → List (MessageTier × ℕ)
count_by_tier s =
    (MessageTier.critical, count_tier MessageTier.critical s)
    ∷ (MessageTier.important, count_tier MessageTier.important s)
    ∷ (MessageTier.normal, count_tier MessageTier.normal s)
    ∷ (MessageTier.low, count_tier MessageTier.low s)
    ∷ []

-- `zip`, `take_while` and `count` on the characters of two texts.
unfoldable pub common_prefix : String → String → ℕ
common_prefix String.[] other = 0
common_prefix (String.◌∷◌ a s) String.[] = 0
common_prefix (String.◌∷◌ a s) (String.◌∷◌ b t) =
    let rest = common_prefix s t in if code a == code b then suc rest else 0

unfoldable pub should_store_locally : String → String → MessageTier → ℕ → Bool
should_store_locally geohash my_geohash tier prefix_len =
    if tier_eq tier MessageTier.critical
    then true
    else if prefix_len == 0
    then false
    else leb prefix_len (common_prefix geohash my_geohash)

unfoldable pub holds : TieredMessageStore → String → Bool
holds s id = any_of (λ (m : TieredMessage). str_eq m.id id) s.messages

-- `iter().find(|m| m.id == id)`
unfoldable pub find_id : String → List TieredMessage → Option TieredMessage
find_id id [] = none
find_id id (m ∷ messages) = if str_eq m.id id then some m else find_id id messages

-- What flate2 gives: what is compressed decompresses to the same bytes.
pub record Deflate : Type 0 where
  pub compress : List ℕ → List ℕ
  pub decompress : List ℕ → Result String (List ℕ)
  pub decompress-compress : (bytes : List ℕ) → decompress (compress bytes) ≡ ok bytes

module _ (deflate : Deflate) where
  open deflate use {compress, decompress}

  unfoldable pub store :
      TieredMessageStore → String → MessageTier → List ℕ → ℕ → String → TieredMessageStore × Bool
  store s id tier payload created_at geohash =
      if holds s id
      then (s, false)
      else if ltb (max_bytes s.policy) (add_u64 (used_raw_bytes s) (length payload))
      then (s, false)
      else if not (should_store_locally geohash s.my_geohash tier (shard_prefix_len s.policy))
      then (s, false)
      else (
        record s {
          messages = push_back s.messages (record {
            id = id;
            tier = tier;
            created_at = created_at;
            payload = compress payload;
            original_size = length payload;
            geohash = geohash;
          });
          metrics =
              with_metrics (record_storage_added (length payload) (length (compress payload)))
                s.metrics;
        },
        true,
      )

  unfoldable pub get : TieredMessageStore → String → Option (Result String (List ℕ))
  get s id = elim (find_id id s.messages) [ none ↦ none | some m ↦ some (decompress m.payload) ]

unfoldable pub restore : TieredMessageStore → TieredMessage → TieredMessageStore × Bool
restore s msg =
    if holds s msg.id
    then (s, false)
    else if ltb (max_bytes s.policy) (add_u64 (used_raw_bytes s) msg.original_size)
    then (s, false)
    else (
      record s {
        messages = push_back s.messages msg;
        metrics =
            with_metrics (record_storage_added msg.original_size (length msg.payload)) s.metrics;
      },
      true,
    )

-- The test of `retain` in `sweep_expired`.
unfoldable pub is_kept : ℕ → TieredMessage → Bool
is_kept now m = ltb (saturating_sub now m.created_at) (retention_secs m.tier)

-- The state of the closure of `retain`: what has been purged so far.
pub record Purged : Type 0 where
  pub count : ℕ
  pub raw : ℕ
  pub stored : ℕ

unfoldable pub retain : ℕ → List TieredMessage → Purged → List TieredMessage × Purged
retain now [] purged = ([], purged)
retain now (m ∷ messages) purged = elim (is_kept now m) [
  | true ↦ let (rest, total) = retain now messages purged in (m ∷ rest, total)
  | false ↦ retain now messages (record {
    count = add_u64 purged.count 1;
    raw = add_u64 purged.raw m.original_size;
    stored = add_u64 purged.stored (length m.payload);
  })
]

unfoldable pub sweep_expired : TieredMessageStore → ℕ → TieredMessageStore × ℕ
sweep_expired s now =
    let (kept, purged) = retain now s.messages (record { count = 0; raw = 0; stored = 0 }) in
    (
      record s {
        messages = kept;
        metrics =
            with_metrics (record_storage_removed purged.count purged.raw purged.stored) s.metrics;
      },
      length s.messages - length kept,
    )
