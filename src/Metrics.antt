-- ===== src/Metrics.antt =====
-- `NodeMetrics` of core/src/metrics.rs: the counters and gauges that components report to. An
-- atomic `fetch_add` on a `u64` wraps around. The registry is shared; each component's model holds
-- the registry as that component's calls change it.
use onde_resilience.Prelude.{ℕ, Option, none, some, if◌then◌else◌, ltb}
use onde_resilience.Prelude.Words.{add_u64, saturating_sub}

pub record NodeMetrics : Type 0 where
  pub started_at : ℕ
  pub messages_ingested : ℕ
  pub messages_rejected : ℕ
  pub messages_gossiped : ℕ
  pub messages_duplicated : ℕ
  pub peers_known : ℕ
  pub peers_synced : ℕ
  pub storage_events : ℕ
  pub storage_raw_bytes : ℕ
  pub storage_stored_bytes : ℕ
  pub health_requests : ℕ

-- `NodeMetrics::new`, at the time `now`.
abbrev pub new : ℕ → NodeMetrics
new now = record {
  started_at = now;
  messages_ingested = 0;
  messages_rejected = 0;
  messages_gossiped = 0;
  messages_duplicated = 0;
  peers_known = 0;
  peers_synced = 0;
  storage_events = 0;
  storage_raw_bytes = 0;
  storage_stored_bytes = 0;
  health_requests = 0;
}

unfoldable pub record_ingested : NodeMetrics → NodeMetrics
record_ingested m = record m { messages_ingested = add_u64 m.messages_ingested 1 }

unfoldable pub record_rejected : NodeMetrics → NodeMetrics
record_rejected m = record m { messages_rejected = add_u64 m.messages_rejected 1 }

unfoldable pub record_gossiped : ℕ → NodeMetrics → NodeMetrics
record_gossiped n m =
    if ltb 0 n then record m { messages_gossiped = add_u64 m.messages_gossiped n } else m

unfoldable pub record_duplicated : NodeMetrics → NodeMetrics
record_duplicated m = record m { messages_duplicated = add_u64 m.messages_duplicated 1 }

unfoldable pub set_peers : ℕ → ℕ → NodeMetrics → NodeMetrics
set_peers known synced m = record m { peers_known = known; peers_synced = synced }

unfoldable pub record_storage_added : ℕ → ℕ → NodeMetrics → NodeMetrics
record_storage_added raw_bytes stored_bytes m = record m {
  storage_events = add_u64 m.storage_events 1;
  storage_raw_bytes = add_u64 m.storage_raw_bytes raw_bytes;
  storage_stored_bytes = add_u64 m.storage_stored_bytes stored_bytes;
}

unfoldable pub record_storage_removed : ℕ → ℕ → ℕ → NodeMetrics → NodeMetrics
record_storage_removed count raw_bytes stored_bytes m = record m {
  storage_events = saturating_sub m.storage_events count;
  storage_raw_bytes = saturating_sub m.storage_raw_bytes raw_bytes;
  storage_stored_bytes = saturating_sub m.storage_stored_bytes stored_bytes;
}

unfoldable pub record_health_request : NodeMetrics → NodeMetrics
record_health_request m = record m { health_requests = add_u64 m.health_requests 1 }

unfoldable pub uptime_secs : ℕ → NodeMetrics → ℕ
uptime_secs now m = saturating_sub now m.started_at

-- What a component does with its registry, where it has one.
abbrev pub with_metrics : (NodeMetrics → NodeMetrics) → Option NodeMetrics → Option NodeMetrics
with_metrics f none = none
with_metrics f (some m) = some (f m)
