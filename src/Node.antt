-- ===== src/Node.antt =====
-- The node of core/src/node/mod.rs: its state, the throttle on what it publishes, the gate in front
-- of what it receives, its book of present peers, and the batches that heal a partition. The system
-- clock and the injected time are arguments. The registry of metrics is shared in the program; here
-- `metrics` holds what the node itself reports.
pub mod Presence
pub mod Gate
pub mod Healing
pub mod Rotation
pub mod NodeExample
mod Examples
use onde_resilience.Prelude.{
  ℕ, ◌+◌, ◌*◌, String, Bool, true, false, ◌&&◌, not, Option, none, some, List, [], ◌∷◌,
  if◌then◌else◌, ltb, leb, ◌==◌, length, str_eq, any_of, keep_if, map,
}
use onde_resilience.Prelude.Assoc.{Assoc, lookup, insert}
use onde_resilience.Prelude.Sets.{SetOrder}
use onde_resilience.Prelude.Words.{saturating_sub}
use onde_resilience.Metrics.{NodeMetrics, record_duplicated, set_peers}
use onde_resilience.Protocol.{MeshEvent}
use onde_resilience.Protocol.Validate.{Crates, signature_valid}
use onde_resilience.Gossip.{
  GossipProtocol, is_known, peek_pending_for_peer, mark_delivered_to_peer, ids_of,
}
use onde_resilience.Tiers.{TieredMessage, TieredMessageStore}
use onde_resilience.Spam.{
  AbuseReason, SpamGuard, MapOrder, spam_budget_per_window, admit_with_budget, u64_max,
}
use onde_resilience.Reputation.{
  Float, TrustAction, ReputationSystem, score, trusted_threshold, abuse_level, action_for,
  record_violation,
}
use onde_resilience.Social.{SocialPost, SocialComment}

-- An `i64` of a JSON value.
pub data ℤ : Type 0 where
  pos : ℕ → ℤ
  negsuc : ℕ → ℤ

-- The calls of the social store whose results the node drops.
pub data SocialWrite : Type 0 where
  ensure_user : String → SocialWrite
  insert_post : SocialPost → SocialWrite
  insert_comment : SocialComment → SocialWrite
  vote : String → String → ℤ → String → SocialWrite
  follow unfollow : String → String → SocialWrite
  insert_message submit_report : String → String → String → String → SocialWrite

pub record Node (F : Type 0) : Type 0 where
  -- `identity.pubkey_hex()`
  pub pubkey : String
  pub battery_saver : Bool
  pub my_geohash : String
  pub reputation : ReputationSystem F
  pub message_store : TieredMessageStore
  -- what was handed to SQLite, the oldest first
  pub persistence : Option (List TieredMessage)
  pub gossip : GossipProtocol
  pub last_publish_at : ℕ
  pub peer_x25519 : Assoc String
  pub peer_x25519_grace : Assoc String
  pub peer_rotation_count : Assoc ℕ
  pub spam_guard : SpamGuard
  -- what was handed to the social store, the oldest first
  pub social_store : Option (List SocialWrite)
  pub peer_last_seen : Assoc ℕ
  pub heal_grace_until : ℕ
  pub metrics : NodeMetrics

pub data RejectReason (F : Type 0) : Type 0 where
  invalid_signature rate_limited : RejectReason F
  author_ignored : F → RejectReason F

pub data AdmissionDecision (F : Type 0) : Type 0 where
  admitted : AdmissionDecision F
  rejected : RejectReason F → AdmissionDecision F

abbrev pub partition_silence_threshold_secs : ℕ
partition_silence_threshold_secs = 300

abbrev pub heal_grace_secs : ℕ
heal_grace_secs = 120

abbrev pub heal_window_budget_factor : ℕ
heal_window_budget_factor = 4

abbrev pub heal_batch_max_events : ℕ
heal_batch_max_events = 32

abbrev pub publish_interval_trusted_secs : ℕ
publish_interval_trusted_secs = 10

abbrev pub publish_interval_untrusted_secs : ℕ
publish_interval_untrusted_secs = 120

abbrev pub publish_battery_multiplier : ℕ
publish_battery_multiplier = 6

-- `a.saturating_add(b)` on a `u64`.
unfoldable pub saturating_add : ℕ → ℕ → ℕ
saturating_add a b = if ltb u64_max (a + b) then u64_max else a + b

-- `last` is at least the threshold ago.
abbrev pub silent : ℕ → String × ℕ → Bool
silent now (peer, last) = leb partition_silence_threshold_secs (saturating_sub now last)

abbrev pub is_ignore : TrustAction → Bool
is_ignore TrustAction.ignore = true
is_ignore _ = false

module _ {F : Type 0} where
  unfoldable pub set_battery_saver : Bool → Node F → Node F
  set_battery_saver enabled n = record n { battery_saver = enabled }

  unfoldable pub throttle_sweep_secs : Node F → ℕ
  throttle_sweep_secs n = if n.battery_saver then 300 else 0

  unfoldable pub should_defer_heavy_work : Node F → Bool
  should_defer_heavy_work n = n.battery_saver

  unfoldable pub partition_suspected : ℕ → Node F → Bool
  partition_suspected now n =
      not (length n.peer_last_seen == 0)
      && not (any_of (λ entry. not (silent now entry)) n.peer_last_seen)

  unfoldable pub heal_grace_active : ℕ → Node F → Bool
  heal_grace_active now n = ltb now n.heal_grace_until

  unfoldable pub tracked_peers : Node F → ℕ
  tracked_peers n = length n.peer_last_seen

  unfoldable pub note_peer_traffic : String → ℕ → Node F → Node F
  note_peer_traffic peer now n =
      let seen = insert peer now n.peer_last_seen in
      let synced = length (keep_if (λ entry. not (silent now entry)) seen) in
      record n {
        peer_last_seen = seen;
        heal_grace_until =
            if partition_suspected now n
            then saturating_add now heal_grace_secs
            else n.heal_grace_until;
        metrics = set_peers (length seen) synced n.metrics;
      }

  unfoldable pub take_heal_batch : Node F → String → Node F × List MeshEvent
  take_heal_batch n peer_id =
      let (peeked, batch) = peek_pending_for_peer n.gossip peer_id heal_batch_max_events in
      if length batch == 0
      then (record n { gossip = peeked }, batch)
      else (record n { gossip = mark_delivered_to_peer peeked peer_id (ids_of batch) }, batch)

  module _ (float : Float F) where
    unfoldable pub publish_interval_secs : Node F → ℕ
    publish_interval_secs n =
        let base =
          if float.le (trusted_threshold float) (score float n.reputation n.pubkey)
          then publish_interval_trusted_secs
          else publish_interval_untrusted_secs in
        if n.battery_saver then base * publish_battery_multiplier else base

    unfoldable pub publish_allowed : ℕ → Node F → Bool
    publish_allowed now n = leb (publish_interval_secs n) (saturating_sub now n.last_publish_at)

    unfoldable pub record_publish : ℕ → Node F → Node F
    record_publish now n = record n { last_publish_at = now }

    -- The budget of an author in the window of the guard.
    unfoldable pub budget_at : ℕ → Node F → ℕ
    budget_at now n =
        if heal_grace_active now n
        then spam_budget_per_window * heal_window_budget_factor
        else spam_budget_per_window

    unfoldable pub admit_peer_event :
        MapOrder → Crates → ℕ → Node F → MeshEvent → Node F × AdmissionDecision F
    admit_peer_event order crates now n event =
        let author = event.pubkey in
        let (guard, within) = admit_with_budget order n.spam_guard author now (budget_at now n) in
        if not (signature_valid crates event)
        then (n, rejected invalid_signature)
        else if str_eq author n.pubkey
        then (n, admitted)
        else if is_known n.gossip event.id
        then (record n { metrics = record_duplicated n.metrics }, admitted)
        else if is_ignore (action_for float n.reputation author now)
        then (n, rejected (author_ignored (abuse_level float n.reputation author now)))
        else if not within
        then (
          record n {
            spam_guard = guard;
            reputation =
                (record_violation float n.reputation author AbuseReason.excessive_rate now).0;
          },
          rejected rate_limited,
        )
        else (record n { spam_guard = guard }, admitted)

-- `rotation_payload`: what a rotation announces, behind base64 and JSON.
pub record RotationPayload : Type 0 where
  -- `payload.get("x25519").and_then(as_str)`
  pub x25519 : Option String
  -- `payload.get("rotation").and_then(as_u64)`
  pub rotation : Option ℕ
