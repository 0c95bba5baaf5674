-- ===== src/Node/NodeExample.antt =====
-- A concrete node for core/src/node/mod.rs, with functions in place of the crates and of hashing.
use onde_resilience.Prelude.{
  ℕ, ◌+◌, ◌-◌, ◌*◌, ◌/◌, ◌%◌, refl, false, some, [], if◌then◌else◌, ltb, leb,
}
use onde_resilience.Prelude.Sets.{SetOrder}
use onde_resilience.Metrics.{new as new_metrics}
use onde_resilience.Protocol.CratesExample.{event}
use onde_resilience.Tiers.{StoragePolicy, new as new_store}
use onde_resilience.Gossip.{new as new_gossip}
use onde_resilience.Spam.{MapOrder, new as new_guard}
use onde_resilience.Reputation.{Float, set_trusted, new as new_reputation}
use onde_resilience.Node.{Node}

-- Whole hundredths.
abbrev pub float : Float ℕ
float = record {
  hundredths = λ n. n;
  of_u64 = λ n. n * 100;
  round_u8 = λ x. (x + 50) / 100 % 256;
  le = leb;
  lt = ltb;
  add = λ x y. x + y;
  sub = λ x y. x - y;
  mul = λ x y. x * y / 100;
  div = λ x y. x * 100 / y;
  max = λ x y. if ltb x y then y else x;
  min = λ x y. if ltb y x then y else x;
}

abbrev pub listed : MapOrder
listed = record {
  iter = λ entries. entries;
  iter-lookup = λ entries key d. refl;
  iter-Distinct = λ entries d. d;
}

abbrev pub insertion_order : SetOrder
insertion_order = record {
  iter = λ xs. xs;
  iter-contains = λ xs x. refl;
  iter-length = λ xs. refl;
  iter-Distinct = λ xs d. d;
}

-- A node that trusts the author of `event`.
abbrev pub hut : Node ℕ
hut = record {
  pubkey = "hut";
  battery_saver = false;
  my_geohash = "u09tunq";
  reputation = set_trusted float (new_reputation float) (event 0).pubkey 100;
  message_store = new_store StoragePolicy.mobile;
  persistence = some [];
  gossip = new_gossip;
  last_publish_at = 0;
  peer_x25519 = [];
  peer_x25519_grace = [];
  peer_rotation_count = [];
  spam_guard = new_guard 60 12;
  social_store = some [];
  peer_last_seen = [];
  heal_grace_until = 0;
  metrics = new_metrics 0;
}
