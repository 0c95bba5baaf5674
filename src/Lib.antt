-- ===== src/Lib.antt =====
-- A verification library for the onde-resilience mesh node: the parts of core/ that decide which
-- messages travel, which are kept and which are believed.
--
-- How the parts interact. A node signs a MeshEvent (core/src/protocol/mod.rs), works for its nonce,
-- and hands it to GossipProtocol, which validates it, remembers its id and puts it into a bounded
-- outbox. Each peer is sent what it has not been sent yet, as padded packets in the wire format
-- (TrafficPadding of core/src/crypto/mod.rs). An author who floods the node is held back by
-- SpamGuard (core/src/reputation/spam.rs), and ReputationSystem (core/src/reputation/mod.rs) sets
-- how much work an author owes. Accepted content goes into TieredMessageStore
-- (core/src/storage/mod.rs), which works on a byte budget and sweeps by retention tier, and both
-- report to NodeMetrics (core/src/metrics.rs). Where peers meet only now and then, DtnRouter
-- (core/crates/dtn-router/src/lib.rs) buffers messages and hands them over at each encounter. The
-- node (core/src/node/mod.rs) puts each event of a peer through its gate and hands it to the
-- handler of its kind. UpdateProtocol (core/src/update/mod.rs) brings signed releases from peer to
-- peer, and TxPool (core/src/crypto/mod.rs) orders offline transactions.
--
-- Files.
-- Prelude and its children: native numbers, lists, maps, sets, words, bytes, UTF-8, results.
--   Prelude/Assoc is HashMap<String, V>, Prelude/Sets is HashSet<String> with the order in which it
--   is walked as the record SetOrder, Prelude/Words has the additions that wrap around.
-- Dtn: DtnMessage, DtnRouter, store with worst_index, tick, encounter with collect_forwarded, from
--   core/crates/dtn-router/src/lib.rs, under the same names. The mutable maps are threaded through.
--   Dtn/Removal, Dtn/Worst and Dtn/Encounter say what the loops compute without indices; Dtn/Store,
--   Dtn/Tick and Dtn/Served are about the three operations.
-- Padding: TrafficPadding::bucket_for, pad and unpad of core/src/crypto/mod.rs; Padding/Buckets.
-- Protocol: OndeMessageType, MeshEvent, kind_code and kind_from_code of core/src/protocol/mod.rs;
--   Protocol/Kinds is about the codes. Protocol/Wire: to_wire_bytes and from_wire_bytes with
--   WireReader as explicit state; Protocol/Wire/Reading says what each read undoes, and
--   Protocol/Wire/RoundTrip joins them. Protocol/Validate: validate_with_pow_min with its error
--   values, verify_pow, compute_pow, compute_id, signature_valid; Protocol/Validate/Accepted and
--   Protocol/Validate/Pow. Protocol/HexExample and Protocol/CratesExample are concrete instances
--   for the examples.
-- Gossip: GossipProtocol of core/src/protocol/mod.rs, each method under its name with the new state
--   beside the result. Gossip/Sending and Gossip/Once: what a peer is sent. Gossip/Evicting:
--   expire_old_known. Gossip/Invariant, Gossip/Receiving and Gossip/Reached: what each call keeps, and
--   the states that sequences of calls reach. Gossip/Packets joins the outbox and the wire format.
-- Metrics: NodeMetrics of core/src/metrics.rs. The registry is shared in the program; here each
--   component holds it as its own calls change it.
-- Tiers: MessageTier, StoragePolicy and TieredMessageStore of core/src/storage/mod.rs. Tiers/Budget:
--   store and restore; Tiers/Keeping: sweep_expired; Tiers/Sharding: should_store_locally;
--   Tiers/Gauges: the storage gauges.
-- Spam: AbuseReason and SpamGuard of core/src/reputation/spam.rs. Spam/Window: one author's window;
--   Spam/Eviction: evict_oldest; Spam/Admission and Spam/Decision: admit_with_budget.
-- Reputation: ReputationSystem of core/src/reputation/mod.rs with AbuseRecord, action_for_abuse and
--   decayed_abuse of core/src/reputation/spam.rs. Reputation/Endorsing: endorse; Reputation/Reporting:
--   apply_remote_abuse_report; Reputation/Work: the proof of work owed; Reputation/Recovery:
--   fold_abuse_decay; Reputation/Gate: validate_with_reputation and add_event_with_reputation.
-- The Examples files hold concrete runs, and an instance of each theorem that has hypotheses.
--
-- Release: ApkManifest and verify_apk_signature of core/src/crypto/mod.rs, Version,
--   UpdateAnnouncement and UpdateManifest of core/src/update/mod.rs. Release/Signing and
--   Release/Authentic: what is signed, and what a check accepts.
-- Update: UpdateProtocol of core/src/update/mod.rs, each method under its name. Update/Chunks and
--   Update/Transfer: a whole transfer; Update/Versions, Update/Reached, Update/Idle and
--   Update/Installing: the states that calls reach, calls that verify nothing, what is installed.
-- Transactions: ZkProof, ZkTransaction and TxPool of core/src/crypto/mod.rs. Transactions/Sequence:
--   the pool as one log of which a prefix is sealed; Transactions/Replay: sequences of calls.
-- Social: SocialPost and SocialComment of core/src/social.rs with their validation, and the checks of
--   references of core/src/node/mod.rs; Social/Accepted.
-- Node: the state of a node of core/src/node/mod.rs and its own decisions. Node/Gate:
--   admit_peer_event; Node/Presence: the book of peers; Node/Healing: take_heal_batch; Node/Rotation
--   with its children: handle_incoming_rotation. Node/NodeExample is a concrete node.
-- Ingest: the payloads of core/src/node/mod.rs with their checks. Ingest/Receive: the handlers and
--   receive_peer_event, which joins gate, presence, reputation, gossip, store and cache; Ingest/Kept
--   and Ingest/Invariant: what it keeps of each; Ingest/Forged: what its signatures cover.
-- Publish: publish_alert and publish_mutual_aid of core/src/node/mod.rs; Publish/Throttled.
-- Zim: ZimHeader::parse of core/crates/zim-parser/src/header.rs, in three stages, and Zim/Entries:
--   Dirent::parse of entries.rs beside it, Zim/Clusters: parse_cluster of content.rs. Zim/Header is
--   about accepted headers.
--
-- Parameters. HexCodec stands for the crate hex, of which one law is used: what is encoded decodes
-- to the same bytes. Crates stands for serde_json, sha2 and ed25519-dalek as plain functions.
-- Deflate stands for flate2, with the law that decompressing undoes compressing. SetOrder and
-- MapOrder stand for the unspecified orders of HashSet and HashMap. Float stands for the arithmetic
-- on f64, of which one theorem assumes what Reputation/Work states as IsF64. Clocks are arguments,
-- as is whether writing the installed file succeeds. Identity stands for an Ed25519 key pair, with
-- the law that what it signs verifies where a theorem needs it. Decoders stands for base64 and
-- JSON, and a fresh id of the social cache is an argument. The writes to SQLite and to the social
-- cache are kept as lists, since the node drops their results.
--
-- Bounds. A u8 and a u64 wrap around, as in a release build; counts in usize are unbounded numbers.
-- Decoding UTF-8 runs on as much fuel as there are bytes, and each round takes one at least. The
-- decimal form of a nonce takes twenty rounds, enough for a u64. The loop that forgets old abuse
-- reports has a round for each of them. The loop over the blobs of a cluster has a round for each
-- byte, and a blob takes four at least. A publication tries as many nonces as the code does,
-- 2,000,000. All other loops are structural.
--
-- Not modelled: the node's wiring of updates and what else it publishes, sockets and HTTP, the
-- contents of the SQLite stores, the reader of archives and map tiles, encryption, speech and
-- language models, the user interface, Android. MeshEvent::new, which does not sign, is left out.
pub mod Prelude
pub mod Dtn
pub mod Padding
pub mod Protocol
pub mod Metrics
pub mod Gossip
pub mod Tiers
pub mod Spam
pub mod Reputation
pub mod Release
pub mod Update
pub mod Transactions
pub mod Social
pub mod Node
pub mod Ingest
pub mod Zim
pub mod Publish
