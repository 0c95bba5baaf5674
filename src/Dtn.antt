-- ===== src/Dtn.antt =====
-- The store-and-forward router of core/crates/dtn-router/src/lib.rs: the buffered message, the
-- router's state and its operations. A `Mutex` guards each field, and every operation takes the
-- locks one after the other, so an operation is a function of the state. The modules below hold
-- the proofs.
pub mod Removal
pub mod Worst
pub mod Store
pub mod Tick
pub mod Encounter
pub mod Served
mod Examples
use onde_resilience.Prelude.{
  ℕ, zero, suc, ◌≢◌, String, Bool, true, false, not, ◌&&◌, ◌||◌, Option, none, some, List, [], ◌∷◌,
  reverse, if◌then◌else◌, leb, ltb, ◌==◌, str_eq, length, get_elem?, remove_at, push_back, contains,
}
use onde_resilience.Prelude.Assoc.{Assoc, lookup, lookup_or, insert}
use onde_resilience.Prelude.Words.{add_u8, add_u64, saturating_sub}

pub data MessageType : Type 0 where
  alert mutual_aid voice transaction ai_query ai_response : MessageType

pub record DtnMessage : Type 0 where
  pub id : String
  pub sender : String
  -- `none` is a broadcast.
  pub destination : Option String
  pub payload : List ℕ
  pub msg_type : MessageType
  pub ttl : ℕ
  pub hop_count : ℕ
  pub timestamp_ms : ℕ
  pub priority : ℕ
  pub delivered_to : List String

pub record RouterStats : Type 0 where
  pub total_stored : ℕ
  pub total_forwarded : ℕ
  pub total_expired : ℕ
  pub total_dropped : ℕ
  pub total_delivered : ℕ

pub record DtnRouter : Type 0 where
  pub buffers : Assoc (List DtnMessage)
  pub max_buffer : ℕ
  pub stats : RouterStats

abbrev pub no_stats : RouterStats
no_stats = record {
  total_stored = 0;
  total_forwarded = 0;
  total_expired = 0;
  total_dropped = 0;
  total_delivered = 0;
}

unfoldable pub new : ℕ → DtnRouter
new max_buffer = record { buffers = []; max_buffer = max_buffer; stats = no_stats }

-- The buffer that `entry(node_id).or_default()` yields.
abbrev pub buffer : DtnRouter → String → List DtnMessage
buffer r node_id = lookup_or [] node_id r.buffers

unfoldable pub buffer_size : DtnRouter → String → ℕ
buffer_size r node_id = elim (lookup node_id r.buffers) [ none ↦ 0 | some b ↦ length b ]

-- `worst_index`: the index, priority and time of the worst message so far.
unfoldable pub is_worse : DtnMessage → Option (ℕ × ℕ × ℕ) → Bool
is_worse msg none = true
is_worse msg (some (_, w_prio, w_ts)) =
    ltb w_prio msg.priority || (msg.priority == w_prio && ltb msg.timestamp_ms w_ts)

unfoldable pub worst_loop : ℕ → List DtnMessage → Option (ℕ × ℕ × ℕ) → Option (ℕ × ℕ × ℕ)
worst_loop i [] worst = worst
worst_loop i (msg ∷ rest) worst =
    worst_loop (suc i) rest
      (if is_worse msg worst then some (i, msg.priority, msg.timestamp_ms) else worst)

unfoldable pub worst_index : List DtnMessage → Option ℕ
worst_index buf = elim (worst_loop 0 buf none) [ none ↦ none | some (idx, _, _) ↦ some idx ]

-- What `store` does to the buffer: the new buffer, and the flags `replaced` and `rejected`.
pub record Admission : Type 0 where
  pub buf : List DtnMessage
  pub replaced : Bool
  pub rejected : Bool

-- `buf[idx].priority`; `idx` comes from `worst_index`, and stands in range.
unfoldable pub priority_at : List DtnMessage → ℕ → ℕ
priority_at buf idx = elim (get_elem? buf idx) [ none ↦ 0 | some m ↦ m.priority ]

unfoldable pub make_room : List DtnMessage → DtnMessage → Option ℕ → Admission
make_room buf msg none = record { buf = buf; replaced = false; rejected = false }
make_room buf msg (some idx) =
    if ltb msg.priority (priority_at buf idx)
    then record { buf = remove_at buf idx; replaced = true; rejected = false }
    else record { buf = buf; replaced = false; rejected = true }

unfoldable pub admit : ℕ → List DtnMessage → DtnMessage → Admission
admit max_buffer buf msg =
    let room =
      (if leb max_buffer (length buf)
        then make_room buf msg (worst_index buf)
        else record { buf = buf; replaced = false; rejected = false }) in
    if room.rejected then room else record room { buf = push_back room.buf msg }

-- The counters that `store` moves.
unfoldable pub count_store : Bool → Bool → RouterStats → RouterStats
count_store replaced rejected s = record s {
  total_dropped = if replaced || rejected then add_u64 s.total_dropped 1 else s.total_dropped;
  total_stored = if rejected then s.total_stored else add_u64 s.total_stored 1;
}

unfoldable pub store : DtnRouter → String → DtnMessage → DtnRouter × Bool
store r node_id msg =
    let a = admit r.max_buffer (buffer r node_id) msg in
    (
      record r {
        buffers = insert node_id a.buf r.buffers;
        stats = count_store a.replaced a.rejected r.stats;
      },
      not a.rejected,
    )

-- `for idx in to_remove.into_iter().rev() { buf.remove(idx); }`, given the reversed indices.
unfoldable pub remove_each : List ℕ → List DtnMessage → List DtnMessage
remove_each [] buf = buf
remove_each (idx ∷ rest) buf = remove_each rest (remove_at buf idx)

-- The first loop of `tick`: what expires, and where it stands.
pub record Expiry : Type 0 where
  pub expired : List DtnMessage
  pub expired_count : ℕ
  pub to_remove : List ℕ

unfoldable pub expiry_loop : ℕ → List DtnMessage → Expiry → Expiry
expiry_loop idx [] acc = acc
expiry_loop idx (msg ∷ rest) acc = expiry_loop (suc idx) rest (
    if saturating_sub msg.ttl 1 == 0
    then record {
      expired = push_back acc.expired msg;
      expired_count = add_u64 acc.expired_count 1;
      to_remove = push_back acc.to_remove idx;
    }
    else acc)

-- The last loop of `tick`.
unfoldable pub decrement_ttl : List DtnMessage → List DtnMessage
decrement_ttl [] = []
decrement_ttl (msg ∷ rest) = record msg { ttl = saturating_sub msg.ttl 1 } ∷ decrement_ttl rest

abbrev pub no_expiry : Expiry
no_expiry = record { expired = []; expired_count = 0; to_remove = [] }

unfoldable pub tick_buffer : List DtnMessage → List DtnMessage × Expiry
tick_buffer buf =
    let e = expiry_loop 0 buf no_expiry in
    (decrement_ttl (remove_each (reverse e.to_remove) buf), e)

unfoldable pub tick : DtnRouter → String → DtnRouter × List DtnMessage
tick r node_id = elim (lookup node_id r.buffers) [
  | none ↦ (r, [])
  | some buf ↦
      let (buf', e) = tick_buffer buf in
      (
        record r {
          buffers = insert node_id buf' r.buffers;
          stats =
              if ltb 0 e.expired_count
              then record r.stats { total_expired = add_u64 r.stats.total_expired e.expired_count }
              else r.stats;
        },
        e.expired,
      )
]

unfoldable pub push_unique : List String → String → List String
push_unique list peer = if not (contains list peer) then push_back list peer else list

-- Both updates of a `delivered_to`: the peer, and the holder unless they are one.
unfoldable pub mark_served : String → String → List String → List String
mark_served from to list =
    let served = push_unique list to in
    if not (str_eq from to) then push_unique served from else served

unfoldable pub should_deliver : String → DtnMessage → Bool
should_deliver to msg = elim msg.destination [
  | none ↦ not (contains msg.delivered_to to)
  | some dest ↦ str_eq dest to
]

pub record Handover : Type 0 where
  pub forwarded : List DtnMessage
  pub forwarded_count : ℕ
  pub delivered_count : ℕ
  pub expired_count : ℕ
  pub to_remove : List ℕ

abbrev pub no_handover : Handover
no_handover = record {
  forwarded = [];
  forwarded_count = 0;
  delivered_count = 0;
  expired_count = 0;
  to_remove = [];
}

-- The copy that is handed over.
unfoldable pub deliverable : String → String → DtnMessage → DtnMessage
deliverable from to msg = record msg {
  hop_count = add_u8 msg.hop_count 1;
  delivered_to = mark_served from to msg.delivered_to;
}

-- One round of the loop of `collect_forwarded`: the message as it stays, and what was collected.
unfoldable pub hand_over : String → String → ℕ → DtnMessage → Handover → DtnMessage × Handover
hand_over from to idx msg acc =
    let delivered = record acc {
      forwarded = push_back acc.forwarded (deliverable from to msg);
      forwarded_count = add_u64 acc.forwarded_count 1;
      delivered_count = add_u64 acc.delivered_count 1;
    } in
    if leb msg.ttl msg.hop_count
    then (
      msg,
      record acc {
        expired_count = add_u64 acc.expired_count 1;
        to_remove = push_back acc.to_remove idx;
      },
    )
    else if should_deliver to msg
    then (elim msg.destination [
      | none ↦ (record msg { delivered_to = mark_served from to msg.delivered_to }, delivered)
      | some _ ↦ (msg, record delivered { to_remove = push_back acc.to_remove idx })
    ])
    else (msg, acc)

unfoldable pub handover_loop :
    String → String → ℕ → List DtnMessage → Handover → List DtnMessage × Handover
handover_loop from to idx [] acc = ([], acc)
handover_loop from to idx (msg ∷ rest) acc =
    let (msg', acc') = hand_over from to idx msg acc in
    let (rest', acc'') = handover_loop from to (suc idx) rest acc' in (msg' ∷ rest', acc'')

unfoldable pub handover_buffer : String → String → List DtnMessage → List DtnMessage × Handover
handover_buffer from to buf =
    let (buf', h) = handover_loop from to 0 buf no_handover in
    (remove_each (reverse h.to_remove) buf', h)

unfoldable pub collect_forwarded :
    Assoc (List DtnMessage) → String → String → Assoc (List DtnMessage) × Handover
collect_forwarded buffers from to = elim (lookup from buffers) [
  | none ↦ (buffers, no_handover)
  | some buf ↦ let (buf', h) = handover_buffer from to buf in (insert from buf' buffers, h)
]

-- Two nodes meet: what goes to `node_a`, and what goes to `node_b`.
unfoldable pub encounter :
    DtnRouter → String → String → DtnRouter × (List DtnMessage × List DtnMessage)
encounter r node_a node_b =
    let (buffers', a) = collect_forwarded r.buffers node_b node_a in
    let (buffers'', b) = collect_forwarded buffers' node_a node_b in
    (
      record r {
        buffers = buffers'';
        stats = record r.stats {
          total_forwarded =
              add_u64 r.stats.total_forwarded (add_u64 a.forwarded_count b.forwarded_count);
          total_delivered =
              add_u64 r.stats.total_delivered (add_u64 a.delivered_count b.delivered_count);
          total_expired = add_u64 r.stats.total_expired (add_u64 a.expired_count b.expired_count);
        };
      },
      (a.forwarded, b.forwarded),
    )
