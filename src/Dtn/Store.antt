-- ===== src/Dtn/Store.antt =====
-- `store` of core/crates/dtn-router/src/lib.rs: the policy of a full buffer, the bound on the
-- buffers and the counters.
use onde_resilience.Prelude.{
  ℕ, ◌+◌, ◌^◌, ◌%◌, ◌≤◌, ◌<◌, ◌≡◌, refl, ◌∙◌, ◌⊎◌, inl, inr, Bool, true, false, not, some, String,
  List, [], ◌∷◌, arith, ltb, leb, get_elem?, length, length-append, length-remove_at, get_elem?-lt,
  ap, ◌||◌, remove_at, push_back, max, str_eq, eq_refl, if◌then◌else◌, Bool-cases,
}
use onde_resilience.Prelude.Assoc.{lookup_or-insert}
use onde_resilience.Prelude.Words.{u64_mod, add_u64}
use onde_resilience.Dtn.{
  DtnMessage, DtnRouter, buffer, priority_at, make_room, admit, count_store, store,
}
use onde_resilience.Dtn.Worst.{IsLeastUrgent, worst_index_lem}

-- The documented policy: what becomes of a buffer, whether a stored message is replaced, and
-- whether the new message is stored.
pub data Policy (limit : ℕ) (buf : List DtnMessage) (msg : DtnMessage)
    : List DtnMessage → Bool → Bool → Type 0 where
  room : (length buf < limit) ⊎ (buf ≡ []) → Policy limit buf msg (push_back buf msg) false true
  replace :
      (idx : ℕ) (w : DtnMessage)
      → limit ≤ length buf
      → get_elem? buf idx ≡ some w
      → IsLeastUrgent w.priority w.timestamp_ms buf
      → msg.priority < w.priority
      → Policy limit buf msg (push_back (remove_at buf idx) msg) true true
  refuse :
      (w : DtnMessage)
      → limit ≤ length buf
      → IsLeastUrgent w.priority w.timestamp_ms buf
      → w.priority ≤ msg.priority
      → Policy limit buf msg buf false false

module _ (buf : List DtnMessage) (msg w : DtnMessage) (idx : ℕ)
    (here : get_elem? buf idx ≡ some w) where
  make_room_more :
      ltb msg.priority w.priority ≡ true
      → make_room buf msg (some idx)
        ≡ record { buf = remove_at buf idx; replaced = true; rejected = false }
  unfolding make_room priority_at
  make_room_more more = rw (here, priority_at) (rw more)

  make_room_less :
      ltb msg.priority w.priority ≡ false
      → make_room buf msg (some idx) ≡ record { buf = buf; replaced = false; rejected = true }
  unfolding make_room priority_at
  make_room_less less = rw (here, priority_at) (rw less)

-- What `admit` decides is what the policy says.
admit-Policy :
    (limit : ℕ) (buf : List DtnMessage) (msg : DtnMessage)
    → Policy limit buf msg
        (admit limit buf msg).buf
        (admit limit buf msg).replaced
        (not (admit limit buf msg).rejected)
unfolding admit make_room
admit-Policy limit buf msg = elim (Bool-cases (leb limit (length buf))) [
  | inr free ↦ rw free (Policy.room (inl (ground arith)))
  | inl full ↦ elim (worst_index_lem buf) [
    | inl (empty, none_worst) ↦ rw (full, none_worst) (Policy.room (inr empty))
    | inr (idx, w, found, here, worst) ↦ elim (Bool-cases (ltb msg.priority w.priority)) [
      | inl more ↦
          rw (full, found)
            (unfold make_room in
              rw (make_room_more buf msg w idx here more)
                (Policy.replace idx w (ground arith) here worst (ground arith)))
      | inr less ↦
          rw (full, found)
            (rw (make_room_less buf msg w idx here less)
              (Policy.refuse w (ground arith) worst (ground arith)))
    ]
  ]
]

-- Storing a message follows the documented policy at its node, and no other buffer changes. The
-- count of the stored messages goes up by one, in 64 bits, if the message is stored, and that of the
-- dropped ones if it is refused or replaces another; the other counts and the limit stay.
pub store-Policy :
    (r : DtnRouter) (node_id other : String) (msg : DtnMessage)
    → (replaced : Bool) × Policy r.max_buffer
        (buffer r node_id)
        msg
        (buffer (store r node_id msg).0 node_id)
        replaced
        (store r node_id msg).1
      × (buffer (store r node_id msg).0 other ≡ (
          if str_eq node_id other then buffer (store r node_id msg).0 node_id else buffer r other))
      × ((store r node_id msg).0.stats.total_stored ≡ (
          if (store r node_id msg).1
          then (r.stats.total_stored + 1) % 2 ^ 64
          else r.stats.total_stored))
      × ((store r node_id msg).0.stats.total_dropped ≡ (
          if replaced || not (store r node_id msg).1
          then (r.stats.total_dropped + 1) % 2 ^ 64
          else r.stats.total_dropped))
      × ((store r node_id msg).0.stats.total_forwarded ≡ r.stats.total_forwarded)
      × ((store r node_id msg).0.stats.total_expired ≡ r.stats.total_expired)
      × ((store r node_id msg).0.stats.total_delivered ≡ r.stats.total_delivered)
      × ((store r node_id msg).0.max_buffer ≡ r.max_buffer)
unfolding store count_store add_u64
store-Policy r node_id other msg =
    let a = admit r.max_buffer (buffer r node_id) msg in
    (
      a.replaced,
      rw (lookup_or-insert, eq_refl) (admit-Policy r.max_buffer (buffer r node_id) msg),
      lookup_or-insert [] node_id other a.buf r.buffers
          ∙ rw (lookup_or-insert [] node_id node_id a.buf r.buffers, eq_refl node_id) refl,
      ground arith,
      ground arith,
      refl,
      refl,
      refl,
      refl,
    )

-- The room that a full buffer may take: a limit of 0 lets one message in.
abbrev pub room_limit : ℕ → ℕ
room_limit limit = max limit 1

module _ {limit : ℕ} {buf : List DtnMessage} {msg : DtnMessage} where
  Policy-length-le :
      {buf' : List DtnMessage} {replaced done : Bool}
      → Policy limit buf msg buf' replaced done
      → length buf ≤ room_limit limit
      → length buf' ≤ room_limit limit
  Policy-length-le (room (inl c)) h = omega (arith, length-append buf (msg ∷ []))
  Policy-length-le (room (inr c)) h = omega (arith, length-append buf (msg ∷ []), ap length c)
  Policy-length-le (replace idx w full here worst more) h = omega (
    arith,
    length-append (remove_at buf idx) (msg ∷ []),
    length-remove_at buf idx (get_elem?-lt buf idx here),
  )
  Policy-length-le (refuse w full worst less) h = h

  Policy-length :
      {buf' : List DtnMessage} {replaced done : Bool}
      → Policy limit buf msg buf' replaced done
      → length buf' + (if replaced || not done then 1 else 0) ≡ length buf + 1
  Policy-length (room c) = omega (arith, length-append buf (msg ∷ []))
  Policy-length (replace idx w full here worst more) = omega (
    arith,
    length-append (remove_at buf idx) (msg ∷ []),
    length-remove_at buf idx (get_elem?-lt buf idx here),
  )
  Policy-length (refuse w full worst less) = refl

-- Every buffer holds at most `max_buffer` messages, or one where that is 0.
abbrev pub IsBounded : DtnRouter → Type 0
IsBounded r = (node_id : String) → length (buffer r node_id) ≤ room_limit r.max_buffer

-- A new router is bounded, and `store` keeps every buffer within the limit.
pub store-IsBounded :
    (r : DtnRouter) (node_id : String) (msg : DtnMessage)
    → IsBounded r
    → IsBounded (store r node_id msg).0
unfolding store
store-IsBounded r node_id msg bounded other = elim (Bool-cases (str_eq node_id other)) [
  | inl same ↦
      rw (lookup_or-insert, same)
        (Policy-length-le (admit-Policy r.max_buffer (buffer r node_id) msg) (bounded node_id))
  | inr apart ↦ rw (lookup_or-insert, apart) (bounded other)
]

-- Nothing is lost unnoticed: until the counter is full, each call of `store` adds one message,
-- to the buffer of the node or to the count of dropped messages.
pub store_ledger :
    (r : DtnRouter) (node_id : String) (msg : DtnMessage)
    → r.stats.total_dropped + 1 < u64_mod
    → length (buffer (store r node_id msg).0 node_id) + (store r node_id msg).0.stats.total_dropped
      ≡ length (buffer r node_id) + r.stats.total_dropped + 1
store_ledger r node_id msg fits =
    let (replaced, policy, _, _, dropped, _, _, _, _) = store-Policy r node_id node_id msg in
    ground (arith, Policy-length policy, dropped)
