-- ===== src/Dtn/Tick.antt =====
-- `tick` of core/crates/dtn-router/src/lib.rs: its two passes over a buffer against one filter,
-- and what a run of ticks leaves.
use mathlib.Core.List.{map-id}
use mathlib.Core.Path.{fun_ext}
use onde_resilience.Prelude.{
  ℕ, zero, suc, ◌+◌, ◌-◌, ◌<◌, ◌≡◌, refl, ap, inl, inr, Bool, not, none, some, String, List, [],
  ◌∷◌, ◌++◌, map, append_assoc, append-nil, arith, ltb, ◌==◌, if◌then◌else◌, length, keep_if,
  Bool-cases, Option-cases, eq_refl, ◌∙◌, length-keep_if-le,
}
use onde_resilience.Prelude.Assoc.{lookup, insert, lookup_or-insert, lookup_or-some, lookup_or-none}
use onde_resilience.Prelude.Words.{u64_mod, add_u64, add_u64-exact, saturating_sub}
use onde_resilience.Dtn.{
  DtnMessage, DtnRouter, Expiry, no_expiry, buffer, expiry_loop, decrement_ttl, tick_buffer, tick,
}
use onde_resilience.Dtn.Removal.{hits, remove_hits, count_from, count_from-length}

-- A message lives through `n` ticks if its time to live is above `n`.
abbrev pub outlives : ℕ → DtnMessage → Bool
outlives n msg = ltb n msg.ttl

-- The message `n` ticks later.
abbrev pub aged : ℕ → DtnMessage → DtnMessage
aged n msg = record msg { ttl = msg.ttl - n }

expires : DtnMessage → Bool
expires msg = saturating_sub msg.ttl 1 == 0

-- The scan, from any state on.
expiry_loop_lem :
    (idx : ℕ) (buf : List DtnMessage) (acc : Expiry)
    → expiry_loop idx buf acc ≡ record {
      expired = acc.expired ++ keep_if expires buf;
      expired_count = count_from acc.expired_count (keep_if expires buf);
      to_remove = acc.to_remove ++ hits expires idx buf;
    }
unfolding expiry_loop expires
expiry_loop_lem idx [] acc = rw (append-nil, append-nil)
expiry_loop_lem idx (m ∷ rest) acc = elim (Bool-cases (expires m)) [
  | inl dies ↦ rw (dies, expiry_loop_lem (suc idx) rest, append_assoc, append_assoc)
  | inr lives ↦ rw (lives, expiry_loop_lem (suc idx) rest)
]

decrement_ttl-map : (buf : List DtnMessage) → decrement_ttl buf ≡ map (aged 1) buf
unfolding decrement_ttl
decrement_ttl-map [] = refl
decrement_ttl-map (m ∷ rest) = ap (◌∷◌ (aged 1 m)) (decrement_ttl-map rest)

not-expires : (m : DtnMessage) → not (expires m) ≡ outlives 1 m
unfolding expires
not-expires m = ground arith

expires-not : (m : DtnMessage) → expires m ≡ not (outlives 1 m)
unfolding expires
expires-not m = ground arith

keep_if-not-expires :
    (buf : List DtnMessage) → keep_if (λ m. not (expires m)) buf ≡ keep_if (outlives 1) buf
keep_if-not-expires buf = rw (fun_ext not-expires)

-- What the scan of a whole buffer finds.
scan_lem :
    (buf : List DtnMessage)
    → expiry_loop 0 buf no_expiry ≡ record {
      expired = keep_if (λ m. not (outlives 1 m)) buf;
      expired_count = count_from 0 (keep_if (λ m. not (outlives 1 m)) buf);
      to_remove = hits expires 0 buf;
    }
scan_lem buf = expiry_loop_lem 0 buf no_expiry ∙ rw (fun_ext expires-not)

-- The two passes over a buffer, with their indices, are one filter and one pass over what it keeps.
tick_buffer_lem :
    (buf : List DtnMessage) → (tick_buffer buf).0 ≡ map (aged 1) (keep_if (outlives 1) buf)
unfolding tick_buffer
tick_buffer_lem buf =
    let survivors = simp map-id at (remove_hits expires (λ m. m) buf) in
    rw (decrement_ttl-map, scan_lem, survivors, keep_if-not-expires)

tick_buffer-expiry : (buf : List DtnMessage) → (tick_buffer buf).1 ≡ expiry_loop 0 buf no_expiry
unfolding tick_buffer
tick_buffer-expiry buf = refl

expired-tick_buffer :
    (buf : List DtnMessage) → (tick_buffer buf).1.expired ≡ keep_if (λ m. not (outlives 1 m)) buf
expired-tick_buffer buf = rw (tick_buffer-expiry, scan_lem)

expired_count-tick_buffer :
    (buf : List DtnMessage)
    → length buf < u64_mod
    → (tick_buffer buf).1.expired_count ≡ length (keep_if (λ m. not (outlives 1 m)) buf)
expired_count-tick_buffer buf fits =
    let gone = keep_if (λ m. not (outlives 1 m)) buf in
    rw (tick_buffer-expiry, scan_lem)
      (count_from-length 0 gone (omega (arith, length-keep_if-le (λ m. not (outlives 1 m)) buf))
        ∙ omega arith)

-- The router after a tick of a node that has a buffer.
ticked : DtnRouter → String → List DtnMessage → DtnRouter
ticked r node_id buf = record r {
  buffers = insert node_id (tick_buffer buf).0 r.buffers;
  stats =
      if ltb 0 (tick_buffer buf).1.expired_count
      then record r.stats {
        total_expired = add_u64 r.stats.total_expired (tick_buffer buf).1.expired_count;
      }
      else r.stats;
}

tick-none :
    (r : DtnRouter) (node_id : String) → lookup node_id r.buffers ≡ none → tick r node_id ≡ (r, [])
unfolding tick
tick-none r node_id h = rw (h, tick)

tick-some :
    (r : DtnRouter) (node_id : String) (buf : List DtnMessage)
    → lookup node_id r.buffers ≡ some buf
    → tick r node_id ≡ (ticked r node_id buf, (tick_buffer buf).1.expired)
unfolding tick ticked
tick-some r node_id buf h = rw (h, tick)

buffer-ticked :
    (r : DtnRouter) (node_id : String) (buf : List DtnMessage)
    → buffer (ticked r node_id buf) node_id ≡ map (aged 1) (keep_if (outlives 1) buf)
unfolding ticked
buffer-ticked r node_id buf = rw (lookup_or-insert, eq_refl) (tick_buffer_lem buf)

total_expired-ticked :
    (r : DtnRouter) (node_id : String) (buf : List DtnMessage)
    → r.stats.total_expired + length buf < u64_mod
    → (ticked r node_id buf).stats.total_expired
      ≡ r.stats.total_expired + length (tick_buffer buf).1.expired
unfolding ticked
total_expired-ticked r node_id buf fits =
    let gone = keep_if (λ m. not (outlives 1 m)) buf in
    let total = r.stats.total_expired in
    let short = length-keep_if-le (λ m. not (outlives 1 m)) buf in
    rw (expired-tick_buffer, expired_count-tick_buffer buf (omega arith))
      (ground (arith, short, add_u64-exact total (length gone) (omega arith)))

-- `tick` ages what outlives it, hands back the rest in order, and counts what it hands back.
pub tick_lem :
    (r : DtnRouter) (node_id : String)
    → r.stats.total_expired + length (buffer r node_id) < u64_mod
    → (buffer (tick r node_id).0 node_id ≡ map (aged 1) (keep_if (outlives 1) (buffer r node_id)))
      × ((tick r node_id).1 ≡ keep_if (λ m. not (outlives 1 m)) (buffer r node_id))
      × ((tick r node_id).0.stats.total_expired ≡ r.stats.total_expired + length (tick r node_id).1)
tick_lem r node_id fits = elim (Option-cases (lookup node_id r.buffers)) [
  | inl miss ↦
      let e = lookup_or-none [] node_id r.buffers miss in
      rw (e, tick-none r node_id miss) (rw e, refl, omega arith)
  | inr (buf, hit) ↦
      let e = lookup_or-some [] node_id r.buffers hit in
      rw (e, tick-some r node_id buf hit)
        (
          buffer-ticked r node_id buf,
          expired-tick_buffer buf,
          total_expired-ticked r node_id buf (rw e at fits),
        )
]

buffer-tick :
    (r : DtnRouter) (node_id : String)
    → buffer (tick r node_id).0 node_id ≡ map (aged 1) (keep_if (outlives 1) (buffer r node_id))
buffer-tick r node_id = elim (Option-cases (lookup node_id r.buffers)) [
  | inl miss ↦
      let e = lookup_or-none [] node_id r.buffers miss in rw (tick-none r node_id miss) (rw e)
  | inr (buf, hit) ↦
      let e = lookup_or-some [] node_id r.buffers hit in
      rw (e, tick-some r node_id buf hit) (buffer-ticked r node_id buf)
]

-- The node ticks `n` times.
unfoldable pub ticks : ℕ → DtnRouter → String → DtnRouter
ticks zero r node_id = r
ticks (suc n) r node_id = (tick (ticks n r node_id) node_id).0

age_again :
    (n : ℕ) (buf : List DtnMessage)
    → map (aged 1) (keep_if (outlives 1) (map (aged n) (keep_if (outlives n) buf)))
      ≡ map (aged (suc n)) (keep_if (outlives (suc n)) buf)
age_again n [] = refl
age_again n (m ∷ rest) = ground (arith, age_again n rest)

-- After `n + 1` ticks a node's buffer holds exactly the messages whose time to live was above
-- `n + 1`, in their old order, with that much less to live.
pub buffer-ticks :
    (n : ℕ) (r : DtnRouter) (node_id : String)
    → buffer (ticks (suc n) r node_id) node_id
      ≡ map (aged (suc n)) (keep_if (outlives (suc n)) (buffer r node_id))
unfolding ticks
buffer-ticks zero r node_id = buffer-tick r node_id
buffer-ticks (suc n) r node_id =
    rw (buffer-tick, buffer-ticks n r node_id) (age_again (suc n) (buffer r node_id))
