-- ===== src/Dtn/Served.antt =====
-- What an encounter guarantees (core/crates/dtn-router/src/lib.rs): who is marked as served, what a
-- handed message is, and that nothing is handed twice.
use onde_resilience.Prelude.{
  ℕ, ◌+◌, ◌≤◌, ◌<◌, ◌≡◌, ◌≢◌, refl, sym, ap₂, subst, inl, inr, ◌⊎◌, Bool, true, false, not, ◌||◌,
  none, some, String, List, [], ◌∷◌, arith, if◌then◌else◌, length, keep_if, push_back, All,
  Bool-cases, Option-cases, contains, str_eq, eq_iff, eq_refl,
}
use onde_resilience.Prelude.Assoc.{
  Assoc, lookup, lookup_or, lookup_or-insert, lookup_or-some, lookup_or-none,
}
use onde_resilience.Prelude.Words.{u8_mod, u64_mod, add_u8-exact}
use onde_resilience.Dtn.{
  DtnMessage, DtnRouter, buffer, push_unique, mark_served, should_deliver, deliverable,
  collect_forwarded, encounter,
}
use onde_resilience.Dtn.Encounter.{
  is_dead, is_broadcast, is_handed, leaves, settled, kept, handed, handover_buffer-kept,
  forwarded-handover_buffer, counts-handover_buffer,
}

contains-push_back :
    (l : List String) (p q : String) → contains (push_back l p) q ≡ (contains l q || str_eq p q)
contains-push_back [] p q = ground arith
contains-push_back (x ∷ xs) p q = ground (arith, contains-push_back xs p q)

-- A peer is added once, and whoever was there stays.
contains-push_unique :
    (l : List String) (p q : String) → contains (push_unique l p) q ≡ (contains l q || str_eq p q)
unfolding push_unique
contains-push_unique l p q = ground (arith, contains-push_back l p q, eq_iff p q)

-- Exactly the peer, the holder and those served before are marked.
pub contains-mark_served :
    (from to : String) (l : List String) (q : String)
    → contains (mark_served from to l) q ≡ (contains l q || str_eq to q || str_eq from q)
unfolding mark_served
contains-mark_served from to l q = ground (
  arith,
  contains-push_unique (push_unique l to) from q,
  contains-push_unique l to q,
  eq_iff from to,
)

module _ (from to : String) where
  marked : (l : List String) → contains (mark_served from to l) to ≡ true
  marked l = ground (arith, contains-mark_served from to l to, eq_refl to)

  -- What stays in the buffer is not handed over again, does not leave, and does not change.
  settled-quiet :
      (m : DtnMessage)
      → leaves to m ≡ false
      → (is_handed to (settled from to m) ≡ false)
        × (leaves to (settled from to m) ≡ false)
        × (settled from to (settled from to m) ≡ settled from to m)
  unfolding should_deliver
  settled-quiet m stays = ground (arith, marked m.delivered_to)

  handed-kept : (buf : List DtnMessage) → handed from to (kept from to buf) ≡ []
  unfolding handed kept
  handed-kept [] = refl
  handed-kept (m ∷ rest) = elim (Bool-cases (leaves to m)) [
    | inl gone ↦ rw gone (handed-kept rest)
    | inr stays ↦ rw (stays, (settled-quiet m stays).0) (handed-kept rest)
  ]

  kept-kept : (buf : List DtnMessage) → kept from to (kept from to buf) ≡ kept from to buf
  unfolding kept
  kept-kept [] = refl
  kept-kept (m ∷ rest) = elim (Bool-cases (leaves to m)) [
    | inl gone ↦ rw gone (kept-kept rest)
    | inr stays ↦
        rw (stays, (settled-quiet m stays).1) (ap₂ ◌∷◌ (settled-quiet m stays).2 (kept-kept rest))
  ]

  -- `collect_forwarded` for the buffer map.
  pub forwarded-collect_forwarded :
      (buffers : Assoc (List DtnMessage))
      → (collect_forwarded buffers from to).1.forwarded ≡ handed from to (lookup_or [] from buffers)
  unfolding collect_forwarded handed
  forwarded-collect_forwarded buffers = elim (Option-cases (lookup from buffers)) [
    | inl miss ↦ rw (lookup_or-none [] from buffers miss, miss, collect_forwarded)
    | inr (buf, hit) ↦
        rw (lookup_or-some [] from buffers hit, hit, collect_forwarded)
          (forwarded-handover_buffer from to buf)
  ]

  pub buffers-collect_forwarded :
      (buffers : Assoc (List DtnMessage)) (j : String)
      → lookup_or [] j (collect_forwarded buffers from to).0 ≡ (
          if str_eq from j
          then kept from to (lookup_or [] from buffers)
          else lookup_or [] j buffers)
  unfolding collect_forwarded kept
  buffers-collect_forwarded buffers j = elim (Option-cases (lookup from buffers)) [
    | inl miss ↦
        let e = lookup_or-none [] from buffers miss in
        rw (e, miss, collect_forwarded) (ground (arith, e, eq_iff from j))
    | inr (buf, hit) ↦ rw (
      lookup_or-some [] from buffers hit,
      hit,
      collect_forwarded,
      lookup_or-insert,
      handover_buffer-kept,
    )
  ]

-- What each of two nodes receives when they meet.
pub encounter_lem :
    (r : DtnRouter) (a b : String)
    → (encounter r a b).1 ≡ (
      handed b a (buffer r b),
      handed a b (if str_eq b a then kept b a (buffer r b) else buffer r a),
    )
unfolding encounter
encounter_lem r a b =
    rw (forwarded-collect_forwarded, forwarded-collect_forwarded, buffers-collect_forwarded)

-- Every buffer after the encounter.
pub buffer-encounter :
    (r : DtnRouter) (a b j : String)
    → buffer (encounter r a b).0 j ≡ (
        if str_eq a j
        then kept a b (if str_eq b a then kept b a (buffer r b) else buffer r a)
        else if str_eq b j
        then kept b a (buffer r b)
        else buffer r j)
unfolding encounter
buffer-encounter r a b j =
    rw (buffers-collect_forwarded, buffers-collect_forwarded, buffers-collect_forwarded)

str_eq-false_comm : (a b : String) → str_eq a b ≡ false → str_eq b a ≡ false
str_eq-false_comm a b h = ground (arith, eq_iff a b, eq_iff b a)

encounter_self : (r : DtnRouter) (a : String) → (encounter (encounter r a a).0 a a).1 ≡ ([], [])
encounter_self r a =
    rw (encounter_lem, buffer-encounter, eq_refl a, handed-kept a a, handed-kept a a)

-- Nothing is handed over twice: a second encounter of the same nodes exchanges nothing.
pub encounter_again :
    (r : DtnRouter) (a b : String) → (encounter (encounter r a b).0 a b).1 ≡ ([], [])
encounter_again r a b = elim (Bool-cases (str_eq b a)) [
  | inl same ↦
      subst (λ y. (encounter (encounter r a y).0 a y).1 ≡ ([], [])) (sym ((eq_iff b a).0 same))
        (encounter_self r a)
  | inr apart ↦ rw (
    encounter_lem,
    buffer-encounter r a b b,
    buffer-encounter r a b a,
    apart,
    str_eq-false_comm b a apart,
    eq_refl a,
    eq_refl b,
    handed-kept a b,
    handed-kept b a,
  )
]

-- What a handed message is: not past its hop limit, marked for the peer and for the holder, and
-- meant for the peer or for everybody.
abbrev pub IsHandedTo : String → String → DtnMessage → Type 0
IsHandedTo from to m =
    (m.hop_count ≤ m.ttl)
    × (contains m.delivered_to to ≡ true)
    × (contains m.delivered_to from ≡ true)
    × ((m.destination ≡ none) ⊎ (m.destination ≡ some to))

abbrev pub IsByte : ℕ → Type 0
IsByte n = n < u8_mod

module _ (from to : String) where
  destined :
      (m : DtnMessage)
      → should_deliver to m ≡ true
      → (m.destination ≡ none) ⊎ (m.destination ≡ some to)
  unfolding should_deliver
  destined m h = elim (Option-cases m.destination) [
    | inl all ↦ inl all
    | inr (dest, one) ↦ inr (ground (arith, eq_iff dest to))
  ]

  deliverable-IsHandedTo :
      (m : DtnMessage)
      → IsByte m.ttl
      → is_handed to m ≡ true
      → IsHandedTo from to (deliverable from to m)
  unfolding deliverable
  deliverable-IsHandedTo m byte h =
      let live : is_dead m ≡ false = ground arith in
      let wanted : should_deliver to m ≡ true = ground arith in
      let served = contains-mark_served from to m.delivered_to in
      (
        ground (arith, add_u8-exact m.hop_count 1),
        ground (arith, served to, eq_refl to),
        ground (arith, served from, eq_refl from),
        destined m wanted,
      )

  handed-IsHandedTo :
      (buf : List DtnMessage)
      → All (λ m. IsByte m.ttl) buf
      → All (IsHandedTo from to) (handed from to buf)
  unfolding handed
  handed-IsHandedTo [] bytes = tt
  handed-IsHandedTo (m ∷ rest) bytes = elim (Bool-cases (is_handed to m)) [
    | inl h ↦ rw h (deliverable-IsHandedTo m bytes.0 h, handed-IsHandedTo rest bytes.1)
    | inr h ↦ rw h (handed-IsHandedTo rest bytes.1)
  ]

-- In an encounter of two nodes, what each receives is meant for it, is within its hop limit, and
-- is marked as served to both.
pub encounter-IsHandedTo :
    (r : DtnRouter) (a b : String)
    → a ≢ b
    → All (λ m. IsByte m.ttl) (buffer r a)
    → All (λ m. IsByte m.ttl) (buffer r b)
    → All (IsHandedTo b a) (encounter r a b).1.0 × All (IsHandedTo a b) (encounter r a b).1.1
encounter-IsHandedTo r a b ne bytes_a bytes_b =
    let apart : str_eq b a ≡ false = ground (arith, eq_iff b a) in
    rw (encounter_lem, apart)
      (handed-IsHandedTo b a (buffer r b) bytes_b, handed-IsHandedTo a b (buffer r a) bytes_a)

abbrev pub is_unicast : DtnMessage → Bool
is_unicast m = not (is_broadcast m)

module _ (from to : String) where
  kept_ledger :
      (buf : List DtnMessage)
      → length (kept from to buf)
          + length (keep_if is_dead buf)
          + length (keep_if is_unicast (handed from to buf))
        ≡ length buf
  unfolding kept handed deliverable
  kept_ledger [] = refl
  kept_ledger (m ∷ rest) = ground (arith, kept_ledger rest)

  expired-collect_forwarded :
      (buffers : Assoc (List DtnMessage))
      → length (lookup_or [] from buffers) < u64_mod
      → (collect_forwarded buffers from to).1.expired_count
        ≡ length (keep_if is_dead (lookup_or [] from buffers))
  unfolding collect_forwarded
  expired-collect_forwarded buffers fits = elim (Option-cases (lookup from buffers)) [
    | inl miss ↦ rw (lookup_or-none [] from buffers miss, miss, collect_forwarded)
    | inr (buf, hit) ↦
        let e = lookup_or-some [] from buffers hit in
        rw (e, hit, collect_forwarded) (counts-handover_buffer from to buf (rw e at fits)).2
  ]

  -- Every message of the holder's buffer is accounted for when it meets a peer: it stays, or it
  -- is counted as expired, or it is a unicast among the messages handed over.
  pub collect_forwarded_ledger :
      (buffers : Assoc (List DtnMessage))
      → length (lookup_or [] from buffers) < u64_mod
      → length (lookup_or [] from (collect_forwarded buffers from to).0)
          + (collect_forwarded buffers from to).1.expired_count
          + length (keep_if is_unicast (collect_forwarded buffers from to).1.forwarded)
        ≡ length (lookup_or [] from buffers)
  collect_forwarded_ledger buffers fits =
      rw
        (
          buffers-collect_forwarded,
          eq_refl from,
          forwarded-collect_forwarded,
          expired-collect_forwarded buffers fits,
        )
        (kept_ledger (lookup_or [] from buffers))
