-- ===== src/Spam/Eviction.antt =====
-- `evict_oldest` of core/src/reputation/spam.rs takes away the author whose last admission is the
-- oldest.
use onde_resilience.Prelude.{
  ℕ, ◌≤◌, ◌<◌, ◌≡◌, refl, ◌∙◌, sym, subst, String, true, false, ◌||◌, ◌⊎◌, inl, inr, Option, none,
  some, [], ◌∷◌, arith, ltb, contains, Bool-cases, str_eq, eq_iff,
}
use onde_resilience.Prelude.Assoc.{Assoc, lookup, insert, remove}
use onde_resilience.Prelude.Sets.{Distinct}
use onde_resilience.Spam.{AuthorWindow, MapOrder, keys, last_stamp, oldest, evict_oldest, u64_max}

-- A map has the entry of `k` with these stamps.
abbrev pub Entry : String → AuthorWindow → Assoc AuthorWindow → Type 0
Entry k stamps [] = ⊥
Entry k stamps ((other, held) ∷ entries) = ((other ≡ k) × (held ≡ stamps)) ⊎ Entry k stamps entries

lookup-Entry :
    (k : String) (stamps : AuthorWindow) (entries : Assoc AuthorWindow)
    → lookup k entries ≡ some stamps
    → Entry k stamps entries
unfolding lookup
lookup-Entry k stamps [] h = cc
lookup-Entry k stamps ((other, held) ∷ entries) h = elim (Bool-cases (str_eq other k)) [
  | inl same ↦ inl ((eq_iff other k).0 same, ground arith)
  | inr apart ↦ inr (lookup-Entry k stamps entries (ground arith))
]

Entry-contains :
    (k : String) (stamps : AuthorWindow) (entries : Assoc AuthorWindow)
    → Entry k stamps entries
    → contains (keys entries) k ≡ true
Entry-contains k stamps [] h = elim h [ ]
Entry-contains k stamps ((other, held) ∷ entries) (inl (same, _)) =
    ground (arith, (eq_iff other k).1 same)
Entry-contains k stamps ((other, held) ∷ entries) (inr rest) =
    ground (arith, Entry-contains k stamps entries rest)

Entry-lookup :
    (k : String) (stamps : AuthorWindow) (entries : Assoc AuthorWindow)
    → Distinct (keys entries)
    → Entry k stamps entries
    → lookup k entries ≡ some stamps
unfolding lookup
Entry-lookup k stamps [] d h = elim h [ ]
Entry-lookup k stamps ((other, held) ∷ entries) d (inl (same, value)) =
    rw ((eq_iff other k).1 same, value) refl
Entry-lookup k stamps ((other, held) ∷ entries) d (inr rest) =
    let inside = Entry-contains k stamps entries rest in
    let found = Entry-lookup k stamps entries d.1 rest in ground (arith, eq_iff other k, d.0)

-- Either no entry is older than the start, or the result is an entry that none is older than.
oldest_lem :
    (entries : Assoc AuthorWindow) (key : Option String) (time : ℕ)
    → ((oldest entries key time ≡ key)
        × ((k : String) (stamps : AuthorWindow)
            → Entry k stamps entries
            → time ≤ last_stamp stamps))
      ⊎ ((k : String) × (stamps : AuthorWindow) × (oldest entries key time ≡ some k)
          × Entry k stamps entries
          × (last_stamp stamps < time)
          × ((other : String) (held : AuthorWindow)
              → Entry other held entries
              → last_stamp stamps ≤ last_stamp held))
unfolding oldest
oldest_lem [] key time = inl (refl, λ k stamps h. elim h [ ])
oldest_lem ((first, seen) ∷ entries) key time = elim (Bool-cases (ltb (last_stamp seen) time)) [
  | inr older ↦ elim (oldest_lem entries key time) [
    | inl (same, all) ↦ inl (
      rw (older, oldest) same,
      λ k stamps h. elim h [
        | inl (_, held) ↦ subst (λ (w : AuthorWindow). time ≤ last_stamp w) held (ground arith)
        | inr rest ↦ all k stamps rest
      ],
    )
    | inr (k, stamps, found, entry, less, all) ↦ inr (
      k,
      stamps,
      rw (older, oldest) found,
      inr entry,
      less,
      λ other held h. elim h [
        | inl (_, value) ↦
            subst (λ (w : AuthorWindow). last_stamp stamps ≤ last_stamp w) value (ground arith)
        | inr rest ↦ all other held rest
      ],
    )
  ]
  | inl newer ↦ elim (oldest_lem entries (some first) (last_stamp seen)) [
    | inl (same, all) ↦ inr (
      first,
      seen,
      rw (newer, oldest) same,
      inl (refl, refl),
      ground arith,
      λ other held h. elim h [
        | inl (_, value) ↦
            subst (λ (w : AuthorWindow). last_stamp seen ≤ last_stamp w) value (omega arith)
        | inr rest ↦ all other held rest
      ],
    )
    | inr (k, stamps, found, entry, less, all) ↦ inr (
      k,
      stamps,
      rw (newer, oldest) found,
      inr entry,
      ground arith,
      λ other held h. elim h [
        | inl (_, value) ↦
            subst (λ (w : AuthorWindow). last_stamp stamps ≤ last_stamp w) value (omega arith)
        | inr rest ↦ all other held rest
      ],
    )
  ]
]

contains-insert :
    {A : Type 0} (k : String) (v : A) (entries : Assoc A) (x : String)
    → contains (keys (insert k v entries)) x ≡ (contains (keys entries) x || str_eq k x)
unfolding insert
contains-insert k v [] x = ground arith
contains-insert k v ((other, held) ∷ entries) x =
    ground (arith, contains-insert k v entries x, eq_iff other k, eq_iff other x, eq_iff k x)

pub Distinct-insert :
    {A : Type 0} (k : String) (v : A) (entries : Assoc A)
    → Distinct (keys entries)
    → Distinct (keys (insert k v entries))
unfolding insert
Distinct-insert k v [] d = (refl, tt)
Distinct-insert k v ((other, held) ∷ entries) d = elim (Bool-cases (str_eq other k)) [
  | inl same ↦
      rw same (
        subst (λ (s : String). contains (keys entries) s ≡ false) ((eq_iff other k).0 same) d.0,
        d.1,
      )
  | inr apart ↦ rw apart (
    ground (arith, contains-insert k v entries other, eq_iff k other, eq_iff other k, d.0),
    Distinct-insert k v entries d.1,
  )
]

contains-remove :
    {A : Type 0} (k : String) (entries : Assoc A) (x : String)
    → contains (keys entries) x ≡ false
    → contains (keys (remove k entries)) x ≡ false
unfolding remove
contains-remove k [] x h = refl
contains-remove k ((other, held) ∷ entries) x h = ground (arith, contains-remove k entries x)

pub Distinct-remove :
    {A : Type 0} (k : String) (entries : Assoc A)
    → Distinct (keys entries)
    → Distinct (keys (remove k entries))
unfolding remove
Distinct-remove k [] d = tt
Distinct-remove k ((other, held) ∷ entries) d = elim (Bool-cases (str_eq other k)) [
  | inl same ↦ rw same (Distinct-remove k entries d.1)
  | inr apart ↦ rw apart (contains-remove k entries other d.0, Distinct-remove k entries d.1)
]

-- With each author once, and some author's last admission before the last time there is,
-- evict_oldest removes one author, and no author's last admission is older than his.
pub evict_oldest_lem :
    (order : MapOrder) (entries : Assoc AuthorWindow) (author : String) (stamps : AuthorWindow)
    → Distinct (keys entries)
    → lookup author entries ≡ some stamps
    → last_stamp stamps < u64_max
    → (k : String) × (gone : AuthorWindow) × (evict_oldest order entries ≡ remove k entries)
      × (lookup k entries ≡ some gone)
      × ((other : String) (held : AuthorWindow)
          → lookup other entries ≡ some held
          → last_stamp gone ≤ last_stamp held)
unfolding evict_oldest
evict_oldest_lem order entries author stamps d held early =
    let walked = order.iter entries in
    let unique = order.iter-Distinct entries d in
    let inside : (k : String) (w : AuthorWindow) → lookup k entries ≡ some w → Entry k w walked =
      λ k w h. lookup-Entry k w walked (order.iter-lookup entries k d ∙ h) in
    elim (oldest_lem walked none u64_max) [
      | inl (_, all) ↦ absurd (omega (arith, all author stamps (inside author stamps held)))
      | inr (k, gone, found, entry, _, all) ↦ (
        k,
        gone,
        rw (found, evict_oldest) refl,
        sym (order.iter-lookup entries k d) ∙ Entry-lookup k gone walked unique entry,
        λ other w h. all other w (inside other w h),
      )
    ]
