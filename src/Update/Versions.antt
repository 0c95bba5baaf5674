-- ===== src/Update/Versions.antt =====
-- The installed updates of core/src/update/mod.rs are sorted by version, and the current version is
-- the greatest of them.
use onde_resilience.Prelude.{
  ◌⊎◌, subst, ◌≡◌, refl, inl, inr, true, false, some, none, Option, List, [], ◌∷◌, arith,
  Bool-cases, push_back, All,
}
use onde_resilience.Release.{Version, version_le}
use onde_resilience.Update.{
  InstalledUpdate, UpdateProtocol, insert_sorted, sort_loop, sort_by_version, last, push_installed,
}

version_le_total : (a b : Version) → version_le a b ≡ false → version_le b a ≡ true
unfolding version_le
version_le_total a b h = ground arith

pub version_le_refl : (a : Version) → version_le a a ≡ true
unfolding version_le
version_le_refl a = ground arith

version_le_trans :
    (a b c : Version) → version_le a b ≡ true → version_le b c ≡ true → version_le a c ≡ true
unfolding version_le
version_le_trans a b c h k = ground arith

abbrev pub IsSorted : List InstalledUpdate → Type 0
IsSorted [] = Unit {0}
IsSorted (u ∷ []) = Unit {0}
IsSorted (u ∷ v ∷ us) = (version_le u.version v.version ≡ true) × IsSorted (v ∷ us)

-- The current version is that of the last update, where there is one.
abbrev pub IsCurrent : Option InstalledUpdate → Version → Type 0
IsCurrent none current = Unit {0}
IsCurrent (some u) current = current ≡ u.version

insert_sorted-IsSorted :
    (u : InstalledUpdate) (us : List InstalledUpdate) → IsSorted us → IsSorted (insert_sorted u us)
unfolding insert_sorted
insert_sorted-IsSorted u [] h = tt
insert_sorted-IsSorted u (v ∷ []) h = elim (Bool-cases (version_le v.version u.version)) [
  | inl le ↦ rw le (le, tt)
  | inr gt ↦ rw gt (version_le_total v.version u.version gt, tt)
]
insert_sorted-IsSorted u (v ∷ w ∷ us) h = elim (Bool-cases (version_le v.version u.version)) [
  | inr gt ↦ rw gt (version_le_total v.version u.version gt, h)
  | inl le ↦ rw le (elim (Bool-cases (version_le w.version u.version)) [
    | inl le' ↦ let rest = insert_sorted-IsSorted u (w ∷ us) h.1 in rw le' (h.0, (rw le' at rest))
    | inr gt ↦ rw gt (le, (version_le_total w.version u.version gt, h.1))
  ])
]

sort_loop-IsSorted :
    (us sorted : List InstalledUpdate) → IsSorted sorted → IsSorted (sort_loop us sorted)
unfolding sort_loop
sort_loop-IsSorted [] sorted h = h
sort_loop-IsSorted (u ∷ us) sorted h =
    sort_loop-IsSorted us (insert_sorted u sorted) (insert_sorted-IsSorted u sorted h)

module _ {κ} (P : InstalledUpdate → Type κ) where
  All-push_back :
      (us : List InstalledUpdate) (u : InstalledUpdate) → All P us → P u → All P (push_back us u)
  All-push_back [] u all h = (h, tt)
  All-push_back (v ∷ us) u all h = (all.0, All-push_back us u all.1 h)

  All-insert_sorted :
      (u : InstalledUpdate) (us : List InstalledUpdate)
      → P u
      → All P us
      → All P (insert_sorted u us)
  unfolding insert_sorted
  All-insert_sorted u [] h all = (h, tt)
  All-insert_sorted u (v ∷ us) h all = elim (Bool-cases (version_le v.version u.version)) [
    | inl le ↦ rw le (all.0, All-insert_sorted u us h all.1)
    | inr gt ↦ rw gt (h, all)
  ]

  All-sort_loop :
      (us sorted : List InstalledUpdate) → All P us → All P sorted → All P (sort_loop us sorted)
  unfolding sort_loop
  All-sort_loop [] sorted all held = held
  All-sort_loop (u ∷ us) sorted all held =
      All-sort_loop us (insert_sorted u sorted) all.1 (All-insert_sorted u sorted all.0 held)

  -- What holds of the installed updates and of a new one holds after it is recorded.
  pub All-push_installed :
      (s : UpdateProtocol) (u : InstalledUpdate)
      → All P s.installed
      → P u
      → All P (push_installed s u).installed
  unfolding push_installed sort_by_version
  All-push_installed s u all h =
      All-sort_loop (push_back s.installed u) [] (All-push_back s.installed u all h) tt

-- No update is newer than the last one.
last-greatest :
    (us : List InstalledUpdate)
    → IsSorted us
    → (v : Version) → IsCurrent (last us) v
    → All (λ (u : InstalledUpdate). version_le u.version v ≡ true) us
unfolding last
last-greatest [] h v current = tt
last-greatest (u ∷ []) h v current = (rw current (version_le_refl u.version), tt)
last-greatest (u ∷ w ∷ us) h v current =
    let rest = last-greatest (w ∷ us) h.1 v current in
    (version_le_trans u.version w.version v h.0 rest.0, rest)

pub push_installed-IsSorted :
    (s : UpdateProtocol) (u : InstalledUpdate) → IsSorted (push_installed s u).installed
unfolding push_installed sort_by_version
push_installed-IsSorted s u = sort_loop-IsSorted (push_back s.installed u) [] tt

pub push_installed-IsCurrent :
    (s : UpdateProtocol) (u : InstalledUpdate)
    → IsCurrent (last (push_installed s u).installed) (push_installed s u).current_version
unfolding push_installed
push_installed-IsCurrent s u = either (last (sort_by_version (push_back s.installed u)))
  where
    either :
        (o : Option InstalledUpdate)
        → IsCurrent o (elim o [ none ↦ s.current_version | some v ↦ v.version ])
    either none = tt
    either (some v) = refl

-- The current version is not below that of any installed update, the new one included.
pub push_installed-greatest :
    (s : UpdateProtocol) (u : InstalledUpdate)
    → All
        (λ (v : InstalledUpdate). version_le v.version (push_installed s u).current_version ≡ true)
        (push_installed s u).installed
push_installed-greatest s u =
    last-greatest (push_installed s u).installed (push_installed-IsSorted s u)
      (push_installed s u).current_version (push_installed-IsCurrent s u)

-- An update is among those installed.
abbrev pub Held : InstalledUpdate → List InstalledUpdate → Type 0
Held u [] = ⊥
Held u (v ∷ us) = (v ≡ u) ⊎ Held u us

Held-push_back : (us : List InstalledUpdate) (u : InstalledUpdate) → Held u (push_back us u)
Held-push_back [] u = inl refl
Held-push_back (v ∷ us) u = inr (Held-push_back us u)

Held-insert_sorted_self :
    (u : InstalledUpdate) (us : List InstalledUpdate) → Held u (insert_sorted u us)
unfolding insert_sorted
Held-insert_sorted_self u [] = inl refl
Held-insert_sorted_self u (v ∷ us) = elim (Bool-cases (version_le v.version u.version)) [
  | inl le ↦ rw le (inr (Held-insert_sorted_self u us))
  | inr gt ↦ rw gt (inl refl)
]

Held-insert_sorted :
    (w u : InstalledUpdate) (us : List InstalledUpdate) → Held w us → Held w (insert_sorted u us)
unfolding insert_sorted
Held-insert_sorted w u [] h = absurd h
Held-insert_sorted w u (v ∷ us) (inl e) = elim (Bool-cases (version_le v.version u.version)) [
  | inl le ↦ rw le (inl e)
  | inr gt ↦ rw gt (inr (inl e))
]
Held-insert_sorted w u (v ∷ us) (inr h) = elim (Bool-cases (version_le v.version u.version)) [
  | inl le ↦ rw le (inr (Held-insert_sorted w u us h))
  | inr gt ↦ rw gt (inr (inr h))
]

Held-sort_loop :
    (w : InstalledUpdate) (us sorted : List InstalledUpdate)
    → Held w us ⊎ Held w sorted
    → Held w (sort_loop us sorted)
unfolding sort_loop
Held-sort_loop w [] sorted (inl h) = absurd h
Held-sort_loop w [] sorted (inr h) = h
Held-sort_loop w (u ∷ us) sorted (inl (inl e)) =
    Held-sort_loop w us (insert_sorted u sorted)
      (inr (subst (λ x. Held x (insert_sorted u sorted)) e (Held-insert_sorted_self u sorted)))
Held-sort_loop w (u ∷ us) sorted (inl (inr h)) =
    Held-sort_loop w us (insert_sorted u sorted) (inl h)
Held-sort_loop w (u ∷ us) sorted (inr h) =
    Held-sort_loop w us (insert_sorted u sorted) (inr (Held-insert_sorted w u sorted h))

pub push_installed-Held :
    (s : UpdateProtocol) (u : InstalledUpdate) → Held u (push_installed s u).installed
unfolding push_installed sort_by_version
push_installed-Held s u =
    Held-sort_loop u (push_back s.installed u) [] (inl (Held-push_back s.installed u))
