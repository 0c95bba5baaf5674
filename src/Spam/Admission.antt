-- ===== src/Spam/Admission.antt =====
-- `admit_with_budget` of core/src/reputation/spam.rs: who is admitted, what is recorded, and the
-- bounds on the memory of the guard.
use onde_resilience.Prelude.{
  ℕ, suc, ◌-◌, ◌≤◌, ◌<◌, ◌≡◌, refl, ap, String, true, false, ◌⊎◌, inl, inr, some, [], ◌∷◌, arith,
  if◌then◌else◌, ltb, leb, ◌==◌, length, push_back, Bool-cases, Option-cases, length-append, str_eq,
}
use onde_resilience.Prelude.Assoc.{
  Assoc, lookup, lookup_or, insert, remove, lookup_or-insert, lookup_or-remove, lookup_or-none,
  lookup-insert_self, length-insert-le, length-insert_present, length-remove-lt,
}
use onde_resilience.Prelude.Sets.{Distinct}
use onde_resilience.Spam.{
  AuthorWindow, SpamGuard, MapOrder, keys, max_tracked_authors, u64_max, drop_stale, last_stamp,
  is_empty, evict_oldest, admit_with_budget,
}
use onde_resilience.Spam.Window.{
  IsWindow, drop_stale-IsWindow, length-drop_stale-le, later-IsWindow, push-IsWindow,
  last_stamp-push_back,
}
use onde_resilience.Spam.Eviction.{Distinct-insert, Distinct-remove, evict_oldest_lem}

-- The admissions of an author that are remembered.
abbrev pub admissions : SpamGuard → String → AuthorWindow
admissions g author = lookup_or [] author g.entries

-- Each author once and at most 1,024 of them, at most `cap` times of each, in order and none
-- after the clock.
pub record IsGuard (cap clock : ℕ) (g : SpamGuard) : Type 0 where
  pub authors_distinct : Distinct (keys g.entries)
  pub tracked_bounded : length g.entries ≤ max_tracked_authors
  pub windows : (author : String) → IsWindow clock (admissions g author)
  pub windows_bounded : (author : String) → length (admissions g author) ≤ cap

IsWindows : ℕ → ℕ → Assoc AuthorWindow → Type 0
IsWindows cap clock entries =
    (author : String)
    → IsWindow clock (lookup_or [] author entries) × (length (lookup_or [] author entries) ≤ cap)

insert-IsWindows :
    (cap clock : ℕ) (entries : Assoc AuthorWindow) (author : String) (stamps : AuthorWindow)
    → IsWindows cap clock entries
    → IsWindow clock stamps
    → length stamps ≤ cap
    → IsWindows cap clock (insert author stamps entries)
unfolding IsWindows
insert-IsWindows cap clock entries author stamps good window small other =
    rw (lookup_or-insert [] author other stamps entries) (elim (Bool-cases (str_eq author other)) [
      | inl same ↦ rw same (window, small)
      | inr apart ↦ rw apart (good other)
    ])

remove-IsWindows :
    (cap clock : ℕ) (entries : Assoc AuthorWindow) (author : String)
    → IsWindows cap clock entries
    → IsWindows cap clock (remove author entries)
unfolding IsWindows
remove-IsWindows cap clock entries author good other =
    rw (lookup_or-remove [] author other entries) (elim (Bool-cases (str_eq author other)) [
      | inl same ↦ rw same (tt, omega arith)
      | inr apart ↦ rw apart (good other)
    ])

-- A map that is at its bound gives up an author for a new one.
settle :
    (order : MapOrder) (cap clock : ℕ) (entries : Assoc AuthorWindow) (author : String)
    (stamps : AuthorWindow)
    → Distinct (keys entries)
    → length entries ≤ suc max_tracked_authors
    → lookup author entries ≡ some stamps
    → last_stamp stamps < u64_max
    → IsWindows cap clock entries
    → Distinct (
        keys (
          if ltb max_tracked_authors (length entries) then evict_oldest order entries else entries))
      × (length (
            if ltb max_tracked_authors (length entries)
            then evict_oldest order entries
            else entries)
          ≤ max_tracked_authors)
      × IsWindows cap clock
          (if ltb max_tracked_authors (length entries) then evict_oldest order entries else entries)
settle order cap clock entries author stamps d size held early good =
    elim (Bool-cases (ltb max_tracked_authors (length entries))) [
      | inr fits ↦ rw fits (d, ground arith, good)
      | inl over ↦
          let (k, gone, removed, found, _) =
            evict_oldest_lem order entries author stamps d held early in
          rw (over, removed)
            (
              Distinct-remove k entries d,
              omega (arith, length-remove-lt k gone entries found),
              remove-IsWindows cap clock entries k good,
            )
    ]

not_empty : (stamps : AuthorWindow) → 0 < length stamps → is_empty stamps ≡ false
unfolding is_empty
not_empty [] h = absurd (omega arith)
not_empty (t ∷ stamps) h = refl

module _ (order : MapOrder) (g : SpamGuard) (author : String) (now budget : ℕ) where
  -- The admissions of the author that the loop leaves.
  unfoldable pub live : AuthorWindow
  live = drop_stale (now - g.window_secs) (admissions g author)

  unfoldable pub grown : Assoc AuthorWindow
  unfolding live
  grown = insert author (push_back live now) g.entries

  pub branches :
      ((budget ≡ 0) × (admit_with_budget order g author now budget ≡ (g, false)))
      ⊎ (((0 < budget)
            × (budget ≤ length live)
            × (admit_with_budget order g author now budget
                ≡ (record g { entries = insert author live g.entries }, false)))
          ⊎ ((length live < budget)
              × (admit_with_budget order g author now budget ≡ (
                record g {
                  entries =
                      if ltb max_tracked_authors (length grown)
                      then evict_oldest order grown
                      else grown;
                },
                true,
              ))))
  unfolding admit_with_budget live grown
  branches = elim (Bool-cases (budget == 0)) [
    | inl nothing ↦ inl (ground arith, rw nothing refl)
    | inr some_budget ↦ elim (Bool-cases (leb budget (length live))) [
      | inl full ↦ inr (
          inl (
            ground arith,
            ground arith,
            rw (some_budget, full, not_empty live (ground arith)) refl,
          ))
      | inr room ↦ inr (inr (ground arith, rw (some_budget, room) refl))
    ]
  ]

  present : 0 < length live → (w : AuthorWindow) × (lookup author g.entries ≡ some w)
  unfolding live
  present h = elim (Option-cases (lookup author g.entries)) [
    | inr found ↦ found
    | inl missing ↦ absurd (
        omega (
          arith,
          length-drop_stale-le (now - g.window_secs) (admissions g author),
          ap length (lookup_or-none [] author g.entries missing),
        ))
  ]

  module _ (cap clock : ℕ) (good : IsGuard cap clock g) (later : clock ≤ now) where
    held-IsWindows : IsWindows cap now g.entries
    unfolding IsWindows
    held-IsWindows other =
        (later-IsWindow clock now _ later (good.windows other), good.windows_bounded other)

    live-IsWindow : IsWindow clock live
    unfolding live
    live-IsWindow =
        drop_stale-IsWindow (now - g.window_secs) clock (admissions g author) (good.windows author)

    live-le : length live ≤ cap
    unfolding live
    live-le = omega (
      arith,
      length-drop_stale-le (now - g.window_secs) (admissions g author),
      good.windows_bounded author,
    )

    -- From a guard in its bounds, at a time that is not before its clock and is before the last
    -- one, and with a budget within the cap, `admit_with_budget` keeps the guard's bounds and the
    -- order of the times, whatever it decides.
    pub admit-IsGuard :
        budget ≤ cap
        → now < u64_max
        → IsGuard cap now (admit_with_budget order g author now budget).0
    unfolding IsWindows grown
    admit-IsGuard small early = elim branches [
      | inl (_, same) ↦ rw same (record {
        authors_distinct = good.authors_distinct;
        tracked_bounded = good.tracked_bounded;
        windows = λ other. (held-IsWindows other).0;
        windows_bounded = good.windows_bounded;
      })
      | inr (inl (positive, full, same)) ↦
          let (w, found) = present (omega arith) in
          let all =
            insert-IsWindows cap now g.entries author live held-IsWindows
              (later-IsWindow clock now live later live-IsWindow) live-le in
          rw same (record {
            authors_distinct = Distinct-insert author live g.entries good.authors_distinct;
            tracked_bounded =
                omega (
                  arith,
                  length-insert_present author live w g.entries found,
                  good.tracked_bounded,
                );
            windows = λ other. (all other).0;
            windows_bounded = λ other. (all other).1;
          })
      | inr (inr (room, same)) ↦
          let all =
            insert-IsWindows cap now g.entries author (push_back live now) held-IsWindows
              (push-IsWindow clock now live later live-IsWindow)
              (omega (arith, length-append live (now ∷ []))) in
          let (distinct, tracked, windows) =
            settle order cap now grown author (push_back live now)
              (Distinct-insert author (push_back live now) g.entries good.authors_distinct)
              (omega (
                arith,
                length-insert-le author (push_back live now) g.entries,
                good.tracked_bounded,
              ))
              (lookup-insert_self author (push_back live now) g.entries)
              (rw (last_stamp-push_back live now) early) all in
          rw same (record {
            authors_distinct = distinct;
            tracked_bounded = tracked;
            windows = λ other. (windows other).0;
            windows_bounded = λ other. (windows other).1;
          })
    ]
