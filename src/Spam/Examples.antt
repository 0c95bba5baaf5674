-- ===== src/Spam/Examples.antt =====
-- The guard of core/src/reputation/spam.rs on a concrete state.
use onde_resilience.Prelude.{
  ◌≤◌, ◌<◌, ◌≡◌, ◌↔◌, refl, String, Bool, true, false, Option, none, some, [], ◌∷◌, arith,
  if◌then◌else◌, length, push_back, str_eq,
}
use onde_resilience.Prelude.Assoc.{lookup, lookup_or, insert, remove}
use onde_resilience.Spam.{
  AbuseReason, code, from_code, AuthorWindow, SpamGuard, MapOrder, new, u64_max,
  max_tracked_authors, drop_stale, last_stamp, oldest, is_empty, evict_oldest, admit_with_budget,
  admit,
}
use onde_resilience.Spam.Window.{IsWindow, in_window}
use onde_resilience.Spam.Admission.{IsGuard, admissions}
use onde_resilience.Spam.Decision.{admit_lem}

abbrev listed : MapOrder
listed = record {
  iter = λ entries. entries;
  iter-lookup = λ entries key d. refl;
  iter-Distinct = λ entries d. d;
}

program : Unit {0}
unfolding lookup lookup_or insert remove drop_stale last_stamp oldest is_empty evict_oldest
    admit_with_budget admit code from_code
program = tt

-- Two events of ana at 100 and 130, one of bo at 120.
abbrev guard : SpamGuard
guard = record (new 60 2) { entries = ("ana", 100 ∷ 130 ∷ []) ∷ ("bo", 120 ∷ []) ∷ [] }

-- What a look-up in it finds, by the two comparisons it makes.
abbrev pick : Bool → Bool → AuthorWindow
pick ana bo =
    let bo_found : Option AuthorWindow = if bo then some (120 ∷ []) else none in
    let found : Option AuthorWindow = if ana then some (100 ∷ 130 ∷ []) else bo_found in
    elim found [ none ↦ [] | some stamps ↦ stamps ]

pick-IsWindow : (ana bo : Bool) → IsWindow 130 (pick ana bo) × (length (pick ana bo) ≤ 2)
pick-IsWindow true bo = ((omega arith, (omega arith, tt), (omega arith, tt, tt)), omega arith)
pick-IsWindow false true = ((omega arith, tt, tt), omega arith)
pick-IsWindow false false = (tt, omega arith)

guard-windows :
    (author : String)
    → IsWindow 130 (admissions guard author) × (length (admissions guard author) ≤ 2)
unfolding program
guard-windows author = pick-IsWindow (str_eq "ana" author) (str_eq "bo" author)

guard-IsGuard : IsGuard 2 130 guard
unfolding program
guard-IsGuard = record {
  authors_distinct = (refl, (refl, tt));
  tracked_bounded = omega arith;
  windows = λ author. (guard-windows author).0;
  windows_bounded = λ author. (guard-windows author).1;
}

admit_lem_example :
    (((admit_with_budget listed guard "ana" 161 2).1 ≡ true)
      ↔ (length (in_window 101 (admissions guard "ana")) < 2))
    × ((admit_with_budget listed guard "ana" 161 2).1 ≡ false
        → (other : String)
        → in_window 101 (admissions (admit_with_budget listed guard "ana" 161 2).0 other)
          ≡ in_window 101 (admissions guard other))
    × ((admit_with_budget listed guard "ana" 161 2).1 ≡ true
        → 2 < max_tracked_authors
        → (other : String)
        → admissions (admit_with_budget listed guard "ana" 161 2).0 other ≡ (
            if str_eq "ana" other
            then push_back (in_window 101 (admissions guard "ana")) 161
            else admissions guard other))
admit_lem_example = admit_lem listed guard "ana" 161 2 2 130 guard-IsGuard

-- Within the window the third event of ana is refused; once the first has left it, it passes.
decided :
    ((admit listed guard "ana" 150).1 ≡ false)
    × ((admit listed guard "ana" 161).1 ≡ true)
    × ((admit listed guard "cy" 150).1 ≡ true)
unfolding program
decided = (refl, refl, refl)

bo_held : lookup "bo" guard.entries ≡ some (120 ∷ [])
unfolding program
bo_held = refl

bo_early : last_stamp (120 ∷ []) < u64_max
unfolding program
bo_early = omega arith

-- Each reason is read back from its code.
reasons :
    (from_code (code AbuseReason.excessive_rate) ≡ some AbuseReason.excessive_rate)
    × (from_code (code AbuseReason.invalid_event) ≡ some AbuseReason.invalid_event)
    × (from_code (code AbuseReason.insufficient_pow) ≡ some AbuseReason.insufficient_pow)
    × (from_code 0 ≡ none)
unfolding program
reasons = (refl, refl, refl, refl)
