-- ===== src/Spam/Decision.antt =====
-- What `admit_with_budget` of core/src/reputation/spam.rs decides, and what it records.
use onde_resilience.Prelude.{
  ℕ, ◌-◌, ◌<◌, ◌≡◌, ◌↔◌, refl, ◌∙◌, sym, ap, String, true, false, inl, inr, [], arith,
  if◌then◌else◌, ltb, length, push_back, Bool-cases, str_eq, eq_iff,
}
use onde_resilience.Prelude.Assoc.{insert, lookup_or-insert, length-insert-le}
use onde_resilience.Spam.{SpamGuard, MapOrder, max_tracked_authors, drop_stale, admit_with_budget}
use onde_resilience.Spam.Window.{
  in_window, drop_stale-in_window, drop_stale-IsWindow, drop_stale-twice,
}
use onde_resilience.Spam.Admission.{IsGuard, admissions, branches, live, grown}

module _ (order : MapOrder) (g : SpamGuard) (author : String) (now budget cap clock : ℕ)
    (good : IsGuard cap clock g) where
  -- With a guard that keeps its bounds, an event is admitted exactly when fewer admissions of its
  -- author than the budget lie in the window. A refusal changes no author's admissions in the
  -- window. An admission, with fewer than 1,024 authors before it, is recorded after those of its
  -- author in the window, and no other author's record changes.
  pub admit_lem :
      (((admit_with_budget order g author now budget).1 ≡ true)
        ↔ (length (in_window (now - g.window_secs) (admissions g author)) < budget))
      × ((admit_with_budget order g author now budget).1 ≡ false
          → (other : String)
          → in_window
              (now - g.window_secs)
              (admissions (admit_with_budget order g author now budget).0 other)
            ≡ in_window (now - g.window_secs) (admissions g other))
      × ((admit_with_budget order g author now budget).1 ≡ true
          → length g.entries < max_tracked_authors
          → (other : String)
          → admissions (admit_with_budget order g author now budget).0 other ≡ (
              if str_eq author other
              then push_back (in_window (now - g.window_secs) (admissions g author)) now
              else admissions g other))
  unfolding live grown
  admit_lem =
      let horizon = now - g.window_secs in
      let mine = admissions g author in
      let kept = drop_stale-in_window horizon clock mine (good.windows author) in
      let again : in_window horizon (drop_stale horizon mine) ≡ in_window horizon mine =
        sym (
          drop_stale-in_window horizon clock (drop_stale horizon mine)
            (drop_stale-IsWindow horizon clock mine (good.windows author)))
        ∙ drop_stale-twice horizon mine
        ∙ kept in
      elim (branches order g author now budget) [
        | inl (nothing, same) ↦
            rw same ((λ h. cc, λ h. absurd (omega arith)), λ h other. refl, λ h. cc)
        | inr (inl (positive, full, same)) ↦ rw same (
          (λ h. cc, λ h. absurd (omega (arith, ap length kept))),
          λ h other.
              rw (lookup_or-insert [] author other (drop_stale horizon mine) g.entries)
                (elim (Bool-cases (str_eq author other)) [
                  | inl is ↦ rw is (
                      again
                      ∙ ap (λ (s : String). in_window horizon (admissions g s))
                          ((eq_iff author other).0 is))
                  | inr apart ↦ rw apart refl
                ]),
          λ h. cc,
        )
        | inr (inr (room, same)) ↦ rw same (
          (λ h. omega (arith, ap length kept), λ h. refl),
          (λ h. cc),
          λ h free other.
              let fits =
                length-insert-le author (push_back (drop_stale horizon mine) now) g.entries in
              let under : ltb max_tracked_authors
                    (length (insert author (push_back (drop_stale horizon mine) now) g.entries))
                  ≡ false =
                ground arith in
              rw
                (
                  under,
                  lookup_or-insert [] author other (push_back (drop_stale horizon mine) now)
                      g.entries,
                  kept,
                )
                refl,
        )
      ]
