-- ===== src/Spam/Window.antt =====
-- The window of one author (core/src/reputation/spam.rs): with times in order, what the loop leaves
-- is what lies in the window.
use onde_resilience.Prelude.{
  ℕ, ◌≤◌, ◌≡◌, refl, [], ◌∷◌, arith, ltb, leb, length, push_back, keep_if, All, Bool-cases, inl,
  inr,
}
use onde_resilience.Spam.{AuthorWindow, drop_stale, last_stamp}

-- Times in order, none of them after the clock.
abbrev pub IsWindow : ℕ → AuthorWindow → Type 0
IsWindow clock [] = Unit {0}
IsWindow clock (t ∷ stamps) = (t ≤ clock) × All (λ u. t ≤ u) stamps × IsWindow clock stamps

-- The admissions at or after the horizon.
abbrev pub in_window : ℕ → AuthorWindow → AuthorWindow
in_window horizon stamps = keep_if (λ t. leb horizon t) stamps

in_window_kept :
    (horizon t : ℕ) (stamps : AuthorWindow)
    → horizon ≤ t
    → All (λ u. t ≤ u) stamps
    → in_window horizon stamps ≡ stamps
in_window_kept horizon t [] low h = refl
in_window_kept horizon t (u ∷ stamps) low h =
    ground (arith, in_window_kept horizon t stamps low h.1, h.0)

pub drop_stale-in_window :
    (horizon clock : ℕ) (stamps : AuthorWindow)
    → IsWindow clock stamps
    → drop_stale horizon stamps ≡ in_window horizon stamps
unfolding drop_stale
drop_stale-in_window horizon clock [] h = refl
drop_stale-in_window horizon clock (t ∷ stamps) h =
    let rest = drop_stale-in_window horizon clock stamps h.2 in
    elim (Bool-cases (ltb t horizon)) [
      | inl stale ↦ ground (arith, rest)
      | inr live ↦ ground (arith, in_window_kept horizon t stamps (ground arith) h.1)
    ]

pub drop_stale-IsWindow :
    (horizon clock : ℕ) (stamps : AuthorWindow)
    → IsWindow clock stamps
    → IsWindow clock (drop_stale horizon stamps)
unfolding drop_stale
drop_stale-IsWindow horizon clock [] h = tt
drop_stale-IsWindow horizon clock (t ∷ stamps) h = elim (Bool-cases (ltb t horizon)) [
  | inl stale ↦ rw stale (drop_stale-IsWindow horizon clock stamps h.2)
  | inr live ↦ rw live h
]

pub length-drop_stale-le :
    (horizon : ℕ) (stamps : AuthorWindow) → length (drop_stale horizon stamps) ≤ length stamps
unfolding drop_stale
length-drop_stale-le horizon [] = omega arith
length-drop_stale-le horizon (t ∷ stamps) = ground (arith, length-drop_stale-le horizon stamps)

-- What the loop leaves, it leaves again.
pub drop_stale-twice :
    (horizon : ℕ) (stamps : AuthorWindow)
    → drop_stale horizon (drop_stale horizon stamps) ≡ drop_stale horizon stamps
unfolding drop_stale
drop_stale-twice horizon [] = refl
drop_stale-twice horizon (t ∷ stamps) = ground (arith, drop_stale-twice horizon stamps)

pub later-IsWindow :
    (clock now : ℕ) (stamps : AuthorWindow)
    → clock ≤ now
    → IsWindow clock stamps
    → IsWindow now stamps
later-IsWindow clock now [] le h = tt
later-IsWindow clock now (t ∷ stamps) le h =
    (omega (arith, h.0), h.1, later-IsWindow clock now stamps le h.2)

All-push_back :
    (P : ℕ → Type 0) (stamps : AuthorWindow) (t : ℕ)
    → All P stamps
    → P t
    → All P (push_back stamps t)
All-push_back P [] t h p = (p, tt)
All-push_back P (u ∷ stamps) t h p = (h.0, All-push_back P stamps t h.1 p)

pub push-IsWindow :
    (clock now : ℕ) (stamps : AuthorWindow)
    → clock ≤ now
    → IsWindow clock stamps
    → IsWindow now (push_back stamps now)
push-IsWindow clock now [] le h = (omega arith, tt, tt)
push-IsWindow clock now (t ∷ stamps) le h = (
  omega (arith, h.0),
  All-push_back (λ u. t ≤ u) stamps now h.1 (omega (arith, h.0)),
  push-IsWindow clock now stamps le h.2,
)

pub last_stamp-push_back :
    (stamps : AuthorWindow) (now : ℕ) → last_stamp (push_back stamps now) ≡ now
unfolding last_stamp
last_stamp-push_back [] now = refl
last_stamp-push_back (t ∷ []) now = refl
last_stamp-push_back (t ∷ u ∷ stamps) now = last_stamp-push_back (u ∷ stamps) now
