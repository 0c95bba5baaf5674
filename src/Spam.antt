-- ===== src/Spam.antt =====
-- The reasons of abuse and the sliding window of `SpamGuard` (core/src/reputation/spam.rs). The
-- order in which Rust walks a `HashMap` is a parameter.
pub mod Window
pub mod Eviction
pub mod Admission
pub mod Decision
mod Examples
use onde_resilience.Prelude.{
  ℕ, zero, suc, ◌+◌, ◌-◌, ◌≡◌, String, Bool, true, false, Option, none, some, List, [], ◌∷◌, map,
  if◌then◌else◌, ltb, leb, ◌==◌, length, push_back,
}
use onde_resilience.Prelude.Assoc.{Assoc, lookup, lookup_or, insert, remove}
use onde_resilience.Prelude.Sets.{Distinct}
use onde_resilience.Prelude.Words.{saturating_sub}

pub data AbuseReason : Type 0 where
  excessive_rate invalid_event insufficient_pow : AbuseReason

unfoldable pub code : AbuseReason → ℕ
code AbuseReason.excessive_rate = 1
code AbuseReason.invalid_event = 2
code AbuseReason.insufficient_pow = 3

unfoldable pub from_code : ℕ → Option AbuseReason
from_code n =
    if n == 1
    then some AbuseReason.excessive_rate
    else if n == 2
    then some AbuseReason.invalid_event
    else if n == 3
    then some AbuseReason.insufficient_pow
    else none

abbrev pub spam_window_secs : ℕ
spam_window_secs = 60

abbrev pub spam_budget_per_window : ℕ
spam_budget_per_window = 12

abbrev pub max_tracked_authors : ℕ
max_tracked_authors = 1024

-- `u64::MAX`
abbrev pub u64_max : ℕ
u64_max = 18446744073709551615

-- The admissions of one author that are still remembered, the oldest first.
abbrev pub AuthorWindow : Type 0
AuthorWindow = List ℕ

pub record SpamGuard : Type 0 where
  pub window_secs : ℕ
  pub budget : ℕ
  pub entries : Assoc AuthorWindow

abbrev pub new : ℕ → ℕ → SpamGuard
new window_secs budget = record { window_secs = window_secs; budget = budget; entries = [] }

unfoldable pub tracked_authors : SpamGuard → ℕ
tracked_authors g = length g.entries

abbrev pub keys {ℓ} : {V : Type ℓ} → Assoc V → List String
keys entries = map (λ entry. entry.0) entries

-- The order of `HashMap::iter`: any order of the entries.
pub record MapOrder : Type 0 where
  pub iter : Assoc AuthorWindow → Assoc AuthorWindow
  pub iter-lookup :
      (entries : Assoc AuthorWindow) (key : String)
      → Distinct (keys entries)
      → lookup key (iter entries) ≡ lookup key entries
  pub iter-Distinct :
      (entries : Assoc AuthorWindow) → Distinct (keys entries) → Distinct (keys (iter entries))

-- The loop that pops the front while it is older than the horizon.
unfoldable pub drop_stale : ℕ → AuthorWindow → AuthorWindow
drop_stale horizon [] = []
drop_stale horizon (t ∷ stamps) = if ltb t horizon then drop_stale horizon stamps else t ∷ stamps

-- `stamps.back().unwrap_or(0)`
unfoldable pub last_stamp : AuthorWindow → ℕ
last_stamp [] = 0
last_stamp (t ∷ []) = t
last_stamp (t ∷ u ∷ stamps) = last_stamp (u ∷ stamps)

-- The loop of `evict_oldest`: the least recent author so far, and its last admission.
unfoldable pub oldest : Assoc AuthorWindow → Option String → ℕ → Option String
oldest [] oldest_key oldest_time = oldest_key
oldest ((k, stamps) ∷ entries) oldest_key oldest_time = elim (ltb (last_stamp stamps) oldest_time) [
  | true ↦ oldest entries (some k) (last_stamp stamps)
  | false ↦ oldest entries oldest_key oldest_time
]

unfoldable pub is_empty : AuthorWindow → Bool
is_empty [] = true
is_empty (t ∷ stamps) = false

module _ (order : MapOrder) where
  unfoldable pub evict_oldest : Assoc AuthorWindow → Assoc AuthorWindow
  evict_oldest entries = elim (oldest (order.iter entries) none u64_max) [
    | none ↦ entries
    | some k ↦ remove k entries
  ]

  unfoldable pub admit_with_budget : SpamGuard → String → ℕ → ℕ → SpamGuard × Bool
  admit_with_budget g author now budget =
      if budget == 0
      then (g, false)
      else let horizon = saturating_sub now g.window_secs in
        let stamps = drop_stale horizon (lookup_or [] author g.entries) in
        let purged = insert author stamps g.entries in
        let grown = insert author (push_back stamps now) g.entries in
        if leb budget (length stamps)
        then (
          record g { entries = if is_empty stamps then remove author purged else purged },
          false,
        )
        else (
          record g {
            entries = if ltb max_tracked_authors (length grown) then evict_oldest grown else grown;
          },
          true,
        )

  unfoldable pub admit : SpamGuard → String → ℕ → SpamGuard × Bool
  admit g author now = admit_with_budget g author now g.budget
