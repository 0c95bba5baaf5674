-- ===== src/Reputation/Reporting.antt =====
-- `apply_remote_abuse_report` of core/src/reputation/mod.rs: a report counts once, and the memory of
-- reports is bounded.
use onde_resilience.Prelude.{
  ℕ, zero, suc, ◌≤◌, ◌≡◌, refl, ◌∙◌, sym, ap, subst, Bool, true, false, ◌||◌, ◌⊎◌, inl, inr, some,
  List, [], ◌∷◌, arith, ltb, length, push_back, Bool-cases, Option-cases, length-append, str_eq,
  eq_iff, eq_refl,
}
use onde_resilience.Prelude.Assoc.{insert, lookup_or}
use onde_resilience.Prelude.Result.{ok, err}
use onde_resilience.Spam.{AbuseReason, from_code}
use onde_resilience.Reputation.{
  Float, ReputationSystem, AbuseRecord, AbuseReport, ReportKey, ReputationError,
  max_abuse_reports_tracked, endorsement_threshold, key_eq, has_key, remove_key, forget, no_abuse,
  record_abuse, score, apply_remote_abuse_report,
}

abbrev pub DistinctKeys : List ReportKey → Type 0
DistinctKeys [] = Unit {0}
DistinctKeys (k ∷ keys) = (has_key k keys ≡ false) × DistinctKeys keys

key_eq_refl : (k : ReportKey) → key_eq k k ≡ true
unfolding key_eq
key_eq_refl (a, b, c) = ground (arith, eq_refl a, eq_refl b)

key_eq_sym : (j k : ReportKey) → key_eq j k ≡ key_eq k j
unfolding key_eq
key_eq_sym (a, b, c) (x, y, z) = ground (arith, eq_iff a x, eq_iff x a, eq_iff b y, eq_iff y b)

has_key-push_back :
    (key : ReportKey) (keys : List ReportKey) (new : ReportKey)
    → has_key key (push_back keys new) ≡ (has_key key keys || key_eq new key)
unfolding has_key
has_key-push_back key [] new = ground arith
has_key-push_back key (k ∷ keys) new = ground (arith, has_key-push_back key keys new)

DistinctKeys-push_back :
    (keys : List ReportKey) (new : ReportKey)
    → DistinctKeys keys
    → has_key new keys ≡ false
    → DistinctKeys (push_back keys new)
unfolding has_key
DistinctKeys-push_back [] new d h = (refl, tt)
DistinctKeys-push_back (k ∷ keys) new d h = (
  ground (arith, has_key-push_back k keys new, key_eq_sym new k, d.0),
  DistinctKeys-push_back keys new d.1 (ground arith),
)

remove_key-absent :
    (key : ReportKey) (keys : List ReportKey)
    → has_key key keys ≡ false
    → remove_key key keys ≡ keys
unfolding has_key remove_key
remove_key-absent key [] h = refl
remove_key-absent key (k ∷ keys) h = ground (arith, remove_key-absent key keys)

remove_key-first :
    (key : ReportKey) (keys : List ReportKey)
    → has_key key keys ≡ false
    → remove_key key (key ∷ keys) ≡ keys
unfolding remove_key
remove_key-first key keys h = rw (key_eq_refl key) (remove_key-absent key keys h)

-- With a round for each key, the loop leaves equal sets and queues under the bound.
forget_lem :
    (fuel : ℕ) (queue : List ReportKey)
    → DistinctKeys queue
    → length queue ≤ fuel
    → ((forget fuel queue queue).0 ≡ (forget fuel queue queue).1)
      × DistinctKeys (forget fuel queue queue).1
      × (length (forget fuel queue queue).1 ≤ max_abuse_reports_tracked)
unfolding forget
forget_lem zero [] d h = (refl, tt, omega arith)
forget_lem zero (old ∷ queue) d h = absurd (omega arith)
forget_lem (suc fuel) [] d h = (refl, tt, omega arith)
forget_lem (suc fuel) (old ∷ queue) d h =
    elim (Bool-cases (ltb max_abuse_reports_tracked (length (old ∷ queue)))) [
      | inl over ↦
          rw (over, remove_key-first old queue d.0) (forget_lem fuel queue d.1 (omega arith))
      | inr fits ↦ rw fits (refl, d, ground arith)
    ]

-- The newest key stays.
forget-last :
    (fuel : ℕ) (keys queue : List ReportKey) (key : ReportKey)
    → has_key key (forget fuel keys (push_back queue key)).1 ≡ true
unfolding forget has_key
forget-last zero keys queue key = ground (arith, has_key-push_back key queue key, key_eq_refl key)
forget-last (suc fuel) keys [] key = ground (arith, key_eq_refl key)
forget-last (suc fuel) keys (old ∷ queue) key =
    elim (Bool-cases (ltb max_abuse_reports_tracked (length (push_back (old ∷ queue) key)))) [
      | inl over ↦ rw over (forget-last fuel (remove_key old keys) queue key)
      | inr fits ↦ rw fits (ground (arith, has_key-push_back key queue key, key_eq_refl key))
    ]

-- The set and the queue hold the same distinct keys, at most 2,048 of them.
pub record IsReported {F : Type 0} (s : ReputationSystem F) : Type 0 where
  pub reported_same : s.abuse_report_keys ≡ s.abuse_report_order
  pub reported_distinct : DistinctKeys s.abuse_report_order
  pub reported_bounded : length s.abuse_report_order ≤ max_abuse_reports_tracked

module _ {F : Type 0} (float : Float F) (s : ReputationSystem F) (report : AbuseReport)
    (verified : Bool) where
  abbrev pub key_of : ReportKey
  key_of = (report.reporter, report.offender, report.reason)

  -- A report that counts.
  pub record IsQualified : Type 0 where
    pub is_verified : verified ≡ true
    pub of_another : str_eq report.reporter report.offender ≡ false
    pub reason : AbuseReason
    pub known_reason : from_code report.reason ≡ some reason
    pub by_trusted : float.lt (score float s report.reporter) (endorsement_threshold float) ≡ false
    pub not_seen : has_key key_of s.abuse_report_keys ≡ false

  tracked : List ReportKey × List ReportKey
  tracked =
      forget (suc (length s.abuse_report_order)) (push_back s.abuse_report_keys key_of)
        (push_back s.abuse_report_order key_of)

  recorded : AbuseRecord F
  recorded =
      record_abuse float (lookup_or (no_abuse float) report.offender s.abuse) (float.hundredths 10)
        report.timestamp

  counted : ReputationSystem F
  unfolding tracked recorded
  counted = record s {
    abuse = insert report.offender recorded s.abuse;
    abuse_report_keys = tracked.0;
    abuse_report_order = tracked.1;
  }

  branches :
      ((why : ReputationError) × (apply_remote_abuse_report float s report verified ≡ (s, err why)))
      ⊎ (IsQualified
          × (apply_remote_abuse_report float s report verified ≡ (counted, ok recorded.score)))
  unfolding apply_remote_abuse_report counted
  branches = elim (Bool-cases verified) [
    | inr no_sig ↦ inl (ReputationError.report_not_verified, rw no_sig refl)
    | inl sig ↦ elim (Bool-cases (str_eq report.reporter report.offender)) [
      | inl self ↦ inl (ReputationError.self_report, rw (sig, self) refl)
      | inr apart ↦ elim (Option-cases (from_code report.reason)) [
        | inl unknown ↦ inl (
          ReputationError.unknown_reason,
          rw (sig, apart, unknown, apply_remote_abuse_report) refl,
        )
        | inr (reason, known) ↦
            elim (Bool-cases
              (float.lt (score float s report.reporter) (endorsement_threshold float))) [
                | inl weak ↦ inl (
                  ReputationError.reporter_not_trusted,
                  rw (sig, apart, known, apply_remote_abuse_report, weak) refl,
                )
                | inr strong ↦ elim (Bool-cases (has_key key_of s.abuse_report_keys)) [
                  | inl seen ↦ inl (
                    ReputationError.duplicate_report,
                    rw (sig, apart, known, apply_remote_abuse_report, strong, seen) refl,
                  )
                  | inr fresh ↦ inr (
                    record {
                      is_verified = sig;
                      of_another = apart;
                      reason = reason;
                      known_reason = known;
                      by_trusted = strong;
                      not_seen = fresh;
                    },
                    rw (sig, apart, known, apply_remote_abuse_report, strong, fresh) refl,
                  )
                ]
              ]
      ]
    ]
  ]

  seen_after : IsQualified → has_key key_of tracked.1 ≡ true
  unfolding tracked
  seen_after q =
      forget-last (suc (length s.abuse_report_order)) (push_back s.abuse_report_keys key_of)
        s.abuse_report_order key_of

  counted-IsReported : IsReported s → IsQualified → IsReported counted
  unfolding counted tracked
  counted-IsReported good q =
      let fresh =
        subst (λ (keys : List ReportKey). has_key key_of keys ≡ false) good.reported_same
          q.not_seen in
      let (same, distinct, bounded) =
        forget_lem (suc (length s.abuse_report_order)) (push_back s.abuse_report_order key_of)
          (DistinctKeys-push_back s.abuse_report_order key_of good.reported_distinct fresh)
          (omega (arith, length-append s.abuse_report_order (key_of ∷ []))) in
      record {
        reported_same = rw good.reported_same same;
        reported_distinct = rw good.reported_same distinct;
        reported_bounded = rw good.reported_same bounded;
      }

  -- Where the set and the queue of reports are equal, without repetitions and within 2,048 entries,
  -- they stay so, and a report either fails without a change, or is verified, is about another
  -- node, has a known reason, comes from a trusted reporter and has not been seen, and is counted.
  pub apply_remote_abuse_report_lem :
      IsReported s
      → IsReported (apply_remote_abuse_report float s report verified).0
        × (((why : ReputationError) × (apply_remote_abuse_report float s report verified
                ≡ (s, err why)))
            ⊎ (IsQualified
                × ((level : F) × ((apply_remote_abuse_report float s report verified).1
                      ≡ ok level))))
  apply_remote_abuse_report_lem good = elim branches [
    | inl (why, same) ↦ (rw same good, inl (why, same))
    | inr (q, same) ↦ (rw same (counted-IsReported good q), inr (q, (recorded.score, rw same refl)))
  ]

  again :
      IsReported s
      → IsQualified
      → apply_remote_abuse_report float counted report verified
        ≡ (counted, err ReputationError.duplicate_report)
  unfolding apply_remote_abuse_report counted score
  again good q =
      let seen : has_key key_of counted.abuse_report_keys ≡ true =
        ap (has_key key_of) (counted-IsReported good q).reported_same ∙ seen_after q in
      rw
        (q.is_verified, q.of_another, q.known_reason, apply_remote_abuse_report, q.by_trusted, seen)
        refl

-- Where the set and the queue of reports are equal, without repetitions and within 2,048 entries, a
-- report that has been counted is refused as a duplicate when it comes again, without a change.
pub apply_remote_abuse_report_again :
    {F : Type 0} (float : Float F) (s : ReputationSystem F) (report : AbuseReport) (verified : Bool)
    (level : F)
    → IsReported s
    → (apply_remote_abuse_report float s report verified).1 ≡ ok level
    → apply_remote_abuse_report float
        (apply_remote_abuse_report float s report verified).0
        report
        verified
      ≡ (
        (apply_remote_abuse_report float s report verified).0,
        err ReputationError.duplicate_report,
      )
apply_remote_abuse_report_again float s report verified level good h =
    elim (branches float s report verified) [
      | inl (why, same) ↦ absurd (refused why level (sym (ap (λ r. r.1) same) ∙ h))
      | inr (q, same) ↦ rw same (again float s report verified good q)
    ]
  where
    refused : {F : Type 0} (why : ReputationError) (level : F) → err why ≡ ok level → ⊥
    refused why level h = cc
