-- ===== src/Reputation/Sound.antt =====
-- What the calls of a node keep of its reputation (core/src/reputation/mod.rs).
use onde_resilience.Prelude.{
  ℕ, ◌≡◌, refl, String, [], true, inl, inr, any_of, str_eq, Bool-cases, Option-cases,
}
use onde_resilience.Prelude.Assoc.{lookup_or}
use onde_resilience.Spam.{AbuseReason, from_code}
use onde_resilience.Reputation.{
  Float, ReputationSystem, Endorsement, AbuseReport, score, endorsement_threshold, has_key, endorse,
  apply_remote_endorsement, apply_remote_abuse_report, record_violation,
}
use onde_resilience.Reputation.Endorsing.{IsEndorsed, endorse-IsEndorsed}
use onde_resilience.Reputation.Reporting.{IsReported, apply_remote_abuse_report_lem}

abbrev pub IsSound : {F : Type 0} → ReputationSystem F → Type 0
IsSound s = IsEndorsed s × IsReported s

IsReported-same :
    {F : Type 0} (s t : ReputationSystem F)
    → t.abuse_report_keys ≡ s.abuse_report_keys
    → t.abuse_report_order ≡ s.abuse_report_order
    → IsReported s
    → IsReported t
IsReported-same s t keys order good = record {
  reported_same = rw (keys, order) good.reported_same;
  reported_distinct = rw order good.reported_distinct;
  reported_bounded = rw order good.reported_bounded;
}

module _ {F : Type 0} (float : Float F) (s : ReputationSystem F) where
  pub record_violation-IsSound :
      (author : String) (reason : AbuseReason) (now : ℕ)
      → IsSound s
      → IsSound (record_violation float s author reason now).0
  unfolding record_violation
  record_violation-IsSound author reason now (endorsed, reported) =
      (endorsed, IsReported-same s _ refl refl reported)

  endorse-reports :
      (endorser endorsed : String) (timestamp : ℕ)
      → ((endorse float s endorser endorsed timestamp).0.abuse_report_keys ≡ s.abuse_report_keys)
        × ((endorse float s endorser endorsed timestamp).0.abuse_report_order
            ≡ s.abuse_report_order)
  unfolding endorse
  endorse-reports endorser endorsed timestamp = elim (Bool-cases (str_eq endorser endorsed)) [
    | inl self ↦ rw self (refl, refl)
    | inr apart ↦
        elim (Bool-cases (float.lt (score float s endorser) (endorsement_threshold float))) [
          | inl weak ↦ rw (apart, weak) (refl, refl)
          | inr strong ↦
              elim (Bool-cases (
                any_of (λ (e : Endorsement). str_eq e.endorser endorser)
                  (lookup_or [] endorsed s.endorsements))) [
                    | inl twice ↦ rw (apart, strong, twice) (refl, refl)
                    | inr fresh ↦ rw (apart, strong, fresh) (refl, refl)
                  ]
        ]
  ]

  pub apply_remote_endorsement-IsSound :
      (e : Endorsement) → IsSound s → IsSound (apply_remote_endorsement float s e true).0
  unfolding apply_remote_endorsement
  apply_remote_endorsement-IsSound e (endorsed, reported) =
      let (keys, order) = endorse-reports e.endorser e.endorsed e.timestamp in
      (
        endorse-IsEndorsed float s e.endorser e.endorsed e.timestamp endorsed,
        IsReported-same s _ keys order reported,
      )

  report-endorsements :
      (report : AbuseReport)
      → (apply_remote_abuse_report float s report true).0.endorsements ≡ s.endorsements
  unfolding apply_remote_abuse_report
  report-endorsements report = elim (Bool-cases (str_eq report.reporter report.offender)) [
    | inl self ↦ rw self refl
    | inr apart ↦ elim (Option-cases (from_code report.reason)) [
      | inl unknown ↦ rw (apart, unknown, apply_remote_abuse_report) refl
      | inr (reason, known) ↦
          elim (Bool-cases
            (float.lt (score float s report.reporter) (endorsement_threshold float))) [
              | inl weak ↦ rw (apart, known, apply_remote_abuse_report, weak) refl
              | inr strong ↦
                  elim (Bool-cases (
                    has_key (report.reporter, report.offender, report.reason)
                      s.abuse_report_keys)) [
                        | inl seen ↦ rw (apart, known, apply_remote_abuse_report, strong, seen) refl
                        | inr fresh ↦
                            rw (apart, known, apply_remote_abuse_report, strong, fresh) refl
                      ]
            ]
    ]
  ]

  pub apply_remote_abuse_report-IsSound :
      (report : AbuseReport) → IsSound s → IsSound (apply_remote_abuse_report float s report true).0
  apply_remote_abuse_report-IsSound report (endorsed, reported) = (
    λ pubkey. rw (report-endorsements report) (endorsed pubkey),
    (apply_remote_abuse_report_lem float s report true reported).0,
  )
