-- ===== src/Report/Verdict.antt =====
-- What a valid, a refused and an incomplete verification look like, across the decision of the
-- policy, the summary text and the summary check.
use tamga.Prelude.{
  Bool, true, false, not, ◌&&◌, ◌||◌, String, str_eq, str_eq_iff, distinct, ◌≡◌, ◌⊎◌, inl, inr,
  refl, arith, Bool-cases, if◌then◌else◌,
}
use tamga.Report.Types.{VerifyReport, check, ErrorCode}
use tamga.Report.Summary.{
  compute_verify_summary, compute_verify_policy_decision, sound_summary, is_policy_base_valid,
  has_unacceptable_timestamp, is_confirmed, is_timestamp_invalid, is_timestamp_partial,
  is_service_unavailable, is_certificate_time_invalid, is_revocation_invalid,
  apply_timestamp_failure_to_trust,
}
use tamga.Report.Checks.{
  summary_check, policy_check, refusal_check, has_policy_warning, effective_revocation_checked,
  is_undecided, is_known_revoked,
}

-- What the policy asks of a report, as one conjunction.
unfoldable pub is_acceptable : VerifyReport → Bool
is_acceptable report =
    is_policy_base_valid report
    && not (is_timestamp_invalid report)
    && not (has_unacceptable_timestamp report.timestamp_details)
    && not (str_eq report.trust_status "timestamp-not-fully-validated")
    && not (is_service_unavailable report.trust_status)

compute_verify_policy_decision_valid :
    (report : VerifyReport) → (compute_verify_policy_decision report).valid ≡ is_acceptable report
unfolding compute_verify_policy_decision is_acceptable
compute_verify_policy_decision_valid report = ground arith

-- The policy refused for a reason that is known.
unfoldable pub is_refused : VerifyReport → Bool
is_refused report =
    is_known_revoked report
    || is_certificate_time_invalid report.trust_status
    || is_revocation_invalid report.trust_status
    || is_timestamp_invalid report

refusal_check_status :
    (report : VerifyReport)
    → (refusal_check report).status ≡ (if is_refused report then "invalid" else "warning")
unfolding refusal_check is_refused
refusal_check_status report = ground arith

is_undecided_confirmed :
    (status : String) → is_confirmed status ≡ true → is_undecided status ≡ false
unfolding is_undecided is_confirmed
is_undecided_confirmed status h = ground arith

has_policy_warning_acceptable :
    (report : VerifyReport)
    → is_acceptable report ≡ true
    → has_policy_warning report
      ≡ (report.historical_trust_used || str_eq report.timestamp_status "timestamp-partial")
unfolding has_policy_warning effective_revocation_checked is_acceptable is_policy_base_valid
has_policy_warning_acceptable report h =
    ground (arith, is_undecided_confirmed report.revocation_status)

-- A whole document, with an acceptable report and nothing to warn of.
unfoldable pub is_clean : VerifyReport → Bool
is_clean report =
    not report.container_malformed
    && report.container_coverage_complete
    && is_acceptable report
    && not report.historical_trust_used
    && not (str_eq report.timestamp_status "timestamp-partial")

executed :
    (report : VerifyReport)
    → is_acceptable report ≡ true
    → (report.has_result ≡ true)
      × (report.execution_succeeded ≡ true)
      × (report.signature_valid ≡ true)
unfolding is_acceptable is_policy_base_valid
executed report h = ground arith

-- The status of the summary check.
pub summary_check_status :
    (report : VerifyReport)
    → (summary_check report).status ≡ (
        if not report.has_result
        then "skipped"
        else if is_acceptable report
            && not report.container_malformed
            && report.container_coverage_complete
        then (if is_clean report then "valid" else "warning")
        else if not report.execution_succeeded
            || report.container_malformed
            || not report.signature_valid
            || not report.container_coverage_complete
            || is_refused report
        then "invalid"
        else "warning")
unfolding summary_check is_clean
summary_check_status report = ground (
  arith,
  compute_verify_policy_decision_valid report,
  refusal_check_status report,
  has_policy_warning_acceptable report,
  executed report,
)

pub is_confirmed_cases :
    (status : String) → is_confirmed status ≡ true → (status ≡ "good") ⊎ (status ≡ "valid")
unfolding is_confirmed
is_confirmed_cases status h = elim (Bool-cases (str_eq status "good")) [
  | inl good ↦ inl ((str_eq_iff status "good").0 good)
  | inr other ↦ inr ((str_eq_iff status "valid").0 (ground (arith, h, other)))
]

is_confirmed-distinct :
    (status : String)
    → is_confirmed status ≡ true
    → (str_eq status "temporarily-unavailable" ≡ false)
      × (str_eq status "unknown" ≡ false)
      × (str_eq status "revoked" ≡ false)
is_confirmed-distinct status h = elim (is_confirmed_cases status h) [
  | inl good ↦ rw good (refl, refl, refl)
  | inr valid ↦ rw valid (refl, refl, refl)
]

-- The policy confirmed the revocation status, and no test that leads to another text holds.
pub acceptable_texts :
    (report : VerifyReport)
    → is_acceptable report ≡ true
    → (is_confirmed report.revocation_status ≡ true)
      × (is_timestamp_invalid report ≡ false)
      × (is_service_unavailable report.trust_status ≡ false)
      × (report.trust_checked ≡ true)
      × (report.trust_valid ≡ true)
      × (report.revocation_checked ≡ true)
      × (str_eq report.trust_status "timestamp-not-fully-validated" ≡ false)
unfolding is_acceptable is_policy_base_valid
acceptable_texts report h = ground arith

-- The level that the policy grants.
abbrev pub granted_level : VerifyReport → String
granted_level report =
    if report.timestamp_checked && report.timestamp_valid then "cades-t" else "bes"

abbrev pub full_summary : VerifyReport → String
full_summary report =
    if report.timestamp_checked && report.timestamp_valid
    then "integrity-trust-revocation-and-timestamp"
    else "integrity-trust-and-revocation"

partial_none :
    (report : VerifyReport)
    → str_eq report.trust_status "timestamp-not-fully-validated" ≡ false
    → str_eq report.timestamp_status "timestamp-partial" ≡ false
    → is_timestamp_partial report ≡ false
unfolding is_timestamp_partial
partial_none report fully whole = ground arith

sound_summary_clean :
    (report : VerifyReport)
    → is_acceptable report ≡ true
    → str_eq report.timestamp_status "timestamp-partial" ≡ false
    → sound_summary report ≡ full_summary report
unfolding sound_summary
sound_summary_clean report h whole =
    let (confirmed, timed, reached, checked, valid, asked, fully) = acceptable_texts report h in
    let (answered, known, _) = is_confirmed-distinct report.revocation_status confirmed in
    let partial = partial_none report fully whole in ground (arith, partial, executed report h)

compute_verify_policy_decision_level :
    (report : VerifyReport)
    → is_acceptable report ≡ true
    → (compute_verify_policy_decision report).level ≡ granted_level report
unfolding compute_verify_policy_decision is_acceptable
compute_verify_policy_decision_level report h = ground arith

-- Nothing to warn of.
abbrev pub Unwarned : VerifyReport → Type 0
Unwarned report =
    (report.historical_trust_used ≡ false)
    × (str_eq report.timestamp_status "timestamp-partial" ≡ false)

abbrev pub Whole : VerifyReport → Type 0
Whole report = (report.container_malformed ≡ false) × (report.container_coverage_complete ≡ true)

pub valid_clean :
    (report : VerifyReport)
    → (summary_check report).status ≡ "valid"
    → Whole report × (is_acceptable report ≡ true) × Unwarned report
unfolding is_clean
valid_clean report h = ground (
  arith,
  h,
  summary_check_status report,
  distinct "skipped" "valid" refl,
  distinct "warning" "valid" refl,
  distinct "invalid" "valid" refl,
)

policy_check_clean :
    (report : VerifyReport)
    → is_acceptable report ≡ true
    → Unwarned report
    → policy_check report ≡ check "valid" "POLICY_VALID"
unfolding policy_check
policy_check_clean report h unwarned =
    ground
      (arith, compute_verify_policy_decision_valid report, has_policy_warning_acceptable report h)

compute_verify_summary_clean :
    (report : VerifyReport)
    → is_acceptable report ≡ true
    → Whole report
    → Unwarned report
    → compute_verify_summary report ≡ full_summary report
unfolding compute_verify_summary
compute_verify_summary_clean report h whole unwarned =
    ground (arith, executed report h, sound_summary_clean report h unwarned.1)

-- Where the summary check answers `valid`, the other outputs agree: the policy check is valid too,
-- and the summary text and the level name the timestamp exactly if it was checked and is valid.
pub summary_check-agrees :
    (report : VerifyReport)
    → (summary_check report).status ≡ "valid"
    → (policy_check report ≡ check "valid" "POLICY_VALID")
      × (compute_verify_summary report ≡ full_summary report)
      × ((compute_verify_policy_decision report).level ≡ granted_level report)
summary_check-agrees report h =
    let (whole, accepted, warned) = valid_clean report h in
    (
      policy_check_clean report accepted warned,
      compute_verify_summary_clean report accepted whole warned,
      compute_verify_policy_decision_level report accepted,
    )

revoked_not_acceptable :
    (report : VerifyReport)
    → str_eq report.revocation_status "revoked" ≡ true
    → is_acceptable report ≡ false
unfolding is_acceptable is_policy_base_valid
revoked_not_acceptable report h = ground (arith, is_confirmed-distinct report.revocation_status)

-- A verification that ended with the status `revoked` is summed up as `invalid`, whatever else the
-- report says.
pub summary_check-revoked :
    (report : VerifyReport)
    → report.has_result ≡ true
    → str_eq report.revocation_status "revoked" ≡ true
    → (summary_check report).status ≡ "invalid"
unfolding is_refused is_known_revoked
summary_check-revoked report done h =
    ground (arith, summary_check_status report, revoked_not_acceptable report h)

abbrev fail : VerifyReport → VerifyReport
fail report = record report {
  trust_valid = false;
  trust_status = "timestamp-invalid";
  error_code = ErrorCode.timestamp_validation_failed;
}

fail_acceptable : (report : VerifyReport) → is_acceptable (fail report) ≡ false
unfolding is_acceptable is_timestamp_invalid is_policy_base_valid
fail_acceptable report = ground arith

fail_refused : (report : VerifyReport) → is_refused (fail report) ≡ true
unfolding is_refused is_timestamp_invalid
fail_refused report = ground arith

apply_timestamp_failure_to_trust-fail :
    (report : VerifyReport)
    → report.trust_valid ≡ true
    → apply_timestamp_failure_to_trust report ≡ fail report
unfolding apply_timestamp_failure_to_trust
apply_timestamp_failure_to_trust-fail report h = rw h

-- A timestamp that failed withdraws the trust of a trusted report for good: the policy refuses it,
-- the summary check is `invalid`, and the error code names the timestamp.
apply_timestamp_failure_to_trust-refused :
    (report : VerifyReport)
    → report.has_result ≡ true
    → report.trust_valid ≡ true
    → ((compute_verify_policy_decision (apply_timestamp_failure_to_trust report)).valid ≡ false)
      × ((summary_check (apply_timestamp_failure_to_trust report)).status ≡ "invalid")
      × ((apply_timestamp_failure_to_trust report).error_code
          ≡ ErrorCode.timestamp_validation_failed)
apply_timestamp_failure_to_trust-refused report done trusted =
    rw (apply_timestamp_failure_to_trust-fail report trusted) ground (
      arith,
      summary_check_status (fail report),
      compute_verify_policy_decision_valid (fail report),
      fail_acceptable report,
      fail_refused report,
    )
