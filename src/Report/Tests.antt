-- ===== src/Report/Tests.antt =====
-- Reports of concrete verifications.
use tamga.Prelude.{true, false, [], ◌∷◌, none, ◌≡◌, ◌||◌, refl}
use tamga.Validation.Types.{
  OverallStatus, RevocationStatus, default_decision, default_resolution, default_trust_service,
  default_timestamp,
}
use tamga.Validation.Path.{default_path_result, selected}
use tamga.Validation.Revocation.{default_revocation_result}
use tamga.Validation.Engine.{ValidationReport}
use tamga.Report.Types.{
  ErrorCode, VerifyReport, default_report, SignatureEntry, default_signature_entry, check,
  VerifyOutcome,
}
use tamga.Report.Summary.{
  compute_verify_summary, compute_verify_policy_decision, is_policy_base_valid,
  has_unacceptable_timestamp, is_confirmed, is_service_unavailable, is_timestamp_invalid,
}
use tamga.Report.Checks.{
  summary_check, policy_check, has_policy_warning, is_undecided, effective_revocation_checked,
}
use tamga.Report.Verdict.{summary_check_status, summary_check-agrees, is_acceptable, is_clean}
use tamga.Report.Ownership.{World, start, set_verify_report}
use tamga.Report.Projection.{
  apply_validation_engine_report, project_verify_report, project_path, project_revocation,
  project_timestamp, project_error, canonical_revocation_status_string,
}
use tamga.Report.Projection.Laws.{
  apply_validation_engine_report-trust_valid, apply_validation_engine_report-revoked,
  apply_validation_engine_report-valid, is_historical_path,
}
use tamga.Report.Aggregation.{
  apply_per_signer_trust_aggregation, representative, first_failing, all_of,
}

-- A whole document with a trusted signer, a good certificate and a valid timestamp.
abbrev sound_report : VerifyReport
sound_report = record default_report {
  has_result = true;
  execution_succeeded = true;
  signature_valid = true;
  trust_checked = true;
  trust_valid = true;
  revocation_checked = true;
  revocation_status = "good";
  timestamp_checked = true;
  timestamp_valid = true;
  timestamp_status = "timestamp-valid";
}

sound_report_valid : summary_check sound_report ≡ check "valid" "SIGNATURE_VALID"
unfolding summary_check compute_verify_policy_decision is_policy_base_valid is_confirmed
    is_timestamp_invalid has_unacceptable_timestamp is_service_unavailable has_policy_warning
    effective_revocation_checked is_undecided
sound_report_valid = refl

sound_report_status : (summary_check sound_report).status ≡ "valid"
unfolding summary_check compute_verify_policy_decision is_policy_base_valid is_confirmed
    is_timestamp_invalid has_unacceptable_timestamp is_service_unavailable has_policy_warning
    effective_revocation_checked is_undecided
sound_report_status = refl

summary_check_status_example : (summary_check sound_report).status ≡ "valid"
unfolding summary_check is_acceptable is_clean is_policy_base_valid is_confirmed
    is_timestamp_invalid has_unacceptable_timestamp is_service_unavailable
summary_check_status_example = summary_check_status sound_report

summary_check-agrees_example :
    (policy_check sound_report ≡ check "valid" "POLICY_VALID")
    × (compute_verify_summary sound_report ≡ "integrity-trust-revocation-and-timestamp")
    × ((compute_verify_policy_decision sound_report).level ≡ "cades-t")
summary_check-agrees_example = summary_check-agrees sound_report sound_report_status

-- Thread 1 commits to session 7, and thread 2 commits to it afterwards.
abbrev outcome : VerifyOutcome
outcome = record {
  operation = "VerifyData";
  execution_succeeded = true;
  signature_valid = true;
  error_code = ErrorCode.ok;
  message = "";
}

abbrev raced : World
raced = set_verify_report 2 7 outcome (set_verify_report 1 7 outcome (start default_report))

abbrev ve_report : RevocationStatus → OverallStatus → ValidationReport
ve_report status overall = record {
  decision = record default_decision {
    overall_status = OverallStatus.valid;
    signature_valid = true;
    trust_valid = true;
    trust_status = "trusted";
  };
  path_selection = selected 0 (record default_path_result { trusted = true }) "trusted-candidate";
  trust_service = default_trust_service;
  signer_revocation = record default_revocation_result {
    overall_status = overall;
    revocation_status = status;
    crl_attempted = true;
  };
  timestamp = default_timestamp;
  timestamp_attempted = false;
  signing_time_resolution = default_resolution;
  evidence = [];
}

abbrev merged : ValidationReport → VerifyReport
merged = λ r. apply_validation_engine_report (λ der. "") (λ der. none) r sound_report

apply_validation_engine_report-trust_valid_example :
    (merged (ve_report RevocationStatus.revoked OverallStatus.invalid)).trust_valid ≡ false
apply_validation_engine_report-trust_valid_example =
    apply_validation_engine_report-trust_valid (λ der. "") (λ der. none)
      (ve_report RevocationStatus.revoked OverallStatus.invalid) sound_report

-- The engine found the certificate valid at the evaluation time, which lies before the revocation.
apply_validation_engine_report-revoked_example :
    (summary_check (merged (ve_report RevocationStatus.revoked OverallStatus.valid))).status
    ≡ "invalid"
apply_validation_engine_report-revoked_example =
    apply_validation_engine_report-revoked (λ der. "") (λ der. none)
      (ve_report RevocationStatus.revoked OverallStatus.valid) sound_report refl refl

merged_valid :
    (summary_check (merged (ve_report RevocationStatus.good OverallStatus.valid))).status ≡ "valid"
unfolding summary_check compute_verify_policy_decision is_policy_base_valid is_confirmed
    is_timestamp_invalid has_unacceptable_timestamp is_service_unavailable has_policy_warning
    effective_revocation_checked is_undecided apply_validation_engine_report project_verify_report
    project_path project_revocation project_timestamp project_error
    canonical_revocation_status_string
merged_valid = refl

apply_validation_engine_report-valid_example :
    let r = ve_report RevocationStatus.good OverallStatus.valid in
    (r.decision.trust_valid ≡ true)
    × (is_historical_path (λ der. "") (λ der. none) r ≡ false)
    × (r.signer_revocation.revocation_status ≡ RevocationStatus.good)
    × ((r.signer_revocation.ocsp_attempted || r.signer_revocation.crl_attempted) ≡ true)
apply_validation_engine_report-valid_example =
    apply_validation_engine_report-valid (λ der. "") (λ der. none)
      (ve_report RevocationStatus.good OverallStatus.valid) sound_report merged_valid

-- Two signers, both trusted.
abbrev signer : SignatureEntry
signer = record default_signature_entry {
  trust_checked = true;
  trust_valid = true;
  revocation_checked = true;
  revocation_status = "good";
}

abbrev two_signers : VerifyReport
two_signers = record sound_report { signatures = signer ∷ signer ∷ [] }

aggregated_valid : (summary_check (apply_per_signer_trust_aggregation two_signers)).status ≡ "valid"
unfolding summary_check compute_verify_policy_decision is_policy_base_valid is_confirmed
    is_timestamp_invalid has_unacceptable_timestamp is_service_unavailable has_policy_warning
    effective_revocation_checked is_undecided apply_per_signer_trust_aggregation representative
    first_failing all_of
aggregated_valid = refl
