-- ===== src/Report/Checks.antt =====
-- src/lib/core/policy/VerifyChecks.cpp: the answers of a report, one per question, and
-- `ApplyPolicyDecision` of src/lib/core/policy/PolicyDecision.cpp. The early returns are the
-- branches, in the order of the code.
use tamga.Prelude.{
  Bool, true, false, not, ◌&&◌, ◌||◌, List, [], ◌∷◌, String, is_empty, str_eq, if◌then◌else◌,
}
use tamga.Report.Types.{SignatureEntry, VerifyReport, VerifyCheck, check, PolicyValidationResult}
use tamga.Report.Summary.{
  compute_verify_policy_decision, is_service_unavailable, is_certificate_time_invalid,
  is_revocation_invalid, is_timestamp_invalid, is_timestamp_partial,
}

unfoldable pub effective_certificate_time_valid : VerifyReport → Bool
effective_certificate_time_valid report = report.certificate_time_valid

unfoldable pub effective_ocsp_checked : VerifyReport → Bool
effective_ocsp_checked report = report.ocsp_checked

unfoldable pub effective_revocation_checked : VerifyReport → Bool
effective_revocation_checked report = report.revocation_checked

unfoldable pub validation_time_source : VerifyReport → String
validation_time_source report = report.validation_time_source

unfoldable pub is_undecided : String → Bool
is_undecided revocation_status =
    not (str_eq revocation_status "valid")
    && not (str_eq revocation_status "good")
    && not (str_eq revocation_status "revoked")
    && not (str_eq revocation_status "invalid")

unfoldable pub has_policy_warning : VerifyReport → Bool
unfolding effective_revocation_checked
has_policy_warning report =
    report.historical_trust_used
    || str_eq report.timestamp_status "timestamp-partial"
    || str_eq report.trust_status "timestamp-not-fully-validated"
    || is_service_unavailable report.trust_status
    || (effective_revocation_checked report && is_undecided report.revocation_status)

unfoldable pub first_policy_warning_code : VerifyReport → String
first_policy_warning_code report =
    if report.historical_trust_used
    then "HISTORICAL_TRUST_USED"
    else if is_timestamp_partial report
    then "TIMESTAMP_NOT_FULLY_VALIDATED"
    else if is_service_unavailable report.trust_status
    then "ONLINE_SERVICE_UNAVAILABLE"
    else "REVOCATION_STATUS_UNKNOWN"

unfoldable pub is_known_revoked : VerifyReport → Bool
is_known_revoked report =
    str_eq report.revocation_status "revoked" || str_eq report.trust_status "certificate-revoked"

-- The end of `SummaryCheck`, where the policy refused.
unfoldable pub refusal_check : VerifyReport → VerifyCheck
refusal_check report =
    if is_known_revoked report
    then check "invalid" "CERTIFICATE_REVOKED"
    else if is_certificate_time_invalid report.trust_status
    then check "invalid" "CERTIFICATE_INVALID_AT_VALIDATION_TIME"
    else if is_revocation_invalid report.trust_status
    then check "invalid" "REVOCATION_INVALID"
    else if is_timestamp_invalid report
    then check "invalid" "TIMESTAMP_INVALID"
    else check "warning" "SIGNATURE_INTEGRITY_ONLY"

unfoldable pub summary_check : VerifyReport → VerifyCheck
unfolding has_policy_warning refusal_check
summary_check report =
    let decision = compute_verify_policy_decision report in
    if not report.has_result
    then check "skipped" "NOT_EXECUTED"
    else if not report.execution_succeeded
    then check "invalid" "VERIFICATION_EXECUTION_FAILED"
    else if report.container_malformed
    then check "invalid" "CONTAINER_MALFORMED"
    else if not report.signature_valid
    then check "invalid" "SIGNATURE_INVALID"
    else if not report.container_coverage_complete
    then check "invalid" "CONTAINER_COVERAGE_INCOMPLETE"
    else if decision.valid
    then (if has_policy_warning report
        then check "warning" "SIGNATURE_VALID_WITH_WARNINGS"
        else check "valid" "SIGNATURE_VALID")
    else refusal_check report

unfoldable pub signature_check : VerifyReport → VerifyCheck
signature_check report =
    if not report.has_result
    then check "skipped" "SIGNATURE_NOT_CHECKED"
    else if not report.execution_succeeded
    then check "unavailable" "SIGNATURE_CHECK_UNAVAILABLE"
    else if report.signature_valid
    then check "valid" "SIGNATURE_CRYPTOGRAPHICALLY_VALID"
    else check "invalid" "SIGNATURE_CRYPTOGRAPHICALLY_INVALID"

unfoldable pub certificate_check : VerifyReport → VerifyCheck
unfolding effective_certificate_time_valid
certificate_check report =
    if not report.has_result
    then check "skipped" "CERTIFICATE_NOT_CHECKED"
    else if not report.signer_certificate_present
    then check "unavailable" "SIGNER_CERTIFICATE_MISSING"
    else if effective_certificate_time_valid report
    then check "valid" "CERTIFICATE_VALID_AT_VALIDATION_TIME"
    else check "invalid" "CERTIFICATE_INVALID_AT_VALIDATION_TIME"

unfoldable pub trust_check : VerifyReport → VerifyCheck
trust_check report =
    if not report.trust_checked
    then check "skipped" "TRUST_NOT_CHECKED"
    else if report.trust_valid
    then (if report.historical_trust_used
        then check "warning" "TRUST_VALID_HISTORICAL"
        else check "valid" "TRUST_VALID")
    else check "invalid" "TRUST_INVALID"

unfoldable pub revocation_check : VerifyReport → VerifyCheck
unfolding effective_revocation_checked
revocation_check report =
    if not (effective_revocation_checked report)
    then check "skipped" "REVOCATION_NOT_CHECKED"
    else if str_eq report.revocation_status "valid" || str_eq report.revocation_status "good"
    then check "valid" "REVOCATION_VALID"
    else if str_eq report.revocation_status "revoked"
    then check "invalid" "CERTIFICATE_REVOKED"
    else if str_eq report.revocation_status "invalid"
    then check "invalid" "REVOCATION_INVALID"
    else if str_eq report.revocation_status "temporarily-unavailable"
    then check "unavailable" "REVOCATION_UNAVAILABLE"
    else check "unknown" "REVOCATION_UNKNOWN"

unfoldable pub timestamp_check : VerifyReport → VerifyCheck
timestamp_check report =
    if not report.timestamp_checked
    then check "skipped" "TIMESTAMP_NOT_CHECKED"
    else if str_eq report.timestamp_status "timestamp-partial"
        || str_eq report.trust_status "timestamp-not-fully-validated"
    then check "warning" "TIMESTAMP_NOT_FULLY_VALIDATED"
    else if report.timestamp_valid
    then check "valid" "TIMESTAMP_VALID"
    else check "invalid" "TIMESTAMP_INVALID"

-- The loop of `LtvFullyValidated` over the signers.
unfoldable pub all_evidence_validated : List SignatureEntry → Bool
all_evidence_validated [] = true
all_evidence_validated (signer ∷ signers) =
    if not signer.ltv_evidence_validated then false else all_evidence_validated signers

unfoldable pub ltv_fully_validated : VerifyReport → Bool
unfolding all_evidence_validated
ltv_fully_validated report =
    if not report.ltv_evidence_validated || not report.timestamp_valid
    then false
    else all_evidence_validated report.signatures

unfoldable pub ltv_check : VerifyReport → VerifyCheck
unfolding ltv_fully_validated
ltv_check report =
    if ltv_fully_validated report
    then check "valid" "LTV_VALID"
    else if str_eq report.signature_format "XAdES" || str_eq report.signature_format "PAdES"
    then check "unavailable" "LTV_EVIDENCE_UNAVAILABLE"
    else check "skipped" "LTV_NOT_APPLICABLE"

unfoldable pub policy_check : VerifyReport → VerifyCheck
unfolding has_policy_warning first_policy_warning_code
policy_check report =
    let decision = compute_verify_policy_decision report in
    if decision.valid
    then (if has_policy_warning report
        then check "warning" (first_policy_warning_code report)
        else check "valid" "POLICY_VALID")
    else if report.has_result
    then check "invalid" "POLICY_INVALID"
    else check "skipped" "POLICY_NOT_EVALUATED"

unfoldable pub apply_policy_decision : PolicyValidationResult → VerifyReport → VerifyReport
apply_policy_decision policy_result report = record report {
  trust_checked = policy_result.trust_checked;
  trust_valid = policy_result.trust_valid;
  revocation_checked = policy_result.revocation_checked;
  ocsp_checked = policy_result.ocsp_checked;
  tsp_checked = policy_result.tsp_checked;
  timestamp_checked = policy_result.timestamp_checked;
  timestamp_valid = policy_result.timestamp_valid;
  chain_checked = policy_result.chain_checked;
  chain_valid = policy_result.chain_valid;
  policy = policy_result.policy;
  trust_status = policy_result.trust_status;
  revocation_status = policy_result.revocation_status_text;
  message = if not (is_empty policy_result.message) then policy_result.message else report.message;
}
