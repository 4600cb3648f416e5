-- ===== src/Report/Summary.antt =====
-- src/lib/core/session/VerifySummary.cpp: the text that sums a report up, and the decision of the
-- policy. The early returns are the branches, in the order of the code.
use tamga.Prelude.{Bool, true, false, not, ◌&&◌, ◌||◌, List, [], ◌∷◌, String, str_eq, if◌then◌else◌}
use tamga.Report.Types.{ErrorCode, TimestampEntry, VerifyReport, VerifyPolicyDecision}

-- The comparisons of a status with several texts, which the functions below share.
unfoldable pub is_confirmed : String → Bool
is_confirmed status = str_eq status "good" || str_eq status "valid"

unfoldable pub is_service_unavailable : String → Bool
is_service_unavailable trust_status =
    str_eq trust_status "ocsp-responder-unavailable"
    || str_eq trust_status "tsp-responder-unavailable"

unfoldable pub is_certificate_time_invalid : String → Bool
is_certificate_time_invalid trust_status =
    str_eq trust_status "certificate-time-invalid"
    || str_eq trust_status "certificate-chain-time-invalid"

unfoldable pub is_revocation_invalid : String → Bool
is_revocation_invalid trust_status =
    str_eq trust_status "revocation-check-invalid" || str_eq trust_status "ocsp-response-invalid"

unfoldable pub is_chain_incomplete : String → Bool
is_chain_incomplete trust_status =
    str_eq trust_status "certificate-chain-incomplete"
    || str_eq trust_status "certificate-chain-cycle"
    || str_eq trust_status "signer-certificate-missing"
    || str_eq trust_status "legacy-anchor-not-in-current-tl"

unfoldable pub is_trust_store_missing : String → Bool
is_trust_store_missing trust_status =
    str_eq trust_status "trust-store-empty" || str_eq trust_status "no-trust-store-configured"

unfoldable pub is_timestamp_invalid : VerifyReport → Bool
is_timestamp_invalid report =
    str_eq report.trust_status "timestamp-invalid"
    || str_eq report.timestamp_status "timestamp-invalid"

unfoldable pub is_timestamp_partial : VerifyReport → Bool
is_timestamp_partial report =
    str_eq report.trust_status "timestamp-not-fully-validated"
    || str_eq report.timestamp_status "timestamp-partial"

unfoldable pub can_online_service_outage_override_trust_status : VerifyReport → Bool → Bool
can_online_service_outage_override_trust_status report has_policy_failure =
    if has_policy_failure
    then false
    else if str_eq report.trust_status "timestamp-not-fully-validated"
    then false
    else not (report.trust_checked && not report.trust_valid)

unfoldable pub trust_failure_error_code : VerifyReport → ErrorCode
trust_failure_error_code report =
    if str_eq report.trust_status "certificate-revoked" || is_revocation_invalid report.trust_status
    then ErrorCode.revocation_check_failed
    else if is_service_unavailable report.trust_status
    then ErrorCode.online_service_unavailable
    else if str_eq report.trust_status "timestamp-invalid"
    then ErrorCode.timestamp_validation_failed
    else ErrorCode.trust_validation_failed

-- The part of `ComputeVerifySummary` for `trust_checked && !trust_valid`.
unfoldable pub untrusted_summary : String → String
untrusted_summary status =
    if str_eq status "certificate-revoked"
    then "integrity-but-revoked"
    else if is_certificate_time_invalid status
    then "integrity-but-certificate-expired"
    else if is_chain_incomplete status
    then "integrity-but-chain-incomplete"
    else if is_trust_store_missing status
    then "integrity-without-trust-store"
    else if is_revocation_invalid status
    then "integrity-but-revocation-check-invalid"
    else "integrity-but-untrusted-chain"

-- From `signature_valid == true` with complete coverage on.
unfoldable pub sound_summary : VerifyReport → String
unfolding untrusted_summary
sound_summary report =
    if report.trust_checked
      && report.trust_valid
      && report.revocation_checked
      && str_eq report.revocation_status "temporarily-unavailable"
    then "integrity-but-revocation-unknown"
    else if is_service_unavailable report.trust_status
    then "integrity-but-online-service-unavailable"
    else if is_timestamp_partial report
    then "integrity-but-timestamp-not-fully-validated"
    else if report.signature_valid
        && report.timestamp_checked
        && not report.timestamp_valid
        && is_timestamp_invalid report
    then "integrity-but-timestamp-invalid"
    else if report.signature_valid
        && report.trust_checked
        && report.trust_valid
        && report.revocation_checked
        && str_eq report.revocation_status "unknown"
    then "integrity-but-revocation-unknown"
    else if report.signature_valid
        && report.trust_checked
        && report.trust_valid
        && report.revocation_checked
        && is_confirmed report.revocation_status
        && report.timestamp_checked
        && report.timestamp_valid
    then "integrity-trust-revocation-and-timestamp"
    else if not report.trust_checked
    then "integrity-only"
    else if not report.trust_valid
    then untrusted_summary report.trust_status
    else if report.revocation_checked && is_confirmed report.revocation_status
    then "integrity-trust-and-revocation"
    else "integrity-and-trust"

unfoldable pub compute_verify_summary : VerifyReport → String
unfolding sound_summary
compute_verify_summary report =
    if not report.has_result
    then "not-executed"
    else if not report.execution_succeeded
    then "execution-failed"
    else if report.container_malformed
    then "container-malformed"
    else if not report.signature_valid
    then "integrity-failed"
    else if not report.container_coverage_complete
    then "content-not-fully-signed"
    else sound_summary report

-- `policy_base_valid`.
unfoldable pub is_policy_base_valid : VerifyReport → Bool
is_policy_base_valid report =
    report.has_result
    && report.execution_succeeded
    && report.signature_valid
    && report.trust_checked
    && report.trust_valid
    && report.revocation_checked
    && is_confirmed report.revocation_status

-- The loop over `timestamp_details`.
unfoldable pub has_unacceptable_timestamp : List TimestampEntry → Bool
has_unacceptable_timestamp [] = false
has_unacceptable_timestamp (detail ∷ details) =
    (not detail.valid && not detail.policy_acceptable) || has_unacceptable_timestamp details

abbrev pub decision : Bool → String → String → VerifyPolicyDecision
decision valid level summary = record { valid = valid; level = level; summary = summary }

unfoldable pub compute_verify_policy_decision : VerifyReport → VerifyPolicyDecision
unfolding compute_verify_summary is_policy_base_valid has_unacceptable_timestamp
compute_verify_policy_decision report =
    let summary = compute_verify_summary report in
    if not (is_policy_base_valid report) || is_timestamp_invalid report
    then decision false "integrity-only" summary
    else if has_unacceptable_timestamp report.timestamp_details
    then decision false "integrity-only" "integrity-but-timestamp-not-fully-validated"
    else if str_eq report.trust_status "timestamp-not-fully-validated"
    then decision false "integrity-only" "integrity-but-timestamp-not-fully-validated"
    else if is_service_unavailable report.trust_status
    then decision false "integrity-only" summary
    else if report.timestamp_checked && report.timestamp_valid
    then decision true "cades-t" summary
    else decision true "bes" summary

unfoldable pub apply_timestamp_failure_to_trust : VerifyReport → VerifyReport
apply_timestamp_failure_to_trust report = if not report.trust_valid then report else record report {
  trust_valid = false;
  trust_status = "timestamp-invalid";
  error_code = ErrorCode.timestamp_validation_failed;
}
