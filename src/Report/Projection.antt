-- ===== src/Report/Projection.antt =====
-- src/lib/core/validation/ValidationReportProjection.cpp: the report of a validation, as the report
-- of a verification; and `ApplyValidationEngineReport` of
-- src/lib/core/session/SessionHelpers.ipp, which merges it. The digest of a certificate
-- (src/lib/core/policy/Sha256Helper.h) and the metadata that the cryptographic library extracts from
-- it are parameters.
pub mod Laws
use tamga.Prelude.{
  Bool, true, false, not, ◌&&◌, ◌||◌, List, [], ◌∷◌, Option, none, some, Bytes, codes, String,
  is_empty, str_eq, if◌then◌else◌,
}
use tamga.Prelude.Order.{bytes_eq}
use tamga.Validation.Types.{
  OverallStatus, RevocationStatus, TimestampStatus, SigningTimeSource, SigningTimeResolution,
  TrustServiceDecision, TimestampEngineResult, ValidationDecision, is_revoked,
}
use tamga.Validation.Path.{PathSelection, is_nil}
use tamga.Validation.Revocation.{RevocationEngineResult}
use tamga.Validation.EvidenceStore.{EvidenceStore, EvidenceRecord}
use tamga.Validation.Decision.{is_some}
use tamga.Validation.Timestamp.Engine.{is_valid}
use tamga.Validation.Engine.{ValidationReport, front}
use tamga.Report.Types.{
  ErrorCode, TimestampEntry, default_timestamp_entry, VerifyReport, default_report,
}
use tamga.Report.Summary.{trust_failure_error_code}
use tamga.Report.Commit.{apply_timestamp_details_verdict}

-- The fields of `CertificateMetadata` that a report takes.
pub record CertificateMetadata : Type 0 where
  pub subject : String
  pub issuer : String
  pub serial_number_hex : String

unfoldable pub has_signer_certificate_evidence : EvidenceStore → Bool
has_signer_certificate_evidence [] = false
has_signer_certificate_evidence ((id, evidence) ∷ records) =
    if bytes_eq evidence.type (codes "signer-certificate")
    then true
    else has_signer_certificate_evidence records

unfoldable pub canonical_revocation_status_string : RevocationStatus → String
canonical_revocation_status_string RevocationStatus.good = "valid"
canonical_revocation_status_string RevocationStatus.revoked = "revoked"
canonical_revocation_status_string RevocationStatus.invalid = "invalid"
canonical_revocation_status_string RevocationStatus.responder_unavailable =
    "temporarily-unavailable"
canonical_revocation_status_string RevocationStatus.stale = "stale"
canonical_revocation_status_string RevocationStatus.not_checked = "not-checked"
canonical_revocation_status_string RevocationStatus.unknown = "unknown"

-- The `switch` of `CanonicalValidationTimeSource`.
unfoldable pub time_source_text : SigningTimeSource → Bool → String
time_source_text SigningTimeSource.rfc3161_timestamp trusted =
    if trusted then "trustedTimestamp" else "signingTime"
time_source_text SigningTimeSource.claimed_signing_time trusted = "signingTime"
time_source_text SigningTimeSource.verification_time_fallback trusted = "currentTime"
time_source_text SigningTimeSource.unavailable trusted = "currentTime"

unfoldable pub canonical_validation_time_source : SigningTimeResolution → Bool → String
unfolding time_source_text
canonical_validation_time_source resolution signer_certificate_present =
    if not signer_certificate_present
    then "unknown"
    else time_source_text resolution.source resolution.trusted_time

-- The `switch` on the status of a timestamp.
unfoldable pub entry_status : TimestampStatus → String
entry_status TimestampStatus.valid = "timestamp-valid"
entry_status TimestampStatus.missing = "timestamp-not-validated"
entry_status TimestampStatus.not_checked = "timestamp-not-validated"
entry_status TimestampStatus.invalid_imprint = "timestamp-invalid"
entry_status TimestampStatus.invalid_signature = "timestamp-invalid"
entry_status TimestampStatus.unsupported = "timestamp-invalid"
entry_status TimestampStatus.untrusted_tsa = "timestamp-partial"
entry_status TimestampStatus.tsa_expired = "timestamp-partial"

unfoldable pub is_refusal_reason : String → Bool
is_refusal_reason reason =
    str_eq reason "TSA_REVOKED"
    || str_eq reason "TSA_EKU_INVALID"
    || str_eq reason "TIMESTAMP_TIME_INVALID"
    || str_eq reason "TSA_CERTIFICATE_TIME_INVALID"
    || str_eq reason "TSA_CHAIN_TIME_INVALID"

-- `entry.status` at the end.
unfoldable pub refined_status : TimestampStatus → String → String
unfolding entry_status is_refusal_reason
refined_status status reason =
    if str_eq reason "TSA_CERTIFICATE_MISSING"
    then "timestamp-partial"
    else if is_refusal_reason reason
    then "timestamp-invalid"
    else entry_status status

unfoldable pub with_metadata : Option CertificateMetadata → TimestampEntry → TimestampEntry
with_metadata none entry = entry
with_metadata (some metadata) entry = record entry {
  tsa_subject = metadata.subject;
  tsa_issuer = metadata.issuer;
  tsa_serial = metadata.serial_number_hex;
}

abbrev pub is_invalid_status : RevocationStatus → Bool
is_invalid_status RevocationStatus.invalid = true
is_invalid_status _ = false

abbrev is_ok : ErrorCode → Bool
is_ok ErrorCode.ok = true
is_ok _ = false

-- From the path of trust to `trust_reason`.
unfoldable pub project_path : ValidationReport → VerifyReport
unfolding has_signer_certificate_evidence canonical_validation_time_source
    canonical_revocation_status_string
project_path ve_report =
    let decision = ve_report.decision in
    let signer_certificate_present = has_signer_certificate_evidence ve_report.evidence in
    let selected = ve_report.path_selection.selected_result in
    let path_selected = is_some ve_report.path_selection.selected_index in
    let path_trusted = path_selected && selected.trusted in
    let revocation = ve_report.signer_revocation in
    let uses_historical = path_trusted && selected.uses_historical_trust in
    let trust_service = ve_report.trust_service in
    record default_report {
      signature_valid = decision.signature_valid;
      signer_certificate_present = signer_certificate_present;
      chain_checked = path_selected;
      chain_valid = path_trusted;
      chain_debug = selected.chain_debug;
      certificate_time_valid = path_selected && selected.signer_certificate_time_valid;
      validation_time_source =
          canonical_validation_time_source ve_report.signing_time_resolution
            signer_certificate_present;
      trust_checked = true;
      trust_valid = decision.trust_valid;
      revocation_checked = revocation.ocsp_attempted || revocation.crl_attempted;
      ocsp_checked = revocation.ocsp_attempted;
      revocation_status = canonical_revocation_status_string revocation.revocation_status;
      historical_trust_used = uses_historical;
      trust_mode = if uses_historical then "historical" else "strict";
      historical_anchor_subject =
          if uses_historical && not (is_nil selected.signer_issuer_certificate_der)
          then selected.trust_anchor_source
          else "";
      trust_list_checked = trust_service.checked;
      trust_list_cache_status =
          if trust_service.checked then "snapshot" else default_report.trust_list_cache_status;
      trust_list_source =
          if trust_service.checked && not (is_empty trust_service.snapshot_evidence_id)
          then trust_service.snapshot_evidence_id
          else default_report.trust_list_source;
      trust_status = decision.trust_status;
      trust_reason = decision.trust_reason;
    }

-- The effective verdict on the revocation.
unfoldable pub project_revocation : RevocationEngineResult → VerifyReport → VerifyReport
project_revocation revocation report =
    let defeats_trust = not (is_valid revocation.overall_status) in
    if defeats_trust && is_invalid_status revocation.revocation_status
    then record report {
      trust_valid = false;
      trust_status = "revocation-check-invalid";
      error_code = ErrorCode.revocation_check_failed;
      message =
          if not (is_nil revocation.because) then front revocation.because else report.message;
    }
    else if defeats_trust && is_revoked revocation.revocation_status
    then record report {
      trust_valid = false;
      trust_status = "certificate-revoked";
      error_code = ErrorCode.revocation_check_failed;
      message = "Certificate is revoked by CRL policy.";
    }
    else if is_revoked revocation.revocation_status
    then record report {
      message =
          if not (is_nil revocation.warnings)
          then front revocation.warnings
          else if not (is_nil revocation.because)
          then front revocation.because
          else report.message;
    }
    else report

-- The `switch` on the overall status.
unfoldable pub project_error : ValidationDecision → VerifyReport → VerifyReport
project_error decision report = elim decision.overall_status [
  | OverallStatus.valid ↦ report
  | OverallStatus.integrity_only ↦ report
  | OverallStatus.indeterminate ↦
      if not decision.trust_valid && is_ok report.error_code
      then record report { error_code = trust_failure_error_code report }
      else report
  | OverallStatus.invalid ↦
      if str_eq report.revocation_status "revoked"
      then record report { error_code = ErrorCode.revocation_check_failed }
      else if is_ok report.error_code
      then record report { error_code = ErrorCode.invalid_argument }
      else report
]

module _ (sha256_hex : Bytes → String)
    (extract_certificate_metadata : Bytes → Option CertificateMetadata) where
  unfoldable pub project_timestamp_result : TimestampEngineResult → TimestampEntry
  unfolding canonical_revocation_status_string refined_status with_metadata
  project_timestamp_result result =
      let entry = record default_timestamp_entry {
        valid = result.valid;
        policy_acceptable = result.policy_acceptable;
        crypto_valid = result.crypto_valid;
        gen_time_valid = result.gen_time_valid;
        certificate_time_valid = result.certificate_time_valid;
        eku_valid = result.eku_valid;
        trust_valid = result.trust_valid;
        revocation_checked = result.revocation_checked;
        historical_trust_used = result.historical_trust_used;
        ocsp_attempted = result.ocsp_attempted;
        crl_attempted = result.crl_attempted;
        gen_time = result.gen_time;
        validation_time = result.validation_time;
        reason_code = result.reason_code;
        trust_source = result.trust_source;
        revocation_status = canonical_revocation_status_string result.revocation_status;
        because = result.because;
        warnings = result.warnings;
        limitations = result.limitations;
        evidence_ids = result.evidence_ids;
        status = refined_status result.status result.reason_code;
      } in
      if not (is_nil result.tsa_certificate_der)
      then with_metadata (extract_certificate_metadata result.tsa_certificate_der)
          (record entry { tsa_fingerprint_sha256 = sha256_hex result.tsa_certificate_der })
      else entry

  unfoldable pub project_timestamp : ValidationReport → VerifyReport → VerifyReport
  unfolding project_timestamp_result entry_status
  project_timestamp ve_report report =
      if ve_report.timestamp_attempted
      then apply_timestamp_details_verdict (record report {
        timestamp_details = project_timestamp_result ve_report.timestamp ∷ [];
        timestamp_checked = true;
        timestamp_valid = ve_report.timestamp.valid;
        tsp_checked = true;
        timestamp_status = entry_status ve_report.timestamp.status;
      })
      else record report { timestamp_status = "timestamp-not-validated" }

  unfoldable pub project_verify_report : ValidationReport → VerifyReport
  unfolding project_path project_revocation project_timestamp project_error
  project_verify_report ve_report = project_error ve_report.decision (
      project_timestamp ve_report
        (project_revocation ve_report.signer_revocation (project_path ve_report)))

  unfoldable pub apply_validation_engine_report : ValidationReport → VerifyReport → VerifyReport
  unfolding project_verify_report
  apply_validation_engine_report ve_report report =
      let projected = project_verify_report ve_report in
      record report {
        signer_certificate_present = projected.signer_certificate_present;
        certificate_time_valid = projected.certificate_time_valid;
        validation_time_source = projected.validation_time_source;
        chain_checked = projected.chain_checked;
        chain_valid = projected.chain_valid;
        chain_debug = projected.chain_debug;
        trust_checked = projected.trust_checked;
        trust_valid = projected.trust_valid;
        trust_status = projected.trust_status;
        trust_reason = projected.trust_reason;
        trust_mode = projected.trust_mode;
        historical_trust_used = projected.historical_trust_used;
        historical_anchor_subject = projected.historical_anchor_subject;
        historical_anchor_serial = projected.historical_anchor_serial;
        trust_list_checked = projected.trust_list_checked;
        trust_list_cache_status = projected.trust_list_cache_status;
        trust_list_source = projected.trust_list_source;
        revocation_checked = projected.revocation_checked;
        ocsp_checked = projected.ocsp_checked;
        revocation_status = projected.revocation_status;
        timestamp_checked = projected.timestamp_checked;
        timestamp_valid = projected.timestamp_valid;
        tsp_checked = projected.tsp_checked;
        timestamp_status = projected.timestamp_status;
        timestamp_details = projected.timestamp_details;
        error_code = projected.error_code;
        message = if not (is_empty projected.message) then projected.message else report.message;
      }
