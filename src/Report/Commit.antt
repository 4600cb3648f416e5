-- ===== src/Report/Commit.antt =====
-- src/lib/core/session/VerifyReportCommit.cpp: a report is cleared, filled by the outcome of a
-- verification, and refined by the verdict on its timestamps.
use tamga.Prelude.{
  Bool, true, false, not, ◌&&◌, ◌||◌, List, [], ◌∷◌, String, is_empty, concat, str_eq,
  if◌then◌else◌,
}
use tamga.Validation.Path.{is_nil}
use tamga.Report.Types.{
  TimestampEntry, SignatureEntry, VerifyReport, default_report, VerifyOutcome,
  VerifyReportFormatLabels,
}

unfoldable pub append_verify_report_note : String → String → VerifyReport → VerifyReport
append_verify_report_note prefix message report =
    if is_empty message then report else record report {
      message =
          concat
            (concat
              (if not (is_empty report.message) then concat report.message "; " else report.message)
              prefix)
            message;
    }

abbrev pub make_cleared_verify_report : VerifyReport
make_cleared_verify_report = record default_report {
  policy = "crypto-integrity-only";
  trust_status = "not-implemented";
  revocation_status = "not-checked";
}

unfoldable pub build_verify_message : Bool → Bool → String → String
build_verify_message execution_succeeded signature_valid message =
    if not (is_empty message)
    then message
    else if execution_succeeded && signature_valid
    then "Signature integrity verified. See policyDecision for the trust verdict."
    else if execution_succeeded
    then "Signature integrity check completed with a negative result."
    else ""

-- The formats that `CommitVerifyOutcome` sets for one operation.
unfoldable pub set_format : VerifyReport → VerifyReport
set_format report =
    if str_eq report.operation "VerifyFileAsicEXades"
    then record report {
      container_type = "ASiC-E";
      signature_format = "XAdES";
      format_profile = "XAdES";
    }
    else report

unfoldable pub commit_verify_outcome : VerifyReport → VerifyOutcome → VerifyReport
unfolding set_format build_verify_message
commit_verify_outcome report outcome =
    let filled = set_format (record report {
      has_result = true;
      execution_succeeded = outcome.execution_succeeded;
      signature_valid = outcome.signature_valid;
      operation = outcome.operation;
    }) in
    record filled {
      error_code = outcome.error_code;
      message =
          build_verify_message outcome.execution_succeeded outcome.signature_valid outcome.message;
    }

-- `all_valid` and `any_invalid` after the loop.
unfoldable pub all_details_valid : List TimestampEntry → Bool
all_details_valid [] = true
all_details_valid (detail ∷ details) =
    detail.valid && str_eq detail.status "timestamp-valid" && all_details_valid details

unfoldable pub any_detail_invalid : List TimestampEntry → Bool
any_detail_invalid [] = false
any_detail_invalid (detail ∷ details) =
    str_eq detail.status "timestamp-invalid" || any_detail_invalid details

unfoldable pub apply_timestamp_details_verdict : VerifyReport → VerifyReport
unfolding all_details_valid any_detail_invalid
apply_timestamp_details_verdict report =
    if is_nil report.timestamp_details
    then report
    else let all_valid = all_details_valid report.timestamp_details in
      let any_invalid = any_detail_invalid report.timestamp_details in
      let valid = all_valid && not any_invalid in
      record report {
        timestamp_checked = true;
        tsp_checked = true;
        timestamp_valid = valid;
        timestamp_status =
            if any_invalid
            then "timestamp-invalid"
            else if valid
            then "timestamp-valid"
            else "timestamp-partial";
      }

unfoldable pub apply_format_timestamp_verdict : VerifyReport → Bool → Bool → VerifyReport
unfolding apply_timestamp_details_verdict
apply_format_timestamp_verdict report crypto_valid canonical_full =
    if not crypto_valid
    then record report { timestamp_valid = false; timestamp_status = "timestamp-invalid" }
    else if not (is_nil report.timestamp_details)
    then apply_timestamp_details_verdict report
    else if canonical_full
    then record report { timestamp_valid = true; timestamp_status = "timestamp-valid" }
    else record report { timestamp_valid = false; timestamp_status = "timestamp-partial" }

unfoldable pub apply_entry_timestamp_verdict : SignatureEntry → Bool → SignatureEntry
apply_entry_timestamp_verdict entry crypto_valid =
    if not crypto_valid
    then record entry { timestamp_valid = false; timestamp_status = "timestamp-invalid" }
    else record entry { timestamp_valid = false; timestamp_status = "timestamp-partial" }

unfoldable pub append_container_timestamp_message : VerifyReport → String → VerifyReport
unfolding append_verify_report_note
append_container_timestamp_message report message =
    append_verify_report_note "ASiC container timestamp: " message report

unfoldable pub append_xades_timestamp_message : VerifyReport → String → VerifyReport
unfolding append_verify_report_note
append_xades_timestamp_message report message =
    append_verify_report_note "XAdES timestamp policy: " message report

abbrev pub labels : String → String → VerifyReportFormatLabels
labels container_type signature_format = record {
  container_type = container_type;
  signature_format = signature_format;
}

unfoldable pub user_report_format_for_operation : String → VerifyReportFormatLabels
user_report_format_for_operation operation =
    if str_eq operation "VerifyData"
      || str_eq operation "VerifyDataBase64"
      || str_eq operation "VerifyFile"
      || str_eq operation "RawVerifyFile"
    then labels "CAdES detached" "cms-detached"
    else if str_eq operation "VerifyDataInternal"
        || str_eq operation "VerifyDataInternalBase64"
        || str_eq operation "VerifyDataInternalStr"
        || str_eq operation "VerifyDataInternalBase64Str"
    then labels "CAdES attached" "cms-attached"
    else if str_eq operation "VerifyFileAsicS"
    then labels "ASiC-S" "asic-s"
    else if str_eq operation "VerifyFileAsicE"
    then labels "ASiC-E" "asic-e"
    else if str_eq operation "VerifyFileAsicEXades"
    then labels "ASiC-E" "XAdES"
    else labels "unknown" "unknown"
