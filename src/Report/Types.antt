-- ===== src/Report/Types.antt =====
-- The data of a verification: src/lib/core/Session.h, src/lib/core/Errors.h,
-- src/lib/core/session/VerifySummary.h, src/lib/core/session/VerifyReportCommit.h,
-- src/lib/core/policy/VerifyChecks.h and `PolicyValidationResult` of
-- src/lib/core/policy/PolicyTypes.h. Statuses are the texts of the code.
use tamga.Prelude.{ℕ, Bool, true, false, List, [], String}
use tamga.Prelude.Int.{ℤ, pos}
use tamga.Validation.Types.{ChainStatus, RevocationStatus, TimestampStatus}

-- `None` is `ok`.
pub data ErrorCode : Type 0 where
  ok not_initialized settings_required key_not_loaded invalid_argument internal_error : ErrorCode
  not_supported gui_not_available trust_validation_failed revocation_check_failed : ErrorCode
  online_service_unavailable timestamp_validation_failed policy_validation_failed : ErrorCode

pub record DataObjectFormatEntry : Type 0 where
  pub object_reference : String
  pub mime_type : String
  pub description : String

pub record TimestampEntry : Type 0 where
  pub signature_index : ℤ
  pub kind : String
  pub signed_revision_end : ℕ
  pub status : String
  pub valid : Bool
  pub policy_acceptable : Bool
  pub crypto_valid : Bool
  pub gen_time_valid : Bool
  pub certificate_time_valid : Bool
  pub eku_valid : Bool
  pub trust_valid : Bool
  pub revocation_checked : Bool
  pub historical_trust_used : Bool
  pub ocsp_attempted : Bool
  pub crl_attempted : Bool
  pub gen_time : String
  pub validation_time : String
  pub reason_code : String
  pub trust_source : String
  pub tsa_subject : String
  pub tsa_issuer : String
  pub tsa_serial : String
  pub tsa_fingerprint_sha256 : String
  pub revocation_status : String
  pub because : List String
  pub warnings : List String
  pub limitations : List String
  pub evidence_ids : List String

abbrev pub default_timestamp_entry : TimestampEntry
default_timestamp_entry = record {
  signature_index = pos 0;
  kind = "signature";
  signed_revision_end = 0;
  status = "timestamp-not-validated";
  valid = false;
  policy_acceptable = false;
  crypto_valid = false;
  gen_time_valid = false;
  certificate_time_valid = false;
  eku_valid = false;
  trust_valid = false;
  revocation_checked = false;
  historical_trust_used = false;
  ocsp_attempted = false;
  crl_attempted = false;
  gen_time = "";
  validation_time = "";
  reason_code = "";
  trust_source = "";
  tsa_subject = "";
  tsa_issuer = "";
  tsa_serial = "";
  tsa_fingerprint_sha256 = "";
  revocation_status = "not-checked";
  because = [];
  warnings = [];
  limitations = [];
  evidence_ids = [];
}

pub record SignatureEntry : Type 0 where
  pub index : ℤ
  pub signature_valid : Bool
  pub signer_certificate_present : Bool
  pub qualifying_properties_present : Bool
  pub signing_certificate_digest_valid : Bool
  pub format_profile : String
  pub timestamp_checked : Bool
  pub timestamp_valid : Bool
  pub timestamp_status : String
  pub timestamp_details : List TimestampEntry
  pub ltv_valid : Bool
  pub ltv_evidence_bound : Bool
  pub ltv_evidence_validated : Bool
  pub certificate_time_valid : Bool
  pub validation_time_source : String
  pub chain_checked : Bool
  pub chain_valid : Bool
  pub chain_debug : String
  pub trust_checked : Bool
  pub trust_valid : Bool
  pub trust_status : String
  pub trust_mode : String
  pub trust_reason : String
  pub historical_trust_used : Bool
  pub historical_anchor_subject : String
  pub historical_anchor_serial : String
  pub revocation_checked : Bool
  pub ocsp_checked : Bool
  pub revocation_status : String
  pub error_code : ErrorCode
  pub message : String
  pub signature_policy_present : Bool
  pub signature_policy_id : String
  pub signature_policy_hash_algo_uri : String
  pub data_object_formats : List DataObjectFormatEntry

abbrev pub default_signature_entry : SignatureEntry
default_signature_entry = record {
  index = pos 0;
  signature_valid = false;
  signer_certificate_present = false;
  qualifying_properties_present = false;
  signing_certificate_digest_valid = false;
  format_profile = "";
  timestamp_checked = false;
  timestamp_valid = false;
  timestamp_status = "timestamp-not-validated";
  timestamp_details = [];
  ltv_valid = false;
  ltv_evidence_bound = false;
  ltv_evidence_validated = false;
  certificate_time_valid = false;
  validation_time_source = "unknown";
  chain_checked = false;
  chain_valid = false;
  chain_debug = "";
  trust_checked = false;
  trust_valid = false;
  trust_status = "not-implemented";
  trust_mode = "strict";
  trust_reason = "not-evaluated";
  historical_trust_used = false;
  historical_anchor_subject = "";
  historical_anchor_serial = "";
  revocation_checked = false;
  ocsp_checked = false;
  revocation_status = "not-checked";
  error_code = ErrorCode.ok;
  message = "";
  signature_policy_present = false;
  signature_policy_id = "";
  signature_policy_hash_algo_uri = "";
  data_object_formats = [];
}

pub record VerifyReport : Type 0 where
  pub has_result : Bool
  pub execution_succeeded : Bool
  pub signature_valid : Bool
  pub trust_valid : Bool
  pub trust_checked : Bool
  pub revocation_checked : Bool
  pub ocsp_checked : Bool
  pub revocation_evidence_present : Bool
  pub tsp_checked : Bool
  pub timestamp_checked : Bool
  pub timestamp_valid : Bool
  pub timestamp_status : String
  pub timestamp_details : List TimestampEntry
  pub signer_certificate_present : Bool
  pub qualifying_properties_present : Bool
  pub certificate_time_valid : Bool
  pub validation_time_source : String
  pub chain_checked : Bool
  pub chain_valid : Bool
  pub trust_list_checked : Bool
  pub cms_signer_count : ℤ
  pub cms_verified_signer_count : ℤ
  pub trust_list_update_succeeded : Bool
  pub operation : String
  pub policy : String
  pub container_type : String
  pub signature_format : String
  pub format_profile : String
  pub validated_profile : String
  pub ltv_valid : Bool
  pub ltv_evidence_bound : Bool
  pub ltv_evidence_validated : Bool
  pub signature_policy_present : Bool
  pub signature_policy_id : String
  pub signature_policy_hash_algo_uri : String
  pub data_object_formats : List DataObjectFormatEntry
  pub container_coverage_complete : Bool
  pub coverage_status : String
  pub container_malformed : Bool
  pub signatures : List SignatureEntry
  pub trust_status : String
  pub trust_mode : String
  pub trust_reason : String
  pub historical_trust_used : Bool
  pub historical_anchor_subject : String
  pub historical_anchor_serial : String
  pub revocation_status : String
  pub trust_list_source : String
  pub trust_list_cache_status : String
  pub trust_list_last_sync : String
  pub error_code : ErrorCode
  pub message : String
  pub chain_debug : String

abbrev pub default_report : VerifyReport
default_report = record {
  has_result = false;
  execution_succeeded = false;
  signature_valid = false;
  trust_valid = false;
  trust_checked = false;
  revocation_checked = false;
  ocsp_checked = false;
  revocation_evidence_present = false;
  tsp_checked = false;
  timestamp_checked = false;
  timestamp_valid = false;
  timestamp_status = "timestamp-not-validated";
  timestamp_details = [];
  signer_certificate_present = false;
  qualifying_properties_present = false;
  certificate_time_valid = false;
  validation_time_source = "unknown";
  chain_checked = false;
  chain_valid = false;
  trust_list_checked = false;
  cms_signer_count = pos 0;
  cms_verified_signer_count = pos 0;
  trust_list_update_succeeded = false;
  operation = "";
  policy = "crypto-integrity-only";
  container_type = "unknown";
  signature_format = "CMS";
  format_profile = "";
  validated_profile = "";
  ltv_valid = false;
  ltv_evidence_bound = false;
  ltv_evidence_validated = false;
  signature_policy_present = false;
  signature_policy_id = "";
  signature_policy_hash_algo_uri = "";
  data_object_formats = [];
  container_coverage_complete = true;
  coverage_status = "not-applicable";
  container_malformed = false;
  signatures = [];
  trust_status = "not-implemented";
  trust_mode = "strict";
  trust_reason = "not-evaluated";
  historical_trust_used = false;
  historical_anchor_subject = "";
  historical_anchor_serial = "";
  revocation_status = "not-checked";
  trust_list_source = "https://czo.gov.ua/download/tl/TL-UA-EC.xml";
  trust_list_cache_status = "not-checked";
  trust_list_last_sync = "";
  error_code = ErrorCode.ok;
  message = "";
  chain_debug = "";
}

-- `VerifyPolicyDecision`.
pub record VerifyPolicyDecision : Type 0 where
  pub valid : Bool
  pub level : String
  pub summary : String

pub record VerifyCheck : Type 0 where
  pub status : String
  pub code : String

abbrev pub check : String → String → VerifyCheck
check status code = record { status = status; code = code }

pub record VerifyOutcome : Type 0 where
  pub operation : String
  pub execution_succeeded : Bool
  pub signature_valid : Bool
  pub error_code : ErrorCode
  pub message : String

pub record VerifyReportFormatLabels : Type 0 where
  pub container_type : String
  pub signature_format : String

pub record PolicyValidationResult : Type 0 where
  pub trust_checked : Bool
  pub trust_valid : Bool
  pub revocation_checked : Bool
  pub ocsp_checked : Bool
  pub tsp_checked : Bool
  pub timestamp_checked : Bool
  pub timestamp_valid : Bool
  pub chain_checked : Bool
  pub chain_valid : Bool
  pub chain_status : ChainStatus
  pub revocation_status : RevocationStatus
  pub timestamp_status : TimestampStatus
  pub trust_status : String
  pub revocation_status_text : String
  pub policy : String
  pub message : String
