-- ===== src/Validation/Types.antt =====
-- src/lib/core/validation/ValidationTypes.h and src/lib/core/policy/PolicyTypes.h.
-- An `enum class` value that is none of the enumerators is `unlisted_below` or `unlisted_above`
-- where the program guards against it.
use tamga.Prelude.{Bool, true, false, List, [], Bytes, String, ◌&&◌}

pub data ChainStatus : Type 0 where
  not_checked trusted untrusted incomplete expired invalid_signature signer_missing : ChainStatus

pub data RevocationStatus : Type 0 where
  not_checked good revoked unknown stale invalid responder_unavailable : RevocationStatus

pub data TimestampStatus : Type 0 where
  not_checked missing valid invalid_imprint invalid_signature : TimestampStatus
  untrusted_tsa tsa_expired unsupported : TimestampStatus

pub data ValidationProfile : Type 0 where
  strict compatibility ukraine_legal offline forensic : ValidationProfile
  unlisted : ValidationProfile

pub data ValidationLevel : Type 0 where
  basic standard extended forensic : ValidationLevel
  unlisted_below unlisted_above : ValidationLevel

pub data TrustAnchorPolicy : Type 0 where
  current_tl_only historical_at_signing_time explicit_legacy_anchor_bundle : TrustAnchorPolicy
  pinned_anchors custom_trust_store forensic_all_possible : TrustAnchorPolicy

pub data OverallStatus : Type 0 where
  valid integrity_only indeterminate invalid : OverallStatus

pub data SigningTimeSource : Type 0 where
  unavailable rfc3161_timestamp claimed_signing_time verification_time_fallback : SigningTimeSource

pub data SigningTimeConfidence : Type 0 where
  trusted claimed fallback unavailable : SigningTimeConfidence

pub record ValidationContext : Type 0 where
  pub profile : ValidationProfile
  pub level : ValidationLevel
  pub verification_time : String
  pub offline : Bool
  pub work_dir : String
  pub cms_der : Bytes
  pub claimed_signing_time : String
  pub embedded_revocation_ocsp_der : List Bytes
  pub embedded_revocation_crl_der : List Bytes
  pub ocsp_url : String
  pub signature_crypto_valid : Bool

pub record ValidationPolicy : Type 0 where
  pub trust_anchor_policy : TrustAnchorPolicy
  pub revocation_hard_fail : Bool
  pub require_trusted_signing_time : Bool
  pub require_service_level_trust : Bool
  pub allow_historical_trust : Bool
  pub forensic_diagnostics : Bool

-- `selected_trust_snapshot_id` and `timeout_ms` keep their initial values throughout.
pub record ValidationPlan : Type 0 where
  pub network_allowed : Bool
  pub trust_store_path : String
  pub historical_trust_store_path : String

pub record ResolvedValidationPolicy : Type 0 where
  pub policy : ValidationPolicy
  pub plan : ValidationPlan

pub record ValidationDecision : Type 0 where
  pub overall_status : OverallStatus
  pub signature_valid : Bool
  pub trust_valid : Bool
  pub qualified_valid : Bool
  pub ltv_valid : Bool
  pub trusted_signing_time : String
  pub signature_evaluation_time : String
  pub level_reached : ValidationLevel
  pub summary : String
  pub trust_status : String
  pub trust_reason : String
  pub because : List String
  pub warnings : List String
  pub limitations : List String

pub record SigningTimeCandidate : Type 0 where
  pub source : SigningTimeSource
  pub time : String
  pub evidence_id : String
  pub cryptographically_valid : Bool
  pub trusted : Bool
  pub warnings : List String

pub record SigningTimeResolution : Type 0 where
  pub signature_evaluation_time : String
  pub source : SigningTimeSource
  pub confidence : SigningTimeConfidence
  pub evidence_id : String
  pub warnings : List String
  pub limitations : List String
  pub trusted_time : Bool

-- The member initialisers.
abbrev pub default_policy : ValidationPolicy
default_policy = record {
  trust_anchor_policy = TrustAnchorPolicy.current_tl_only;
  revocation_hard_fail = false;
  require_trusted_signing_time = false;
  require_service_level_trust = false;
  allow_historical_trust = false;
  forensic_diagnostics = false;
}

abbrev pub default_plan : ValidationPlan
default_plan = record {
  network_allowed = false;
  trust_store_path = "";
  historical_trust_store_path = "";
}

abbrev pub default_decision : ValidationDecision
default_decision = record {
  overall_status = OverallStatus.indeterminate;
  signature_valid = false;
  trust_valid = false;
  qualified_valid = false;
  ltv_valid = false;
  trusted_signing_time = "";
  signature_evaluation_time = "";
  level_reached = ValidationLevel.basic;
  summary = "not-executed";
  trust_status = "";
  trust_reason = "";
  because = [];
  warnings = [];
  limitations = [];
}

abbrev pub default_resolution : SigningTimeResolution
default_resolution = record {
  signature_evaluation_time = "";
  source = SigningTimeSource.unavailable;
  confidence = SigningTimeConfidence.unavailable;
  evidence_id = "";
  warnings = [];
  limitations = [];
  trusted_time = false;
}

-- The tests `status == RevocationStatus::Good` and so on.
abbrev pub is_good : RevocationStatus → Bool
is_good RevocationStatus.good = true
is_good _ = false

abbrev pub is_revoked : RevocationStatus → Bool
is_revoked RevocationStatus.revoked = true
is_revoked _ = false

-- `IsLongTermValidationValid`.
unfoldable pub is_long_term_validation_valid : Bool → RevocationStatus → Bool → Bool → Bool
is_long_term_validation_valid trust_valid status timestamp_attempted timestamp_valid =
    trust_valid && is_good status && timestamp_attempted && timestamp_valid

-- `TrustServiceDecision` of TrustServiceEvaluator.h.
pub record TrustServiceDecision : Type 0 where
  pub checked : Bool
  pub service_trusted : Bool
  pub service_type : String
  pub status : String
  pub snapshot_evidence_id : String
  pub limitations : List String

-- `TimestampEngineResult` of TimestampEngine.h.
pub record TimestampEngineResult : Type 0 where
  pub valid : Bool
  pub policy_acceptable : Bool
  pub crypto_valid : Bool
  pub gen_time_valid : Bool
  pub certificate_time_valid : Bool
  pub eku_valid : Bool
  pub trust_valid : Bool
  pub historical_trust_used : Bool
  pub revocation_checked : Bool
  pub ocsp_attempted : Bool
  pub crl_attempted : Bool
  pub status : TimestampStatus
  pub revocation_status : RevocationStatus
  pub reason_code : String
  pub trust_source : String
  pub gen_time : String
  pub validation_time : String
  pub tsa_certificate_der : Bytes
  pub tsa_issuer_certificate_der : Bytes
  pub because : List String
  pub warnings : List String
  pub limitations : List String
  pub evidence_ids : List String

abbrev pub default_trust_service : TrustServiceDecision
default_trust_service = record {
  checked = false;
  service_trusted = false;
  service_type = "";
  status = "";
  snapshot_evidence_id = "";
  limitations = [];
}

abbrev pub default_timestamp : TimestampEngineResult
default_timestamp = record {
  valid = false;
  policy_acceptable = false;
  crypto_valid = false;
  gen_time_valid = false;
  certificate_time_valid = false;
  eku_valid = false;
  trust_valid = false;
  historical_trust_used = false;
  revocation_checked = false;
  ocsp_attempted = false;
  crl_attempted = false;
  status = TimestampStatus.not_checked;
  revocation_status = RevocationStatus.not_checked;
  reason_code = "";
  trust_source = "";
  gen_time = "";
  validation_time = "";
  tsa_certificate_der = [];
  tsa_issuer_certificate_der = [];
  because = [];
  warnings = [];
  limitations = [];
  evidence_ids = [];
}
