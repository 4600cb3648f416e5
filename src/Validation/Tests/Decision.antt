-- ===== src/Validation/Tests/Decision.antt =====
-- Decisions at concrete findings.
use tamga.Prelude.{true, [], ◌≡◌, inr, refl}
use tamga.Validation.Types.{
  OverallStatus, RevocationStatus, ValidationLevel, ValidationProfile, ValidationContext,
  default_policy, default_resolution, default_trust_service, default_timestamp,
  is_long_term_validation_valid,
}
use tamga.Validation.Path.{default_path_result, selected}
use tamga.Validation.Revocation.{default_revocation_result}
use tamga.Validation.Decision.{
  Findings, synthesize_decision, is_revocation_refusal, is_trust_valid, path_trusted, decide_basic,
  refuse, decide_trusted_or_not, with_trust, with_details, conclude, with_levels,
}
use tamga.Validation.Decision.Verdict.{synthesize_decision-valid, synthesize_decision-invalid}
use tamga.Validation.Decision.Flags.{synthesize_decision-Follows, synthesize_decision-Sums}

abbrev context : ValidationLevel → ValidationContext
context level = record {
  profile = ValidationProfile.strict;
  level = level;
  verification_time = "";
  offline = true;
  work_dir = "";
  cms_der = [];
  claimed_signing_time = "";
  embedded_revocation_ocsp_der = [];
  embedded_revocation_crl_der = [];
  ocsp_url = "";
  signature_crypto_valid = true;
}

-- A sound signature with a trusted path, a good certificate, a timestamp and its time.
abbrev good_findings : Findings
good_findings = record {
  signature_crypto_valid = true;
  path_selection = selected 0 (record default_path_result { trusted = true }) "trusted-candidate";
  path_results = [];
  trust_service = default_trust_service;
  signer_revocation = record default_revocation_result {
    overall_status = OverallStatus.valid;
    revocation_status = RevocationStatus.good;
  };
  timestamp = record default_timestamp { valid = true };
  timestamp_attempted = true;
  signing_time = record default_resolution {
    signature_evaluation_time = "2024-06-01T00:00:00Z";
    trusted_time = true;
  };
  policy = default_policy;
  context = context ValidationLevel.extended;
}

-- The same with a certificate that was revoked before.
abbrev revoked_findings : Findings
revoked_findings = record good_findings {
  signer_revocation = record default_revocation_result {
    overall_status = OverallStatus.invalid;
    revocation_status = RevocationStatus.revoked;
  };
}

abbrev basic_findings : Findings
basic_findings = record good_findings { context = context ValidationLevel.basic }

is_ltv_valid : (synthesize_decision good_findings).ltv_valid ≡ true
unfolding synthesize_decision is_revocation_refusal decide_trusted_or_not with_trust is_trust_valid
    path_trusted with_details conclude with_levels is_long_term_validation_valid
is_ltv_valid = refl

synthesize_decision-valid_example :
    (synthesize_decision good_findings).overall_status ≡ OverallStatus.valid
unfolding is_revocation_refusal is_trust_valid path_trusted
synthesize_decision-valid_example =
    (synthesize_decision-valid good_findings).1 (λ e. cc, refl, refl, refl, refl, refl)

synthesize_decision-invalid_example :
    (synthesize_decision revoked_findings).overall_status ≡ OverallStatus.invalid
unfolding is_revocation_refusal
synthesize_decision-invalid_example =
    (synthesize_decision-invalid revoked_findings).1 (inr (λ e. cc, refl))

synthesize_decision-Follows_example : (synthesize_decision good_findings).ltv_valid ≡ true
unfolding is_revocation_refusal is_trust_valid path_trusted
synthesize_decision-Follows_example =
    let valid =
      (synthesize_decision-valid good_findings).1 (λ e. cc, refl, refl, refl, refl, refl) in
    (synthesize_decision-Follows good_findings).1.1 (valid, refl, refl, refl)

synthesize_decision-Sums_example : (synthesize_decision basic_findings).summary ≡ "integrity-only"
unfolding synthesize_decision decide_basic refuse
synthesize_decision-Sums_example = synthesize_decision-Sums basic_findings
