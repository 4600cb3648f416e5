-- ===== src/Report/SignerTests.antt =====
-- Two signers of one document through the engine and the aggregation.
use tamga.Prelude.{ℕ, zero, true, List, [], ◌∷◌, none, map, ◌≡◌, refl}
use tamga.Prelude.Find.{All}
use tamga.Validation.Tests.Engine.{services}
use tamga.Prelude.Find.{find_if}
use tamga.Prelude.Order.{bytes_eq}
use tamga.Validation.Types.{is_long_term_validation_valid}
use tamga.Validation.PolicyResolver as PolicyResolver
use tamga.Validation.SigningTime as SigningTime
use tamga.Validation.SigningTime.{is_trusted_timestamp}
use tamga.Validation.Engine.{
  timestamp_input, note_crypto, time_candidates, final_candidates, path_input,
  signer_revocation_input, load_certificates_from_dir,
}
use tamga.Validation.Engine.Run.{
  load_anchors, load_store, check_timestamp, gather, report_of, resolve_time, try_paths,
  check_service, check_signer, download_crls_for, put_revocation, put_certificates,
}
use tamga.Validation.Path.{build, select, first_index}
use tamga.Validation.Path as CertPath
use tamga.Validation.Revocation.{
  try_crls, try_embedded, ocsp_candidates, embedded_request, embedded_hit,
}
use tamga.Validation.Revocation.Engine.{consult, try_network}
use tamga.Validation.Revocation.Engine as Revocation
use tamga.Validation.Timestamp.{
  find_verified_tsa_issuer, certificate_candidates, append_unique, contains, uses_tl_endpoints,
  matches_endpoint,
}
use tamga.Validation.Timestamp.Steps as Steps
use tamga.Validation.Timestamp.Steps.{
  find_token, token_in_cms, check_crypto, check_time, check_trust, check_eku, check_issuer,
  with_issuer, issuer_candidates, judge_path, note_match, matches_current, matches_historical,
}
use tamga.Validation.Timestamp.Engine.{
  prepare, judge_token, check_revocation, revocation_input, judge_revocation,
}
use tamga.Validation.Timestamp.Engine as Timestamp
use tamga.Validation.Decision.{
  synthesize_decision, is_revocation_refusal, decide_trusted_or_not, with_trust, is_trust_valid,
  explain_trust, path_trusted, with_details, conclude, with_levels,
}
use tamga.Validation.Engine.Run.{validate}
use tamga.Report.Types.{VerifyReport, default_report, default_signature_entry}
use tamga.Report.Summary.{
  compute_verify_policy_decision, is_policy_base_valid, has_unacceptable_timestamp, is_confirmed,
  is_service_unavailable, is_timestamp_invalid,
}
use tamga.Report.Checks.{
  summary_check, has_policy_warning, is_undecided, effective_revocation_checked,
}
use tamga.Report.Projection.{
  apply_validation_engine_report, project_verify_report, project_path, project_revocation,
  project_timestamp, project_error, canonical_revocation_status_string,
}
use tamga.Report.Aggregation.{
  apply_per_signer_trust_aggregation, apply_per_signer_trust_validation,
  run_format_trust_validation_on, context_of, representative, first_failing, all_of,
}
use tamga.Report.Aggregation.Signers.{
  SignerCall, IsEngineTrusted, validated, apply_per_signer_trust_aggregation-signers,
}

abbrev signer_call : SignerCall ℕ
signer_call = record {
  world = zero;
  settings = record { work_dir = ""; offline_mode = true; trust_mode = ""; validation_level = "" };
  evidence = record {
    signer_certificate_der = 1 ∷ [];
    cms_der = [];
    embedded_certificates_der = [];
    embedded_revocation_ocsp_der = (4 ∷ []) ∷ [];
    embedded_revocation_crl_der = [];
  };
  entry = record default_signature_entry { signature_valid = true };
}

abbrev signer_calls : List (SignerCall ℕ)
signer_calls = signer_call ∷ signer_call ∷ []

abbrev signed_report : VerifyReport
signed_report = record default_report {
  has_result = true;
  execution_succeeded = true;
  signature_valid = true;
  container_coverage_complete = true;
  signatures = map (validated services (λ der. "") (λ der. none)) signer_calls;
}

signers_valid : (summary_check (apply_per_signer_trust_aggregation signed_report)).status ≡ "valid"
unfolding validate load_anchors load_store check_timestamp timestamp_input gather report_of
    resolve_time try_paths check_service check_signer download_crls_for put_revocation
    put_certificates note_crypto time_candidates final_candidates path_input signer_revocation_input
    load_certificates_from_dir PolicyResolver.resolve Timestamp.validate prepare find_token
    token_in_cms check_crypto check_time check_trust judge_path issuer_candidates note_match
    matches_current matches_historical uses_tl_endpoints matches_endpoint Steps.path_input build
    select first_index CertPath.validate append_unique contains certificate_candidates bytes_eq
    check_eku check_issuer with_issuer find_verified_tsa_issuer find_if judge_token check_revocation
    revocation_input Revocation.validate consult try_network try_crls try_embedded ocsp_candidates
    embedded_request embedded_hit judge_revocation SigningTime.resolve is_trusted_timestamp
    SigningTime.from_timestamp synthesize_decision is_revocation_refusal decide_trusted_or_not
    with_trust is_trust_valid path_trusted with_details conclude with_levels
    is_long_term_validation_valid summary_check compute_verify_policy_decision is_policy_base_valid
    is_confirmed is_timestamp_invalid has_unacceptable_timestamp is_service_unavailable
    has_policy_warning effective_revocation_checked is_undecided apply_per_signer_trust_aggregation
    representative first_failing all_of apply_validation_engine_report project_verify_report
    project_path project_revocation project_timestamp project_error
    canonical_revocation_status_string apply_per_signer_trust_validation
    run_format_trust_validation_on context_of SigningTime.collect_skipped_rfc3161_diagnostics
    explain_trust
signers_valid = refl

apply_per_signer_trust_aggregation-signers_example :
    All (IsEngineTrusted services (λ der. "") (λ der. none)) signer_calls
apply_per_signer_trust_aggregation-signers_example =
    apply_per_signer_trust_aggregation-signers services (λ der. "") (λ der. none) signer_calls
      signed_report refl signers_valid
