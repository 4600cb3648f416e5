-- ===== src/Validation/Tests/Engine.antt =====
-- The whole engine at a concrete input, where every check passes.
use tamga.Prelude.{zero, ℕ, Bool, true, false, [], ◌∷◌, none, some, codes, concat, ◌≡◌, refl}
use tamga.Validation.Types.{OverallStatus, ValidationProfile, ValidationLevel, ValidationContext}
use tamga.Validation.Engine.{EngineServices, stable_snapshot_id}
use tamga.Validation.Engine.Run.{validate}
use tamga.Validation.Engine.Laws.{validate_fails_closed, validate_trusted_time}
use tamga.Validation.Engine.Backed.{IsBacked, validate-IsBacked}
use tamga.Validation.Tests.Timestamp as Tokens
use tamga.Prelude.Find.{find_if}
use tamga.Prelude.Order.{bytes_eq}
use tamga.Validation.Types.{is_long_term_validation_valid}
use tamga.Validation.PolicyResolver as PolicyResolver
use tamga.Validation.SigningTime as SigningTime
use tamga.Validation.SigningTime.{is_trusted_timestamp}
use tamga.Validation.Engine.{
  timestamp_input, note_crypto, time_candidates, final_candidates, path_input,
  signer_revocation_input, load_certificates_from_dir,
}
use tamga.Validation.Engine.Run.{
  load_anchors, load_store, check_timestamp, gather, report_of, resolve_time, try_paths,
  check_service, check_signer, download_crls_for, put_revocation, put_certificates,
}
use tamga.Validation.Path.{build, select, first_index}
use tamga.Validation.Path as CertPath
use tamga.Validation.Revocation.{
  try_crls, try_embedded, ocsp_candidates, embedded_request, embedded_hit,
}
use tamga.Validation.Revocation.Engine.{consult, try_network}
use tamga.Validation.Revocation.Engine as Revocation
use tamga.Validation.Timestamp.{
  find_verified_tsa_issuer, certificate_candidates, append_unique, contains, uses_tl_endpoints,
  matches_endpoint,
}
use tamga.Validation.Timestamp.Steps as Steps
use tamga.Validation.Timestamp.Steps.{
  find_token, token_in_cms, check_crypto, check_time, check_trust, check_eku, check_issuer,
  with_issuer, issuer_candidates, judge_path, note_match, matches_current, matches_historical,
}
use tamga.Validation.Timestamp.Engine.{
  prepare, judge_token, check_revocation, revocation_input, judge_revocation,
}
use tamga.Validation.Timestamp.Engine as Timestamp
use tamga.Validation.Decision.{
  synthesize_decision, is_revocation_refusal, decide_trusted_or_not, with_trust, is_trust_valid,
  path_trusted, with_details, conclude, with_levels,
}

abbrev pub services : EngineServices ℕ
services = record {
  timestamp = Tokens.services;
  join = λ a b. concat a (concat "/" b);
  utf8 = codes;
  digest = λ b. b;
  list_certificates = λ w d. none;
  list_history = λ w d. none;
  snapshot_path = λ d s. concat d "/trust-list/TL-UA-EC.xml";
  relative_path = λ p d. some "trust-list/TL-UA-EC.xml";
  read_text = λ w p. none;
  parse_trust_list = λ x. record { ok = false; message = ""; services = [] };
}

abbrev context : Bool → ValidationContext
context crypto = record {
  profile = ValidationProfile.compatibility;
  level = ValidationLevel.standard;
  verification_time = "2024-07-01T00:00:00Z";
  offline = true;
  work_dir = "";
  cms_der = 1 ∷ [];
  claimed_signing_time = "";
  embedded_revocation_ocsp_der = (4 ∷ []) ∷ [];
  embedded_revocation_crl_der = [];
  ocsp_url = "";
  signature_crypto_valid = crypto;
}

current : stable_snapshot_id (some "trust-list/TL-UA-EC.xml") ≡ "current"
unfolding stable_snapshot_id
current = refl

archived : stable_snapshot_id (some "trust-list/history/a.xml") ≡ "history/a.xml"
unfolding stable_snapshot_id
archived = refl

outside : stable_snapshot_id (some "../trust-list/a.xml") ≡ "unknown"
unfolding stable_snapshot_id
outside = refl

validate_fails_closed_example :
    (validate services zero (context false) (1 ∷ []) []).0.decision.overall_status
    ≡ OverallStatus.invalid
validate_fails_closed_example = validate_fails_closed services zero (context false) (1 ∷ []) [] refl

all_valid :
    (validate services zero (context true) (1 ∷ []) []).0.decision.overall_status
    ≡ OverallStatus.valid
unfolding validate load_anchors load_store check_timestamp timestamp_input gather report_of
    resolve_time try_paths check_service check_signer download_crls_for put_revocation
    put_certificates note_crypto time_candidates final_candidates path_input signer_revocation_input
    load_certificates_from_dir PolicyResolver.resolve Timestamp.validate prepare find_token
    token_in_cms check_crypto check_time check_trust judge_path issuer_candidates note_match
    matches_current matches_historical uses_tl_endpoints matches_endpoint Steps.path_input build
    select first_index CertPath.validate append_unique contains certificate_candidates bytes_eq
    check_eku check_issuer with_issuer find_verified_tsa_issuer find_if judge_token check_revocation
    revocation_input Revocation.validate consult try_network try_crls try_embedded ocsp_candidates
    embedded_request embedded_hit judge_revocation SigningTime.resolve is_trusted_timestamp
    SigningTime.from_timestamp synthesize_decision is_revocation_refusal decide_trusted_or_not
    with_trust is_trust_valid path_trusted with_details conclude with_levels
    is_long_term_validation_valid
all_valid = refl

validate-IsBacked_example :
    IsBacked services zero
      (context true)
      (1 ∷ [])
      []
      (validate services zero (context true) (1 ∷ []) []).0
validate-IsBacked_example = validate-IsBacked services zero (context true) (1 ∷ []) [] all_valid

time_is_trusted :
    (validate services zero (context true) (1 ∷ []) []).0.signing_time_resolution.trusted_time
    ≡ true
unfolding validate load_anchors load_store check_timestamp timestamp_input gather report_of
    resolve_time try_paths check_service check_signer download_crls_for put_revocation
    put_certificates note_crypto time_candidates final_candidates path_input signer_revocation_input
    load_certificates_from_dir PolicyResolver.resolve Timestamp.validate prepare find_token
    token_in_cms check_crypto check_time check_trust judge_path issuer_candidates note_match
    matches_current matches_historical uses_tl_endpoints matches_endpoint Steps.path_input build
    select first_index CertPath.validate append_unique contains certificate_candidates bytes_eq
    check_eku check_issuer with_issuer find_verified_tsa_issuer find_if judge_token check_revocation
    revocation_input Revocation.validate consult try_network try_crls try_embedded ocsp_candidates
    embedded_request embedded_hit judge_revocation SigningTime.resolve is_trusted_timestamp
    SigningTime.from_timestamp synthesize_decision is_revocation_refusal decide_trusted_or_not
    with_trust is_trust_valid path_trusted with_details conclude with_levels
    is_long_term_validation_valid
time_is_trusted = refl

validate_trusted_time_example :
    ((validate services zero (context true) (1 ∷ []) []).0.timestamp_attempted ≡ true)
    × ((validate services zero (context true) (1 ∷ []) []).0.timestamp.valid ≡ true)
    × (services.timestamp.normalize_time
          (validate services zero (context true) (1 ∷ []) []).0.timestamp.gen_time
        ≡ some
            (validate services zero
              (context true)
              (1 ∷ [])
              []).0.signing_time_resolution.signature_evaluation_time)
validate_trusted_time_example =
    validate_trusted_time services zero (context true) (1 ∷ []) [] time_is_trusted
