-- ===== src/Validation/Tests/Timestamp.antt =====
-- The timestamp engine at a concrete input, where every check passes.
use tamga.Prelude.Order.{bytes_eq}
use tamga.Prelude.{ℕ, zero, true, false, [], ◌∷◌, some, ◌≡◌, refl}
use tamga.Prelude.Int.{pos}
use tamga.Validation.Types.{ChainStatus, RevocationStatus, default_policy, default_plan}
use tamga.Prelude.Find.{find_if}
use tamga.Validation.Path.{build, select, first_index}
use tamga.Validation.Path as CertPath
use tamga.Validation.Revocation.{
  try_crls, try_embedded, ocsp_candidates, embedded_request, embedded_hit,
}
use tamga.Validation.Revocation.Engine.{consult, try_network}
use tamga.Validation.Revocation.Engine as Revocation
use tamga.Validation.Timestamp.{
  TimestampEngineInput, TimestampServices, Fetched, find_verified_tsa_issuer,
  certificate_candidates, append_unique, contains, uses_tl_endpoints, matches_endpoint,
}
use tamga.Validation.Timestamp.Steps.{
  find_token, token_in_cms, check_crypto, check_time, check_trust, check_eku, check_issuer,
  with_issuer, issuer_candidates, judge_path, note_match, matches_current, matches_historical,
  path_input,
}
use tamga.Validation.Timestamp.Engine.{
  validate, prepare, judge_token, check_revocation, revocation_input, judge_revocation,
}
use tamga.Validation.Timestamp.Claims.{Answered, validate-Claims}

abbrev pub services : TimestampServices ℕ
services = record {
  get_signature_value = λ b. Fetched.value b;
  extract_token = λ b. record { success = true; failure_code = ""; token_der = b; message = "" };
  validate_token = λ t s cs. record {
    valid = true;
    failure_code = "";
    gen_time = "20240601000000Z";
    tsa_certificate_der = 9 ∷ [];
    embedded_certificates_der = [];
    message = "";
  };
  normalize_time = λ t. some "2024-06-01T00:00:00Z";
  is_certificate_valid_at = λ w c t. true;
  chain = λ w i. record {
    checked = true;
    trusted = true;
    chain_valid = true;
    status = ChainStatus.trusted;
    signer_certificate_time_valid = true;
    issuer_certificate_der = [];
    signer_issuer_certificate_der = 8 ∷ [];
    message = "";
    chain_debug = "";
  };
  decodes = λ c. true;
  issued_by = λ t c. true;
  has_timestamping_eku = λ c. true;
  resolve_ocsp_url = λ w c i d. "";
  parent_path = λ p. p;
  load_crls = λ w d. [];
  download_crls = λ w c d. w;
  revocation = record {
    ocsp = λ w i. (
      record {
        checked = true;
        status = RevocationStatus.good;
        message = "";
        request_evidence_id = "";
        response_evidence_id = "";
        revocation_time = pos 0;
      },
      w,
    );
    crl = λ w i. record {
      checked = false;
      status = RevocationStatus.unknown;
      message = "";
      crl_evidence_id = "";
      revocation_time = pos 0;
    };
    parse_time = λ t. some (pos 40);
    clock = λ w. pos 100;
    time_to_string = λ t. "";
  };
}

abbrev input : TimestampEngineInput
input = record {
  cms_der = 1 ∷ [];
  explicit_timestamp_token_der = [];
  explicit_timestamp_imprint_source = [];
  policy = default_policy;
  plan = default_plan;
  current_trust_anchors_der = [];
  tsa_trust_anchors_der = [];
  historical_trust_anchors_der = [];
  historical_tsa_trust_anchors_der = [];
  custom_trust_anchors_der = [];
  pinned_trust_anchors_der = [];
  intermediate_store_certificates_der = [];
  additional_tsa_candidate_certificates_der = [];
  embedded_crls_der = [];
  embedded_ocsp_responses_der = (4 ∷ []) ∷ [];
}

all_checks_passed : (validate services zero input).0.valid ≡ true
unfolding validate prepare find_token token_in_cms check_crypto check_time check_trust judge_path
    issuer_candidates note_match matches_current matches_historical uses_tl_endpoints
    matches_endpoint path_input build select first_index CertPath.validate append_unique contains
    certificate_candidates bytes_eq check_eku check_issuer with_issuer find_verified_tsa_issuer
    find_if judge_token check_revocation revocation_input Revocation.validate consult try_network
    try_crls try_embedded ocsp_candidates embedded_request embedded_hit judge_revocation
all_checks_passed = refl

validate-Claims_example : Answered services input zero (validate services zero input).0
unfolding validate prepare find_token token_in_cms check_crypto check_time check_trust judge_path
    issuer_candidates note_match matches_current matches_historical uses_tl_endpoints
    matches_endpoint path_input build select first_index CertPath.validate append_unique contains
    certificate_candidates bytes_eq check_eku check_issuer with_issuer find_verified_tsa_issuer
    find_if judge_token check_revocation revocation_input Revocation.validate consult try_network
    try_crls try_embedded ocsp_candidates embedded_request embedded_hit judge_revocation
validate-Claims_example = (validate-Claims services input zero).valid_answered refl
