-- ===== src/Validation/Tests/Revocation.antt =====
-- Revocation checks at concrete inputs.
use tamga.Prelude.{ℕ, ◌+◌, true, false, [], ◌∷◌, some, is_empty, ◌≡◌, ◌≢◌, refl, if◌then◌else◌}
use tamga.Prelude.Int.{pos}
use tamga.Validation.Types.{RevocationStatus, OverallStatus}
use tamga.Validation.Path.{is_nil}
use tamga.Validation.Revocation.{
  CertificateRole, OcspValidationInput, OcspValidationResult, RevocationServices,
  RevocationEngineInput, try_crls, try_embedded, ocsp_candidates, embedded_request, embedded_hit,
}
use tamga.Validation.Revocation.Engine.{validate, consult, try_network}
use tamga.Validation.Revocation.Laws.{Evidence, validate-verdict, validate-Evidence}
use tamga.Validation.Revocation.Offline.{validate-elsewhere, elsewhere}

-- A responder that answers "revoked at 50" to a response at hand; the state counts the requests.
abbrev answer : OcspValidationResult
answer = record {
  checked = true;
  status = RevocationStatus.revoked;
  message = "";
  request_evidence_id = "";
  response_evidence_id = "response";
  revocation_time = pos 50;
}

abbrev no_answer : OcspValidationResult
no_answer = record answer {
  checked = false;
  status = RevocationStatus.responder_unavailable;
  response_evidence_id = "";
}

abbrev services : RevocationServices ℕ
services = record {
  ocsp = λ w i. (if is_nil i.response_der then no_answer else answer, w + 1);
  crl = λ w i. record {
    checked = false;
    status = RevocationStatus.unknown;
    message = "";
    crl_evidence_id = "";
    revocation_time = pos 0;
  };
  parse_time = λ t. some (pos 40);
  clock = λ w. pos 100;
  time_to_string = λ t. "";
}

-- A responder at an address that answers "revoked" too.
abbrev other : ℕ → OcspValidationInput → OcspValidationResult × ℕ
other w i = if is_empty i.url then services.ocsp w i else (answer, w + 1)

abbrev input : RevocationEngineInput
input = record {
  certificate_der = 1 ∷ [];
  issuer_certificate_der = 2 ∷ [];
  role = CertificateRole.signer;
  validation_time = "2024-06-01T00:00:00Z";
  network_allowed = false;
  revocation_hard_fail = true;
  crls_der = [];
  embedded_ocsp_response = 3 ∷ [];
  embedded_ocsp_responses_der = [];
  ocsp_url = "http://ocsp";
}

later_revocation : (validate services input 0).0.overall_status ≡ OverallStatus.valid
unfolding validate consult try_network try_crls try_embedded ocsp_candidates embedded_request
    embedded_hit
later_revocation = refl

validate-verdict_example : (validate services input 0).0.overall_status ≡ OverallStatus.valid
unfolding validate consult try_network try_crls try_embedded ocsp_candidates embedded_request
    embedded_hit
validate-verdict_example = validate-verdict services input 0

valid-ne-indeterminate : OverallStatus.valid ≢ OverallStatus.indeterminate
valid-ne-indeterminate e = cc

validate-Evidence_example : Evidence services input RevocationStatus.revoked (pos 50)
unfolding validate consult try_network try_crls try_embedded ocsp_candidates embedded_request
    embedded_hit
validate-Evidence_example = validate-Evidence services input 0 valid-ne-indeterminate

validate-elsewhere_example :
    validate (elsewhere services other (λ w i e. rw e)) input 0 ≡ validate services input 0
validate-elsewhere_example = validate-elsewhere services other (λ w i e. rw e) input 0 refl
