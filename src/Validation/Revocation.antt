-- ===== src/Validation/Revocation.antt =====
-- src/lib/core/validation/RevocationEngine.cpp. The checks of one OCSP response or of a set of CRLs
-- (src/lib/core/policy/OcspValidator.cpp, CrlValidator.cpp), the parser of an ISO 8601 time and the
-- clock are parameters. A check may talk to the network, so it takes the state of the world and
-- returns the next one. `time_t` is an integer.
pub mod Engine
pub mod Laws
pub mod Offline
use tamga.Prelude.{
  ℕ, ◌+◌, Bool, true, false, not, ◌&&◌, ◌||◌, List, [], ◌∷◌, ◌++◌, Option, none, some, Bytes,
  String, is_empty, concat, ltb, if◌then◌else◌,
}
use tamga.Prelude.Int.{ℤ, pos, ltb_ℤ, is_zero_ℤ}
use tamga.Validation.Types.{RevocationStatus, good, revoked, OverallStatus, is_good, is_revoked}
use tamga.Validation.Path.{is_nil}

pub data CertificateRole : Type 0 where
  signer intermediate_ca tsa ocsp_responder crl_issuer : CertificateRole

-- `use_nonce` and `timeout_ms` keep their initial values.
pub record OcspValidationInput : Type 0 where
  pub url : String
  pub signer_certificate_der : Bytes
  pub issuer_certificate_der : Bytes
  pub validation_time : String
  pub response_der : Bytes

-- The fields that the engine reads.
pub record OcspValidationResult : Type 0 where
  pub checked : Bool
  pub status : RevocationStatus
  pub message : String
  pub request_evidence_id : String
  pub response_evidence_id : String
  pub revocation_time : ℤ

pub record CrlValidationInput : Type 0 where
  pub signer_certificate_der : Bytes
  pub issuer_certificate_der : Bytes
  pub crls_der : List Bytes
  pub validation_time : String

pub record CrlValidationResult : Type 0 where
  pub checked : Bool
  pub status : RevocationStatus
  pub message : String
  pub crl_evidence_id : String
  pub revocation_time : ℤ

pub record RevocationServices {ℓ} (World : Type ℓ) : Type ℓ where
  pub ocsp : World → OcspValidationInput → OcspValidationResult × World
  pub crl : World → CrlValidationInput → CrlValidationResult
  pub parse_time : String → Option ℤ
  pub clock : World → ℤ
  pub time_to_string : ℤ → String

pub record RevocationEngineInput : Type 0 where
  pub certificate_der : Bytes
  pub issuer_certificate_der : Bytes
  pub role : CertificateRole
  pub validation_time : String
  pub network_allowed : Bool
  pub revocation_hard_fail : Bool
  pub crls_der : List Bytes
  pub embedded_ocsp_response : Bytes
  pub embedded_ocsp_responses_der : List Bytes
  pub ocsp_url : String

pub record RevocationEngineResult : Type 0 where
  pub overall_status : OverallStatus
  pub revocation_status : RevocationStatus
  pub because : List String
  pub warnings : List String
  pub limitations : List String
  pub evidence_ids : List String
  pub revocation_time : ℤ
  pub ocsp_attempted : Bool
  pub crl_attempted : Bool

abbrev pub default_revocation_result : RevocationEngineResult
default_revocation_result = record {
  overall_status = OverallStatus.indeterminate;
  revocation_status = RevocationStatus.not_checked;
  because = [];
  warnings = [];
  limitations = [];
  evidence_ids = [];
  revocation_time = pos 0;
  ocsp_attempted = false;
  crl_attempted = false;
}

-- The variables of `Validate`: `result`, `final_status`, `final_revocation_time`, `detail_message`.
pub record Progress : Type 0 where
  pub result : RevocationEngineResult
  pub open result use {because, warnings, limitations, evidence_ids, ocsp_attempted, crl_attempted}
  pub final_status : RevocationStatus
  pub final_revocation_time : ℤ
  pub detail_message : String

abbrev pub because : String → Progress → Progress
because text p = record p { result = record p.result { because = p.because ++ (text ∷ []) } }

abbrev pub warn : String → Progress → Progress
warn text p = record p { result = record p.result { warnings = p.warnings ++ (text ∷ []) } }

abbrev pub limit : String → Progress → Progress
limit text p = record p { result = record p.result { limitations = p.limitations ++ (text ∷ []) } }

-- `if (!id.empty()) result.evidence_ids.push_back(id)`.
abbrev pub add_evidence : String → List String → List String
add_evidence id ids = if is_empty id then ids else ids ++ (id ∷ [])

unfoldable pub role_to_string : CertificateRole → String
role_to_string CertificateRole.signer = "Signer"
role_to_string CertificateRole.intermediate_ca = "IntermediateCa"
role_to_string CertificateRole.tsa = "Tsa"
role_to_string CertificateRole.ocsp_responder = "OcspResponder"
role_to_string CertificateRole.crl_issuer = "CrlIssuer"

unfoldable pub diagnostic_rank : RevocationStatus → ℕ
diagnostic_rank RevocationStatus.invalid = 4
diagnostic_rank RevocationStatus.stale = 3
diagnostic_rank RevocationStatus.responder_unavailable = 2
diagnostic_rank RevocationStatus.unknown = 1
diagnostic_rank _ = 0

unfoldable pub keep_more_specific_failure : RevocationStatus → String → Progress → Progress
unfolding diagnostic_rank
keep_more_specific_failure status message p =
    if ltb (diagnostic_rank p.final_status) (diagnostic_rank status)
    then record p { final_status = status; detail_message = message }
    else p

-- `status == Good || status == Revoked`.
abbrev pub is_definite : RevocationStatus → Bool
is_definite status = is_good status || is_revoked status

abbrev pub is_invalid_or_stale : RevocationStatus → Bool
is_invalid_or_stale RevocationStatus.invalid = true
is_invalid_or_stale RevocationStatus.stale = true
is_invalid_or_stale _ = false

-- The answer of a check is taken over.
unfoldable pub take_answer : RevocationStatus → ℤ → String → Progress → Progress
take_answer status time message p = record p {
  final_status = status;
  final_revocation_time = time;
  detail_message = message;
}

-- What the engine notes of every OCSP answer, embedded or not.
unfoldable pub note_ocsp : OcspValidationResult → Progress → Progress
note_ocsp res p = record p {
  result = record p.result {
    ocsp_attempted = p.ocsp_attempted || res.checked;
    evidence_ids =
        add_evidence res.response_evidence_id (add_evidence res.request_evidence_id p.evidence_ids);
  };
}

-- The response candidates of step 1.
unfoldable pub non_empty : List Bytes → List Bytes
non_empty [] = []
non_empty ([] ∷ rest) = non_empty rest
non_empty ((b ∷ bs) ∷ rest) = (b ∷ bs) ∷ non_empty rest

unfoldable pub ocsp_candidates : RevocationEngineInput → List Bytes
unfolding non_empty
ocsp_candidates input =
    non_empty (input.embedded_ocsp_response ∷ []) ++ non_empty input.embedded_ocsp_responses_der

-- The check of step 1 on one embedded response.
unfoldable pub embedded_request : RevocationEngineInput → Bytes → OcspValidationInput
embedded_request input response = record {
  url = "";
  signer_certificate_der = input.certificate_der;
  issuer_certificate_der = input.issuer_certificate_der;
  validation_time = input.validation_time;
  response_der = response;
}

abbrev pub is_ocsp_answer : OcspValidationResult → Bool
is_ocsp_answer res = res.checked && is_definite res.status

unfoldable pub embedded_hit : OcspValidationResult → Progress → Progress
unfolding note_ocsp take_answer
embedded_hit res p =
    because "Використано вбудовану відповідь OCSP."
      (take_answer res.status res.revocation_time res.message (note_ocsp res p))

unfoldable pub embedded_miss : OcspValidationResult → Progress → Progress
unfolding note_ocsp keep_more_specific_failure
embedded_miss res p =
    warn (concat "Вбудована відповідь OCSP не дала результату: " res.message)
      (keep_more_specific_failure res.status res.message (note_ocsp res p))

-- The check of step 2.
unfoldable pub crl_request : RevocationEngineInput → CrlValidationInput
crl_request input = record {
  signer_certificate_der = input.certificate_der;
  issuer_certificate_der = input.issuer_certificate_der;
  crls_der = input.crls_der;
  validation_time = input.validation_time;
}

unfoldable pub note_crl : CrlValidationResult → Progress → Progress
note_crl res p = record p {
  result = record p.result {
    crl_attempted = res.checked;
    evidence_ids = add_evidence res.crl_evidence_id p.evidence_ids;
  };
}

-- The three branches on the answer of step 2.
unfoldable pub take_crl : CrlValidationResult → Progress → Progress
unfolding note_crl take_answer keep_more_specific_failure
take_crl res p =
    let noted = note_crl res p in
    if res.checked && is_definite res.status
    then because "Використано локальний CRL."
        (take_answer res.status res.revocation_time res.message noted)
    else if res.checked && is_invalid_or_stale res.status
    then because (concat "Локальний CRL не дав чинного статусу: " res.message)
        (keep_more_specific_failure res.status res.message noted)
    else warn (concat "Локальний CRL не дав результату: " res.message)
        (keep_more_specific_failure res.status res.message noted)

module _ {ℓ} {World : Type ℓ} (services : RevocationServices World) where
  open services use {ocsp, crl}

  -- Step 1. The loop breaks at the first definite answer.
  unfoldable pub try_embedded :
      RevocationEngineInput → List Bytes → World → Progress → Progress × World
  try_embedded input [] w p = (p, w)
  try_embedded input (response ∷ rest) w p =
      let (res, w') = ocsp w (embedded_request input response) in
      let more = try_embedded input rest w' (embedded_miss res p) in
      if is_ocsp_answer res then (embedded_hit res p, w') else more

  -- Step 2.
  unfoldable pub try_crls : RevocationEngineInput → World → Progress → Progress
  try_crls input w p =
      if not (is_definite p.final_status) && not (is_nil input.crls_der)
      then take_crl (crl w (crl_request input)) p
      else p
