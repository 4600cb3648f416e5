-- ===== src/Validation/Timestamp/Steps.antt =====
-- The steps of `TimestampEngine::Validate` up to the revocation check, each with its early returns.
use tamga.Prelude.{
  Bool, true, false, not, ◌&&◌, ◌||◌, List, [], ◌∷◌, ◌++◌, none, some, Bytes, String, str_eq,
  concat, map, if◌then◌else◌,
}
use tamga.Validation.Types.{ChainStatus, TimestampStatus, TimestampEngineResult, default_timestamp}
use tamga.Validation.Decision.{is_some}
use tamga.Validation.Path.{
  PathBuilderInput, PathCandidate, PathSelection, build, validate, select, is_nil,
}
use tamga.Validation.Timestamp.{
  TimestampEngineInput, TimestampValidationResult, TimestampServices, value, failure, Step, stop,
  go, refused, append_unique, certificate_candidates, find_verified_tsa_issuer, uses_tl_endpoints,
  matches_endpoint,
}

unfoldable pub extraction_status : String → TimestampStatus
extraction_status failure_code =
    if str_eq failure_code "TIMESTAMP_MISSING"
    then TimestampStatus.missing
    else TimestampStatus.invalid_signature

unfoldable pub failure_status : String → TimestampStatus
failure_status code =
    if str_eq code "TIMESTAMP_IMPRINT_MISMATCH"
    then TimestampStatus.invalid_imprint
    else if str_eq code "TIMESTAMP_IMPRINT_UNSUPPORTED" || str_eq code "TIMESTAMP_UNSUPPORTED"
    then TimestampStatus.unsupported
    else if str_eq code "TSA_CERTIFICATE_MISSING"
    then TimestampStatus.untrusted_tsa
    else TimestampStatus.invalid_signature

-- The path found for the certificate of the TSA, and whether it stands in the trust list itself.
pub record Trust : Type 0 where
  pub direct_matched : Bool
  pub selection : PathSelection

abbrev pub is_expired : ChainStatus → Bool
is_expired ChainStatus.expired = true
is_expired _ = false

unfoldable pub path_input :
    TimestampEngineInput → TimestampValidationResult → String → PathBuilderInput
path_input input val_res time = record {
  signer_certificate_der = val_res.tsa_certificate_der;
  embedded_certificates_der =
      append_unique val_res.embedded_certificates_der
        input.additional_tsa_candidate_certificates_der;
  intermediate_store_certificates_der = input.intermediate_store_certificates_der;
  aia_certificates_der = [];
  current_trust_anchors_der = input.tsa_trust_anchors_der ++ input.current_trust_anchors_der;
  historical_trust_anchors_der =
      input.historical_tsa_trust_anchors_der ++ input.historical_trust_anchors_der;
  custom_trust_anchors_der = input.custom_trust_anchors_der;
  pinned_trust_anchors_der = input.pinned_trust_anchors_der;
  policy = input.policy;
  validation_time = time;
}

-- `direct_matched` after the two loops: against current endpoints, then against historical ones.
unfoldable pub matches_current : TimestampEngineInput → Bytes → Bool
unfolding uses_tl_endpoints matches_endpoint
matches_current input tsa =
    uses_tl_endpoints input.policy.trust_anchor_policy
    && matches_endpoint tsa input.tsa_trust_anchors_der

unfoldable pub matches_historical : TimestampEngineInput → Bytes → Bool
unfolding uses_tl_endpoints matches_endpoint
matches_historical input tsa =
    uses_tl_endpoints input.policy.trust_anchor_policy
    && input.policy.allow_historical_trust
    && matches_endpoint tsa input.historical_tsa_trust_anchors_der

-- The effect of the direct match on the result.
unfoldable pub note_match : Bool → Bool → TimestampEngineResult → TimestampEngineResult
note_match current historical r =
    if current
    then record r {
      trust_source = "current-tl";
      because =
          r.because
          ++ ("TSA сертифікат збігається з endpoint-сертифікатом у списку довіри (TL direct-match)."
              ∷ []);
    }
    else if historical
    then record r {
      trust_source = "historical-tl";
      historical_trust_used = true;
      because =
          r.because
          ++ ("TSA сертифікат збігається з endpoint-сертифікатом у списку довіри (TL direct-match)."
              ∷ []);
    }
    else r

-- The early returns on the selected path, and `trust_valid`.
unfoldable pub judge_path :
    Bool
    → List PathCandidate
    → PathSelection
    → TimestampEngineResult
    → Step (TimestampEngineResult × Trust)
judge_path direct candidates selection r =
    let selected = selection.selected_result in
    let trusted = record r {
      trust_valid = true;
      trust_source = if direct then r.trust_source else selected.trust_anchor_source;
      historical_trust_used =
          if direct then r.historical_trust_used else selected.uses_historical_trust;
    } in
    let warned = record trusted {
      warnings =
          if trusted.historical_trust_used
          then trusted.warnings ++ ("TSA_HISTORICAL_TRUST_USED" ∷ [])
          else trusted.warnings;
    } in
    if is_nil candidates && not direct
    then stop (
        refused r TimestampStatus.untrusted_tsa "TSA_UNTRUSTED"
          "Не вдалося побудувати ланцюжок для сертифіката TSA (немає кандидатів).")
    else if not direct && is_expired selected.status
    then stop (
        refused r TimestampStatus.tsa_expired "TSA_CHAIN_TIME_INVALID"
          "Сертифікат TSA або один із сертифікатів ланцюжка протерміновано на момент мітки часу.")
    else if not direct && (not (is_some selection.selected_index) || not selected.trusted)
    then stop (
        refused r TimestampStatus.untrusted_tsa "TSA_UNTRUSTED"
          (concat "Сертифікат TSA не є довіреним: " selected.message))
    else go (warned, record { direct_matched = direct; selection = selection })

-- The token's own validity: cryptography.
unfoldable pub check_crypto : TimestampValidationResult → Step TimestampEngineResult
unfolding failure_status
check_crypto val_res =
    let r = record default_timestamp { gen_time = val_res.gen_time } in
    if not val_res.valid
    then stop (
        refused r (failure_status val_res.failure_code) val_res.failure_code
          (concat "Криптографічна перевірка мітки часу завершилася помилкою: " val_res.message))
    else go (record r { crypto_valid = true; tsa_certificate_der = val_res.tsa_certificate_der })

-- `issuer_candidates`.
unfoldable pub issuer_candidates :
    TimestampEngineInput → TimestampValidationResult → Trust → List Bytes
issuer_candidates input val_res trust =
    let selected = trust.selection.selected_result.signer_issuer_certificate_der in
    append_unique
      (append_unique (if is_nil selected then [] else selected ∷ [])
        val_res.embedded_certificates_der)
      (certificate_candidates input)

-- The early return without an issuer.
unfoldable pub with_issuer :
    TimestampEngineInput → Bytes → TimestampEngineResult → Step TimestampEngineResult
with_issuer input issuer r =
    if is_nil issuer
    then stop
        (record (refused r TimestampStatus.untrusted_tsa "TSA_ISSUER_MISSING"
          "Не знайдено криптографічно підтвердженого видавця TSA для перевірки відкликання.") {
            policy_acceptable =
                not input.policy.revocation_hard_fail
                && not input.policy.require_trusted_signing_time;
          })
    else go (record r { tsa_issuer_certificate_der = issuer })

module _ {ℓ} {World : Type ℓ} (services : TimestampServices World) where
  open services use {
    get_signature_value, extract_token, validate_token, normalize_time, is_certificate_valid_at,
    chain, has_timestamping_eku,
  }

  -- The token inside the CMS container.
  unfoldable pub token_in_cms : TimestampEngineInput → Step TimestampValidationResult
  unfolding extraction_status
  token_in_cms input =
      let r = default_timestamp in
      if is_nil input.cms_der
      then stop (
          refused r TimestampStatus.unsupported "TIMESTAMP_FORMAT_INVALID" "Помилка: CMS порожній.")
      else elim (get_signature_value input.cms_der) [
        | failure message ↦ stop (
            refused r TimestampStatus.unsupported "TIMESTAMP_SIGNATURE_VALUE_MISSING"
              (concat "Не вдалося вилучити значення підпису: " message))
        | value signature ↦
            let ext = extract_token input.cms_der in
            if not ext.success
            then stop (
                refused r (extraction_status ext.failure_code) ext.failure_code
                  (concat "Не вдалося вилучити мітку часу: " ext.message))
            else go (validate_token ext.token_der signature (certificate_candidates input))
      ]

  unfoldable pub find_token : TimestampEngineInput → Step TimestampValidationResult
  find_token input =
      if not (is_nil input.explicit_timestamp_token_der)
      then (if is_nil input.explicit_timestamp_imprint_source
          then stop (
              refused default_timestamp TimestampStatus.unsupported
                "TIMESTAMP_IMPRINT_SOURCE_MISSING"
                "Помилка: explicit timestamp imprint source порожній.")
          else go (
              validate_token input.explicit_timestamp_token_der
                input.explicit_timestamp_imprint_source (certificate_candidates input)))
      else token_in_cms input

  -- Its time, and the certificate at that time.
  unfoldable pub check_time :
      World → TimestampValidationResult → TimestampEngineResult → Step TimestampEngineResult
  check_time w val_res r = elim (normalize_time val_res.gen_time) [
    | none ↦ stop (
        refused r TimestampStatus.invalid_signature "TIMESTAMP_TIME_INVALID"
          "genTime мітки не є коректним UTC GeneralizedTime; поточний час не підставляється.")
    | some iso ↦
        let timed = record r { gen_time_valid = true; validation_time = iso } in
        if not (is_certificate_valid_at w val_res.tsa_certificate_der iso)
        then stop (
            refused timed TimestampStatus.tsa_expired "TSA_CERTIFICATE_TIME_INVALID"
              "Сертифікат TSA не є чинним на момент мітки часу.")
        else go (record timed { certificate_time_valid = true })
  ]

  -- Trust in the TSA, by the list itself or by a path.
  unfoldable pub check_trust :
      World
      → TimestampEngineInput
      → TimestampValidationResult
      → TimestampEngineResult
      → Step (TimestampEngineResult × Trust)
  check_trust w input val_res r =
      let tsa = val_res.tsa_certificate_der in
      let current = matches_current input tsa in
      let historical = matches_historical input tsa in
      let candidates = build (path_input input val_res r.validation_time) in
      let selection = select (map (validate (chain w)) candidates) input.policy in
      judge_path (current || historical) candidates selection (note_match current historical r)

  -- The right to issue timestamps.
  unfoldable pub check_eku :
      TimestampValidationResult → TimestampEngineResult → Step TimestampEngineResult
  check_eku val_res r =
      if not (has_timestamping_eku val_res.tsa_certificate_der)
      then stop (
          refused r TimestampStatus.untrusted_tsa "TSA_EKU_INVALID"
            "Сертифікат TSA не містить розширення EKU для Timestamping (1.3.6.1.5.5.7.3.8).")
      else go (record r { eku_valid = true })

  -- The issuer, against whom revocation is checked.
  unfoldable pub check_issuer :
      TimestampEngineInput
      → TimestampValidationResult
      → Trust
      → TimestampEngineResult
      → Step TimestampEngineResult
  check_issuer input val_res trust r =
      with_issuer input
        (find_verified_tsa_issuer services val_res.tsa_certificate_der
          (issuer_candidates input val_res trust))
        r
