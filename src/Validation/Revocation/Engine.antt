-- ===== src/Validation/Revocation/Engine.antt =====
-- Step 3 of `RevocationEngine::Validate`, its verdict, and the whole.
use tamga.Prelude.{Bool, not, ◌&&◌, [], none, some, String, is_empty, concat, if◌then◌else◌}
use tamga.Prelude.Int.{ℤ, pos, ltb_ℤ, is_zero_ℤ}
use tamga.Validation.Types.{RevocationStatus, OverallStatus}
use tamga.Validation.Path.{is_nil}
use tamga.Validation.Revocation.{
  RevocationServices, RevocationEngineInput, RevocationEngineResult, default_revocation_result,
  Progress, because, warn, limit, role_to_string, keep_more_specific_failure, is_definite,
  take_answer, note_ocsp, ocsp_candidates, try_embedded, try_crls, OcspValidationInput,
  OcspValidationResult, is_ocsp_answer,
}

-- `if (test) result.warnings.push_back(text)`.
abbrev pub warn_if : Bool → String → Progress → Progress
warn_if test text p = if test then warn text p else p

-- The check of step 3.
unfoldable pub network_request : RevocationEngineInput → OcspValidationInput
network_request input = record {
  url = input.ocsp_url;
  signer_certificate_der = input.certificate_der;
  issuer_certificate_der = input.issuer_certificate_der;
  validation_time = input.validation_time;
  response_der = [];
}

-- The two branches on the answer of step 3. The warning shows the message kept last.
unfoldable pub take_network : OcspValidationResult → Progress → Progress
unfolding note_ocsp take_answer keep_more_specific_failure
take_network res p =
    let noted = note_ocsp res p in
    let kept = keep_more_specific_failure res.status res.message noted in
    if is_ocsp_answer res
    then because "Отримано статус через мережевий OCSP."
        (take_answer res.status res.revocation_time res.message noted)
    else warn (concat "Мережевий запит OCSP завершився статусом: " kept.detail_message) kept

-- Step 3 without a request.
unfoldable pub skip_network : RevocationEngineInput → Progress → Progress
skip_network input p =
    warn_if (is_empty input.ocsp_url) "Адресу OCSP не налаштовано."
      (warn_if (not input.network_allowed) "Мережевий доступ заборонено конфігурацією." p)

abbrev pub with_status : OverallStatus → Progress → Progress
with_status status p = record p { result = record p.result { overall_status = status } }

unfoldable pub judge_open : Bool → Progress → Progress
judge_open hard_fail p =
    let q =
      because (concat "Не вдалося однозначно визначити статус відкликання: " p.detail_message) p in
    if hard_fail
    then warn "Сувора політика відкликання (hard fail): статус невизначено."
        (with_status OverallStatus.indeterminate q)
    else limit "М'яка політика відкликання (soft fail): статус не підтверджено."
        (with_status OverallStatus.indeterminate q)

abbrev pub start : RevocationEngineInput → Progress
start input = because (concat "Роль сертифіката: " (role_to_string input.role)) (record {
  result = default_revocation_result;
  final_status = RevocationStatus.not_checked;
  final_revocation_time = pos 0;
  detail_message = "";
})

module _ {ℓ} {World : Type ℓ} (services : RevocationServices World) where
  open services use {ocsp, parse_time, clock, time_to_string}

  -- Step 3.
  unfoldable pub try_network : RevocationEngineInput → World → Progress → Progress × World
  try_network input w p =
      if is_definite p.final_status
      then (p, w)
      else if input.network_allowed && not (is_empty input.ocsp_url)
      then (let (res, w') = ocsp w (network_request input) in (take_network res p, w'))
      else (skip_network input p, w)

  unfoldable pub judge_revoked : ℤ → Progress → Progress
  judge_revoked validation_time p =
      if not (is_zero_ℤ p.final_revocation_time) && ltb_ℤ validation_time p.final_revocation_time
      then warn
          (concat "Сертифікат був відкликаний у часі: " (time_to_string p.final_revocation_time))
          (because "Сертифікат відкликано після моменту оцінки підпису (дійсний на момент підпису)."
            (with_status OverallStatus.valid p))
      else (let q =
            because "Сертифікат відкликано до моменту оцінки підпису."
              (with_status OverallStatus.invalid p) in
          if not (is_zero_ℤ p.final_revocation_time)
          then because (concat "Час відкликання: " (time_to_string p.final_revocation_time)) q
          else q)

  unfoldable pub judge_by : RevocationStatus → Bool → ℤ → Progress → Progress
  unfolding judge_revoked judge_open
  judge_by RevocationStatus.good hard_fail time p =
      because "Сертифікат не відкликано." (with_status OverallStatus.valid p)
  judge_by RevocationStatus.revoked hard_fail time p = judge_revoked time p
  judge_by RevocationStatus.invalid hard_fail time p = warn "revocation-check-invalid" (
      because (concat "Дані відкликання некоректні: " p.detail_message)
        (with_status OverallStatus.indeterminate p))
  judge_by _ hard_fail time p = judge_open hard_fail p

  -- The verdict on the final status.
  unfoldable pub judge : Bool → ℤ → Progress → RevocationEngineResult
  unfolding judge_by
  judge hard_fail time p =
      let q =
        judge_by p.final_status hard_fail time
          (record p { result = record p.result { revocation_status = p.final_status } }) in
      record q.result { revocation_time = q.final_revocation_time }

  -- `validation_time_sec`, and the warning on a time that does not parse.
  unfoldable pub evaluation_moment : RevocationEngineInput → World → Progress → Progress × ℤ
  evaluation_moment input w p =
      if is_empty input.validation_time
      then (p, clock w)
      else elim (parse_time input.validation_time) [
        | some t ↦ (p, t)
        | none ↦ (
          warn (concat "Не вдалося розпарсити validation_time: " input.validation_time) p,
          clock w,
        )
      ]

  -- Steps 1 to 3 in a row.
  unfoldable pub consult : RevocationEngineInput → World → Progress → Progress × World
  consult input w p =
      let (p₁, w₁) = try_embedded services input (ocsp_candidates input) w p in
      try_network input w₁ (try_crls services input w₁ p₁)

  -- `RevocationEngine::Validate`.
  unfoldable pub validate : RevocationEngineInput → World → RevocationEngineResult × World
  unfolding judge evaluation_moment
  validate input w =
      if is_nil input.certificate_der
      then ((because "Помилка: сертифікат порожній." (start input)).result, w)
      else (let (p, time) = evaluation_moment input w (start input) in
          let (q, w') = consult input w p in (judge input.revocation_hard_fail time q, w'))
