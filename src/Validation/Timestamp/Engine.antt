-- ===== src/Validation/Timestamp/Engine.antt =====
-- The revocation check of the TSA, and `TimestampEngine::Validate` as a whole.
use tamga.Prelude.{
  Bool, true, false, not, ◌&&◌, ◌||◌, List, [], ◌++◌, Bytes, String, is_empty, if◌then◌else◌,
}
use tamga.Validation.Types.{
  RevocationStatus, OverallStatus, TimestampStatus, TimestampEngineResult, is_revoked,
}
use tamga.Validation.Decision.{is_invalid, is_indeterminate}
use tamga.Validation.Revocation.{RevocationEngineInput, RevocationEngineResult, CertificateRole}
use tamga.Validation.Revocation.Engine as Revocation
use tamga.Validation.Timestamp.{
  TimestampEngineInput, TimestampValidationResult, TimestampServices, Step, stop, go, ◌>>=◌,
  refused, append_unique,
}
use tamga.Validation.Timestamp.Steps.{
  find_token, check_crypto, check_time, check_trust, check_eku, check_issuer,
}

abbrev pub is_valid : OverallStatus → Bool
is_valid OverallStatus.valid = true
is_valid _ = false

-- The `switch` on a status that was not confirmed.
unfoldable pub unconfirmed_code : RevocationStatus → String
unconfirmed_code RevocationStatus.stale = "TSA_REVOCATION_STALE"
unconfirmed_code RevocationStatus.invalid = "TSA_REVOCATION_INVALID"
unconfirmed_code RevocationStatus.responder_unavailable = "TSA_RESPONDER_UNAVAILABLE"
unconfirmed_code _ = "TSA_REVOCATION_UNKNOWN"

unfoldable pub with_revocation :
    RevocationEngineResult → TimestampEngineResult → TimestampEngineResult
with_revocation rev r = record r {
  revocation_status = rev.revocation_status;
  ocsp_attempted = rev.ocsp_attempted;
  crl_attempted = rev.crl_attempted;
  revocation_checked = rev.ocsp_attempted || rev.crl_attempted;
  because = r.because ++ rev.because;
  warnings = r.warnings ++ rev.warnings;
  limitations = r.limitations ++ rev.limitations;
  evidence_ids = r.evidence_ids ++ rev.evidence_ids;
}

-- The last three branches.
unfoldable pub judge_revocation :
    TimestampEngineInput → RevocationEngineResult → TimestampEngineResult → TimestampEngineResult
unfolding with_revocation unconfirmed_code
judge_revocation input rev r =
    let checked = with_revocation rev r in
    if is_invalid rev.overall_status
    then refused checked TimestampStatus.untrusted_tsa
        (if is_revoked rev.revocation_status then "TSA_REVOKED" else "TSA_REVOCATION_INVALID")
        "Сертифікат TSA був відкликаний."
    else if not (is_valid rev.overall_status)
    then record (refused checked TimestampStatus.untrusted_tsa
        (unconfirmed_code rev.revocation_status)
        "Статус відкликання TSA не підтверджено; м'яка policy не робить час довіреним.") {
          policy_acceptable =
              not input.policy.revocation_hard_fail
              && not input.policy.require_trusted_signing_time;
        }
    else record (refused checked TimestampStatus.valid "TIMESTAMP_VALID"
        "Мітка часу RFC3161 є валідною.") { valid = true; policy_acceptable = true }

module _ {ℓ} {World : Type ℓ} (services : TimestampServices World) where
  open services use {resolve_ocsp_url, parent_path, load_crls, download_crls, revocation}

  unfoldable pub work_dir : TimestampEngineInput → String
  work_dir input =
      if is_empty input.plan.trust_store_path then "" else parent_path input.plan.trust_store_path

  -- CRLs of the work directory, added to those at hand.
  unfoldable pub with_cached_crls : World → String → List Bytes → List Bytes
  with_cached_crls w dir crls = if is_empty dir then crls else append_unique crls (load_crls w dir)

  unfoldable pub revocation_input :
      World
      → TimestampEngineInput
      → TimestampValidationResult
      → TimestampEngineResult
      → RevocationEngineInput
  unfolding work_dir with_cached_crls
  revocation_input w input val_res r =
      let dir = work_dir input in
      record {
        certificate_der = val_res.tsa_certificate_der;
        issuer_certificate_der = r.tsa_issuer_certificate_der;
        role = CertificateRole.tsa;
        validation_time = r.validation_time;
        network_allowed = false;
        revocation_hard_fail = input.policy.revocation_hard_fail;
        crls_der = with_cached_crls w dir input.embedded_crls_der;
        embedded_ocsp_response = [];
        embedded_ocsp_responses_der = input.embedded_ocsp_responses_der;
        ocsp_url = resolve_ocsp_url w val_res.tsa_certificate_der r.tsa_issuer_certificate_der dir;
      }

  -- The second attempt, with the network.
  unfoldable pub retry_online :
      World
      → TimestampEngineInput
      → TimestampValidationResult
      → RevocationEngineInput
      → RevocationEngineResult × World
  retry_online w input val_res first =
      let dir = work_dir input in
      let w' = if is_empty dir then w else download_crls w val_res.tsa_certificate_der dir in
      Revocation.validate revocation
        (record first { network_allowed = true; crls_der = with_cached_crls w' dir first.crls_der })
        w'

  -- Embedded and cached evidence first; the network only if that leaves the status open and the
  -- plan allows it.
  unfoldable pub check_revocation :
      World
      → TimestampEngineInput
      → TimestampValidationResult
      → TimestampEngineResult
      → RevocationEngineResult × World
  check_revocation w input val_res r =
      let asked = revocation_input w input val_res r in
      let (first, w') = Revocation.validate revocation asked w in
      if is_indeterminate first.overall_status && input.plan.network_allowed
      then retry_online w' input val_res asked
      else (first, w')

  unfoldable pub judge_token :
      World
      → TimestampEngineInput
      → TimestampValidationResult
      → TimestampEngineResult
      → TimestampEngineResult × World
  judge_token w input val_res r =
      let (rev, w') = check_revocation w input val_res r in (judge_revocation input rev r, w')

  -- All checks before that of revocation.
  unfoldable pub prepare :
      World → TimestampEngineInput → Step (TimestampValidationResult × TimestampEngineResult)
  prepare w input = do
    val_res ← find_token services input
    r₁ ← check_crypto val_res
    r₂ ← check_time services w val_res r₁
    (r₃, trust) ← check_trust services w input val_res r₂
    r₄ ← check_eku services val_res r₃
    r₅ ← check_issuer services input val_res trust r₄
    go (val_res, r₅)

  -- `TimestampEngine::Validate`.
  unfoldable pub validate : World → TimestampEngineInput → TimestampEngineResult × World
  validate w input = elim (prepare w input) [
    | stop r ↦ (r, w)
    | go (val_res, r) ↦ judge_token w input val_res r
  ]
