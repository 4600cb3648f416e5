-- ===== src/Report/Projection/Laws.antt =====
-- The verdict of the engine in the report of the verification, and in its summary check.
use tamga.Prelude.{
  Bool, true, false, not, ◌&&◌, ◌||◌, Option, Bytes, String, str_eq, ◌≡◌, refl, sym, ap, ◌∙◌, both,
  arith, Bool-cases, inl, inr,
}
use tamga.Validation.Types.{RevocationStatus, ValidationDecision, is_revoked, is_good}
use tamga.Validation.Decision.{is_some}
use tamga.Validation.Timestamp.Engine.{is_valid}
use tamga.Validation.Revocation.{RevocationEngineResult}
use tamga.Validation.Engine.{ValidationReport}
use tamga.Report.Types.{VerifyReport}
use tamga.Report.Checks.{summary_check}
use tamga.Report.Summary.{is_confirmed}
use tamga.Report.Verdict.{acceptable_texts, valid_clean, summary_check-revoked}
use tamga.Report.Commit.{apply_timestamp_details_verdict}
use tamga.Report.Projection.{
  CertificateMetadata, is_invalid_status, canonical_revocation_status_string, project_path,
  project_revocation, project_error, project_timestamp, project_verify_report,
  apply_validation_engine_report,
}

-- The revocation takes the trust that the decision gave.
abbrev pub defeats_trust : RevocationEngineResult → Bool
defeats_trust revocation =
    not (is_valid revocation.overall_status)
    && (is_invalid_status revocation.revocation_status || is_revoked revocation.revocation_status)

-- The fields that a later step of the projection leaves alone.
abbrev Keeps : VerifyReport → VerifyReport → Type 0
Keeps a b =
    (a.trust_checked ≡ b.trust_checked)
    × (a.trust_valid ≡ b.trust_valid)
    × (a.revocation_checked ≡ b.revocation_checked)
    × (a.revocation_status ≡ b.revocation_status)
    × (a.historical_trust_used ≡ b.historical_trust_used)

project_error-Keeps :
    (decision : ValidationDecision) (report : VerifyReport)
    → Keeps (project_error decision report) report
unfolding project_error
project_error-Keeps decision report = ground arith

apply_timestamp_details_verdict-Keeps :
    (report : VerifyReport) → Keeps (apply_timestamp_details_verdict report) report
unfolding apply_timestamp_details_verdict
apply_timestamp_details_verdict-Keeps report = ground arith

project_revocation_trust :
    (revocation : RevocationEngineResult) (report : VerifyReport)
    → (project_revocation revocation report).trust_valid
      ≡ (report.trust_valid && not (defeats_trust revocation))
unfolding project_revocation
project_revocation_trust revocation report = ground arith

project_revocation_rest :
    (revocation : RevocationEngineResult) (report : VerifyReport)
    → let after = project_revocation revocation report in
      (after.trust_checked ≡ report.trust_checked)
      × (after.revocation_checked ≡ report.revocation_checked)
      × (after.revocation_status ≡ report.revocation_status)
      × (after.historical_trust_used ≡ report.historical_trust_used)
unfolding project_revocation
project_revocation_rest revocation report = ground arith

canonical_revocation_status_string-revoked :
    (status : RevocationStatus)
    → status ≡ RevocationStatus.revoked
    → str_eq (canonical_revocation_status_string status) "revoked" ≡ true
unfolding canonical_revocation_status_string
canonical_revocation_status_string-revoked status h = rw h refl

is_good-good : (status : RevocationStatus) → is_good status ≡ true → status ≡ RevocationStatus.good
is_good-good status h = ground arith

canonical_revocation_status_string-good :
    (status : RevocationStatus)
    → is_confirmed (canonical_revocation_status_string status) ≡ is_good status
unfolding canonical_revocation_status_string is_confirmed
canonical_revocation_status_string-good RevocationStatus.not_checked = refl
canonical_revocation_status_string-good RevocationStatus.good = refl
canonical_revocation_status_string-good RevocationStatus.revoked = refl
canonical_revocation_status_string-good RevocationStatus.unknown = refl
canonical_revocation_status_string-good RevocationStatus.stale = refl
canonical_revocation_status_string-good RevocationStatus.invalid = refl
canonical_revocation_status_string-good RevocationStatus.responder_unavailable = refl

module _ (sha256_hex : Bytes → String)
    (extract_certificate_metadata : Bytes → Option CertificateMetadata)
    (ve_report : ValidationReport) where
  abbrev revocation : RevocationEngineResult
  revocation = ve_report.signer_revocation

  abbrev projected : VerifyReport
  projected = project_verify_report sha256_hex extract_certificate_metadata ve_report

  abbrev merged : VerifyReport → VerifyReport
  merged = apply_validation_engine_report sha256_hex extract_certificate_metadata ve_report

  project_timestamp-Keeps :
      (report : VerifyReport)
      → Keeps (project_timestamp sha256_hex extract_certificate_metadata ve_report report) report
  unfolding project_timestamp
  project_timestamp-Keeps report = elim (Bool-cases ve_report.timestamp_attempted) [
    | inl tried ↦ rw tried (apply_timestamp_details_verdict-Keeps _)
    | inr untried ↦ rw untried (refl, refl, refl, refl, refl)
  ]

  merged-Keeps :
      (report : VerifyReport)
      → Keeps (merged report) (project_revocation revocation (project_path ve_report))
  unfolding apply_validation_engine_report project_verify_report
  merged-Keeps report =
      let before = project_revocation revocation (project_path ve_report) in
      let timed = project_timestamp sha256_hex extract_certificate_metadata ve_report before in
      ground (arith, project_error-Keeps ve_report.decision timed, project_timestamp-Keeps before)

  -- The merged report keeps the trust that the engine decided unless the revocation defeats it: an
  -- invalid check, or a revocation that the engine does not find valid at the evaluation time.
  pub apply_validation_engine_report-trust_valid :
      (report : VerifyReport)
      → (merged report).trust_valid
        ≡ (ve_report.decision.trust_valid && not (defeats_trust revocation))
  unfolding project_path
  apply_validation_engine_report-trust_valid report =
      ground
        (arith, merged-Keeps report, project_revocation_trust revocation (project_path ve_report))

  merged_status :
      (report : VerifyReport)
      → (merged report).revocation_status
        ≡ canonical_revocation_status_string ve_report.signer_revocation.revocation_status
  unfolding project_path
  merged_status report =
      let (_, _, _, same, _) = merged-Keeps report in
      let (_, _, before, _) = project_revocation_rest revocation (project_path ve_report) in
      same ∙ before

  pub merged_checked :
      (report : VerifyReport)
      → (merged report).revocation_checked ≡ (revocation.ocsp_attempted || revocation.crl_attempted)
  unfolding project_path
  merged_checked report =
      let (_, _, same, _, _) = merged-Keeps report in
      let (_, before, _, _) = project_revocation_rest revocation (project_path ve_report) in
      same ∙ before

  -- Only the status good is confirmed.
  pub merged_good :
      (report : VerifyReport)
      → is_confirmed (merged report).revocation_status ≡ true
      → revocation.revocation_status ≡ RevocationStatus.good
  merged_good report confirmed =
      let status = revocation.revocation_status in
      is_good-good status (
        sym (canonical_revocation_status_string-good status)
        ∙ ap is_confirmed (sym (merged_status report))
        ∙ confirmed)

  merged_done :
      (report : VerifyReport) → report.has_result ≡ true → (merged report).has_result ≡ true
  unfolding apply_validation_engine_report
  merged_done report done = done

  -- Once the engine knows of a revocation, the summary check of the merged report is `invalid`, even
  -- if the engine finds the signature valid because it is older than the revocation.
  pub apply_validation_engine_report-revoked :
      (report : VerifyReport)
      → report.has_result ≡ true
      → ve_report.signer_revocation.revocation_status ≡ RevocationStatus.revoked
      → (summary_check (merged report)).status ≡ "invalid"
  apply_validation_engine_report-revoked report done h =
      summary_check-revoked (merged report) (merged_done report done) (
        rw (merged_status report)
          (canonical_revocation_status_string-revoked revocation.revocation_status h))

  -- The path that counts was found, is trusted, and goes through historical anchors.
  abbrev pub is_historical_path : Bool
  is_historical_path =
      (is_some ve_report.path_selection.selected_index
        && ve_report.path_selection.selected_result.trusted)
      && ve_report.path_selection.selected_result.uses_historical_trust

  merged_historical :
      (report : VerifyReport) → (merged report).historical_trust_used ≡ is_historical_path
  unfolding project_path
  merged_historical report =
      let (_, _, _, _, same) = merged-Keeps report in
      let (_, _, _, before) = project_revocation_rest revocation (project_path ve_report) in
      same ∙ before

  -- A merged report that the summary check calls valid rests on the engine: its decision trusts the
  -- signer, the path that counts is not a trusted one through historical anchors, and it asked about
  -- the revocation and got the answer good.
  pub apply_validation_engine_report-valid :
      (report : VerifyReport)
      → (summary_check (merged report)).status ≡ "valid"
      → (ve_report.decision.trust_valid ≡ true)
        × (is_historical_path ≡ false)
        × (ve_report.signer_revocation.revocation_status ≡ RevocationStatus.good)
        × ((ve_report.signer_revocation.ocsp_attempted || ve_report.signer_revocation.crl_attempted)
            ≡ true)
  apply_validation_engine_report-valid report h =
      let (_, accepted, unwarned) = valid_clean (merged report) h in
      let (confirmed, _, _, _, trusted, asked, _) = acceptable_texts (merged report) accepted in
      (
        (both _ _ (sym (apply_validation_engine_report-trust_valid report) ∙ trusted)).0,
        sym (merged_historical report) ∙ unwarned.0,
        merged_good report confirmed,
        sym (merged_checked report) ∙ asked,
      )
