-- ===== src/Report/Aggregation/Signers.antt =====
-- Each signer of a document through `ApplyPerSignerTrustValidation`, and then the aggregation.
use tamga.Prelude.{
  true, false, ◌||◌, List, [], ◌∷◌, Option, map, Bytes, String, ◌≡◌, ◌≢◌, ◌∙◌, refl, sym, ap, subst,
  arith, Bool-cases, inl, inr, both,
}
use tamga.Prelude.Find.{All}
use tamga.Validation.Path.{is_nil}
use tamga.Validation.Types.{RevocationStatus, ValidationContext}
use tamga.Validation.Engine.{EngineServices, ValidationReport}
use tamga.Validation.Engine.Run.{validate}
use tamga.Validation.Engine.Backed.{HasChain, trusted-HasChain}
use tamga.Report.Types.{SignatureEntry, VerifyReport, default_report}
use tamga.Report.Checks.{summary_check}
use tamga.Report.Summary.{is_confirmed}
use tamga.Report.Projection.{CertificateMetadata, apply_validation_engine_report}
use tamga.Report.Projection.Laws.{
  apply_validation_engine_report-trust_valid, merged_good, merged_checked,
}
use tamga.Report.Aggregation.{
  Settings, SignerEvidence, context_of, run_format_trust_validation_on,
  apply_per_signer_trust_validation, apply_per_signer_trust_aggregation,
}
use tamga.Report.Aggregation.Laws.{IsTrusted, apply_per_signer_trust_aggregation-valid}

-- The arguments of one call, for one signer, and the state of the world that it meets.
pub record SignerCall {ℓ} (World : Type ℓ) : Type ℓ where
  pub world : World
  pub settings : Settings
  pub evidence : SignerEvidence
  pub entry : SignatureEntry

true-ne-false : true ≢ false
true-ne-false h = ground (arith, h)

module _ {ℓ} {World : Type ℓ} (services : EngineServices World) (sha256_hex : Bytes → String)
    (extract_certificate_metadata : Bytes → Option CertificateMetadata) where
  -- The entry that the call leaves.
  abbrev pub validated : SignerCall World → SignatureEntry
  validated call =
      (apply_per_signer_trust_validation services sha256_hex extract_certificate_metadata call.world
        call.settings call.evidence call.entry).0

  -- The engine's context for the signer: without a CMS container, and with the result of the
  -- cryptographic check of this signature.
  abbrev pub context : SignerCall World → ValidationContext
  context call =
      context_of call.settings (record call.evidence { cms_der = [] }) call.entry.signature_valid

  -- What the engine reports of the signer.
  abbrev pub ve_report : SignerCall World → ValidationReport
  ve_report call =
      (validate services call.world (context call) call.evidence.signer_certificate_der
        call.evidence.embedded_certificates_der).0

  -- The signer has a certificate, and the engine trusts it by a chain that was found for it, asked
  -- about its revocation and got the answer good.
  pub record IsEngineTrusted (call : SignerCall World) : Type ℓ where
    pub present : call.evidence.signer_certificate_der ≢ []
    pub trusted : (ve_report call).decision.trust_valid ≡ true
    pub chain :
        HasChain services call.world
          (context call)
          call.evidence.signer_certificate_der
          call.evidence.embedded_certificates_der
          (ve_report call)
    pub asked :
        ((ve_report call).signer_revocation.ocsp_attempted
          || (ve_report call).signer_revocation.crl_attempted)
        ≡ true
    pub good : (ve_report call).signer_revocation.revocation_status ≡ RevocationStatus.good

  -- The engine's report, merged into an empty one.
  abbrev merged : SignerCall World → VerifyReport
  merged call =
      apply_validation_engine_report sha256_hex extract_certificate_metadata (ve_report call)
        default_report

  validated_missing :
      (call : SignerCall World)
      → is_nil call.evidence.signer_certificate_der ≡ true
      → (validated call).trust_checked ≡ false
  unfolding apply_per_signer_trust_validation run_format_trust_validation_on
  validated_missing call missing =
      rw (missing, validated, apply_per_signer_trust_validation, run_format_trust_validation_on)
        refl

  validated-merged :
      (call : SignerCall World)
      → is_nil call.evidence.signer_certificate_der ≡ false
      → ((validated call).trust_valid ≡ (merged call).trust_valid)
        × ((validated call).revocation_checked ≡ (merged call).revocation_checked)
        × ((validated call).revocation_status ≡ (merged call).revocation_status)
  unfolding apply_per_signer_trust_validation run_format_trust_validation_on
  validated-merged call present =
      rw (present, validated, apply_per_signer_trust_validation, run_format_trust_validation_on)
        (refl, refl, refl)

  validated-IsEngineTrusted :
      (call : SignerCall World) → IsTrusted (validated call) → IsEngineTrusted call
  validated-IsEngineTrusted call t =
      elim (Bool-cases (is_nil call.evidence.signer_certificate_der)) [
        | inl missing ↦ absurd (true-ne-false (sym t.checked ∙ validated_missing call missing))
        | inr given ↦
            let (trust, checked, status) = validated-merged call given in
            let decided =
              sym (
                apply_validation_engine_report-trust_valid sha256_hex extract_certificate_metadata
                  (ve_report call) default_report)
              ∙ sym trust
              ∙ t.trusted in
            record {
              present = λ e. true-ne-false (sym (ap is_nil e) ∙ given);
              trusted = (both _ _ decided).0;
              chain =
                  trusted-HasChain services call.world (context call)
                    call.evidence.signer_certificate_der call.evidence.embedded_certificates_der
                    (both _ _ decided).0;
              asked =
                  sym (
                    merged_checked sha256_hex extract_certificate_metadata (ve_report call)
                      default_report)
                  ∙ sym checked
                  ∙ t.asked;
              good =
                  merged_good sha256_hex extract_certificate_metadata (ve_report call)
                    default_report (ap is_confirmed (sym status) ∙ t.confirmed);
            }
      ]

  All-IsEngineTrusted :
      (calls : List (SignerCall World))
      → All IsTrusted (map validated calls)
      → All IsEngineTrusted calls
  All-IsEngineTrusted [] h = tt
  All-IsEngineTrusted (call ∷ calls) h =
      (validated-IsEngineTrusted call h.0, All-IsEngineTrusted calls h.1)

  -- If the signatures of a document are what the calls for its signers left, then after the
  -- aggregation the summary check is `valid` only if each signer has a certificate that the engine
  -- trusts, by a trusted chain that the chain builder found for it, and whose revocation the engine
  -- asked about and found good.
  pub apply_per_signer_trust_aggregation-signers :
      (calls : List (SignerCall World)) (report : VerifyReport)
      → report.signatures ≡ map validated calls
      → (summary_check (apply_per_signer_trust_aggregation report)).status ≡ "valid"
      → All IsEngineTrusted calls
  apply_per_signer_trust_aggregation-signers calls report same h =
      All-IsEngineTrusted calls
        (subst (All IsTrusted) same (apply_per_signer_trust_aggregation-valid report h))
