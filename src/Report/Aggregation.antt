-- ===== src/Report/Aggregation.antt =====
-- The trust of every signer of a document: `RunFormatTrustValidationOn`,
-- `ApplyPerSignerTrustValidation` and `ApplyPerSignerTrustAggregation` of
-- src/lib/core/session/SessionStateAndNormalization.ipp, in a build with the cryptographic library.
pub mod Laws
pub mod Signers
use tamga.Prelude.{
  ℕ, suc, Bool, true, false, not, ◌&&◌, ◌||◌, List, [], ◌∷◌, Option, none, some, Bytes, String,
  is_empty, str_eq, get_or, if◌then◌else◌,
}
use tamga.Validation.Types.{ValidationContext, ValidationLevel, ValidationProfile}
use tamga.Validation.Path.{is_nil}
use tamga.Validation.Engine.{EngineServices}
use tamga.Validation.Engine.Run.{validate}
use tamga.Report.Types.{SignatureEntry, default_signature_entry, VerifyReport, default_report}
use tamga.Report.Summary.{is_confirmed}
use tamga.Report.Projection.{CertificateMetadata, apply_validation_engine_report}

-- The fields of `Settings` that are read here.
pub record Settings : Type 0 where
  pub work_dir : String
  pub offline_mode : Bool
  pub trust_mode : String
  pub validation_level : String

unfoldable pub profile_of : String → ValidationProfile
profile_of trust_mode =
    if str_eq trust_mode "strict"
    then ValidationProfile.strict
    else if str_eq trust_mode "ukraine-legal"
    then ValidationProfile.ukraine_legal
    else if str_eq trust_mode "offline"
    then ValidationProfile.offline
    else if str_eq trust_mode "forensic"
    then ValidationProfile.forensic
    else ValidationProfile.compatibility

unfoldable pub level_of : String → ValidationLevel
level_of validation_level =
    if str_eq validation_level "basic"
    then ValidationLevel.basic
    else if str_eq validation_level "extended"
    then ValidationLevel.extended
    else if str_eq validation_level "forensic"
    then ValidationLevel.forensic
    else ValidationLevel.standard

-- What a signature brings along for its validation.
pub record SignerEvidence : Type 0 where
  pub signer_certificate_der : Bytes
  pub cms_der : Bytes
  pub embedded_certificates_der : List Bytes
  pub embedded_revocation_ocsp_der : List Bytes
  pub embedded_revocation_crl_der : List Bytes

unfoldable pub context_of : Settings → SignerEvidence → Bool → ValidationContext
unfolding profile_of level_of
context_of settings evidence signature_crypto_valid = record {
  profile = profile_of settings.trust_mode;
  level = level_of settings.validation_level;
  verification_time = "";
  offline = settings.offline_mode;
  work_dir = settings.work_dir;
  cms_der = evidence.cms_der;
  claimed_signing_time = "";
  embedded_revocation_ocsp_der = evidence.embedded_revocation_ocsp_der;
  embedded_revocation_crl_der = evidence.embedded_revocation_crl_der;
  ocsp_url = "";
  signature_crypto_valid = signature_crypto_valid;
}

module _ {ℓ} {World : Type ℓ} (services : EngineServices World) (sha256_hex : Bytes → String)
    (extract_certificate_metadata : Bytes → Option CertificateMetadata) where
  unfoldable pub run_format_trust_validation_on :
      World → Settings → SignerEvidence → Bool → VerifyReport → VerifyReport × World
  unfolding context_of
  run_format_trust_validation_on w settings evidence signature_crypto_valid report =
      if is_nil evidence.signer_certificate_der
      then (report, w)
      else let (ve_report, w') =
          validate services w (context_of settings evidence signature_crypto_valid)
            evidence.signer_certificate_der evidence.embedded_certificates_der in
        (
          apply_validation_engine_report sha256_hex extract_certificate_metadata ve_report report,
          w',
        )

  -- The evidence has no CMS here.
  unfoldable pub apply_per_signer_trust_validation :
      World → Settings → SignerEvidence → SignatureEntry → SignatureEntry × World
  unfolding run_format_trust_validation_on
  apply_per_signer_trust_validation w settings evidence entry =
      let (temp, w') =
        run_format_trust_validation_on w settings (record evidence { cms_der = [] })
          entry.signature_valid default_report in
      (
        record entry {
          certificate_time_valid = temp.certificate_time_valid;
          validation_time_source = temp.validation_time_source;
          chain_checked = temp.chain_checked;
          chain_valid = temp.chain_valid;
          chain_debug = temp.chain_debug;
          trust_checked = temp.trust_checked;
          trust_valid = temp.trust_valid;
          trust_status = temp.trust_status;
          trust_mode = temp.trust_mode;
          trust_reason = temp.trust_reason;
          historical_trust_used = temp.historical_trust_used;
          historical_anchor_subject = temp.historical_anchor_subject;
          historical_anchor_serial = temp.historical_anchor_serial;
          revocation_checked = temp.revocation_checked;
          ocsp_checked = temp.ocsp_checked;
          revocation_status = temp.revocation_status;
          error_code = temp.error_code;
          message = temp.message;
        },
        w',
      )

-- The first entry that fails the test, by its index.
unfoldable pub first_failing : (SignatureEntry → Bool) → List SignatureEntry → ℕ → Option ℕ
first_failing test [] i = none
first_failing test (e ∷ entries) i =
    let rest = first_failing test entries (suc i) in if not (test e) then some i else rest

abbrev pub or_else : Option ℕ → Option ℕ → ℕ
or_else none none = 0
or_else none (some j) = j
or_else (some i) other = i

unfoldable pub representative : List SignatureEntry → ℕ
unfolding first_failing
representative entries =
    or_else (first_failing (λ e. e.trust_valid) entries 0)
      (first_failing (λ e. is_confirmed e.revocation_status) entries 0)

-- `all = all && e.flag` over the loop.
unfoldable pub all_of : (SignatureEntry → Bool) → List SignatureEntry → Bool
all_of flag [] = true
all_of flag (e ∷ entries) = flag e && all_of flag entries

unfoldable pub apply_per_signer_trust_aggregation : VerifyReport → VerifyReport
unfolding representative all_of
apply_per_signer_trust_aggregation report =
    let entries = report.signatures in
    if is_nil entries
    then report
    else let rep = get_or entries (representative entries) default_signature_entry in
      record report {
        trust_checked = all_of (λ e. e.trust_checked) entries;
        trust_valid = all_of (λ e. e.trust_valid) entries;
        chain_checked = all_of (λ e. e.chain_checked) entries;
        chain_valid = all_of (λ e. e.chain_valid) entries;
        certificate_time_valid = all_of (λ e. e.certificate_time_valid) entries;
        revocation_checked = all_of (λ e. e.revocation_checked) entries;
        ocsp_checked = all_of (λ e. e.ocsp_checked) entries;
        validation_time_source = rep.validation_time_source;
        trust_status = rep.trust_status;
        trust_mode = rep.trust_mode;
        trust_reason = rep.trust_reason;
        historical_trust_used = rep.historical_trust_used;
        historical_anchor_subject = rep.historical_anchor_subject;
        historical_anchor_serial = rep.historical_anchor_serial;
        revocation_status = rep.revocation_status;
        chain_debug = rep.chain_debug;
        error_code = rep.error_code;
        message = if not (is_empty rep.message) then rep.message else report.message;
      }
