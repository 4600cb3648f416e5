-- ===== src/Validation/Decision.antt =====
-- `SynthesizeDecision` of src/lib/core/validation/ValidationEngine.cpp. The early returns are the
-- branches of `synthesize_decision`, in the order of the code.
pub mod Verdict
pub mod Flags
use text.Mathlib.Text.{find?}
use tamga.Prelude.{
  Bool, true, false, not, ◌&&◌, ◌||◌, List, [], ◌∷◌, ◌++◌, Option, none, some, String, is_empty,
  concat, str_eq, if◌then◌else◌,
}
use tamga.Validation.Types.{
  ChainStatus, OverallStatus, ValidationLevel, ValidationProfile, strict, ValidationPolicy,
  ValidationContext, ValidationDecision, default_decision, SigningTimeResolution,
  TrustServiceDecision, TimestampEngineResult, is_revoked, is_long_term_validation_valid,
}
use tamga.Validation.Path.{PathSelection, PathValidationResult}
use tamga.Validation.Revocation.{RevocationEngineResult}

abbrev pub is_basic : ValidationLevel → Bool
is_basic ValidationLevel.basic = true
is_basic _ = false

-- `level >= ValidationLevel::Extended`, on the underlying numbers.
abbrev pub is_at_least_extended : ValidationLevel → Bool
is_at_least_extended ValidationLevel.extended = true
is_at_least_extended ValidationLevel.forensic = true
is_at_least_extended ValidationLevel.unlisted_above = true
is_at_least_extended _ = false

abbrev pub is_strict : ValidationProfile → Bool
is_strict strict = true
is_strict _ = false

abbrev pub is_invalid : OverallStatus → Bool
is_invalid OverallStatus.invalid = true
is_invalid _ = false

abbrev pub is_indeterminate : OverallStatus → Bool
is_indeterminate OverallStatus.indeterminate = true
is_indeterminate _ = false

abbrev pub is_some {ℓ} : {A : Type ℓ} → Option A → Bool
is_some none = false
is_some (some a) = true

-- `text.find(piece) != npos`.
abbrev pub contains_text : String → String → Bool
contains_text text piece = is_some (find? text piece)

-- The arguments of `SynthesizeDecision`.
pub record Findings : Type 0 where
  pub signature_crypto_valid : Bool
  pub path_selection : PathSelection
  pub path_results : List PathValidationResult
  pub trust_service : TrustServiceDecision
  pub signer_revocation : RevocationEngineResult
  pub timestamp : TimestampEngineResult
  pub timestamp_attempted : Bool
  pub signing_time : SigningTimeResolution
  pub policy : ValidationPolicy
  pub context : ValidationContext

unfoldable pub path_trusted : Findings → Bool
path_trusted f = is_some f.path_selection.selected_index && f.path_selection.selected_result.trusted

unfoldable pub uses_historical : Findings → Bool
uses_historical f = path_trusted f && f.path_selection.selected_result.uses_historical_trust

-- `decision.trust_valid`.
unfoldable pub is_trust_valid : Findings → Bool
is_trust_valid f =
    path_trusted f && (not f.policy.require_service_level_trust || f.trust_service.service_trusted)

-- The search of the loop over `path_results`.
unfoldable pub has_historical_trust_match : List PathValidationResult → Bool
has_historical_trust_match [] = false
has_historical_trust_match (r ∷ rs) =
    (str_eq r.candidate_id "historical-tl" && r.trusted) || has_historical_trust_match rs

-- `trust_status` and `trust_reason` by the status of the selected path.
unfoldable pub explain_status : ChainStatus → String → String × String
explain_status ChainStatus.incomplete message =
    ("certificate-chain-incomplete", "legacy-anchor-not-in-current-tl")
explain_status ChainStatus.expired message = ("certificate-chain-time-invalid", "expired-chain")
explain_status ChainStatus.invalid_signature message =
    ("certificate-chain-invalid", "invalid-chain-signature")
explain_status ChainStatus.untrusted message =
    if contains_text message "empty"
    then ("trust-store-empty", "legacy-anchor-not-in-current-tl")
    else ("untrusted-chain", "current-tl-anchor-mismatch")
explain_status _ message = ("untrusted-chain", "no-trusted-path")

unfoldable pub explain_trust : Findings → String × String
explain_trust f =
    let selected = f.path_selection.selected_result in
    if is_trust_valid f
    then (
      "trusted-anchor-validated",
      (if uses_historical f
          then concat "historical-tl-anchor: " selected.trust_anchor_source
          else "current-tl-anchor"),
    )
    else if has_historical_trust_match f.path_results
    then ("legacy-anchor-not-in-current-tl", "legacy-anchor-not-in-current-tl")
    else explain_status selected.status selected.message

-- What is known before the first test.
unfoldable pub opening : Findings → ValidationDecision
opening f = record default_decision {
  signature_valid = f.signature_crypto_valid;
  trusted_signing_time =
      if f.signing_time.trusted_time then f.signing_time.signature_evaluation_time else "";
  signature_evaluation_time = f.signing_time.signature_evaluation_time;
}

unfoldable pub refuse :
    OverallStatus → String → List String → ValidationDecision → ValidationDecision
refuse status summary because d = record d {
  overall_status = status;
  summary = summary;
  because = d.because ++ because;
}

abbrev pub crypto_failure : List String
crypto_failure = "Криптографічна перевірка підпису не пройшла." ∷ []

-- The two branches of the level `Basic`.
unfoldable pub decide_basic : Findings → ValidationDecision
decide_basic f =
    let d = record (opening f) { level_reached = ValidationLevel.basic } in
    if not f.signature_crypto_valid
    then refuse OverallStatus.invalid "invalid" crypto_failure d
    else refuse OverallStatus.integrity_only "integrity-only"
        ("Рівень Basic: перевірена лише цілісність підпису." ∷ []) d

-- The decision with its trust fields filled in.
unfoldable pub with_trust : Findings → ValidationDecision
with_trust f = record (opening f) {
  trust_valid = is_trust_valid f;
  trust_status = (explain_trust f).0;
  trust_reason = (explain_trust f).1;
}

-- A `Strict` profile without a trusted chain.
unfoldable pub refuse_untrusted : Findings → ValidationDecision → ValidationDecision
unfolding refuse
refuse_untrusted f d =
    let message = f.path_selection.selected_result.message in
    record (refuse OverallStatus.indeterminate "indeterminate"
      ("Ланцюжок довіри не вдалося вибудувати до поточного кореня (Strict-профіль)." ∷ []) d) {
        limitations =
            (d.limitations ++ ((if is_empty message then "no-trusted-path" else message) ∷ []))
            ++ f.signing_time.limitations;
        warnings = d.warnings ++ f.signing_time.warnings;
      }

-- A hard failure of the revocation check.
unfoldable pub refuse_revocation : Findings → ValidationDecision → ValidationDecision
unfolding refuse
refuse_revocation f d =
    record (refuse OverallStatus.indeterminate "indeterminate"
      ("Статус відкликання сертифіката не встановлено (hard-fail)." ∷ f.signer_revocation.because)
      d) {
        warnings = (d.warnings ++ f.signer_revocation.warnings) ++ f.signing_time.warnings;
        limitations =
            (d.limitations ++ f.signer_revocation.limitations) ++ f.signing_time.limitations;
      }

-- A required timestamp that is not valid.
unfoldable pub refuse_timestamp : Findings → ValidationDecision → ValidationDecision
unfolding refuse
refuse_timestamp f d =
    record (refuse OverallStatus.indeterminate "indeterminate"
      ("Мітка часу RFC3161 не пройшла перевірку, але вимагається довірений час підпису."
        ∷ f.timestamp.because)
      d) {
        warnings = d.warnings ++ f.timestamp.warnings;
        limitations = d.limitations ++ f.timestamp.limitations;
      }

-- What is noted of the signing time, the level, qualification and long-term validity.
unfoldable pub with_levels : Findings → ValidationDecision → ValidationDecision
with_levels f d =
    let trusted_time = f.signing_time.trusted_time in
    let timed = not (is_empty f.signing_time.signature_evaluation_time) in
    record d {
      because =
          if trusted_time
          then d.because ++ ("Довірений час підпису підтверджено RFC3161 міткою." ∷ [])
          else d.because;
      warnings =
          if not trusted_time && timed
          then d.warnings
            ++ ("Час підпису не підтверджено криптографічно — використано fallback/claimed." ∷ [])
          else d.warnings;
      level_reached =
          if is_at_least_extended f.context.level && d.trust_valid
          then ValidationLevel.extended
          else ValidationLevel.standard;
      qualified_valid = d.trust_valid && trusted_time;
      ltv_valid =
          is_long_term_validation_valid d.trust_valid f.signer_revocation.revocation_status
            f.timestamp_attempted f.timestamp.valid;
    }

unfoldable pub conclude : Findings → ValidationDecision → ValidationDecision
conclude f d =
    if d.trust_valid
    then record d {
      overall_status = OverallStatus.valid;
      summary = if uses_historical f then "valid-historical-trust" else "valid";
      because =
          d.because
          ++ ((if uses_historical f
                then "Ланцюжок довіри вибудований через архівний список довіри (historical-tl)."
                else "Ланцюжок довіри вибудований через поточний список довіри.")
              ∷ []);
      warnings =
          if uses_historical f then d.warnings ++ ("historical-trust-used" ∷ []) else d.warnings;
    }
    else record d {
      overall_status = OverallStatus.indeterminate;
      summary = "indeterminate";
      because = d.because ++ ("Не вдалося встановити довіру до ланцюжка сертифікатів." ∷ []);
    }

-- The lists appended at the end.
unfoldable pub with_details : Findings → ValidationDecision → ValidationDecision
with_details f d = record d {
  because = d.because ++ f.signer_revocation.because;
  warnings =
      ((d.warnings ++ f.signer_revocation.warnings) ++ f.signing_time.warnings)
      ++ (if f.timestamp_attempted then f.timestamp.warnings else []);
  limitations =
      ((d.limitations ++ f.signer_revocation.limitations) ++ f.signing_time.limitations)
      ++ (if f.timestamp_attempted then f.timestamp.limitations else []);
}

-- The tests of the early returns.
unfoldable pub is_revocation_refusal : Findings → Bool
is_revocation_refusal f =
    is_revoked f.signer_revocation.revocation_status
    && is_invalid f.signer_revocation.overall_status

unfoldable pub decide_trusted_or_not : Findings → ValidationDecision → ValidationDecision
decide_trusted_or_not f d =
    if not d.trust_valid && is_strict f.context.profile
    then refuse_untrusted f d
    else if is_indeterminate f.signer_revocation.overall_status && f.policy.revocation_hard_fail
    then refuse_revocation f d
    else if f.timestamp_attempted && not f.timestamp.valid && f.policy.require_trusted_signing_time
    then refuse_timestamp f d
    else with_details f (conclude f (with_levels f d))

-- `SynthesizeDecision`.
unfoldable pub synthesize_decision : Findings → ValidationDecision
synthesize_decision f =
    if is_basic f.context.level
    then decide_basic f
    else if not f.signature_crypto_valid
    then refuse OverallStatus.invalid "invalid" crypto_failure (opening f)
    else if is_revocation_refusal f
    then refuse OverallStatus.invalid "invalid"
        ("Сертифікат підписанта відкликано." ∷ f.signer_revocation.because) (opening f)
    else decide_trusted_or_not f (with_trust f)
