-- ===== src/Validation/Decision/Verdict.antt =====
-- What each verdict means.
use tamga.Prelude.{true, false, not, ◌&&◌, ◌≡◌, ◌≢◌, ◌↔◌, ◌⊎◌, refl, arith, if◌then◌else◌}
use tamga.Validation.Types.{OverallStatus, ValidationLevel, ValidationDecision}
use tamga.Validation.Decision.{
  Findings, synthesize_decision, decide_basic, decide_trusted_or_not, is_revocation_refusal,
  with_trust, is_trust_valid, is_basic, is_strict, is_indeterminate, refuse, refuse_untrusted,
  refuse_revocation, refuse_timestamp, with_levels, conclude, with_details,
}

-- The verdict as a table of the tests, in the order of the code.
abbrev status_of : Findings → OverallStatus
status_of f =
    if is_basic f.context.level
    then (if f.signature_crypto_valid then OverallStatus.integrity_only else OverallStatus.invalid)
    else if not f.signature_crypto_valid
    then OverallStatus.invalid
    else if is_revocation_refusal f
    then OverallStatus.invalid
    else if not (is_trust_valid f) && is_strict f.context.profile
    then OverallStatus.indeterminate
    else if is_indeterminate f.signer_revocation.overall_status && f.policy.revocation_hard_fail
    then OverallStatus.indeterminate
    else if f.timestamp_attempted && not f.timestamp.valid && f.policy.require_trusted_signing_time
    then OverallStatus.indeterminate
    else if is_trust_valid f
    then OverallStatus.valid
    else OverallStatus.indeterminate

decide_basic_status :
    (f : Findings)
    → (decide_basic f).overall_status
      ≡ (if f.signature_crypto_valid then OverallStatus.integrity_only else OverallStatus.invalid)
unfolding decide_basic refuse
decide_basic_status f = ground arith

conclude_status :
    (f : Findings) (d : ValidationDecision)
    → (with_details f (conclude f (with_levels f d))).overall_status
      ≡ (if d.trust_valid then OverallStatus.valid else OverallStatus.indeterminate)
unfolding conclude with_levels with_details
conclude_status f d = ground arith

decide_trusted_or_not_status :
    (f : Findings) (d : ValidationDecision)
    → (decide_trusted_or_not f d).overall_status ≡ (
        if not d.trust_valid && is_strict f.context.profile
        then OverallStatus.indeterminate
        else if is_indeterminate f.signer_revocation.overall_status && f.policy.revocation_hard_fail
        then OverallStatus.indeterminate
        else if f.timestamp_attempted
            && not f.timestamp.valid
            && f.policy.require_trusted_signing_time
        then OverallStatus.indeterminate
        else if d.trust_valid
        then OverallStatus.valid
        else OverallStatus.indeterminate)
unfolding decide_trusted_or_not refuse_untrusted refuse_revocation refuse_timestamp refuse
decide_trusted_or_not_status f d = ground (arith, conclude_status f d)

with_trust_valid : (f : Findings) → (with_trust f).trust_valid ≡ is_trust_valid f
unfolding with_trust
with_trust_valid f = refl

synthesize_decision_status : (f : Findings) → (synthesize_decision f).overall_status ≡ status_of f
unfolding synthesize_decision refuse
synthesize_decision_status f = ground (
  arith,
  decide_basic_status f,
  decide_trusted_or_not_status f (with_trust f),
  with_trust_valid f,
)

-- A signature is declared valid exactly if the level is above `Basic`, the cryptographic check
-- succeeded, the certificate was not revoked by the moment of judgement, the trust path is trusted
-- (and the service too where the policy requires it), no hard-failing revocation check stayed
-- open, and no required timestamp failed.
pub synthesize_decision-valid :
    (f : Findings)
    → ((synthesize_decision f).overall_status ≡ OverallStatus.valid) ↔ (
        (f.context.level ≢ ValidationLevel.basic)
        × (f.signature_crypto_valid ≡ true)
        × (is_revocation_refusal f ≡ false)
        × (is_trust_valid f ≡ true)
        × ((is_indeterminate f.signer_revocation.overall_status && f.policy.revocation_hard_fail)
            ≡ false)
        × ((f.timestamp_attempted && not f.timestamp.valid && f.policy.require_trusted_signing_time)
            ≡ false))
synthesize_decision-valid f = ground (arith, synthesize_decision_status f)

-- A signature is declared invalid exactly if the cryptographic check failed or, above the level
-- `Basic`, the certificate was revoked by the moment of judgement. Nothing else is held against it.
pub synthesize_decision-invalid :
    (f : Findings)
    → ((synthesize_decision f).overall_status ≡ OverallStatus.invalid) ↔ (
        (f.signature_crypto_valid ≡ false)
        ⊎ ((f.context.level ≢ ValidationLevel.basic) × (is_revocation_refusal f ≡ true)))
synthesize_decision-invalid f = ground (arith, synthesize_decision_status f)

-- Integrity alone is confirmed exactly at the level `Basic`, for a signature whose cryptographic
-- check succeeded.
pub synthesize_decision-integrity_only :
    (f : Findings)
    → ((synthesize_decision f).overall_status ≡ OverallStatus.integrity_only)
      ↔ ((f.context.level ≡ ValidationLevel.basic) × (f.signature_crypto_valid ≡ true))
synthesize_decision-integrity_only f = ground (arith, synthesize_decision_status f)
