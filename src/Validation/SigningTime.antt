-- ===== src/Validation/SigningTime.antt =====
-- src/lib/core/validation/SigningTimeResolver.cpp: the moment at which a signature is judged.
pub mod Laws
use tamga.Prelude.{
  Bool, true, false, not, ◌&&◌, List, [], ◌∷◌, ◌++◌, Option, none, some, String, is_empty, concat,
  if◌then◌else◌,
}
use tamga.Prelude.Find.{find_if}
use tamga.Validation.Types.{
  SigningTimeSource, rfc3161_timestamp, claimed_signing_time, verification_time_fallback,
  SigningTimeConfidence, SigningTimeCandidate, SigningTimeResolution, default_resolution,
  ValidationContext, ValidationPolicy,
}

unfoldable pub is_rfc3161 : SigningTimeSource → Bool
is_rfc3161 rfc3161_timestamp = true
is_rfc3161 _ = false

unfoldable pub is_claimed : SigningTimeSource → Bool
is_claimed claimed_signing_time = true
is_claimed _ = false

unfoldable pub with_evidence_id : String → String → String
with_evidence_id code evidence_id =
    if is_empty evidence_id then code else concat code (concat ":" evidence_id)

unfoldable pub apply_trusted_time_requirement :
    SigningTimeResolution → ValidationPolicy → SigningTimeResolution
apply_trusted_time_requirement r policy =
    if policy.require_trusted_signing_time && not r.trusted_time
    then record r { limitations = r.limitations ++ ("trusted-signing-time-required" ∷ []) }
    else r

-- `v.push_back(x)` under a test.
abbrev pub push_if : Bool → String → List String → List String
push_if test x v = if test then v ++ (x ∷ []) else v

-- The body of the loop of `CollectSkippedRfc3161Diagnostics`, for an RFC 3161 candidate.
unfoldable pub skipped_diagnostics :
    SigningTimeCandidate → SigningTimeResolution → SigningTimeResolution
unfolding with_evidence_id
skipped_diagnostics c r =
    let id = c.evidence_id in
    let unproven = with_evidence_id "rfc3161-timestamp-not-cryptographically-valid" id in
    let untrusted = with_evidence_id "rfc3161-timestamp-not-trusted" id in
    let untimed = with_evidence_id "rfc3161-timestamp-time-unavailable" id in
    record r {
      warnings = push_if (not c.cryptographically_valid) unproven r.warnings ++ c.warnings;
      limitations =
          push_if (is_empty c.time) untimed (push_if (not c.trusted) untrusted r.limitations);
    }

unfoldable pub collect_skipped_rfc3161_diagnostics :
    List SigningTimeCandidate → SigningTimeResolution → SigningTimeResolution
unfolding skipped_diagnostics is_rfc3161
collect_skipped_rfc3161_diagnostics [] r = r
collect_skipped_rfc3161_diagnostics (c ∷ cs) r =
    collect_skipped_rfc3161_diagnostics cs
      (if is_rfc3161 c.source then skipped_diagnostics c r else r)

unfoldable pub is_trusted_timestamp : SigningTimeCandidate → Bool
unfolding is_rfc3161
is_trusted_timestamp c =
    is_rfc3161 c.source && c.cryptographically_valid && c.trusted && not (is_empty c.time)

unfoldable pub is_claimed_time : SigningTimeCandidate → Bool
unfolding is_claimed
is_claimed_time c = is_claimed c.source && not (is_empty c.time)

-- The branch of a trusted timestamp.
unfoldable pub from_timestamp : SigningTimeCandidate → SigningTimeResolution
from_timestamp c = record default_resolution {
  signature_evaluation_time = c.time;
  source = rfc3161_timestamp;
  confidence = SigningTimeConfidence.trusted;
  evidence_id = c.evidence_id;
  warnings = c.warnings;
  trusted_time = true;
}

-- The branch of a claimed signing time.
unfoldable pub from_claimed :
    SigningTimeCandidate → SigningTimeResolution → ValidationPolicy → SigningTimeResolution
unfolding apply_trusted_time_requirement
from_claimed c r policy =
    apply_trusted_time_requirement
      (record r {
        signature_evaluation_time = c.time;
        source = claimed_signing_time;
        confidence = SigningTimeConfidence.claimed;
        evidence_id = c.evidence_id;
        trusted_time = false;
        warnings =
            push_if (not c.cryptographically_valid)
              "claimed-signing-time-not-cryptographically-proven" (r.warnings ++ c.warnings);
      })
      policy

-- The last two branches: the verification time, or none at all.
unfoldable pub from_verification :
    ValidationContext → SigningTimeResolution → ValidationPolicy → SigningTimeResolution
unfolding apply_trusted_time_requirement
from_verification context r policy =
    if not (is_empty context.verification_time)
    then apply_trusted_time_requirement
        (record r {
          signature_evaluation_time = context.verification_time;
          source = verification_time_fallback;
          confidence = SigningTimeConfidence.fallback;
          trusted_time = false;
          warnings = r.warnings ++ ("verification-time-fallback-used" ∷ []);
          limitations = r.limitations ++ ("signing-time-derived-from-verification-time" ∷ []);
        })
        policy
    else apply_trusted_time_requirement
        (record r { limitations = r.limitations ++ ("signing-time-unavailable" ∷ []) }) policy

-- `SigningTimeResolver::Resolve`.
unfoldable pub resolve :
    List SigningTimeCandidate → ValidationContext → ValidationPolicy → SigningTimeResolution
unfolding from_timestamp from_claimed from_verification
resolve candidates context policy = elim (find_if is_trusted_timestamp candidates) [
  | some c ↦ from_timestamp c
  | none ↦
      let r = collect_skipped_rfc3161_diagnostics candidates default_resolution in
      elim (find_if is_claimed_time candidates) [
        | some c ↦ from_claimed c r policy
        | none ↦ from_verification context r policy
      ]
]
