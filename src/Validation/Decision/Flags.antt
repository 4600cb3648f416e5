-- ===== src/Validation/Decision/Flags.antt =====
-- How the other fields of a decision follow its verdict.
use tamga.Prelude.{List, ◌∷◌, Bool, true, false, ◌≡◌, ◌↔◌, refl, arith, String, if◌then◌else◌}
use tamga.Validation.Types.{
  OverallStatus, ValidationDecision, is_good, is_long_term_validation_valid,
}
use tamga.Validation.Decision.{
  Findings, synthesize_decision, decide_basic, decide_trusted_or_not, with_trust, uses_historical,
  refuse, refuse_untrusted, refuse_revocation, refuse_timestamp, with_levels, conclude,
  with_details, opening, crypto_failure,
}

-- `qualified_valid` and `ltv_valid` at the end of the code, where trust decides the verdict.
abbrev pub Follows : Findings → ValidationDecision → Type 0
Follows f d =
    ((d.qualified_valid ≡ true)
      ↔ ((d.overall_status ≡ OverallStatus.valid) × (f.signing_time.trusted_time ≡ true)))
    × ((d.ltv_valid ≡ true) ↔ (
        (d.overall_status ≡ OverallStatus.valid)
        × (is_good f.signer_revocation.revocation_status ≡ true)
        × (f.timestamp_attempted ≡ true)
        × (f.timestamp.valid ≡ true)))

-- The summary that goes with a status.
abbrev pub summary_of : OverallStatus → Bool → String
summary_of OverallStatus.valid historical = if historical then "valid-historical-trust" else "valid"
summary_of OverallStatus.integrity_only historical = "integrity-only"
summary_of OverallStatus.indeterminate historical = "indeterminate"
summary_of OverallStatus.invalid historical = "invalid"

abbrev pub Sums : Findings → ValidationDecision → Type 0
Sums f d = d.summary ≡ summary_of d.overall_status (uses_historical f)

-- A decision that has not passed the tests holds no claim.
abbrev IsModest : ValidationDecision → Type 0
IsModest d = (d.qualified_valid ≡ false) × (d.ltv_valid ≡ false)

finish-Follows :
    (f : Findings) (d : ValidationDecision)
    → Follows f (with_details f (conclude f (with_levels f d)))
unfolding conclude with_levels with_details is_long_term_validation_valid
finish-Follows f d = ground arith

finish-Sums :
    (f : Findings) (d : ValidationDecision) → Sums f (with_details f (conclude f (with_levels f d)))
unfolding conclude with_levels with_details
finish-Sums f d = ground arith

refuse_untrusted-Follows :
    (f : Findings) (d : ValidationDecision) → IsModest d → Follows f (refuse_untrusted f d)
unfolding refuse_untrusted refuse
refuse_untrusted-Follows f d m = ground arith

refuse_revocation-Follows :
    (f : Findings) (d : ValidationDecision) → IsModest d → Follows f (refuse_revocation f d)
unfolding refuse_revocation refuse
refuse_revocation-Follows f d m = ground arith

refuse_timestamp-Follows :
    (f : Findings) (d : ValidationDecision) → IsModest d → Follows f (refuse_timestamp f d)
unfolding refuse_timestamp refuse
refuse_timestamp-Follows f d m = ground arith

decide_trusted_or_not-Follows :
    (f : Findings) (d : ValidationDecision) → IsModest d → Follows f (decide_trusted_or_not f d)
unfolding decide_trusted_or_not
decide_trusted_or_not-Follows f d m = ground (
  arith,
  refuse_untrusted-Follows f d m,
  refuse_revocation-Follows f d m,
  refuse_timestamp-Follows f d m,
  finish-Follows f d,
)

decide_trusted_or_not-Sums :
    (f : Findings) (d : ValidationDecision) → Sums f (decide_trusted_or_not f d)
unfolding decide_trusted_or_not refuse_untrusted refuse_revocation refuse_timestamp refuse
decide_trusted_or_not-Sums f d = ground (arith, finish-Sums f d)

decide_basic-Follows : (f : Findings) → Follows f (decide_basic f)
unfolding decide_basic refuse opening
decide_basic-Follows f = ground arith

with_trust-IsModest : (f : Findings) → IsModest (with_trust f)
unfolding with_trust opening
with_trust-IsModest f = (refl, refl)

refused-Follows :
    (f : Findings) (because : List String)
    → Follows f (refuse OverallStatus.invalid "invalid" because (opening f))
unfolding refuse opening
refused-Follows f because = ground arith

-- A signature is qualified exactly if it is declared valid and its time is trusted; it is valid for
-- the long term exactly if it is declared valid, the certificate's status is good, and a timestamp
-- was checked and found valid.
pub synthesize_decision-Follows : (f : Findings) → Follows f (synthesize_decision f)
unfolding synthesize_decision
synthesize_decision-Follows f = ground (
  arith,
  decide_basic-Follows f,
  refused-Follows f crypto_failure,
  refused-Follows f ("Сертифікат підписанта відкликано." ∷ f.signer_revocation.because),
  decide_trusted_or_not-Follows f (with_trust f) (with_trust-IsModest f),
)

-- The summary always agrees with the status, and tells a trust that rests on a historical list from
-- one that rests on the current list.
pub synthesize_decision-Sums : (f : Findings) → Sums f (synthesize_decision f)
unfolding synthesize_decision decide_basic refuse
synthesize_decision-Sums f = ground (arith, decide_trusted_or_not-Sums f (with_trust f))
