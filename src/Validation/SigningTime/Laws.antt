-- ===== src/Validation/SigningTime/Laws.antt =====
-- Which time wins, and what it is worth.
use tamga.Prelude.{
  true, false, List, [], ◌∷◌, ◌++◌, String, is_empty, ◌≡◌, inl, inr, refl, arith, Bool-cases,
}
use tamga.Prelude.Find.{First, NonePass, find_if-Finds}
use tamga.Validation.Types.{
  SigningTimeSource, SigningTimeConfidence, SigningTimeCandidate, SigningTimeResolution,
  ValidationContext, ValidationPolicy, default_resolution, rfc3161_timestamp, claimed_signing_time,
  verification_time_fallback,
}
use tamga.Validation.SigningTime.{
  resolve, is_trusted_timestamp, is_claimed_time, collect_skipped_rfc3161_diagnostics,
  from_timestamp, from_claimed, from_verification, skipped_diagnostics,
}

-- A trusted timestamp comes first, then a claimed time, then the verification time. Each is the
-- earliest of its kind in the list.
pub data Chosen (cs : List SigningTimeCandidate) (context : ValidationContext)
    : SigningTimeResolution → Type 0 where
  by_timestamp :
      {r : SigningTimeResolution} (c : SigningTimeCandidate)
      → First is_trusted_timestamp c cs
      → r.signature_evaluation_time ≡ c.time
      → r.evidence_id ≡ c.evidence_id
      → r.source ≡ rfc3161_timestamp
      → r.confidence ≡ SigningTimeConfidence.trusted
      → r.trusted_time ≡ true
      → Chosen cs context r
  by_claim :
      {r : SigningTimeResolution} (c : SigningTimeCandidate)
      → NonePass is_trusted_timestamp cs
      → First is_claimed_time c cs
      → r.signature_evaluation_time ≡ c.time
      → r.evidence_id ≡ c.evidence_id
      → r.source ≡ claimed_signing_time
      → r.confidence ≡ SigningTimeConfidence.claimed
      → r.trusted_time ≡ false
      → Chosen cs context r
  by_verification_time :
      {r : SigningTimeResolution}
      → NonePass is_trusted_timestamp cs
      → NonePass is_claimed_time cs
      → is_empty context.verification_time ≡ false
      → r.signature_evaluation_time ≡ context.verification_time
      → r.source ≡ verification_time_fallback
      → r.confidence ≡ SigningTimeConfidence.fallback
      → r.trusted_time ≡ false
      → Chosen cs context r
  by_nothing :
      {r : SigningTimeResolution}
      → NonePass is_trusted_timestamp cs
      → NonePass is_claimed_time cs
      → is_empty context.verification_time ≡ true
      → r.signature_evaluation_time ≡ ""
      → r.source ≡ SigningTimeSource.unavailable
      → r.confidence ≡ SigningTimeConfidence.unavailable
      → r.trusted_time ≡ false
      → Chosen cs context r

-- The diagnostics leave everything but the two lists of messages as it was.
abbrev KeepsTime : SigningTimeResolution → SigningTimeResolution → Type 0
KeepsTime r s =
    (s.signature_evaluation_time ≡ r.signature_evaluation_time)
    × (s.source ≡ r.source)
    × (s.confidence ≡ r.confidence)
    × (s.evidence_id ≡ r.evidence_id)
    × (s.trusted_time ≡ r.trusted_time)

collect-KeepsTime :
    (cs : List SigningTimeCandidate) (r : SigningTimeResolution)
    → KeepsTime r (collect_skipped_rfc3161_diagnostics cs r)
unfolding collect_skipped_rfc3161_diagnostics
collect-KeepsTime [] r = (refl, refl, refl, refl, refl)
collect-KeepsTime (c ∷ cs) r =
    ground (arith, collect-KeepsTime cs r, collect-KeepsTime cs (skipped_diagnostics c r))

from_claimed-Chosen :
    {cs : List SigningTimeCandidate} (context : ValidationContext) (c : SigningTimeCandidate)
    (r : SigningTimeResolution) (policy : ValidationPolicy)
    → NonePass is_trusted_timestamp cs
    → First is_claimed_time c cs
    → Chosen cs context (from_claimed c r policy)
unfolding from_claimed
from_claimed-Chosen context c r policy n f =
    by_claim c n f (ground arith) (ground arith) (ground arith) (ground arith) (ground arith)

from_verification-Chosen :
    {cs : List SigningTimeCandidate} (context : ValidationContext) (r : SigningTimeResolution)
    (policy : ValidationPolicy)
    → KeepsTime default_resolution r
    → NonePass is_trusted_timestamp cs
    → NonePass is_claimed_time cs
    → Chosen cs context (from_verification context r policy)
unfolding from_verification
from_verification-Chosen context r policy k n m =
    elim (Bool-cases (is_empty context.verification_time)) [
      | inl e ↦ by_nothing n m e (ground arith) (ground arith) (ground arith) (ground arith)
      | inr e ↦
          by_verification_time n m e (ground arith) (ground arith) (ground arith) (ground arith)
    ]

-- The last limitation of `r` says that a trusted time is required.
abbrev pub AsksForTrustedTime : SigningTimeResolution → Type 0
AsksForTrustedTime r =
    (l : List String) × (r.limitations ≡ l ++ ("trusted-signing-time-required" ∷ []))

module _ (policy : ValidationPolicy) (required : policy.require_trusted_signing_time ≡ true) where
  from_claimed-Asks :
      (c : SigningTimeCandidate) (r : SigningTimeResolution)
      → AsksForTrustedTime (from_claimed c r policy)
  unfolding from_claimed
  from_claimed-Asks c r = (r.limitations, ground arith)

  from_verification-Asks :
      (context : ValidationContext) (r : SigningTimeResolution)
      → r.trusted_time ≡ false
      → AsksForTrustedTime (from_verification context r policy)
  unfolding from_verification
  from_verification-Asks context r u = elim (Bool-cases (is_empty context.verification_time)) [
    | inl e ↦ (r.limitations ++ ("signing-time-unavailable" ∷ []), ground arith)
    | inr e ↦ (r.limitations ++ ("signing-time-derived-from-verification-time" ∷ []), ground arith)
  ]

module _ (cs : List SigningTimeCandidate) (context : ValidationContext)
    (policy : ValidationPolicy) where
  -- The resolver picks the first cryptographically valid, trusted RFC 3161 timestamp that has a
  -- time; without one the first claimed signing time; without that the verification time; and
  -- without that no time. Only the first of these is marked trusted.
  pub resolve-Chosen : Chosen cs context (resolve cs context policy)
  unfolding resolve from_timestamp
  resolve-Chosen = elim (find_if-Finds is_trusted_timestamp cs) [
    | inl (c, e, f) ↦ rw (e, resolve) (by_timestamp c f refl refl refl refl refl)
    | inr (e, n) ↦
        let r = collect_skipped_rfc3161_diagnostics cs default_resolution in
        elim (find_if-Finds is_claimed_time cs) [
          | inl (c, e', f) ↦ rw (e, e', resolve) (from_claimed-Chosen context c r policy n f)
          | inr (e', m) ↦
              rw (e, e', resolve)
                (from_verification-Chosen context r policy (collect-KeepsTime cs default_resolution)
                  n m)
        ]
  ]

  -- Where the policy requires a trusted signing time and none was found, the last limitation says
  -- so.
  pub resolve_limitation :
      policy.require_trusted_signing_time ≡ true
      → (resolve cs context policy).trusted_time ≡ false
      → (l : List String) × ((resolve cs context policy).limitations
          ≡ l ++ ("trusted-signing-time-required" ∷ []))
  unfolding resolve from_timestamp
  resolve_limitation required untrusted =
      let r = collect_skipped_rfc3161_diagnostics cs default_resolution in
      elim (find_if-Finds is_trusted_timestamp cs) [
        | inl (c, e, f) ↦ cc (rw (e, resolve) at untrusted)
        | inr (e, n) ↦ elim (find_if-Finds is_claimed_time cs) [
          | inl (c, e', f) ↦ rw (e, e', resolve) (from_claimed-Asks policy required c r)
          | inr (e', m) ↦
              rw (e, e', resolve)
                (from_verification-Asks policy required context r
                  (ground (arith, collect-KeepsTime cs default_resolution)))
        ]
      ]
