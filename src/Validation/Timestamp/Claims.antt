-- ===== src/Validation/Timestamp/Claims.antt =====
-- What a timestamp that is declared valid, or acceptable, has passed.
use tamga.Prelude.{true, false, ◌&&◌, ◌≡◌, ◌⊎◌, inl, inr, refl, sym, ap, ◌∙◌, arith, Bool-cases}
use tamga.Validation.Types.{OverallStatus, TimestampStatus, TimestampEngineResult}
use tamga.Validation.Decision.{is_indeterminate}
use tamga.Validation.Revocation.{RevocationEngineInput, RevocationEngineResult}
use tamga.Validation.Revocation.Engine as Revocation
use tamga.Validation.Timestamp.{
  TimestampEngineInput, TimestampValidationResult, TimestampServices, Step, stop, go,
}
use tamga.Validation.Timestamp.Engine.{
  validate, prepare, judge_token, judge_revocation, check_revocation, revocation_input,
  retry_online,
}
use tamga.Validation.Timestamp.Trust.{TsaTrusted, HasSound-TsaTrusted}
use tamga.Validation.Timestamp.Sound.{
  IsLenient, IsSound, HasSound, HasIssuer, IsRefusal, Ends, Sound₅, prepare-Ends,
}

module _ {ℓ} {World : Type ℓ} (services : TimestampServices World) (input : TimestampEngineInput)
    (w : World) where
  -- The revocation of the TSA's certificate was asked about, with its issuer, and not refused.
  pub record Answered (r : TimestampEngineResult) : Type ℓ where
    pub asked : RevocationEngineInput
    pub asked_in : World
    pub same_certificate : asked.certificate_der ≡ r.tsa_certificate_der
    pub same_issuer : asked.issuer_certificate_der ≡ r.tsa_issuer_certificate_der
    pub answer :
        (Revocation.validate services.revocation asked asked_in).0.overall_status
        ≡ OverallStatus.valid

  -- What a result may claim. Valid: the token is sound, its TSA is trusted, an issuer of the TSA's certificate was
  -- verified, and revocation was answered. Acceptable: valid, or sound under a lenient policy.
  pub record Claims (r : TimestampEngineResult) : Type ℓ where
    pub valid_sound : r.valid ≡ true → HasSound services input w r
    pub valid_trusted :
        r.valid ≡ true → TsaTrusted services input w r.tsa_certificate_der r.validation_time
    pub valid_issuer : r.valid ≡ true → HasIssuer services input w r
    pub valid_answered : r.valid ≡ true → Answered r
    pub valid_status : r.valid ≡ true → r.status ≡ TimestampStatus.valid
    pub status_valid : r.status ≡ TimestampStatus.valid → r.valid ≡ true
    pub acceptable_sound : r.policy_acceptable ≡ true → HasSound services input w r
    pub acceptable : r.policy_acceptable ≡ true → (r.valid ≡ true) ⊎ IsLenient input.policy

  IsRefusal-Claims : (r : TimestampEngineResult) → IsRefusal services input w r → Claims r
  IsRefusal-Claims r (v, s, a) = record {
    valid_sound = λ h. cc;
    valid_trusted = λ h. cc;
    valid_issuer = λ h. cc;
    valid_answered = λ h. cc;
    valid_status = λ h. cc;
    status_valid = λ h. absurd (s h);
    acceptable_sound = λ h. (a h).0;
    acceptable = λ h. inr (a h).1;
  }

  -- The answer that a check of revocation ends with.
  abbrev AnswersFor : TimestampEngineResult → RevocationEngineResult → Type ℓ
  AnswersFor r rev =
      (asked : RevocationEngineInput) × (u : World) × (asked.certificate_der
        ≡ r.tsa_certificate_der)
      × (asked.issuer_certificate_der ≡ r.tsa_issuer_certificate_der)
      × (rev ≡ (Revocation.validate services.revocation asked u).0)

  check_revocation-AnswersFor :
      (v : TimestampValidationResult) (r : TimestampEngineResult)
      → r.tsa_certificate_der ≡ v.tsa_certificate_der
      → AnswersFor r (check_revocation services w input v r).0
  unfolding check_revocation retry_online revocation_input
  check_revocation-AnswersFor v r e =
      let asked = revocation_input services w input v r in
      let first = Revocation.validate services.revocation asked w in
      elim (Bool-cases (is_indeterminate first.0.overall_status && input.plan.network_allowed)) [
        | inl retried ↦ rw retried (_, _, sym e, refl, refl)
        | inr done ↦ rw done (asked, w, sym e, refl, refl)
      ]

  -- A judgement keeps what the token has passed.
  judge_revocation-IsSound :
      (v : TimestampValidationResult) (rev : RevocationEngineResult) (r : TimestampEngineResult)
      → IsSound services input w v r
      → IsSound services input w v (judge_revocation input rev r)
  unfolding judge_revocation
  judge_revocation-IsSound v rev r h = ground arith

  judge_revocation-HasIssuer :
      (rev : RevocationEngineResult) (r : TimestampEngineResult)
      → HasIssuer services input w r
      → HasIssuer services input w (judge_revocation input rev r)
  unfolding judge_revocation
  judge_revocation-HasIssuer rev r h = ground arith

  judge_revocation-Answered :
      (rev : RevocationEngineResult) (r : TimestampEngineResult)
      → rev.overall_status ≡ OverallStatus.valid
      → AnswersFor r rev
      → Answered (judge_revocation input rev r)
  unfolding judge_revocation
  judge_revocation-Answered rev r ok (asked, u, c, i, e) = record {
    asked = asked;
    asked_in = u;
    same_certificate = ground (arith, c);
    same_issuer = ground (arith, i);
    answer = ap (λ x. x.overall_status) (sym e) ∙ ok;
  }

  judge_revocation_flags :
      (rev : RevocationEngineResult) (r : TimestampEngineResult)
      → r.valid ≡ false
      → ((judge_revocation input rev r).valid ≡ true → rev.overall_status ≡ OverallStatus.valid)
        × ((judge_revocation input rev r).valid ≡ true
            → (judge_revocation input rev r).status ≡ TimestampStatus.valid)
        × ((judge_revocation input rev r).status ≡ TimestampStatus.valid
            → (judge_revocation input rev r).valid ≡ true)
        × ((judge_revocation input rev r).policy_acceptable ≡ true
            → ((judge_revocation input rev r).valid ≡ true)
              ⊎ IsLenient input.policy
              ⊎ (r.policy_acceptable ≡ true))
  unfolding judge_revocation
  judge_revocation_flags rev r h = ground arith

  judge_revocation-Claims :
      (v : TimestampValidationResult) (rev : RevocationEngineResult) (r : TimestampEngineResult)
      → Sound₅ services input w v r
      → AnswersFor r rev
      → Claims (judge_revocation input rev r)
  judge_revocation-Claims v rev r ((o, s), i, verified) a =
      let (ok, status, valid, acceptable) = judge_revocation_flags rev r o.0 in
      let sound : HasSound services input w (judge_revocation input rev r) =
        (v, verified, judge_revocation-IsSound v rev r s) in
      record {
        valid_sound = λ _. sound;
        valid_trusted =
            λ _. HasSound-TsaTrusted services input w (judge_revocation input rev r) sound;
        valid_issuer = λ _. judge_revocation-HasIssuer rev r i;
        valid_answered = λ h. judge_revocation-Answered rev r (ok h) a;
        valid_status = status;
        status_valid = valid;
        acceptable_sound = λ _. sound;
        acceptable =
            λ h. elim (acceptable h) [ inl k ↦ inl k | inr (inl k) ↦ inr k | inr (inr k) ↦ cc ];
      }

  Step-Claims :
      (s : Step (TimestampValidationResult × TimestampEngineResult))
      → Ends (IsRefusal services input w) (λ (v, r). Sound₅ services input w v r) s
      → prepare services w input ≡ s
      → Claims (validate services w input).0
  unfolding validate judge_token
  Step-Claims (stop r) h e = rw (e, validate) (IsRefusal-Claims r h)
  Step-Claims (go (v, r)) h e =
      rw (e, validate, judge_token)
        (judge_revocation-Claims v _ r h (check_revocation-AnswersFor v r h.0.1.same_tsa))

  -- The flags of a timestamp result mean what they say, whatever the services answer. A timestamp is
  -- valid, and its status is `Valid`, only if the explicit token was verified against its source, or
  -- without one the token of the CMS container against the value of the signature; its time is a
  -- UTC time within the life of the TSA's certificate; the TSA stands in a trust list, or a trusted
  -- chain was found for it at that time, historical lists and anchors only with permission; its
  -- certificate may sign timestamps; an issuer of it was verified; and a check of its revocation with
  -- that issuer came out valid. A timestamp is acceptable to the policy only if the token passed the
  -- checks short of the issuer, and it is valid or the policy is lenient about revocation and trusted
  -- time.
  pub validate-Claims : Claims (validate services w input).0
  validate-Claims = Step-Claims (prepare services w input) (prepare-Ends services input w) refl
