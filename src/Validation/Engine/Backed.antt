-- ===== src/Validation/Engine/Backed.antt =====
-- What a report of the engine rests on.
use tamga.Prelude.{
  Bool, true, false, not, ◌&&◌, List, [], Bytes, is_empty, if◌then◌else◌, String, ◌≡◌, ◌≢◌, inl,
  inr, refl, sym, ◌∙◌, arith, Bool-cases,
}
use tamga.Validation.Types.{
  OverallStatus, ValidationLevel, ValidationContext, ValidationDecision, ResolvedValidationPolicy,
}
use tamga.Validation.Path.{PathCandidate, CertificateChainInput, is_nil}
use tamga.Validation.Path.Build.{Uses}
use tamga.Validation.Path.Pipeline.{run, run_trusted, question}
use tamga.Validation.Revocation.{RevocationEngineInput}
use tamga.Validation.Revocation.Laws.{Evidence, validate-Evidence}
use tamga.Validation.Decision.{
  Findings, synthesize_decision, decide_basic, decide_trusted_or_not, refuse_untrusted,
  refuse_revocation, refuse_timestamp, refuse, with_trust, opening, with_details, conclude,
  with_levels, is_trust_valid, path_trusted, is_indeterminate,
}
use tamga.Validation.Decision.Verdict.{synthesize_decision-valid}
use tamga.Validation.PolicyResolver as PolicyResolver
use tamga.Validation.Engine.{
  ValidationReport, EngineServices, note_crypto, path_input, load_certificates_from_dir, issuer_of,
  signer_revocation_input,
}
use tamga.Validation.Engine.Run.{
  validate, gather, report_of, check_timestamp, check_signer, try_paths, load_anchors, load_store,
}
use tamga.Validation.Engine.Laws.{note_crypto_status}

trust_parts :
    (f : Findings)
    → is_trust_valid f ≡ true
    → (f.path_selection.selected_result.trusted ≡ true)
      × (f.policy.require_service_level_trust ≡ true → f.trust_service.service_trusted ≡ true)
unfolding is_trust_valid path_trusted
trust_parts f h = ground arith

-- The steps after `is_trust_valid` leave the flag alone.
synthesize_decision-trusted :
    (f : Findings)
    → (synthesize_decision f).trust_valid ≡ true
    → f.path_selection.selected_result.trusted ≡ true
unfolding synthesize_decision decide_basic decide_trusted_or_not refuse_untrusted refuse_revocation
    refuse_timestamp refuse with_trust opening with_details conclude with_levels is_trust_valid
    path_trusted
synthesize_decision-trusted f h = ground (arith, h)

note_crypto-trust :
    (b : Bool) (d : ValidationDecision) → (note_crypto b d).trust_valid ≡ d.trust_valid
unfolding note_crypto
note_crypto-trust true d = refl
note_crypto-trust false d = refl

timestamp_part :
    (f : Findings)
    → (f.timestamp_attempted && not f.timestamp.valid && f.policy.require_trusted_signing_time)
      ≡ false
    → f.policy.require_trusted_signing_time ≡ true
    → f.timestamp_attempted ≡ true
    → f.timestamp.valid ≡ true
timestamp_part f h required attempted = ground arith

revocation_part :
    (f : Findings)
    → (is_indeterminate f.signer_revocation.overall_status && f.policy.revocation_hard_fail) ≡ false
    → f.policy.revocation_hard_fail ≡ true
    → f.signer_revocation.overall_status ≢ OverallStatus.indeterminate
revocation_part f h required e = ground arith

-- A check of the signer's certificate that settles something rests on evidence.
check_signer-Evidence {ℓ} :
    {World : Type ℓ} (services : EngineServices World) (context : ValidationContext)
    (signer : Bytes) (w : World) (resolved : ResolvedValidationPolicy) (issuer : Bytes)
    (time : String)
    → (check_signer services w context resolved signer issuer time).0.overall_status
      ≢ OverallStatus.indeterminate
    → (i : RevocationEngineInput) × (i.certificate_der ≡ signer)
      × (i.issuer_certificate_der ≡ issuer)
      × Evidence services.timestamp.revocation i
          (check_signer services w context resolved signer issuer time).0.revocation_status
          (check_signer services w context resolved signer issuer time).0.revocation_time
unfolding check_signer signer_revocation_input
check_signer-Evidence services context signer w resolved issuer time h =
    elim (Bool-cases (is_nil signer)) [
      | inl e ↦ absurd (h (rw (e, check_signer)))
      | inr e ↦
          rw (e, check_signer)
            (
              _,
              refl,
              refl,
              validate-Evidence services.timestamp.revocation _ _ (rw (e, check_signer) at h),
            )
    ]

-- The certificates of a directory of the work directory; without a work directory there are none.
abbrev pub stored {ℓ} :
    {World : Type ℓ} → EngineServices World → World → String → String → List Bytes
stored services w work_dir name =
    if is_empty work_dir
    then []
    else load_certificates_from_dir (services.list_certificates w (services.join work_dir name))

load_anchors-stored {ℓ} :
    {World : Type ℓ} (services : EngineServices World) (w : World) (work_dir : String)
    → let anchors = load_anchors services w work_dir in
      (anchors.current ≡ stored services w work_dir "trust-store")
      × (anchors.historical ≡ stored services w work_dir "historical-trust-store")
      × (anchors.intermediate ≡ stored services w work_dir "intermediate-store")
unfolding load_anchors load_store
load_anchors-stored services w work_dir = elim (Bool-cases (is_empty work_dir)) [
  | inl e ↦ rw e (refl, refl, refl)
  | inr e ↦ rw e (refl, refl, refl)
]

module _ {ℓ} {World : Type ℓ} (services : EngineServices World) (w : World)
    (context : ValidationContext) (signer : Bytes) (embedded : List Bytes) where
  abbrev resolved : ResolvedValidationPolicy
  resolved = PolicyResolver.resolve services.join context

  abbrev report : ValidationReport
  report = (validate services w context signer embedded).0

  -- The anchors that the chain builder was asked with, and the mark of the path. The engine fills
  -- neither the custom store nor the pinned anchors.
  pub data Anchored (asked : CertificateChainInput) (mark : Bool) : Type 0 where
    current :
        mark ≡ false
        → asked.trust_anchors_der ≡ stored services w context.work_dir "trust-store"
        → Anchored asked mark
    historical :
        mark ≡ true
        → asked.trust_anchors_der ≡ stored services w context.work_dir "historical-trust-store"
        → resolved.policy.allow_historical_trust ≡ true
        → Anchored asked mark
    none_given : mark ≡ false → asked.trust_anchors_der ≡ [] → Anchored asked mark

  -- The question about the signer's chain: the certificates at hand, and the evaluation time.
  pub record Asked (asked : CertificateChainInput) (r : ValidationReport) : Type 0 where
    pub same_signer : asked.signer_certificate_der ≡ signer
    pub same_embedded : asked.embedded_certificates_der ≡ embedded
    pub same_intermediate :
        asked.intermediate_certificates_der
        ≡ stored services w context.work_dir "intermediate-store"
    pub same_time : asked.validation_time ≡ r.signing_time_resolution.signature_evaluation_time
    pub anchored : Anchored asked r.path_selection.selected_result.uses_historical_trust

  -- A trusted path rests on a chain that the chain builder found, whose issuer the report names.
  pub record HasChain (r : ValidationReport) : Type ℓ where
    pub tried_in : World
    pub asked : CertificateChainInput
    pub asked-Asked : Asked asked r
    pub found : (services.timestamp.chain tried_in asked).trusted ≡ true
    pub signer_issuer :
        r.path_selection.selected_result.signer_issuer_certificate_der
        ≡ (services.timestamp.chain tried_in asked).signer_issuer_certificate_der

  -- What a report that declares a signature valid rests on.
  pub record IsBacked (r : ValidationReport) : Type ℓ where
    pub crypto : context.signature_crypto_valid ≡ true
    pub level : context.level ≢ ValidationLevel.basic
    pub path_trusted : r.path_selection.selected_result.trusted ≡ true
    pub chain : HasChain r
    pub service :
        resolved.policy.require_service_level_trust ≡ true → r.trust_service.service_trusted ≡ true
    pub timestamp :
        resolved.policy.require_trusted_signing_time ≡ true
        → r.timestamp_attempted ≡ true
        → r.timestamp.valid ≡ true
    pub revocation :
        resolved.policy.revocation_hard_fail ≡ true
        → (i : RevocationEngineInput) × (i.certificate_der ≡ signer)
          × (i.issuer_certificate_der ≡ issuer_of r.path_selection)
          × Evidence services.timestamp.revocation i r.signer_revocation.revocation_status
              r.signer_revocation.revocation_time

  -- The anchors of a sound candidate are those of a directory.
  Uses-Anchored :
      (time : String) (c : PathCandidate) (mark : Bool)
      → let input =
          path_input resolved.policy
            (load_anchors services w context.work_dir)
            signer
            embedded
            time in
        mark ≡ c.uses_historical_trust
        → Uses input c
        → (c.uses_historical_trust ≡ true → resolved.policy.allow_historical_trust ≡ true)
        → Anchored (question input c) mark
  unfolding path_input
  Uses-Anchored time c mark same uses allowed =
      let (at_current, at_historical, _) = load_anchors-stored services w context.work_dir in
      elim uses [
        | Uses.current source unmarked anchors _ _ ↦
            current (same ∙ unmarked) (anchors ∙ at_current)
        | Uses.historical source marked anchors _ _ ↦
            historical (same ∙ marked) (anchors ∙ at_historical) (allowed marked)
        | Uses.custom source unmarked anchors _ ↦ none_given (same ∙ unmarked) anchors
        | Uses.pinned source unmarked anchors _ ↦ none_given (same ∙ unmarked) anchors
      ]

  pub validate-HasChain : report.path_selection.selected_result.trusted ≡ true → HasChain report
  unfolding validate gather report_of try_paths run path_input
  validate-HasChain trusted =
      let anchors' = load_anchors services w context.work_dir in
      let (checked, w') = check_timestamp services w context resolved anchors' embedded in
      let time = report.signing_time_resolution.signature_evaluation_time in
      let input = path_input resolved.policy anchors' signer embedded time in
      let (c, sound, reports, found', allowed) =
        run_trusted (services.timestamp.chain w') input trusted in
      let (_, _, at_intermediate) = load_anchors-stored services w context.work_dir in
      record {
        tried_in = w';
        asked = question input c;
        asked-Asked = record {
          same_signer = refl;
          same_embedded = refl;
          same_intermediate = at_intermediate;
          same_time = refl;
          anchored = Uses-Anchored time c _ reports.historical sound.anchors allowed;
        };
        found = found';
        signer_issuer = reports.signer_issuer;
      }

  -- A decision that trusts the signer rests on a chain that was found.
  pub trusted-HasChain : report.decision.trust_valid ≡ true → HasChain report
  unfolding validate gather report_of
  trusted-HasChain h =
      let anchors' = load_anchors services w context.work_dir in
      let (checked, w') = check_timestamp services w context resolved anchors' embedded in
      let f =
        (gather services w' context resolved anchors' signer embedded checked.0 checked.1).0 in
      validate-HasChain (
        synthesize_decision-trusted f
          (sym (note_crypto-trust context.signature_crypto_valid (synthesize_decision f)) ∙ h))

  -- A signature that the engine declares valid passed the cryptographic check, at a level above
  -- `Basic`. The chain builder was asked about the signer's certificate, with the embedded ones, those
  -- of intermediate-store and the evaluation time, and found a trusted chain whose issuer the report
  -- names. Its anchors are those of trust-store; or those of historical-trust-store, if the path is
  -- marked as historical and the policy allows historical trust; or none. Where the policy requires
  -- it the service is trusted, a timestamp is valid if one was attempted, and the revocation status
  -- rests on a check of the signer's certificate that was carried out.
  pub validate-IsBacked : report.decision.overall_status ≡ OverallStatus.valid → IsBacked report
  unfolding validate gather report_of try_paths run path_input
  validate-IsBacked h =
      let anchors' = load_anchors services w context.work_dir in
      let (checked, w') = check_timestamp services w context resolved anchors' embedded in
      let f =
        (gather services w' context resolved anchors' signer embedded checked.0 checked.1).0 in
      let (level', crypto', _, trust, hard, ts) =
        (synthesize_decision-valid f).0
          (sym (note_crypto_status context.signature_crypto_valid (synthesize_decision f)) ∙ h) in
      let (trusted, service') = trust_parts f trust in
      record {
        crypto = crypto';
        level = level';
        path_trusted = trusted;
        chain = validate-HasChain trusted;
        service = service';
        timestamp = λ required attempted. timestamp_part f ts required attempted;
        revocation = λ required.
            check_signer-Evidence services context signer w' resolved _ _
              (revocation_part f hard required);
      }
