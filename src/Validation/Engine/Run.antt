-- ===== src/Validation/Engine/Run.antt =====
-- The steps of `ValidationEngine::Validate` that consult the world, and the whole.
use tamga.Prelude.{
  Bool, false, not, ◌&&◌, List, [], ◌∷◌, none, some, Bytes, String, codes, is_empty, map,
  if◌then◌else◌,
}
use tamga.Validation.Types.{
  SigningTimeResolution, ValidationContext, ValidationPolicy, TrustServiceDecision,
  default_trust_service, TimestampEngineResult, default_timestamp, ResolvedValidationPolicy,
}
use tamga.Validation.Path.{PathSelection, PathValidationResult, build, select, is_nil}
use tamga.Validation.Path as CertPath
use tamga.Validation.Revocation.{RevocationEngineResult}
use tamga.Validation.TrustService.{select_snapshot, evaluate}
use tamga.Validation.Decision.{Findings, synthesize_decision}
use tamga.Validation.EvidenceStore.{EvidenceStore, put_raw_evidence, put_derived_evidence}
use tamga.Validation.PolicyResolver as PolicyResolver
use tamga.Validation.SigningTime as SigningTime
use tamga.Validation.Revocation.Engine as Revocation
use tamga.Validation.Timestamp.Engine as Timestamp
use tamga.Validation.Engine.{
  ValidationReport, EngineServices, Anchors, load_certificates_from_dir, stable_snapshot_id,
  time_candidates, timestamp_input, is_missing, final_candidates, path_input, is_current_tl_only,
  issuer_of, signer_revocation_input, without_signer, note_crypto,
}

-- Step 10: the report.
unfoldable pub report_of : Findings → EvidenceStore → ValidationReport
report_of f evidence = record {
  decision = note_crypto f.signature_crypto_valid (synthesize_decision f);
  path_selection = f.path_selection;
  trust_service = f.trust_service;
  signer_revocation = f.signer_revocation;
  timestamp = f.timestamp;
  timestamp_attempted = f.timestamp_attempted;
  signing_time_resolution = f.signing_time;
  evidence = evidence;
}

module _ {ℓ} {World : Type ℓ} (services : EngineServices World) where
  open services use {
    timestamp, join, utf8, digest, list_certificates, list_history, snapshot_path, relative_path,
    read_text, parse_trust_list,
  }

  -- Step 2. The store keeps the signer's certificate and the embedded ones.
  unfoldable pub put_embedded : List Bytes → EvidenceStore → EvidenceStore
  put_embedded [] store = store
  put_embedded (c ∷ cs) store = put_embedded cs (
      if is_nil c
      then store
      else (put_raw_evidence digest (codes "embedded-certificate") c (codes "cms-embedded")
          store).1)

  unfoldable pub put_certificates : Bytes → List Bytes → EvidenceStore
  unfolding put_embedded
  put_certificates signer embedded = put_embedded embedded (
      if is_nil signer
      then []
      else (put_raw_evidence digest (codes "signer-certificate") signer (codes "cms-embedded")
          []).1)

  -- Step 3.
  unfoldable pub load_store : World → String → String → List Bytes
  load_store w work_dir name = load_certificates_from_dir (list_certificates w (join work_dir name))

  unfoldable pub load_anchors : World → String → Anchors
  unfolding load_store
  load_anchors w work_dir =
      if is_empty work_dir
      then record {
        current = [];
        historical = [];
        intermediate = [];
        tsa = [];
        historical_tsa = [];
      }
      else record {
        current = load_store w work_dir "trust-store";
        historical = load_store w work_dir "historical-trust-store";
        intermediate = load_store w work_dir "intermediate-store";
        tsa = load_store w work_dir "tsa-store";
        historical_tsa = load_store w work_dir "historical-tsa-store";
      }

  -- Step 5: the result, and whether there was a timestamp.
  unfoldable pub check_timestamp :
      World
      → ValidationContext
      → ResolvedValidationPolicy
      → Anchors
      → List Bytes
      → (TimestampEngineResult × Bool) × World
  check_timestamp w context resolved anchors embedded =
      if is_nil context.cms_der
      then ((default_timestamp, false), w)
      else (let (ts, w') =
            Timestamp.validate timestamp w
              (timestamp_input context resolved.policy resolved.plan anchors embedded) in
          ((ts, not (is_missing ts.status)), w'))

  -- Step 6.
  unfoldable pub resolve_time :
      ValidationContext → ValidationPolicy → TimestampEngineResult → Bool → SigningTimeResolution
  resolve_time context policy ts attempted =
      SigningTime.resolve
        (final_candidates attempted ts (timestamp.normalize_time ts.gen_time)
          (time_candidates context))
        context policy

  -- Step 7: all results, and the one that counts.
  unfoldable pub try_paths :
      World → ValidationPolicy → Anchors → Bytes → List Bytes → String → List PathValidationResult
  try_paths w policy anchors signer embedded time =
      map (CertPath.validate (timestamp.chain w))
        (build (path_input policy anchors signer embedded time))

  -- Step 8.
  unfoldable pub read_trust_list_xml : World → String → String
  read_trust_list_xml w path = elim (read_text w path) [ none ↦ "" | some xml ↦ xml ]

  unfoldable pub check_service :
      World → ValidationContext → ValidationPolicy → Bytes → String → TrustServiceDecision
  unfolding read_trust_list_xml
  check_service w context policy signer time =
      let snapshot =
        select_snapshot (list_history w context.work_dir) (utf8 time)
          (is_current_tl_only policy.trust_anchor_policy) in
      let path = snapshot_path context.work_dir snapshot in
      let xml = read_trust_list_xml w path in
      if not (is_empty xml) && not (is_nil signer)
      then evaluate parse_trust_list signer xml
          (stable_snapshot_id (relative_path path context.work_dir))
      else default_trust_service

  -- Step 9.
  unfoldable pub download_crls_for : World → String → Bytes → Bytes → World
  download_crls_for w work_dir signer issuer =
      let w' = timestamp.download_crls w signer work_dir in
      if is_nil issuer then w' else timestamp.download_crls w' issuer work_dir

  unfoldable pub check_signer :
      World
      → ValidationContext
      → ResolvedValidationPolicy
      → Bytes
      → Bytes
      → String
      → RevocationEngineResult × World
  unfolding download_crls_for
  check_signer w context resolved signer issuer time =
      let w' =
        if resolved.plan.network_allowed && not (is_empty context.work_dir)
        then download_crls_for w context.work_dir signer issuer
        else w in
      let crls = timestamp.load_crls w' context.work_dir in
      if is_nil signer
      then (without_signer, w')
      else Revocation.validate timestamp.revocation
          (signer_revocation_input context resolved.policy resolved.plan signer issuer time crls) w'

  unfoldable pub put_revocation : List String → EvidenceStore → EvidenceStore
  put_revocation [] store = store
  put_revocation (id ∷ ids) store =
      put_revocation ids
        (put_derived_evidence digest (codes "revocation-evidence") ((codes "id", utf8 id) ∷ [])
          store).1

  -- Steps 6 to 9, after the timestamp: the arguments of `SynthesizeDecision`.
  unfoldable pub gather :
      World
      → ValidationContext
      → ResolvedValidationPolicy
      → Anchors
      → Bytes
      → List Bytes
      → TimestampEngineResult
      → Bool
      → Findings × World
  gather w context resolved anchors signer embedded ts attempted =
      let time = resolve_time context resolved.policy ts attempted in
      let results =
        try_paths w resolved.policy anchors signer embedded time.signature_evaluation_time in
      let selection = select results resolved.policy in
      let service = check_service w context resolved.policy signer time.signature_evaluation_time in
      let (revocation, w') =
        check_signer w context resolved signer (issuer_of selection)
          time.signature_evaluation_time in
      (
        record {
          signature_crypto_valid = context.signature_crypto_valid;
          path_selection = selection;
          path_results = results;
          trust_service = service;
          signer_revocation = revocation;
          timestamp = ts;
          timestamp_attempted = attempted;
          signing_time = time;
          policy = resolved.policy;
          context = context;
        },
        w',
      )

  -- `ValidationEngine::Validate`.
  unfoldable pub validate :
      World → ValidationContext → Bytes → List Bytes → ValidationReport × World
  validate w context signer embedded =
      let resolved = PolicyResolver.resolve join context in
      let anchors = load_anchors w context.work_dir in
      let ((ts, attempted), w') = check_timestamp w context resolved anchors embedded in
      let (f, w'') = gather w' context resolved anchors signer embedded ts attempted in
      (
        report_of f
            (put_revocation f.signer_revocation.evidence_ids (put_certificates signer embedded)),
        w'',
      )
