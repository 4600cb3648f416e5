-- ===== src/Validation/Path/Pipeline.antt =====
-- Building, validating and selecting in a row, as src/lib/core/validation/ValidationEngine.cpp and
-- TimestampEngine.cpp do.
use tamga.Prelude.{ℕ, Bool, true, List, [], ◌∷◌, map, ◌≡◌, refl, sym, subst, ◌∙◌}
use tamga.Validation.Types.{ValidationPolicy}
use tamga.Validation.Path.{
  PathBuilderInput, PathCandidate, CertificateChainInput, CertificateChainResult, PathSelection,
  PathValidationResult, select, validate, build,
}
use tamga.Prelude.Find.{All}
use tamga.Validation.Path.Build.{IsSound, build-IsSound}
use tamga.Validation.Path.Select.{
  FirstAt, here, later, Picks, trusted, untrusted, nothing, select-Picks, select_historical,
}

module _ (chain_of : CertificateChainInput → CertificateChainResult) where
  unfoldable pub run : PathBuilderInput → PathSelection
  run input = select (map (validate chain_of) (build input)) input.policy

  -- What holds of every candidate holds of the one behind each result.
  abbrev pub Behind : (PathCandidate → Type 0) → PathValidationResult → Type 0
  Behind P r = (c : PathCandidate) × P c × (r ≡ validate chain_of c)

  All-map :
      (P : PathCandidate → Type 0) (cs : List PathCandidate)
      → All P cs
      → All (Behind P) (map (validate chain_of) cs)
  All-map P [] a = tt
  All-map P (c ∷ cs) a = ((c, a.0, refl), All-map P cs a.1)

FirstAt-All :
    (Q : PathValidationResult → Type 0) {p : PathValidationResult → Bool} {r : PathValidationResult}
    {k i : ℕ} {rs : List PathValidationResult}
    → FirstAt p r k i rs
    → All Q rs
    → Q r
FirstAt-All Q (here h) a = a.0
FirstAt-All Q (later _ f) a = FirstAt-All Q f a.1

Picks-All :
    (Q : PathValidationResult → Type 0) {policy : ValidationPolicy} {rs : List PathValidationResult}
    {s : PathSelection}
    → Picks policy rs s
    → All Q rs
    → s.selected_result.trusted ≡ true
    → Q s.selected_result
Picks-All Q (trusted i r f) a t = FirstAt-All Q f a
Picks-All Q (untrusted i r n f) a t = FirstAt-All Q f a
Picks-All Q (nothing reason n) a t = cc

-- What the chain builder is asked about a candidate: all of the caller's certificates and its time,
-- with the candidate's anchors.
abbrev pub question : PathBuilderInput → PathCandidate → CertificateChainInput
question input c = record {
  signer_certificate_der = input.signer_certificate_der;
  embedded_certificates_der = input.embedded_certificates_der;
  intermediate_certificates_der = input.intermediate_store_certificates_der;
  aia_certificates_der = input.aia_certificates_der;
  trust_anchors_der = c.trust_anchors_der;
  trust_anchor_source = c.trust_anchor_source;
  validation_time = input.validation_time;
}

-- A result reports what the chain builder found, and the mark of the candidate.
pub record Reports (r : PathValidationResult) (found : CertificateChainResult) (c : PathCandidate)
    : Type 0 where
  pub trusted : r.trusted ≡ found.trusted
  pub chain_valid : r.chain_valid ≡ found.chain_valid
  pub status : r.status ≡ found.status
  pub time_valid : r.signer_certificate_time_valid ≡ found.signer_certificate_time_valid
  pub signer_issuer : r.signer_issuer_certificate_der ≡ found.signer_issuer_certificate_der
  pub source : r.trust_anchor_source ≡ c.trust_anchor_source
  pub historical : r.uses_historical_trust ≡ c.uses_historical_trust

module _ (chain_of : CertificateChainInput → CertificateChainResult)
    (input : PathBuilderInput) where
  validate-Reports :
      (c : PathCandidate)
      → IsSound input c
      → Reports (validate chain_of c) (chain_of (question input c)) c
  unfolding validate
  validate-Reports c s =
      rw (← s.same_signer, ← s.same_embedded, ← s.same_intermediate, ← s.same_aia, ← s.same_time)
        (record {
          trusted = refl;
          chain_valid = refl;
          status = refl;
          time_valid = refl;
          signer_issuer = refl;
          source = refl;
          historical = refl;
        })

  -- A trusted selection is backed: for a candidate with all of the caller's certificates and anchors
  -- of one kind the chain builder, asked with these certificates, these anchors and the caller's
  -- time, found a trusted chain, and the selection reports what it found. If those anchors are
  -- historical the policy allows historical trust.
  pub run_trusted :
      (run chain_of input).selected_result.trusted ≡ true
      → (c : PathCandidate) × IsSound input c
        × Reports (run chain_of input).selected_result (chain_of (question input c)) c
        × ((chain_of (question input c)).trusted ≡ true)
        × (c.uses_historical_trust ≡ true → input.policy.allow_historical_trust ≡ true)
  unfolding run
  run_trusted t =
      let rs = map (validate chain_of) (build input) in
      let (c, sound, e) =
        Picks-All (Behind chain_of (IsSound input)) (select-Picks rs input.policy)
          (All-map chain_of (IsSound input) (build input) (build-IsSound input)) t in
      let reports = validate-Reports c sound in
      (
        c,
        sound,
        subst (λ r. Reports r (chain_of (question input c)) c) (sym e) reports,
        sym reports.trusted ∙ (rw e at t),
        λ h. select_historical rs input.policy (rw e (unfold validate in h)),
      )
