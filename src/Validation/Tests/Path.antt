-- ===== src/Validation/Tests/Path.antt =====
-- Certificate paths at concrete inputs.
use tamga.Prelude.Order.{bytes_eq}
use tamga.Prelude.{true, List, [], ◌∷◌, ◌≡◌, refl, map}
use tamga.Prelude.Find.{All}
use tamga.Validation.Types.{ChainStatus, ValidationPolicy, TrustAnchorPolicy, default_policy}
use tamga.Validation.Path.{
  CertificateChainInput, CertificateChainResult, PathBuilderInput, PathCandidate,
  PathValidationResult, build, validate, select, first_index,
}
use tamga.Validation.Timestamp.{contains}
use tamga.Validation.Path.Build.{IsSound, build-IsSound}
use tamga.Validation.Path.Select.{Picks, select-Picks, select_historical}
use tamga.Validation.Path.Pipeline.{Reports, question, run, run_trusted}

-- A chain is trusted if the anchor `7` was given.
abbrev chain_of : CertificateChainInput → CertificateChainResult
chain_of input = record {
  checked = true;
  trusted = contains input.trust_anchors_der (7 ∷ []);
  chain_valid = true;
  status = ChainStatus.trusted;
  signer_certificate_time_valid = true;
  issuer_certificate_der = [];
  signer_issuer_certificate_der = [];
  message = "";
  chain_debug = "";
}

abbrev policy : ValidationPolicy
policy = record default_policy {
  trust_anchor_policy = TrustAnchorPolicy.historical_at_signing_time;
  allow_historical_trust = true;
}

abbrev input : PathBuilderInput
input = record {
  signer_certificate_der = 1 ∷ [];
  embedded_certificates_der = [];
  intermediate_store_certificates_der = [];
  aia_certificates_der = [];
  current_trust_anchors_der = (5 ∷ []) ∷ [];
  historical_trust_anchors_der = (7 ∷ []) ∷ [];
  custom_trust_anchors_der = [];
  pinned_trust_anchors_der = [];
  policy = policy;
  validation_time = "2024-06-01T00:00:00Z";
}

abbrev results : List PathValidationResult
results = map (validate chain_of) (build input)

archived : (run chain_of input).selected_result.candidate_id ≡ "historical-tl"
unfolding run select build validate first_index contains bytes_eq
archived = refl

build-IsSound_example : All (IsSound input) (build input)
build-IsSound_example = build-IsSound input

select-Picks_example : Picks policy results (select results policy)
select-Picks_example = select-Picks results policy

select_historical_example : policy.allow_historical_trust ≡ true
unfolding select build validate first_index contains bytes_eq
select_historical_example = select_historical results policy refl

run_trusted_example :
    (c : PathCandidate) × IsSound input c
    × Reports (run chain_of input).selected_result (chain_of (question input c)) c
    × ((chain_of (question input c)).trusted ≡ true)
    × (c.uses_historical_trust ≡ true → input.policy.allow_historical_trust ≡ true)
unfolding run select build validate first_index contains bytes_eq
run_trusted_example = run_trusted chain_of input refl
