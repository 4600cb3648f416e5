-- ===== src/Validation/Path.antt =====
-- src/lib/core/validation/PathEngine.cpp: which anchors a certificate chain is tried against, and
-- which of the results counts. The chain builder of src/lib/core/policy/CertificateChainValidator
-- is a parameter, so what is shown here holds whatever it answers.
pub mod Build
pub mod Select
pub mod Pipeline
use tamga.Prelude.{
  ℕ, suc, Bool, true, false, not, ◌&&◌, ◌||◌, List, [], ◌∷◌, ◌++◌, Option, none, some, Bytes,
  String, if◌then◌else◌, map,
}
use tamga.Validation.Types.{
  ChainStatus, TrustAnchorPolicy, current_tl_only, historical_at_signing_time,
  explicit_legacy_anchor_bundle, pinned_anchors, custom_trust_store, forensic_all_possible,
  ValidationPolicy,
}

pub record CertificateChainInput : Type 0 where
  pub signer_certificate_der : Bytes
  pub embedded_certificates_der : List Bytes
  pub intermediate_certificates_der : List Bytes
  pub aia_certificates_der : List Bytes
  pub trust_anchors_der : List Bytes
  pub trust_anchor_source : String
  pub validation_time : String

pub record CertificateChainResult : Type 0 where
  pub checked : Bool
  pub trusted : Bool
  pub chain_valid : Bool
  pub status : ChainStatus
  pub signer_certificate_time_valid : Bool
  pub issuer_certificate_der : Bytes
  pub signer_issuer_certificate_der : Bytes
  pub message : String
  pub chain_debug : String

pub record PathBuilderInput : Type 0 where
  pub signer_certificate_der : Bytes
  pub embedded_certificates_der : List Bytes
  pub intermediate_store_certificates_der : List Bytes
  pub aia_certificates_der : List Bytes
  pub current_trust_anchors_der : List Bytes
  pub historical_trust_anchors_der : List Bytes
  pub custom_trust_anchors_der : List Bytes
  pub pinned_trust_anchors_der : List Bytes
  pub policy : ValidationPolicy
  pub validation_time : String

pub record PathCandidate : Type 0 where
  pub candidate_id : String
  pub trust_anchor_source : String
  pub signer_certificate_der : Bytes
  pub embedded_certificates_der : List Bytes
  pub intermediate_certificates_der : List Bytes
  pub aia_certificates_der : List Bytes
  pub trust_anchors_der : List Bytes
  pub uses_historical_trust : Bool
  pub validation_time : String

pub record PathValidationResult : Type 0 where
  pub candidate_id : String
  pub trust_anchor_source : String
  pub attempted : Bool
  pub checked : Bool
  pub trusted : Bool
  pub chain_valid : Bool
  pub signer_certificate_time_valid : Bool
  pub status : ChainStatus
  pub message : String
  pub chain_debug : String
  pub issuer_certificate_der : Bytes
  pub signer_issuer_certificate_der : Bytes
  pub uses_historical_trust : Bool

-- `none` is `npos`.
pub record PathSelection : Type 0 where
  pub selected_index : Option ℕ
  pub selected_result : PathValidationResult
  pub reason : String

abbrev pub default_path_result : PathValidationResult
default_path_result = record {
  candidate_id = "";
  trust_anchor_source = "";
  attempted = false;
  checked = false;
  trusted = false;
  chain_valid = false;
  signer_certificate_time_valid = false;
  status = ChainStatus.not_checked;
  message = "";
  chain_debug = "";
  issuer_certificate_der = [];
  signer_issuer_certificate_der = [];
  uses_historical_trust = false;
}

abbrev pub default_selection : PathSelection
default_selection = record {
  selected_index = none;
  selected_result = default_path_result;
  reason = "no-candidates";
}

-- `vector::empty()`.
abbrev pub is_nil {ℓ} : {A : Type ℓ} → List A → Bool
is_nil [] = true
is_nil (x ∷ xs) = false

unfoldable pub make_candidate :
    PathBuilderInput → String → String → List Bytes → Bool → PathCandidate
make_candidate input candidate_id trust_anchor_source trust_anchors uses_historical_trust = record {
  candidate_id = candidate_id;
  trust_anchor_source = trust_anchor_source;
  signer_certificate_der = input.signer_certificate_der;
  embedded_certificates_der = input.embedded_certificates_der;
  intermediate_certificates_der = input.intermediate_store_certificates_der;
  aia_certificates_der = input.aia_certificates_der;
  trust_anchors_der = trust_anchors;
  uses_historical_trust = uses_historical_trust;
  validation_time = input.validation_time;
}

-- The two helpers return what they push.
unfoldable pub add_current_candidate : PathBuilderInput → String → String → List PathCandidate
unfolding make_candidate
add_current_candidate input candidate_id source =
    make_candidate input candidate_id source input.current_trust_anchors_der false ∷ []

unfoldable pub add_historical_candidate_if_allowed : PathBuilderInput → String → List PathCandidate
unfolding make_candidate
add_historical_candidate_if_allowed input candidate_id =
    if input.policy.allow_historical_trust && not (is_nil input.historical_trust_anchors_der)
    then make_candidate input candidate_id "historical-tl" input.historical_trust_anchors_der true
      ∷ []
    else []

unfoldable pub forensic_candidates : PathBuilderInput → List PathCandidate
unfolding add_current_candidate make_candidate
forensic_candidates input =
    let current = not (is_nil input.current_trust_anchors_der) in
    let historical = not (is_nil input.historical_trust_anchors_der) in
    (if current || not historical
      then add_current_candidate input "forensic-current-tl" "current-tl"
      else [])
    ++ (if historical
        then make_candidate input "forensic-historical-tl" "historical-tl"
            input.historical_trust_anchors_der true
          ∷ []
        else [])

unfoldable pub build_under : TrustAnchorPolicy → PathBuilderInput → List PathCandidate
unfolding add_historical_candidate_if_allowed forensic_candidates
build_under current_tl_only input = add_current_candidate input "current-tl" "current-tl"
build_under explicit_legacy_anchor_bundle input =
    add_current_candidate input "current-tl" "current-tl"
    ++ add_historical_candidate_if_allowed input "historical-tl"
build_under historical_at_signing_time input =
    add_current_candidate input "current-tl" "current-tl"
    ++ add_historical_candidate_if_allowed input "historical-tl"
build_under custom_trust_store input =
    make_candidate input "custom-trust-store" "custom-trust-store" input.custom_trust_anchors_der
      false
    ∷ []
build_under pinned_anchors input =
    make_candidate input "pinned-anchors" "pinned-anchors" input.pinned_trust_anchors_der false ∷ []
build_under forensic_all_possible input = forensic_candidates input

-- `PathBuilder::Build`.
unfoldable pub build : PathBuilderInput → List PathCandidate
unfolding build_under
build input = build_under input.policy.trust_anchor_policy input

-- `PathValidator::Validate`.
unfoldable pub validate :
    (CertificateChainInput → CertificateChainResult) → PathCandidate → PathValidationResult
validate chain_of candidate =
    let chain = chain_of (record {
      signer_certificate_der = candidate.signer_certificate_der;
      embedded_certificates_der = candidate.embedded_certificates_der;
      intermediate_certificates_der = candidate.intermediate_certificates_der;
      aia_certificates_der = candidate.aia_certificates_der;
      trust_anchors_der = candidate.trust_anchors_der;
      trust_anchor_source = candidate.trust_anchor_source;
      validation_time = candidate.validation_time;
    }) in
    record {
      candidate_id = candidate.candidate_id;
      trust_anchor_source = candidate.trust_anchor_source;
      attempted = true;
      checked = chain.checked;
      trusted = chain.trusted;
      chain_valid = chain.chain_valid;
      signer_certificate_time_valid = chain.signer_certificate_time_valid;
      status = chain.status;
      message = chain.message;
      chain_debug = chain.chain_debug;
      issuer_certificate_der = chain.issuer_certificate_der;
      signer_issuer_certificate_der = chain.signer_issuer_certificate_der;
      uses_historical_trust = candidate.uses_historical_trust;
    }

unfoldable pub is_authoritative_candidate_allowed : PathValidationResult → ValidationPolicy → Bool
is_authoritative_candidate_allowed result policy =
    not result.uses_historical_trust || policy.allow_historical_trust

-- A `for` loop that leaves at the first index whose result passes the test.
unfoldable pub first_index :
    (PathValidationResult → Bool)
    → ℕ
    → List PathValidationResult
    → Option (ℕ × PathValidationResult)
first_index p i [] = none
first_index p i (r ∷ rs) = if p r then some (i, r) else first_index p (suc i) rs

abbrev pub selected : ℕ → PathValidationResult → String → PathSelection
selected i r reason = record { selected_index = some i; selected_result = r; reason = reason }

unfoldable pub select_from : List PathValidationResult → ValidationPolicy → PathSelection
unfolding is_authoritative_candidate_allowed
select_from results policy =
    elim (first_index (λ r. r.trusted && is_authoritative_candidate_allowed r policy) 0 results) [
      | some (i, r) ↦ selected i r "trusted-candidate"
      | none ↦ elim (first_index (λ r. is_authoritative_candidate_allowed r policy) 0 results) [
        | some (i, r) ↦ selected i r "fallback-untrusted-candidate"
        | none ↦ record default_selection { reason = "no-authoritative-candidate" }
      ]
    ]

-- `PathSelector::Select`.
unfoldable pub select : List PathValidationResult → ValidationPolicy → PathSelection
unfolding select_from
select [] policy = default_selection
select (r ∷ rs) policy = select_from (r ∷ rs) policy
