-- ===== src/Validation/Timestamp.antt =====
-- src/lib/core/validation/TimestampEngine.cpp, built with TAMGA_CRYPTONITE_ENABLED: the data, the
-- small helpers and what the engine calls. The steps are in Steps, the whole in Engine.
-- Parsing and verifying tokens and certificates (src/lib/core/policy/TimestampValidator.cpp,
-- src/lib/core/cryptonite), the CRL cache and the file system are parameters.
pub mod Steps
pub mod Engine
pub mod Sound
pub mod Trust
pub mod Claims
use tamga.Prelude.Order.{bytes_eq}
use tamga.Prelude.{
  ℕ, Bool, true, false, not, ◌&&◌, ◌||◌, List, [], ◌∷◌, ◌++◌, Option, none, some, Bytes, String,
  take, if◌then◌else◌,
}
use tamga.Prelude.Find.{find_if}
use tamga.Validation.Types.{
  TimestampStatus, TimestampEngineResult, TrustAnchorPolicy, custom_trust_store, pinned_anchors,
  ValidationPolicy, ValidationPlan,
}
use tamga.Validation.Path.{CertificateChainInput, CertificateChainResult, is_nil}
use tamga.Validation.Revocation.{RevocationServices}

-- `profile` and `level` are not read.
pub record TimestampEngineInput : Type 0 where
  pub cms_der : Bytes
  pub explicit_timestamp_token_der : Bytes
  pub explicit_timestamp_imprint_source : Bytes
  pub policy : ValidationPolicy
  pub plan : ValidationPlan
  pub current_trust_anchors_der : List Bytes
  pub tsa_trust_anchors_der : List Bytes
  pub historical_trust_anchors_der : List Bytes
  pub historical_tsa_trust_anchors_der : List Bytes
  pub custom_trust_anchors_der : List Bytes
  pub pinned_trust_anchors_der : List Bytes
  pub intermediate_store_certificates_der : List Bytes
  pub additional_tsa_candidate_certificates_der : List Bytes
  pub embedded_crls_der : List Bytes
  pub embedded_ocsp_responses_der : List Bytes

-- `TimestampExtractionResult` and `TimestampValidationResult` of TimestampValidator.h, with the
-- fields that the engine reads.
pub record TimestampExtractionResult : Type 0 where
  pub success : Bool
  pub failure_code : String
  pub token_der : Bytes
  pub message : String

pub record TimestampValidationResult : Type 0 where
  pub valid : Bool
  pub failure_code : String
  pub gen_time : String
  pub tsa_certificate_der : Bytes
  pub embedded_certificates_der : List Bytes
  pub message : String

-- A value, or the error message of a call that returned false.
pub data Fetched : Type 0 where
  value : Bytes → Fetched
  failure : String → Fetched

pub record TimestampServices {ℓ} (World : Type ℓ) : Type ℓ where
  pub get_signature_value : Bytes → Fetched
  pub extract_token : Bytes → TimestampExtractionResult
  pub validate_token : Bytes → Bytes → List Bytes → TimestampValidationResult
  pub normalize_time : String → Option String
  pub is_certificate_valid_at : World → Bytes → String → Bool
  pub chain : World → CertificateChainInput → CertificateChainResult
  pub decodes : Bytes → Bool
  pub issued_by : Bytes → Bytes → Bool
  pub has_timestamping_eku : Bytes → Bool
  pub resolve_ocsp_url : World → Bytes → Bytes → String → String
  pub parent_path : String → String
  pub load_crls : World → String → List Bytes
  pub download_crls : World → Bytes → String → World
  pub revocation : RevocationServices World

-- `std::find(...) != end()`.
unfoldable pub contains : List Bytes → Bytes → Bool
contains [] v = false
contains (x ∷ xs) v = bytes_eq x v || contains xs v

unfoldable pub append_unique : List Bytes → List Bytes → List Bytes
unfolding contains
append_unique output [] = output
append_unique output (v ∷ vs) =
    append_unique (if not (is_nil v) && not (contains output v) then output ++ (v ∷ []) else output)
      vs

-- `certificate_candidates`.
unfoldable pub certificate_candidates : TimestampEngineInput → List Bytes
unfolding append_unique
certificate_candidates input =
    append_unique
      (append_unique
        (append_unique
          (append_unique
            (append_unique
              (append_unique
                (append_unique input.additional_tsa_candidate_certificates_der
                  input.intermediate_store_certificates_der)
                input.tsa_trust_anchors_der)
              input.current_trust_anchors_der)
            input.historical_tsa_trust_anchors_der)
          input.historical_trust_anchors_der)
        input.custom_trust_anchors_der)
      input.pinned_trust_anchors_der

-- The outcome of a step: an early return, or what the next step goes on with.
pub data Step {ℓ} (A : Type ℓ) : Type ℓ where
  stop : TimestampEngineResult → Step A
  go : A → Step A

infixl 5 ◌>>=◌
abbrev pub ◌>>=◌ {ℓ κ} : {A : Type ℓ} {B : Type κ} → Step A → (A → Step B) → Step B
stop r >>= f = stop r
go a >>= f = f a

-- `result.status = …; result.reason_code = …; result.because.push_back(…); return result;`
abbrev pub refused :
    TimestampEngineResult → TimestampStatus → String → String → TimestampEngineResult
refused r status reason_code text = record r {
  status = status;
  reason_code = reason_code;
  because = r.because ++ (text ∷ []);
}

module _ {ℓ} {World : Type ℓ} (services : TimestampServices World) where
  open services use {decodes, issued_by}

  -- `FindVerifiedTsaIssuer`: `issued_by tsa c` is that `c` decodes, bears the issuer's name and
  -- verifies the signature of `tsa`. At most 512 candidates are examined.
  unfoldable pub find_verified_tsa_issuer : Bytes → List Bytes → Bytes
  find_verified_tsa_issuer tsa candidates =
      if decodes tsa
      then elim (find_if (issued_by tsa) (take 512 candidates)) [ some c ↦ c | none ↦ [] ]
      else []

-- `use_tl_endpoints`.
unfoldable pub uses_tl_endpoints : TrustAnchorPolicy → Bool
uses_tl_endpoints custom_trust_store = false
uses_tl_endpoints pinned_anchors = false
uses_tl_endpoints _ = true

-- A loop over endpoint certificates: one equals the certificate of the TSA.
unfoldable pub matches_endpoint : Bytes → List Bytes → Bool
matches_endpoint tsa [] = false
matches_endpoint tsa (a ∷ as') = (not (is_nil a) && bytes_eq a tsa) || matches_endpoint tsa as'
