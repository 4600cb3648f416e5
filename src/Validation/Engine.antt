-- ===== src/Validation/Engine.antt =====
-- `ValidationEngine::Validate` of src/lib/core/validation/ValidationEngine.cpp: how the parts work
-- together. The file system, the trust-list parser and the downloads are parameters.
pub mod Run
pub mod Laws
pub mod Backed
use Prim.Native.Char.{code}
use Prim.Native.String
use tamga.Prelude.{
  Bool, true, false, not, ◌&&◌, ◌||◌, List, [], ◌∷◌, ◌++◌, Option, none, some, Bytes, String, codes,
  is_empty, concat, str_eq, ◌==◌, map, if◌then◌else◌,
}
use tamga.Validation.Types.{
  SigningTimeSource, SigningTimeCandidate, SigningTimeResolution, OverallStatus, TimestampStatus,
  TrustAnchorPolicy, ValidationContext, ValidationPolicy, ValidationPlan, ValidationDecision,
  TrustServiceDecision, default_trust_service, TimestampEngineResult, default_timestamp,
}
use tamga.Validation.Path.{
  PathBuilderInput, PathSelection, PathValidationResult, build, select, validate, is_nil,
}
use tamga.Validation.Revocation.{
  CertificateRole, RevocationEngineInput, RevocationEngineResult, default_revocation_result,
}
use tamga.Validation.TrustService.{
  DirectoryEntry, Snapshot, current_tl, historical_tl, TrustListParseResult, select_snapshot,
  evaluate,
}
use tamga.Validation.Timestamp.{TimestampEngineInput, TimestampServices}
use tamga.Validation.Decision.{Findings, synthesize_decision, is_some}
use tamga.Validation.EvidenceStore.{EvidenceStore, put_raw_evidence, put_derived_evidence}
use tamga.Validation.PolicyResolver as PolicyResolver
use tamga.Validation.SigningTime as SigningTime
use tamga.Validation.Revocation.Engine as Revocation
use tamga.Validation.Timestamp.Engine as Timestamp

pub record ValidationReport : Type 0 where
  pub decision : ValidationDecision
  pub path_selection : PathSelection
  pub trust_service : TrustServiceDecision
  pub signer_revocation : RevocationEngineResult
  pub timestamp : TimestampEngineResult
  pub timestamp_attempted : Bool
  pub signing_time_resolution : SigningTimeResolution
  pub evidence : EvidenceStore

-- A file of a certificate directory: its extension, and its content if it could be read.
pub record CertificateFile : Type 0 where
  pub is_regular_file : Bool
  pub extension : String
  pub content : Option Bytes

unfoldable pub is_certificate_file : CertificateFile → Bool
is_certificate_file f =
    f.is_regular_file
    && (str_eq f.extension ".cer" || str_eq f.extension ".crt" || str_eq f.extension ".der")

-- The loop of `LoadCertificatesFromDir`.
unfoldable pub load_files : List CertificateFile → List Bytes
unfolding is_certificate_file
load_files [] = []
load_files (f ∷ fs) =
    let rest = load_files fs in
    if is_certificate_file f
    then elim f.content [ none ↦ rest | some data' ↦ if is_nil data' then rest else data' ∷ rest ]
    else rest

-- `LoadCertificatesFromDir`; `none` is a directory that does not exist.
unfoldable pub load_certificates_from_dir : Option (List CertificateFile) → List Bytes
unfolding load_files
load_certificates_from_dir none = []
load_certificates_from_dir (some files) = load_files files

-- What follows a prefix: `rel.rfind(prefix, 0) == 0` and `rel.substr(prefix.size())`.
unfoldable pub strip_prefix : String → String → Option String
strip_prefix String.[] s = some s
strip_prefix (String.◌∷◌ c p) String.[] = none
strip_prefix (String.◌∷◌ c p) (String.◌∷◌ d s) =
    let rest = strip_prefix p s in if code c == code d then rest else none

-- `StableSnapshotId`, of the path relative to the work directory; `none` is an error.
unfoldable pub stable_snapshot_id : Option String → String
unfolding strip_prefix
stable_snapshot_id none = "unknown"
stable_snapshot_id (some rel) =
    if is_empty rel || is_some (strip_prefix ".." rel)
    then "unknown"
    else elim (strip_prefix "trust-list/history/" rel) [
      | some file ↦ concat "history/" file
      | none ↦ if is_some (strip_prefix "trust-list/" rel) then "current" else "unknown"
    ]

-- What the file system and the libraries provide, with the steps of the other parts.
pub record EngineServices {ℓ} (World : Type ℓ) : Type ℓ where
  pub timestamp : TimestampServices World
  pub join : String → String → String
  pub utf8 : String → Bytes
  pub digest : Bytes → Bytes
  pub list_certificates : World → String → Option (List CertificateFile)
  pub list_history : World → String → Option (List DirectoryEntry)
  pub snapshot_path : String → Snapshot → String
  pub relative_path : String → String → Option String
  pub read_text : World → String → Option String
  pub parse_trust_list : String → TrustListParseResult

-- The certificates of the work directory.
pub record Anchors : Type 0 where
  pub current : List Bytes
  pub historical : List Bytes
  pub intermediate : List Bytes
  pub tsa : List Bytes
  pub historical_tsa : List Bytes

abbrev pub unproven_time : SigningTimeSource → String → List SigningTimeCandidate
unproven_time source time =
    if is_empty time
    then []
    else record {
      source = source;
      time = time;
      evidence_id = "";
      cryptographically_valid = false;
      trusted = false;
      warnings = [];
    }
      ∷ []

-- `time_candidates`.
unfoldable pub time_candidates : ValidationContext → List SigningTimeCandidate
time_candidates context =
    unproven_time SigningTimeSource.verification_time_fallback context.verification_time
    ++ unproven_time SigningTimeSource.claimed_signing_time context.claimed_signing_time

unfoldable pub timestamp_input :
    ValidationContext
    → ValidationPolicy
    → ValidationPlan
    → Anchors
    → List Bytes
    → TimestampEngineInput
timestamp_input context policy plan anchors embedded = record {
  cms_der = context.cms_der;
  explicit_timestamp_token_der = [];
  explicit_timestamp_imprint_source = [];
  policy = policy;
  plan = plan;
  current_trust_anchors_der = anchors.current;
  tsa_trust_anchors_der = anchors.tsa;
  historical_trust_anchors_der = anchors.historical;
  historical_tsa_trust_anchors_der = anchors.historical_tsa;
  custom_trust_anchors_der = [];
  pinned_trust_anchors_der = [];
  intermediate_store_certificates_der = anchors.intermediate;
  additional_tsa_candidate_certificates_der = embedded;
  embedded_crls_der = context.embedded_revocation_crl_der;
  embedded_ocsp_responses_der = context.embedded_revocation_ocsp_der;
}

abbrev pub is_missing : TimestampStatus → Bool
is_missing TimestampStatus.missing = true
is_missing _ = false

abbrev pub front : List String → String
front [] = ""
front (x ∷ xs) = x

-- The candidate of a valid timestamp.
abbrev pub proven_time : TimestampEngineResult → String → SigningTimeCandidate
proven_time ts time = record {
  source = SigningTimeSource.rfc3161_timestamp;
  time = time;
  evidence_id = front ts.evidence_ids;
  cryptographically_valid = true;
  trusted = true;
  warnings = [];
}

-- `final_candidates`; `normalized` is what `NormalizeTimestampTime` makes of `gen_time`.
unfoldable pub final_candidates :
    Bool
    → TimestampEngineResult
    → Option String
    → List SigningTimeCandidate
    → List SigningTimeCandidate
final_candidates attempted ts normalized candidates =
    if attempted && ts.valid
    then elim normalized [ none ↦ candidates | some time ↦ proven_time ts time ∷ candidates ]
    else candidates

unfoldable pub path_input :
    ValidationPolicy → Anchors → Bytes → List Bytes → String → PathBuilderInput
path_input policy anchors signer embedded time = record {
  signer_certificate_der = signer;
  embedded_certificates_der = embedded;
  intermediate_store_certificates_der = anchors.intermediate;
  aia_certificates_der = [];
  current_trust_anchors_der = anchors.current;
  historical_trust_anchors_der = anchors.historical;
  custom_trust_anchors_der = [];
  pinned_trust_anchors_der = [];
  policy = policy;
  validation_time = time;
}

abbrev pub is_current_tl_only : TrustAnchorPolicy → Bool
is_current_tl_only TrustAnchorPolicy.current_tl_only = true
is_current_tl_only _ = false

-- `issuer_cert_der`.
abbrev pub issuer_of : PathSelection → Bytes
issuer_of s =
    if is_some s.selected_index then s.selected_result.signer_issuer_certificate_der else []

unfoldable pub signer_revocation_input :
    ValidationContext
    → ValidationPolicy
    → ValidationPlan
    → Bytes
    → Bytes
    → String
    → List Bytes
    → RevocationEngineInput
signer_revocation_input context policy plan signer issuer time crls = record {
  certificate_der = signer;
  issuer_certificate_der = issuer;
  role = CertificateRole.signer;
  validation_time = time;
  network_allowed = plan.network_allowed;
  revocation_hard_fail = policy.revocation_hard_fail;
  crls_der = crls ++ context.embedded_revocation_crl_der;
  embedded_ocsp_response = [];
  embedded_ocsp_responses_der = context.embedded_revocation_ocsp_der;
  ocsp_url = context.ocsp_url;
}

-- The result without a signer's certificate.
abbrev pub without_signer : RevocationEngineResult
without_signer = record default_revocation_result {
  because = "Сертифікат підписанта відсутній — перевірка відкликання неможлива." ∷ [];
}

-- The last addition to the decision.
unfoldable pub note_crypto : Bool → ValidationDecision → ValidationDecision
note_crypto true d = d
note_crypto false d = record d {
  because =
      d.because
      ++ ("Криптографічна перевірка підпису не підтверджена викликачем (ValidationContext.signature_crypto_valid=false)."
          ∷ []);
}
