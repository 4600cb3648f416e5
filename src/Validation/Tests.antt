-- ===== src/Validation/Tests.antt =====
-- src/lib/core/validation at concrete inputs: the policy, the signing time and the trust list.
mod Path
mod Decision
mod Revocation
mod Timestamp
mod EvidenceStore
pub mod Engine
use tamga.Prelude.Order.{bytes_eq, bytes_lt}
use tamga.Prelude.{
  ℕ, Bool, true, false, List, [], ◌∷◌, ◌++◌, Option, none, some, Bytes, String, codes, concat,
  length, take, ◌≡◌, ◌≢◌, ◌≤◌, inl, inr, refl, arith,
}
use tamga.Prelude.Find.{find_if}
use tamga.Validation.Types.{
  ValidationProfile, ValidationLevel, ValidationContext, ValidationPolicy, TrustAnchorPolicy,
  SigningTimeCandidate, SigningTimeSource, default_policy,
}
use tamga.Validation.PolicyResolver as PolicyResolver
use tamga.Validation.PolicyResolver.Laws.{resolve-network_allowed, resolve-allow_historical_trust}
use tamga.Validation.SigningTime as SigningTime
use tamga.Validation.SigningTime.Laws.{Chosen, resolve-Chosen, resolve_limitation}
use tamga.Validation.TrustService.{
  DirectoryEntry, Snapshot, historical_tl, current_tl, select_snapshot, TrustListServiceRecord,
  TrustListParseResult, evaluate, contains_certificate, chosen, search_history, round, is_snapshot,
  consider, find_service, judge_service,
}
use tamga.Validation.TrustService.Choice.{Consults, select_snapshot-Consults}
use tamga.Validation.TrustService.Granted.{evaluate_trusted}

abbrev slash : String → String → String
slash a b = concat a (concat "/" b)

abbrev online : ValidationContext
online = record {
  profile = ValidationProfile.ukraine_legal;
  level = ValidationLevel.extended;
  verification_time = "2024-06-01T00:00:00Z";
  offline = false;
  work_dir = "work";
  cms_der = [];
  claimed_signing_time = "";
  embedded_revocation_ocsp_der = [];
  embedded_revocation_crl_der = [];
  ocsp_url = "";
  signature_crypto_valid = true;
}

historical_path :
    (PolicyResolver.resolve slash online).plan.historical_trust_store_path
    ≡ "work/historical-trust-store"
unfolding PolicyResolver.resolve
historical_path = refl

resolve-network_allowed_example : (PolicyResolver.resolve slash online).plan.network_allowed ≡ true
unfolding PolicyResolver.is_known_profile PolicyResolver.is_known_level
resolve-network_allowed_example =
    (resolve-network_allowed slash online).1 (refl, refl, refl, λ e. cc)

resolve-allow_historical_trust_example :
    (PolicyResolver.resolve slash online).policy.allow_historical_trust ≡ true
unfolding PolicyResolver.is_known_level PolicyResolver.resolve
resolve-allow_historical_trust_example =
    (resolve-allow_historical_trust slash online).1 (refl, inr (refl, refl))

-- A timestamp of a TSA that is not trusted, and a claimed time.
abbrev untrusted_timestamp : SigningTimeCandidate
untrusted_timestamp = record {
  source = SigningTimeSource.rfc3161_timestamp;
  time = "2024-05-01T10:00:00Z";
  evidence_id = "tst";
  cryptographically_valid = true;
  trusted = false;
  warnings = [];
}

abbrev claim : SigningTimeCandidate
claim = record untrusted_timestamp {
  source = SigningTimeSource.claimed_signing_time;
  time = "2024-04-30T09:00:00Z";
  evidence_id = "";
  cryptographically_valid = false;
}

abbrev times : List SigningTimeCandidate
times = untrusted_timestamp ∷ claim ∷ []

abbrev timed_policy : ValidationPolicy
timed_policy = record default_policy { require_trusted_signing_time = true }

claimed_time :
    (SigningTime.resolve times online timed_policy).signature_evaluation_time
    ≡ "2024-04-30T09:00:00Z"
unfolding SigningTime.resolve SigningTime.collect_skipped_rfc3161_diagnostics find_if
    SigningTime.is_trusted_timestamp SigningTime.is_claimed_time
claimed_time = refl

resolve-Chosen_example : Chosen times online (SigningTime.resolve times online timed_policy)
resolve-Chosen_example = resolve-Chosen times online timed_policy

resolve_limitation_example :
    (l : List String) × ((SigningTime.resolve times online timed_policy).limitations
      ≡ l ++ ("trusted-signing-time-required" ∷ []))
unfolding SigningTime.resolve find_if SigningTime.is_trusted_timestamp SigningTime.is_claimed_time
resolve_limitation_example = resolve_limitation times online timed_policy refl refl

abbrev history : List DirectoryEntry
history =
    record { filename = codes "TL-UA-EC-2023-11.xml"; is_regular_file = true }
    ∷ record { filename = codes "TL-UA-EC-2024-02.xml"; is_regular_file = true }
    ∷ record { filename = codes "TL-UA-EC-2024-07.xml"; is_regular_file = true }
    ∷ []

february :
    select_snapshot (some history) (codes "2024-06-01") false
    ≡ historical_tl (codes "TL-UA-EC-2024-02.xml")
unfolding select_snapshot chosen search_history round is_snapshot consider bytes_lt
february = refl

select_snapshot-Consults_example :
    Consults
      (some history)
      (codes "2024-06-01")
      false
      (select_snapshot (some history) (codes "2024-06-01") false)
select_snapshot-Consults_example =
    select_snapshot-Consults (some history) (codes "2024-06-01") false

abbrev granted_service : TrustListServiceRecord
granted_service = record {
  service_type = "CA/QC";
  status = "http://uri.etsi.org/TrstSvc/Svcstatus/granted";
  certificates = (1 ∷ 2 ∷ []) ∷ (3 ∷ []) ∷ [];
}

abbrev parsed : String → TrustListParseResult
parsed xml = record { ok = true; message = ""; services = granted_service ∷ [] }

evaluate_trusted_example : (evaluate parsed (3 ∷ []) "<tl/>" "tl-1").snapshot_evidence_id ≡ "tl-1"
unfolding evaluate bytes_eq find_service find_if contains_certificate judge_service
evaluate_trusted_example =
    let (filled, ok, (s, f, i, granted, status, id)) =
      evaluate_trusted parsed (3 ∷ []) "<tl/>" "tl-1" refl in
    id
