-- ===== src/Validation/Engine/Laws.antt =====
-- The engine fails closed, and where a trusted signing time comes from.
use tamga.Prelude.{
  Bool, true, false, ◌&&◌, List, ◌∷◌, Option, some, Bytes, String, ◌≡◌, ◌⊎◌, inl, inr, refl, ap,
  arith, Bool-cases, Option-cases,
}
use tamga.Prelude.Find.{First, NonePass}
use tamga.Validation.Types.{
  OverallStatus, ValidationContext, ValidationDecision, ValidationPolicy, ResolvedValidationPolicy,
  SigningTimeCandidate, SigningTimeResolution, TimestampEngineResult,
}
use tamga.Validation.Decision.Verdict.{synthesize_decision-invalid}
use tamga.Validation.SigningTime.{is_trusted_timestamp}
use tamga.Validation.SigningTime.Laws.{
  Chosen, by_timestamp, by_claim, by_verification_time, by_nothing, resolve-Chosen,
}
use tamga.Validation.PolicyResolver as PolicyResolver
use tamga.Validation.Engine.{
  ValidationReport, EngineServices, note_crypto, time_candidates, final_candidates,
}
use tamga.Validation.Engine.Run.{validate, gather, report_of, resolve_time}

pub note_crypto_status :
    (b : Bool) (d : ValidationDecision) → (note_crypto b d).overall_status ≡ d.overall_status
unfolding note_crypto
note_crypto_status true d = refl
note_crypto_status false d = refl

-- The candidates from the context are not trusted timestamps.
time_candidates_untrusted :
    (context : ValidationContext) → NonePass is_trusted_timestamp (time_candidates context)
unfolding time_candidates is_trusted_timestamp
time_candidates_untrusted context = ground arith

First-NonePass {ℓ} :
    {A : Type ℓ} {p : A → Bool} {x : A} {xs : List A} → First p x xs → NonePass p xs → true ≡ false
First-NonePass (First.here h) n = cc
First-NonePass (First.later _ f) n = First-NonePass f n.1

First-cons {ℓ} :
    {A : Type ℓ} {p : A → Bool} {x y : A} {ys : List A}
    → First p x (y ∷ ys)
    → (x ≡ y) ⊎ First p x ys
First-cons (First.here h) = inl refl
First-cons (First.later _ f) = inr f

-- A trusted timestamp among the final candidates is that of the timestamp engine.
abbrev IsProven : Bool → TimestampEngineResult → Option String → String → Type 0
IsProven attempted ts normalized time =
    (attempted ≡ true) × (ts.valid ≡ true) × (normalized ≡ some time)

final_candidates-IsProven :
    (attempted : Bool) (ts : TimestampEngineResult) (normalized : Option String)
    (context : ValidationContext) (c : SigningTimeCandidate)
    → First is_trusted_timestamp c
        (final_candidates attempted ts normalized (time_candidates context))
    → IsProven attempted ts normalized c.time
unfolding final_candidates
final_candidates-IsProven attempted ts normalized context c f =
    let unproven = time_candidates_untrusted context in
    elim (Bool-cases (attempted && ts.valid)) [
      | inr e ↦ cc (First-NonePass (rw (e, final_candidates) at f) unproven)
      | inl e ↦ elim (Option-cases normalized) [
        | inl n ↦ cc (First-NonePass (rw (e, n, final_candidates) at f) unproven)
        | inr (time, n) ↦ elim (First-cons (rw (e, n, final_candidates) at f)) [
          | inl same ↦ ground (arith, ap (λ d. d.time) same)
          | inr more ↦ cc (First-NonePass more unproven)
        ]
      ]
    ]

Chosen-First :
    {cs : List SigningTimeCandidate} {context : ValidationContext} {r : SigningTimeResolution}
    → Chosen cs context r
    → r.trusted_time ≡ true
    → (c : SigningTimeCandidate) × First is_trusted_timestamp c cs
      × (r.signature_evaluation_time ≡ c.time)
Chosen-First (by_timestamp c f e _ _ _ _) h = (c, f, e)
Chosen-First (by_claim c _ _ _ _ _ _ e) h = cc
Chosen-First (by_verification_time _ _ _ _ _ _ e) h = cc
Chosen-First (by_nothing _ _ _ _ _ _ e) h = cc

resolve_time-IsProven {ℓ} :
    {World : Type ℓ} (services : EngineServices World) (context : ValidationContext)
    (policy : ValidationPolicy) (ts : TimestampEngineResult) (attempted : Bool)
    → (resolve_time services context policy ts attempted).trusted_time ≡ true
    → IsProven attempted ts
        (services.timestamp.normalize_time ts.gen_time)
        (resolve_time services context policy ts attempted).signature_evaluation_time
unfolding resolve_time
resolve_time-IsProven services context policy ts attempted h =
    let normalized = services.timestamp.normalize_time ts.gen_time in
    let cs = final_candidates attempted ts normalized (time_candidates context) in
    let (c, f, e) = Chosen-First (resolve-Chosen cs context policy) h in
    rw e (final_candidates-IsProven attempted ts normalized context c f)

module _ {ℓ} {World : Type ℓ} (services : EngineServices World) (w : World)
    (context : ValidationContext) (signer : Bytes) (embedded : List Bytes) where
  abbrev resolved : ResolvedValidationPolicy
  resolved = PolicyResolver.resolve services.join context

  abbrev report : ValidationReport
  report = (validate services w context signer embedded).0

  -- The engine fails closed: without a cryptographic check that succeeded before, the decision is
  -- invalid, whatever certificates, timestamps, lists and answers there are.
  pub validate_fails_closed :
      context.signature_crypto_valid ≡ false
      → report.decision.overall_status ≡ OverallStatus.invalid
  unfolding validate gather report_of
  validate_fails_closed h =
      rw (note_crypto_status context.signature_crypto_valid _)
        ((synthesize_decision-invalid _).1 (inl h))

  -- A signing time is reported as trusted only if a timestamp was there and found valid, and then it
  -- is the normalised time of that timestamp.
  pub validate_trusted_time :
      report.signing_time_resolution.trusted_time ≡ true
      → (report.timestamp_attempted ≡ true)
        × (report.timestamp.valid ≡ true)
        × (services.timestamp.normalize_time report.timestamp.gen_time
            ≡ some report.signing_time_resolution.signature_evaluation_time)
  unfolding validate gather report_of
  validate_trusted_time h = resolve_time-IsProven services context resolved.policy _ _ h
