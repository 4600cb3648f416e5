-- ===== src/Validation/Timestamp/Sound.antt =====
-- What each step of the timestamp engine leaves behind, up to the check of revocation.
use tamga.Prelude.{
  Bool, true, false, ◌||◌, List, [], ◌∷◌, some, Bytes, String, ◌≡◌, ◌≢◌, ◌⊎◌, inl, inr, refl, arith,
  Bool-cases, take,
}
use tamga.Prelude.Find.{First, find_if-Finds}
use tamga.Validation.Types.{
  TimestampStatus, TimestampEngineResult, default_timestamp, ValidationPolicy,
}
use tamga.Validation.Path.{PathSelection, PathCandidate, is_nil}
use tamga.Validation.Path.Pipeline.{run}
use tamga.Validation.Timestamp.{
  TimestampEngineInput, TimestampValidationResult, TimestampServices, Fetched, value, failure,
  refused, Step, stop, go, ◌>>=◌, certificate_candidates, find_verified_tsa_issuer,
}
use tamga.Validation.Timestamp.Steps.{
  Trust, find_token, token_in_cms, check_crypto, check_time, check_trust, check_eku, check_issuer,
  with_issuer, issuer_candidates, judge_path, note_match, matches_current, matches_historical,
  path_input, extraction_status,
}
use tamga.Validation.Timestamp.Engine.{prepare}

-- No claim has been made yet.
abbrev pub IsOpen : TimestampEngineResult → Type 0
IsOpen r = (r.valid ≡ false) × (r.policy_acceptable ≡ false)

-- A policy that neither insists on revocation data nor on a trusted time.
abbrev pub IsLenient : ValidationPolicy → Type 0
IsLenient p = (p.revocation_hard_fail ≡ false) × (p.require_trusted_signing_time ≡ false)

-- A step stops with a result of which `R` holds, or goes on with what `P` says.
abbrev pub Ends {ℓ} :
    {A : Type ℓ} → (TimestampEngineResult → Type 0) → (A → Type 0) → Step A → Type 0
Ends R P (stop r) = R r
Ends R P (go a) = P a

Ends-bind {ℓ κ} :
    {A : Type ℓ} {B : Type κ} (R : TimestampEngineResult → Type 0) (P : A → Type 0) (Q : B → Type 0)
    (m : Step A) (f : A → Step B)
    → Ends R P m
    → ((a : A) → P a → Ends R Q (f a))
    → Ends R Q (m >>= f)
Ends-bind R P Q (stop r) f h k = h
Ends-bind R P Q (go a) f h k = k a h

First-passes {ℓ} : {A : Type ℓ} {p : A → Bool} {x : A} {xs : List A} → First p x xs → p x ≡ true
First-passes (First.here h) = h
First-passes (First.later _ f) = First-passes f

nil : (xs : Bytes) → is_nil xs ≡ true → xs ≡ []
nil [] h = refl
nil (x ∷ xs) h = absurd (ground (arith, h))

not_nil : (xs : Bytes) → is_nil xs ≡ false → xs ≢ []
not_nil xs h e = ground (arith, h, e)

Fetched-cases : (f : Fetched) → ((m : String) × (f ≡ failure m)) ⊎ ((b : Bytes) × (f ≡ value b))
Fetched-cases (failure m) = inl (m, refl)
Fetched-cases (value b) = inr (b, refl)

-- What holds of a token whose cryptography was checked.
abbrev pub Sound₁ : TimestampValidationResult → TimestampEngineResult → Type 0
Sound₁ v r =
    IsOpen r
    × (r.crypto_valid ≡ true)
    × (v.valid ≡ true)
    × (r.gen_time ≡ v.gen_time)
    × (r.tsa_certificate_der ≡ v.tsa_certificate_der)

module _ {ℓ} {World : Type ℓ} (services : TimestampServices World) (input : TimestampEngineInput)
    (w : World) where
  open services use {
    get_signature_value, extract_token, validate_token, normalize_time, is_certificate_valid_at,
    chain, has_timestamping_eku, issued_by,
  }

  -- The TSA stands in the trust list itself, or its path is trusted.
  abbrev pub IsTrusted : TimestampValidationResult → String → Type 0
  IsTrusted v time =
      ((matches_current input v.tsa_certificate_der
          || matches_historical input v.tsa_certificate_der)
        ≡ true)
      ⊎ ((run (chain w) (path_input input v time)).selected_result.trusted ≡ true)

  -- The answer of the service that verifies tokens, for the token and what it has to cover: the
  -- explicit token with its source; or, if there is none, the token of the CMS container with the
  -- value of its signature.
  pub data IsVerified (v : TimestampValidationResult) : Type 0 where
    explicit :
        input.explicit_timestamp_token_der ≢ []
        → input.explicit_timestamp_imprint_source ≢ []
        → v
          ≡ validate_token input.explicit_timestamp_token_der
              input.explicit_timestamp_imprint_source
              (certificate_candidates input)
        → IsVerified v
    embedded :
        (signature : Bytes)
        → input.explicit_timestamp_token_der ≡ []
        → input.cms_der ≢ []
        → get_signature_value input.cms_der ≡ value signature
        → (extract_token input.cms_der).success ≡ true
        → v
          ≡ validate_token
              (extract_token input.cms_der).token_der
              signature
              (certificate_candidates input)
        → IsVerified v

  -- The answer `v` is that the token is verified; its time is a time, within the life of the TSA's certificate; the
  -- TSA is trusted at that time, and may issue timestamps. The flags say so.
  pub record IsSound (v : TimestampValidationResult) (r : TimestampEngineResult) : Type 0 where
    pub crypto : (r.crypto_valid ≡ true) × (v.valid ≡ true)
    pub same_time : r.gen_time ≡ v.gen_time
    pub same_tsa : r.tsa_certificate_der ≡ v.tsa_certificate_der
    pub gen_time : (r.gen_time_valid ≡ true) × (normalize_time v.gen_time ≡ some r.validation_time)
    pub certificate_time :
        (r.certificate_time_valid ≡ true)
        × (is_certificate_valid_at w v.tsa_certificate_der r.validation_time ≡ true)
    pub trust : (r.trust_valid ≡ true) × IsTrusted v r.validation_time
    pub eku : (r.eku_valid ≡ true) × (has_timestamping_eku v.tsa_certificate_der ≡ true)

  abbrev pub HasSound : TimestampEngineResult → Type 0
  HasSound r = (v : TimestampValidationResult) × IsVerified v × IsSound v r

  -- A refusal: not valid, and acceptable at most to a lenient policy, for a sound token.
  abbrev pub IsRefusal : TimestampEngineResult → Type 0
  IsRefusal r =
      (r.valid ≡ false)
      × (r.status ≢ TimestampStatus.valid)
      × (r.policy_acceptable ≡ true → HasSound r × IsLenient input.policy)

  -- What holds after each further step.
  abbrev pub Sound₂ : TimestampValidationResult → TimestampEngineResult → Type 0
  Sound₂ v r =
      Sound₁ v r
      × (r.gen_time_valid ≡ true)
      × (normalize_time v.gen_time ≡ some r.validation_time)
      × (r.certificate_time_valid ≡ true)
      × (is_certificate_valid_at w v.tsa_certificate_der r.validation_time ≡ true)

  abbrev pub Sound₃ : TimestampValidationResult → TimestampEngineResult → Type 0
  Sound₃ v r = Sound₂ v r × (r.trust_valid ≡ true) × IsTrusted v r.validation_time

  abbrev pub Sound₄ : TimestampValidationResult → TimestampEngineResult → Type 0
  Sound₄ v r = IsOpen r × IsSound v r

  abbrev pub HasIssuer : TimestampEngineResult → Type 0
  HasIssuer r =
      (r.tsa_issuer_certificate_der ≢ [])
      × (issued_by r.tsa_certificate_der r.tsa_issuer_certificate_der ≡ true)

  abbrev pub Sound₅ : TimestampValidationResult → TimestampEngineResult → Type 0
  Sound₅ v r = Sound₄ v r × HasIssuer r × IsVerified v

  find_verified_tsa_issuer_sound :
      (tsa : Bytes) (cs : List Bytes)
      → find_verified_tsa_issuer services tsa cs ≢ []
      → issued_by tsa (find_verified_tsa_issuer services tsa cs) ≡ true
  unfolding find_verified_tsa_issuer
  find_verified_tsa_issuer_sound tsa cs h = elim (Bool-cases (services.decodes tsa)) [
    | inr e ↦ absurd (h (rw e))
    | inl e ↦ elim (find_if-Finds (issued_by tsa) (take 512 cs)) [
      | inl (c, f, found) ↦ rw (e, f) (First-passes found)
      | inr (f, n) ↦ absurd (h (rw (e, f)))
    ]
  ]

  check_crypto-Ends : (v : TimestampValidationResult) → Ends IsRefusal (Sound₁ v) (check_crypto v)
  unfolding check_crypto
  check_crypto-Ends v = elim (Bool-cases v.valid) [
    | inl e ↦ rw e ((refl, refl), refl, refl, refl, refl)
    | inr e ↦ rw e (refl, ground arith, λ h. cc)
  ]

  -- An early return, before any claim.
  early-IsRefusal :
      (status : TimestampStatus) (code text : String)
      → status ≢ TimestampStatus.valid
      → IsRefusal (refused default_timestamp status code text)
  early-IsRefusal status code text h = (refl, h, λ k. cc)

  extraction_status-ne-valid : (code : String) → extraction_status code ≢ TimestampStatus.valid
  unfolding extraction_status
  extraction_status-ne-valid code = ground arith

  token_in_cms-Ends :
      input.explicit_timestamp_token_der ≡ []
      → Ends IsRefusal IsVerified (token_in_cms services input)
  unfolding token_in_cms
  token_in_cms-Ends inside = elim (Bool-cases (is_nil input.cms_der)) [
    | inl e ↦ rw (e, token_in_cms) (early-IsRefusal _ _ _ (λ k. cc))
    | inr e ↦ elim (Fetched-cases (get_signature_value input.cms_der)) [
      | inl (message, failed) ↦ rw (e, failed, token_in_cms) (early-IsRefusal _ _ _ (λ k. cc))
      | inr (signature, got) ↦ elim (Bool-cases (extract_token input.cms_der).success) [
        | inl ok ↦
            rw (e, got, ok, token_in_cms)
              (IsVerified.embedded signature inside (not_nil input.cms_der e) got ok refl)
        | inr bad ↦
            rw (e, got, bad, token_in_cms)
              (early-IsRefusal _ _ _
                (extraction_status-ne-valid (extract_token input.cms_der).failure_code))
      ]
    ]
  ]

  find_token-Ends : Ends IsRefusal IsVerified (find_token services input)
  unfolding find_token
  find_token-Ends = elim (Bool-cases (is_nil input.explicit_timestamp_token_der)) [
    | inl e ↦ rw (e, find_token) (token_in_cms-Ends (nil input.explicit_timestamp_token_der e))
    | inr e ↦ elim (Bool-cases (is_nil input.explicit_timestamp_imprint_source)) [
      | inl bare ↦ rw (e, bare, find_token) (early-IsRefusal _ _ _ (λ k. cc))
      | inr whole ↦
          rw (e, whole, find_token)
            (IsVerified.explicit (not_nil input.explicit_timestamp_token_der e)
              (not_nil input.explicit_timestamp_imprint_source whole) refl)
    ]
  ]

  check_time-Ends :
      (v : TimestampValidationResult) (r : TimestampEngineResult)
      → Sound₁ v r
      → Ends IsRefusal (Sound₂ v) (check_time services w v r)
  unfolding check_time
  check_time-Ends v r h = ground arith

  judge_path-Ends :
      (v : TimestampValidationResult) (direct : Bool) (cs : List PathCandidate) (s : PathSelection)
      (r : TimestampEngineResult)
      → Sound₂ v r
      → ((direct ≡ true) ⊎ (s.selected_result.trusted ≡ true) → IsTrusted v r.validation_time)
      → Ends IsRefusal (λ (q, t). Sound₃ v q) (judge_path direct cs s r)
  unfolding judge_path
  judge_path-Ends v direct cs s r h k = elim (Bool-cases direct) [
    | inl e ↦ rw e (unfold judge_path in ground (arith, k (inl e)))
    | inr e ↦ elim (Bool-cases s.selected_result.trusted) [
      | inl t ↦ ground (arith, k (inr t))
      | inr t ↦ ground arith
    ]
  ]

  note_match-Sound₂ :
      (v : TimestampValidationResult) (current historical : Bool) (r : TimestampEngineResult)
      → Sound₂ v r
      → Sound₂ v (note_match current historical r)
  unfolding note_match
  note_match-Sound₂ v current historical r h = ground arith

  note_match_time :
      (current historical : Bool) (r : TimestampEngineResult)
      → (note_match current historical r).validation_time ≡ r.validation_time
  unfolding note_match
  note_match_time current historical r = ground arith

  check_trust-Ends :
      (v : TimestampValidationResult) (r : TimestampEngineResult)
      → Sound₂ v r
      → Ends IsRefusal (λ (q, t). Sound₃ v q) (check_trust services w input v r)
  unfolding check_trust run path_input
  check_trust-Ends v r h =
      let tsa = v.tsa_certificate_der in
      let noted = note_match (matches_current input tsa) (matches_historical input tsa) r in
      judge_path-Ends v _ _ _ noted
        (note_match-Sound₂ v (matches_current input tsa) (matches_historical input tsa) r h)
        (rw (note_match_time (matches_current input tsa) (matches_historical input tsa) r) λ k. k)

  check_eku-Ends :
      (v : TimestampValidationResult) (r : TimestampEngineResult)
      → Sound₃ v r
      → Ends IsRefusal (Sound₄ v) (check_eku services v r)
  unfolding check_eku
  check_eku-Ends v r h = ground arith

  with_issuer-Ends :
      (v : TimestampValidationResult) (issuer : Bytes) (r : TimestampEngineResult)
      → IsVerified v
      → Sound₄ v r
      → (issuer ≢ [] → issued_by v.tsa_certificate_der issuer ≡ true)
      → Ends IsRefusal (Sound₅ v) (with_issuer input issuer r)
  unfolding with_issuer
  with_issuer-Ends v [] r verified (o, s) k =
      (o.0, (λ e. cc), λ a. ((v, verified, ground (arith, s)), ground arith))
  with_issuer-Ends v (b ∷ bs) r verified (o, s) k =
      ((o, ground (arith, s)), ((λ e. cc), rw (s.same_tsa) (k λ e. cc)), verified)

  check_issuer-Ends :
      (v : TimestampValidationResult) (t : Trust) (r : TimestampEngineResult)
      → IsVerified v
      → Sound₄ v r
      → Ends IsRefusal (Sound₅ v) (check_issuer services input v t r)
  unfolding check_issuer
  check_issuer-Ends v t r verified h =
      with_issuer-Ends v _ r verified h
        (find_verified_tsa_issuer_sound v.tsa_certificate_der (issuer_candidates input v t))

  pub prepare-Ends : Ends IsRefusal (λ (v, r). Sound₅ v r) (prepare services w input)
  unfolding prepare
  prepare-Ends =
      Ends-bind IsRefusal IsVerified _ (find_token services input) _ find_token-Ends λ v verified.
        Ends-bind IsRefusal (Sound₁ v) _ (check_crypto v) _ (check_crypto-Ends v) λ r₁ h₁.
          Ends-bind IsRefusal (Sound₂ v) _ (check_time services w v r₁) _ (check_time-Ends v r₁ h₁)
            λ r₂ h₂.
              Ends-bind IsRefusal (λ (q, t). Sound₃ v q) _ (check_trust services w input v r₂) _
                (check_trust-Ends v r₂ h₂)
                λ (r₃, t) h₃.
                  Ends-bind IsRefusal (Sound₄ v) _ (check_eku services v r₃) _
                    (check_eku-Ends v r₃ h₃)
                    λ r₄ h₄.
                      Ends-bind IsRefusal (Sound₅ v) _ (check_issuer services input v t r₄) _
                        (check_issuer-Ends v t r₄ verified h₄) λ r₅ h₅. h₅
