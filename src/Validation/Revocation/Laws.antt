-- ===== src/Validation/Revocation/Laws.antt =====
-- What a revocation verdict rests on.
use tamga.Prelude.{
  some, none, Bool, true, false, not, ◌&&◌, List, [], ◌∷◌, ◌≡◌, ◌≢◌, inl, inr, refl, arith,
  Bool-cases, Bytes, if◌then◌else◌, is_empty,
}
use tamga.Prelude.Int.{ℤ, ltb_ℤ, is_zero_ℤ}
use tamga.Validation.Types.{RevocationStatus, OverallStatus}
use tamga.Validation.Path.{is_nil}
use tamga.Validation.Revocation.{
  RevocationServices, RevocationEngineInput, RevocationEngineResult, OcspValidationInput,
  OcspValidationResult, CrlValidationInput, CrlValidationResult, Progress, is_definite,
  embedded_miss, embedded_hit, take_crl, crl_request, is_ocsp_answer, embedded_request,
  ocsp_candidates, try_embedded, try_crls,
}
use tamga.Validation.Revocation.Engine.{
  validate, consult, judge, evaluation_moment, try_network, take_network, skip_network,
  network_request, start,
}

-- A definite status of `q` is that of `p`.
abbrev Keeps : Progress → Progress → Type 0
Keeps p q =
    is_definite q.final_status ≡ true
    → (q.final_status ≡ p.final_status) × (q.final_revocation_time ≡ p.final_revocation_time)

embedded_miss-Keeps : (res : OcspValidationResult) (p : Progress) → Keeps p (embedded_miss res p)
unfolding embedded_miss
embedded_miss-Keeps res p = ground arith

take_crl-Keeps :
    (res : CrlValidationResult) (p : Progress)
    → (res.checked && is_definite res.status) ≡ false
    → Keeps p (take_crl res p)
unfolding take_crl
take_crl-Keeps res p e = ground arith

take_network-Keeps :
    (res : OcspValidationResult) (p : Progress)
    → is_ocsp_answer res ≡ false
    → Keeps p (take_network res p)
unfolding take_network
take_network-Keeps res p e = ground arith

skip_network-Keeps : (input : RevocationEngineInput) (p : Progress) → Keeps p (skip_network input p)
unfolding skip_network
skip_network-Keeps input p = ground arith

-- A definite answer is taken over as it is.
abbrev Takes : RevocationStatus → ℤ → Progress → Type 0
Takes status time q = (q.final_status ≡ status) × (q.final_revocation_time ≡ time)

take_crl-Takes :
    (res : CrlValidationResult) (p : Progress)
    → (res.checked && is_definite res.status) ≡ true
    → Takes res.status res.revocation_time (take_crl res p)
unfolding take_crl
take_crl-Takes res p e = ground arith

take_network-Takes :
    (res : OcspValidationResult) (p : Progress)
    → is_ocsp_answer res ≡ true
    → Takes res.status res.revocation_time (take_network res p)
unfolding take_network
take_network-Takes res p e = ground arith

and-true : (a b : Bool) → (a && b) ≡ true → a ≡ true
and-true a b h = ground arith

module _ {ℓ} {World : Type ℓ} (services : RevocationServices World)
    (input : RevocationEngineInput) where
  open services use {ocsp, crl}

  -- A check of the certificate at hand, with its issuer, that was carried out and gave this status.
  pub data Evidence (status : RevocationStatus) (time : ℤ) : Type ℓ where
    from_ocsp :
        (w : World) (i : OcspValidationInput)
        → i.signer_certificate_der ≡ input.certificate_der
        → i.issuer_certificate_der ≡ input.issuer_certificate_der
        → (ocsp w i).0.checked ≡ true
        → (ocsp w i).0.status ≡ status
        → (ocsp w i).0.revocation_time ≡ time
        → Evidence status time
    from_crl :
        (w : World) (i : CrlValidationInput)
        → i.signer_certificate_der ≡ input.certificate_der
        → i.issuer_certificate_der ≡ input.issuer_certificate_der
        → i.crls_der ≡ input.crls_der
        → (crl w i).checked ≡ true
        → (crl w i).status ≡ status
        → (crl w i).revocation_time ≡ time
        → Evidence status time

  abbrev IsBacked : Progress → Type ℓ
  IsBacked p = is_definite p.final_status ≡ true → Evidence p.final_status p.final_revocation_time

  Keeps-IsBacked : (p q : Progress) → Keeps p q → IsBacked p → IsBacked q
  Keeps-IsBacked p q k b d = let (e, t) = k d in rw (e, t) (b (rw e at d))

  Takes-IsBacked :
      (status : RevocationStatus) (time : ℤ) (q : Progress)
      → Takes status time q
      → Evidence status time
      → IsBacked q
  Takes-IsBacked status time q (e, t) h _ = rw (e, t) h

  ocsp-Evidence :
      (w : World) (i : OcspValidationInput)
      → i.signer_certificate_der ≡ input.certificate_der
      → i.issuer_certificate_der ≡ input.issuer_certificate_der
      → is_ocsp_answer (ocsp w i).0 ≡ true
      → Evidence (ocsp w i).0.status (ocsp w i).0.revocation_time
  ocsp-Evidence w i s t e = from_ocsp w i s t (and-true _ _ e) refl refl

  try_embedded-IsBacked :
      (rs : List Bytes) (w : World) (p : Progress)
      → IsBacked p
      → IsBacked (try_embedded services input rs w p).0
  unfolding try_embedded embedded_hit embedded_request
  try_embedded-IsBacked [] w p b = b
  try_embedded-IsBacked (r ∷ rs) w p b =
      let asked = ocsp w (embedded_request input r) in
      elim (Bool-cases (is_ocsp_answer asked.0)) [
        | inl e ↦
            let found = ocsp-Evidence w (embedded_request input r) refl refl e in rw e (λ _. found)
        | inr e ↦
            let kept =
              Keeps-IsBacked p (embedded_miss asked.0 p) (embedded_miss-Keeps asked.0 p) b in
            rw e (try_embedded-IsBacked rs asked.1 (embedded_miss asked.0 p) kept)
      ]

  try_crls-IsBacked :
      (w : World) (p : Progress) → IsBacked p → IsBacked (try_crls services input w p)
  unfolding try_crls crl_request
  try_crls-IsBacked w p b =
      let res = crl w (crl_request input) in
      elim (Bool-cases (not (is_definite p.final_status) && not (is_nil input.crls_der))) [
        | inr skipped ↦ rw skipped b
        | inl asked ↦ elim (Bool-cases (res.checked && is_definite res.status)) [
          | inl e ↦
              let found =
                from_crl w (crl_request input) refl refl refl (and-true _ _ e) refl refl in
              rw asked (Takes-IsBacked _ _ (take_crl res p) (take_crl-Takes res p e) found)
          | inr e ↦ rw asked (Keeps-IsBacked p (take_crl res p) (take_crl-Keeps res p e) b)
        ]
      ]

  try_network-IsBacked :
      (w : World) (p : Progress) → IsBacked p → IsBacked (try_network services input w p).0
  unfolding try_network network_request
  try_network-IsBacked w p b =
      let res = (ocsp w (network_request input)).0 in
      elim (Bool-cases (is_definite p.final_status)) [
        | inl skipped ↦ rw skipped b
        | inr open' ↦ elim (Bool-cases (input.network_allowed && not (is_empty input.ocsp_url))) [
          | inr skipped ↦
              rw (open', skipped)
                (Keeps-IsBacked p (skip_network input p) (skip_network-Keeps input p) b)
          | inl asked ↦ elim (Bool-cases (is_ocsp_answer res)) [
            | inl e ↦
                let found = ocsp-Evidence w (network_request input) refl refl e in
                rw (open', asked)
                  (Takes-IsBacked _ _ (take_network res p) (take_network-Takes res p e) found)
            | inr e ↦
                rw (open', asked)
                  (Keeps-IsBacked p (take_network res p) (take_network-Keeps res p e) b)
          ]
        ]
      ]

  consult-IsBacked :
      (w : World) (p : Progress) → IsBacked p → IsBacked (consult services input w p).0
  unfolding consult
  consult-IsBacked w p b =
      let embedded = try_embedded services input (ocsp_candidates input) w p in
      try_network-IsBacked embedded.1 _ (
        try_crls-IsBacked embedded.1 embedded.0
          (try_embedded-IsBacked (ocsp_candidates input) w p b))

-- The verdict as a table: `time` is when the certificate was revoked, `moment` when it was used.
abbrev pub verdict : RevocationStatus → ℤ → ℤ → OverallStatus
verdict RevocationStatus.good time moment = OverallStatus.valid
verdict RevocationStatus.revoked time moment =
    if not (is_zero_ℤ time) && ltb_ℤ moment time then OverallStatus.valid else OverallStatus.invalid
verdict _ time moment = OverallStatus.indeterminate

-- What a verdict says of the progress that it was reached from.
abbrev Judges : Progress → ℤ → RevocationEngineResult → Type 0
Judges p moment r =
    (r.overall_status ≡ verdict p.final_status p.final_revocation_time moment)
    × (r.revocation_status ≡ p.final_status)
    × (r.revocation_time ≡ p.final_revocation_time)

judge-Judges {ℓ} :
    {World : Type ℓ} (services : RevocationServices World) (hard_fail : Bool) (moment : ℤ)
    (p : Progress)
    → Judges p moment (judge services hard_fail moment p)
unfolding judge
judge-Judges services hard_fail moment p = ground arith

-- The moment at which the certificate is judged: the given time, or now where it is empty or does
-- not parse.
abbrev pub moment_of {ℓ} :
    {World : Type ℓ} → RevocationServices World → RevocationEngineInput → World → ℤ
moment_of services input w =
    if is_empty input.validation_time
    then services.clock w
    else elim (services.parse_time input.validation_time) [ some t ↦ t | none ↦ services.clock w ]

module _ {ℓ} {World : Type ℓ} (services : RevocationServices World) (input : RevocationEngineInput)
    (w : World) where
  evaluation_moment-moment_of :
      (p : Progress) → (evaluation_moment services input w p).1 ≡ moment_of services input w
  unfolding evaluation_moment
  evaluation_moment-moment_of p = ground arith

  -- The overall status of a check is that of the table `verdict`, at the status and the revocation
  -- time that it reports and at the moment of judgement: valid for a good certificate and for one
  -- revoked after that moment, invalid for any other revoked one, and otherwise indeterminate.
  pub validate-verdict :
      (validate services input w).0.overall_status
      ≡ verdict
          (validate services input w).0.revocation_status
          (validate services input w).0.revocation_time
          (moment_of services input w)
  unfolding validate
  validate-verdict = elim (Bool-cases (is_nil input.certificate_der)) [
    | inl e ↦ rw e
    | inr e ↦
        let begun = evaluation_moment services input w (start input) in
        let q = (consult services input w begun.0).0 in
        let (o, s, t) = judge-Judges services input.revocation_hard_fail begun.1 q in
        rw e (rw (s, t, ← evaluation_moment-moment_of (start input)) o)
  ]

  start-IsBacked : IsBacked services input (evaluation_moment services input w (start input)).0
  unfolding evaluation_moment
  start-IsBacked d = cc (not_definite d)
    where
      not_definite :
          is_definite (evaluation_moment services input w (start input)).0.final_status ≡ true
          → false ≡ true
      not_definite h = ground arith

  judged-Evidence :
      (p : Progress) (moment : ℤ) (r : RevocationEngineResult)
      → Judges p moment r
      → IsBacked services input p
      → r.overall_status ≢ OverallStatus.indeterminate
      → Evidence services input r.revocation_status r.revocation_time
  judged-Evidence p moment r (o, s, t) b h = rw (s, t) (b (ground arith))

  -- A status other than indeterminate rests on evidence: some OCSP or CRL check of this very
  -- certificate, with its issuer, was carried out and gave the status and the revocation time that
  -- the result reports.
  pub validate-Evidence :
      (validate services input w).0.overall_status ≢ OverallStatus.indeterminate
      → Evidence services input
          (validate services input w).0.revocation_status
          (validate services input w).0.revocation_time
  unfolding validate
  validate-Evidence h = elim (Bool-cases (is_nil input.certificate_der)) [
    | inl e ↦ absurd (h (rw e))
    | inr e ↦
        let begun = evaluation_moment services input w (start input) in
        let q = (consult services input w begun.0).0 in
        let judged = judge services input.revocation_hard_fail begun.1 q in
        rw e (
          judged-Evidence q begun.1 judged
            (judge-Judges services input.revocation_hard_fail begun.1 q)
            (consult-IsBacked services input w begun.0 start-IsBacked) (rw e at h))
  ]
