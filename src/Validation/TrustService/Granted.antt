-- ===== src/Validation/TrustService/Granted.antt =====
-- When a certificate's service counts as trusted.
use tamga.Prelude.Order.{bytes_eq, bytes_eq_iff}
use tamga.Prelude.{Bool, true, List, [], ◌∷◌, Bytes, String, ◌≡◌, ◌≢◌, inl, inr, Bool-cases}
use tamga.Prelude.Find.{First, find_if-Finds}
use tamga.Validation.Decision.{contains_text}
use tamga.Validation.TrustService.{
  TrustListServiceRecord, TrustListParseResult, evaluate, find_service, judge_service,
  contains_certificate,
}

-- The certificate is in the list.
pub data IsIn (c : Bytes) : List Bytes → Type 0 where
  here : {d : Bytes} {ds : List Bytes} → d ≡ c → IsIn c (d ∷ ds)
  there : {d : Bytes} {ds : List Bytes} → IsIn c ds → IsIn c (d ∷ ds)

contains_certificate-IsIn :
    (c : Bytes) (ds : List Bytes) → contains_certificate c ds ≡ true → IsIn c ds
unfolding contains_certificate
contains_certificate-IsIn c [] h = cc
contains_certificate-IsIn c (d ∷ ds) h = elim (Bool-cases (bytes_eq d c)) [
  | inl e ↦ here ((bytes_eq_iff d c).0 e)
  | inr e ↦ there (contains_certificate-IsIn c ds (rw e at h))
]

First-passes {ℓ} : {A : Type ℓ} {p : A → Bool} {x : A} {xs : List A} → First p x xs → p x ≡ true
First-passes (First.here h) = h
First-passes (First.later _ f) = First-passes f

module _ (parse : String → TrustListParseResult) (c : Bytes) (xml id : String) where
  -- A service that is found trusted is the first service of a trust list that parses which lists
  -- the certificate itself; the certificate is not empty; and the service's status contains
  -- "/granted". The decision reports that service's status and the snapshot it was asked about.
  pub evaluate_trusted :
      (evaluate parse c xml id).service_trusted ≡ true
      → (c ≢ [])
        × ((parse xml).ok ≡ true)
        × ((s : TrustListServiceRecord) × First
              (λ t. contains_certificate c t.certificates)
              s
              (parse xml).services
            × IsIn c s.certificates
            × (contains_text s.status "/granted" ≡ true)
            × ((evaluate parse c xml id).status ≡ s.status)
            × ((evaluate parse c xml id).snapshot_evidence_id ≡ id))
  unfolding evaluate find_service judge_service
  evaluate_trusted h = elim (Bool-cases (bytes_eq c [])) [
    | inl e ↦ cc (rw (e, evaluate) at h)
    | inr e ↦ elim (Bool-cases (parse xml).ok) [
      | inr k ↦ cc (rw (e, k, evaluate) at h)
      | inl k ↦
          elim (find_if-Finds (λ t. contains_certificate c t.certificates) (parse xml).services) [
            | inr (n, none') ↦ cc (rw (e, k, n, evaluate) at h)
            | inl (s, n, f) ↦
                let granted : contains_text s.status "/granted" ≡ true =
                  rw (e, k, n, evaluate, judge_service) at h in
                (
                  λ z. cc ((bytes_eq_iff c []).1 z, e),
                  k,
                  (
                    s,
                    f,
                    contains_certificate-IsIn c s.certificates (First-passes f),
                    granted,
                    rw (e, k, n, evaluate, judge_service),
                    rw (e, k, n, evaluate, judge_service),
                  ),
                )
          ]
    ]
  ]
