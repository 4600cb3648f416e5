-- ===== src/Validation/Revocation/Offline.antt =====
-- What a check may not depend on when the network is forbidden.
use tamga.Prelude.{Bool, false, List, [], ◌∷◌, ◌≡◌, refl, Bytes}
use tamga.Prelude.Int.{ℤ}
use tamga.Validation.Revocation.{
  RevocationServices, RevocationEngineInput, OcspValidationInput, OcspValidationResult, Progress,
  try_embedded, try_crls, ocsp_candidates, embedded_request, embedded_miss,
}
use tamga.Validation.Revocation.Engine.{
  validate, consult, try_network, judge, evaluation_moment, start,
}

module _ {ℓ} {World : Type ℓ} (services : RevocationServices World)
    (other : World → OcspValidationInput → OcspValidationResult × World)
    (agree : (w : World) (i : OcspValidationInput)
      → i.url ≡ ""
      → other w i ≡ services.ocsp w i) where
  -- The same services, but for what OCSP responders at an address would say.
  abbrev pub elsewhere : RevocationServices World
  elsewhere = record services { ocsp = other }

  try_embedded-elsewhere :
      (input : RevocationEngineInput) (rs : List Bytes) (w : World) (p : Progress)
      → try_embedded elsewhere input rs w p ≡ try_embedded services input rs w p
  unfolding try_embedded embedded_request
  try_embedded-elsewhere input [] w p = refl
  try_embedded-elsewhere input (r ∷ rs) w p =
      let asked = services.ocsp w (embedded_request input r) in
      rw (agree w (embedded_request input r) refl)
        (rw (try_embedded-elsewhere input rs asked.1 (embedded_miss asked.0 p)))

  try_network-elsewhere :
      (input : RevocationEngineInput) (w : World) (p : Progress)
      → input.network_allowed ≡ false
      → try_network elsewhere input w p ≡ try_network services input w p
  unfolding try_network
  try_network-elsewhere input w p h = rw h

  try_crls-elsewhere :
      (input : RevocationEngineInput) (w : World) (p : Progress)
      → try_crls elsewhere input w p ≡ try_crls services input w p
  unfolding try_crls
  try_crls-elsewhere input w p = refl

  consult-elsewhere :
      (input : RevocationEngineInput) (w : World) (p : Progress)
      → input.network_allowed ≡ false
      → consult elsewhere input w p ≡ consult services input w p
  unfolding consult
  consult-elsewhere input w p h =
      rw (try_embedded-elsewhere input (ocsp_candidates input) w p)
        (rw (try_crls-elsewhere input _ _) (try_network-elsewhere input _ _ h))

  judge-elsewhere :
      (hard_fail : Bool) (time : ℤ) (p : Progress)
      → judge elsewhere hard_fail time p ≡ judge services hard_fail time p
  unfolding judge
  judge-elsewhere hard_fail time p = refl

  evaluation_moment-elsewhere :
      (input : RevocationEngineInput) (w : World) (p : Progress)
      → evaluation_moment elsewhere input w p ≡ evaluation_moment services input w p
  unfolding evaluation_moment
  evaluation_moment-elsewhere input w p = refl

  -- With the network forbidden no OCSP responder is asked at an address: the result, and the state
  -- that the check leaves, are the same whatever such responders would have answered.
  pub validate-elsewhere :
      (input : RevocationEngineInput) (w : World)
      → input.network_allowed ≡ false
      → validate elsewhere input w ≡ validate services input w
  unfolding validate
  validate-elsewhere input w h =
      let (p, time) = evaluation_moment services input w (start input) in
      rw (evaluation_moment-elsewhere input w (start input)) (
        rw (consult-elsewhere input w p h)
          (rw (judge-elsewhere input.revocation_hard_fail time (consult services input w p).0)))
