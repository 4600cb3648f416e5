-- ===== src/Validation/Timestamp/Trust.antt =====
-- What the trust in a timestamping authority rests on, in terms of the input of the engine.
use tamga.Prelude.{
  ℕ, zero, suc, true, not, ◌&&◌, List, [], ◌∷◌, ◌++◌, some, Bytes, String, get_elem?, ◌≡◌, ◌≢◌, ap,
  refl, inl, inr, arith, Bool-cases, both, off,
}
use tamga.Prelude.Order.{bytes_eq, bytes_eq_iff}
use tamga.Validation.Types.{
  TimestampEngineResult, TrustAnchorPolicy, custom_trust_store, pinned_anchors,
}
use tamga.Validation.Path.{CertificateChainInput, PathCandidate, is_nil}
use tamga.Validation.Path.Build.{Uses}
use tamga.Validation.Path.Pipeline.{question, run_trusted}
use tamga.Validation.Timestamp.{
  TimestampEngineInput, TimestampValidationResult, TimestampServices, uses_tl_endpoints,
  matches_endpoint,
}
use tamga.Validation.Timestamp.Steps.{matches_current, matches_historical, path_input}
use tamga.Validation.Timestamp.Sound.{IsTrusted, HasSound}

-- The certificate is there, and is an element of the list.
abbrev pub IsListed : Bytes → List Bytes → Type 0
IsListed tsa list = (tsa ≢ []) × ((i : ℕ) × (get_elem? list i ≡ some tsa))

matches_endpoint-IsListed :
    (tsa : Bytes) (list : List Bytes) → matches_endpoint tsa list ≡ true → IsListed tsa list
unfolding matches_endpoint
matches_endpoint-IsListed tsa [] h = absurd (ground (arith, h))
matches_endpoint-IsListed tsa (a ∷ list) h = elim (Bool-cases (not (is_nil a) && bytes_eq a tsa)) [
  | inl e ↦
      let (given, same) = both (not (is_nil a)) (bytes_eq a tsa) e in
      let at : a ≡ tsa = (bytes_eq_iff a tsa).0 same in
      ((λ k. ground (arith, off _ given, at, k)), (zero, ap some at))
  | inr e ↦
      let (given, (i, at)) = matches_endpoint-IsListed tsa list (ground (arith, h, e)) in
      (given, (suc i, at))
]

-- A policy that goes by the trust lists.
abbrev pub GoesByLists : TrustAnchorPolicy → Type 0
GoesByLists p = (p ≢ custom_trust_store) × (p ≢ pinned_anchors)

uses_tl_endpoints-GoesByLists : (p : TrustAnchorPolicy) → uses_tl_endpoints p ≡ true → GoesByLists p
unfolding uses_tl_endpoints
uses_tl_endpoints-GoesByLists p h = ground (arith, h)

module _ {ℓ} {World : Type ℓ} (services : TimestampServices World) (input : TimestampEngineInput)
    (w : World) where
  -- The anchors of one kind that the policy lets the chain builder use.
  pub data Anchored (asked : CertificateChainInput) : Type 0 where
    current :
        asked.trust_anchors_der ≡ input.tsa_trust_anchors_der ++ input.current_trust_anchors_der
        → GoesByLists input.policy.trust_anchor_policy
        → Anchored asked
    historical :
        asked.trust_anchors_der
          ≡ input.historical_tsa_trust_anchors_der ++ input.historical_trust_anchors_der
        → input.policy.allow_historical_trust ≡ true
        → Anchored asked
    custom :
        asked.trust_anchors_der ≡ input.custom_trust_anchors_der
        → input.policy.trust_anchor_policy ≡ custom_trust_store
        → Anchored asked
    pinned :
        asked.trust_anchors_der ≡ input.pinned_trust_anchors_der
        → input.policy.trust_anchor_policy ≡ pinned_anchors
        → Anchored asked

  -- The TSA's certificate stands in a list itself, in a historical one only with permission; or the
  -- chain builder found a trusted chain for it at the time, from anchors of one kind.
  pub data TsaTrusted (tsa : Bytes) (time : String) : Type 0 where
    listed :
        IsListed tsa input.tsa_trust_anchors_der
        → GoesByLists input.policy.trust_anchor_policy
        → TsaTrusted tsa time
    listed_before :
        IsListed tsa input.historical_tsa_trust_anchors_der
        → GoesByLists input.policy.trust_anchor_policy
        → input.policy.allow_historical_trust ≡ true
        → TsaTrusted tsa time
    by_path :
        (asked : CertificateChainInput)
        → asked.signer_certificate_der ≡ tsa
        → asked.validation_time ≡ time
        → Anchored asked
        → (services.chain w asked).trusted ≡ true
        → TsaTrusted tsa time

  Uses-Anchored :
      (v : TimestampValidationResult) (time : String) (c : PathCandidate)
      → let paths = path_input input v time in
        Uses paths c
        → (c.uses_historical_trust ≡ true → input.policy.allow_historical_trust ≡ true)
        → Anchored (question paths c)
  unfolding path_input
  Uses-Anchored v time c uses allowed = elim uses [
    | Uses.current source unmarked anchors h k ↦ current anchors (h, k)
    | Uses.historical source marked anchors _ _ ↦ historical anchors (allowed marked)
    | Uses.custom source unmarked anchors h ↦ custom anchors h
    | Uses.pinned source unmarked anchors h ↦ pinned anchors h
  ]

  IsTrusted-TsaTrusted :
      (v : TimestampValidationResult) (time : String)
      → IsTrusted services input w v time
      → TsaTrusted v.tsa_certificate_der time
  unfolding matches_current matches_historical path_input
  IsTrusted-TsaTrusted v time (inr found) =
      let (c, sound, reports, trusted, allowed) =
        run_trusted (services.chain w) (path_input input v time) found in
      by_path (question (path_input input v time) c) refl refl
        (Uses-Anchored v time c sound.anchors allowed) trusted
  IsTrusted-TsaTrusted v time (inl matched) =
      let tsa = v.tsa_certificate_der in
      let policy = input.policy.trust_anchor_policy in
      elim (Bool-cases (matches_current input tsa)) [
        | inl now ↦
            let (by_lists, at) =
              both (uses_tl_endpoints policy) (matches_endpoint tsa input.tsa_trust_anchors_der)
                now in
            listed (matches_endpoint-IsListed tsa input.tsa_trust_anchors_der at)
              (uses_tl_endpoints-GoesByLists policy by_lists)
        | inr not_now ↦
            let before : matches_historical input tsa ≡ true = rw not_now at matched in
            let (granted, at) =
              both (uses_tl_endpoints policy && input.policy.allow_historical_trust)
                (matches_endpoint tsa input.historical_tsa_trust_anchors_der) before in
            let (by_lists, allowed) =
              both (uses_tl_endpoints policy) input.policy.allow_historical_trust granted in
            listed_before (matches_endpoint-IsListed tsa input.historical_tsa_trust_anchors_der at)
              (uses_tl_endpoints-GoesByLists policy by_lists) allowed
      ]

  -- A result whose token is sound names a TSA that is trusted at the time that it names.
  pub HasSound-TsaTrusted :
      (r : TimestampEngineResult)
      → HasSound services input w r
      → TsaTrusted r.tsa_certificate_der r.validation_time
  HasSound-TsaTrusted r (v, _, s) =
      rw (s.same_tsa) (IsTrusted-TsaTrusted v r.validation_time s.trust.1)
