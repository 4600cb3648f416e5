-- ===== src/Validation/Path/Build.antt =====
-- Which anchors a candidate path may use.
use tamga.Prelude.{
  Bool, true, false, not, ◌&&◌, ◌||◌, List, [], ◌∷◌, ◌++◌, Bytes, String, ◌≡◌, ◌≢◌, ◌⊎◌, inl, inr,
  refl, arith, Bool-cases, both, off, if-All, if◌then◌else◌,
}
use tamga.Prelude.Find.{All}
use tamga.Validation.Types.{
  TrustAnchorPolicy, current_tl_only, historical_at_signing_time, explicit_legacy_anchor_bundle,
  pinned_anchors, custom_trust_store, forensic_all_possible,
}
use tamga.Validation.Path.{
  PathBuilderInput, PathCandidate, build, build_under, is_nil, make_candidate,
  add_current_candidate, add_historical_candidate_if_allowed, forensic_candidates,
}

-- The anchors of a candidate, by the name of their source, its mark and the anchor policy. Historical
-- anchors come with the mark, and need the policy's permission or the forensic mode; the two stores
-- of its own each belong to one policy, and no other policy uses them.
pub data Uses (input : PathBuilderInput) (c : PathCandidate) : Type 0 where
  current :
      c.trust_anchor_source ≡ "current-tl"
      → c.uses_historical_trust ≡ false
      → c.trust_anchors_der ≡ input.current_trust_anchors_der
      → input.policy.trust_anchor_policy ≢ custom_trust_store
      → input.policy.trust_anchor_policy ≢ pinned_anchors
      → Uses input c
  historical :
      c.trust_anchor_source ≡ "historical-tl"
      → c.uses_historical_trust ≡ true
      → c.trust_anchors_der ≡ input.historical_trust_anchors_der
      → input.historical_trust_anchors_der ≢ []
      → ((input.policy.allow_historical_trust ≡ true)
          × ((input.policy.trust_anchor_policy ≡ historical_at_signing_time)
              ⊎ (input.policy.trust_anchor_policy ≡ explicit_legacy_anchor_bundle)))
        ⊎ (input.policy.trust_anchor_policy ≡ forensic_all_possible)
      → Uses input c
  custom :
      c.trust_anchor_source ≡ "custom-trust-store"
      → c.uses_historical_trust ≡ false
      → c.trust_anchors_der ≡ input.custom_trust_anchors_der
      → input.policy.trust_anchor_policy ≡ custom_trust_store
      → Uses input c
  pinned :
      c.trust_anchor_source ≡ "pinned-anchors"
      → c.uses_historical_trust ≡ false
      → c.trust_anchors_der ≡ input.pinned_trust_anchors_der
      → input.policy.trust_anchor_policy ≡ pinned_anchors
      → Uses input c

-- What a candidate carries: all certificates of the input, its time, and anchors of one kind only.
pub record IsSound (input : PathBuilderInput) (c : PathCandidate) : Type 0 where
  pub same_signer : c.signer_certificate_der ≡ input.signer_certificate_der
  pub same_embedded : c.embedded_certificates_der ≡ input.embedded_certificates_der
  pub same_intermediate :
      c.intermediate_certificates_der ≡ input.intermediate_store_certificates_der
  pub same_aia : c.aia_certificates_der ≡ input.aia_certificates_der
  pub same_time : c.validation_time ≡ input.validation_time
  pub anchors : Uses input c

All-append :
    (P : PathCandidate → Type 0) (cs ds : List PathCandidate)
    → All P cs
    → All P ds
    → All P (cs ++ ds)
All-append P [] ds h k = k
All-append P (c ∷ cs) ds h k = (h.0, All-append P cs ds h.1 k)

module _ (input : PathBuilderInput) where
  made-IsSound :
      (id source : String) (anchors : List Bytes) (historic : Bool)
      → Uses input (make_candidate input id source anchors historic)
      → IsSound input (make_candidate input id source anchors historic)
  unfolding make_candidate
  made-IsSound id source anchors historic uses = record {
    same_signer = refl;
    same_embedded = refl;
    same_intermediate = refl;
    same_aia = refl;
    same_time = refl;
    anchors = uses;
  }

  -- A policy with the current anchors has no store of its own.
  current-IsSound :
      (id : String)
      → input.policy.trust_anchor_policy ≢ custom_trust_store
      → input.policy.trust_anchor_policy ≢ pinned_anchors
      → All (IsSound input) (add_current_candidate input id "current-tl")
  unfolding add_current_candidate make_candidate
  current-IsSound id h k = (made-IsSound id "current-tl" _ false (current refl refl refl h k), tt)

  historical-IsSound :
      (id : String)
      → is_nil input.historical_trust_anchors_der ≡ false
      → ((input.policy.allow_historical_trust ≡ true)
          × ((input.policy.trust_anchor_policy ≡ historical_at_signing_time)
              ⊎ (input.policy.trust_anchor_policy ≡ explicit_legacy_anchor_bundle)))
        ⊎ (input.policy.trust_anchor_policy ≡ forensic_all_possible)
      → IsSound input
          (make_candidate input id "historical-tl" input.historical_trust_anchors_der true)
  unfolding make_candidate
  historical-IsSound id some_anchor allowed =
      made-IsSound id "historical-tl" _ true
        (historical refl refl refl (λ e. ground (arith, some_anchor, e)) allowed)

  allowed-IsSound :
      (id : String)
      → (input.policy.trust_anchor_policy ≡ historical_at_signing_time)
        ⊎ (input.policy.trust_anchor_policy ≡ explicit_legacy_anchor_bundle)
      → All (IsSound input) (add_historical_candidate_if_allowed input id)
  unfolding add_historical_candidate_if_allowed
  allowed-IsSound id policy =
      let permitted = input.policy.allow_historical_trust in
      elim (Bool-cases (permitted && not (is_nil input.historical_trust_anchors_der))) [
        | inr e ↦ rw (e, add_historical_candidate_if_allowed) tt
        | inl e ↦
            let (granted, given) = both permitted _ e in
            rw (e, add_historical_candidate_if_allowed)
              (historical-IsSound id (off _ given) (inl (granted, policy)), tt)
      ]

  both-IsSound :
      (input.policy.trust_anchor_policy ≡ historical_at_signing_time)
        ⊎ (input.policy.trust_anchor_policy ≡ explicit_legacy_anchor_bundle)
      → All (IsSound input) (
          add_current_candidate input "current-tl" "current-tl"
          ++ add_historical_candidate_if_allowed input "historical-tl")
  both-IsSound policy =
      All-append (IsSound input) (add_current_candidate input "current-tl" "current-tl")
        (add_historical_candidate_if_allowed input "historical-tl")
        (current-IsSound "current-tl" (λ k. elim policy [ inl e ↦ cc | inr e ↦ cc ])
          (λ k. elim policy [ inl e ↦ cc | inr e ↦ cc ]))
        (allowed-IsSound "historical-tl" policy)

  -- In the forensic mode the historical anchors are tried if there are any.
  abbrev forensic_historical : List PathCandidate
  forensic_historical =
      if not (is_nil input.historical_trust_anchors_der)
      then make_candidate input "forensic-historical-tl" "historical-tl"
          input.historical_trust_anchors_der true
        ∷ []
      else []

  forensic_historical-IsSound :
      input.policy.trust_anchor_policy ≡ forensic_all_possible
      → All (IsSound input) forensic_historical
  forensic_historical-IsSound e = elim (Bool-cases (is_nil input.historical_trust_anchors_der)) [
    | inl empty ↦ rw empty tt
    | inr given ↦ rw given (historical-IsSound "forensic-historical-tl" given (inr e), tt)
  ]

  forensic-IsSound :
      input.policy.trust_anchor_policy ≡ forensic_all_possible
      → All (IsSound input) (forensic_candidates input)
  unfolding forensic_candidates
  forensic-IsSound e =
      let current' = not (is_nil input.current_trust_anchors_der) in
      let historical' = not (is_nil input.historical_trust_anchors_der) in
      let tried = add_current_candidate input "forensic-current-tl" "current-tl" in
      All-append (IsSound input) (if current' || not historical' then tried else [])
        forensic_historical
        (if-All (All (IsSound input)) (current' || not historical')
          (current-IsSound "forensic-current-tl" (λ k. cc) (λ k. cc)) tt)
        (forensic_historical-IsSound e)

build_under-IsSound :
    (p : TrustAnchorPolicy) (input : PathBuilderInput)
    → input.policy.trust_anchor_policy ≡ p
    → All (IsSound input) (build_under p input)
unfolding build_under
build_under-IsSound current_tl_only input e = current-IsSound input "current-tl" (λ k. cc) (λ k. cc)
build_under-IsSound explicit_legacy_anchor_bundle input e = both-IsSound input (inr e)
build_under-IsSound historical_at_signing_time input e = both-IsSound input (inl e)
build_under-IsSound custom_trust_store input e = (
  made-IsSound input "custom-trust-store" "custom-trust-store" _ false (custom refl refl refl e),
  tt,
)
build_under-IsSound pinned_anchors input e =
    (made-IsSound input "pinned-anchors" "pinned-anchors" _ false (pinned refl refl refl e), tt)
build_under-IsSound forensic_all_possible input e = forensic-IsSound input e

-- Every candidate is tried with the caller's certificates and time against one set of anchors. The
-- historical anchors are only used when there are some, the result is marked as historical, and
-- either the policy allows historical trust or the anchor policy is `ForensicAllPossible`.
pub build-IsSound : (input : PathBuilderInput) → All (IsSound input) (build input)
unfolding build
build-IsSound input = build_under-IsSound input.policy.trust_anchor_policy input refl

-- There is always a candidate to try.
pub build-ne-nil : (input : PathBuilderInput) → build input ≢ []
unfolding build build_under
build-ne-nil input = ground arith
