-- ===== src/Validation/Path/Select.antt =====
-- Which of the tried paths counts.
use tamga.Prelude.{
  ℕ, suc, Bool, true, false, ◌&&◌, List, [], ◌∷◌, Option, none, some, ◌≡◌, ◌⊎◌, inl, inr, refl,
  arith, Bool-cases, String,
}
use tamga.Validation.Types.{ValidationPolicy}
use tamga.Prelude.Find.{NonePass}
use tamga.Validation.Path.{
  PathValidationResult, PathSelection, select, select_from, first_index, selected,
  is_authoritative_candidate_allowed, default_selection,
}

abbrev pub Test : Type 0
Test = PathValidationResult → Bool

-- `r` is the first result that passes, and `i` counts from `k`.
pub data FirstAt (p : Test) (r : PathValidationResult)
    : ℕ → ℕ → List PathValidationResult → Type 0 where
  here : {k : ℕ} {rs : List PathValidationResult} → p r ≡ true → FirstAt p r k k (r ∷ rs)
  later :
      {k i : ℕ} {q : PathValidationResult} {rs : List PathValidationResult}
      → p q ≡ false
      → FirstAt p r (suc k) i rs
      → FirstAt p r k i (q ∷ rs)

abbrev Finds : Test → ℕ → List PathValidationResult → Option (ℕ × PathValidationResult) → Type 0
Finds p k rs o =
    ((i : ℕ) × (r : PathValidationResult) × (o ≡ some (i, r)) × FirstAt p r k i rs)
    ⊎ ((o ≡ none) × NonePass p rs)

Finds-cons :
    (p : Test) (k : ℕ) (q : PathValidationResult) (rs : List PathValidationResult)
    (o : Option (ℕ × PathValidationResult))
    → p q ≡ false
    → Finds p (suc k) rs o
    → Finds p k (q ∷ rs) o
Finds-cons p k q rs o h (inl (i, r, e, f)) = inl (i, r, e, later h f)
Finds-cons p k q rs o h (inr (e, n)) = inr (e, (h, n))

first_index-Finds :
    (p : Test) (k : ℕ) (rs : List PathValidationResult) → Finds p k rs (first_index p k rs)
unfolding first_index
first_index-Finds p k [] = inr (refl, tt)
first_index-Finds p k (q ∷ rs) = elim (Bool-cases (p q)) [
  | inl hit ↦ inl (k, q, rw hit, here hit)
  | inr miss ↦
      let skipped : first_index p k (q ∷ rs) ≡ first_index p (suc k) rs = rw miss in
      rw skipped
        (Finds-cons p k q rs (first_index p (suc k) rs) miss (first_index-Finds p (suc k) rs))
]

FirstAt-passes :
    {p : Test} {r : PathValidationResult} {k i : ℕ} {rs : List PathValidationResult}
    → FirstAt p r k i rs
    → p r ≡ true
FirstAt-passes (here h) = h
FirstAt-passes (later _ f) = FirstAt-passes f

abbrev is_allowed : ValidationPolicy → Test
is_allowed policy r = is_authoritative_candidate_allowed r policy

abbrev is_allowed_trusted : ValidationPolicy → Test
is_allowed_trusted policy r = r.trusted && is_authoritative_candidate_allowed r policy

-- What a selection may be: the first result that is trusted and allowed; if there is none, the
-- first that is allowed; if there is none either, nothing.
pub data Picks (policy : ValidationPolicy) (rs : List PathValidationResult)
    : PathSelection → Type 0 where
  trusted :
      (i : ℕ) (r : PathValidationResult)
      → FirstAt (is_allowed_trusted policy) r 0 i rs
      → Picks policy rs (selected i r "trusted-candidate")
  untrusted :
      (i : ℕ) (r : PathValidationResult)
      → NonePass (is_allowed_trusted policy) rs
      → FirstAt (is_allowed policy) r 0 i rs
      → Picks policy rs (selected i r "fallback-untrusted-candidate")
  nothing :
      (reason : String)
      → NonePass (is_allowed policy) rs
      → Picks policy rs (record default_selection { reason = reason })

select_from-Picks :
    (rs : List PathValidationResult) (policy : ValidationPolicy)
    → Picks policy rs (select_from rs policy)
unfolding select_from
select_from-Picks rs policy = elim (first_index-Finds (is_allowed_trusted policy) 0 rs) [
  | inl (i, r, e, f) ↦ rw (e, select_from) (trusted i r f)
  | inr (e, n) ↦ elim (first_index-Finds (is_allowed policy) 0 rs) [
    | inl (i, r, e', f) ↦ rw (e, e', select_from) (untrusted i r n f)
    | inr (e', m) ↦ rw (e, e', select_from) (nothing "no-authoritative-candidate" m)
  ]
]

-- The selector takes the first result that is trusted and that the policy allows; without one the
-- first that the policy allows; without that it selects nothing.
pub select-Picks :
    (rs : List PathValidationResult) (policy : ValidationPolicy)
    → Picks policy rs (select rs policy)
unfolding select
select-Picks [] policy = nothing "no-candidates" tt
select-Picks (r ∷ rs) policy = select_from-Picks (r ∷ rs) policy

Picks-historical :
    {policy : ValidationPolicy} {rs : List PathValidationResult} {s : PathSelection}
    → Picks policy rs s
    → s.selected_result.uses_historical_trust ≡ true
    → policy.allow_historical_trust ≡ true
Picks-historical (trusted i r f) h =
    unfold is_authoritative_candidate_allowed in ground (arith, FirstAt-passes f)
Picks-historical (untrusted i r n f) h =
    unfold is_authoritative_candidate_allowed in ground (arith, FirstAt-passes f)
Picks-historical (nothing reason n) h = cc

-- A path through historical anchors is never selected unless the policy allows historical trust,
-- whatever results are tried and in whatever order.
pub select_historical :
    (rs : List PathValidationResult) (policy : ValidationPolicy)
    → (select rs policy).selected_result.uses_historical_trust ≡ true
    → policy.allow_historical_trust ≡ true
select_historical rs policy = Picks-historical (select-Picks rs policy)
