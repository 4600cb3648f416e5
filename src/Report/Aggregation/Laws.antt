-- ===== src/Report/Aggregation/Laws.antt =====
-- A document is valid only if every signer is: no signer hides behind another.
use tamga.Prelude.{
  ℕ, suc, ◌+◌, Bool, true, false, List, [], ◌∷◌, none, some, get_or, ◌≡◌, ◌∙◌, refl, sym, ap, both,
  arith, Bool-cases, Option-cases, inl, inr,
}
use tamga.Prelude.Find.{All}
use tamga.Validation.Path.{is_nil}
use tamga.Report.Types.{SignatureEntry, default_signature_entry, VerifyReport}
use tamga.Report.Summary.{is_confirmed}
use tamga.Report.Checks.{summary_check}
use tamga.Report.Verdict.{acceptable_texts, valid_clean}
use tamga.Report.Aggregation.{
  first_failing, representative, all_of, apply_per_signer_trust_aggregation,
}

module _ (test : SignatureEntry → Bool) where
  all_of-All :
      (entries : List SignatureEntry)
      → all_of test entries ≡ true
      → All (λ e. test e ≡ true) entries
  unfolding all_of
  all_of-All [] h = tt
  all_of-All (e ∷ entries) h =
      let (here, there) = both (test e) (all_of test entries) h in (here, all_of-All entries there)

  first_failing-All :
      (entries : List SignatureEntry) (i : ℕ)
      → All (λ e. test e ≡ true) entries
      → first_failing test entries i ≡ none
  unfolding first_failing
  first_failing-All [] i h = refl
  first_failing-All (e ∷ entries) i h = rw h.0 (first_failing-All entries (suc i) h.1)

  first_failing-none :
      (entries : List SignatureEntry) (i : ℕ)
      → first_failing test entries i ≡ none
      → All (λ e. test e ≡ true) entries
  unfolding first_failing
  first_failing-none [] i h = tt
  first_failing-none (e ∷ entries) i h = elim (Bool-cases (test e)) [
    | inl passes ↦ (passes, first_failing-none entries (suc i) (ground (arith, passes, h)))
    | inr fails ↦ absurd (ground (arith, fails, h))
  ]

  first_failing-some :
      (entries : List SignatureEntry) (i j : ℕ)
      → first_failing test entries i ≡ some j
      → (k : ℕ) × (j ≡ i + k) × (test (get_or entries k default_signature_entry) ≡ false)
  unfolding first_failing
  first_failing-some [] i j h = absurd (ground (arith, h))
  first_failing-some (e ∷ entries) i j h = elim (Bool-cases (test e)) [
    | inl passes ↦
        let (k, at, fails) = first_failing-some entries (suc i) j (ground (arith, passes, h)) in
        (suc k, omega (arith, at), fails)
    | inr fails ↦ (0, ground (arith, fails, h), fails)
  ]

-- Where all are trusted, a confirmed representative means that all are confirmed.
representative-confirmed :
    (entries : List SignatureEntry)
    → All (λ e. e.trust_valid ≡ true) entries
    → is_confirmed
        (get_or entries (representative entries) default_signature_entry).revocation_status
      ≡ true
    → All (λ e. is_confirmed e.revocation_status ≡ true) entries
unfolding representative
representative-confirmed entries trusted h =
    let none_untrusted = first_failing-All (λ e. e.trust_valid) entries 0 trusted in
    let confirmed = λ (e : SignatureEntry). is_confirmed e.revocation_status in
    elim (Option-cases (first_failing confirmed entries 0)) [
      | inl all ↦ first_failing-none confirmed entries 0 all
      | inr (j, at) ↦
          let (k, same, fails) = first_failing-some confirmed entries 0 j at in
          let chosen : representative entries ≡ k = ground (arith, none_untrusted, at, same) in
          let status = λ (i : ℕ). confirmed (get_or entries i default_signature_entry) in
          absurd (ground (arith, sym (ap status chosen) ∙ h, fails))
    ]

-- What the summary of a document says of each of its signers.
pub record IsTrusted (e : SignatureEntry) : Type 0 where
  pub checked : e.trust_checked ≡ true
  pub trusted : e.trust_valid ≡ true
  pub asked : e.revocation_checked ≡ true
  pub confirmed : is_confirmed e.revocation_status ≡ true

All-IsTrusted :
    (entries : List SignatureEntry)
    → All (λ e. e.trust_checked ≡ true) entries
    → All (λ e. e.trust_valid ≡ true) entries
    → All (λ e. e.revocation_checked ≡ true) entries
    → All (λ e. is_confirmed e.revocation_status ≡ true) entries
    → All IsTrusted entries
All-IsTrusted [] c t a s = tt
All-IsTrusted (e ∷ entries) c t a s = (
  record { checked = c.0; trusted = t.0; asked = a.0; confirmed = s.0 },
  All-IsTrusted entries c.1 t.1 a.1 s.1,
)

is_nil-All : (entries : List SignatureEntry) → is_nil entries ≡ true → All IsTrusted entries
is_nil-All [] h = tt
is_nil-All (e ∷ entries) h = absurd (ground (arith, h))

aggregated :
    (report : VerifyReport)
    → is_nil report.signatures ≡ false
    → let after = apply_per_signer_trust_aggregation report in
      let entries = report.signatures in
      (after.trust_checked ≡ all_of (λ e. e.trust_checked) entries)
      × (after.trust_valid ≡ all_of (λ e. e.trust_valid) entries)
      × (after.revocation_checked ≡ all_of (λ e. e.revocation_checked) entries)
      × (after.revocation_status
          ≡ (get_or entries (representative entries) default_signature_entry).revocation_status)
unfolding apply_per_signer_trust_aggregation
aggregated report h = rw h (refl, refl, refl, refl)

-- After the aggregation the summary check is `valid` only if the entry of each signer says that trust
-- was checked and found, and that the revocation was asked for and is confirmed.
pub apply_per_signer_trust_aggregation-valid :
    (report : VerifyReport)
    → (summary_check (apply_per_signer_trust_aggregation report)).status ≡ "valid"
    → All IsTrusted report.signatures
apply_per_signer_trust_aggregation-valid report h =
    let after = apply_per_signer_trust_aggregation report in
    let (_, accepted, _) = valid_clean after h in
    let (confirmed, _, _, checked, trusted, asked, _) = acceptable_texts after accepted in
    let entries = report.signatures in
    elim (Bool-cases (is_nil entries)) [
      | inl empty ↦ is_nil-All entries empty
      | inr some_entry ↦
          let (c, t, a, s) = aggregated report some_entry in
          let all_trusted = all_of-All (λ e. e.trust_valid) entries (sym t ∙ trusted) in
          All-IsTrusted entries (all_of-All (λ e. e.trust_checked) entries (sym c ∙ checked))
            all_trusted (all_of-All (λ e. e.revocation_checked) entries (sym a ∙ asked))
            (representative-confirmed entries all_trusted (sym (ap is_confirmed s) ∙ confirmed))
    ]
