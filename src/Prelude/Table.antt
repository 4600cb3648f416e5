-- ===== src/Prelude/Table.antt =====
-- A statement about small numbers, checked for each of them.
use tamga.Prelude.{
  ℕ, zero, suc, ◌<◌, Bool, true, ◌&&◌, ◌≡◌, subst, both, ltb, arith, Bool-cases, inl, inr,
}

abbrev pub all_below : (ℕ → Bool) → ℕ → Bool
all_below p zero = true
all_below p (suc n) = p n && all_below p n

-- What holds of all numbers below a bound holds of each.
pub all_below-at : (p : ℕ → Bool) (bound i : ℕ) → all_below p bound ≡ true → i < bound → p i ≡ true
all_below-at p zero i h lt = absurd (omega (arith, lt))
all_below-at p (suc n) i h lt =
    let (here, below) = both (p n) (all_below p n) h in
    elim (Bool-cases (ltb i n)) [
      | inl less ↦ all_below-at p n i below (ground (arith, less))
      | inr same ↦ let at : n ≡ i = ground (arith, lt, same) in subst (λ m. p m ≡ true) at here
    ]
