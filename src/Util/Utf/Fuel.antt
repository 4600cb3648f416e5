-- ===== src/Util/Utf/Fuel.antt =====
-- The loop of the decoder ends: each turn leaves fewer bytes, so as many turns as there are bytes are
-- enough, and more change nothing.
use tamga.Prelude.{
  ℕ, zero, suc, ◌≤◌, ◌*◌, ◌+◌, ◌%◌, ◌/◌, [], ◌∷◌, Option, none, some, Bytes, length, ◌==◌, ◌≡◌,
  refl, arith, Bool-cases, inl, inr,
}
use tamga.Util.Utf.{read_lead, read_continuation, read_code_point, continue_lead, decode_loop}

read_continuation-length :
    (count code full : ℕ) (src rest : Bytes)
    → read_continuation count code src ≡ some (full, rest)
    → length rest ≤ length src
unfolding read_continuation
read_continuation-length zero code full src rest h = ground (arith, h)
read_continuation-length (suc count) code full [] rest h = absurd (ground (arith, h))
read_continuation-length (suc count) code full (b ∷ src) rest h = elim (Bool-cases (b / 64 == 2)) [
  | inl good ↦
      let shorter =
        read_continuation-length count (code * 64 + b % 64) full src rest
          (ground (arith, good, h)) in
      omega (arith, shorter)
  | inr bad ↦ absurd (ground (arith, bad, h))
]

continue_lead-length :
    (src rest : Bytes) (lead : Option (ℕ × ℕ)) (count code : ℕ)
    → continue_lead src lead ≡ some (count, code, rest)
    → length rest ≤ length src
continue_lead-length src rest none count code h = absurd (ground (arith, h))
continue_lead-length src rest (some (first, n)) count code h =
    ground (arith, h, read_continuation-length n first code src rest)

pub read_code_point-length :
    (lead code : ℕ) (src rest : Bytes)
    → read_code_point lead src ≡ some (code, rest)
    → length rest ≤ length src
unfolding read_code_point
read_code_point-length lead code src rest h =
    ground (arith, h, continue_lead-length src rest (read_lead lead))

pub decode_loop-nil : (fuel : ℕ) → decode_loop fuel [] ≡ some []
unfolding decode_loop
decode_loop-nil zero = refl
decode_loop-nil (suc fuel) = refl
