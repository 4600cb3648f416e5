-- ===== src/Session/Paths/Laws.antt =====
-- The check of a path accepts what the decoder of src/lib/util/Utf.cpp decodes.
use tamga.Prelude.{
  ℕ, zero, suc, ◌+◌, ◌*◌, ◌%◌, ◌/◌, Bool, true, false, ◌&&◌, [], ◌∷◌, Option, none, some, append_to,
  Bytes, length, ltb, ◌==◌, ◌≡◌, ◌∙◌, refl, sym, ap, arith, Bool-cases, Option-cases, inl, inr,
}
use tamga.Validation.Decision.{is_some}
use tamga.Util.Utf.{
  read_lead, read_continuation, is_bad_code_point, read_code_point, decode_loop,
  decode_utf8_to_utf16, units_of,
}
use tamga.Session.Paths.{
  path_lead, path_continuation, is_refused_code, path_sequence, path_step, path_loop,
  is_valid_utf8_path,
}

path_continuation_same :
    (count code : ℕ) (src : Bytes)
    → path_continuation count code src ≡ read_continuation count code src
unfolding path_continuation read_continuation
path_continuation_same zero code src = refl
path_continuation_same (suc count) code [] = refl
path_continuation_same (suc count) code (b ∷ src) =
    rw (path_continuation_same count (code * 64 + b % 64) src) refl

is_refused_code_same : (extra code : ℕ) → is_refused_code extra code ≡ is_bad_code_point extra code
unfolding is_refused_code is_bad_code_point
is_refused_code_same extra code = ground arith

abbrev what_follows : Option (ℕ × Bytes) → Option Bytes
what_follows none = none
what_follows (some (code, rest)) = some rest

-- The lead byte of two bytes that would hold a code below 64, which only the decoder refuses at once.
abbrev is_overlong_lead : ℕ → Bool
is_overlong_lead lead = (lead / 32 == 6) && (lead % 32 == 0)

read_lead-path :
    (lead : ℕ)
    → ltb lead 128 ≡ false
    → is_overlong_lead lead ≡ false
    → read_lead lead ≡ path_lead lead
unfolding read_lead path_lead
read_lead-path lead h k = ground (arith, h, k)

read_lead_overlong :
    (lead : ℕ)
    → ltb lead 128 ≡ false
    → is_overlong_lead lead ≡ true
    → (read_lead lead ≡ none) × (path_lead lead ≡ some (0, 1))
unfolding read_lead path_lead
read_lead_overlong lead h k = ground (arith, h, k)

path_sequence_overlong : (src : Bytes) → path_sequence (some (0, 1)) src ≡ none
unfolding path_sequence path_continuation is_refused_code
path_sequence_overlong [] = refl
path_sequence_overlong (b ∷ src) = ground arith

read_code_point_of :
    (lead : ℕ) (found : Option (ℕ × ℕ)) (src : Bytes)
    → read_lead lead ≡ found
    → path_sequence found src ≡ what_follows (read_code_point lead src)
unfolding path_sequence read_code_point
read_code_point_of lead none src h = rw (h, read_code_point) refl
read_code_point_of lead (some (code, extra)) src h =
    ground (
      arith,
      h,
      path_continuation_same extra code src,
      λ (full : ℕ). is_refused_code_same extra full,
    )

read_code_point_ascii :
    (lead : ℕ) (src : Bytes) → ltb lead 128 ≡ true → read_code_point lead src ≡ some (lead, src)
unfolding read_code_point read_lead read_continuation is_bad_code_point
read_code_point_ascii lead src h = ground (arith, h)

path_step_ascii : (lead : ℕ) (src : Bytes) → ltb lead 128 ≡ true → path_step lead src ≡ some src
unfolding path_step
path_step_ascii lead src h = rw h refl

path_step_long :
    (lead : ℕ) (src : Bytes)
    → ltb lead 128 ≡ false
    → path_step lead src ≡ path_sequence (path_lead lead) src
unfolding path_step
path_step_long lead src h = rw h refl

path_sequence-none : (src : Bytes) → path_sequence none src ≡ none
unfolding path_sequence
path_sequence-none src = refl

path_step-what_follows :
    (lead : ℕ) (src : Bytes) → path_step lead src ≡ what_follows (read_code_point lead src)
path_step-what_follows lead src = elim (Bool-cases (ltb lead 128)) [
  | inl short ↦
      path_step_ascii lead src short ∙ sym (ap what_follows (read_code_point_ascii lead src short))
  | inr long ↦ elim (Bool-cases (is_overlong_lead lead)) [
    | inl over ↦
        let (refused, found) = read_lead_overlong lead long over in
        path_step_long lead src long
        ∙ ap (λ (o : Option (ℕ × ℕ)). path_sequence o src) found
        ∙ path_sequence_overlong src
        ∙ sym (path_sequence-none src)
        ∙ read_code_point_of lead none src refused
    | inr fine ↦
        path_step_long lead src long
        ∙ read_code_point_of lead (path_lead lead) src (read_lead-path lead long fine)
  ]
]

is_some-append_to :
    (out : Bytes) (rest : Option Bytes) → is_some (append_to out rest) ≡ is_some rest
is_some-append_to out none = refl
is_some-append_to out (some bs) = refl

path_loop-is_some : (fuel : ℕ) (src : Bytes) → path_loop fuel src ≡ is_some (decode_loop fuel src)
unfolding path_loop decode_loop
path_loop-is_some zero [] = refl
path_loop-is_some (suc fuel) [] = refl
path_loop-is_some zero (lead ∷ src) = refl
path_loop-is_some (suc fuel) (lead ∷ src) = elim (Option-cases (read_code_point lead src)) [
  | inl stop ↦
      let refused = path_step-what_follows lead src ∙ ap what_follows stop in
      rw (refused, stop, path_loop, decode_loop) refl
  | inr ((code, rest), read) ↦
      let follows = path_step-what_follows lead src ∙ ap what_follows read in
      rw (follows, read, path_loop, decode_loop)
        (path_loop-is_some fuel rest
          ∙ sym (is_some-append_to (units_of code) (decode_loop fuel rest)))
]

-- The check of a path accepts exactly the byte strings that the decoder of UTF-8 decodes, though the
-- two are written apart and refuse an overlong lead byte at different places.
pub is_valid_utf8_path-decodes :
    (path : Bytes) → is_valid_utf8_path path ≡ is_some (decode_utf8_to_utf16 path)
unfolding is_valid_utf8_path decode_utf8_to_utf16
is_valid_utf8_path-decodes path = path_loop-is_some (length path) path
