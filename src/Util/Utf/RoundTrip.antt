-- ===== src/Util/Utf/RoundTrip.antt =====
-- A wide text of Unicode scalar values survives the way to UTF-8 and back.
use tamga.Prelude.{
  ℕ, zero, suc, ◌+◌, ◌-◌, ◌*◌, ◌/◌, ◌%◌, ◌<◌, ◌≤◌, true, false, List, [], ◌∷◌, ◌++◌, some, Bytes,
  length, length-append, ltb, leb, ◌≡◌, ◌∙◌, ◌⊎◌, inl, inr, refl, arith, Bool-cases,
}
use tamga.Prelude.Find.{All}
use tamga.Util.Utf.{
  is_lead_surrogate, is_trail_surrogate, join_surrogates, utf16_to_wide, units_of, wide_to_utf16,
  read_lead, read_continuation, is_bad_code_point, read_code_point, decode_loop,
  decode_utf8_to_utf16, append_utf8_code_point, emit, encode_utf16_to_utf8, from_utf8, to_utf8,
}

read_lead_one : (c : ℕ) → c ≤ 127 → read_lead c ≡ some (c, 0)
unfolding read_lead
read_lead_one c h = ground (arith, h)

read_lead_two : (c : ℕ) → 128 ≤ c → c ≤ 2047 → read_lead (192 + c / 64 % 32) ≡ some (c / 64 % 32, 1)
unfolding read_lead
read_lead_two c l h = ground (arith, l, h)

read_lead_three : (c : ℕ) → read_lead (224 + c / 4096 % 16) ≡ some (c / 4096 % 16, 2)
unfolding read_lead
read_lead_three c = ground arith

read_lead_four : (c : ℕ) → read_lead (240 + c / 262144 % 8) ≡ some (c / 262144 % 8, 3)
unfolding read_lead
read_lead_four c = ground arith

continue_one :
    (code b : ℕ) (src : Bytes)
    → read_continuation 1 code ((128 + b % 64) ∷ src) ≡ some (code * 64 + b % 64, src)
unfolding read_continuation
continue_one code b src = ground arith

continue_more :
    (count code b : ℕ) (src : Bytes)
    → read_continuation (suc count) code ((128 + b % 64) ∷ src)
      ≡ read_continuation count (code * 64 + b % 64) src
unfolding read_continuation
continue_more count code b src = ground arith

-- A code point that is no surrogate.
abbrev pub IsScalar : ℕ → Type 0
IsScalar c = (c < 55296) ⊎ ((57343 < c) × (c < 1114112))

-- The reader, once its parts are known.
read_code_point_parts :
    (lead count code full : ℕ) (src rest : Bytes)
    → read_lead lead ≡ some (code, count)
    → ltb (length src) count ≡ false
    → read_continuation count code src ≡ some (full, rest)
    → is_bad_code_point count full ≡ false
    → read_code_point lead src ≡ some (full, rest)
unfolding read_code_point
read_code_point_parts lead count code full src rest h l r b = rw (h, l, r, b, read_code_point) refl

is_bad_scalar :
    (count c : ℕ)
    → IsScalar c
    → (count ≡ 1 → 128 ≤ c)
    → (count ≡ 2 → 2048 ≤ c)
    → (count ≡ 3 → 65536 ≤ c)
    → is_bad_code_point count c ≡ false
unfolding is_bad_code_point
is_bad_scalar count c h one two three = ground (arith, h, one, two, three)

read_one : (c : ℕ) (bs : Bytes) → c ≤ 127 → read_code_point c bs ≡ some (c, bs)
unfolding read_continuation
read_one c bs h = read_code_point_parts c 0 c c bs bs (read_lead_one c h) (ground arith) refl (
    is_bad_scalar 0 c (inl (omega (arith, h))) (λ e. omega (arith, e)) (λ e. omega (arith, e))
      (λ e. omega (arith, e)))

read_two :
    (c : ℕ) (bs : Bytes)
    → 128 ≤ c
    → c ≤ 2047
    → read_code_point (192 + c / 64 % 32) ((128 + c % 64) ∷ bs) ≡ some (c, bs)
read_two c bs l h =
    read_code_point_parts _ 1 (c / 64 % 32) c _ bs (read_lead_two c l h) (ground arith)
      (ground (arith, continue_one (c / 64 % 32) c bs, h))
      (is_bad_scalar 1 c (inl (omega (arith, h))) (λ e. l) (λ e. omega (arith, e))
        (λ e. omega (arith, e)))

read_three :
    (c : ℕ) (bs : Bytes)
    → IsScalar c
    → 2048 ≤ c
    → c ≤ 65535
    → read_code_point (224 + c / 4096 % 16) ((128 + c / 64 % 64) ∷ (128 + c % 64) ∷ bs)
      ≡ some (c, bs)
read_three c bs s l h =
    let first = c / 4096 % 16 in
    let value : (first * 64 + c / 64 % 64) * 64 + c % 64 ≡ c = omega (arith, h) in
    read_code_point_parts _ 2 first c _ bs (read_lead_three c) (ground arith)
      (rw value at (
        continue_more 1 first (c / 64) ((128 + c % 64) ∷ bs)
        ∙ continue_one (first * 64 + c / 64 % 64) c bs))
      (is_bad_scalar 2 c s (λ e. omega (arith, e)) (λ e. l) (λ e. omega (arith, e)))

read_four :
    (c : ℕ) (bs : Bytes)
    → IsScalar c
    → 65536 ≤ c
    → read_code_point
        (240 + c / 262144 % 8)
        ((128 + c / 4096 % 64) ∷ (128 + c / 64 % 64) ∷ (128 + c % 64) ∷ bs)
      ≡ some (c, bs)
read_four c bs s l =
    let first = c / 262144 % 8 in
    let second = first * 64 + c / 4096 % 64 in
    let bound : c < 1114112 = ground (arith, s, l) in
    let value : (second * 64 + c / 64 % 64) * 64 + c % 64 ≡ c = omega (arith, bound) in
    read_code_point_parts _ 3 first c _ bs (read_lead_four c) (ground arith)
      (rw value at (
        continue_more 2 first (c / 4096) ((128 + c / 64 % 64) ∷ (128 + c % 64) ∷ bs)
        ∙ continue_more 1 second (c / 64) ((128 + c % 64) ∷ bs)
        ∙ continue_one (second * 64 + c / 64 % 64) c bs))
      (is_bad_scalar 3 c s (λ e. omega (arith, e)) (λ e. omega (arith, e)) (λ e. l))

-- The bytes of a code point, and what the reader makes of them before any other bytes.
Encoded : ℕ → Type 0
Encoded c =
    (lead : ℕ) × (tail : Bytes) × (append_utf8_code_point c ≡ some (lead ∷ tail))
    × ((bs : Bytes) → read_code_point lead (tail ++ bs) ≡ some (c, bs))

IsScalar-Encoded : (c : ℕ) → IsScalar c → Encoded c
unfolding Encoded append_utf8_code_point
IsScalar-Encoded c s = elim (Bool-cases (leb c 127)) [
  | inl one ↦ (c, [], ground (arith, s, one), λ bs. read_one c bs (ground (arith, one)))
  | inr more ↦ elim (Bool-cases (leb c 2047)) [
    | inl two ↦ (
      192 + c / 64 % 32,
      (128 + c % 64) ∷ [],
      ground (arith, s, more, two),
      λ bs. read_two c bs (ground (arith, more)) (ground (arith, two)),
    )
    | inr most ↦ elim (Bool-cases (leb c 65535)) [
      | inl three ↦ (
        224 + c / 4096 % 16,
        (128 + c / 64 % 64) ∷ (128 + c % 64) ∷ [],
        ground (arith, s, more, most, three),
        λ bs. read_three c bs s (ground (arith, most)) (ground (arith, three)),
      )
      | inr four ↦ (
        240 + c / 262144 % 8,
        (128 + c / 4096 % 64) ∷ (128 + c / 64 % 64) ∷ (128 + c % 64) ∷ [],
        ground (arith, s, more, most, four),
        λ bs. read_four c bs s (ground (arith, four)),
      )
    ]
  ]
]

-- The units of a code point.
units_of_one : (c : ℕ) → c ≤ 65535 → units_of c ≡ c ∷ []
unfolding units_of
units_of_one c h = ground (arith, h)

abbrev lead_of : ℕ → ℕ
lead_of c = 55296 + (c - 65536) / 1024 % 1024

abbrev trail_of : ℕ → ℕ
trail_of c = 56320 + (c - 65536) % 1024

units_of_two : (c : ℕ) → 65535 < c → units_of c ≡ lead_of c ∷ trail_of c ∷ []
unfolding units_of
units_of_two c h = ground (arith, h)

join_surrogates-units :
    (c : ℕ) → 65535 < c → c < 1114112 → join_surrogates (lead_of c) (trail_of c) ≡ c
join_surrogates-units c l h = omega (arith, l, h)

lead_of-IsLead : (c : ℕ) → is_lead_surrogate (lead_of c) ≡ true
unfolding is_lead_surrogate
lead_of-IsLead c = ground arith

trail_of-IsTrail : (c : ℕ) → is_trail_surrogate (trail_of c) ≡ true
unfolding is_trail_surrogate
trail_of-IsTrail c = ground arith

scalar_plain :
    (c : ℕ)
    → IsScalar c
    → c ≤ 65535
    → (is_lead_surrogate c ≡ false) × (is_trail_surrogate c ≡ false)
unfolding is_lead_surrogate is_trail_surrogate
scalar_plain c s h = ground (arith, s, h)

utf16_to_wide-plain :
    (c : ℕ) (us : List ℕ)
    → is_lead_surrogate c ≡ false
    → utf16_to_wide (c ∷ us) ≡ c ∷ utf16_to_wide us
unfolding utf16_to_wide
utf16_to_wide-plain c [] h = refl
utf16_to_wide-plain c (u ∷ us) h = ground (arith, h)

utf16_to_wide-pair :
    (a b : ℕ) (us : List ℕ)
    → is_lead_surrogate a ≡ true
    → is_trail_surrogate b ≡ true
    → utf16_to_wide (a ∷ b ∷ us) ≡ join_surrogates a b ∷ utf16_to_wide us
unfolding utf16_to_wide
utf16_to_wide-pair a b us h k = ground (arith, h, k)

utf16_to_wide-units :
    (c : ℕ) (us : List ℕ) → IsScalar c → utf16_to_wide (units_of c ++ us) ≡ c ∷ utf16_to_wide us
utf16_to_wide-units c us s = elim (Bool-cases (leb c 65535)) [
  | inl one ↦
      let small : c ≤ 65535 = ground (arith, one) in
      rw (units_of_one c small) (utf16_to_wide-plain c us (scalar_plain c s small).0)
  | inr two ↦
      let large : 65535 < c = ground (arith, two) in
      let bound : c < 1114112 = ground (arith, s, two) in
      rw (units_of_two c large) (
        rw (join_surrogates-units c large bound) at
          (utf16_to_wide-pair _ _ us (lead_of-IsLead c) (trail_of-IsTrail c)))
]

encode-plain :
    (c : ℕ) (us : List ℕ)
    → is_lead_surrogate c ≡ false
    → is_trail_surrogate c ≡ false
    → encode_utf16_to_utf8 (c ∷ us) ≡ emit (append_utf8_code_point c) (encode_utf16_to_utf8 us)
unfolding encode_utf16_to_utf8
encode-plain c [] h k = ground (arith, h, k)
encode-plain c (u ∷ us) h k = ground (arith, h, k)

encode-pair :
    (a b : ℕ) (us : List ℕ)
    → is_lead_surrogate a ≡ true
    → is_trail_surrogate b ≡ true
    → encode_utf16_to_utf8 (a ∷ b ∷ us)
      ≡ emit (append_utf8_code_point (join_surrogates a b)) (encode_utf16_to_utf8 us)
unfolding encode_utf16_to_utf8
encode-pair a b us h k = ground (arith, h, k)

encode-units :
    (c : ℕ) (us : List ℕ)
    → IsScalar c
    → encode_utf16_to_utf8 (units_of c ++ us)
      ≡ emit (append_utf8_code_point c) (encode_utf16_to_utf8 us)
encode-units c us s = elim (Bool-cases (leb c 65535)) [
  | inl one ↦
      let small : c ≤ 65535 = ground (arith, one) in
      let (not_lead, not_trail) = scalar_plain c s small in
      rw (units_of_one c small) (encode-plain c us not_lead not_trail)
  | inr two ↦
      let large : 65535 < c = ground (arith, two) in
      let bound : c < 1114112 = ground (arith, s, two) in
      rw (units_of_two c large) (
        rw (join_surrogates-units c large bound) at
          (encode-pair _ _ us (lead_of-IsLead c) (trail_of-IsTrail c)))
]

-- The bytes of a text, and that the reader needs no more turns than there are bytes.
Written : List ℕ → Type 0
Written src =
    (bytes : Bytes) × (encode_utf16_to_utf8 (wide_to_utf16 src) ≡ some bytes)
    × ((fuel : ℕ) → length bytes ≤ fuel → decode_loop fuel bytes ≡ some (wide_to_utf16 src))

decode_loop-step :
    (fuel lead c : ℕ) (src rest : Bytes) (us : List ℕ)
    → read_code_point lead src ≡ some (c, rest)
    → decode_loop fuel rest ≡ some us
    → decode_loop (suc fuel) (lead ∷ src) ≡ some (units_of c ++ us)
unfolding decode_loop
decode_loop-step fuel lead c src rest us h k = rw (h, k, decode_loop) refl

decode_loop-more :
    (fuel lead c : ℕ) (tail bytes : Bytes) (us : List ℕ)
    → read_code_point lead (tail ++ bytes) ≡ some (c, bytes)
    → ((f : ℕ) → length bytes ≤ f → decode_loop f bytes ≡ some us)
    → length (lead ∷ (tail ++ bytes)) ≤ fuel
    → decode_loop fuel (lead ∷ (tail ++ bytes)) ≡ some (units_of c ++ us)
decode_loop-more zero lead c tail bytes us h k le = absurd (omega (arith, le))
decode_loop-more (suc fuel) lead c tail bytes us h k le =
    let enough : length bytes ≤ fuel = omega (arith, le, length-append tail bytes) in
    decode_loop-step fuel lead c (tail ++ bytes) bytes us h (k fuel enough)

AreScalars-Written : (src : List ℕ) → All IsScalar src → Written src
unfolding Written wide_to_utf16 encode_utf16_to_utf8 decode_loop Encoded
AreScalars-Written [] h = ([], refl, λ fuel le. refl)
AreScalars-Written (c ∷ src) h =
    let (lead, tail, appended, read) = IsScalar-Encoded c h.0 in
    let (bytes, encoded, decoded) = AreScalars-Written src h.1 in
    (
      lead ∷ (tail ++ bytes),
      rw (encode-units c (wide_to_utf16 src) h.0, appended, encoded) refl,
      λ fuel le.
          decode_loop-more fuel lead c tail bytes (wide_to_utf16 src) (read bytes) decoded le,
    )

utf16_to_wide-wide : (src : List ℕ) → All IsScalar src → utf16_to_wide (wide_to_utf16 src) ≡ src
unfolding wide_to_utf16 utf16_to_wide
utf16_to_wide-wide [] h = refl
utf16_to_wide-wide (c ∷ src) h =
    rw (utf16_to_wide-units c (wide_to_utf16 src) h.0, utf16_to_wide-wide src h.1) refl

-- A wide text of Unicode scalar values comes back from UTF-8 as it was: no code point is refused,
-- cut or joined with the next on the way through UTF-16 units and bytes in either direction.
pub from_utf8-to_utf8 : (src : List ℕ) → All IsScalar src → from_utf8 (to_utf8 src) ≡ src
unfolding from_utf8 to_utf8 decode_utf8_to_utf16 Written
from_utf8-to_utf8 src h =
    let (bytes, encoded, decoded) = AreScalars-Written src h in
    rw (encoded, decoded (length bytes) (omega arith), utf16_to_wide-wide src h) refl
