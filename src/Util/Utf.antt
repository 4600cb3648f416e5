-- ===== src/Util/Utf.antt =====
-- src/lib/util/Utf.cpp, for a `wchar_t` of 32 bits. Texts are lists of bytes, of UTF-16 units and of
-- code points. Masks and shifts are by literals, so `x & 0x3F` is `x % 64` and so on, and `|` joins
-- parts that share no bit, so it is `+`. Where the code returns false, the answer is `none`. The reads
-- through a raw pointer (`FromShortWchar`) are left out.
pub mod RoundTrip
pub mod Fuel
use tamga.Prelude.{
  ℕ, zero, suc, ◌+◌, ◌-◌, ◌*◌, ◌/◌, ◌%◌, Bool, true, false, not, ◌&&◌, ◌||◌, List, [], ◌∷◌, ◌++◌,
  Option, none, some, append_to, Bytes, length, ltb, leb, ◌==◌, if◌then◌else◌,
}

unfoldable pub is_lead_surrogate : ℕ → Bool
is_lead_surrogate unit = leb 55296 unit && leb unit 56319

unfoldable pub is_trail_surrogate : ℕ → Bool
is_trail_surrogate unit = leb 56320 unit && leb unit 57343

abbrev pub join_surrogates : ℕ → ℕ → ℕ
join_surrogates lead trail = 65536 + (lead - 55296) * 1024 + (trail - 56320)

unfoldable pub utf16_to_wide : List ℕ → List ℕ
unfolding is_lead_surrogate is_trail_surrogate
utf16_to_wide [] = []
utf16_to_wide (lead ∷ []) = lead ∷ []
utf16_to_wide (lead ∷ trail ∷ src) =
    let after_one = utf16_to_wide (trail ∷ src) in
    let after_two = utf16_to_wide src in
    if is_lead_surrogate lead && is_trail_surrogate trail
    then join_surrogates lead trail ∷ after_two
    else lead ∷ after_one

-- The units of one code point.
unfoldable pub units_of : ℕ → List ℕ
units_of code_point =
    if leb code_point 65535
    then code_point ∷ []
    else let adjusted = code_point - 65536 in
      (55296 + adjusted / 1024 % 1024) ∷ (56320 + adjusted % 1024) ∷ []

unfoldable pub wide_to_utf16 : List ℕ → List ℕ
unfolding units_of
wide_to_utf16 [] = []
wide_to_utf16 (ch ∷ src) = units_of ch ++ wide_to_utf16 src

-- `code_point` and `continuation_count` of a leading byte.
unfoldable pub read_lead : ℕ → Option (ℕ × ℕ)
read_lead lead =
    if leb lead 127
    then some (lead, 0)
    else if lead / 32 == 6
    then (if lead % 32 == 0 then none else some (lead % 32, 1))
    else if lead / 16 == 14
    then some (lead % 16, 2)
    else if lead / 8 == 30
    then some (lead % 8, 3)
    else none

-- The loop over the continuation bytes: the code point, and what follows them.
unfoldable pub read_continuation : ℕ → ℕ → Bytes → Option (ℕ × Bytes)
read_continuation zero code_point src = some (code_point, src)
read_continuation (suc count) code_point [] = none
read_continuation (suc count) code_point (continuation ∷ src) =
    let rest = read_continuation count (code_point * 64 + continuation % 64) src in
    if not (continuation / 64 == 2) then none else rest

unfoldable pub is_bad_code_point : ℕ → ℕ → Bool
is_bad_code_point count code_point =
    (count == 1 && ltb code_point 128)
    || (count == 2 && ltb code_point 2048)
    || (count == 3 && ltb code_point 65536)
    || ltb 1114111 code_point
    || (leb 55296 code_point && leb code_point 57343)

abbrev pub continue_lead : Bytes → Option (ℕ × ℕ) → Option (ℕ × ℕ × Bytes)
continue_lead src none = none
continue_lead src (some (code_point, count)) =
    if ltb (length src) count then none else elim (read_continuation count code_point src) [
      | none ↦ none
      | some (full, rest) ↦ some (count, full, rest)
    ]

-- One turn of the loop: the code point, and what follows it.
unfoldable pub read_code_point : ℕ → Bytes → Option (ℕ × Bytes)
unfolding read_lead read_continuation is_bad_code_point
read_code_point lead src = elim (continue_lead src (read_lead lead)) [
  | none ↦ none
  | some (count, code_point, rest) ↦
      if is_bad_code_point count code_point then none else some (code_point, rest)
]

-- `while (i < src.size())`, on fuel: each turn takes a byte, so there are no more than the bytes.
unfoldable pub decode_loop : ℕ → Bytes → Option (List ℕ)
unfolding read_code_point units_of
decode_loop fuel [] = some []
decode_loop zero (lead ∷ src) = none
decode_loop (suc fuel) (lead ∷ src) = elim (read_code_point lead src) [
  | none ↦ none
  | some (code_point, rest) ↦ append_to (units_of code_point) (decode_loop fuel rest)
]

unfoldable pub decode_utf8_to_utf16 : Bytes → Option (List ℕ)
unfolding decode_loop
decode_utf8_to_utf16 src = decode_loop (length src) src

unfoldable pub append_utf8_code_point : ℕ → Option Bytes
append_utf8_code_point code_point =
    if ltb 1114111 code_point || (leb 55296 code_point && leb code_point 57343)
    then none
    else if leb code_point 127
    then some (code_point ∷ [])
    else if leb code_point 2047
    then some ((192 + code_point / 64 % 32) ∷ (128 + code_point % 64) ∷ [])
    else if leb code_point 65535
    then some (
        (224 + code_point / 4096 % 16)
        ∷ (128 + code_point / 64 % 64)
        ∷ (128 + code_point % 64)
        ∷ [])
    else some (
        (240 + code_point / 262144 % 8)
        ∷ (128 + code_point / 4096 % 64)
        ∷ (128 + code_point / 64 % 64)
        ∷ (128 + code_point % 64)
        ∷ [])

abbrev pub emit : Option Bytes → Option Bytes → Option Bytes
emit none rest = none
emit (some bytes) rest = append_to bytes rest

unfoldable pub encode_utf16_to_utf8 : List ℕ → Option Bytes
unfolding is_lead_surrogate is_trail_surrogate append_utf8_code_point
encode_utf16_to_utf8 [] = some []
encode_utf16_to_utf8 (unit ∷ []) =
    if is_lead_surrogate unit
    then none
    else if is_trail_surrogate unit
    then none
    else emit (append_utf8_code_point unit) (some [])
encode_utf16_to_utf8 (unit ∷ trail ∷ src) =
    let after_one = encode_utf16_to_utf8 (trail ∷ src) in
    let after_two = encode_utf16_to_utf8 src in
    if is_lead_surrogate unit
    then (if not (is_trail_surrogate trail)
        then none
        else emit (append_utf8_code_point (join_surrogates unit trail)) after_two)
    else if is_trail_surrogate unit
    then none
    else emit (append_utf8_code_point unit) after_one

abbrev pub or_empty : Option (List ℕ) → List ℕ
or_empty none = []
or_empty (some out) = out

-- `FromUtf8` and `ToUtf8`, which answer a text that does not convert with the empty one.
unfoldable pub from_utf8 : Bytes → List ℕ
unfolding decode_utf8_to_utf16 utf16_to_wide
from_utf8 src = utf16_to_wide (or_empty (decode_utf8_to_utf16 src))

unfoldable pub to_utf8 : List ℕ → Bytes
unfolding encode_utf16_to_utf8 wide_to_utf16
to_utf8 src = or_empty (encode_utf16_to_utf8 (wide_to_utf16 src))
