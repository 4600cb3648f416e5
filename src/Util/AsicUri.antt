-- ===== src/Util/AsicUri.antt =====
-- src/lib/util/AsicUri.cpp and src/lib/util/Iso8601.cpp: the name of a container's entry out of a
-- reference, and the usual form of an ASN.1 time. A text is the list of its bytes; where
-- `NormalizeAsicEntryUri` returns false the answer is `none`.
pub mod Laws
use tamga.Prelude.{
  ℕ, ◌+◌, ◌-◌, ◌*◌, Bool, true, false, ◌&&◌, ◌||◌, [], ◌∷◌, ◌++◌, Option, none, some, Bytes, codes,
  length, take, drop, leb, ltb, ◌==◌, if◌then◌else◌, append_to,
}

-- `HexValue`, with `none` for -1.
unfoldable pub hex_value : ℕ → Option ℕ
hex_value ch =
    if leb 48 ch && leb ch 57
    then some (ch - 48)
    else if leb 97 ch && leb ch 102
    then some (ch - 97 + 10)
    else if leb 65 ch && leb ch 70
    then some (ch - 65 + 10)
    else none

-- The byte of two digits, in front of what follows it.
unfoldable pub escaped : (hi lo : ℕ) → Option Bytes → Option Bytes
unfolding hex_value
escaped hi lo rest = elim (hex_value hi) [
  | none ↦ none
  | some h ↦ elim (hex_value lo) [ none ↦ none | some l ↦ append_to ((h * 16 + l) ∷ []) rest ]
]

-- The loop of `NormalizeAsicEntryUri`; two bytes are needed after a percent sign.
unfoldable pub percent_decode : Bytes → Option Bytes
unfolding escaped
percent_decode [] = some []
percent_decode (ch ∷ []) = if ch == 37 then none else some (ch ∷ [])
percent_decode (ch ∷ hi ∷ []) =
    let plain = percent_decode (hi ∷ []) in if ch == 37 then none else append_to (ch ∷ []) plain
percent_decode (ch ∷ hi ∷ lo ∷ rest) =
    let plain = percent_decode (hi ∷ lo ∷ rest) in
    let after = percent_decode rest in
    if ch == 37 then escaped hi lo after else append_to (ch ∷ []) plain

-- `./` in front is erased, once.
abbrev pub erase_dot : Bytes → Bytes
erase_dot (dot ∷ slash ∷ rest) = if dot == 46 && slash == 47 then rest else dot ∷ slash ∷ rest
erase_dot out = out

unfoldable pub normalize_asic_entry_uri : Bytes → Option Bytes
unfolding percent_decode
normalize_asic_entry_uri uri = elim (percent_decode uri) [
  | none ↦ none
  | some out ↦ some (erase_dot out)
]

-- `find(ch) != npos`.
abbrev pub has_byte : ℕ → Bytes → Bool
has_byte ch [] = false
has_byte ch (c ∷ text) = c == ch || has_byte ch text

abbrev pub substr : Bytes → ℕ → ℕ → Bytes
substr text start count = take count (drop start text)

-- A text that is too short, or has its dashes, stays.
unfoldable pub is_formatted : Bytes → Bool
is_formatted time = ltb (length time) 14 || has_byte 45 time

-- What follows the year.
unfoldable pub after_year : Bytes → Bytes
after_year time =
    codes "-"
    ++ substr time 4 2
    ++ codes "-"
    ++ substr time 6 2
    ++ codes "T"
    ++ substr time 8 2
    ++ codes ":"
    ++ substr time 10 2
    ++ codes ":"
    ++ substr time 12 2
    ++ codes "Z"

unfoldable pub iso8601_form : Bytes → Bytes
unfolding after_year
iso8601_form time = substr time 0 4 ++ after_year time

unfoldable pub format_as_iso8601 : Bytes → Bytes
unfolding is_formatted iso8601_form
format_as_iso8601 generalized_time =
    if is_formatted generalized_time then generalized_time else iso8601_form generalized_time
