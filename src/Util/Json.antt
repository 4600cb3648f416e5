-- ===== src/Util/Json.antt =====
-- src/lib/util/Json.cpp: a reader of JSON that skips what it is not asked for, and the escape of the
-- writers. A position in the text is what follows it. Where the code returns false or `nullopt`, the
-- answer is `none`. The loops and the mutual recursion run on fuel. A loop over bytes takes one or more
-- of them in each turn, so their number is enough for it. For a value the fuel is three times that
-- number and one more: a composite takes three calls, one for the value, one for its bracket and one
-- for its members, before the bracket is read.
pub mod Strings
pub mod Objects
pub mod Lengths
pub mod Skips
pub mod Fuel
use tamga.Prelude.{
  ℕ, zero, suc, ◌+◌, ◌-◌, ◌*◌, ◌/◌, ◌%◌, Bool, true, false, not, ◌&&◌, ◌||◌, List, [], ◌∷◌, ◌++◌,
  Option, none, some, append_to, Bytes, codes, length, ltb, leb, ◌==◌, if◌then◌else◌,
}
use tamga.Prelude.Order.{bytes_eq}
use tamga.Util.Base64.{is_space}
use tamga.Util.Hex.{hex_digits}
use tamga.Util.Utf.{append_utf8_code_point, is_lead_surrogate, is_trail_surrogate, join_surrogates}

abbrev pub k_max_json_nesting_depth : ℕ
k_max_json_nesting_depth = 100

-- One hexadecimal digit.
unfoldable pub hex_digit_value : ℕ → Option ℕ
hex_digit_value ch =
    if leb 48 ch && leb ch 57
    then some (ch - 48)
    else if leb 97 ch && leb ch 102
    then some (10 + (ch - 97))
    else if leb 65 ch && leb ch 70
    then some (10 + (ch - 65))
    else none

-- The loop of `ParseJsonHexQuad` over `count` digits.
unfoldable pub parse_hex_digits : ℕ → ℕ → Bytes → Option (ℕ × Bytes)
unfolding hex_digit_value
parse_hex_digits zero value json = some (value, json)
parse_hex_digits (suc count) value [] = none
parse_hex_digits (suc count) value (ch ∷ json) = elim (hex_digit_value ch) [
  | none ↦ none
  | some digit ↦ parse_hex_digits count (value * 16 + digit) json
]

unfoldable pub parse_json_hex_quad : Bytes → Option (ℕ × Bytes)
unfolding parse_hex_digits
parse_json_hex_quad json = parse_hex_digits 4 0 json

unfoldable pub skip_json_whitespace : Bytes → Bytes
unfolding is_space
skip_json_whitespace [] = []
skip_json_whitespace (ch ∷ json) =
    let rest = skip_json_whitespace json in if is_space ch then rest else ch ∷ json

-- The six bytes `\uXXXX` of the second half of a pair.
unfoldable pub parse_trail : ℕ → Bytes → Option (ℕ × Bytes)
unfolding parse_json_hex_quad is_trail_surrogate
parse_trail lead (slash ∷ u ∷ json) =
    if not (slash == 92) || not (u == b'u') then none else elim (parse_json_hex_quad json) [
      | none ↦ none
      | some (trail, rest) ↦
          if not (is_trail_surrogate trail) then none else some (join_surrogates lead trail, rest)
    ]
parse_trail lead _ = none

abbrev pub with_utf8 : Option (ℕ × Bytes) → Option (Bytes × Bytes)
with_utf8 none = none
with_utf8 (some (code_point, rest)) = elim (append_utf8_code_point code_point) [
  | none ↦ none
  | some bytes ↦ some (bytes, rest)
]

abbrev pub complete_pair : Option (ℕ × Bytes) → Option (ℕ × Bytes)
complete_pair none = none
complete_pair (some (code_point, rest)) =
    if is_lead_surrogate code_point then parse_trail code_point rest else some (code_point, rest)

-- The `switch` after a backslash: what is appended, and what follows.
unfoldable pub parse_escape : ℕ → Bytes → Option (Bytes × Bytes)
unfolding parse_json_hex_quad parse_trail is_lead_surrogate append_utf8_code_point
parse_escape escaped json =
    if escaped == 34 || escaped == 92 || escaped == 47
    then some (escaped ∷ [], json)
    else if escaped == b'b'
    then some (8 ∷ [], json)
    else if escaped == b'f'
    then some (12 ∷ [], json)
    else if escaped == b'n'
    then some (10 ∷ [], json)
    else if escaped == b'r'
    then some (13 ∷ [], json)
    else if escaped == b't'
    then some (9 ∷ [], json)
    else if escaped == b'u'
    then with_utf8 (complete_pair (parse_json_hex_quad json))
    else none

abbrev pub append_first : Bytes → Option (Bytes × Bytes) → Option (Bytes × Bytes)
append_first out none = none
append_first out (some (more, rest)) = some (out ++ more, rest)

-- The loop of `ParseJsonString` after the opening quote.
unfoldable pub parse_characters : ℕ → Bytes → Option (Bytes × Bytes)
unfolding parse_escape
parse_characters fuel [] = none
parse_characters zero (ch ∷ json) = none
parse_characters (suc fuel) (ch ∷ json) =
    let rest = parse_characters fuel json in
    if ch == 34
    then some ([], json)
    else if ltb ch 32
    then none
    else if not (ch == 92)
    then append_first (ch ∷ []) rest
    else elim json [
      | [] ↦ none
      | escaped ∷ after ↦ elim (parse_escape escaped after) [
        | none ↦ none
        | some (bytes, follow) ↦ append_first bytes (parse_characters fuel follow)
      ]
    ]

unfoldable pub parse_json_string : Bytes → Option (Bytes × Bytes)
unfolding parse_characters
parse_json_string [] = none
parse_json_string (ch ∷ json) = if not (ch == 34) then none else parse_characters (length json) json

unfoldable pub skip_digits : Bytes → Bytes
skip_digits [] = []
skip_digits (ch ∷ json) =
    let rest = skip_digits json in if leb 48 ch && leb ch 57 then rest else ch ∷ json

-- One digit at least.
unfoldable pub skip_some_digits : Bytes → Option Bytes
unfolding skip_digits
skip_some_digits [] = none
skip_some_digits (ch ∷ json) = if leb 48 ch && leb ch 57 then some (skip_digits json) else none

abbrev pub skip_if : (ℕ → Bool) → Bytes → Bytes
skip_if test [] = []
skip_if test (ch ∷ json) = if test ch then json else ch ∷ json

-- The first byte passes the test.
abbrev pub starts : (ℕ → Bool) → Bytes → Bool
starts test [] = false
starts test (ch ∷ json) = test ch

-- `-`, then `0` or digits.
unfoldable pub skip_integer : Bytes → Option Bytes
unfolding skip_some_digits
skip_integer json =
    let unsigned = skip_if (λ ch. ch == 45) json in
    if starts (λ ch. ch == 48) unsigned
    then some (skip_if (λ ch. ch == 48) unsigned)
    else skip_some_digits unsigned

unfoldable pub skip_fraction : Bytes → Option Bytes
unfolding skip_some_digits
skip_fraction json =
    if starts (λ ch. ch == 46) json
    then skip_some_digits (skip_if (λ ch. ch == 46) json)
    else some json

unfoldable pub skip_exponent : Bytes → Option Bytes
unfolding skip_some_digits
skip_exponent json =
    if starts (λ ch. ch == b'e' || ch == b'E') json
    then skip_some_digits
        (skip_if (λ ch. ch == 43 || ch == 45) (skip_if (λ ch. ch == b'e' || ch == b'E') json))
    else some json

abbrev pub and_then {ℓ κ} : {A : Type ℓ} {B : Type κ} → Option A → (A → Option B) → Option B
and_then none f = none
and_then (some a) f = f a

-- A token that is read is not empty, so `offset > start` holds at the end.
unfoldable pub skip_json_number_token : Bytes → Option Bytes
unfolding skip_integer skip_fraction skip_exponent
skip_json_number_token json =
    and_then (skip_integer json) (λ a. and_then (skip_fraction a) (λ b. skip_exponent b))

-- `json.compare(offset, length, literal) == 0`, and then the step over it.
unfoldable pub skip_json_literal_token : Bytes → Bytes → Option Bytes
skip_json_literal_token [] json = some json
skip_json_literal_token (l ∷ literal) [] = none
skip_json_literal_token (l ∷ literal) (ch ∷ json) =
    let rest = skip_json_literal_token literal json in if l == ch then rest else none

-- The colon, and the white space behind it.
abbrev pub complete_key : Bytes → Bytes → Option (Bytes × Bytes)
complete_key key [] = none
complete_key key (ch ∷ rest) = if ch == 58 then some (key, skip_json_whitespace rest) else none

-- `"key" :` with the white space behind it.
unfoldable pub parse_key : Bytes → Option (Bytes × Bytes)
unfolding parse_json_string skip_json_whitespace
parse_key json = elim (parse_json_string json) [
  | none ↦ none
  | some (key, after) ↦ complete_key key (skip_json_whitespace after)
]

-- Only an object has keys.
abbrev pub skip_key : ℕ → Bytes → Option Bytes
skip_key open_char json =
    if open_char == 123 then and_then (parse_key json) (λ found. some found.1) else some json

-- The tests of `SkipJsonValue` on the first byte.
abbrev pub skip_token : (object array : Bytes → Option Bytes) → Bytes → Option Bytes
skip_token object array [] = none
skip_token object array (ch ∷ rest) =
    if ch == 34
    then and_then (parse_json_string (ch ∷ rest)) (λ found. some found.1)
    else if ch == 123
    then object (ch ∷ rest)
    else if ch == 91
    then array (ch ∷ rest)
    else if ch == b't'
    then skip_json_literal_token (codes "true") (ch ∷ rest)
    else if ch == b'f'
    then skip_json_literal_token (codes "false") (ch ∷ rest)
    else if ch == b'n'
    then skip_json_literal_token (codes "null") (ch ∷ rest)
    else skip_json_number_token (ch ∷ rest)

-- The bracket or the comma after a member.
abbrev pub skip_separator : ℕ → (Bytes → Option Bytes) → Bytes → Option Bytes
skip_separator close_char more [] = none
skip_separator close_char more (ch ∷ rest) =
    if ch == close_char
    then some rest
    else if not (ch == 44)
    then none
    else more (skip_json_whitespace rest)

unfoldable mutual
  -- `SkipJsonValue`.
  pub skip_json_value : ℕ → ℕ → Bytes → Option Bytes
  skip_json_value zero depth json = none
  skip_json_value (suc fuel) depth json =
      skip_token (λ at. skip_json_composite fuel 123 125 (suc depth) at)
        (λ at. skip_json_composite fuel 91 93 (suc depth) at) (skip_json_whitespace json)

  -- `SkipJsonComposite`: the limit, the opening bracket, and an empty composite.
  pub skip_json_composite : ℕ → ℕ → ℕ → ℕ → Bytes → Option Bytes
  skip_json_composite zero open_char close_char depth json = none
  skip_json_composite (suc fuel) open_char close_char depth [] = none
  skip_json_composite (suc fuel) open_char close_char depth (ch ∷ json) =
      let inside = skip_json_whitespace json in
      let members = skip_json_members fuel open_char close_char depth inside in
      if ltb k_max_json_nesting_depth depth
      then none
      else if not (ch == open_char)
      then none
      else if starts (λ c. c == close_char) inside
      then some (skip_if (λ c. c == close_char) inside)
      else members

  -- The loop over the members.
  pub skip_json_members : ℕ → ℕ → ℕ → ℕ → Bytes → Option Bytes
  skip_json_members zero open_char close_char depth json = none
  skip_json_members (suc fuel) open_char close_char depth json =
      and_then (skip_key open_char json) (λ at_value.
        and_then (skip_json_value fuel depth at_value) (λ after.
          skip_separator close_char (λ at. skip_json_members fuel open_char close_char depth at)
            (skip_json_whitespace after)))

-- `\u` and four digits.
abbrev pub unicode_escape : ℕ → Bytes
unicode_escape ch = 92 ∷ b'u' ∷ hex_digits 4 ch

-- `EscapeJson`, byte by byte.
unfoldable pub escape_character : ℕ → Bytes
escape_character ch =
    if ch == 92
    then 92 ∷ 92 ∷ []
    else if ch == 34
    then 92 ∷ 34 ∷ []
    else if ch == 10
    then 92 ∷ b'n' ∷ []
    else if ch == 13
    then 92 ∷ b'r' ∷ []
    else if ch == 9
    then 92 ∷ b't' ∷ []
    else if ch == 8
    then 92 ∷ b'b' ∷ []
    else if ch == 12
    then 92 ∷ b'f' ∷ []
    else if ltb ch 32
    then unicode_escape ch
    else ch ∷ []

unfoldable pub escape_json : Bytes → Bytes
unfolding escape_character
escape_json [] = []
escape_json (ch ∷ value) = escape_character ch ++ escape_json value

-- The loop of `FindJsonMemberValue`.
unfoldable pub find_member : ℕ → Bytes → ℕ → Bytes → Option Bytes
unfolding parse_key skip_json_value skip_json_whitespace
find_member zero key depth json = none
find_member (suc fuel) key depth json = elim (parse_key json) [
  | none ↦ none
  | some (current_key, at_value) ↦
      if bytes_eq current_key key
      then some at_value
      else elim (skip_json_value (3 * length at_value + 1) depth at_value) [
        | none ↦ none
        | some after ↦ elim (skip_json_whitespace after) [
          | [] ↦ none
          | ch ∷ rest ↦
              let more = find_member fuel key depth (skip_json_whitespace rest) in
              if ch == 125 then none else if not (ch == 44) then none else more
        ]
      ]
]

unfoldable pub find_json_member_value : Bytes → Bytes → ℕ → Option Bytes
unfolding find_member
find_json_member_value json key depth = elim (skip_json_whitespace json) [
  | [] ↦ none
  | ch ∷ rest ↦
      let inside = skip_json_whitespace rest in
      if not (ch == 123)
      then none
      else if starts (λ c. c == 125) inside
      then none
      else find_member (suc (length inside)) key depth inside
]

-- The loop of `FindJsonPathValue`, from depth 1 on.
unfoldable pub find_json_path : Bytes → List Bytes → ℕ → Option Bytes
unfolding find_json_member_value
find_json_path json [] depth = some json
find_json_path json (key ∷ path) depth =
    and_then (find_json_member_value json key depth)
      (λ at_value. find_json_path at_value path (suc depth))

unfoldable pub find_json_path_value : Bytes → List Bytes → Option Bytes
unfolding find_json_path
find_json_path_value json [] = none
find_json_path_value json (key ∷ path) = find_json_path json (key ∷ path) 1

-- The lambda `is_value_terminator`.
unfoldable pub is_value_terminator : Bytes → Bool
unfolding is_space
is_value_terminator [] = true
is_value_terminator (ch ∷ json) = ch == 44 || ch == 125 || ch == 93 || is_space ch

abbrev pub ends_value : Option Bytes → Bool
ends_value none = false
ends_value (some rest) = is_value_terminator rest

unfoldable pub read_bool_at : Bytes → Option Bool
unfolding skip_json_literal_token is_value_terminator
read_bool_at json =
    if ends_value (skip_json_literal_token (codes "true") json)
    then some true
    else if ends_value (skip_json_literal_token (codes "false") json)
    then some false
    else none

unfoldable pub extract_json_string_path : Bytes → List Bytes → Option Bytes
unfolding find_json_path_value parse_json_string
extract_json_string_path json path =
    and_then (find_json_path_value json path)
      (λ at_value. and_then (parse_json_string at_value) (λ found. some found.0))

unfoldable pub extract_json_bool_path : Bytes → List Bytes → Option Bool
unfolding find_json_path_value read_bool_at
extract_json_bool_path json path = and_then (find_json_path_value json path) read_bool_at

unfoldable pub extract_json_string : Bytes → Bytes → Option Bytes
unfolding extract_json_string_path
extract_json_string json key = extract_json_string_path json (key ∷ [])

unfoldable pub extract_json_bool : Bytes → Bytes → Option Bool
unfolding extract_json_bool_path
extract_json_bool json key = extract_json_bool_path json (key ∷ [])

abbrev pub bool_json : Bool → Bytes
bool_json value = if value then codes "true" else codes "false"
