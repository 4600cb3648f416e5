-- ===== src/Util/Json/Objects.antt =====
-- Looking up a key in an object that a writer wrote.
use tamga.Prelude.{
  ℕ, zero, suc, ◌+◌, ◌*◌, ◌<◌, true, false, List, [], ◌∷◌, ◌++◌, Option, none, some, Bytes, length,
  length-append, ◌≡◌, ◌∙◌, refl, ap, arith, Bool-cases, inl, inr, if◌then◌else◌,
}
use tamga.Prelude.Order.{bytes_eq}
use tamga.Util.Base64.{is_space}
use tamga.Util.Json.{
  parse_json_string, skip_json_whitespace, parse_key, skip_json_value, find_member,
  find_json_member_value, find_json_path, find_json_path_value, extract_json_string_path,
  extract_json_string, escape_json, and_then,
}
use tamga.Util.Json.Strings.{parse_json_string-escape_json}

-- A text between quotes, and what follows it.
abbrev quoted : Bytes → Bytes → Bytes
quoted value rest = 34 ∷ (escape_json value ++ (34 ∷ rest))

-- `"key":"value"`, and what follows it.
abbrev member : Bytes → Bytes → Bytes → Bytes
member key value rest = quoted key (58 ∷ quoted value rest)

-- The members after the first, and the closing bracket.
abbrev tail_text : List (Bytes × Bytes) → Bytes
tail_text [] = 125 ∷ []
tail_text ((key, value) ∷ members) = 44 ∷ member key value (tail_text members)

abbrev pub object_text : List (Bytes × Bytes) → Bytes
object_text [] = 123 ∷ 125 ∷ []
object_text ((key, value) ∷ members) = 123 ∷ member key value (tail_text members)

abbrev pub lookup : Bytes → List (Bytes × Bytes) → Option Bytes
lookup key [] = none
lookup key ((k, v) ∷ members) = if bytes_eq k key then some v else lookup key members

parse_key-member :
    (key value rest : Bytes) → parse_key (member key value rest) ≡ some (key, quoted value rest)
unfolding parse_key skip_json_whitespace is_space
parse_key-member key value rest =
    rw (parse_json_string-escape_json key (58 ∷ quoted value rest), parse_key) refl

skip_json_value-quoted :
    (fuel depth : ℕ) (value rest : Bytes)
    → skip_json_value (suc fuel) depth (quoted value rest) ≡ some rest
unfolding is_space skip_json_value skip_json_whitespace
skip_json_value-quoted fuel depth value rest = rw (parse_json_string-escape_json value rest) refl

-- Where the search stops: at the value of the first member with the key.
find_text : Bytes → List (Bytes × Bytes) → Option Bytes
find_text key [] = none
find_text key ((k, v) ∷ members) =
    if bytes_eq k key then some (quoted v (tail_text members)) else find_text key members

find_member-hit :
    (fuel depth : ℕ) (key k at_value json : Bytes)
    → parse_key json ≡ some (k, at_value)
    → bytes_eq k key ≡ true
    → find_member (suc fuel) key depth json ≡ some at_value
unfolding find_member
find_member-hit fuel depth key k at_value json h e = rw (h, e, find_member) refl

find_member-last :
    (fuel depth : ℕ) (key k at_value json : Bytes)
    → parse_key json ≡ some (k, at_value)
    → bytes_eq k key ≡ false
    → skip_json_value (3 * length at_value + 1) depth at_value ≡ some (125 ∷ [])
    → find_member (suc fuel) key depth json ≡ none
unfolding find_member skip_json_whitespace is_space
find_member-last fuel depth key k at_value json h e s = rw (h, e, s, find_member) refl

find_member-next :
    (fuel depth : ℕ) (key k at_value json more : Bytes)
    → parse_key json ≡ some (k, at_value)
    → bytes_eq k key ≡ false
    → skip_json_value (3 * length at_value + 1) depth at_value ≡ some (44 ∷ 34 ∷ more)
    → find_member (suc fuel) key depth json ≡ find_member fuel key depth (34 ∷ more)
unfolding find_member skip_json_whitespace is_space
find_member-next fuel depth key k at_value json more h e s = rw (h, e, s, find_member) refl

skip_json_value-enough :
    (fuel depth : ℕ) (value rest : Bytes)
    → skip_json_value (3 * length (quoted value rest) + 1) depth (quoted value rest) ≡ some rest
skip_json_value-enough fuel depth value rest =
    let more = 3 * length (quoted value rest) in
    let suc_more : 3 * length (quoted value rest) + 1 ≡ suc more = omega arith in
    ap (λ (n : ℕ). skip_json_value n depth (quoted value rest)) suc_more
    ∙ skip_json_value-quoted more depth value rest

find_member-text :
    (fuel depth : ℕ) (key k v : Bytes) (members : List (Bytes × Bytes))
    → length members < fuel
    → find_member fuel key depth (member k v (tail_text members)) ≡ find_text key ((k, v) ∷ members)
unfolding find_text
find_member-text zero depth key k v members h = absurd (omega (arith, h))
find_member-text (suc fuel) depth key k v [] h = elim (Bool-cases (bytes_eq k key)) [
  | inl hit ↦
      find_member-hit fuel depth key k _ _ (parse_key-member k v (125 ∷ [])) hit ∙ rw hit refl
  | inr miss ↦
      find_member-last fuel depth key k _ _ (parse_key-member k v (125 ∷ [])) miss
        (skip_json_value-enough fuel depth v (125 ∷ []))
      ∙ rw miss refl
]
find_member-text (suc fuel) depth key k v ((l, u) ∷ members) h =
    elim (Bool-cases (bytes_eq k key)) [
      | inl hit ↦
          find_member-hit fuel depth key k _ _ (parse_key-member k v (tail_text ((l, u) ∷ members)))
            hit
          ∙ rw hit refl
      | inr miss ↦
          find_member-next fuel depth key k _ _ _
            (parse_key-member k v (tail_text ((l, u) ∷ members))) miss
            (skip_json_value-enough fuel depth v (tail_text ((l, u) ∷ members)))
          ∙ find_member-text fuel depth key l u members (omega (arith, h))
          ∙ rw miss refl
    ]

length-tail_text : (members : List (Bytes × Bytes)) → length members < length (tail_text members)
length-tail_text [] = omega arith
length-tail_text ((k, v) ∷ members) = omega (
  arith,
  length-append (escape_json k) (34 ∷ 58 ∷ quoted v (tail_text members)),
  length-append (escape_json v) (34 ∷ tail_text members),
  length-tail_text members,
)

find_json_member_value-text :
    (key : Bytes) (members : List (Bytes × Bytes)) (depth : ℕ)
    → find_json_member_value (object_text members) key depth ≡ find_text key members
unfolding find_json_member_value skip_json_whitespace is_space find_text
find_json_member_value-text key [] depth = refl
find_json_member_value-text key ((k, v) ∷ members) depth =
    find_member-text (suc (length (member k v (tail_text members)))) depth key k v members (
      omega (
        arith,
        length-append (escape_json k) (34 ∷ 58 ∷ quoted v (tail_text members)),
        length-append (escape_json v) (34 ∷ tail_text members),
        length-tail_text members,
      ))

find_text-lookup :
    (key : Bytes) (members : List (Bytes × Bytes))
    → and_then
        (find_text key members)
        (λ at_value. and_then (parse_json_string at_value) (λ found. some found.0))
      ≡ lookup key members
unfolding find_text
find_text-lookup key [] = refl
find_text-lookup key ((k, v) ∷ members) = elim (Bool-cases (bytes_eq k key)) [
  | inl hit ↦ rw (hit, parse_json_string-escape_json v (tail_text members)) refl
  | inr miss ↦ rw miss (find_text-lookup key members)
]

and_then-some : (o : Option Bytes) → and_then o (λ a. some a) ≡ o
and_then-some none = refl
and_then-some (some a) = refl

-- Reading a key of an object of texts gives the value of the first member with that key, and nothing
-- if there is none, whatever bytes the keys and values hold.
pub extract_json_string-object :
    (key : Bytes) (members : List (Bytes × Bytes))
    → extract_json_string (object_text members) key ≡ lookup key members
unfolding extract_json_string extract_json_string_path find_json_path_value find_json_path
extract_json_string-object key members =
    rw (find_json_member_value-text key members 1, and_then-some (find_text key members))
      (find_text-lookup key members)
