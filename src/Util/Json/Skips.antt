-- ===== src/Util/Json/Skips.antt =====
-- The skips of src/lib/util/Json.cpp leave no more than there was.
use tamga.Prelude.{
  ℕ, zero, suc, ◌≤◌, Bool, not, ◌||◌, [], ◌∷◌, Option, Bytes, codes, length, ltb, ◌==◌, arith,
  Option-cases, inl, inr,
}
use tamga.Util.Json.{
  skip_json_whitespace, parse_json_string, skip_digits, skip_some_digits, skip_if, starts,
  skip_integer, skip_fraction, skip_exponent, skip_json_number_token, skip_json_literal_token,
  parse_key, complete_key, skip_token, skip_separator, skip_key, skip_json_value,
  skip_json_composite, skip_json_members, k_max_json_nesting_depth,
}
use tamga.Util.Json.Lengths.{
  Leaves, whole, second, Leaves-none, Leaves-some, Leaves-if, Leaves-more, and_then-Leaves,
  length-skip_json_whitespace, parse_json_string-Leaves,
}

length-skip_digits : (json : Bytes) → length (skip_digits json) ≤ length json
unfolding skip_digits
length-skip_digits [] = omega arith
length-skip_digits (ch ∷ json) = ground (arith, length-skip_digits json)

skip_some_digits-Leaves : (json : Bytes) → Leaves whole (length json) (skip_some_digits json)
unfolding skip_some_digits
skip_some_digits-Leaves [] = Leaves-none
skip_some_digits-Leaves (ch ∷ json) =
    Leaves-if _ (Leaves-some (omega (arith, length-skip_digits json))) Leaves-none

pub length-skip_if : (test : ℕ → Bool) (json : Bytes) → length (skip_if test json) ≤ length json
length-skip_if test [] = omega arith
length-skip_if test (ch ∷ json) = ground arith

-- Digits after a byte that may be left out.
skip_some_digits-skip_if :
    (test : ℕ → Bool) (json : Bytes)
    → Leaves whole (length json) (skip_some_digits (skip_if test json))
skip_some_digits-skip_if test json =
    Leaves-more (length-skip_if test json) (skip_some_digits-Leaves (skip_if test json))

skip_integer-Leaves : (json : Bytes) → Leaves whole (length json) (skip_integer json)
unfolding skip_integer
skip_integer-Leaves json =
    let unsigned = skip_if (λ ch. ch == 45) json in
    Leaves-more (length-skip_if (λ ch. ch == 45) json) (
      Leaves-if _ (Leaves-some (length-skip_if (λ ch. ch == 48) unsigned))
        (skip_some_digits-Leaves unsigned))

skip_fraction-Leaves : (json : Bytes) → Leaves whole (length json) (skip_fraction json)
unfolding skip_fraction
skip_fraction-Leaves json =
    Leaves-if _ (skip_some_digits-skip_if (λ ch. ch == 46) json) (Leaves-some (omega arith))

skip_exponent-Leaves : (json : Bytes) → Leaves whole (length json) (skip_exponent json)
unfolding skip_exponent
skip_exponent-Leaves json =
    let e = λ (ch : ℕ). ch == b'e' || ch == b'E' in
    Leaves-if _
      (Leaves-more (length-skip_if e json)
        (skip_some_digits-skip_if (λ ch. ch == 43 || ch == 45) (skip_if e json)))
      (Leaves-some (omega arith))

skip_json_number_token-Leaves :
    (json : Bytes) → Leaves whole (length json) (skip_json_number_token json)
unfolding skip_json_number_token
skip_json_number_token-Leaves json =
    and_then-Leaves (skip_integer json) _ (skip_integer-Leaves json) (λ a shorter.
      Leaves-more shorter (
        and_then-Leaves (skip_fraction a) _ (skip_fraction-Leaves a)
          (λ b less. Leaves-more less (skip_exponent-Leaves b))))

skip_json_literal_token-Leaves :
    (literal json : Bytes) → Leaves whole (length json) (skip_json_literal_token literal json)
unfolding skip_json_literal_token
skip_json_literal_token-Leaves [] json = Leaves-some (omega arith)
skip_json_literal_token-Leaves (l ∷ literal) [] = Leaves-none
skip_json_literal_token-Leaves (l ∷ literal) (ch ∷ json) =
    Leaves-if _ (Leaves-more (omega arith) (skip_json_literal_token-Leaves literal json))
      Leaves-none

complete_key-Leaves : (key json : Bytes) → Leaves second (length json) (complete_key key json)
complete_key-Leaves key [] = Leaves-none
complete_key-Leaves key (ch ∷ rest) =
    Leaves-if _ (Leaves-some (omega (arith, length-skip_json_whitespace rest))) Leaves-none

parse_key-Leaves : (json : Bytes) → Leaves second (length json) (parse_key json)
unfolding parse_key
parse_key-Leaves json = elim (Option-cases (parse_json_string json)) [
  | inl bad ↦ rw (bad, parse_key) Leaves-none
  | inr ((key, after), good) ↦
      let shorter = (parse_json_string-Leaves json).bound (key, after) good in
      rw (good, parse_key)
        (Leaves-more (omega (arith, shorter, length-skip_json_whitespace after))
          (complete_key-Leaves key (skip_json_whitespace after)))
]

pub skip_key-Leaves :
    (open_char : ℕ) (json : Bytes) → Leaves whole (length json) (skip_key open_char json)
skip_key-Leaves open_char json =
    Leaves-if _
      (and_then-Leaves (parse_key json) _ (parse_key-Leaves json) (λ found less. Leaves-some less))
      (Leaves-some (omega arith))

skip_token-Leaves :
    (object array : Bytes → Option Bytes) (json : Bytes)
    → Leaves whole (length json) (object json)
    → Leaves whole (length json) (array json)
    → Leaves whole (length json) (skip_token object array json)
skip_token-Leaves object array [] h k = Leaves-none
skip_token-Leaves object array (ch ∷ rest) h k =
    let json = ch ∷ rest in
    let word = λ (literal : Bytes). skip_json_literal_token-Leaves literal json in
    let string =
      and_then-Leaves (parse_json_string json) _ (parse_json_string-Leaves json)
        (λ found less. Leaves-some less) in
    Leaves-if _ string (
      Leaves-if _ h (
        Leaves-if _ k (
          Leaves-if _ (word (codes "true")) (
            Leaves-if _ (word (codes "false"))
              (Leaves-if _ (word (codes "null")) (skip_json_number_token-Leaves json))))))

skip_separator-Leaves :
    (close_char : ℕ) (more : Bytes → Option Bytes) (json : Bytes)
    → ((rest : Bytes) → Leaves whole (length rest) (more rest))
    → Leaves whole (length json) (skip_separator close_char more json)
skip_separator-Leaves close_char more [] h = Leaves-none
skip_separator-Leaves close_char more (ch ∷ rest) h = Leaves-if _ (Leaves-some (omega arith)) (
    Leaves-if _ Leaves-none (
      Leaves-more (omega (arith, length-skip_json_whitespace rest))
        (h (skip_json_whitespace rest))))

-- What is left of a value, of a composite and of the members, on one fuel.
pub record Shorter (fuel : ℕ) : Type 0 where
  pub value :
      (depth : ℕ) (json : Bytes) → Leaves whole (length json) (skip_json_value fuel depth json)
  pub composite :
      (open_char close_char depth : ℕ) (json : Bytes)
      → Leaves whole (length json) (skip_json_composite fuel open_char close_char depth json)
  pub members :
      (open_char close_char depth : ℕ) (json : Bytes)
      → Leaves whole (length json) (skip_json_members fuel open_char close_char depth json)

module _ (fuel : ℕ) (less : Shorter fuel) where
  skip_json_value-Leaves :
      (depth : ℕ) (json : Bytes)
      → Leaves whole (length json) (skip_json_value (suc fuel) depth json)
  unfolding skip_json_value
  skip_json_value-Leaves depth json =
      let ws = skip_json_whitespace json in
      let object = skip_json_composite fuel 123 125 (suc depth) in
      let array = skip_json_composite fuel 91 93 (suc depth) in
      Leaves-more (length-skip_json_whitespace json) (
        skip_token-Leaves object array ws (less.composite 123 125 (suc depth) ws)
          (less.composite 91 93 (suc depth) ws))

  skip_json_composite-Leaves :
      (open_char close_char depth : ℕ) (json : Bytes)
      → Leaves whole (length json) (skip_json_composite (suc fuel) open_char close_char depth json)
  unfolding skip_json_composite
  skip_json_composite-Leaves open_char close_char depth [] = Leaves-none
  skip_json_composite-Leaves open_char close_char depth (ch ∷ json) =
      let inside = skip_json_whitespace json in
      let closes = λ (c : ℕ). c == close_char in
      Leaves-more (omega (arith, length-skip_json_whitespace json)) (
        Leaves-if (ltb k_max_json_nesting_depth depth) Leaves-none (
          Leaves-if (not (ch == open_char)) Leaves-none (
            Leaves-if (starts closes inside) (Leaves-some (length-skip_if closes inside))
              (less.members open_char close_char depth inside))))

  skip_json_members-Leaves :
      (open_char close_char depth : ℕ) (json : Bytes)
      → Leaves whole (length json) (skip_json_members (suc fuel) open_char close_char depth json)
  unfolding skip_json_members
  skip_json_members-Leaves open_char close_char depth json =
      and_then-Leaves (skip_key open_char json) _ (skip_key-Leaves open_char json) (λ v at_value.
        Leaves-more at_value (
          and_then-Leaves (skip_json_value fuel depth v) _ (less.value depth v) (λ after shorter.
            Leaves-more (omega (arith, shorter, length-skip_json_whitespace after)) (
              skip_separator-Leaves close_char _ (skip_json_whitespace after)
                (less.members open_char close_char depth)))))

pub Shorter-all : (fuel : ℕ) → Shorter fuel
unfolding skip_json_value skip_json_composite skip_json_members
Shorter-all zero = record {
  value = λ depth json. Leaves-none;
  composite = λ open_char close_char depth json. Leaves-none;
  members = λ open_char close_char depth json. Leaves-none;
}
Shorter-all (suc fuel) =
    let less = Shorter-all fuel in
    record {
      value = skip_json_value-Leaves fuel less;
      composite = skip_json_composite-Leaves fuel less;
      members = skip_json_members-Leaves fuel less;
    }
