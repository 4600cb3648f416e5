-- ===== src/Util/Json/Lengths.antt =====
-- No step of the reader goes back: what is left is never longer than what was there.
use tamga.Prelude.{
  ℕ, zero, suc, ◌+◌, ◌*◌, ◌≤◌, Bool, true, false, [], ◌∷◌, Option, none, some, Bytes, length, ◌≡◌,
  refl, subst, arith, Option-cases, inl, inr, if◌then◌else◌,
}
use tamga.Util.Utf.{append_utf8_code_point, is_lead_surrogate}
use tamga.Util.Json.{
  hex_digit_value, parse_hex_digits, parse_json_hex_quad, skip_json_whitespace, parse_trail,
  with_utf8, complete_pair, parse_escape, append_first, parse_characters, parse_json_string,
  and_then,
}

-- The rest that a step leaves, if it succeeds, has no more than `n` bytes.
pub record Leaves {ℓ} {A : Type ℓ} (rest_of : A → Bytes) (n : ℕ) (o : Option A) : Type ℓ where
  pub bound : (a : A) → o ≡ some a → length (rest_of a) ≤ n

abbrev pub whole : Bytes → Bytes
whole rest = rest

abbrev pub second {ℓ} : {A : Type ℓ} → A × Bytes → Bytes
second found = found.1

module _ {ℓ} {A : Type ℓ} {rest_of : A → Bytes} {n : ℕ} where
  pub Leaves-none : Leaves rest_of n none
  Leaves-none = record { bound = λ a e. absurd (ground (arith, e)) }

  pub Leaves-some : {a : A} → length (rest_of a) ≤ n → Leaves rest_of n (some a)
  Leaves-some {a} h = record {
    bound = λ b e. subst (λ c. length (rest_of c) ≤ n) (ground (arith, e)) h;
  }

  pub Leaves-if :
      (b : Bool) {x y : Option A}
      → Leaves rest_of n x
      → Leaves rest_of n y
      → Leaves rest_of n (if b then x else y)
  Leaves-if true h k = h
  Leaves-if false h k = k

  pub Leaves-more : {m : ℕ} {o : Option A} → n ≤ m → Leaves rest_of n o → Leaves rest_of m o
  Leaves-more h l = record { bound = λ a e. omega (arith, h, l.bound a e) }

pub length-skip_json_whitespace : (json : Bytes) → length (skip_json_whitespace json) ≤ length json
unfolding skip_json_whitespace
length-skip_json_whitespace [] = omega arith
length-skip_json_whitespace (ch ∷ json) = ground (arith, length-skip_json_whitespace json)

-- A step is followed by another on what it leaves.
pub and_then-Leaves {ℓ κ} :
    {A : Type ℓ} {B : Type κ} {rest_of : A → Bytes} {last : B → Bytes} {n : ℕ} (o : Option A)
    (f : A → Option B)
    → Leaves rest_of n o
    → ((a : A) → length (rest_of a) ≤ n → Leaves last n (f a))
    → Leaves last n (and_then o f)
and_then-Leaves none f h k = Leaves-none
and_then-Leaves (some a) f h k = k a (h.bound a refl)

parse_hex_digits-Leaves :
    (count value : ℕ) (json : Bytes)
    → Leaves second (length json) (parse_hex_digits count value json)
unfolding parse_hex_digits
parse_hex_digits-Leaves zero value json = Leaves-some (omega arith)
parse_hex_digits-Leaves (suc count) value [] = Leaves-none
parse_hex_digits-Leaves (suc count) value (ch ∷ json) = elim (Option-cases (hex_digit_value ch)) [
  | inl bad ↦ rw (bad, parse_hex_digits) Leaves-none
  | inr (digit, good) ↦
      rw (good, parse_hex_digits)
        (Leaves-more (omega arith) (parse_hex_digits-Leaves count (value * 16 + digit) json))
]

parse_json_hex_quad-Leaves : (json : Bytes) → Leaves second (length json) (parse_json_hex_quad json)
unfolding parse_json_hex_quad
parse_json_hex_quad-Leaves json = parse_hex_digits-Leaves 4 0 json

parse_trail-Leaves : (lead : ℕ) (json : Bytes) → Leaves second (length json) (parse_trail lead json)
unfolding parse_trail
parse_trail-Leaves lead [] = Leaves-none
parse_trail-Leaves lead (a ∷ []) = Leaves-none
parse_trail-Leaves lead (a ∷ b ∷ json) = elim (Option-cases (parse_json_hex_quad json)) [
  | inl bad ↦ rw (bad, parse_trail) (Leaves-if _ Leaves-none Leaves-none)
  | inr ((trail, rest), good) ↦
      let shorter = (parse_json_hex_quad-Leaves json).bound (trail, rest) good in
      rw (good, parse_trail)
        (Leaves-if _ Leaves-none (Leaves-if _ Leaves-none (Leaves-some (omega (arith, shorter)))))
]

complete_pair-Leaves :
    (n : ℕ) (o : Option (ℕ × Bytes)) → Leaves second n o → Leaves second n (complete_pair o)
complete_pair-Leaves n none h = Leaves-none
complete_pair-Leaves n (some (c, rest)) h =
    Leaves-if (is_lead_surrogate c)
      (Leaves-more (h.bound (c, rest) refl) (parse_trail-Leaves c rest)) h

with_utf8-Leaves :
    (n : ℕ) (o : Option (ℕ × Bytes)) → Leaves second n o → Leaves second n (with_utf8 o)
with_utf8-Leaves n none h = Leaves-none
with_utf8-Leaves n (some (c, rest)) h = elim (Option-cases (append_utf8_code_point c)) [
  | inl bad ↦ rw (bad, with_utf8) Leaves-none
  | inr (bytes, good) ↦ rw (good, with_utf8) (Leaves-some (h.bound (c, rest) refl))
]

pub parse_escape-Leaves :
    (escaped : ℕ) (json : Bytes) → Leaves second (length json) (parse_escape escaped json)
unfolding parse_escape
parse_escape-Leaves escaped json =
    let n = length json in
    let unicode =
      with_utf8-Leaves n _ (complete_pair-Leaves n _ (parse_json_hex_quad-Leaves json)) in
    record { bound = λ (bytes, rest) h. ground (arith, h, unicode.bound (bytes, rest)) }

append_first-Leaves :
    (n : ℕ) (out : Bytes) (o : Option (Bytes × Bytes))
    → Leaves second n o
    → Leaves second n (append_first out o)
append_first-Leaves n out none h = Leaves-none
append_first-Leaves n out (some (more, rest)) h = Leaves-some (h.bound (more, rest) refl)

parse_characters-Leaves :
    (fuel : ℕ) (json : Bytes) → Leaves second (length json) (parse_characters fuel json)
unfolding parse_characters
parse_characters-Leaves zero [] = Leaves-none
parse_characters-Leaves (suc fuel) [] = Leaves-none
parse_characters-Leaves zero (ch ∷ json) = Leaves-none
parse_characters-Leaves (suc fuel) (ch ∷ []) =
    let more = append_first-Leaves 0 (ch ∷ []) _ (parse_characters-Leaves fuel []) in
    record { bound = λ (bytes, rest) h. ground (arith, h, more.bound (bytes, rest)) }
parse_characters-Leaves (suc fuel) (ch ∷ escaped ∷ after) =
    let n = length (escaped ∷ after) in
    let plain =
      append_first-Leaves n (ch ∷ []) _ (parse_characters-Leaves fuel (escaped ∷ after)) in
    record {
      bound = λ (bytes, rest) h. elim (Option-cases (parse_escape escaped after)) [
        | inl bad ↦ ground (arith, h, bad, plain.bound (bytes, rest))
        | inr ((piece, follow), good) ↦
            let shorter = (parse_escape-Leaves escaped after).bound (piece, follow) good in
            let m = length follow in
            let more = append_first-Leaves m piece _ (parse_characters-Leaves fuel follow) in
            ground (arith, h, good, shorter, plain.bound (bytes, rest), more.bound (bytes, rest))
      ];
    }

pub parse_json_string-Leaves : (json : Bytes) → Leaves second (length json) (parse_json_string json)
unfolding parse_json_string
parse_json_string-Leaves [] = Leaves-none
parse_json_string-Leaves (ch ∷ json) = record {
  bound = λ (bytes, rest) h.
      ground (arith, h, (parse_characters-Leaves (length json) json).bound (bytes, rest));
}
