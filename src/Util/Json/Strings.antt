-- ===== src/Util/Json/Strings.antt =====
-- The reader undoes the escape of the writers.
use tamga.Prelude.{
  ℕ, zero, suc, ◌+◌, ◌*◌, ◌/◌, ◌%◌, ◌<◌, ◌≤◌, Bool, false, [], ◌∷◌, ◌++◌, Option, none, some, Bytes,
  length, length-append, ltb, ◌==◌, ◌≡◌, ◌∙◌, refl, sym, ap, arith, Bool-cases, inl, inr,
  append_assoc, subst, ==_iff,
}
use tamga.Prelude.Table.{all_below-at}
use tamga.Util.Utf.{append_utf8_code_point, is_lead_surrogate}
use tamga.Util.Hex.{hex_char, hex_digits}
use tamga.Util.Json.{
  hex_digit_value, parse_hex_digits, parse_json_hex_quad, parse_escape, append_first,
  parse_characters, parse_json_string, escape_character, escape_json, with_utf8, complete_pair,
}

abbrev is_value : Option ℕ → ℕ → Bool
is_value none n = false
is_value (some m) n = m == n

hex_digit_value-below : (n : ℕ) → n < 16 → hex_digit_value (hex_char n) ≡ some n
unfolding hex_digit_value hex_char
hex_digit_value-below n h =
    ground (arith, h, all_below-at (λ m. is_value (hex_digit_value (hex_char m)) m) 16 n refl h)

hex_digit_value-char : (n : ℕ) → hex_digit_value (hex_char n) ≡ some (n % 16)
unfolding hex_char
hex_digit_value-char n =
    let again : n % 16 % 16 ≡ n % 16 = omega arith in
    rw again at (hex_digit_value-below (n % 16) (omega arith))

parse_hex_digits-char :
    (count value n : ℕ) (json : Bytes)
    → parse_hex_digits (suc count) value (hex_char n ∷ json)
      ≡ parse_hex_digits count (value * 16 + n % 16) json
unfolding parse_hex_digits
parse_hex_digits-char count value n json = rw (hex_digit_value-char n, parse_hex_digits) refl

-- Four digits of a number that four digits can write.
parse_json_hex_quad-digits :
    (n : ℕ) (rest : Bytes)
    → n < 65536
    → parse_json_hex_quad (hex_digits 4 n ++ rest) ≡ some (n, rest)
unfolding parse_json_hex_quad hex_digits parse_hex_digits
parse_json_hex_quad-digits n rest h =
    let third = n / 16 / 16 in
    let first = 0 * 16 + third / 16 % 16 in
    let second = first * 16 + third % 16 in
    let value = (second * 16 + n / 16 % 16) * 16 + n % 16 in
    let same : value ≡ n = omega (arith, h) in
    parse_hex_digits-char 3 0 (third / 16) (hex_char third ∷ hex_char (n / 16) ∷ hex_char n ∷ rest)
    ∙ parse_hex_digits-char 2 first third (hex_char (n / 16) ∷ hex_char n ∷ rest)
    ∙ parse_hex_digits-char 1 second (n / 16) (hex_char n ∷ rest)
    ∙ parse_hex_digits-char 0 (second * 16 + n / 16 % 16) n rest
    ∙ ap (λ (v : ℕ). some (v, rest)) same

control-utf8 :
    (n : ℕ) (rest : Bytes)
    → n < 32
    → with_utf8 (complete_pair (some (n, rest))) ≡ some (n ∷ [], rest)
unfolding append_utf8_code_point is_lead_surrogate
control-utf8 n rest h = ground (arith, h)

parse_escape-u :
    (json : Bytes) → parse_escape b'u' json ≡ with_utf8 (complete_pair (parse_json_hex_quad json))
unfolding parse_escape
parse_escape-u json = refl

parse_escape-unicode :
    (n : ℕ) (rest : Bytes)
    → n < 32
    → parse_escape b'u' (hex_digits 4 n ++ rest) ≡ some (n ∷ [], rest)
parse_escape-unicode n rest h =
    parse_escape-u (hex_digits 4 n ++ rest)
    ∙ ap (λ (o : Option (ℕ × Bytes)). with_utf8 (complete_pair o))
        (parse_json_hex_quad-digits n rest (omega (arith, h)))
    ∙ control-utf8 n rest h

-- One turn of the loop over what a byte is escaped to.
abbrev IsRead : ℕ → Bytes → Type 0
IsRead ch bytes =
    (fuel : ℕ) (rest : Bytes)
    → parse_characters (suc fuel) (bytes ++ rest)
      ≡ append_first (ch ∷ []) (parse_characters fuel rest)

plain-IsRead :
    (ch : ℕ) → ltb ch 32 ≡ false → (ch == 34) ≡ false → (ch == 92) ≡ false → IsRead ch (ch ∷ [])
unfolding parse_characters
plain-IsRead ch h k l fuel rest = rw (h, k, l) refl

escaped-IsRead :
    (ch escaped : ℕ) (tail : Bytes)
    → ((rest : Bytes) → parse_escape escaped (tail ++ rest) ≡ some (ch ∷ [], rest))
    → IsRead ch (92 ∷ escaped ∷ tail)
unfolding parse_characters
escaped-IsRead ch escaped tail h fuel rest = rw (h rest) refl

-- A byte that is one of the special ones, or not.
unless :
    (ch special : ℕ)
    → IsRead special (escape_character special)
    → ((ch == special) ≡ false → IsRead ch (escape_character ch))
    → IsRead ch (escape_character ch)
unless ch special h k = elim (Bool-cases (ch == special)) [
  | inl same ↦ subst (λ c. IsRead c (escape_character c)) (sym ((==_iff ch special).0 same)) h
  | inr other ↦ k other
]

short :
    (ch escaped : ℕ)
    → parse_escape escaped ≡ (λ rest. some (ch ∷ [], rest))
    → IsRead ch (92 ∷ escaped ∷ [])
short ch escaped h =
    escaped-IsRead ch escaped [] (λ rest. ap (λ (f : Bytes → Option (Bytes × Bytes)). f rest) h)

escape_character-IsRead : (ch : ℕ) → IsRead ch (escape_character ch)
unfolding escape_character parse_escape
escape_character-IsRead ch = unless ch 92 (short 92 92 refl) (λ slash.
    unless ch 34 (short 34 34 refl) (λ quote. unless ch 10 (short 10 b'n' refl) (λ n.
      unless ch 13 (short 13 b'r' refl) (λ r. unless ch 9 (short 9 b't' refl) (λ t.
        unless ch 8 (short 8 b'b' refl) (λ b. unless ch 12 (short 12 b'f' refl) (λ f.
          elim (Bool-cases (ltb ch 32)) [
            | inl control ↦
                rw (slash, quote, n, r, t, b, f, control)
                  (escaped-IsRead ch b'u' (hex_digits 4 ch)
                    (λ rest. parse_escape-unicode ch rest (ground (arith, control))))
            | inr plain ↦
                rw (slash, quote, n, r, t, b, f, plain) (plain-IsRead ch plain quote slash)
          ])))))))

parse_characters-quote :
    (fuel : ℕ) (rest : Bytes) → parse_characters (suc fuel) (34 ∷ rest) ≡ some ([], rest)
unfolding parse_characters
parse_characters-quote fuel rest = refl

parse_characters-escape :
    (value rest : Bytes) (fuel : ℕ)
    → length value < fuel
    → parse_characters fuel (escape_json value ++ (34 ∷ rest)) ≡ some (value, rest)
unfolding escape_json
parse_characters-escape value rest zero h = absurd (omega (arith, h))
parse_characters-escape [] rest (suc fuel) h = parse_characters-quote fuel rest
parse_characters-escape (ch ∷ value) rest (suc fuel) h =
    ap (parse_characters (suc fuel))
      (append_assoc (escape_character ch) (escape_json value) (34 ∷ rest))
    ∙ escape_character-IsRead ch fuel (escape_json value ++ (34 ∷ rest))
    ∙ ap (append_first (ch ∷ [])) (parse_characters-escape value rest fuel (omega (arith, h)))

length-escape_character : (ch : ℕ) → 0 < length (escape_character ch)
unfolding escape_character
length-escape_character ch = ground arith

length-escape_json : (value : Bytes) → length value ≤ length (escape_json value)
unfolding escape_json
length-escape_json [] = omega arith
length-escape_json (ch ∷ value) = omega (
  arith,
  length-append (escape_character ch) (escape_json value),
  length-escape_character ch,
  length-escape_json value,
)

-- What `EscapeJson` writes between quotes, the reader reads back, whatever follows.
pub parse_json_string-escape_json :
    (value rest : Bytes)
    → parse_json_string (34 ∷ (escape_json value ++ (34 ∷ rest))) ≡ some (value, rest)
unfolding parse_json_string
parse_json_string-escape_json value rest =
    parse_characters-escape value rest (length (escape_json value ++ (34 ∷ rest)))
      (omega (arith, length-append (escape_json value) (34 ∷ rest), length-escape_json value))
