-- ===== src/Util/AsicUri/Laws.antt =====
-- A reference in which every byte is percent-encoded stands for these bytes.
use tamga.Prelude.{
  ℕ, ◌+◌, ◌*◌, ◌/◌, ◌%◌, ◌<◌, Bool, true, false, [], ◌∷◌, Option, none, some, Bytes, AreBytes,
  length, ltb, ◌==◌, ==_iff, ◌≡◌, refl, ap, arith, Bool-cases, append_to, ◌++◌, inl, inr,
}
use tamga.Prelude.Table.{all_below-at}
use tamga.Util.Hex.{hex_char}
use tamga.Util.AsicUri.{
  hex_value, escaped, percent_decode, erase_dot, has_byte, substr, is_formatted, after_year,
  iso8601_form, normalize_asic_entry_uri, format_as_iso8601,
}

-- The reference encoder.
unfoldable pub percent_encode : Bytes → Bytes
percent_encode [] = []
percent_encode (b ∷ bs) = 37 ∷ hex_char (b / 16) ∷ hex_char b ∷ percent_encode bs

abbrev gives : Option ℕ → ℕ → Bool
gives none n = false
gives (some m) n = m == n

gives_eq : (o : Option ℕ) (n : ℕ) → gives o n ≡ true → o ≡ some n
gives_eq none n h = absurd (ground (arith, h))
gives_eq (some m) n h = ap some ((==_iff m n).0 h)

hex_value-hex_char_below : (n : ℕ) → n < 16 → hex_value (hex_char n) ≡ some n
unfolding hex_char hex_value
hex_value-hex_char_below n h =
    gives_eq _ n (all_below-at (λ m. gives (hex_value (hex_char m)) m) 16 n refl h)

hex_value-hex_char : (n : ℕ) → hex_value (hex_char n) ≡ some (n % 16)
unfolding hex_char
hex_value-hex_char n =
    let again : n % 16 % 16 ≡ n % 16 = omega arith in
    let low : n % 16 < 16 = omega arith in rw again at (hex_value-hex_char_below (n % 16) low)

escaped-hex_char :
    (b : ℕ) (rest : Option Bytes)
    → b < 256
    → escaped (hex_char (b / 16)) (hex_char b) rest ≡ append_to (b ∷ []) rest
unfolding escaped
escaped-hex_char b rest small =
    let joined : b / 16 % 16 * 16 + b % 16 ≡ b = omega (arith, small) in
    rw (hex_value-hex_char (b / 16), hex_value-hex_char b, escaped)
      (ap (λ c. append_to (c ∷ []) rest) joined)

percent_decode-percent_encode :
    (bytes : Bytes) → AreBytes bytes → percent_decode (percent_encode bytes) ≡ some bytes
unfolding percent_decode percent_encode
percent_decode-percent_encode [] h = refl
percent_decode-percent_encode (b ∷ bytes) (small, h) =
    rw (percent_decode-percent_encode bytes h, escaped-hex_char b (some bytes) small) refl

-- What is left after decoding is the name, without the `./` that it may start with.
pub normalize_asic_entry_uri-percent_encode :
    (bytes : Bytes)
    → AreBytes bytes
    → normalize_asic_entry_uri (percent_encode bytes) ≡ some (erase_dot bytes)
unfolding normalize_asic_entry_uri
normalize_asic_entry_uri-percent_encode bytes h =
    rw (percent_decode-percent_encode bytes h, normalize_asic_entry_uri) refl

has_byte-append :
    (ch : ℕ) (before after : Bytes)
    → has_byte ch after ≡ true
    → has_byte ch (before ++ after) ≡ true
has_byte-append ch [] after h = h
has_byte-append ch (c ∷ before) after h = ground (arith, has_byte-append ch before after h)

dashed_year : (time : Bytes) → has_byte 45 (after_year time) ≡ true
unfolding after_year
dashed_year time = refl

is_formatted-iso8601_form : (time : Bytes) → is_formatted (iso8601_form time) ≡ true
unfolding iso8601_form is_formatted
is_formatted-iso8601_form time =
    let dashed : has_byte 45 (iso8601_form time) ≡ true =
      has_byte-append 45 (substr time 0 4) (after_year time) (dashed_year time) in
    elim (Bool-cases (ltb (length (iso8601_form time)) 14)) [
      | inl e ↦ rw (e, is_formatted) refl
      | inr e ↦ rw (e, dashed, is_formatted) refl
    ]

-- `FormatAsIso8601` changes nothing the second time.
pub format_as_iso8601_idem :
    (time : Bytes) → format_as_iso8601 (format_as_iso8601 time) ≡ format_as_iso8601 time
unfolding format_as_iso8601
format_as_iso8601_idem time = elim (Bool-cases (is_formatted time)) [
  | inl e ↦ rw (e, format_as_iso8601) (rw e refl)
  | inr e ↦ rw (e, format_as_iso8601) (rw (is_formatted-iso8601_form time) refl)
]
