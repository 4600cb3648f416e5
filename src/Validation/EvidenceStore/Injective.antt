-- ===== src/Validation/EvidenceStore/Injective.antt =====
-- The canonical JSON text determines the fields.
use tamga.Prelude.{
  ℕ, ◌%◌, ◌<◌, Bool, true, false, [], ◌∷◌, ◌++◌, Bytes, codes, ◌≡◌, ◌≢◌, refl, sym, ◌∙◌, arith,
  append_assoc, if◌then◌else◌,
}
use tamga.Prelude.OrderedMap.{OrderedMap}
use tamga.Validation.EvidenceStore.{
  hex_digit, json_unicode_escape, escape_byte, escape_json_string, json_fields,
  build_canonical_json,
}

hex_digit-eq : (a b : ℕ) → a < 16 → b < 16 → hex_digit a ≡ hex_digit b → a ≡ b
unfolding hex_digit
hex_digit-eq a b h k e = ground arith

hex_digit_mod : (a : ℕ) → hex_digit a ≡ hex_digit (a % 16)
unfolding hex_digit
hex_digit_mod a = ground arith

-- The escape of one byte is not the beginning of that of another.
escape_byte-prefix :
    (x y : ℕ) (r s : Bytes) → escape_byte x ++ r ≡ escape_byte y ++ s → (x ≡ y) × (r ≡ s)
unfolding escape_byte json_unicode_escape hex_digit
escape_byte-prefix x y r s e = ground arith

escape_byte-quote : (x : ℕ) (r s : Bytes) → escape_byte x ++ r ≢ 34 ∷ s
unfolding escape_byte json_unicode_escape
escape_byte-quote x r s e = ground arith

-- A closing quote ends the escaped text.
escape-quote :
    (a b r s : Bytes)
    → escape_json_string a ++ (34 ∷ r) ≡ escape_json_string b ++ (34 ∷ s)
    → (a ≡ b) × (r ≡ s)
unfolding escape_json_string
escape-quote [] [] r s e = (refl, ground (arith, e))
escape-quote [] (y ∷ b) r s e = absurd (
    escape_byte-quote y _ r
      (sym (e ∙ append_assoc (escape_byte y) (escape_json_string b) (34 ∷ s))))
escape-quote (x ∷ a) [] r s e = absurd (
    escape_byte-quote x _ s
      (sym (append_assoc (escape_byte x) (escape_json_string a) (34 ∷ r)) ∙ e))
escape-quote (x ∷ a) (y ∷ b) r s e =
    let (same, rest) = escape_byte-prefix x y _ _ (
      sym (append_assoc (escape_byte x) (escape_json_string a) (34 ∷ r))
      ∙ e
      ∙ append_assoc (escape_byte y) (escape_json_string b) (34 ∷ s)) in
    let (more, end) = escape-quote a b r s rest in (rw (same, more), end)

-- One field, and what follows it.
abbrev field : Bytes → Bytes → Bytes → Bytes
field key value rest =
    34 ∷ (escape_json_string key ++ (34 ∷ 58 ∷ 34 ∷ (escape_json_string value ++ (34 ∷ rest))))

field-eq : (k v r l u s : Bytes) → field k v r ≡ field l u s → (k ≡ l) × (v ≡ u) × (r ≡ s)
field-eq k v r l u s e =
    let (same, rest) =
      escape-quote k l (58 ∷ 34 ∷ (escape_json_string v ++ (34 ∷ r)))
        (58 ∷ 34 ∷ (escape_json_string u ++ (34 ∷ s))) (ground (arith, e)) in
    let (same', end) = escape-quote v u r s (ground (arith, rest)) in (same, same', end)

json_fields-field :
    (first : Bool) (k v t : Bytes) (m : OrderedMap Bytes)
    → json_fields first ((k, v) ∷ m) ++ t
      ≡ (if first then [] else codes ",") ++ field k v (json_fields false m ++ t)
unfolding json_fields
json_fields-field true k v t m = simp append_assoc
json_fields-field false k v t m = simp append_assoc

-- What follows the comma.
fields-eq :
    (first : Bool) (k v r l u s : Bytes)
    → (if first then [] else codes ",") ++ field k v r
      ≡ (if first then [] else codes ",") ++ field l u s
    → (k ≡ l) × (v ≡ u) × (r ≡ s)
fields-eq true k v r l u s e = field-eq k v r l u s e
fields-eq false k v r l u s e = field-eq k v r l u s (ground (arith, e))

no_field :
    (first : Bool) (k v r : Bytes) → codes "}" ≢ (if first then [] else codes ",") ++ field k v r
no_field true k v r e = ground arith
no_field false k v r e = ground arith

json_fields-eq :
    (first : Bool) (m n : OrderedMap Bytes)
    → json_fields first m ++ codes "}" ≡ json_fields first n ++ codes "}"
    → m ≡ n
unfolding json_fields
json_fields-eq first [] [] e = refl
json_fields-eq first [] ((l, u) ∷ n) e =
    absurd (no_field first l u _ (e ∙ json_fields-field first l u (codes "}") n))
json_fields-eq first ((k, v) ∷ m) [] e =
    absurd (no_field first k v _ (sym e ∙ json_fields-field first k v (codes "}") m))
json_fields-eq first ((k, v) ∷ m) ((l, u) ∷ n) e =
    let (same, same', rest) = fields-eq first k v _ l u _ (
      sym (json_fields-field first k v (codes "}") m)
      ∙ e
      ∙ json_fields-field first l u (codes "}") n) in
    rw (same, same', json_fields-eq false m n rest)

-- Two maps of fields with the same canonical JSON text are the same map: no choice of keys and
-- values, quotes, commas and control characters included, makes the text ambiguous.
pub build_canonical_json-eq :
    (m n : OrderedMap Bytes) → build_canonical_json m ≡ build_canonical_json n → m ≡ n
unfolding build_canonical_json
build_canonical_json-eq m n e = json_fields-eq true m n (ground (arith, e))
