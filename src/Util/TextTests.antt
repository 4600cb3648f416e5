-- ===== src/Util/TextTests.antt =====
-- Texts through the coders at concrete inputs.
use tamga.Prelude.{List, Bytes, [], ◌∷◌, some, codes, ◌≡◌, refl, arith, inl, inr}
use tamga.Prelude.Order.{bytes_eq}
use tamga.Util.Json.{
  extract_json_string, skip_json_value, skip_json_whitespace, parse_key, skip_json_number_token,
  skip_json_literal_token,
}
use tamga.Util.AsicUri.{normalize_asic_entry_uri, format_as_iso8601}
use tamga.Util.Json.Objects.{extract_json_string-object, object_text}
use tamga.Util.Base64.{base64_encode, base64_decode, encode_sextet}
use tamga.Util.Base64.RoundTrip.{base64_decode-encode}
use tamga.Util.Utf.{from_utf8, to_utf8}
use tamga.Util.Utf.RoundTrip.{from_utf8-to_utf8}

base64_man : base64_encode (codes "Man") ≡ codes "TWFu"
unfolding base64_encode encode_sextet
base64_man = refl

base64_padded : base64_encode (codes "M") ≡ codes "TQ=="
unfolding base64_encode encode_sextet
base64_padded = refl

base64_decode-encode_example :
    base64_decode (base64_encode (0 ∷ 255 ∷ 16 ∷ 128 ∷ [])) ≡ some (0 ∷ 255 ∷ 16 ∷ 128 ∷ [])
base64_decode-encode_example =
    base64_decode-encode (0 ∷ 255 ∷ 16 ∷ 128 ∷ [])
      (omega arith, (omega arith, (omega arith, (omega arith, tt))))

-- A letter, a Cyrillic letter, the euro sign and a code point above 0xFFFF.
from_utf8-to_utf8_example :
    from_utf8 (to_utf8 (65 ∷ 1030 ∷ 8364 ∷ 128512 ∷ [])) ≡ 65 ∷ 1030 ∷ 8364 ∷ 128512 ∷ []
from_utf8-to_utf8_example = from_utf8-to_utf8 (65 ∷ 1030 ∷ 8364 ∷ 128512 ∷ []) (
  inl (omega arith),
  (inl (omega arith), (inl (omega arith), (inr (omega arith, omega arith), tt))),
)

-- {"a":"x\"","b":"y"} and the key b.
abbrev members : List (Bytes × Bytes)
members = (codes "a", codes "x\"") ∷ (codes "b", codes "y\n") ∷ []

extract_json_string-object_example :
    extract_json_string (object_text members) (codes "b") ≡ some (codes "y\n")
unfolding bytes_eq
extract_json_string-object_example = extract_json_string-object (codes "b") members

-- {"a":[1,-2.5e3,true]},
abbrev nested : Bytes
nested = codes "{\"a\":[1,-2.5e3,true]},"

skip_nested : skip_json_value 67 0 nested ≡ some (codes ",")
unfolding skip_json_value skip_json_whitespace parse_key skip_json_number_token
    skip_json_literal_token
skip_nested = refl

-- A name with an escaped space.
asic_uri : normalize_asic_entry_uri (codes "./a%20b") ≡ some (codes "a b")
unfolding normalize_asic_entry_uri
asic_uri = refl

iso8601 : format_as_iso8601 (codes "20260102030405Z") ≡ codes "2026-01-02T03:04:05Z"
unfolding format_as_iso8601
iso8601 = refl
