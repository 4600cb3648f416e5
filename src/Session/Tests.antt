-- ===== src/Session/Tests.antt =====
-- Inputs of a session.
use tamga.Prelude.{true, [], ◌∷◌, some, codes, ◌≡◌, refl}
use tamga.Session.Formats.{is_pkcs12_der}
use tamga.Session.Imprint.{ImprintDigest, imprint_from_digest_oid}
use tamga.Session.Paths.{is_valid_utf8_path}
use tamga.Session.Paths.Laws.{is_valid_utf8_path-decodes}
use tamga.Util.Der.{parse_tlv_at, read_at, parse_der_length, check_span, tlv_view}
use tamga.Util.Utf.{
  decode_utf8_to_utf16, decode_loop, read_code_point, read_lead, read_continuation,
  is_bad_code_point, units_of,
}

is_valid_utf8_path-decodes_example : is_valid_utf8_path (208 ∷ 134 ∷ 47 ∷ []) ≡ true
unfolding decode_utf8_to_utf16 decode_loop read_code_point read_lead read_continuation
    is_bad_code_point units_of
is_valid_utf8_path-decodes_example = is_valid_utf8_path-decodes (208 ∷ 134 ∷ 47 ∷ [])

-- SEQUENCE { INTEGER 3, SEQUENCE { OBJECT IDENTIFIER } }.
pkcs12 : is_pkcs12_der (48 ∷ 8 ∷ 2 ∷ 1 ∷ 3 ∷ 48 ∷ 3 ∷ 6 ∷ 1 ∷ 42 ∷ []) ≡ true
unfolding is_pkcs12_der parse_tlv_at read_at parse_der_length check_span tlv_view
pkcs12 = refl

-- The name of the standard.
kupyna : imprint_from_digest_oid (codes "DSTU7564-256") ≡ some ImprintDigest.kupyna256
unfolding imprint_from_digest_oid
kupyna = refl
