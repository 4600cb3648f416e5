-- ===== src/Util/Tests.antt =====
-- The helpers at concrete inputs.
use tamga.Prelude.{[], ◌∷◌, Bytes, ◌≡◌, ◌<◌, ◌≤◌, ◌+◌, refl, arith}
use tamga.Util.Der.{
  parsed, rejected, parse_der_length, parse_der_length_in, parse_tlv_in, read_at, read_length,
  check_span, parse_long, tlv_view, parse_tlv_at,
}
use tamga.Util.Der.Bounds.{parse_der_length_in-Safe, parse_tlv_in-Safe}

-- A sequence of one integer, and one whose long length is too large for the buffer.
abbrev sequence : Bytes
sequence = 48 ∷ 3 ∷ 2 ∷ 1 ∷ 5 ∷ []

abbrev too_long : Bytes
too_long = 48 ∷ 130 ∷ 255 ∷ 255 ∷ 5 ∷ []

inner :
    parse_tlv_in sequence 2 5
    ≡ parsed (record { tag = 2; value_offset = 4; value_length = 1; next_offset = 5 })
unfolding parse_tlv_in parse_tlv_at read_at parse_der_length check_span tlv_view
inner = refl

refused : parse_tlv_in too_long 0 5 ≡ rejected
unfolding parse_tlv_in parse_tlv_at read_at parse_der_length check_span parse_long read_length
refused = refl

parse_der_length_in-Safe_example : (1 < 2) × (5 ≤ 100) × (5 ≤ 5)
unfolding parse_der_length_in parse_der_length read_at check_span
parse_der_length_in-Safe_example = parse_der_length_in-Safe sequence 100 1 (ground arith)

parse_tlv_in-Safe_example : (1 < 2) × (2 + 3 ≡ 5) × (5 ≤ 100)
unfolding parse_tlv_in parse_tlv_at read_at parse_der_length check_span tlv_view
parse_tlv_in-Safe_example = (parse_tlv_in-Safe sequence 0 100 (ground arith)).0
