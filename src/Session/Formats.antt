-- ===== src/Session/Formats.antt =====
-- The tests of src/lib/core/session/SessionHelpers.ipp on what a caller hands over: the format of a
-- key container, a timeout and a URL.
use tamga.Prelude.{
  ℕ, ◌<◌, Bool, true, false, ◌&&◌, ◌||◌, Bytes, codes, length, leb, ltb, ◌==◌, if◌then◌else◌, arith,
  if-All,
}
use tamga.Prelude.Int.{ℤ, pos, negsuc}
use tamga.Session.Imprint.{starts_with}
use tamga.Util.Der.{
  Parsed, out_of_buffer, rejected, parsed, next, parse_tlv_at, TlvView, size_modulus,
}
use tamga.Util.Der.Bounds.{Safe, IsInside, next-Safe, parse_tlv_at-Safe}

-- `IsLikelyPem`.
unfoldable pub is_likely_pem : Bytes → Bool
unfolding starts_with
is_likely_pem data' = starts_with data' (codes "-----BEGIN ")

-- The walk of `IsPkcs12Der`: the next value with its tag.
unfoldable pub tagged : Bytes → ℕ → ℕ → Parsed TlvView
tagged data' tag offset =
    next (parse_tlv_at data' offset (length data'))
      (λ view. if view.tag == tag then parsed view else rejected)

-- `IsPkcs12Der`: a sequence that starts with a version and a sequence that starts with an OID.
unfoldable pub pkcs12_content_type : Bytes → Parsed TlvView
unfolding tagged
pkcs12_content_type der_data = next (tagged der_data 48 0) (λ outer.
    next (tagged der_data 2 outer.value_offset) (λ version.
      next (tagged der_data 48 version.next_offset)
        (λ auth_safe. tagged der_data 6 auth_safe.value_offset)))

abbrev pub is_accepted {ℓ} : {A : Type ℓ} → Parsed A → Bool
is_accepted out_of_buffer = false
is_accepted rejected = false
is_accepted (parsed a) = true

unfoldable pub is_pkcs12_der : Bytes → Bool
unfolding pkcs12_content_type
is_pkcs12_der der_data = is_accepted (pkcs12_content_type der_data)

-- Milliseconds in an `int32_t`.
abbrev pub is_valid_timeout : ℤ → Bool
is_valid_timeout (pos timeout_ms) = ltb 0 timeout_ms && leb timeout_ms 300000
is_valid_timeout (negsuc n) = false

unfoldable pub is_likely_url : Bytes → Bool
unfolding starts_with
is_likely_url value =
    starts_with value (codes "http://")
    || starts_with value (codes "https://")
    || starts_with value (codes "ldap://")

tagged-Safe :
    (data' : Bytes) (tag offset : ℕ)
    → length data' < size_modulus
    → Safe (λ v. Unit {0}) (tagged data' tag offset)
unfolding tagged
tagged-Safe data' tag offset h =
    next-Safe (IsInside offset (length data')) _ (parse_tlv_at data' offset (length data')) _
      (parse_tlv_at-Safe data' offset (length data') (omega arith) h)
      (λ view _. if-All (Safe (λ v. Unit {0})) (view.tag == tag) tt tt)

-- The test reads nothing outside the vector.
pub pkcs12_content_type-Safe :
    (der_data : Bytes)
    → length der_data < size_modulus
    → Safe (λ v. Unit {0}) (pkcs12_content_type der_data)
unfolding pkcs12_content_type
pkcs12_content_type-Safe der_data h =
    next-Safe (λ v. Unit {0}) _ (tagged der_data 48 0) _ (tagged-Safe der_data 48 0 h)
      (λ outer _.
        next-Safe (λ v. Unit {0}) _ (tagged der_data 2 outer.value_offset) _
          (tagged-Safe der_data 2 outer.value_offset h)
          (λ version _.
            next-Safe (λ v. Unit {0}) _ (tagged der_data 48 version.next_offset) _
              (tagged-Safe der_data 48 version.next_offset h)
              (λ auth_safe _. tagged-Safe der_data 6 auth_safe.value_offset h)))
