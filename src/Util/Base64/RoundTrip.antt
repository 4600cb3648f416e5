-- ===== src/Util/Base64/RoundTrip.antt =====
-- Decoding undoes encoding.
use tamga.Prelude.{
  ℕ, ◌/◌, ◌%◌, ◌<◌, Bool, false, not, [], ◌∷◌, ◌++◌, some, Bytes, AreBytes, length, ◌==◌, ==_iff,
  ◌≡◌, refl, off, arith,
}
use tamga.Prelude.Table.{all_below-at}
use tamga.Util.Base64.{
  decode_char, encode_sextet, base64_encode, is_space, normalize, is_bad_quad, decode_quad,
  decode_quads, base64_decode, join_bytes,
}

abbrev is_decoded : ℕ → Bool
is_decoded n = decode_char (encode_sextet n) == n

abbrev is_unpadded : ℕ → Bool
is_unpadded n = not (encode_sextet n == 61)

abbrev is_solid : ℕ → Bool
is_solid n = not (is_space (encode_sextet n))

-- What the decoder reads of a character of the alphabet: its place, no padding and no space.
abbrev IsRead : ℕ → ℕ → Type 0
IsRead n c = (decode_char c ≡ n) × ((c == 61) ≡ false) × (is_space c ≡ false)

encode_sextet-below : (n : ℕ) → n < 64 → IsRead n (encode_sextet n)
unfolding encode_sextet decode_char is_space
encode_sextet-below n h = (
  (==_iff _ _).0 (all_below-at is_decoded 64 n refl h),
  off _ (all_below-at is_unpadded 64 n refl h),
  off _ (all_below-at is_solid 64 n refl h),
)

encode_sextet-IsRead : (n : ℕ) → IsRead (n % 64) (encode_sextet n)
unfolding encode_sextet
encode_sextet-IsRead n =
    let again : n % 64 % 64 ≡ n % 64 = omega arith in
    let low : n % 64 < 64 = omega arith in rw again at (encode_sextet-below (n % 64) low)

-- Three bytes out of a quad that holds their sextets.
quad :
    (b0 b1 b2 t c0 c1 c2 c3 : ℕ)
    → (b0 < 256) × (b1 < 256) × (b2 < 256)
    → t ≡ join_bytes b0 b1 b2
    → IsRead (t / 262144 % 64) c0
    → IsRead (t / 4096 % 64) c1
    → IsRead (t / 64 % 64) c2
    → IsRead (t % 64) c3
    → (is_bad_quad c0 c1 c2 c3 ≡ false) × (decode_quad c0 c1 c2 c3 ≡ b0 ∷ b1 ∷ b2 ∷ [])
unfolding is_bad_quad decode_quad
quad b0 b1 b2 t c0 c1 c2 c3 h e r0 r1 r2 r3 = ground (arith, h, e, r0, r1, r2, r3)

one_padded :
    (b0 b1 t c0 c1 c2 : ℕ)
    → (b0 < 256) × (b1 < 256)
    → t ≡ join_bytes b0 b1 0
    → IsRead (t / 262144 % 64) c0
    → IsRead (t / 4096 % 64) c1
    → IsRead (t / 64 % 64) c2
    → (is_bad_quad c0 c1 c2 61 ≡ false) × (decode_quad c0 c1 c2 61 ≡ b0 ∷ b1 ∷ [])
unfolding is_bad_quad decode_quad
one_padded b0 b1 t c0 c1 c2 h e r0 r1 r2 = ground (arith, h, e, r0, r1, r2)

two_padded :
    (b0 t c0 c1 : ℕ)
    → b0 < 256
    → t ≡ join_bytes b0 0 0
    → IsRead (t / 262144 % 64) c0
    → IsRead (t / 4096 % 64) c1
    → (is_bad_quad c0 c1 61 61 ≡ false) × (decode_quad c0 c1 61 61 ≡ b0 ∷ [])
unfolding is_bad_quad decode_quad
two_padded b0 t c0 c1 h e r0 r1 = ground (arith, h, e, r0, r1)

decode_quads_nil : decode_quads [] ≡ some []
unfolding decode_quads
decode_quads_nil = refl

decode_quads-step :
    (c0 c1 c2 c3 : ℕ) (input out bs : Bytes)
    → (is_bad_quad c0 c1 c2 c3 ≡ false) × (decode_quad c0 c1 c2 c3 ≡ out)
    → decode_quads input ≡ some bs
    → decode_quads (c0 ∷ c1 ∷ c2 ∷ c3 ∷ input) ≡ some (out ++ bs)
unfolding decode_quads
decode_quads-step c0 c1 c2 c3 input out bs h rest = ground (arith, h, rest)

decode_quads-encode :
    (input : Bytes) → AreBytes input → decode_quads (base64_encode input) ≡ some input
unfolding base64_encode
decode_quads-encode [] h = decode_quads_nil
decode_quads-encode (b0 ∷ []) h =
    let t = join_bytes b0 0 0 in
    decode_quads-step _ _ _ _ [] _ []
      (two_padded b0 t _ _ h.0 refl (encode_sextet-IsRead (t / 262144))
        (encode_sextet-IsRead (t / 4096)))
      decode_quads_nil
decode_quads-encode (b0 ∷ b1 ∷ []) h =
    let t = join_bytes b0 b1 0 in
    decode_quads-step _ _ _ _ [] _ []
      (one_padded b0 b1 t _ _ _ (h.0, h.1.0) refl (encode_sextet-IsRead (t / 262144))
        (encode_sextet-IsRead (t / 4096)) (encode_sextet-IsRead (t / 64)))
      decode_quads_nil
decode_quads-encode (b0 ∷ b1 ∷ b2 ∷ input) h =
    let t = join_bytes b0 b1 b2 in
    decode_quads-step _ _ _ _ (base64_encode input) _ input
      (quad b0 b1 b2 t _ _ _ _ (h.0, h.1.0, h.1.1.0) refl (encode_sextet-IsRead (t / 262144))
        (encode_sextet-IsRead (t / 4096)) (encode_sextet-IsRead (t / 64)) (encode_sextet-IsRead t))
      (decode_quads-encode input h.1.1.1)

normalize-encode : (input : Bytes) → normalize (base64_encode input) ≡ base64_encode input
unfolding normalize base64_encode
normalize-encode [] = refl
normalize-encode (b0 ∷ []) =
    let t = join_bytes b0 0 0 in
    let (_, _, s0) = encode_sextet-IsRead (t / 262144) in
    let (_, _, s1) = encode_sextet-IsRead (t / 4096) in rw (s0, s1) refl
normalize-encode (b0 ∷ b1 ∷ []) =
    let t = join_bytes b0 b1 0 in
    let (_, _, s0) = encode_sextet-IsRead (t / 262144) in
    let (_, _, s1) = encode_sextet-IsRead (t / 4096) in
    let (_, _, s2) = encode_sextet-IsRead (t / 64) in rw (s0, s1, s2) refl
normalize-encode (b0 ∷ b1 ∷ b2 ∷ input) =
    let t = join_bytes b0 b1 b2 in
    let (_, _, s0) = encode_sextet-IsRead (t / 262144) in
    let (_, _, s1) = encode_sextet-IsRead (t / 4096) in
    let (_, _, s2) = encode_sextet-IsRead (t / 64) in
    let (_, _, s3) = encode_sextet-IsRead t in rw (s0, s1, s2, s3, normalize-encode input) refl

length-encode : (input : Bytes) → length (base64_encode input) % 4 ≡ 0
unfolding base64_encode
length-encode [] = refl
length-encode (b0 ∷ []) = refl
length-encode (b0 ∷ b1 ∷ []) = refl
length-encode (b0 ∷ b1 ∷ b2 ∷ input) = omega (arith, length-encode input)

-- Decoding what was encoded gives the bytes back.
pub base64_decode-encode :
    (input : Bytes) → AreBytes input → base64_decode (base64_encode input) ≡ some input
unfolding base64_decode
base64_decode-encode input h =
    ground (arith, normalize-encode input, length-encode input, decode_quads-encode input h)
