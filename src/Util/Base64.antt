-- ===== src/Util/Base64.antt =====
-- src/lib/util/Base64.cpp. A text is the list of its bytes. `|` joins parts that share no bit, so it
-- is `+`, and the shifts are by literals. Where the code returns false, the answer is `none`.
pub mod RoundTrip
use tamga.Prelude.{
  ℕ, ◌+◌, ◌-◌, ◌*◌, ◌/◌, ◌%◌, Bool, true, false, not, ◌&&◌, ◌||◌, List, [], ◌∷◌, ◌++◌, Option, none,
  some, append_to, Bytes, codes, get_or, length, ltb, leb, ◌==◌, if◌then◌else◌,
}

abbrev pub k_alphabet : Bytes
k_alphabet = codes "ABCDEFGHIJKLMNOPQRSTUVWXYZabcdefghijklmnopqrstuvwxyz0123456789+/"

unfoldable pub decode_char : ℕ → ℕ
decode_char c =
    if leb 65 c && leb c 90
    then c - 65
    else if leb 97 c && leb c 122
    then c - 97 + 26
    else if leb 48 c && leb c 57
    then c - 48 + 52
    else if c == 43
    then 62
    else if c == 47
    then 63
    else 255

-- `kAlphabet[n & 0x3F]`.
unfoldable pub encode_sextet : ℕ → ℕ
encode_sextet n = get_or k_alphabet (n % 64) 0

abbrev pub join_bytes : ℕ → ℕ → ℕ → ℕ
join_bytes b0 b1 b2 = b0 * 65536 + b1 * 256 + b2

-- One turn of the loop for each three bytes, the last with what is left; 61 is `=`.
unfoldable pub base64_encode : Bytes → Bytes
unfolding encode_sextet
base64_encode [] = []
base64_encode (b0 ∷ []) =
    let triple = join_bytes b0 0 0 in
    encode_sextet (triple / 262144) ∷ encode_sextet (triple / 4096) ∷ 61 ∷ 61 ∷ []
base64_encode (b0 ∷ b1 ∷ []) =
    let triple = join_bytes b0 b1 0 in
    encode_sextet (triple / 262144)
    ∷ encode_sextet (triple / 4096)
    ∷ encode_sextet (triple / 64)
    ∷ 61
    ∷ []
base64_encode (b0 ∷ b1 ∷ b2 ∷ input) =
    let triple = join_bytes b0 b1 b2 in
    encode_sextet (triple / 262144)
    ∷ encode_sextet (triple / 4096)
    ∷ encode_sextet (triple / 64)
    ∷ encode_sextet triple
    ∷ base64_encode input

-- `std::isspace` in the locale "C".
unfoldable pub is_space : ℕ → Bool
is_space ch = ch == 32 || (leb 9 ch && leb ch 13)

unfoldable pub normalize : Bytes → Bytes
unfolding is_space
normalize [] = []
normalize (ch ∷ input) = if is_space ch then normalize input else ch ∷ normalize input

-- A character in third or fourth place.
abbrev pub decode_padded : ℕ → ℕ
decode_padded c = if c == 61 then 0 else decode_char c

unfoldable pub is_bad_quad : ℕ → ℕ → ℕ → ℕ → Bool
is_bad_quad c0 c1 c2 c3 =
    decode_char c0 == 255
    || decode_char c1 == 255
    || (not (c2 == 61) && (decode_padded c2 == 255))
    || (not (c3 == 61) && (decode_padded c3 == 255))

-- The bytes that one quad appends.
unfoldable pub decode_quad : ℕ → ℕ → ℕ → ℕ → Bytes
decode_quad c0 c1 c2 c3 =
    let triple =
      decode_char c0 * 262144 + decode_char c1 * 4096 + decode_padded c2 * 64 + decode_padded c3 in
    (triple / 65536 % 256)
    ∷ ((if not (c2 == 61) then (triple / 256 % 256) ∷ [] else [])
        ++ (if not (c3 == 61) then (triple % 256) ∷ [] else []))

-- The loop over the quads. A list that is not a whole number of quads does not get here.
unfoldable pub decode_quads : Bytes → Option Bytes
unfolding is_bad_quad decode_quad
decode_quads [] = some []
decode_quads (c0 ∷ c1 ∷ c2 ∷ c3 ∷ input) =
    let rest = decode_quads input in
    if is_bad_quad c0 c1 c2 c3 then none else append_to (decode_quad c0 c1 c2 c3) rest
decode_quads _ = none

unfoldable pub base64_decode : Bytes → Option Bytes
unfolding normalize decode_quads
base64_decode input =
    let normalized = normalize input in
    if not (length normalized % 4 == 0) then none else decode_quads normalized
