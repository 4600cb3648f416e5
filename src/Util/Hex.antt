-- ===== src/Util/Hex.antt =====
-- src/lib/util/Hex.cpp. A text is the list of its bytes.
use Prim.Native.Nat.{bit_xor}
use tamga.Prelude.{ℕ, zero, suc, ◌*◌, ◌/◌, ◌%◌, ◌^◌, [], ◌∷◌, ◌++◌, Bytes, codes, get_or}

-- `kHex[value & 0x0F]`.
unfoldable pub hex_char : ℕ → ℕ
hex_char value = get_or (codes "0123456789abcdef") (value % 16) 0

-- Two digits with leading zero for each byte.
unfoldable pub hex_encode : Bytes → Bytes
unfolding hex_char
hex_encode [] = []
hex_encode (byte ∷ data') = hex_char (byte / 16) ∷ hex_char byte ∷ hex_encode data'

-- `count` digits of a value, the highest first.
unfoldable pub hex_digits : ℕ → ℕ → Bytes
unfolding hex_char
hex_digits zero value = []
hex_digits (suc count) value = hex_digits count (value / 16) ++ (hex_char value ∷ [])

unfoldable pub hex_from_uint64 : ℕ → Bytes
unfolding hex_digits
hex_from_uint64 value = hex_digits 16 value

-- The loop of `StableDerHash`; the product wraps around.
unfoldable pub hash_bytes : ℕ → Bytes → ℕ
hash_bytes hash [] = hash
hash_bytes hash (byte ∷ data') = hash_bytes (bit_xor hash byte * 1099511628211 % 2 ^ 64) data'

unfoldable pub stable_der_hash : Bytes → Bytes
unfolding hash_bytes hex_from_uint64
stable_der_hash data' = hex_from_uint64 (hash_bytes 1469598103934665603 data')
