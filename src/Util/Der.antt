-- ===== src/Util/Der.antt =====
-- src/lib/util/Der.cpp: walking the tags and lengths of a DER encoding. `size_t` has 64 bits; its sums
-- keep their wrap-around. Reading at or past the end of the buffer is undefined in the source and has
-- an outcome of its own here.
pub mod Bounds
use Prim.Native.Nat.{bit_or}
use tamga.Prelude.{
  ℕ, zero, suc, ◌+◌, ◌-◌, ◌*◌, ◌/◌, ◌%◌, ◌^◌, Bool, true, false, not, ◌&&◌, ◌||◌, Option, none,
  some, Bytes, length, get_elem?, ltb, leb, ◌==◌, min, if◌then◌else◌,
}

-- `SIZE_MAX + 1` and `sizeof(size_t)`.
abbrev pub size_modulus : ℕ
size_modulus = 2 ^ 64

abbrev pub size_bytes : ℕ
size_bytes = 8

-- `return false`, or the values written to the output parameters.
pub data Parsed {ℓ} (A : Type ℓ) : Type ℓ where
  out_of_buffer rejected : Parsed A
  parsed : A → Parsed A

abbrev pub next {ℓ κ} : {A : Type ℓ} {B : Type κ} → Parsed A → (A → Parsed B) → Parsed B
next out_of_buffer f = out_of_buffer
next rejected f = rejected
next (parsed a) f = f a

-- `data[i]`.
unfoldable pub read_at : Bytes → ℕ → Parsed ℕ
read_at data' i = elim (get_elem? data' i) [ none ↦ out_of_buffer | some b ↦ parsed b ]

unfoldable pub in_bounds : ℕ → ℕ → ℕ → Bool
in_bounds start len limit = leb start limit && leb len (limit - start)

-- `i + 1` on `size_t`.
abbrev pub increment : ℕ → ℕ
increment i = (i + 1) % size_modulus

-- An offset and a length.
abbrev pub Span : Type 0
Span = ℕ × ℕ

-- The loop over the `count` bytes of a long length.
unfoldable pub read_length : Bytes → ℕ → ℕ → ℕ → Parsed Span
read_length data' zero offset len = parsed (offset, len)
read_length data' (suc count) offset len =
    if ltb ((size_modulus - 1) / 256) len
    then rejected
    else next (read_at data' offset)
        (λ b. read_length data' count (increment offset) (bit_or ((len * 256) % size_modulus) b))

-- The last test: the value lies before the limit.
unfoldable pub check_span : ℕ → Span → Parsed Span
unfolding in_bounds
check_span limit (offset, len) =
    if in_bounds offset len limit then parsed (offset, len) else rejected

-- The long form, after its first byte.
unfoldable pub parse_long : Bytes → ℕ → ℕ → ℕ → Parsed Span
unfolding in_bounds
parse_long data' limit offset count =
    if count == 0 || ltb size_bytes count || not (in_bounds offset count limit)
    then rejected
    else next (read_length data' count offset 0) (check_span limit)

-- `ParseDerLength` on a pointer that is not null.
unfoldable pub parse_der_length : Bytes → ℕ → ℕ → Parsed Span
parse_der_length data' limit offset =
    if not (ltb offset limit)
    then rejected
    else next (read_at data' offset) (λ first.
      if ltb first 128
      then check_span limit (increment offset, first)
      else parse_long data' limit (increment offset) (first % 128))

pub record TlvView : Type 0 where
  pub tag : ℕ
  pub value_offset : ℕ
  pub value_length : ℕ
  pub next_offset : ℕ

-- The view of a value that was found.
unfoldable pub tlv_view : ℕ → Span → TlvView
tlv_view tag (offset, len) = record {
  tag = tag;
  value_offset = offset;
  value_length = len;
  next_offset = (offset + len) % size_modulus;
}

-- `ParseTlvAt` on a pointer that is not null.
unfoldable pub parse_tlv_at : Bytes → ℕ → ℕ → Parsed TlvView
parse_tlv_at data' offset limit =
    if not (ltb offset limit)
    then rejected
    else next (read_at data' offset) (λ tag.
      next (parse_der_length data' limit (increment offset)) (λ span. parsed (tlv_view tag span)))

-- The two on a vector.
unfoldable pub parse_der_length_in : Bytes → ℕ → ℕ → Parsed Span
parse_der_length_in data' limit offset =
    parse_der_length data' (if ltb limit (length data') then limit else length data') offset

unfoldable pub parse_tlv_in : Bytes → ℕ → ℕ → Parsed TlvView
parse_tlv_in data' offset limit =
    parse_tlv_at data' offset (if ltb limit (length data') then limit else length data')
