-- ===== src/Util/Der/Bounds.antt =====
-- Nothing is read outside the buffer, and what is accepted lies inside the limit.

use tamga.Prelude.{
  ℕ, zero, suc, ◌+◌, ◌-◌, ◌/◌, ◌%◌, ◌≤◌, ◌<◌, false, not, ◌||◌, [], ◌∷◌, Bytes, length, ltb, ◌==◌,
  ◌≡◌, inl, inr, arith, Bool-cases,
}
use tamga.Util.Der.{
  Parsed, out_of_buffer, rejected, parsed, next, read_at, in_bounds, increment, Span, read_length,
  check_span, parse_long, parse_der_length, TlvView, tlv_view, parse_tlv_at, parse_der_length_in,
  parse_tlv_in, size_modulus, size_bytes,
}

-- The outcome is not that of a read outside, and an accepted value has the property.
abbrev pub Safe {ℓ} : {A : Type ℓ} → (A → Type 0) → Parsed A → Type 0
Safe P out_of_buffer = ⊥
Safe P rejected = Unit
Safe P (parsed a) = P a

pub next-Safe {ℓ κ} :
    {A : Type ℓ} {B : Type κ} (P : A → Type 0) (Q : B → Type 0) (p : Parsed A) (f : A → Parsed B)
    → Safe P p
    → ((a : A) → P a → Safe Q (f a))
    → Safe Q (next p f)
next-Safe P Q out_of_buffer f h k = h
next-Safe P Q rejected f h k = h
next-Safe P Q (parsed a) f h k = k a h

Safe-mono {ℓ} :
    {A : Type ℓ} (P Q : A → Type 0) (p : Parsed A) → ((a : A) → P a → Q a) → Safe P p → Safe Q p
Safe-mono P Q out_of_buffer f h = h
Safe-mono P Q rejected f h = h
Safe-mono P Q (parsed a) f h = f a h

increment_small : (i n : ℕ) → i < n → n < size_modulus → increment i ≡ i + 1
increment_small i n h k = omega arith

read_at-Safe : (data' : Bytes) (i : ℕ) → i < length data' → Safe (λ b. Unit {0}) (read_at data' i)
unfolding read_at
read_at-Safe [] i h = elim h [ ]
read_at-Safe (x ∷ xs) zero h = tt
read_at-Safe (x ∷ xs) (suc i) h = read_at-Safe xs i (omega arith)

read_length-Safe :
    (data' : Bytes) (count offset len : ℕ)
    → offset + count ≤ length data'
    → length data' < size_modulus
    → Safe (λ (o, l). o ≡ offset + count) (read_length data' count offset len)
unfolding read_length
read_length-Safe data' zero offset len h k = omega arith
read_length-Safe data' (suc count) offset len h k =
    elim (Bool-cases (ltb ((size_modulus - 1) / 256) len)) [
      | inl e ↦ rw e tt
      | inr e ↦ rw e (
          next-Safe (λ b. Unit {0}) _ (read_at data' offset) _
            (read_at-Safe data' offset (omega arith))
            λ b _. rw (increment_small offset (length data') (omega arith) k) (
              Safe-mono _ _ (read_length data' count (offset + 1) _) (λ (o, l) same. omega arith)
                (read_length-Safe data' count (offset + 1) _ (omega arith) k)))
    ]

-- A span after `offset` and before `limit`.
abbrev Inside : ℕ → ℕ → Span → Type 0
Inside offset limit (o, l) = (offset < o) × (o + l ≤ limit)

check_span-Safe :
    (offset limit : ℕ) (s : Span) → offset < s.0 → Safe (Inside offset limit) (check_span limit s)
unfolding check_span
check_span-Safe offset limit (o, l) h = ground arith

long_fits :
    (count offset limit n : ℕ)
    → limit ≤ n
    → (count == 0 || ltb size_bytes count || not (in_bounds offset count limit)) ≡ false
    → offset + count ≤ n
unfolding in_bounds
long_fits count offset limit n h e = ground arith

parse_long-Safe :
    (data' : Bytes) (limit offset start count : ℕ)
    → limit ≤ length data'
    → length data' < size_modulus
    → start < offset
    → Safe (Inside start limit) (parse_long data' limit offset count)
unfolding parse_long
parse_long-Safe data' limit offset start count h k lt =
    elim (Bool-cases (count == 0 || ltb size_bytes count || not (in_bounds offset count limit))) [
      | inl e ↦ rw e tt
      | inr e ↦ rw e (
          next-Safe _ _ (read_length data' count offset 0) _
            (read_length-Safe data' count offset 0 (long_fits count offset limit (length data') h e)
              k)
            λ (o, l) same. check_span-Safe start limit (o, l) (omega arith))
    ]

parse_der_length-Safe :
    (data' : Bytes) (limit offset : ℕ)
    → limit ≤ length data'
    → length data' < size_modulus
    → Safe (Inside offset limit) (parse_der_length data' limit offset)
unfolding parse_der_length
parse_der_length-Safe data' limit offset h k = elim (Bool-cases (ltb offset limit)) [
  | inr e ↦ rw e tt
  | inl e ↦
      let lt : offset < limit = ground arith in
      let one : increment offset ≡ offset + 1 = omega arith in
      rw e (
        next-Safe (λ b. Unit {0}) _ (read_at data' offset) _
          (read_at-Safe data' offset (omega arith))
          λ first _. elim (Bool-cases (ltb first 128)) [
            | inl short ↦
                rw short (check_span-Safe offset limit (increment offset, first) (omega arith))
            | inr long ↦ rw long (
                parse_long-Safe data' limit (increment offset) offset (first % 128) h k
                  (omega arith))
          ])
]

-- What a view of a value at `offset` must be.
abbrev pub IsInside : ℕ → ℕ → TlvView → Type 0
IsInside offset limit v =
    (offset + 1 < v.value_offset)
    × (v.value_offset + v.value_length ≡ v.next_offset)
    × (v.next_offset ≤ limit)

pub parse_tlv_at-Safe :
    (data' : Bytes) (offset limit : ℕ)
    → limit ≤ length data'
    → length data' < size_modulus
    → Safe (IsInside offset limit) (parse_tlv_at data' offset limit)
unfolding parse_tlv_at tlv_view
parse_tlv_at-Safe data' offset limit h k = elim (Bool-cases (ltb offset limit)) [
  | inr e ↦ rw e tt
  | inl e ↦
      let lt : offset < limit = ground arith in
      let one : increment offset ≡ offset + 1 = omega arith in
      rw e (
        next-Safe (λ b. Unit {0}) _ (read_at data' offset) _
          (read_at-Safe data' offset (omega arith))
          λ tag _.
            next-Safe _ _ (parse_der_length data' limit (increment offset)) _
              (parse_der_length-Safe data' limit (increment offset) h k)
              λ (o, l) inside. (omega arith, omega arith, omega arith))
]

-- On a buffer that fits the address space, `ParseDerLength` on a vector reads nothing outside the
-- vector, whatever limit and offset it is given. A length that it accepts starts behind the offset,
-- and the value ends inside both the limit and the vector.
pub parse_der_length_in-Safe :
    (data' : Bytes) (limit offset : ℕ)
    → length data' < size_modulus
    → Safe
        (λ (o, l). (offset < o) × (o + l ≤ limit) × (o + l ≤ length data'))
        (parse_der_length_in data' limit offset)
unfolding parse_der_length_in
parse_der_length_in-Safe data' limit offset k = elim (Bool-cases (ltb limit (length data'))) [
  | inl e ↦ rw e (
      Safe-mono _ _ (parse_der_length data' limit offset) (λ (o, l) i. (i.0, i.1, ground arith))
        (parse_der_length-Safe data' limit offset (ground arith) k))
  | inr e ↦ rw e (
      Safe-mono _ _ (parse_der_length data' (length data') offset)
        (λ (o, l) i. (i.0, ground arith, i.1))
        (parse_der_length-Safe data' (length data') offset (omega arith) k))
]

-- On such a buffer `ParseTlvAt` reads nothing outside the vector. A value that it accepts starts at
-- least two bytes behind the offset, ends where the next one starts, without wrap-around, and lies
-- inside both the limit and the vector; so every step of a walk gets ahead.
pub parse_tlv_in-Safe :
    (data' : Bytes) (offset limit : ℕ)
    → length data' < size_modulus
    → Safe
        (λ v. IsInside offset limit v × (v.next_offset ≤ length data'))
        (parse_tlv_in data' offset limit)
unfolding parse_tlv_in
parse_tlv_in-Safe data' offset limit k = elim (Bool-cases (ltb limit (length data'))) [
  | inl e ↦ rw e (
      Safe-mono _ _ (parse_tlv_at data' offset limit) (λ v i. (i, ground arith))
        (parse_tlv_at-Safe data' offset limit (ground arith) k))
  | inr e ↦ rw e (
      Safe-mono _ _ (parse_tlv_at data' offset (length data')) (λ v i. (ground arith, ground arith))
        (parse_tlv_at-Safe data' offset (length data') (omega arith) k))
]
