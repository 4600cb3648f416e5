-- ===== src/Prelude/Order.antt =====
-- `==` and `<` on `std::string` and on `std::vector<std::uint8_t>`: by bytes, as dictionaries order.
use tamga.Prelude.{Bool, true, false, ◌&&◌, ◌||◌, [], ◌∷◌, Bytes, ◌≡◌, ◌↔◌, refl, arith, ltb, ◌==◌}

-- `a == b` and `a < b`.
unfoldable pub bytes_eq : Bytes → Bytes → Bool
bytes_eq [] [] = true
bytes_eq (x ∷ xs) (y ∷ ys) = x == y && bytes_eq xs ys
bytes_eq _ _ = false

unfoldable pub bytes_lt : Bytes → Bytes → Bool
bytes_lt [] [] = false
bytes_lt [] (y ∷ ys) = true
bytes_lt (x ∷ xs) [] = false
bytes_lt (x ∷ xs) (y ∷ ys) = ltb x y || (x == y && bytes_lt xs ys)

pub bytes_eq_iff : (a b : Bytes) → (bytes_eq a b ≡ true) ↔ (a ≡ b)
unfolding bytes_eq
bytes_eq_iff (x ∷ a) (y ∷ b) = ground (arith, bytes_eq_iff a b)
bytes_eq_iff _ _ = ground arith

-- `a <= b` on `std::string`.
abbrev pub IsUpTo : Bytes → Bytes → Type 0
IsUpTo a b = bytes_lt b a ≡ false

pub IsUpTo-refl : (a : Bytes) → IsUpTo a a
unfolding bytes_lt
IsUpTo-refl [] = refl
IsUpTo-refl (x ∷ a) = ground (arith, IsUpTo-refl a)

pub IsUpTo-trans : (a b c : Bytes) → IsUpTo a b → IsUpTo b c → IsUpTo a c
unfolding bytes_lt
IsUpTo-trans [] b [] h k = refl
IsUpTo-trans [] b (z ∷ c) h k = refl
IsUpTo-trans (x ∷ a) [] c h k = cc
IsUpTo-trans (x ∷ a) (y ∷ b) [] h k = cc
IsUpTo-trans (x ∷ a) (y ∷ b) (z ∷ c) h k = ground (arith, IsUpTo-trans a b c)

pub bytes_lt-IsUpTo : (a b : Bytes) → bytes_lt a b ≡ true → IsUpTo a b
unfolding bytes_lt
bytes_lt-IsUpTo [] [] h = refl
bytes_lt-IsUpTo [] (y ∷ b) h = refl
bytes_lt-IsUpTo (x ∷ a) [] h = cc
bytes_lt-IsUpTo (x ∷ a) (y ∷ b) h = ground (arith, bytes_lt-IsUpTo a b)

pub bytes_lt_irrefl : (a : Bytes) → bytes_lt a a ≡ false
unfolding bytes_lt
bytes_lt_irrefl [] = refl
bytes_lt_irrefl (x ∷ a) = ground (arith, bytes_lt_irrefl a)

pub bytes_lt_trans :
    (a b c : Bytes) → bytes_lt a b ≡ true → bytes_lt b c ≡ true → bytes_lt a c ≡ true
unfolding bytes_lt
bytes_lt_trans [] [] c h k = k
bytes_lt_trans [] (y ∷ b) [] h k = k
bytes_lt_trans [] (y ∷ b) (z ∷ c) h k = refl
bytes_lt_trans (x ∷ a) [] c h k = cc
bytes_lt_trans (x ∷ a) (y ∷ b) [] h k = cc
bytes_lt_trans (x ∷ a) (y ∷ b) (z ∷ c) h k = ground (arith, bytes_lt_trans a b c)

-- Of two texts neither of which is below the other both are the same.
pub bytes_lt_total : (a b : Bytes) → bytes_lt a b ≡ false → bytes_lt b a ≡ false → a ≡ b
unfolding bytes_lt
bytes_lt_total [] [] h k = refl
bytes_lt_total [] (y ∷ b) h k = cc
bytes_lt_total (x ∷ a) [] h k = cc
bytes_lt_total (x ∷ a) (y ∷ b) h k = ground (arith, bytes_lt_total a b)
