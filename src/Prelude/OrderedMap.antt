-- ===== src/Prelude/OrderedMap.antt =====
-- `std::map` with texts as keys: a list in the order of the keys.
use tamga.Prelude.{
  true, false, List, [], ◌∷◌, Option, none, some, Bytes, ◌≡◌, ◌≢◌, ◌⊎◌, inl, inr, subst, sym, arith,
  Bool-cases, Option-cases, ◌∙◌, if◌then◌else◌,
}
use tamga.Prelude.Order.{bytes_lt, bytes_lt_irrefl, bytes_lt_trans, bytes_lt_total, bytes_lt-IsUpTo}

abbrev pub OrderedMap {ℓ} : Type ℓ → Type ℓ
OrderedMap V = List (Bytes × V)

-- `m.find(key)`: the search goes on while the keys are below it.
unfoldable pub find_key {ℓ} : {V : Type ℓ} → Bytes → OrderedMap V → Option V
find_key key [] = none
find_key key ((k, v) ∷ m) =
    let rest = find_key key m in
    if bytes_lt k key then rest else if bytes_lt key k then none else some v

-- `m.emplace(key, value)`: a key that is there keeps its value.
unfoldable pub emplace {ℓ} : {V : Type ℓ} → Bytes → V → OrderedMap V → OrderedMap V
emplace key value [] = (key, value) ∷ []
emplace key value ((k, v) ∷ m) =
    let rest = emplace key value m in
    if bytes_lt k key
    then (k, v) ∷ rest
    else if bytes_lt key k
    then (key, value) ∷ (k, v) ∷ m
    else (k, v) ∷ m

below_both : (a b c : Bytes) → bytes_lt a b ≡ false → bytes_lt a c ≡ true → bytes_lt b c ≡ true
below_both a b c h k = elim (Bool-cases (bytes_lt b a)) [
  | inl lt ↦ bytes_lt_trans b a c lt k
  | inr ge ↦ subst (λ d. bytes_lt d c ≡ true) (bytes_lt_total a b h ge) k
]

-- What a map holds after `emplace`: the new value at a key that was free, and all else as before.
pub find_key-emplace {ℓ} :
    {V : Type ℓ} (key : Bytes) (value : V) (m : OrderedMap V)
    → find_key key m ≡ none
    → find_key key (emplace key value m) ≡ some value
unfolding find_key emplace
find_key-emplace key value [] h = rw (bytes_lt_irrefl key)
find_key-emplace key value ((k, v) ∷ m) h = elim (Bool-cases (bytes_lt k key)) [
  | inl below ↦ rw (below, below) (find_key-emplace key value m (rw below at h))
  | inr e ↦ elim (Bool-cases (bytes_lt key k)) [
    | inl above ↦ rw (e, above, bytes_lt_irrefl key)
    | inr f ↦ cc (rw (e, f) at h)
  ]
]

pub find_key-emplace_taken {ℓ} :
    {V : Type ℓ} (key other : Bytes) (value found : V) (m : OrderedMap V)
    → find_key other m ≡ some found
    → find_key other (emplace key value m) ≡ some found
unfolding find_key emplace
find_key-emplace_taken key other value found [] h = cc
find_key-emplace_taken key other value found ((k, v) ∷ m) h = elim (Bool-cases (bytes_lt k key)) [
  | inl below ↦ elim (Bool-cases (bytes_lt k other)) [
    | inl lt ↦ rw (below, lt) (find_key-emplace_taken key other value found m (rw lt at h))
    | inr ge ↦ rw (below, ge) (rw ge at h)
  ]
  | inr e ↦ elim (Bool-cases (bytes_lt key k)) [
    | inl above ↦ elim (Bool-cases (bytes_lt key other)) [
      | inl lt ↦ rw (e, above, lt) h
      | inr ge ↦
          let lt = below_both key other k ge above in cc (rw (bytes_lt-IsUpTo other k lt, lt) at h)
    ]
    | inr f ↦ rw (e, f) h
  ]
]

-- Two entries at different keys may come in either order.
pub emplace_comm {ℓ} :
    {V : Type ℓ} (a b : Bytes) (x y : V) (m : OrderedMap V)
    → a ≢ b
    → emplace a x (emplace b y m) ≡ emplace b y (emplace a x m)
unfolding emplace
emplace_comm a b x y [] ne =
    ground (arith, bytes_lt-IsUpTo a b, bytes_lt-IsUpTo b a, bytes_lt_total a b)
emplace_comm a b x y ((k, v) ∷ m) ne = elim (Bool-cases (bytes_lt k a)) [
  | inl ka ↦ elim (Bool-cases (bytes_lt k b)) [
    | inl kb ↦ ground (arith, emplace_comm a b x y m ne)
    | inr kb ↦ ground (arith, bytes_lt_trans b k a, bytes_lt-IsUpTo b a)
  ]
  | inr ka ↦ elim (Bool-cases (bytes_lt k b)) [
    | inl kb ↦ ground (arith, bytes_lt_trans a k b, bytes_lt-IsUpTo a b)
    | inr kb ↦ ground (
      arith,
      bytes_lt-IsUpTo a b,
      bytes_lt-IsUpTo b a,
      bytes_lt_total a b,
      bytes_lt_total k a ka,
      bytes_lt_total k b kb,
    )
  ]
]

-- `m[key] = value`: a key that is there gets the new value.
unfoldable pub assign {ℓ} : {V : Type ℓ} → Bytes → V → OrderedMap V → OrderedMap V
assign key value [] = (key, value) ∷ []
assign key value ((k, v) ∷ m) =
    let rest = assign key value m in
    if bytes_lt k key
    then (k, v) ∷ rest
    else if bytes_lt key k
    then (key, value) ∷ (k, v) ∷ m
    else (k, value) ∷ m

-- What is found after `emplace` is the new value at its key, or was there before.
pub find_key-emplace_from {ℓ} :
    {V : Type ℓ} (key other : Bytes) (value found : V) (m : OrderedMap V)
    → find_key other (emplace key value m) ≡ some found
    → ((other ≡ key) × (found ≡ value)) ⊎ (find_key other m ≡ some found)
unfolding find_key emplace
find_key-emplace_from key other value found [] h = ground (arith, bytes_lt_total key other)
find_key-emplace_from key other value found ((k, v) ∷ m) h =
    ground (arith, find_key-emplace_from key other value found m, bytes_lt_total key other)

pub find_key-emplace_other {ℓ} :
    {V : Type ℓ} (key other : Bytes) (value : V) (m : OrderedMap V)
    → other ≢ key
    → find_key other (emplace key value m) ≡ find_key other m
find_key-emplace_other key other value m ne =
    elim (Option-cases (find_key other (emplace key value m))) [
      | inr (found, e) ↦ elim (find_key-emplace_from key other value found m e) [
        | inl (same, _) ↦ absurd (ne same)
        | inr f ↦ e ∙ sym f
      ]
      | inl e ↦ elim (Option-cases (find_key other m)) [
        | inl f ↦ e ∙ sym f
        | inr (found, f) ↦ cc (find_key-emplace_taken key other value found m f)
      ]
    ]
