-- ===== src/Prelude/Find.antt =====
-- Searching a list: `std::find_if`, what it finds, and predicates on the elements.
use tamga.Prelude.{
  Bool, true, false, List, [], ◌∷◌, Option, none, some, ◌≡◌, ◌⊎◌, inl, inr, refl, Bool-cases,
  if◌then◌else◌,
}

abbrev pub All {ℓ κ} : {A : Type ℓ} → (A → Type κ) → List A → Type κ
All P [] = Unit
All P (x ∷ xs) = P x × All P xs

pub All-mono {ℓ} :
    {A : Type ℓ} (P Q : A → Type 0) → ((a : A) → P a → Q a) → (xs : List A) → All P xs → All Q xs
All-mono P Q f [] h = tt
All-mono P Q f (x ∷ xs) h = (f x h.0, All-mono P Q f xs h.1)

-- `std::find_if`.
unfoldable pub find_if {ℓ} : {A : Type ℓ} → (A → Bool) → List A → Option A
find_if p [] = none
find_if p (x ∷ xs) = if p x then some x else find_if p xs

-- `x` is the first element of the list that passes the test.
pub data First {ℓ} {A : Type ℓ} (p : A → Bool) (x : A) : List A → Type ℓ where
  here : {xs : List A} → p x ≡ true → First p x (x ∷ xs)
  later : {y : A} {xs : List A} → p y ≡ false → First p x xs → First p x (y ∷ xs)

abbrev pub NonePass {ℓ} : {A : Type ℓ} → (A → Bool) → List A → Type 0
NonePass p [] = Unit
NonePass p (x ∷ xs) = (p x ≡ false) × NonePass p xs

abbrev pub Finds {ℓ} : {A : Type ℓ} → (A → Bool) → List A → Option A → Type ℓ
Finds {A} p xs r = ((x : A) × (r ≡ some x) × First p x xs) ⊎ ((r ≡ none) × NonePass p xs)

Finds-cons {ℓ} :
    {A : Type ℓ} (p : A → Bool) (y : A) (xs : List A) (r : Option A)
    → p y ≡ false
    → Finds p xs r
    → Finds p (y ∷ xs) r
Finds-cons p y xs r h (inl (x, e, f)) = inl (x, e, later h f)
Finds-cons p y xs r h (inr (e, n)) = inr (e, (h, n))

pub find_if-Finds {ℓ} : {A : Type ℓ} (p : A → Bool) (xs : List A) → Finds p xs (find_if p xs)
unfolding find_if
find_if-Finds p [] = inr (refl, tt)
find_if-Finds p (x ∷ xs) = elim (Bool-cases (p x)) [
  | inl hit ↦ inl (x, rw hit, here hit)
  | inr miss ↦
      let skipped : find_if p (x ∷ xs) ≡ find_if p xs = rw miss in
      rw skipped (Finds-cons p x xs (find_if p xs) miss (find_if-Finds p xs))
]
