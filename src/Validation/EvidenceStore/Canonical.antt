-- ===== src/Validation/EvidenceStore/Canonical.antt =====
-- Derived evidence does not depend on the order in which its fields are given.
use mathlib.Core.List.{Permᴰ}
use tamga.Prelude.{
  List, [], ◌∷◌, none, Bytes, ◌≡◌, ◌≢◌, refl, ap, sym, ◌∙◌, arith, Bool-cases, Option-cases, inl,
  inr,
}
use tamga.Prelude.Order.{bytes_eq, bytes_eq_iff}
use tamga.Prelude.OrderedMap.{
  OrderedMap, find_key, emplace, emplace_comm, find_key-emplace, find_key-emplace_other,
}
use tamga.Validation.EvidenceStore.{EvidenceStore, canonical_fields, put_derived_evidence}

abbrev Fields : Type 0
Fields = List (Bytes × Bytes)

-- The same key twice is refused.
twice :
    (k : Bytes) (v v' : Bytes) (l : Fields) (m : OrderedMap Bytes)
    → canonical_fields ((k, v) ∷ (k, v') ∷ l) m ≡ none
unfolding canonical_fields
twice k v v' l m = elim (Option-cases (find_key k m)) [
  | inl e ↦ ground (arith, find_key-emplace k v m e)
  | inr (q, e) ↦ ground arith
]

swapped :
    (a b : Bytes × Bytes) (l : Fields) (m : OrderedMap Bytes)
    → canonical_fields (a ∷ b ∷ l) m ≡ canonical_fields (b ∷ a ∷ l) m
unfolding canonical_fields
swapped (k, v) (k', v') l m = elim (Bool-cases (bytes_eq k k')) [
  | inl e ↦
      let same = (bytes_eq_iff k k').0 e in rw same (twice k' v v' l m ∙ sym (twice k' v' v l m))
  | inr e ↦
      let ne : k ≢ k' = λ same. cc ((bytes_eq_iff k k').1 same, e) in
      let ne' : k' ≢ k = λ same. ne (sym same) in
      ground (
        arith,
        find_key-emplace_other k k' v m ne',
        find_key-emplace_other k' k v' m ne,
        emplace_comm k k' v v' m ne,
      )
]

kept :
    (a : Bytes × Bytes) (l l' : Fields)
    → ((m : OrderedMap Bytes) → canonical_fields l m ≡ canonical_fields l' m)
    → (m : OrderedMap Bytes) → canonical_fields (a ∷ l) m ≡ canonical_fields (a ∷ l') m
unfolding canonical_fields
kept (k, v) l l' ih m = rw (ih (emplace k v m))

canonical_fields-Perm :
    (l l' : Fields)
    → Permᴰ l l'
    → (m : OrderedMap Bytes) → canonical_fields l m ≡ canonical_fields l' m
canonical_fields-Perm l l' Permᴰ.nil m = refl
canonical_fields-Perm _ _ (Permᴰ.cons {a = a} {b = b} {l₁ = l₁} {l₂ = l₂} e d) m =
    ap (λ c. canonical_fields (c ∷ l₁) m) e ∙ kept b l₁ l₂ (canonical_fields-Perm l₁ l₂ d) m
canonical_fields-Perm _ _ (Permᴰ.swap {a = a} {b = b} {a' = a'} {b' = b'} {l = l} e e') m =
    ap (λ c. canonical_fields (c ∷ b ∷ l) m) e
    ∙ ap (λ c. canonical_fields (b' ∷ c ∷ l) m) e'
    ∙ swapped b' a' l m
canonical_fields-Perm _ _ (Permᴰ.trans {l₁ = x} {l₂ = y} {l₃ = z} d d') m =
    canonical_fields-Perm x y d m ∙ canonical_fields-Perm y z d' m

-- Derived evidence does not depend on the order of its fields: permuted fields give the same
-- identifier and the same store, or are refused alike.
pub put_derived_evidence-Perm :
    (digest : Bytes → Bytes) (type : Bytes) (fields others : List (Bytes × Bytes))
    (store : EvidenceStore)
    → Permᴰ fields others
    → put_derived_evidence digest type fields store ≡ put_derived_evidence digest type others store
unfolding put_derived_evidence
put_derived_evidence-Perm digest type fields others store p =
    rw (canonical_fields-Perm fields others p [], put_derived_evidence) refl
