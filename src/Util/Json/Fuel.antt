-- ===== src/Util/Json/Fuel.antt =====
-- The fuel of `skip_json_value` in the model of src/lib/util/Json.cpp.
use tamga.Prelude.{
  ℕ, zero, suc, ◌+◌, ◌*◌, ◌<◌, ◌≤◌, [], ◌∷◌, Option, none, some, Bytes, length, ◌≡◌, refl, sym,
  arith,
}
use tamga.Util.Json.{
  skip_json_whitespace, skip_key, and_then, skip_token, skip_separator, skip_json_value,
  skip_json_composite, skip_json_members,
}
use tamga.Util.Json.Lengths.{length-skip_json_whitespace}
use tamga.Util.Json.Skips.{skip_key-Leaves, Shorter-all}

-- Two continuations that agree on what a step leaves.
and_then_eq {ℓ κ} :
    {A : Type ℓ} {B : Type κ} (o : Option A) {f g : A → Option B}
    → ((a : A) → o ≡ some a → f a ≡ g a)
    → and_then o f ≡ and_then o g
and_then_eq none h = refl
and_then_eq (some a) h = h a refl

skip_token_eq :
    (json : Bytes) (object array other_object other_array : Bytes → Option Bytes)
    → object json ≡ other_object json
    → array json ≡ other_array json
    → skip_token object array json ≡ skip_token other_object other_array json
skip_token_eq [] object array other_object other_array h k = refl
skip_token_eq (ch ∷ rest) object array other_object other_array h k = rw (h, k) refl

skip_separator_eq :
    (close_char n : ℕ) (json : Bytes) {more others : Bytes → Option Bytes}
    → length json ≤ n
    → ((rest : Bytes) → length rest < n → more rest ≡ others rest)
    → skip_separator close_char more json ≡ skip_separator close_char others json
skip_separator_eq close_char n [] h k = refl
skip_separator_eq close_char n (ch ∷ rest) h k =
    rw (k (skip_json_whitespace rest) (omega (arith, h, length-skip_json_whitespace rest))) refl

-- Two fuels that are both enough for a text give the same answers on it.
record Agree (f g : ℕ) : Type 0 where
  value :
      (depth : ℕ) (json : Bytes)
      → 3 * length json < f
      → 3 * length json < g
      → skip_json_value f depth json ≡ skip_json_value g depth json
  composite :
      (open_char close_char depth : ℕ) (json : Bytes)
      → 3 * length json ≤ f
      → 3 * length json ≤ g
      → skip_json_composite f open_char close_char depth json
        ≡ skip_json_composite g open_char close_char depth json
  members :
      (open_char close_char depth : ℕ) (json : Bytes)
      → 3 * length json + 1 < f
      → 3 * length json + 1 < g
      → skip_json_members f open_char close_char depth json
        ≡ skip_json_members g open_char close_char depth json

skip_json_composite-zero :
    (g open_char close_char depth : ℕ) (json : Bytes)
    → 3 * length json ≤ 0
    → none ≡ skip_json_composite g open_char close_char depth json
unfolding skip_json_composite
skip_json_composite-zero zero open_char close_char depth json h = refl
skip_json_composite-zero (suc g) open_char close_char depth [] h = refl
skip_json_composite-zero (suc g) open_char close_char depth (ch ∷ json) h =
    absurd (omega (arith, h))

-- On no fuel only an empty composite is left to compare.
Agree-zero : (g : ℕ) → Agree 0 g
unfolding skip_json_composite
Agree-zero g = record {
  value = λ depth json h k. absurd (omega (arith, h));
  composite = λ open_char close_char depth json h k.
      skip_json_composite-zero g open_char close_char depth json h;
  members = λ open_char close_char depth json h k. absurd (omega (arith, h));
}

Agree-sym : (f g : ℕ) → Agree f g → Agree g f
Agree-sym f g same = record {
  value = λ depth json h k. sym (same.value depth json k h);
  composite = λ open_char close_char depth json h k.
      sym (same.composite open_char close_char depth json k h);
  members =
      λ open_char close_char depth json h k. sym (same.members open_char close_char depth json k h);
}

module _ (f g : ℕ) (same : Agree f g) where
  skip_json_value_eq :
      (depth : ℕ) (json : Bytes)
      → 3 * length json < suc f
      → 3 * length json < suc g
      → skip_json_value (suc f) depth json ≡ skip_json_value (suc g) depth json
  unfolding skip_json_value
  skip_json_value_eq depth json h k =
      let ws = skip_json_whitespace json in
      let shorter = length-skip_json_whitespace json in
      let enough : 3 * length ws ≤ f = omega (arith, h, shorter) in
      let also : 3 * length ws ≤ g = omega (arith, k, shorter) in
      let object = λ (fuel : ℕ). skip_json_composite fuel 123 125 (suc depth) in
      let array = λ (fuel : ℕ). skip_json_composite fuel 91 93 (suc depth) in
      skip_token_eq ws (object f) (array f) (object g) (array g)
        (same.composite 123 125 (suc depth) ws enough also)
        (same.composite 91 93 (suc depth) ws enough also)

  skip_json_composite_eq :
      (open_char close_char depth : ℕ) (json : Bytes)
      → 3 * length json ≤ suc f
      → 3 * length json ≤ suc g
      → skip_json_composite (suc f) open_char close_char depth json
        ≡ skip_json_composite (suc g) open_char close_char depth json
  unfolding skip_json_composite
  skip_json_composite_eq open_char close_char depth [] h k = refl
  skip_json_composite_eq open_char close_char depth (ch ∷ json) h k =
      let inside = skip_json_whitespace json in
      let shorter = length-skip_json_whitespace json in
      let enough : 3 * length inside + 1 < f = omega (arith, h, shorter) in
      let also : 3 * length inside + 1 < g = omega (arith, k, shorter) in
      rw (same.members open_char close_char depth inside enough also) refl

  skip_json_members_eq :
      (open_char close_char depth : ℕ) (json : Bytes)
      → 3 * length json + 1 < suc f
      → 3 * length json + 1 < suc g
      → skip_json_members (suc f) open_char close_char depth json
        ≡ skip_json_members (suc g) open_char close_char depth json
  unfolding skip_json_members
  skip_json_members_eq open_char close_char depth json h k =
      and_then_eq (skip_key open_char json) (λ v at_value.
        let less = (skip_key-Leaves open_char json).bound v at_value in
        rw (same.value depth v (omega (arith, h, less)) (omega (arith, k, less))) (
          and_then_eq (skip_json_value g depth v) (λ after good.
            let left = ((Shorter-all g).value depth v).bound after good in
            skip_separator_eq close_char (length json) (skip_json_whitespace after)
              (omega (arith, less, left, length-skip_json_whitespace after))
              (λ rest fewer.
                same.members open_char close_char depth rest (omega (arith, h, fewer))
                  (omega (arith, k, fewer))))))

Agree-all : (f g : ℕ) → Agree f g
Agree-all zero g = Agree-zero g
Agree-all (suc f) zero = Agree-sym zero (suc f) (Agree-zero (suc f))
Agree-all (suc f) (suc g) =
    let same = Agree-all f g in
    record {
      value = skip_json_value_eq f g same;
      composite = skip_json_composite_eq f g same;
      members = skip_json_members_eq f g same;
    }

pub skip_json_value-enough :
    (fuel depth : ℕ) (json : Bytes)
    → 3 * length json < fuel
    → skip_json_value fuel depth json ≡ skip_json_value (3 * length json + 1) depth json
skip_json_value-enough fuel depth json h =
    (Agree-all fuel (3 * length json + 1)).value depth json h (omega arith)
