-- ===== src/Validation/Tests/EvidenceStore.antt =====
-- The evidence store at concrete inputs, with a digest that keeps the bytes as they are.
use mathlib.Core.List.{Permᴰ}
use tamga.Prelude.{List, [], ◌∷◌, Bytes, codes, ◌≡◌, refl}
use tamga.Prelude.OrderedMap.{OrderedMap, emplace}
use tamga.Validation.EvidenceStore.{
  EvidenceStore, put_raw_evidence, put_derived_evidence, build_canonical_json,
}
use tamga.Validation.EvidenceStore.Laws.{Step, Steps, Grows, Steps-Grows}
use tamga.Validation.EvidenceStore.Injective.{build_canonical_json-eq}
use tamga.Validation.EvidenceStore.Canonical.{put_derived_evidence-Perm}

abbrev digest : Bytes → Bytes
digest bytes = bytes

abbrev id_and_source : List (Bytes × Bytes)
id_and_source = (codes "source", codes "ocsp") ∷ (codes "id", codes "7") ∷ []

abbrev source_and_id : List (Bytes × Bytes)
source_and_id = (codes "id", codes "7") ∷ (codes "source", codes "ocsp") ∷ []

json :
    build_canonical_json ((codes "id", codes "a\"b") ∷ (codes "type", codes "t") ∷ [])
    ≡ codes "{\"id\":\"a\\\"b\",\"type\":\"t\"}"
unfolding build_canonical_json
json = refl

abbrev first_store : EvidenceStore
first_store = (put_raw_evidence digest (codes "cert") (1 ∷ 2 ∷ []) (codes "cms") []).1

abbrev second_store : EvidenceStore
second_store = (put_derived_evidence digest (codes "rev") id_and_source first_store).1

abbrev calls : Steps digest first_store second_store
calls = Steps.then' Steps.done (Step.derived (codes "rev") id_and_source)

abbrev all_calls : Steps digest [] second_store
all_calls =
    Steps.then' (Steps.then' Steps.done (Step.raw (codes "cert") (1 ∷ 2 ∷ []) (codes "cms")))
      (Step.derived (codes "rev") id_and_source)

Steps-Grows_example : Grows first_store second_store
Steps-Grows_example = Steps-Grows digest first_store second_store calls

put_derived_evidence-Perm_example :
    put_derived_evidence digest (codes "rev") id_and_source first_store
    ≡ put_derived_evidence digest (codes "rev") source_and_id first_store
put_derived_evidence-Perm_example =
    put_derived_evidence-Perm digest (codes "rev") id_and_source source_and_id first_store
      (Permᴰ.swap refl refl)

abbrev one_field : OrderedMap Bytes
one_field = (codes "id", codes "7") ∷ []

build_canonical_json-eq_example : emplace (codes "id") (codes "7") [] ≡ one_field
unfolding emplace
build_canonical_json-eq_example =
    build_canonical_json-eq (emplace (codes "id") (codes "7") []) one_field refl
