-- ===== src/Validation/EvidenceStore/Laws.antt =====
-- The store is content-addressed and only grows.
use tamga.Prelude.{List, [], some, Bytes, ◌≡◌, ◌⊎◌, inl, inr, Bool-cases, Option-cases}
use tamga.Prelude.OrderedMap.{find_key, find_key-emplace, find_key-emplace_taken}
use tamga.Validation.Decision.{is_some}
use tamga.Validation.EvidenceStore.{
  EvidenceRecord, EvidenceStore, put_record, put_raw_evidence, put_canonical, put_derived_evidence,
  canonical_fields, evidence_id_for_bytes, resolve,
}

-- A record under an identifier stays there.
abbrev pub Grows : EvidenceStore → EvidenceStore → Type 0
Grows s t = (id : Bytes) (r : EvidenceRecord) → resolve id s ≡ some r → resolve id t ≡ some r

put_record-Grows : (r : EvidenceRecord) (s : EvidenceStore) → Grows s (put_record r s)
unfolding put_record resolve
put_record-Grows r s id q h = elim (Bool-cases (is_some (find_key r.id s))) [
  | inl e ↦ rw e h
  | inr e ↦ rw e (find_key-emplace_taken r.id id r q s h)
]

put_record_found :
    (r : EvidenceRecord) (s : EvidenceStore)
    → (q : EvidenceRecord) × (resolve r.id (put_record r s) ≡ some q)
unfolding put_record resolve
put_record_found r s = elim (Option-cases (find_key r.id s)) [
  | inl e ↦ (r, rw e (find_key-emplace r.id r s e))
  | inr (q, e) ↦ (q, rw e e)
]

module _ (digest : Bytes → Bytes) where
  -- One call of the store.
  pub data Step (s : EvidenceStore) : EvidenceStore → Type 0 where
    raw : (type bytes source : Bytes) → Step s (put_raw_evidence digest type bytes source s).1
    derived :
        (type : Bytes) (fields : List (Bytes × Bytes))
        → Step s (put_derived_evidence digest type fields s).1

  -- Any sequence of calls.
  pub data Steps (s : EvidenceStore) : EvidenceStore → Type 0 where
    done : Steps s s
    then' : {t u : EvidenceStore} → Steps s t → Step t u → Steps s u

  -- Each record is kept under its own identifier, which is that of its content.
  abbrev pub IsContentAddressed : EvidenceStore → Type 0
  IsContentAddressed s =
      (id : Bytes) (r : EvidenceRecord)
      → resolve id s ≡ some r
      → (r.id ≡ id)
        × ((evidence_id_for_bytes digest r.bytes ≡ id)
            ⊎ (evidence_id_for_bytes digest r.canonical_json ≡ id))

  Step-Grows : {s t : EvidenceStore} → Step s t → Grows s t
  unfolding put_raw_evidence put_derived_evidence put_canonical
  Step-Grows {s} (raw type bytes source) = put_record-Grows _ s
  Step-Grows {s} (derived type fields) = elim (Option-cases (canonical_fields fields [])) [
    | inl e ↦ rw (e, put_derived_evidence) λ id r h. h
    | inr (m, e) ↦ rw (e, put_derived_evidence) (put_record-Grows _ s)
  ]

  -- Whatever is put in, in whatever order, a record that the store holds is never replaced or lost.
  pub Steps-Grows : (s t : EvidenceStore) → Steps s t → Grows s t
  Steps-Grows s s' done id r h = h
  Steps-Grows s u (then' before last) id r h = Step-Grows last id r (Steps-Grows s _ before id r h)
