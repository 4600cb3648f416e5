-- ===== src/Validation/EvidenceStore.antt =====
-- src/lib/core/validation/EvidenceStore.cpp: evidence kept under the digest of its content. Texts are
-- byte strings here, since the store walks and orders them. `digest` is SHA-256
-- (src/lib/core/policy/Sha256Helper.h); what is shown holds for any function in its place.
pub mod Laws
pub mod Canonical
pub mod Injective
use tamga.Prelude.{
  ℕ, ◌/◌, ◌%◌, ◌+◌, Bool, true, false, ◌||◌, List, [], ◌∷◌, ◌++◌, Option, none, some, Bytes, codes,
  ltb, ◌==◌, if◌then◌else◌,
}
use tamga.Prelude.Order.{bytes_eq}
use tamga.Prelude.OrderedMap.{OrderedMap, find_key, emplace, assign}
use tamga.Validation.Decision.{is_some}

pub record EvidenceRecord : Type 0 where
  pub id : Bytes
  pub type : Bytes
  pub source : Bytes
  pub bytes : Bytes
  pub canonical_json : Bytes

-- `records_`.
abbrev pub EvidenceStore : Type 0
EvidenceStore = OrderedMap EvidenceRecord

-- `hex[n & 0x0f]`.
unfoldable pub hex_digit : ℕ → ℕ
hex_digit n = let d = n % 16 in if ltb d 10 then b'0' + d else 87 + d

-- `LowerHex`.
unfoldable pub lower_hex : Bytes → Bytes
unfolding hex_digit
lower_hex [] = []
lower_hex (b ∷ bs) = hex_digit (b / 16) ∷ hex_digit b ∷ lower_hex bs

unfoldable pub json_unicode_escape : ℕ → Bytes
unfolding hex_digit
json_unicode_escape value = codes "\\u00" ++ (hex_digit (value / 16) ∷ hex_digit value ∷ [])

-- The `switch` on one byte.
unfoldable pub escape_byte : ℕ → Bytes
unfolding json_unicode_escape
escape_byte ch =
    if ch == 34
    then 92 ∷ 34 ∷ []
    else if ch == 92
    then 92 ∷ 92 ∷ []
    else if ch == 8
    then 92 ∷ b'b' ∷ []
    else if ch == 12
    then 92 ∷ b'f' ∷ []
    else if ch == 10
    then 92 ∷ b'n' ∷ []
    else if ch == 13
    then 92 ∷ b'r' ∷ []
    else if ch == 9
    then 92 ∷ b't' ∷ []
    else if ltb ch 32
    then json_unicode_escape ch
    else ch ∷ []

unfoldable pub escape_json_string : Bytes → Bytes
unfolding escape_byte
escape_json_string [] = []
escape_json_string (ch ∷ value) = escape_byte ch ++ escape_json_string value

-- The loop of `BuildCanonicalJson`.
unfoldable pub json_fields : Bool → OrderedMap Bytes → Bytes
unfolding escape_json_string
json_fields first [] = []
json_fields first ((key, value) ∷ fields) =
    (if first then [] else codes ",")
    ++ codes "\""
    ++ escape_json_string key
    ++ codes "\":\""
    ++ escape_json_string value
    ++ codes "\""
    ++ json_fields false fields

unfoldable pub build_canonical_json : OrderedMap Bytes → Bytes
unfolding json_fields
build_canonical_json fields = codes "{" ++ json_fields true fields ++ codes "}"

-- The loop of `PutDerivedEvidence`; `none` is its early return.
unfoldable pub canonical_fields :
    List (Bytes × Bytes) → OrderedMap Bytes → Option (OrderedMap Bytes)
canonical_fields [] m = some m
canonical_fields ((key, value) ∷ fields) m =
    let rest = canonical_fields fields (emplace key value m) in
    if bytes_eq key (codes "type") || is_some (find_key key m) then none else rest

-- `records_.find(id) == records_.end()` and `records_.emplace(id, record)`.
unfoldable pub put_record : EvidenceRecord → EvidenceStore → EvidenceStore
put_record record' store =
    if is_some (find_key record'.id store) then store else emplace record'.id record' store

-- The source of derived evidence: its field of that name.
unfoldable pub source_of : OrderedMap Bytes → Bytes
source_of fields = elim (find_key (codes "source") fields) [ some source ↦ source | none ↦ [] ]

-- `EvidenceStore::Resolve`.
unfoldable pub resolve : Bytes → EvidenceStore → Option EvidenceRecord
resolve id store = find_key id store

module _ (digest : Bytes → Bytes) where
  unfoldable pub evidence_id_for_bytes : Bytes → Bytes
  unfolding lower_hex
  evidence_id_for_bytes bytes = codes "sha256:" ++ lower_hex (digest bytes)

  -- `EvidenceStore::PutRawEvidence`.
  unfoldable pub put_raw_evidence : Bytes → Bytes → Bytes → EvidenceStore → Bytes × EvidenceStore
  put_raw_evidence type bytes source store =
      let id = evidence_id_for_bytes bytes in
      (
        id,
        put_record
            (record { id = id; type = type; source = source; bytes = bytes; canonical_json = [] })
            store,
      )

  -- `PutDerivedEvidence` after its loop.
  unfoldable pub put_canonical : Bytes → OrderedMap Bytes → EvidenceStore → Bytes × EvidenceStore
  put_canonical type fields store =
      let json = build_canonical_json fields in
      let id = evidence_id_for_bytes json in
      (
        id,
        put_record
            (record {
              id = id;
              type = type;
              source = source_of fields;
              bytes = [];
              canonical_json = json;
            })
            store,
      )

  -- `EvidenceStore::PutDerivedEvidence`.
  unfoldable pub put_derived_evidence :
      Bytes → List (Bytes × Bytes) → EvidenceStore → Bytes × EvidenceStore
  put_derived_evidence type fields store = elim (canonical_fields fields []) [
    | none ↦ ([], store)
    | some m ↦ put_canonical type (assign (codes "type") type m) store
  ]
