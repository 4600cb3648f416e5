-- ===== src/Validation/TrustService.antt =====
-- src/lib/core/validation/TrustServiceEvaluator.cpp. A text that is walked or ordered is a list of
-- bytes. The directory of snapshots is the list that the file system reports; the parser of
-- src/lib/core/policy/TrustListParser.cpp is a parameter.
pub mod History
pub mod Choice
pub mod Granted
use text.Mathlib.Text.{find?}
use tamga.Prelude.Order.{bytes_eq, bytes_lt}
use tamga.Prelude.{
  ℕ, ◌+◌, Bool, true, false, not, ◌&&◌, ◌||◌, List, [], ◌∷◌, ◌++◌, Option, none, some, Bytes,
  String, codes, length, take, drop, get_or, ltb, leb, ◌==◌, if◌then◌else◌, concat,
}
use tamga.Prelude.Find.{find_if}
use tamga.Validation.Types.{TrustServiceDecision, default_trust_service}
use tamga.Validation.Decision.{contains_text}

-- An entry of the directory: its file name and whether it is a regular file.
pub record DirectoryEntry : Type 0 where
  pub filename : Bytes
  pub is_regular_file : Bool

unfoldable pub is_digit : ℕ → Bool
is_digit c = leb b'0' c && leb c b'9'

-- `file_ym`, "YYYY-MM".
unfoldable pub is_year_month : Bytes → Bool
unfolding is_digit
is_year_month ym =
    get_or ym 4 0 == b'-'
    && is_digit (get_or ym 0 0)
    && is_digit (get_or ym 1 0)
    && is_digit (get_or ym 2 0)
    && is_digit (get_or ym 3 0)
    && is_digit (get_or ym 5 0)
    && is_digit (get_or ym 6 0)

abbrev pub year_month_of : Bytes → Bytes
year_month_of filename = take 7 (drop 9 filename)

-- The tests on an entry of the history.
unfoldable pub is_snapshot : DirectoryEntry → Bool
unfolding is_year_month bytes_eq
is_snapshot e =
    e.is_regular_file
    && length e.filename == 20
    && bytes_eq (take 9 e.filename) (codes "TL-UA-EC-")
    && bytes_eq (take 4 (drop 16 e.filename)) (codes ".xml")
    && is_year_month (year_month_of e.filename)

-- `earliest_ym`, `earliest_path`, `best_ym`, `best_path`. `none` is the empty string and path.
pub record Search : Type 0 where
  pub earliest : Option Bytes
  pub best : Option Bytes

-- The month of a file that was found; the empty string if none was.
abbrev pub found_month : Option Bytes → Bytes
found_month none = []
found_month (some f) = year_month_of f

abbrev pub is_none {ℓ} : {A : Type ℓ} → Option A → Bool
is_none none = true
is_none (some a) = false

-- One round of the loop, on an entry that passed the tests: the two `if` statements.
unfoldable pub earlier_of : Bytes → Option Bytes → Option Bytes
earlier_of filename earliest =
    if is_none earliest || bytes_lt (year_month_of filename) (found_month earliest)
    then some filename
    else earliest

unfoldable pub later_of : Bytes → Bytes → Option Bytes → Option Bytes
later_of ref filename best =
    let ym = year_month_of filename in
    if not (bytes_lt ref ym) && (is_none best || bytes_lt (found_month best) ym)
    then some filename
    else best

unfoldable pub consider : Bytes → Bytes → Search → Search
unfolding earlier_of later_of
consider ref filename s = record {
  earliest = earlier_of filename s.earliest;
  best = later_of ref filename s.best;
}

-- The body of the loop.
unfoldable pub round : Bytes → DirectoryEntry → Search → Search
round ref e s = if is_snapshot e then consider ref e.filename s else s

unfoldable pub search_history : Bytes → List DirectoryEntry → Search → Search
search_history ref [] s = s
search_history ref (e ∷ es) s = search_history ref es (round ref e s)

-- `TL-UA-EC.xml`, or a file of the history.
pub data Snapshot : Type 0 where
  current_tl : Snapshot
  historical_tl : Bytes → Snapshot

unfoldable pub chosen : Search → Snapshot
chosen s = elim s.best [
  | some f ↦ historical_tl f
  | none ↦ elim s.earliest [ some f ↦ historical_tl f | none ↦ current_tl ]
]

-- `SelectSnapshot`. The history is `none` if it does not exist or is no directory.
unfoldable pub select_snapshot : Option (List DirectoryEntry) → Bytes → Bool → Snapshot
select_snapshot history reference_time strict_current_tl =
    if strict_current_tl || ltb (length reference_time) 7 then current_tl else elim history [
      | none ↦ current_tl
      | some entries ↦
          chosen (
            search_history (take 7 reference_time) entries
              (record { earliest = none; best = none }))
    ]

pub record TrustListServiceRecord : Type 0 where
  pub service_type : String
  pub status : String
  pub certificates : List Bytes

pub record TrustListParseResult : Type 0 where
  pub ok : Bool
  pub message : String
  pub services : List TrustListServiceRecord

unfoldable pub contains_certificate : Bytes → List Bytes → Bool
unfolding bytes_eq
contains_certificate c [] = false
contains_certificate c (d ∷ ds) = bytes_eq d c || contains_certificate c ds

-- The first service with the certificate: the two nested loops.
unfoldable pub find_service : Bytes → List TrustListServiceRecord → Option TrustListServiceRecord
find_service c = find_if (λ s. contains_certificate c s.certificates)

unfoldable pub judge_service : TrustListServiceRecord → TrustServiceDecision → TrustServiceDecision
judge_service s d =
    let granted = contains_text s.status "/granted" in
    record d {
      service_type = s.service_type;
      status = s.status;
      service_trusted = granted;
      limitations =
          if granted
          then d.limitations
          else d.limitations ++ (concat "service status is not granted: " s.status ∷ []);
    }

abbrev pub limit_service : String → TrustServiceDecision → TrustServiceDecision
limit_service text d = record d {
  service_trusted = false;
  limitations = d.limitations ++ (text ∷ []);
}

-- `TrustServiceEvaluator::Evaluate`.
unfoldable pub evaluate :
    (String → TrustListParseResult) → Bytes → String → String → TrustServiceDecision
evaluate parse certificate_der trust_list_xml snapshot_evidence_id =
    let d = record default_trust_service {
      checked = true;
      snapshot_evidence_id = snapshot_evidence_id;
    } in
    let parsed = parse trust_list_xml in
    if bytes_eq certificate_der []
    then limit_service "empty certificate provided" d
    else if not parsed.ok
    then limit_service (concat "failed to parse trust list: " parsed.message) d
    else elim (find_service certificate_der parsed.services) [
      | some s ↦ judge_service s d
      | none ↦ limit_service "service record not found in trust list" d
    ]
