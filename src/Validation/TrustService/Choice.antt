-- ===== src/Validation/TrustService/Choice.antt =====
-- The snapshot of the trust list that `SelectSnapshot` picks.
use tamga.Prelude.Order.{bytes_lt, IsUpTo}
use tamga.Prelude.{
  Bool, true, false, List, Option, none, some, Bytes, length, take, ltb, ◌≡◌, refl, ◌≤◌, ◌<◌, ◌⊎◌,
  inl, inr, arith, Bool-cases, Option-cases,
}
use tamga.Prelude.Find.{All, All-mono}
use tamga.Validation.TrustService.{
  DirectoryEntry, Search, Snapshot, current_tl, historical_tl, is_snapshot, search_history, chosen,
  select_snapshot, year_month_of,
}
use tamga.Validation.TrustService.History.{
  IsIn, Covers, search_history-Covers, search_history-Known,
}

-- The snapshot that answers for the month `ref`: the latest one not after it; if all are after it
-- the earliest one; and the current list if the history holds no snapshot.
pub data Answers (ref : Bytes) (es : List DirectoryEntry) : Snapshot → Type 0 where
  latest :
      (f : Bytes)
      → IsIn f es
      → IsUpTo (year_month_of f) ref
      → All
          (λ e.
            is_snapshot e ≡ true
            → IsUpTo (year_month_of e.filename) ref
            → IsUpTo (year_month_of e.filename) (year_month_of f))
          es
      → Answers ref es (historical_tl f)
  earliest :
      (f : Bytes)
      → IsIn f es
      → All
          (λ e.
            is_snapshot e ≡ true
            → (bytes_lt ref (year_month_of e.filename) ≡ true)
              × IsUpTo (year_month_of f) (year_month_of e.filename))
          es
      → Answers ref es (historical_tl f)
  nothing : All (λ e. is_snapshot e ≡ false) es → Answers ref es current_tl

abbrev start : Search
start = record { earliest = none; best = none }

module _ (ref : Bytes) (es : List DirectoryEntry) where
  found_latest :
      (f : Bytes) → (search_history ref es start).best ≡ some f → Answers ref es (historical_tl f)
  found_latest f h = elim ((search_history-Known ref es start).1 f h) [
    | inl old ↦ cc
    | inr (new, upto) ↦
        latest f new upto (All-mono _ _ weaker es (search_history-Covers ref es start))
  ]
    where
      weaker :
          (e : DirectoryEntry)
          → (is_snapshot e ≡ true → Covers ref e.filename (search_history ref es start))
          → is_snapshot e ≡ true
          → IsUpTo (year_month_of e.filename) ref
          → IsUpTo (year_month_of e.filename) (year_month_of f)
      weaker e c t upto = let (g, p, q) = (c t).1 upto in let same : g ≡ f = cc in rw same at q

  found_earliest :
      (f : Bytes)
      → (search_history ref es start).best ≡ none
      → (search_history ref es start).earliest ≡ some f
      → Answers ref es (historical_tl f)
  found_earliest f b h = elim ((search_history-Known ref es start).0 f h) [
    | inl old ↦ cc
    | inr new ↦ earliest f new (All-mono _ _ weaker es (search_history-Covers ref es start))
  ]
    where
      weaker :
          (e : DirectoryEntry)
          → (is_snapshot e ≡ true → Covers ref e.filename (search_history ref es start))
          → is_snapshot e ≡ true
          → (bytes_lt ref (year_month_of e.filename) ≡ true)
            × IsUpTo (year_month_of f) (year_month_of e.filename)
      weaker e c t =
          let (g, p, q) = (c t).0 in
          let same : g ≡ f = cc in
          (
            elim (Bool-cases (bytes_lt ref (year_month_of e.filename))) [
              | inl after ↦ after
              | inr upto ↦ let (g', p', q') = (c t).1 upto in cc
            ],
            rw same at q,
          )

  found_nothing :
      (search_history ref es start).best ≡ none
      → (search_history ref es start).earliest ≡ none
      → Answers ref es current_tl
  found_nothing b h = nothing (All-mono _ _ weaker es (search_history-Covers ref es start))
    where
      weaker :
          (e : DirectoryEntry)
          → (is_snapshot e ≡ true → Covers ref e.filename (search_history ref es start))
          → is_snapshot e ≡ false
      weaker e c = elim (Bool-cases (is_snapshot e)) [
        | inl t ↦ let (g, p, q) = (c t).0 in cc
        | inr t ↦ t
      ]

  chosen-Answers : Answers ref es (chosen (search_history ref es start))
  unfolding chosen
  chosen-Answers = elim (Option-cases (search_history ref es start).best) [
    | inr (f, h) ↦ rw (h, chosen) (found_latest f h)
    | inl b ↦ elim (Option-cases (search_history ref es start).earliest) [
      | inr (f, h) ↦ rw (b, h, chosen) (found_earliest f b h)
      | inl h ↦ rw (b, h, chosen) (found_nothing b h)
    ]
  ]

-- What `SelectSnapshot` answers with, by the month that the reference time starts with.
pub data Consults (history : Option (List DirectoryEntry)) (time : Bytes) (strict : Bool)
    (s : Snapshot) : Type 0 where
  always_current :
      (strict ≡ true) ⊎ (length time < 7) ⊎ (history ≡ none)
      → s ≡ current_tl
      → Consults history time strict s
  by_month :
      (es : List DirectoryEntry)
      → strict ≡ false
      → 7 ≤ length time
      → history ≡ some es
      → Answers (take 7 time) es s
      → Consults history time strict s

select_snapshot-Answers :
    (es : List DirectoryEntry) (time : Bytes)
    → 7 ≤ length time
    → Answers (take 7 time) es (select_snapshot (some es) time false)
unfolding select_snapshot
select_snapshot-Answers es time h =
    let long : ltb (length time) 7 ≡ false = ground arith in
    rw long (chosen-Answers (take 7 time) es)

-- The strict mode, a reference time that is too short and a missing history all lead to the current
-- list.
select_snapshot_current :
    (history : Option (List DirectoryEntry)) (time : Bytes) (strict : Bool)
    → (strict ≡ true) ⊎ (length time < 7) ⊎ (history ≡ none)
    → select_snapshot history time strict ≡ current_tl
unfolding select_snapshot
select_snapshot_current history time strict h = ground arith

-- In the strict mode, with a reference time of less than seven characters or without a history, the
-- current list is consulted. Else it is the latest snapshot of the history whose month is not after
-- the month of the reference time; if all are after it, the earliest one; and the current list if
-- the history holds no file named as a snapshot.
pub select_snapshot-Consults :
    (history : Option (List DirectoryEntry)) (time : Bytes) (strict : Bool)
    → Consults history time strict (select_snapshot history time strict)
select_snapshot-Consults history time true =
    always_current (inl refl) (select_snapshot_current history time true (inl refl))
select_snapshot-Consults none time false =
    always_current (inr (inr refl)) (select_snapshot_current none time false (inr (inr refl)))
select_snapshot-Consults (some es) time false = elim (Bool-cases (ltb (length time) 7)) [
  | inl short ↦
      let few : length time < 7 = ground (arith, short) in
      always_current (inr (inl few)) (select_snapshot_current (some es) time false (inr (inl few)))
  | inr long ↦
      let enough : 7 ≤ length time = ground (arith, long) in
      by_month es refl enough refl (select_snapshot-Answers es time enough)
]
