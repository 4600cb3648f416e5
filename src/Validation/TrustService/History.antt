-- ===== src/Validation/TrustService/History.antt =====
-- Which snapshot of the trust list is consulted for a moment.
use tamga.Prelude.Order.{bytes_lt, IsUpTo, IsUpTo-refl, IsUpTo-trans, bytes_lt-IsUpTo}
use tamga.Prelude.{
  true, not, ◌&&◌, List, [], ◌∷◌, Option, none, some, Bytes, ◌≡◌, ◌⊎◌, inl, inr, refl, arith,
  Bool-cases,
}
use tamga.Prelude.Find.{All}
use tamga.Validation.TrustService.{
  DirectoryEntry, Search, is_snapshot, consider, earlier_of, later_of, search_history, round,
  year_month_of,
}

-- A file whose month is no later than that of `f`, and one whose month is no earlier.
abbrev NoLater : Bytes → Option Bytes → Type 0
NoLater f o = (g : Bytes) × (o ≡ some g) × IsUpTo (year_month_of g) (year_month_of f)

abbrev NoEarlier : Bytes → Option Bytes → Type 0
NoEarlier f o = (g : Bytes) × (o ≡ some g) × IsUpTo (year_month_of f) (year_month_of g)

earlier_of-NoLater : (f : Bytes) (o : Option Bytes) → NoLater f (earlier_of f o)
unfolding earlier_of
earlier_of-NoLater f none = (f, refl, IsUpTo-refl (year_month_of f))
earlier_of-NoLater f (some e) = elim (Bool-cases (bytes_lt (year_month_of f) (year_month_of e))) [
  | inl lt ↦ (f, rw lt, IsUpTo-refl (year_month_of f))
  | inr ge ↦ (e, rw ge, ge)
]

earlier_of_keep : (f g : Bytes) (o : Option Bytes) → NoLater g o → NoLater g (earlier_of f o)
unfolding earlier_of
earlier_of_keep f g none (x, e, h) = cc
earlier_of_keep f g (some e) (x, p, h) =
    let h' : IsUpTo (year_month_of e) (year_month_of g) = ground arith in
    elim (Bool-cases (bytes_lt (year_month_of f) (year_month_of e))) [
      | inl lt ↦ (f, rw lt, IsUpTo-trans _ (year_month_of e) _ (bytes_lt-IsUpTo _ _ lt) h')
      | inr ge ↦ (e, rw ge, h')
    ]

later_of-NoEarlier :
    (ref f : Bytes) (o : Option Bytes)
    → IsUpTo (year_month_of f) ref
    → NoEarlier f (later_of ref f o)
unfolding later_of
later_of-NoEarlier ref f none h = (f, rw h, IsUpTo-refl (year_month_of f))
later_of-NoEarlier ref f (some e) h =
    elim (Bool-cases (bytes_lt (year_month_of e) (year_month_of f))) [
      | inl lt ↦ (f, rw (h, lt), IsUpTo-refl (year_month_of f))
      | inr ge ↦ (e, rw (h, ge), ge)
    ]

later_of_keep :
    (ref f g : Bytes) (o : Option Bytes) → NoEarlier g o → NoEarlier g (later_of ref f o)
unfolding later_of
later_of_keep ref f g none (x, e, h) = cc
later_of_keep ref f g (some e) (x, p, h) =
    let h' : IsUpTo (year_month_of g) (year_month_of e) = ground arith in
    elim (Bool-cases
      (not (bytes_lt ref (year_month_of f)) && bytes_lt (year_month_of e) (year_month_of f))) [
        | inl t ↦
            let lt : bytes_lt (year_month_of e) (year_month_of f) ≡ true = ground arith in
            (f, rw t, IsUpTo-trans _ (year_month_of e) _ h' (bytes_lt-IsUpTo _ _ lt))
        | inr t ↦ (e, rw t, h')
      ]

-- What a search knows of a file that it has seen.
abbrev pub Covers : Bytes → Bytes → Search → Type 0
Covers ref f s = NoLater f s.earliest × (IsUpTo (year_month_of f) ref → NoEarlier f s.best)

consider-Covers : (ref f : Bytes) (s : Search) → Covers ref f (consider ref f s)
unfolding consider
consider-Covers ref f s = (earlier_of-NoLater f s.earliest, later_of-NoEarlier ref f s.best)

consider_keep : (ref f g : Bytes) (s : Search) → Covers ref g s → Covers ref g (consider ref f s)
unfolding consider
consider_keep ref f g s (a, b) =
    (earlier_of_keep f g s.earliest a, λ h. later_of_keep ref f g s.best (b h))

earlier_of_from :
    (f g : Bytes) (o : Option Bytes) → earlier_of f o ≡ some g → (o ≡ some g) ⊎ (g ≡ f)
unfolding earlier_of
earlier_of_from f g o h = ground arith

later_of_from :
    (ref f g : Bytes) (o : Option Bytes)
    → later_of ref f o ≡ some g
    → (o ≡ some g) ⊎ ((g ≡ f) × IsUpTo (year_month_of f) ref)
unfolding later_of
later_of_from ref f g o h = ground arith

round_keep :
    (ref g : Bytes) (e : DirectoryEntry) (s : Search)
    → Covers ref g s
    → Covers ref g (round ref e s)
unfolding round
round_keep ref g e s c = elim (Bool-cases (is_snapshot e)) [
  | inl t ↦ rw t (consider_keep ref e.filename g s c)
  | inr t ↦ rw t c
]

round-Covers :
    (ref : Bytes) (e : DirectoryEntry) (s : Search)
    → is_snapshot e ≡ true
    → Covers ref e.filename (round ref e s)
unfolding round
round-Covers ref e s t = rw t (consider-Covers ref e.filename s)

search_history_keep :
    (ref g : Bytes) (es : List DirectoryEntry) (s : Search)
    → Covers ref g s
    → Covers ref g (search_history ref es s)
unfolding search_history
search_history_keep ref g [] s c = c
search_history_keep ref g (e ∷ es) s c =
    search_history_keep ref g es (round ref e s) (round_keep ref g e s c)

pub search_history-Covers :
    (ref : Bytes) (es : List DirectoryEntry) (s : Search)
    → All (λ e. is_snapshot e ≡ true → Covers ref e.filename (search_history ref es s)) es
unfolding search_history
search_history-Covers ref [] s = tt
search_history-Covers ref (e ∷ es) s = (
  λ t. search_history_keep ref e.filename es (round ref e s) (round-Covers ref e s t),
  search_history-Covers ref es (round ref e s),
)

-- Some snapshot of the history has this name.
pub data IsIn (f : Bytes) : List DirectoryEntry → Type 0 where
  here :
      {e : DirectoryEntry} {es : List DirectoryEntry}
      → is_snapshot e ≡ true
      → f ≡ e.filename
      → IsIn f (e ∷ es)
  there : {e : DirectoryEntry} {es : List DirectoryEntry} → IsIn f es → IsIn f (e ∷ es)

-- What a search from `s` to `t` found was there before or is in the list, and a best file is not
-- after `ref`.
abbrev Known : Bytes → List DirectoryEntry → Search → Search → Type 0
Known ref es s t =
    ((f : Bytes) → t.earliest ≡ some f → (s.earliest ≡ some f) ⊎ IsIn f es)
    × ((f : Bytes)
        → t.best ≡ some f
        → (s.best ≡ some f) ⊎ (IsIn f es × IsUpTo (year_month_of f) ref))

consider-Known :
    (ref : Bytes) (e : DirectoryEntry) (es : List DirectoryEntry) (s : Search)
    → is_snapshot e ≡ true
    → Known ref (e ∷ es) s (consider ref e.filename s)
unfolding consider
consider-Known ref e es s t = (
  λ f h. elim (earlier_of_from e.filename f s.earliest h) [
    | inl old ↦ inl old
    | inr new ↦ inr (here t new)
  ],
  λ f h. elim (later_of_from ref e.filename f s.best h) [
    | inl old ↦ inl old
    | inr (new, upto) ↦ inr (here t new, rw new upto)
  ],
)

round-Known :
    (ref : Bytes) (e : DirectoryEntry) (es : List DirectoryEntry) (s : Search)
    → Known ref (e ∷ es) s (round ref e s)
unfolding round
round-Known ref e es s = elim (Bool-cases (is_snapshot e)) [
  | inl t ↦ rw t (consider-Known ref e es s t)
  | inr t ↦ rw t (λ f h. inl h, λ f h. inl h)
]

pub search_history-Known :
    (ref : Bytes) (es : List DirectoryEntry) (s : Search) → Known ref es s (search_history ref es s)
unfolding search_history
search_history-Known ref [] s = (λ f h. inl h, λ f h. inl h)
search_history-Known ref (e ∷ es) s = (
  λ f h. elim ((search_history-Known ref es (round ref e s)).0 f h) [
    | inl old ↦ (round-Known ref e es s).0 f old
    | inr new ↦ inr (there new)
  ],
  λ f h. elim ((search_history-Known ref es (round ref e s)).1 f h) [
    | inl old ↦ (round-Known ref e es s).1 f old
    | inr (new, upto) ↦ inr (there new, upto)
  ],
)
