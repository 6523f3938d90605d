-- ===== src/Kv/Pages/Upsert.antt =====
-- About `upsert_in_page` and `find_in_page` of aeordb-lib/src/engine/kv_pages.rs.
use aeordb.Prelude.{
  suc, ◌≤◌, ◌≡◌, ◌⊎◌, inl, inr, refl, ap, sym, subst, ◌∙◌, Bool, true, false, ◌&&◌, Option, none,
  some, List, [], ◌∷◌, ◌++◌, length, All, ltb, if◌then◌else◌, arith, Option-cases, Bool-cases,
  length-append,
}
use mathlib.Core.Option.{some-injective}
use aeordb.Bytes.{Bytes, bytes_eq, bytes_eq_iff}
use aeordb.Strings.Order.{bytes_eq_sym}
use aeordb.Kv.Entry.{KvEntry}
use aeordb.Kv.Pages.{max_entries_per_page, find_in_page, replace_first, upsert_in_page}
use aeordb.Kv.Pages.Lookup.{lookup}

-- No entry has the hash.
abbrev pub IsFresh : Bytes → List KvEntry → Type 0
IsFresh hash entries = All (λ e. bytes_eq e.hash hash ≡ false) entries

-- No two entries of a page have the same hash.
abbrev pub IsDistinct : List KvEntry → Type 0
IsDistinct [] = Unit {0}
IsDistinct (e ∷ es) = IsFresh e.hash es × IsDistinct es

lookup-append :
    (hash : Bytes) (entry : KvEntry) (es : List KvEntry)
    → replace_first entry es ≡ none
    → lookup hash true (es ++ (entry ∷ []))
      ≡ (if bytes_eq entry.hash hash then some entry else lookup hash true es)
unfolding lookup replace_first
lookup-append hash entry [] h = ground arith
lookup-append hash entry (e ∷ es) h = elim (Option-cases (replace_first entry es)) [
  | inl none_later ↦ ground (
    arith,
    lookup-append hash entry es none_later,
    bytes_eq_iff e.hash hash,
    bytes_eq_iff entry.hash hash,
    bytes_eq_iff e.hash entry.hash,
  )
  | inr (later, eq) ↦ ground arith
]

-- What a replacement did: it stands for the first entry, or for a later one.
replace_first-cases :
    (entry e : KvEntry) (es es' : List KvEntry)
    → replace_first entry (e ∷ es) ≡ some es'
    → ((bytes_eq e.hash entry.hash ≡ true) × (es' ≡ entry ∷ es))
      ⊎ ((later : List KvEntry) × (bytes_eq e.hash entry.hash ≡ false)
          × (replace_first entry es ≡ some later)
          × (es' ≡ e ∷ later))
unfolding replace_first
replace_first-cases entry e es es' h = elim (Bool-cases (bytes_eq e.hash entry.hash)) [
  | inl same ↦ inl (same, sym (some-injective (entry ∷ es) es' (rw same at h)))
  | inr other ↦ elim (Option-cases (replace_first entry es)) [
    | inl missing ↦ ground arith
    | inr (later, eq) ↦
        let h' : some (e ∷ later) ≡ some es' = ground arith in
        inr (later, other, eq, sym (some-injective (e ∷ later) es' h'))
  ]
]

lookup-replace_first :
    (hash : Bytes) (entry : KvEntry) (es es' : List KvEntry)
    → replace_first entry es ≡ some es'
    → lookup hash true es' ≡ (if bytes_eq entry.hash hash then some entry else lookup hash true es)
unfolding lookup replace_first
lookup-replace_first hash entry [] es' h = ground arith
lookup-replace_first hash entry (e ∷ es) es' h = elim (replace_first-cases entry e es es' h) [
  | inl (same, eq) ↦ rw (eq, (bytes_eq_iff e.hash entry.hash).0 same) (ground arith)
  | inr (later, other, eq, eq') ↦ rw eq' (
      ground (
        arith,
        lookup-replace_first hash entry es later eq,
        bytes_eq_iff e.hash hash,
        bytes_eq_iff entry.hash hash,
        bytes_eq_iff e.hash entry.hash,
      ))
]

-- What an update returns, by whether the hash was there.
upsert-cases :
    (entry : KvEntry) (es : List KvEntry)
    → ((es' : List KvEntry) × (replace_first entry es ≡ some es')
        × (upsert_in_page es entry ≡ (true, es')))
      ⊎ ((replace_first entry es ≡ none)
          × (upsert_in_page es entry ≡ (
              if ltb (length es) max_entries_per_page
              then (true, es ++ (entry ∷ []))
              else (false, es))))
unfolding upsert_in_page
upsert-cases entry es = elim (Option-cases (replace_first entry es)) [
  | inl missing ↦ inr (missing, rw (missing, upsert_in_page) refl)
  | inr (es', eq) ↦ inl (es', eq, rw (eq, upsert_in_page) refl)
]

-- What any hash finds after an update that was accepted or refused.
abbrev pub found_after : Bool → KvEntry → Bytes → List KvEntry → Option KvEntry
found_after accepted entry hash es =
    if accepted && bytes_eq entry.hash hash then some entry else lookup hash true es

-- After an update that was accepted, its hash finds the new entry, and every other hash what it
-- found before; an update that was refused changes nothing that is found.
pub lookup-upsert_in_page :
    (entry : KvEntry) (es : List KvEntry) (hash : Bytes)
    → lookup hash true (upsert_in_page es entry).1
      ≡ found_after (upsert_in_page es entry).0 entry hash es
lookup-upsert_in_page entry es hash = elim (upsert-cases entry es) [
  | inl (es', eq, done) ↦ rw done (lookup-replace_first hash entry es es' eq)
  | inr (missing, done) ↦ elim (Bool-cases (ltb (length es) max_entries_per_page)) [
    | inl room ↦ rw (done, room) (lookup-append hash entry es missing)
    | inr full ↦ rw (done, full) refl
  ]
]

replace_first-lookup :
    (entry : KvEntry) (es : List KvEntry)
    → replace_first entry es ≡ none
    → lookup entry.hash true es ≡ none
unfolding replace_first lookup
replace_first-lookup entry [] h = refl
replace_first-lookup entry (e ∷ es) h = elim (Option-cases (replace_first entry es)) [
  | inl missing ↦ ground (arith, replace_first-lookup entry es missing)
  | inr (later, eq) ↦ ground arith
]

length-replace_first :
    (entry : KvEntry) (es es' : List KvEntry)
    → replace_first entry es ≡ some es'
    → length es' ≡ length es
unfolding replace_first
length-replace_first entry [] es' h = ground arith
length-replace_first entry (e ∷ es) es' h = elim (replace_first-cases entry e es es' h) [
  | inl (same, eq) ↦ rw eq refl
  | inr (later, other, eq, eq') ↦ rw eq' (ap suc (length-replace_first entry es later eq))
]

IsFresh-replace_first :
    (hash : Bytes) (entry : KvEntry) (es es' : List KvEntry)
    → replace_first entry es ≡ some es'
    → bytes_eq entry.hash hash ≡ false
    → IsFresh hash es
    → IsFresh hash es'
unfolding replace_first
IsFresh-replace_first hash entry [] es' h new fresh = ground arith
IsFresh-replace_first hash entry (e ∷ es) es' h new (f, fs) =
    elim (replace_first-cases entry e es es' h) [
      | inl (same, eq) ↦ rw eq (new, fs)
      | inr (later, other, eq, eq') ↦
          rw eq' (f, IsFresh-replace_first hash entry es later eq new fs)
    ]

IsDistinct-replace_first :
    (entry : KvEntry) (es es' : List KvEntry)
    → replace_first entry es ≡ some es'
    → IsDistinct es
    → IsDistinct es'
unfolding replace_first
IsDistinct-replace_first entry [] es' h d = ground arith
IsDistinct-replace_first entry (e ∷ es) es' h (fresh, d) =
    elim (replace_first-cases entry e es es' h) [
      | inl (same, eq) ↦
          rw eq (subst (λ hash. IsFresh hash es) ((bytes_eq_iff e.hash entry.hash).0 same) fresh, d)
      | inr (later, other, eq, eq') ↦ rw eq' (
        IsFresh-replace_first e.hash entry es later eq (bytes_eq_sym entry.hash e.hash ∙ other)
            fresh,
        IsDistinct-replace_first entry es later eq d,
      )
    ]

IsFresh-append :
    (hash : Bytes) (entry : KvEntry) (es : List KvEntry)
    → IsFresh hash es
    → bytes_eq entry.hash hash ≡ false
    → IsFresh hash (es ++ (entry ∷ []))
IsFresh-append hash entry [] fresh new = (new, tt)
IsFresh-append hash entry (e ∷ es) (f, fs) new = (f, IsFresh-append hash entry es fs new)

IsDistinct-append :
    (entry : KvEntry) (es : List KvEntry)
    → replace_first entry es ≡ none
    → IsDistinct es
    → IsDistinct (es ++ (entry ∷ []))
unfolding replace_first
IsDistinct-append entry [] h d = (tt, tt)
IsDistinct-append entry (e ∷ es) h (fresh, d) = elim (Option-cases (replace_first entry es)) [
  | inl missing ↦
      let other : bytes_eq e.hash entry.hash ≡ false = ground arith in
      (
        IsFresh-append e.hash entry es fresh (bytes_eq_sym entry.hash e.hash ∙ other),
        IsDistinct-append entry es missing d,
      )
  | inr (later, eq) ↦ ground arith
]

-- The entries of a page are distinct and at most as many as a page holds.
pub record IsPage (es : List KvEntry) : Type 0 where
  pub distinct : IsDistinct es
  pub fits : length es ≤ max_entries_per_page

-- An update keeps the entries of a page distinct and few enough.
pub upsert_in_page-IsPage :
    (entry : KvEntry) (es : List KvEntry) → IsPage es → IsPage (upsert_in_page es entry).1
upsert_in_page-IsPage entry es p = elim (upsert-cases entry es) [
  | inl (es', eq, done) ↦ rw done (record {
    distinct = IsDistinct-replace_first entry es es' eq p.distinct;
    fits = omega (arith, length-replace_first entry es es' eq, p.fits);
  })
  | inr (missing, done) ↦ elim (Bool-cases (ltb (length es) max_entries_per_page)) [
    | inl room ↦
        rw (done, room)
          (record {
            distinct = IsDistinct-append entry es missing p.distinct;
            fits = ground (arith, length-append es (entry ∷ []));
          })
    | inr full ↦ rw (done, full) p
  ]
]

find_in_page-IsFresh :
    (hash : Bytes) (es : List KvEntry) → IsFresh hash es → find_in_page es hash ≡ none
unfolding find_in_page
find_in_page-IsFresh hash [] fresh = refl
find_in_page-IsFresh hash (e ∷ es) (f, fs) = ground (arith, find_in_page-IsFresh hash es fs)

-- Among distinct entries the search that skips deleted entries and the one that stops at them find
-- the same.
pub find_in_page-lookup :
    (es : List KvEntry) (hash : Bytes) → IsDistinct es → find_in_page es hash ≡ lookup hash false es
unfolding find_in_page lookup
find_in_page-lookup [] hash d = refl
find_in_page-lookup (e ∷ es) hash (fresh, d) = elim (Bool-cases (bytes_eq e.hash hash)) [
  | inl same ↦
      let fresh' = subst (λ h. IsFresh h es) ((bytes_eq_iff e.hash hash).0 same) fresh in
      ground (arith, find_in_page-IsFresh hash es fresh')
  | inr other ↦ ground (arith, find_in_page-lookup es hash d)
]

-- An update is refused only for a new hash and a full page.
pub upsert_in_page_refused :
    (entry : KvEntry) (es : List KvEntry)
    → (upsert_in_page es entry).0 ≡ false
    → (lookup entry.hash true es ≡ none) × (max_entries_per_page ≤ length es)
upsert_in_page_refused entry es h = elim (upsert-cases entry es) [
  | inl (es', eq, done) ↦ ground arith
  | inr (missing, done) ↦ (replace_first-lookup entry es missing, ground arith)
]
