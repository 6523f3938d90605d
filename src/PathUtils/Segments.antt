-- ===== src/PathUtils/Segments.antt =====
-- About the segments that `normalize_path` and `path_segments` of
-- aeordb-lib/src/engine/path_utils.rs find.
use aeordb.Prelude.{
  ◌≡◌, refl, ap, sym, Bool-cases, inl, inr, false, not, ◌||◌, List, [], ◌∷◌, ◌++◌, All, keep,
  if◌then◌else◌, arith,
}
use aeordb.PathUtils.{
  Chars, slash, is_nil, is_dot, is_dot_dot, pop, resolve, joined, without_nul, normalize_path,
  segments_from, path_segments, trim, split,
}

segments_from-resolve :
    (segments later : List Chars)
    → segments_from segments later ≡ resolve segments (keep (λ s. not (is_nil s)) later)
unfolding segments_from resolve keep
segments_from-resolve segments [] = refl
segments_from-resolve segments ([] ∷ later) = segments_from-resolve segments later
segments_from-resolve segments ((c ∷ s) ∷ later) =
    let next =
      if is_dot (c ∷ s)
      then segments
      else if is_dot_dot (c ∷ s)
      then pop segments
      else segments ++ ((c ∷ s) ∷ []) in
    segments_from-resolve next later

-- The normalized path is the path of the segments that are found in it without its NUL characters.
pub normalize_path-path_segments :
    (path : Chars) → normalize_path path ≡ joined (path_segments (without_nul path))
unfolding normalize_path path_segments joined segments_from split
normalize_path-path_segments path = go (trim (without_nul path))
  where
    go :
        (trimmed : Chars)
        → (if is_nil trimmed
            then slash ∷ []
            else joined (resolve [] (keep (λ s. not (is_nil s)) (split trimmed))))
          ≡ joined (segments_from [] (split trimmed))
    go [] = refl
    go (c ∷ cs) = ap joined (sym (segments_from-resolve [] (split (c ∷ cs))))

-- A name that needs no resolution.
pub record IsPlain (s : Chars) : Type 0 where
  pub not_empty : is_nil s ≡ false
  pub not_dot : is_dot s ≡ false
  pub not_dot_dot : is_dot_dot s ≡ false

pop-All : (segments : List Chars) → All IsPlain segments → All IsPlain (pop segments)
unfolding pop
pop-All [] h = tt
pop-All (s ∷ []) h = tt
pop-All (s ∷ t ∷ segments) (p, h) = (p, pop-All (t ∷ segments) h)

append-All :
    (segments : List Chars) (s : Chars)
    → All IsPlain segments
    → IsPlain s
    → All IsPlain (segments ++ (s ∷ []))
append-All [] s h p = (p, tt)
append-All (t ∷ segments) s (q, h) p = (q, append-All segments s h p)

segments_from-All :
    (segments later : List Chars)
    → All IsPlain segments
    → All IsPlain (segments_from segments later)
unfolding segments_from
segments_from-All segments [] h = h
segments_from-All segments (s ∷ later) h = elim (Bool-cases (is_nil s || is_dot s)) [
  | inl skipped ↦ rw skipped (segments_from-All segments later h)
  | inr name ↦ elim (Bool-cases (is_dot_dot s)) [
    | inl up ↦ rw (name, up) (segments_from-All (pop segments) later (pop-All segments h))
    | inr plain ↦
        rw (name, plain)
          (segments_from-All (segments ++ (s ∷ [])) later (
            append-All segments s h
              (record { not_empty = ground arith; not_dot = ground arith; not_dot_dot = plain })))
  ]
]

-- The segments of a path are never empty, `.` or `..`.
pub path_segments-IsPlain : (path : Chars) → All IsPlain (path_segments path)
unfolding path_segments
path_segments-IsPlain path = segments_from-All [] (split (trim path)) tt
