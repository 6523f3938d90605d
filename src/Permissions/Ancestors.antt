-- ===== src/Permissions/Ancestors.antt =====
-- About the tests of one path against another of aeordb-lib/src/engine/grants_index.rs.
use aeordb.Prelude.{
  ◌≡◌, refl, sym, ap, ◌∙◌, Bool-cases, inl, inr, ◌↔◌, true, false, ◌&&◌, [], ◌∷◌, ◌++◌, length,
  take, drop, ◌==◌, if◌then◌else◌, take-append, take-drop, drop-append, arith,
}
use aeordb.Bytes.{Bytes, bytes_eq, bytes_eq_iff}
use aeordb.Permissions.Paths.{slash, is_nil, trim_end_slashes, starts_with_slash}
use aeordb.Permissions.Grants.{
  normalize_for_compare, starts_with, normal_ancestor_or_equal, path_is_ancestor_or_equal,
  path_is_strict_ancestor,
}

-- What stands before the slash in the paths below a directory: nothing below `/`.
abbrev pub directory_part : Bytes → Bytes
directory_part path = if bytes_eq path (slash ∷ []) then [] else path

-- Without slashes at their ends, unless they have no other character, the paths differ, and the
-- target is the path with a slash and more behind it.
abbrev pub IsPathBelow : Bytes → Bytes → Type 0
IsPathBelow path target =
    (bytes_eq (normalize_for_compare path) (normalize_for_compare target) ≡ false)
    × (rest : Bytes) × (normalize_for_compare target
        ≡ directory_part (normalize_for_compare path) ++ (slash ∷ rest))

trim_end_slashes_idem :
    (path : Bytes) → trim_end_slashes (trim_end_slashes path) ≡ trim_end_slashes path
unfolding trim_end_slashes
trim_end_slashes_idem [] = refl
trim_end_slashes_idem (b ∷ bs) = elim (Bool-cases ((b == slash) && is_nil (trim_end_slashes bs))) [
  | inl all ↦ rw all refl
  | inr some_left ↦ rw (some_left, trim_end_slashes_idem bs, some_left) refl
]

normalize_for_compare_idem :
    (path : Bytes) → normalize_for_compare (normalize_for_compare path) ≡ normalize_for_compare path
unfolding normalize_for_compare
normalize_for_compare_idem path = ground (arith, trim_end_slashes_idem path)

starts_with_slash-cons :
    (path : Bytes) → starts_with_slash path ≡ true → (rest : Bytes) × (path ≡ slash ∷ rest)
unfolding starts_with_slash
starts_with_slash-cons [] h = cc
starts_with_slash-cons (b ∷ bs) h = let e : b ≡ slash = ground arith in (bs, ap (λ c. c ∷ bs) e)

-- The tests on paths without slashes at their ends, that differ.
normal_ancestor-IsPathBelow :
    (a t : Bytes)
    → bytes_eq a t ≡ false
    → normal_ancestor_or_equal a t ≡ true
    → (rest : Bytes) × (t ≡ directory_part a ++ (slash ∷ rest))
unfolding normal_ancestor_or_equal starts_with
normal_ancestor-IsPathBelow a t differ h = elim (Bool-cases (bytes_eq a (slash ∷ []))) [
  | inl top ↦ let (rest, e) = starts_with_slash-cons t (rw (differ, top) at h) in (rest, rw top e)
  | inr deeper ↦ elim (Bool-cases (bytes_eq (take (length a) t) a)) [
    | inl prefix ↦
        let (rest, e) =
          starts_with_slash-cons (drop (length a) t) (rw (differ, deeper, prefix) at h) in
        (
          rest,
          rw deeper (
              sym (take-drop (length a) t)
              ∙ (ap (λ l. l ++ drop (length a) t) ((bytes_eq_iff (take (length a) t) a).0 prefix)
                  ∙ ap (λ l. a ++ l) e)),
        )
    | inr apart ↦ let wrong : false ≡ true = rw (differ, deeper, apart) at h in cc
  ]
]

IsPathBelow-normal_ancestor :
    (a t rest : Bytes)
    → t ≡ directory_part a ++ (slash ∷ rest)
    → normal_ancestor_or_equal a t ≡ true
unfolding normal_ancestor_or_equal starts_with starts_with_slash
IsPathBelow-normal_ancestor a t rest e = elim (Bool-cases (bytes_eq a t)) [
  | inl same ↦ rw same refl
  | inr differ ↦ elim (Bool-cases (bytes_eq a (slash ∷ []))) [
    | inl top ↦
        let at : t ≡ slash ∷ rest = rw top at e in rw (differ, top) (ap starts_with_slash at)
    | inr deeper ↦
        let at : t ≡ a ++ (slash ∷ rest) = rw deeper at e in
        let prefix : bytes_eq (take (length a) t) a ≡ true =
          (bytes_eq_iff (take (length a) t) a).1
            (ap (take (length a)) at ∙ take-append a (slash ∷ rest)) in
        rw (differ, deeper, prefix)
          (ap (λ l. starts_with_slash (drop (length a) l)) at
            ∙ ap starts_with_slash (drop-append a (slash ∷ rest)))
  ]
]

-- The test is exact.
pub path_is_strict_ancestor-IsPathBelow :
    (path target : Bytes) → (path_is_strict_ancestor path target ≡ true) ↔ IsPathBelow path target
unfolding path_is_strict_ancestor path_is_ancestor_or_equal
path_is_strict_ancestor-IsPathBelow path target =
    let a = normalize_for_compare path in
    let t = normalize_for_compare target in
    (
      λ h. elim (Bool-cases (bytes_eq a t)) [
        | inl same ↦ let wrong : false ≡ true = rw same at h in cc
        | inr differ ↦
            let (rest, e) = normal_ancestor-IsPathBelow a t differ (
              rw (differ, normalize_for_compare_idem path, normalize_for_compare_idem target) at
                h) in
            (differ, rest, e)
      ],
      λ (differ, rest, e).
          rw (differ, normalize_for_compare_idem path, normalize_for_compare_idem target)
            (IsPathBelow-normal_ancestor a t rest e),
    )
