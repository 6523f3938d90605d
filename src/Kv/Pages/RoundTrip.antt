-- ===== src/Kv/Pages/RoundTrip.antt =====
-- About `serialize_page` and `deserialize_page` of aeordb-lib/src/engine/kv_pages.rs.
use aeordb.Prelude.{
  ℕ, zero, suc, ◌+◌, ◌*◌, ◌-◌, ◌≤◌, ◌<◌, ◌^◌, ◌≡◌, refl, ap, sym, subst, ◌∙◌, min, List, [], ◌∷◌,
  ◌++◌, length, take, drop, replicate, All, some, arith, length-append, length-replicate,
  length-take,
}
use native.Mathlib.Nat.{min-zero, min_comm, suc-min-suc, add-mul}
use mathlib.Core.List.{append_assoc}
use aeordb.Bytes.{
  Bytes, to_le_bytes, at_slice, at_byte, from_le_bytes-to_le_bytes, fitted_hash, fitted_hash-eq,
  length-fitted_hash,
}
use aeordb.Errors.{ok}
use aeordb.Kv.Entry.{KvEntry, IsValid}
use aeordb.Kv.Pages.{
  max_entries_per_page, page_magic, page_header_size, entry_size, page_size, is_empty_page,
  page_crc, validated_entry_count, entry_bytes, entries_bytes, page_body, serialize_page,
  read_entry, read_entries, with_count, deserialize_page,
}

read_entry-entry_bytes :
    (hl : ℕ) (e : KvEntry) (bytes rest : Bytes) (cursor : ℕ)
    → IsValid hl e
    → drop cursor bytes ≡ entry_bytes hl e ++ rest
    → (read_entry hl bytes cursor ≡ e) × (drop (cursor + entry_size hl) bytes ≡ rest)
unfolding entry_bytes read_entry
read_entry-entry_bytes hl e bytes rest cursor v at =
    let tail = e.type_flags ∷ (to_le_bytes 8 e.offset ++ (to_le_bytes 4 e.total_length ++ rest)) in
    let start : drop cursor bytes ≡ e.hash ++ tail =
      at
      ∙ (append_assoc (fitted_hash hl e.hash) _ rest
          ∙ ap (λ l. l ++ tail) (fitted_hash-eq hl e.hash v.hash_fits)) in
    let (b1, r1) = at_slice bytes e.hash tail cursor hl v.hash_fits start in
    let (b2, r2) = at_byte bytes _ _ (cursor + hl) r1 in
    let (b3, r3) = at_slice bytes (to_le_bytes 8 e.offset) _ (cursor + hl + 1) 8 refl r2 in
    let (b4, r4) =
      at_slice bytes (to_le_bytes 4 e.total_length) rest (cursor + hl + 1 + 8) 4 refl r3 in
    let size : cursor + entry_size hl ≡ cursor + hl + 1 + 8 + 4 = omega arith in
    let last : cursor + hl + 9 ≡ cursor + hl + 1 + 8 = omega arith in
    (
      rw (
        last,
        b1,
        b2,
        b3,
        b4,
        from_le_bytes-to_le_bytes 8 e.offset v.offset_fits,
        from_le_bytes-to_le_bytes 4 e.total_length v.total_length_fits,
      ),
      rw size r4,
    )

read_entries-entries_bytes :
    (hl : ℕ) (es : List KvEntry) (bytes rest : Bytes) (i : ℕ)
    → All (IsValid hl) es
    → drop (page_header_size + i * entry_size hl) bytes ≡ entries_bytes hl es ++ rest
    → read_entries hl bytes (length es) i ≡ es
unfolding entries_bytes read_entries
read_entries-entries_bytes hl [] bytes rest i v at = refl
read_entries-entries_bytes hl (e ∷ es) bytes rest i (v, vs) at =
    let cursor = page_header_size + i * entry_size hl in
    let (b, r) =
      read_entry-entry_bytes hl e bytes (entries_bytes hl es ++ rest) cursor v
        (at ∙ append_assoc (entry_bytes hl e) _ rest) in
    let next : page_header_size + suc i * entry_size hl ≡ cursor + entry_size hl = omega arith in
    let later = read_entries-entries_bytes hl es bytes rest (suc i) vs (rw next r) in
    λ k. b k ∷ later k

length-entries_bytes :
    (hl : ℕ) (es : List KvEntry) → length (entries_bytes hl es) ≡ length es * entry_size hl
unfolding entries_bytes entry_bytes
length-entries_bytes hl [] = omega arith
length-entries_bytes hl (e ∷ es) = omega (
  arith,
  length-append (entry_bytes hl e) (entries_bytes hl es),
  length-fitted_hash hl e.hash,
  length-append (fitted_hash hl e.hash)
      (e.type_flags ∷ (to_le_bytes 8 e.offset ++ to_le_bytes 4 e.total_length)),
  length-entries_bytes hl es,
)

All-take {ℓ κ} : {A : Type ℓ} (P : A → Type κ) (n : ℕ) (xs : List A) → All P xs → All P (take n xs)
All-take P zero xs h = tt
All-take P (suc n) [] h = tt
All-take P (suc n) (x ∷ xs) (h, hs) = (h, All-take P n xs hs)

take-min {ℓ} : {A : Type ℓ} (n : ℕ) (xs : List A) → take (min (length xs) n) xs ≡ take n xs
take-min zero xs = rw (min-zero (length xs))
take-min (suc n) [] = rw (min_comm 0 (suc n), min-zero (suc n))
take-min (suc n) (x ∷ xs) = rw (suc-min-suc (length xs) n) (ap (λ l. x ∷ l) (take-min n xs))

used_and_free : (c n : ℕ) → c ≤ 32 → c * n + (32 - c) * n ≡ 32 * n
used_and_free c n h = sym (add-mul c (32 - c) n) ∙ ap (λ k. k * n) (omega arith)

length-page_body : (es : List KvEntry) (hl : ℕ) → length (page_body es hl) ≡ 2 + 32 * entry_size hl
unfolding page_body
length-page_body es hl =
    let count = min (length es) max_entries_per_page in
    ground (
      arith,
      length-append (to_le_bytes 2 count) (
          entries_bytes hl (take count es)
          ++ replicate ((max_entries_per_page - count) * entry_size hl) 0),
      length-append (entries_bytes hl (take count es))
          (replicate ((max_entries_per_page - count) * entry_size hl) 0),
      length-entries_bytes hl (take count es),
      length-take count es,
      used_and_free count (entry_size hl),
      length-replicate {A = ℕ} ((max_entries_per_page - count) * entry_size hl) 0,
    )

module _ (crc32 : Bytes → ℕ) (crc32_fits : (bytes : Bytes) → crc32 bytes < 2 ^ 32) where
  -- A page has the size that its bucket's place in the file allows for.
  pub length-serialize_page :
      (es : List KvEntry) (hl : ℕ) → length (serialize_page crc32 es hl) ≡ page_size hl
  unfolding serialize_page
  length-serialize_page es hl = ground (arith, length-page_body es hl)

  validated_entry_count-serialize_page :
      (es : List KvEntry) (hl : ℕ)
      → validated_entry_count crc32 (serialize_page crc32 es hl) hl
        ≡ ok (some (min (length es) max_entries_per_page))
  unfolding validated_entry_count serialize_page page_body is_empty_page page_crc
  validated_entry_count-serialize_page es hl =
      let body = page_body es hl in
      let crc = crc32 (to_le_bytes 4 page_magic ++ (replicate 4 0 ++ body)) in
      rw
        (
          from_le_bytes-to_le_bytes 4 crc (crc32_fits _),
          from_le_bytes-to_le_bytes 2 (min (length es) max_entries_per_page) (omega arith),
        )
        (ground (
          arith,
          length-serialize_page es hl,
          used_and_free (min (length es) max_entries_per_page) (entry_size hl),
        ))

  -- The entries of a page that are in range are read back, the first 32 if there are more.
  pub deserialize_page-serialize_page :
      (es : List KvEntry) (hl : ℕ)
      → All (IsValid hl) es
      → deserialize_page crc32 (serialize_page crc32 es hl) hl ≡ ok (take max_entries_per_page es)
  unfolding deserialize_page with_count serialize_page page_body
  deserialize_page-serialize_page es hl v =
      let count = min (length es) max_entries_per_page in
      let used = take count es in
      let page = serialize_page crc32 es hl in
      let at : page_header_size + 0 * entry_size hl ≡ 10 = omega arith in
      let body =
        read_entries-entries_bytes hl used page
          (replicate ((max_entries_per_page - count) * entry_size hl) 0) 0
          (All-take (IsValid hl) count es v) (rw at refl) in
      let long : length used ≡ count = omega (arith, length-take count es) in
      rw (validated_entry_count-serialize_page es hl) (
        ap (λ l. ok l)
          (subst (λ n. read_entries hl page n 0 ≡ used) long body
            ∙ take-min max_entries_per_page es))
