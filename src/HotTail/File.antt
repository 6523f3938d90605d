-- ===== src/HotTail/File.antt =====
-- About `write_hot_tail` and `read_hot_tail` of aeordb-lib/src/engine/hot_tail.rs.
use aeordb.Prelude.{
  ℕ, ◌+◌, ◌*◌, ◌-◌, ◌<◌, ◌≤◌, ◌^◌, ◌≡◌, refl, sym, ap, ◌∙◌, true, false, none, some, [], ◌++◌,
  length, take, drop, leb, arith, length-append, length-take, take-append_add, drop-take,
  if◌then◌else◌,
}
use native.Mathlib.Decide.{dec_lt}
use mathlib.Core.List.{append_assoc, append-nil}
use aeordb.Bytes.File.{
  read_at, write_at, drop-write_at, drop-write_at_behind, take-write_at, read_at-some, read_at-none,
}
use aeordb.Bytes.{Bytes, from_le_bytes-to_le_bytes, bytes_eq_refl}
use aeordb.HotTail.{
  HotTailPayload, serialize_hot_tail, read_hot_tail, write_hot_tail, with_header, with_body,
  hot_tail_header_size, hot_tail_magic, counts_header, write_records, void_records,
  write_record_size, void_record_size,
}
use aeordb.HotTail.Records.{length-write_records, length-void_records}
use aeordb.HotTail.RoundTrip.{
  IsValidPayload, hot_tail_size, header, serialize-header, length-header,
  deserialize-serialize_hot_tail,
}

module _ (crc32 : Bytes → ℕ) (crc32_fits : (bytes : Bytes) → crc32 bytes < 2 ^ 32) where
  -- An intact header leads to the reading of the body.
  with_header-header :
      (hl : ℕ) (file : Bytes) (offset : ℕ) (p : HotTailPayload)
      → IsValidPayload hl p
      → with_header crc32 hl file offset (some (header crc32 crc32_fits p))
        ≡ with_body crc32 hl (header crc32 crc32_fits p) (
            read_at file
              (offset + hot_tail_header_size)
              (length p.writes * write_record_size hl + length p.voids * void_record_size))
  unfolding with_header header counts_header
  with_header-header hl file offset p v =
      rw
        (
          from_le_bytes-to_le_bytes 4 (length p.writes) v.write_count_fits,
          from_le_bytes-to_le_bytes 4 (length p.voids) v.void_count_fits,
          from_le_bytes-to_le_bytes 4 (crc32 (counts_header p)) (crc32_fits (counts_header p)),
          bytes_eq_refl hot_tail_magic,
        )
        (ground arith)

  length-body :
      (hl : ℕ) (p : HotTailPayload)
      → length (write_records hl p.writes ++ void_records p.voids)
        ≡ length p.writes * write_record_size hl + length p.voids * void_record_size
  length-body hl p = omega (
    arith,
    length-append (write_records hl p.writes) (void_records p.voids),
    length-write_records hl p.writes,
    length-void_records p.voids,
  )

  length-serialize_hot_tail :
      (hl : ℕ) (p : HotTailPayload) → length (serialize_hot_tail crc32 p hl) ≡ hot_tail_size hl p
  length-serialize_hot_tail hl p =
      let head = header crc32 crc32_fits p in
      let body = write_records hl p.writes ++ void_records p.voids in
      ap length (sym (append-nil (serialize_hot_tail crc32 p hl)))
      ∙ (ap length (serialize-header crc32 crc32_fits hl p [])
          ∙ (ap (λ l. length (head ++ (write_records hl p.writes ++ l)))
                (append-nil (void_records p.voids))
              ∙ omega (
                arith,
                length-append head body,
                length-header crc32 crc32_fits p,
                length-body hl p,
              )))

  -- A hot tail that stands whole at a place of a file is read from there.
  read_hot_tail-whole :
      (hl : ℕ) (file : Bytes) (offset : ℕ) (p : HotTailPayload) (rest : Bytes)
      → IsValidPayload hl p
      → drop offset file ≡ serialize_hot_tail crc32 p hl ++ rest
      → read_hot_tail crc32 file offset hl ≡ some p
  unfolding read_hot_tail with_body
  read_hot_tail-whole hl file offset p rest v stands =
      let head = header crc32 crc32_fits p in
      let writes = write_records hl p.writes in
      let voids = void_records p.voids in
      let at : drop offset file ≡ head ++ ((writes ++ voids) ++ rest) =
        stands
        ∙ (serialize-header crc32 crc32_fits hl p rest
            ∙ ap (λ l. head ++ l) (sym (append_assoc writes voids rest))) in
      let (h, r) =
        read_at-some file offset hot_tail_header_size head _ (length-header crc32 crc32_fits p)
          at in
      let (b, _) =
        read_at-some file (offset + hot_tail_header_size) _ (writes ++ voids) rest
          (length-body hl p) r in
      let whole : serialize_hot_tail crc32 p hl ++ [] ≡ head ++ (writes ++ voids) =
        serialize-header crc32 crc32_fits hl p []
        ∙ ap (λ l. head ++ (writes ++ l)) (append-nil voids) in
      rw (h, with_header-header hl file offset p v, b, ← whole)
        (deserialize-serialize_hot_tail crc32 crc32_fits hl p [] v)

  -- A hot tail that is cut off is not read.
  read_hot_tail-short :
      (hl : ℕ) (file : Bytes) (offset n : ℕ) (p : HotTailPayload) (rest : Bytes)
      → IsValidPayload hl p
      → drop offset file ≡ take n (serialize_hot_tail crc32 p hl ++ rest)
      → n < hot_tail_size hl p
      → read_hot_tail crc32 file offset hl ≡ none
  unfolding read_hot_tail with_header with_body
  read_hot_tail-short hl file offset n p rest v stands h =
      let head = header crc32 crc32_fits p in
      let body = write_records hl p.writes ++ (void_records p.voids ++ rest) in
      let m = n - hot_tail_header_size in
      elim (dec_lt n hot_tail_header_size) [
        | yes short ↦
            rw
              (read_at-none file offset hot_tail_header_size (
                omega
                  (arith, ap length stands, length-take n (serialize_hot_tail crc32 p hl ++ rest))))
              refl
        | no enough ↦
            let at : drop offset file ≡ head ++ take m body =
              stands
              ∙ (ap (take n) (serialize-header crc32 crc32_fits hl p rest)
                  ∙ (ap (λ k. take k (head ++ body))
                        (omega (arith, length-header crc32 crc32_fits p))
                      ∙ take-append_add head body m)) in
            let (r, left) =
              read_at-some file offset hot_tail_header_size head _
                (length-header crc32 crc32_fits p) at in
            rw
              (
                r,
                with_header-header hl file offset p v,
                read_at-none file (offset + hot_tail_header_size)
                    (length p.writes * write_record_size hl + length p.voids * void_record_size)
                    (omega (arith, ap length left, length-take m body)),
              )
              refl
      ]

  -- What was written at a place of a file, with the gap before it filled, is read back from there.
  pub read_hot_tail-write_hot_tail :
      (hl : ℕ) (file : Bytes) (offset : ℕ) (p : HotTailPayload)
      → IsValidPayload hl p
      → read_hot_tail crc32 (write_hot_tail crc32 file offset p hl).0 offset hl ≡ some p
  unfolding write_hot_tail
  read_hot_tail-write_hot_tail hl file offset p v =
      let bytes = serialize_hot_tail crc32 p hl in
      read_hot_tail-whole hl (write_at file offset bytes) offset p _ v
        (drop-write_at file offset bytes)

  -- The end that is returned is exact: a file whose hot tail was written and that is then cut off
  -- has the payload if it is cut at that end or behind it, and no hot tail if it is cut before it.
  -- The end lies behind as many bytes as the header and the records have, and the writing keeps the
  -- file before the hot tail and behind it.
  pub read_hot_tail-take :
      (hl : ℕ) (file : Bytes) (offset n : ℕ) (p : HotTailPayload)
      → IsValidPayload hl p
      → offset ≤ length file
      → (read_hot_tail crc32 (take n (write_hot_tail crc32 file offset p hl).0) offset hl
          ≡ (if leb (write_hot_tail crc32 file offset p hl).1 n then some p else none))
        × ((write_hot_tail crc32 file offset p hl).1 ≡ offset + hot_tail_size hl p)
        × (take offset (write_hot_tail crc32 file offset p hl).0 ≡ take offset file)
        × (drop (write_hot_tail crc32 file offset p hl).1 (write_hot_tail crc32 file offset p hl).0
            ≡ drop (write_hot_tail crc32 file offset p hl).1 file)
  unfolding write_hot_tail
  read_hot_tail-take hl file offset n p v h =
      let bytes = serialize_hot_tail crc32 p hl in
      let file' = write_at file offset bytes in
      let rest = drop (offset + length bytes) file in
      let size = length-serialize_hot_tail hl p in
      let at : drop offset (take n file') ≡ take (n - offset) (bytes ++ rest) =
        drop-take n offset file' ∙ ap (take (n - offset)) (drop-write_at file offset bytes) in
      (
        elim (dec_lt n (offset + length bytes)) [
          | yes short ↦
              let cut : leb (offset + length bytes) n ≡ false = ground arith in
              rw cut (
                read_hot_tail-short hl (take n file') offset (n - offset) p rest v at
                  (omega (arith, size)))
          | no whole ↦
              let kept : leb (offset + length bytes) n ≡ true = ground arith in
              let m = n - offset - length bytes in
              let split : n - offset ≡ length bytes + m = omega arith in
              rw kept (
                read_hot_tail-whole hl (take n file') offset p (take m rest) v
                  (at ∙ (ap (λ k. take k (bytes ++ rest)) split ∙ take-append_add bytes rest m)))
        ],
        ap (λ k. offset + k) size,
        take-write_at file offset bytes h,
        drop-write_at_behind file offset bytes,
      )
