-- ===== src/Bytes/File.antt =====
-- A file as its bytes: reading and writing at a place.
use aeordb.Prelude.{
  ℕ, ◌+◌, ◌-◌, ◌<◌, ◌≤◌, ◌≡◌, sym, ap, ◌∙◌, Option, none, some, ◌++◌, length, take, drop, replicate,
  arith, ltb, if◌then◌else◌, length-append, length-take, length-drop, length-replicate, take-append,
  drop-append,
}
use mathlib.Core.List.{append-nil}
use aeordb.Bytes.{Bytes, slice, at_slice, drop-add}

-- `read_exact` of `n` bytes of a file from a place on.
unfoldable pub read_at : Bytes → ℕ → ℕ → Option Bytes
read_at file offset n =
    let read = slice file offset n in if ltb (length read) n then none else some read

-- `write_all` from a place on; a gap behind the end of the file reads as zeros.
unfoldable pub write_at : Bytes → ℕ → Bytes → Bytes
write_at file offset bytes =
    take offset (file ++ replicate (offset - length file) 0)
    ++ (bytes ++ drop (offset + length bytes) file)

length-kept :
    (file : Bytes) (offset : ℕ)
    → length (take offset (file ++ replicate (offset - length file) 0)) ≡ offset
length-kept file offset = omega (
  arith,
  length-take offset (file ++ replicate (offset - length file) 0),
  length-append file (replicate (offset - length file) 0),
  length-replicate {A = ℕ} (offset - length file) 0,
)

pub drop-write_at :
    (file : Bytes) (offset : ℕ) (bytes : Bytes)
    → drop offset (write_at file offset bytes) ≡ bytes ++ drop (offset + length bytes) file
unfolding write_at
drop-write_at file offset bytes =
    let kept = take offset (file ++ replicate (offset - length file) 0) in
    let rest = bytes ++ drop (offset + length bytes) file in
    ap (λ n. drop n (kept ++ rest)) (sym (length-kept file offset)) ∙ drop-append kept rest

pub take-write_at :
    (file : Bytes) (offset : ℕ) (bytes : Bytes)
    → offset ≤ length file
    → take offset (write_at file offset bytes) ≡ take offset file
unfolding write_at
take-write_at file offset bytes h =
    let kept = take offset (file ++ replicate (offset - length file) 0) in
    let rest = bytes ++ drop (offset + length bytes) file in
    let no_gap : offset - length file ≡ 0 = omega arith in
    (ap (λ n. take n (kept ++ rest)) (sym (length-kept file offset)) ∙ take-append kept rest)
    ∙ rw no_gap (ap (take offset) (append-nil file))

pub read_at-some :
    (file : Bytes) (offset n : ℕ) (xs rest : Bytes)
    → length xs ≡ n
    → drop offset file ≡ xs ++ rest
    → (read_at file offset n ≡ some xs) × (drop (offset + n) file ≡ rest)
unfolding read_at
read_at-some file offset n xs rest len at =
    let (b, r) = at_slice file xs rest offset n len at in (rw b (ground arith), r)

-- A read needs all of its bytes.
pub read_at-none :
    (file : Bytes) (offset n : ℕ) → length (drop offset file) < n → read_at file offset n ≡ none
unfolding read_at
read_at-none file offset n h = ground (arith, length-take n (drop offset file))

-- Writing at a place keeps what stands behind it.
pub drop-write_at_behind :
    (file : Bytes) (offset : ℕ) (bytes : Bytes)
    → drop (offset + length bytes) (write_at file offset bytes) ≡ drop (offset + length bytes) file
drop-write_at_behind file offset bytes =
    drop-add offset (length bytes) (write_at file offset bytes)
    ∙ (ap (drop (length bytes)) (drop-write_at file offset bytes) ∙ drop-append bytes _)

-- What was written is read back.
pub read_at-write_at :
    (file : Bytes) (offset n : ℕ) (bytes : Bytes)
    → length bytes ≡ n
    → read_at (write_at file offset bytes) offset n ≡ some bytes
read_at-write_at file offset n bytes e =
    (read_at-some (write_at file offset bytes) offset n bytes _ e
      (drop-write_at file offset bytes)).0

-- A read behind the place that was written to.
pub read_at-write_at_behind :
    (file : Bytes) (offset n m : ℕ) (bytes : Bytes)
    → length bytes ≡ n
    → read_at (write_at file offset bytes) (offset + n) m ≡ read_at file (offset + n) m
unfolding read_at
read_at-write_at_behind file offset n m bytes e = rw (← e, drop-write_at_behind file offset bytes)

-- A read of all that stands before the place that was written to.
pub read_at-write_at_before :
    (file : Bytes) (offset : ℕ) (bytes : Bytes)
    → offset ≤ length file
    → read_at (write_at file offset bytes) 0 offset ≡ read_at file 0 offset
unfolding read_at
read_at-write_at_before file offset bytes h = rw (take-write_at file offset bytes h)

pub length-write_at :
    (file : Bytes) (offset : ℕ) (bytes : Bytes)
    → length (write_at file offset bytes)
      ≡ offset + length bytes + (length file - (offset + length bytes))
unfolding write_at
length-write_at file offset bytes =
    let kept = take offset (file ++ replicate (offset - length file) 0) in
    omega (
      arith,
      length-kept file offset,
      length-append kept (bytes ++ drop (offset + length bytes) file),
      length-append bytes (drop (offset + length bytes) file),
      length-drop (offset + length bytes) file,
    )
