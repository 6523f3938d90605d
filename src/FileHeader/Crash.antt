-- ===== src/FileHeader/Crash.antt =====
-- About the two header slots of aeordb-lib/src/engine/file_header.rs when the process stops in the
-- middle of a write.
use aeordb.Prelude.{
  ℕ, ◌+◌, ◌-◌, ◌*◌, ◌<◌, ◌≤◌, ◌^◌, ◌≡◌, inl, inr, refl, sym, ap, subst, ◌∙◌, Option, some, length,
  replicate, arith,
}
use mathlib.Core.Option.{some-injective}
use aeordb.Bytes.{Bytes, bytes_eq}
use aeordb.Bytes.File.{read_at, write_at, read_at-write_at, length-write_at}
use aeordb.Errors.{EngineError, ok, err, invalid_magic}
use aeordb.FileHeader.{FileHeader, IsValid, deserialize, file_header_size, header_region_size}
use aeordb.FileHeader.RoundTrip.{deserialize-serialize_header}
use aeordb.FileHeader.Slots.{
  pick_slot, with_slots, read_active_header, write_slot, write_header_to_inactive_slot,
  write_initial_header,
}
use aeordb.FileHeader.Commit.{
  IsValid-sequence, with_slots-inv, slots_after_b, slots_after_a, torn_b, torn_a, opened,
  read_active_header-write_header_to_inactive_slot,
}

module _ (crc32 : Bytes → ℕ) where
  -- A write to the inactive slot that was torn leaves the header that was active before.
  read_active_header-torn :
      (file torn : Bytes) (h : FileHeader) (s : ℕ) (x : EngineError)
      → header_region_size ≤ length file
      → read_active_header crc32 file ≡ some (ok (h, s))
      → length torn ≡ file_header_size
      → deserialize crc32 torn ≡ some (err x)
      → read_active_header crc32 (write_at file ((1 - s) * file_header_size) torn)
        ≡ some (ok (h, s))
  read_active_header-torn file torn h s x long e len bad =
      elim (with_slots-inv crc32 (read_at file 0 256) (read_at file 256 256) h s
        (opened crc32 file h s e)) [
          | inl (z, holds) ↦
              rw (z, slots_after_b crc32 file torn long len) (torn_b crc32 _ torn h x holds bad)
          | inr (z, holds) ↦
              rw (z, slots_after_a crc32 file torn len) (torn_a crc32 _ torn h x holds bad)
        ]

  module _ (crc32_fits : (bytes : Bytes) → crc32 bytes < 2 ^ 32) where
    -- The state of a database file since it was created: headers written one after another, each to
    -- the slot that was not active, by writes that were completed or torn. The last two are the
    -- header of the last completed write and its slot.
    pub data History : Bytes → FileHeader → ℕ → Type 0 where
      created :
          (file : Bytes) (header : FileHeader) (file' : Bytes) (header' : FileHeader)
          → IsValid header
          → write_initial_header crc32 file header ≡ some (file', header')
          → History file' header' 0
      written :
          (file : Bytes) (active header : FileHeader) (s : ℕ) (file' : Bytes) (header' : FileHeader)
          → History file active s
          → IsValid header
          → header.sequence ≡ active.sequence
          → active.sequence + 1 < 2 ^ 64
          → write_header_to_inactive_slot crc32 file header s ≡ some (file', header')
          → History file' header' (1 - s)
      torn :
          (file : Bytes) (active : FileHeader) (s : ℕ) (slot : Bytes) (e : EngineError)
          → History file active s
          → length slot ≡ file_header_size
          → deserialize crc32 slot ≡ some (err e)
          → History (write_at file ((1 - s) * file_header_size) slot) active s

    -- Slot B of zeros is refused by its magic.
    zeros_refused : deserialize crc32 (replicate file_header_size 0) ≡ some (err invalid_magic)
    unfolding deserialize bytes_eq
    zeros_refused = refl

    -- A file that holds both slots, the one given with the active header.
    IsActive : ℕ → Bytes × FileHeader → Type 0
    IsActive s (file, h) =
        (header_region_size ≤ length file) × (read_active_header crc32 file ≡ some (ok (h, s)))

    -- The result of a write is the one that is known to be good.
    IsActive-result :
        (s : ℕ) (result : Option (Bytes × FileHeader)) (p q : Bytes × FileHeader)
        → result ≡ some p
        → IsActive s p
        → result ≡ some q
        → IsActive s q
    IsActive-result s result p q e good e' =
        subst (IsActive s) (some-injective p q (sym e ∙ e')) good

    initial :
        (file : Bytes) (header : FileHeader) (q : Bytes × FileHeader)
        → IsValid header
        → write_initial_header crc32 file header ≡ some q
        → IsActive 0 q
    unfolding write_initial_header write_slot with_slots pick_slot IsActive
    initial file header q v e =
        let zeros : Bytes = replicate file_header_size 0 in
        let cleared : Bytes = write_at file file_header_size zeros in
        let first = record header { sequence = 1 } in
        let (bytes, wrote, len, parsed) =
          deserialize-serialize_header crc32 crc32_fits first
            (IsValid-sequence header 1 v (omega arith)) in
        let long : header_region_size ≤ length cleared =
          omega (arith, length-write_at file file_header_size zeros) in
        let picked : with_slots crc32 (some bytes) (some zeros) ≡ some (ok (first, 0)) =
          rw (parsed, zeros_refused) in
        IsActive-result 0 (write_initial_header crc32 file header) (write_at cleared 0 bytes, first)
          q (rw wrote)
          (
            omega (arith, length-write_at cleared 0 bytes),
            slots_after_a crc32 cleared bytes len
                ∙ (ap (with_slots crc32 (some bytes)) (read_at-write_at file 256 256 zeros refl)
                    ∙ picked),
          )
          e

    state_of : (file : Bytes) (h : FileHeader) (s : ℕ) → History file h s → IsActive s (file, h)
    unfolding IsActive
    state_of file h s (created file0 header _ _ v e) = initial file0 header (file, h) v e
    state_of file h s (written file0 active header s0 _ _ before v same small e) =
        let (long, read) = state_of file0 active s0 before in
        let (file1, header1, e1, _, long1, read1) =
          read_active_header-write_header_to_inactive_slot crc32 crc32_fits file0 active header s0
            long read v same small in
        IsActive-result (1 - s0) _ (file1, header1) (file, h) e1 (long1, read1) e
    state_of file h s (torn file0 active s0 slot x before len bad) =
        let (long, read) = state_of file0 active s0 before in
        (
          omega (arith, length-write_at file0 ((1 - s0) * file_header_size) slot),
          read_active_header-torn file0 slot active s0 x long read len bad,
        )

    -- In every history of a database file, with any number of writes that were torn so that the
    -- slot does not parse, the header that is read, and its slot, are those of the last completed
    -- write, for a CRC that fits 32 bits.
    pub read_active_header-History :
        (file : Bytes) (h : FileHeader) (s : ℕ)
        → History file h s
        → read_active_header crc32 file ≡ some (ok (h, s))
    unfolding IsActive
    read_active_header-History file h s history = (state_of file h s history).1
