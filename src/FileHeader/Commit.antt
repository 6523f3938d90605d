-- ===== src/FileHeader/Commit.antt =====
-- About the two header slots of aeordb-lib/src/engine/file_header.rs after a write that was completed.
use aeordb.Prelude.{
  ℕ, ◌+◌, ◌-◌, ◌*◌, ◌%◌, ◌<◌, ◌≤◌, ◌^◌, ◌≡◌, ◌⊎◌, inl, inr, refl, ap, Option, none, some, length,
  arith,
}
use aeordb.Bytes.{Bytes}
use aeordb.Bytes.File.{
  read_at, write_at, read_at-write_at, read_at-write_at_behind, read_at-write_at_before,
  length-write_at,
}
use aeordb.Errors.{EngineError, EngineResult, ok, err}
use aeordb.FileHeader.{FileHeader, IsValid, deserialize, file_header_size, header_region_size}
use aeordb.FileHeader.RoundTrip.{deserialize-serialize_header}
use aeordb.FileHeader.Slots.{
  pick_slot, with_slots, read_active_header, write_slot, write_header_to_inactive_slot,
}

abbrev Parsed : Type 0
Parsed = Option (EngineResult FileHeader)

-- The slot that was picked holds the header.
pick_slot-inv :
    (a b : Parsed) (h : FileHeader) (s : ℕ)
    → pick_slot a b ≡ some (ok (h, s))
    → ((s ≡ 0) × (a ≡ some (ok h))) ⊎ ((s ≡ 1) × (b ≡ some (ok h)))
unfolding pick_slot
pick_slot-inv none b h s e = ground arith
pick_slot-inv (some a) none h s e = ground arith
pick_slot-inv (some (ok a)) (some (ok b)) h s e = ground arith
pick_slot-inv (some (ok a)) (some (err x)) h s e = ground arith
pick_slot-inv (some (err x)) (some (ok b)) h s e = ground arith
pick_slot-inv (some (err x)) (some (err y)) h s e = ground arith

pub IsValid-sequence :
    (h : FileHeader) (n : ℕ) → IsValid h → n < 2 ^ 64 → IsValid (record h { sequence = n })
IsValid-sequence h n v fits = record {
  version_supported = v.version_supported;
  short_hash = v.short_hash;
  sequence_fits = fits;
  created_at_fits = v.created_at_fits;
  updated_at_fits = v.updated_at_fits;
  kv_block_offset_fits = v.kv_block_offset_fits;
  kv_block_length_fits = v.kv_block_length_fits;
  nvt_offset_fits = v.nvt_offset_fits;
  nvt_length_fits = v.nvt_length_fits;
  head_hash_fits = v.head_hash_fits;
  entry_count_fits = v.entry_count_fits;
  buffer_kvs_offset_fits = v.buffer_kvs_offset_fits;
  buffer_nvt_offset_fits = v.buffer_nvt_offset_fits;
  hot_tail_offset_fits = v.hot_tail_offset_fits;
  base_hash_fits = v.base_hash_fits;
  target_hash_fits = v.target_hash_fits;
}

module _ (crc32 : Bytes → ℕ) where
  -- What was read of a slot is a header.
  unfoldable pub Holds : Option Bytes → FileHeader → Type 0
  Holds slot h = (bytes : Bytes) × (slot ≡ some bytes) × (deserialize crc32 bytes ≡ some (ok h))

  pub with_slots-inv :
      (a b : Option Bytes) (h : FileHeader) (s : ℕ)
      → with_slots crc32 a b ≡ some (ok (h, s))
      → ((s ≡ 0) × Holds a h) ⊎ ((s ≡ 1) × Holds b h)
  unfolding with_slots Holds
  with_slots-inv none b h s e = ground arith
  with_slots-inv (some a) none h s e = ground arith
  with_slots-inv (some a) (some b) h s e =
      elim (pick_slot-inv (deserialize crc32 a) (deserialize crc32 b) h s e) [
        | inl (z, p) ↦ inl (z, (a, refl, p))
        | inr (z, p) ↦ inr (z, (b, refl, p))
      ]

  pub opened :
      (file : Bytes) (h : FileHeader) (s : ℕ)
      → read_active_header crc32 file ≡ some (ok (h, s))
      → with_slots crc32 (read_at file 0 256) (read_at file 256 256) ≡ some (ok (h, s))
  unfolding read_active_header
  opened file h s e = e

  -- The slots after a write to one of them.
  pub slots_after_b :
      (file bytes : Bytes)
      → header_region_size ≤ length file
      → length bytes ≡ file_header_size
      → read_active_header crc32 (write_at file 256 bytes)
        ≡ with_slots crc32 (read_at file 0 256) (some bytes)
  unfolding read_active_header
  slots_after_b file bytes long len = rw (
    read_at-write_at_before file 256 bytes (omega arith),
    read_at-write_at file 256 256 bytes len,
  )

  pub slots_after_a :
      (file bytes : Bytes)
      → length bytes ≡ file_header_size
      → read_active_header crc32 (write_at file 0 bytes)
        ≡ with_slots crc32 (some bytes) (read_at file 256 256)
  unfolding read_active_header
  slots_after_a file bytes len =
      rw (read_at-write_at file 0 256 bytes len, read_at-write_at_behind file 0 256 256 bytes len)

  -- A second slot that does not parse, or is older, leaves the first to be picked.
  newer_b :
      (slot : Option Bytes) (bytes : Bytes) (h h' : FileHeader)
      → Holds slot h
      → deserialize crc32 bytes ≡ some (ok h')
      → h.sequence < h'.sequence
      → with_slots crc32 slot (some bytes) ≡ some (ok (h', 1))
  unfolding with_slots Holds pick_slot
  newer_b slot bytes h h' (a, e, p) q lt = rw (e, p, q) (ground arith)

  newer_a :
      (slot : Option Bytes) (bytes : Bytes) (h h' : FileHeader)
      → Holds slot h
      → deserialize crc32 bytes ≡ some (ok h')
      → h.sequence < h'.sequence
      → with_slots crc32 (some bytes) slot ≡ some (ok (h', 0))
  unfolding with_slots Holds pick_slot
  newer_a slot bytes h h' (a, e, p) q lt = rw (e, p, q) (ground arith)

  pub torn_b :
      (slot : Option Bytes) (bytes : Bytes) (h : FileHeader) (x : EngineError)
      → Holds slot h
      → deserialize crc32 bytes ≡ some (err x)
      → with_slots crc32 slot (some bytes) ≡ some (ok (h, 0))
  unfolding with_slots Holds pick_slot
  torn_b slot bytes h x (a, e, p) q = rw (e, p, q)

  pub torn_a :
      (slot : Option Bytes) (bytes : Bytes) (h : FileHeader) (x : EngineError)
      → Holds slot h
      → deserialize crc32 bytes ≡ some (err x)
      → with_slots crc32 (some bytes) slot ≡ some (ok (h, 1))
  unfolding with_slots Holds pick_slot
  torn_a slot bytes h x (a, e, p) q = rw (e, p, q)

  -- A newer header that was written to the inactive slot is the active one.
  commit :
      (file bytes : Bytes) (h h' : FileHeader) (s : ℕ)
      → header_region_size ≤ length file
      → read_active_header crc32 file ≡ some (ok (h, s))
      → length bytes ≡ file_header_size
      → deserialize crc32 bytes ≡ some (ok h')
      → h.sequence < h'.sequence
      → read_active_header crc32 (write_at file ((1 - s) * file_header_size) bytes)
        ≡ some (ok (h', 1 - s))
  commit file bytes h h' s long e len parsed lt =
      elim (with_slots-inv (read_at file 0 256) (read_at file 256 256) h s (opened file h s e)) [
        | inl (z, holds) ↦
            rw (z, slots_after_b file bytes long len) (newer_b _ bytes h h' holds parsed lt)
        | inr (z, holds) ↦
            rw (z, slots_after_a file bytes len) (newer_a _ bytes h h' holds parsed lt)
      ]

  module _ (crc32_fits : (bytes : Bytes) → crc32 bytes < 2 ^ 32) where
    -- A header with the sequence number of the active one is written to the inactive slot, and is
    -- active afterwards with the next number, for a file that holds both slots, a header that is in
    -- range with a number below the last, and a CRC that fits 32 bits.
    pub read_active_header-write_header_to_inactive_slot :
        (file : Bytes) (active header : FileHeader) (s : ℕ)
        → header_region_size ≤ length file
        → read_active_header crc32 file ≡ some (ok (active, s))
        → IsValid header
        → header.sequence ≡ active.sequence
        → active.sequence + 1 < 2 ^ 64
        → (file' : Bytes) × (header' : FileHeader) × (write_header_to_inactive_slot crc32 file
              header s
            ≡ some (file', header'))
          × (header' ≡ record header { sequence = active.sequence + 1 })
          × (header_region_size ≤ length file')
          × (read_active_header crc32 file' ≡ some (ok (header', 1 - s)))
    unfolding write_header_to_inactive_slot write_slot
    read_active_header-write_header_to_inactive_slot file active header s long e v same small =
        let header' = record header { sequence = (header.sequence + 1) % 2 ^ 64 } in
        let next : header'.sequence ≡ active.sequence + 1 = omega (arith, same) in
        let (bytes, written, len, parsed) =
          deserialize-serialize_header crc32 crc32_fits header'
            (IsValid-sequence header _ v (omega arith)) in
        (
          write_at file ((1 - s) * file_header_size) bytes,
          header',
          rw written,
          ap (λ n. record header { sequence = n }) next,
          omega (arith, length-write_at file ((1 - s) * file_header_size) bytes),
          commit file bytes active header' s long e len parsed (omega (arith, next)),
        )
