-- ===== src/HotTail/Examples.antt =====
-- The hot tail at a concrete payload, under a checksum that adds the bytes.
use aeordb.Prelude.{◌≡◌, ℕ, leb, if◌then◌else◌, none, some, [], ◌∷◌, ◌++◌, take, drop, arith}
use aeordb.Bytes.{Bytes}
use aeordb.Bytes.Checksum.{byte_sum, byte_sum-lt}
use aeordb.HotTail.{
  HotTailPayload, serialize_hot_tail, deserialize_hot_tail, read_hot_tail, write_hot_tail,
}
use aeordb.HotTail.RoundTrip.{
  IsValidPayload, deserialize-serialize_hot_tail, deserialize_hot_tail-cut,
}
use aeordb.HotTail.File.{read_hot_tail-write_hot_tail, read_hot_tail-take}

abbrev payload : HotTailPayload
payload = record {
  writes = record { type_flags = 1; hash = 7 ∷ 8 ∷ []; offset = 300; total_length = 512 } ∷ [];
  voids = record { offset = 2000; size = 128 } ∷ [];
}

payload-IsValid : IsValidPayload 2 payload
payload-IsValid = omega arith

deserialize-serialize_hot_tail_example :
    deserialize_hot_tail byte_sum (serialize_hot_tail byte_sum payload 2 ++ (9 ∷ [])) 2
    ≡ some payload
deserialize-serialize_hot_tail_example =
    deserialize-serialize_hot_tail byte_sum byte_sum-lt 2 payload (9 ∷ []) payload-IsValid

deserialize_hot_tail-cut_example :
    deserialize_hot_tail byte_sum (take 40 (serialize_hot_tail byte_sum payload 2)) 2 ≡ none
deserialize_hot_tail-cut_example =
    deserialize_hot_tail-cut byte_sum byte_sum-lt 2 payload 40 payload-IsValid (omega arith)

read_hot_tail-write_hot_tail_example :
    read_hot_tail byte_sum (write_hot_tail byte_sum (1 ∷ 2 ∷ []) 4 payload 2).0 4 2 ≡ some payload
read_hot_tail-write_hot_tail_example =
    read_hot_tail-write_hot_tail byte_sum byte_sum-lt 2 (1 ∷ 2 ∷ []) 4 payload payload-IsValid

-- The payload takes 47 bytes from the second byte on.
abbrev file_of_two : Bytes
file_of_two = 1 ∷ 2 ∷ []

abbrev written : Bytes × ℕ
written = write_hot_tail byte_sum file_of_two 1 payload 2

read_hot_tail-take_example :
    (read_hot_tail byte_sum (take 47 written.0) 1 2
      ≡ (if leb written.1 47 then some payload else none))
    × (written.1 ≡ 48)
    × (take 1 written.0 ≡ 1 ∷ [])
    × (drop written.1 written.0 ≡ drop written.1 file_of_two)
read_hot_tail-take_example =
    read_hot_tail-take byte_sum byte_sum-lt 2 file_of_two 1 47 payload payload-IsValid (omega arith)
