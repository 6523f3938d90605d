-- ===== src/Strings/Utf8.antt =====
-- The test of `String::from_utf8`: the well-formed byte sequences of UTF-8.
use aeordb.Prelude.{
  ℕ, Bool, true, false, ◌&&◌, Option, none, some, List, [], ◌∷◌, ltb, leb, ◌==◌, if◌then◌else◌,
  is_some,
}
use aeordb.Bytes.{Bytes}

-- The ranges of the bytes that follow a first byte, if it can be one.
abbrev following : ℕ → Option (List (ℕ × ℕ))
following b =
    let any : ℕ × ℕ = (0x80, 0xBF) in
    if ltb b 0x80
    then some []
    else if ltb b 0xC2
    then none
    else if ltb b 0xE0
    then some (any ∷ [])
    else if b == 0xE0
    then some ((0xA0, 0xBF) ∷ any ∷ [])
    else if b == 0xED
    then some ((0x80, 0x9F) ∷ any ∷ [])
    else if ltb b 0xF0
    then some (any ∷ any ∷ [])
    else if b == 0xF0
    then some ((0x90, 0xBF) ∷ any ∷ any ∷ [])
    else if ltb b 0xF4
    then some (any ∷ any ∷ any ∷ [])
    else if b == 0xF4
    then some ((0x80, 0x8F) ∷ any ∷ any ∷ [])
    else none

abbrev ranges_or_empty : Option (List (ℕ × ℕ)) → List (ℕ × ℕ)
ranges_or_empty none = []
ranges_or_empty (some ranges) = ranges

-- The ranges are those of the bytes that the current character has still to have.
is_utf8_from : List (ℕ × ℕ) → Bytes → Bool
is_utf8_from [] [] = true
is_utf8_from (range ∷ ranges) [] = false
is_utf8_from [] (b ∷ bytes) =
    is_some (following b) && is_utf8_from (ranges_or_empty (following b)) bytes
is_utf8_from ((low, high) ∷ ranges) (b ∷ bytes) =
    leb low b && leb b high && is_utf8_from ranges bytes

unfoldable pub is_utf8 : Bytes → Bool
unfolding is_utf8_from
is_utf8 bytes = is_utf8_from [] bytes
