-- ===== src/Repository/Utf8.antt =====
-- native/proc17_repository_fs.c: the test of a text for UTF-8.
pub mod Scalars
use proc.Base.{
  ℕ, zero, suc, ◌+◌, ◌-◌, ◌*◌, ◌/◌, ◌%◌, ◌<◌, ◌≤◌, Bool, true, false, not, ◌&&◌, ◌||◌, ◌==◌, ◌!=◌,
  leb, ltb, if◌then◌else◌, List, [], ◌∷◌, ◌++◌, length, drop, ◌≡◌, ◌↔◌, ◌⊎◌, inl, inr, refl, arith,
}

-- value[i], behind the test that there is such a byte
abbrev pub byte_at : List ℕ → ℕ → ℕ
byte_at [] i = 0
byte_at (b ∷ value) zero = b
byte_at (b ∷ value) (suc i) = byte_at value i

-- !(byte < low || byte > high)
abbrev pub between : ℕ → ℕ → ℕ → Bool
between low high byte = leb low byte && leb byte high

unfoldable pub two_valid : List ℕ → Bool
two_valid value = leb 2 (length value) && between 0x80 0xbf (byte_at value 1)

unfoldable pub three_valid : ℕ → List ℕ → Bool
three_valid first value =
    leb 3 (length value)
    && between 0x80 0xbf (byte_at value 2)
    && (if first == 0xe0
        then between 0xa0 0xbf (byte_at value 1)
        else if first == 0xed
        then between 0x80 0x9f (byte_at value 1)
        else between 0x80 0xbf (byte_at value 1))

unfoldable pub four_valid : ℕ → List ℕ → Bool
four_valid first value =
    leb 4 (length value)
    && between 0x80 0xbf (byte_at value 2)
    && between 0x80 0xbf (byte_at value 3)
    && (if first == 0xf0
        then between 0x90 0xbf (byte_at value 1)
        else if first == 0xf4
        then between 0x80 0x8f (byte_at value 1)
        else between 0x80 0xbf (byte_at value 1))

-- How many bytes the sequence at the start has, 0 if it is refused.
unfoldable pub sequence_bytes : List ℕ → ℕ
sequence_bytes value =
    let first = byte_at value 0 in
    if first == 0
    then 0
    else if leb first 0x7f
    then 1
    else if between 0xc2 0xdf first
    then (if two_valid value then 2 else 0)
    else if between 0xe0 0xef first
    then (if three_valid first value then 3 else 0)
    else if between 0xf0 0xf4 first
    then (if four_valid first value then 4 else 0)
    else 0

-- while (index < length), for at most `turns` turns
unfoldable pub utf8_loop : ℕ → List ℕ → Bool
utf8_loop zero value = length value == 0
utf8_loop (suc turns) value =
    let rest = utf8_loop turns (drop (sequence_bytes value) value) in
    if length value == 0 then true else if sequence_bytes value == 0 then false else rest

unfoldable pub valid_utf8_text : List ℕ → Bool
valid_utf8_text value = utf8_loop (length value) value
