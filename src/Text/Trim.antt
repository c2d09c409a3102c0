-- ===== src/Text/Trim.antt =====
-- `str::trim`: the characters of Unicode's White_Space at both ends, by their UTF-8 bytes. At the end
-- the bytes of a character are met in reverse.
use mathlib.Core.List.{reverse}
use gachix.Prelude.{
  ℕ, zero, suc, Bool, ◌&&◌, ◌||◌, Option, none, some, [], ◌∷◌, length, leb, ◌==◌, if◌then◌else◌,
}
use gachix.Bytes.{Bytes}

-- Tab to carriage return, and the space.
abbrev one_byte : ℕ → Bool
one_byte a = (leb 9 a && leb a 13) || (a == 32)

-- U+0085 and U+00A0
abbrev two_bytes : ℕ → ℕ → Bool
two_bytes a b = (a == 0xc2) && ((b == 0x85) || (b == 0xa0))

-- U+1680, U+2000 to U+200A, U+2028, U+2029, U+202F, U+205F and U+3000
abbrev three_bytes : ℕ → ℕ → ℕ → Bool
three_bytes a b c =
    ((a == 0xe1) && ((b == 0x9a) && (c == 0x80)))
    || (((a == 0xe2)
          && ((b == 0x80)
              && ((leb 0x80 c && leb c 0x8a) || ((c == 0xa8) || ((c == 0xa9) || (c == 0xaf))))))
        || (((a == 0xe2) && ((b == 0x81) && (c == 0x9f)))
            || ((a == 0xe3) && ((b == 0x80) && (c == 0x80)))))

-- The text after the white space character that it begins with.
unfoldable pub skip_space : Bytes → Option Bytes
skip_space [] = none
skip_space (a ∷ []) = if one_byte a then some [] else none
skip_space (a ∷ b ∷ []) =
    if one_byte a then some (b ∷ []) else if two_bytes a b then some [] else none
skip_space (a ∷ b ∷ c ∷ s) =
    if one_byte a
    then some (b ∷ c ∷ s)
    else if two_bytes a b
    then some (c ∷ s)
    else if three_bytes a b c
    then some s
    else none

-- The same of a reversed text.
unfoldable pub skip_space_back : Bytes → Option Bytes
skip_space_back [] = none
skip_space_back (a ∷ []) = if one_byte a then some [] else none
skip_space_back (b ∷ a ∷ []) =
    if one_byte b then some (a ∷ []) else if two_bytes a b then some [] else none
skip_space_back (c ∷ b ∷ a ∷ s) =
    if one_byte c
    then some (b ∷ a ∷ s)
    else if two_bytes b c
    then some (a ∷ s)
    else if three_bytes a b c
    then some s
    else none

-- Every step takes a byte at least, so the length of the text is fuel enough.
unfoldable pub strip : (Bytes → Option Bytes) → ℕ → Bytes → Bytes
strip skip zero s = s
strip skip (suc fuel) s = elim (skip s) [ none ↦ s | some rest ↦ strip skip fuel rest ]

unfoldable pub trim_start : Bytes → Bytes
trim_start s = strip skip_space (length s) s

unfoldable pub trim_end : Bytes → Bytes
trim_end s = reverse (strip skip_space_back (length s) (reverse s))

unfoldable pub trim : Bytes → Bytes
trim s = trim_end (trim_start s)
