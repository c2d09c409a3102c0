-- ===== src/Bytes/Utf8.antt =====
-- `String::from_utf8`: which byte strings are well-formed UTF-8 (the table of the Unicode standard).
pub mod Lossy
pub mod Range
use gachix.Prelude.{
  ℕ, zero, suc, Bool, true, false, ◌&&◌, Option, none, some, List, [], ◌∷◌, leb, ltb, ◌==◌,
  if◌then◌else◌,
}

-- After a lead byte: how many bytes follow, and the range of the first of them.
unfoldable pub lead : ℕ → Option (ℕ × ℕ × ℕ)
lead b =
    if ltb b 0x80
    then some (0, 0x80, 0xbf)
    else if leb 0xc2 b && leb b 0xdf
    then some (1, 0x80, 0xbf)
    else if b == 0xe0
    then some (2, 0xa0, 0xbf)
    else if b == 0xed
    then some (2, 0x80, 0x9f)
    else if leb 0xe1 b && leb b 0xef
    then some (2, 0x80, 0xbf)
    else if b == 0xf0
    then some (3, 0x90, 0xbf)
    else if leb 0xf1 b && leb b 0xf3
    then some (3, 0x80, 0xbf)
    else if b == 0xf4
    then some (3, 0x80, 0x8f)
    else none

-- `need` bytes are still to come, the next of them from `lo` to `hi`.
unfoldable pub scan : ℕ → ℕ → ℕ → List ℕ → Bool
scan zero lo hi [] = true
scan (suc need) lo hi [] = false
scan zero lo hi (b ∷ bs) = elim (lead b) [ none ↦ false | some (n, l, h) ↦ scan n l h bs ]
scan (suc need) lo hi (b ∷ bs) = (leb lo b && leb b hi) && scan need 0x80 0xbf bs

unfoldable pub is_utf8 : List ℕ → Bool
unfolding scan lead
is_utf8 bs = scan 0 0x80 0xbf bs
