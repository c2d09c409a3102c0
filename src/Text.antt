-- ===== src/Text.antt =====
-- The functions of `str` that the program uses, on the bytes of a text.
pub mod Trim
pub mod Decimal
pub mod Split
pub mod Visible
pub mod Lines
use gachix.Prelude.{
  ℕ, zero, suc, ◌-◌, Bool, true, false, ◌&&◌, Option, none, some, List, [], ◌∷◌, ◌++◌, length, ◌==◌,
  if◌then◌else◌,
}
use gachix.Bytes.{Bytes, bytes}

abbrev pub newline : ℕ
newline = 10

abbrev pub carriage_return : ℕ
carriage_return = 13

unfoldable pub starts_with : Bytes → Bytes → Bool
starts_with [] s = true
starts_with (p ∷ ps) [] = false
starts_with (p ∷ ps) (c ∷ s) = (p == c) && starts_with ps s

unfoldable pub drop : ℕ → Bytes → Bytes
drop zero s = s
drop (suc n) [] = []
drop (suc n) (c ∷ s) = drop n s

abbrev pub cons_first : ℕ → Option (Bytes × Bytes) → Option (Bytes × Bytes)
cons_first c none = none
cons_first c (some (a, b)) = some (c ∷ a, b)

-- `s.split_once(pat)`, for a pattern that is not empty.
unfoldable pub split_once : Bytes → Bytes → Option (Bytes × Bytes)
split_once pat [] = none
split_once pat (c ∷ s) =
    let later = cons_first c (split_once pat s) in
    if starts_with pat (c ∷ s) then some ([], drop (length pat) (c ∷ s)) else later

abbrev pub cons_piece : ℕ → List Bytes → List Bytes
cons_piece c [] = (c ∷ []) ∷ []
cons_piece c (p ∷ ps) = (c ∷ p) ∷ ps

-- `s.split(c)`: the pieces between the bytes `c`, at least one.
unfoldable pub split_on : ℕ → Bytes → List Bytes
split_on c [] = [] ∷ []
split_on c (b ∷ s) = let rest = split_on c s in if b == c then [] ∷ rest else cons_piece b rest

-- `s.split(pat)`: `skip` bytes belong to a match that was found.
unfoldable pub split_scan : Bytes → ℕ → Bytes → List Bytes
split_scan pat skip [] = [] ∷ []
split_scan pat (suc skip) (b ∷ s) = split_scan pat skip s
split_scan pat zero (b ∷ s) =
    let matched = [] ∷ split_scan pat (length pat - 1) s in
    let other = cons_piece b (split_scan pat 0 s) in
    if starts_with pat (b ∷ s) then matched else other

unfoldable pub split_str : Bytes → Bytes → List Bytes
unfolding split_scan
split_str pat s = split_scan pat 0 s

unfoldable pub get_last : Bytes → List Bytes → Bytes
get_last p [] = p
get_last p (q ∷ qs) = get_last q qs

-- A line without the carriage return at its end.
unfoldable pub chomp : Bytes → Bytes
chomp [] = []
chomp (c ∷ []) = if c == carriage_return then [] else c ∷ []
chomp (c ∷ d ∷ s) = c ∷ chomp (d ∷ s)

-- The pieces between newlines, without an empty piece at the end. A piece before a newline loses the
-- carriage return at its end.
unfoldable pub line_pieces : List Bytes → List Bytes
line_pieces [] = []
line_pieces ([] ∷ []) = []
line_pieces ((c ∷ p) ∷ []) = (c ∷ p) ∷ []
line_pieces (p ∷ q ∷ ps) = chomp p ∷ line_pieces (q ∷ ps)

-- `s.lines()`
unfoldable pub lines : Bytes → List Bytes
lines s = line_pieces (split_on newline s)

-- `ss.join(sep)`
unfoldable pub join : Bytes → List Bytes → Bytes
join sep [] = []
join sep (s ∷ []) = s
join sep (s ∷ t ∷ ss) = s ++ (sep ++ join sep (t ∷ ss))
