-- ===== src/Nar/Format.antt =====
-- The archive format, independent of the code: a file system object, the strings that its archive
-- consists of, and the bytes of a string. An object is archived as
--   "(" "type" then one of
--   "regular" ["executable" ""] "contents" CONTENTS ")"
--   "symlink" "target" TARGET ")"
--   "directory" { "entry" "(" "name" NAME "node" OBJECT ")" } ")"
-- and a string as its length in eight bytes, its bytes, and zeros up to a multiple of eight.
use gachix.Prelude.{
  ℕ, ◌-◌, ◌%◌, ◌≡◌, refl, ap, Bool, true, false, List, [], ◌∷◌, ◌++◌, length, replicate,
  append_assoc, ltb, arith, ◌≤◌, length-append,
}
use gachix.Bytes.{Bytes, bytes}
use gachix.Bytes.LittleEndian.{to_le_bytes, length-to_le_bytes}

mutual
  pub data Node : Type 0 where
    regular : Bool → Bytes → Node
    symlink : Bytes → Node
    directory : Entries → Node

  pub data Entries : Type 0 where
    no_entries : Entries
    entry : Bytes → Node → Entries → Entries

abbrev pub executable_strings : Bool → List Bytes
executable_strings true = bytes "executable" ∷ bytes "" ∷ []
executable_strings false = []

unfoldable mutual
  pub strings : Node → List Bytes
  strings (regular x c) =
      bytes "("
      ∷ bytes "type"
      ∷ bytes "regular"
      ∷ (executable_strings x ++ bytes "contents" ∷ c ∷ bytes ")" ∷ [])
  strings (symlink t) =
      bytes "(" ∷ bytes "type" ∷ bytes "symlink" ∷ bytes "target" ∷ t ∷ bytes ")" ∷ []
  strings (directory es) =
      bytes "(" ∷ bytes "type" ∷ bytes "directory" ∷ (entry_strings es ++ bytes ")" ∷ [])

  pub entry_strings : Entries → List Bytes
  entry_strings no_entries = []
  entry_strings (entry name n es) =
      bytes "entry"
      ∷ bytes "("
      ∷ bytes "name"
      ∷ name
      ∷ bytes "node"
      ∷ (strings n ++ bytes ")" ∷ entry_strings es)

-- The zeros that fill a string of this length up.
unfoldable pub padding : ℕ → Bytes
padding n = replicate ((8 - n % 8) % 8) 0

unfoldable pub padded : Bytes → Bytes
padded s = to_le_bytes (length s) ++ (s ++ padding (length s))

-- The bytes of the strings, with `rest` behind them.
unfoldable pub written : List Bytes → Bytes → Bytes
written [] rest = rest
written (s ∷ ss) rest = padded s ++ written ss rest

-- The archive of a file system object.
unfoldable pub archive : Node → Bytes
archive n = written (bytes "nix-archive-1" ∷ strings n) []

pub written-append :
    (ss ts : List Bytes) (rest : Bytes) → written (ss ++ ts) rest ≡ written ss (written ts rest)
unfolding written
written-append [] ts rest = refl
written-append (s ∷ ss) ts rest = ap (λ w. padded s ++ w) (written-append ss ts rest)

pub written_rest : (ss : List Bytes) (rest : Bytes) → written ss rest ≡ written ss [] ++ rest
unfolding written
written_rest [] rest = refl
written_rest (s ∷ ss) rest = rw (written_rest ss rest, append_assoc)

pub padding_some : (n : ℕ) → ltb 0 (n % 8) ≡ true → padding n ≡ replicate (8 - n % 8) 0
unfolding padding
padding_some n h = ap (λ k. replicate k 0) (ground arith)

pub padding_none : (n : ℕ) → ltb 0 (n % 8) ≡ false → padding n ≡ []
unfolding padding
padding_none n h = ap (λ k. replicate k 0) (zeros n h)
  where
    zeros : (n : ℕ) → ltb 0 (n % 8) ≡ false → (8 - n % 8) % 8 ≡ 0
    zeros n h = ground arith

pub length-padded : (s : Bytes) → 8 ≤ length (padded s)
unfolding padded
length-padded s = omega (
  arith,
  length-append (to_le_bytes (length s)) (s ++ padding (length s)),
  length-to_le_bytes (length s),
)

-- Every string takes some bytes.
pub length-written : (ss : List Bytes) (rest : Bytes) → length ss ≤ length (written ss rest)
unfolding written
length-written [] rest = omega arith
length-written (s ∷ ss) rest =
    omega
      (arith, length-append (padded s) (written ss rest), length-padded s, length-written ss rest)
