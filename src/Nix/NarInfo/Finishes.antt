-- ===== src/Nix/NarInfo/Finishes.antt =====
-- Parsing a narinfo does not depend on a bound.
use gachix.Prelude.{
  ◌+◌, ◌-◌, ◌*◌, ◌^◌, leb, ltb, ◌&&◌, missing_separator, no_file_name, missing_key, invalid_line, ℕ,
  not, Option, none, some, List, [], ◌∷◌, Result, ok, err, length, ◌==◌, Finishes, ok-Finishes,
  err-Finishes, if-holds, and_then-Finishes, map_all-Finishes,
}
use gachix.Bytes.{Bytes, bytes}
use gachix.Bytes.Utf8.{is_utf8}
use gachix.Text.{lines, split_on, split_once}
use gachix.Text.Trim.{trim}
use gachix.Text.Decimal.{parse_u64, read_digits, in_range, read_unsigned}
use gachix.Nix.StorePath
use gachix.Nix.StorePath.{NixPath, file_name, checked, split_stem}
use gachix.Nix.NarInfo.{
  Table, lookup, parse_line, parse_lines, get, parse_deriver, parse_references, parse_table, parse,
}

checked-Finishes : (path : Bytes) (parts : Bytes × Bytes) → Finishes (checked path parts)
unfolding checked
checked-Finishes path (hash, name) =
    if-holds Finishes (not (length hash == 32)) _ _ (err-Finishes _ (λ h. cc)) (ok-Finishes _)

split_stem-Finishes : (path stem : Bytes) → Finishes (split_stem path stem)
unfolding split_stem
split_stem-Finishes path stem = go (split_once (bytes "-") stem)
  where
    go :
        (o : Option (Bytes × Bytes))
        → Finishes (elim o [ none ↦ err missing_separator | some parts ↦ checked path parts ])
    go none = err-Finishes _ (λ h. cc)
    go (some parts) = checked-Finishes path parts

pub new-Finishes : (s : Bytes) → Finishes (StorePath.new s)
unfolding StorePath.new
new-Finishes s =
    if-holds Finishes (not (is_utf8 s)) _ _ (err-Finishes _ (λ h. cc)) (go (file_name s))
  where
    go :
        (o : Option Bytes)
        → Finishes (elim o [ none ↦ err no_file_name | some stem ↦ split_stem (trim s) stem ])
    go none = err-Finishes _ (λ h. cc)
    go (some stem) = split_stem-Finishes (trim s) stem

get-Finishes : (t : Table) (k : Bytes) → Finishes (get t k)
unfolding get
get-Finishes t k = go (lookup k t)
  where
    go : (o : Option Bytes) → Finishes (elim o [ none ↦ err (missing_key k) | some v ↦ ok v ])
    go none = err-Finishes _ (λ h. cc)
    go (some v) = ok-Finishes v

read_digits-Finishes : (n : ℕ) (s : Bytes) → Finishes (read_digits n s)
unfolding read_digits
read_digits-Finishes n [] = ok-Finishes n
read_digits-Finishes n (c ∷ s) =
    if-holds Finishes (leb b'0' c && leb c b'9') _ _ (read_digits-Finishes (n * 10 + (c - b'0')) s)
      (err-Finishes _ (λ h. cc))

in_range-Finishes : (x : Result ℕ) → Finishes x → Finishes (in_range x)
unfolding in_range
in_range-Finishes (ok n) h =
    if-holds Finishes (ltb n (2 ^ 64)) _ _ (ok-Finishes n) (err-Finishes _ (λ h. cc))
in_range-Finishes (err e) h = h

read_unsigned-Finishes : (s : Bytes) → Finishes (read_unsigned s)
unfolding read_unsigned
read_unsigned-Finishes [] = err-Finishes _ (λ h. cc)
read_unsigned-Finishes (c ∷ s) = in_range-Finishes _ (read_digits-Finishes 0 (c ∷ s))

parse_u64-Finishes : (s : Bytes) → Finishes (parse_u64 s)
unfolding parse_u64
parse_u64-Finishes [] = err-Finishes _ (λ h. cc)
parse_u64-Finishes (c ∷ s) =
    if-holds Finishes (c == b'+') _ _ (read_unsigned-Finishes s) (read_unsigned-Finishes (c ∷ s))

parse_deriver-Finishes : (s : Bytes) → Finishes (parse_deriver s)
unfolding parse_deriver
parse_deriver-Finishes [] = ok-Finishes _
parse_deriver-Finishes (c ∷ s) = and_then-Finishes _ _ (new-Finishes (c ∷ s)) (λ p. ok-Finishes _)

parse_references-Finishes : (s : Bytes) → Finishes (parse_references s)
unfolding parse_references
parse_references-Finishes [] = ok-Finishes _
parse_references-Finishes (c ∷ s) =
    map_all-Finishes StorePath.new new-Finishes (split_on b' ' (c ∷ s))

ruleset field_rules = (
  ok-Finishes, and_then-Finishes, get-Finishes, parse_u64-Finishes, parse_deriver-Finishes,
  parse_references-Finishes, new-Finishes,
)

parse_table-Finishes : (t : Table) → Finishes (parse_table t)
unfolding parse_table
parse_table-Finishes t = search (field_rules) depth 40

parse_line-Finishes : (n : ℕ) (line : Bytes) → Finishes (parse_line n line)
unfolding parse_line
parse_line-Finishes n line = go (split_once (bytes ": ") line)
  where
    go :
        (o : Option (Bytes × Bytes))
        → Finishes {A = Bytes × Bytes}
            (elim o [ none ↦ err (invalid_line n line) | some (k, v) ↦ ok (trim k, trim v) ])
    go none = err-Finishes _ (λ h. cc)
    go (some kv) = ok-Finishes _

parse_lines-Finishes : (n : ℕ) (ls : List Bytes) (t : Table) → Finishes (parse_lines n ls t)
unfolding parse_lines
parse_lines-Finishes n [] t = ok-Finishes t
parse_lines-Finishes n (l ∷ ls) t =
    and_then-Finishes (parse_line n l) _ (parse_line-Finishes n l)
      (λ kv. parse_lines-Finishes (n + 1) ls (kv ∷ t))

pub parse-Finishes : (content : Bytes) → Finishes (parse content)
unfolding parse
parse-Finishes content =
    and_then-Finishes _ _ (parse_lines-Finishes 0 (lines (trim content)) []) parse_table-Finishes
