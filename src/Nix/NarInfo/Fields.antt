-- ===== src/Nix/NarInfo/Fields.antt =====
-- The lines of a narinfo: a text of keys and values is read back as the table of them.
use gachix.Prelude.{
  ℕ, ◌+◌, ◌≤◌, ◌<◌, ◌≡◌, ◌≢◌, refl, ap, ap₂, sym, ◌∙◌, Bool, true, not, ◌&&◌, ltb, ◌==◌, and-true,
  some, List, [], ◌∷◌, ◌++◌, map, append_assoc, All, All-append, All-map, subst, ok, arith,
}
use gachix.Bytes.{Bytes, bytes}
use gachix.Text.{newline, carriage_return, starts_with, drop, split_once, lines, join}
use gachix.Text.Lines.{Lacks, IsLine, lines-join}
use gachix.Text.Trim.{trim}
use gachix.Text.Visible.{
  IsVisible, IsAscii, Opens, IsTrimmed, word-IsTrimmed, trim-eq, trim-newline, LastCloses,
  join-Opens, join-Closes, Closes-Opens,
}
use gachix.Nix.NarInfo.{Table, parse_line, parse_lines, field_line}

-- A printing ASCII character or the space.
abbrev pub IsPrintable : ℕ → Type 0
IsPrintable c = (32 ≤ c) × (c < 127)

-- What may stand behind a key.
abbrev pub IsValue : Bytes → Type 0
IsValue v = IsTrimmed v × All IsPrintable v

abbrev pub IsKey : Bytes → Type 0
IsKey k = (k ≢ []) × All (λ c. IsVisible c × (c ≢ b':')) k

-- The same as a test.
unfoldable pub is_key : Bytes → Bool
is_key [] = true
is_key (c ∷ k) = (ltb 32 c && (ltb c 127 && not (c == b':'))) && is_key k

is_key-All : (k : Bytes) → is_key k ≡ true → All (λ c. IsVisible c × (c ≢ b':')) k
unfolding is_key
is_key-All [] h = tt
is_key-All (c ∷ k) h =
    let (this, rest) = and-true _ (is_key k) h in ((ground arith, ground arith), is_key-All k rest)

pub is_key-IsKey : (c : ℕ) (k : Bytes) → is_key (c ∷ k) ≡ true → IsKey (c ∷ k)
is_key-IsKey c k h = (λ e. cc, is_key-All (c ∷ k) h)

abbrev pub IsField : Bytes × Bytes → Type 0
IsField kv = IsKey kv.0 × IsValue kv.1

pub word-IsValue : (s : Bytes) → All IsVisible s → IsValue s
word-IsValue s h =
    (word-IsTrimmed s h, All-map IsVisible IsPrintable (λ c v. (omega arith, omega arith)) s h)

-- The lines, each with its end.
abbrev pub text : List (Bytes × Bytes) → Bytes
text [] = []
text ((k, v) ∷ []) = field_line k v
text ((k, v) ∷ kv ∷ rest) = field_line k v ++ text (kv ∷ rest)

abbrev pub line : Bytes × Bytes → Bytes
line (k, v) = k ++ (bytes ": " ++ v)

field_line-eq : (k v : Bytes) → field_line k v ≡ line (k, v) ++ newline ∷ []
unfolding field_line bytes
field_line-eq k v = sym (append_assoc k (bytes ": " ++ v) (newline ∷ []))

text-eq-join :
    (kv : Bytes × Bytes) (rest : List (Bytes × Bytes))
    → text (kv ∷ rest) ≡ join (newline ∷ []) (map line (kv ∷ rest)) ++ newline ∷ []
unfolding join
text-eq-join (k, v) [] = field_line-eq k v
text-eq-join (k, v) (kv ∷ rest) =
    ap₂ (λ s t. s ++ t) (field_line-eq k v) (text-eq-join kv rest)
    ∙ append_assoc (line (k, v)) (newline ∷ []) _
    ∙ sym (
        append_assoc (line (k, v)) (newline ∷ join (newline ∷ []) (map line (kv ∷ rest)))
          (newline ∷ []))

printable-Lacks : (c : ℕ) → c < 32 → (s : Bytes) → All IsPrintable s → Lacks c s
printable-Lacks c h s = All-map IsPrintable (λ b. b ≢ c) (λ b v e. omega arith) s

line-IsPrintable : (kv : Bytes × Bytes) → IsField kv → All IsPrintable (line kv)
unfolding bytes
line-IsPrintable (k, v) ((ne, key), (trimmed, value)) =
    All-append IsPrintable k (bytes ": " ++ v)
      (All-map (λ c. IsVisible c × (c ≢ b':')) IsPrintable (λ c h. (omega arith, omega arith)) k
        key)
      ((omega arith, omega arith), ((omega arith, omega arith), value))

line-ne-nil : (kv : Bytes × Bytes) → IsField kv → line kv ≢ []
line-ne-nil ([], v) ((ne, key), value) e = ne refl
line-ne-nil (c ∷ k, v) h e = cc

line-Opens : (kv : Bytes × Bytes) → IsField kv → Opens (line kv)
line-Opens ([], v) h = absurd (h.0.0 refl)
line-Opens (c ∷ k, v) h = h.0.1.0.0

line-IsLine : (kv : Bytes × Bytes) → IsField kv → IsLine (line kv)
line-IsLine kv h = (
  line-ne-nil kv h,
  printable-Lacks newline (omega arith) (line kv) (line-IsPrintable kv h),
  printable-Lacks carriage_return (omega arith) (line kv) (line-IsPrintable kv h),
)

lines-IsLine : (kvs : List (Bytes × Bytes)) → All IsField kvs → All IsLine (map line kvs)
lines-IsLine [] h = tt
lines-IsLine (kv ∷ kvs) (h, hs) = (line-IsLine kv h, lines-IsLine kvs hs)

split_once-key :
    (k v : Bytes)
    → All (λ c. IsVisible c × (c ≢ b':')) k
    → split_once (bytes ": ") (k ++ (bytes ": " ++ v)) ≡ some (k, v)
unfolding split_once starts_with drop bytes
split_once-key [] v h = refl
split_once-key (c ∷ k) v ((_, ne), h) = ground (arith, split_once-key k v h)

parse_line-eq : (i : ℕ) (kv : Bytes × Bytes) → IsField kv → parse_line i (line kv) ≡ ok kv
unfolding parse_line
parse_line-eq i (k, v) ((ne, key), (trimmed, value)) = rw (
  parse_line,
  split_once-key k v key,
  trim-eq k
      (word-IsTrimmed k (All-map (λ c. IsVisible c × (c ≢ b':')) IsVisible (λ c h. h.0) k key)),
  trim-eq v trimmed,
)

field_line-IsAscii : (kv : Bytes × Bytes) → IsField kv → All IsAscii (field_line kv.0 kv.1)
field_line-IsAscii (k, v) h = subst (All IsAscii) (sym (field_line-eq k v)) (
    All-append IsAscii (line (k, v)) (newline ∷ [])
      (All-map IsPrintable IsAscii (λ c p. omega arith) (line (k, v)) (line-IsPrintable (k, v) h))
      (omega arith, tt))

pub text-IsAscii : (kvs : List (Bytes × Bytes)) → All IsField kvs → All IsAscii (text kvs)
text-IsAscii [] h = tt
text-IsAscii (kv ∷ []) (h, hs) = field_line-IsAscii kv h
text-IsAscii (kv ∷ next ∷ rest) (h, hs) =
    All-append IsAscii (field_line kv.0 kv.1) (text (next ∷ rest)) (field_line-IsAscii kv h)
      (text-IsAscii (next ∷ rest) hs)

-- The table after these lines.
abbrev pub onto : List (Bytes × Bytes) → Table → Table
onto [] table = table
onto (kv ∷ rest) table = onto rest (kv ∷ table)

parse_lines-eq :
    (i : ℕ) (kvs : List (Bytes × Bytes)) (table : Table)
    → All IsField kvs
    → parse_lines i (map line kvs) table ≡ ok (onto kvs table)
unfolding parse_lines
parse_lines-eq i [] table h = refl
parse_lines-eq i (kv ∷ kvs) table (h, hs) =
    rw (parse_line-eq i kv h) (parse_lines-eq (i + 1) kvs (kv ∷ table) hs)

-- The whole text, trimmed and cut into lines, gives the table.
pub parse_lines-text :
    (kv : Bytes × Bytes) (rest : List (Bytes × Bytes))
    → All IsField (kv ∷ rest)
    → LastCloses (map line (kv ∷ rest))
    → parse_lines 0 (lines (trim (text (kv ∷ rest)))) [] ≡ ok (onto (kv ∷ rest) [])
parse_lines-text kv rest h last =
    let (some_byte, first) =
      join-Opens (newline ∷ []) (line kv) (map line rest) (line-ne-nil kv h.0)
        (line-Opens kv h.0) in
    let ends = Closes-Opens _ (join-Closes (newline ∷ []) (line kv) (map line rest) last) in
    ap (λ s. parse_lines 0 (lines s) [])
      (ap trim (text-eq-join kv rest) ∙ trim-newline _ some_byte (first, ends))
    ∙ ap (λ ls. parse_lines 0 ls [])
        (lines-join (line kv) (map line rest) (lines-IsLine (kv ∷ rest) h))
    ∙ parse_lines-eq 0 (kv ∷ rest) [] h
