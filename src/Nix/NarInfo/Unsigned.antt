-- ===== src/Nix/NarInfo/Unsigned.antt =====
-- A narinfo without a signature, displayed and parsed.
use mathlib.Core.List.{reverse, reverse-append, reverse-reverse}
use gachix.Prelude.{
  ℕ, suc, ◌+◌, ◌≡◌, refl, ap, ap₂, sym, ◌∙◌, Bool-cases, inl, inr, none, some, List, [], ◌∷◌, ◌++◌,
  map, length, length-append, ◌==◌, append_assoc, Result, ok, err, Returns, and_then-Returns, Any,
  any, Error, arith, and_then,
}
use gachix.Bytes.{Bytes, bytes}
use gachix.Text.{
  starts_with, newline, split_on, split_once, lines, line_pieces, cons_piece, chomp, join,
}
use gachix.Text.Trim.{skip_space, skip_space_back, strip, trim_start, trim_end, trim}
use gachix.Nix.NarInfo.{
  NarInfo, Table, parse_line, parse_lines, parse_table, parse, to_string, field_line, unwrap_or,
  base_name, base_name_or_empty,
}
use gachix.Text.Decimal.{show_u64}

-- The end of the text, before and after it is trimmed.
abbrev blank_end : Bytes
blank_end = bytes "\nSig: \n"

abbrev trimmed_end : Bytes
trimmed_end = bytes "\nSig:"

skip_space-capital : (s : Bytes) → skip_space (b'S' ∷ s) ≡ none
unfolding skip_space
skip_space-capital [] = refl
skip_space-capital (a ∷ []) = refl
skip_space-capital (a ∷ b ∷ s) = refl

trim_start-capital : (s : Bytes) → trim_start (b'S' ∷ s) ≡ b'S' ∷ s
unfolding trim_start strip
trim_start-capital s =
    ap
      (λ o. elim o as (λ o. Bytes) [
        | none ↦ b'S' ∷ s
        | some rest ↦ strip skip_space (length s) rest
      ])
      (skip_space-capital s)

strip-blank :
    (k : ℕ) (s : Bytes)
    → strip skip_space_back (suc (suc (suc k))) (reverse blank_end ++ s) ≡ reverse trimmed_end ++ s
unfolding strip skip_space_back bytes
strip-blank k s = refl

length-blank : (s : Bytes) → length (s ++ blank_end) ≡ suc (suc (suc (length s + 4)))
unfolding bytes
length-blank s = omega (arith, length-append s blank_end)

trim_end-blank : (s : Bytes) → trim_end (s ++ blank_end) ≡ s ++ trimmed_end
unfolding trim_end
trim_end-blank s =
    ap₂ (λ k t. reverse (strip skip_space_back k t)) (length-blank s) (reverse-append s blank_end)
    ∙ ap reverse (strip-blank (length s + 4) (reverse s))
    ∙ ap reverse (sym (reverse-append s trimmed_end))
    ∙ reverse-reverse (s ++ trimmed_end)

abbrev EndsBlank : Bytes → Type 0
EndsBlank t = (s : Bytes) × (t ≡ s ++ blank_end)

append-EndsBlank : (w t : Bytes) → EndsBlank t → EndsBlank (w ++ t)
append-EndsBlank w t (s, e) = (w ++ s, ap (λ u. w ++ u) e ∙ sym (append_assoc w s blank_end))

-- The last value but one, and the line of the signature.
last_lines : (v : Bytes) → EndsBlank ((v ++ bytes "\n") ++ (bytes "Sig: " ++ ([] ++ bytes "\n")))
unfolding bytes
last_lines v = (v, append_assoc v (newline ∷ []) (bytes "Sig: \n"))

deriver_line :
    (v : Bytes)
    → EndsBlank (field_line (bytes "Deriver") v ++ (bytes "Sig: " ++ ([] ++ bytes "\n")))
unfolding field_line bytes
deriver_line v =
    append-EndsBlank (bytes "Deriver: ")
      ((v ++ bytes "\n") ++ (bytes "Sig: " ++ ([] ++ bytes "\n"))) (last_lines v)

capital : (t : Bytes) → EndsBlank t → (s : Bytes) × (b'S' ∷ t ≡ b'S' ∷ (s ++ blank_end))
capital t (s, e) = (s, ap (λ u. b'S' ∷ u) e)

abbrev appended : List Bytes → Bytes → Bytes
appended [] t = t
appended (w ∷ ws) t = w ++ appended ws t

appended-EndsBlank : (ws : List Bytes) (t : Bytes) → EndsBlank t → EndsBlank (appended ws t)
appended-EndsBlank [] t h = h
appended-EndsBlank (w ∷ ws) t h = append-EndsBlank w (appended ws t) (appended-EndsBlank ws t h)

-- The lines after the first, up to the deriver.
abbrev middle_lines : NarInfo → List Bytes
middle_lines n =
    field_line (bytes "URL") (unwrap_or n.url (bytes "nar/" ++ (n.key ++ bytes ".nar")))
    ∷ field_line (bytes "Compression") (unwrap_or n.compression_type (bytes "none"))
    ∷ field_line (bytes "FileHash") n.file_hash
    ∷ field_line (bytes "FileSize") (show_u64 n.file_size)
    ∷ field_line (bytes "NarHash") n.nar_hash
    ∷ field_line (bytes "NarSize") (show_u64 n.nar_size)
    ∷ field_line (bytes "References") (join (bytes " ") (map base_name n.references))
    ∷ []

-- The lines after the first, of a narinfo without a signature.
abbrev rest_of : NarInfo → Bytes
rest_of n = appended (middle_lines n) (
    field_line (bytes "Deriver") (base_name_or_empty n.deriver)
    ++ (bytes "Sig: " ++ ([] ++ bytes "\n")))

rest_of-EndsBlank : (n : NarInfo) → EndsBlank (rest_of n)
rest_of-EndsBlank n =
    appended-EndsBlank (middle_lines n) _ (deriver_line (base_name_or_empty n.deriver))

text_end :
    (n : NarInfo) → n.signature ≡ none → (s : Bytes) × (to_string n ≡ b'S' ∷ (s ++ blank_end))
unfolding to_string field_line bytes
text_end n h = rw h (
    capital (bytes "torePath: " ++ ((n.store_path.path ++ bytes "\n") ++ rest_of n)) (
      append-EndsBlank (bytes "torePath: ") _
        (append-EndsBlank (n.store_path.path ++ bytes "\n") (rest_of n) (rest_of-EndsBlank n))))

trim-end :
    (n : NarInfo) → n.signature ≡ none → (s : Bytes) × (trim (to_string n) ≡ s ++ trimmed_end)
unfolding trim
trim-end n h =
    let (s, e) = text_end n h in
    (
      b'S' ∷ s,
      ap trim_end (ap trim_start e ∙ trim_start-capital (s ++ blank_end))
          ∙ trim_end-blank (b'S' ∷ s),
    )

-- A line that does not parse comes last.
abbrev EndsBadly : List Bytes → Type 0
EndsBadly ls = (ps : List Bytes) × (ls ≡ ps ++ bytes "Sig:" ∷ [])

parse_lines-EndsBadly :
    (ps : List Bytes) (i : ℕ) (t : Table)
    → Returns (λ (u : Table). ⊥) (parse_lines i (ps ++ bytes "Sig:" ∷ []) t)
unfolding parse_lines parse_line split_once starts_with bytes
parse_lines-EndsBadly [] i t = tt
parse_lines-EndsBadly (p ∷ ps) i t =
    and_then-Returns Any (λ (u : Table). ⊥) (parse_line i p) _ (any (parse_line i p))
      (λ kv h. parse_lines-EndsBadly ps (i + 1) (kv ∷ t))

split_on-last :
    (s : Bytes)
    → (q : Bytes) × (qs : List Bytes) × (split_on newline (s ++ trimmed_end)
        ≡ (q ∷ qs) ++ bytes "Sig:" ∷ [])
unfolding split_on bytes
split_on-last [] = ([], [], refl)
split_on-last (c ∷ s) =
    let (q, qs, e) = split_on-last s in
    elim (Bool-cases (c == newline)) [
      | inl same ↦ ([], q ∷ qs, rw same (ap (λ ps. [] ∷ ps) e))
      | inr other ↦ (c ∷ q, qs, rw other (ap (cons_piece c) e))
    ]

line_pieces-last : (qs : List Bytes) → EndsBadly (line_pieces (qs ++ bytes "Sig:" ∷ []))
unfolding line_pieces bytes
line_pieces-last [] = ([], refl)
line_pieces-last (q ∷ []) = (chomp q ∷ [], refl)
line_pieces-last (q ∷ r ∷ qs) =
    let (ps, e) = line_pieces-last (r ∷ qs) in (chomp q ∷ ps, ap (λ ls. chomp q ∷ ls) e)

lines-last : (s : Bytes) → EndsBadly (lines (s ++ trimmed_end))
unfolding lines
lines-last s =
    let (q, qs, e) = split_on-last s in
    let (ps, j) = line_pieces-last (q ∷ qs) in (ps, ap line_pieces e ∙ j)

fails : {A : Type 0} (x : Result A) → Returns (λ (a : A). ⊥) x → (e : Error) × (x ≡ err e)
fails (ok a) h = absurd h
fails (err e) h = (e, refl)

-- The text of a narinfo without a signature does not parse.
pub parse-to_string_unsigned :
    (n : NarInfo) → n.signature ≡ none → (e : Error) × (parse (to_string n) ≡ err e)
unfolding parse
parse-to_string_unsigned n h =
    let (s, trimmed) = trim-end n h in
    let (ps, last) = lines-last s in
    let (e, failed) =
      fails (parse_lines 0 (ps ++ bytes "Sig:" ∷ []) []) (parse_lines-EndsBadly ps 0 []) in
    (
      e,
      ap (λ ls. and_then (parse_lines 0 ls []) parse_table) (ap lines trimmed ∙ last)
          ∙ ap (λ r. and_then r parse_table) failed,
    )
