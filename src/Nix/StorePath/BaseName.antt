-- ===== src/Nix/StorePath/BaseName.antt =====
-- The last component of a store path is a store path again, with the same hash and name.
use gachix.Prelude.{
  ℕ, ◌<◌, ◌≡◌, ◌≢◌, ap, sym, ◌∙◌, false, Bool-cases, inl, inr, some, List, [], ◌∷◌, ◌++◌, ◌==◌,
  length, length-append, All, ok, arith,
}
use gachix.Bytes.{Bytes, bytes, bytes_eq, bytes_eq→eq}
use gachix.Text.{split_on, split_once, cons_piece}
use gachix.Text.Lines.{Lacks, split_on-sole}
use gachix.Text.Visible.{IsVisible, word-IsTrimmed, word-utf8, trim-eq}
use gachix.Nix.StorePath.{
  NixPath, last_component, unless_parent, file_name, checked, split_stem, new,
}
use gachix.Text.Split.{split_once-append}
use gachix.Nix.StorePath.Found.{new-Found}
use gachix.Nix.StorePath.Pieces.{file_name-All, file_name-pieces}

-- A path as `new` returns it, of visible characters.
abbrev pub IsPath : NixPath → Type 0
IsPath p = (new p.path ≡ ok p) × All IsVisible p.path

abbrev base : NixPath → Bytes
base p = p.hash ++ (bytes "-" ++ p.name)

-- The path that is left of a path in a list of references.
abbrev pub based : NixPath → NixPath
based p = record p { path = p.hash ++ (bytes "-" ++ p.name) }

split_on-Lacks : (c : ℕ) (s : Bytes) → All (Lacks c) (split_on c s)
unfolding split_on
split_on-Lacks c [] = (tt, tt)
split_on-Lacks c (b ∷ s) = elim (Bool-cases (b == c)) [
  | inl same ↦ rw same (tt, split_on-Lacks c s)
  | inr other ↦ rw other (onto (split_on c s) (ground arith) (split_on-Lacks c s))
]
  where
    onto : (ps : List Bytes) → b ≢ c → All (Lacks c) ps → All (Lacks c) (cons_piece b ps)
    onto [] ne h = ((ne, tt), tt)
    onto (p ∷ ps) ne (h, hs) = ((ne, h), hs)

bytes_eq-short : (s t : Bytes) → length t < length s → bytes_eq s t ≡ false
bytes_eq-short s t h = elim (Bool-cases (bytes_eq s t)) [
  | inl same ↦ absurd (omega (arith, ap length (bytes_eq→eq s t same)))
  | inr other ↦ other
]

file_name-sole : (s : Bytes) → Lacks b'/' s → 2 < length s → file_name s ≡ some s
unfolding file_name unless_parent last_component bytes
file_name-sole s h long = rw (
  split_on-sole b'/' s h,
  last_component,
  bytes_eq-short s [] (omega arith),
  bytes_eq-short s (bytes ".") (omega arith),
  bytes_eq-short s (bytes "..") (omega arith),
)

pub base-Lacks : (p : NixPath) → IsPath p → Lacks b'/' (based p).path
base-Lacks p (h, visible) =
    let f = new-Found p.path p h in
    file_name-pieces (λ b. b ≢ b'/') p.path (base p) (split_on-Lacks b'/' p.path)
      (f.is_name ∙ ap some (split_once-append (bytes "-") f.stem p.hash p.name f.parts))

-- The base name of a path is read as a path.
pub new-based : (p : NixPath) → IsPath p → new (based p).path ≡ ok (based p)
unfolding new split_stem checked
new-based p (h, visible) =
    let f = new-Found p.path p h in
    let whole : f.stem ≡ base p = split_once-append (bytes "-") f.stem p.hash p.name f.parts in
    let named : file_name p.path ≡ some (base p) = f.is_name ∙ ap some whole in
    let visible_base = file_name-All IsVisible p.path (base p) visible named in
    let long : 2 < length (base p) =
      omega (arith, f.size, length-append p.hash (bytes "-" ++ p.name)) in
    rw (
      word-utf8 (base p) visible_base,
      file_name-sole (base p) (base-Lacks p (h, visible)) long,
      split_stem,
      ap (split_once (bytes "-")) (sym whole) ∙ f.parts,
      trim-eq (base p) (word-IsTrimmed (base p) visible_base),
      checked,
      f.size,
    )

pub base-IsVisible : (p : NixPath) → IsPath p → All IsVisible (based p).path
base-IsVisible p (h, visible) =
    let f = new-Found p.path p h in
    file_name-All IsVisible p.path (base p) visible
      (f.is_name ∙ ap some (split_once-append (bytes "-") f.stem p.hash p.name f.parts))

pub base-ne-nil : (p : NixPath) → IsPath p → (based p).path ≢ []
base-ne-nil p (h, visible) e =
    let f = new-Found p.path p h in
    omega (arith, f.size, length-append p.hash (bytes "-" ++ p.name), ap length e)
