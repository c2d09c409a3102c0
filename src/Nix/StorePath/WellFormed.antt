-- ===== src/Nix/StorePath/WellFormed.antt =====
-- What `NixPath::new` guarantees of the paths that it returns.
use gachix.Prelude.{◌≡◌, some, ok, length, ◌++◌, ap, subst, All, All-left, ◌∙◌}
use gachix.Bytes.{Bytes, bytes}
use gachix.Bytes.Utf8.Range.{IsByte, is_utf8-IsByte}
use gachix.Text.Split.{split_once-append}
use gachix.Text.Trim.{trim}
use gachix.Nix.StorePath.Found.{new-Found}
use gachix.Nix.StorePath.Pieces.{file_name-All}
use gachix.Nix.StorePath.{NixPath, file_name, new}

-- A hash of 32 bytes.
abbrev pub IsHash : Bytes → Type 0
IsHash h = (length h ≡ 32) × All IsByte h

abbrev pub HasHash : NixPath → Type 0
HasHash p = IsHash p.hash

-- A path that `new` returns has a hash of 32 bytes, which are all below 256; it is the argument without white space at its
-- ends; and the hash, a dash and the name make up the last component of the argument.
pub new-HasHash :
    (s : Bytes) (p : NixPath)
    → new s ≡ ok p
    → HasHash p × (p.path ≡ trim s) × (file_name s ≡ some (p.hash ++ (bytes "-" ++ p.name)))
new-HasHash s p h =
    let f = new-Found s p h in
    let whole = split_once-append (bytes "-") f.stem p.hash p.name f.parts in
    let stem_bytes = file_name-All IsByte s f.stem (is_utf8-IsByte s f.is_text) f.is_name in
    (
      (f.size, All-left IsByte p.hash _ (subst (All IsByte) whole stem_bytes)),
      f.is_trimmed,
      f.is_name ∙ ap some whole,
    )
