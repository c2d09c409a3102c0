-- ===== src/Nix/StorePath.antt =====
-- src/nix_interface/path.rs: `NixPath`. A path is its bytes, as on Unix; `to_str` succeeds on UTF-8.
pub mod WellFormed
pub mod Found
pub mod Pieces
pub mod BaseName
use gachix.Prelude.{
  ℕ, Bool, not, Option, none, some, List, [], ◌∷◌, Result, ok, err, invalid_utf8, no_file_name,
  missing_separator, invalid_hash, length, ◌==◌, if◌then◌else◌, and_then, ◌&&◌, ◌||◌,
}
use gachix.Bytes.{Bytes, bytes, bytes_eq}
use gachix.Bytes.Utf8.{is_utf8}
use gachix.Text.{split_on, split_once}
use gachix.Text.Trim.{trim}

pub record NixPath : Type 0 where
  pub path : Bytes
  pub hash : Bytes
  pub name : Bytes

-- The last component, where empty ones and `.` do not count.
unfoldable pub last_component : Option Bytes → List Bytes → Option Bytes
last_component found [] = found
last_component found (p ∷ ps) =
    last_component (if bytes_eq p [] || bytes_eq p (bytes ".") then found else some p) ps

unfoldable pub unless_parent : Option Bytes → Option Bytes
unless_parent none = none
unless_parent (some p) = if bytes_eq p (bytes "..") then none else some p

-- `Path::file_name`, of the standard library.
unfoldable pub file_name : Bytes → Option Bytes
file_name path = unless_parent (last_component none (split_on b'/' path))

-- The test of the length, and the result.
unfoldable pub checked : Bytes → Bytes × Bytes → Result NixPath
checked full_path (hash, name) =
    if not (length hash == 32)
    then err invalid_hash
    else ok (record { path = full_path; hash = hash; name = name })

unfoldable pub split_stem : Bytes → Bytes → Result NixPath
split_stem full_path stem = elim (split_once (bytes "-") stem) [
  | none ↦ err missing_separator
  | some parts ↦ checked full_path parts
]

-- `NixPath::new`. The components of a UTF-8 path are UTF-8.
unfoldable pub new : Bytes → Result NixPath
new path_like = if not (is_utf8 path_like) then err invalid_utf8 else elim (file_name path_like) [
  | none ↦ err no_file_name
  | some stem ↦ split_stem (trim path_like) stem
]

-- `PartialEq::eq`
unfoldable pub eq : NixPath → NixPath → Bool
eq p q = bytes_eq p.path q.path
