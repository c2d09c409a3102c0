-- ===== src/Nar/Decode/Tags.antt =====
-- The words of the archive format are short, UTF-8, and told apart.
use gachix.Prelude.{◌^◌, ◌<◌, ◌≡◌, refl, true, false, arith, length}
use gachix.Bytes.{Bytes, bytes, bytes_eq}
use gachix.Bytes.Utf8.{is_utf8}

abbrev pub IsTag : Bytes → Type 0
IsTag s = (length s < 2 ^ 63) × (is_utf8 s ≡ true)

pub open-IsTag : IsTag (bytes "(")
unfolding bytes is_utf8
open-IsTag = (omega arith, refl)

pub close-IsTag : IsTag (bytes ")")
unfolding bytes is_utf8
close-IsTag = (omega arith, refl)

pub type-IsTag : IsTag (bytes "type")
unfolding bytes is_utf8
type-IsTag = (omega arith, refl)

pub regular-IsTag : IsTag (bytes "regular")
unfolding bytes is_utf8
regular-IsTag = (omega arith, refl)

pub symlink-IsTag : IsTag (bytes "symlink")
unfolding bytes is_utf8
symlink-IsTag = (omega arith, refl)

pub directory-IsTag : IsTag (bytes "directory")
unfolding bytes is_utf8
directory-IsTag = (omega arith, refl)

pub executable-IsTag : IsTag (bytes "executable")
unfolding bytes is_utf8
executable-IsTag = (omega arith, refl)

pub empty-IsTag : IsTag (bytes "")
unfolding bytes is_utf8
empty-IsTag = (omega arith, refl)

pub contents-IsTag : IsTag (bytes "contents")
unfolding bytes is_utf8
contents-IsTag = (omega arith, refl)

pub target-IsTag : IsTag (bytes "target")
unfolding bytes is_utf8
target-IsTag = (omega arith, refl)

pub entry-IsTag : IsTag (bytes "entry")
unfolding bytes is_utf8
entry-IsTag = (omega arith, refl)

pub name-IsTag : IsTag (bytes "name")
unfolding bytes is_utf8
name-IsTag = (omega arith, refl)

pub node-IsTag : IsTag (bytes "node")
unfolding bytes is_utf8
node-IsTag = (omega arith, refl)

pub magic-IsTag : IsTag (bytes "nix-archive-1")
unfolding bytes is_utf8
magic-IsTag = (omega arith, refl)

pub contents_ne_executable : bytes_eq (bytes "contents") (bytes "executable") ≡ false
unfolding bytes bytes_eq
contents_ne_executable = refl

pub symlink_ne_regular : bytes_eq (bytes "symlink") (bytes "regular") ≡ false
unfolding bytes bytes_eq
symlink_ne_regular = refl

pub directory_ne_regular : bytes_eq (bytes "directory") (bytes "regular") ≡ false
unfolding bytes bytes_eq
directory_ne_regular = refl

pub directory_ne_symlink : bytes_eq (bytes "directory") (bytes "symlink") ≡ false
unfolding bytes bytes_eq
directory_ne_symlink = refl

pub close_ne_entry : bytes_eq (bytes ")") (bytes "entry") ≡ false
unfolding bytes bytes_eq
close_ne_entry = refl
