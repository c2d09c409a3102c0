-- ===== src/GitStore/Closure/LiveTests.antt =====
-- `_add_closure` of a script that needs a library, which a daemon provides both.
use gachix.Prelude.{
  ℕ, ◌≡◌, ◌≤◌, ◌⊎◌, sym, refl, inl, inr, subst, none, some, [], ◌∷◌, ok, if◌then◌else◌, arith,
}
use gachix.Bytes.{Bytes, bytes, bytes_eq}
use gachix.Bytes.Utf8.{is_utf8}
use gachix.GitStore.Closure.Complete.{IsComplete}
use gachix.GitStore.Closure.Linked.{AllLinked}
use gachix.GitStore.Closure.Local.{add_local}
use gachix.GitStore.Daemons.{get_package_from_nix_daemons, parse_optional}
use gachix.GitStore.Database.{Database, database, database_refs, database_commits, database_store}
use gachix.GitStore.Samples.{unary, path, info, plain_hashes}
use gachix.Nix.StorePath
use gachix.Nix.StorePath.{NixPath}
use gachix.Nix.NarInfo.{NarInfo}
use gachix.Nix.StorePath.{last_component, unless_parent, file_name, checked, split_stem}
use gachix.Text.{starts_with, drop, split_on, split_once}
use gachix.Text.Trim.{skip_space, skip_space_back, strip, trim_start, trim_end, trim}
use gachix.Nix.NarInfo.{without_path}
use gachix.GitStore.Closure.Free.{AllPaired}
use gachix.GitStore.Closure.Provided.{IsProvided, add_local-Succeeds}
use gachix.GitStore.Closure.Tests.{lib_text, lib_daemon, no_remote, empty-AllLinked}
use gachix.GitStore.Database.{database_live, database_laws}
use gachix.Nar.Archivable.{IsArchivable}
use gachix.GitStore.Samples.{script}

abbrev lib : NixPath
lib = record {
  path = lib_text;
  hash = bytes "0c6kzph7l0dcbfmjap64f0czdafn3b7x";
  name = bytes "lib";
}

abbrev IsNeeded : NixPath → Type 0
IsNeeded p = (p ≡ path) ⊎ (p ≡ lib)

abbrev rank : Bytes → ℕ
rank hash = if bytes_eq hash path.hash then 1 else 0

script-IsArchivable : IsArchivable database_laws.valid_name script
unfolding IsArchivable bytes
script-IsArchivable = omega arith

abbrev Provided : NixPath → Type 0
Provided = IsProvided database_store database_live plain_hashes none (lib_daemon ∷ []) IsNeeded rank

path-IsProvided : Provided path
unfolding parse_optional bytes bytes_eq is_utf8 without_path StorePath.new last_component
    unless_parent file_name checked split_stem split_on split_once starts_with drop skip_space
    skip_space_back strip trim_start trim_end trim StorePath.eq
path-IsProvided = record {
  before = [];
  provider = lib_daemon;
  after = [];
  info = record info { references = lib_text ∷ [] };
  references = lib ∷ [];
  nar_hash = bytes "00ff";
  deriver = none;
  contents = script;
  are_all = refl;
  lacking = tt;
  provides = (refl, refl, refl, refl);
  reads = (refl, refl, refl);
  is_archivable = script-IsArchivable;
  is_servable = tt;
  has_valid_names = (refl, refl);
  below = ((inr refl, omega arith), tt);
}

lib-IsProvided : Provided lib
unfolding parse_optional bytes bytes_eq without_path
lib-IsProvided = record {
  before = [];
  provider = lib_daemon;
  after = [];
  info = record info { references = [] };
  references = [];
  nar_hash = bytes "00ff";
  deriver = none;
  contents = script;
  are_all = refl;
  lacking = tt;
  provides = (refl, refl, refl, refl);
  reads = (refl, refl, refl);
  is_archivable = script-IsArchivable;
  is_servable = tt;
  has_valid_names = (refl, refl);
  below = tt;
}

needed-IsProvided : (p : NixPath) → IsNeeded p → Provided p
needed-IsProvided p (inl e) = subst Provided (sym e) path-IsProvided
needed-IsProvided p (inr e) = subst Provided (sym e) lib-IsProvided

empty-AllPaired : AllPaired database database_refs ([], [])
empty-AllPaired hash = inr (refl, refl)

ranked : rank path.hash ≤ 4
unfolding bytes bytes_eq
ranked = omega arith

add_local-Succeeds_example :
    (c : ℕ) × (s : Database) × (add_local database database_refs database_commits no_remote
        plain_hashes none unary
        (lib_daemon ∷ [])
        5
        path
        ([], [])
      ≡ (ok (some c), s))
    × (n : NarInfo) × (b o : ℕ) × (t : Database) × (get_package_from_nix_daemons plain_hashes none
          database unary
          (lib_daemon ∷ [])
          path
          ([], [])
        ≡ (ok (some (n, b, o)), t))
    × (n.references ≡ (needed-IsProvided path (inl refl)).references)
    × IsComplete database database_refs path n o c s
    × AllLinked database database_refs s
    × AllPaired database database_refs s
add_local-Succeeds_example =
    add_local-Succeeds database_store database_live plain_hashes none (lib_daemon ∷ []) IsNeeded
      rank tt refl needed-IsProvided unary no_remote 4 path ([], []) ranked (inl refl)
      empty-AllLinked empty-AllPaired (refl, refl)
