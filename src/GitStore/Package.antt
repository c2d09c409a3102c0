-- ===== src/GitStore/Package.antt =====
-- src/git_store/store.rs: how a package's archive is stored, and served again. `Oid::from_str` and
-- `Oid::to_string` are `git2`'s.
pub mod Sole
pub mod Served
use gachix.Prelude.{
  ℕ, Bool, not, Option, none, some, List, [], ◌∷◌, Result, ok, err, git, Exec, pure, ◌>>=◌, ◌>>◌,
  ◌==◌, ◌≡◌, if◌then◌else◌, and_then,
}
use gachix.Bytes.{Bytes}
use gachix.Git.{Git, FileMode, into, GitResult, done, failed, lift_result}
use gachix.GitStore.{single_file_package_marker}
use gachix.GitStore.Repository.{
  add_nar, add_single_entry_tree, match_sole_entry_id, get_entry_as_nar,
}
use gachix.Nar.Stream.{NarGitStream}

-- The text of an id, which is the key of a package.
pub record OidText (Oid : Type 0) : Type 0 where
  pub to_string : Oid → Bytes
  pub from_str : Bytes → GitResult Oid
  pub from_str-to_string : (o : Oid) → from_str (to_string o) ≡ done o

abbrev pub unwrap_or : {A : Type 0} → Option A → A → A
unwrap_or none a = a
unwrap_or (some b) a = b

module _ {Repo Oid Builder : Type 0} (g : Git Repo Oid Builder) where
  -- `if filemode != i32::from(FileMode::Tree) { … }`: a single file is wrapped in a tree.
  unfoldable pub wrap_single_file : Oid → ℕ → Exec Repo Oid
  wrap_single_file package_oid filemode =
      if not (filemode == into FileMode.tree)
      then add_single_entry_tree g package_oid single_file_package_marker filemode
      else pure package_oid

  -- The package's contents, stored.
  unfoldable pub add_package : Bytes → Exec Repo Oid
  add_package nar = do
    (package_oid, filemode) ← add_nar g nar
    wrap_single_file package_oid filemode

  module _ (text : OidText Oid) where
    unfoldable pub get_as_nar_stream : Bytes → Repo → Result (Option (NarGitStream Oid))
    get_as_nar_stream key repo = and_then (lift_result (text.from_str key)) λ tree_oid.
        and_then (match_sole_entry_id g tree_oid single_file_package_marker repo)
          λ sole. get_entry_as_nar g (unwrap_or sole tree_oid) repo
