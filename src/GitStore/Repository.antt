-- ===== src/GitStore/Repository.antt =====
-- src/git_store/repository.rs: `GitRepo`, as far as it reads and writes objects. Locks are left out.
use gachix.Prelude.{
  ℕ, ◌&&◌, Option, none, some, List, [], ◌∷◌, Result, ok, err, git, panic, wrong_kind, Exec, ◌>>=◌,
  if◌then◌else◌,
}
use gachix.Bytes.{Bytes, bytes_eq}
use gachix.Bytes.Utf8.{is_utf8}
use gachix.Git.{
  Git, Object, ObjectType, OwnedTreeEntry, FileMode, into, GitResult, done, failed, lift_git,
}
use gachix.Nar.Decode.{parse}
use gachix.Nar.Stream
use gachix.Nar.Stream.{NarGitStream}

module _ {Oid : Type 0} where
  -- `blob.content()`; `find_blob` finds blobs only.
  abbrev pub blob_content : GitResult (Object Oid) → Result Bytes
  blob_content (done (Object.blob content)) = ok content
  blob_content (done x) = err panic
  blob_content (failed c) = err (git c)

  -- `tree.iter()`; `find_tree` finds trees only.
  abbrev tree_listing : GitResult (Object Oid) → Result (List (OwnedTreeEntry Oid))
  tree_listing (done (Object.tree es)) = ok es
  tree_listing (done x) = err panic
  tree_listing (failed c) = err (git c)

  -- The entry's id if it is the only one and has this name. `entry.name()` is `None` on a name that
  -- is not UTF-8.
  unfoldable pub sole_entry_id : Bytes → List (OwnedTreeEntry Oid) → Option Oid
  sole_entry_id name (e ∷ []) = if is_utf8 e.name && bytes_eq e.name name then some e.id else none
  sole_entry_id name _ = none

  -- The file mode that a stream starts with, by the type of the object.
  unfoldable pub start_mode : GitResult (Object Oid) → Result ℕ
  start_mode (done (Object.blob content)) = ok (into FileMode.blob)
  start_mode (done (Object.tree es)) = ok (into FileMode.tree)
  start_mode (done x) = err wrong_kind
  start_mode (failed c) = err (git c)

  abbrev start_stream : Oid → Result ℕ → Result (Option (NarGitStream Oid))
  start_stream oid (ok filemode) = ok (some (Stream.new oid filemode))
  start_stream oid (err e) = err e

module _ {Repo : Type 0} where
  -- The reader is dropped with what is left of its input.
  abbrev without_reader : {A : Type 0} → Result A × (Bytes × Repo) → Result A × Repo
  without_reader (x, (input, repo)) = (x, repo)

module _ {Repo Oid Builder : Type 0} (g : Git Repo Oid Builder) where
  unfoldable pub add_file_content : Bytes → Exec Repo Oid
  add_file_content content = lift_git (g.write_blob content)

  unfoldable pub add_single_entry_tree : Oid → Bytes → ℕ → Exec Repo Oid
  add_single_entry_tree entry_oid name filemode = do
    builder ← lift_git g.treebuilder
    builder' ← lift_git (g.insert name entry_oid filemode builder)
    lift_git (g.write_tree builder')

  unfoldable pub add_nar : Bytes → Exec Repo (Oid × ℕ)
  add_nar content repo = without_reader (parse g (content, repo))

  unfoldable pub get_blob : Oid → Repo → Result Bytes
  get_blob oid repo = blob_content (g.find_object oid (some ObjectType.blob) repo)

  unfoldable pub match_sole_entry_id : Oid → Bytes → Repo → Result (Option Oid)
  match_sole_entry_id tree_oid name repo =
      elim (tree_listing (g.find_object tree_oid (some ObjectType.tree) repo)) [
        | ok es ↦ ok (sole_entry_id name es)
        | err e ↦ err e
      ]

  unfoldable pub get_entry_as_nar : Oid → Repo → Result (Option (NarGitStream Oid))
  get_entry_as_nar oid repo = start_stream oid (start_mode (g.find_object oid none repo))
