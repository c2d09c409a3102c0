-- ===== src/GitStore/Directory.antt =====
-- src/git_store/repository.rs: `create_tree_from_dir`, over a directory that has been read. The order
-- of its entries is that of `read_dir`. `blob_path` writes the contents of the file.
pub mod Held
pub mod Stored
use gachix.Prelude.{
  ℕ, ◌/◌, ◌%◌, Bool, not, ◌||◌, Result, err, panic, no_such_directory, Exec, pure, raise, ◌>>=◌,
  ◌>>◌, ◌==◌, if◌then◌else◌,
}
use gachix.Bytes.{Bytes}
use gachix.Bytes.Utf8.{is_utf8}
use gachix.Git.{Git, FileMode, into, lift_git}

-- What an entry is, in the order in which the code asks: a symbolic link with its target, a file with the
-- mode of its permissions and its contents, a directory, or none of these.
mutual
  pub data File : Type 0 where
    link : Bytes → File
    file : ℕ → Bytes → File
    dir : Files → File
    other : File

  pub data Files : Type 0 where
    no_files : Files
    named : Bytes → File → Files → Files

-- `permissions.mode() & 0o111 != 0`
unfoldable pub is_executable : ℕ → Bool
is_executable mode = not (mode % 2 == 0) || (not (mode / 8 % 2 == 0) || not (mode / 64 % 2 == 0))

unfoldable pub file_mode : ℕ → ℕ
file_mode mode = if is_executable mode then into FileMode.blob_executable else into FileMode.blob

module _ {Repo Oid Builder : Type 0} (g : Git Repo Oid Builder) where
  -- A tree of what the loop over the entries puts into a new builder.
  unfoldable pub tree_of : (Builder → Exec Repo Builder) → Exec Repo Oid
  tree_of fill = do
    builder ← lift_git g.treebuilder
    builder' ← fill builder
    lift_git (g.write_tree builder')

  unfoldable mutual
    -- The loop over the entries, whose names have to be UTF-8.
    pub insert_files : Files → Builder → Exec Repo Builder
    insert_files no_files builder = pure builder
    insert_files (named name entry files) builder = do
      (if not (is_utf8 name) then raise panic else pure tt)
      builder' ← insert_file name entry builder
      insert_files files builder'

    -- One entry; the tree of a directory is that of `create_tree_from_dir`.
    pub insert_file : Bytes → File → Builder → Exec Repo Builder
    insert_file name (link target) builder = do
      blob_oid ← lift_git (g.write_blob target)
      lift_git (g.insert name blob_oid (into FileMode.link) builder)
    insert_file name (file mode contents) builder = do
      blob_oid ← lift_git (g.write_blob contents)
      lift_git (g.insert name blob_oid (file_mode mode) builder)
    insert_file name (dir files) builder = do
      subtree_oid ← tree_of (λ subtree. insert_files files subtree)
      lift_git (g.insert name subtree_oid (into FileMode.tree) builder)
    insert_file name other builder = pure builder

  unfoldable pub create_tree_from_dir : Files → Exec Repo Oid
  create_tree_from_dir files = tree_of (λ builder. insert_files files builder)

  -- `add_dir`, by whether the path is a directory.
  unfoldable pub add_dir : Bool → Files → Exec Repo Oid
  add_dir is_dir files = if not is_dir then raise no_such_directory else create_tree_from_dir files
