-- ===== src/Nar/Stored.antt =====
-- When an object database holds a file system object: the object under `o`, taken with the file mode
-- `m`, is the blob or the tree that stands for it, and a tree's entries, sorted by name, are its
-- entries.
use Prim.Native.Nat.{max}
use gachix.Prelude.{ℕ, suc, ◌≡◌, Bool, true, false, List, [], ◌∷◌}
use gachix.Bytes.Utf8.{is_utf8}
use gachix.Git.{Git, OwnedTreeEntry, FileMode, into, tree, blob}
use gachix.Git.Laws.{Has}
use gachix.Nar.Format.{Node, Entries, regular, symlink, directory, no_entries, entry}
use gachix.Nar.Sort.{sort_by_name}

abbrev pub regular_mode : Bool → ℕ
regular_mode true = into FileMode.blob_executable
regular_mode false = into FileMode.blob

abbrev pub mode_of : Node → ℕ
mode_of (regular x c) = regular_mode x
mode_of (symlink t) = into FileMode.link
mode_of (directory es) = into FileMode.tree

-- How deep directories are nested.
unfoldable mutual
  pub depth : Node → ℕ
  depth (regular x c) = 0
  depth (symlink t) = 0
  depth (directory es) = suc (depth_entries es)

  pub depth_entries : Entries → ℕ
  depth_entries no_entries = 0
  depth_entries (entry name n es) = max (depth n) (depth_entries es)

-- Every name of an entry, at any depth, is UTF-8.
unfoldable mutual
  pub HasUtf8Names : Node → Type 0
  HasUtf8Names (regular x c) = Unit
  HasUtf8Names (symlink t) = Unit
  HasUtf8Names (directory es) = HaveUtf8Names es

  pub HaveUtf8Names : Entries → Type 0
  HaveUtf8Names no_entries = Unit
  HaveUtf8Names (entry name n es) = (is_utf8 name ≡ true) × HasUtf8Names n × HaveUtf8Names es

module _ {Repo Oid Builder : Type 0} (g : Git Repo Oid Builder) (r : Repo) where
  unfoldable mutual
    pub Holds : Oid → ℕ → Node → Type 0
    Holds o m (regular x c) = (m ≡ regular_mode x) × Has g r o (blob c)
    Holds o m (symlink t) = (m ≡ into FileMode.link) × Has g r o (blob t)
    Holds o m (directory es) =
        (m ≡ into FileMode.tree)
        × (fs : List (OwnedTreeEntry Oid)) × Has g r o (tree fs)
        × HoldEntries (sort_by_name fs) es

    pub HoldEntries : List (OwnedTreeEntry Oid) → Entries → Type 0
    HoldEntries [] no_entries = Unit
    HoldEntries (f ∷ fs) (entry name n es) =
        (f.name ≡ name) × Holds f.id f.filemode n × HoldEntries fs es
    HoldEntries _ _ = ⊥
