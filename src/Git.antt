-- ===== src/Git.antt =====
-- libgit2, through the `git2` crate, as the program sees it: the object database and the tree
-- builder. The crate is not part of the repository, so it is an interface that the other modules
-- take as a parameter; `Git.Laws` says what they rely on.
pub mod Laws
pub mod Memory
pub mod Beside
use gachix.Prelude.{ℕ, List, Option, Result, ok, err, git, GitCode, Exec}
use gachix.Bytes.{Bytes}

-- One entry of a tree object: `OwnedTreeEntry` of src/nar/encode_stream.rs.
pub record OwnedTreeEntry (Oid : Type 0) : Type 0 where
  pub id : Oid
  pub filemode : ℕ
  pub name : Bytes

-- `git2::ObjectType`, as far as it is a type of stored objects.
pub data ObjectType : Type 0 where
  tree blob commit tag : ObjectType

-- What `find_object` can return, with the contents that the program reads: of a commit its tree,
-- its parents and its message.
pub data Object (Oid : Type 0) : Type 0 where
  tree : List (OwnedTreeEntry Oid) → Object Oid
  blob : Bytes → Object Oid
  commit : Oid → List Oid → Bytes → Object Oid
  tag : Oid → Object Oid

-- `Object::kind`
unfoldable pub kind_of : {Oid : Type 0} → Object Oid → ObjectType
kind_of (tree es) = ObjectType.tree
kind_of (blob c) = ObjectType.blob
kind_of (commit t ps m) = ObjectType.commit
kind_of (tag t) = ObjectType.tag

-- `git2::FileMode`
pub data FileMode : Type 0 where
  tree blob blob_executable link : FileMode

-- `FileMode::into`, to `i32`
abbrev pub into : FileMode → ℕ
into FileMode.tree = 0o040000
into FileMode.blob = 0o100644
into FileMode.blob_executable = 0o100755
into FileMode.link = 0o120000

-- A `Result<_, git2::Error>`.
pub data GitResult (A : Type 0) : Type 0 where
  done : A → GitResult A
  failed : GitCode → GitResult A

-- `?` on such a result, which becomes an error of the program.
unfoldable pub lift_result : {A : Type 0} → GitResult A → Result A
lift_result (done a) = ok a
lift_result (failed c) = err (git c)

abbrev pub GitExec : Type 0 → Type 0 → Type 0
GitExec Repo A = Repo → GitResult A × Repo

unfoldable pub lift_git : {Repo A : Type 0} → GitExec Repo A → Exec Repo A
unfolding lift_result
lift_git m r = let (a, s) = m r in (lift_result a, s)

pub record Git (Repo Oid Builder : Type 0) : Type 0 where
  -- `Repository::blob`
  pub write_blob : Bytes → GitExec Repo Oid
  -- `Repository::treebuilder(None)`
  pub treebuilder : GitExec Repo Builder
  -- `TreeBuilder::insert`, which mutates the builder
  pub insert : Bytes → Oid → ℕ → Builder → GitExec Repo Builder
  -- `TreeBuilder::write`
  pub write_tree : Builder → GitExec Repo Oid
  -- `Repository::find_object`, with the type asked for if there is one
  pub find_object : Oid → Option ObjectType → Repo → GitResult (Object Oid)
