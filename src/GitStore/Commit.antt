-- ===== src/GitStore/Commit.antt =====
-- src/git_store/repository.rs: `GitRepo::commit`. Who commits, and when, is the same each time.
use gachix.Prelude.{Option, none, some, List, [], ◌∷◌, Exec, pure, ◌>>◌}
use gachix.Bytes.{Bytes, bytes}
use gachix.Git.{Git, GitExec, Object, ObjectType, lift_git, lift_result}

-- `Repository::commit`, which updates no reference: a tree, the parents and the message.
pub record Commits (Repo Oid : Type 0) : Type 0 where
  pub create : Oid → List Oid → Bytes → GitExec Repo Oid

abbrev pub unwrap_or : Option Bytes → Bytes → Bytes
unwrap_or none d = d
unwrap_or (some c) d = c

module _ {Repo Oid Builder : Type 0} (g : Git Repo Oid Builder) where
  -- `find_tree` or `find_commit`, whose object is handed on by its oid.
  unfoldable pub find_typed : ObjectType → Oid → Exec Repo (Object Oid)
  find_typed kind oid repo = (lift_result (g.find_object oid (some kind) repo), repo)

  -- The loop over the parents.
  unfoldable pub find_commits : List Oid → Exec Repo (Unit {0})
  find_commits [] = pure tt
  find_commits (oid ∷ oids) = do find_typed ObjectType.commit oid; find_commits oids

  unfoldable pub commit : Commits Repo Oid → Oid → List Oid → Option Bytes → Exec Repo Oid
  commit commits tree_oid parent_oids comment = do
    find_typed ObjectType.tree tree_oid
    find_commits parent_oids
    lift_git (commits.create tree_oid parent_oids (unwrap_or comment (bytes "")))
