-- ===== src/GitStore/Closure.antt =====
-- src/git_store/store.rs: packages with all that they depend on, as commits whose parents are the
-- commits of the dependencies. What git peers have is a parameter here, as `ask_peers`.
pub mod Linked
pub mod Collected
pub mod Committed
pub mod Kept
pub mod Complete
pub mod Settles
pub mod Bounded
pub mod Blocked
pub mod Free
pub mod Made
pub mod Succeeds
pub mod Provided
pub mod Local
pub mod Tests
mod LiveTests
use gachix.Prelude.{
  is_panic, if◌then◌else◌, ℕ, zero, suc, Bool, Option, none, some, List, [], ◌∷◌, ◌++◌, Result, ok,
  err, no_closure, no_ref_name, out_of_fuel, git, length, Exec, pure, raise, ◌>>=◌, ◌>>◌,
}
use gachix.Bytes.{Bytes, bytes}
use gachix.Git.{Git, GitExec, GitResult, done, failed, lift_result}
use gachix.GitStore.Commit.{Commits, commit}
use gachix.GitStore.Daemons.{Daemon, HashText, PrivateKey, get_package_from_nix_daemons}
use gachix.GitStore.Package.{OidText}
use gachix.GitStore.References.{Refs, add_ref, get_commit, get_result_ref, get_narinfo_ref}
use gachix.Nix.StorePath.{NixPath}
use gachix.Nix.NarInfo.{NarInfo, get_dependencies}

module _ {Repo Oid : Type 0} where
  -- One dependency, then those after it; the first that fails ends the loop.
  abbrev pub with_parent :
      Option Oid
      → List Oid
      → (List Oid → Exec Repo (Option (List Oid)))
      → Exec Repo (Option (List Oid))
  with_parent none parents rest = pure none
  with_parent (some dep_coid) parents rest = rest (parents ++ dep_coid ∷ [])

  -- The loop over the dependencies, which collects their commits; `add` is the recursive call.
  unfoldable pub add_dependencies :
      (NixPath → Exec Repo (Option Oid)) → List NixPath → List Oid → Exec Repo (Option (List Oid))
  add_dependencies add [] parents = pure (some parents)
  add_dependencies add (dep ∷ deps) parents = do
    found ← add dep
    with_parent found parents (add_dependencies add deps)

  -- `let Ok(Some(…)) = … else { return Ok(None) }`, which does not catch a panic.
  abbrev pub or_none :
      {A : Type 0}
      → Result (Option A) × Repo
      → (A → Exec Repo (Option Oid))
      → Result (Option Oid) × Repo
  or_none (ok (some a), repo) f = f a repo
  or_none (ok none, repo) f = (ok none, repo)
  or_none (err e, repo) f = if is_panic e then (err e, repo) else (ok none, repo)

  -- The early return of a commit that was found.
  abbrev pub or_else : Option Oid → Exec Repo (Option Oid) → Exec Repo (Option Oid)
  or_else (some commit_oid) m = pure (some commit_oid)
  or_else none m = m

  abbrev pub if_collected :
      Option (List Oid) → (List Oid → Exec Repo (Option Oid)) → Exec Repo (Option Oid)
  if_collected none f = pure none
  if_collected (some parents) f = f parents

module _ {Repo Oid Builder : Type 0} (g : Git Repo Oid Builder) (refs : Refs Repo Oid)
    (commits : Commits Repo Oid) where
  -- The commit of a package, and its two references.
  unfoldable pub commit_package : NixPath → Oid → Oid → List Oid → Exec Repo (Option Oid)
  commit_package package_path narinfo_blob_oid package_oid parent_commits = do
    commit_oid ← commit g commits package_oid parent_commits (some package_path.name)
    add_ref g refs (get_result_ref package_path.hash) commit_oid
    add_ref g refs (get_narinfo_ref package_path.hash) narinfo_blob_oid
    pure (some commit_oid)

  -- A package that a daemon gave: its dependencies, then itself.
  unfoldable pub add_fetched :
      (NixPath → Exec Repo (Option Oid)) → NixPath → NarInfo × Oid × Oid → Exec Repo (Option Oid)
  add_fetched add package_path (narinfo, narinfo_blob_oid, package_oid) = do
    collected ← add_dependencies add (get_dependencies narinfo) []
    if_collected collected (commit_package package_path narinfo_blob_oid package_oid)

  module _ (hashes : HashText) (private_key : Option PrivateKey) (text : OidText Oid)
      (ask_peers : NixPath → Exec Repo (Option Oid)) (daemons : List Daemon) where
    unfoldable pub add_from_daemons :
        (NixPath → Exec Repo (Option Oid)) → NixPath → Exec Repo (Option Oid)
    add_from_daemons add package_path repo =
        or_none (get_package_from_nix_daemons hashes private_key g text daemons package_path repo)
          (add_fetched add package_path)

    -- One call: the repository itself, the peers, the daemons.
    unfoldable pub add_step : (NixPath → Exec Repo (Option Oid)) → NixPath → Exec Repo (Option Oid)
    add_step add package_path repo =
        or_else (get_commit g refs package_path.hash repo)
          (do found ← ask_peers package_path; or_else found (add_from_daemons add package_path))
          repo

    -- `_add_closure`. The recursion ends where dependencies are not circular; the fuel bounds its depth.
    unfoldable pub add_closure_from : ℕ → NixPath → Exec Repo (Option Oid)
    add_closure_from zero package_path = raise out_of_fuel
    add_closure_from (suc fuel) package_path = add_step (add_closure_from fuel) package_path
