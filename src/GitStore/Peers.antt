-- ===== src/GitStore/Peers.antt =====
-- Packages from git peers: `GitRepo::fetch` of src/git_store/repository.rs, and its callers in
-- src/git_store/store.rs. What a peer sends is up to libgit2 and the peer, an interface.
pub mod Contains
pub mod Hashes
pub mod Finishes
pub mod Walk
pub mod Kept
pub mod Closed
pub mod Reused
pub mod Dependencies
mod Tests
mod ReusedTests
use gachix.Prelude.{
  ℕ, zero, suc, Bool, true, false, not, ◌||◌, ◌&&◌, Option, none, some, List, [], ◌∷◌, ◌++◌, Result,
  ok, err, git, GitCode, missing_narinfo, no_commit, out_of_fuel, Exec, pure, raise, and_then,
  ◌>>=◌, ◌>>◌, ◌==◌, if◌then◌else◌,
}
use gachix.Bytes.{Bytes, bytes, bytes_eq}
use gachix.Bytes.Utf8.Lossy.{from_utf8_lossy}
use gachix.Git.{Git, GitExec, GitResult, done, failed, lift_git, lift_result}
use gachix.GitStore.Health.Remote.{Callback, CredOps, credentials}
use gachix.GitStore.Opening.{unwrap}
use gachix.GitStore.References.{
  Refs, get_commit, get_package_ref, get_result_ref, get_narinfo_ref, get_narinfo, reference_exists,
}
use gachix.Nix.StorePath.{NixPath}
use gachix.Nix.NarInfo
use gachix.Nix.NarInfo.{NarInfo, get_dependencies}

-- `Repository::find_remote`, `Repository::remote_with_fetch`, and `Remote::fetch` of some refspecs with
-- the number of objects that `Remote::stats` has then, or nothing if the callback for credentials
-- panicked; and the environment and the credentials of that callback, as bytes that stand for them.
pub record Remotes (Repo Remote : Type 0) : Type 0 where
  pub find_remote : Bytes → Repo → GitResult Remote
  pub remote_with_fetch : Bytes → Bytes → Bytes → GitExec Repo Remote
  pub fetch_refspecs : Remote → Callback Bytes → List Bytes → Repo → Option (GitResult ℕ) × Repo
  pub env_var : Bytes → Option Bytes
  pub cred_ops : CredOps Bytes

-- Membership in a `HashSet` of strings.
unfoldable pub contains : List Bytes → Bytes → Bool
contains [] id = false
contains (v ∷ visited) id = bytes_eq v id || contains visited id

-- A queue of packages to look at, and the packages that were ever put there.
abbrev pub Queue : Type 0
Queue = List Bytes × List Bytes

-- A panic of the callback ends the program.
unfoldable pub or_panic : {Repo A : Type 0} → (Repo → Option (GitResult A) × Repo) → Exec Repo A
or_panic m repo = let (x, repo') = m repo in (and_then (unwrap x) lift_result, repo')

module _ {Repo Remote : Type 0} (remotes : Remotes Repo Remote) where
  abbrev pub or_new : GitResult Remote → Bytes → Exec Repo Remote
  or_new (done remote) url = pure remote
  or_new (failed c) url = lift_git (remotes.remote_with_fetch (bytes "peer") url (bytes ""))

  -- The remote that is named `peer`, or a new one of that name.
  unfoldable pub peer_remote : Bytes → Exec Repo Remote
  peer_remote url repo = or_new (remotes.find_remote (bytes "peer") repo) url repo

  unfoldable pub fetch : Bytes → Bytes → Exec Repo (Option (Unit {0}))
  fetch url reference = do
    remote ← peer_remote url
    let callback = credentials remotes.env_var remotes.cred_ops
    let refspec = reference ++ (bytes ":" ++ reference)
    received ← or_panic (remotes.fetch_refspecs remote callback (refspec ∷ []))
    if received == 0 then pure none else pure (some tt)

module _ {Repo Oid Builder Remote : Type 0} (g : Git Repo Oid Builder) (refs : Refs Repo Oid)
    (remotes : Remotes Repo Remote) where
  abbrev pub ok_or : Option Oid → Exec Repo (Option Oid)
  ok_or none = raise no_commit
  ok_or (some oid) = pure (some oid)

  abbrev pub if_received : Option (Unit {0}) → Exec Repo (Option Oid) → Exec Repo (Option Oid)
  if_received none m = pure none
  if_received (some u) m = m

  unfoldable pub fetch_from_remote : Bytes → Bytes → Exec Repo (Option Oid)
  fetch_from_remote package_id remote = do
    received ← fetch remotes remote (get_package_ref package_id ++ bytes "/*")
    if_received received (λ repo. ok_or (get_commit g refs package_id repo) repo)

  abbrev pub some_narinfo : Option Bytes → Result Bytes
  some_narinfo none = err missing_narinfo
  some_narinfo (some narinfo_blob) = ok narinfo_blob

  unfoldable pub get_dep_ids : Bytes → Repo → Result (List NixPath)
  get_dep_ids package_id repo = and_then (get_narinfo g refs package_id repo) λ found.
      and_then (some_narinfo found) λ narinfo_blob.
        and_then (NarInfo.parse (from_utf8_lossy narinfo_blob))
          λ narinfo. ok (get_dependencies narinfo)

  abbrev pub or_next :
      Option Oid → Bytes → Exec Repo (Option (Oid × Bytes)) → Exec Repo (Option (Oid × Bytes))
  or_next none url m = m
  or_next (some oid) url m = pure (some (oid, url))

  -- The loop over the remotes: the first that has the package, and the commit.
  unfoldable pub first_remote : Bytes → List Bytes → Exec Repo (Option (Oid × Bytes))
  first_remote package_id [] = pure none
  first_remote package_id (url ∷ urls) = do
    found ← fetch_from_remote package_id url
    or_next found url (first_remote package_id urls)

  -- `&&` of two results.
  unfoldable pub both_exist : Bytes → Exec Repo Bool
  both_exist dep_hash = do
    result ← λ repo. (reference_exists g refs (get_result_ref dep_hash) repo, repo)
    if result
        then (λ repo. (reference_exists g refs (get_narinfo_ref dep_hash) repo, repo))
        else pure false

  unfoldable pub fetch_missing : Bytes → Bytes → Exec Repo (Unit {0})
  fetch_missing success_remote dep_hash = do
    there ← both_exist dep_hash
    if not there then (fetch_from_remote dep_hash success_remote >> pure tt) else pure tt

  -- The loop over the dependencies of a package.
  unfoldable pub visit : Bytes → List NixPath → Queue → Exec Repo Queue
  visit success_remote [] queue = pure queue
  visit success_remote (dep ∷ deps) (open_ids, visited) =
      let again = visit success_remote deps (open_ids, visited) in
      let next = visit success_remote deps (open_ids ++ dep.hash ∷ [], dep.hash ∷ visited) in
      if not (contains visited dep.hash)
      then (fetch_missing success_remote dep.hash >> next)
      else again

  -- The loop over the queue; the fuel bounds how often it is taken from.
  unfoldable pub walk : ℕ → Bytes → Queue → Exec Repo (Unit {0})
  walk fuel success_remote ([], visited) = pure tt
  walk zero success_remote (id ∷ open_ids, visited) = raise out_of_fuel
  walk (suc fuel) success_remote (id ∷ open_ids, visited) = do
    deps ← λ repo. (get_dep_ids id repo, repo)
    queue ← visit success_remote deps (open_ids, visited)
    walk fuel success_remote queue

  abbrev pub if_found :
      Option (Oid × Bytes) → (Oid → Bytes → Exec Repo (Option Oid)) → Exec Repo (Option Oid)
  if_found none f = pure none
  if_found (some (commit_oid, success_remote)) f = f commit_oid success_remote

  unfoldable pub get_package_commit_from_git_remotes :
      ℕ → List Bytes → NixPath → Exec Repo (Option Oid)
  get_package_commit_from_git_remotes fuel urls store_path = do
    found ← first_remote store_path.hash urls
    if_found found λ commit_oid success_remote.
        (walk fuel success_remote (store_path.hash ∷ [], store_path.hash ∷ [])
          >> pure (some commit_oid))
