-- ===== src/GitStore/References.antt =====
-- The references of src/git_store/repository.rs, and src/git_store/store.rs, as far as it finds
-- packages by them. The reference database is libgit2's, an interface.
pub mod Added
pub mod Memory
pub mod Names
use gachix.Prelude.{
  is_panic, ℕ, Bool, true, false, Option, none, some, List, ◌++◌, Result, ok, err, git, GitCode,
  not_found, exists, generic, no_daemon, Exec, pure, raise, ◌>>=◌, ◌>>◌, if◌then◌else◌,
}
use gachix.Bytes.{Bytes, bytes}
use gachix.Git.{Git, GitExec, GitResult, done, failed, lift_git}
use gachix.GitStore.Repository.{get_blob}
use gachix.GitStore.Package.{OidText}
use gachix.GitStore.Daemons.{Daemon, HashText, PrivateKey, get_package_from_nix_daemons, lift}
use gachix.Nix.StorePath.{NixPath}
use gachix.Nix.NarInfo.{NarInfo}

-- `Repository::reference`, without force, and `Repository::find_reference` with its target, if the
-- reference is a direct one.
pub record Refs (Repo Oid : Type 0) : Type 0 where
  pub reference : Bytes → Oid → GitExec Repo (Unit {0})
  pub find_reference : Bytes → Repo → GitResult (Option Oid)

unfoldable pub get_package_ref : Bytes → Bytes
get_package_ref hash = bytes "refs/" ++ hash

unfoldable pub get_result_ref : Bytes → Bytes
get_result_ref hash = get_package_ref hash ++ bytes "/result"

unfoldable pub get_narinfo_ref : Bytes → Bytes
get_narinfo_ref hash = get_package_ref hash ++ bytes "/narinfo"

-- `Ok(true)`, `Ok(false)` for a missing reference, and any other error.
unfoldable pub is_found : {A : Type 0} → GitResult A → Result Bool
is_found (done r) = ok true
is_found (failed not_found) = ok false
is_found (failed c) = err (git c)

abbrev target_of : {Oid : Type 0} → GitResult (Option Oid) → Option Oid
target_of (done target) = target
target_of (failed c) = none

module _ {Repo Oid Builder : Type 0} (g : Git Repo Oid Builder) (refs : Refs Repo Oid) where
  unfoldable pub add_ref : Bytes → Oid → Exec Repo (Unit {0})
  add_ref ref_name oid = lift_git (refs.reference ref_name oid)

  unfoldable pub get_oid_from_reference : Bytes → Repo → Option Oid
  get_oid_from_reference reference repo = target_of (refs.find_reference reference repo)

  unfoldable pub reference_exists : Bytes → Repo → Result Bool
  reference_exists name repo = is_found (refs.find_reference name repo)

  unfoldable pub get_commit : Bytes → Repo → Option Oid
  get_commit hash repo = get_oid_from_reference (get_result_ref hash) repo

  unfoldable pub entry_exists : Bytes → Repo → Result Bool
  entry_exists base32_hash repo = reference_exists (get_result_ref base32_hash) repo

  unfoldable pub get_narinfo : Bytes → Repo → Result (Option Bytes)
  get_narinfo base32_hash repo = elim (get_oid_from_reference (get_narinfo_ref base32_hash) repo) [
    | none ↦ ok none
    | some oid ↦ elim (get_blob g oid repo) [ ok content ↦ ok (some content) | err e ↦ err e ]
  ]

  module _ (hashes : HashText) (private_key : Option PrivateKey) (text : OidText Oid) where
    -- `let Ok(Some((_, narinfo_blob_oid, _))) = … else { bail!(…) }`: what was written stays.
    unfoldable pub only_some : Result (Option (NarInfo × Oid × Oid)) × Repo → Result Oid × Repo
    only_some (ok (some (narinfo, narinfo_blob_oid, package_oid)), repo) =
        (ok narinfo_blob_oid, repo)
    only_some (ok none, repo) = (err no_daemon, repo)
    only_some (err e, repo) = (err (if is_panic e then e else no_daemon), repo)

    unfoldable pub add_new : Bytes → List Daemon → NixPath → Exec Repo (Unit {0})
    add_new narinfo_ref daemons package_path = do
      narinfo_blob_oid ← λ repo.
          only_some
            (get_package_from_nix_daemons hashes private_key g text daemons package_path repo)
      add_ref narinfo_ref narinfo_blob_oid

    -- With the available daemons as an argument.
    unfoldable pub add_single : List Daemon → NixPath → Exec Repo (Unit {0})
    add_single daemons package_path =
        let narinfo_ref = get_narinfo_ref package_path.hash in
        do
          found ← λ repo. (reference_exists narinfo_ref repo, repo)
          if found then pure tt else add_new narinfo_ref daemons package_path
