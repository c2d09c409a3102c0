-- ===== src/GitStore/Listing.antt =====
-- Which references there are, of src/git_store/repository.rs and src/git_store/store.rs, and
-- `Store::add_closure`, which counts them.
pub mod Added
use gachix.Prelude.{
  Bool, ◌+◌, ◌^◌, ℕ, ◌-◌, Option, none, some, List, Result, ok, err, panic, no_closure, no_ref_name,
  Exec, pure, raise, ◌>>=◌, ◌>>◌, length, leb, ltb, if◌then◌else◌, and_then, map_all,
}
use gachix.Bytes.{Bytes, bytes}
use gachix.Git.{GitResult, done, failed, lift_result}
use gachix.GitStore.Daemons.{lift}
use gachix.Nix.StorePath.{NixPath}

-- `Repository::references_glob`, and what its iterator gives: references with their names, if those are
-- UTF-8, or errors.
pub record Glob (Repo : Type 0) : Type 0 where
  pub references_glob : Bytes → Repo → GitResult (List (GitResult (Option Bytes)))

abbrev pub some_name : Option Bytes → Result Bytes
some_name none = err no_ref_name
some_name (some name) = ok name

unfoldable pub name_of : GitResult (Option Bytes) → Result Bytes
name_of reference = and_then (lift_result reference) some_name

-- A difference of two `usize`, whose overflow is a panic in a build with overflow checks, and else wraps.
unfoldable pub minus : Bool → ℕ → ℕ → Result ℕ
minus checked after before =
    if ltb after before
    then (if checked then err panic else ok (2 ^ 64 + after - before))
    else ok (after - before)

module _ {Repo : Type 0} (glob : Glob Repo) where
  unfoldable pub list_references : Bytes → Repo → Result (List Bytes)
  list_references ref_name repo =
      and_then (lift_result (glob.references_glob ref_name repo))
        (λ references. map_all name_of references)

  unfoldable pub list_entries : Repo → Result (List Bytes)
  list_entries repo = list_references (bytes "refs/*") repo

  unfoldable pub num_available_packages : Repo → Result ℕ
  num_available_packages repo =
      and_then (list_references (bytes "refs/*/narinfo") repo) (λ entries. ok (length entries))

  abbrev pub counted : {Oid : Type 0} → Bool → ℕ → Option Oid → Exec Repo (Unit {0})
  counted checked entries_before none = raise no_closure
  counted checked entries_before (some commit_oid) = do
    entries_after ← λ repo. (num_available_packages repo, repo)
    lift (minus checked entries_after entries_before)
    pure tt

  -- `Store::add_closure`; `add` is `_add_closure`.
  unfoldable pub add_closure :
      {Oid : Type 0} → Bool → (NixPath → Exec Repo (Option Oid)) → NixPath → Exec Repo (Unit {0})
  add_closure checked add package_path = do
    entries_before ← λ repo. (num_available_packages repo, repo)
    added ← add package_path
    counted checked entries_before added
