-- ===== src/GitStore/Opening.antt =====
-- `GitRepo::new` of src/git_store/repository.rs and `Store::new` of src/git_store/store.rs. The file system
-- and the opening of a repository are parameters.
pub mod Logged
pub mod Keyed
pub mod Tests
use gachix.Prelude.{Bool, Option, none, some, Result, ok, err, panic, if◌then◌else◌, and_then}
use gachix.Bytes.{Bytes, bytes}
use gachix.Git.{GitResult, done, failed, GitExec, lift_result, lift_git}
use gachix.GitStore.Daemons.{StoreSettings}
use gachix.GitStore.Listing.{Glob, num_available_packages}
use gachix.Nix.Signature.{SecretKey, from_str}

-- What the program asks of `std::path` and `std::fs`.
pub record Filesystem (FsPath : Type 0) : Type 0 where
  pub exists_at : FsPath → Bool
  pub to_str : FsPath → Option Bytes
  pub read_to_string : FsPath → Result Bytes
  pub canonicalize : FsPath → Result FsPath

-- `Repository::open`, `Repository::init`, `Repository::config` and `Config::set_str`.
pub record GitOpen (FsPath Repo Config : Type 0) : Type 0 where
  pub open_at : FsPath → GitResult Repo
  pub init_at : FsPath → GitResult Repo
  pub config : Repo → GitResult Config
  pub set_str : Config → Bytes → Bytes → GitExec Repo (Unit {0})

-- `Store`
pub record Store (Url FsPath Repo : Type 0) : Type 0 where
  pub settings : StoreSettings Url FsPath
  pub repo : Repo
  pub private_key : Option SecretKey

-- `info!`, which evaluates its argument only if that level is logged.
unfoldable pub info : {A : Type 0} → Bool → Result A → Result (Unit {0})
info logged argument = if logged then and_then argument (λ a. ok tt) else ok tt

-- `Option::unwrap`
unfoldable pub unwrap : {A : Type 0} → Option A → Result A
unwrap none = err panic
unwrap (some a) = ok a

-- What is left of the repository after a call that changes it.
unfoldable pub changed : {Repo : Type 0} → Result (Unit {0}) × Repo → Result Repo
changed (ok a, repo) = ok repo
changed (err e, repo) = err e

module _ {FsPath Repo Config : Type 0} (files : Filesystem FsPath)
    (git_open : GitOpen FsPath Repo Config) where
  unfoldable pub set_protocol : Repo → Result Repo
  set_protocol repo = and_then (lift_result (git_open.config repo)) λ config.
      changed (lift_git (git_open.set_str config (bytes "protocol.version") (bytes "2")) repo)

  -- `GitRepo::new`
  unfoldable pub new_repo : Bool → FsPath → Result Repo
  new_repo logged path_to_repo =
      and_then
        (if files.exists_at path_to_repo
          then and_then (info logged (unwrap (files.to_str path_to_repo)))
              (λ u. lift_result (git_open.open_at path_to_repo))
          else and_then (info logged (unwrap (files.to_str path_to_repo)))
              (λ u. lift_result (git_open.init_at path_to_repo)))
        set_protocol

module _ {FsPath : Type 0} (files : Filesystem FsPath) (decode : Bytes → Result Bytes) where
  unfoldable pub read_key : Bool → Option FsPath → Result (Option SecretKey)
  read_key logged none = ok none
  read_key logged (some key_path) =
      and_then (and_then (files.read_to_string key_path) (from_str decode))
        λ key. and_then (info logged (files.canonicalize key_path)) λ u. ok (some key)

  -- What `Store::new` does with the repository that it opened.
  unfoldable pub with_repo :
      {Url Repo : Type 0}
      → Glob Repo
      → Bool
      → StoreSettings Url FsPath
      → Repo
      → Result (Store Url FsPath Repo)
  with_repo glob logged settings repo =
      and_then (read_key logged settings.sign_private_key_path) λ private_key.
        let store : Store _ _ _ = record {
          settings = settings;
          repo = repo;
          private_key = private_key;
        } in
        and_then (info logged (num_available_packages glob repo)) λ u. ok store

  -- `Store::new`
  unfoldable pub new :
      {Url Repo Config : Type 0}
      → GitOpen FsPath Repo Config
      → Glob Repo
      → Bool
      → StoreSettings Url FsPath
      → Result (Store Url FsPath Repo)
  new git_open glob logged settings =
      and_then (new_repo files git_open logged settings.path) (with_repo glob logged settings)
