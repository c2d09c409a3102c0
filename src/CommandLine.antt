-- ===== src/CommandLine.antt =====
-- src/main.rs: the program, from its arguments to what a subcommand does with the store that is opened; and
-- the settings of src/settings.rs. Parsing the arguments and loading the settings are those of crates.
pub mod Added
mod Tests
use gachix.Prelude.{
  ℕ, Bool, List, [], Option, none, some, Result, ok, err, Exec, pure, ◌>>=◌, ◌>>◌, if◌then◌else◌,
  and_then,
}
use gachix.Bytes.{Bytes, bytes}
use gachix.GitStore.Daemons.{StoreSettings, lift}
use gachix.GitStore.Listing.{Glob, list_entries}
use gachix.GitStore.Opening
use gachix.GitStore.Opening.{Store, Filesystem, GitOpen}
use gachix.Nix.StorePath
use gachix.Nix.StorePath.{NixPath}

-- `settings::Server`
pub record Server : Type 0 where
  pub port : ℕ
  pub host : Bytes

-- `Settings`
pub record Settings (Url FsPath : Type 0) : Type 0 where
  pub store : StoreSettings Url FsPath
  pub server : Server
  pub log_level : Bytes

-- `Add`
pub record Add : Type 0 where
  pub file_path : Bytes
  pub single : Bool

-- `Command`; the others have no arguments.
pub data Command : Type 0 where
  add : Add → Command
  list serve : Command

-- `Args`
pub record Args : Type 0 where
  pub config : Option Bytes
  pub cmd : Command

-- What the subcommands call of a store, and the runtime and the server of crates.
pub record Operations (Url FsPath Repo : Type 0) : Type 0 where
  pub new_runtime : Result (Unit {0})
  pub peer_health_check : Store Url FsPath Repo → Result Bool
  pub add_single : Store Url FsPath Repo → NixPath → Exec Repo (Unit {0})
  pub add_closure : Store Url FsPath Repo → NixPath → Exec Repo (Unit {0})
  pub start_server : Bytes → ℕ → Store Url FsPath Repo → Exec Repo (Unit {0})

-- `Option::unwrap_or`
unfoldable pub unwrap_or : Option Bytes → Bytes → Bytes
unwrap_or none bs = bs
unwrap_or (some a) bs = a

module _ {Url FsPath Repo : Type 0} (ops : Operations Url FsPath Repo)
    (store : Store Url FsPath Repo) where
  -- `Add::run_async`: what the health check says is not used, but its panic ends the program.
  unfoldable pub run_async : Add → Exec Repo (Unit {0})
  run_async args = do
    path ← lift (StorePath.new args.file_path)
    lift (ops.peer_health_check store)
    if args.single then ops.add_single store path else ops.add_closure store path

  -- `Add::run`
  unfoldable pub run_add : Add → Exec Repo (Unit {0})
  run_add args = lift ops.new_runtime >> run_async args

  -- `Serve::run`; the server does not return by itself.
  unfoldable pub run_serve : Server → Exec Repo (Unit {0})
  run_serve server_settings = do
    ops.start_server server_settings.host server_settings.port store
    pure tt

  -- `List::run`, with the lines that are printed.
  unfoldable pub run_list : Glob Repo → Exec Repo (List Bytes)
  run_list glob repo = (list_entries glob repo, repo)

  unfoldable pub run_command : Glob Repo → Server → Command → Exec Repo (List Bytes)
  run_command glob server (add args) = run_add args >> pure []
  run_command glob server list = run_list glob
  run_command glob server serve = run_serve server >> pure []

-- `main`, of the arguments; `logged` says whether a level of the settings lets `info!` through. The outer
-- error is one before there is a store.
module _ {Url FsPath Repo Config : Type 0} (files : Filesystem FsPath)
    (decode : Bytes → Result Bytes) (git_open : GitOpen FsPath Repo Config) (glob : Glob Repo)
    (load_config : Bytes → Result (Settings Url FsPath)) (logged : Bytes → Bool)
    (ops : Operations Url FsPath Repo) where
  unfoldable pub main : Args → Result (Result (List Bytes) × Repo)
  main args = and_then (load_config (unwrap_or args.config [])) λ settings.
      and_then (Opening.new files decode git_open glob (logged settings.log_level) settings.store)
        λ cache. ok (run_command ops cache glob settings.server args.cmd cache.repo)
