-- ===== src/GitStore/Opening/Keyed.antt =====
-- The store that is opened from a key file.
use gachix.Prelude.{
  ◌≡◌, refl, Bool, true, false, some, Result, ok, ◌∷◌, ◌++◌, All, length, if◌then◌else◌,
}
use gachix.Bytes.{Bytes, bytes}
use gachix.Git.{done, lift_result, lift_git}
use gachix.GitStore.Daemons.{StoreSettings}
use gachix.GitStore.Listing.{Glob}
use gachix.GitStore.Opening.{
  Filesystem, GitOpen, info, changed, set_protocol, new_repo, read_key, with_repo, new,
}
use gachix.Nix.Signature.Parsed.{NoColon, from_str-key}

module _ {FsPath Repo Config : Type 0} (files : Filesystem FsPath)
    (git_open : GitOpen FsPath Repo Config) where
  set_protocol-set :
      (repo configured : Repo) (config : Config)
      → git_open.config repo ≡ done config
      → git_open.set_str config (bytes "protocol.version") (bytes "2") repo ≡ (done tt, configured)
      → set_protocol files git_open repo ≡ ok configured
  unfolding set_protocol lift_result lift_git changed
  set_protocol-set repo configured config has_config set = rw (has_config, set)

  new_repo-opened :
      (path : FsPath) (repo configured : Repo) (there : Bool)
      → files.exists_at path ≡ there
      → (if there then git_open.open_at path else git_open.init_at path) ≡ done repo
      → set_protocol files git_open repo ≡ ok configured
      → new_repo files git_open false path ≡ ok configured
  unfolding new_repo lift_result info
  new_repo-opened path repo configured true exists_at opened set = rw (exists_at, opened) set
  new_repo-opened path repo configured false exists_at opened set = rw (exists_at, opened) set

module _ {Url FsPath Repo Config : Type 0} (files : Filesystem FsPath)
    (decode : Bytes → Result Bytes) (git_open : GitOpen FsPath Repo Config) (glob : Glob Repo) where
  -- If the repository, opened where it exists and else initialised, lets the program set version 2 of
  -- git's protocol, and the key file holds a name without a colon, a colon and the encoding of a seed of
  -- 32 bytes and a public key of 32 bytes, then, without logging, the store that is opened has the
  -- settings it was opened with, the configured repository, and the key of that name and those bytes.
  pub new-keyed :
      (settings : StoreSettings Url FsPath) (repo configured : Repo) (config : Config)
      (key_path : FsPath) (name key_base64 seed public_key rest : Bytes)
      → (if files.exists_at settings.path
          then git_open.open_at settings.path
          else git_open.init_at settings.path)
        ≡ done repo
      → git_open.config repo ≡ done config
      → git_open.set_str config (bytes "protocol.version") (bytes "2") repo ≡ (done tt, configured)
      → settings.sign_private_key_path ≡ some key_path
      → files.read_to_string key_path ≡ ok (name ++ (b':' ∷ key_base64))
      → All NoColon name
      → decode key_base64 ≡ ok (seed ++ (public_key ++ rest))
      → length seed ≡ 32
      → length public_key ≡ 32
      → new files decode git_open glob false settings
        ≡ ok (record {
          settings = settings;
          repo = configured;
          private_key = some (record { name = name; seed = seed; public_key = public_key });
        })
  unfolding new with_repo read_key info
  new-keyed settings repo configured config key_path name key_base64 seed public_key rest opened
        has_config set has_key content plain decoded ls lp =
      let set_up = set_protocol-set files git_open repo configured config has_config set in
      let ready =
        new_repo-opened files git_open settings.path repo configured (files.exists_at settings.path)
          refl opened set_up in
      let key = from_str-key decode name key_base64 seed public_key rest plain decoded ls lp in
      rw (new, ready, with_repo, has_key, read_key, content, key)
