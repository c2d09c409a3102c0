-- ===== src/GitStore/Opening/Tests.antt =====
-- The theorems of opening a store, and of the health of a remote, at a small file system and a remote that
-- accepts one key.
use gachix.Prelude.{
  ◌≡◌, refl, true, false, ◌&&◌, ◌↔◌, Option, none, some, List, [], ◌∷◌, ◌++◌, All, ok, map_all,
  generic, replicate, if◌then◌else◌, and_then, arith,
}
use gachix.Bytes.{Bytes, bytes, bytes_eq}
use gachix.Git.{GitResult, done, failed}
use gachix.GitStore.Daemons.{StoreSettings}
use gachix.GitStore.Health.Remote.{
  CredOps, Connect, Accepts, AsksNameAndKey, check_remote_health, check_remote_health_iff,
}
use gachix.GitStore.Listing.{Glob, num_available_packages}
use gachix.GitStore.Opening.{Store, Filesystem, GitOpen, unwrap, new}
use gachix.GitStore.Opening.Keyed.{new-keyed}
use gachix.GitStore.Opening.Logged.{IsOk, IsResolved, new-logged_iff}
use gachix.Nix.Signature.Parsed.{NoColon}

-- A repository is the names of the packages that it lists.
abbrev Names : Type 0
Names = List Bytes

abbrev seed : Bytes
seed = replicate 32 b'a'

abbrev public_key : Bytes
public_key = replicate 32 b'b'

abbrev name : Bytes
name = b'k' ∷ []

abbrev key_text : Bytes
key_text = name ++ (b':' ∷ (seed ++ (public_key ++ [])))

-- Everything exists, and every file is the key.
abbrev pub files : Filesystem Bytes
files = record {
  exists_at = λ p. true;
  to_str = λ p. some p;
  read_to_string = λ p. ok key_text;
  canonicalize = λ p. ok p;
}

abbrev pub git_open : {Repo : Type 0} → Repo → GitOpen Bytes Repo (Unit {0})
git_open repo = record {
  open_at = λ p. done repo;
  init_at = λ p. failed generic;
  config = λ r. done tt;
  set_str = λ config name value r. (done tt, r);
}

abbrev glob : Glob Names
glob = record { references_glob = λ pattern names. done [] }

abbrev settings : StoreSettings Bytes Bytes
settings = record {
  path = bytes "cache";
  builders = [];
  remotes = [];
  use_local_nix_daemon = true;
  sign_private_key_path = some (bytes "key");
  ssh_private_key_path = none;
}

abbrev store : Store Bytes Bytes Names
store = record {
  settings = settings;
  repo = [];
  private_key = some (record { name = name; seed = seed; public_key = public_key });
}

name-NoColon : All NoColon name
name-NoColon = ((λ e. omega arith), tt)

new-keyed_example : new files (λ s. ok s) (git_open []) glob false settings ≡ ok store
new-keyed_example =
    new-keyed files (λ s. ok s) (git_open []) glob settings [] [] tt (bytes "key") name
      (seed ++ (public_key ++ [])) seed public_key [] refl refl refl refl refl name-NoColon refl
      refl refl

new-logged_iff_example : (new files (λ s. ok s) (git_open []) glob true settings ≡ ok store) ↔ (
    (new files (λ s. ok s) (git_open []) glob false settings ≡ ok store)
    × IsOk (unwrap (files.to_str settings.path))
    × IsResolved files settings.sign_private_key_path
    × IsOk (num_available_packages glob store.repo))
new-logged_iff_example = new-logged_iff files (λ s. ok s) (git_open []) glob settings store

abbrev env_var : Bytes → Option Bytes
env_var variable =
    if bytes_eq variable (bytes "USER") then some (bytes "me") else some (bytes "/home/me")

-- A credential is the text that stands for it.
abbrev cred_ops : CredOps Bytes
cred_ops = record {
  username = λ user. done user;
  ssh_key = λ user public private passphrase. done private;
}

-- The name and the key that the remote accepts.
abbrev decides : List (GitResult Bytes) → GitResult Bytes
decides (done user ∷ done key ∷ rest) =
    if bytes_eq user (bytes "me") && bytes_eq key (bytes "/home/me/.ssh/id_ed25519")
    then done user
    else failed generic
decides creds = failed generic

abbrev connect : Connect Names Bytes Bytes Bytes
connect = record {
  remote_anonymous = λ url repo. done url;
  connect_auth = λ url callback.
      and_then
        (map_all (callback url none)
          (record { username = true } ∷ record { username = false } ∷ []))
        (λ creds. ok (decides creds));
  list_heads = λ connection. done tt;
}

asks : AsksNameAndKey connect decides (bytes "ssh://host") (bytes "ssh://host")
asks callback = refl

check_remote_health_iff_example :
    (check_remote_health env_var cred_ops connect (bytes "ssh://host") [] ≡ ok tt) ↔ (
      (user : Bytes) × (home : Bytes) × (env_var (bytes "USER") ≡ some user)
      × (env_var (bytes "HOME") ≡ some home)
      × Accepts env_var cred_ops connect decides user home)
check_remote_health_iff_example =
    check_remote_health_iff env_var cred_ops connect decides (bytes "ssh://host")
      (bytes "ssh://host") [] refl asks
