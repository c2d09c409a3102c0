-- ===== src/GitStore/Daemons.antt =====
-- src/git_store/store.rs: packages from Nix daemons. A daemon (src/nix_interface/daemon.rs) is a
-- parameter: what its operations answer. Hexadecimal and base-32 numbers and the signature are those
-- of crates, parameters too.
pub mod Fetched
pub mod Frame
pub mod Simulation
pub mod Session
mod Tests
use gachix.Prelude.{
  ℕ, Bool, true, false, not, Option, none, some, List, [], ◌∷◌, ◌++◌, map, Result, ok, err, panic,
  missing_narinfo, missing_ssh_key, Exec, pure, ◌>>=◌, ◌>>◌, if◌then◌else◌, and_then, map_all,
}
use gachix.Bytes.{Bytes, bytes}
use gachix.Git.{Git}
use gachix.GitStore.Repository.{add_file_content}
use gachix.GitStore.Package.{OidText, add_package}
use gachix.Nix.Signature.{SecretKey, sign}
use gachix.Nix.StorePath
use gachix.Nix.StorePath.{NixPath}
use gachix.Nix.NarInfo
use gachix.Nix.NarInfo.{NarInfo, fingerprint_store_object}

-- `nix_daemon::PathInfo`, the fields that the program reads.
pub record PathInfo : Type 0 where
  pub references : List Bytes
  pub nar_size : ℕ
  pub nar_hash : Bytes
  pub deriver : Option Bytes

-- What a daemon answers: `connect`, `path_exists`, the archive that `fetch` hands to its parser, and
-- `get_pathinfo`.
pub record Daemon : Type 0 where
  pub connect : Result (Unit {0})
  pub path_exists : NixPath → Result Bool
  pub nar_from_path : NixPath → Result Bytes
  pub get_pathinfo : NixPath → Result (Option PathInfo)

-- `PrivateKey` of src/nix_interface/signature.rs
abbrev pub PrivateKey : Type 0
PrivateKey = SecretKey

-- `hex::decode`, `nix_base32::to_nix_base32`, `BASE64_STANDARD.encode`, and
-- `Ed25519KeyPair::from_seed_and_public_key`, as what the key pair signs with.
pub record HashText : Type 0 where
  pub hex_decode : Bytes → Result Bytes
  pub to_nix_base32 : Bytes → Bytes
  pub base64_encode : Bytes → Bytes
  pub from_seed_and_public_key : Bytes → Bytes → Option (Bytes → Bytes)

-- `settings::Store`
pub record StoreSettings (Url FsPath : Type 0) : Type 0 where
  pub path : FsPath
  pub builders : List Url
  pub remotes : List Url
  pub use_local_nix_daemon : Bool
  pub sign_private_key_path : Option FsPath
  pub ssh_private_key_path : Option FsPath

module _ {Url Key : Type 0} (local : Daemon) (host_str : Url → Option Bytes) where
  -- `NixDaemon::remote(&url.host_str().unwrap(), key_file.clone())`
  unfoldable pub remote_daemon : (Bytes → Key → Daemon) → Key → Url → Result Daemon
  remote_daemon remote key_file url = elim (host_str url) [
    | none ↦ err panic
    | some host ↦ ok (remote host key_file)
  ]

  unfoldable pub available_daemons :
      (Bytes → Key → Daemon) → StoreSettings Url Key → Result (List Daemon)
  available_daemons remote settings =
      let daemons = if settings.use_local_nix_daemon then local ∷ [] else [] in
      elim settings.builders [
        | [] ↦ ok daemons
        | url ∷ urls ↦ elim settings.ssh_private_key_path [
          | none ↦ err missing_ssh_key
          | some key_file ↦
              and_then (map_all (remote_daemon remote key_file) (url ∷ urls))
                λ remotes. ok (daemons ++ remotes)
        ]
      ]

-- `result?` among the operations on a state.
abbrev pub lift : {S A : Type 0} → Result A → Exec S A
lift x s = (x, s)

-- `path_info.deriver.map(|d| NixPath::new(&d)).transpose()`
unfoldable pub parse_optional : Option Bytes → Result (Option NixPath)
parse_optional none = ok none
parse_optional (some d) = and_then (StorePath.new d) (λ p. ok (some p))

module _ (hashes : HashText) where
  abbrev pub nar_hash_text : Bytes → Bytes
  nar_hash_text nar_hash = bytes "sha256:" ++ hashes.to_nix_base32 nar_hash

  -- Signing is a panic, if the halves of the key are not those of a pair.
  unfoldable pub signature_of :
      Option PrivateKey → NixPath → Bytes → ℕ → List NixPath → Result (Option Bytes)
  signature_of none store_path nar_hash nar_size references = ok none
  signature_of (some key) store_path nar_hash nar_size references =
      let fingerprint = fingerprint_store_object store_path nar_hash nar_size references in
      and_then (sign hashes.from_seed_and_public_key key fingerprint) λ signature_bytes.
        ok (some (key.name ++ (bytes ":" ++ hashes.base64_encode signature_bytes)))

module _ (hashes : HashText) (private_key : Option PrivateKey) where
  -- The narinfo of a daemon's information, after its hash, its references and its deriver are read, and
  -- it is signed.
  unfoldable pub narinfo_of :
      Bytes → NixPath → PathInfo → List NixPath → Bytes → Option Bytes → Option NixPath → NarInfo
  narinfo_of key store_path info references nar_hash signature deriver =
      let nar_hash_32_base = nar_hash_text hashes nar_hash in
      NarInfo.new store_path key nar_hash_32_base info.nar_size none nar_hash_32_base info.nar_size
        deriver references signature

  unfoldable pub narinfo_from : Bytes → NixPath → Option PathInfo → Result NarInfo
  narinfo_from key store_path none = err missing_narinfo
  narinfo_from key store_path (some info) =
      and_then (map_all StorePath.new info.references) λ references.
        and_then (hashes.hex_decode info.nar_hash) λ nar_hash.
          and_then
            (signature_of hashes private_key store_path (nar_hash_text hashes nar_hash)
              info.nar_size references)
            λ signature.
              and_then (parse_optional info.deriver)
                λ deriver. ok (narinfo_of key store_path info references nar_hash signature deriver)

  unfoldable pub build_narinfo : Daemon → Bytes → NixPath → Result NarInfo
  build_narinfo daemon key store_path =
      and_then (daemon.get_pathinfo store_path) (narinfo_from key store_path)

  module _ {Repo Oid Builder : Type 0} (g : Git Repo Oid Builder) (text : OidText Oid) where
    -- The package from a daemon that has it, with the narinfo and the oids of its text and of the
    -- package.
    unfoldable pub fetch_package : Daemon → NixPath → Exec Repo (Option (NarInfo × Oid × Oid))
    fetch_package daemon package_path = do
      nar ← lift (daemon.nar_from_path package_path)
      package_oid ← add_package g nar
      narinfo ← lift (build_narinfo daemon (text.to_string package_oid) package_path)
      narinfo_blob_oid ← add_file_content g (NarInfo.to_string narinfo)
      pure (some (narinfo, narinfo_blob_oid, package_oid))

    -- The loop over the available daemons: an error ends it, a daemon without the path does not.
    unfoldable pub get_package_from_nix_daemons :
        List Daemon → NixPath → Exec Repo (Option (NarInfo × Oid × Oid))
    get_package_from_nix_daemons [] package_path = pure none
    get_package_from_nix_daemons (daemon ∷ daemons) package_path =
        let rest = get_package_from_nix_daemons daemons package_path in
        do
          lift daemon.connect
          exists ← lift (daemon.path_exists package_path)
          if not exists then rest else fetch_package daemon package_path
