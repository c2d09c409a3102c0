-- ===== src/Nix/Daemon.antt =====
-- src/nix_interface/daemon.rs: the client of a Nix daemon, as a state machine: connected or not. The
-- protocol on an open connection, sockets and ssh are those of crates, parameters here.
pub mod Dyn
use gachix.Prelude.{
  ℕ, Option, none, some, List, [], ◌∷◌, ◌++◌, map, Result, ok, err, panic, not_connected,
  unresolved, not_authenticated, Exec, pure, raise, ◌>>=◌, ◌>>◌, Bool, if◌then◌else◌, and_then,
}
use gachix.Bytes.{Bytes, bytes}
use gachix.GitStore.Daemons.{PathInfo}
use gachix.Nix.StorePath.{NixPath}

-- Requests on an open connection, of the crate's `DaemonStore`; `Build` is what it says of a build.
pub record DaemonStore (Conn Build : Type 0) : Type 0 where
  pub query_pathinfo : NixPath → Exec Conn (Option PathInfo)
  pub is_valid_path : NixPath → Exec Conn Bool
  -- the archive that its reader gives
  pub nar_from_path : NixPath → Exec Conn Bytes
  -- `set_options`, with builds as a fallback and without substitutes
  pub set_options : Conn → Conn
  pub build_paths_with_results : List Bytes → Exec Conn (List (Bytes × Build))

-- `nix_daemon::DaemonStore::builder().connect_unix`.
abbrev pub ConnectUnix : Type 0 → Type 0
ConnectUnix Conn = Bytes → Result Conn

-- What opening a connection by ssh calls, in the order of the calls.
pub record Ssh (Addr Stream Session Channel Conn Key : Type 0) : Type 0 where
  pub to_socket_addrs : Bytes → ℕ → Result (List Addr)
  pub connect_tcp : Addr → Result Stream
  pub new_session : Stream → Result Session
  pub handshake : Session → Result Session
  pub userauth_pubkey_file : Bytes → Key → Session → Result Session
  pub authenticated : Session → Bool
  pub channel_session : Session → Result Channel
  pub exec : Bytes → Channel → Result Channel
  pub init : Channel → Result Conn

pub record NixDaemon (Conn Key : Type 0) : Type 0 where
  pub daemon : Option Conn
  pub address : Bytes
  pub ssh_private_key_path : Option Key

abbrev pub first_address : {Addr : Type 0} → List Addr → Result Addr
first_address [] = err unresolved
first_address (a ∷ rest) = ok a

-- `.as_ref().unwrap()`
abbrev pub unwrap : {Key : Type 0} → Option Key → Result Key
unwrap none = err panic
unwrap (some key) = ok key

-- `format!("{}!out", p)`
unfoldable pub out_path : NixPath → Bytes
out_path p = p.path ++ bytes "!out"

module _ {Conn Key : Type 0} where
  unfoldable pub local : NixDaemon Conn Key
  local = record {
    daemon = none;
    address = bytes "/nix/var/nix/daemon-socket/socket";
    ssh_private_key_path = none;
  }

  unfoldable pub remote : Bytes → Key → NixDaemon Conn Key
  remote address key = record { daemon = none; address = address; ssh_private_key_path = some key }

  abbrev pub with_connection : Option Conn → NixDaemon Conn Key → NixDaemon Conn Key
  with_connection c nix = record {
    daemon = c;
    address = nix.address;
    ssh_private_key_path = nix.ssh_private_key_path;
  }

  -- `self.daemon = Some(store)`, if there is one.
  abbrev pub opened : Result Conn → Exec (NixDaemon Conn Key) (Unit {0})
  opened (ok c) nix = (ok tt, with_connection (some c) nix)
  opened (err e) nix = (err e, nix)

  unfoldable pub connect_local : ConnectUnix Conn → Exec (NixDaemon Conn Key) (Unit {0})
  connect_local connect_unix nix = opened (connect_unix nix.address) nix

  unfoldable pub open_remote :
      {Addr Stream Session Channel : Type 0}
      → Ssh Addr Stream Session Channel Conn Key
      → NixDaemon Conn Key
      → Result Conn
  open_remote ssh nix =
      and_then (and_then (ssh.to_socket_addrs nix.address 22) first_address) λ addr.
        and_then (ssh.connect_tcp addr) λ stream.
          and_then (and_then (ssh.new_session stream) ssh.handshake) λ session.
            and_then (unwrap nix.ssh_private_key_path) λ key_path.
              and_then (ssh.userauth_pubkey_file (bytes "nix-ssh") key_path session) λ session'.
                if ssh.authenticated session'
                then and_then (and_then (ssh.channel_session session') (ssh.exec (bytes "")))
                    ssh.init
                else err not_authenticated

  unfoldable pub connect_remote :
      {Addr Stream Session Channel : Type 0}
      → Ssh Addr Stream Session Channel Conn Key
      → Exec (NixDaemon Conn Key) (Unit {0})
  connect_remote ssh nix = opened (open_remote ssh nix) nix

  abbrev pub put_back :
      {A : Type 0} → NixDaemon Conn Key → Result A × Conn → Result A × NixDaemon Conn Key
  put_back nix (x, c) = (x, with_connection (some c) nix)

  -- `let Some(daemon) = &mut self.daemon else { bail!(…) }`, and a request.
  abbrev pub request_on : {A : Type 0} → Option Conn → Exec Conn A → Exec (NixDaemon Conn Key) A
  request_on none m nix = (err not_connected, nix)
  request_on (some c) m nix = put_back nix (m c)

  unfoldable pub request : {A : Type 0} → Exec Conn A → Exec (NixDaemon Conn Key) A
  request m nix = request_on nix.daemon m nix

  unfoldable pub disconnect : NixDaemon Conn Key → NixDaemon Conn Key
  disconnect nix = with_connection none nix

  -- What the parser does with the archive, if there is one.
  abbrev pub parsed :
      {S R : Type 0}
      → (Bytes → Exec S R)
      → Result Bytes × NixDaemon Conn Key
      → S
      → Result R × (NixDaemon Conn Key × S)
  parsed parser (ok nar, nix) s = let (x, s') = parser nar s in (x, (nix, s'))
  parsed parser (err e, nix) s = (err e, (nix, s))

  module _ {Build : Type 0} (store : DaemonStore Conn Build) where
    unfoldable pub get_pathinfo : NixPath → Exec (NixDaemon Conn Key) (Option PathInfo)
    get_pathinfo path = request (store.query_pathinfo path)

    unfoldable pub path_exists : NixPath → Exec (NixDaemon Conn Key) Bool
    path_exists store_path = request (store.is_valid_path store_path)

    unfoldable pub build : List NixPath → Exec (NixDaemon Conn Key) (List (Bytes × Build))
    build drv_paths =
        request (λ c. store.build_paths_with_results (map out_path drv_paths) (store.set_options c))

    unfoldable pub fetch :
        {S R : Type 0} → NixPath → (Bytes → Exec S R) → Exec (NixDaemon Conn Key × S) R
    fetch store_path parser (nix, s) =
        parsed parser (request (store.nar_from_path store_path) nix) s
