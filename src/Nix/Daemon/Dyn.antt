-- ===== src/Nix/Daemon/Dyn.antt =====
-- `DynNixDaemon` of src/nix_interface/daemon.rs: a client of the local daemon or of a remote one.
use gachix.Prelude.{Option, Result, Exec, Bool}
use gachix.Bytes.{Bytes}
use gachix.GitStore.Daemons.{PathInfo}
use gachix.Nix.Daemon
use gachix.Nix.Daemon.{NixDaemon, DaemonStore, ConnectUnix, Ssh, connect_local, connect_remote}
use gachix.Nix.StorePath.{NixPath}

-- Which of the two clients it is, with its connection's type.
pub data DynNixDaemon (LocalConn RemoteConn Key : Type 0) : Type 0 where
  dyn_local : NixDaemon LocalConn Key → DynNixDaemon LocalConn RemoteConn Key
  dyn_remote : NixDaemon RemoteConn Key → DynNixDaemon LocalConn RemoteConn Key

module _ {LocalConn RemoteConn Key : Type 0} where
  abbrev pub as_local :
      {A : Type 0}
      → Result A × NixDaemon LocalConn Key
      → Result A × DynNixDaemon LocalConn RemoteConn Key
  as_local (x, nix) = (x, dyn_local nix)

  abbrev pub as_remote :
      {A : Type 0}
      → Result A × NixDaemon RemoteConn Key
      → Result A × DynNixDaemon LocalConn RemoteConn Key
  as_remote (x, nix) = (x, dyn_remote nix)

  -- The `match self` of each operation.
  unfoldable pub dispatch :
      {A : Type 0}
      → Exec (NixDaemon LocalConn Key) A
      → Exec (NixDaemon RemoteConn Key) A
      → Exec (DynNixDaemon LocalConn RemoteConn Key) A
  dispatch m n (dyn_local nix) = as_local (m nix)
  dispatch m n (dyn_remote nix) = as_remote (n nix)

  module _ {Addr Stream Session Channel : Type 0} (connect_unix : ConnectUnix LocalConn)
      (ssh : Ssh Addr Stream Session Channel RemoteConn Key) where
    unfoldable pub connect : Exec (DynNixDaemon LocalConn RemoteConn Key) (Unit {0})
    connect = dispatch (connect_local connect_unix) (connect_remote ssh)

  module _ {Build : Type 0} (local_store : DaemonStore LocalConn Build)
      (remote_store : DaemonStore RemoteConn Build) where
    unfoldable pub get_pathinfo :
        NixPath → Exec (DynNixDaemon LocalConn RemoteConn Key) (Option PathInfo)
    get_pathinfo path =
        dispatch (Daemon.get_pathinfo local_store path) (Daemon.get_pathinfo remote_store path)

    unfoldable pub path_exists : NixPath → Exec (DynNixDaemon LocalConn RemoteConn Key) Bool
    path_exists store_path =
        dispatch (Daemon.path_exists local_store store_path)
          (Daemon.path_exists remote_store store_path)

    unfoldable pub fetch :
        {S R : Type 0}
        → NixPath
        → (Bytes → Exec S R)
        → Exec (DynNixDaemon LocalConn RemoteConn Key × S) R
    fetch store_path parser (dyn_local nix, s) =
        let (x, (nix', s')) = Daemon.fetch local_store store_path parser (nix, s) in
        (x, (dyn_local nix', s'))
    fetch store_path parser (dyn_remote nix, s) =
        let (x, (nix', s')) = Daemon.fetch remote_store store_path parser (nix, s) in
        (x, (dyn_remote nix', s'))

  unfoldable pub disconnect :
      DynNixDaemon LocalConn RemoteConn Key → DynNixDaemon LocalConn RemoteConn Key
  disconnect (dyn_local nix) = dyn_local (Daemon.disconnect nix)
  disconnect (dyn_remote nix) = dyn_remote (Daemon.disconnect nix)

  unfoldable pub get_address : DynNixDaemon LocalConn RemoteConn Key → Bytes
  get_address (dyn_local nix) = nix.address
  get_address (dyn_remote nix) = nix.address
