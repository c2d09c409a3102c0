-- ===== src/GitStore/Daemons/Session.antt =====
-- What `get_package_from_nix_daemons` of src/git_store/store.rs does with one client of
-- src/nix_interface/daemon.rs, and that its client's connection can be left out.
use gachix.Prelude.{
  List, ◌∷◌, Bool-cases, inl, inr, not_authenticated, ◌≡◌, refl, sym, ap, ◌∙◌, Bool, true, false,
  not, subst, Option, none, some, Result, ok, err, Exec, continue, continue_assoc, pure, ◌>>=◌,
  ◌>>◌, if◌then◌else◌, and_then,
}
use gachix.Bytes.{Bytes, bytes}
use gachix.Git.{Git}
use gachix.GitStore.Repository.{add_nar, add_file_content}
use gachix.GitStore.Package.{OidText, wrap_single_file, add_package}
use gachix.GitStore.Daemons.{
  Daemon, HashText, PrivateKey, narinfo_from, build_narinfo, fetch_package, lift,
}
use gachix.Nix.Daemon.{
  NixDaemon, DaemonStore, opened, with_connection, put_back, request, get_pathinfo, path_exists,
  parsed, fetch, ConnectUnix, connect_local, Ssh, open_remote, connect_remote,
}
use gachix.Nix.StorePath.{NixPath}
use gachix.Nix.NarInfo
use gachix.Nix.NarInfo.{NarInfo}
use gachix.GitStore.Daemons.Simulation.{
  on_client, on_store, Same, Agrees, Simulates, pure-Simulates, lift-Simulates, on_store-Simulates,
  bind-Simulates, if-Simulates, request-Simulates, continue_cong, lift_and_then,
}

module _ {Conn Key Build Repo Oid Builder : Type 0} (g : Git Repo Oid Builder) (text : OidText Oid)
    (hashes : HashText) (private_key : Option PrivateKey) (store : DaemonStore Conn Build) where
  -- From a client that has the path: the archive into the repository, and the narinfo.
  unfoldable pub fetch_by :
      NixPath → Exec (NixDaemon Conn Key × Repo) (Option (NarInfo × Oid × Oid))
  fetch_by path = do
    (oid, filemode) ← fetch store path (add_nar g)
    package_oid ← on_store (wrap_single_file g oid filemode)
    info ← on_client (get_pathinfo store path)
    narinfo ← lift (narinfo_from hashes private_key (text.to_string package_oid) path info)
    narinfo_blob_oid ← on_store (add_file_content g (NarInfo.to_string narinfo))
    pure (some (narinfo, narinfo_blob_oid, package_oid))

  -- The body of the loop over the daemons, up to the end of the connection.
  unfoldable pub session :
      Exec (NixDaemon Conn Key) (Unit {0})
      → NixPath
      → Exec (NixDaemon Conn Key × Repo) (Option (NarInfo × Oid × Oid))
  session connect path = do
    on_client connect
    found ← on_client (path_exists store path)
    if not found then pure none else fetch_by path

module _ {Repo Oid Builder : Type 0} (g : Git Repo Oid Builder) (text : OidText Oid)
    (hashes : HashText) (private_key : Option PrivateKey) where
  -- The same, by what the daemon answers.
  abbrev pub by_answers : Daemon → NixPath → Exec Repo (Option (NarInfo × Oid × Oid))
  by_answers d path = do
    lift d.connect
    found ← lift (d.path_exists path)
    if not found then pure none else fetch_package hashes private_key g text d path

-- On an open connection, whatever was asked before, the daemon answers so.
pub record Answers {Conn Build : Type 0} (store : DaemonStore Conn Build) (d : Daemon)
    : Type 0 where
  pub answers_exists :
      (path : NixPath) (c : Conn) → (store.is_valid_path path c).0 ≡ d.path_exists path
  pub answers_nar :
      (path : NixPath) (c : Conn) → (store.nar_from_path path c).0 ≡ d.nar_from_path path
  pub answers_pathinfo :
      (path : NixPath) (c : Conn) → (store.query_pathinfo path c).0 ≡ d.get_pathinfo path

module _ {Repo Oid Builder : Type 0} (g : Git Repo Oid Builder) (text : OidText Oid)
    (hashes : HashText) (private_key : Option PrivateKey) (d : Daemon) where
  -- `fetch_package` in the order of `fetch_by`.
  abbrev fetch_in_order : NixPath → Exec Repo (Option (NarInfo × Oid × Oid))
  fetch_in_order path = do
    (oid, filemode) ← (lift (d.nar_from_path path) >>= add_nar g)
    package_oid ← wrap_single_file g oid filemode
    info ← lift (d.get_pathinfo path)
    narinfo ← lift (narinfo_from hashes private_key (text.to_string package_oid) path info)
    narinfo_blob_oid ← add_file_content g (NarInfo.to_string narinfo)
    pure (some (narinfo, narinfo_blob_oid, package_oid))

  fetch_package-eq :
      (path : NixPath) (r : Repo)
      → fetch_in_order path r ≡ fetch_package hashes private_key g text d path r
  unfolding fetch_package add_package build_narinfo
  fetch_package-eq path r = go (d.nar_from_path path)
    where
      stored : Oid → NarInfo → Exec Repo (Option (NarInfo × Oid × Oid))
      stored o n = add_file_content g (NarInfo.to_string n) >>= λ b. pure (some (n, b, o))

      described : Oid → Exec Repo (Option (NarInfo × Oid × Oid))
      described o = lift (d.get_pathinfo path) >>= λ info.
          lift (narinfo_from hashes private_key (text.to_string o) path info) >>= stored o

      built : Oid → Exec Repo (Option (NarInfo × Oid × Oid))
      built o = lift (build_narinfo hashes private_key d (text.to_string o) path) >>= stored o

      go :
          (x : Result Bytes)
          → continue (continue (x, r) (add_nar g)) (λ (o, m). wrap_single_file g o m >>= described)
            ≡ continue (x, r) (λ nar. add_package g nar >>= built)
      go (err e) = refl
      go (ok nar) =
          continue_assoc (add_nar g nar r) (λ (o, m). wrap_single_file g o m) described
          ∙ continue_cong (continue (add_nar g nar r) (λ (o, m). wrap_single_file g o m)) described
              built
              (λ o s.
                lift_and_then (d.get_pathinfo path)
                  (narinfo_from hashes private_key (text.to_string o) path) (stored o) s)

  if-eq :
      (b : Bool) (path : NixPath) (r : Repo)
      → (if b then pure none else fetch_in_order path) r
        ≡ (if b then pure none else fetch_package hashes private_key g text d path) r
  if-eq true path r = refl
  if-eq false path r = fetch_package-eq path r

  answered :
      (path : NixPath) (r : Repo)
      → continue
          (d.path_exists path, r)
          (λ found. if not found then pure none else fetch_in_order path)
        ≡ continue
            (d.path_exists path, r)
            (λ found.
              if not found then pure none else fetch_package hashes private_key g text d path)
  answered path r = continue_cong (d.path_exists path, r) _ _ (λ found s. if-eq (not found) path s)

module _ {Conn Key Build Repo Oid Builder : Type 0} (g : Git Repo Oid Builder) (text : OidText Oid)
    (hashes : HashText) (private_key : Option PrivateKey) (store : DaemonStore Conn Build)
    (d : Daemon) (answers : Answers store d) where
  fetch-Simulates :
      {R : Type 0} (path : NixPath) (parser : Bytes → Exec Repo R)
      → Simulates {Key = Key} (fetch store path parser) (lift (d.nar_from_path path) >>= parser)
  unfolding fetch request
  fetch-Simulates path parser = record {
    agrees = λ nix r (c, open_on).
        rw (open_on) (go nix (store.nar_from_path path c) r (answers.answers_nar path c));
  }
    where
      go :
          (nix : NixDaemon Conn Key) (x : Result Bytes × Conn) (r : Repo)
          → x.0 ≡ d.nar_from_path path
          → Agrees (parsed parser (put_back nix x) r) (continue (d.nar_from_path path, r) parser)
      go nix (ok nar, c) r e = rw (sym e) (refl, refl, (c, refl))
      go nix (err x, c) r e = rw (sym e) (refl, refl, (c, refl))

  fetch_by-Simulates :
      (path : NixPath)
      → Simulates {Key = Key}
          (fetch_by g text hashes private_key store path)
          (fetch_in_order g text hashes private_key d path)
  unfolding fetch_by get_pathinfo
  fetch_by-Simulates path =
      bind-Simulates _ _ _ _ (fetch-Simulates path (add_nar g)) λ (oid, filemode).
        bind-Simulates _ _ _ _ (on_store-Simulates (wrap_single_file g oid filemode)) λ o.
          bind-Simulates _ _ _ _
            (request-Simulates (store.query_pathinfo path) _ (answers.answers_pathinfo path))
            λ info.
              bind-Simulates _ _ _ _
                (lift-Simulates (narinfo_from hashes private_key (text.to_string o) path info))
                λ n.
                  bind-Simulates _ _ _ _
                    (on_store-Simulates (add_file_content g (NarInfo.to_string n)))
                    λ b. pure-Simulates (some (n, b, o))

  after_connect :
      (path : NixPath)
      → Simulates {Key = Key}
          (on_client (path_exists store path) >>= λ found.
            if not found then pure none else fetch_by g text hashes private_key store path)
          (lift (d.path_exists path) >>= λ found.
            if not found then pure none else fetch_in_order g text hashes private_key d path)
  unfolding path_exists
  after_connect path =
      bind-Simulates _ _ _ _
        (request-Simulates (store.is_valid_path path) _ (answers.answers_exists path))
        λ found. if-Simulates (not found) _ _ _ _ (pure-Simulates none) (fetch_by-Simulates path)

  session-answers :
      (opener : NixDaemon Conn Key → Result Conn) (nix : NixDaemon Conn Key) (path : NixPath)
      (r : Repo)
      → d.connect ≡ and_then (opener nix) (λ c. ok tt)
      → Same
          (session g text hashes private_key store (λ nix. opened (opener nix) nix) path (nix, r))
          (by_answers g text hashes private_key d path r)
  unfolding session
  session-answers opener nix path r connects = go (opener nix) d.connect connects
    where
      rest : Exec (NixDaemon Conn Key × Repo) (Option (NarInfo × Oid × Oid))
      rest = on_client (path_exists store path) >>= λ found.
          if not found then pure none else fetch_by g text hashes private_key store path

      rest' : Exec Repo (Option (NarInfo × Oid × Oid))
      rest' = lift (d.path_exists path) >>= λ found.
          if not found then pure none else fetch_package hashes private_key g text d path

      go :
          (x : Result Conn) (y : Result (Unit {0}))
          → y ≡ and_then x (λ c. ok tt)
          → Same
              (continue (on_client (opened x) (nix, r)) (λ _. rest))
              (continue (y, r) (λ _. rest'))
      go (err e) y h =
          subst (λ y. Same (err e, (nix, r)) (continue (y, r) (λ _. rest'))) (sym h) (refl, refl)
      go (ok c) y h =
          let nix' = with_connection (some c) nix in
          let (same, state, connected) = (after_connect path).agrees nix' r (c, refl) in
          subst (λ y. Same (rest (nix', r)) (continue (y, r) (λ _. rest'))) (sym h)
            (
              same ∙ ap (λ q. q.0) (answered g text hashes private_key d path r),
              state ∙ ap (λ q. q.1) (answered g text hashes private_key d path r),
            )

  -- Let a daemon answer requests the same on any connection, and let connecting to its socket end as its
  -- answer to connecting says. Then what the loop does with a client of the local daemon is what it does by
  -- the daemon's answers: the same result, and the same repository.
  pub local_session-answers :
      (connect_unix : ConnectUnix Conn) (nix : NixDaemon Conn Key) (path : NixPath) (r : Repo)
      → d.connect ≡ and_then (connect_unix nix.address) (λ c. ok tt)
      → Same
          (session g text hashes private_key store (connect_local connect_unix) path (nix, r))
          (by_answers g text hashes private_key d path r)
  unfolding connect_local
  local_session-answers connect_unix nix path r connects =
      session-answers (λ nix. connect_unix nix.address) nix path r connects

  -- Let a remote daemon answer requests the same on any connection; let its host have an address, and its TCP
  -- connection, the handshake and the request to authenticate as `nix-ssh` with the client's key end well;
  -- and let the daemon's answer to connecting be an error, if the session is not authenticated then, and
  -- otherwise what opening a channel, running an empty command and the daemon's handshake come to. Then what
  -- the loop does with a client of it is what it does by the daemon's answers: the same result, and the same
  -- repository.
  pub remote_session-answers :
      {Addr Stream Session Channel : Type 0} (ssh : Ssh Addr Stream Session Channel Conn Key)
      (nix : NixDaemon Conn Key) (path : NixPath) (r : Repo) (addr : Addr) (addrs : List Addr)
      (stream : Stream) (asked session' : Session) (key_path : Key)
      → ssh.to_socket_addrs nix.address 22 ≡ ok (addr ∷ addrs)
      → ssh.connect_tcp addr ≡ ok stream
      → and_then (ssh.new_session stream) ssh.handshake ≡ ok asked
      → nix.ssh_private_key_path ≡ some key_path
      → ssh.userauth_pubkey_file (bytes "nix-ssh") key_path asked ≡ ok session'
      → d.connect ≡ (
          if ssh.authenticated session'
          then and_then
              (and_then (and_then (ssh.channel_session session') (ssh.exec (bytes ""))) ssh.init)
              (λ c. ok tt)
          else err not_authenticated)
      → Same
          (session g text hashes private_key store (connect_remote ssh) path (nix, r))
          (by_answers g text hashes private_key d path r)
  unfolding connect_remote open_remote
  remote_session-answers ssh nix path r addr addrs stream asked session' key_path found connected
        shaken has_key requested connects =
      session-answers (open_remote ssh) nix path r (
        connects ∙ elim (Bool-cases (ssh.authenticated session')) [
          | inl allowed ↦ rw (found, connected, shaken, has_key, requested, allowed)
          | inr refused ↦ rw (found, connected, shaken, has_key, requested, refused)
        ])
