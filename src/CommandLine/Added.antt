-- ===== src/CommandLine/Added.antt =====
-- What there is after the program added a package.
use gachix.Prelude.{
  ◌≡◌, ℕ, false, Bool, Option, List, [], Result, ok, continue-ok, and_then-ok, ◌∙◌, ap, sym, subst,
}
use gachix.Bytes.{Bytes}
use gachix.CommandLine.{
  Settings, Server, Add, add, Operations, run_async, run_add, run_command, unwrap_or, main,
}
use gachix.Git.{Git}
use gachix.Git.Laws.{GitLaws}
use gachix.GitStore.Closure.Linked.{ResultIs, AllLinked}
use gachix.GitStore.Closure.Local.{add_local, add_closure_local-Added}
use gachix.GitStore.Commit.{Commits}
use gachix.GitStore.Daemons.{Daemon, HashText, lift}
use gachix.GitStore.Laws.{StoreLaws}
use gachix.GitStore.Listing.{Glob, add_closure}
use gachix.GitStore.Opening
use gachix.GitStore.Opening.{Store, Filesystem, GitOpen}
use gachix.GitStore.Package.{OidText}
use gachix.GitStore.Peers.{Remotes}
use gachix.GitStore.References.{Refs}
use gachix.Nix.StorePath
use gachix.Nix.StorePath.{NixPath}

pub ok-injective : {A : Type 0} (a b : A) → ok a ≡ ok b → a ≡ b
ok-injective a b h = cc

module _ {Url FsPath Repo : Type 0} (ops : Operations Url FsPath Repo)
    (store : Store Url FsPath Repo) where
  run_async-added :
      (file_path : Bytes) (r s : Repo)
      → run_async ops store (record { file_path = file_path; single = false }) r ≡ (ok tt, s)
      → (path : NixPath) × (StorePath.new file_path ≡ ok path)
        × (ops.add_closure store path r ≡ (ok tt, s))
  unfolding run_async
  run_async-added file_path r s h =
      let (path, r1, e1, h1) = continue-ok (lift (StorePath.new file_path) r) _ tt s h in
      let (healthy, r2, e2, h2) = continue-ok (lift (ops.peer_health_check store) r1) _ tt s h1 in
      let same : r ≡ r2 = ap (λ q. q.1) e1 ∙ ap (λ q. q.1) e2 in
      (path, ap (λ q. q.0) e1, subst (λ q. ops.add_closure store path q ≡ (ok tt, s)) (sym same) h2)

  run_command-added :
      (glob : Glob Repo) (server : Server) (file_path : Bytes) (lines : List Bytes) (r s : Repo)
      → run_command ops store glob server (add (record { file_path = file_path; single = false })) r
        ≡ (ok lines, s)
      → (path : NixPath) × (StorePath.new file_path ≡ ok path)
        × (ops.add_closure store path r ≡ (ok tt, s))
  unfolding run_command run_add
  run_command-added glob server file_path lines r s h =
      let args : Add = record { file_path = file_path; single = false } in
      let (u, r1, e1, h1) = continue-ok (run_add ops store args r) _ lines s h in
      let (v, r2, e2, h2) =
        continue-ok (lift ops.new_runtime r) (λ _. run_async ops store args) u r1 e1 in
      let before : r2 ≡ r = sym (ap (λ q. q.1) e2) in
      let after : r1 ≡ s = ap (λ q. q.1) h1 in
      let ran : run_async ops store args r ≡ (ok tt, s) =
        subst (λ q. run_async ops store args q ≡ (ok tt, s)) before
          (subst (λ q. run_async ops store args r2 ≡ (ok tt, q)) after h2) in
      run_async-added file_path r s ran

module _ {Url FsPath Repo Oid Builder Remote : Type 0} (g : Git Repo Oid Builder)
    (refs : Refs Repo Oid) (commits : Commits Repo Oid) (remotes : Remotes Repo Remote)
    (hashes : HashText) (text : OidText Oid) (daemons : Store Url FsPath Repo → List Daemon)
    (fuel : ℕ) (glob : Glob Repo) (checked : Bool) where
  -- The operations, where add_closure is that of a store without git peers.
  abbrev pub local_ops : Operations Url FsPath Repo → Operations Url FsPath Repo
  local_ops ops = record ops {
    add_closure = λ store.
        add_closure glob checked
          (add_local g refs commits remotes hashes store.private_key text (daemons store) fuel);
  }

module _ {Url FsPath Repo Oid Builder Config Remote : Type 0} {g : Git Repo Oid Builder}
    {refs : Refs Repo Oid} {laws : GitLaws g} {commits : Commits Repo Oid}
    (store_laws : StoreLaws g refs laws commits) (remotes : Remotes Repo Remote) (hashes : HashText)
    (text : OidText Oid) (daemons : Store Url FsPath Repo → List Daemon) (fuel : ℕ)
    (files : Filesystem FsPath) (decode : Bytes → Result Bytes)
    (git_open : GitOpen FsPath Repo Config) (glob : Glob Repo) (checked : Bool)
    (load_config : Bytes → Result (Settings Url FsPath)) (logged : Bytes → Bool)
    (base : Operations Url FsPath Repo) where
  -- If every result has results of packages as its parents in the repository that is opened, and the
  -- program, without git peers, ends without an error on `add` without `--single`, then the argument is a
  -- store path, its package has a result in the repository that is left, and every result there has
  -- results of packages as its parents.
  pub main-Added :
      (config : Option Bytes) (file_path : Bytes) (lines : List Bytes) (s : Repo)
      → ((settings : Settings Url FsPath) (store : Store Url FsPath Repo)
          → load_config (unwrap_or config []) ≡ ok settings
          → Opening.new files decode git_open glob (logged settings.log_level) settings.store
            ≡ ok store
          → AllLinked g refs store.repo)
      → main files decode git_open glob load_config logged
          (local_ops g refs commits remotes hashes text daemons fuel glob checked base)
          (record { config = config; cmd = add (record { file_path = file_path; single = false }) })
        ≡ ok (ok lines, s)
      → (path : NixPath) × (StorePath.new file_path ≡ ok path)
        × (o : Oid) × ResultIs g refs s path.hash o
        × AllLinked g refs s
  unfolding main
  main-Added config file_path lines s linked h =
      let ops = local_ops g refs commits remotes hashes text daemons fuel glob checked base in
      let (settings, e1, h1) = and_then-ok (load_config (unwrap_or config [])) _ (ok lines, s) h in
      let (store, e2, h2) =
        and_then-ok
          (Opening.new files decode git_open glob (logged settings.log_level) settings.store) _
          (ok lines, s) h1 in
      let (path, is_path, added) =
        run_command-added ops store glob settings.server file_path lines store.repo s
          (ok-injective _ _ h2) in
      let (o, result, kept) =
        add_closure_local-Added store_laws remotes hashes store.private_key text (daemons store)
          glob checked fuel path store.repo s (linked settings store e1 e2) added in
      (path, is_path, o, result, kept)
