-- ===== src/GitStore/Opening/Logged.antt =====
-- What logging changes of the opening of a store, and the key that a store is opened with.
use gachix.Prelude.{
  ◌≡◌, refl, sym, ap, subst, if◌then◌else◌, Bool, true, false, Option, none, some, Result, ok, err,
  ◌↔◌, and_then, and_then-ok,
}
use gachix.Bytes.{Bytes}
use gachix.Git.{lift_result}
use gachix.GitStore.Daemons.{StoreSettings}
use gachix.GitStore.Listing.{Glob, num_available_packages}
use gachix.GitStore.Opening.{
  Filesystem, GitOpen, Store, info, unwrap, set_protocol, new_repo, read_key, with_repo, new,
}
use gachix.Nix.Signature.{SecretKey, from_str}

abbrev pub IsOk : {A : Type 0} → Result A → Type 0
IsOk {A = A} x = (a : A) × (x ≡ ok a)

module _ {A B : Type 0} where
  -- A result that is logged and dropped.
  log-first :
      (x : Result A) (k : Result B) (b : B)
      → (and_then (info true x) (λ u. k) ≡ ok b)
        ↔ ((and_then (info false x) (λ u. k) ≡ ok b) × IsOk x)
  unfolding info
  log-first (ok a) k b = ((λ h. (h, (a, refl))), (λ (h, rest). h))
  log-first (err e) k b = ((λ h. cc), (λ (h, (a, absurd)). cc))

  -- What is logged before a sequence and within it.
  log-and_then :
      (x y : Result A) (f g : A → Result B) (P Q : Type 0) (b : B)
      → ((a : A) → (x ≡ ok a) ↔ ((y ≡ ok a) × P))
      → ((a : A) → (f a ≡ ok b) ↔ ((g a ≡ ok b) × Q))
      → (and_then x f ≡ ok b) ↔ ((and_then y g ≡ ok b) × (P × Q))
  log-and_then x y f g P Q b first second = (
    (λ h.
        let (a, e, rest) = and_then-ok x f b h in
        let (quiet, p) = (first a).0 e in
        let (ends, q) = (second a).0 rest in (rw (quiet) ends, (p, q))),
    (λ (h, (p, q)).
        let (a, e, rest) = and_then-ok y g b h in
        let loud = (first a).1 (e, p) in let ends = (second a).1 (rest, q) in rw (loud) ends),
  )

module _ {FsPath Repo Config : Type 0} (files : Filesystem FsPath)
    (git_open : GitOpen FsPath Repo Config) where
  at_hand :
      (there logged : Bool) (path : FsPath)
      → and_then (info logged (unwrap (files.to_str path))) (λ u.
        if there then lift_result (git_open.open_at path) else lift_result (git_open.init_at path))
        ≡ (if there
            then and_then
                (info logged (unwrap (files.to_str path)))
                (λ u. lift_result (git_open.open_at path))
            else and_then
                (info logged (unwrap (files.to_str path)))
                (λ u. lift_result (git_open.init_at path)))
  at_hand true logged path = refl
  at_hand false logged path = refl

  new_repo-logged :
      (path : FsPath) (repo : Repo)
      → (new_repo files git_open true path ≡ ok repo) ↔ (
          (new_repo files git_open false path ≡ ok repo)
          × (IsOk (unwrap (files.to_str path)) × Unit {0}))
  unfolding new_repo
  new_repo-logged path repo =
      log-and_then _ _ (set_protocol files git_open) (set_protocol files git_open)
        (IsOk (unwrap (files.to_str path))) Unit repo
        (λ found.
          rw
            (
              sym (at_hand (files.exists_at path) true path),
              sym (at_hand (files.exists_at path) false path),
            )
            (log-first (unwrap (files.to_str path)) _ found))
        (λ found. ((λ h. (h, tt)), (λ (h, u). h)))

module _ {FsPath : Type 0} (files : Filesystem FsPath) where
  -- The path of the key, if there is one, is that of a file that can be resolved.
  abbrev pub IsResolved : Option FsPath → Type 0
  IsResolved none = Unit
  IsResolved (some key_path) = IsOk (files.canonicalize key_path)

module _ {FsPath : Type 0} (files : Filesystem FsPath) (decode : Bytes → Result Bytes) where
  read_key-logged :
      (key_path : Option FsPath) (key : Option SecretKey)
      → (read_key files decode true key_path ≡ ok key)
        ↔ ((read_key files decode false key_path ≡ ok key) × (Unit {0} × IsResolved files key_path))
  unfolding read_key
  read_key-logged none key = ((λ h. (h, (tt, tt))), (λ (h, (u, v)). h))
  read_key-logged (some at) key =
      log-and_then (and_then (files.read_to_string at) (from_str decode))
        (and_then (files.read_to_string at) (from_str decode)) _ _ Unit
        (IsOk (files.canonicalize at)) key (λ read. ((λ h. (h, tt)), (λ (h, u). h)))
        (λ read. log-first (files.canonicalize at) (ok (some read)) key)

repo_of : {Url FsPath Repo : Type 0} → Repo → Result (Store Url FsPath Repo) → Repo
repo_of repo (ok store) = store.repo
repo_of repo (err e) = repo

module _ {Url FsPath Repo Config : Type 0} (files : Filesystem FsPath)
    (decode : Bytes → Result Bytes) (git_open : GitOpen FsPath Repo Config) (glob : Glob Repo) where
  counted-logged :
      (settings : StoreSettings Url FsPath) (repo : Repo) (key : Option SecretKey)
      (store : Store Url FsPath Repo)
      → let opened : Store Url FsPath Repo = record {
        settings = settings;
        repo = repo;
        private_key = key;
      } in
        (and_then (info true (num_available_packages glob repo)) (λ u. ok opened) ≡ ok store) ↔ (
          (and_then (info false (num_available_packages glob repo)) (λ u. ok opened) ≡ ok store)
          × IsOk (num_available_packages glob store.repo))
  unfolding info repo_of
  counted-logged settings repo key store =
      let opened : Store Url FsPath Repo = record {
        settings = settings;
        repo = repo;
        private_key = key;
      } in
      let split = log-first (num_available_packages glob repo) (ok opened) store in
      (
        (λ h.
            let (quiet, n) = split.0 h in
            (quiet, subst (λ r. IsOk (num_available_packages glob r)) (ap (repo_of repo) quiet) n)),
        (λ (quiet, n). split.1 (
          quiet,
          subst (λ r. IsOk (num_available_packages glob r)) (sym (ap (repo_of repo) quiet)) n,
        )),
      )

  with_repo-logged :
      (settings : StoreSettings Url FsPath) (store : Store Url FsPath Repo) (repo : Repo)
      → (with_repo files decode glob true settings repo ≡ ok store) ↔ (
          (with_repo files decode glob false settings repo ≡ ok store)
          × ((Unit {0} × IsResolved files settings.sign_private_key_path)
              × IsOk (num_available_packages glob store.repo)))
  unfolding with_repo
  with_repo-logged settings store repo =
      let at = settings.sign_private_key_path in
      log-and_then (read_key files decode true at) (read_key files decode false at) _ _
        (Unit × IsResolved files at) (IsOk (num_available_packages glob store.repo)) store
        (read_key-logged files decode at) (λ key. counted-logged settings repo key store)

  -- With the level `info` logged, a store is opened exactly if it is opened without, the path of the
  -- repository is UTF-8, the path of the key, if there is one, can be resolved, and the packages of the
  -- repository can be listed.
  pub new-logged_iff :
      (settings : StoreSettings Url FsPath) (store : Store Url FsPath Repo)
      → (new files decode git_open glob true settings ≡ ok store) ↔ (
          (new files decode git_open glob false settings ≡ ok store)
          × IsOk (unwrap (files.to_str settings.path))
          × IsResolved files settings.sign_private_key_path
          × IsOk (num_available_packages glob store.repo))
  unfolding new
  new-logged_iff settings store =
      let all =
        log-and_then (new_repo files git_open true settings.path)
          (new_repo files git_open false settings.path) (with_repo files decode glob true settings)
          (with_repo files decode glob false settings)
          (IsOk (unwrap (files.to_str settings.path)) × Unit)
          ((Unit × IsResolved files settings.sign_private_key_path)
            × IsOk (num_available_packages glob store.repo))
          store (new_repo-logged files git_open settings.path) (with_repo-logged settings store) in
      (
        (λ h. let (quiet, ((p, u), ((v, r), n))) = all.0 h in (quiet, p, r, n)),
        (λ (quiet, p, r, n). all.1 (quiet, ((p, tt), ((tt, r), n)))),
      )
