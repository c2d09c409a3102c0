-- ===== src/GitStore/Peers/Kept.antt =====
-- What fetching from a peer (src/git_store/repository.rs, src/git_store/store.rs) keeps: the narinfos that
-- are there, and so the dependencies that they name.
use gachix.Prelude.{
  ◌≢◌, ◌∙◌, sym, length, Bool-cases, ◌≡◌, refl, true, false, not, inl, inr, Option, none, some,
  Option-cases, List, [], ◌∷◌, ◌++◌, All, All-map, Result, ok, err, and_then, arith, ◌==◌, Preorder,
  Moves, Moves-pure, Moves-reads, Moves-if, Moves-bind, Moves-then,
}
use gachix.Bytes.{Bytes, bytes}
use gachix.Git.{Git, GitResult, done, failed, lift_git}
use gachix.GitStore.Repository.{get_blob}
use gachix.GitStore.References.{
  Refs, reference_exists, get_oid_from_reference, get_narinfo, get_narinfo_ref, get_result_ref,
  get_commit, get_package_ref,
}
use gachix.GitStore.References.Names.{get_narinfo_ref-starts_with}
use gachix.GitStore.Health.Remote.{Callback, credentials}
use gachix.Text.{starts_with}
use gachix.GitStore.Peers.{
  Remotes, or_panic, contains, or_new, peer_remote, fetch, ok_or, if_received, fetch_from_remote,
  some_narinfo, get_dep_ids, both_exist, fetch_missing,
}
use gachix.Nix.StorePath.{NixPath}

or_panic-Moves :
    {Repo A : Type 0} (P : Preorder Repo) (m : Repo → Option (GitResult A) × Repo)
    → ((r : Repo) → P.rel r (m r).1)
    → Moves P (or_panic m)
unfolding or_panic
or_panic-Moves P m h = record { at = h }

module _ {Repo Oid Builder Remote : Type 0} (g : Git Repo Oid Builder) (refs : Refs Repo Oid)
    (remotes : Remotes Repo Remote) where
  -- References to blobs stay, and so do the blobs, but for the references of one package.
  abbrev pub keeps_others : Bytes → Preorder Repo
  keeps_others id = record {
    rel = λ r s.
        (name : Bytes) (o : Oid) (c : Bytes)
        → starts_with (get_package_ref id ++ bytes "/") name ≡ false
        → refs.find_reference name r ≡ done (some o)
        → get_blob g o r ≡ ok c
        → (refs.find_reference name s ≡ done (some o)) × (get_blob g o s ≡ ok c);
    rel_refl = λ r name o c other h b. (h, b);
    rel_trans = λ r s t f f' name o c other h b.
        let (h', b') = f name o c other h b in f' name o c other h' b';
  }

  abbrev pub refspec_of : Bytes → Bytes
  refspec_of id =
      let reference = get_package_ref id ++ bytes "/*" in reference ++ (bytes ":" ++ reference)

  -- What the loop relies on of libgit2: a new remote leaves the references alone, and a fetch with
  -- `refs/<id>/*:refs/<id>/*` updates only references that the right side of that refspec matches, and
  -- removes no objects. The remote itself is made without a refspec.
  pub record RemoteLaws : Type 0 where
    pub remote_keeps :
        (id name url spec : Bytes) (r : Repo)
        → (keeps_others id).rel r (remotes.remote_with_fetch name url spec r).1
    pub fetch_keeps :
        (id : Bytes) (remote : Remote) (callback : Callback Bytes) (r : Repo)
        → (keeps_others id).rel r (remotes.fetch_refspecs remote callback (refspec_of id ∷ []) r).1

  -- The narinfo of this package is there, and the packages that it names are among these.
  abbrev pub IsLooked : Repo → List Bytes → Bytes → Type 0
  IsLooked s ids id =
      (deps : List NixPath) × (get_dep_ids g refs remotes id s ≡ ok deps)
      × All (λ d. contains ids d.hash ≡ true) deps

  get_oid-found :
      (name : Bytes) (o : Oid) (r : Repo)
      → get_oid_from_reference g refs name r ≡ some o
      → refs.find_reference name r ≡ done (some o)
  unfolding get_oid_from_reference
  get_oid-found name o r h = ground arith

  content-some :
      (x : Result Bytes) (c : Bytes)
      → ◌≡◌ {A = Result (Option Bytes)}
          (elim x [ ok content ↦ ok (some content) | err e ↦ err e ])
          (ok (some c))
      → x ≡ ok c
  content-some (ok d) c h = cc
  content-some (err e) c h = cc

  get_narinfo-some :
      (id c : Bytes) (r : Repo)
      → get_narinfo g refs id r ≡ ok (some c)
      → (o : Oid) × (refs.find_reference (get_narinfo_ref id) r ≡ done (some o))
        × (get_blob g o r ≡ ok c)
  unfolding get_narinfo
  get_narinfo-some id c r h =
      elim (Option-cases (get_oid_from_reference g refs (get_narinfo_ref id) r)) [
        | inl missing ↦ cc (rw (get_narinfo, missing) at h)
        | inr (o, found) ↦ (
          o,
          get_oid-found (get_narinfo_ref id) o r found,
          content-some (get_blob g o r) c (rw (get_narinfo, found) at h),
        )
      ]

  get_narinfo_kept :
      (other id c : Bytes) (r s : Repo)
      → (keeps_others other).rel r s
      → starts_with (get_package_ref other ++ bytes "/") (get_narinfo_ref id) ≡ false
      → get_narinfo g refs id r ≡ ok (some c)
      → get_narinfo g refs id s ≡ ok (some c)
  unfolding get_narinfo get_oid_from_reference
  get_narinfo_kept other id c r s kept apart h =
      let (o, found, content) = get_narinfo-some id c r h in
      let (found', content') = kept (get_narinfo_ref id) o c apart found content in
      rw (get_narinfo, get_oid_from_reference, found', content')

  narinfo_first :
      {A : Type 0} (x : Result (Option Bytes)) (f : Bytes → Result A) (a : A)
      → and_then x (λ found. and_then (some_narinfo g refs remotes found) f) ≡ ok a
      → (c : Bytes) × (x ≡ ok (some c))
  narinfo_first (ok (some c)) f a h = (c, refl)
  narinfo_first (ok none) f a h = cc
  narinfo_first (err e) f a h = cc

  -- What has 32 bytes and is not the package itself is apart from it.
  narinfo-apart :
      (other id : Bytes)
      → length other ≡ 32
      → length id ≡ 32
      → other ≢ id
      → starts_with (get_package_ref other ++ bytes "/") (get_narinfo_ref id) ≡ false
  narinfo-apart other id size size' ne =
      elim (Bool-cases (starts_with (get_package_ref other ++ bytes "/") (get_narinfo_ref id))) [
        | inl begins ↦ absurd (ne (get_narinfo_ref-starts_with other id (size ∙ sym size') begins))
        | inr apart ↦ apart
      ]

  -- The dependencies of the packages of a set are read as before.
  abbrev pub keeps_deps : List Bytes → Preorder Repo
  keeps_deps ids = record {
    rel = λ r s.
        (id : Bytes) (deps : List NixPath)
        → contains ids id ≡ true
        → get_dep_ids g refs remotes id r ≡ ok deps
        → get_dep_ids g refs remotes id s ≡ ok deps;
    rel_refl = λ r id deps among h. h;
    rel_trans = λ r s t f f' id deps among h. f' id deps among (f id deps among h);
  }

  abbrev pub AreSized : List Bytes → Type 0
  AreSized ids = (id : Bytes) → contains ids id ≡ true → length id ≡ 32

  pub keeps_deps-others :
      (other : Bytes) (ids : List Bytes) (r s : Repo)
      → length other ≡ 32
      → AreSized ids
      → contains ids other ≡ false
      → (keeps_others other).rel r s
      → (keeps_deps ids).rel r s
  unfolding get_dep_ids
  keeps_deps-others other ids r s size sized new kept id deps among h =
      let ne : other ≢ id = λ e. cc in
      let (c, there) = narinfo_first (get_narinfo g refs id r) _ deps h in
      let there' =
        get_narinfo_kept other id c r s kept (narinfo-apart other id size (sized id among) ne)
          there in
      rw (get_dep_ids, there') (rw (get_dep_ids, there) at h)

  pub IsLooked-kept :
      (r s : Repo) (ids ids' : List Bytes) (id : Bytes)
      → (keeps_deps ids).rel r s
      → contains ids id ≡ true
      → ((h : Bytes) → contains ids h ≡ true → contains ids' h ≡ true)
      → IsLooked r ids id
      → IsLooked s ids' id
  IsLooked-kept r s ids ids' id kept among more (deps, e, a) =
      (deps, kept id deps among e, All-map _ _ (λ d h. more d.hash h) deps a)

  module _ (laws : RemoteLaws) (fetched : Bytes) where
    peer_remote-Moves : (url : Bytes) → Moves (keeps_others fetched) (peer_remote remotes url)
    unfolding peer_remote lift_git
    peer_remote-Moves url = record { at = λ r. go (remotes.find_remote (bytes "peer") r) r }
      where
        go :
            (x : GitResult Remote) (r : Repo)
            → (keeps_others fetched).rel r (or_new remotes x url r).1
        go (done remote) r = (keeps_others fetched).rel_refl r
        go (failed c) r = laws.remote_keeps fetched (bytes "peer") url (bytes "") r

    fetch-Moves :
        (url : Bytes)
        → Moves (keeps_others fetched) (fetch remotes url (get_package_ref fetched ++ bytes "/*"))
    unfolding fetch or_panic
    fetch-Moves url =
        let callback = credentials remotes.env_var remotes.cred_ops in
        Moves-bind (keeps_others fetched) _ _ (peer_remote-Moves url) λ remote.
          Moves-bind (keeps_others fetched) _ _
            (or_panic-Moves (keeps_others fetched)
              (remotes.fetch_refspecs remote callback (refspec_of fetched ∷ []))
              (laws.fetch_keeps fetched remote callback))
            λ received.
              Moves-if (keeps_others fetched) (received == 0) _ _
                (Moves-pure (keeps_others fetched) none)
                (Moves-pure (keeps_others fetched) (some tt))

    fetch_from_remote-Moves :
        (url : Bytes) → Moves (keeps_others fetched) (fetch_from_remote g refs remotes fetched url)
    unfolding fetch_from_remote
    fetch_from_remote-Moves url =
        Moves-bind (keeps_others fetched) _ _ (fetch-Moves url)
          λ received. record { at = λ r. go received r }
      where
        found :
            (o : Option Oid) (r : Repo) → (keeps_others fetched).rel r (ok_or g refs remotes o r).1
        found none r = (keeps_others fetched).rel_refl r
        found (some o) r = (keeps_others fetched).rel_refl r

        go :
            (x : Option (Unit {0})) (r : Repo)
            → (keeps_others fetched).rel r
                (if_received g refs remotes x
                  (λ repo. ok_or g refs remotes (get_commit g refs fetched repo) repo)
                  r).1
        go none r = (keeps_others fetched).rel_refl r
        go (some u) r = found (get_commit g refs fetched r) r

    pub fetch_missing-Moves :
        (url : Bytes) → Moves (keeps_others fetched) (fetch_missing g refs remotes url fetched)
    unfolding fetch_missing both_exist
    fetch_missing-Moves url =
        Moves-bind (keeps_others fetched) _ _
          (Moves-bind (keeps_others fetched) _ _
            (Moves-reads (keeps_others fetched) (reference_exists g refs (get_result_ref fetched)))
            λ found.
              Moves-if (keeps_others fetched) found _ _
                (Moves-reads (keeps_others fetched)
                  (reference_exists g refs (get_narinfo_ref fetched)))
                (Moves-pure (keeps_others fetched) false))
          λ there.
            Moves-if (keeps_others fetched) (not there) _ _
              (Moves-then (keeps_others fetched) _ _ (fetch_from_remote-Moves url)
                (Moves-pure (keeps_others fetched) tt))
              (Moves-pure (keeps_others fetched) tt)
