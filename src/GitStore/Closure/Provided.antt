-- ===== src/GitStore/Closure/Provided.antt =====
-- `_add_closure` (src/git_store/store.rs) of a store without git peers, when its daemons provide all that is
-- needed.
use gachix.Prelude.{
  ℕ, zero, suc, ◌+◌, ◌<◌, ◌≤◌, ◌≡◌, ap, ap₂, sym, ◌∙◌, subst, inl, inr, true, Option, none, some,
  List, [], ◌∷◌, ◌++◌, All, All-map, length, ok, Exec, arith,
}
use gachix.Bytes.{Bytes}
use gachix.Git.{Git, OwnedTreeEntry, tree, blob}
use gachix.Git.Laws.{GitLaws, Has}
use gachix.GitStore.{single_file_package_marker}
use gachix.GitStore.Commit.{Commits}
use gachix.GitStore.Closure.{add_from_daemons, add_step, add_closure_from}
use gachix.GitStore.Closure.Linked.{ResultIs, AllLinked}
use gachix.GitStore.Closure.Free.{IsFree, AllPaired, same_refs-IsFree}
use gachix.GitStore.Closure.Made.{HasValidNames}
use gachix.GitStore.Daemons.{Daemon, HashText, PrivateKey, PathInfo, get_package_from_nix_daemons}
use gachix.GitStore.Daemons.Fetched.{CanSign, Lacks, Provides, Reads, get_package-Fetches}
use gachix.GitStore.Daemons.Frame.{get_package-Moves}
use gachix.GitStore.Laws.{same_refs, StoreLaws, LiveLaws}
use gachix.GitStore.Package.{OidText}
use gachix.GitStore.Package.Served.{IsServable}
use gachix.GitStore.References.{Refs, get_commit, get_oid_from_reference}
use gachix.Nar.Archivable.{IsArchivable}
use gachix.Nar.Format.{Node, strings, archive}
use gachix.Nix.StorePath.{NixPath}
use gachix.Nix.NarInfo
use gachix.Nix.NarInfo.{NarInfo, get_dependencies, without_path}
use gachix.GitStore.Closure.Local.{add_local, no_remotes, add_local-IsComplete}
use gachix.GitStore.Closure.Complete.{IsComplete}
use gachix.GitStore.Closure.Succeeds.{
  Succeeds, Succeeds-after, SucceedsBelow, Fine-same, add_fetched-Succeeds,
}
use gachix.GitStore.Peers.{Remotes, get_package_commit_from_git_remotes}

module _ {Repo Oid Builder : Type 0} {g : Git Repo Oid Builder} {refs : Refs Repo Oid}
    {laws : GitLaws g} {commits : Commits Repo Oid} (store : StoreLaws g refs laws commits)
    (live : LiveLaws g refs commits) (hashes : HashText) (private_key : Option PrivateKey)
    (daemons : List Daemon) (IsNeeded : NixPath → Type 0) (rank : Bytes → ℕ) where
  -- The first daemon that has the path provides the archive of an object that the format and git allow, with
  -- well-formed information; the dependencies are needed too, and are of a lower rank.
  pub record IsProvided (path : NixPath) : Type 0 where
    pub before : List Daemon
    pub provider : Daemon
    pub after : List Daemon
    pub info : PathInfo
    pub references : List NixPath
    pub nar_hash : Bytes
    pub deriver : Option NixPath
    pub contents : Node
    pub are_all : daemons ≡ before ++ provider ∷ after
    pub lacking : All (Lacks path) before
    pub provides : Provides path (archive contents) info provider
    pub reads : Reads hashes private_key info references nar_hash deriver
    pub is_archivable : IsArchivable laws.valid_name contents
    pub is_servable : IsServable contents
    pub has_valid_names : HasValidNames live path
    pub below :
        All (λ d. IsNeeded d × (rank d.hash < rank path.hash)) (without_path path references)

  module _ (can_sign : CanSign hashes private_key)
      (marker_valid : laws.valid_name single_file_package_marker ≡ true)
      (provided : (path : NixPath) → IsNeeded path → IsProvided path) (text : OidText Oid) where
    get_dependencies-eq :
        (n : NarInfo) (path : NixPath) (references : List NixPath)
        → n.store_path ≡ path
        → n.references ≡ references
        → get_dependencies n ≡ without_path path references
    unfolding get_dependencies
    get_dependencies-eq n path references e e' = ap₂ without_path e e'

    -- What the loop over the daemons returns for a path that is provided.
    provided-fetched :
        (path : NixPath) (r : Repo) (p : IsProvided path)
        → (n : NarInfo) × (b o : Oid) × (s : Repo) × (get_package_from_nix_daemons hashes
              private_key g text daemons path r
            ≡ (ok (some (n, b, o)), s))
          × (n.store_path ≡ path)
          × (n.references ≡ p.references)
          × Has g s b (blob (NarInfo.to_string n))
          × (es : List (OwnedTreeEntry Oid)) × Has g s o (tree es)
    provided-fetched path r p =
        let (n, b, o, s, e, of_path, refs_eq, has_text, _, _, es, has_tree) =
          get_package-Fetches hashes private_key laws text p.before p.after p.provider path p.info
            p.references p.nar_hash p.deriver p.contents r (length (strings p.contents) + 2)
            p.lacking p.provides p.reads can_sign p.is_archivable p.is_servable marker_valid
            (omega arith) in
        (
          n,
          b,
          o,
          s,
          ap (λ ds. get_package_from_nix_daemons hashes private_key g text ds path r) p.are_all ∙ e,
          of_path,
          refs_eq,
          has_text,
          es,
          has_tree,
        )

    fetched-references :
        (path : NixPath) (r s : Repo) (p : IsProvided path) (n : NarInfo) (b o : Oid)
        → get_package_from_nix_daemons hashes private_key g text daemons path r
          ≡ (ok (some (n, b, o)), s)
        → n.references ≡ p.references
    fetched-references path r s p n b o e =
        let (n', b', o', s', e', of_path, refs_eq, _, _, _) = provided-fetched path r p in
        let same : n ≡ n' = cc in ap (λ m. m.references) same ∙ refs_eq

    add_from_daemons-Succeeds :
        (add ask_peers : NixPath → Exec Repo (Option Oid)) (path : NixPath) (r : Repo)
        (p : IsProvided path)
        → All (SucceedsBelow g refs rank add (rank path.hash)) (without_path path p.references)
        → IsFree g refs r path.hash
        → AllLinked g refs r
        → AllPaired g refs r
        → Succeeds g refs rank path r
            (add_from_daemons g refs commits hashes private_key text ask_peers daemons add path r)
    unfolding add_from_daemons
    add_from_daemons-Succeeds add ask_peers path r p below free linked paired =
        let got = get_package_from_nix_daemons hashes private_key g text daemons path r in
        let (n, b, o, s, fetched, of_path, refs_eq, has_text, es, has_tree) =
          provided-fetched path r p in
        let same : (same_refs g refs).rel r s =
          subst (λ x. (same_refs g refs).rel r x.1) fetched
            ((get_package-Moves (same_refs g refs) store.ops_same hashes private_key text daemons
                path).at
              r) in
        let fine = Fine-same g refs rank (suc (rank path.hash)) r s same linked paired in
        let deps : All (SucceedsBelow g refs rank add (rank path.hash)) (get_dependencies n) =
          subst (All (SucceedsBelow g refs rank add (rank path.hash)))
            (sym (get_dependencies-eq n path p.references of_path refs_eq)) below in
        rw fetched (
          Succeeds-after g refs rank path r s _ fine (
            add_fetched-Succeeds g refs rank store live add path n b o (NarInfo.to_string n) es s
              deps p.has_valid_names has_text has_tree
              (same_refs-IsFree g refs r s path.hash same free) fine.0.1 fine.1))

    get_commit-none :
        (r : Repo) (hash : Bytes) → IsFree g refs r hash → get_commit g refs hash r ≡ none
    unfolding get_commit get_oid_from_reference
    get_commit-none r hash free = rw (get_commit, get_oid_from_reference, free.0)

    get_commit-some :
        (r : Repo) (hash : Bytes) (o : Oid)
        → ResultIs g refs r hash o
        → get_commit g refs hash r ≡ some o
    unfolding get_commit get_oid_from_reference
    get_commit-some r hash o e = rw (get_commit, get_oid_from_reference, e)

    module _ (ask_peers : NixPath → Exec Repo (Option Oid))
        (no_peers : (path : NixPath) (r : Repo) → ask_peers path r ≡ (ok none, r)) where
      pub add_closure_from-Succeeds :
          (fuel : ℕ) (path : NixPath) (r : Repo)
          → rank path.hash < fuel
          → IsNeeded path
          → AllLinked g refs r
          → AllPaired g refs r
          → Succeeds g refs rank path r (
              add_closure_from g refs commits hashes private_key text ask_peers daemons fuel path r)
      unfolding add_closure_from add_step
      add_closure_from-Succeeds zero path r high needed linked paired = absurd (omega arith)
      add_closure_from-Succeeds (suc fuel) path r high needed linked paired =
          elim (paired path.hash) [
            | inl (o, e) ↦ (
              o,
              r,
              rw (get_commit-some r path.hash o e),
              e,
              Fine-same g refs rank (suc (rank path.hash)) r r ((same_refs g refs).rel_refl r)
                  linked paired,
            )
            | inr free ↦
                let p = provided path needed in
                let add =
                  add_closure_from g refs commits hashes private_key text ask_peers daemons fuel in
                rw (get_commit-none r path.hash free, no_peers path r)
                  (add_from_daemons-Succeeds add ask_peers path r p
                    (All-map (λ d. IsNeeded d × (rank d.hash < rank path.hash)) _
                      (λ d h. (
                        λ s linked' paired'.
                            add_closure_from-Succeeds fuel d s (omega (arith, h.1)) h.0 linked'
                              paired',
                        h.1,
                      ))
                      (without_path path p.references) p.below)
                    free linked paired)
          ]

    -- Let the first daemon that has a package provide, for every package that is needed, the archive of an
    -- object that the format and git allow, and well-formed information; let the private key, if there is
    -- one, be one that can sign; let git allow the marker's name; and let the dependencies of a needed package
    -- be needed and of a lower rank. From a repository in which every result has results of packages as its
    -- parents, and every package has a result or nothing: if nothing is there of a needed package,
    -- `_add_closure` without git peers, with fuel above its rank, returns a commit. The narinfo that the
    -- loop over the daemons returned for the package has the references that were provided; its text stands
    -- under the package's hash; and the commit is the package's result, of the tree that the loop returned,
    -- with the results of the dependencies that this narinfo names as its parents, one for each, in their
    -- order. The repository that is left is such a repository again.
    pub add_local-Succeeds :
        {Remote : Type 0} (remotes : Remotes Repo Remote) (fuel : ℕ) (path : NixPath) (r : Repo)
        → rank path.hash ≤ fuel
        → (needed : IsNeeded path) → AllLinked g refs r
        → AllPaired g refs r
        → IsFree g refs r path.hash
        → (c : Oid) × (s : Repo) × (add_local g refs commits remotes hashes private_key text daemons
              (suc fuel)
              path
              r
            ≡ (ok (some c), s))
          × (n : NarInfo) × (b o : Oid) × (t : Repo) × (get_package_from_nix_daemons hashes
                private_key g text daemons path r
              ≡ (ok (some (n, b, o)), t))
          × (n.references ≡ (provided path needed).references)
          × IsComplete g refs path n o c s
          × AllLinked g refs s
          × AllPaired g refs s
    add_local-Succeeds remotes fuel path r high needed linked paired free =
        let (c, s, e, _, fine) =
          add_closure_from-Succeeds (get_package_commit_from_git_remotes g refs remotes 0 [])
            (no_remotes store remotes hashes private_key text daemons) (suc fuel) path r
            (omega arith) needed linked paired in
        let (n, b, o, t, fetched, complete) =
          add_local-IsComplete store remotes hashes private_key text daemons fuel path c r s linked
            (get_commit-none r path.hash free) e in
        let references = fetched-references path r t (provided path needed) n b o fetched in
        (c, s, e, n, b, o, t, fetched, references, complete, fine.0.1, fine.1)
