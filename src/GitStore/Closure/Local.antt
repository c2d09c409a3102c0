-- ===== src/GitStore/Closure/Local.antt =====
-- `_add_closure` and `add_closure` (src/git_store/store.rs) of a store without git peers in its settings.
use gachix.Prelude.{Bool, ℕ, suc, ◌≡◌, ◌≢◌, refl, Option, none, some, List, [], ok, Exec}
use gachix.Git.{Git, done}
use gachix.Git.Laws.{GitLaws}
use gachix.GitStore.Commit.{Commits}
use gachix.GitStore.Closure.{add_closure_from}
use gachix.GitStore.Closure.Linked.{ResultIs, AllLinked}
use gachix.GitStore.Closure.Collected.{Ends}
use gachix.GitStore.Closure.Kept.{add_closure_from-Ends}
use gachix.GitStore.Closure.Complete.{IsFetched, add_closure_from-IsComplete}
use gachix.GitStore.Closure.Blocked.{add_closure_from-blocked}
use gachix.GitStore.Daemons.{Daemon, HashText, PrivateKey}
use gachix.GitStore.Laws.{grows, StoreLaws}
use gachix.GitStore.Listing.{Glob, add_closure}
use gachix.GitStore.Listing.Added.{add_closure-Added}
use gachix.GitStore.Package.{OidText}
use gachix.GitStore.Peers.{Remotes, first_remote, get_package_commit_from_git_remotes}
use gachix.GitStore.References.{Refs, get_commit, get_narinfo_ref}
use gachix.Nix.StorePath.{NixPath}

module _ {Repo Oid Builder Remote : Type 0} (g : Git Repo Oid Builder) (refs : Refs Repo Oid)
    (commits : Commits Repo Oid) (remotes : Remotes Repo Remote) (hashes : HashText)
    (private_key : Option PrivateKey) (text : OidText Oid) (daemons : List Daemon) where
  -- `_add_closure` where `settings.remotes` is empty.
  abbrev pub add_local : ℕ → NixPath → Exec Repo (Option Oid)
  add_local fuel =
      add_closure_from g refs commits hashes private_key text
        (get_package_commit_from_git_remotes g refs remotes 0 []) daemons fuel

module _ {Repo Oid Builder Remote : Type 0} {g : Git Repo Oid Builder} {refs : Refs Repo Oid}
    {laws : GitLaws g} {commits : Commits Repo Oid} (store : StoreLaws g refs laws commits)
    (remotes : Remotes Repo Remote) (hashes : HashText) (private_key : Option PrivateKey)
    (text : OidText Oid) (daemons : List Daemon) where
  pub no_remotes :
      (path : NixPath) (r : Repo)
      → get_package_commit_from_git_remotes g refs remotes 0 [] path r ≡ (ok none, r)
  unfolding get_package_commit_from_git_remotes first_remote
  no_remotes path r = refl

  no_remotes-Ends :
      (path : NixPath) (r : Repo)
      → AllLinked g refs r
      → Ends g refs path r (get_package_commit_from_git_remotes g refs remotes 0 [] path r)
  unfolding get_package_commit_from_git_remotes first_remote
  no_remotes-Ends path r linked = (((grows g refs).rel_refl r, linked), tt)

  -- From a repository in which every result reference has a commit whose parents are all results of
  -- packages, `_add_closure` without git peers leaves such a repository, however it ends, and only adds
  -- objects and references; a commit that it returns is the package's result.
  pub add_local-Ends :
      (fuel : ℕ) (path : NixPath) (r : Repo)
      → AllLinked g refs r
      → Ends g refs path r
          (add_local g refs commits remotes hashes private_key text daemons fuel path r)
  add_local-Ends =
      add_closure_from-Ends store hashes private_key text
        (get_package_commit_from_git_remotes g refs remotes 0 []) daemons no_remotes-Ends

  -- When `_add_closure` without git peers returns a commit for a package that was not there, the loop over
  -- the daemons returned a narinfo and a tree for it. The narinfo is of that path, and its text stands under
  -- the package's hash; the commit is the package's result, of that tree, has the package's name as its
  -- message, and its parents are the results of the dependencies that this narinfo names, one for each, in
  -- their order.
  pub add_local-IsComplete :
      (fuel : ℕ) (path : NixPath) (c : Oid) (r s : Repo)
      → AllLinked g refs r
      → get_commit g refs path.hash r ≡ none
      → add_local g refs commits remotes hashes private_key text daemons (suc fuel) path r
        ≡ (ok (some c), s)
      → IsFetched g refs hashes private_key text daemons path c r s
  add_local-IsComplete fuel path c r s linked missing h =
      add_closure_from-IsComplete store hashes private_key text
        (get_package_commit_from_git_remotes g refs remotes 0 []) daemons no_remotes-Ends fuel path
        c r r s linked missing (no_remotes path r) h

  -- When `add_closure` without git peers returns without an error, from a repository in which every result
  -- has results of packages as its parents, the package has a result, and every result still has such
  -- parents.
  pub add_closure_local-Added :
      (glob : Glob Repo) (checked : Bool) (fuel : ℕ) (path : NixPath) (r s : Repo)
      → AllLinked g refs r
      → add_closure glob checked
          (add_local g refs commits remotes hashes private_key text daemons fuel)
          path
          r
        ≡ (ok tt, s)
      → (o : Oid) × ResultIs g refs s path.hash o × AllLinked g refs s
  add_closure_local-Added glob checked =
      add_closure-Added store glob checked hashes private_key text
        (get_package_commit_from_git_remotes g refs remotes 0 []) daemons no_remotes-Ends

  -- Where the narinfo of a package is there, as after `add_single`, and its result is not, `_add_closure`
  -- without git peers never returns a commit for it.
  pub add_local-blocked :
      (fuel : ℕ) (path : NixPath) (b c : Oid) (r s : Repo)
      → AllLinked g refs r
      → refs.find_reference (get_narinfo_ref path.hash) r ≡ done (some b)
      → get_commit g refs path.hash r ≡ none
      → add_local g refs commits remotes hashes private_key text daemons fuel path r
        ≢ (ok (some c), s)
  add_local-blocked fuel path b c r s linked taken missing =
      add_closure_from-blocked store hashes private_key text
        (get_package_commit_from_git_remotes g refs remotes 0 []) daemons no_remotes-Ends fuel path
        c r r s linked (b, taken) missing (no_remotes path r)
