-- ===== src/GitStore/Closure/Bounded.antt =====
-- `_add_closure` (src/git_store/store.rs) with the git peers of the same file ends.
use gachix.Prelude.{ℕ, ◌<◌, ◌^◌, Option, List, All, Settles}
use gachix.Bytes.{Bytes}
use gachix.Git.{Git}
use gachix.GitStore.Commit.{Commits}
use gachix.GitStore.Closure.{add_closure_from}
use gachix.GitStore.Closure.Settles.{IsRanked, add_closure_from-Settles}
use gachix.GitStore.Daemons.{Daemon, HashText, PrivateKey}
use gachix.GitStore.Package.{OidText}
use gachix.GitStore.Peers.{Remotes, get_package_commit_from_git_remotes}
use gachix.GitStore.Peers.Walk.{get_package_commit_from_git_remotes-Settles}
use gachix.GitStore.References.{Refs}
use gachix.Nix.StorePath.{NixPath}

-- If some rank of paths falls from each path that a daemon describes to the dependencies of its narinfo,
-- then `_add_closure` with any git peers, whatever they send, never reaches the bounds: a depth of
-- recursion above the rank of the path, and more steps of the peers' queue than there are hashes of 32
-- bytes.
pub add_closure_from-ends :
    {Repo Oid Builder Remote : Type 0} (g : Git Repo Oid Builder) (refs : Refs Repo Oid)
    (commits : Commits Repo Oid) (remotes : Remotes Repo Remote) (hashes : HashText)
    (private_key : Option PrivateKey) (text : OidText Oid) (daemons : List Daemon)
    (rank : NixPath → ℕ)
    → All (IsRanked hashes private_key rank) daemons
    → (fuel peer_fuel : ℕ) (urls : List Bytes) (path : NixPath) (r : Repo) → 256 ^ 32 < peer_fuel
    → rank path < fuel
    → Settles (
        add_closure_from g refs commits hashes private_key text
          (get_package_commit_from_git_remotes g refs remotes peer_fuel urls)
          daemons
          fuel
          path
          r)
add_closure_from-ends g refs commits remotes hashes private_key text daemons rank ranked fuel
      peer_fuel urls path r enough high =
    add_closure_from-Settles g refs commits hashes private_key text rank
      (get_package_commit_from_git_remotes g refs remotes peer_fuel urls) daemons
      (λ path r.
        get_package_commit_from_git_remotes-Settles g refs remotes peer_fuel urls path r enough)
      ranked fuel path r high
