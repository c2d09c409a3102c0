-- ===== src/GitStore/Peers/Reused.antt =====
-- Which peer `GitRepo::fetch` (src/git_store/repository.rs) contacts, after it was used once.
use gachix.Prelude.{
  GitCode, [], ◌∷◌, ◌≡◌, sym, ap, ◌∙◌, subst, Option, none, some, ok, pure, continue-ok,
  if◌then◌else◌, ◌==◌, Bool, true, false, ◌++◌,
}
use gachix.Bytes.{Bytes, bytes}
use gachix.Git.{Git, done, failed}
use gachix.Git.Laws.{lift_git-ok}
use gachix.GitStore.Health.Remote.{Callback, credentials}
use gachix.GitStore.Peers.{
  Remotes, or_new, or_panic, peer_remote, fetch, ok_or, if_received, fetch_from_remote,
}
use gachix.GitStore.References.{Refs, get_commit}

-- What libgit2 does with named remotes: after one was made, one with its url is found by its name, and
-- fetching leaves the named remotes as they are.
pub record NamedLaws {Repo Remote : Type 0} (remotes : Remotes Repo Remote)
    (url_of : Remote → Bytes) : Type 0 where
  pub made_found :
      (name url spec : Bytes) (remote : Remote) (r s : Repo)
      → remotes.remote_with_fetch name url spec r ≡ (done remote, s)
      → (named : Remote) × (url_of named ≡ url) × (remotes.find_remote name s ≡ done named)
  pub fetch_keeps_named :
      (name : Bytes) (remote named : Remote) (callback : Callback Bytes) (spec : Bytes) (r : Repo)
      → remotes.find_remote name r ≡ done named
      → remotes.find_remote name (remotes.fetch_refspecs remote callback (spec ∷ []) r).1
        ≡ done named

if-state :
    {S A : Type 0} (b : Bool) (x y z : A) (r s : S)
    → (if b then pure x else pure y) r ≡ (ok z, s)
    → r ≡ s
if-state true x y z r s h = ap (λ q. q.1) h
if-state false x y z r s h = ap (λ q. q.1) h

module _ {Repo Oid Builder Remote : Type 0} (g : Git Repo Oid Builder) (refs : Refs Repo Oid)
    (remotes : Remotes Repo Remote) (url_of : Remote → Bytes)
    (laws : NamedLaws remotes url_of) where
  -- What is left of the repository after the fetch itself.
  fetch-named :
      (url reference : Bytes) (x : Option (Unit {0})) (r s : Repo) (c : GitCode)
      → remotes.find_remote (bytes "peer") r ≡ failed c
      → fetch remotes url reference r ≡ (ok x, s)
      → (remote : Remote) × (url_of remote ≡ url)
        × (remotes.find_remote (bytes "peer") s ≡ done remote)
  unfolding fetch peer_remote or_panic
  fetch-named url reference x r s c missing h =
      let (remote, r1, e1, h1) = continue-ok (peer_remote remotes url r) _ x s h in
      let made : or_new remotes (failed c) url r ≡ (ok remote, r1) =
        ap (λ f. or_new remotes f url r) (sym missing) ∙ e1 in
      let (named, at, there) =
        laws.made_found (bytes "peer") url (bytes "") remote r r1 (
          lift_git-ok (remotes.remote_with_fetch (bytes "peer") url (bytes "")) r r1 remote made) in
      let callback = credentials remotes.env_var remotes.cred_ops in
      let spec = reference ++ (bytes ":" ++ reference) in
      let (n, r2, e2, h2) =
        continue-ok (or_panic (remotes.fetch_refspecs remote callback (spec ∷ [])) r1) _ x s h1 in
      let kept : remotes.find_remote (bytes "peer") r2 ≡ done named =
        subst (λ t. remotes.find_remote (bytes "peer") t ≡ done named) (ap (λ q. q.1) e2)
          (laws.fetch_keeps_named (bytes "peer") remote named callback spec r1 there) in
      (
        named,
        at,
        subst (λ t. remotes.find_remote (bytes "peer") t ≡ done named)
            (if-state (n == 0) none (some tt) x r2 s h2) kept,
      )

  looked-state :
      (received : Option (Unit {0})) (id : Bytes) (x : Option Oid) (r s : Repo)
      → if_received g refs remotes received
          (λ repo. ok_or g refs remotes (get_commit g refs id repo) repo)
          r
        ≡ (ok x, s)
      → r ≡ s
  looked-state none id x r s h = ap (λ q. q.1) h
  looked-state (some u) id x r s h = go (get_commit g refs id r) h
    where
      go : (o : Option Oid) → ok_or g refs remotes o r ≡ (ok x, s) → r ≡ s
      go none e = ap (λ q. q.1) e
      go (some o) e = ap (λ q. q.1) e

  -- When fetching a package from a url returned, and the repository had no remote that is named `peer`, the
  -- repository that is left has a remote with that url that is taken for every other url, and fetching any
  -- package from there does the same for the other url as for that one.
  pub fetch_from_remote-reused :
      (id url next other : Bytes) (x : Option Oid) (r s : Repo) (c : GitCode)
      → remotes.find_remote (bytes "peer") r ≡ failed c
      → fetch_from_remote g refs remotes id url r ≡ (ok x, s)
      → (remote : Remote) × (url_of remote ≡ url)
        × (peer_remote remotes other s ≡ (ok remote, s))
        × (fetch_from_remote g refs remotes next other s
            ≡ fetch_from_remote g refs remotes next url s)
  unfolding fetch_from_remote fetch peer_remote
  fetch_from_remote-reused id url next other x r s c missing h =
      let (received, r1, e1, h1) = continue-ok (fetch remotes url _ r) _ x s h in
      let (remote, at, named) = fetch-named url _ received r r1 c missing e1 in
      let found : remotes.find_remote (bytes "peer") s ≡ done remote =
        subst (λ t. remotes.find_remote (bytes "peer") t ≡ done remote)
          (looked-state received id x r1 s h1) named in
      (remote, at, rw found, rw (fetch_from_remote, fetch, peer_remote, found))
