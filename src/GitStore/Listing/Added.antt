-- ===== src/GitStore/Listing/Added.antt =====
-- What is there when `add_closure` (src/git_store/store.rs) returned.
use gachix.Prelude.{
  Bool, ℕ, ◌≡◌, ◌∙◌, List, refl, ap, subst, Option, none, some, ok, Exec, continue-ok,
}
use gachix.Git.{Git}
use gachix.Git.Laws.{GitLaws}
use gachix.GitStore.Commit.{Commits}
use gachix.GitStore.Closure.{add_closure_from}
use gachix.GitStore.Closure.Linked.{ResultIs, AllLinked}
use gachix.GitStore.Closure.Collected.{Ends}
use gachix.GitStore.Closure.Kept.{add_closure_from-Ends}
use gachix.GitStore.Daemons.{Daemon, HashText, PrivateKey, lift}
use gachix.GitStore.Laws.{StoreLaws}
use gachix.GitStore.Listing.{Glob, num_available_packages, minus, counted, add_closure}
use gachix.GitStore.Package.{OidText}
use gachix.GitStore.References.{Refs}
use gachix.Nix.StorePath.{NixPath}

module _ {Repo Oid Builder : Type 0} {g : Git Repo Oid Builder} {refs : Refs Repo Oid}
    {laws : GitLaws g} {commits : Commits Repo Oid} (store : StoreLaws g refs laws commits)
    (glob : Glob Repo) (checked : Bool) where
  counted-some :
      (n : ℕ) (found : Option Oid) (r s : Repo)
      → counted glob checked n found r ≡ (ok tt, s)
      → (o : Oid) × (found ≡ some o) × (r ≡ s)
  counted-some n none r s h = cc
  counted-some n (some o) r s h =
      let (after, r1, e1, h1) = continue-ok (num_available_packages glob r, r) _ tt s h in
      let (d, r2, e2, h2) = continue-ok (lift (minus checked after n) r1) _ tt s h1 in
      (o, refl, ap (λ q. q.1) e1 ∙ ap (λ q. q.1) e2 ∙ ap (λ q. q.1) h2)

  pub add_closure-Added :
      (hashes : HashText) (private_key : Option PrivateKey) (text : OidText Oid)
      (ask_peers : NixPath → Exec Repo (Option Oid)) (daemons : List Daemon)
      → ((path : NixPath) (r : Repo) → AllLinked g refs r → Ends g refs path r (ask_peers path r))
      → (fuel : ℕ) (path : NixPath) (r s : Repo) → AllLinked g refs r
      → add_closure glob checked
          (add_closure_from g refs commits hashes private_key text ask_peers daemons fuel)
          path
          r
        ≡ (ok tt, s)
      → (o : Oid) × ResultIs g refs s path.hash o × AllLinked g refs s
  unfolding add_closure
  add_closure-Added hashes private_key text ask_peers daemons peers fuel path r s linked h =
      let add = add_closure_from g refs commits hashes private_key text ask_peers daemons fuel in
      let (before, r1, e1, h1) = continue-ok (num_available_packages glob r, r) _ tt s h in
      let (found, r2, e2, h2) = continue-ok (add path r1) _ tt s h1 in
      let (o, is_some, same) = counted-some before found r2 s h2 in
      let start : AllLinked g refs r1 = subst (AllLinked g refs) (ap (λ q. q.1) e1) linked in
      let there : add path r1 ≡ (ok (some o), s) = cc in
      let (kept, result) = subst (Ends g refs path r1) there (
        add_closure_from-Ends store hashes private_key text ask_peers daemons peers fuel path r1
          start) in
      (o, result, kept.1)
