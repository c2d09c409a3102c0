-- ===== src/GitStore/Closure/Blocked.antt =====
-- `_add_closure` (src/git_store/store.rs) of a package whose narinfo is there already, as after
-- `add_single`.
use gachix.Prelude.{
  ℕ, zero, suc, ◌≡◌, ◌≢◌, subst, Option, none, some, List, [], ok, Exec, continue-ok,
}
use gachix.Bytes.{Bytes}
use gachix.Git.{Git, done}
use gachix.Git.Laws.{GitLaws, lift_git-ok}
use gachix.GitStore.Commit
use gachix.GitStore.Commit.{Commits}
use gachix.GitStore.Closure.{
  add_dependencies, commit_package, add_fetched, add_from_daemons, add_step, add_closure_from,
}
use gachix.GitStore.Closure.Linked.{AllLinked}
use gachix.GitStore.Closure.Collected.{Ends, Kept, Kept-same, Collects, add_dependencies-Collects}
use gachix.GitStore.Closure.Committed.{commit-Moves, add_ref-grows}
use gachix.GitStore.Closure.Complete.{or_none-some, if_collected-some}
use gachix.GitStore.Closure.Kept.{add_closure_from-Ends}
use gachix.GitStore.Daemons.{Daemon, HashText, PrivateKey, get_package_from_nix_daemons}
use gachix.GitStore.Daemons.Frame.{get_package-Moves}
use gachix.GitStore.Laws.{same_refs, grows, same_refs-grows, StoreLaws}
use gachix.GitStore.Package.{OidText}
use gachix.GitStore.References.{Refs, get_commit, add_ref, get_result_ref, get_narinfo_ref}
use gachix.Nix.StorePath.{NixPath}
use gachix.Nix.NarInfo.{NarInfo, get_dependencies}

module _ {Repo Oid Builder : Type 0} {g : Git Repo Oid Builder} {refs : Refs Repo Oid}
    {laws : GitLaws g} {commits : Commits Repo Oid} (store : StoreLaws g refs laws commits) where
  -- A reference with this name is there.
  abbrev pub IsTaken : Repo → Bytes → Type 0
  IsTaken r name = (o : Oid) × (refs.find_reference name r ≡ done (some o))

  IsTaken-grows :
      (r s : Repo) (name : Bytes) → (grows g refs).rel r s → IsTaken r name → IsTaken s name
  IsTaken-grows r s name up (o, there) = (o, up.1 name o there)

  add_ref-taken :
      (name : Bytes) (o : Oid) (r s : Repo) → IsTaken r name → add_ref g refs name o r ≢ (ok tt, s)
  unfolding add_ref
  add_ref-taken name o r s (p, there) h =
      let refused = store.reference_refuses name o p r there in
      let set = lift_git-ok (refs.reference name o) r s tt h in cc (refused, set)

  commit_package-taken :
      (path : NixPath) (b o : Oid) (ps : List Oid) (c : Oid) (r s : Repo)
      → IsTaken r (get_narinfo_ref path.hash)
      → commit_package g refs commits path b o ps r ≢ (ok (some c), s)
  unfolding commit_package
  commit_package-taken path b o ps c r s taken h =
      let (c', r1, e1, h1) =
        continue-ok (Commit.commit g commits o ps (some path.name) r) _ (some c) s h in
      let (u, r2, e2, h2) =
        continue-ok (add_ref g refs (get_result_ref path.hash) c' r1) _ (some c) s h1 in
      let (v, r3, e3, h3) =
        continue-ok (add_ref g refs (get_narinfo_ref path.hash) b r2) _ (some c) s h2 in
      let up0 : (grows g refs).rel r r1 = same_refs-grows g refs r r1 (
        subst (λ x. (same_refs g refs).rel r x.1) e1
          ((commit-Moves store o ps (some path.name)).at r)) in
      let up1 = add_ref-grows store _ c' r1 r2 e2 in
      add_ref-taken (get_narinfo_ref path.hash) b r2 r3
        (IsTaken-grows r1 r2 _ up1 (IsTaken-grows r r1 _ up0 taken)) e3

  module _ (add : NixPath → Exec Repo (Option Oid))
      (add-Ends : (d : NixPath) (r : Repo) → AllLinked g refs r → Ends g refs d r (add d r)) where
    add_fetched-taken :
        (path : NixPath) (n : NarInfo) (b o c : Oid) (r s : Repo)
        → AllLinked g refs r
        → IsTaken r (get_narinfo_ref path.hash)
        → add_fetched g refs commits add path (n, b, o) r ≢ (ok (some c), s)
    unfolding add_fetched
    add_fetched-taken path n b o c r s linked taken h =
        let ds = get_dependencies n in
        let (x, r1, e1, h1) = continue-ok (add_dependencies add ds [] r) _ (some c) s h in
        let (ps, is_some, h2) = if_collected-some x _ c r1 s h1 in
        let (kept, collected) =
          subst (Collects g refs ds [] r) e1
            (add_dependencies-Collects g refs add add-Ends ds [] r linked) in
        commit_package-taken path b o ps c r1 s (IsTaken-grows r r1 _ kept.0 taken) h2

  pub add_closure_from-blocked :
      (hashes : HashText) (private_key : Option PrivateKey) (text : OidText Oid)
      (ask_peers : NixPath → Exec Repo (Option Oid)) (daemons : List Daemon)
      → ((path : NixPath) (r : Repo) → AllLinked g refs r → Ends g refs path r (ask_peers path r))
      → (fuel : ℕ) (path : NixPath) (c : Oid) (r q s : Repo) → AllLinked g refs r
      → IsTaken r (get_narinfo_ref path.hash)
      → get_commit g refs path.hash r ≡ none
      → ask_peers path r ≡ (ok none, q)
      → add_closure_from g refs commits hashes private_key text ask_peers daemons fuel path r
        ≢ (ok (some c), s)
  unfolding add_closure_from add_step add_from_daemons
  add_closure_from-blocked hashes private_key text ask_peers daemons peers zero path c r q s linked
        taken missing asked h =
      cc
  add_closure_from-blocked hashes private_key text ask_peers daemons peers (suc fuel) path c r q s
        linked taken missing asked h =
      let asked_kept : Kept g refs r q =
        subst (λ x. Kept g refs r x.1) asked (peers path r linked).0 in
      let got = get_package_from_nix_daemons hashes private_key g text daemons path q in
      let ((n, b, o), r1, e, h1) = or_none-some got _ c s (rw (missing, asked) at h) in
      let moved : (same_refs g refs).rel q r1 =
        subst (λ x. (same_refs g refs).rel q x.1) e
          ((get_package-Moves (same_refs g refs) store.ops_same hashes private_key text daemons
              path).at
            q) in
      let kept = Kept-same g refs q r1 moved asked_kept.1 in
      add_fetched-taken
        (add_closure_from g refs commits hashes private_key text ask_peers daemons fuel)
        (add_closure_from-Ends store hashes private_key text ask_peers daemons peers fuel) path n b
        o c r1 s kept.1 (IsTaken-grows q r1 _ kept.0 (IsTaken-grows r q _ asked_kept.0 taken)) h1
