-- ===== src/GitStore/Closure/Kept.antt =====
-- What `_add_closure` (src/git_store/store.rs) keeps, and what it returns, whatever the daemons answer.
use gachix.Prelude.{
  if-holds, is_panic, ℕ, zero, suc, ◌≡◌, refl, subst, sym, Option, none, some, List, [], All,
  Result, ok, err, Exec, continue, arith,
}
use gachix.Bytes.{Bytes}
use gachix.Git.{Git}
use gachix.Git.Laws.{GitLaws}
use gachix.GitStore.Commit.{Commits}
use gachix.GitStore.Closure.{
  or_none, or_else, if_collected, commit_package, add_fetched, add_from_daemons, add_step,
  add_closure_from,
}
use gachix.GitStore.Closure.Linked.{ResultIs, AllLinked, AreResults-All}
use gachix.GitStore.Closure.Collected.{
  Kept, Ends, Kept-trans, Kept-same, Collects, add_dependencies-Collects,
}
use gachix.GitStore.Closure.Committed.{commit_package-Ends}
use gachix.GitStore.Daemons.{Daemon, HashText, PrivateKey}
use gachix.GitStore.Daemons.Frame.{get_package-Moves}
use gachix.GitStore.Laws.{same_refs, grows, StoreLaws}
use gachix.GitStore.Package.{OidText}
use gachix.GitStore.References.{Refs, get_commit, get_oid_from_reference}
use gachix.Nix.StorePath.{NixPath}
use gachix.Nix.NarInfo.{NarInfo, get_dependencies}

module _ {Repo Oid Builder : Type 0} {g : Git Repo Oid Builder} {refs : Refs Repo Oid}
    {laws : GitLaws g} {commits : Commits Repo Oid} (store : StoreLaws g refs laws commits) where
  pub get_commit-Result :
      (hash : Bytes) (o : Oid) (r : Repo)
      → get_commit g refs hash r ≡ some o
      → ResultIs g refs r hash o
  unfolding get_commit get_oid_from_reference
  get_commit-Result hash o r h = ground arith

  Ends-after :
      (path : NixPath) (r s : Repo) (x : Result (Option Oid) × Repo)
      → Kept g refs r s
      → Ends g refs path s x
      → Ends g refs path r x
  Ends-after path r s (x, t) kept (kept', f) = (Kept-trans g refs r s t kept kept', f)

  commit_collected :
      (path : NixPath) (ds : List NixPath) (b o : Oid) (r : Repo)
      (x : Result (Option (List Oid)) × Repo)
      → Collects g refs ds [] r x
      → Ends g refs path r
          (continue x (λ c. if_collected c (commit_package g refs commits path b o)))
  commit_collected path ds b o r (ok (some ps), s) (kept, (os, e, a)) = Ends-after path r s _ kept (
      commit_package-Ends store path b o ps s kept.1
        (subst (All _) (sym e) (AreResults-All g refs s ds os a)))
  commit_collected path ds b o r (ok none, s) (kept, c) = (kept, tt)
  commit_collected path ds b o r (err e, s) (kept, c) = (kept, tt)

  module _ (add : NixPath → Exec Repo (Option Oid))
      (add-Ends : (d : NixPath) (r : Repo) → AllLinked g refs r → Ends g refs d r (add d r)) where
    pub add_fetched-Ends :
        (path : NixPath) (p : NarInfo × Oid × Oid) (r : Repo)
        → AllLinked g refs r
        → Ends g refs path r (add_fetched g refs commits add path p r)
    unfolding add_fetched
    add_fetched-Ends path (n, b, o) r linked =
        commit_collected path (get_dependencies n) b o r _
          (add_dependencies-Collects g refs add add-Ends (get_dependencies n) [] r linked)

    or_none-Ends :
        (path : NixPath) (r : Repo) (x : Result (Option (NarInfo × Oid × Oid)) × Repo)
        → Kept g refs r x.1
        → Ends g refs path r (or_none x (add_fetched g refs commits add path))
    or_none-Ends path r (ok (some p), s) kept =
        Ends-after path r s _ kept (add_fetched-Ends path p s kept.1)
    or_none-Ends path r (ok none, s) kept = (kept, tt)
    or_none-Ends path r (err e, s) kept =
        if-holds (Ends g refs path r) (is_panic e) (err e, s) (ok none, s) (kept, tt) (kept, tt)

    module _ (hashes : HashText) (private_key : Option PrivateKey) (text : OidText Oid)
        (ask_peers : NixPath → Exec Repo (Option Oid)) (daemons : List Daemon)
        (ask_peers-Ends : (path : NixPath) (r : Repo)
          → AllLinked g refs r
          → Ends g refs path r (ask_peers path r)) where
      add_from_daemons-Ends :
          (path : NixPath) (r : Repo)
          → AllLinked g refs r
          → Ends g refs path r
              (add_from_daemons g refs commits hashes private_key text ask_peers daemons add path r)
      unfolding add_from_daemons
      add_from_daemons-Ends path r linked = or_none-Ends path r _ (
          Kept-same g refs r _
            ((get_package-Moves (same_refs g refs) store.ops_same hashes private_key text daemons
                path).at
              r)
            linked)

      after_peers :
          (path : NixPath) (r : Repo) (x : Result (Option Oid) × Repo)
          → Ends g refs path r x
          → Ends g refs path r (
              continue x λ found. or_else found (
                add_from_daemons g refs commits hashes private_key text ask_peers daemons add path))
      after_peers path r (ok (some o), s) h = h
      after_peers path r (ok none, s) (kept, u) =
          Ends-after path r s _ kept (add_from_daemons-Ends path s kept.1)
      after_peers path r (err e, s) h = h

      or_else-Ends :
          (path : NixPath) (r : Repo) (found : Option Oid) (m : Exec Repo (Option Oid))
          → AllLinked g refs r
          → get_commit g refs path.hash r ≡ found
          → Ends g refs path r (m r)
          → Ends g refs path r (or_else found m r)
      or_else-Ends path r none m linked e h = h
      or_else-Ends path r (some o) m linked e h =
          (((grows g refs).rel_refl r, linked), get_commit-Result path.hash o r e)

      add_step-Ends :
          (path : NixPath) (r : Repo)
          → AllLinked g refs r
          → Ends g refs path r
              (add_step g refs commits hashes private_key text ask_peers daemons add path r)
      unfolding add_step
      add_step-Ends path r linked =
          or_else-Ends path r (get_commit g refs path.hash r) _ linked refl
            (after_peers path r (ask_peers path r) (ask_peers-Ends path r linked))

  module _ (hashes : HashText) (private_key : Option PrivateKey) (text : OidText Oid)
      (ask_peers : NixPath → Exec Repo (Option Oid)) (daemons : List Daemon)
      (ask_peers-Ends : (path : NixPath) (r : Repo)
        → AllLinked g refs r
        → Ends g refs path r (ask_peers path r)) where
    pub add_closure_from-Ends :
        (fuel : ℕ) (path : NixPath) (r : Repo)
        → AllLinked g refs r
        → Ends g refs path r
            (add_closure_from g refs commits hashes private_key text ask_peers daemons fuel path r)
    unfolding add_closure_from
    add_closure_from-Ends zero path r linked = (((grows g refs).rel_refl r, linked), tt)
    add_closure_from-Ends (suc fuel) path r linked =
        add_step-Ends
          (add_closure_from g refs commits hashes private_key text ask_peers daemons fuel)
          (λ d s h. add_closure_from-Ends fuel d s h) hashes private_key text ask_peers daemons
          ask_peers-Ends path r linked
