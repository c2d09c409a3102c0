-- ===== src/GitStore/Closure/Complete.antt =====
-- A package that `_add_closure` (src/git_store/store.rs) fetched is there with all its dependencies.
use gachix.Prelude.{
  ℕ, suc, ◌≡◌, refl, subst, sym, Option, none, some, List, [], Result, ok, err, Exec, continue-ok,
  is_panic, Bool-cases, inl, inr,
}
use gachix.Git.{Git, blob, commit}
use gachix.Git.Laws.{GitLaws, Has}
use gachix.GitStore.Commit.{Commits}
use gachix.GitStore.Closure.{
  add_dependencies, or_none, if_collected, add_fetched, add_from_daemons, add_step,
  add_closure_from,
}
use gachix.GitStore.Closure.Linked.{ResultIs, AllLinked, AreResults, AreResults-grows}
use gachix.GitStore.Closure.Collected.{Ends, Kept, Kept-same, Collects, add_dependencies-Collects}
use gachix.GitStore.Closure.Committed.{commit_package-stores}
use gachix.GitStore.Closure.Kept.{add_closure_from-Ends}
use gachix.GitStore.Daemons.{Daemon, HashText, PrivateKey, get_package_from_nix_daemons}
use gachix.GitStore.Daemons.Frame.{get_package-Moves}
use gachix.GitStore.Laws.{same_refs, StoreLaws}
use gachix.GitStore.Package.{OidText}
use gachix.GitStore.References.{Refs, get_commit, get_narinfo}
use gachix.GitStore.References.Added.{Stored, get_package-Stored, get_narinfo-found}
use gachix.Nix.StorePath.{NixPath}
use gachix.Nix.NarInfo
use gachix.Nix.NarInfo.{NarInfo, get_dependencies}

module _ {Repo Oid : Type 0} where
  pub or_none-some :
      {A : Type 0} (x : Result (Option A) × Repo) (f : A → Exec Repo (Option Oid)) (c : Oid)
      (s : Repo)
      → or_none x f ≡ (ok (some c), s)
      → (a : A) × (r : Repo) × (x ≡ (ok (some a), r)) × (f a r ≡ (ok (some c), s))
  or_none-some (ok (some a), r) f c s h = (a, r, refl, h)
  or_none-some (ok none, r) f c s h = cc
  or_none-some (err e, r) f c s h = elim (Bool-cases (is_panic e)) [
    | inl stops ↦ cc (rw stops at h)
    | inr goes_on ↦ cc (rw goes_on at h)
  ]

  pub if_collected-some :
      (x : Option (List Oid)) (f : List Oid → Exec Repo (Option Oid)) (c : Oid) (r s : Repo)
      → if_collected x f r ≡ (ok (some c), s)
      → (ps : List Oid) × (x ≡ some ps) × (f ps r ≡ (ok (some c), s))
  if_collected-some (some ps) f c r s h = (ps, refl, h)
  if_collected-some none f c r s h = cc

module _ {Repo Oid Builder : Type 0} (g : Git Repo Oid Builder) (refs : Refs Repo Oid) where
  -- A package, with its narinfo, stands under the hash of its path: the narinfo, of that path, and the
  -- commit of the package's tree, with the name as its message, whose parents are the results of
  -- the dependencies that the narinfo names, in their order.
  abbrev pub IsComplete : NixPath → NarInfo → Oid → Oid → Repo → Type 0
  IsComplete path n o c s =
      (ps : List Oid) × (n.store_path ≡ path)
      × (get_narinfo g refs path.hash s ≡ ok (some (NarInfo.to_string n)))
      × Has g s c (commit o ps path.name)
      × AreResults g refs s (get_dependencies n) ps
      × ResultIs g refs s path.hash c

  module _ (hashes : HashText) (private_key : Option PrivateKey) (text : OidText Oid)
      (daemons : List Daemon) where
    -- A package is complete with the narinfo and the tree that the loop over the daemons returned in this
    -- repository.
    abbrev pub IsFetched : NixPath → Oid → Repo → Repo → Type 0
    IsFetched path c r s =
        (n : NarInfo) × (b o : Oid) × (t : Repo) × (get_package_from_nix_daemons hashes private_key
            g text daemons path r
          ≡ (ok (some (n, b, o)), t))
        × IsComplete path n o c s

module _ {Repo Oid Builder : Type 0} {g : Git Repo Oid Builder} {refs : Refs Repo Oid}
    {laws : GitLaws g} {commits : Commits Repo Oid} (store : StoreLaws g refs laws commits) where
  module _ (add : NixPath → Exec Repo (Option Oid))
      (add-Ends : (d : NixPath) (r : Repo) → AllLinked g refs r → Ends g refs d r (add d r)) where
    add_fetched-IsComplete :
        (path : NixPath) (n : NarInfo) (b o c : Oid) (r s : Repo)
        → AllLinked g refs r
        → n.store_path ≡ path
        → Has g r b (blob (NarInfo.to_string n))
        → add_fetched g refs commits add path (n, b, o) r ≡ (ok (some c), s)
        → IsComplete g refs path n o c s
    unfolding add_fetched
    add_fetched-IsComplete path n b o c r s linked is_path has h =
        let ds = get_dependencies n in
        let (x, r1, e1, h1) = continue-ok (add_dependencies add ds [] r) _ (some c) s h in
        let (ps, is_some, h2) = if_collected-some x _ c r1 s h1 in
        let e1' : add_dependencies add ds [] r ≡ (ok (some ps), r1) = cc in
        let (kept, (os, e, results)) =
          subst (Collects g refs ds [] r) e1'
            (add_dependencies-Collects g refs add add-Ends ds [] r linked) in
        let (up, commit_there, result, narinfo_there) =
          commit_package-stores store path b o ps c r1 s h2 in
        let found =
          get_narinfo-found laws refs path.hash (NarInfo.to_string n) b s narinfo_there
            (up.0 b _ (kept.0.0 b _ has)) in
        (
          ps,
          is_path,
          found,
          commit_there,
          AreResults-grows g refs r1 s ds ps up (subst (AreResults g refs r1 ds) (sym e) results),
          result,
        )

    module _ (hashes : HashText) (private_key : Option PrivateKey) (text : OidText Oid)
        (ask_peers : NixPath → Exec Repo (Option Oid)) (daemons : List Daemon) where
      add_from_daemons-IsComplete :
          (path : NixPath) (c : Oid) (r s : Repo)
          → AllLinked g refs r
          → add_from_daemons g refs commits hashes private_key text ask_peers daemons add path r
            ≡ (ok (some c), s)
          → IsFetched g refs hashes private_key text daemons path c r s
      unfolding add_from_daemons
      add_from_daemons-IsComplete path c r s linked h =
          let got = get_package_from_nix_daemons hashes private_key g text daemons path r in
          let ((n, b, o), r1, e, h1) = or_none-some got _ c s h in
          let moved : (same_refs g refs).rel r r1 =
            subst (λ x. (same_refs g refs).rel r x.1) e
              ((get_package-Moves (same_refs g refs) store.ops_same hashes private_key text daemons
                  path).at
                r) in
          let stored =
            subst (Stored laws hashes private_key text path) e
              (get_package-Stored laws hashes private_key text daemons path r) in
          (
            n,
            b,
            o,
            r1,
            e,
            add_fetched-IsComplete path n b o c r1 s (Kept-same g refs r r1 moved linked).1 stored.0
                stored.1 h1,
          )

  module _ (hashes : HashText) (private_key : Option PrivateKey) (text : OidText Oid)
      (ask_peers : NixPath → Exec Repo (Option Oid)) (daemons : List Daemon)
      (ask_peers-Ends : (path : NixPath) (r : Repo)
        → AllLinked g refs r
        → Ends g refs path r (ask_peers path r)) where
    pub add_closure_from-IsComplete :
        (fuel : ℕ) (path : NixPath) (c : Oid) (r q s : Repo)
        → AllLinked g refs r
        → get_commit g refs path.hash r ≡ none
        → ask_peers path r ≡ (ok none, q)
        → add_closure_from g refs commits hashes private_key text ask_peers daemons
            (suc fuel)
            path
            r
          ≡ (ok (some c), s)
        → IsFetched g refs hashes private_key text daemons path c q s
    unfolding add_closure_from add_step
    add_closure_from-IsComplete fuel path c r q s linked missing asked h =
        add_from_daemons-IsComplete
          (add_closure_from g refs commits hashes private_key text ask_peers daemons fuel)
          (add_closure_from-Ends store hashes private_key text ask_peers daemons ask_peers-Ends
            fuel)
          hashes private_key text ask_peers daemons path c q s
          (subst (λ x. Kept g refs r x.1) asked (ask_peers-Ends path r linked).0).1
          (rw (missing, asked) at h)
