-- ===== src/GitStore/Closure/Committed.antt =====
-- A package's commit and its references, in `_add_closure` (src/git_store/store.rs).
use gachix.Prelude.{
  ◌≡◌, refl, subst, Option, some, List, [], ◌∷◌, All, Error, Result, ok, err, Exec, continue,
  continue-ok, Moves, Moves-then, Moves-reads, Moves-pure,
}
use gachix.Bytes.{Bytes}
use gachix.Git.{Git, ObjectType, done, commit, lift_git}
use gachix.Git.Laws.{GitLaws, Has, lift_git-ok}
use gachix.GitStore.Commit
use gachix.GitStore.Commit.{Commits, find_typed, find_commits}
use gachix.GitStore.Closure.{commit_package}
use gachix.GitStore.Closure.Linked.{
  ResultIs, IsReferenced, IsLinked, AllLinked, All-IsReferenced, reference-AllLinked,
  reference-AllLinked_other,
}
use gachix.GitStore.Closure.Collected.{Kept, Ends, Kept-trans, Kept-same}
use gachix.GitStore.Laws.{same_refs, grows, same_refs-grows, StoreLaws}
use gachix.GitStore.References.{Refs, add_ref, get_result_ref, get_narinfo_ref}
use gachix.GitStore.References.Names.{get_result_ref-ne-get_narinfo_ref}
use gachix.Nar.Decode.Frame.{lift_git-Moves}
use gachix.Nix.StorePath.{NixPath}

-- A sequence ends as its second part does after a first that returned, or with the first's error.
pub continue-ends :
    {S A B : Type 0} (Q : Result B × S → Type 0) (x : Result A × S) (f : A → Exec S B)
    → ((a : A) (s : S) → x ≡ (ok a, s) → Q (f a s))
    → ((e : Error) (s : S) → x ≡ (err e, s) → Q (err e, s))
    → Q (continue x f)
continue-ends Q (ok a, s) f good bad = good a s refl
continue-ends Q (err e, s) f good bad = bad e s refl

module _ {Repo Oid Builder : Type 0} {g : Git Repo Oid Builder} {refs : Refs Repo Oid}
    {laws : GitLaws g} {commits : Commits Repo Oid} (store : StoreLaws g refs laws commits) where
  find_commits-Moves : (os : List Oid) → Moves (same_refs g refs) (find_commits g os)
  unfolding find_commits find_typed
  find_commits-Moves [] = Moves-pure (same_refs g refs) _
  find_commits-Moves (o ∷ os) =
      Moves-then (same_refs g refs) _ _ (Moves-reads (same_refs g refs) _) (find_commits-Moves os)

  pub commit-Moves :
      (t : Oid) (ps : List Oid) (m : Option Bytes)
      → Moves (same_refs g refs) (Commit.commit g commits t ps m)
  unfolding Commit.commit find_typed
  commit-Moves t ps m =
      let P = same_refs g refs in
      Moves-then P _ _ (Moves-reads P _) (
        Moves-then P _ _ (find_commits-Moves ps)
          (lift_git-Moves P (commits.create t ps _) (λ r. store.create_same t ps _ r)))

  -- What is stored when `commit` returns.
  commit-Has :
      (t : Oid) (ps : List Oid) (m : Bytes) (c : Oid) (r s : Repo)
      → Commit.commit g commits t ps (some m) r ≡ (ok c, s)
      → Has g s c (commit t ps m)
  unfolding Commit.commit
  commit-Has t ps m c r s h =
      let (u, r1, e1, h1) = continue-ok (find_typed g ObjectType.tree t r) _ c s h in
      let (v, r2, e2, h2) = continue-ok (find_commits g ps r1) _ c s h1 in
      store.create_stores t ps m c r2 s (lift_git-ok (commits.create t ps m) r2 s c h2)

  -- A reference that is set on the way, by `add_ref`.
  add_ref-sets :
      (name : Bytes) (o : Oid) (r s : Repo)
      → add_ref g refs name o r ≡ (ok tt, s)
      → refs.find_reference name s ≡ done (some o)
  unfolding add_ref
  add_ref-sets name o r s h =
      (store.ref_laws.reference_adds name o r s (lift_git-ok (refs.reference name o) r s tt h)).0

  add_ref-result :
      (hash : Bytes) (o : Oid) (r : Repo)
      → IsLinked g refs r o
      → AllLinked g refs r
      → Kept g refs r (add_ref g refs (get_result_ref hash) o r).1
  unfolding add_ref lift_git
  add_ref-result hash o r new linked =
      (store.reference_grows _ o r, reference-AllLinked store (get_result_ref hash) o r new linked)

  add_ref-narinfo :
      (hash : Bytes) (o : Oid) (r : Repo)
      → AllLinked g refs r
      → Kept g refs r (add_ref g refs (get_narinfo_ref hash) o r).1
  unfolding add_ref lift_git
  add_ref-narinfo hash o r linked = (
    store.reference_grows _ o r,
    reference-AllLinked_other store (get_narinfo_ref hash) o r
        (λ k. get_result_ref-ne-get_narinfo_ref k hash) linked,
  )

  pub add_ref-grows :
      (name : Bytes) (o : Oid) (r s : Repo)
      → add_ref g refs name o r ≡ (ok tt, s)
      → (grows g refs).rel r s
  unfolding add_ref lift_git
  add_ref-grows name o r s h =
      subst (λ x. (grows g refs).rel r x.1) h (store.reference_grows name o r)

  -- What is there when the commit of a package was made, as a commit of these.
  abbrev pub Stands : NixPath → Oid → Oid → List Oid → Oid → Repo → Repo → Type 0
  Stands path b o ps c r s =
      (grows g refs).rel r s
      × Has g s c (commit o ps path.name)
      × ResultIs g refs s path.hash c
      × (refs.find_reference (get_narinfo_ref path.hash) s ≡ done (some b))

  pub commit_package-stores :
      (path : NixPath) (b o : Oid) (ps : List Oid) (c : Oid) (r s : Repo)
      → commit_package g refs commits path b o ps r ≡ (ok (some c), s)
      → Stands path b o ps c r s
  unfolding commit_package
  commit_package-stores path b o ps c r s h =
      let (c', r1, e1, h1) =
        continue-ok (Commit.commit g commits o ps (some path.name) r) _ (some c) s h in
      let (u, r2, e2, h2) =
        continue-ok (add_ref g refs (get_result_ref path.hash) c' r1) _ (some c) s h1 in
      let (v, r3, e3, h3) =
        continue-ok (add_ref g refs (get_narinfo_ref path.hash) b r2) _ (some c) s h2 in
      let is_c : c' ≡ c = cc in
      let is_s : r3 ≡ s = cc in
      let up0 : (grows g refs).rel r r1 = same_refs-grows g refs r r1 (
        subst (λ x. (same_refs g refs).rel r x.1) e1 ((commit-Moves o ps (some path.name)).at r)) in
      let up1 = add_ref-grows _ c' r1 r2 e2 in
      let up2 = add_ref-grows _ b r2 r3 e3 in
      let has : Has g r3 c' (commit o ps path.name) =
        up2.0 c' _ (up1.0 c' _ (commit-Has o ps path.name c' r r1 e1)) in
      let result = up2.1 (get_result_ref path.hash) c' (add_ref-sets _ c' r1 r2 e2) in
      let up = (grows g refs).rel_trans r r1 r3 up0 ((grows g refs).rel_trans r1 r2 r3 up1 up2) in
      subst (Stands path b o ps c r) is_s
        (subst (λ c. Stands path b o ps c r r3) is_c (up, has, result, add_ref-sets _ b r2 r3 e3))

  pub commit_package-Ends :
      (path : NixPath) (b o : Oid) (ps : List Oid) (r : Repo)
      → AllLinked g refs r
      → All (IsReferenced g refs r) ps
      → Ends g refs path r (commit_package g refs commits path b o ps r)
  unfolding commit_package
  commit_package-Ends path b o ps r linked known =
      let moved = (commit-Moves o ps (some path.name)).at r in
      continue-ends (Ends g refs path r) (Commit.commit g commits o ps (some path.name) r) _
        (λ c r1 e1.
          let same : (same_refs g refs).rel r r1 =
            subst (λ x. (same_refs g refs).rel r x.1) e1 moved in
          let kept1 = Kept-same g refs r r1 same linked in
          let new : IsLinked g refs r1 c = (
            o,
            ps,
            path.name,
            commit-Has o ps path.name c r r1 e1,
            All-IsReferenced g refs r r1 ps kept1.0 known,
          ) in
          let kept2 = add_ref-result path.hash c r1 new kept1.1 in
          continue-ends (Ends g refs path r) (add_ref g refs (get_result_ref path.hash) c r1) _
            (λ u r2 e2.
              let k2 : Kept g refs r1 r2 = subst (λ x. Kept g refs r1 x.1) e2 kept2 in
              let k02 = Kept-trans g refs r r1 r2 kept1 k2 in
              let there = add_ref-sets (get_result_ref path.hash) c r1 r2 e2 in
              let kept3 = add_ref-narinfo path.hash b r2 k02.1 in
              continue-ends (Ends g refs path r) (add_ref g refs (get_narinfo_ref path.hash) b r2) _
                (λ v r3 e3.
                  let k3 : Kept g refs r2 r3 = subst (λ x. Kept g refs r2 x.1) e3 kept3 in
                  (Kept-trans g refs r r2 r3 k02 k3, k3.0.1 (get_result_ref path.hash) c there))
                (λ e r3 e3.
                  (Kept-trans g refs r r2 r3 k02 (subst (λ x. Kept g refs r2 x.1) e3 kept3), tt)))
            (λ e r2 e2.
              (Kept-trans g refs r r1 r2 kept1 (subst (λ x. Kept g refs r1 x.1) e2 kept2), tt)))
        (λ e r1 e1.
          (Kept-same g refs r r1 (subst (λ x. (same_refs g refs).rel r x.1) e1 moved) linked, tt))
