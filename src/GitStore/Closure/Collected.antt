-- ===== src/GitStore/Closure/Collected.antt =====
-- The loop over the dependencies in `_add_closure` (src/git_store/store.rs): the commits it collects,
-- and that it keeps the invariant.
use gachix.Prelude.{
  ◌≡◌, sym, ◌∙◌, Option, none, some, List, [], ◌∷◌, ◌++◌, append-nil, append_assoc, Result, ok, err,
  Exec, continue,
}
use gachix.Git.{Git}
use gachix.GitStore.Closure.{with_parent, add_dependencies}
use gachix.GitStore.Laws.{same_refs, grows, same_refs-grows}
use gachix.GitStore.References.{Refs, get_result_ref}
use gachix.Nix.StorePath.{NixPath}
use gachix.GitStore.Closure.Linked.{ResultIs, AllLinked, AreResults, AllLinked-same}

module _ {Repo Oid Builder : Type 0} (g : Git Repo Oid Builder) (refs : Refs Repo Oid) where
  -- What there is after a call: the result that was returned, if any, and the invariant.
  abbrev pub Found : NixPath → Result (Option Oid) → Repo → Type 0
  Found path (ok (some o)) s = ResultIs g refs s path.hash o
  Found path _ s = Unit

  abbrev pub Kept : Repo → Repo → Type 0
  Kept r s = (grows g refs).rel r s × AllLinked g refs s

  abbrev pub Ends : NixPath → Repo → Result (Option Oid) × Repo → Type 0
  Ends path r (x, s) = Kept r s × Found path x s

  -- After the loop over the dependencies: the commits collected behind those before.
  abbrev pub Collected : List NixPath → List Oid → Result (Option (List Oid)) → Repo → Type 0
  Collected ds parents (ok (some ps)) s =
      (os : List Oid) × (ps ≡ parents ++ os) × AreResults g refs s ds os
  Collected ds parents _ s = Unit

  abbrev pub Collects : List NixPath → List Oid → Repo → Result (Option (List Oid)) × Repo → Type 0
  Collects ds parents r (x, s) = Kept r s × Collected ds parents x s

  pub Kept-trans : (r s t : Repo) → Kept r s → Kept s t → Kept r t
  Kept-trans r s t (a, _) (b, linked) = ((grows g refs).rel_trans r s t a b, linked)

  pub Kept-same : (r s : Repo) → (same_refs g refs).rel r s → AllLinked g refs r → Kept r s
  Kept-same r s h linked = (same_refs-grows g refs r s h, AllLinked-same g refs r s h linked)

  Collected-cons :
      (d : NixPath) (ds : List NixPath) (o : Oid) (parents : List Oid) (s t : Repo)
      (x : Result (Option (List Oid)))
      → ResultIs g refs s d.hash o
      → (grows g refs).rel s t
      → Collected ds (parents ++ o ∷ []) x t
      → Collected (d ∷ ds) parents x t
  Collected-cons d ds o parents s t (ok (some ps)) e up (os, q, a) =
      (o ∷ os, q ∙ append_assoc parents (o ∷ []) os, (up.1 (get_result_ref d.hash) o e, a))
  Collected-cons d ds o parents s t (ok none) e up c = tt
  Collected-cons d ds o parents s t (err x) e up c = tt

  module _ (add : NixPath → Exec Repo (Option Oid))
      (add-Ends : (d : NixPath) (r : Repo) → AllLinked g refs r → Ends d r (add d r)) where
    after_one :
        (d : NixPath) (ds : List NixPath) (parents : List Oid) (r : Repo)
        (x : Result (Option Oid) × Repo)
        → Ends d r x
        → ((ps : List Oid) (s : Repo)
            → AllLinked g refs s
            → Collects ds ps s (add_dependencies add ds ps s))
        → Collects
            (d ∷ ds)
            parents
            r
            (continue x (λ found. with_parent found parents (add_dependencies add ds)))
    after_one d ds parents r (ok (some o), s) (kept, e) rest =
        let (kept', c) = rest (parents ++ o ∷ []) s kept.1 in
        let (x, t) = add_dependencies add ds (parents ++ o ∷ []) s in
        (Kept-trans r s _ kept kept', Collected-cons d ds o parents s _ _ e kept'.0 c)
    after_one d ds parents r (ok none, s) (kept, e) rest = (kept, tt)
    after_one d ds parents r (err x, s) (kept, e) rest = (kept, tt)

    pub add_dependencies-Collects :
        (ds : List NixPath) (parents : List Oid) (r : Repo)
        → AllLinked g refs r
        → Collects ds parents r (add_dependencies add ds parents r)
    unfolding add_dependencies
    add_dependencies-Collects [] parents r linked =
        (((grows g refs).rel_refl r, linked), ([], sym (append-nil parents), tt))
    add_dependencies-Collects (d ∷ ds) parents r linked =
        after_one d ds parents r (add d r) (add-Ends d r linked)
          (λ ps s h. add_dependencies-Collects ds ps s h)
