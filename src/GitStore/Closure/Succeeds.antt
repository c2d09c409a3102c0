-- ===== src/GitStore/Closure/Succeeds.antt =====
-- `_add_closure` (src/git_store/store.rs) returns a commit, when the daemons provide the package and all
-- that it depends on.
use gachix.Prelude.{
  ℕ, suc, ◌<◌, ◌≤◌, ◌≡◌, ◌≢◌, ap, sym, ◌∙◌, subst, inl, inr, Bool-cases, Option, some, List, [],
  ◌∷◌, ◌++◌, All, All-map, append-nil, append_assoc, Result, ok, Exec, arith,
}
use gachix.Bytes.{Bytes, bytes_eq, bytes_eq→eq, bytes_eq_refl}
use gachix.Git.{Git, OwnedTreeEntry, tree, blob}
use gachix.Git.Laws.{GitLaws, Has}
use gachix.GitStore.Commit.{Commits}
use gachix.GitStore.Closure.{add_dependencies, commit_package, add_fetched}
use gachix.GitStore.Closure.Linked.{ResultIs, IsReferenced, AllLinked, AreResults, AreResults-All}
use gachix.GitStore.Closure.Collected.{Kept, Ends, Kept-trans, Kept-same}
use gachix.GitStore.Closure.Committed.{commit_package-Ends}
use gachix.GitStore.Closure.Free.{IsFree, AllPaired, OnlyOf, same_refs-IsFree, same_refs-AllPaired}
use gachix.GitStore.Closure.Made.{HasValidNames, commit_package-done}
use gachix.GitStore.Laws.{same_refs, grows, IsCommit, StoreLaws, LiveLaws}
use gachix.GitStore.References.{Refs, get_result_ref}
use gachix.Nix.StorePath.{NixPath}
use gachix.Nix.NarInfo.{NarInfo, get_dependencies}

module _ {Repo Oid Builder : Type 0} (g : Git Repo Oid Builder) (refs : Refs Repo Oid)
    (rank : Bytes → ℕ) where
  -- Packages of a rank from `k` on of which there was nothing are as they were.
  abbrev pub Spares : ℕ → Repo → Repo → Type 0
  Spares k r s = (hash : Bytes) → k ≤ rank hash → IsFree g refs r hash → IsFree g refs s hash

  -- The invariants after a step, and what was left alone.
  abbrev pub Fine : ℕ → Repo → Repo → Type 0
  Fine k r s = Kept g refs r s × AllPaired g refs s × Spares k r s

  -- A commit is returned, and is the package's result.
  abbrev pub Succeeds : NixPath → Repo → Result (Option Oid) × Repo → Type 0
  Succeeds path r x =
      (o : Oid) × (s : Repo) × (x ≡ (ok (some o), s))
      × ResultIs g refs s path.hash o
      × Fine (suc (rank path.hash)) r s

  -- Such a commit for each dependency.
  abbrev AllSucceed :
      ℕ → List NixPath → List Oid → Repo → Result (Option (List Oid)) × Repo → Type 0
  AllSucceed k ds parents r x =
      (os : List Oid) × (s : Repo) × (x ≡ (ok (some (parents ++ os)), s))
      × AreResults g refs s ds os
      × Fine k r s

  Fine-trans : (j k : ℕ) (r s t : Repo) → j ≤ k → Fine j r s → Fine k s t → Fine k r t
  Fine-trans j k r s t le (kept, _, spares) (kept', paired, spares') = (
    Kept-trans g refs r s t kept kept',
    paired,
    λ hash h free. spares' hash h (spares hash (omega arith) free),
  )

  pub Fine-same :
      (k : ℕ) (r s : Repo)
      → (same_refs g refs).rel r s
      → AllLinked g refs r
      → AllPaired g refs r
      → Fine k r s
  Fine-same k r s same linked paired = (
    Kept-same g refs r s same linked,
    same_refs-AllPaired g refs r s same paired,
    λ hash h free. same_refs-IsFree g refs r s hash same free,
  )

  Fine-le : (j k : ℕ) (r s : Repo) → j ≤ k → Fine j r s → Fine k r s
  Fine-le j k r s le (kept, paired, spares) = (kept, paired, λ hash h. spares hash (omega arith))

  pub Succeeds-after :
      (path : NixPath) (r s : Repo) (x : Result (Option Oid) × Repo)
      → Fine (suc (rank path.hash)) r s
      → Succeeds path s x
      → Succeeds path r x
  Succeeds-after path r s x fine (o, t, e, result, fine') =
      (o, t, e, result, Fine-trans _ _ r s t (omega arith) fine fine')

  module _ (add : NixPath → Exec Repo (Option Oid)) where
    -- The recursive call succeeds for a dependency of a rank below `k`.
    abbrev pub SucceedsBelow : ℕ → NixPath → Type 0
    SucceedsBelow k d =
        ((s : Repo) → AllLinked g refs s → AllPaired g refs s → Succeeds d s (add d s))
        × (rank d.hash < k)

    add_dependencies-AllSucceed :
        (k : ℕ) (ds : List NixPath) (parents : List Oid) (r : Repo)
        → All (SucceedsBelow k) ds
        → AllLinked g refs r
        → AllPaired g refs r
        → AllSucceed k ds parents r (add_dependencies add ds parents r)
    unfolding add_dependencies
    add_dependencies-AllSucceed k [] parents r each linked paired = (
      [],
      r,
      rw append-nil,
      tt,
      (((grows g refs).rel_refl r, linked), paired, λ hash h free. free),
    )
    add_dependencies-AllSucceed k (d ∷ ds) parents r ((one, below), each) linked paired =
        let (o, s, e, result, fine) = one r linked paired in
        let (os, t, e', results, fine') =
          add_dependencies-AllSucceed k ds (parents ++ o ∷ []) s each fine.0.1 fine.1 in
        (
          o ∷ os,
          t,
          rw (e, e', append_assoc parents (o ∷ []) os),
          (fine'.0.0.1 (get_result_ref d.hash) o result, results),
          Fine-trans (suc (rank d.hash)) k r s t (omega arith) fine fine',
        )

  Referenced-IsCommit :
      (r : Repo) (os : List Oid)
      → AllLinked g refs r
      → All (IsReferenced g refs r) os
      → All (IsCommit g refs r) os
  Referenced-IsCommit r os linked =
      All-map (IsReferenced g refs r) (IsCommit g refs r)
        (λ o (hash, e). let (t, ps, message, has, _) = linked hash o e in (t, ps, message, has)) os

  -- What a package's commit leaves.
  OnlyOf-AllPaired :
      (hash : Bytes) (o : Oid) (r s : Repo)
      → OnlyOf g refs hash r s
      → ResultIs g refs s hash o
      → AllPaired g refs r
      → AllPaired g refs s
  OnlyOf-AllPaired hash o r s only result paired other = elim (Bool-cases (bytes_eq other hash)) [
    | inl same ↦
        inl (o, subst (λ k. ResultIs g refs s k o) (sym (bytes_eq→eq other hash same)) result)
    | inr differ ↦
        let ne : other ≢ hash = λ e. cc (bytes_eq_refl hash) in
        let (is_result, is_narinfo) = only other ne in
        elim (paired other) [
          | inl (p, e) ↦ inl (p, is_result ∙ e)
          | inr (free, free') ↦ inr (is_result ∙ free, is_narinfo ∙ free')
        ]
  ]

  OnlyOf-Spares :
      (hash : Bytes) (r s : Repo) → OnlyOf g refs hash r s → Spares (suc (rank hash)) r s
  OnlyOf-Spares hash r s only other high (free, free') =
      let ne : other ≢ hash = λ e. omega (arith, ap rank e) in
      let (is_result, is_narinfo) = only other ne in (is_result ∙ free, is_narinfo ∙ free')

  module _ {laws : GitLaws g} {commits : Commits Repo Oid} (store : StoreLaws g refs laws commits)
      (live : LiveLaws g refs commits) where
    commit_package-Succeeds :
        (path : NixPath) (b o : Oid) (text : Bytes) (es : List (OwnedTreeEntry Oid))
        (ds : List NixPath) (os : List Oid) (r : Repo)
        → HasValidNames live path
        → Has g r b (blob text)
        → Has g r o (tree es)
        → AreResults g refs r ds os
        → IsFree g refs r path.hash
        → AllLinked g refs r
        → AllPaired g refs r
        → Succeeds path r (commit_package g refs commits path b o os r)
    commit_package-Succeeds path b o text es ds os r valid has_text has_tree results free linked
          paired =
        let known = AreResults-All g refs r ds os results in
        let (c, s, made, only) =
          commit_package-done store live path b o text es os r valid has_text has_tree
            (Referenced-IsCommit r os linked known) free in
        let (kept, result) : Ends g refs path r (ok (some c), s) =
          subst (Ends g refs path r) made (commit_package-Ends store path b o os r linked known) in
        (
          c,
          s,
          made,
          result,
          (
            kept,
            OnlyOf-AllPaired path.hash c r s only result paired,
            OnlyOf-Spares path.hash r s only,
          ),
        )

    module _ (add : NixPath → Exec Repo (Option Oid)) where
      pub add_fetched-Succeeds :
          (path : NixPath) (n : NarInfo) (b o : Oid) (text : Bytes) (es : List (OwnedTreeEntry Oid))
          (r : Repo)
          → All (SucceedsBelow add (rank path.hash)) (get_dependencies n)
          → HasValidNames live path
          → Has g r b (blob text)
          → Has g r o (tree es)
          → IsFree g refs r path.hash
          → AllLinked g refs r
          → AllPaired g refs r
          → Succeeds path r (add_fetched g refs commits add path (n, b, o) r)
      unfolding add_fetched
      add_fetched-Succeeds path n b o text es r below valid has_text has_tree free linked paired =
          let ds = get_dependencies n in
          let k = rank path.hash in
          let (os, s, e, results, fine) =
            add_dependencies-AllSucceed add k ds [] r below linked paired in
          rw e (
            Succeeds-after path r s _ (Fine-le k _ r s (omega arith) fine) (
              commit_package-Succeeds path b o text es ds os s valid (fine.0.0.0 b _ has_text)
                (fine.0.0.0 o _ has_tree) results (fine.2 path.hash (omega arith) free) fine.0.1
                fine.1))
