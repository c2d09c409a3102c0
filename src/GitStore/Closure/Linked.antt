-- ===== src/GitStore/Closure/Linked.antt =====
-- The invariant of the repository that `_add_closure` (src/git_store/store.rs) is to keep.
use gachix.Prelude.{
  ◌≡◌, ◌≢◌, refl, sym, ◌∙◌, subst, inl, inr, Bool-cases, some, List, [], ◌∷◌, All, GitCode, ◌⊎◌,
}
use gachix.Bytes.{Bytes, bytes_eq, bytes_eq→eq, bytes_eq_refl}
use gachix.Git.{Git, GitResult, done, failed, commit}
use gachix.Git.Laws.{GitLaws, Has}
use gachix.GitStore.Commit.{Commits}
use gachix.GitStore.Laws.{same_refs, grows, same_refs-grows, StoreLaws}
use gachix.GitStore.References.{Refs, get_result_ref}
use gachix.Nix.StorePath.{NixPath}

module _ {Repo Oid Builder : Type 0} (g : Git Repo Oid Builder) (refs : Refs Repo Oid) where
  -- The result reference of this hash has this commit.
  abbrev pub ResultIs : Repo → Bytes → Oid → Type 0
  ResultIs r hash o = refs.find_reference (get_result_ref hash) r ≡ done (some o)

  abbrev pub IsReferenced : Repo → Oid → Type 0
  IsReferenced r o = (hash : Bytes) × ResultIs r hash o

  -- A commit all of whose parents are results of packages.
  abbrev pub IsLinked : Repo → Oid → Type 0
  IsLinked r o =
      (t : Oid) × (ps : List Oid) × (message : Bytes) × Has g r o (commit t ps message)
      × All (IsReferenced r) ps

  -- Every package's result is such a commit: with a package its whole closure is there.
  abbrev pub AllLinked : Repo → Type 0
  AllLinked r = (hash : Bytes) (o : Oid) → ResultIs r hash o → IsLinked r o

  -- The commits are those of the packages, one for each, in order.
  abbrev pub AreResults : Repo → List NixPath → List Oid → Type 0
  AreResults r [] [] = Unit
  AreResults r (d ∷ ds) (o ∷ os) = ResultIs r d.hash o × AreResults r ds os
  AreResults r _ _ = ⊥

  pub All-IsReferenced :
      (r s : Repo) (ps : List Oid)
      → (grows g refs).rel r s
      → All (IsReferenced r) ps
      → All (IsReferenced s) ps
  All-IsReferenced r s [] h a = tt
  All-IsReferenced r s (p ∷ ps) h ((hash, e), a) =
      ((hash, h.1 (get_result_ref hash) p e), All-IsReferenced r s ps h a)

  pub IsLinked-grows : (r s : Repo) (o : Oid) → (grows g refs).rel r s → IsLinked r o → IsLinked s o
  IsLinked-grows r s o h (t, ps, message, has, a) =
      (t, ps, message, h.0 o _ has, All-IsReferenced r s ps h a)

  pub AreResults-grows :
      (r s : Repo) (ds : List NixPath) (os : List Oid)
      → (grows g refs).rel r s
      → AreResults r ds os
      → AreResults s ds os
  AreResults-grows r s [] [] h a = tt
  AreResults-grows r s [] (o ∷ os) h a = a
  AreResults-grows r s (d ∷ ds) [] h a = a
  AreResults-grows r s (d ∷ ds) (o ∷ os) h (e, a) =
      (h.1 (get_result_ref d.hash) o e, AreResults-grows r s ds os h a)

  pub AreResults-All :
      (r : Repo) (ds : List NixPath) (os : List Oid) → AreResults r ds os → All (IsReferenced r) os
  AreResults-All r [] [] a = tt
  AreResults-All r [] (o ∷ os) a = absurd a
  AreResults-All r (d ∷ ds) [] a = absurd a
  AreResults-All r (d ∷ ds) (o ∷ os) (e, a) = ((d.hash, e), AreResults-All r ds os a)

  pub AllLinked-same : (r s : Repo) → (same_refs g refs).rel r s → AllLinked r → AllLinked s
  AllLinked-same r s h linked hash o e =
      IsLinked-grows r s o (same_refs-grows g refs r s h) (linked hash o (sym (h.1 _) ∙ e))

-- How an operation on the repository ended.
pub GitResult-cases :
    {Repo A : Type 0} (x : GitResult A × Repo)
    → ((a : A) × (x ≡ (done a, x.1))) ⊎ ((c : GitCode) × (x ≡ (failed c, x.1)))
GitResult-cases (done a, r) = inl (a, refl)
GitResult-cases (failed c, r) = inr (c, refl)

module _ {Repo Oid Builder : Type 0} {g : Git Repo Oid Builder} {refs : Refs Repo Oid}
    {laws : GitLaws g} {commits : Commits Repo Oid} (store : StoreLaws g refs laws commits) where
  -- Setting a reference other than a result leaves the results as they are.
  pub reference-AllLinked_other :
      (name : Bytes) (o : Oid) (r : Repo)
      → ((hash : Bytes) → get_result_ref hash ≢ name)
      → AllLinked g refs r
      → AllLinked g refs (refs.reference name o r).1
  reference-AllLinked_other name o r other linked hash c e =
      IsLinked-grows g refs r _ c (store.reference_grows name o r) (
        linked hash c
          (sym (store.reference_others name (get_result_ref hash) o r (other hash)) ∙ e))

  -- A reference that has just been set has the oid, or it is as before.
  reference_sets :
      (name : Bytes) (o c : Oid) (r : Repo)
      → refs.find_reference name (refs.reference name o r).1 ≡ done (some c)
      → (o ≡ c) ⊎ (refs.find_reference name r ≡ done (some c))
  reference_sets name o c r e = elim (GitResult-cases (refs.reference name o r)) [
    | inl (a, x) ↦ let there = (store.ref_laws.reference_adds name o r _ x).0 in inl (cc)
    | inr (code, x) ↦ inr (sym (store.reference_fails name o code r _ x) ∙ e)
  ]

  pub reference-AllLinked :
      (name : Bytes) (o : Oid) (r : Repo)
      → IsLinked g refs r o
      → AllLinked g refs r
      → AllLinked g refs (refs.reference name o r).1
  reference-AllLinked name o r new linked hash c e =
      let up = store.reference_grows name o r in
      elim (Bool-cases (bytes_eq (get_result_ref hash) name)) [
        | inl same ↦
            let is_name = bytes_eq→eq (get_result_ref hash) name same in
            elim (reference_sets name o c r (
              subst (λ k. refs.find_reference k (refs.reference name o r).1 ≡ done (some c)) is_name
                e)) [
                  | inl is_new ↦
                      subst (IsLinked g refs _) is_new (IsLinked-grows g refs r _ o up new)
                  | inr old ↦ IsLinked-grows g refs r _ c up (
                      linked hash c
                        (subst (λ k. refs.find_reference k r ≡ done (some c)) (sym is_name) old))
                ]
        | inr other ↦ IsLinked-grows g refs r _ c up (
            linked hash c (
              sym (
                store.reference_others name (get_result_ref hash) o r
                  (λ q. cc (bytes_eq_refl name)))
              ∙ e))
      ]
