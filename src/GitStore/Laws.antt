-- ===== src/GitStore/Laws.antt =====
-- What the store relies on of libgit2's references and commits beside the laws of its objects, and the
-- two ways in which operations change a repository.
use gachix.Prelude.{
  ◌≡◌, ◌≢◌, refl, ◌∙◌, Bool, true, some, List, All, GitCode, exists, not_found, Preorder,
}
use gachix.Bytes.{Bytes}
use gachix.Git.{Git, Object, OwnedTreeEntry, tree, commit, done, failed}
use gachix.Git.Laws.{GitLaws, Has, Extends}
use gachix.GitStore.Commit.{Commits}
use gachix.GitStore.References.{Refs}
use gachix.GitStore.References.Added.{RefLaws}
use gachix.Nar.Decode.Frame.{OpsMove}

module _ {Repo Oid Builder : Type 0} (g : Git Repo Oid Builder) (refs : Refs Repo Oid) where
  -- Objects are added, and references are as before.
  abbrev pub same_refs : Preorder Repo
  same_refs = record {
    rel = λ r s.
        Extends g r s × ((name : Bytes) → refs.find_reference name s ≡ refs.find_reference name r);
    rel_refl = λ r. (λ o x h. h, λ name. refl);
    rel_trans = λ r s t (e, f) (e', f'). (λ o x h. e' o x (e o x h), λ name. f' name ∙ f name);
  }

  -- Objects and references are added.
  abbrev pub grows : Preorder Repo
  grows = record {
    rel = λ r s.
        Extends g r s
        × ((name : Bytes) (o : Oid)
            → refs.find_reference name r ≡ done (some o)
            → refs.find_reference name s ≡ done (some o));
    rel_refl = λ r. (λ o x h. h, λ name o h. h);
    rel_trans =
        λ r s t (e, f) (e', f'). (λ o x h. e' o x (e o x h), λ name o h. f' name o (f name o h));
  }

  abbrev pub IsCommit : Repo → Oid → Type 0
  IsCommit r o = (t : Oid) × (ps : List Oid) × (message : Bytes) × Has g r o (commit t ps message)

  pub same_refs-grows : (r s : Repo) → same_refs.rel r s → grows.rel r s
  same_refs-grows r s (e, f) = (e, λ name o h. f name ∙ h)

  -- The documented behaviour of the object database, of `git_reference_create` without force and of
  -- `git_commit_create` without a reference to update.
  pub record StoreLaws (laws : GitLaws g) (commits : Commits Repo Oid) : Type 0 where
    pub ref_laws : RefLaws laws refs
    pub ops_same : OpsMove g same_refs
    pub reference_grows :
        (name : Bytes) (o : Oid) (r : Repo) → grows.rel r (refs.reference name o r).1
    pub reference_others :
        (name other : Bytes) (o : Oid) (r : Repo)
        → other ≢ name
        → refs.find_reference other (refs.reference name o r).1 ≡ refs.find_reference other r
    pub reference_fails :
        (name : Bytes) (o : Oid) (c : GitCode) (r s : Repo)
        → refs.reference name o r ≡ (failed c, s)
        → refs.find_reference name s ≡ refs.find_reference name r
    pub reference_refuses :
        (name : Bytes) (o p : Oid) (r : Repo)
        → refs.find_reference name r ≡ done (some p)
        → refs.reference name o r ≡ (failed exists, r)
    pub create_stores :
        (t : Oid) (ps : List Oid) (message : Bytes) (o : Oid) (r s : Repo)
        → commits.create t ps message r ≡ (done o, s)
        → Has g s o (commit t ps message)
    pub create_same :
        (t : Oid) (ps : List Oid) (message : Bytes) (r : Repo)
        → same_refs.rel r (commits.create t ps message r).1

  -- When `git_reference_create` and `git_commit_create` succeed: the name is one that a reference may
  -- have, no reference has it, and the object is there; or the tree and the parents are.
  pub record LiveLaws (commits : Commits Repo Oid) : Type 0 where
    pub valid_ref : Bytes → Bool
    pub reference_succeeds :
        (name : Bytes) (o : Oid) (x : Object Oid) (r : Repo)
        → valid_ref name ≡ true
        → refs.find_reference name r ≡ failed not_found
        → Has g r o x
        → (s : Repo) × (refs.reference name o r ≡ (done tt, s))
    pub create_succeeds :
        (t : Oid) (es : List (OwnedTreeEntry Oid)) (ps : List Oid) (message : Bytes) (r : Repo)
        → Has g r t (tree es)
        → All (IsCommit r) ps
        → (c : Oid) × (s : Repo) × (commits.create t ps message r ≡ (done c, s))
