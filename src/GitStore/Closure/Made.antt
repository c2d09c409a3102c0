-- ===== src/GitStore/Closure/Made.antt =====
-- The commit of a package and its references, in `_add_closure` (src/git_store/store.rs), are made where
-- nothing of the package is there.
use gachix.Prelude.{◌≡◌, refl, sym, ◌∙◌, subst, true, some, List, [], ◌∷◌, All, ok}
use gachix.Bytes.{Bytes}
use gachix.Git.{
  Git, Object, OwnedTreeEntry, ObjectType, kind_of, tree, blob, commit, done, lift_result,
}
use gachix.Git.Laws.{GitLaws, Has, lift_git-done}
use gachix.GitStore.Commit
use gachix.GitStore.Commit.{Commits, find_typed, find_commits}
use gachix.GitStore.Closure.{commit_package}
use gachix.GitStore.Closure.Free.{
  IsAbsent, IsFree, OnlyOf, reference-OnlyOf_result, reference-OnlyOf_narinfo,
}
use gachix.GitStore.Laws.{same_refs, IsCommit, StoreLaws, LiveLaws}
use gachix.GitStore.References.{Refs, add_ref, get_result_ref, get_narinfo_ref}
use gachix.GitStore.References.Names.{get_result_ref-ne-get_narinfo_ref}
use gachix.Nix.StorePath.{NixPath}

-- The names of both references of a package are ones that a reference may have.
abbrev pub HasValidNames :
    {Repo Oid Builder : Type 0} {g : Git Repo Oid Builder} {refs : Refs Repo Oid}
    {commits : Commits Repo Oid}
    → LiveLaws g refs commits
    → NixPath
    → Type 0
HasValidNames live path =
    (live.valid_ref (get_result_ref path.hash) ≡ true)
    × (live.valid_ref (get_narinfo_ref path.hash) ≡ true)

module _ {Repo Oid Builder : Type 0} {g : Git Repo Oid Builder} {refs : Refs Repo Oid}
    {laws : GitLaws g} {commits : Commits Repo Oid} (store : StoreLaws g refs laws commits)
    (live : LiveLaws g refs commits) where
  find_typed-found :
      (o : Oid) (x : Object Oid) (r : Repo) → Has g r o x → find_typed g (kind_of x) o r ≡ (ok x, r)
  unfolding find_typed lift_result
  find_typed-found o x r has = rw (find_typed, laws.find_typed o x r has)

  find_commits-found :
      (ps : List Oid) (r : Repo) → All (IsCommit g refs r) ps → find_commits g ps r ≡ (ok tt, r)
  unfolding find_commits kind_of
  find_commits-found [] r h = refl
  find_commits-found (p ∷ ps) r ((t, qs, m, has), h) =
      let is_commit : find_typed g ObjectType.commit p r ≡ (ok (commit t qs m), r) =
        find_typed-found p (commit t qs m) r has in
      rw is_commit (find_commits-found ps r h)

  commit-done :
      (t : Oid) (es : List (OwnedTreeEntry Oid)) (ps : List Oid) (message : Bytes) (r : Repo)
      → Has g r t (tree es)
      → All (IsCommit g refs r) ps
      → (c : Oid) × (s : Repo) × (Commit.commit g commits t ps (some message) r ≡ (ok c, s))
        × Has g s c (commit t ps message)
        × (same_refs g refs).rel r s
  unfolding Commit.commit kind_of
  commit-done t es ps message r has all =
      let (c, s, made) = live.create_succeeds t es ps message r has all in
      let is_tree : find_typed g ObjectType.tree t r ≡ (ok (tree es), r) =
        find_typed-found t (tree es) r has in
      (
        c,
        s,
        rw (
          is_tree,
          find_commits-found ps r all,
          lift_git-done (commits.create t ps message) r s c made,
        ),
        store.create_stores t ps message c r s made,
        subst (λ x. (same_refs g refs).rel r x.1) made (store.create_same t ps message r),
      )

  add_ref-done :
      (name : Bytes) (o : Oid) (x : Object Oid) (r : Repo)
      → live.valid_ref name ≡ true
      → IsAbsent g refs r name
      → Has g r o x
      → (s : Repo) × (refs.reference name o r ≡ (done tt, s))
        × (add_ref g refs name o r ≡ (ok tt, s))
  unfolding add_ref
  add_ref-done name o x r valid absent has =
      let (s, e) = live.reference_succeeds name o x r valid absent has in
      (s, e, lift_git-done (refs.reference name o) r s tt e)

  pub commit_package-done :
      (path : NixPath) (b o : Oid) (text : Bytes) (es : List (OwnedTreeEntry Oid)) (ps : List Oid)
      (r : Repo)
      → HasValidNames live path
      → Has g r b (blob text)
      → Has g r o (tree es)
      → All (IsCommit g refs r) ps
      → IsFree g refs r path.hash
      → (c : Oid) × (s : Repo) × (commit_package g refs commits path b o ps r ≡ (ok (some c), s))
        × OnlyOf g refs path.hash r s
  unfolding commit_package
  commit_package-done path b o text es ps r (valid, valid') has_narinfo has_package all
        (free, free') =
      let result = get_result_ref path.hash in
      let narinfo = get_narinfo_ref path.hash in
      let (c, r1, made, has_commit, (more, same)) =
        commit-done o es ps path.name r has_package all in
      let (r2, set, added) = add_ref-done result c _ r1 valid (same result ∙ free) has_commit in
      let still : IsAbsent g refs r2 narinfo =
        subst (λ x. IsAbsent g refs x.1 narinfo) set
          (store.reference_others result narinfo c r1
              (λ e. get_result_ref-ne-get_narinfo_ref path.hash path.hash (sym e))
            ∙ same narinfo
            ∙ free') in
      let kept : Has g r2 b (blob text) =
        subst (λ x. Has g x.1 b (blob text)) set
          ((store.reference_grows result c r1).0 b _ (more b _ has_narinfo)) in
      let (r3, set', added') = add_ref-done narinfo b _ r2 valid' still kept in
      let only : OnlyOf g refs path.hash r1 r2 =
        subst (λ x. OnlyOf g refs path.hash r1 x.1) set
          (reference-OnlyOf_result store path.hash c r1) in
      let only' : OnlyOf g refs path.hash r2 r3 =
        subst (λ x. OnlyOf g refs path.hash r2 x.1) set'
          (reference-OnlyOf_narinfo store path.hash b r2) in
      (
        c,
        r3,
        rw (made, added, added'),
        λ other ne. (
          (only' other ne).0 ∙ (only other ne).0 ∙ same (get_result_ref other),
          (only' other ne).1 ∙ (only other ne).1 ∙ same (get_narinfo_ref other),
        ),
      )
