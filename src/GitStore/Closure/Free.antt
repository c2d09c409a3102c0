-- ===== src/GitStore/Closure/Free.antt =====
-- Packages that are not there at all, for `_add_closure` (src/git_store/store.rs): neither their result nor
-- their narinfo.
use gachix.Prelude.{◌≡◌, ◌≢◌, sym, ◌∙◌, ◌⊎◌, inl, inr, not_found}
use gachix.Bytes.{Bytes}
use gachix.Git.{Git, failed}
use gachix.Git.Laws.{GitLaws}
use gachix.GitStore.Closure.Linked.{ResultIs}
use gachix.GitStore.Commit.{Commits}
use gachix.GitStore.Laws.{same_refs, StoreLaws}
use gachix.GitStore.References.{Refs, get_result_ref, get_narinfo_ref}
use gachix.GitStore.References.Names.{
  get_result_ref-ne-get_narinfo_ref, get_result_ref-injective, get_narinfo_ref-injective,
}

module _ {Repo Oid Builder : Type 0} (g : Git Repo Oid Builder) (refs : Refs Repo Oid) where
  abbrev pub IsAbsent : Repo → Bytes → Type 0
  IsAbsent r name = refs.find_reference name r ≡ failed not_found

  abbrev pub IsFree : Repo → Bytes → Type 0
  IsFree r hash = IsAbsent r (get_result_ref hash) × IsAbsent r (get_narinfo_ref hash)

  -- Every package has a result, or nothing. `add_single` breaks this.
  abbrev pub AllPaired : Repo → Type 0
  AllPaired r = (hash : Bytes) → ((o : Oid) × ResultIs g refs r hash o) ⊎ IsFree r hash

  -- References of other hashes are as before.
  abbrev pub OnlyOf : Bytes → Repo → Repo → Type 0
  OnlyOf hash r s =
      (other : Bytes)
      → other ≢ hash
      → (refs.find_reference (get_result_ref other) s
          ≡ refs.find_reference (get_result_ref other) r)
        × (refs.find_reference (get_narinfo_ref other) s
            ≡ refs.find_reference (get_narinfo_ref other) r)

  pub same_refs-IsFree :
      (r s : Repo) (hash : Bytes) → (same_refs g refs).rel r s → IsFree r hash → IsFree s hash
  same_refs-IsFree r s hash (e, f) (a, b) = (f _ ∙ a, f _ ∙ b)

  pub same_refs-AllPaired : (r s : Repo) → (same_refs g refs).rel r s → AllPaired r → AllPaired s
  same_refs-AllPaired r s h paired hash = elim (paired hash) [
    | inl (o, e) ↦ inl (o, h.1 _ ∙ e)
    | inr free ↦ inr (same_refs-IsFree r s hash h free)
  ]

module _ {Repo Oid Builder : Type 0} {g : Git Repo Oid Builder} {refs : Refs Repo Oid}
    {laws : GitLaws g} {commits : Commits Repo Oid} (store : StoreLaws g refs laws commits) where
  pub reference-OnlyOf_result :
      (hash : Bytes) (o : Oid) (r : Repo)
      → OnlyOf g refs hash r (refs.reference (get_result_ref hash) o r).1
  reference-OnlyOf_result hash o r other ne = (
    store.reference_others _ _ o r (λ e. ne (get_result_ref-injective other hash e)),
    store.reference_others _ _ o r (λ e. get_result_ref-ne-get_narinfo_ref hash other (sym e)),
  )

  pub reference-OnlyOf_narinfo :
      (hash : Bytes) (o : Oid) (r : Repo)
      → OnlyOf g refs hash r (refs.reference (get_narinfo_ref hash) o r).1
  reference-OnlyOf_narinfo hash o r other ne = (
    store.reference_others _ _ o r (get_result_ref-ne-get_narinfo_ref other hash),
    store.reference_others _ _ o r (λ e. ne (get_narinfo_ref-injective other hash e)),
  )
