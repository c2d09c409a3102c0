-- ===== src/GitStore/Peers/Closed.antt =====
-- What is there after `get_package_commit_from_git_remotes` (src/git_store/store.rs) found a package at a
-- peer: the narinfos of all that it depends on.
use gachix.Prelude.{
  length, sym, ◌∙◌, Returns-ok, ℕ, zero, suc, ◌≡◌, ap, subst, true, Bool-cases, inl, inr, Option,
  none, some, List, [], ◌∷◌, ◌++◌, All, Result, ok, err, continue-ok, ◌>>◌, ◌⊎◌, pure,
}
use gachix.Bytes.{Bytes}
use gachix.Git.{Git}
use gachix.GitStore.References.{Refs}
use gachix.GitStore.Peers.{
  Remotes, contains, Queue, get_dep_ids, first_remote, fetch_missing, visit, walk, if_found,
  get_package_commit_from_git_remotes,
}
use gachix.Nix.StorePath.{NixPath}
use gachix.GitStore.Peers.Contains.{
  contains-more, contains-cons_self, contains-cases, contains-append_left, contains-append_self,
  contains-append_cases,
}
use gachix.GitStore.Peers.Finishes.{get_dep_ids-HasHash}
use gachix.Nix.StorePath.WellFormed.{HasHash}
use gachix.GitStore.Peers.Kept.{
  keeps_others, keeps_deps, keeps_deps-others, AreSized, RemoteLaws, IsLooked, IsLooked-kept,
  fetch_missing-Moves,
}

module _ {Repo Oid Builder Remote : Type 0} (g : Git Repo Oid Builder) (refs : Refs Repo Oid)
    (remotes : Remotes Repo Remote) (laws : RemoteLaws g refs remotes) where
  abbrev IsWithin : List Bytes → List Bytes → Type 0
  IsWithin ids visited = (h : Bytes) → contains ids h ≡ true → contains visited h ≡ true

  IsWithin-queued :
      (ids visited : List Bytes) (id : Bytes)
      → IsWithin ids visited
      → IsWithin (ids ++ id ∷ []) (id ∷ visited)
  IsWithin-queued ids visited id within h x = elim (contains-append_cases ids id h x) [
    | inl same ↦ subst (λ k. contains (id ∷ visited) k ≡ true) same (contains-cons_self visited id)
    | inr before ↦ contains-more visited id h (within h before)
  ]

  -- After the loop over some dependencies: they are among the packages visited, nothing is forgotten,
  -- and what is new is in the queue.
  abbrev Visited : List NixPath → Queue → Repo → Queue → Repo → Type 0
  Visited deps (ids, visited) r (ids', visited') s =
      (keeps_deps g refs remotes visited).rel r s
      × (AreSized g refs remotes visited → AreSized g refs remotes visited')
      × (IsWithin ids visited → IsWithin ids' visited')
      × ((h : Bytes) → contains visited h ≡ true → contains visited' h ≡ true)
      × ((h : Bytes) → contains ids h ≡ true → contains ids' h ≡ true)
      × ((h : Bytes)
          → contains visited' h ≡ true
          → (contains visited h ≡ true) ⊎ (contains ids' h ≡ true))
      × All (λ d. contains visited' d.hash ≡ true) deps

  abbrev AfterVisit : List NixPath → Queue → Repo → Result Queue × Repo → Type 0
  AfterVisit deps queue r (ok queue', s) = Visited deps queue r queue' s
  AfterVisit deps queue r (err e, s) = Unit

  sized-cons :
      (id : Bytes) (visited : List Bytes)
      → length id ≡ 32
      → AreSized g refs remotes visited
      → AreSized g refs remotes (id ∷ visited)
  sized-cons id visited size sized h x = elim (contains-cases visited id h x) [
    | inl same ↦ ap length (sym same) ∙ size
    | inr before ↦ sized h before
  ]

  visit-Visited :
      (url : Bytes) (deps : List NixPath) (ids visited : List Bytes) (queue : Queue) (r s : Repo)
      → AreSized g refs remotes visited
      → All HasHash deps
      → visit g refs remotes url deps (ids, visited) r ≡ (ok queue, s)
      → Visited deps (ids, visited) r queue s
  unfolding visit
  visit-Visited url [] ids visited queue r s sized sizes e =
      subst (AfterVisit [] (ids, visited) r) e (
        (keeps_deps g refs remotes visited).rel_refl r,
        (λ z. z),
        (λ z. z),
        (λ h x. x),
        (λ h x. x),
        (λ h x. inl x),
        tt,
      )
  visit-Visited url (dep ∷ deps) ids visited queue r s sized (of_hash, sizes) e =
      elim (Bool-cases (contains visited dep.hash)) [
        | inl seen ↦
            let (kept, still, within, more, more_ids, old, all) =
              visit-Visited url deps ids visited queue r s sized sizes (rw (visit, seen) at e) in
            (kept, still, within, more, more_ids, old, (more dep.hash seen, all))
        | inr new ↦
            let (u, t, e1, e2) =
              continue-ok (fetch_missing g refs remotes url dep.hash r)
                (λ _. visit g refs remotes url deps (ids ++ dep.hash ∷ [], dep.hash ∷ visited))
                queue s (rw (visit, new) at e) in
            let others : (keeps_others g refs remotes dep.hash).rel r t =
              subst (λ x. (keeps_others g refs remotes dep.hash).rel r x.1) e1
                ((fetch_missing-Moves g refs remotes laws dep.hash url).at r) in
            let first =
              keeps_deps-others g refs remotes dep.hash visited r t of_hash.0 sized new others in
            let both = sized-cons dep.hash visited of_hash.0 sized in
            let (kept, still, within, more, more_ids, old, all) =
              visit-Visited url deps (ids ++ dep.hash ∷ []) (dep.hash ∷ visited) queue t s both
                sizes e2 in
            (
              (λ id ds among h.
                  kept id ds (contains-more visited dep.hash id among) (first id ds among h)),
              (λ z. still both),
              (λ z. within (IsWithin-queued ids visited dep.hash z)),
              (λ h x. more h (contains-more visited dep.hash h x)),
              (λ h x. more_ids h (contains-append_left ids (dep.hash ∷ []) h x)),
              (λ h x. elim (old h x) [
                | inr queued ↦ inr queued
                | inl before ↦ elim (contains-cases visited dep.hash h before) [
                  | inl is_dep ↦ inr (
                      more_ids h (
                        subst (λ k. contains (ids ++ dep.hash ∷ []) k ≡ true) is_dep
                          (contains-append_self ids dep.hash)))
                  | inr earlier ↦ inl earlier
                ]
              ]),
              (more dep.hash (contains-cons_self visited dep.hash), all),
            )
      ]

  -- Everything visited is still queued, or has been looked at.
  abbrev Invariant : Queue → Repo → Type 0
  Invariant (ids, visited) s =
      AreSized g refs remotes visited
      × IsWithin ids visited
      × ((h : Bytes)
          → contains visited h ≡ true
          → (contains ids h ≡ true) ⊎ IsLooked g refs remotes s visited h)

  -- A set of packages that holds all of these, and with each what it depends on.
  abbrev IsCovered : List Bytes → Repo → Type 0
  IsCovered visited s =
      (all : List Bytes) × ((h : Bytes) → contains visited h ≡ true → contains all h ≡ true)
      × ((h : Bytes) → contains all h ≡ true → IsLooked g refs remotes s all h)

  after_visit-Invariant :
      (id : Bytes) (ids visited : List Bytes) (deps : List NixPath) (queue : Queue) (r s : Repo)
      → get_dep_ids g refs remotes id r ≡ ok deps
      → Visited deps (ids, visited) r queue s
      → Invariant (id ∷ ids, visited) r
      → Invariant queue s
  after_visit-Invariant id ids visited deps (ids', visited') r s looked
        (kept, still, within, more, more_ids, old, all) (sized, among, inv) =
      let queued : IsWithin ids visited = λ h x. among h (contains-more ids id h x) in
      let here = among id (contains-cons_self ids id) in
      (
        still sized,
        within queued,
        (λ h x. elim (old h x) [
          | inr queued' ↦ inl queued'
          | inl before ↦ elim (inv h before) [
            | inr done_before ↦
                inr
                  (IsLooked-kept g refs remotes r s visited visited' h kept before more done_before)
            | inl first ↦ elim (contains-cases ids id h first) [
              | inr waits ↦ inl (more_ids h waits)
              | inl is_id ↦ inr (
                  subst (IsLooked g refs remotes s visited') is_id
                    (deps, kept id deps here looked, all))
            ]
          ]
        ]),
      )

  empty-IsCovered :
      (visited : List Bytes) (s : Repo) → Invariant ([], visited) s → IsCovered visited s
  unfolding contains
  empty-IsCovered visited s inv =
      (visited, (λ h x. x), λ h x. elim (inv.2 h x) [ inl queued ↦ cc | inr looked ↦ looked ])

  walk-IsCovered :
      (fuel : ℕ) (url : Bytes) (ids visited : List Bytes) (r s : Repo)
      → Invariant (ids, visited) r
      → walk g refs remotes fuel url (ids, visited) r ≡ (ok tt, s)
      → IsCovered visited s
  unfolding walk
  walk-IsCovered zero url [] visited r s inv e =
      empty-IsCovered visited s (subst (Invariant ([], visited)) (ap (λ x. x.1) e) inv)
  walk-IsCovered (suc fuel) url [] visited r s inv e =
      empty-IsCovered visited s (subst (Invariant ([], visited)) (ap (λ x. x.1) e) inv)
  walk-IsCovered zero url (id ∷ ids) visited r s inv e = cc
  walk-IsCovered (suc fuel) url (id ∷ ids) visited r s inv e =
      let (deps, r1, e1, h1) = continue-ok (get_dep_ids g refs remotes id r, r) _ tt s e in
      let (queue, r2, e2, h2) =
        continue-ok (visit g refs remotes url deps (ids, visited) r1) _ tt s h1 in
      let same : r ≡ r1 = ap (λ x. x.1) e1 in
      let looked : get_dep_ids g refs remotes id r1 ≡ ok deps =
        subst (λ t. get_dep_ids g refs remotes id t ≡ ok deps) same (ap (λ x. x.0) e1) in
      let sizes : All HasHash deps =
        Returns-ok (All HasHash) (get_dep_ids g refs remotes id r) deps
          (get_dep_ids-HasHash g refs remotes id r) (ap (λ x. x.0) e1) in
      let step = visit-Visited url deps ids visited queue r1 r2 inv.0 sizes e2 in
      let (all, holds, closed) =
        walk-IsCovered fuel url queue.0 queue.1 r2 s
          (after_visit-Invariant id ids visited deps queue r1 r2 looked step
            (subst (Invariant (id ∷ ids, visited)) same inv))
          h2 in
      (all, (λ h x. holds h (step.3 h x)), closed)

  found-IsCovered :
      (fuel : ℕ) (id : Bytes) (found : Option (Oid × Bytes)) (o : Oid) (r s : Repo)
      → length id ≡ 32
      → if_found g refs remotes found
          (λ commit_oid url.
            (walk g refs remotes fuel url (id ∷ [], id ∷ []) >> pure (some commit_oid)))
          r
        ≡ (ok (some o), s)
      → IsCovered (id ∷ []) s
  unfolding contains
  found-IsCovered fuel id none o r s size h = cc
  found-IsCovered fuel id (some (c, url)) o r s size h =
      let (u, t, e1, e2) =
        continue-ok (walk g refs remotes fuel url (id ∷ [], id ∷ []) r) _ (some o) s h in
      let same : t ≡ s = ap (λ x. x.1) e2 in
      subst (IsCovered (id ∷ [])) same (
        walk-IsCovered fuel url (id ∷ []) (id ∷ []) r t
          (sized-cons id [] size (λ h x. cc), (λ h x. x), (λ h x. inl x)) e1)

  -- Let making a remote keep references to blobs, and the blobs, and let a fetch with the refspec of a package
  -- keep those that this refspec does not match. When a package whose hash has 32 bytes was found at a peer,
  -- there is a set of packages, with this one among them, all of which have a narinfo in the repository that
  -- can be parsed and names packages of the set only; so the narinfos of the whole closure are there.
  pub get_package_commit_from_git_remotes-IsCovered :
      (fuel : ℕ) (urls : List Bytes) (path : NixPath) (o : Oid) (r s : Repo)
      → length path.hash ≡ 32
      → get_package_commit_from_git_remotes g refs remotes fuel urls path r ≡ (ok (some o), s)
      → (all : List Bytes) × (contains all path.hash ≡ true)
        × ((h : Bytes) → contains all h ≡ true → IsLooked g refs remotes s all h)
  unfolding get_package_commit_from_git_remotes
  get_package_commit_from_git_remotes-IsCovered fuel urls path o r s size h =
      let (found, t, e1, e2) =
        continue-ok (first_remote g refs remotes path.hash urls r) _ (some o) s h in
      let (all, holds, closed) = found-IsCovered fuel path.hash found o t s size e2 in
      (all, holds path.hash (contains-cons_self [] path.hash), closed)
