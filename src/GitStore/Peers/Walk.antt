-- ===== src/GitStore/Peers/Walk.antt =====
-- The loop over the queue in `get_package_commit_from_git_remotes` (src/git_store/store.rs) ends: every
-- package is put into the queue at most once, and there are only so many hashes.
use gachix.Prelude.{
  ℕ, zero, suc, ◌+◌, ◌^◌, ◌<◌, ◌≤◌, ◌≡◌, ap, subst, true, false, Bool-cases, inl, inr, Option, none,
  some, List, [], ◌∷◌, ◌++◌, All, length, length-append, Result, ok, err, Exec, continue, ◌>>◌,
  Settles, ok-Finishes, err_again, continue-Settles, Returns, Returns-ok, arith, pure,
}
use gachix.Bytes.{Bytes, bytes}
use gachix.Bytes.Utf8.Range.{IsByte}
use gachix.Git.{Git}
use gachix.GitStore.References.{Refs}
use gachix.GitStore.Peers.{
  Remotes, contains, Queue, fetch_from_remote, get_dep_ids, or_next, first_remote, fetch_missing,
  visit, walk, if_found, get_package_commit_from_git_remotes,
}
use gachix.GitStore.Peers.Hashes.{
  hashes, length-hashes, contains-hashes, unvisited, unvisited-le, unvisited-cons,
}
use gachix.Nix.StorePath.{NixPath}
use gachix.Nix.StorePath.WellFormed.{HasHash}
use gachix.GitStore.Peers.Finishes.{
  fetch_from_remote-Settles, get_dep_ids-Finishes, get_dep_ids-HasHash, fetch_missing-Settles,
}

-- What is left to do: the packages of the queue, and the hashes that it has not had.
abbrev left : Queue → ℕ
left (ids, visited) = length ids + unvisited (hashes 32) visited

abbrev AtMost : ℕ → Queue → Type 0
AtMost n queue = left queue ≤ n

module _ {Repo Oid Builder Remote : Type 0} (g : Git Repo Oid Builder) (refs : Refs Repo Oid)
    (remotes : Remotes Repo Remote) where
  -- It settles, and leaves no more to do than there was.
  abbrev Lessens : ℕ → Result Queue × Repo → Type 0
  Lessens n x = Settles x × Returns (AtMost n) x.0

  skip-Lessens :
      (n : ℕ) (x : Result (Unit {0}) × Repo) (m : Exec Repo Queue)
      → Settles x
      → ((s : Repo) → Lessens n (m s))
      → Lessens n (continue x (λ _. m))
  skip-Lessens n (ok u, s) m hx hm = hm s
  skip-Lessens n (err e, s) m hx hm = (err_again e hx, tt)

  push-AtMost :
      (ids visited : List Bytes) (h : Bytes)
      → (length h ≡ 32) × All IsByte h
      → contains visited h ≡ false
      → AtMost (left (ids, visited)) (ids ++ h ∷ [], h ∷ visited)
  push-AtMost ids visited h (l, bytes) new =
      let there : contains (hashes 32) h ≡ true =
        subst (λ k. contains (hashes k) h ≡ true) l (contains-hashes h bytes) in
      let fewer = unvisited-cons (hashes 32) visited h there new in
      let longer = length-append ids (h ∷ []) in rw longer (omega (arith, fewer))

  AtMost-trans : (m n : ℕ) (x : Result Queue × Repo) → m ≤ n → Lessens m x → Lessens n x
  AtMost-trans m n (ok queue, s) le (h, a) = (h, omega (arith, le, a))
  AtMost-trans m n (err e, s) le (h, a) = (h, tt)

  visit-Lessens :
      (url : Bytes) (deps : List NixPath) (ids visited : List Bytes) (r : Repo)
      → All HasHash deps
      → Lessens (left (ids, visited)) (visit g refs remotes url deps (ids, visited) r)
  unfolding visit
  visit-Lessens url [] ids visited r all = (ok-Finishes (ids, visited), omega arith)
  visit-Lessens url (dep ∷ deps) ids visited r (h, all) =
      elim (Bool-cases (contains visited dep.hash)) [
        | inl seen ↦ rw (seen) (visit-Lessens url deps ids visited r all)
        | inr new ↦
            let next = visit g refs remotes url deps (ids ++ dep.hash ∷ [], dep.hash ∷ visited) in
            rw (new) (
              skip-Lessens (left (ids, visited)) (fetch_missing g refs remotes url dep.hash r) next
                (fetch_missing-Settles g refs remotes url dep.hash r)
                λ s.
                  AtMost-trans (left (ids ++ dep.hash ∷ [], dep.hash ∷ visited))
                    (left (ids, visited)) (next s) (push-AtMost ids visited dep.hash h new)
                    (visit-Lessens url deps (ids ++ dep.hash ∷ []) (dep.hash ∷ visited) s all))
      ]

  next-Settles :
      (found : Option Oid) (url : Bytes) (m : Exec Repo (Option (Oid × Bytes))) (s : Repo)
      → Settles (m s)
      → Settles (or_next g refs remotes found url m s)
  next-Settles none url m s h = h
  next-Settles (some o) url m s h = ok-Finishes (some (o, url))

  first_remote-Settles :
      (id : Bytes) (urls : List Bytes) (r : Repo) → Settles (first_remote g refs remotes id urls r)
  unfolding first_remote
  first_remote-Settles id [] r = ok-Finishes none
  first_remote-Settles id (url ∷ urls) r =
      continue-Settles (fetch_from_remote g refs remotes id url r) _
        (fetch_from_remote-Settles g refs remotes id url r)
        λ found s e.
          next-Settles found url (first_remote g refs remotes id urls) s
            (first_remote-Settles id urls s)

  -- What `walk` needs of its fuel, at any time.
  walk-Settles :
      (fuel : ℕ) (url : Bytes) (queue : Queue) (r : Repo)
      → left queue ≤ fuel
      → Settles (walk g refs remotes fuel url queue r)
  unfolding walk
  walk-Settles zero url ([], visited) r h = ok-Finishes tt
  walk-Settles (suc fuel) url ([], visited) r h = ok-Finishes tt
  walk-Settles zero url (id ∷ ids, visited) r h = ground arith
  walk-Settles (suc fuel) url (id ∷ ids, visited) r h =
      continue-Settles (get_dep_ids g refs remotes id r, r) _
        (get_dep_ids-Finishes g refs remotes id r)
        λ deps s e.
          let hashed =
            Returns-ok (All HasHash) (get_dep_ids g refs remotes id r) deps
              (get_dep_ids-HasHash g refs remotes id r) (ap (λ q. q.0) e) in
          let (settles, at_most) = visit-Lessens url deps ids visited s hashed in
          continue-Settles (visit g refs remotes url deps (ids, visited) s) _ settles λ queue t e'.
            let le = Returns-ok (AtMost (left (ids, visited))) _ queue at_most (ap (λ q. q.0) e') in
            walk-Settles fuel url queue t (omega (arith, le, h))

  -- Whatever the peers send, the search for a package at the git peers, with all its dependencies, does not
  -- reach a bound on its queue that is larger than the number of hashes of 32 bytes.
  pub get_package_commit_from_git_remotes-Settles :
      (fuel : ℕ) (urls : List Bytes) (path : NixPath) (r : Repo)
      → 256 ^ 32 < fuel
      → Settles (get_package_commit_from_git_remotes g refs remotes fuel urls path r)
  unfolding get_package_commit_from_git_remotes
  get_package_commit_from_git_remotes-Settles fuel urls path r h =
      continue-Settles (first_remote g refs remotes path.hash urls r) _
        (first_remote-Settles path.hash urls r) λ found s e. go found s
    where
      go :
          (found : Option (Oid × Bytes)) (s : Repo)
          → Settles (
              if_found g refs remotes found
                (λ o url.
                  (walk g refs remotes fuel url (path.hash ∷ [], path.hash ∷ []) >> pure (some o)))
                s)
      go none s = ok-Finishes none
      go (some (o, url)) s =
          continue-Settles (walk g refs remotes fuel url (path.hash ∷ [], path.hash ∷ []) s) _
            (walk-Settles fuel url (path.hash ∷ [], path.hash ∷ []) s
              (let le = unvisited-le (hashes 32) (path.hash ∷ []) in
                omega (arith, le, length-hashes 32, h)))
            (λ u t e'. ok-Finishes (some o))
