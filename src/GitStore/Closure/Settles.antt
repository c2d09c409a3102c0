-- ===== src/GitStore/Closure/Settles.antt =====
-- The recursion of `_add_closure` (src/git_store/store.rs) ends where no package depends on itself through
-- others.
use gachix.Prelude.{
  is_panic, Bool-cases, inl, inr, ℕ, zero, suc, ◌<◌, ◌≡◌, ◌≢◌, refl, ap, subst, not, Option, none,
  some, List, [], ◌∷◌, ◌++◌, All, All-map, Result, ok, err, Exec, out_of_fuel, Settles,
  continue-Settles, if-holds, arith,
}
use gachix.Bytes.{Bytes}
use gachix.Git.{Git, GitExec, GitResult, done, failed, lift_git, lift_result, ObjectType}
use gachix.GitStore.Commit
use gachix.GitStore.Commit.{Commits, find_typed, find_commits}
use gachix.GitStore.Closure.{
  with_parent, add_dependencies, or_none, or_else, if_collected, commit_package, add_fetched,
  add_from_daemons, add_step, add_closure_from,
}
use gachix.GitStore.Closure.Committed.{continue-ends}
use gachix.GitStore.Daemons.{
  Daemon, HashText, PrivateKey, build_narinfo, fetch_package, get_package_from_nix_daemons,
}
use gachix.GitStore.Package.{OidText, add_package}
use gachix.GitStore.References.{Refs, add_ref, get_commit, get_result_ref, get_narinfo_ref}
use gachix.GitStore.Repository.{add_file_content}
use gachix.Nix.StorePath.{NixPath}
use gachix.Nix.NarInfo
use gachix.Nix.NarInfo.{NarInfo, get_dependencies}

module _ {Repo A : Type 0} where
  lift_git-Settles : (m : GitExec Repo A) (r : Repo) → Settles (lift_git m r)
  unfolding lift_git lift_result
  lift_git-Settles m r = go (m r).0
    where
      go : (x : GitResult A) → lift_result x ≢ err out_of_fuel
      go (done a) h = cc
      go (failed c) h = cc

module _ {Repo Oid Builder : Type 0} (g : Git Repo Oid Builder) (refs : Refs Repo Oid)
    (commits : Commits Repo Oid) where
  find_commits-Settles : (os : List Oid) (r : Repo) → Settles (find_commits g os r)
  unfolding find_commits find_typed lift_result lift_git
  find_commits-Settles [] r = λ h. cc
  find_commits-Settles (o ∷ os) r =
      continue-Settles (find_typed g ObjectType.commit o r) _
        (lift_git-Settles (λ r. (g.find_object o (some ObjectType.commit) r, r)) r)
        (λ a s e. find_commits-Settles os s)

  commit-Settles :
      (t : Oid) (ps : List Oid) (m : Option Bytes) (r : Repo)
      → Settles (Commit.commit g commits t ps m r)
  unfolding Commit.commit find_typed lift_git lift_result
  commit-Settles t ps m r =
      continue-Settles (find_typed g ObjectType.tree t r) _
        (lift_git-Settles (λ r. (g.find_object t (some ObjectType.tree) r, r)) r)
        λ a s e.
          continue-Settles (find_commits g ps s) _ (find_commits-Settles ps s)
            λ b q e'. lift_git-Settles (commits.create t ps _) q

  commit_package-Settles :
      (path : NixPath) (b o : Oid) (ps : List Oid) (r : Repo)
      → Settles (commit_package g refs commits path b o ps r)
  unfolding commit_package add_ref
  commit_package-Settles path b o ps r =
      continue-Settles (Commit.commit g commits o ps (some path.name) r) _
        (commit-Settles o ps (some path.name) r)
        λ c s e.
          continue-Settles (add_ref g refs (get_result_ref path.hash) c s) _
            (lift_git-Settles (refs.reference _ c) s)
            λ u q e'.
              continue-Settles (add_ref g refs (get_narinfo_ref path.hash) b q) _
                (lift_git-Settles (refs.reference _ b) q) λ v t e'' h. cc

module _ {Repo Oid : Type 0} (add : NixPath → Exec Repo (Option Oid)) where
  with_parent-Settles :
      (found : Option Oid) (ps : List Oid) (rest : List Oid → Exec Repo (Option (List Oid)))
      (s : Repo)
      → ((ps : List Oid) → Settles (rest ps s))
      → Settles (with_parent found ps rest s)
  with_parent-Settles none ps rest s h = λ e. cc
  with_parent-Settles (some o) ps rest s h = h (ps ++ o ∷ [])

  add_dependencies-Settles :
      (ds : List NixPath) (ps : List Oid) (r : Repo)
      → All (λ d. (r : Repo) → Settles (add d r)) ds
      → Settles (add_dependencies add ds ps r)
  unfolding add_dependencies
  add_dependencies-Settles [] ps r a = λ h. cc
  add_dependencies-Settles (d ∷ ds) ps r (h, a) = continue-Settles (add d r) _ (h r) λ found s e.
      with_parent-Settles found ps (add_dependencies add ds) s
        λ ps'. add_dependencies-Settles ds ps' s a

  if_collected-Settles :
      (found : Option (List Oid)) (f : List Oid → Exec Repo (Option Oid)) (s : Repo)
      → ((ps : List Oid) → Settles (f ps s))
      → Settles (if_collected found f s)
  if_collected-Settles none f s h = λ e. cc
  if_collected-Settles (some ps) f s h = h ps

  or_none-Settles :
      {A : Type 0} (x : Result (Option A) × Repo) (f : A → Exec Repo (Option Oid))
      → ((a : A) (s : Repo) → x ≡ (ok (some a), s) → Settles (f a s))
      → Settles (or_none x f)
  or_none-Settles (ok (some a), s) f h = h a s refl
  or_none-Settles (ok none, s) f h = λ e. cc
  or_none-Settles (err x, s) f h = elim (Bool-cases (is_panic x)) [
    | inl stops ↦ rw stops (λ e. cc)
    | inr goes_on ↦ rw goes_on (λ e. cc)
  ]

  or_else-Settles :
      (found : Option Oid) (m : Exec Repo (Option Oid)) (r : Repo)
      → Settles (m r)
      → Settles (or_else found m r)
  or_else-Settles none m r h = h
  or_else-Settles (some o) m r h = λ e. cc

module _ (hashes : HashText) (private_key : Option PrivateKey) (rank : NixPath → ℕ) where
  -- What a daemon says of a path: its dependencies rank lower.
  abbrev pub IsRanked : Daemon → Type 0
  IsRanked d =
      (key : Bytes) (path : NixPath) (n : NarInfo)
      → build_narinfo hashes private_key d key path ≡ ok n
      → All (λ dep. rank dep < rank path) (get_dependencies n)

module _ {Repo Oid Builder : Type 0} (g : Git Repo Oid Builder) (refs : Refs Repo Oid)
    (commits : Commits Repo Oid) (hashes : HashText) (private_key : Option PrivateKey)
    (text : OidText Oid) (rank : NixPath → ℕ) where
  abbrev Lower : NixPath → Result (Option (NarInfo × Oid × Oid)) × Repo → Type 0
  Lower path (ok (some (n, b, o)), s) = All (λ dep. rank dep < rank path) (get_dependencies n)
  Lower path _ = Unit

  fetch_package-Lower :
      (d : Daemon) (path : NixPath) (r : Repo)
      → IsRanked hashes private_key rank d
      → Lower path (fetch_package hashes private_key g text d path r)
  unfolding fetch_package
  fetch_package-Lower d path r ranked =
      continue-ends (Lower path) (d.nar_from_path path, r) _
        (λ nar r1 e1.
          continue-ends (Lower path) (add_package g nar r1) _
            (λ o r2 e2.
              continue-ends (Lower path)
                (build_narinfo hashes private_key d (text.to_string o) path, r2) _
                (λ n r3 e3.
                  continue-ends (Lower path) (add_file_content g (NarInfo.to_string n) r3) _
                    (λ b r4 e4. ranked (text.to_string o) path n (ap (λ q. q.0) e3)) (λ e s x. tt))
                (λ e s x. tt))
            (λ e s x. tt))
        (λ e s x. tt)

  get_package-Lower :
      (ds : List Daemon) (path : NixPath) (r : Repo)
      → All (IsRanked hashes private_key rank) ds
      → Lower path (get_package_from_nix_daemons hashes private_key g text ds path r)
  unfolding get_package_from_nix_daemons
  get_package-Lower [] path r ranked = tt
  get_package-Lower (d ∷ ds) path r (here, there) =
      continue-ends (Lower path) (d.connect, r) _
        (λ u r1 e1.
          continue-ends (Lower path) (d.path_exists path, r1) _
            (λ found r2 e2.
              if-holds (λ (m : Exec Repo (Option (NarInfo × Oid × Oid))). Lower path (m r2))
                (not found) _ _ (get_package-Lower ds path r2 there)
                (fetch_package-Lower d path r2 here))
            (λ e s x. tt))
        (λ e s x. tt)

  module _ (ask_peers : NixPath → Exec Repo (Option Oid)) (daemons : List Daemon)
      (ask_peers-Settles : (path : NixPath) (r : Repo) → Settles (ask_peers path r))
      (ranked : All (IsRanked hashes private_key rank) daemons) where
    pub add_closure_from-Settles :
        (fuel : ℕ) (path : NixPath) (r : Repo)
        → rank path < fuel
        → Settles
            (add_closure_from g refs commits hashes private_key text ask_peers daemons fuel path r)
    unfolding add_closure_from add_step add_from_daemons add_fetched
    add_closure_from-Settles zero path r h = ground arith
    add_closure_from-Settles (suc fuel) path r h =
        let again =
          add_closure_from g refs commits hashes private_key text ask_peers daemons fuel in
        or_else-Settles again (get_commit g refs path.hash r) _ r (
          continue-Settles (ask_peers path r) _ (ask_peers-Settles path r) λ found s e.
            or_else-Settles again found
              (add_from_daemons g refs commits hashes private_key text ask_peers daemons again path)
              s
              (or_none-Settles again
                (get_package_from_nix_daemons hashes private_key g text daemons path s) _
                λ (n, b, o) q e'.
                  let lower =
                    All-map (λ dep. rank dep < rank path)
                      (λ dep. (r : Repo) → Settles (again dep r))
                      (λ dep less t. add_closure_from-Settles fuel dep t (omega arith))
                      (get_dependencies n)
                      (subst (Lower path) e' (get_package-Lower daemons path s ranked)) in
                  continue-Settles (add_dependencies again (get_dependencies n) [] q) _
                    (add_dependencies-Settles again (get_dependencies n) [] q lower)
                    λ found t e''.
                      if_collected-Settles again found _ t
                        λ ps. commit_package-Settles g refs commits path b o ps t))
