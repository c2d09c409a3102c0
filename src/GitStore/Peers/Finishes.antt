-- ===== src/GitStore/Peers/Finishes.antt =====
-- What the loop of `get_package_commit_from_git_remotes` (src/git_store/store.rs) calls does not depend on
-- a bound, and the dependencies that it goes through have hashes.
use gachix.Prelude.{
  and_then, panic, Bool, true, false, not, Option, none, some, List, [], ◌∷◌, All, Result, ok, err,
  Exec, git, not_found, exists, generic, Finishes, Settles, ok-Finishes, err-Finishes, err_again,
  and_then-Finishes, continue-Settles, if-holds, Returns, ◌==◌, pure, Any, any, and_then-Returns,
  ok-Returns,
}
use gachix.Bytes.{Bytes, bytes}
use gachix.Bytes.Utf8.Lossy.{from_utf8_lossy}
use gachix.Git.{Git, GitExec, GitResult, Object, ObjectType, done, failed, lift_git, lift_result}
use gachix.GitStore.Repository.{get_blob, blob_content}
use gachix.GitStore.References.{
  Refs, is_found, reference_exists, get_oid_from_reference, get_narinfo, get_narinfo_ref,
  get_result_ref, get_commit,
}
use gachix.GitStore.Opening.{unwrap}
use gachix.GitStore.Peers.{
  or_panic, Remotes, or_new, peer_remote, fetch, ok_or, if_received, fetch_from_remote,
  some_narinfo, get_dep_ids, both_exist, fetch_missing,
}
use gachix.Nix.StorePath
use gachix.Nix.StorePath.{NixPath}
use gachix.Nix.StorePath.WellFormed.{HasHash}
use gachix.Nix.NarInfo
use gachix.Nix.NarInfo.{NarInfo, without_path, get_dependencies}
use gachix.Nix.NarInfo.WellFormed.{IsWellFormed, parse-IsWellFormed}
use gachix.Nix.NarInfo.Finishes.{parse-Finishes}

lift_result-Finishes : {A : Type 0} (x : GitResult A) → Finishes (lift_result x)
unfolding lift_result
lift_result-Finishes (done a) = ok-Finishes a
lift_result-Finishes (failed c) = err-Finishes (git c) (λ h. cc)

pub lift_git-Settles : {Repo A : Type 0} (m : GitExec Repo A) (r : Repo) → Settles (lift_git m r)
unfolding lift_git
lift_git-Settles m r = lift_result-Finishes (m r).0

or_panic-Settles :
    {Repo A : Type 0} (m : Repo → Option (GitResult A) × Repo) (r : Repo) → Settles (or_panic m r)
unfolding or_panic unwrap
or_panic-Settles {A = A} m r = go (m r).0
  where
    go : (x : Option (GitResult A)) → Finishes (and_then (unwrap x) lift_result)
    go none = err-Finishes panic (λ h. cc)
    go (some x) = lift_result-Finishes x

is_found-Finishes : {A : Type 0} (x : GitResult A) → Finishes (is_found x)
unfolding is_found
is_found-Finishes (done a) = ok-Finishes true
is_found-Finishes (failed not_found) = ok-Finishes false
is_found-Finishes (failed exists) = err-Finishes _ (λ h. cc)
is_found-Finishes (failed generic) = err-Finishes _ (λ h. cc)

without_path-HasHash :
    (p : NixPath) (ps : List NixPath) → All HasHash ps → All HasHash (without_path p ps)
unfolding without_path
without_path-HasHash p [] h = tt
without_path-HasHash p (q ∷ qs) (hq, hs) =
    let rest = without_path-HasHash p qs hs in
    if-holds (All HasHash) (not (StorePath.eq q p)) _ _ (hq, rest) rest

module _ {Repo Remote : Type 0} (remotes : Remotes Repo Remote) where
  peer_remote-Settles : (url : Bytes) (r : Repo) → Settles (peer_remote remotes url r)
  unfolding peer_remote
  peer_remote-Settles url r = go (remotes.find_remote (bytes "peer") r)
    where
      go : (x : GitResult Remote) → Settles (or_new remotes x url r)
      go (done remote) = ok-Finishes remote
      go (failed c) = lift_git-Settles (remotes.remote_with_fetch (bytes "peer") url (bytes "")) r

  fetch-Settles : (url reference : Bytes) (r : Repo) → Settles (fetch remotes url reference r)
  unfolding fetch
  fetch-Settles url reference r =
      continue-Settles (peer_remote remotes url r) _ (peer_remote-Settles url r) λ remote s e.
        continue-Settles (or_panic (remotes.fetch_refspecs remote _ _) s) _ (or_panic-Settles _ s)
          λ n t e'.
            if-holds (λ (m : Exec Repo (Option (Unit {0}))). Settles (m t)) (n == 0) (pure none)
              (pure (some tt)) (ok-Finishes none) (ok-Finishes (some tt))

module _ {Repo Oid Builder Remote : Type 0} (g : Git Repo Oid Builder) (refs : Refs Repo Oid)
    (remotes : Remotes Repo Remote) where
  pub fetch_from_remote-Settles :
      (id url : Bytes) (r : Repo) → Settles (fetch_from_remote g refs remotes id url r)
  unfolding fetch_from_remote
  fetch_from_remote-Settles id url r =
      continue-Settles (fetch remotes url _ r) _ (fetch-Settles remotes url _ r)
        λ received s e. go received s
    where
      found : (o : Option Oid) (s : Repo) → Settles (ok_or g refs remotes o s)
      found none s = err-Finishes _ (λ h. cc)
      found (some o) s = ok-Finishes (some o)

      go :
          (o : Option (Unit {0})) (s : Repo)
          → Settles (
              if_received g refs remotes o
                (λ repo. ok_or g refs remotes (get_commit g refs id repo) repo)
                s)
      go none s = ok-Finishes none
      go (some u) s = found (get_commit g refs id s) s

  get_blob-Finishes : (o : Oid) (r : Repo) → Finishes (get_blob g o r)
  unfolding get_blob
  get_blob-Finishes o r = go (g.find_object o (some ObjectType.blob) r)
    where
      go : (x : GitResult (Object Oid)) → Finishes (blob_content x)
      go (done (Object.blob c)) = ok-Finishes c
      go (done (Object.tree es)) = err-Finishes _ (λ h. cc)
      go (done (Object.commit t ps m)) = err-Finishes _ (λ h. cc)
      go (done (Object.tag t)) = err-Finishes _ (λ h. cc)
      go (failed c) = err-Finishes _ (λ h. cc)

  get_narinfo-Finishes : (id : Bytes) (r : Repo) → Finishes (get_narinfo g refs id r)
  unfolding get_narinfo
  get_narinfo-Finishes id r = go (get_oid_from_reference g refs (get_narinfo_ref id) r)
    where
      content_of :
          (x : Result Bytes)
          → Finishes x
          → Finishes (elim x [ ok content ↦ ok (some content) | err e ↦ err e ])
      content_of (ok c) h = ok-Finishes (some c)
      content_of (err e) h = err_again e h

      go :
          (o : Option Oid)
          → Finishes {A = Option Bytes} (elim o [
            | none ↦ ok none
            | some oid ↦ elim (get_blob g oid r) [ ok content ↦ ok (some content) | err e ↦ err e ]
          ])
      go none = ok-Finishes none
      go (some oid) = content_of (get_blob g oid r) (get_blob-Finishes oid r)

  some_narinfo-Finishes : (o : Option Bytes) → Finishes (some_narinfo g refs remotes o)
  some_narinfo-Finishes none = err-Finishes _ (λ h. cc)
  some_narinfo-Finishes (some b) = ok-Finishes b

  pub get_dep_ids-Finishes : (id : Bytes) (r : Repo) → Finishes (get_dep_ids g refs remotes id r)
  unfolding get_dep_ids
  get_dep_ids-Finishes id r =
      and_then-Finishes (get_narinfo g refs id r) _ (get_narinfo-Finishes id r) λ found.
        and_then-Finishes (some_narinfo g refs remotes found) _ (some_narinfo-Finishes found) λ b.
          and_then-Finishes (NarInfo.parse (from_utf8_lossy b)) _
            (parse-Finishes (from_utf8_lossy b)) λ n. ok-Finishes _

  pub get_dep_ids-HasHash :
      (id : Bytes) (r : Repo) → Returns (All HasHash) (get_dep_ids g refs remotes id r)
  unfolding get_dep_ids get_dependencies IsWellFormed
  get_dep_ids-HasHash id r =
      and_then-Returns Any (All HasHash) (get_narinfo g refs id r) _ (any _) λ found _.
        and_then-Returns Any (All HasHash) (some_narinfo g refs remotes found) _ (any _) λ b _.
          and_then-Returns IsWellFormed (All HasHash) (NarInfo.parse (from_utf8_lossy b)) _
            (ok-Returns IsWellFormed (NarInfo.parse (from_utf8_lossy b))
              (λ n h. parse-IsWellFormed (from_utf8_lossy b) n h))
            λ n wf. without_path-HasHash n.store_path n.references wf.2

  both_exist-Settles : (id : Bytes) (r : Repo) → Settles (both_exist g refs remotes id r)
  unfolding both_exist reference_exists
  both_exist-Settles id r =
      continue-Settles (is_found (refs.find_reference (get_result_ref id) r), r) _
        (is_found-Finishes _)
        λ found s e.
          if-holds (λ (m : Exec Repo Bool). Settles (m s)) found _ _ (is_found-Finishes _)
            (ok-Finishes false)

  pub fetch_missing-Settles :
      (url id : Bytes) (r : Repo) → Settles (fetch_missing g refs remotes url id r)
  unfolding fetch_missing
  fetch_missing-Settles url id r =
      continue-Settles (both_exist g refs remotes id r) _ (both_exist-Settles id r) λ there s e.
        if-holds (λ (m : Exec Repo (Unit {0})). Settles (m s)) (not there) _ _
          (continue-Settles (fetch_from_remote g refs remotes id url s) _
            (fetch_from_remote-Settles id url s) λ o t e'. ok-Finishes tt)
          (ok-Finishes tt)
