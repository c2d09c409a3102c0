-- ===== src/GitStore/References/Added.antt =====
-- What is there after `add_single`.
use gachix.Prelude.{
  ◌≡◌, refl, Bool, true, false, not, if◌then◌else◌, Option, none, some, List, [], ◌∷◌, Result, ok,
  err, Exec, continue, continue-ok, Returns, and_then-Returns, Returns-ok, map_all, Any, any, subst,
  ap, sym,
}
use gachix.Bytes.{Bytes}
use gachix.Git.{Git, kind_of, ObjectType, blob, done}
use gachix.Git.Laws.{GitLaws, Has, Extends, lift_git-done, lift_git-ok}
use gachix.GitStore.Repository.{add_file_content, get_blob}
use gachix.GitStore.Package.{OidText, add_package}
use gachix.GitStore.Daemons.{
  PathInfo, Daemon, PrivateKey, HashText, parse_optional, signature_of, narinfo_of, narinfo_from,
  build_narinfo, fetch_package, get_package_from_nix_daemons,
}
use gachix.GitStore.References.{
  Refs, get_narinfo_ref, add_ref, get_oid_from_reference, reference_exists, get_narinfo, only_some,
  add_new, add_single,
}
use gachix.Nix.StorePath
use gachix.Nix.StorePath.{NixPath}
use gachix.Nix.NarInfo
use gachix.Nix.NarInfo.{NarInfo}

module _ {Repo Oid Builder : Type 0} {g : Git Repo Oid Builder} (laws : GitLaws g) where
  -- The documented behaviour of `git_reference_create`: after a success the reference is there, and
  -- objects are as before.
  pub record RefLaws (refs : Refs Repo Oid) : Type 0 where
    pub reference_adds :
        (name : Bytes) (o : Oid) (r s : Repo)
        → refs.reference name o r ≡ (done tt, s)
        → (refs.find_reference name s ≡ done (some o)) × Extends g r s

  -- What returned is the oid of the blob `c`.
  abbrev StoresBlob : Bytes → Result Oid × Repo → Type 0
  StoresBlob c (ok o, s) = Has g s o (blob c)
  StoresBlob c (err e, s) = Unit

  add_file_content-StoresBlob : (c : Bytes) (r : Repo) → StoresBlob c (add_file_content g c r)
  unfolding add_file_content
  add_file_content-StoresBlob c r =
      let (o, s, wrote, has, more) = laws.blob_stores c r in
      subst (StoresBlob c) (sym (lift_git-done (g.write_blob c) r s o wrote)) has

  module _ (refs : Refs Repo Oid) where
    pub get_blob-Has : (o : Oid) (c : Bytes) (s : Repo) → Has g s o (blob c) → get_blob g o s ≡ ok c
    unfolding get_blob kind_of
    get_blob-Has o c s has =
        let found : g.find_object o (some ObjectType.blob) s ≡ done (blob c) =
          laws.find_typed o (blob c) s has in
        rw found

    pub get_narinfo-found :
        (hash c : Bytes) (b : Oid) (s : Repo)
        → refs.find_reference (get_narinfo_ref hash) s ≡ done (some b)
        → Has g s b (blob c)
        → get_narinfo g refs hash s ≡ ok (some c)
    unfolding get_oid_from_reference get_narinfo
    get_narinfo-found hash c b s there has =
        rw (get_narinfo, get_oid_from_reference, there, get_blob-Has b c s has)

  module _ (hashes : HashText) (private_key : Option PrivateKey) (text : OidText Oid) where
    abbrev IsOf : NixPath → NarInfo → Type 0
    IsOf path n = n.store_path ≡ path

    narinfo_from-IsOf :
        (key : Bytes) (path : NixPath) (info : Option PathInfo)
        → Returns (IsOf path) (narinfo_from hashes private_key key path info)
    unfolding narinfo_from narinfo_of NarInfo.new
    narinfo_from-IsOf key path none = tt
    narinfo_from-IsOf key path (some info) =
        and_then-Returns Any (IsOf path) _ _ (any (map_all StorePath.new info.references)) λ refs _.
          and_then-Returns Any (IsOf path) _ _ (any (hashes.hex_decode info.nar_hash)) λ h _.
            and_then-Returns Any (IsOf path) _ _
              (any (signature_of hashes private_key path _ info.nar_size refs))
              λ sig _.
                and_then-Returns Any (IsOf path) _ _ (any (parse_optional info.deriver)) λ d _. refl

    build_narinfo-IsOf :
        (d : Daemon) (key : Bytes) (path : NixPath)
        → Returns (IsOf path) (build_narinfo hashes private_key d key path)
    unfolding build_narinfo
    build_narinfo-IsOf d key path =
        and_then-Returns Any (IsOf path) (d.get_pathinfo path) _ (any (d.get_pathinfo path))
          (λ info _. narinfo_from-IsOf key path info)

    -- A narinfo of the path is stored under the oid that was returned, if there is one.
    abbrev pub Stored : NixPath → Result (Option (NarInfo × Oid × Oid)) × Repo → Type 0
    Stored path (ok (some (n, b, o)), s) =
        (n.store_path ≡ path) × Has g s b (blob (NarInfo.to_string n))
    Stored path _ = Unit

    continue-Stored :
        {A : Type 0} (path : NixPath) (x : Result A × Repo)
        (f : A → Exec Repo (Option (NarInfo × Oid × Oid)))
        → ((a : A) (s : Repo) → x ≡ (ok a, s) → Stored path (f a s))
        → Stored path (continue x f)
    continue-Stored path (ok a, s) f h = h a s refl
    continue-Stored path (err e, s) f h = tt

    if-Stored :
        (path : NixPath) (b : Bool) (x y : Exec Repo (Option (NarInfo × Oid × Oid))) (s : Repo)
        → Stored path (x s)
        → Stored path (y s)
        → Stored path ((if not b then x else y) s)
    if-Stored path true x y s hx hy = hy
    if-Stored path false x y s hx hy = hx

    fetch_package-Stored :
        (d : Daemon) (path : NixPath) (r : Repo)
        → Stored path (fetch_package hashes private_key g text d path r)
    unfolding fetch_package
    fetch_package-Stored d path r =
        continue-Stored path (d.nar_from_path path, r) _
          λ nar r1 e1. continue-Stored path (add_package g nar r1) _ λ o r2 e2.
            continue-Stored path (build_narinfo hashes private_key d (text.to_string o) path, r2) _
              λ n r3 e3.
                continue-Stored path (add_file_content g (NarInfo.to_string n) r3) _ λ b r4 e4. (
                  Returns-ok (IsOf path)
                      (build_narinfo hashes private_key d (text.to_string o) path) n
                      (build_narinfo-IsOf d (text.to_string o) path) (ap (λ q. q.0) e3),
                  subst (StoresBlob (NarInfo.to_string n)) e4
                      (add_file_content-StoresBlob (NarInfo.to_string n) r3),
                )

    pub get_package-Stored :
        (ds : List Daemon) (path : NixPath) (r : Repo)
        → Stored path (get_package_from_nix_daemons hashes private_key g text ds path r)
    unfolding get_package_from_nix_daemons
    get_package-Stored [] path r = tt
    get_package-Stored (d ∷ ds) path r =
        continue-Stored path (d.connect, r) _
          λ u r1 e1.
            continue-Stored path (d.path_exists path, r1) _
              λ found r2 e2.
                if-Stored path found _ _ r2 (get_package-Stored ds path r2)
                  (fetch_package-Stored d path r2)

    module _ (refs : Refs Repo Oid) where
      only_some-Stored :
          (path : NixPath) (x : Result (Option (NarInfo × Oid × Oid)) × Repo) (b : Oid) (s : Repo)
          → Stored path x
          → only_some g refs hashes private_key text x ≡ (ok b, s)
          → (n : NarInfo) × (n.store_path ≡ path) × Has g s b (blob (NarInfo.to_string n))
      unfolding only_some
      only_some-Stored path (ok (some (n, b', o)), s') b s h e =
          (n, h.0, subst (StoresBlob (NarInfo.to_string n)) e h.1)
      only_some-Stored path (ok none, s') b s h e = cc
      only_some-Stored path (err x, s') b s h e = cc

      -- After `add_single` returned for a path whose narinfo was not there, whatever the daemons
      -- answered, the narinfo that is found under the path's hash is the text of a narinfo of that
      -- path.
      pub add_single-narinfo :
          RefLaws refs
          → (ds : List Daemon) (path : NixPath) (r s : Repo)
          → reference_exists g refs (get_narinfo_ref path.hash) r ≡ ok false
          → add_single g refs hashes private_key text ds path r ≡ (ok tt, s)
          → (n : NarInfo) × (n.store_path ≡ path)
            × (get_narinfo g refs path.hash s ≡ ok (some (NarInfo.to_string n)))
      unfolding add_single add_new add_ref
      add_single-narinfo ref_laws ds path r s missing h =
          let name = get_narinfo_ref path.hash in
          let (b, r1, found, added) =
            continue-ok
              (only_some g refs hashes private_key text
                (get_package_from_nix_daemons hashes private_key g text ds path r))
              (λ b. add_ref g refs name b) tt s (rw missing at h) in
          let (n, is_path, has) =
            only_some-Stored path _ b r1 (get_package-Stored ds path r) found in
          let (there, more) =
            ref_laws.reference_adds name b r1 s
              (lift_git-ok (refs.reference name b) r1 s tt added) in
          (
            n,
            is_path,
            get_narinfo-found refs path.hash (NarInfo.to_string n) b s there (more b _ has),
          )
