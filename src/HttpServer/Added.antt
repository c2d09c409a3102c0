-- ===== src/HttpServer/Added.antt =====
-- What is answered about a path that was added.
use gachix.Prelude.{◌≡◌, false, Option, List, ok}
use gachix.Git.{Git}
use gachix.Git.Laws.{GitLaws}
use gachix.GitStore.Package.{OidText}
use gachix.GitStore.Daemons.{Daemon, HashText, PrivateKey}
use gachix.GitStore.References.{Refs, get_narinfo_ref, reference_exists, add_single}
use gachix.GitStore.References.Added.{RefLaws, add_single-narinfo}
use gachix.HttpServer.{body, get_narinfo}
use gachix.Nix.StorePath.{NixPath}
use gachix.Nix.NarInfo
use gachix.Nix.NarInfo.{NarInfo}

module _ {Repo Oid Builder : Type 0} {g : Git Repo Oid Builder} (laws : GitLaws g)
    (refs : Refs Repo Oid) (ref_laws : RefLaws laws refs) (hashes : HashText)
    (private_key : Option PrivateKey) (text : OidText Oid) where
  -- After `add_single` returned for a path whose narinfo was not there, whatever the daemons
  -- answered, a request for the narinfo of the path's hash is answered with status 200 and the text of
  -- a narinfo of that path.
  pub add_single-get_narinfo :
      (ds : List Daemon) (path : NixPath) (r s : Repo)
      → reference_exists g refs (get_narinfo_ref path.hash) r ≡ ok false
      → add_single g refs hashes private_key text ds path r ≡ (ok tt, s)
      → (n : NarInfo) × (n.store_path ≡ path)
        × (get_narinfo g refs path.hash s ≡ body (NarInfo.to_string n))
  unfolding get_narinfo
  add_single-get_narinfo ds path r s missing h =
      let (n, is_path, found) =
        add_single-narinfo laws hashes private_key text refs ref_laws ds path r s missing h in
      (n, is_path, rw (get_narinfo, found))
