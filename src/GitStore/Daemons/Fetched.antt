-- ===== src/GitStore/Daemons/Fetched.antt =====
-- A package that a daemon has, from its archive to the stream of what is served.
use gachix.Prelude.{
  ℕ, ◌+◌, ◌<◌, ◌≡◌, refl, ap, ◌∙◌, true, false, Option, none, some, List, [], ◌∷◌, ◌++◌, length,
  All, ok, map_all,
}
use gachix.Bytes.{Bytes, bytes}
use gachix.Git.{Git, OwnedTreeEntry, tree, blob, ObjectType, done, kind_of}
use gachix.Git.Laws.{GitLaws, Has, lift_git-done}
use gachix.GitStore.{single_file_package_marker}
use gachix.GitStore.Repository.{add_file_content, get_blob}
use gachix.GitStore.Package.{OidText, get_as_nar_stream}
use gachix.GitStore.Package.Served.{served, IsServable, Streams, add_package-Serves}
use gachix.GitStore.Daemons.{
  PathInfo, Daemon, PrivateKey, HashText, parse_optional, nar_hash_text, signature_of, narinfo_of,
  narinfo_from, build_narinfo, fetch_package, get_package_from_nix_daemons,
}
use gachix.Nar.Format.{Node, strings, archive}
use gachix.Nar.Archivable.{IsArchivable}
use gachix.Nar.Stream.{NarGitStream, collect, joined}
use gachix.Nix.StorePath
use gachix.Nix.StorePath.{NixPath}
use gachix.Nix.NarInfo
use gachix.Nix.NarInfo.{NarInfo, fingerprint_store_object}
use gachix.Nix.Signature.{sign}

-- The daemon answers, and does not have the path.
abbrev pub Lacks : NixPath → Daemon → Type 0
Lacks path d = (d.connect ≡ ok tt) × (d.path_exists path ≡ ok false)

-- The daemon answers, and has the path: this archive, with this information.
abbrev pub Provides : NixPath → Bytes → PathInfo → Daemon → Type 0
Provides path nar info d =
    (d.connect ≡ ok tt)
    × (d.path_exists path ≡ ok true)
    × (d.nar_from_path path ≡ ok nar)
    × (d.get_pathinfo path ≡ ok (some info))

-- There is no key, or its halves are those of a pair.
abbrev pub CanSign : HashText → Option PrivateKey → Type 0
CanSign hashes none = Unit
CanSign hashes (some key) =
    (sign_with : Bytes → Bytes) × (hashes.from_seed_and_public_key key.seed key.public_key
      ≡ some sign_with)

signature_of-CanSign :
    (hashes : HashText) (private_key : Option PrivateKey) (path : NixPath) (nar_hash : Bytes)
    (nar_size : ℕ) (references : List NixPath)
    → CanSign hashes private_key
    → (signature : Option Bytes) × (signature_of hashes private_key path nar_hash nar_size
          references
        ≡ ok signature)
unfolding signature_of sign
signature_of-CanSign hashes none path nar_hash nar_size references h = (none, refl)
signature_of-CanSign hashes (some key) path nar_hash nar_size references (sign_with, h) =
    let message = fingerprint_store_object path nar_hash nar_size references in
    (
      some (key.name ++ (bytes ":" ++ hashes.base64_encode (sign_with message))),
      rw (signature_of, sign, h) refl,
    )

module _ (hashes : HashText) (private_key : Option PrivateKey) where
  -- The information is well-formed: its references, its hash and its deriver can be read.
  abbrev pub Reads : PathInfo → List NixPath → Bytes → Option NixPath → Type 0
  Reads info references nar_hash deriver =
      (map_all StorePath.new info.references ≡ ok references)
      × (hashes.hex_decode info.nar_hash ≡ ok nar_hash)
      × (parse_optional info.deriver ≡ ok deriver)

  build_narinfo-Reads :
      (d : Daemon) (key : Bytes) (path : NixPath) (info : PathInfo) (references : List NixPath)
      (nar_hash : Bytes) (signature : Option Bytes) (deriver : Option NixPath)
      → d.get_pathinfo path ≡ ok (some info)
      → Reads info references nar_hash deriver
      → signature_of hashes private_key path
          (nar_hash_text hashes nar_hash)
          info.nar_size
          references
        ≡ ok signature
      → build_narinfo hashes private_key d key path
        ≡ ok (narinfo_of hashes private_key key path info references nar_hash signature deriver)
  unfolding build_narinfo narinfo_from
  build_narinfo-Reads d key path info references nar_hash signature deriver found (er, eh, ed) es =
      rw (found, er, eh, es, ed)

  module _ {Repo Oid Builder : Type 0} {g : Git Repo Oid Builder} (laws : GitLaws g)
      (text : OidText Oid) where
    get_package-skip :
        (ds rest : List Daemon) (path : NixPath) (r : Repo)
        → All (Lacks path) ds
        → get_package_from_nix_daemons hashes private_key g text (ds ++ rest) path r
          ≡ get_package_from_nix_daemons hashes private_key g text rest path r
    unfolding get_package_from_nix_daemons
    get_package-skip [] rest path r h = refl
    get_package-skip (d ∷ ds) rest path r ((c, e), h) =
        rw (c, e) (get_package-skip ds rest path r h)

    get_package-found :
        (d : Daemon) (rest : List Daemon) (path : NixPath) (r : Repo)
        → d.connect ≡ ok tt
        → d.path_exists path ≡ ok true
        → get_package_from_nix_daemons hashes private_key g text (d ∷ rest) path r
          ≡ fetch_package hashes private_key g text d path r
    unfolding get_package_from_nix_daemons
    get_package-found d rest path r c e = rw (c, e)

    get_blob-found : (o : Oid) (c : Bytes) (s : Repo) → Has g s o (blob c) → get_blob g o s ≡ ok c
    unfolding get_blob kind_of
    get_blob-found o c s has =
        let found : g.find_object o (some ObjectType.blob) s ≡ done (blob c) =
          laws.find_typed o (blob c) s has in
        rw found

    -- What the loop over the daemons returns, when a daemon provides the archive of `n`.
    abbrev pub Fetches : List Daemon → NixPath → List NixPath → Node → Repo → ℕ → Type 0
    Fetches ds path references n r f =
        (narinfo : NarInfo) × (b o : Oid) × (s : Repo) × (get_package_from_nix_daemons hashes
            private_key g text ds path r
          ≡ (ok (some (narinfo, b, o)), s))
        × (narinfo.store_path ≡ path)
        × (narinfo.references ≡ references)
        × Has g s b (blob (NarInfo.to_string narinfo))
        × Streams laws text o s (served n) f
        × (narinfo.key ≡ text.to_string o)
        × (es : List (OwnedTreeEntry Oid)) × Has g s o (tree es)

    pub get_package-Fetches :
        (ds rest : List Daemon) (d : Daemon) (path : NixPath) (info : PathInfo)
        (references : List NixPath) (nar_hash : Bytes) (deriver : Option NixPath) (n : Node)
        (r : Repo) (f : ℕ)
        → All (Lacks path) ds
        → Provides path (archive n) info d
        → Reads info references nar_hash deriver
        → CanSign hashes private_key
        → IsArchivable laws.valid_name n
        → IsServable n
        → laws.valid_name single_file_package_marker ≡ true
        → length (strings n) + 1 < f
        → Fetches (ds ++ d ∷ rest) path references n r f
    unfolding fetch_package add_file_content narinfo_of NarInfo.new
    get_package-Fetches ds rest d path info references nar_hash deriver n r f lack (c, e, nar, i)
          reads can_sign a u v fuel =
        let (signature, signed) =
          signature_of-CanSign hashes private_key path (nar_hash_text hashes nar_hash) info.nar_size
            references can_sign in
        let (o, s, added, later, es, holds) = add_package-Serves laws text n r f a u v fuel in
        let narinfo =
          narinfo_of hashes private_key (text.to_string o) path info references nar_hash signature
            deriver in
        let (b, s', wrote, has, more) = laws.blob_stores (NarInfo.to_string narinfo) s in
        (
          narinfo,
          b,
          o,
          s',
          rw (
            get_package-skip ds (d ∷ rest) path r lack,
            get_package-found d rest path r c e,
            nar,
            added,
            build_narinfo-Reads d (text.to_string o) path info references nar_hash signature deriver
                i reads signed,
            lift_git-done (g.write_blob (NarInfo.to_string narinfo)) s s' b wrote,
          ),
          refl,
          refl,
          has,
          later s' more,
          refl,
          es,
          more o _ holds,
        )

    -- Let no daemon of `ds` have the path, and let the next one provide the archive of an object that the
    -- format and git allow, not a directory whose only entry has the marker's name, with well-formed
    -- information, and let the private key, if there is one, be one that can sign; and let git allow the
    -- marker's name. Then the loop over the daemons returns a narinfo of that path and those references, the
    -- oid of a blob and the oid of the package. In the repository that is left, the blob is the narinfo's
    -- text, and the narinfo's key gives a stream whose chunks, with fuel above the number of the archive's
    -- strings, are together the archive of what is served of the object.
    pub fetched-served :
        (ds rest : List Daemon) (d : Daemon) (path : NixPath) (info : PathInfo)
        (references : List NixPath) (nar_hash : Bytes) (deriver : Option NixPath) (n : Node)
        (r : Repo) (f : ℕ)
        → All (Lacks path) ds
        → Provides path (archive n) info d
        → Reads info references nar_hash deriver
        → CanSign hashes private_key
        → IsArchivable laws.valid_name n
        → IsServable n
        → laws.valid_name single_file_package_marker ≡ true
        → length (strings n) + 1 < f
        → (narinfo : NarInfo) × (b o : Oid) × (s : Repo) × (stream : NarGitStream Oid)
          × (get_package_from_nix_daemons hashes private_key g text (ds ++ d ∷ rest) path r
              ≡ (ok (some (narinfo, b, o)), s))
          × (narinfo.store_path ≡ path)
          × (narinfo.references ≡ references)
          × (get_blob g b s ≡ ok (NarInfo.to_string narinfo))
          × (get_as_nar_stream g text narinfo.key s ≡ ok (some stream))
          × (joined (collect g s f stream) ≡ ok (archive (served n)))
    fetched-served ds rest d path info references nar_hash deriver n r f lack provides reads
          can_sign a u v fuel =
        let (narinfo, b, o, s, e, of_path, refs, has, (stream, started, j), key, _, _) =
          get_package-Fetches ds rest d path info references nar_hash deriver n r f lack provides
            reads can_sign a u v fuel in
        (
          narinfo,
          b,
          o,
          s,
          stream,
          e,
          of_path,
          refs,
          get_blob-found b (NarInfo.to_string narinfo) s has,
          ap (λ k. get_as_nar_stream g text k s) key ∙ started,
          j,
        )
