-- ===== src/GitStore/Peers/Dependencies.antt =====
-- The dependencies that are read from a narinfo that the store wrote.
use gachix.Prelude.{
  ◌≡◌, refl, ap, subst, false, Bool-cases, inl, inr, some, List, [], ◌∷◌, map, All, ok,
}
use gachix.Bytes.{Bytes, bytes_eq, bytes_eq→eq}
use gachix.Bytes.Utf8.Lossy.{from_utf8_lossy-is_utf8}
use gachix.Git.{Git, done}
use gachix.GitStore.Peers.{Remotes, get_dep_ids}
use gachix.GitStore.References.{Refs, get_narinfo_ref, get_oid_from_reference, get_narinfo}
use gachix.GitStore.Repository.{get_blob}
use gachix.Nix.NarInfo
use gachix.Nix.NarInfo.{NarInfo, without_path, get_dependencies}
use gachix.Nix.NarInfo.RoundTrip.{IsSigned, parse-to_string, to_string-IsAscii}
use gachix.Nix.StorePath
use gachix.Nix.StorePath.{NixPath}
use gachix.Nix.StorePath.BaseName.{IsPath, based, base-Lacks}
use gachix.Text.Lines.{Lacks}
use gachix.Text.Visible.{ascii-utf8}

based-eq :
    (p self : NixPath) → IsPath p → ¬ Lacks b'/' self.path → StorePath.eq (based p) self ≡ false
unfolding StorePath.eq
based-eq p self h slash = elim (Bool-cases (bytes_eq (based p).path self.path)) [
  | inr other ↦ other
  | inl same ↦ absurd (slash (subst (Lacks b'/') (bytes_eq→eq _ _ same) (base-Lacks p h)))
]

without_path-based :
    (self : NixPath) (ps : List NixPath)
    → ¬ Lacks b'/' self.path
    → All IsPath ps
    → without_path self (map based ps) ≡ map based ps
unfolding without_path
without_path-based self [] slash h = refl
without_path-based self (p ∷ ps) slash (h, hs) =
    rw (based-eq p self h slash, without_path-based self ps slash hs)

module _ {Repo Oid Builder Remote : Type 0} (g : Git Repo Oid Builder) (refs : Refs Repo Oid)
    (remotes : Remotes Repo Remote) where
  get_narinfo-found :
      (id content : Bytes) (o : Oid) (r : Repo)
      → refs.find_reference (get_narinfo_ref id) r ≡ done (some o)
      → get_blob g o r ≡ ok content
      → get_narinfo g refs id r ≡ ok (some content)
  unfolding get_narinfo get_oid_from_reference
  get_narinfo-found id content o r found read =
      rw (get_narinfo, get_oid_from_reference, found, read)

  -- Where the narinfo of a hash is the text of a signed narinfo, whose texts are visible ASCII characters and
  -- whose store path has a directory, the dependencies that are read for that hash are all
  -- references of the narinfo, in their order, without their directories: also one to the package itself.
  pub get_dep_ids-references :
      (id sig : Bytes) (n : NarInfo) (o : Oid) (r : Repo)
      → refs.find_reference (get_narinfo_ref id) r ≡ done (some o)
      → get_blob g o r ≡ ok (NarInfo.to_string n)
      → IsSigned n sig
      → ¬ Lacks b'/' n.store_path.path
      → get_dep_ids g refs remotes id r ≡ ok (map based n.references)
  unfolding get_dep_ids get_dependencies
  get_dep_ids-references id sig n o r found read signed slash =
      let text =
        from_utf8_lossy-is_utf8 (NarInfo.to_string n)
          (ascii-utf8 (NarInfo.to_string n) (to_string-IsAscii n sig signed)) in
      rw
        (
          get_narinfo-found id (NarInfo.to_string n) o r found read,
          text,
          (parse-to_string n sig signed).0,
        )
        (ap ok (without_path-based n.store_path n.references slash signed.references_read))
