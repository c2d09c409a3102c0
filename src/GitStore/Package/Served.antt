-- ===== src/GitStore/Package/Served.antt =====
-- What is served of a package that was stored.
use mathlib.Core.List.{not-mem-nil, Pairwise-singleton}
use mathlib.Core.List.Perm
use gachix.Prelude.{
  ℕ, ◌+◌, ◌<◌, ◌≡◌, refl, ap, inl, inr, true, false, none, some, Option, List, [], ◌∷◌, length,
  ◌==◌, ok, append-nil, arith,
}
use gachix.Bytes.{Bytes}
use gachix.Git.{
  Git, OwnedTreeEntry, ObjectType, kind_of, FileMode, into, tree, blob, done, lift_result,
}
use gachix.Git.Laws.{GitLaws, Has, Extends, FitsMode, lift_git-done}
use gachix.GitStore.{single_file_package_marker}
use gachix.GitStore.Repository.{
  sole_entry_id, start_mode, add_nar, add_single_entry_tree, match_sole_entry_id, get_entry_as_nar,
}
use gachix.GitStore.Package.{OidText, wrap_single_file, add_package, get_as_nar_stream, unwrap_or}
use gachix.Nar.Format.{Node, Entries, regular, symlink, directory, strings, archive}
use gachix.Nar.Sort.{sort_by_name-eq, NameLt}
use gachix.Nar.Stored.{mode_of, Holds}
use gachix.Nar.Archivable.{IsArchivable, Holds-Extends}
use gachix.Nar.Stream
use gachix.Nar.Stream.{NarGitStream, collect, joined}
use gachix.Nar.Stream.Correct.{stream-eq-archive}
use gachix.Nar.Decode.RoundTrip.{parse-archive}
use gachix.GitStore.Package.Sole.{
  IsUnmarked, sort_by_name-sole, sole_entry_id_self, sole_entry_id-unmarked, marker_utf8,
}

-- The contents of a file, or the target of a link.
abbrev pub plain : Bytes → Node
plain c = regular false c

-- What the store serves in place of a package: directories as they are, and every single file as a
-- regular file that is not executable.
abbrev pub served : Node → Node
served (regular executable c) = plain c
served (symlink t) = plain t
served (directory es) = directory es

abbrev pub IsServable : Node → Type 0
IsServable (directory es) = IsUnmarked es
IsServable _ = Unit

module _ {Repo Oid Builder : Type 0} {g : Git Repo Oid Builder} (laws : GitLaws g) where
  add_nar-archive :
      (n : Node) (r : Repo)
      → IsArchivable laws.valid_name n
      → (o : Oid) × (s : Repo) × (add_nar g (archive n) r ≡ (ok (o, mode_of n), s))
        × Holds g s o (mode_of n) n
  unfolding add_nar
  add_nar-archive n r a =
      let (o, s, e, held, kept) = parse-archive laws n [] r a in
      (o, s, ap (λ q. (q.0, q.1.1)) (rw append-nil at e), held)

  -- A blob that is wrapped: a tree with it as the only entry, which is read back.
  add_single_entry_tree-stores :
      (o : Oid) (m : ℕ) (c name : Bytes) (r : Repo)
      → Has g r o (blob c)
      → FitsMode {Oid = Oid} m (blob c)
      → laws.valid_name name ≡ true
      → (t : Oid) × (s : Repo) × (add_single_entry_tree g o name m r ≡ (ok t, s))
        × Has g s t (tree (record { id = o; filemode = m; name = name } ∷ []))
        × Extends g r s
  unfolding add_single_entry_tree
  add_single_entry_tree-stores o m c name r has fits valid =
      let (b, started, empty) = laws.builder_starts r in
      let (b', inserted, p) =
        laws.insert_adds name o m (blob c) b r valid has fits
          (λ e me. absurd (not-mem-nil (rw empty at me))) in
      let (t, s, es, wrote, stored, q, more) = laws.write_stores b' r in
      let sole =
        sort_by_name-sole es (record { id = o; filemode = m; name = name })
          (sort_by_name-eq laws.is_set
            (Pairwise-singleton NameLt (record { id = o; filemode = m; name = name }))
            (Perm.trans q (rw empty at p))) in
      (
        t,
        s,
        rw (
          lift_git-done g.treebuilder r r b started,
          lift_git-done (g.insert name o m b) r r b' inserted,
          lift_git-done (g.write_tree b') r s t wrote,
        ),
        rw sole at stored,
        more,
      )

  match_sole_entry_id-found :
      (t : Oid) (name : Bytes) (s : Repo) (fs : List (OwnedTreeEntry Oid))
      → Has g s t (tree fs)
      → match_sole_entry_id g t name s ≡ ok (sole_entry_id name fs)
  unfolding match_sole_entry_id kind_of
  match_sole_entry_id-found t name s fs has =
      let found : g.find_object t (some ObjectType.tree) s ≡ done (tree fs) =
        laws.find_typed t (tree fs) s has in
      rw (match_sole_entry_id, found)

  module _ (text : OidText Oid) where
    get_as_nar_stream-started :
        (t : Oid) (s : Repo) (fs : List (OwnedTreeEntry Oid)) (sole : Option Oid) (m : ℕ)
        → Has g s t (tree fs)
        → sole_entry_id single_file_package_marker fs ≡ sole
        → start_mode (g.find_object (unwrap_or sole t) none s) ≡ ok m
        → get_as_nar_stream g text (text.to_string t) s
          ≡ ok (some (Stream.new (unwrap_or sole t) m))
    unfolding get_as_nar_stream lift_result get_entry_as_nar
    get_as_nar_stream-started t s fs sole m has e started = rw (
      text.from_str-to_string t,
      match_sole_entry_id-found t single_file_package_marker s fs has,
      e,
      get_entry_as_nar,
      started,
    )

    -- The key `o` gives a stream, in this repository, whose chunks are the archive of `n`.
    abbrev pub Streams : Oid → Repo → Node → ℕ → Type 0
    Streams o s n f =
        (stream : NarGitStream Oid) × (get_as_nar_stream g text (text.to_string o) s
          ≡ ok (some stream))
        × (joined (collect g s f stream) ≡ ok (archive n))

    -- The archive was stored as a tree, under a key that streams `n` from then on.
    abbrev pub Serves : Node → Bytes → Repo → ℕ → Type 0
    Serves n nar r f =
        (o : Oid) × (s : Repo) × (add_package g nar r ≡ (ok o, s))
        × ((s' : Repo) → Extends g s s' → Streams o s' n f)
        × (es : List (OwnedTreeEntry Oid)) × Has g s o (tree es)

    directory-Serves :
        (es : Entries) (r : Repo) (f : ℕ)
        → IsArchivable laws.valid_name (directory es)
        → IsUnmarked es
        → length (strings (directory es)) + 1 < f
        → Serves (directory es) (archive (directory es)) r f
    unfolding Holds add_package wrap_single_file start_mode
    directory-Serves es r f a u fuel =
        let (o, s, added, held) = add_nar-archive (directory es) r a in
        let (m, fs, has, hold) = held in
        (
          o,
          s,
          rw added,
          λ s' more. (
            Stream.new o (into FileMode.tree),
            get_as_nar_stream-started o s' fs none (into FileMode.tree) (more o _ has)
                (sole_entry_id-unmarked g s fs es hold u) (ap start_mode (more o _ has)),
            stream-eq-archive laws s' (directory es) o (into FileMode.tree) f
                (Holds-Extends g (directory es) o (into FileMode.tree) s s' more held) fuel,
          ),
          fs,
          has,
        )

    -- A blob with a file mode of one, wrapped.
    file-Serves :
        (nar c : Bytes) (o : Oid) (m : ℕ) (r s : Repo) (f : ℕ)
        → add_nar g nar r ≡ (ok (o, m), s)
        → Has g s o (blob c)
        → FitsMode {Oid = Oid} m (blob c)
        → (m == into FileMode.tree) ≡ false
        → laws.valid_name single_file_package_marker ≡ true
        → length (strings (plain c)) + 1 < f
        → Serves (plain c) nar r f
    unfolding Holds add_package wrap_single_file start_mode
    file-Serves nar c o m r s f added has fits single valid fuel =
        let (t, s', wrapped, stored, kept) =
          add_single_entry_tree-stores o m c single_file_package_marker s has fits valid in
        (
          t,
          s',
          rw (added, single) wrapped,
          λ s'' more.
              let found = more o (blob c) (kept o (blob c) has) in
              (
                Stream.new o (into FileMode.blob),
                get_as_nar_stream-started t s'' _ (some o) (into FileMode.blob) (more t _ stored)
                    (sole_entry_id_self
                      (record { id = o; filemode = m; name = single_file_package_marker })
                      marker_utf8)
                    (ap start_mode found),
                stream-eq-archive laws s'' (plain c) o (into FileMode.blob) f (refl, found) fuel,
              ),
          _,
          stored,
        )

    pub add_package-Serves :
        (n : Node) (r : Repo) (f : ℕ)
        → IsArchivable laws.valid_name n
        → IsServable n
        → laws.valid_name single_file_package_marker ≡ true
        → length (strings n) + 1 < f
        → Serves (served n) (archive n) r f
    unfolding Holds strings
    add_package-Serves (regular true c) r f a u valid fuel =
        let (o, s, added, held) = add_nar-archive (regular true c) r a in
        file-Serves _ c o _ r s f added held.1 (inr (inl refl)) refl valid (omega arith)
    add_package-Serves (regular false c) r f a u valid fuel =
        let (o, s, added, held) = add_nar-archive (regular false c) r a in
        file-Serves _ c o _ r s f added held.1 (inl refl) refl valid (omega arith)
    add_package-Serves (symlink t) r f a u valid fuel =
        let (o, s, added, held) = add_nar-archive (symlink t) r a in
        file-Serves _ t o _ r s f added held.1 (inr (inr refl)) refl valid (omega arith)
    add_package-Serves (directory es) r f a u valid fuel = directory-Serves es r f a u fuel

    -- The archive of any object that the format and git allow is stored as a package, unless it is a
    -- directory whose only entry has the marker's name; and the key of the package, looked up in the
    -- repository that is left, gives a stream whose chunks, with fuel above the number of the
    -- archive's strings, are together an archive again: of the same directory, or, of a single file,
    -- of a regular file that is not executable and has the same contents, the target of a link among
    -- them.
    pub package-served :
        (n : Node) (r : Repo) (f : ℕ)
        → IsArchivable laws.valid_name n
        → IsServable n
        → laws.valid_name single_file_package_marker ≡ true
        → length (strings n) + 1 < f
        → (o : Oid) × (s : Repo) × (stream : NarGitStream Oid) × (add_package g (archive n) r
            ≡ (ok o, s))
          × (get_as_nar_stream g text (text.to_string o) s ≡ ok (some stream))
          × (joined (collect g s f stream) ≡ ok (archive (served n)))
    package-served n r f a u valid fuel =
        let (o, s, added, later, _, _) = add_package-Serves n r f a u valid fuel in
        let (stream, started, e) = later s (λ o x h. h) in (o, s, stream, added, started, e)
