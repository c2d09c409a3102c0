-- ===== src/GitStore/Directory/Stored.antt =====
-- What the repository holds after `create_tree_from_dir` (src/git_store/repository.rs).
use mathlib.Core.List.{Perm, perm_middle}
use mathlib.Core.List.Perm
use gachix.Prelude.{
  ℕ, ◌≡◌, refl, sym, ◌∙◌, subst, inl, inr, true, Bool-cases, List, [], ◌∷◌, ◌++◌, ok, append-nil,
  Exec, Result,
}
use gachix.Bytes.{Bytes}
use gachix.Git.{Git, Object, OwnedTreeEntry, FileMode, into, tree, blob, lift_git}
use gachix.Git.Laws.{GitLaws, Has, Extends, FitsMode, IsFresh, lift_git-done}
use gachix.Nar.Stored.{regular_mode}
use gachix.GitStore.Directory.{
  File, Files, link, file, dir, other, no_files, named, is_executable, file_mode,
  create_tree_from_dir, tree_of, insert_files, insert_file,
}
use gachix.GitStore.Directory.Held.{
  NotAmong, IsStorable, AreStorable, HoldsFile, HoldFiles, HoldsFile-Extends, HoldFiles-Extends,
  AllFresh, AllFresh-perm, AllFresh-nil,
}

module _ {Repo Oid Builder : Type 0} {g : Git Repo Oid Builder} (laws : GitLaws g) where
  file_mode-eq : (mode : ℕ) → file_mode mode ≡ regular_mode (is_executable mode)
  unfolding file_mode
  file_mode-eq mode = elim (Bool-cases (is_executable mode)) [ inl is ↦ rw is | inr is ↦ rw is ]

  HoldsFile-fits :
      (f : File) (r : Repo) (o : Oid) (m : ℕ)
      → HoldsFile g r o m f
      → (x : Object Oid) × Has g r o x × FitsMode m x
  unfolding HoldsFile file_mode
  HoldsFile-fits (link target) r o m h = (blob target, h.1, inr (inr h.0))
  HoldsFile-fits (file mode contents) r o m h = elim (Bool-cases (is_executable mode)) [
    | inl set ↦ (blob contents, h.1, inr (inl (h.0 ∙ rw (set))))
    | inr unset ↦ (blob contents, h.1, inl (h.0 ∙ rw (unset)))
  ]
  HoldsFile-fits (dir files) r o m (e, es, fs, has, p, h) = (tree es, has, e)
  HoldsFile-fits other r o m h = elim h [ ]

  -- After an entry was inserted.
  abbrev Inserted : Bytes → File → Builder → Repo → Result Builder × Repo → Type 0
  Inserted name f b r x =
      (c : Builder) × (s : Repo) × (e : OwnedTreeEntry Oid) × (x ≡ (ok c, s))
      × (e.name ≡ name)
      × Perm (laws.listing c) (e ∷ laws.listing b)
      × HoldsFile g s e.id e.filemode f
      × Extends g r s

  -- An object that is stored is inserted.
  stored-Inserted :
      (name : Bytes) (f : File) (b : Builder) (r s : Repo) (o : Oid) (m : ℕ)
      → laws.valid_name name ≡ true
      → IsFresh name (laws.listing b)
      → HoldsFile g s o m f
      → Extends g r s
      → Inserted name f b r (lift_git (g.insert name o m b) s)
  stored-Inserted name f b r s o m valid fresh holds more =
      let (x, has, fits) = HoldsFile-fits f s o m holds in
      let (c, inserted, p) = laws.insert_adds name o m x b s valid has fits fresh in
      (
        c,
        s,
        record { id = o; filemode = m; name = name },
        lift_git-done (g.insert name o m b) s s c inserted,
        refl,
        p,
        holds,
        more,
      )

  -- What the loop over the entries leaves in a builder.
  abbrev Filled : Files → Builder → Repo → Result Builder × Repo → Type 0
  Filled files b r x =
      (c : Builder) × (s : Repo) × (fs : List (OwnedTreeEntry Oid)) × (x ≡ (ok c, s))
      × Perm (laws.listing c) (fs ++ laws.listing b)
      × HoldFiles g s fs files
      × Extends g r s

  tree_of-Holds :
      (files : Files) (fill : Builder → Exec Repo Builder) (r : Repo)
      → ((b : Builder) → laws.listing b ≡ [] → Filled files b r (fill b r))
      → (o : Oid) × (t : Repo) × (tree_of g fill r ≡ (ok o, t))
        × HoldsFile g t o (into FileMode.tree) (dir files)
        × Extends g r t
  unfolding HoldsFile tree_of
  tree_of-Holds files fill r filled =
      let (b, started, empty) = laws.builder_starts r in
      let (c, s, fs, done_with, p, held, more) = filled b empty in
      let (o, t, es, wrote, has, q, more') = laws.write_stores c s in
      (
        o,
        t,
        rw (
          lift_git-done g.treebuilder r r b started,
          done_with,
          lift_git-done (g.write_tree c) s t o wrote,
        ),
        (
          refl,
          es,
          fs,
          has,
          Perm.trans q (rw (empty, append-nil) at p),
          HoldFiles-Extends g s t more' files fs held,
        ),
        λ i x has. more' i x (more i x has),
      )

  mutual
    unfolding HoldsFile IsStorable insert_file insert_files

    insert_file-Inserted :
        (f : File) (name : Bytes) (b : Builder) (r : Repo)
        → laws.valid_name name ≡ true
        → IsFresh name (laws.listing b)
        → IsStorable laws.valid_name f
        → Inserted name f b r (insert_file g name f b r)
    insert_file-Inserted (link target) name b r valid fresh h =
        let (o, s, wrote, has, more) = laws.blob_stores target r in
        rw (lift_git-done (g.write_blob target) r s o wrote) (
          stored-Inserted name (link target) b r s o (into FileMode.link) valid fresh (refl, has)
            more)
    insert_file-Inserted (file mode contents) name b r valid fresh h =
        let (o, s, wrote, has, more) = laws.blob_stores contents r in
        rw (lift_git-done (g.write_blob contents) r s o wrote) (
          stored-Inserted name (file mode contents) b r s o (file_mode mode) valid fresh
            (file_mode-eq mode, has) more)
    insert_file-Inserted (dir files) name b r valid fresh h =
        let (o, s, wrote, holds, more) =
          tree_of-Holds files (λ subtree. insert_files g files subtree) r
            (λ c empty.
              insert_files-Filled files c r h (AllFresh-nil files (laws.listing c) empty)) in
        rw (wrote)
          (stored-Inserted name (dir files) b r s o (into FileMode.tree) valid fresh holds more)
    insert_file-Inserted other name b r valid fresh h = elim h [ ]

    insert_files-Filled :
        (files : Files) (b : Builder) (r : Repo)
        → AreStorable laws.valid_name files
        → AllFresh files (laws.listing b)
        → Filled files b r (insert_files g files b r)
    insert_files-Filled no_files b r h fresh = (b, r, [], refl, Perm.rfl, tt, λ o x has. has)
    insert_files-Filled (named name f files) b r (utf8, valid, apart, storable, rest)
          (this, fresh) =
        let (c, s, e, inserted, is_name, p, holds, more) =
          insert_file-Inserted f name b r valid this storable in
        let (d, t, fs, filled, q, held, more') = insert_files-Filled files c s rest (
          AllFresh-perm files e (laws.listing b) (laws.listing c)
            (subst (λ n. NotAmong n files) (sym is_name) apart) fresh p) in
        (
          d,
          t,
          e ∷ fs,
          rw (utf8, inserted) filled,
          Perm.trans q (Perm.trans (Perm.append_left fs p) (perm_middle fs (laws.listing b))),
          (is_name, HoldsFile-Extends g s t more' f e.id e.filemode holds, held),
          λ o x has. more' o x (more o x has),
        )

  -- A directory of links, files and directories, whose names are UTF-8, accepted by git and, in each
  -- directory, distinct, is stored: a tree is returned whose entries are those of the directory, each under
  -- its name with the mode of what it is and, in the repository, its contents; what was stored before stays.
  pub create_tree_from_dir-HoldsFile :
      (files : Files) (r : Repo)
      → AreStorable laws.valid_name files
      → (o : Oid) × (s : Repo) × (create_tree_from_dir g files r ≡ (ok o, s))
        × HoldsFile g s o (into FileMode.tree) (dir files)
        × Extends g r s
  unfolding create_tree_from_dir
  create_tree_from_dir-HoldsFile files r h =
      tree_of-Holds files (λ builder. insert_files g files builder) r
        (λ c empty. insert_files-Filled files c r h (AllFresh-nil files (laws.listing c) empty))
