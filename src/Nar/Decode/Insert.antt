-- ===== src/Nar/Decode/Insert.antt =====
-- The end of a directory: the entries read are inserted into a tree builder, and the tree is written.
use mathlib.Core.List.{
  Mem, Perm, Pairwise, mem-cons, mem-cons_self, mem-cons_of_mem, not-mem-nil, perm_middle,
}
use mathlib.Core.List.Perm
use mathlib.Core.Logic.Or
use gachix.Prelude.{
  ℕ, ◌≡◌, refl, inl, inr, true, false, List, [], ◌∷◌, ◌++◌, map, ok, append-nil, All,
}
use gachix.Bytes.{Bytes}
use gachix.Bytes.Order.{bytes_leb_refl}
use gachix.Git.{Git, Object, OwnedTreeEntry, FileMode, into, tree, blob}
use gachix.Git.Laws.{GitLaws, Has, Extends, FitsMode, IsFresh, lift_git-done}
use gachix.Nar.Format.{Node, Entries, regular, symlink, directory, no_entries, entry}
use gachix.Nar.Sort.{NameLt, IsStrict, sort_by_name-eq}
use gachix.Nar.Stored.{Holds, HoldEntries}
use gachix.Nar.Archivable.{IsArchivable, AreArchivable, HoldEntries-Extends, HoldEntries-IsStrict}
use gachix.Nar.Decode.{insert_all, write_directory}

abbrev pub as_entry : {Oid : Type 0} → Oid × ℕ × Bytes → OwnedTreeEntry Oid
as_entry (oid, filemode, name) = record { id = oid; filemode = filemode; name = name }

module _ {Repo Oid Builder : Type 0} {g : Git Repo Oid Builder} (laws : GitLaws g) where
  -- An entry that a builder takes.
  abbrev CanInsert : Repo → OwnedTreeEntry Oid → Type 0
  CanInsert r e =
      (laws.valid_name e.name ≡ true) × (x : Object Oid) × Has g r e.id x × FitsMode e.filemode x

  abbrev AllFresh : List (Oid × ℕ × Bytes) → List (OwnedTreeEntry Oid) → Type 0
  AllFresh ts es = (t : OwnedTreeEntry Oid) → Mem t (map as_entry ts) → IsFresh t.name es

  AllFresh-perm :
      (e : OwnedTreeEntry Oid) (ts : List (Oid × ℕ × Bytes)) (es fs : List (OwnedTreeEntry Oid))
      → ((t : OwnedTreeEntry Oid) → Mem t (map as_entry ts) → NameLt e t)
      → AllFresh ts es
      → Perm fs (e ∷ es)
      → AllFresh ts fs
  AllFresh-perm e ts es fs above fresh p t m f mf =
      Or.elim (hlevel) (mem-cons.0 ((Perm.mem_iff p).0 mf))
        (λ q n. cc (above t m, bytes_leb_refl t.name)) (fresh t m f)

  insert_all-perm :
      (r : Repo) (ts : List (Oid × ℕ × Bytes)) (b : Builder)
      → All (CanInsert r) (map as_entry ts)
      → IsStrict (map as_entry ts)
      → AllFresh ts (laws.listing b)
      → (c : Builder) × (insert_all g ts b r ≡ (ok c, r))
        × Perm (laws.listing c) (map as_entry ts ++ laws.listing b)
  unfolding insert_all
  insert_all-perm r [] b can strict fresh = (b, refl, Perm.rfl)
  insert_all-perm r ((o, m, name) ∷ ts) b can (Pairwise.cons above strict) fresh =
      let e = as_entry (o, m, name) in
      let (valid, x, has, fits) = can.0 in
      let (c, inserted, p) =
        laws.insert_adds name o m x b r valid has fits (fresh e mem-cons_self) in
      let (d, rest, q) = insert_all-perm r ts c can.1 strict (
        AllFresh-perm e ts (laws.listing b) (laws.listing c) above
          (λ t mt. fresh t (mem-cons_of_mem e mt)) p) in
      (
        d,
        rw (lift_git-done (g.insert name o m b) r r c inserted) rest,
        Perm.trans q (
            Perm.trans (Perm.append_left (map as_entry ts) p)
              (perm_middle (map as_entry ts) (laws.listing b))),
      )

  Holds-CanInsert :
      (n : Node) (r : Repo) (o : Oid) (m : ℕ)
      → Holds g r o m n
      → (x : Object Oid) × Has g r o x × FitsMode m x
  unfolding Holds
  Holds-CanInsert (regular true c) r o m h = (blob c, h.1, inr (inl h.0))
  Holds-CanInsert (regular false c) r o m h = (blob c, h.1, inl h.0)
  Holds-CanInsert (symlink t) r o m h = (blob t, h.1, inr (inr h.0))
  Holds-CanInsert (directory es) r o m h = (tree h.1, h.2, h.0)

  HoldEntries-CanInsert :
      (es : Entries) (r : Repo) (fs : List (OwnedTreeEntry Oid))
      → HoldEntries g r fs es
      → AreArchivable laws.valid_name es
      → All (CanInsert r) fs
  unfolding Holds IsArchivable
  HoldEntries-CanInsert no_entries r [] h a = tt
  HoldEntries-CanInsert no_entries r (f ∷ fs) h a = elim h [ ]
  HoldEntries-CanInsert (entry name n es) r [] h a = elim h [ ]
  HoldEntries-CanInsert (entry name n es) r (f ∷ fs) h a =
      let (x, has, fits) = Holds-CanInsert n r f.id f.filemode h.1 in
      ((rw h.0 a.1, x, has, fits), HoldEntries-CanInsert es r fs h.2 a.5)

  -- Writing a directory of entries that the repository holds gives a tree that stands for it.
  pub write_directory-Holds :
      (es : Entries) (r : Repo) (ts : List (Oid × ℕ × Bytes))
      → HoldEntries g r (map as_entry ts) es
      → AreArchivable laws.valid_name es
      → (o : Oid) × (s : Repo) × (write_directory g ts r ≡ (ok (o, into FileMode.tree), s))
        × Holds g s o (into FileMode.tree) (directory es)
        × Extends g r s
  unfolding Holds write_directory
  write_directory-Holds es r ts h a =
      let strict = HoldEntries-IsStrict g laws.valid_name r es (map as_entry ts) h a in
      let (b, started, empty) = laws.builder_starts r in
      let (c, inserted, p) =
        insert_all-perm r ts b (HoldEntries-CanInsert es r (map as_entry ts) h a) strict
          (λ t mt e me. absurd (not-mem-nil (rw empty at me))) in
      let (o, s, fs, wrote, has, q, more) = laws.write_stores c r in
      let sorted =
        sort_by_name-eq laws.is_set strict (Perm.trans q (rw (empty, append-nil) at p)) in
      (
        o,
        s,
        rw (
          lift_git-done g.treebuilder r r b started,
          inserted,
          lift_git-done (g.write_tree c) r s o wrote,
        ),
        (refl, fs, has, rw sorted (HoldEntries-Extends g es (map as_entry ts) r s more h)),
        more,
      )
