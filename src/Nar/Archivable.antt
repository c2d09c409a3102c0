-- ===== src/Nar/Archivable.antt =====
-- The file system objects whose archives the round trip is about: strings short enough for a vector,
-- names that are UTF-8, that git accepts, and that ascend in each directory, as the format wants.
use gachix.Prelude.{ℕ, ◌^◌, ◌<◌, ◌≡◌, Bool, true, false, List, [], ◌∷◌, length}
use mathlib.Core.List.{Mem, mem-cons, not-mem-nil, Pairwise}
use mathlib.Core.Logic.Or
use gachix.Bytes.{Bytes}
use gachix.Bytes.Utf8.{is_utf8}
use gachix.Bytes.Order.{bytes_leb}
use gachix.Git.{Git, OwnedTreeEntry}
use gachix.Git.Laws.{Extends}
use gachix.Nar.Format.{Node, Entries, regular, symlink, directory, no_entries, entry}
use gachix.Nar.Sort.{IsStrict}
use gachix.Nar.Stored.{Holds, HoldEntries, HasUtf8Names, HaveUtf8Names}

-- Every name in the directory comes after `name`.
abbrev pub Precedes : Bytes → Entries → Type 0
Precedes name no_entries = Unit
Precedes name (entry other n es) = (bytes_leb other name ≡ false) × Precedes name es

module _ (valid_name : Bytes → Bool) where
  unfoldable mutual
    pub IsArchivable : Node → Type 0
    IsArchivable (regular x c) = length c < 2 ^ 63
    IsArchivable (symlink t) = length t < 2 ^ 63
    IsArchivable (directory es) = AreArchivable es

    pub AreArchivable : Entries → Type 0
    AreArchivable no_entries = Unit
    AreArchivable (entry name n es) =
        (is_utf8 name ≡ true)
        × (valid_name name ≡ true)
        × (length name < 2 ^ 63)
        × Precedes name es
        × IsArchivable n
        × AreArchivable es

  mutual
    unfolding IsArchivable HasUtf8Names

    pub IsArchivable-utf8 : (n : Node) → IsArchivable n → HasUtf8Names n
    IsArchivable-utf8 (regular x c) h = tt
    IsArchivable-utf8 (symlink t) h = tt
    IsArchivable-utf8 (directory es) h = AreArchivable-utf8 es h

    AreArchivable-utf8 : (es : Entries) → AreArchivable es → HaveUtf8Names es
    AreArchivable-utf8 no_entries h = tt
    AreArchivable-utf8 (entry name n es) h =
        (h.0, IsArchivable-utf8 n h.4, AreArchivable-utf8 es h.5)

module _ {Repo Oid Builder : Type 0} (g : Git Repo Oid Builder) where
  mutual
    unfolding Holds

    -- What is held stays held while objects are only added.
    pub Holds-Extends :
        (n : Node) (o : Oid) (m : ℕ) (r s : Repo)
        → Extends g r s
        → Holds g r o m n
        → Holds g s o m n
    Holds-Extends (regular x c) o m r s e h = (h.0, e o _ h.1)
    Holds-Extends (symlink t) o m r s e h = (h.0, e o _ h.1)
    Holds-Extends (directory es) o m r s e h =
        (h.0, h.1, e o _ h.2, HoldEntries-Extends es _ r s e h.3)

    pub HoldEntries-Extends :
        (es : Entries) (fs : List (OwnedTreeEntry Oid)) (r s : Repo)
        → Extends g r s
        → HoldEntries g r fs es
        → HoldEntries g s fs es
    HoldEntries-Extends no_entries [] r s e h = tt
    HoldEntries-Extends no_entries (f ∷ fs) r s e h = elim h [ ]
    HoldEntries-Extends (entry name n es) [] r s e h = elim h [ ]
    HoldEntries-Extends (entry name n es) (f ∷ fs) r s e h =
        (h.0, Holds-Extends n f.id f.filemode r s e h.1, HoldEntries-Extends es fs r s e h.2)

  Precedes-Mem :
      (r : Repo) (name : Bytes) (es : Entries) (fs : List (OwnedTreeEntry Oid))
      → HoldEntries g r fs es
      → Precedes name es
      → (f : OwnedTreeEntry Oid) → Mem f fs
      → bytes_leb f.name name ≡ false
  unfolding Holds
  Precedes-Mem r name no_entries [] h p f m = absurd (not-mem-nil m)
  Precedes-Mem r name no_entries (e ∷ fs) h p f m = elim h [ ]
  Precedes-Mem r name (entry other n es) [] h p f m = elim h [ ]
  Precedes-Mem r name (entry other n es) (e ∷ fs) h p f m =
      Or.elim (hlevel) (mem-cons.0 m) (λ q. rw (q, h.0) p.0) (Precedes-Mem r name es fs h.2 p.1 f)

  pub HoldEntries-IsStrict :
      (valid_name : Bytes → Bool) (r : Repo) (es : Entries) (fs : List (OwnedTreeEntry Oid))
      → HoldEntries g r fs es
      → AreArchivable valid_name es
      → IsStrict fs
  unfolding Holds IsArchivable
  HoldEntries-IsStrict v r no_entries [] h a = Pairwise.nil
  HoldEntries-IsStrict v r no_entries (f ∷ fs) h a = elim h [ ]
  HoldEntries-IsStrict v r (entry name n es) [] h a = elim h [ ]
  HoldEntries-IsStrict v r (entry name n es) (f ∷ fs) h a =
      Pairwise.cons (λ e m. rw h.0 (Precedes-Mem r name es fs h.2 a.3 e m))
        (HoldEntries-IsStrict v r es fs h.2 a.5)
