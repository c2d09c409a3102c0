-- ===== src/GitStore/Directory/Held.antt =====
-- What it is that a repository holds the files of a directory.
use mathlib.Core.List.{Perm, mem-cons, not-mem-nil}
use mathlib.Core.List.Perm
use mathlib.Core.Logic.Or
use gachix.Prelude.{ℕ, ◌≡◌, ◌≢◌, sym, ap, ◌∙◌, Bool, true, List, [], ◌∷◌}
use gachix.Bytes.{Bytes}
use gachix.Bytes.Utf8.{is_utf8}
use gachix.Git.{Git, OwnedTreeEntry, FileMode, into, tree, blob}
use gachix.Git.Laws.{Has, Extends, IsFresh}
use gachix.Nar.Stored.{regular_mode}
use gachix.GitStore.Directory.{File, Files, link, file, dir, other, no_files, named, is_executable}

abbrev pub NotAmong : Bytes → Files → Type 0
NotAmong name no_files = Unit
NotAmong name (named n f files) = (n ≢ name) × NotAmong name files

-- Links, files and directories only, under distinct names that are UTF-8 and that git accepts.
module _ (valid_name : Bytes → Bool) where
  unfoldable mutual
    pub IsStorable : File → Type 0
    IsStorable (link target) = Unit
    IsStorable (file mode contents) = Unit
    IsStorable (dir files) = AreStorable files
    IsStorable other = ⊥

    pub AreStorable : Files → Type 0
    AreStorable no_files = Unit
    AreStorable (named name f files) =
        (is_utf8 name ≡ true)
        × (valid_name name ≡ true)
        × NotAmong name files
        × IsStorable f
        × AreStorable files

module _ {Repo Oid Builder : Type 0} (g : Git Repo Oid Builder) (r : Repo) where
  -- A link, a file or a directory is stored under the oid, with the file mode; the entries of a directory
  -- are those of its tree, in any order.
  unfoldable mutual
    pub HoldsFile : Oid → ℕ → File → Type 0
    HoldsFile o m (link target) = (m ≡ into FileMode.link) × Has g r o (blob target)
    HoldsFile o m (file mode contents) =
        (m ≡ regular_mode (is_executable mode)) × Has g r o (blob contents)
    HoldsFile o m (dir files) =
        (m ≡ into FileMode.tree)
        × (es fs : List (OwnedTreeEntry Oid)) × Has g r o (tree es)
        × Perm es fs
        × HoldFiles fs files
    HoldsFile o m other = ⊥

    pub HoldFiles : List (OwnedTreeEntry Oid) → Files → Type 0
    HoldFiles [] no_files = Unit
    HoldFiles (e ∷ fs) (named name f files) =
        (e.name ≡ name) × HoldsFile e.id e.filemode f × HoldFiles fs files
    HoldFiles _ _ = ⊥

module _ {Repo Oid Builder : Type 0} (g : Git Repo Oid Builder) (r s : Repo)
    (more : Extends g r s) where
  mutual
    unfolding HoldsFile

    pub HoldsFile-Extends : (f : File) (o : Oid) (m : ℕ) → HoldsFile g r o m f → HoldsFile g s o m f
    HoldsFile-Extends (link target) o m h = (h.0, more o _ h.1)
    HoldsFile-Extends (file mode contents) o m h = (h.0, more o _ h.1)
    HoldsFile-Extends (dir files) o m (e, es, fs, has, p, h) =
        (e, es, fs, more o _ has, p, HoldFiles-Extends files fs h)
    HoldsFile-Extends other o m h = h

    pub HoldFiles-Extends :
        (files : Files) (fs : List (OwnedTreeEntry Oid))
        → HoldFiles g r fs files
        → HoldFiles g s fs files
    HoldFiles-Extends no_files [] h = tt
    HoldFiles-Extends no_files (e ∷ fs) h = elim h [ ]
    HoldFiles-Extends (named n f files) [] h = elim h [ ]
    HoldFiles-Extends (named n f files) (e ∷ fs) h =
        (h.0, HoldsFile-Extends f e.id e.filemode h.1, HoldFiles-Extends files fs h.2)

abbrev pub AllFresh : {Oid : Type 0} → Files → List (OwnedTreeEntry Oid) → Type 0
AllFresh no_files es = Unit
AllFresh (named n f files) es = IsFresh n es × AllFresh files es

pub AllFresh-perm :
    {Oid : Type 0} (files : Files) (e : OwnedTreeEntry Oid) (es fs : List (OwnedTreeEntry Oid))
    → NotAmong e.name files
    → AllFresh files es
    → Perm fs (e ∷ es)
    → AllFresh files fs
AllFresh-perm no_files e es fs apart fresh p = tt
AllFresh-perm (named n f files) e es fs (ne, apart) (this, fresh) p = (
  λ d m.
      Or.elim (hlevel) (mem-cons.0 ((Perm.mem_iff p).0 m)) (λ q h. ne (sym h ∙ ap (λ d. d.name) q))
        (this d),
  AllFresh-perm files e es fs apart fresh p,
)

pub AllFresh-nil :
    {Oid : Type 0} (files : Files) (es : List (OwnedTreeEntry Oid)) → es ≡ [] → AllFresh files es
AllFresh-nil no_files es h = tt
AllFresh-nil (named n f files) es h =
    ((λ e m. absurd (not-mem-nil (rw h at m))), AllFresh-nil files es h)
