-- ===== src/Git/Laws.antt =====
-- What the program relies on of libgit2's object database, over a repository that can be written:
-- the documented behaviour of `git_blob_create_from_buffer`, `git_treebuilder_insert`,
-- `git_treebuilder_write` and `git_object_lookup`.
use mathlib.Core.List.{Mem, Perm}
use gachix.Prelude.{
  ℕ, arith, Result, ◌≡◌, ◌≢◌, ◌⊎◌, Bool, true, List, [], ◌∷◌, some, none, not_found, ok,
}
use gachix.Bytes.{Bytes}
use gachix.Git.{
  Git, Object, OwnedTreeEntry, FileMode, into, kind_of, ObjectType, tree, blob, GitExec, GitResult,
  lift_git, lift_result, done, failed,
}

-- The file modes under which libgit2 accepts an object as a tree entry.
abbrev pub FitsMode : {Oid : Type 0} → ℕ → Object Oid → Type 0
FitsMode m (tree es) = m ≡ into FileMode.tree
FitsMode m (blob c) =
    (m ≡ into FileMode.blob) ⊎ (m ≡ into FileMode.blob_executable) ⊎ (m ≡ into FileMode.link)
FitsMode m _ = ⊥

-- No entry of that name is there yet.
abbrev pub IsFresh : {Oid : Type 0} → Bytes → List (OwnedTreeEntry Oid) → Type 0
IsFresh {Oid} name es = (e : OwnedTreeEntry Oid) → Mem e es → e.name ≢ name

module _ {Repo Oid Builder : Type 0} (g : Git Repo Oid Builder) where
  -- The object database holds `x` under `o`.
  abbrev pub Has : Repo → Oid → Object Oid → Type 0
  Has r o x = g.find_object o none r ≡ done x

  -- Objects are never changed and never dropped.
  abbrev pub Extends : Repo → Repo → Type 0
  Extends r s = (o : Oid) (x : Object Oid) → Has r o x → Has s o x

  pub record GitLaws : Type 0 where
    pub is_set : IsSet Oid
    -- which names a tree entry may have
    pub valid_name : Bytes → Bool
    -- the entries that a builder holds
    pub listing : Builder → List (OwnedTreeEntry Oid)
    pub blob_stores :
        (c : Bytes) (r : Repo)
        → (o : Oid) × (s : Repo) × (g.write_blob c r ≡ (done o, s)) × Has s o (blob c) × Extends r s
    pub builder_starts :
        (r : Repo) → (b : Builder) × (g.treebuilder r ≡ (done b, r)) × (listing b ≡ [])
    pub insert_adds :
        (name : Bytes) (o : Oid) (m : ℕ) (x : Object Oid) (b : Builder) (r : Repo)
        → valid_name name ≡ true
        → Has r o x
        → FitsMode m x
        → IsFresh name (listing b)
        → (c : Builder) × (g.insert name o m b r ≡ (done c, r))
          × Perm (listing c) (record { id = o; filemode = m; name = name } ∷ listing b)
    pub write_stores :
        (b : Builder) (r : Repo)
        → (o : Oid) × (s : Repo) × (es : List (OwnedTreeEntry Oid)) × (g.write_tree b r
            ≡ (done o, s))
          × Has s o (tree es)
          × Perm es (listing b)
          × Extends r s
    pub find_typed :
        (o : Oid) (x : Object Oid) (r : Repo)
        → Has r o x
        → g.find_object o (some (kind_of x)) r ≡ done x
    pub find_mistyped :
        (o : Oid) (x : Object Oid) (k : ObjectType) (r : Repo)
        → Has r o x
        → k ≢ kind_of x
        → g.find_object o (some k) r ≡ failed not_found

-- An operation that succeeds, among the program's.
pub lift_git-done :
    {Repo A : Type 0} (m : GitExec Repo A) (r s : Repo) (a : A)
    → m r ≡ (done a, s)
    → lift_git m r ≡ (ok a, s)
unfolding lift_git
lift_git-done m r s a h = rw (h, lift_git)

pub lift_git-ok :
    {Repo A : Type 0} (m : GitExec Repo A) (r s : Repo) (a : A)
    → lift_git m r ≡ (ok a, s)
    → m r ≡ (done a, s)
unfolding lift_git lift_result
lift_git-ok {Repo} {A} m r s a h = go (m r) h
  where
    go :
        (x : GitResult A × Repo)
        → ◌≡◌ {A = Result A × Repo} (lift_result x.0, x.1) (ok a, s)
        → x ≡ (done a, s)
    go (done b, t) e = ground arith
    go (failed c, t) e = cc
