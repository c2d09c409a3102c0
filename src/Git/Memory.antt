-- ===== src/Git/Memory.antt =====
-- An object database in memory that keeps the laws: the objects in the order of their creation, each
-- under its position. It shows that `GitLaws` can hold, and runs in tests.
use mathlib.Core.List.Perm
use native.Mathlib.Nat.{ℕ_set}
use gachix.Prelude.{
  ℕ, zero, suc, ◌≡◌, ◌≢◌, refl, Bool, true, false, Option, none, some, List, [], ◌∷◌, ◌++◌, arith,
  length, get_elem?, not_found, if◌then◌else◌,
}
use gachix.Git.{
  Git, Object, OwnedTreeEntry, ObjectType, kind_of, tree, blob, GitResult, done, failed,
}
use gachix.Git.Laws.{GitLaws, Has, Extends}

abbrev pub Store : Type 0
Store = List (Object ℕ)

abbrev pub Entries : Type 0
Entries = List (OwnedTreeEntry ℕ)

abbrev same_kind : ObjectType → ObjectType → Bool
same_kind ObjectType.tree ObjectType.tree = true
same_kind ObjectType.blob ObjectType.blob = true
same_kind ObjectType.commit ObjectType.commit = true
same_kind ObjectType.tag ObjectType.tag = true
same_kind _ _ = false

-- The object found, if its type is the one asked for.
abbrev of_kind : Option ObjectType → Option (Object ℕ) → GitResult (Object ℕ)
of_kind k none = failed not_found
of_kind none (some x) = done x
of_kind (some k) (some x) = if same_kind k (kind_of x) then done x else failed not_found

abbrev pub memory : Git Store ℕ Entries
memory = record {
  write_blob = λ c r. (done (length r), r ++ blob c ∷ []);
  treebuilder = λ r. (done [], r);
  insert = λ name o m b r. (done (record { id = o; filemode = m; name = name } ∷ b), r);
  write_tree = λ b r. (done (length r), r ++ tree b ∷ []);
  find_object = λ o k r. of_kind k (get_elem? r o);
}

get_elem?-append_new :
    {A : Type 0} (r : List A) (x : A) → get_elem? (r ++ x ∷ []) (length r) ≡ some x
get_elem?-append_new [] x = refl
get_elem?-append_new (y ∷ r) x = get_elem?-append_new r x

get_elem?-append_old :
    {A : Type 0} (r : List A) (x y : A) (o : ℕ)
    → get_elem? r o ≡ some x
    → get_elem? (r ++ y ∷ []) o ≡ some x
get_elem?-append_old [] x y o h = cc
get_elem?-append_old (z ∷ r) x y zero h = h
get_elem?-append_old (z ∷ r) x y (suc o) h = get_elem?-append_old r x y o h

of_kind-found : (r : Store) (o : ℕ) (x : Object ℕ) → Has memory r o x → get_elem? r o ≡ some x
of_kind-found r o x h = ground arith

pub memory-Extends : (r : Store) (y : Object ℕ) → Extends memory r (r ++ y ∷ [])
memory-Extends r y o x h = rw (get_elem?-append_old r x y o (of_kind-found r o x h))

pub memory-Has : (r : Store) (x : Object ℕ) → Has memory (r ++ x ∷ []) (length r) x
memory-Has r x = rw (get_elem?-append_new r x)

same_kind_refl : (k : ObjectType) → same_kind k k ≡ true
same_kind_refl ObjectType.tree = refl
same_kind_refl _ = refl

same_kind_ne : (k j : ObjectType) → k ≢ j → same_kind k j ≡ false
same_kind_ne k j h = ground arith

pub memory_typed :
    (o : ℕ) (x : Object ℕ) (r : Store)
    → Has memory r o x
    → of_kind (some (kind_of x)) (get_elem? r o) ≡ done x
memory_typed o x r h = rw (of_kind-found r o x h, same_kind_refl)

pub memory_mistyped :
    (o : ℕ) (x : Object ℕ) (k : ObjectType) (r : Store)
    → Has memory r o x
    → k ≢ kind_of x
    → of_kind (some k) (get_elem? r o) ≡ failed not_found
memory_mistyped o x k r h ne = rw (of_kind-found r o x h, same_kind_ne k (kind_of x) ne)

abbrev pub memory_laws : GitLaws memory
memory_laws = record {
  is_set = ℕ_set;
  valid_name = λ name. true;
  listing = λ b. b;
  blob_stores =
      λ c r. (length r, r ++ blob c ∷ [], refl, memory-Has r (blob c), memory-Extends r (blob c));
  builder_starts = λ r. ([], refl, refl);
  insert_adds = λ name o m x b r v h f fresh.
      (record { id = o; filemode = m; name = name } ∷ b, refl, Perm.rfl);
  write_stores = λ b r. (
    length r,
    r ++ tree b ∷ [],
    b,
    refl,
    memory-Has r (tree b),
    Perm.rfl,
    memory-Extends r (tree b),
  );
  find_typed = memory_typed;
  find_mistyped = memory_mistyped;
}
