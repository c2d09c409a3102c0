-- ===== src/GitStore/Database.antt =====
-- A repository in memory with its references in a list beside the objects. It shows that `StoreLaws` can
-- hold, and runs in tests.
use gachix.Prelude.{
  ℕ, ◌≡◌, ◌≢◌, refl, sym, subst, ap, inl, inr, true, false, Bool-cases, Option, some, List, [], ◌∷◌,
  ◌++◌, length, GitCode, exists, not_found, if◌then◌else◌,
}
use gachix.Bytes.{Bytes, bytes_eq, bytes_eq→eq, bytes_eq_refl}
use gachix.Git.{Git, Object, GitResult, done, failed, blob, tree, commit}
use gachix.Git.Laws.{GitLaws, Has, Extends}
use gachix.Git.Memory.{Store, Entries, memory, memory_laws, memory-Extends, memory-Has}
use gachix.Git.Beside.{beside, beside_laws}
use gachix.GitStore.Commit.{Commits}
use gachix.GitStore.Laws.{same_refs, StoreLaws, LiveLaws}
use gachix.GitStore.References.{Refs}

abbrev pub Names : Type 0
Names = List (Bytes × ℕ)

abbrev pub Database : Type 0
Database = Store × Names

abbrev pub database : Git Database ℕ Entries
database = beside memory

abbrev pub database_laws : GitLaws database
database_laws = beside_laws memory memory_laws

abbrev pub find_name : Bytes → Names → GitResult (Option ℕ)
find_name name [] = failed not_found
find_name name ((other, o) ∷ names) =
    if bytes_eq name other then done (some o) else find_name name names

abbrev set_new : Bytes → ℕ → GitResult (Option ℕ) → Database → GitResult (Unit {0}) × Database
set_new name o (done p) (r, names) = (failed exists, (r, names))
set_new name o (failed c) (r, names) = (done tt, (r, (name, o) ∷ names))

abbrev pub database_refs : Refs Database ℕ
database_refs = record {
  reference = λ name o d. set_new name o (find_name name d.1) d;
  find_reference = λ name d. find_name name d.1;
}

abbrev pub database_commits : Commits Database ℕ
database_commits = record {
  create = λ t ps message d. (done (length d.0), (d.0 ++ commit t ps message ∷ [], d.1));
}

failed-ne-done :
    {A : Type 0} (c : GitCode) (a : A) {x : GitResult A} → x ≡ failed c → x ≡ done a → ⊥
failed-ne-done c a h e = cc

bytes_eq_ne : (a b : Bytes) → a ≢ b → bytes_eq a b ≡ false
bytes_eq_ne a b h = elim (Bool-cases (bytes_eq a b)) [
  | inl e ↦ absurd (h (bytes_eq→eq a b e))
  | inr e ↦ e
]

find_name_new :
    (name : Bytes) (o : ℕ) (r s : Store) (names names' : Names) (x : GitResult (Option ℕ))
    → set_new name o x (r, names) ≡ (done tt, (s, names'))
    → (find_name name names' ≡ done (some o)) × Extends database (r, names) (s, names')
find_name_new name o r s names names' (done p) h = cc
find_name_new name o r s names names' (failed c) h =
    let is_names : (name, o) ∷ names ≡ names' = ap (λ q. q.1.1) h in
    let is_store : r ≡ s = ap (λ q. q.1.0) h in
    (
      subst (λ n. find_name name n ≡ done (some o)) is_names (rw (bytes_eq_refl name)),
      subst (λ s. Extends memory r s) is_store (λ i y has. has),
    )

find_name_grows :
    (name other : Bytes) (o p : ℕ) (x : GitResult (Option ℕ)) (d : Database)
    → find_name name d.1 ≡ x
    → find_name other d.1 ≡ done (some p)
    → find_name other (set_new name o x d).1.1 ≡ done (some p)
find_name_grows name other o p (done q) d e h = h
find_name_grows name other o p (failed c) d e h = elim (Bool-cases (bytes_eq other name)) [
  | inl same ↦ absurd (
      failed-ne-done c (some p)
        (subst (λ k. find_name k d.1 ≡ failed c) (sym (bytes_eq→eq other name same)) e) h)
  | inr differ ↦ rw (differ, h)
]

set_new-Extends :
    (name : Bytes) (o : ℕ) (x : GitResult (Option ℕ)) (d : Database)
    → Extends database d (set_new name o x d).1
set_new-Extends name o (done q) d i y has = has
set_new-Extends name o (failed c) d i y has = has

set_new_fails :
    (name : Bytes) (o : ℕ) (x : GitResult (Option ℕ)) (c : GitCode) (d e : Database)
    → set_new name o x d ≡ (failed c, e)
    → find_name name e.1 ≡ find_name name d.1
set_new_fails name o (done q) c d e h = ap (λ q. find_name name q.1.1) (sym h)
set_new_fails name o (failed b) c d e h = cc

create_stored :
    (t : ℕ) (ps : List ℕ) (message : Bytes) (o : ℕ) (d e : Database)
    → database_commits.create t ps message d ≡ (done o, e)
    → Has database e o (commit t ps message)
create_stored t ps message o d e h =
    let is_o : length d.0 ≡ o = cc in
    let is_e : (d.0 ++ commit t ps message ∷ [], d.1) ≡ e = ap (λ q. q.1) h in
    subst (λ e. Has database e o (commit t ps message)) is_e
      (subst (λ o. Has database (d.0 ++ commit t ps message ∷ [], d.1) o (commit t ps message)) is_o
        (memory-Has d.0 (commit t ps message)))

find_name_others :
    (name other : Bytes) (o : ℕ) (x : GitResult (Option ℕ)) (d : Database)
    → other ≢ name
    → find_name other (set_new name o x d).1.1 ≡ find_name other d.1
find_name_others name other o (done p) d h = refl
find_name_others name other o (failed c) d h = rw (bytes_eq_ne other name h)

same_after :
    (r : Store) (names : Names) (x : Object ℕ)
    → (same_refs database database_refs).rel (r, names) (r ++ x ∷ [], names)
same_after r names x = (memory-Extends r x, λ name. refl)

pub database_store : StoreLaws database database_refs database_laws database_commits
database_store = record {
  ref_laws = record {
    reference_adds = λ name o d d' h. find_name_new name o d.0 d'.0 d.1 d'.1 (find_name name d.1) h;
  };
  ops_same = record {
    write_blob_moves = λ c (r, names). same_after r names (blob c);
    treebuilder_moves = λ d. (same_refs database database_refs).rel_refl d;
    insert_moves = λ name o m b d. (same_refs database database_refs).rel_refl d;
    write_tree_moves = λ b (r, names). same_after r names (tree b);
  };
  reference_grows = λ name o d. (
    set_new-Extends name o (find_name name d.1) d,
    λ other p h. find_name_grows name other o p (find_name name d.1) d refl h,
  );
  reference_others = λ name other o d ne. find_name_others name other o (find_name name d.1) d ne;
  reference_fails = λ name o c d d' h. set_new_fails name o (find_name name d.1) c d d' h;
  reference_refuses = λ name o p d h. rw h;
  create_stores = λ t ps message o d d' h. create_stored t ps message o d d' h;
  create_same = λ t ps message (r, names). same_after r names (commit t ps message);
}

pub set_new_free :
    (name : Bytes) (o : ℕ) (d : Database)
    → find_name name d.1 ≡ failed not_found
    → (e : Database) × (set_new name o (find_name name d.1) d ≡ (done tt, e))
set_new_free name o d h = ((d.0, (name, o) ∷ d.1), rw h)

-- Here any name will do.
abbrev pub database_live : LiveLaws database database_refs database_commits
database_live = record {
  valid_ref = λ name. true;
  reference_succeeds = λ name o x d valid free has. set_new_free name o d free;
  create_succeeds = λ t es ps message d has all. (length d.0, _, refl);
}
