-- ===== src/GitStore/References/Memory.antt =====
-- A reference database beside the objects in memory that keeps the laws: a reference is an object too,
-- a commit with the reference's name as its message, and the last one counts.
use gachix.Prelude.{
  ℕ, ◌≡◌, arith, subst, Option, some, [], ◌∷◌, ◌++◌, if◌then◌else◌, exists, not_found,
}
use gachix.Bytes.{Bytes, bytes_eq, bytes_eq_refl}
use gachix.Git.{Object, GitResult, done, failed, commit}
use gachix.Git.Laws.{Extends}
use gachix.Git.Memory.{Store, memory, memory_laws, memory-Extends}
use gachix.GitStore.References.{Refs}
use gachix.GitStore.References.Added.{RefLaws}

-- What the later objects say of the reference, or else this one.
abbrev or_object : Bytes → Object ℕ → GitResult (Option ℕ) → GitResult (Option ℕ)
or_object name x (done o) = done o
or_object name (commit o parents message) (failed c) =
    if bytes_eq message name then done (some o) else failed c
or_object name x (failed c) = failed c

abbrev pub find_last : Bytes → Store → GitResult (Option ℕ)
find_last name [] = failed not_found
find_last name (x ∷ r) = or_object name x (find_last name r)

abbrev unless_found : GitResult (Option ℕ) → Store → Store → GitResult (Unit {0}) × Store
unless_found (done o) r s = (failed exists, r)
unless_found (failed c) r s = (done tt, s)

abbrev pub memory_refs : Refs Store ℕ
memory_refs = record {
  reference = λ name o r. unless_found (find_last name r) r (r ++ commit o [] name ∷ []);
  find_reference = find_last;
}

find_last-append :
    (name : Bytes) (o : ℕ) (r : Store) → find_last name (r ++ commit o [] name ∷ []) ≡ done (some o)
find_last-append name o [] = rw (bytes_eq_refl name)
find_last-append name o (x ∷ r) = rw (find_last-append name o r)

memory_adds :
    (name : Bytes) (o : ℕ) (r s : Store)
    → memory_refs.reference name o r ≡ (done tt, s)
    → r ++ commit o [] name ∷ [] ≡ s
memory_adds name o r s h = ground arith

pub memory_reference :
    (name : Bytes) (o : ℕ) (r s : Store)
    → memory_refs.reference name o r ≡ (done tt, s)
    → (find_last name s ≡ done (some o)) × Extends memory r s
memory_reference name o r s h =
    subst (λ s. (find_last name s ≡ done (some o)) × Extends memory r s) (memory_adds name o r s h)
      (find_last-append name o r, memory-Extends r (commit o [] name))

abbrev pub memory_ref_laws : RefLaws memory_laws memory_refs
memory_ref_laws = record { reference_adds = memory_reference }
