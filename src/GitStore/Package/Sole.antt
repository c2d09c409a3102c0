-- ===== src/GitStore/Package/Sole.antt =====
-- Trees with a sole entry: those of single files, and which directories look like them.
use gachix.Prelude.{
  ◌≡◌, ◌≢◌, refl, inl, inr, true, false, Bool-cases, none, some, List, [], ◌∷◌, arith,
}
use gachix.Bytes.{bytes, bytes_eq, bytes_eq_refl}
use gachix.Bytes.Utf8.{is_utf8}
use gachix.Git.{Git, OwnedTreeEntry}
use gachix.GitStore.{single_file_package_marker}
use gachix.GitStore.Repository.{sole_entry_id}
use gachix.Nar.Format.{Entries, no_entries, entry}
use gachix.Nar.Sort.{sort_by_name, insert_sorted}
use gachix.Nar.Stored.{HoldEntries}

-- No directory whose only entry has the name of the marker.
abbrev pub IsUnmarked : Entries → Type 0
IsUnmarked (entry name n no_entries) = bytes_eq name single_file_package_marker ≡ false
IsUnmarked _ = Unit

module _ {Oid : Type 0} where
  insert_sorted-ne-nil :
      (e : OwnedTreeEntry Oid) (es : List (OwnedTreeEntry Oid)) → insert_sorted e es ≢ []
  unfolding insert_sorted
  insert_sorted-ne-nil e [] h = cc
  insert_sorted-ne-nil e (f ∷ fs) h = ground arith

  insert_sorted-ne-sole :
      (x e : OwnedTreeEntry Oid) (es : List (OwnedTreeEntry Oid))
      → es ≢ []
      → insert_sorted x es ≢ e ∷ []
  unfolding insert_sorted
  insert_sorted-ne-sole x e [] ne h = ne refl
  insert_sorted-ne-sole x e (f ∷ fs) ne h = ground (arith, insert_sorted-ne-nil x fs)

  pub sort_by_name-sole :
      (es : List (OwnedTreeEntry Oid)) (e : OwnedTreeEntry Oid)
      → sort_by_name es ≡ e ∷ []
      → es ≡ e ∷ []
  unfolding sort_by_name insert_sorted
  sort_by_name-sole [] e h = cc
  sort_by_name-sole (x ∷ []) e h = h
  sort_by_name-sole (x ∷ y ∷ es) e h = absurd (
      insert_sorted-ne-sole x e (sort_by_name (y ∷ es)) (insert_sorted-ne-nil y (sort_by_name es))
        h)

  pub sole_entry_id_self :
      (e : OwnedTreeEntry Oid) → is_utf8 e.name ≡ true → sole_entry_id e.name (e ∷ []) ≡ some e.id
  unfolding sole_entry_id
  sole_entry_id_self e h = rw (h, bytes_eq_refl e.name)

pub marker_utf8 : is_utf8 single_file_package_marker ≡ true
unfolding is_utf8 bytes
marker_utf8 = refl

module _ {Repo Oid Builder : Type 0} (g : Git Repo Oid Builder) where
  pub sole_entry_id-unmarked :
      (r : Repo) (fs : List (OwnedTreeEntry Oid)) (es : Entries)
      → HoldEntries g r (sort_by_name fs) es
      → IsUnmarked es
      → sole_entry_id single_file_package_marker fs ≡ none
  unfolding sole_entry_id sort_by_name insert_sorted HoldEntries
  sole_entry_id-unmarked r [] es h u = refl
  sole_entry_id-unmarked r (f ∷ []) no_entries h u = absurd h
  sole_entry_id-unmarked r (f ∷ []) (entry name n no_entries) h u =
      rw (h.0, u) (elim (Bool-cases (is_utf8 name)) [ inl y ↦ rw y | inr n ↦ rw n ])
  sole_entry_id-unmarked r (f ∷ []) (entry name n (entry m k es)) h u = absurd h.2
  sole_entry_id-unmarked r (f ∷ f' ∷ fs) es h u = refl
