-- ===== src/Nar/Encode/Correct.antt =====
-- What the recursive encoder writes.
use gachix.Prelude.{
  ℕ, zero, suc, ◌%◌, ◌<◌, ◌≡◌, refl, inl, inr, Bool, true, false, List, [], ◌∷◌, ◌++◌, length, ok,
  arith, append_assoc, append-nil, Bool-cases, ltb,
}
use gachix.Bytes.{Bytes, bytes}
use gachix.Git.{Git, Object, OwnedTreeEntry, FileMode, into, tree, blob}
use gachix.Git.Laws.{Has}
use gachix.Nar.Format.{
  Node, Entries, regular, symlink, directory, no_entries, entry, strings, entry_strings,
  padding_some, padding_none, padded, written, written-append, written_rest, archive,
  executable_strings,
}
use gachix.Nar.Sort.{insert_sorted, sort_by_name}
use gachix.Nar.Stored.{
  Holds, HoldEntries, HasUtf8Names, HaveUtf8Names, depth, depth_entries, regular_mode,
}
use gachix.Nar.Encode.{
  Write, write_padded, names_are_utf8, sort_entries, to_object, encode_entries, encode_blob,
  encode_contents, encode_object, encode_into, finished, encode,
}
use gachix.Nar.{nix_version_magic}

pub write_padded-eq : (bs buffer : Bytes) → write_padded bs buffer ≡ (ok tt, buffer ++ padded bs)
unfolding write_padded padded
write_padded-eq bs buffer = elim (Bool-cases (ltb 0 (length bs % 8))) [
  | inl more ↦ simp (more, padding_some (length bs) more, append_assoc)
  | inr full ↦ simp (full, padding_none (length bs) full, append_assoc, append-nil)
]

encode_blob-eq :
    (x : Bool) (c buffer : Bytes)
    → encode_blob c (regular_mode x) buffer ≡ (
      ok tt,
      buffer ++ written (bytes "regular" ∷ (executable_strings x ++ bytes "contents" ∷ c ∷ [])) [],
    )
unfolding encode_blob written
encode_blob-eq true c buffer = simp (write_padded-eq, append_assoc, append-nil)
encode_blob-eq false c buffer = simp (write_padded-eq, append_assoc, append-nil)

encode_link-eq :
    (c buffer : Bytes)
    → encode_blob c (into FileMode.link) buffer
      ≡ (ok tt, buffer ++ written (bytes "symlink" ∷ bytes "target" ∷ c ∷ []) [])
unfolding encode_blob written
encode_link-eq c buffer = simp (write_padded-eq, append_assoc, append-nil)

module _ {Oid : Type 0} where
  names_are_utf8-insert :
      (e : OwnedTreeEntry Oid) (es : List (OwnedTreeEntry Oid))
      → names_are_utf8 (insert_sorted e es) ≡ names_are_utf8 (e ∷ es)
  unfolding names_are_utf8 insert_sorted
  names_are_utf8-insert e [] = refl
  names_are_utf8-insert e (f ∷ es) = ground (arith, names_are_utf8-insert e es)

  names_are_utf8-sort :
      (es : List (OwnedTreeEntry Oid)) → names_are_utf8 (sort_by_name es) ≡ names_are_utf8 es
  unfolding names_are_utf8 sort_by_name
  names_are_utf8-sort [] = refl
  names_are_utf8-sort (e ∷ es) =
      rw (names_are_utf8-insert e (sort_by_name es), names_are_utf8-sort es)

module _ {Repo Oid Builder : Type 0} (g : Git Repo Oid Builder) (r : Repo) where
  -- `encode` writes the strings of every object nested less than `f` deep.
  abbrev Encodes : (Object Oid → ℕ → Write (Unit {0})) → ℕ → Type 0
  Encodes encode f =
      (n : Node) (o : Oid) (m : ℕ) (x : Object Oid) (buffer : Bytes)
      → Holds g r o m n
      → HasUtf8Names n
      → depth n < f
      → Has g r o x
      → encode x m buffer ≡ (ok tt, buffer ++ written (strings n) [])

  to_object-eq :
      (e : OwnedTreeEntry Oid) (x : Object Oid) (buffer : Bytes)
      → Has g r e.id x
      → to_object g r e buffer ≡ (ok x, buffer)
  unfolding to_object
  to_object-eq e x buffer h = rw (h, to_object)

  Holds-Has : (n : Node) (o : Oid) (m : ℕ) → Holds g r o m n → (x : Object Oid) × Has g r o x
  unfolding Holds
  Holds-Has (regular e c) o m h = (blob c, h.1)
  Holds-Has (symlink t) o m h = (blob t, h.1)
  Holds-Has (directory es) o m h = (tree h.1, h.2)

  names_are_utf8-eq :
      (fs : List (OwnedTreeEntry Oid)) (es : Entries)
      → HoldEntries g r fs es
      → HaveUtf8Names es
      → names_are_utf8 fs ≡ true
  unfolding names_are_utf8 HoldEntries HaveUtf8Names
  names_are_utf8-eq [] no_entries h u = refl
  names_are_utf8-eq [] (entry name n es) h u = refl
  names_are_utf8-eq (f ∷ fs) no_entries h u = elim h [ ]
  names_are_utf8-eq (f ∷ fs) (entry name n es) h u = rw (h.0, u.0) (names_are_utf8-eq fs es h.2 u.2)

  sort_entries-eq :
      (es : List (OwnedTreeEntry Oid)) (ns : Entries) (buffer : Bytes)
      → HoldEntries g r (sort_by_name es) ns
      → HaveUtf8Names ns
      → sort_entries es buffer ≡ (ok (sort_by_name es), buffer)
  unfolding sort_entries
  sort_entries-eq es ns buffer h u =
      let all = names_are_utf8-eq (sort_by_name es) ns h u in
      ground (arith, all, names_are_utf8-sort es)

  encode_entries-eq :
      (encode : Object Oid → ℕ → Write (Unit {0})) (f : ℕ)
      → Encodes encode f
      → (es : Entries) (fs : List (OwnedTreeEntry Oid)) (buffer : Bytes) → HoldEntries g r fs es
      → HaveUtf8Names es
      → depth_entries es < f
      → encode_entries g r encode fs buffer ≡ (ok tt, buffer ++ written (entry_strings es) [])
  unfolding Holds HasUtf8Names depth encode_entries strings written
  encode_entries-eq encode f ih no_entries [] buffer h u d = rw append-nil
  encode_entries-eq encode f ih no_entries (e ∷ fs) buffer h u d = elim h [ ]
  encode_entries-eq encode f ih (entry name n es) [] buffer h u d = elim h [ ]
  encode_entries-eq encode f ih (entry name n es) (e ∷ fs) buffer h u d =
      let (x, hx) = Holds-Has n e.id e.filemode h.1 in
      simp
        (
          to_object-eq e x _ hx,
          write_padded-eq,
          h.0,
          u.0,
          λ (b : Bytes). ih n e.id e.filemode x b h.1 u.1 (omega arith) hx,
          λ (b : Bytes). encode_entries-eq encode f ih es fs b h.2 u.2 (omega arith),
          written-append,
          append_assoc,
        )
        (rw (written_rest (strings n) (padded (bytes ")") ++ written (entry_strings es) [])))

  Has-unique : (o : Oid) (x y : Object Oid) → Has g r o x → Has g r o y → x ≡ y
  Has-unique o x y h k = cc

  encode_object-eq : (f : ℕ) → Encodes (encode_object g r f) f
  unfolding encode_object encode_contents strings written Holds HasUtf8Names depth
  encode_object-eq zero n o m x buffer h u d hx = absurd (omega arith)
  encode_object-eq (suc f) (regular e c) o m x buffer h u d hx =
      rw (h.0, Has-unique o x (blob c) hx h.1) (wrapped e)
    where
      wrapped :
          (e : Bool)
          → encode_object g r (suc f) (blob c) (regular_mode e) buffer
            ≡ (ok tt, buffer ++ written (strings (regular e c)) [])
      wrapped true = simp (write_padded-eq, encode_blob-eq true, append_assoc, append-nil)
      wrapped false = simp (write_padded-eq, encode_blob-eq false, append_assoc, append-nil)
  encode_object-eq (suc f) (symlink t) o m x buffer h u d hx =
      rw (h.0, Has-unique o x (blob t) hx h.1)
        (simp (write_padded-eq, encode_link-eq, append_assoc, append-nil))
  encode_object-eq (suc f) (directory es) o m x buffer h u d hx =
      rw (h.0, Has-unique o x (tree h.1) hx h.2)
        (simp
          (
            write_padded-eq,
            sort_entries-eq h.1 es _ h.3 u,
            λ (b : Bytes).
                encode_entries-eq (encode_object g r f) f (encode_object-eq f) es (sort_by_name h.1)
                  b h.3 u (omega arith),
            written-append,
            append_assoc,
            append-nil,
          )
          (rw (written_rest (entry_strings es) (padded (bytes ")")))))

  -- The recursive encoder, called on the object that stands for `n` with its file mode and enough
  -- fuel for the nesting of `n`, whose entries have UTF-8 names, returns the archive of `n`.
  pub encode-eq-archive :
      (n : Node) (o : Oid) (m f : ℕ) (x : Object Oid)
      → Holds g r o m n
      → Has g r o x
      → HasUtf8Names n
      → depth n < f
      → encode g r f x m ≡ ok (archive n)
  unfolding encode encode_into finished archive written
  encode-eq-archive n o m f x h hx u d =
      rw (write_padded-eq nix_version_magic [], encode_object-eq f n o m x _ h u d hx)
