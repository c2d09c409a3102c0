-- ===== src/Nar/Decode/RoundTrip.antt =====
-- The decoder on archives: it reads an archive of any file system object back, and stores the object.
use gachix.Prelude.{
  ℕ, zero, suc, ◌<◌, ◌^◌, ◌≡◌, refl, ◌∙◌, true, List, [], ◌∷◌, ◌++◌, map, length, length-append, ok,
  arith, append-nil, append_assoc,
}
use gachix.Bytes.{Bytes, bytes, bytes_eq_refl}
use gachix.Bytes.Utf8.{is_utf8}
use gachix.Git.{Git, FileMode, into}
use gachix.Git.Laws.{GitLaws, Extends}
use gachix.Nar.{nix_version_magic}
use gachix.Nar.Format.{
  Node, Entries, regular, symlink, directory, no_entries, entry, strings, entry_strings, written,
  written-append, written_rest, length-written, archive,
}
use gachix.Nar.Stored.{Holds, HoldEntries, mode_of}
use gachix.Nar.Archivable.{IsArchivable, AreArchivable, Holds-Extends}
use gachix.Nar.Decode.{
  Decode, write_directory, parse_entry, parse_entries, parse_directory, parse_type, recursive_parse,
  parse,
}
use gachix.Nar.Decode.Read.{read_utf8_padded-written}
use gachix.Nar.Decode.Insert.{as_entry, write_directory-Holds}
use gachix.Nar.Decode.Tags.{
  open-IsTag, close-IsTag, directory-IsTag, entry-IsTag, name-IsTag, node-IsTag, magic-IsTag,
  directory_ne_regular, directory_ne_symlink, close_ne_entry,
}
use gachix.Nar.Decode.File.{
  Parses, on_repo-eq, tag_expected, tag_read, opened, Parses-regular, Parses-symlink,
}

module _ {Repo Oid Builder : Type 0} {g : Git Repo Oid Builder} (laws : GitLaws g) where
  -- The entries of a directory, read behind `entries`, with the bracket that ends them.
  abbrev ParsesEntries : (Decode Repo (Oid × ℕ)) → Entries → Type 0
  ParsesEntries p es =
      (k : ℕ) (entries : List (Oid × ℕ × Bytes)) (rest : Bytes) (r : Repo)
      → length (entry_strings es) < k
      → (ts : List (Oid × ℕ × Bytes)) × (s : Repo) × (parse_entries g k p entries
            (written (entry_strings es) (written (bytes ")" ∷ []) rest), r)
          ≡ (ok (entries ++ ts), (rest, s)))
        × HoldEntries g s (map as_entry ts) es
        × Extends g r s

  ParsesEntries-end : (p : Decode Repo (Oid × ℕ)) → ParsesEntries p no_entries
  unfolding strings Holds parse_entries written
  ParsesEntries-end p zero entries rest r h = absurd (omega arith)
  ParsesEntries-end p (suc k) entries rest r h = (
    [],
    r,
    rw (append-nil) (
        unfold written in
        rw (
          tag_read laws (bytes ")") [] rest r close-IsTag,
          close_ne_entry,
          bytes_eq_refl (bytes ")"),
        )),
    tt,
    λ o x has. has,
  )

  parse_entry-eq :
      (p : Decode Repo (Oid × ℕ)) (name : Bytes) (n : Node) (ts : List Bytes) (rest : Bytes)
      (r s : Repo) (o : Oid)
      → is_utf8 name ≡ true
      → length name < 2 ^ 63
      → p (written (strings n) (written (bytes ")" ∷ ts) rest), r)
        ≡ (ok (o, mode_of n), (written (bytes ")" ∷ ts) rest, s))
      → parse_entry g p (
        written
            (bytes "(" ∷ bytes "name" ∷ name ∷ bytes "node" ∷ (strings n ++ bytes ")" ∷ ts))
            rest,
        r,
      )
        ≡ (ok (o, mode_of n, name), (written ts rest, s))
  unfolding parse_entry
  parse_entry-eq p name n ts rest r s o u h e = rw (
    tag_expected laws (bytes "(")
        (bytes "name" ∷ name ∷ bytes "node" ∷ (strings n ++ bytes ")" ∷ ts)) rest r open-IsTag,
    tag_expected laws (bytes "name") (name ∷ bytes "node" ∷ (strings n ++ bytes ")" ∷ ts)) rest r
        name-IsTag,
    read_utf8_padded-written name (bytes "node" ∷ (strings n ++ bytes ")" ∷ ts)) rest r u h,
    tag_expected laws (bytes "node") (strings n ++ bytes ")" ∷ ts) rest r node-IsTag,
    written-append (strings n) (bytes ")" ∷ ts) rest,
    e,
    tag_expected laws (bytes ")") ts rest s close-IsTag,
  )

  parse_entries-step :
      (p : Decode Repo (Oid × ℕ)) (k : ℕ) (entries : List (Oid × ℕ × Bytes)) (ts : List Bytes)
      (input rest : Bytes) (r s : Repo) (t : Oid × ℕ × Bytes)
      → parse_entry g p (written ts rest, r) ≡ (ok t, (input, s))
      → parse_entries g (suc k) p entries (written (bytes "entry" ∷ ts) rest, r)
        ≡ parse_entries g k p (entries ++ t ∷ []) (input, s)
  unfolding parse_entries
  parse_entries-step p k entries ts input rest r s t e =
      rw (tag_read laws (bytes "entry") ts rest r entry-IsTag, bytes_eq_refl (bytes "entry"), e)

  ParsesEntries-cons :
      (p : Decode Repo (Oid × ℕ)) (name : Bytes) (n : Node) (es : Entries)
      → is_utf8 name ≡ true
      → length name < 2 ^ 63
      → Parses laws p n
      → ParsesEntries p es
      → ParsesEntries p (entry name n es)
  unfolding strings Holds
  ParsesEntries-cons p name n es u h node more zero entries rest r d = absurd (omega arith)
  ParsesEntries-cons p name n es u h node more (suc k) entries rest r d =
      let after = written (bytes ")" ∷ []) rest in
      let (o, s, read, held, kept) = node (written (bytes ")" ∷ entry_strings es) after) r in
      let t : Oid × ℕ × Bytes = (o, mode_of n, name) in
      let short = length-append (strings n) (bytes ")" ∷ entry_strings es) in
      let (ts, s', read_more, held_more, kept_more) =
        more k (entries ++ t ∷ []) rest s (omega (arith, short)) in
      (
        t ∷ ts,
        s',
        parse_entries-step p k entries _ _ after r s t
              (parse_entry-eq p name n (entry_strings es) after r s o u h read)
            ∙ read_more
            ∙ rw (append_assoc),
        (refl, Holds-Extends g n o (mode_of n) s s' kept_more held, held_more),
        λ i x has. kept_more i x (kept i x has),
      )

  ParsesEntries-all :
      (p : Decode Repo (Oid × ℕ)) (f : ℕ)
      → ((n : Node) → IsArchivable laws.valid_name n → length (strings n) < f → Parses laws p n)
      → (es : Entries) → AreArchivable laws.valid_name es
      → length (entry_strings es) < f
      → ParsesEntries p es
  unfolding strings IsArchivable
  ParsesEntries-all p f nodes no_entries a h = ParsesEntries-end p
  ParsesEntries-all p f nodes (entry name n es) a h =
      let short = length-append (strings n) (bytes ")" ∷ entry_strings es) in
      ParsesEntries-cons p name n es a.0 a.2 (nodes n a.4 (omega (arith, short)))
        (ParsesEntries-all p f nodes es a.5 (omega (arith, short)))

  Parses-directory :
      (f : ℕ) (es : Entries)
      → AreArchivable laws.valid_name es
      → length (entry_strings es) < f
      → ParsesEntries (recursive_parse g f) es
      → Parses laws (recursive_parse g (suc f)) (directory es)
  unfolding strings parse_type parse_directory
  Parses-directory f es a h entries rest r =
      let (ts, s, read, held, kept) = entries f [] rest r h in
      let (o, s', wrote, holds, more) = write_directory-Holds laws es s ts held a in
      (
        o,
        s',
        opened laws f (entry_strings es ++ bytes ")" ∷ []) (bytes "directory") rest r
              directory-IsTag
            ∙ rw
                (
                  directory_ne_regular,
                  directory_ne_symlink,
                  bytes_eq_refl (bytes "directory"),
                  written-append (entry_strings es) (bytes ")" ∷ []) rest,
                  read,
                )
                (on_repo-eq laws (write_directory g ts) rest s s' (o, into FileMode.tree) wrote),
        holds,
        λ i x has. more i x (kept i x has),
      )

  recursive_parse-Parses :
      (f : ℕ) (n : Node)
      → IsArchivable laws.valid_name n
      → length (strings n) < f
      → Parses laws (recursive_parse g f) n
  unfolding IsArchivable strings
  recursive_parse-Parses zero n a h = absurd (omega arith)
  recursive_parse-Parses (suc f) (regular x c) a h = Parses-regular laws f x c a
  recursive_parse-Parses (suc f) (symlink t) a h = Parses-symlink laws f t a
  recursive_parse-Parses (suc f) (directory es) a h =
      let short : length (entry_strings es) < f =
        omega (arith, length-append (entry_strings es) (bytes ")" ∷ [])) in
      Parses-directory f es a short
        (ParsesEntries-all (recursive_parse g f) f (recursive_parse-Parses f) es a short)

  parse_started :
      (n : Node) (rest : Bytes) (r : Repo)
      → parse g (archive n ++ rest, r)
        ≡ recursive_parse g (length (archive n ++ rest)) (written (strings n) rest, r)
  unfolding parse archive
  parse_started n rest r = rw (
    ← written_rest (bytes "nix-archive-1" ∷ strings n) rest,
    tag_expected laws nix_version_magic (strings n) rest r magic-IsTag,
  )

  enough_fuel : (n : Node) (rest : Bytes) → length (strings n) < length (archive n ++ rest)
  unfolding archive
  enough_fuel n rest =
      rw (← written_rest (bytes "nix-archive-1" ∷ strings n) rest)
        (length-written (bytes "nix-archive-1" ∷ strings n) rest)

  -- Decoding the archive of an object, with anything behind it, succeeds, leaves what is behind it,
  -- and stores the object under the id and file mode that it returns; nothing is lost from the
  -- repository.
  pub parse-archive :
      (n : Node) (rest : Bytes) (r : Repo)
      → IsArchivable laws.valid_name n
      → (o : Oid) × (s : Repo) × (parse g (archive n ++ rest, r) ≡ (ok (o, mode_of n), (rest, s)))
        × Holds g s o (mode_of n) n
        × Extends g r s
  parse-archive n rest r a =
      let (o, s, e, held, kept) =
        recursive_parse-Parses (length (archive n ++ rest)) n a (enough_fuel n rest) rest r in
      (o, s, parse_started n rest r ∙ e, held, kept)
