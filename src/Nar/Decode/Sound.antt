-- ===== src/Nar/Decode/Sound.antt =====
-- What the decoder accepts: archives of trees of files, in which entries may stand in any order.
use gachix.Prelude.{
  ℕ, zero, suc, ◌^◌, ◌<◌, ◌≡◌, refl, sym, ap, ◌∙◌, true, List, [], ◌∷◌, ◌++◌, length, All,
  append-nil, Result, ok, err, Returns, continue-Returns,
}
use gachix.Bytes.{Bytes, IsByte, bytes, bytes_eq, bytes_eq→eq}
use gachix.Bytes.Utf8.{is_utf8}
use gachix.Git.{Git, FileMode, into, lift_git}
use gachix.Nar.{nix_version_magic}
use gachix.Nar.Format.{
  Node, regular, symlink, directory, no_entries, entry, strings, padded, written, archive,
}
use gachix.Nar.Stored.{mode_of}
use gachix.Nar.Decode.{
  Decode, read_expect, read_utf8_padded, on_repo, insert_all, write_directory, parse_tag,
  parse_contents, parse_regular, parse_symlink, parse_entry, parse_entries, parse_directory,
  parse_type, recursive_parse, parse,
}
use gachix.Nar.Decode.Reads.{
  Took, value, error, Reads, Reads-pure, Reads-raise, Reads-bind, Reads-if, Reads-map,
  read_expect-Reads, read_utf8_padded-Reads, on_repo-Reads,
}
use gachix.Nar.Decode.Readable.{IsReadable, IsTyped, AreEntries, parts_of, entry_eq, entries_eq}
use gachix.Nar.Decode.Contents.{IsNode, parse_contents-Reads, parse_tag-Reads, regular_eq}

module _ {Repo Oid Builder : Type 0} (g : Git Repo Oid Builder) where
  parse_regular-Reads : Reads (IsTyped (bytes "regular")) (parse_regular g)
  unfolding parse_regular strings IsReadable
  parse_regular-Reads = Reads-bind read_utf8_padded _ read_utf8_padded-Reads λ tag c h.
      Reads-bind (parse_tag tag) _ (parse_tag-Reads tag) λ m d (x, read, mode).
        Reads-map (parse_contents g m)
          (λ y e (s, contents, short, same). (
            regular x s,
            unfold written in
                ap
                  (λ t.
                    padded (bytes "(")
                    ++ (padded (bytes "type") ++ (padded (bytes "regular") ++ t)))
                  (regular_eq x tag s c d e h.0.0 read contents),
            same ∙ mode,
            short,
          ))
          (parse_contents-Reads g m)

  parse_symlink-Reads : Reads (IsTyped (bytes "symlink")) (parse_symlink g)
  unfolding parse_symlink strings IsReadable
  parse_symlink-Reads =
      Reads-bind (read_expect (bytes "target")) _ (read_expect-Reads (bytes "target")) λ u c target.
        Reads-map (parse_contents g (into FileMode.link))
          (λ y d (s, contents, short, same).
            (symlink s, unfold written in rw (target, contents) refl, same, short))
          (parse_contents-Reads g (into FileMode.link))

  parse_entry-Reads :
      (p : Decode Repo (Oid × ℕ))
      → Reads IsNode p
      → Reads
          (λ y c.
            (name : Bytes) × (n : Node) × (c ≡ written (parts_of name n) [])
            × (is_utf8 name ≡ true)
            × (length name < 2 ^ 63)
            × IsReadable n)
          (parse_entry g p)
  unfolding parse_entry
  parse_entry-Reads p hp =
      Reads-bind (read_expect (bytes "(")) _ (read_expect-Reads (bytes "(")) λ u c bracket.
        Reads-bind (read_expect (bytes "name")) _ (read_expect-Reads (bytes "name")) λ v d word.
          Reads-bind read_utf8_padded _ read_utf8_padded-Reads λ name e h.
            Reads-bind (read_expect (bytes "node")) _ (read_expect-Reads (bytes "node")) λ w f node.
              Reads-bind p _ hp λ x k (n, object, mode, readable).
                Reads-bind (read_expect (bytes ")")) _ (read_expect-Reads (bytes ")")) λ z l close.
                  Reads-pure _ (x.0, x.1, name)
                    (
                      name,
                      n,
                      entry_eq name n c d e f k l bracket word h.0.0 node object close,
                      h.1,
                      h.0.1,
                      readable,
                    )

  parse_entries-Reads :
      (k : ℕ) (p : Decode Repo (Oid × ℕ)) (ts : List (Oid × ℕ × Bytes))
      → Reads IsNode p
      → Reads (λ us c. AreEntries c) (parse_entries g k p ts)
  unfolding parse_entries IsReadable
  parse_entries-Reads zero p ts hp = Reads-raise _ _
  parse_entries-Reads (suc k) p ts hp =
      Reads-bind read_utf8_padded _ read_utf8_padded-Reads λ field c h.
        Reads-if (bytes_eq field (bytes "entry")) _ _
          (λ more.
            Reads-bind (parse_entry g p) _ (parse_entry-Reads p hp)
              λ t d (name, n, read, text, short, readable).
                Reads-map (parse_entries g k p (ts ++ t ∷ []))
                  (λ us e (es, rest, others). (
                    entry name n es,
                    entries_eq name n es c d e (h.0.0 ∙ ap padded (bytes_eq→eq field _ more)) read
                        rest,
                    (text, short, readable, others),
                  ))
                  (parse_entries-Reads k p (ts ++ t ∷ []) hp))
          (λ _.
            Reads-if (bytes_eq field (bytes ")")) _ _
              (λ close. Reads-pure _ ts (
                no_entries,
                unfold strings written in
                    ap (λ t. t ++ []) (h.0.0 ∙ ap padded (bytes_eq→eq field _ close)),
                tt,
              ))
              (λ _. Reads-raise _ _))

  abbrev IsTree : Oid × ℕ → Type 0
  IsTree x = x.1 ≡ into FileMode.tree

  write_directory-mode :
      (ts : List (Oid × ℕ × Bytes)) (r : Repo) → Returns IsTree (write_directory g ts r).0
  unfolding write_directory
  write_directory-mode ts r = continue-Returns IsTree (lift_git g.treebuilder r) _ λ b s.
      continue-Returns IsTree (insert_all g ts b s) _
        λ b' t. continue-Returns IsTree (lift_git (g.write_tree b') t) _ λ o u. refl

  parse_directory-Reads :
      (f : ℕ) (p : Decode Repo (Oid × ℕ))
      → Reads IsNode p
      → Reads (IsTyped (bytes "directory")) (parse_directory g f p)
  unfolding parse_directory strings IsReadable
  parse_directory-Reads f p hp =
      Reads-bind (parse_entries g f p []) _ (parse_entries-Reads f p [] hp)
        λ ts c (es, read, readable).
          Reads-map (on_repo (write_directory g ts))
            (λ x d (none_read, mode). (
              directory es,
              unfold written in
                  ap
                    (λ t.
                      padded (bytes "(")
                      ++ (padded (bytes "type") ++ (padded (bytes "directory") ++ t)))
                    (ap (λ t. c ++ t) none_read ∙ append-nil c ∙ read),
              mode,
              readable,
            ))
            (on_repo-Reads _ (write_directory g ts) (write_directory-mode ts))

  parse_type-Reads :
      (f : ℕ) (p : Decode Repo (Oid × ℕ)) (t : Bytes)
      → Reads IsNode p
      → Reads (IsTyped t) (parse_type g f p t)
  unfolding parse_type
  parse_type-Reads f p t hp =
      Reads-if (bytes_eq t (bytes "regular")) _ _ (λ e. rw (bytes_eq→eq t _ e) parse_regular-Reads)
        (λ _.
          Reads-if (bytes_eq t (bytes "symlink")) _ _
            (λ e. rw (bytes_eq→eq t _ e) parse_symlink-Reads)
            (λ _.
              Reads-if (bytes_eq t (bytes "directory")) _ _
                (λ e. rw (bytes_eq→eq t _ e) (parse_directory-Reads f p hp))
                (λ _. Reads-raise _ _)))

  recursive_parse-Reads : (f : ℕ) → Reads IsNode (recursive_parse g f)
  unfolding recursive_parse
  recursive_parse-Reads zero = Reads-raise _ _
  recursive_parse-Reads (suc f) =
      Reads-bind (read_expect (bytes "(")) _ (read_expect-Reads (bytes "(")) λ u c bracket.
        Reads-bind (read_expect (bytes "type")) _ (read_expect-Reads (bytes "type")) λ v d word.
          Reads-bind read_utf8_padded _ read_utf8_padded-Reads λ t e h.
            Reads-map (parse_type g f (recursive_parse g f) t)
              (λ x k (n, typed, mode, readable). (
                n,
                ap (λ b. b ++ (d ++ (e ++ k))) bracket
                    ∙ ap (λ b. padded (bytes "(") ++ (b ++ (e ++ k))) word
                    ∙ ap (λ b. padded (bytes "(") ++ (padded (bytes "type") ++ (b ++ k))) h.0.0
                    ∙ typed,
                mode,
                readable,
              ))
              (parse_type-Reads f (recursive_parse g f) t (recursive_parse-Reads f))

  Took-node :
      (input rest : Bytes) (o : Oid) (m : ℕ) (s : Repo) (x : Result (Oid × ℕ) × (Bytes × Repo))
      → Took input (λ y c. (n : Node) × (c ≡ archive n) × (y.1 ≡ mode_of n) × IsReadable n) x
      → x ≡ (ok (o, m), (rest, s))
      → (n : Node) × (input ≡ archive n ++ rest) × (m ≡ mode_of n) × IsReadable n
  Took-node input rest o m s (ok (o', m'), (rest', s')) (value c all e (n, bs, mode, readable)) h =
      let same : m' ≡ m = cc in
      let left : rest' ≡ rest = cc in (n, rw (e, bs, left) refl, sym same ∙ mode, readable)
  Took-node input rest o m s (err c, t) error h = cc

  -- If the decoder accepts an input of bytes, whatever the repository does, what it took of the input
  -- is the archive of an object: every string of it is short enough for a vector and every name is
  -- UTF-8, and the file mode returned is that of the object.
  pub parse-IsReadable :
      (input rest : Bytes) (r s : Repo) (o : Oid) (m : ℕ)
      → All IsByte input
      → parse g (input, r) ≡ (ok (o, m), (rest, s))
      → (n : Node) × (input ≡ archive n ++ rest) × (m ≡ mode_of n) × IsReadable n
  unfolding parse archive
  parse-IsReadable input rest r s o m all h =
      Took-node input rest o m s (parse g (input, r))
        (Reads-bind (read_expect nix_version_magic) (λ u. recursive_parse g (length input))
          (read_expect-Reads nix_version_magic)
          (λ u c magic.
            Reads-map (recursive_parse g (length input))
              (λ x d (n, node, mode, readable).
                (n, unfold written in rw (magic, node) refl, mode, readable))
              (recursive_parse-Reads (length input)))
          input r all)
        h
