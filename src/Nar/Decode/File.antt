-- ===== src/Nar/Decode/File.antt =====
-- The decoder on the archives of regular files and symlinks.
use gachix.Prelude.{
  ℕ, suc, ◌<◌, ◌^◌, ◌≡◌, refl, ◌∙◌, Bool, true, false, List, [], ◌∷◌, ◌++◌, length, ok, Exec, ◌>>=◌,
  continue_assoc,
}
use gachix.Bytes.{Bytes, bytes, bytes_eq_refl}
use gachix.Git.{Git, FileMode, into, blob, lift_git}
use gachix.Git.Laws.{GitLaws, Has, Extends, lift_git-done}
use gachix.Nar.Format.{Node, regular, symlink, strings, executable_strings, written}
use gachix.Nar.Stored.{Holds, regular_mode, mode_of}
use gachix.Nar.Decode.{
  Decode, read_expect, read_utf8_padded, on_repo, parse_tag, parse_contents, parse_regular,
  parse_symlink, parse_type, recursive_parse,
}
use gachix.Nar.Decode.Read.{
  read_expect-written, read_bytes_padded-written, read_utf8_padded-written,
}
use gachix.Nar.Decode.Tags.{
  IsTag, open-IsTag, close-IsTag, type-IsTag, regular-IsTag, symlink-IsTag, executable-IsTag,
  empty-IsTag, contents-IsTag, target-IsTag, contents_ne_executable, symlink_ne_regular,
}

module _ {Repo Oid Builder : Type 0} {g : Git Repo Oid Builder} (laws : GitLaws g) where
  -- `p` reads the archive of `n` off any input and stores `n`.
  abbrev pub Parses : Decode Repo (Oid × ℕ) → Node → Type 0
  Parses p n =
      (rest : Bytes) (r : Repo)
      → (o : Oid) × (s : Repo) × (p (written (strings n) rest, r) ≡ (ok (o, mode_of n), (rest, s)))
        × Holds g s o (mode_of n) n
        × Extends g r s

  pub on_repo-eq :
      {A : Type 0} (m : Exec Repo A) (input : Bytes) (r s : Repo) (a : A)
      → m r ≡ (ok a, s)
      → on_repo m (input, r) ≡ (ok a, (input, s))
  unfolding on_repo
  on_repo-eq m input r s a h = rw (h, on_repo)

  pub tag_expected :
      (w : Bytes) (ts : List Bytes) (rest : Bytes) (r : Repo)
      → IsTag w
      → read_expect w (written (w ∷ ts) rest, r) ≡ (ok tt, (written ts rest, r))
  tag_expected w ts rest r t = read_expect-written w ts rest r t.0

  pub tag_read :
      (w : Bytes) (ts : List Bytes) (rest : Bytes) (r : Repo)
      → IsTag w
      → read_utf8_padded (written (w ∷ ts) rest, r) ≡ (ok w, (written ts rest, r))
  tag_read w ts rest r t = read_utf8_padded-written w ts rest r t.1 t.0

  -- The file mode of a regular file, and what is left: its contents.
  parse_tag-eq :
      (x : Bool) (ts : List Bytes) (rest : Bytes) (r : Repo)
      → (read_utf8_padded >>= parse_tag)
          (written (executable_strings x ++ bytes "contents" ∷ ts) rest, r)
        ≡ (ok (regular_mode x), (written ts rest, r))
  unfolding parse_tag
  parse_tag-eq true ts rest r = rw (
    tag_read (bytes "executable") (bytes "" ∷ bytes "contents" ∷ ts) rest r executable-IsTag,
    bytes_eq_refl (bytes "executable"),
    tag_expected (bytes "") (bytes "contents" ∷ ts) rest r empty-IsTag,
    tag_expected (bytes "contents") ts rest r contents-IsTag,
  )
  parse_tag-eq false ts rest r = rw (
    tag_read (bytes "contents") ts rest r contents-IsTag,
    contents_ne_executable,
    bytes_eq_refl (bytes "contents"),
  )

  parse_contents-eq :
      (c rest : Bytes) (r : Repo) (m : ℕ)
      → length c < 2 ^ 63
      → (o : Oid) × (s : Repo) × (parse_contents g m (written (c ∷ bytes ")" ∷ []) rest, r)
          ≡ (ok (o, m), (rest, s)))
        × Has g s o (blob c)
        × Extends g r s
  unfolding parse_contents
  parse_contents-eq c rest r m h =
      let (o, s, stored, has, more) = laws.blob_stores c r in
      (
        o,
        s,
        rw
            (
              read_bytes_padded-written c (bytes ")" ∷ []) rest r h,
              on_repo-eq (lift_git (g.write_blob c)) _ r s o
                  (lift_git-done (g.write_blob c) r s o stored),
              tag_expected (bytes ")") [] rest s close-IsTag,
            )
            (unfold written in refl),
        has,
        more,
      )

  parse_regular-eq :
      (x : Bool) (c rest : Bytes) (r : Repo)
      → parse_regular g
          (written (executable_strings x ++ bytes "contents" ∷ c ∷ bytes ")" ∷ []) rest, r)
        ≡ parse_contents g (regular_mode x) (written (c ∷ bytes ")" ∷ []) rest, r)
  unfolding parse_regular
  parse_regular-eq x c rest r =
      continue_assoc
        (read_utf8_padded
          (written (executable_strings x ++ bytes "contents" ∷ c ∷ bytes ")" ∷ []) rest, r))
        parse_tag (parse_contents g)
      ∙ rw (parse_tag-eq x (c ∷ bytes ")" ∷ []) rest r)

  -- An archive up to its file type.
  pub opened :
      (f : ℕ) (ts : List Bytes) (w rest : Bytes) (r : Repo)
      → IsTag w
      → recursive_parse g (suc f) (written (bytes "(" ∷ bytes "type" ∷ w ∷ ts) rest, r)
        ≡ parse_type g f (recursive_parse g f) w (written ts rest, r)
  unfolding recursive_parse
  opened f ts w rest r t = rw (
    tag_expected (bytes "(") (bytes "type" ∷ w ∷ ts) rest r open-IsTag,
    tag_expected (bytes "type") (w ∷ ts) rest r type-IsTag,
    tag_read w ts rest r t,
  )

  pub Parses-regular :
      (f : ℕ) (x : Bool) (c : Bytes)
      → length c < 2 ^ 63
      → Parses (recursive_parse g (suc f)) (regular x c)
  unfolding strings Holds parse_type
  Parses-regular f x c h rest r =
      let (o, s, e, has, more) = parse_contents-eq c rest r (regular_mode x) h in
      (
        o,
        s,
        opened f _ (bytes "regular") rest r regular-IsTag
            ∙ rw (bytes_eq_refl (bytes "regular")) (parse_regular-eq x c rest r ∙ e),
        (refl, has),
        more,
      )

  pub Parses-symlink :
      (f : ℕ) (t : Bytes) → length t < 2 ^ 63 → Parses (recursive_parse g (suc f)) (symlink t)
  unfolding strings Holds parse_type parse_symlink
  Parses-symlink f t h rest r =
      let (o, s, e, has, more) = parse_contents-eq t rest r (into FileMode.link) h in
      (
        o,
        s,
        opened f _ (bytes "symlink") rest r symlink-IsTag
            ∙ rw
                (
                  symlink_ne_regular,
                  bytes_eq_refl (bytes "symlink"),
                  tag_expected (bytes "target") _ rest r target-IsTag,
                )
                e,
        (refl, has),
        more,
      )
