-- ===== src/Nar/Decode/Frame.antt =====
-- What the decoder does to the repository, on any input: it only makes the repository's own moves.
use gachix.Prelude.{
  ℕ, zero, suc, Option, none, some, List, [], ◌∷◌, Exec, length, Preorder, Moves, Moves-pure,
  Moves-raise, Moves-if, Moves-bind, Moves-then, moves_rules,
}
use gachix.Bytes.{Bytes, bytes, bytes_eq}
use gachix.Git.{Git, GitExec, lift_git}
use gachix.Nar.{nix_version_magic}
use gachix.Nar.Decode.{
  Decode, take_exact, read_taken, read_exact, read_padding, read_expect, read_bytes_padded,
  read_utf8_padded, on_repo, parse_tag, insert_all, write_directory, parse_contents, parse_regular,
  parse_symlink, parse_entry, parse_entries, parse_directory, parse_type, recursive_parse, parse,
}

-- The relation on the repository, of states of the decoder.
abbrev pub on_input : {Repo : Type 0} → Preorder Repo → Preorder (Bytes × Repo)
on_input P = record {
  rel = λ s t. P.rel s.1 t.1;
  rel_refl = λ s. P.rel_refl s.1;
  rel_trans = λ s t u. P.rel_trans s.1 t.1 u.1;
}

pub record OpsMove {Repo Oid Builder : Type 0} (g : Git Repo Oid Builder) (P : Preorder Repo)
    : Type 0 where
  pub write_blob_moves : (c : Bytes) (r : Repo) → P.rel r (g.write_blob c r).1
  pub treebuilder_moves : (r : Repo) → P.rel r (g.treebuilder r).1
  pub insert_moves :
      (name : Bytes) (o : Oid) (m : ℕ) (b : Builder) (r : Repo) → P.rel r (g.insert name o m b r).1
  pub write_tree_moves : (b : Builder) (r : Repo) → P.rel r (g.write_tree b r).1

module _ {Repo : Type 0} (P : Preorder Repo) where
  pub lift_git-Moves :
      {A : Type 0} (m : GitExec Repo A) → ((r : Repo) → P.rel r (m r).1) → Moves P (lift_git m)
  unfolding lift_git
  lift_git-Moves m h = record { at = h }

  on_repo-Moves : {A : Type 0} (m : Exec Repo A) → Moves P m → Moves (on_input P) (on_repo m)
  unfolding on_repo
  on_repo-Moves m h = record { at = λ s. h.at s.1 }

  read_exact-Moves : (n : ℕ) → Moves (on_input P) (read_exact n)
  unfolding read_taken read_exact
  read_exact-Moves n = record { at = λ (i, r). go (take_exact n i) r }
    where
      go : (o : Option (Bytes × Bytes)) (r : Repo) → P.rel r (read_taken o r).1.1
      go none r = P.rel_refl r
      go (some (bs, rest)) r = P.rel_refl r

  read_padding-Moves : (n : ℕ) → Moves (on_input P) (read_padding n)
  unfolding read_padding
  read_padding-Moves n = search (moves_rules, read_exact-Moves)

  read_expect-Moves : (bs : Bytes) → Moves (on_input P) (read_expect bs)
  unfolding read_expect
  read_expect-Moves bs = search (moves_rules, read_exact-Moves, read_padding-Moves)

  read_bytes_padded-Moves : Moves (on_input P) read_bytes_padded
  unfolding read_bytes_padded
  read_bytes_padded-Moves = search (moves_rules, read_exact-Moves, read_padding-Moves)

  read_utf8_padded-Moves : Moves (on_input P) read_utf8_padded
  unfolding read_utf8_padded
  read_utf8_padded-Moves = search (moves_rules, read_bytes_padded-Moves)

  parse_tag-Moves : (tag : Bytes) → Moves (on_input P) (parse_tag tag)
  unfolding parse_tag
  parse_tag-Moves tag = search (moves_rules, read_expect-Moves)

module _ {Repo Oid Builder : Type 0} {g : Git Repo Oid Builder} (P : Preorder Repo)
    (ops : OpsMove g P) where
  write_blob-Moves : (c : Bytes) → Moves P (lift_git (g.write_blob c))
  write_blob-Moves c = lift_git-Moves P (g.write_blob c) (ops.write_blob_moves c)

  insert_all-Moves : (es : List (Oid × ℕ × Bytes)) (b : Builder) → Moves P (insert_all g es b)
  unfolding insert_all
  insert_all-Moves [] b = Moves-pure P b
  insert_all-Moves ((o, m, name) ∷ es) b =
      Moves-bind P _ _ (lift_git-Moves P (g.insert name o m b) (ops.insert_moves name o m b))
        (λ b'. insert_all-Moves es b')

  write_directory-Moves : (es : List (Oid × ℕ × Bytes)) → Moves P (write_directory g es)
  unfolding write_directory
  write_directory-Moves es =
      Moves-bind P _ _ (lift_git-Moves P g.treebuilder ops.treebuilder_moves) λ b.
        Moves-bind P _ _ (insert_all-Moves es b) λ b'.
          Moves-bind P _ _ (lift_git-Moves P (g.write_tree b') (ops.write_tree_moves b'))
            λ o. Moves-pure P _

  parse_contents-Moves : (m : ℕ) → Moves (on_input P) (parse_contents g m)
  unfolding parse_contents
  parse_contents-Moves m =
      search
        (moves_rules, read_bytes_padded-Moves, read_expect-Moves, on_repo-Moves, write_blob-Moves)

  parse_entry-Moves :
      (m : Decode Repo (Oid × ℕ)) → Moves (on_input P) m → Moves (on_input P) (parse_entry g m)
  unfolding parse_entry
  parse_entry-Moves m h =
      let Q = on_input P in
      let expect = read_expect-Moves P in
      Moves-then Q _ _ (expect (bytes "(")) (
        Moves-then Q _ _ (expect (bytes "name")) (
          Moves-bind Q _ _ (read_utf8_padded-Moves P) λ name.
            Moves-then Q _ _ (expect (bytes "node")) (
              Moves-bind Q _ _ h λ (oid, filemode).
                Moves-then Q _ _ (expect (bytes ")")) (Moves-pure Q (oid, filemode, name)))))

  parse_entries-Moves :
      (fuel : ℕ) (m : Decode Repo (Oid × ℕ)) (es : List (Oid × ℕ × Bytes))
      → Moves (on_input P) m
      → Moves (on_input P) (parse_entries g fuel m es)
  unfolding parse_entries
  parse_entries-Moves zero m es h = Moves-raise (on_input P) _
  parse_entries-Moves (suc fuel) m es h =
      let Q = on_input P in
      Moves-bind Q _ _ (read_utf8_padded-Moves P) λ field.
        Moves-if Q (bytes_eq field (bytes "entry")) _ _
          (Moves-bind Q _ _ (parse_entry-Moves m h) (λ e. parse_entries-Moves fuel m _ h))
          (Moves-if Q (bytes_eq field (bytes ")")) _ _ (Moves-pure Q es) (Moves-raise Q _))

  parse_directory-Moves :
      (fuel : ℕ) (m : Decode Repo (Oid × ℕ))
      → Moves (on_input P) m
      → Moves (on_input P) (parse_directory g fuel m)
  unfolding parse_directory
  parse_directory-Moves fuel m h =
      search (moves_rules, parse_entries-Moves, on_repo-Moves, write_directory-Moves) depth 8

  parse_regular-Moves : Moves (on_input P) (parse_regular g)
  unfolding parse_regular
  parse_regular-Moves =
      search (moves_rules, read_utf8_padded-Moves, parse_tag-Moves, parse_contents-Moves)

  parse_symlink-Moves : Moves (on_input P) (parse_symlink g)
  unfolding parse_symlink
  parse_symlink-Moves = search (moves_rules, read_expect-Moves, parse_contents-Moves)

  parse_type-Moves :
      (fuel : ℕ) (m : Decode Repo (Oid × ℕ)) (t : Bytes)
      → Moves (on_input P) m
      → Moves (on_input P) (parse_type g fuel m t)
  unfolding parse_type
  parse_type-Moves fuel m t h =
      search (moves_rules, parse_directory-Moves, parse_regular-Moves, parse_symlink-Moves) depth 8

  recursive_parse-Moves : (fuel : ℕ) → Moves (on_input P) (recursive_parse g fuel)
  unfolding recursive_parse
  recursive_parse-Moves zero = Moves-raise (on_input P) _
  recursive_parse-Moves (suc fuel) =
      let Q = on_input P in
      Moves-then Q _ _ (read_expect-Moves P (bytes "(")) (
        Moves-then Q _ _ (read_expect-Moves P (bytes "type")) (
          Moves-bind Q _ _ (read_utf8_padded-Moves P)
            (λ t. parse_type-Moves fuel (recursive_parse g fuel) t (recursive_parse-Moves fuel))))

  -- Whatever the input, the repository that the decoder leaves is one that the repository's own
  -- operations can lead to.
  pub parse-rel : (input : Bytes) (r : Repo) → P.rel r (parse g (input, r)).1.1
  unfolding parse
  parse-rel input r =
      (Moves-then (on_input P) (read_expect nix_version_magic) (recursive_parse g (length input))
          (read_expect-Moves P nix_version_magic) (recursive_parse-Moves (length input))).at
        (input, r)
