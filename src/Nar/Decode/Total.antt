-- ===== src/Nar/Decode/Total.antt =====
-- The decoder on any input: the model's bounds are never met, so the code's loop and recursion end.
use gachix.Prelude.{
  ℕ, zero, suc, ◌≤◌, ◌≢◌, List, [], ◌∷◌, ◌++◌, length, Result, err, out_of_fuel, arith,
  unrecognized_file_type, incorrect_directory_field,
}
use gachix.Bytes.{Bytes, bytes, bytes_eq}
use gachix.Git.{Git, FileMode, into, lift_git}
use gachix.Nar.{nix_version_magic}
use gachix.Nar.Decode.{
  Decode, read_expect, read_bytes_padded, read_utf8_padded, on_repo, insert_all, write_directory,
  parse_contents, parse_tag, parse_regular, parse_symlink, parse_entry, parse_entries,
  parse_directory, parse_type, recursive_parse, parse,
}
use gachix.Nar.Decode.Takes.{
  value, error, Leaves, Takes, Takes-pure, Takes-raise, Takes-bind, Takes-if, Takes-then,
  Takes-none, Takes-below, read_expect-Takes, read_utf8_padded-Takes, read_expect-ends,
  read_bytes_padded-ends, read_utf8_padded-ends, parse_tag-Takes, Ends, Ends-lift_git, Ends-bind,
  on_repo-Takes,
}

module _ {Repo Oid Builder : Type 0} (g : Git Repo Oid Builder) where
  Ends-insert_all : (ts : List (Oid × ℕ × Bytes)) (b : Builder) → Ends (insert_all g ts b)
  unfolding insert_all
  Ends-insert_all [] b = λ r. cc
  Ends-insert_all ((o, m, name) ∷ ts) b =
      Ends-bind (lift_git (g.insert name o m b)) _ (Ends-lift_git (g.insert name o m b))
        λ c. Ends-insert_all ts c

  Ends-write_directory : (ts : List (Oid × ℕ × Bytes)) → Ends (write_directory g ts)
  unfolding write_directory
  Ends-write_directory ts = Ends-bind (lift_git g.treebuilder) _ (Ends-lift_git g.treebuilder) λ b.
      Ends-bind (insert_all g ts b) _ (Ends-insert_all ts b)
        λ c. Ends-bind (lift_git (g.write_tree c)) _ (Ends-lift_git (g.write_tree c)) λ o r. cc

  parse_contents-Takes : (bound m : ℕ) → Takes bound 0 (parse_contents g m)
  unfolding parse_contents
  parse_contents-Takes bound m =
      Takes-bind bound 0 0 read_bytes_padded _ (read_bytes_padded-ends bound) λ c.
        Takes-bind _ 0 0 (on_repo (lift_git (g.write_blob c))) _
          (on_repo-Takes _ (lift_git (g.write_blob c)) (Ends-lift_git (g.write_blob c)))
          λ o.
            Takes-bind _ 0 0 (read_expect (bytes ")")) _ (read_expect-ends _ (bytes ")"))
              λ u. Takes-pure _ (o, m)

  parse_regular-Takes : (bound : ℕ) → Takes bound 0 (parse_regular g)
  unfolding parse_regular
  parse_regular-Takes bound =
      Takes-bind bound 0 0 read_utf8_padded _ (read_utf8_padded-ends bound) λ tag.
        Takes-bind _ 0 0 (parse_tag tag) _ (parse_tag-Takes _ tag) λ m. parse_contents-Takes _ m

  parse_symlink-Takes : (bound : ℕ) → Takes bound 0 (parse_symlink g)
  unfolding parse_symlink
  parse_symlink-Takes bound =
      Takes-bind bound 0 0 (read_expect (bytes "target")) _ (read_expect-ends bound _)
        λ u. parse_contents-Takes _ (into FileMode.link)

  parse_entry-Takes :
      (bound : ℕ) (p : Decode Repo (Oid × ℕ)) → Takes bound 0 p → Takes bound 0 (parse_entry g p)
  unfolding parse_entry
  parse_entry-Takes bound p hp =
      Takes-bind bound 0 0 (read_expect (bytes "(")) _ (read_expect-ends bound _) λ u.
        Takes-bind _ 0 0 (read_expect (bytes "name")) _ (read_expect-ends _ _) λ v.
          Takes-bind _ 0 0 read_utf8_padded _ (read_utf8_padded-ends _) λ name.
            Takes-bind _ 0 0 (read_expect (bytes "node")) _ (read_expect-ends _ _) λ w.
              Takes-bind _ 0 0 p _ (Takes-below bound _ 0 p (omega arith) hp) λ x.
                Takes-bind _ 0 0 (read_expect (bytes ")")) _ (read_expect-ends _ _)
                  λ y. Takes-pure _ (x.0, x.1, name)

  parse_entries-Takes :
      (k bound : ℕ) (p : Decode Repo (Oid × ℕ)) (ts : List (Oid × ℕ × Bytes))
      → k ≤ bound
      → Takes bound 0 p
      → Takes k 0 (parse_entries g k p ts)
  unfolding parse_entries
  parse_entries-Takes zero bound p ts le hp = Takes-none 0 (parse_entries g zero p ts)
  parse_entries-Takes (suc k) bound p ts le hp =
      Takes-then (suc k) 8 read_utf8_padded _ (read_utf8_padded-Takes (suc k)) λ field.
        Takes-if _ 0 (bytes_eq field (bytes "entry")) _ _
          (Takes-bind _ 0 0 (parse_entry g p) _
            (Takes-below bound _ 0 (parse_entry g p) (omega arith) (parse_entry-Takes bound p hp))
            λ e.
              Takes-below k _ 0 (parse_entries g k p (ts ++ e ∷ [])) (omega arith)
                (parse_entries-Takes k bound p (ts ++ e ∷ []) (omega arith) hp))
          (Takes-if _ 0 (bytes_eq field (bytes ")")) _ _ (Takes-pure _ ts)
            (Takes-raise _ 0 incorrect_directory_field (cc)))

  parse_type-Takes :
      (f : ℕ) (p : Decode Repo (Oid × ℕ)) (t : Bytes) → Takes f 0 p → Takes f 0 (parse_type g f p t)
  unfolding parse_type parse_directory
  parse_type-Takes f p t hp =
      Takes-if f 0 (bytes_eq t (bytes "regular")) _ _ (parse_regular-Takes f) (
        Takes-if f 0 (bytes_eq t (bytes "symlink")) _ _ (parse_symlink-Takes f) (
          Takes-if f 0 (bytes_eq t (bytes "directory")) _ _
            (Takes-bind f 0 0 (parse_entries g f p []) _
              (parse_entries-Takes f f p [] (omega arith) hp)
              λ ts. on_repo-Takes _ (write_directory g ts) (Ends-write_directory ts))
            (Takes-raise f 0 unrecognized_file_type (cc))))

  recursive_parse-Takes : (f : ℕ) → Takes f 0 (recursive_parse g f)
  unfolding recursive_parse
  recursive_parse-Takes zero = Takes-none 0 (recursive_parse g zero)
  recursive_parse-Takes (suc f) =
      Takes-then (suc f) 8 (read_expect (bytes "(")) _ (read_expect-Takes (suc f) (bytes "(")) λ u.
        Takes-bind _ 0 0 (read_expect (bytes "type")) _ (read_expect-ends _ (bytes "type")) λ v.
          Takes-bind _ 0 0 read_utf8_padded _ (read_utf8_padded-ends _) λ t.
            Takes-below f _ 0 (parse_type g f (recursive_parse g f) t) (omega arith)
              (parse_type-Takes f (recursive_parse g f) t (recursive_parse-Takes f))

  Leaves-ne-out_of_fuel :
      {A : Type 0} {k n : ℕ} {x : Result A × (Bytes × Repo)} → Leaves k n x → x.0 ≢ err out_of_fuel
  Leaves-ne-out_of_fuel (value h) = cc
  Leaves-ne-out_of_fuel (error h) = λ q. h (cc)

  -- On any input, whatever the repository does, the decoder returns or fails by itself: the fuel of
  -- the model, the length of the input, is never used up.
  pub parse-ne-out_of_fuel : (input : Bytes) (r : Repo) → (parse g (input, r)).0 ≢ err out_of_fuel
  unfolding parse
  parse-ne-out_of_fuel input r = Leaves-ne-out_of_fuel (
      Takes-then (suc (length input)) 8 (read_expect nix_version_magic)
        (λ u. recursive_parse g (length input))
        (read_expect-Takes (suc (length input)) nix_version_magic)
        (λ u.
          Takes-below (length input) _ 0 (recursive_parse g (length input)) (omega arith)
            (recursive_parse-Takes (length input)))
        input r (omega arith))
