-- ===== src/Nar/Tests.antt =====
-- The theorems of src/nar at a directory with an executable file, a symbolic link and an empty
-- directory, over the object database in memory.
use gachix.Prelude.{
  ℕ, ◌+◌, ◌<◌, ◌≡◌, ◌≢◌, refl, true, List, [], ◌∷◌, ◌++◌, map, length, ok, err, out_of_fuel, arith,
  All,
}
use gachix.Bytes.{IsByte, bytes}
use gachix.Bytes.Order.{bytes_leb}
use gachix.Bytes.Utf8.{is_utf8}
use gachix.Git.{OwnedTreeEntry, FileMode, into, tree, blob}
use gachix.Git.Laws.{Extends}
use gachix.Git.Memory.{Store, memory, memory_laws}
use gachix.Nar.{nix_version_magic}
use gachix.Nar.Format.{
  Node, regular, symlink, directory, no_entries, entry, strings, archive, written, padded, padding,
}
use gachix.Nar.Sort.{sort_by_name, insert_sorted}
use gachix.Nar.Stored.{mode_of, Holds, HasUtf8Names, depth}
use gachix.Nar.Archivable.{IsArchivable}
use gachix.Nar.Encode.{encode}
use gachix.Nar.Encode.Correct.{encode-eq-archive}
use gachix.Nar.Stream.{new, collect, joined, chunk, poll_next, stalled}
use gachix.Nar.Stream.Steps.{poll_next-ne-stalled}
use gachix.Nar.Stream.Correct.{collect-new, stream-eq-archive, stream-eq-encode}
use gachix.Nar.Decode.{parse}
use gachix.Nar.Decode.RoundTrip.{parse-archive}
use gachix.Nar.Decode.Total.{parse-ne-out_of_fuel}
use gachix.Nar.Decode.Readable.{IsReadable}
use gachix.Nar.Decode.Sound.{parse-IsReadable}
use gachix.Bytes.Utf8.Range.{is_utf8-IsByte}
use gachix.Bytes.LittleEndian.{to_le_bytes}
use gachix.Nar.Identity.{stream-parse}

abbrev sample : Node
sample = directory (
    entry (bytes "bin") (regular true (bytes "run")) (
      entry (bytes "lib") (directory no_entries)
        (entry (bytes "link") (symlink (bytes "bin")) no_entries)))

-- The tree's entries are not in the order of their names.
abbrev listed : List (OwnedTreeEntry ℕ)
listed =
    record { id = 2; filemode = into FileMode.link; name = bytes "link" }
    ∷ record { id = 1; filemode = into FileMode.tree; name = bytes "lib" }
    ∷ record { id = 0; filemode = into FileMode.blob_executable; name = bytes "bin" }
    ∷ []

abbrev objects : Store
objects = blob (bytes "run") ∷ tree [] ∷ blob (bytes "bin") ∷ tree listed ∷ []

sample-IsArchivable : IsArchivable memory_laws.valid_name sample
unfolding IsArchivable bytes is_utf8 bytes_leb
sample-IsArchivable = (
  refl,
  refl,
  omega arith,
  (refl, (refl, tt)),
  omega arith,
  (refl, refl, omega arith, (refl, tt), tt, (refl, refl, omega arith, tt, omega arith, tt)),
)

sample-HasUtf8Names : HasUtf8Names sample
unfolding HasUtf8Names bytes is_utf8
sample-HasUtf8Names = (refl, tt, (refl, tt, (refl, tt, tt)))

objects-Holds : Holds memory objects 3 (into FileMode.tree) sample
unfolding Holds sort_by_name insert_sorted bytes bytes_leb
objects-Holds =
    (refl, _, refl, (refl, (refl, refl), (refl, (refl, [], refl, tt), (refl, (refl, refl), tt))))

few_strings : length (strings sample) + 1 < 50
unfolding strings
few_strings = omega arith

shallow : depth sample < 5
unfolding depth
shallow = omega arith

encode-eq-archive_example :
    encode memory objects 5 (tree listed) (into FileMode.tree) ≡ ok (archive sample)
encode-eq-archive_example =
    encode-eq-archive memory objects sample 3 (into FileMode.tree) 5 (tree listed) objects-Holds
      refl sample-HasUtf8Names shallow

poll_next-ne-stalled_example : (poll_next memory objects (new 7 (into FileMode.tree))).0 ≢ stalled
poll_next-ne-stalled_example = poll_next-ne-stalled memory objects (new 7 (into FileMode.tree))

collect-new_example :
    collect memory objects 50 (new 3 (into FileMode.tree))
    ≡ map chunk (nix_version_magic ∷ strings sample)
collect-new_example =
    collect-new memory_laws objects sample 3 (into FileMode.tree) 50 objects-Holds few_strings

stream-eq-archive_example :
    joined (collect memory objects 50 (new 3 (into FileMode.tree))) ≡ ok (archive sample)
stream-eq-archive_example =
    stream-eq-archive memory_laws objects sample 3 (into FileMode.tree) 50 objects-Holds few_strings

stream-eq-encode_example :
    joined (collect memory objects 50 (new 3 (into FileMode.tree)))
    ≡ encode memory objects 5 (tree listed) (into FileMode.tree)
stream-eq-encode_example =
    stream-eq-encode memory_laws objects sample 3 (into FileMode.tree) 50 5 (tree listed)
      objects-Holds refl sample-HasUtf8Names few_strings shallow

parse-archive_example :
    (o : ℕ) × (s : Store) × (parse memory (archive sample ++ bytes "rest", [])
      ≡ (ok (o, into FileMode.tree), (bytes "rest", s)))
    × Holds memory s o (into FileMode.tree) sample
    × Extends memory [] s
parse-archive_example = parse-archive memory_laws sample (bytes "rest") [] sample-IsArchivable

parse-ne-out_of_fuel_example : (parse memory (bytes "not an archive", [])).0 ≢ err out_of_fuel
parse-ne-out_of_fuel_example = parse-ne-out_of_fuel memory (bytes "not an archive") []

stream-parse_example :
    (o : ℕ) × (s : Store) × (parse memory (archive sample, [])
      ≡ (ok (o, into FileMode.tree), ([], s)))
    × (joined (collect memory s 50 (new o (into FileMode.tree))) ≡ ok (archive sample))
stream-parse_example = stream-parse memory_laws sample [] 50 sample-IsArchivable few_strings

-- A sample with something behind it, all of it text.
abbrev followed : List ℕ
followed = archive sample ++ bytes "rest"

followed-IsByte : All IsByte followed
unfolding archive written padded padding strings to_le_bytes bytes is_utf8
followed-IsByte = is_utf8-IsByte followed refl

parse-IsReadable_example :
    (n : Node) × (followed ≡ archive n ++ bytes "rest")
    × (into FileMode.tree ≡ mode_of n)
    × IsReadable n
parse-IsReadable_example =
    parse-IsReadable memory followed (bytes "rest") []
      (parse-archive memory_laws sample (bytes "rest") [] sample-IsArchivable).1
      (parse-archive memory_laws sample (bytes "rest") [] sample-IsArchivable).0
      (into FileMode.tree) followed-IsByte
      (parse-archive memory_laws sample (bytes "rest") [] sample-IsArchivable).2
