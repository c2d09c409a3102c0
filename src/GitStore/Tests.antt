-- ===== src/GitStore/Tests.antt =====
-- The theorems of src/git_store at an executable file, over the object database in memory.
use gachix.Prelude.{ℕ, ◌+◌, ◌<◌, ◌≡◌, refl, false, none, some, [], ◌∷◌, ok, length, arith}
use gachix.Bytes.{bytes, bytes_eq}
use gachix.Bytes.Utf8.{is_utf8}
use gachix.Text.{starts_with, drop, split_on, split_once}
use gachix.Text.Trim.{skip_space, skip_space_back, strip, trim_start, trim_end, trim}
use gachix.Nix.StorePath
use gachix.Nix.StorePath.{NixPath, last_component, unless_parent, file_name, checked, split_stem}
use gachix.Nix.NarInfo
use gachix.Nix.NarInfo.{NarInfo}
use gachix.GitStore.Repository.{get_blob}
use gachix.GitStore.Daemons.{parse_optional, get_package_from_nix_daemons}
use gachix.GitStore.Daemons.Fetched.{Reads, fetched-served}
use gachix.Git.{FileMode, into}
use gachix.Git.Laws.{Extends}
use gachix.GitStore.Directory.{Files, no_files, named, link, file, dir, create_tree_from_dir}
use gachix.GitStore.Directory.Held.{AreStorable, HoldsFile}
use gachix.GitStore.Directory.Stored.{create_tree_from_dir-HoldsFile}
use gachix.Git.Memory.{Store, memory, memory_laws}
use gachix.GitStore.Package.{add_package, get_as_nar_stream}
use gachix.GitStore.Package.Served.{package-served}
use gachix.Nar.Format.{regular, strings, archive}
use gachix.Nar.Archivable.{IsArchivable}
use gachix.Nar.Stream.{NarGitStream, collect, joined}
use gachix.GitStore.Samples.{unary, script, path, info, empty_daemon, full_daemon, plain_hashes}

script-IsArchivable : IsArchivable memory_laws.valid_name script
unfolding IsArchivable bytes
script-IsArchivable = omega arith

few_strings : length (strings script) + 1 < 50
unfolding strings
few_strings = omega arith

-- The executable file comes back as one that is not executable.
package-served_example :
    (o : ℕ) × (s : Store) × (stream : NarGitStream ℕ) × (add_package memory (archive script) []
      ≡ (ok o, s))
    × (get_as_nar_stream memory unary (unary.to_string o) s ≡ ok (some stream))
    × (joined (collect memory s 50 stream) ≡ ok (archive (regular false (bytes "run"))))
package-served_example =
    package-served memory_laws unary script [] 50 script-IsArchivable tt refl few_strings

info-Reads : Reads plain_hashes none info (path ∷ []) (bytes "00ff") none
unfolding parse_optional StorePath.new last_component unless_parent file_name checked split_stem
    bytes bytes_eq is_utf8 starts_with drop split_on split_once skip_space skip_space_back strip
    trim_start trim_end trim
info-Reads = (refl, refl, refl)

fetched-served_example :
    (narinfo : NarInfo) × (b o : ℕ) × (s : Store) × (stream : NarGitStream ℕ)
    × (get_package_from_nix_daemons plain_hashes none memory unary
          (empty_daemon ∷ full_daemon ∷ [])
          path
          []
        ≡ (ok (some (narinfo, b, o)), s))
    × (narinfo.store_path ≡ path)
    × (narinfo.references ≡ path ∷ [])
    × (get_blob memory b s ≡ ok (NarInfo.to_string narinfo))
    × (get_as_nar_stream memory unary narinfo.key s ≡ ok (some stream))
    × (joined (collect memory s 50 stream) ≡ ok (archive (regular false (bytes "run"))))
fetched-served_example =
    fetched-served plain_hashes none memory_laws unary (empty_daemon ∷ []) [] full_daemon path info
      (path ∷ []) (bytes "00ff") none script [] 50 ((refl, refl), tt) (refl, refl, refl, refl)
      info-Reads tt script-IsArchivable tt refl few_strings

-- An executable file before a directory that sorts first, with a link to it.
abbrev files : Files
files =
    named (b'b' ∷ []) (file 0o755 (bytes "run"))
      (named (b'a' ∷ []) (dir (named (b'l' ∷ []) (link (bytes "../b")) no_files)) no_files)

files-AreStorable : AreStorable memory_laws.valid_name files
unfolding AreStorable is_utf8
files-AreStorable =
    (refl, refl, ((λ e. ground arith), tt), tt, (refl, refl, tt, (refl, refl, tt, tt, tt), tt))

create_tree_from_dir-HoldsFile_example :
    (o : ℕ) × (s : Store) × (create_tree_from_dir memory files [] ≡ (ok o, s))
    × HoldsFile memory s o (into FileMode.tree) (dir files)
    × Extends memory [] s
create_tree_from_dir-HoldsFile_example =
    create_tree_from_dir-HoldsFile memory_laws files [] files-AreStorable
