-- ===== src/Nar/Decode.antt =====
-- src/nar/decode.rs: `NarGitDecoder`, which reads an archive and stores its files in the object
-- database while it reads. The state is the input not read yet, and the repository.
pub mod Tags
pub mod Read
pub mod Insert
pub mod File
pub mod RoundTrip
pub mod Takes
pub mod Total
pub mod Frame
pub mod Reads
pub mod Readable
pub mod Contents
pub mod Sound
use gachix.Prelude.{
  ℕ, zero, suc, ◌-◌, ◌%◌, ◌^◌, Bool, true, false, ◌&&◌, not, Option, none, some, List, [], ◌∷◌,
  ◌++◌, length, Result, ok, err, unexpected_eof, bad_padding, capacity_overflow, invalid_utf8,
  wrong_length, wrong_tag, expected_contents, incorrect_directory_field, unrecognized_file_type,
  out_of_fuel, Exec, pure, raise, run, ◌>>=◌, ◌>>◌, ltb, leb, ◌==◌, if◌then◌else◌,
}
use gachix.Bytes.{Bytes, bytes, bytes_eq}
use gachix.Bytes.LittleEndian.{from_le_bytes}
use gachix.Bytes.Utf8.{is_utf8}
use gachix.Git.{Git, GitExec, FileMode, into, lift_git}
use gachix.Nar.{nix_version_magic, pad_len}

abbrev pub cons_taken : ℕ → Option (Bytes × Bytes) → Option (Bytes × Bytes)
cons_taken b none = none
cons_taken b (some (bs, rest)) = some (b ∷ bs, rest)

-- The first bytes of the input and the rest, if there are enough.
unfoldable pub take_exact : ℕ → Bytes → Option (Bytes × Bytes)
take_exact zero input = some ([], input)
take_exact (suc n) [] = none
take_exact (suc n) (b ∷ input) = cons_taken b (take_exact n input)

unfoldable pub all_zero : Bytes → Bool
all_zero [] = true
all_zero (b ∷ bs) = (b == 0) && all_zero bs

abbrev pub Decode : Type 0 → Type 0 → Type 0
Decode Repo A = Exec (Bytes × Repo) A

module _ {Repo : Type 0} where
  -- What `read_exact` leaves of the input, and its result: at the end of the input the rest is lost.
  unfoldable pub read_taken : Option (Bytes × Bytes) → Repo → Result Bytes × (Bytes × Repo)
  read_taken none repo = (err unexpected_eof, ([], repo))
  read_taken (some (bs, rest)) repo = (ok bs, (rest, repo))

  -- `reader.read_exact(&mut buffer)`
  unfoldable pub read_exact : ℕ → Decode Repo Bytes
  unfolding read_taken
  read_exact n (input, repo) = read_taken (take_exact n input) repo

  -- The end of both readers below: the zeros that fill up a string of this length.
  unfoldable pub read_padding : ℕ → Decode Repo (Unit {0})
  read_padding len =
      let remainder = len % pad_len in
      if ltb 0 remainder
      then (do
        padding ← read_exact (pad_len - remainder)
        if all_zero padding then pure tt else raise bad_padding)
      else pure tt

  unfoldable pub read_expect : Bytes → Decode Repo (Unit {0})
  read_expect expected = do
    len_buffer ← read_exact pad_len
    let actual_len = from_le_bytes len_buffer
    if not (length expected == actual_len) then raise (wrong_length expected actual_len) else do
      data_buffer ← read_exact actual_len
      if not (bytes_eq expected data_buffer)
          then raise (wrong_tag expected)
          else read_padding (length data_buffer)

  -- `vec![0u8; len]` panics on a length above `isize::MAX`.
  unfoldable pub read_bytes_padded : Decode Repo Bytes
  read_bytes_padded = do
    len_buffer ← read_exact pad_len
    let len = from_le_bytes len_buffer
    if leb (2 ^ 63) len
        then raise capacity_overflow
        else do data_buffer ← read_exact len; read_padding (length data_buffer); pure data_buffer

  unfoldable pub read_utf8_padded : Decode Repo Bytes
  read_utf8_padded = do bs ← read_bytes_padded; if is_utf8 bs then pure bs else raise invalid_utf8

  -- The repository's operations, among those on the input.
  unfoldable pub on_repo : {A : Type 0} → Exec Repo A → Decode Repo A
  on_repo m (input, repo) = let (a, repo') = m repo in (a, (input, repo'))

  -- The match on the tag of a regular file, which sets its file mode.
  unfoldable pub parse_tag : Bytes → Decode Repo ℕ
  parse_tag tag =
      if bytes_eq tag (bytes "executable")
      then (do
        read_expect (bytes "")
        read_expect (bytes "contents")
        pure (into FileMode.blob_executable))
      else if bytes_eq tag (bytes "contents")
      then pure (into FileMode.blob)
      else raise (expected_contents tag)

module _ {Repo Oid Builder : Type 0} (g : Git Repo Oid Builder) where
  -- An element of `directory_entries`.
  abbrev pub DirectoryEntry : Type 0
  DirectoryEntry = Oid × ℕ × Bytes

  -- `for (oid, filemode, name) in directory_entries { tree_builder.insert(name, oid, filemode)?; }`
  unfoldable pub insert_all : List DirectoryEntry → Builder → Exec Repo Builder
  insert_all [] b = pure b
  insert_all ((oid, filemode, name) ∷ rest) b = do
    b' ← lift_git (g.insert name oid filemode b)
    insert_all rest b'

  unfoldable pub write_directory : List DirectoryEntry → Exec Repo (Oid × ℕ)
  write_directory entries = do
    b ← lift_git g.treebuilder
    b' ← insert_all entries b
    oid ← lift_git (g.write_tree b')
    pure (oid, into FileMode.tree)

  -- The end of a regular file and of a symbolic link: the contents, stored as a blob, and the bracket.
  unfoldable pub parse_contents : ℕ → Decode Repo (Oid × ℕ)
  parse_contents filemode = do
    contents ← read_bytes_padded
    oid ← on_repo (lift_git (g.write_blob contents))
    read_expect (bytes ")")
    pure (oid, filemode)

  unfoldable pub parse_regular : Decode Repo (Oid × ℕ)
  parse_regular = do tag ← read_utf8_padded; filemode ← parse_tag tag; parse_contents filemode

  unfoldable pub parse_symlink : Decode Repo (Oid × ℕ)
  parse_symlink = do read_expect (bytes "target"); parse_contents (into FileMode.link)

  -- One turn of the loop over the entries, after its field is read: an entry, with `parse` as the
  -- recursive call, then the turns after it; or the end.
  unfoldable pub parse_entry : Decode Repo (Oid × ℕ) → Decode Repo DirectoryEntry
  parse_entry parse = do
    read_expect (bytes "(")
    read_expect (bytes "name")
    name ← read_utf8_padded
    read_expect (bytes "node")
    (oid, filemode) ← parse
    read_expect (bytes ")")
    pure (oid, filemode, name)

  unfoldable pub parse_entries :
      ℕ → Decode Repo (Oid × ℕ) → List DirectoryEntry → Decode Repo (List DirectoryEntry)
  parse_entries zero parse entries = raise out_of_fuel
  parse_entries (suc fuel) parse entries = do
    field ← read_utf8_padded
    if bytes_eq field (bytes "entry")
        then (do e ← parse_entry parse; parse_entries fuel parse (entries ++ e ∷ []))
        else if bytes_eq field (bytes ")")
        then pure entries
        else raise incorrect_directory_field

  unfoldable pub parse_directory : ℕ → Decode Repo (Oid × ℕ) → Decode Repo (Oid × ℕ)
  parse_directory fuel parse = do
    entries ← parse_entries fuel parse []
    on_repo (write_directory entries)

  -- The match on the file type.
  unfoldable pub parse_type : ℕ → Decode Repo (Oid × ℕ) → Bytes → Decode Repo (Oid × ℕ)
  parse_type fuel parse file_type =
      if bytes_eq file_type (bytes "regular")
      then parse_regular
      else if bytes_eq file_type (bytes "symlink")
      then parse_symlink
      else if bytes_eq file_type (bytes "directory")
      then parse_directory fuel parse
      else raise unrecognized_file_type

  unfoldable pub recursive_parse : ℕ → Decode Repo (Oid × ℕ)
  recursive_parse zero = raise out_of_fuel
  recursive_parse (suc fuel) = do
    read_expect (bytes "(")
    read_expect (bytes "type")
    file_type ← read_utf8_padded
    parse_type fuel (recursive_parse fuel) file_type

  -- Each call and each turn of the loop reads a string, so the length of the input bounds them.
  unfoldable pub parse : Decode Repo (Oid × ℕ)
  parse (input, repo) =
      run (input, repo) do read_expect nix_version_magic; recursive_parse (length input)
