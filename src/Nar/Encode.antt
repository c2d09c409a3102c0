-- ===== src/Nar/Encode.antt =====
-- src/nar/encode.rs: the recursive encoder `NarGitEncoder`, into a buffer. Writing to a `Vec<u8>`
-- does not fail. A Rust panic (`unwrap`, `expect`) is the error `panic`.
pub mod Correct
use gachix.Prelude.{
  ℕ, zero, suc, ◌-◌, ◌%◌, ◌<◌, Bool, true, false, ◌||◌, List, [], ◌∷◌, ◌++◌, none, length,
  replicate, Result, ok, err, panic, out_of_fuel, unrecognized_file_type, unsupported_filemode,
  Exec, pure, raise, ◌>>=◌, ◌>>◌, ltb, ◌==◌, if◌then◌else◌,
}
use gachix.Bytes.{Bytes, bytes}
use gachix.Bytes.LittleEndian.{to_le_bytes}
use gachix.Bytes.Utf8.{is_utf8}
use gachix.Git.{Git, Object, OwnedTreeEntry, FileMode, into, tree, blob, done, failed}
use gachix.Nar.{nix_version_magic, pad_len}
use gachix.Nar.Sort.{sort_by_name}

-- The writer is the buffer that it has filled.
abbrev pub Write : Type 0 → Type 0
Write A = Exec Bytes A

-- `Write::write_all` on a `Vec<u8>`
abbrev pub write_all : Bytes → Write (Unit {0})
write_all bs buffer = (ok tt, buffer ++ bs)

unfoldable pub write_padded : Bytes → Write (Unit {0})
write_padded bs =
    let remainder = length bs % pad_len in
    do
      write_all (to_le_bytes (length bs))
      write_all bs
      if ltb 0 remainder then write_all (replicate (pad_len - remainder) 0) else pure tt

module _ {Oid : Type 0} where
  -- `x.name().unwrap()` in the comparison panics on a name that is not UTF-8. Sorting looks at every
  -- name, unless there is at most one.
  unfoldable pub names_are_utf8 : List (OwnedTreeEntry Oid) → Bool
  names_are_utf8 [] = true
  names_are_utf8 (e ∷ es) = let rest = names_are_utf8 es in if is_utf8 e.name then rest else false

  unfoldable pub sort_entries : List (OwnedTreeEntry Oid) → Write (List (OwnedTreeEntry Oid))
  sort_entries es =
      if ltb (length es) 2 || names_are_utf8 es then pure (sort_by_name es) else raise panic

unfoldable pub encode_blob : Bytes → ℕ → Write (Unit {0})
encode_blob content filemode =
    if filemode == into FileMode.blob_executable
    then (do
      write_padded (bytes "regular")
      write_padded (bytes "executable")
      write_padded (bytes "")
      write_padded (bytes "contents")
      write_padded content)
    else if filemode == into FileMode.blob
    then (do write_padded (bytes "regular"); write_padded (bytes "contents"); write_padded content)
    else if filemode == into FileMode.link
    then (do write_padded (bytes "symlink"); write_padded (bytes "target"); write_padded content)
    else raise (unsupported_filemode filemode)

-- The buffer, if the encoder did not fail.
unfoldable pub finished : Result (Unit {0}) × Bytes → Result Bytes
finished (ok u, buffer) = ok buffer
finished (err e, buffer) = err e

module _ {Repo Oid Builder : Type 0} (g : Git Repo Oid Builder) (repo : Repo) where
  -- `entry.to_object(repo).expect(…)`
  unfoldable pub to_object : OwnedTreeEntry Oid → Write (Object Oid)
  to_object e = elim (g.find_object e.id none repo) [ done x ↦ pure x | failed c ↦ raise panic ]

  -- The loop over the entries, with the recursive call as `encode`.
  unfoldable pub encode_entries :
      (Object Oid → ℕ → Write (Unit {0})) → List (OwnedTreeEntry Oid) → Write (Unit {0})
  encode_entries encode [] = pure tt
  encode_entries encode (e ∷ es) = do
    x ← to_object e
    write_padded (bytes "entry")
    write_padded (bytes "(")
    write_padded (bytes "name")
    if is_utf8 e.name then write_padded e.name else raise panic
    write_padded (bytes "node")
    encode x e.filemode
    write_padded (bytes ")")
    encode_entries encode es

  -- The branches on the kind of the object.
  unfoldable pub encode_contents :
      (Object Oid → ℕ → Write (Unit {0})) → Object Oid → ℕ → Write (Unit {0})
  encode_contents encode (tree es) filemode = do
    write_padded (bytes "directory")
    entries ← sort_entries es
    encode_entries encode entries
  encode_contents encode (blob content) filemode = encode_blob content filemode
  encode_contents encode _ filemode = raise unrecognized_file_type

  -- `_encode_into`. Git objects do not contain themselves, so the recursion ends; the fuel bounds its
  -- depth.
  unfoldable pub encode_object : ℕ → Object Oid → ℕ → Write (Unit {0})
  encode_object zero x filemode = raise out_of_fuel
  encode_object (suc fuel) x filemode = do
    write_padded (bytes "(")
    write_padded (bytes "type")
    encode_contents (encode_object fuel) x filemode
    write_padded (bytes ")")

  unfoldable pub encode_into : ℕ → Object Oid → ℕ → Write (Unit {0})
  encode_into fuel root filemode = do
    write_padded nix_version_magic
    encode_object fuel root filemode

  unfoldable pub encode : ℕ → Object Oid → ℕ → Result Bytes
  encode fuel root filemode = finished (encode_into fuel root filemode [])
