-- ===== src/HttpServer/Tests.antt =====
-- The theorem of src/http_server at an empty repository and a daemon that has a script.
use gachix.Prelude.{◌≡◌, refl, false, none, some, [], ◌∷◌, ok}
use gachix.Git.Memory.{Store, memory, memory_laws}
use gachix.GitStore.Samples.{unary, path, info, full_daemon, plain_hashes}
use gachix.GitStore.References.{
  reference_exists, is_found, add_new, only_some, add_ref, get_narinfo_ref, get_package_ref,
  add_single,
}
use gachix.GitStore.Daemons.{
  get_package_from_nix_daemons, fetch_package, build_narinfo, signature_of, narinfo_from,
  parse_optional, Daemon,
}
use gachix.GitStore.Package.{add_package, wrap_single_file}
use gachix.GitStore.Repository.{add_nar, add_file_content, add_single_entry_tree}
use gachix.Nar.Decode.{
  parse, read_expect, read_exact, take_exact, all_zero, on_repo, parse_contents, parse_regular,
  parse_tag, parse_type, read_bytes_padded, read_padding, read_taken, read_utf8_padded,
  recursive_parse,
}
use gachix.Nar.Format.{archive, written, padded, padding, strings}
use gachix.Bytes.LittleEndian.{to_le_bytes, from_le_bytes}
use gachix.Bytes.Utf8.{is_utf8}
use gachix.Bytes.{bytes_eq, bytes}
use gachix.Git.{lift_git, lift_result}
use gachix.GitStore.References.Memory.{memory_refs, memory_ref_laws}
use gachix.HttpServer.{body, get_narinfo}
use gachix.HttpServer.Added.{add_single-get_narinfo}
use gachix.Nix.NarInfo
use gachix.Nix.NarInfo.{NarInfo}

abbrev bare_daemon : Daemon
bare_daemon = record full_daemon { get_pathinfo = λ p. ok (some (record info { references = [] })) }

-- The repository after the script was added.
abbrev after : Store
after = (add_single memory memory_refs plain_hashes none unary (bare_daemon ∷ []) path []).1

missing : reference_exists memory memory_refs (get_narinfo_ref path.hash) [] ≡ ok false
unfolding reference_exists is_found
missing = refl

add_single-done :
    add_single memory memory_refs plain_hashes none unary (bare_daemon ∷ []) path []
    ≡ (ok tt, after)
unfolding reference_exists is_found add_new only_some add_ref get_narinfo_ref get_package_ref
    add_single get_package_from_nix_daemons fetch_package build_narinfo signature_of narinfo_from
    parse_optional add_package wrap_single_file add_nar add_file_content add_single_entry_tree parse
    read_expect read_exact take_exact all_zero on_repo parse_contents parse_regular parse_tag
    parse_type read_bytes_padded read_padding read_taken read_utf8_padded recursive_parse archive
    written padded padding strings to_le_bytes from_le_bytes is_utf8 bytes_eq bytes lift_git
    lift_result
add_single-done = refl

add_single-get_narinfo_example :
    (n : NarInfo) × (n.store_path ≡ path)
    × (get_narinfo memory memory_refs path.hash after ≡ body (NarInfo.to_string n))
add_single-get_narinfo_example =
    add_single-get_narinfo memory_laws memory_refs memory_ref_laws plain_hashes none unary
      (bare_daemon ∷ []) path [] after missing add_single-done
