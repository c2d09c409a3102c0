-- ===== src/GitStore/Closure/Tests.antt =====
-- The theorems of `_add_closure` at an empty repository and a daemon that has a script.
use gachix.Prelude.{
  true, ℕ, ◌<◌, ◌^◌, ◌+◌, ◌≡◌, ◌≢◌, refl, ap, continue, Bool-cases, inl, inr, subst, none, some,
  List, [], ◌∷◌, ok, All, Returns, Settles, if◌then◌else◌, not_found, generic, arith,
}
use gachix.Bytes.{Bytes, bytes, bytes_eq, bytes_eq→eq}
use gachix.Bytes.LittleEndian.{to_le_bytes, from_le_bytes}
use gachix.Bytes.Utf8.{is_utf8}
use gachix.Git.{kind_of, done, failed, lift_git, lift_result}
use gachix.GitStore.Closure.{
  add_closure_from, add_step, add_from_daemons, add_fetched, add_dependencies, commit_package,
}
use gachix.GitStore.Closure.Bounded.{add_closure_from-ends}
use gachix.GitStore.Closure.Collected.{Ends}
use gachix.GitStore.Closure.Complete.{IsFetched}
use gachix.GitStore.Closure.Linked.{ResultIs, AllLinked}
use gachix.GitStore.Closure.Local.{
  add_local, add_local-Ends, add_local-IsComplete, add_closure_local-Added, add_local-blocked,
}
use gachix.GitStore.Commit
use gachix.GitStore.Commit.{find_typed, find_commits}
use gachix.GitStore.Daemons.{
  get_package_from_nix_daemons, fetch_package, build_narinfo, signature_of, narinfo_from,
  parse_optional, Daemon, narinfo_of,
}
use gachix.GitStore.Database.{Database, database, database_refs, database_commits, database_store}
use gachix.GitStore.Listing.{
  Glob, add_closure, num_available_packages, list_references, name_of, minus, counted,
}
use gachix.GitStore.Package.{add_package, wrap_single_file}
use gachix.GitStore.Peers.{Remotes, get_package_commit_from_git_remotes, first_remote}
use gachix.GitStore.References.{
  add_ref, get_narinfo_ref, get_package_ref, get_result_ref, get_commit, get_oid_from_reference,
}
use gachix.GitStore.References.Names.{get_result_ref-ne-get_narinfo_ref}
use gachix.GitStore.Repository.{add_nar, add_file_content, add_single_entry_tree}
use gachix.GitStore.Samples.{unary, path, info, full_daemon, plain_hashes}
use gachix.Nar.Decode.{
  parse, read_expect, read_exact, take_exact, all_zero, on_repo, parse_contents, parse_regular,
  parse_tag, parse_type, read_bytes_padded, read_padding, read_taken, read_utf8_padded,
  recursive_parse,
}
use gachix.Nar.Format.{archive, written, padded, padding, strings}
use gachix.GitStore.Closure.Settles.{IsRanked}
use gachix.Nix.StorePath
use gachix.Nix.StorePath.{NixPath}
use gachix.Nix.StorePath.{last_component, unless_parent, file_name, checked, split_stem}
use gachix.Text.{starts_with, drop, split_on, split_once}
use gachix.Text.Trim.{skip_space, skip_space_back, strip, trim_start, trim_end, trim}
use gachix.Nix.NarInfo
use gachix.Nix.NarInfo.{get_dependencies, without_path}

abbrev pub lib_text : Bytes
lib_text = bytes "/nix/store/0c6kzph7l0dcbfmjap64f0czdafn3b7x-lib"

-- What the script's daemon says of a path: the script needs a library, which needs nothing.
abbrev pub references_of : Bytes → List Bytes
references_of hash = if bytes_eq hash path.hash then lib_text ∷ [] else []

abbrev pub lib_daemon : Daemon
lib_daemon = record full_daemon {
  get_pathinfo = λ p. ok (some (record info { references = references_of p.hash }));
}

abbrev bare_daemon : Daemon
bare_daemon = record full_daemon { get_pathinfo = λ p. ok (some (record info { references = [] })) }

-- No remote can be reached.
abbrev pub no_remote : Remotes Database Bytes
no_remote = record {
  find_remote = λ name d. failed not_found;
  remote_with_fetch = λ name url spec d. (failed generic, d);
  fetch_refspecs = λ remote callback specs d. (some (failed generic), d);
  env_var = λ name. none;
  cred_ops = record {
    username = λ user. failed generic;
    ssh_key = λ user public key phrase. failed generic;
  };
}

-- A listing of nothing.
abbrev pub empty_glob : Glob Database
empty_glob = record { references_glob = λ pattern d. done [] }

pub empty-AllLinked : AllLinked database database_refs ([], [])
empty-AllLinked hash o h = cc

abbrev pub after : Database
after =
    (add_local database database_refs database_commits no_remote plain_hashes none unary
      (lib_daemon ∷ []) 5 path ([], [])).1

missing : get_commit database database_refs path.hash ([], []) ≡ none
unfolding get_commit get_oid_from_reference
missing = refl

added :
    add_local database database_refs database_commits no_remote plain_hashes none unary
      (lib_daemon ∷ [])
      5
      path
      ([], [])
    ≡ (ok (some 7), after)
unfolding add_closure_from add_step add_from_daemons add_fetched add_dependencies commit_package
    Commit.commit find_typed find_commits get_package_commit_from_git_remotes first_remote
    get_commit get_oid_from_reference get_result_ref add_ref get_narinfo_ref get_package_ref
    get_dependencies without_path narinfo_of NarInfo.new get_package_from_nix_daemons fetch_package
    build_narinfo signature_of narinfo_from parse_optional add_package wrap_single_file add_nar
    add_file_content add_single_entry_tree parse read_expect read_exact take_exact all_zero on_repo
    parse_contents parse_regular parse_tag parse_type read_bytes_padded read_padding read_taken
    read_utf8_padded recursive_parse archive written padded padding strings to_le_bytes
    from_le_bytes is_utf8 bytes_eq bytes lift_git lift_result kind_of StorePath.new last_component
    unless_parent file_name checked split_stem split_on split_once starts_with drop skip_space
    skip_space_back strip trim_start trim_end trim StorePath.eq
added = refl

add_local-Ends_example :
    Ends database database_refs path
      ([], [])
      (add_local database database_refs database_commits no_remote plain_hashes none unary
        (lib_daemon ∷ [])
        5
        path
        ([], []))
add_local-Ends_example =
    add_local-Ends database_store no_remote plain_hashes none unary (lib_daemon ∷ []) 5 path
      ([], []) empty-AllLinked

add_local-IsComplete_example :
    IsFetched database database_refs plain_hashes none unary (lib_daemon ∷ []) path 7 ([], []) after
add_local-IsComplete_example =
    add_local-IsComplete database_store no_remote plain_hashes none unary (lib_daemon ∷ []) 4 path 7
      ([], []) after empty-AllLinked missing added

bare_daemon-IsRanked : (rank : NixPath → ℕ) → IsRanked plain_hashes none rank bare_daemon
unfolding build_narinfo signature_of narinfo_from parse_optional narinfo_of NarInfo.new
    get_dependencies without_path
bare_daemon-IsRanked rank key p n h =
    subst (Returns (λ n. All (λ dep. rank dep < rank p) (get_dependencies n))) h tt

add_closure_from-ends_example : Settles (
    add_closure_from database database_refs database_commits plain_hashes none unary
      (get_package_commit_from_git_remotes database database_refs no_remote
        (256 ^ 32 + 1)
        (bytes "ssh://a" ∷ []))
      (bare_daemon ∷ [])
      1
      path
      ([], []))
add_closure_from-ends_example =
    add_closure_from-ends database database_refs database_commits no_remote plain_hashes none unary
      (bare_daemon ∷ []) (λ p. 0) (bare_daemon-IsRanked (λ p. 0), tt) 1 (256 ^ 32 + 1)
      (bytes "ssh://a" ∷ []) path ([], []) (omega arith) (omega arith)

-- The narinfo is there already.
abbrev taken : Database
taken = ([], (get_narinfo_ref path.hash, 0) ∷ [])

taken-AllLinked : AllLinked database database_refs taken
taken-AllLinked hash o h =
    elim (Bool-cases (bytes_eq (get_result_ref hash) (get_narinfo_ref path.hash))) [
      | inl same ↦ absurd (
          get_result_ref-ne-get_narinfo_ref hash path.hash
            (bytes_eq→eq (get_result_ref hash) (get_narinfo_ref path.hash) same))
      | inr other ↦ cc (rw (other) at h)
    ]

not_taken : get_commit database database_refs path.hash taken ≡ none
unfolding get_commit get_oid_from_reference get_result_ref get_narinfo_ref get_package_ref bytes
    bytes_eq
not_taken = refl

there : database_refs.find_reference (get_narinfo_ref path.hash) taken ≡ done (some 0)
unfolding get_narinfo_ref get_package_ref bytes bytes_eq
there = refl

add_local-blocked_example :
    add_local database database_refs database_commits no_remote plain_hashes none unary
      (lib_daemon ∷ [])
      5
      path
      taken
    ≢ (ok (some 7), after)
add_local-blocked_example =
    add_local-blocked database_store no_remote plain_hashes none unary (lib_daemon ∷ []) 5 path 0 7
      taken after taken-AllLinked there not_taken

pub add_closure-done :
    add_closure empty_glob true
      (add_local database database_refs database_commits no_remote plain_hashes none unary
        (lib_daemon ∷ [])
        5)
      path
      ([], [])
    ≡ (ok tt, after)
unfolding add_closure num_available_packages list_references name_of minus lift_result
add_closure-done = ap (λ x. continue x (counted empty_glob true 0)) added

add_closure_local-Added_example :
    (o : ℕ) × ResultIs database database_refs after path.hash o
    × AllLinked database database_refs after
add_closure_local-Added_example =
    add_closure_local-Added database_store no_remote plain_hashes none unary (lib_daemon ∷ [])
      empty_glob true 5 path ([], []) after empty-AllLinked add_closure-done
