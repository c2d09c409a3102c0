-- ===== src/CommandLine/Tests.antt =====
-- The program that adds a script and the library that it needs to an empty repository.
use gachix.Prelude.{ℕ, continue, subst, Result, ◌≡◌, ap, none, [], ◌∷◌, true, false, ok, pure}
use gachix.Bytes.{Bytes, bytes, bytes_eq}
use gachix.Bytes.Utf8.{is_utf8}
use gachix.CommandLine.{Settings, add, Operations, run_async, run_add, run_command, unwrap_or, main}
use gachix.CommandLine.Added.{ok-injective, local_ops, main-Added}
use gachix.Git.{lift_git, lift_result}
use gachix.GitStore.Closure.Linked.{ResultIs, AllLinked}
use gachix.GitStore.Closure.Tests.{
  empty_glob, after, no_remote, lib_daemon, empty-AllLinked, add_closure-done,
}
use gachix.GitStore.Database.{Database, database, database_refs, database_commits, database_store}
use gachix.GitStore.Listing.{num_available_packages, list_references, name_of}
use gachix.GitStore.Opening
use gachix.GitStore.Opening.{
  Store, info, unwrap, changed, set_protocol, new_repo, read_key, with_repo, new,
}
use gachix.GitStore.Opening.Tests.{git_open, files}
use gachix.GitStore.Samples.{unary, path_text, plain_hashes}
use gachix.Nix.StorePath
use gachix.Nix.StorePath.{NixPath, last_component, unless_parent, file_name, checked, split_stem}
use gachix.Text.{starts_with, drop, split_on, split_once}
use gachix.Text.Trim.{skip_space, skip_space_back, strip, trim_start, trim_end, trim}

abbrev settings : Settings Bytes Bytes
settings = record {
  store = record {
    path = bytes "cache";
    builders = [];
    remotes = [];
    use_local_nix_daemon = true;
    sign_private_key_path = none;
    ssh_private_key_path = none;
  };
  server = record { port = 8080; host = bytes "localhost" };
  log_level = bytes "info";
}

-- Nothing is done but adding closures.
abbrev ops : Operations Bytes Bytes Database
ops = record {
  new_runtime = ok tt;
  peer_health_check = λ store. ok true;
  add_single = λ store path repo. (ok tt, repo);
  add_closure = λ store path repo. (ok tt, repo);
  start_server = λ host port store repo. (ok tt, repo);
}

abbrev empty : Database
empty = ([], [])

opened-AllLinked :
    (loaded : Settings Bytes Bytes) (store : Store Bytes Bytes Database)
    → ◌≡◌ {A = Result (Settings Bytes Bytes)} (ok settings) (ok loaded)
    → Opening.new files (λ s. ok s) (git_open empty) empty_glob true loaded.store ≡ ok store
    → AllLinked database database_refs store.repo
unfolding new with_repo new_repo read_key info unwrap set_protocol changed lift_git lift_result
    num_available_packages list_references name_of
opened-AllLinked loaded store is_loaded h =
    subst
      (λ c.
        Opening.new files (λ s. ok s) (git_open empty) empty_glob true c.store ≡ ok store
        → AllLinked database database_refs store.repo)
      (ok-injective settings loaded is_loaded)
      (λ opened.
        subst (λ st. AllLinked database database_refs st.repo) (ok-injective _ store opened)
          empty-AllLinked)
      h

main-done :
    main files
      (λ s. ok s)
      (git_open empty)
      empty_glob
      (λ file. ok settings)
      (λ level. true)
      (local_ops database database_refs database_commits no_remote plain_hashes unary
        (λ store. lib_daemon ∷ [])
        5
        empty_glob
        true
        ops)
      (record { config = none; cmd = add (record { file_path = path_text; single = false }) })
    ≡ ok (ok [], after)
unfolding main run_command run_add run_async unwrap_or new with_repo new_repo read_key info unwrap
    set_protocol changed lift_git lift_result num_available_packages list_references name_of
    StorePath.new last_component unless_parent file_name checked split_stem split_on split_once
    starts_with drop bytes bytes_eq is_utf8 skip_space skip_space_back strip trim_start trim_end
    trim
main-done = ap (λ x. ok (continue x (λ u. pure []))) add_closure-done

main-Added_example :
    (found : NixPath) × (StorePath.new path_text ≡ ok found)
    × (o : ℕ) × ResultIs database database_refs after found.hash o
    × AllLinked database database_refs after
main-Added_example =
    main-Added database_store no_remote plain_hashes unary (λ store. lib_daemon ∷ []) 5 files
      (λ s. ok s) (git_open empty) empty_glob true (λ file. ok settings) (λ level. true) ops none
      path_text [] after opened-AllLinked main-done
