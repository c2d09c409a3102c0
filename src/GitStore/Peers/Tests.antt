-- ===== src/GitStore/Peers/Tests.antt =====
-- The theorems of git peers at an empty repository and a peer that has one package.
use gachix.Prelude.{
  map, ℕ, ◌^◌, ◌+◌, ◌≡◌, refl, true, some, List, [], ◌∷◌, ◌++◌, ok, Settles, arith, length,
}
use gachix.Bytes.{Bytes, bytes, bytes_eq}
use gachix.Bytes.Utf8.{is_utf8, lead}
use gachix.Bytes.Utf8.Lossy.{from_utf8_lossy}
use gachix.Git.{blob, done, lift_git, lift_result, kind_of}
use gachix.Git.Laws.{Has}
use gachix.Git.Memory.{memory-Extends}
use gachix.GitStore.References.Added.{get_blob-Has}
use gachix.GitStore.Database.{Database, database, database_laws, database_refs, database_store}
use gachix.GitStore.Laws.{grows}
use gachix.GitStore.Peers.{
  Remotes, or_panic, contains, peer_remote, fetch, fetch_from_remote, get_dep_ids, first_remote,
  both_exist, fetch_missing, visit, walk, get_package_commit_from_git_remotes,
}
use gachix.GitStore.Peers.Dependencies.{get_dep_ids-references}
use gachix.GitStore.Peers.Kept.{keeps_others, RemoteLaws, IsLooked}
use gachix.GitStore.Peers.Closed.{get_package_commit_from_git_remotes-IsCovered}
use gachix.GitStore.Opening.{unwrap}
use gachix.GitStore.Health.Remote.{credentials}
use gachix.GitStore.Peers.Walk.{get_package_commit_from_git_remotes-Settles}
use gachix.GitStore.References.{
  get_narinfo_ref, get_result_ref, get_package_ref, get_commit, get_oid_from_reference, get_narinfo,
}
use gachix.GitStore.Repository.{get_blob}
use gachix.Nix.NarInfo
use gachix.Nix.Tests.{parsed, parsed-IsSigned}
use gachix.Nix.StorePath.BaseName.{based}
use gachix.Nix.NarInfo.{
  lookup, get, key_of_url, parse_line, parse_lines, parse_deriver, parse_references, parse_table,
  parse, get_dependencies, without_path,
}
use gachix.Nix.StorePath
use gachix.Nix.StorePath.{NixPath, last_component, unless_parent, file_name, checked, split_stem}
use gachix.Text.{
  starts_with, drop, split_on, split_once, split_str, get_last, lines, line_pieces, chomp,
}
use gachix.Text.Lines.{Lacks}
use gachix.Text.Decimal.{parse_u64, read_unsigned, read_digits, in_range}
use gachix.Text.Trim.{skip_space, skip_space_back, strip, trim_start, trim_end, trim}

abbrev hash : Bytes
hash = bytes "iylhaki6573cpsvspivjfsim700n46r3"

abbrev kitty : NixPath
kitty = record {
  path = bytes "/nix/store/iylhaki6573cpsvspivjfsim700n46r3-kitty";
  hash = hash;
  name = bytes "kitty";
}

abbrev narinfo_text : Bytes
narinfo_text =
    bytes
      "StorePath: /nix/store/iylhaki6573cpsvspivjfsim700n46r3-kitty\nURL: nar/0l\nCompression: none\nFileHash: sha256:0\nFileSize: 1\nNarHash: sha256:0\nNarSize: 1\nReferences: \nDeriver: \nSig: a:b\n"

abbrev set : Bytes → ℕ → Database → Database
set name o d = (database_refs.reference name o d).1

-- The peer sends the narinfo, under both references of the package.
abbrev sent : Database → Database
sent d =
    set (get_result_ref hash) (length d.0)
      (set (get_narinfo_ref hash) (length d.0) (d.0 ++ blob narinfo_text ∷ [], d.1))

abbrev peer : Remotes Database Bytes
peer = record {
  find_remote = λ name d. done (bytes "ssh://first");
  remote_with_fetch = λ name url spec d. (done url, d);
  fetch_refspecs = λ remote callback specs d. (some (done 1), sent d);
  env_var = λ name. some name;
  cred_ops = record { username = λ user. done user; ssh_key = λ user public key phrase. done key };
}

blob_there :
    (r : Database) (o : ℕ) (c : Bytes) → get_blob database o r ≡ ok c → Has database r o (blob c)
unfolding get_blob kind_of
blob_there r o c h = ground arith

grows-keeps :
    (r s : Database)
    → (grows database database_refs).rel r s
    → (id : Bytes) → (keeps_others database database_refs peer id).rel r s
grows-keeps r s up id name o c other named content = (
  up.1 name o named,
  get_blob-Has database_laws database_refs o c s (up.0 o (blob c) (blob_there r o c content)),
)

sent-grows : (d : Database) → (grows database database_refs).rel d (sent d)
sent-grows d =
    let up = grows database database_refs in
    let d1 : Database = (d.0 ++ blob narinfo_text ∷ [], d.1) in
    let d2 = set (get_narinfo_ref hash) (length d.0) d1 in
    up.rel_trans d d1 (sent d) (memory-Extends d.0 (blob narinfo_text), λ name o h. h)
      (up.rel_trans d1 d2 (sent d)
        (database_store.reference_grows (get_narinfo_ref hash) (length d.0) d1)
        (database_store.reference_grows (get_result_ref hash) (length d.0) d2))

peer_laws : RemoteLaws database database_refs peer
peer_laws = record {
  remote_keeps = λ id name url spec d. (keeps_others database database_refs peer id).rel_refl d;
  fetch_keeps = λ id remote callback d. grows-keeps d (sent d) (sent-grows d) id;
}

abbrev after : Database
after =
    (get_package_commit_from_git_remotes database database_refs peer 5 (bytes "ssh://a" ∷ []) kitty
      ([], [])).1

found :
    get_package_commit_from_git_remotes database database_refs peer 5
      (bytes "ssh://a" ∷ [])
      kitty
      ([], [])
    ≡ (ok (some 0), after)
unfolding get_package_commit_from_git_remotes first_remote fetch_from_remote fetch peer_remote
    get_commit get_oid_from_reference get_narinfo walk visit fetch_missing both_exist get_dep_ids
    get_blob contains from_utf8_lossy parse lookup get key_of_url parse_line parse_lines
    parse_deriver parse_references get_dependencies without_path parse_table parse_u64 read_unsigned
    read_digits in_range lines line_pieces chomp split_str get_last StorePath.new last_component
    unless_parent file_name checked split_stem bytes bytes_eq is_utf8 lead starts_with drop split_on
    split_once skip_space skip_space_back strip trim_start trim_end trim get_result_ref
    get_narinfo_ref get_package_ref lift_git lift_result kind_of or_panic unwrap credentials
found = refl

kitty_size : length kitty.hash ≡ 32
unfolding bytes
kitty_size = refl

get_package_commit_from_git_remotes-IsCovered_example :
    (all : List Bytes) × (contains all kitty.hash ≡ true)
    × ((h : Bytes) → contains all h ≡ true → IsLooked database database_refs peer after all h)
get_package_commit_from_git_remotes-IsCovered_example =
    get_package_commit_from_git_remotes-IsCovered database database_refs peer peer_laws 5
      (bytes "ssh://a" ∷ []) kitty 0 ([], []) after kitty_size found

get_package_commit_from_git_remotes-Settles_example : Settles (
    get_package_commit_from_git_remotes database database_refs peer
      (256 ^ 32 + 1)
      (bytes "ssh://a" ∷ [])
      kitty
      ([], []))
get_package_commit_from_git_remotes-Settles_example =
    get_package_commit_from_git_remotes-Settles database database_refs peer (256 ^ 32 + 1)
      (bytes "ssh://a" ∷ []) kitty ([], []) (omega arith)

-- A repository with the narinfo of a signed package that refers to itself.
abbrev signed : Database
signed = (blob (NarInfo.to_string parsed) ∷ [], (get_narinfo_ref kitty.hash, 0) ∷ [])

signed-found : database_refs.find_reference (get_narinfo_ref kitty.hash) signed ≡ done (some 0)
unfolding get_narinfo_ref get_package_ref bytes bytes_eq
signed-found = refl

signed-read : get_blob database 0 signed ≡ ok (NarInfo.to_string parsed)
unfolding get_blob kind_of
signed-read = refl

has_slash : ¬ Lacks b'/' parsed.store_path.path
unfolding bytes
has_slash lacks = lacks.0 refl

get_dep_ids-references_example :
    get_dep_ids database database_refs peer kitty.hash signed ≡ ok (map based parsed.references)
get_dep_ids-references_example =
    get_dep_ids-references database database_refs peer kitty.hash
      (bytes "cache.nixos.org-1:Nqjen==") parsed 0 signed signed-found signed-read parsed-IsSigned
      has_slash
