-- ===== src/Lib.antt =====
-- gachix: a binary cache for Nix that keeps its packages in a git repository. A package comes as a
-- NAR archive from a Nix daemon, is decoded into git blobs and trees, and is served again as a NAR
-- archive that is encoded from the repository while it is sent.
--
-- The parts, their files here and in the repository:
-- - Prelude: Boolean tests, lists, and fallible code over a state (`Exec`, `Result`, `Error`).
-- - Bytes, Text: byte strings, UTF-8, little-endian numbers, and the functions of `str` that the
--   program uses: `split_once`, `lines`, `trim`, `parse::<u64>`.
-- - Git: libgit2, through the crate `git2`, as an interface (`Git`) with the laws that the theorems
--   rely on (`Git.Laws.GitLaws`); `Git.Memory` is an object database in memory that satisfies them.
-- - Nar.Decode: src/nar/decode.rs, `NarGitDecoder`. Its state is the input not read yet, and the
--   repository.
-- - Nar.Encode: src/nar/encode.rs, the recursive `NarGitEncoder`, into a buffer.
-- - Nar.Stream: src/nar/encode_stream.rs, `NarGitStream`: a stack of traversal states, a queue of chunks,
--   and `poll_next` as a loop of rounds.
-- - Nar.Format, Nar.Sort, Nar.Stored, Nar.Archivable: the specification. `Format.archive` is the
--   archive of a tree of files, `Stored.Holds` says that a repository holds such a tree, and
--   `Archivable.IsArchivable` that its names are ones that the format and git allow, in order.
-- - Nix.StorePath: src/nix_interface/path.rs. Nix.NarInfo: src/nix_interface/nar_info.rs, and the text that
--   src/nix_interface/signature.rs signs. Nix.CacheInfo: src/nix_interface/cache_info.rs.
--   Nix.Signature: the private key of the same file. Nix.Daemon: src/nix_interface/daemon.rs, the client
--   of a daemon as a state machine over its connection, which is a parameter.
-- - GitStore.Repository and GitStore.Commit: src/git_store/repository.rs, objects read and written, and
--   commits. GitStore.Package and GitStore.Daemons: src/git_store/store.rs, how an archive becomes a
--   package and is served by its key, and how packages come from daemons. There a daemon is what it
--   answers; GitStore.Daemons.Session does the same with a client of Nix.Daemon. Hexadecimal, base-32 and
--   base-64 numbers, the key pair of a seed and a public key, and the text of an oid are parameters.
-- - GitStore.References: the references of src/git_store/repository.rs, over the interface `Refs`, and
--   add_single, get_narinfo and entry_exists of src/git_store/store.rs.
-- - GitStore.Closure: _add_closure of src/git_store/store.rs: a package with all that it depends on, as
--   commits whose parents are the commits of the dependencies. GitStore.Listing: add_closure and
--   list_entries. GitStore.Laws is what they rely on of libgit2 (`LiveLaws`: when its operations succeed), and
--   GitStore.Database a repository in
--   memory that satisfies it.
-- - GitStore.Peers: get_package_commit_from_git_remotes and fetch_from_remote of src/git_store/store.rs,
--   and `fetch` of src/git_store/repository.rs, over the interface `Remotes`: a queue of packages whose
--   dependencies are fetched. GitStore.Health: peer_health_check.
-- - GitStore.Directory: create_tree_from_dir of src/git_store/repository.rs, over a directory that has been
--   read.
-- - GitStore.Opening: GitRepo::new and Store::new, over the interfaces `Filesystem` and `GitOpen`.
--   GitStore.Health.Remote: check_remote_health of src/git_store/repository.rs, over `Connect`.
-- - HttpServer: src/http_server/server.rs, what the handlers answer. CommandLine: src/main.rs, the program
--   from its arguments to what a subcommand does with the store that is opened, and the records of
--   src/settings.rs.
--
-- Bounds. The decoder's fuel is the length of its input, since every call and every turn of its loop
-- reads at least one string of eight bytes. A poll of the stream has fuel for the length of its stack
-- and two more rounds. The recursive encoder has fuel for the depth of the object, and `collect` for
-- the number of chunks; theorems about them take a bound that is large enough as a hypothesis.
-- The recursion of _add_closure has fuel for its depth; the queue of the git peers has fuel for every
-- hash of 32 bytes, since each is queued at most once.
-- A `u64` read from the input is below 2 ^ 64 by its eight bytes; lengths from 2 ^ 63 on panic in the
-- allocation, as in the program. Texts of error messages and of the log are left out.
-- A panic ends the program: it is an `Error` with `is_panic`, and code that goes on after an error does not
-- go on after it. The difference that add_closure logs is a panic below zero if the build checks for
-- overflow, and wraps at 2 ^ 64 if not.
--
-- Not modelled: the protocol of Nix daemons, sockets and ssh, base 64 and Ed25519, which are crates'; the
-- parsing of the arguments of the command line, the loading of the settings with their defaults, and the
-- start and the routing of the HTTP server, also crates'. Of logging, only that the arguments of `info!` are
-- evaluated if that level is logged. The locks of the repository and the tracing are left out:
-- every operation runs alone.
pub mod Prelude
pub mod Bytes
pub mod Text
pub mod Git
pub mod GitStore
pub mod CommandLine
pub mod HttpServer
pub mod Nar
pub mod Nix
