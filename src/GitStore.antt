-- ===== src/GitStore.antt =====
-- src/git_store: the packages of the cache in a git repository.
pub mod Repository
pub mod Package
pub mod Daemons
pub mod References
pub mod Commit
pub mod Laws
pub mod Closure
pub mod Peers
pub mod Listing
pub mod Health
pub mod Opening
pub mod Directory
pub mod Samples
pub mod Database
mod Tests
use gachix.Prelude.{ℕ}
use gachix.Bytes.{Bytes, bytes}

-- `SINGLE_FILE_PACKAGE_MARKER`
abbrev pub single_file_package_marker : Bytes
single_file_package_marker = bytes "gachix-single-file"
