-- ===== src/Nar.antt =====
-- src/nar: NAR archives. This file has the constants of src/nar/mod.rs; the modules below it have the
-- two encoders, the decoder, the archive format on its own, and what relates them.
pub mod Format
pub mod Sort
pub mod Stored
pub mod Archivable
pub mod Encode
pub mod Stream
pub mod Decode
pub mod Identity
mod Tests
use gachix.Prelude.{ℕ}
use gachix.Bytes.{Bytes, bytes}

abbrev pub nix_version_magic : Bytes
nix_version_magic = bytes "nix-archive-1"

abbrev pub pad_len : ℕ
pad_len = 8
