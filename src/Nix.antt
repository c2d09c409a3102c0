-- ===== src/Nix.antt =====
-- src/nix_interface: store paths, narinfo files, the text that is signed, and the cache's description.
pub mod StorePath
pub mod NarInfo
pub mod Signature
pub mod Daemon
pub mod CacheInfo
pub mod Tests
