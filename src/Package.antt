-- ===== src/Package.antt =====
-- The package tool zenpkg: manifests, the archive format and its checksums, the index.
pub mod Common
pub mod Sha256
pub mod Manifest
pub mod Versions
pub mod Archive
mod Tests
