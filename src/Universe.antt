-- ===== src/Universe.antt =====
-- The tool zenuniverse: its texts and its digest.
pub mod Capability
pub mod Common
pub mod Descriptor
pub mod Digest
pub mod Values
pub mod HostProfile
pub mod Artifact
pub mod Resolver
mod Tests
