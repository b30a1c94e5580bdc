-- ===== src/Audit.antt =====
-- The journal of audit records that the tools and the kernel share, from tools/zenov_audit_format.hpp.
pub mod Digest
pub mod Format
mod Tests
