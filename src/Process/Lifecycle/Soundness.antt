-- ===== src/Process/Lifecycle/Soundness.antt =====
-- What holds of the object manager of kernel/parts/process_lifecycle.inc between two calls, with
-- the one lemma about a write from which each call's preservation follows.
mod Updates
pub mod Collection
pub mod Operations
pub mod Creation
pub mod Reparenting
pub use Updates.*
