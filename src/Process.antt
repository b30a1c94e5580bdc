-- ===== src/Process.antt =====
-- Process management: kernel/parts/process_handles.inc and process_lifecycle.inc.
pub mod Handles
pub mod Lifecycle
mod Tests
