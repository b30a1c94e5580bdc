-- ===== src/Scheduler.antt =====
-- kernel/parts/scheduler_policy.inc: priorities with aging, and round robin among equals.
pub mod Policy
pub mod Selection
pub mod Aging
mod Tests
