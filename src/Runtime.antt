-- ===== src/Runtime.antt =====
-- The 64-bit arithmetic that the compiler calls for on a 32-bit machine.
pub mod Div64
mod Tests
