-- ===== src/Execution.antt =====
-- src/execution: where tasks are submitted, and in which order they run.
pub mod Types
pub mod Runs
pub mod Queue
pub mod Manual
pub mod Serial
mod Tests
