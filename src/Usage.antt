-- ===== src/Usage.antt =====
-- src/usage.rs: the accounting of billable requests.
pub mod Recorder
pub mod Rollup
pub mod Days
pub mod Windows
pub mod Rows
pub mod Aggregate
