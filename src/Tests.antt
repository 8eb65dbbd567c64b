-- ===== src/Tests.antt =====
-- The theorems at concrete inputs, and runs of the definitions.
pub mod Paths
pub mod Lock
pub mod Hub
pub mod Service
pub mod Retention
pub mod Runs
pub mod Recovery
pub mod Guard
pub mod RunSet
pub mod Jobs
pub mod Finalize
pub mod Scan
pub mod Schedule
pub mod JobTransfers
