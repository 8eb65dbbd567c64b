-- ===== src/Dataplane.antt =====
-- internal/dataplane: what runs next to the data, in the target and the source pods.
pub mod Paths
pub mod Lock
pub mod Files
pub mod Retention
pub mod Finalize
pub mod Scan
pub mod Recovery
pub mod Partials
