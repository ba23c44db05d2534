-- ===== src/StateBackend.antt =====
-- `LocalStateBackend` of src/core/state/local-backend.ts: the pipeline's state within one process.
pub mod State
pub mod Sessions
pub mod Timers
pub mod Tasks
pub mod Locks
pub mod Capture
pub mod Lifecycle
pub mod Examples
