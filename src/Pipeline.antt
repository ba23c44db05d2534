-- ===== src/Pipeline.antt =====
-- `MemoryPipelineManager` of src/utils/pipeline-manager.ts.
pub mod State
pub mod Frame
pub mod Timing
pub mod Warmup
pub mod L2Timer
pub mod L3
pub mod L2
pub mod L1
pub mod Notify
pub mod Lifecycle
pub mod Examples
