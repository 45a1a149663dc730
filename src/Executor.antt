-- ===== src/Executor.antt =====
-- src/executor.rs: evaluation of filters and pipelines over records.
pub mod Filter
pub mod Sequence
pub mod TimeRange
pub mod Json
pub mod Vector
pub mod Stages
