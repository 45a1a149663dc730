-- ===== src/Tests.antt =====
-- Concrete inputs: the theorems at data that meets their hypotheses, and tests.
mod Wire
mod Disk
mod Flush
mod Views
mod Queries
mod Pipelines
mod Recovery
mod Restarts
mod Salvage
mod Writes
mod Retention
mod Security
