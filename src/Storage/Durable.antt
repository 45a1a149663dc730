-- ===== src/Storage/Durable.antt =====
-- Batches and restarts together (src/storage.rs, `execute_batch_append` and `recover`): what the
-- segment files hold after batches that were written, and what recovery finds in them.
pub mod Appended
pub mod Runs
pub mod Files
pub mod Accepted
pub mod Batches
pub mod Restart
pub mod Loop
