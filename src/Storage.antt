-- ===== src/Storage.antt =====
-- src/storage: the log-structured storage engine.
pub mod Key
pub mod Payload
pub mod Frame
pub mod SkipMap
pub mod Index
pub mod TimestampIndex
pub mod Flusher
pub mod Reads
pub mod Recovery
pub mod Salvage
pub mod Recover
pub mod Durable
pub mod Writes
pub mod Retention
