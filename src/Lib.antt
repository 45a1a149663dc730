-- ===== src/Lib.antt =====
-- The storage and query core of Liven, a stream database: an append-only log of checksummed frames
-- in segment files, two indexes in memory, one flusher thread that writes batches, and a query
-- engine over the records.
--
-- The parts, as they depend on each other:
--   * Prelude, Bytes: Boolean tests, lists and integers on native numbers; big-endian words, casts
--     between signed and unsigned bytes, and the UTF-8 automaton that `str::from_utf8` decides. A
--     machine word is a number with its wrap-around written out.
--   * Types (src/types.rs), Error (src/error.rs, and `AckError` of src/storage/ring_buffer.rs):
--     values, filters, pipeline stages, records and errors.
--   * Codec (src/codec.rs): `LivenCodec`, the frames of the TCP protocol in both of its versions.
--     A buffer is a list of bytes that `decode` takes from and `encode` appends to. Codec/RoundTrip
--     and Codec/Legacy hold its theorems.
--   * Storage/Key (src/storage/key.rs): `StreamKey`, a text of at most 32 bytes.
--   * Storage/Payload and Storage/Frame (src/storage.rs): the payload of a record, the 26-byte
--     header before it, and `read_record`, which reads a frame through an index pointer. A segment
--     is its bytes; the positional reads of 512 bytes and of a longer payload are kept apart.
--   * Storage/SkipMap: the interface of crossbeam's `SkipMap`, a finite map sorted by key, with its
--     laws. Storage/SkipMap/Sorted fills it with sorted lists.
--   * Storage/TimestampIndex (src/storage/timestamp_index.rs) and Storage/Index (src/storage.rs):
--     the index of one stream by time, the index by `stream:key`, and the counter of the bytes that
--     both are charged for.
--   * Storage/Flusher (src/storage.rs, `execute_batch_append`): admission of the entries of a batch
--     (budget check, sequence ids, frames); Storage/Flusher/Complete: the indexes, broadcasts and
--     answers after the write; Storage/Flusher/Batch: rollover to a new segment, write, sync, and
--     the whole function with the answers of the file system as an argument. Storage/Flusher/Loop:
--     `run_flusher_loop` over batches that are given, with `notify`. Storage/Flusher/Outcomes, Built, Admit and Atomic (admission),
--     Steps (completion), Stands and Stages (frames in the segments), Counts and Readable hold
--     lemmas and theorems. Storage/Flusher/Live is the abstract view, a map from keys to the records
--     last written; Pairs, Takes, Admits, Refines and Commits relate the flusher to it.
--   * Storage/Writes (src/storage.rs, `ensure_writable` to `append_tombstone_batch`): the checks of
--     a request on the caller's thread and the entry that goes into the flusher's queue.
--   * Storage/Reads (src/storage.rs): `get`, `list_keys`, `scan_live_stream` and
--     `scan_by_time_range` on the index and the segment files. Get, Complete and Sound hold the
--     theorems.
--   * Storage/Recovery (src/storage.rs, `recover`): the replay of one segment; Segments: of all of
--     them, and the choice of the active one. Extent and Loads (limits, and what a frame does to the
--     index), Views, Replays, Whole, Newest, Segmented and Directory show what a replay rebuilds,
--     Fuel that it ends.
--   * Storage/Salvage (src/storage.rs, `validate_frame_at` to `extract_key_at`): the search for
--     frames after a tear; Tears and Decisions: `handle_tear`, the salvage segment, sidecars and
--     markers, and `process_deferred_tears`. Frames and Refuses are about stranded frames, Files,
--     Keeps and Lossless about the bytes of the segments.
--   * Storage/Recover (src/storage.rs, `recover`): the replay and the decisions about its tears as
--     one function. Torn, Kept and Completes hold its theorems.
--   * Storage/Durable: the flusher and recovery together, on the segment files between them. Appended
--     and Runs are about frames that are added, Files about the files after a batch, Accepted about
--     what a batch asks for. Batches, Loop and Restart hold the theorems.
--   * Storage/Retention (src/storage.rs, `segment_is_fully_expired`): whether a segment may be
--     deleted for its age. Walk is about the loop over a segment, Expired about the ages.
--   * Executor/Filter, Executor/TimeRange and Executor/Sequence (src/executor.rs): filters on
--     records, the choice of a point lookup or a time range, and the automaton of the `sequence`
--     stage. Sequence/Matches says what an occurrence of a pattern is, Processes what one record
--     does, Finds what a run finds, and Runs is about patterns of one step.
--   * Executor/Json, Executor/Vector and Executor/Stages (src/executor.rs,
--     `try_apply_pipeline_stages_to_vec`): the conversions between values and JSON, the filter and
--     the search by cosine similarity, and the other stages of a pipeline, each with its theorems in
--     child modules. Prelude/Sort is the stable sort that they and recovery use.
--   * Security (src/security.rs): hexadecimal texts and the capabilities of a role.
--   * Tests: the theorems at concrete inputs.
--
-- Arguments of the definitions stand for code outside the repository: MessagePack (`PayloadFormat`,
-- `FrameFormat`), CRC-32, JSON and floating point (`FilterLibrary`), the skip map, the clock, the
-- broadcast channel and the file system (`Io`). Recursion is structural. Where a loop moves along a
-- file, fuel stands for it: the length of the file for the replay of a segment (`replay_frames`),
-- the frames after a tear (`collect_stranded`) and their age (`expired_from`), since each round
-- takes 26 bytes or more, and the number of positions left for `find_resync`; the number of segment
-- files and one more for a free segment id (`free_id`), since each round passes one file. The
-- digits of a number that fits in 64 bits are at most 20. Arithmetic on machine integers is
-- that of a release build: it wraps where the code does not say otherwise, and a division by zero or
-- one that overflows is a panic.
--
-- Not modelled: compaction, the deletion of expired segments, the scan of segments for history,
-- `execute_query` and its mutations, the parser of the query language, and the input and output
-- around them (server, client, command line, configuration, import and export). In recovery the
-- file system does not fail, the listing of the directory and the locks on segments are left out.
-- Concurrent requests, the time that the flusher waits for more entries, log messages, crash points of tests and the sizes of allocations are left
-- out of what is modelled.
pub mod Prelude
pub mod Bytes
pub mod Types
pub mod Error
pub mod Codec
pub mod Storage
pub mod Executor
pub mod Security
mod Tests
