-- ===== src/Storage/Flusher.antt =====
-- The flusher (src/storage.rs, `execute_batch_append` and `run_flusher_loop`;
-- src/storage/ring_buffer.rs, `LogEntry`): one thread that takes a batch of write requests, decides
-- which of them fit the index budget, writes their frames to the active segment, and then, only when
-- the frames are durable, updates the indexes and answers the callers.
pub mod Outcomes
pub mod Admit
pub mod Complete
pub mod Built
pub mod Counts
pub mod Steps
pub mod Batch
pub mod Stands
pub mod Stages
pub mod Readable
pub mod Live
pub mod Pairs
pub mod Takes
pub mod Admits
pub mod Refines
pub mod Commits
pub mod Loop
pub mod Atomic
use liven.Prelude.{
  ℕ, zero, suc, ◌+◌, ◌-◌, ◌%◌, ◌^◌, ◌/◌, Bool, true, false, not, ◌&&◌, ◌||◌, Option, none, some,
  List, [], ◌∷◌, ◌++◌, ℤ, ltb, leb, ◌==◌, if◌then◌else◌, length, take,
}
use liven.Bytes.{Bytes, ascii, bytes_eq}
use liven.Types.{DataValue, null, LogPointer, Record, StreamKey, type_tag}
use liven.Error.{LivenError, internal, io, disk_full, AckError, index_ram, message, Result, ok, err}
use liven.Storage.Key.{as_str}
use liven.Storage.Payload.{PayloadFormat}
use liven.Storage.Frame.{frame_of}
use liven.Storage.SkipMap.{SkipMap, is_some}
use liven.Storage.Index.{
  Index, compound_key, primary_charge, timestamp_index_node_bytes, remove_key, insert_key,
  record_key,
}
use liven.Storage.Index.Keys.{name_key, stamp_key, Stamp}

-- `LogEntry`. A response channel is its number.
pub data LogEntry : Type 0 where
  single : Bytes → StreamKey → DataValue → Bool → ℕ → LogEntry
  tombstone_batch : Bytes → List StreamKey → ℕ → LogEntry
  batch : List (Bytes × StreamKey × DataValue) → ℕ → LogEntry
  replace : Bytes → StreamKey → DataValue → ℕ → LogEntry
  shutdown : LogEntry

-- What is sent on a response channel.
pub data Ack : Type 0 where
  record_written : Record → Ack
  records_written : List Record → Ack
  refused : AckError → Ack

-- An element of `batch_records_to_add`.
pub record Pending : Type 0 where
  pub written : Record
  pub frame_len : ℕ
  pub is_tombstone : Bool

-- `PendingComplete`
pub data PendingComplete : Type 0 where
  single replace : ℕ → PendingComplete
  batch : ℕ → ℕ → PendingComplete

-- The local variables of `execute_batch_append` while it goes through the batch, and what it has
-- sent and flagged so far.
pub record Admission : Type 0 where
  pub current_seq : ℕ
  pub projected_new_bytes : ℕ
  pub batch_new_keys : List Bytes
  pub high_water_reached : Bool
  pub frame_buf : Bytes
  pub pending : List Pending
  pub completes : List PendingComplete
  pub acks : List (ℕ × Ack)

pub record Config : Type 0 where
  pub max_segment_size : ℕ
  pub sync_always : Bool
  pub max_index_ram_bytes : ℕ
  pub high_water_bytes : ℕ

-- `u64` addition of a release build
abbrev pub u64_add : ℕ → ℕ → ℕ
u64_add a b = (a + b) % 2 ^ 64

abbrev pub Outcome : Type 0
Outcome = Result LivenError (Unit {0}) × Admission

-- the rest of a computation that stops at its first error, `?`
abbrev pub and_then : Outcome → (Admission → Outcome) → Outcome
and_then (ok _, a) k = k a
and_then (err e, a) k = (err e, a)

unfoldable pub contains_key : Bytes → List Bytes → Bool
contains_key k [] = false
contains_key k (j ∷ js) = bytes_eq k j || contains_key k js

module _ (format : PayloadFormat) (now : ℕ → Result LivenError ℤ) where
  -- One record: the next sequence id, the time, the frame. `current_seq += 1` is done before the
  -- clock is read, which may be before the epoch.
  abbrev push_stamped :
      Bytes → StreamKey → DataValue → Bool → Admission → Result LivenError ℤ → Outcome
  push_stamped stream_name key value is_tombstone a (err e) =
      (err e, record a { current_seq = u64_add a.current_seq 1 })
  push_stamped stream_name key value is_tombstone a (ok timestamp) =
      let r : Record = record {
        sequence_id = a.current_seq;
        timestamp = timestamp;
        type_tag = type_tag value;
        flags = if is_tombstone then 0x02 else 0x01;
        stream_name = stream_name;
        key = key;
        value = value;
      } in
      (
        ok tt,
        record a {
          current_seq = u64_add a.current_seq 1;
          frame_buf = a.frame_buf ++ frame_of format r;
          pending =
              a.pending
              ++ (record {
                written = r;
                frame_len = length (frame_of format r);
                is_tombstone = is_tombstone;
              }
                  ∷ []);
        },
      )

  -- `now n` is the time that is read for the record with sequence id `n`.
  unfoldable pub push_record : Bytes → StreamKey → DataValue → Bool → Admission → Outcome
  push_record stream_name key value is_tombstone a =
      push_stamped stream_name key value is_tombstone a (now a.current_seq)

  unfoldable pub push_tombstones : Bytes → List StreamKey → Admission → Outcome
  push_tombstones stream_name [] a = (ok tt, a)
  push_tombstones stream_name (key ∷ keys) a =
      and_then (push_record stream_name key null true a) (push_tombstones stream_name keys)

  unfoldable pub push_batch : List (Bytes × StreamKey × DataValue) → Admission → Outcome
  push_batch [] a = (ok tt, a)
  push_batch ((stream_name, key, value) ∷ records) a =
      and_then (push_record stream_name key value false a) (push_batch records)

abbrev pub await : PendingComplete → Admission → Outcome
await c a = (ok tt, record a { completes = a.completes ++ (c ∷ []) })

module _ (P : SkipMap Bytes LogPointer name_key) (T : SkipMap Stamp LogPointer stamp_key)
    (cfg : Config) where
  abbrev pub reject : ℕ → ℕ → Option Bytes → Admission → Admission
  reject tx current_bytes key a = record a {
    acks = a.acks ++ ((tx, refused (index_ram cfg.max_index_ram_bytes current_bytes key)) ∷ []);
  }

  unfoldable pub is_new_key : Index P T → Admission → Bytes → Bool
  unfolding contains_key
  is_new_key ix a key =
      not (is_some (P.get key ix.skipmap)) && not (contains_key key a.batch_new_keys)

  abbrev pub entry_charge : Bytes → ℕ
  entry_charge key = u64_add (primary_charge key) timestamp_index_node_bytes

  -- the budget check of an active record: the bytes that are refused, or the reservation
  unfoldable pub reserve : Index P T → Bytes → Admission → Result ℕ Admission
  unfolding is_new_key
  reserve ix key a =
      let size = entry_charge key in
      let projected = u64_add (u64_add ix.index_ram_bytes a.projected_new_bytes) size in
      if is_new_key ix a key
      then (if ltb cfg.max_index_ram_bytes projected
          then err projected
          else ok (record a {
            projected_new_bytes = u64_add a.projected_new_bytes size;
            batch_new_keys = key ∷ a.batch_new_keys;
            high_water_reached = a.high_water_reached || leb cfg.high_water_bytes projected;
          }))
      else ok a

  -- the loop over an all-or-nothing batch: the key that does not fit with the bytes it would need,
  -- or the projected bytes and the new keys
  unfoldable pub check_batch :
      Index P T
      → Admission
      → List (Bytes × StreamKey × DataValue)
      → ℕ
      → List Bytes
      → Result (Bytes × ℕ) (ℕ × List Bytes)
  unfolding is_new_key contains_key
  check_batch ix a [] projected local_new = ok (projected, local_new)
  check_batch ix a ((stream_name, key, value) ∷ records) projected local_new =
      let ck = compound_key stream_name (as_str key) in
      let size = entry_charge ck in
      let known = not (is_new_key ix a ck) || contains_key ck local_new in
      let skip = check_batch ix a records projected local_new in
      let add = check_batch ix a records (u64_add projected size) (ck ∷ local_new) in
      if known
      then skip
      else if ltb cfg.max_index_ram_bytes (u64_add projected size)
      then err (ck, u64_add projected size)
      else add

module _ (format : PayloadFormat) (P : SkipMap Bytes LogPointer name_key)
    (T : SkipMap Stamp LogPointer stamp_key) (cfg : Config) (now : ℕ → Result LivenError ℤ) where
  -- what follows the check: the record is pushed, or its caller is refused and the rest goes on
  abbrev pub push_reserved :
      Bytes → StreamKey → DataValue → ℕ → PendingComplete → Admission → Result ℕ Admission → Outcome
  push_reserved stream_name key value tx c a (err projected) =
      (ok tt, reject P T cfg tx projected none a)
  push_reserved stream_name key value tx c a (ok a') =
      and_then (push_record format now stream_name key value false a') (await c)

  abbrev pub push_checked :
      Index P T
      → List (Bytes × StreamKey × DataValue)
      → ℕ
      → Admission
      → Result (Bytes × ℕ) (ℕ × List Bytes)
      → Outcome
  push_checked ix records tx a (err (key, current_bytes)) =
      (ok tt, reject P T cfg tx current_bytes (some key) a)
  push_checked ix records tx a (ok (projected, local_new)) =
      and_then
        (push_batch format now records (record a {
          projected_new_bytes = projected - ix.index_ram_bytes;
          batch_new_keys = local_new ++ a.batch_new_keys;
        }))
        (await (batch tx (length records)))

  unfoldable pub admit : Index P T → LogEntry → Admission → Outcome
  admit ix (single stream_name key value true tx) a =
      and_then (push_record format now stream_name key value true a) (await (single tx))
  admit ix (single stream_name key value false tx) a =
      push_reserved stream_name key value tx (single tx) a
        (reserve P T cfg ix (compound_key stream_name (as_str key)) a)
  admit ix (replace stream_name key value tx) a =
      push_reserved stream_name key value tx (replace tx) a
        (reserve P T cfg ix (compound_key stream_name (as_str key)) a)
  admit ix (tombstone_batch stream_name keys tx) a =
      and_then (push_tombstones format now stream_name keys a) (await (batch tx (length keys)))
  admit ix (batch records tx) a =
      push_checked ix records tx a
        (check_batch P T cfg ix a records (u64_add ix.index_ram_bytes a.projected_new_bytes) [])
  admit ix shutdown a = (ok tt, a)

  -- The loop over the batch: a shutdown entry ends it.
  unfoldable pub admit_all : Index P T → List LogEntry → Admission → Outcome
  admit_all ix [] a = (ok tt, a)
  admit_all ix (shutdown ∷ entries) a = (ok tt, a)
  admit_all ix (entry ∷ entries) a = and_then (admit ix entry a) (admit_all ix entries)
