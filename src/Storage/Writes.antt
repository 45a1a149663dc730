-- ===== src/Storage/Writes.antt =====
-- Write requests (src/storage.rs, `ensure_writable` to `append_tombstone_batch`): what a caller's
-- thread checks and changes before the flusher takes a request, up to the wait for the answer. One
-- request runs at a time, and the channel to the flusher is a queue.
pub mod Admits
pub mod Batches
pub mod Refused
use liven.Prelude.{
  ℕ, ◌+◌, ◌-◌, ◌*◌, ◌/◌, ◌^◌, Bool, true, false, not, ◌&&◌, ◌||◌, List, [], ◌∷◌, ◌++◌, ltb, leb,
  min, if◌then◌else◌, length,
}
use liven.Bytes.{Bytes, ascii}
use liven.Types.{DataValue, LogPointer, StreamKey}
use liven.Error.{
  LivenError, storage, flusher_terminated, stream_limit_exceeded, index_ram_limit_exceeded, Result,
  ok, err,
}
use liven.Storage.Key.{from_str}
use liven.Storage.SkipMap.{SkipMap, is_some}
use liven.Storage.Index.{Index, compound_key, primary_charge, timestamp_index_node_bytes}
use liven.Storage.Index.Keys.{name_key, stamp_key, Stamp}
use liven.Storage.Flusher.{LogEntry, single, replace, batch, tombstone_batch, u64_add, contains_key}

-- the part of `StorageEngine` that write requests use
pub record Writer : Type 0 where
  pub failed : Bool
  pub is_running : Bool
  pub streams_set : List Bytes
  pub index_high_water_reached : Bool
  pub is_open : Bool
  pub queue : List LogEntry

pub record WriteLimits : Type 0 where
  pub max_streams : ℕ
  pub max_index_ram_bytes : ℕ
  pub index_high_water_percent : ℕ

-- a result, and the state after it
abbrev pub Answer : Type 0 → Type 0
Answer A = Result LivenError A × Writer

abbrev pub and_then : {A B : Type 0} → Answer A → (A → Writer → Answer B) → Answer B
and_then (ok a, w) k = k a w
and_then (err e, w) k = (err e, w)

unfoldable pub ensure_writable : Writer → Answer Unit
ensure_writable w =
    if w.failed
    then (
      err (
          storage
            (ascii "storage engine is in a failed state after an I/O error; reopen the database")),
      w,
    )
    else if w.is_running
    then (ok tt, w)
    else (err flusher_terminated, w)

-- `tx_send`: the channel is closed when the flusher has ended.
unfoldable pub tx_send : LogEntry → Writer → Answer Unit
tx_send entry w =
    if w.is_open
    then (ok tt, record w { queue = w.queue ++ (entry ∷ []) })
    else (err flusher_terminated, w)

-- one more key, or its error, before those that follow
abbrev pub push_key :
    Result LivenError StreamKey
    → Result LivenError (List StreamKey)
    → Result LivenError (List StreamKey)
push_key (err e) rest = err e
push_key (ok k) (err e) = err e
push_key (ok k) (ok ks) = ok (k ∷ ks)

-- the keys of a batch, one at a time
unfoldable pub stream_keys : List Bytes → Result LivenError (List StreamKey)
unfolding from_str
stream_keys [] = ok []
stream_keys (key ∷ keys) = push_key (from_str key) (stream_keys keys)

abbrev pub Entry : Type 0
Entry = Bytes × Bytes × DataValue

abbrev pub KeyedRecord : Type 0
KeyedRecord = Bytes × StreamKey × DataValue

abbrev pub push_keyed :
    Entry
    → Result LivenError StreamKey
    → Result LivenError (List KeyedRecord)
    → Result LivenError (List KeyedRecord)
push_keyed e (err x) rest = err x
push_keyed e (ok k) (err x) = err x
push_keyed e (ok k) (ok rs) = ok ((e.0, k, e.2) ∷ rs)

unfoldable pub batch_records : List Entry → Result LivenError (List KeyedRecord)
unfolding from_str
batch_records [] = ok []
batch_records (e ∷ entries) = push_keyed e (from_str e.1) (batch_records entries)

-- the streams of a batch that are not known, each once
unfoldable pub new_streams : List Bytes → List Entry → List Bytes → List Bytes
unfolding contains_key
new_streams known [] found = found
new_streams known (e ∷ entries) found =
    new_streams known entries
      (if not (contains_key e.0 known) && not (contains_key e.0 found) then e.0 ∷ found else found)

module _ (limits : WriteLimits) where
  unfoldable pub register_stream : Bytes → Writer → Answer Unit
  unfolding contains_key
  register_stream stream_name w =
      if contains_key stream_name w.streams_set
      then (ok tt, w)
      else if leb limits.max_streams (length w.streams_set)
      then (err (stream_limit_exceeded limits.max_streams), w)
      else (ok tt, record w { streams_set = stream_name ∷ w.streams_set })

  unfoldable pub register_streams : List Entry → Writer → Answer Unit
  unfolding new_streams
  register_streams entries w =
      let found = new_streams w.streams_set entries [] in
      if ltb limits.max_streams (length w.streams_set + length found)
      then (err (stream_limit_exceeded limits.max_streams), w)
      else (ok tt, record w { streams_set = found ++ w.streams_set })

  -- `max_index_ram_bytes.saturating_mul(percent) / 100`
  abbrev pub high_water : ℕ
  high_water = min (limits.max_index_ram_bytes * limits.index_high_water_percent) (2 ^ 64 - 1) / 100

  abbrev pub note_high_water : ℕ → Writer → Writer
  note_high_water projected w = record w {
    index_high_water_reached = w.index_high_water_reached || leb high_water projected;
  }

  module _ (P : SkipMap Bytes LogPointer name_key) (T : SkipMap Stamp LogPointer stamp_key)
      (ix : Index P T) where
    -- the budget of a key that is not indexed yet
    unfoldable pub check_index : Bytes → Writer → Answer Unit
    check_index key w =
        let projected =
          u64_add ix.index_ram_bytes (primary_charge key + timestamp_index_node_bytes) in
        if is_some (P.get key ix.skipmap)
        then (ok tt, w)
        else if ltb limits.max_index_ram_bytes projected
        then (err (index_ram_limit_exceeded limits.max_index_ram_bytes projected), w)
        else (ok tt, note_high_water projected w)

    -- the key, and the request that goes to the flusher
    abbrev pub send_key : Bytes → (StreamKey → LogEntry) → Writer → Answer Unit
    send_key key entry w = and_then (from_str key, w) (λ k v. tx_send (entry k) v)

    -- `rx` is the number of the response channel.
    unfoldable pub append_async : Bytes → Bytes → DataValue → Bool → ℕ → Writer → Answer Unit
    unfolding ensure_writable register_stream check_index compound_key tx_send from_str
    append_async stream_name key value is_tombstone rx w0 = and_then (ensure_writable w0) (λ _ w1.
        and_then (register_stream stream_name w1) (λ _ w2.
          and_then
            (if is_tombstone then (ok tt, w2) else check_index (compound_key stream_name key) w2)
            (λ _ w3. send_key key (λ k. single stream_name k value is_tombstone rx) w3)))

    unfoldable pub replace_async : Bytes → Bytes → DataValue → ℕ → Writer → Answer Unit
    unfolding ensure_writable register_stream check_index compound_key tx_send from_str
    replace_async stream_name key value rx w0 = and_then (ensure_writable w0) (λ _ w1.
        and_then (register_stream stream_name w1) (λ _ w2.
          and_then (check_index (compound_key stream_name key) w2)
            (λ _ w3. send_key key (λ k. replace stream_name k value rx) w3)))

  unfoldable pub append_batch_async : List Entry → ℕ → Writer → Answer Unit
  unfolding ensure_writable register_streams batch_records tx_send
  append_batch_async entries rx w0 = and_then (ensure_writable w0) (λ _ w1.
      and_then (register_streams entries w1) (λ _ w2.
        and_then (batch_records entries, w2) (λ records w3. tx_send (batch records rx) w3)))

  unfoldable pub append_tombstone_batch : Bytes → List Bytes → ℕ → Writer → Answer Unit
  unfolding ensure_writable register_stream stream_keys tx_send
  append_tombstone_batch stream_name keys rx w0 = and_then (ensure_writable w0) (λ _ w1.
      and_then (register_stream stream_name w1) (λ _ w2.
        and_then (stream_keys keys, w2) (λ ks w3. tx_send (tombstone_batch stream_name ks rx) w3)))
