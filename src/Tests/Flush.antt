-- ===== src/Tests/Flush.antt =====
-- The flusher at a concrete engine and batch.
use liven.Prelude.{ℕ, ◌+◌, refl, true, false, none, List, [], ◌∷◌, ℤ, pos, arith, inr, inr}
use liven.Storage
use liven.Bytes.{Bytes, ascii}
use liven.Types.{string, LogPointer}
use liven.Error.{LivenError, Result, ok}
use liven.Storage.Key.RoundTrip.{key_of}
use liven.Storage.SkipMap.{SkipMap}
use liven.Storage.SkipMap.Sorted.{sorted_lists}
use liven.Storage.Index.{stream_index, get_stream}
use liven.Storage.Index.Keys.{name_key, stamp_key, Stamp}
use liven.Storage.Flusher.{
  LogEntry, single, replace, tombstone_batch, Config, Admission, admit, admit_all,
}
use liven.Storage.Flusher.Outcomes.{Ends}
use liven.Storage.Flusher.Built.{IsBuilt, admit_all-IsBuilt}
use liven.Storage.Flusher.Batch.{Engine, Io, written, execute_batch_append}
use liven.Storage.Flusher.Stages.{EngineIsIndexed}
use liven.Storage.Flusher.Readable.{execute_batch_append-IsIndexed}
use liven.Storage.Flusher.Atomic.{Request, IsAllOrNothing, admit-IsAllOrNothing}
use liven.Storage.Flusher.Counts.{EngineIsSound, execute_batch_append-IsSound}
use liven.Tests.Disk.{text_format, stream_a, key_k}

abbrev pub names : SkipMap Bytes LogPointer name_key
names = sorted_lists Bytes LogPointer name_key

abbrev pub stamps : SkipMap Stamp LogPointer stamp_key
stamps = sorted_lists Stamp LogPointer stamp_key

abbrev pub clock : ℕ → Result LivenError ℤ
clock n = ok (pos (1000 + n))

abbrev pub config : Config
config = record {
  max_segment_size = 1000;
  sync_always = true;
  max_index_ram_bytes = 10000;
  high_water_bytes = 8000;
}

abbrev pub healthy : Io
healthy = record { sync_old = none; create = none; sync_dir = none; write = written; sync = none }

abbrev pub fresh_engine : Engine text_format names stamps
fresh_engine = record {
  current_sequence_id = 0;
  active_segment_id = 0;
  segment_id_counter = 1;
  active_file = true;
  active_size = 0;
  index = record { skipmap = names.new; timestamp_indexes = []; index_ram_bytes = 0 };
  files = [];
  failed = false;
  high_water_reached = false;
  flush_fsyncs = 0;
  broadcasts = [];
  acks = [];
  file_handles = [];
}

abbrev pub script : List LogEntry
script =
    single stream_a (key_of key_k) (string (ascii "v")) false 1
    ∷ replace stream_a (key_of key_k) (string (ascii "w")) 2
    ∷ tombstone_batch stream_a (key_of key_k ∷ []) 3
    ∷ []

fresh_engine-IsSound : EngineIsSound names stamps text_format config clock healthy fresh_engine
unfolding stream_index get_stream Storage.SkipMap.find
fresh_engine-IsSound = record {
  accounted = record { counted = refl };
  fresh = record { absent = λ s k h. refl };
}

execute_batch_append-IsSound_example :
    EngineIsSound names stamps text_format config clock healthy
      (execute_batch_append text_format names stamps config clock healthy script fresh_engine).1
execute_batch_append-IsSound_example =
    execute_batch_append-IsSound names stamps text_format config clock healthy script fresh_engine
      fresh_engine-IsSound (omega arith)

abbrev fresh_admission : Admission
fresh_admission = record {
  current_seq = 4;
  projected_new_bytes = 0;
  batch_new_keys = [];
  high_water_reached = false;
  frame_buf = [];
  pending = [];
  completes = [];
  acks = [];
}

fresh_admission-IsBuilt : IsBuilt text_format clock 4 0 fresh_admission
fresh_admission-IsBuilt = record {
  run = refl;
  frames = refl;
  measured = _;
  stamped = tt;
  counted = refl;
}

admit_all-IsBuilt_example :
    Ends clock
      (IsBuilt text_format clock 4 0)
      (admit_all text_format names stamps config clock fresh_engine.index script fresh_admission)
admit_all-IsBuilt_example =
    admit_all-IsBuilt text_format names stamps config clock 4 fresh_engine.index script
      fresh_admission fresh_admission-IsBuilt

pub fresh_engine-IsIndexed : EngineIsIndexed text_format names stamps fresh_engine
unfolding Storage.SkipMap.find Storage.Flusher.Batch.segment_bytes
fresh_engine-IsIndexed = record {
  consistent = record {
    indexed = λ k p e. absurd (ground (arith, e));
    active = omega arith;
    unused = λ j b. refl;
  };
  sized = inr refl;
}

execute_batch_append-IsIndexed_example :
    EngineIsIndexed text_format names stamps
      (execute_batch_append text_format names stamps config clock healthy script fresh_engine).1
execute_batch_append-IsIndexed_example =
    execute_batch_append-IsIndexed text_format names stamps config clock healthy script fresh_engine
      fresh_engine-IsIndexed refl (omega arith)

abbrev pair : List Request
pair = (stream_a, key_of key_k, string (ascii "v")) ∷ (stream_a, key_of stream_a, string []) ∷ []

admit-IsAllOrNothing_example :
    Ends clock (IsAllOrNothing text_format clock names stamps config pair 9 fresh_admission) (
      admit text_format names stamps config clock fresh_engine.index
        (LogEntry.batch pair 9)
        fresh_admission)
admit-IsAllOrNothing_example =
    admit-IsAllOrNothing text_format clock names stamps config fresh_engine.index pair 9
      fresh_admission
