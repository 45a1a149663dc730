-- ===== src/Tests/Views.antt =====
-- The engine against its abstract view, at a concrete batch and a stored record.
use liven.Prelude.{
  ◌≡◌, refl, false, none, [], ◌∷◌, arith, length, sym, append-nil, Bool-cases, inl, inr,
  if◌then◌else◌,
}
use liven.Storage
use liven.Bytes
use liven.Bytes.{Bytes, bytes_eq}
use liven.Error.{ok}
use liven.Storage.Key.{as_str, as_bytes, pad}
use liven.Storage.Frame.{frame_of}
use liven.Storage.Index.{compound_key, record_key}
use liven.Storage.Flusher.{Pending}
use liven.Storage.Flusher.Complete.{index_record}
use liven.Storage.Flusher.Batch.{Engine, execute_batch_append, segment_bytes}
use liven.Storage.Flusher.Live.{Live, write, index_record-Shows}
use liven.Storage.Flusher.Refines.{EngineShows}
use liven.Storage.Flusher.Stages.{Leaves}
use liven.Storage.Flusher.Commits.{Commits, execute_batch_append-Commits}
use liven.Storage.Reads.{ReadConfig, get, scan_live_stream}
use liven.Storage.Reads.Get.{IsReadable, get-EngineShows}
use liven.Storage.Reads.Complete.{Meets, scan_live_stream-Meets}
use liven.Storage.Reads.Sound.{Scans, scan_live_stream-Scans}
use liven.Tests.Disk.{text_format, stream_a, key_k, sample, sample-IsWritable}
use liven.Tests.Flush.{
  names, stamps, clock, config, healthy, fresh_engine, script, fresh_engine-IsIndexed,
}

abbrev nothing : Live
nothing = λ k. none

fresh_engine-Shows : EngineShows text_format names stamps nothing fresh_engine
unfolding Storage.SkipMap.find
fresh_engine-Shows = λ k. tt

execute_batch_append-Commits_example :
    Leaves text_format names stamps
      (Commits text_format names stamps script nothing)
      (EngineShows text_format names stamps nothing)
      (execute_batch_append text_format names stamps config clock healthy script fresh_engine)
execute_batch_append-Commits_example =
    execute_batch_append-Commits text_format names stamps config clock healthy script fresh_engine
      nothing fresh_engine-IsIndexed refl (omega arith) fresh_engine-Shows

abbrev pub stored : Pending
stored = record {
  written = sample;
  frame_len = length (frame_of text_format sample);
  is_tombstone = false;
}

-- an engine with the sample in its first segment
abbrev holding : Engine text_format names stamps
holding = record fresh_engine {
  files = (0, frame_of text_format sample) ∷ [];
  index = index_record names stamps 0 stored 0 fresh_engine.index;
}

abbrev limits : ReadConfig
limits = record { max_segment_size = 1000; max_scan_results = 10 }

holding-Shows : EngineShows text_format names stamps (write stored nothing) holding
unfolding segment_bytes Storage.SkipMap.find
holding-Shows =
    index_record-Shows text_format names stamps 0 stored 0 holding.files fresh_engine.index nothing
      (record {
        before = [];
        after = [];
        holds = sym (append-nil (frame_of text_format sample));
        offset = refl;
      })
      (λ k. tt)

get-EngineShows_example :
    get text_format names stamps limits holding stream_a key_k
    ≡ ok (write stored nothing (compound_key stream_a key_k))
unfolding write compound_key record_key bytes_eq as_str as_bytes pad Bytes.is_utf8
get-EngineShows_example =
    get-EngineShows text_format names stamps limits holding (write stored nothing) stream_a key_k
      holding-Shows sample-IsWritable

scan_live_stream-Meets_example :
    Meets text_format names stamps limits 5 sample
      (scan_live_stream text_format names stamps limits holding stream_a 5)
unfolding write compound_key record_key bytes_eq as_str as_bytes pad Bytes.is_utf8
scan_live_stream-Meets_example =
    scan_live_stream-Meets text_format names stamps limits holding (write stored nothing) stream_a
      key_k sample 5 holding-Shows refl sample-IsWritable refl

stored-IsReadable : (k : Bytes) → IsReadable text_format (write stored nothing k)
unfolding write
stored-IsReadable k = elim (Bool-cases (bytes_eq k (record_key sample))) [
  | inl same ↦ rw (same, if◌then◌else◌) sample-IsWritable
  | inr other ↦ rw (other, if◌then◌else◌) tt
]

scan_live_stream-Scans_example :
    Scans text_format names stamps limits
      (write stored nothing)
      stream_a
      5
      (scan_live_stream text_format names stamps limits holding stream_a 5)
scan_live_stream-Scans_example =
    scan_live_stream-Scans text_format names stamps limits holding (write stored nothing) stream_a 5
      holding-Shows stored-IsReadable
