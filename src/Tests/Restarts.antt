-- ===== src/Tests/Restarts.antt =====
-- A batch of a record, a replacement and a deletion, and recovery from two segments.
use liven.Prelude.{
  ℕ, ◌≡◌, refl, true, false, List, [], ◌∷◌, ℤ, pos, arith, Option, none, some, ◌==◌, if◌then◌else◌,
}
use liven.Storage
use liven.Bytes
use mathlib.Core.Path.{subst}
use liven.Bytes.{Bytes, is_utf8, bytes_eq, ascii}
use liven.Bytes.Words.{IsI64}
use liven.Types.{null, string}
use liven.Error.{LivenError, Result, ok, err}
use liven.Storage.Key.{as_str, as_bytes}
use liven.Storage.Key.RoundTrip.{key_of}
use liven.Storage.Payload.{serialize_payload_into}
use liven.Storage.Flusher.{Pending, contains_key, single, replace, tombstone_batch}
use liven.Storage.Flusher.Live.{Live}
use liven.Storage.Flusher.Stages.{Leaves}
use liven.Storage.Flusher.Batch.{torn, execute_batch_append}
use liven.Storage.Recovery.Views.{merge_all, live_of}
use liven.Storage.Recovery.Segmented.{all_records}
use liven.Storage.Recovery.Newest.{merge_all-IsNewest}
use liven.Storage.Recover.{Opened, recover}
use liven.Storage.Durable.Accepted.{IsAccepted, IsInRange}
use liven.Storage.Durable.Batches.{
  IsDurable, Persists, Survives, EngineIsDurable, execute_batch_append-IsDurable,
}
use liven.Storage.Durable.Loop.{Outlives, run_flusher_loop-Outlives}
use liven.Storage.Flusher.Loop.{Turn, timeout, received, Flusher, run_flusher_loop}
use liven.Storage.Durable.Restart.{Restores, recover-Restores}
use liven.Tests.Disk.{text_format, stream_a, key_k, stream_a-IsName}
use liven.Tests.Flush.{names, stamps, config, healthy, fresh_engine, script}
use liven.Tests.Views.{stored}
use liven.Tests.Recovery.{directory, removed, whole_directory, directory-AreWritten}
use liven.Tests.Salvage.{now_ms, no_torn_region, recovery_limits}

abbrev streams : List Bytes
streams = stream_a ∷ []

abbrev steady_clock : ℕ → Result LivenError ℤ
steady_clock n = ok (pos 1000)

abbrev InRange : Result LivenError ℤ → Type 0
InRange (ok time) = IsI64 time
InRange (err x) = Unit

steady_clock-IsInRange : IsInRange steady_clock
steady_clock-IsInRange n time read = subst InRange read (omega arith)

text-IsAccepted :
    (c : ℕ) → IsAccepted text_format streams (stream_a, key_of key_k, string (c ∷ []), false)
unfolding is_utf8 as_str as_bytes serialize_payload_into Bytes.to_be_bytes Bytes.be_from
    Storage.Key.pad contains_key bytes_eq
text-IsAccepted c = record {
  stream = refl;
  name = stream_a-IsName;
  key = refl;
  key_short = omega arith;
  key_text = refl;
  value = refl;
  size = omega arith;
  crc = omega arith;
}

deletion-IsAccepted : IsAccepted text_format streams (stream_a, key_of key_k, null, true)
unfolding is_utf8 as_str as_bytes serialize_payload_into Bytes.to_be_bytes Bytes.be_from
    Storage.Key.pad contains_key bytes_eq
deletion-IsAccepted = record {
  stream = refl;
  name = stream_a-IsName;
  key = refl;
  key_short = omega arith;
  key_text = refl;
  value = refl;
  size = omega arith;
  crc = omega arith;
}

abbrev nothing : Live
nothing k = none

fresh_engine-IsDurable :
    EngineIsDurable text_format names stamps streams steady_clock steady_clock-IsInRange nothing
      fresh_engine
fresh_engine-IsDurable = record {
  segments = [];
  at_seq = λ n. none;
  holds = refl;
  own = tt;
  written = tt;
  known = tt;
  newest = λ k. (none, tt, refl);
}

execute_batch_append-IsDurable_example :
    Leaves text_format names stamps
      (Persists text_format names stamps streams steady_clock steady_clock-IsInRange script nothing
        fresh_engine)
      (Survives text_format names stamps streams steady_clock steady_clock-IsInRange nothing
        fresh_engine)
      (execute_batch_append text_format names stamps config steady_clock healthy script
        fresh_engine)
execute_batch_append-IsDurable_example =
    execute_batch_append-IsDurable text_format names stamps streams steady_clock
      steady_clock-IsInRange config healthy script fresh_engine nothing
      (text-IsAccepted 118, (text-IsAccepted 119, (deletion-IsAccepted, tt))) (omega arith)
      fresh_engine-IsDurable

-- of two frames of one key in two segments, the older one a tombstone
abbrev frame_at : ℕ → Option Pending
frame_at n = if n == 7 then some stored else if n == 5 then some removed else none

directory-IsDurable :
    IsDurable text_format streams
      (λ k. live_of (merge_all (all_records directory) (λ j. none) k))
      whole_directory.segments
      8
unfolding contains_key bytes_eq
directory-IsDurable = record {
  segments = directory;
  at_seq = frame_at;
  holds = refl;
  own = ((refl, tt), (tt, tt));
  written = directory-AreWritten;
  known = (
    (record { stream = refl; frame = refl; below = omega arith }, tt),
    ((record { stream = refl; frame = refl; below = omega arith }, tt), tt),
  );
  newest = λ k. (
    merge_all (all_records directory) (λ j. none) k,
    merge_all-IsNewest k (all_records directory),
    refl,
  );
}

recover-Restores_example :
    (o : Opened no_torn_region text_format now_ms names stamps recovery_limits) × (recover
        no_torn_region text_format now_ms names stamps recovery_limits whole_directory
      ≡ ok o)
    × Restores no_torn_region text_format now_ms names stamps recovery_limits streams
        (λ k. live_of (merge_all (all_records directory) (λ j. none) k))
        whole_directory
        o
recover-Restores_example =
    recover-Restores no_torn_region text_format now_ms names stamps recovery_limits streams
      (λ k. live_of (merge_all (all_records directory) (λ j. none) k)) whole_directory 8
      directory-IsDurable refl (omega arith) (omega arith)

abbrev describe : LivenError → Bytes
describe x = ascii "failed"

abbrev running : Flusher text_format names stamps config steady_clock describe
running = record { engine = fresh_engine; is_running = true; flush_batches = 0; flush_entries = 0 }

-- a pause, a batch that is written, and one whose write ends early
abbrev turns : List Turn
turns =
    timeout
    ∷ received (single stream_a (key_of key_k) (string (ascii "v")) false 1)
        (replace stream_a (key_of key_k) (string (ascii "w")) 2 ∷ []) healthy
    ∷ received (tombstone_batch stream_a (key_of key_k ∷ []) 3) []
        (record healthy { write = torn 5 false (ascii "short write") })
    ∷ []

run_flusher_loop-Outlives_example :
    Outlives text_format names stamps streams steady_clock steady_clock-IsInRange config describe
      turns running nothing
      (run_flusher_loop text_format names stamps config steady_clock describe turns running)
run_flusher_loop-Outlives_example =
    run_flusher_loop-Outlives text_format names stamps streams steady_clock steady_clock-IsInRange
      config describe turns running nothing
      (text-IsAccepted 118, (text-IsAccepted 119, (deletion-IsAccepted, tt))) (omega arith)
      fresh_engine-IsDurable
