-- ===== src/Tests/Writes.antt =====
-- Write requests at an engine with no streams.
use liven.Prelude.{◌≡◌, refl, true, false, List, [], ◌∷◌, arith, map, replicate}
use liven.Bytes.{Bytes, ascii}
use liven.Types.{string, null, StreamKey, DataValue}
use liven.Error.{key_too_long, ok, err}
use liven.Storage.Key.{from_str}
use liven.Storage.Flusher.{single, batch, contains_key}
use liven.Storage.Writes.{
  Writer, WriteLimits, Entry, append_async, append_batch_async, batch_records,
}
use liven.Storage.Writes.Admits.{Admits, append_async-Admits}
use liven.Storage.Writes.Batches.{stream_of, append_batch_async-Admits}
use liven.Storage.Writes.Refused.{append_async-registers_refused}
use liven.Tests.Disk.{stream_a, key_k}
use liven.Tests.Flush.{names, stamps, fresh_engine}

abbrev idle : Writer
idle = record {
  failed = false;
  is_running = true;
  streams_set = [];
  index_high_water_reached = false;
  is_open = true;
  queue = [];
}

abbrev write_limits : WriteLimits
write_limits = record { max_streams = 2; max_index_ram_bytes = 1000; index_high_water_percent = 80 }

append_async-Admits_example :
    Admits write_limits
      (stream_a ∷ [])
      (λ entry.
        (k : StreamKey) × (from_str key_k ≡ ok k) × (entry ≡ single stream_a k null false 4))
      idle
      (append_async write_limits names stamps fresh_engine.index stream_a key_k null false 4 idle)
append_async-Admits_example =
    append_async-Admits write_limits names stamps fresh_engine.index stream_a key_k null false 4
      idle

abbrev entries : List Entry
entries = (stream_a, key_k, null) ∷ (ascii "b", key_k, string key_k) ∷ []

append_batch_async-Admits_example :
    Admits write_limits
      (map stream_of entries)
      (λ entry.
        (records : List (Bytes × StreamKey × DataValue)) × (batch_records entries ≡ ok records)
        × (entry ≡ batch records 4))
      idle
      (append_batch_async write_limits entries 4 idle)
append_batch_async-Admits_example = append_batch_async-Admits write_limits entries 4 idle

-- 33 bytes
abbrev long_key : Bytes
long_key = replicate 33 97

append_async-registers_refused_example :
    append_async write_limits names stamps fresh_engine.index stream_a long_key null true 4 idle
    ≡ (err (key_too_long 33 long_key), record idle { streams_set = stream_a ∷ [] })
unfolding contains_key
append_async-registers_refused_example =
    append_async-registers_refused write_limits names stamps fresh_engine.index stream_a long_key
      null 4 idle refl refl refl (omega arith) (omega arith)
