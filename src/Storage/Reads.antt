-- ===== src/Storage/Reads.antt =====
-- Reads of the engine (src/storage.rs): one key, the keys of a stream, and the live and time-range
-- scans. The segment file of a pointer is taken to be there; nothing runs between the steps of a read.
pub mod Get
pub mod Scans
pub mod Complete
pub mod Sound
use liven.Prelude.{
  ℕ, ◌+◌, ◌/◌, ◌%◌, Bool, true, false, not, ◌&&◌, Option, none, some, List, [], ◌∷◌, ◌++◌, ℤ, leb_ℤ,
  ltb, leb, ◌==◌, min, if◌then◌else◌, length, drop,
}
use liven.Prelude.Sort.{sort}
use liven.Bytes.{Bytes, ascii, bytes_eq, bytes_lt}
use liven.Types.{LogPointer, Record}
use liven.Error.{LivenError, query, Result, ok, err, ◌>>=◌}
use liven.Storage.Key.{as_str}
use liven.Storage.Payload.{PayloadFormat}
use liven.Storage.Frame.{read_record}
use liven.Storage.SkipMap.{SkipMap}
use liven.Storage.TimestampIndex
use liven.Storage.Index.{Index, compound_key, get_stream}
use liven.Storage.Index.Keys.{name_key, stamp_key, Stamp}
use liven.Storage.Flusher.Batch.{Engine, segment_bytes}

-- the limits that reads go by
pub record ReadConfig : Type 0 where
  pub max_segment_size : ℕ
  pub max_scan_results : ℕ

-- `str::starts_with`
unfoldable pub has_prefix : Bytes → Bytes → Bool
has_prefix [] s = true
has_prefix (a ∷ p) [] = false
has_prefix (a ∷ p) (b ∷ s) = a == b && has_prefix p s

-- `format!("{}:", stream_name)`
abbrev pub stream_prefix : Bytes → Bytes
stream_prefix stream_name = stream_name ++ (b':' ∷ [])

abbrev pub by_sequence_id : Record → Record → Bool
by_sequence_id a b = leb a.sequence_id b.sequence_id

-- `rec.flags & 0x02 == 0`
abbrev pub is_live : Record → Bool
is_live r = r.flags / 2 % 2 == 0

module _ (format : PayloadFormat) (P : SkipMap Bytes LogPointer name_key)
    (T : SkipMap Stamp LogPointer stamp_key) (cfg : ReadConfig) where
  -- `StorageEngine::read_record`
  abbrev pub read_at : Engine format P T → LogPointer → Result LivenError Record
  read_at e p = read_record format cfg.max_segment_size (segment_bytes p.segment_id e.files) p

  abbrev pub read_entry : Engine format P T → Option LogPointer → Result LivenError (Option Record)
  read_entry e none = ok none
  read_entry e (some p) = do r ← read_at e p; ok (some r)

  unfoldable pub get : Engine format P T → Bytes → Bytes → Result LivenError (Option Record)
  get e stream_name key = read_entry e (P.get (compound_key stream_name key) e.index.skipmap)

  abbrev keys_with : Bytes → List (Bytes × LogPointer) → List Bytes
  keys_with prefix [] = []
  keys_with prefix ((k, p) ∷ m) =
      let rest = keys_with prefix m in
      if has_prefix prefix k then drop (length prefix) k ∷ rest else rest

  unfoldable pub list_keys : Engine format P T → Bytes → List Bytes
  unfolding has_prefix
  list_keys e stream_name = keys_with (stream_prefix stream_name) (P.entries e.index.skipmap)

  -- `skipmap.range(prefix..)`
  abbrev pub entries_from : Bytes → List (Bytes × LogPointer) → List (Bytes × LogPointer)
  entries_from prefix [] = []
  entries_from prefix ((k, p) ∷ m) =
      let rest = entries_from prefix m in if bytes_lt k prefix then rest else (k, p) ∷ m

  -- a read, and one more through the key's pointer of that moment
  abbrev pub retry : Engine format P T → Option LogPointer → Option Record
  retry e none = none
  retry e (some p) = elim (read_at e p) [ ok r ↦ some r | err x ↦ none ]

  abbrev pub read_live : Engine format P T → Bytes → LogPointer → Option Record
  read_live e key p = elim (read_at e p) [
    | ok r ↦ some r
    | err x ↦ retry e (P.get key e.index.skipmap)
  ]

  -- a record that was read, if it is of the stream
  abbrev pub push_of : Bytes → Option Record → List Record → List Record
  push_of stream_name none records = records
  push_of stream_name (some r) records =
      if bytes_eq r.stream_name stream_name then records ++ (r ∷ []) else records

  unfoldable pub scan_entries :
      Engine format P T → Bytes → ℕ → List (Bytes × LogPointer) → List Record → List Record
  unfolding has_prefix
  scan_entries e stream_name limit [] records = records
  scan_entries e stream_name limit ((key, p) ∷ m) records =
      let rest =
        scan_entries e stream_name limit m (push_of stream_name (read_live e key p) records) in
      if not (has_prefix (stream_prefix stream_name) key)
      then records
      else if leb limit (length records)
      then records
      else rest

  -- The error keeps the first words of its message.
  unfoldable pub scan_live_stream : Engine format P T → Bytes → ℕ → Result LivenError (List Record)
  unfolding scan_entries sort
  scan_live_stream e stream_name max_records =
      let records =
        scan_entries e stream_name (min max_records cfg.max_scan_results)
          (entries_from (stream_prefix stream_name) (P.entries e.index.skipmap)) [] in
      if leb cfg.max_scan_results (length records) && ltb cfg.max_scan_results max_records
      then err (query (ascii "Scan result limit reached"))
      else ok (sort by_sequence_id records)

  abbrev pub same_pointer : LogPointer → LogPointer → Bool
  same_pointer a b =
      a.segment_id == b.segment_id
      && a.file_offset == b.file_offset
      && a.seq_id == b.seq_id
      && leb_ℤ a.timestamp b.timestamp
      && leb_ℤ b.timestamp a.timestamp

  abbrev is_at : LogPointer → Option LogPointer → Bool
  is_at p none = false
  is_at p (some q) = same_pointer q p

  -- The frame is live, of the stream, in the range, and the one that its key points at.
  abbrev in_time : Engine format P T → Bytes → ℤ → ℤ → LogPointer → Record → Bool
  in_time e stream_name start_ms end_ms p r =
      bytes_eq r.stream_name stream_name
      && leb_ℤ start_ms r.timestamp
      && leb_ℤ r.timestamp end_ms
      && is_live r
      && is_at p (P.get (compound_key r.stream_name (as_str r.key)) e.index.skipmap)

  -- in the place of the record with the same key, or at the end
  unfoldable pub keep_latest : Record → List Record → List Record
  keep_latest r [] = r ∷ []
  keep_latest r (s ∷ records) =
      let rest = keep_latest r records in
      if bytes_eq r.stream_name s.stream_name && bytes_eq (as_str r.key) (as_str s.key)
      then r ∷ records
      else s ∷ rest

  abbrev accept : Bool → Record → List Record → List Record
  accept true r records = keep_latest r records
  accept false r records = records

  abbrev accept_read :
      Engine format P T
      → Bytes
      → ℤ
      → ℤ
      → LogPointer
      → Result LivenError Record
      → List Record
      → List Record
  accept_read e stream_name start_ms end_ms p (err x) records = records
  accept_read e stream_name start_ms end_ms p (ok r) records =
      accept (in_time e stream_name start_ms end_ms p r) r records

  unfoldable pub read_pointers :
      Engine format P T → Bytes → ℤ → ℤ → List LogPointer → List Record → List Record
  unfolding keep_latest
  read_pointers e stream_name start_ms end_ms [] records = records
  read_pointers e stream_name start_ms end_ms (p ∷ pointers) records =
      read_pointers e stream_name start_ms end_ms pointers
        (accept_read e stream_name start_ms end_ms p (read_at e p) records)

  unfoldable pub scan_by_time_range : Engine format P T → Bytes → ℤ → ℤ → List Record
  unfolding read_pointers TimestampIndex.range
  scan_by_time_range e stream_name start_ms end_ms =
      elim (get_stream stream_name e.index.timestamp_indexes) [
        | none ↦ []
        | some t ↦
            read_pointers e stream_name start_ms end_ms (TimestampIndex.range T start_ms end_ms t)
              []
      ]
