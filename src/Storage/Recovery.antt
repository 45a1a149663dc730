-- ===== src/Storage/Recovery.antt =====
-- Recovery (src/storage.rs, `recover`): the segments of a data directory are replayed in the order of
-- their ids, each frame is merged by its sequence id into the indexes, and the tears that the replay
-- meets are noted for later. A segment is its bytes: reads of an open file do not fail, and the
-- locks on segment files are free.
pub mod Fuel
pub mod Views
pub mod Extent
pub mod Loads
pub mod Replays
pub mod Whole
pub mod Newest
pub mod Segments
pub mod Segmented
pub mod Directory
use liven.Prelude.{
  ℕ, zero, suc, ◌+◌, ◌%◌, ◌/◌, Bool, true, false, not, ◌&&◌, ◌||◌, Option, none, some, List, [],
  ◌∷◌, ltb, ◌==◌, if◌then◌else◌, length, take, drop,
}
use liven.Bytes.{Bytes, bytes_eq}
use liven.Types.{LogPointer, DataValue}
use liven.Error.{
  LivenError, stream_limit_exceeded, index_ram_limit_exceeded, Result, ok, err, ◌>>=◌,
}
use liven.Storage.Payload.{PayloadFormat, deserialize_payload_borrowed}
use liven.Storage.Frame.{FrameHeader, decode_frame_header}
use liven.Storage.SkipMap.{SkipMap, is_some}
use liven.Storage.TimestampIndex
use liven.Storage.Index.{
  Index, compound_key, primary_charge, timestamp_index_node_bytes, fetch_add, fetch_sub, get_stream,
  set_stream, stream_index, prune_timestamp_entry,
}
use liven.Storage.Index.Keys.{name_key, stamp_key, Stamp}
use liven.Storage.Flusher.{u64_add, contains_key}

pub data RecoveryMode : Type 0 where
  default repair strict : RecoveryMode

abbrev pub is_strict : RecoveryMode → Bool
is_strict RecoveryMode.strict = true
is_strict _ = false

-- why the replay of a segment stopped
pub data TearKind : Type 0 where
  torn_header torn_payload torn_crc unparsed trailing : TearKind

pub record DeferredTear : Type 0 where
  pub segment_id : ℕ
  pub file_len : ℕ
  pub offset : ℕ
  pub max_seq_in_prefix : ℕ
  pub kind : TearKind
  pub declared_payload_len : ℕ
  pub parse_error : Option LivenError

pub record RecoveryLimits : Type 0 where
  pub max_streams : ℕ
  pub max_index_ram_bytes : ℕ
  pub recovery_mode : RecoveryMode

abbrev pub max_of : ℕ → ℕ → ℕ
max_of a b = if ltb a b then b else a

-- `HashSet::insert`
unfoldable pub insert_name : Bytes → List Bytes → List Bytes
unfolding contains_key
insert_name s names = if contains_key s names then names else s ∷ names

abbrev pub flag_set : ℕ → ℕ → Bool
flag_set bit flags = not (flags / bit % 2 == 0)

abbrev pub pointer_seq : Option LogPointer → Option ℕ
pointer_seq none = none
pointer_seq (some p) = some p.seq_id

abbrev pub or_else : Option ℕ → Option ℕ → Option ℕ
or_else (some n) o = some n
or_else none o = o

abbrev pub is_above : ℕ → Option ℕ → Bool
is_above seq_id none = true
is_above seq_id (some cur) = ltb cur seq_id

-- what is kept of one segment while it is replayed
pub record SegmentScan : Type 0 where
  pub offset : ℕ
  pub seg_max_seq : ℕ
  pub seg_has_frame : Bool
  pub max_seq_in_prefix : ℕ
  pub tear : Option DeferredTear

module _ (format : PayloadFormat) (P : SkipMap Bytes LogPointer name_key)
    (T : SkipMap Stamp LogPointer stamp_key) (limits : RecoveryLimits) where
  pub record Replay : Type 0 where
    pub index : Index P T
    pub streams_set : List Bytes
    pub seq_watermarks : List (Bytes × ℕ)
    pub highest_seq : ℕ
    pub index_high_water_reached : Bool

  -- the watermark of a key, or the sequence id that the index has for it
  unfoldable pub current_seq : Bytes → Replay → Option ℕ
  current_seq key s =
      or_else (get_stream key s.seq_watermarks) (pointer_seq (P.get key s.index.skipmap))

  -- a tombstone that is newer
  unfoldable pub drop_key : Bytes → Bytes → Replay → Replay
  drop_key stream_name key s =
      let ix = prune_timestamp_entry P T stream_name key s.index in
      if is_some (P.get key ix.skipmap)
      then record s {
        index = record {
          skipmap = P.remove key ix.skipmap;
          timestamp_indexes = ix.timestamp_indexes;
          index_ram_bytes = fetch_sub ix.index_ram_bytes (primary_charge key);
        };
      }
      else record s { index = ix }

  -- an active frame that is newer: the charge is checked before the pointer is put in place
  unfoldable pub load_key : Bytes → Bytes → LogPointer → Replay → Result LivenError Replay
  load_key stream_name key pointer s =
      let ix = prune_timestamp_entry P T stream_name key s.index in
      let charge =
        if is_some (P.get key ix.skipmap)
        then timestamp_index_node_bytes
        else primary_charge key + timestamp_index_node_bytes in
      let current_ram = u64_add ix.index_ram_bytes charge in
      let over = ltb limits.max_index_ram_bytes current_ram in
      if over && is_strict limits.recovery_mode
      then err (index_ram_limit_exceeded limits.max_index_ram_bytes current_ram)
      else ok (record s {
        index = record {
          skipmap = P.insert key pointer ix.skipmap;
          timestamp_indexes =
              set_stream stream_name
                (TimestampIndex.insert T pointer.timestamp pointer.seq_id pointer
                  (stream_index P T stream_name ix.timestamp_indexes))
                ix.timestamp_indexes;
          index_ram_bytes = current_ram;
        };
        index_high_water_reached = s.index_high_water_reached || over;
      })

  abbrev pub register : Bytes → Replay → Result LivenError Replay
  register stream_name s =
      if ltb limits.max_streams (length (insert_name stream_name s.streams_set))
      then err (stream_limit_exceeded limits.max_streams)
      else ok (record s { streams_set = insert_name stream_name s.streams_set })

  abbrev pub load_newer : Bool → Bytes → Bytes → LogPointer → Replay → Result LivenError Replay
  load_newer true stream_name key pointer s = load_key stream_name key pointer s
  load_newer false stream_name key pointer s = ok s

  abbrev pub note_seq : Bool → Bytes → ℕ → Replay → Replay
  note_seq newer key seq_id s = record s {
    highest_seq = max_of s.highest_seq seq_id;
    seq_watermarks = if newer then set_stream key seq_id s.seq_watermarks else s.seq_watermarks;
  }

  -- one frame whose payload was read, by whether it is newer than what is known of its key
  abbrev pub apply_newer : Bool → LogPointer → ℕ → Bytes → Bytes → Replay → Result LivenError Replay
  apply_newer newer pointer flags stream_name key s =
      if flag_set 2 flags
      then ok (if newer then drop_key stream_name key s else s)
      else if flag_set 1 flags
      then (do r ← register stream_name s; load_newer newer stream_name key pointer r)
      else ok s

  unfoldable pub apply_frame : LogPointer → ℕ → Bytes → Bytes → Replay → Result LivenError Replay
  unfolding current_seq compound_key
  apply_frame pointer flags stream_name key s =
      let ck = compound_key stream_name key in
      let newer = is_above pointer.seq_id (current_seq ck s) in
      apply_newer newer pointer flags stream_name ck (note_seq newer ck pointer.seq_id s)

  abbrev pub tear_at : ℕ → ℕ → SegmentScan → TearKind → ℕ → Option LivenError → SegmentScan
  tear_at segment_id file_len c kind declared parse_error = record c {
    tear = some (record {
      segment_id = segment_id;
      file_len = file_len;
      offset = c.offset;
      max_seq_in_prefix = c.max_seq_in_prefix;
      kind = kind;
      declared_payload_len = declared;
      parse_error = parse_error;
    });
  }

  -- a frame that is whole counts for the choice of the active segment
  abbrev pub count_frame : ℕ → SegmentScan → SegmentScan
  count_frame seq_id c = record c {
    seg_max_seq = max_of c.seg_max_seq seq_id;
    seg_has_frame = true;
  }

  abbrev pub pass_frame : FrameHeader → SegmentScan → SegmentScan
  pass_frame h c = record c {
    offset = c.offset + (26 + h.payload_len);
    max_seq_in_prefix = max_of c.max_seq_in_prefix h.seq_id;
  }

  abbrev pub Replayed : Type 0
  Replayed = Result LivenError (Replay × SegmentScan)

  abbrev pub pointer_of : ℕ → FrameHeader → ℕ → LogPointer
  pointer_of segment_id h offset = record {
    segment_id = segment_id;
    file_offset = offset;
    seq_id = h.seq_id;
    timestamp = h.timestamp;
  }

  -- a whole frame with its payload read: a tear, or the frame applied and the rest of the segment
  abbrev pub parsed_frame :
      ℕ
      → ℕ
      → FrameHeader
      → SegmentScan
      → Replay
      → (SegmentScan → Replay → Replayed)
      → Result LivenError (Bytes × Bytes × DataValue)
      → Replayed
  parsed_frame segment_id file_len h c s next (err e) =
      ok (s, tear_at segment_id file_len c TearKind.unparsed 0 (some e))
  parsed_frame segment_id file_len h c s next (ok parts) = do
    s' ← apply_frame (pointer_of segment_id h c.offset) h.flags parts.0 parts.1 s
    next (pass_frame h c) s'

  abbrev pub read_frame :
      ℕ
      → ℕ
      → FrameHeader
      → Bytes
      → SegmentScan
      → Replay
      → (SegmentScan → Replay → Replayed)
      → Replayed
  read_frame segment_id file_len h body c s next =
      if ltb (length body) h.payload_len
      then ok (s, tear_at segment_id file_len c TearKind.torn_payload h.payload_len none)
      else if format.crc32 (take h.payload_len body) == h.crc32
      then parsed_frame segment_id file_len h (count_frame h.seq_id c) s next
          (deserialize_payload_borrowed format (take h.payload_len body) h.type_tag)
      else ok (s, tear_at segment_id file_len (count_frame h.seq_id c) TearKind.torn_crc 0 none)

  -- The bytes that follow the last whole frame are a tear too.
  abbrev pub end_segment : ℕ → ℕ → SegmentScan → Replay → Replayed
  end_segment segment_id file_len c s =
      if ltb c.offset file_len
      then ok (s, tear_at segment_id file_len c TearKind.trailing 0 none)
      else ok (s, c)

  -- `while offset + 26 <= file_len`, on the bytes from the offset on
  unfoldable pub replay_frames : ℕ → ℕ → Bytes → SegmentScan → Replay → Replayed
  replay_frames zero segment_id file c s = end_segment segment_id (length file) c s
  replay_frames (suc fuel) segment_id file c s =
      let rest = drop c.offset file in
      let h = decode_frame_header (take 26 rest) in
      let more =
        read_frame segment_id (length file) h (drop 26 rest) c s
          (λ c' s'. replay_frames fuel segment_id file c' s') in
      if ltb (length file) (c.offset + 26) then end_segment segment_id (length file) c s else more
