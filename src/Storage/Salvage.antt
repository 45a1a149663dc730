-- ===== src/Storage/Salvage.antt =====
-- Looking past a torn frame (src/storage.rs, `validate_frame_at` to `extract_key_at`): which bytes
-- of a segment file pass for a frame, where a readable run of frames starts again, and the frames of
-- the run. A file is its bytes. The reads of the code go no further than the length that was
-- compared before, so they succeed; the chunks that a scan or a checksum is read in are not seen.
pub mod Tears
pub mod Decisions
pub mod Frames
pub mod Refuses
pub mod Files
pub mod Keeps
pub mod Lossless
use liven.Prelude.{
  ℕ, zero, suc, ◌+◌, ◌-◌, ◌*◌, ◌^◌, Bool, true, false, not, ◌&&◌, ◌||◌, Option, none, some, List,
  [], ◌∷◌, ◌++◌, ltb, leb, ◌==◌, if◌then◌else◌, length, take, drop, min, ℤ, pos, ltb_ℤ, ◌+ℤ◌,
}
use liven.Bytes.{Bytes, ascii, from_be_bytes, is_utf8}
use liven.Error.{LivenError, Result, ok, err}
use liven.Types.{StreamKey}
use liven.Storage.Key.{from_str}
use liven.Storage.Payload.{PayloadFormat}
use liven.Storage.Frame.{FrameHeader, decode_frame_header}
use liven.Storage.SkipMap.{is_some}

pub record StrandedFrame : Type 0 where
  pub offset : ℕ
  pub len : ℕ

-- `u64::saturating_add` and `i64::saturating_add` of a positive number
abbrev pub u64_saturating_add : ℕ → ℕ → ℕ
u64_saturating_add a b = min (a + b) (2 ^ 64 - 1)

abbrev pub i64_saturating_add : ℤ → ℕ → ℤ
i64_saturating_add a b =
    if ltb_ℤ (pos (2 ^ 63 - 1)) (a +ℤ pos b) then pos (2 ^ 63 - 1) else a +ℤ pos b

-- 512 MiB
abbrev pub max_salvage_payload : ℕ
max_salvage_payload = 536870912

-- from the year 2000 to a day after now, in milliseconds
unfoldable pub is_plausible_timestamp : ℤ → ℤ → Bool
is_plausible_timestamp ts now_ms =
    not (ltb_ℤ ts (pos 946684800000)) && not (ltb_ℤ (i64_saturating_add now_ms 86400000) ts)

unfoldable pub header_shape_plausible : FrameHeader → ℤ → Option FrameHeader
unfolding is_plausible_timestamp
header_shape_plausible h now_ms =
    if h.seq_id == 0
      || not (is_plausible_timestamp h.timestamp now_ms)
      || ltb 9 h.type_tag
      || (not (h.flags == 1) && not (h.flags == 2))
      || not (leb 4 h.payload_len && leb h.payload_len max_salvage_payload)
    then none
    else some h

abbrev pub fits : ℕ → ℕ → FrameHeader → Bool
fits offset file_len h =
    leb (u64_saturating_add (u64_saturating_add offset 26) h.payload_len) file_len

abbrev pub fitting : ℕ → ℕ → Option FrameHeader → Option FrameHeader
fitting offset file_len none = none
fitting offset file_len (some h) = if fits offset file_len h then some h else none

unfoldable pub plausible_header : FrameHeader → ℕ → ℕ → ℤ → Option FrameHeader
unfolding header_shape_plausible
plausible_header h offset file_len now_ms =
    fitting offset file_len (header_shape_plausible h now_ms)

abbrev pub is_ok : Result LivenError StreamKey → Bool
is_ok (ok key) = true
is_ok (err e) = false

-- `stream_len`, a stream name, `key_len` and a key at the start of a payload
unfoldable pub has_structure : Bytes → Bool
has_structure payload =
    let stream_len = from_be_bytes (take 2 payload) in
    let key_len = from_be_bytes (take 2 (drop stream_len (drop 2 payload))) in
    let key = take key_len (drop 2 (drop stream_len (drop 2 payload))) in
    leb (4 + stream_len) (length payload)
    && leb (4 + stream_len + key_len) (length payload)
    && is_utf8 (take stream_len (drop 2 payload))
    && is_utf8 key
    && is_ok (from_str key)

-- the 26 bytes at an offset, and the bytes that follow them
abbrev pub header_at : Bytes → ℕ → FrameHeader
header_at file offset = decode_frame_header (take 26 (drop offset file))

abbrev pub payload_at : Bytes → ℕ → ℕ → Bytes
payload_at file offset payload_len = take payload_len (drop 26 (drop offset file))

module _ (format : PayloadFormat) where
  abbrev pub checked_frame : Bytes → ℕ → Option FrameHeader → Option (ℕ × ℕ)
  checked_frame file offset none = none
  checked_frame file offset (some h) =
      let payload = payload_at file offset h.payload_len in
      if has_structure payload && format.crc32 payload == h.crc32
      then some (26 + h.payload_len, h.seq_id)
      else none

  -- the length of the frame at an offset and its sequence id
  unfoldable pub validate_frame_at : Bytes → ℕ → ℤ → Option (ℕ × ℕ)
  unfolding plausible_header has_structure
  validate_frame_at file offset now_ms =
      if ltb (length file) (u64_saturating_add offset 26)
      then none
      else checked_frame file offset
          (plausible_header (header_at file offset) offset (length file) now_ms)

  -- `min_seq.is_none_or(|min| seq_id > min)`
  abbrev pub exceeds : Option ℕ → ℕ → Bool
  exceeds none seq_id = true
  exceeds (some min_seq) seq_id = ltb min_seq seq_id

  abbrev pub follows : Option ℕ → ℕ → Option (ℕ × ℕ) → Bool
  follows min_seq seq_id none = false
  follows none seq_id (some next) = true
  follows (some min_seq) seq_id (some next) = ltb seq_id next.1

  abbrev pub is_cut_off : ℕ → ℕ → Option FrameHeader → Bool
  is_cut_off offset file_len none = false
  is_cut_off offset file_len (some h) = not (fits offset file_len h)

  unfoldable pub tail_looks_torn : Bytes → ℕ → ℤ → Bool
  unfolding header_shape_plausible
  tail_looks_torn file offset now_ms =
      if leb (length file) offset
      then true
      else if ltb (length file - offset) 26
      then true
      else is_cut_off offset (length file) (header_shape_plausible (header_at file offset) now_ms)

  abbrev pub starts_run : Bytes → ℤ → Option ℕ → ℕ → Option (ℕ × ℕ) → Bool
  starts_run file now_ms min_seq offset none = false
  starts_run file now_ms min_seq offset (some (frame_len, seq_id)) =
      exceeds min_seq seq_id
      && (follows min_seq seq_id (validate_frame_at file (offset + frame_len) now_ms)
          || tail_looks_torn file (offset + frame_len) now_ms)

  -- whether the scan stops at a position
  unfoldable pub is_resync : Bytes → ℤ → Option ℕ → ℕ → Bool
  unfolding plausible_header validate_frame_at tail_looks_torn
  is_resync file now_ms min_seq offset =
      is_some (plausible_header (header_at file offset) offset (length file) now_ms)
      && starts_run file now_ms min_seq offset (validate_frame_at file offset now_ms)

  -- `while pos <= last_candidate`, a position at a time
  unfoldable pub resync_from : ℕ → Bytes → ℤ → Option ℕ → ℕ → Option ℕ
  unfolding is_resync
  resync_from zero file now_ms min_seq offset = none
  resync_from (suc fuel) file now_ms min_seq offset =
      let rest = resync_from fuel file now_ms min_seq (suc offset) in
      if is_resync file now_ms min_seq offset then some offset else rest

  unfoldable pub find_resync : Bytes → ℕ → ℤ → Option ℕ → Option ℕ
  unfolding resync_from
  find_resync file start now_ms min_seq =
      if ltb (length file) (u64_saturating_add start 26)
      then none
      else resync_from (suc (length file - 26) - start) file now_ms min_seq start

  -- `seq_id <= min.max(last_seq)`
  abbrev pub breaks_run : Option ℕ → ℕ → ℕ → Bool
  breaks_run none last_seq seq_id = false
  breaks_run (some min_seq) last_seq seq_id =
      leb seq_id (if ltb min_seq last_seq then last_seq else min_seq)

  abbrev pub push_frame : StrandedFrame → List StrandedFrame × ℕ → List StrandedFrame × ℕ
  push_frame f (frames, end) = (f ∷ frames, end)

  abbrev pub collect_next :
      Option ℕ → ℕ → ℕ → Option (ℕ × ℕ) → (ℕ → ℕ → List StrandedFrame × ℕ) → List StrandedFrame × ℕ
  collect_next min_seq offset last_seq none next = ([], offset)
  collect_next min_seq offset last_seq (some (frame_len, seq_id)) next =
      if breaks_run min_seq last_seq seq_id
      then ([], offset)
      else push_frame (record { offset = offset; len = frame_len })
          (next (offset + frame_len) seq_id)

  -- `while let Some((frame_len, seq_id)) = validate_frame_at(..)`, from an offset on
  unfoldable pub collect_from : ℕ → Bytes → ℤ → Option ℕ → ℕ → ℕ → List StrandedFrame × ℕ
  unfolding validate_frame_at
  collect_from zero file now_ms min_seq offset last_seq = ([], offset)
  collect_from (suc fuel) file now_ms min_seq offset last_seq =
      collect_next min_seq offset last_seq (validate_frame_at file offset now_ms)
        (λ next seq_id. collect_from fuel file now_ms min_seq next seq_id)

  abbrev pub or_zero : Option ℕ → ℕ
  or_zero none = 0
  or_zero (some n) = n

  -- A frame takes 26 bytes or more, so that the length of the file is enough fuel.
  unfoldable pub collect_stranded : Bytes → ℕ → ℤ → Option ℕ → List StrandedFrame × ℕ
  unfolding collect_from
  collect_stranded file resync now_ms min_seq =
      collect_from (length file) file now_ms min_seq resync (or_zero min_seq)

-- the "stream:key" label of a frame, whole or not
unfoldable pub extract_key_at : Bytes → ℕ → Option Bytes
extract_key_at file offset =
    let h = header_at file offset in
    let body = drop 26 (drop offset file) in
    let stream_len = from_be_bytes (take 2 body) in
    let stream = take stream_len (drop 2 body) in
    let key_len = from_be_bytes (take 2 (drop stream_len (drop 2 body))) in
    let key = take key_len (drop 2 (drop stream_len (drop 2 body))) in
    if ltb (length file) (u64_saturating_add offset 30)
    then none
    else if ltb 9 h.type_tag || ltb h.payload_len 4
    then none
    else if ltb h.payload_len (4 + stream_len) || ltb (length file) (offset + 30 + stream_len)
    then none
    else if not (is_utf8 stream)
    then none
    else if ltb h.payload_len (4 + stream_len + key_len)
        || ltb (length file) (offset + 26 + 4 + stream_len + key_len)
    then none
    else if is_utf8 key && is_ok (from_str key)
    then some (stream ++ (ascii ":" ++ key))
    else none
