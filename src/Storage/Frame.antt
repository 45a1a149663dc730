-- ===== src/Storage/Frame.antt =====
-- Frames on disk (src/storage.rs): a header of 26 bytes, `seq_id(8) | timestamp(8) | type_tag(1) |
-- flags(1) | payload_len(4) | crc32(4)`, and the payload. Reading a frame through a pointer.
pub mod Header
pub mod Read
use liven.Prelude.{
  ℕ, ◌+◌, ◌%◌, ◌^◌, Bool, Option, none, some, List, [], ◌∷◌, ◌++◌, ℤ, map, ltb, leb, ◌==◌,
  if◌then◌else◌, length, take, drop, get_or, min, ◌&&◌,
}
use liven.Bytes.{Bytes, to_be_bytes, from_be_bytes, i64_bits, i64_of_bits, i8_of_bits}
use liven.Types.{LogPointer, Record}
use liven.Error.{
  LivenError, crc_mismatch, pointer_out_of_bounds, payload_out_of_bounds, io, Result, ok, err,
  ◌>>=◌,
}
use liven.Storage.Key.{from_str, as_str}
use liven.Storage.Payload.{PayloadFormat, serialize_payload_into, deserialize_payload_borrowed}

pub record FrameHeader : Type 0 where
  pub seq_id : ℕ
  pub timestamp : ℤ
  pub type_tag : ℕ
  pub flags : ℕ
  pub payload_len : ℕ
  pub crc32 : ℕ

-- `h` holds at least 26 bytes.
unfoldable pub decode_frame_header : Bytes → FrameHeader
decode_frame_header h = record {
  seq_id = from_be_bytes (take 8 h);
  timestamp = i64_of_bits (from_be_bytes (take 8 (drop 8 h)));
  type_tag = get_or h 16 0;
  flags = get_or h 17 0;
  payload_len = from_be_bytes (take 4 (drop 18 h));
  crc32 = from_be_bytes (take 4 (drop 22 h));
}

-- the header that the flusher writes before a payload: `payload.len() as u32` wraps
unfoldable pub header_bytes : ℕ → ℤ → ℕ → ℕ → ℕ → ℕ → Bytes
header_bytes seq_id timestamp type_tag flags payload_len crc =
    to_be_bytes 8 seq_id
    ++ (to_be_bytes 8 (i64_bits timestamp)
        ++ (type_tag ∷ flags ∷ (to_be_bytes 4 (payload_len % 2 ^ 32) ++ to_be_bytes 4 crc)))

module _ (format : PayloadFormat) where
  -- the frame of a record, as the flusher appends it to its buffer
  unfoldable pub frame_of : Record → Bytes
  frame_of r =
      let payload = serialize_payload_into format r.stream_name (as_str r.key) r.value in
      header_bytes r.sequence_id r.timestamp r.type_tag r.flags (length payload)
        (format.crc32 payload)
      ++ payload

  unfoldable pub decode_frame_payload : Bytes → FrameHeader → ℕ → ℕ → Result LivenError Record
  decode_frame_payload payload h segment_id offset =
      if format.crc32 payload == h.crc32
      then (do
        parts ← deserialize_payload_borrowed format payload h.type_tag
        stream_key ← from_str parts.1
        ok (record {
          sequence_id = h.seq_id;
          timestamp = h.timestamp;
          type_tag = h.type_tag;
          flags = h.flags;
          stream_name = parts.0;
          key = stream_key;
          value = parts.2;
        }))
      else err (crc_mismatch segment_id offset)

  -- `read_record` on the bytes of the pointer's segment file. One positional read brings up to 512
  -- bytes; `read_exact_at` serves a payload that goes past them.
  unfoldable pub read_record :
      (max_segment_size : ℕ) → Bytes → LogPointer → Result LivenError Record
  read_record max_segment_size file pointer =
      let at_offset = drop pointer.file_offset file in
      let chunk = take 512 at_offset in
      let h = decode_frame_header (take 26 chunk) in
      let frame_len = 26 + h.payload_len in
      if ltb (length chunk) 26
      then err (pointer_out_of_bounds pointer.segment_id pointer.file_offset)
      else if ltb max_segment_size h.payload_len
          && ltb (length file) (pointer.file_offset + frame_len)
      then err (payload_out_of_bounds pointer.segment_id pointer.file_offset)
      else if leb frame_len (length chunk)
      then decode_frame_payload (take h.payload_len (drop 26 chunk)) h pointer.segment_id
          pointer.file_offset
      else if ltb (length (drop 26 at_offset)) h.payload_len
      then err (payload_out_of_bounds pointer.segment_id pointer.file_offset)
      else decode_frame_payload (take h.payload_len (drop 26 at_offset)) h pointer.segment_id
          pointer.file_offset

-- `FrameReader::as_vector_slice`: the vector of a frame, with no copy
unfoldable pub as_vector_slice : Bytes → Option (List ℤ)
as_vector_slice bs =
    let payload_len = from_be_bytes (take 4 (drop 18 bs)) in
    let payload = take payload_len (drop 26 bs) in
    let stream_len = from_be_bytes (take 2 payload) in
    let key_len = from_be_bytes (take 2 (drop stream_len (drop 2 payload))) in
    if ltb (length bs) 26
    then none
    else if get_or bs 16 0 == 8
    then (if ltb (length bs) (26 + payload_len)
        then none
        else if ltb (length payload) 4
        then none
        else if ltb (length payload) (4 + stream_len)
        then none
        else if ltb (length payload) (2 + stream_len + 2 + key_len)
        then none
        else some (map i8_of_bits (drop key_len (drop 2 (drop stream_len (drop 2 payload))))))
    else none
