-- ===== src/Storage/Frame/Read.antt =====
-- A frame that stands in a segment file is read back through a pointer to it, whether the first
-- positional read covers it or not.
use native.Mathlib.Decide.{dec_le}
use liven.Prelude.{
  ℕ, ◌+◌, ◌^◌, ◌<◌, ◌≤◌, ◌≡◌, ◌≢◌, refl, sym, ◌∙◌, true, false, ◌++◌, [], arith, min, length, take,
  append-nil, append_assoc, length-append, length-take, take-take, take-append_exact,
  drop-append_exact, take-drop-take, ltb, ◌==◌, ==_iff, le→ltb, and_false, le→leb, lt→leb,
}
use liven.Bytes.{Bytes, is_utf8}
use liven.Bytes.Words.{IsI64}
use liven.Types.{LogPointer, Record, type_tag}
use liven.Error.{crc_mismatch, ok, err}
use liven.Storage.Key.{as_str}
use liven.Storage.Key.RoundTrip.{key_of, from_str_accepts}
use liven.Storage.Payload.{PayloadFormat, serialize_payload_into, deserialize_payload_borrowed}
use liven.Storage.Payload.RoundTrip.{IsName, IsStorable, deserialize-serialize}
use liven.Storage.Frame.{
  FrameHeader, decode_frame_header, header_bytes, frame_of, decode_frame_payload, read_record,
}
use liven.Storage.Frame.Header.{length-header_bytes, decode_frame_header-header_bytes}

module _ (format : PayloadFormat) where
  -- a file that has these 26 bytes and this payload at the pointer's offset
  read_parts :
      (max : ℕ) (pre hdr payload post : Bytes) (h : FrameHeader) (p : LogPointer)
      → p.file_offset ≡ length pre
      → length hdr ≡ 26
      → decode_frame_header hdr ≡ h
      → h.payload_len ≡ length payload
      → read_record format max (pre ++ (hdr ++ (payload ++ post))) p
        ≡ decode_frame_payload format payload h p.segment_id p.file_offset
  unfolding read_record
  read_parts max pre hdr payload post h p off h26 dec plen =
      rw (off, drop-append_exact (length pre) pre (hdr ++ (payload ++ post)) refl)
        (rw (take-take 26 512 (hdr ++ (payload ++ post)) (omega arith)) (
          rw (take-append_exact 26 hdr (payload ++ post) (sym h26)) (
            rw
              (
                dec,
                plen,
                le→ltb read 26 (omega (arith, seen, size)),
                le→ltb (length (pre ++ whole)) (length pre + (26 + length payload))
                    (omega (arith, length-append pre whole, size)),
                and_false (ltb max (length payload)),
              )
              (elim (dec_le (26 + length payload) read) [
                | yes near ↦ rw (
                  le→leb (26 + length payload) read near,
                  take-drop-take 26 (length payload) 512 whole (omega (arith, seen)),
                  drop-append_exact 26 hdr (payload ++ post) (sym h26),
                  take-append_exact (length payload) payload post refl,
                )
                | no far ↦ rw (
                  lt→leb (26 + length payload) read (omega arith),
                  drop-append_exact 26 hdr (payload ++ post) (sym h26),
                  le→ltb (length (payload ++ post)) (length payload)
                      (omega (arith, length-append payload post)),
                  take-append_exact (length payload) payload post refl,
                )
              ]))))
    where
      whole : Bytes
      whole = hdr ++ (payload ++ post)

      read : ℕ
      read = length (take 512 whole)

      size : length whole ≡ 26 + (length payload + length post)
      size = omega (arith, length-append hdr (payload ++ post), length-append payload post)

      seen : read ≡ min 512 (length whole)
      seen = length-take 512 whole

  -- What the flusher puts into a record: fields that fit, a name, a key made from a text, and the
  -- type tag of the value.
  pub record IsWritable (r : Record) : Type 0 where
    pub seq : r.sequence_id < 2 ^ 64
    pub time : IsI64 r.timestamp
    pub tag : r.type_tag ≡ type_tag r.value
    pub name : IsName r.stream_name
    pub key : r.key ≡ key_of (as_str r.key)
    pub key_short : length (as_str r.key) ≤ 32
    pub key_text : is_utf8 (as_str r.key) ≡ true
    pub value : IsStorable format r.value
    pub size : length (serialize_payload_into format r.stream_name (as_str r.key) r.value) < 2 ^ 32
    pub crc :
        format.crc32 (serialize_payload_into format r.stream_name (as_str r.key) r.value) < 2 ^ 32

  abbrev pub payload_of : Record → Bytes
  payload_of r = serialize_payload_into format r.stream_name (as_str r.key) r.value

  abbrev pub header_of : Record → FrameHeader
  header_of r = record {
    seq_id = r.sequence_id;
    timestamp = r.timestamp;
    type_tag = r.type_tag;
    flags = r.flags;
    payload_len = length (payload_of r);
    crc32 = format.crc32 (payload_of r);
  }

  pub deserialize-payload_of :
      (r : Record)
      → IsWritable r
      → deserialize_payload_borrowed format (payload_of r) r.type_tag
        ≡ ok (r.stream_name, as_str r.key, r.value)
  deserialize-payload_of r w = rw w.tag (
      deserialize-serialize format r.stream_name (as_str r.key) r.value w.name
        (record { short = omega (arith, w.key_short); text = w.key_text }) w.value)

  -- the 26 bytes before the payload of a record
  abbrev pub header_bytes_of : Record → Bytes
  header_bytes_of r =
      header_bytes r.sequence_id r.timestamp r.type_tag r.flags (length (payload_of r))
        (format.crc32 (payload_of r))

  pub length-header_bytes_of : (r : Record) → length (header_bytes_of r) ≡ 26
  length-header_bytes_of r =
      length-header_bytes r.sequence_id r.timestamp r.type_tag r.flags (length (payload_of r))
        (format.crc32 (payload_of r))

  pub length-frame_of : (r : Record) → length (frame_of format r) ≡ 26 + length (payload_of r)
  unfolding frame_of
  length-frame_of r =
      omega (arith, length-append (header_bytes_of r) (payload_of r), length-header_bytes_of r)

  pub decode-header_bytes_of :
      (r : Record) → IsWritable r → decode_frame_header (header_bytes_of r) ≡ header_of r
  decode-header_bytes_of r w = rw append-nil at (
      decode_frame_header-header_bytes r.sequence_id r.timestamp r.type_tag r.flags
        (length (payload_of r)) (format.crc32 (payload_of r)) [] w.seq w.time w.size w.crc)

  decode_frame_payload_lem :
      (r : Record) (segment offset : ℕ)
      → IsWritable r
      → decode_frame_payload format (payload_of r) (header_of r) segment offset ≡ ok r
  unfolding decode_frame_payload
  decode_frame_payload_lem r segment offset w = rw (
    (==_iff (format.crc32 (payload_of r)) (format.crc32 (payload_of r))).1 refl,
    deserialize-payload_of r w,
    from_str_accepts (as_str r.key) w.key_short,
    ← w.key,
  )

  -- The frame of a writable record, wherever it stands in a segment file, is read back as that
  -- record through a pointer to its first byte, for every limit on the segment size.
  pub read_record-frame_of :
      (max : ℕ) (pre post : Bytes) (r : Record) (p : LogPointer)
      → IsWritable r
      → p.file_offset ≡ length pre
      → read_record format max (pre ++ (frame_of format r ++ post)) p ≡ ok r
  unfolding frame_of
  read_record-frame_of max pre post r p w off =
      rw (append_assoc (header_bytes_of r) (payload_of r) post) (
        read_parts max pre (header_bytes_of r) (payload_of r) post (header_of r) p off
          (length-header_bytes_of r) (decode-header_bytes_of r w) refl
        ∙ decode_frame_payload_lem r p.segment_id p.file_offset w)

  -- A frame on disk whose payload was changed, its header and its length not, is reported as a CRC
  -- mismatch at its offset, when the checksum tells the new payload from the old one.
  pub read_record-corrupt :
      (max : ℕ) (pre post payload : Bytes) (r : Record) (p : LogPointer)
      → IsWritable r
      → p.file_offset ≡ length pre
      → length payload ≡ length (payload_of r)
      → format.crc32 payload ≢ format.crc32 (payload_of r)
      → read_record format max
          (pre
            ++ (header_bytes r.sequence_id r.timestamp r.type_tag r.flags
                  (length payload)
                  (format.crc32 (payload_of r))
                ++ (payload ++ post)))
          p
        ≡ err (crc_mismatch p.segment_id p.file_offset)
  unfolding decode_frame_payload
  read_record-corrupt max pre post payload r p w off same differs =
      read_parts max pre hdr payload post (record (header_of r) { payload_len = length payload }) p
        off
        (length-header_bytes r.sequence_id r.timestamp r.type_tag r.flags (length payload)
          (format.crc32 (payload_of r)))
        dec refl
      ∙ rw mismatch
    where
      hdr : Bytes
      hdr =
          header_bytes r.sequence_id r.timestamp r.type_tag r.flags (length payload)
            (format.crc32 (payload_of r))

      dec : decode_frame_header hdr ≡ record (header_of r) { payload_len = length payload }
      dec = rw append-nil at (
          decode_frame_header-header_bytes r.sequence_id r.timestamp r.type_tag r.flags
            (length payload) (format.crc32 (payload_of r)) [] w.seq w.time (rw same w.size) w.crc)

      mismatch : (format.crc32 payload == format.crc32 (payload_of r)) ≡ false
      mismatch = ground arith
