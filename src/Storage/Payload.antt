-- ===== src/Storage/Payload.antt =====
-- The payload of a frame (src/storage.rs, `serialize_payload_into`, `deserialize_payload_borrowed`,
-- `deserialize_payload`): `[stream length: u16][stream][key length: u16][key][value]`.
pub mod RoundTrip
use liven.Prelude.{
  ℕ, ◌+◌, ◌%◌, ◌^◌, Bool, List, ◌++◌, map, ltb, ◌==◌, if◌then◌else◌, length, take, drop,
}
use liven.Bytes.{Bytes, ascii, to_be_bytes, from_be_bytes, i8_bits, i8_of_bits, is_utf8}
use liven.Types.{DataValue, vector}
use liven.Error.{LivenError, payload_too_short, serialization, Result, ok, err, map_err, ◌>>=◌}

-- What the engine takes from libraries: MessagePack values (`rmp_serde`), where `write` gives the
-- bytes that reach the buffer and an error of `from_slice` is its text; the CRC-32 of `crc32fast`;
-- and the text of a `Utf8Error`.
pub record PayloadFormat : Type 0 where
  pub write : DataValue → Bytes
  pub from_slice : Bytes → Result Bytes DataValue
  pub crc32 : Bytes → ℕ
  pub utf8_error : Bytes → Bytes

module _ (format : PayloadFormat) where
  unfoldable pub value_bytes : DataValue → Bytes
  value_bytes (vector vec) = map i8_bits vec
  value_bytes other = format.write other

  -- `len() as u16` wraps.
  unfoldable pub serialize_payload_into : Bytes → Bytes → DataValue → Bytes
  unfolding value_bytes
  serialize_payload_into stream_name key value =
      to_be_bytes 2 (length stream_name % 2 ^ 16)
      ++ (stream_name ++ (to_be_bytes 2 (length key % 2 ^ 16) ++ (key ++ value_bytes value)))

  unfoldable pub read_str : Bytes → Result LivenError Bytes
  read_str bs = if is_utf8 bs then ok bs else err (serialization (format.utf8_error bs))

  unfoldable pub read_value : ℕ → Bytes → Result LivenError DataValue
  read_value type_tag raw =
      if type_tag == 8
      then ok (vector (map i8_of_bits raw))
      else map_err serialization (format.from_slice raw)

  unfoldable pub deserialize_payload_borrowed :
      Bytes → ℕ → Result LivenError (Bytes × Bytes × DataValue)
  deserialize_payload_borrowed payload type_tag =
      let stream_len = from_be_bytes (take 2 payload) in
      let key_len = from_be_bytes (take 2 (drop stream_len (drop 2 payload))) in
      let after = drop 2 (drop stream_len (drop 2 payload)) in
      if ltb (length payload) 4
      then err (payload_too_short (ascii "payload"))
      else if ltb (length payload) (4 + stream_len)
      then err (payload_too_short (ascii "stream name"))
      else do
        stream_name ← read_str (take stream_len (drop 2 payload))
        if ltb (length payload) (4 + stream_len + key_len)
            then err (payload_too_short (ascii "key"))
            else do
              key ← read_str (take key_len after)
              value ← read_value type_tag (drop key_len after)
              ok (stream_name, key, value)

  -- A structured reading first, then one as a raw vector.
  abbrev pub or_else {ℓ} :
      {A : Type ℓ} → Result LivenError A → Result LivenError A → Result LivenError A
  or_else (ok a) other = ok a
  or_else (err e) other = other

  unfoldable pub deserialize_payload : Bytes → Result LivenError (Bytes × Bytes × DataValue)
  unfolding deserialize_payload_borrowed
  deserialize_payload payload =
      or_else (deserialize_payload_borrowed payload 0x02) (deserialize_payload_borrowed payload 8)
