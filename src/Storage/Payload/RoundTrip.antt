-- ===== src/Storage/Payload/RoundTrip.antt =====
-- A payload that is written is read back.
use liven.Prelude.{
  ℕ, ◌+◌, ◌%◌, ◌^◌, ◌<◌, ◌≡◌, refl, sym, ◌∙◌, true, ◌++◌, arith, length, All, le→ltb, length-append,
  take-append_exact, drop-append_exact,
}
use liven.Bytes.{Bytes, to_be_bytes, from_be_bytes, is_utf8}
use liven.Bytes.Words.{length-to_be_bytes, from_be_bytes-to_be_bytes, IsI8, map-i8_roundtrip}
use liven.Types.{
  DataValue, null, bool, int, uint, float, string, binary, array, object, vector, type_tag,
}
use liven.Error.{ok}
use liven.Storage.Payload.{
  PayloadFormat, value_bytes, serialize_payload_into, read_str, read_value,
  deserialize_payload_borrowed,
}

-- A name that the two-byte length can count, as the text that it is.
pub record IsName (s : Bytes) : Type 0 where
  pub short : length s < 2 ^ 16
  pub text : is_utf8 s ≡ true

-- the two bytes of a name's length
pub counted_name :
    (s : Bytes) → IsName s → from_be_bytes (to_be_bytes 2 (length s % 2 ^ 16)) ≡ length s
counted_name s h =
    from_be_bytes-to_be_bytes 2 (length s % 2 ^ 16) (omega arith) ∙ omega (arith, h.short)

module _ (format : PayloadFormat) where
  -- What reading back needs of a value: an int8 vector, or a value that the MessagePack library
  -- reads back.
  abbrev pub IsStorable : DataValue → Type 0
  IsStorable (vector v) = All IsI8 v
  IsStorable v = format.from_slice (format.write v) ≡ ok v

  read_value-value_bytes :
      (v : DataValue) → IsStorable v → read_value format (type_tag v) (value_bytes format v) ≡ ok v
  unfolding read_value value_bytes type_tag
  read_value-value_bytes null h = rw h refl
  read_value-value_bytes (bool _) h = rw h refl
  read_value-value_bytes (int _) h = rw h refl
  read_value-value_bytes (uint _) h = rw h refl
  read_value-value_bytes (float _) h = rw h refl
  read_value-value_bytes (string _) h = rw h refl
  read_value-value_bytes (binary _) h = rw h refl
  read_value-value_bytes (array _) h = rw h refl
  read_value-value_bytes (object _) h = rw h refl
  read_value-value_bytes (vector v) h = rw (map-i8_roundtrip v h) refl

  read_str-text : (s : Bytes) → is_utf8 s ≡ true → read_str format s ≡ ok s
  unfolding read_str
  read_str-text s h = rw h refl

  -- the reader on a payload of this shape
  deserialize_parts :
      (ws s wk k raw : Bytes) (tag : ℕ) (v : DataValue)
      → length ws ≡ 2
      → from_be_bytes ws ≡ length s
      → length wk ≡ 2
      → from_be_bytes wk ≡ length k
      → is_utf8 s ≡ true
      → is_utf8 k ≡ true
      → read_value format tag raw ≡ ok v
      → deserialize_payload_borrowed format (ws ++ (s ++ (wk ++ (k ++ raw)))) tag ≡ ok (s, k, v)
  unfolding deserialize_payload_borrowed
  deserialize_parts ws s wk k raw tag v ws2 slen wk2 klen us uk rv =
      rw
        (
          take-append_exact 2 ws (s ++ (wk ++ (k ++ raw))) (sym ws2),
          drop-append_exact 2 ws (s ++ (wk ++ (k ++ raw))) (sym ws2),
          slen,
        )
        (rw
          (
            take-append_exact (length s) s (wk ++ (k ++ raw)) refl,
            drop-append_exact (length s) s (wk ++ (k ++ raw)) refl,
            take-append_exact 2 wk (k ++ raw) (sym wk2),
            drop-append_exact 2 wk (k ++ raw) (sym wk2),
            klen,
          )
          (rw
            (
              take-append_exact (length k) k raw refl,
              drop-append_exact (length k) k raw refl,
              le→ltb n 4 (omega (arith, size)),
              le→ltb n (4 + length s) (omega (arith, size)),
              read_str-text s us,
            )
            (rw (le→ltb n (4 + length s + length k) (omega (arith, size)), read_str-text k uk)
              (rw rv))))
    where
      n : ℕ
      n = length (ws ++ (s ++ (wk ++ (k ++ raw))))

      size : n ≡ 4 + length s + length k + length raw
      size = omega (
        arith,
        length-append ws (s ++ (wk ++ (k ++ raw))),
        length-append s (wk ++ (k ++ raw)),
        length-append wk (k ++ raw),
        length-append k raw,
      )

  -- A storable value that is written under a stream and a key is read back with both, by the type
  -- tag that the header carries.
  pub deserialize-serialize :
      (stream key : Bytes) (v : DataValue)
      → IsName stream
      → IsName key
      → IsStorable v
      → deserialize_payload_borrowed format
          (serialize_payload_into format stream key v)
          (type_tag v)
        ≡ ok (stream, key, v)
  unfolding serialize_payload_into
  deserialize-serialize stream key v hs hk hv =
      deserialize_parts (to_be_bytes 2 (length stream % 2 ^ 16)) stream
        (to_be_bytes 2 (length key % 2 ^ 16)) key (value_bytes format v) (type_tag v) v
        (length-to_be_bytes 2 (length stream % 2 ^ 16)) (counted_name stream hs)
        (length-to_be_bytes 2 (length key % 2 ^ 16)) (counted_name key hk) hs.text hk.text
        (read_value-value_bytes v hv)
