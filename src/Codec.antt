-- ===== src/Codec.antt =====
-- src/codec.rs: the wire frames of client and server. A frame is `[version][length: u32][kind]` and
-- a payload; `decode` consumes a whole frame from the front of the buffer or leaves it alone.
pub mod RoundTrip
pub mod Legacy
use liven.Prelude.{
  ℕ, suc, ◌+◌, ◌%◌, ◌^◌, Bool, ◌||◌, Option, none, some, List, [], ◌∷◌, ◌++◌, ℤ, map, ltb, ◌==◌,
  if◌then◌else◌, length, take, drop,
}
use liven.Bytes.{Bytes, to_be_bytes, from_be_bytes, i8_bits, i8_of_bits}
use liven.Types.{Record}
use liven.Error.{Result, ok, err}

pub data LivenFrame : Type 0 where
  query : Bytes → LivenFrame
  records : List Record → LivenFrame
  connect : Bytes → Option ℕ → LivenFrame
  ok_ : LivenFrame
  err_ : Bytes → LivenFrame
  vector : List ℤ → LivenFrame

-- The `io::Error`s of the codec: all have the kind `InvalidData`.
pub data CodecError : Type 0 where
  empty_payload : CodecError
  msgpack : Bytes → CodecError
  unknown_discriminator : ℕ → CodecError

-- The MessagePack library on frames (`rmp_serde`): an error is its text.
pub record FrameFormat : Type 0 where
  pub to_vec : LivenFrame → Result Bytes Bytes
  pub from_slice : Bytes → Result Bytes LivenFrame

-- What a call of `decode` leaves: its result, and the bytes still in the buffer.
abbrev pub Decoded : Type 0
Decoded = Result CodecError (Option LivenFrame) × Bytes

module _ (format : FrameFormat) where
  abbrev structured : Result Bytes LivenFrame → Result CodecError (Option LivenFrame)
  structured (ok frame) = ok (some frame)
  structured (err e) = err (msgpack e)

  abbrev fallback : ℕ → Result Bytes LivenFrame → Result CodecError (Option LivenFrame)
  fallback discriminator (ok frame) = ok (some frame)
  fallback discriminator (err e) = err (unknown_discriminator discriminator)

  unfoldable pub decode_frame : Bytes → Result CodecError (Option LivenFrame)
  decode_frame [] = err empty_payload
  decode_frame (discriminator ∷ rest) =
      if discriminator == 0x03
      then ok (some (vector (map i8_of_bits rest)))
      else if discriminator == 0x02
      then structured (format.from_slice rest)
      else fallback discriminator (format.from_slice (discriminator ∷ rest))

  -- One protocol version: `src` has `header` bytes of version and length, the length in the last
  -- four of them. `src.reserve` only grows the allocation.
  unfoldable pub decode_with : (header skip : ℕ) → Bytes → Decoded
  unfolding decode_frame
  decode_with header skip src =
      if ltb (length src) header
      then (ok none, src)
      else let len = from_be_bytes (take 4 (drop skip src)) in
        if ltb (length src) (header + len)
        then (ok none, src)
        else (decode_frame (take len (drop header src)), drop len (drop header src))

  unfoldable pub decode : Bytes → Decoded
  unfolding decode_with
  decode [] = (ok none, [])
  decode (first ∷ rest) =
      if first == 0x00 || first == 0x01
      then decode_with 5 1 (first ∷ rest)
      else decode_with 4 0 (first ∷ rest)

  -- the five header bytes, the kind, and the payload: `(payload_len as u32).to_be_bytes()` wraps
  unfoldable pub frame_bytes : ℕ → Bytes → Bytes
  frame_bytes discriminator payload =
      0x01 ∷ (to_be_bytes 4 (suc (length payload) % 2 ^ 32) ++ (discriminator ∷ payload))

  abbrev pub append_structured : Bytes → Result Bytes Bytes → Result CodecError Bytes
  append_structured dst (ok serialized) = ok (dst ++ frame_bytes 0x02 serialized)
  append_structured dst (err e) = err (msgpack e)

  -- `encode` appends to `dst`.
  unfoldable pub encode : LivenFrame → Bytes → Result CodecError Bytes
  unfolding frame_bytes
  encode (vector vec) dst = ok (dst ++ frame_bytes 0x03 (map i8_bits vec))
  encode other dst = append_structured dst (format.to_vec other)

  -- the encoders of records and of query texts
  unfoldable pub encode_records : List Record → Bytes → Result CodecError Bytes
  unfolding encode
  encode_records items dst = encode (records items) dst

  unfoldable pub encode_query : Bytes → Bytes → Result CodecError Bytes
  unfolding encode
  encode_query item dst = encode (query item) dst
