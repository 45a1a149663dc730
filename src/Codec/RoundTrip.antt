-- ===== src/Codec/RoundTrip.antt =====
-- A frame that `encode` writes is read back by `decode`, and never before its last byte is there.
use native.Mathlib.Decide.{dec_lt}
use liven.Prelude.{
  ℕ, zero, suc, ◌+◌, ◌%◌, ◌^◌, ◌<◌, ◌≡◌, refl, sym, ap, ◌∙◌, none, some, List, ◌∷◌, ◌++◌, ℤ, map,
  arith, length, take, All, length-append, take-append_exact, drop-append_exact, append_assoc,
  take-take, lt→ltb, le→ltb, length-take,
}
use liven.Bytes.{Bytes, to_be_bytes, from_be_bytes, i8_bits}
use liven.Bytes.Words.{length-to_be_bytes, from_be_bytes-to_be_bytes, IsI8, map-i8_roundtrip}
use liven.Error.{ok}
use liven.Codec.{
  LivenFrame, query, records, connect, ok_, err_, vector, FrameFormat, decode_frame, decode_with,
  decode, frame_bytes, encode,
}

module _ (format : FrameFormat) where
  -- a whole version 1 frame at the front of the buffer
  decode_whole :
      (w body rest : Bytes)
      → length w ≡ 4
      → from_be_bytes w ≡ length body
      → decode format (0x01 ∷ (w ++ (body ++ rest))) ≡ (decode_frame format body, rest)
  unfolding decode decode_with
  decode_whole w body rest h4 len = rw (take-append_exact 4 w (body ++ rest) (sym h4)) (
      rw (drop-append_exact 4 w (body ++ rest) (sym h4)) (
        rw (
          len,
          le→ltb (suc (length (w ++ (body ++ rest)))) 5 (omega (arith, room)),
          le→ltb (suc (length (w ++ (body ++ rest)))) (5 + length body) (omega (arith, room)),
          take-append_exact (length body) body rest refl,
          drop-append_exact (length body) body rest refl,
        )))
    where
      room : length (w ++ (body ++ rest)) ≡ 4 + (length body + length rest)
      room = omega (arith, length-append w (body ++ rest), length-append body rest)

  decode_torn :
      (n : ℕ) (w body : Bytes)
      → length w ≡ 4
      → from_be_bytes w ≡ length body
      → n < length (0x01 ∷ (w ++ body))
      → decode format (take n (0x01 ∷ (w ++ body))) ≡ (ok none, take n (0x01 ∷ (w ++ body)))
  unfolding decode decode_with
  decode_torn zero w body h4 len h = refl
  decode_torn (suc m) w body h4 len h = elim (dec_lt m 4) [
    | yes p ↦ rw (lt→ltb (suc (length (take m (w ++ body)))) 5 (omega (arith, kept)))
    | no p ↦ rw (
      take-take 4 m (w ++ body) (omega arith),
      take-append_exact 4 w body (sym h4),
      len,
      le→ltb (suc (length (take m (w ++ body)))) 5 (omega (arith, kept)),
      lt→ltb (suc (length (take m (w ++ body)))) (5 + length body) (omega (arith, kept, room)),
    )
  ]
    where
      room : length (w ++ body) ≡ 4 + length body
      room = omega (arith, length-append w body)

      kept : length (take m (w ++ body)) ≡ m
      kept = omega (arith, length-take m (w ++ body), room)

  -- What the bytes of a frame mean to the decoder.
  record IsWire (frame : LivenFrame) (wire : Bytes) : Type 0 where
    w : Bytes
    body : Bytes
    shape : wire ≡ 0x01 ∷ (w ++ body)
    four : length w ≡ 4
    counted : from_be_bytes w ≡ length body
    meaning : decode_frame format body ≡ ok (some frame)

  frame_bytes-IsWire :
      (frame : LivenFrame) (kind : ℕ) (payload : Bytes)
      → suc (length payload) < 2 ^ 32
      → decode_frame format (kind ∷ payload) ≡ ok (some frame)
      → IsWire frame (frame_bytes format kind payload)
  unfolding frame_bytes
  frame_bytes-IsWire frame kind payload small means = record {
    w = to_be_bytes 4 (suc (length payload) % 2 ^ 32);
    body = kind ∷ payload;
    shape = refl;
    four = length-to_be_bytes 4 (suc (length payload) % 2 ^ 32);
    counted =
        from_be_bytes-to_be_bytes 4 (suc (length payload) % 2 ^ 32) (omega arith) ∙ omega arith;
    meaning = means;
  }

  -- What the round trip needs of a frame: an int8 vector below 4 GiB, or a frame that the
  -- MessagePack library writes in less than 4 GiB and reads back.
  abbrev pub Encodable : LivenFrame → Bytes → Type 0
  Encodable (vector v) b = All IsI8 v × (b ≡ map i8_bits v) × (suc (length b) < 2 ^ 32)
  Encodable other b =
      (format.to_vec other ≡ ok b) × (format.from_slice b ≡ ok other) × (suc (length b) < 2 ^ 32)

  structured-IsWire :
      (frame : LivenFrame) (b : Bytes)
      → format.from_slice b ≡ ok frame
      → suc (length b) < 2 ^ 32
      → IsWire frame (frame_bytes format 0x02 b)
  structured-IsWire frame b reads small =
      frame_bytes-IsWire frame 0x02 b small (unfold decode_frame in rw reads refl)

  vector-IsWire :
      (v : List ℤ)
      → All IsI8 v
      → suc (length (map i8_bits v)) < 2 ^ 32
      → IsWire (vector v) (frame_bytes format 0x03 (map i8_bits v))
  vector-IsWire v range small =
      frame_bytes-IsWire (vector v) 0x03 (map i8_bits v) small
        (unfold decode_frame in rw (map-i8_roundtrip v range) refl)

  -- the bytes that `encode` appends for a frame with payload `b`
  wire_of : LivenFrame → Bytes → Bytes
  wire_of (vector v) b = frame_bytes format 0x03 b
  wire_of other b = frame_bytes format 0x02 b

  wire_of-IsWire :
      (frame : LivenFrame) (b : Bytes) → Encodable frame b → IsWire frame (wire_of frame b)
  unfolding wire_of
  wire_of-IsWire (vector v) b h = rw h.1 (vector-IsWire v h.0 (rw h.1 at h.2))
  wire_of-IsWire (query q) b h = structured-IsWire (query q) b h.1 h.2
  wire_of-IsWire (records r) b h = structured-IsWire (records r) b h.1 h.2
  wire_of-IsWire (connect c v) b h = structured-IsWire (connect c v) b h.1 h.2
  wire_of-IsWire ok_ b h = structured-IsWire ok_ b h.1 h.2
  wire_of-IsWire (err_ e) b h = structured-IsWire (err_ e) b h.1 h.2

  encode-wire_of :
      (frame : LivenFrame) (b dst : Bytes)
      → Encodable frame b
      → encode format frame dst ≡ ok (dst ++ wire_of frame b)
  unfolding wire_of encode
  encode-wire_of (vector v) b dst h = rw h.1 refl
  encode-wire_of (query q) b dst h = rw h.0 refl
  encode-wire_of (records r) b dst h = rw h.0 refl
  encode-wire_of (connect c v) b dst h = rw h.0 refl
  encode-wire_of ok_ b dst h = rw h.0 refl
  encode-wire_of (err_ e) b dst h = rw h.0 refl

  -- `encode` appends some bytes to the buffer, whatever the buffer holds. `decode` reads those bytes
  -- back as the frame, leaves what follows them, and asks for more, consuming nothing, as long as
  -- the last of them is missing. This is so of every frame that is `Encodable`.
  pub decode-encode :
      (frame : LivenFrame) (b : Bytes)
      → Encodable frame b
      → (wire : Bytes) × ((dst : Bytes) → encode format frame dst ≡ ok (dst ++ wire))
        × ((rest : Bytes) → decode format (wire ++ rest) ≡ (ok (some frame), rest))
        × ((n : ℕ) → n < length wire → decode format (take n wire) ≡ (ok none, take n wire))
  decode-encode frame b h = (wire_of frame b, λ dst. encode-wire_of frame b dst h, whole, torn)
    where
      is_wire : IsWire frame (wire_of frame b)
      is_wire = wire_of-IsWire frame b h

      whole : (rest : Bytes) → decode format (wire_of frame b ++ rest) ≡ (ok (some frame), rest)
      whole rest = rw is_wire.shape (
          rw (append_assoc is_wire.w is_wire.body rest) (
            decode_whole is_wire.w is_wire.body rest is_wire.four is_wire.counted
            ∙ ap (λ r. (r, rest)) is_wire.meaning))

      torn :
          (n : ℕ)
          → n < length (wire_of frame b)
          → decode format (take n (wire_of frame b)) ≡ (ok none, take n (wire_of frame b))
      torn n =
          rw is_wire.shape
            (λ short. decode_torn n is_wire.w is_wire.body is_wire.four is_wire.counted short)
