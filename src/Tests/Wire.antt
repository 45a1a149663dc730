-- ===== src/Tests/Wire.antt =====
-- The codec at concrete frames.
use liven.Prelude.{ℕ, ◌<◌, ◌≡◌, refl, none, some, [], ◌∷◌, ◌++◌, pos, negsuc, arith, length, take}
use liven.Bytes
use liven.Bytes.{Bytes, ascii}
use liven.Error.{ok, err}
use liven.Codec.{LivenFrame, vector, FrameFormat, decode, encode}
use liven.Codec.RoundTrip.{decode-encode}
use liven.Codec.Legacy.{legacy_frame, decode-legacy_frame}

-- a format that writes every frame as nothing
abbrev no_format : FrameFormat
no_format = record { to_vec = λ f. ok []; from_slice = λ b. err [] }

abbrev numbers : LivenFrame
numbers = vector (pos 5 ∷ negsuc 0 ∷ [])

encode_vector : encode no_format numbers [] ≡ ok (1 ∷ 0 ∷ 0 ∷ 0 ∷ 3 ∷ 3 ∷ 5 ∷ 255 ∷ [])
unfolding encode Bytes.to_be_bytes Bytes.i8_bits
encode_vector = refl

decode-encode_example :
    (wire : Bytes) × ((dst : Bytes) → encode no_format numbers dst ≡ ok (dst ++ wire))
    × ((rest : Bytes) → decode no_format (wire ++ rest) ≡ (ok (some numbers), rest))
    × ((n : ℕ) → n < length wire → decode no_format (take n wire) ≡ (ok none, take n wire))
unfolding Bytes.i8_bits
decode-encode_example =
    decode-encode no_format numbers (5 ∷ 255 ∷ []) (omega arith, refl, omega arith)

decode-legacy_frame_example :
    decode no_format (legacy_frame 3 (5 ∷ 255 ∷ [])) ≡ (ok none, legacy_frame 3 (5 ∷ 255 ∷ []))
decode-legacy_frame_example = decode-legacy_frame no_format 3 (5 ∷ 255 ∷ []) (omega arith)
