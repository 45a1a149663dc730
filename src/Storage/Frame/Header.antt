-- ===== src/Storage/Frame/Header.antt =====
-- The header of a frame reads back.
use liven.Prelude.{ℕ, ◌%◌, ◌^◌, ◌<◌, ◌≡◌, refl, ap, ◌∙◌, ◌++◌, ℤ, arith, length}
use liven.Bytes.{Bytes, to_be_bytes, from_be_bytes, i64_bits, i64_of_bits}
use liven.Bytes.Words.{from_be_bytes-to_be_bytes, IsI64, i64_bits-lt, i64_of_bits-i64_bits}
use liven.Storage.Frame.{decode_frame_header, header_bytes}

pub length-header_bytes : (s : ℕ) (t : ℤ) (g f n c : ℕ) → length (header_bytes s t g f n c) ≡ 26
unfolding header_bytes to_be_bytes
length-header_bytes s t g f n c = refl

-- The fields of a header that fit in their bytes are those that `decode_frame_header` finds,
-- whatever follows the header.
pub decode_frame_header-header_bytes :
    (s : ℕ) (t : ℤ) (g f n c : ℕ) (rest : Bytes)
    → s < 2 ^ 64
    → IsI64 t
    → n < 2 ^ 32
    → c < 2 ^ 32
    → decode_frame_header (header_bytes s t g f n c ++ rest)
      ≡ record { seq_id = s; timestamp = t; type_tag = g; flags = f; payload_len = n; crc32 = c }
unfolding decode_frame_header header_bytes to_be_bytes
decode_frame_header-header_bytes s t g f n c rest hs ht hn hc = λ i. record {
  seq_id = word s hs i;
  timestamp = stamp i;
  type_tag = g;
  flags = f;
  payload_len = len i;
  crc32 = from_be_bytes-to_be_bytes 4 c (omega arith) i;
}
  where
    word : (x : ℕ) → x < 2 ^ 64 → from_be_bytes (to_be_bytes 8 x) ≡ x
    word x h = from_be_bytes-to_be_bytes 8 x (omega arith)

    stamp : i64_of_bits (from_be_bytes (to_be_bytes 8 (i64_bits t))) ≡ t
    stamp =
        ap i64_of_bits (from_be_bytes-to_be_bytes 8 (i64_bits t) (i64_bits-lt t))
        ∙ i64_of_bits-i64_bits t ht

    len : from_be_bytes (to_be_bytes 4 (n % 2 ^ 32)) ≡ n
    len = from_be_bytes-to_be_bytes 4 (n % 2 ^ 32) (omega arith) ∙ omega arith
