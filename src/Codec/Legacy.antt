-- ===== src/Codec/Legacy.antt =====
-- Frames of protocol version 0, `[length: u32][kind][payload]`, as `decode` meets them.
use liven.Prelude.{
  ℕ, suc, ◌+◌, ◌*◌, ◌/◌, ◌%◌, ◌^◌, ◌<◌, ◌≡◌, none, ◌∷◌, ◌++◌, arith, length, lt→ltb, le→ltb,
}
use liven.Bytes.{Bytes, to_be_bytes, from_be_bytes, be_from}
use liven.Error.{ok}
use liven.Codec.{FrameFormat, decode_with, decode}

-- the bytes of a version 0 frame
abbrev pub legacy_frame : ℕ → Bytes → Bytes
legacy_frame kind payload = to_be_bytes 4 (suc (length payload)) ++ (kind ∷ payload)

module _ (format : FrameFormat) where
  -- A whole version 0 frame whose kind and payload take less than 16 MiB is never decoded: its first
  -- length byte is 0, so it is read as a version 1 header that announces more bytes than there are,
  -- and `decode` asks for more and consumes nothing.
  pub decode-legacy_frame :
      (kind : ℕ) (payload : Bytes)
      → suc (length payload) < 2 ^ 24
      → decode format (legacy_frame kind payload) ≡ (ok none, legacy_frame kind payload)
  unfolding decode decode_with to_be_bytes from_be_bytes be_from
  decode-legacy_frame kind payload small = rw top_byte (
      rw (
        le→ltb have 5 (omega arith),
        lt→ltb have
            (5 + ((((0 + n / 256 / 256 % 256) * 256 + n / 256 % 256) * 256 + n % 256) * 256 + kind))
            (omega arith),
      ))
    where
      n : ℕ
      n = suc (length payload)

      have : ℕ
      have = suc (suc (suc (suc n)))

      top_byte : n / 256 / 256 / 256 % 256 ≡ 0
      top_byte = omega arith
