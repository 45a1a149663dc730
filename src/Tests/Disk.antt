-- ===== src/Tests/Disk.antt =====
-- The storage engine at a concrete record, file and batch.
use liven.Prelude.{ℕ, ◌+◌, ◌^◌, ◌<◌, ℤ, ◌≡◌, refl, [], ◌∷◌, ◌++◌, pos, arith, length, take, drop}
use liven.Bytes
use liven.Storage
use liven.Bytes.{Bytes, ascii, is_utf8}
use liven.Bytes.Words.{IsI64}
use liven.Types.{DataValue, null, string, LogPointer, Record, type_tag}
use liven.Error.{Result, crc_mismatch, ok, err}
use liven.Storage.Key.{from_str_truncated, as_str, as_bytes}
use liven.Storage.Key.RoundTrip.{key_of}
use liven.Storage.Key.Truncate.{IsLongestPrefix, from_str_truncated-IsLongestPrefix}
use liven.Storage.Payload.{PayloadFormat, serialize_payload_into, deserialize_payload_borrowed}
use liven.Storage.Payload.RoundTrip.{IsName, deserialize-serialize}
use liven.Storage.Frame.{frame_of, header_bytes, decode_frame_header, read_record}
use liven.Storage.Frame.Header.{decode_frame_header-header_bytes}
use liven.Storage.Frame.Read.{IsWritable, read_record-frame_of, read_record-corrupt}

-- values as the text that they hold, null as none, and the length for a checksum
abbrev write_text : DataValue → Bytes
write_text (string s) = s
write_text _ = []

abbrev read_text : Bytes → Result Bytes DataValue
read_text [] = ok null
read_text (b ∷ bs) = ok (string (b ∷ bs))

abbrev pub text_format : PayloadFormat
text_format = record {
  write = write_text;
  from_slice = read_text;
  crc32 = λ b. Bytes.be_from 0 (take 1 b) + length b;
  utf8_error = λ b. [];
}

abbrev pub stream_a : Bytes
stream_a = ascii "a"

abbrev pub key_k : Bytes
key_k = ascii "k"

abbrev pub sample : Record
sample = record {
  sequence_id = 7;
  timestamp = pos 1000;
  type_tag = 5;
  flags = 1;
  stream_name = stream_a;
  key = key_of key_k;
  value = string (ascii "v");
}

pub stream_a-IsName : IsName stream_a
unfolding is_utf8
stream_a-IsName = record { short = omega arith; text = refl }

key_k-IsName : IsName key_k
unfolding is_utf8
key_k-IsName = record { short = omega arith; text = refl }

-- the same at another time
abbrev pub sample_at : ℕ → ℤ → ℕ → Record
sample_at n time flags = record sample { sequence_id = n; timestamp = time; flags = flags }

pub sample_at-IsWritable :
    (n : ℕ) (time : ℤ) (flags : ℕ)
    → n < 2 ^ 64
    → IsI64 time
    → IsWritable text_format (sample_at n time flags)
unfolding is_utf8 as_str as_bytes serialize_payload_into Bytes.to_be_bytes type_tag Bytes.be_from
    Storage.Key.pad
sample_at-IsWritable n time flags small in_range = record {
  seq = small;
  time = in_range;
  tag = refl;
  name = stream_a-IsName;
  key = refl;
  key_short = omega arith;
  key_text = refl;
  value = refl;
  size = omega arith;
  crc = omega arith;
}

pub sample-IsWritable : IsWritable text_format sample
sample-IsWritable = sample_at-IsWritable 7 (pos 1000) 1 (omega arith) (omega arith)

abbrev sample_pointer : LogPointer
sample_pointer = record { segment_id = 3; file_offset = 2; seq_id = 7; timestamp = pos 1000 }

deserialize-serialize_example :
    deserialize_payload_borrowed text_format
      (serialize_payload_into text_format stream_a key_k (string (ascii "v")))
      (type_tag (string (ascii "v")))
    ≡ ok (stream_a, key_k, string (ascii "v"))
deserialize-serialize_example =
    deserialize-serialize text_format stream_a key_k (string (ascii "v")) stream_a-IsName
      key_k-IsName refl

decode_frame_header-header_bytes_example :
    decode_frame_header (header_bytes 7 (pos 1000) 5 1 8 9 ++ (4 ∷ [])) ≡ record {
      seq_id = 7;
      timestamp = pos 1000;
      type_tag = 5;
      flags = 1;
      payload_len = 8;
      crc32 = 9;
    }
decode_frame_header-header_bytes_example =
    decode_frame_header-header_bytes 7 (pos 1000) 5 1 8 9 (4 ∷ []) (omega arith) (omega arith)
      (omega arith) (omega arith)

read_record-frame_of_example :
    read_record text_format 100
      ((9 ∷ 9 ∷ []) ++ (frame_of text_format sample ++ (5 ∷ [])))
      sample_pointer
    ≡ ok sample
read_record-frame_of_example =
    read_record-frame_of text_format 100 (9 ∷ 9 ∷ []) (5 ∷ []) sample sample_pointer
      sample-IsWritable refl

-- the truncated key of a short text
from_str_truncated-IsLongestPrefix_example :
    IsLongestPrefix key_k (as_str (from_str_truncated key_k))
unfolding is_utf8
from_str_truncated-IsLongestPrefix_example = from_str_truncated-IsLongestPrefix key_k refl

-- the sample's frame with another byte in its payload
abbrev sample_changed : Bytes
sample_changed = 3 ∷ drop 1 (serialize_payload_into text_format stream_a key_k (string (ascii "v")))

read_record-corrupt_example :
    read_record text_format 100
      ((9 ∷ 9 ∷ [])
        ++ (header_bytes 7 (pos 1000) 5 1 (length sample_changed) (
              text_format.crc32
                (serialize_payload_into text_format stream_a key_k (string (ascii "v"))))
            ++ (sample_changed ++ (5 ∷ []))))
      sample_pointer
    ≡ err (crc_mismatch 3 2)
unfolding is_utf8 as_str as_bytes serialize_payload_into Bytes.to_be_bytes type_tag Bytes.be_from
    Storage.Key.pad
read_record-corrupt_example =
    read_record-corrupt text_format 100 (9 ∷ 9 ∷ []) (5 ∷ []) sample_changed sample sample_pointer
      sample-IsWritable refl refl (λ h. omega (arith, h))
