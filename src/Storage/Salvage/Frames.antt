-- ===== src/Storage/Salvage/Frames.antt =====
-- The frames that the flusher writes pass for frames when recovery looks past a tear.
use liven.Prelude.{
  inl, inr, ℕ, ◌+◌, ◌-◌, ◌%◌, ◌^◌, ◌<◌, ◌≤◌, ◌≡◌, ◌⊎◌, refl, sym, ◌∙◌, true, false, not, ◌&&◌, some,
  ◌++◌, arith, min, length, length-append, drop, ◌==◌, ==_iff, le→ltb, le→leb, append_assoc,
  take-append_exact, drop-append_exact, ℤ,
}
use liven.Bytes.{Bytes, to_be_bytes, from_be_bytes, is_utf8}
use liven.Bytes.Words.{length-to_be_bytes}
use liven.Types.{Record}
use liven.Storage.Key.{as_str}
use liven.Storage.Key.RoundTrip.{from_str_accepts}
use liven.Storage.Payload.{PayloadFormat, serialize_payload_into, value_bytes}
use liven.Storage.Payload.RoundTrip.{counted_name}
use liven.Storage.Frame.{frame_of}
use liven.Storage.Frame.Read.{
  IsWritable, payload_of, header_of, header_bytes_of, length-header_bytes_of,
  decode-header_bytes_of,
}
use liven.Storage.Salvage.{
  is_plausible_timestamp, header_shape_plausible, plausible_header, max_salvage_payload,
  has_structure, validate_frame_at, header_at, payload_at,
}

structure_parts :
    (ws s wk k raw : Bytes)
    → length ws ≡ 2
    → from_be_bytes ws ≡ length s
    → length wk ≡ 2
    → from_be_bytes wk ≡ length k
    → is_utf8 s ≡ true
    → is_utf8 k ≡ true
    → length k ≤ 32
    → has_structure (ws ++ (s ++ (wk ++ (k ++ raw)))) ≡ true
unfolding has_structure
structure_parts ws s wk k raw ws2 slen wk2 klen us uk short =
    rw
      (
        take-append_exact 2 ws (s ++ (wk ++ (k ++ raw))) (sym ws2),
        drop-append_exact 2 ws (s ++ (wk ++ (k ++ raw))) (sym ws2),
        slen,
      )
      (rw
        (
          take-append_exact (length s) s (wk ++ (k ++ raw)) refl,
          drop-append_exact (length s) s (wk ++ (k ++ raw)) refl,
          take-append_exact 2 wk (k ++ raw) (sym wk2),
          drop-append_exact 2 wk (k ++ raw) (sym wk2),
          klen,
        )
        (rw
          (
            take-append_exact (length k) k raw refl,
            le→leb (4 + length s) n (omega (arith, size)),
            le→leb (4 + length s + length k) n (omega (arith, size)),
            us,
            uk,
            from_str_accepts k short,
          )
          refl))
  where
    n : ℕ
    n = length (ws ++ (s ++ (wk ++ (k ++ raw))))

    size : n ≡ 4 + length s + length k + length raw
    size = omega (
      arith,
      length-append ws (s ++ (wk ++ (k ++ raw))),
      length-append s (wk ++ (k ++ raw)),
      length-append wk (k ++ raw),
      length-append k raw,
    )

module _ (format : PayloadFormat) where
  has_structure-payload_of :
      (r : Record) → IsWritable format r → has_structure (payload_of format r) ≡ true
  unfolding serialize_payload_into
  has_structure-payload_of r w =
      structure_parts (to_be_bytes 2 (length r.stream_name % 2 ^ 16)) r.stream_name
        (to_be_bytes 2 (length (as_str r.key) % 2 ^ 16)) (as_str r.key) (value_bytes format r.value)
        (length-to_be_bytes 2 (length r.stream_name % 2 ^ 16)) (counted_name r.stream_name w.name)
        (length-to_be_bytes 2 (length (as_str r.key) % 2 ^ 16))
        (counted_name (as_str r.key)
          (record { short = omega (arith, w.key_short); text = w.key_text }))
        w.name.text w.key_text w.key_short

  payload_of-least : (r : Record) → 4 ≤ length (payload_of format r)
  unfolding serialize_payload_into
  payload_of-least r = omega (
    arith,
    length-append (to_be_bytes 2 (length r.stream_name % 2 ^ 16)) (
        r.stream_name
        ++ (to_be_bytes 2 (length (as_str r.key) % 2 ^ 16)
            ++ (as_str r.key ++ value_bytes format r.value))),
    length-append r.stream_name (
        to_be_bytes 2 (length (as_str r.key) % 2 ^ 16)
        ++ (as_str r.key ++ value_bytes format r.value)),
    length-append (to_be_bytes 2 (length (as_str r.key) % 2 ^ 16))
        (as_str r.key ++ value_bytes format r.value),
    length-to_be_bytes 2 (length r.stream_name % 2 ^ 16),
    length-to_be_bytes 2 (length (as_str r.key) % 2 ^ 16),
  )

  -- what the flusher's clock, ids and flags meet
  pub record IsPlausible (now_ms : ℤ) (r : Record) : Type 0 where
    pub seq : 0 < r.sequence_id
    pub time : is_plausible_timestamp r.timestamp now_ms ≡ true
    pub tag : r.type_tag ≤ 9
    pub flags : (r.flags ≡ 1) ⊎ (r.flags ≡ 2)
    pub size : length (payload_of format r) ≤ max_salvage_payload

  header_shape_plausible-header_of :
      (now_ms : ℤ) (r : Record)
      → IsPlausible now_ms r
      → header_shape_plausible (header_of format r) now_ms ≡ some (header_of format r)
  unfolding header_shape_plausible
  header_shape_plausible-header_of now_ms r p =
      rw
        (
          positive r.sequence_id p.seq,
          p.time,
          le→ltb 9 r.type_tag p.tag,
          known r.flags p.flags,
          le→leb 4 (length (payload_of format r)) (payload_of-least r),
          le→leb (length (payload_of format r)) max_salvage_payload p.size,
        )
        refl
    where
      positive : (n : ℕ) → 0 < n → (n == 0) ≡ false
      positive n h = ground arith

      known : (n : ℕ) → (n ≡ 1) ⊎ (n ≡ 2) → (not (n == 1) && not (n == 2)) ≡ false
      known n (inl one) = rw one refl
      known n (inr two) = rw two refl

  module _ (now_ms : ℤ) (before after : Bytes) (r : Record) (w : IsWritable format r)
      (p : IsPlausible now_ms r) where
    abbrev file : Bytes
    file = before ++ (frame_of format r ++ after)

    at_frame :
        drop (length before) file ≡ header_bytes_of format r ++ (payload_of format r ++ after)
    unfolding frame_of
    at_frame =
        drop-append_exact (length before) before (frame_of format r ++ after) refl
        ∙ append_assoc (header_bytes_of format r) (payload_of format r) after

    header_at-frame : header_at file (length before) ≡ header_of format r
    header_at-frame =
        rw
          (
            at_frame,
            take-append_exact 26 (header_bytes_of format r) (payload_of format r ++ after)
                (sym (length-header_bytes_of format r)),
          )
          (decode-header_bytes_of format r w)

    payload_at-frame :
        payload_at file (length before) (length (payload_of format r)) ≡ payload_of format r
    payload_at-frame =
        rw
          (
            at_frame,
            drop-append_exact 26 (header_bytes_of format r) (payload_of format r ++ after)
                (sym (length-header_bytes_of format r)),
          )
          (take-append_exact (length (payload_of format r)) (payload_of format r) after refl)

    file_size : length file ≡ length before + (26 + (length (payload_of format r) + length after))
    unfolding frame_of
    file_size = omega (
      arith,
      length-append before (frame_of format r ++ after),
      length-append (frame_of format r) after,
      length-append (header_bytes_of format r) (payload_of format r),
      length-header_bytes_of format r,
    )

    pub plausible_header-frame :
        plausible_header (header_at file (length before)) (length before) (length file) now_ms
        ≡ some (header_of format r)
    unfolding plausible_header
    plausible_header-frame =
        rw (header_at-frame, header_shape_plausible-header_of now_ms r p)
          (rw
            (le→leb
              (min (min (length before + 26) (2 ^ 64 - 1) + length (payload_of format r))
                (2 ^ 64 - 1))
              (length file) (omega (arith, file_size)))
            refl)

    -- A frame that stands in a file passes, at its offset, for what it is.
    pub validate_frame_at-frame :
        validate_frame_at format file (length before) now_ms
        ≡ some (26 + length (payload_of format r), r.sequence_id)
    unfolding validate_frame_at
    validate_frame_at-frame =
        rw
          (
            le→ltb (length file) (min (length before + 26) (2 ^ 64 - 1)) (omega (arith, file_size)),
            plausible_header-frame,
            payload_at-frame,
            has_structure-payload_of r w,
            (==_iff (format.crc32 (payload_of format r)) (format.crc32 (payload_of format r))).1
                refl,
          )
          refl
