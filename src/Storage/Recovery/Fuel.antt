-- ===== src/Storage/Recovery/Fuel.antt =====
-- The fuel of the replay of a segment.
use liven.Prelude.{
  ℕ, zero, suc, ◌+◌, ◌≤◌, ◌≡◌, refl, Bool-cases, inl, inr, arith, length, take, drop, ltb, lt→ltb,
  if◌then◌else◌, ◌==◌,
}
use liven.Bytes.{Bytes}
use liven.Types.{LogPointer, DataValue}
use liven.Error.{LivenError, Result, ok, err, ◌>>=◌}
use liven.Storage.Payload.{PayloadFormat, deserialize_payload_borrowed}
use liven.Storage.Frame.{FrameHeader, decode_frame_header}
use liven.Storage.SkipMap.{SkipMap}
use liven.Storage.Index.Keys.{name_key, stamp_key, Stamp}
use liven.Storage.Recovery.{
  RecoveryLimits, Replay, Replayed, SegmentScan, replay_frames, read_frame, parsed_frame,
  pass_frame, count_frame, apply_frame, pointer_of,
}

module _ (format : PayloadFormat) (P : SkipMap Bytes LogPointer name_key)
    (T : SkipMap Stamp LogPointer stamp_key) (limits : RecoveryLimits) where
  module _ (segment len : ℕ) (h : FrameHeader) (s : Replay format P T limits)
      (next other : SegmentScan → Replay format P T limits → Replayed format P T limits) where
    parsed_frame-same :
        (c : SegmentScan) (r : Result LivenError (Bytes × Bytes × DataValue))
        → ((s' : Replay format P T limits)
            → next (pass_frame format P T limits h c) s'
              ≡ other (pass_frame format P T limits h c) s')
        → parsed_frame format P T limits segment len h c s next r
          ≡ parsed_frame format P T limits segment len h c s other r
    parsed_frame-same c (err e) f = refl
    parsed_frame-same c (ok parts) f = go (
        apply_frame format P T limits (pointer_of format P T limits segment h c.offset) h.flags
          parts.0 parts.1 s)
      where
        go :
            (r : Result LivenError (Replay format P T limits))
            → (r >>= λ s'. next (pass_frame format P T limits h c) s')
              ≡ (r >>= λ s'. other (pass_frame format P T limits h c) s')
        go (ok s') = f s'
        go (err e) = refl

    -- A frame that is read goes on from the place after it.
    read_frame-same :
        (body : Bytes) (c : SegmentScan)
        → ((c' : SegmentScan) (s' : Replay format P T limits)
            → c.offset + 26 ≤ c'.offset
            → next c' s' ≡ other c' s')
        → read_frame format P T limits segment len h body c s next
          ≡ read_frame format P T limits segment len h body c s other
    read_frame-same body c f = elim (Bool-cases (ltb (length body) h.payload_len)) [
      | inl torn ↦ rw (torn, if◌then◌else◌) refl
      | inr whole ↦ elim (Bool-cases (format.crc32 (take h.payload_len body) == h.crc32)) [
        | inl good ↦
            rw (whole, good, if◌then◌else◌)
              (parsed_frame-same (count_frame format P T limits h.seq_id c)
                (deserialize_payload_borrowed format (take h.payload_len body) h.type_tag)
                (λ s'. f _ s' (omega arith)))
        | inr bad ↦ rw (whole, bad, if◌then◌else◌) refl
      ]
    ]

  -- The replay of a segment does not run out of fuel: on a file of any bytes, any two amounts that
  -- are at least as many as the bytes from the offset on give the same result.
  pub replay_frames-Terminates :
      (segment : ℕ) (file : Bytes) (m n : ℕ) (c : SegmentScan) (s : Replay format P T limits)
      → length file ≤ c.offset + m
      → length file ≤ c.offset + n
      → replay_frames format P T limits m segment file c s
        ≡ replay_frames format P T limits n segment file c s
  unfolding replay_frames
  replay_frames-Terminates segment file zero zero c s enough enough' = refl
  replay_frames-Terminates segment file zero (suc n) c s enough enough' =
      rw (lt→ltb (length file) (c.offset + 26) (omega (arith, enough)), if◌then◌else◌) refl
  replay_frames-Terminates segment file (suc m) zero c s enough enough' =
      rw (lt→ltb (length file) (c.offset + 26) (omega (arith, enough')), if◌then◌else◌) refl
  replay_frames-Terminates segment file (suc m) (suc n) c s enough enough' =
      elim (Bool-cases (ltb (length file) (c.offset + 26))) [
        | inl done ↦ rw (done, if◌then◌else◌) refl
        | inr room ↦
            rw (room, if◌then◌else◌)
              (read_frame-same segment (length file)
                (decode_frame_header (take 26 (drop c.offset file))) s
                (λ c' s'. replay_frames format P T limits m segment file c' s')
                (λ c' s'. replay_frames format P T limits n segment file c' s')
                (drop 26 (drop c.offset file)) c
                (λ c' s' later.
                  replay_frames-Terminates segment file m n c' s' (omega (arith, enough, later))
                    (omega (arith, enough', later))))
      ]
