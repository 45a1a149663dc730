-- ===== src/Storage/Recovery/Whole.antt =====
-- The replay of segments that hold whole frames only.
use liven.Prelude.{
  ℕ, zero, suc, ◌+◌, ◌≤◌, ◌≡◌, refl, sym, ap, ◌∙◌, none, List, [], ◌∷◌, ◌++◌, arith, length,
  length-append, append-nil, append_assoc, All, take, drop, take-append_exact, drop-append_exact,
  le→ltb, lt→ltb, ==_iff, if◌then◌else◌,
}
use liven.Bytes.{Bytes}
use liven.Types.{LogPointer, Record}
use liven.Error.{LivenError, Result, ok, err, ◌>>=◌}
use liven.Storage.Key.{as_str}
use liven.Storage.Payload.{PayloadFormat}
use liven.Storage.Frame.{decode_frame_header, frame_of}
use liven.Storage.Frame.Read.{
  IsWritable, payload_of, header_of, header_bytes_of, length-header_bytes_of, length-frame_of,
  decode-header_bytes_of, deserialize-payload_of,
}
use liven.Storage.SkipMap.{SkipMap}
use liven.Storage.Index.Keys.{name_key, stamp_key, Stamp}
use liven.Storage.Flusher.{Pending}
use liven.Storage.Flusher.Built.{frames_of}
use liven.Storage.Flusher.Stands.{StandsAt}
use liven.Storage.Flusher.Batch.{segment_bytes}
use liven.Storage.Recovery.{
  RecoveryLimits, Replay, SegmentScan, apply_frame, read_frame, replay_frames, pointer_of,
  pass_frame, count_frame, Replayed,
}
use liven.Storage.Recovery.Extent.{Extent}
use liven.Storage.Recovery.Loads.{IsLimit, Loads}
use liven.Storage.Recovery.Replays.{IsWithin, Represents, apply_frame-Represents}
use liven.Storage.Recovery.Views.{View, merge, merge_all, AreWritten}

module _ (format : PayloadFormat) (P : SkipMap Bytes LogPointer name_key)
    (T : SkipMap Stamp LogPointer stamp_key) (limits : RecoveryLimits) where
  read_frame-frame_of :
      (segment file_len : ℕ) (r : Record) (more : Bytes) (c : SegmentScan)
      (s : Replay format P T limits)
      (next : SegmentScan → Replay format P T limits → Replayed format P T limits)
      → IsWritable format r
      → read_frame format P T limits segment file_len
          (decode_frame_header (take 26 (frame_of format r ++ more)))
          (drop 26 (frame_of format r ++ more))
          c
          s
          next
        ≡ (apply_frame format P T limits
              (pointer_of format P T limits segment (header_of format r) c.offset)
              r.flags
              r.stream_name
              (as_str r.key)
              s
            >>= λ s'.
                next
                  (pass_frame format P T limits
                    (header_of format r)
                    (count_frame format P T limits r.sequence_id c))
                  s')
  unfolding frame_of
  read_frame-frame_of segment file_len r more c s next w =
      rw
        (
          append_assoc (header_bytes_of format r) (payload_of format r) more,
          take-append_exact 26 (header_bytes_of format r) (payload_of format r ++ more)
              (sym (length-header_bytes_of format r)),
          drop-append_exact 26 (header_bytes_of format r) (payload_of format r ++ more)
              (sym (length-header_bytes_of format r)),
          decode-header_bytes_of format r w,
          le→ltb (length (payload_of format r ++ more)) (length (payload_of format r))
              (omega (arith, length-append (payload_of format r) more)),
          take-append_exact (length (payload_of format r)) (payload_of format r) more refl,
          (==_iff (format.crc32 (payload_of format r)) (format.crc32 (payload_of format r))).1 refl,
          deserialize-payload_of format r w,
        )
        refl

module _ (format : PayloadFormat) (P : SkipMap Bytes LogPointer name_key)
    (T : SkipMap Stamp LogPointer stamp_key) (limits : RecoveryLimits) (within : Extent) where
  module _ (files : List (ℕ × Bytes)) where
    -- an error that a limit leads to, or the view with no tear
    abbrev pub Replays : View → Replayed format P T limits → Type 0
    Replays v (err x) = IsLimit format P T limits within x
    Replays v (ok (s, c)) = Represents format P T limits within files v s × (c.tear ≡ none)

    Loads-bind :
        (v u : View) (r : Result LivenError (Replay format P T limits))
        (k : Replay format P T limits → Replayed format P T limits)
        → Loads format P T limits within (Represents format P T limits within files v) r
        → ((s : Replay format P T limits)
            → Represents format P T limits within files v s
            → Replays u (k s))
        → Replays u (r >>= k)
    Loads-bind v u (ok s) k h f = f s h
    Loads-bind v u (err x) k h f = h

    module _ (segment : ℕ) (file : Bytes) (there : segment_bytes segment files ≡ file) where
      end-Replays :
          (fuel : ℕ) (c : SegmentScan) (s : Replay format P T limits) (v : View)
          → c.offset ≡ length file
          → c.tear ≡ none
          → Represents format P T limits within files v s
          → Replays v (replay_frames format P T limits fuel segment file c s)
      unfolding replay_frames
      end-Replays zero c s v off whole h =
          rw (le→ltb c.offset (length file) (omega (arith, off)), if◌then◌else◌) (h, whole)
      end-Replays (suc fuel) c s v off whole h =
          rw
            (
              lt→ltb (length file) (c.offset + 26) (omega (arith, off)),
              if◌then◌else◌,
              le→ltb c.offset (length file) (omega (arith, off)),
            )
            (h, whole)

      stands :
          (r : Record) (before after : Bytes) (c : SegmentScan)
          → file ≡ before ++ (frame_of format r ++ after)
          → c.offset ≡ length before
          → StandsAt format
              (segment_bytes segment files)
              (pointer_of format P T limits segment (header_of format r) c.offset)
              r
      stands r before after c e off = record {
        before = before;
        after = after;
        holds = there ∙ e;
        offset = off;
      }

      pub replay_frames-Replays :
          (ps : List Pending) (fuel : ℕ) (before : Bytes) (c : SegmentScan)
          (s : Replay format P T limits) (v : View)
          → file ≡ before ++ frames_of format ps
          → c.offset ≡ length before
          → c.tear ≡ none
          → length (frames_of format ps) ≤ fuel
          → AreWritten format ps
          → All (IsWithin within) ps
          → Represents format P T limits within files v s
          → Replays (merge_all ps v) (replay_frames format P T limits fuel segment file c s)
      unfolding merge_all replay_frames
      replay_frames-Replays [] fuel before c s v e off whole enough w i h =
          end-Replays fuel c s v (off ∙ ap length (sym (append-nil before)) ∙ ap length (sym e))
            whole h
      replay_frames-Replays (p ∷ ps) zero before c s v e off whole enough w i h = absurd (
          omega (
            arith,
            enough,
            length-append (frame_of format p.written) (frames_of format ps),
            length-frame_of format p.written,
          ))
      replay_frames-Replays (p ∷ ps) (suc fuel) before c s v e off whole enough w i h =
          rw
            (
              le→ltb (length file) (c.offset + 26) room,
              if◌then◌else◌,
              rest,
              read_frame-frame_of format P T limits segment (length file) p.written
                  (frames_of format ps) c s
                  (λ c' s'. replay_frames format P T limits fuel segment file c' s') w.0.0,
            )
            (Loads-bind (merge p v) (merge_all ps (merge p v))
              (apply_frame format P T limits
                (pointer_of format P T limits segment (header_of format p.written) c.offset)
                p.written.flags p.written.stream_name (as_str p.written.key) s)
              (λ s'. replay_frames format P T limits fuel segment file passed s')
              (apply_frame-Represents format P T limits within files p
                (pointer_of format P T limits segment (header_of format p.written) c.offset) v s
                w.0.1 refl refl (stands p.written before (frames_of format ps) c e off) i.0 h)
              (λ s' h'.
                replay_frames-Replays ps fuel (before ++ frame_of format p.written) passed s'
                  (merge p v)
                  (e ∙ sym (append_assoc before (frame_of format p.written) (frames_of format ps)))
                  (omega (
                    arith,
                    off,
                    length-append before (frame_of format p.written),
                    length-frame_of format p.written,
                  ))
                  whole
                  (omega (
                    arith,
                    enough,
                    length-append (frame_of format p.written) (frames_of format ps),
                    length-frame_of format p.written,
                  ))
                  w.1 i.1 h'))
        where
          passed : SegmentScan
          passed =
              pass_frame format P T limits (header_of format p.written)
                (count_frame format P T limits p.written.sequence_id c)

          size :
              length file
              ≡ length before
                + (26 + (length (payload_of format p.written) + length (frames_of format ps)))
          size = omega (
            arith,
            ap length e,
            length-append before (frame_of format p.written ++ frames_of format ps),
            length-append (frame_of format p.written) (frames_of format ps),
            length-frame_of format p.written,
          )

          room : c.offset + 26 ≤ length file
          room = omega (arith, size, off)

          rest : drop c.offset file ≡ frame_of format p.written ++ frames_of format ps
          rest =
              ap (λ f. drop c.offset f) e
              ∙ drop-append_exact c.offset before (frame_of format p.written ++ frames_of format ps)
                  off
