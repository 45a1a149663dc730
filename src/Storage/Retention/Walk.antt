-- ===== src/Storage/Retention/Walk.antt =====
-- The loop over a segment of whole frames, said by the code's test of each record.
use liven.Prelude.{
  ℕ, zero, suc, ◌+◌, ◌%◌, ◌^◌, ◌≤◌, ◌≡◌, refl, sym, ap, ◌∙◌, Bool, true, false, not, ◌&&◌, ◌||◌,
  List, [], ◌∷◌, ◌++◌, arith, length, length-append, append-nil, append_assoc, drop,
  take-append_exact, drop-append_exact, le→ltb, lt→ltb, ◌==◌, if◌then◌else◌, ℤ, or_true, or_false,
}
use liven.Bytes.{Bytes, to_be_bytes}
use liven.Bytes.Words.{length-to_be_bytes}
use liven.Types.{Record}
use liven.Storage.Key.{as_str}
use liven.Storage.Payload.{PayloadFormat, serialize_payload_into, value_bytes}
use liven.Storage.Payload.RoundTrip.{counted_name}
use liven.Storage.Frame.{frame_of}
use liven.Storage.Frame.Read.{
  IsWritable, payload_of, header_of, header_bytes_of, length-header_bytes_of, length-frame_of,
  decode-header_bytes_of,
}
use liven.Storage.Flusher.{Pending}
use liven.Storage.Flusher.Built.{frames_of}
use liven.Storage.Recovery.{flag_set}
use liven.Storage.Recovery.Views.{IsFlagged, AreWritten}
use liven.Storage.Salvage.{header_at}
use liven.Storage.Retention.{
  RetentionPolicy, is_expired, live_is_expired, expired_from, segment_is_fully_expired,
}

module _ (format : PayloadFormat) (now_ms : ℤ) (policy : RetentionPolicy) where
  -- the live records are all expired, and whether there is one
  abbrev pub all_expired : List Pending → Bool
  all_expired [] = true
  all_expired (p ∷ ps) =
      (p.is_tombstone || is_expired now_ms policy p.written.stream_name p.written.timestamp)
      && all_expired ps

  abbrev pub any_live : List Pending → Bool
  any_live [] = false
  any_live (p ∷ ps) = not p.is_tombstone || any_live ps

  live_is_expired-payload_of :
      (r : Record) (more : Bytes)
      → IsWritable format r
      → live_is_expired now_ms policy (header_of format r) (payload_of format r ++ more)
        ≡ is_expired now_ms policy r.stream_name r.timestamp
  unfolding live_is_expired serialize_payload_into
  live_is_expired-payload_of r more w =
      rw
        (
          append_assoc len2 (r.stream_name ++ tail) more,
          take-append_exact 2 len2 ((r.stream_name ++ tail) ++ more) (sym len2-length),
          drop-append_exact 2 len2 ((r.stream_name ++ tail) ++ more) (sym len2-length),
          counted_name r.stream_name w.name,
          append_assoc r.stream_name tail more,
        )
        (rw
          (
            take-append_exact (length r.stream_name) r.stream_name (tail ++ more) refl,
            w.name.text,
            le→ltb (length (len2 ++ (r.stream_name ++ tail))) 2 (omega (arith, size)),
            le→ltb (length (len2 ++ (r.stream_name ++ tail))) (length r.stream_name + 2)
                (omega (arith, size)),
          )
          refl)
    where
      len2 : Bytes
      len2 = to_be_bytes 2 (length r.stream_name % 2 ^ 16)

      tail : Bytes
      tail =
          to_be_bytes 2 (length (as_str r.key) % 2 ^ 16)
          ++ (as_str r.key ++ value_bytes format r.value)

      len2-length : length len2 ≡ 2
      len2-length = length-to_be_bytes 2 (length r.stream_name % 2 ^ 16)

      size : length (len2 ++ (r.stream_name ++ tail)) ≡ 2 + (length r.stream_name + length tail)
      size = omega (
        arith,
        length-append len2 (r.stream_name ++ tail),
        length-append r.stream_name tail,
        len2-length,
      )

  -- one round, at the frame of a record
  module _ (p : Pending) (before more : Bytes) (w : IsWritable format p.written)
      (f : IsFlagged p) where
    abbrev file : Bytes
    file = before ++ (frame_of format p.written ++ more)

    at_frame :
        drop (length before) file
        ≡ header_bytes_of format p.written ++ (payload_of format p.written ++ more)
    unfolding frame_of
    at_frame =
        drop-append_exact (length before) before (frame_of format p.written ++ more) refl
        ∙ append_assoc (header_bytes_of format p.written) (payload_of format p.written) more

    header_at-frame : header_at file (length before) ≡ header_of format p.written
    header_at-frame =
        rw
          (
            at_frame,
            take-append_exact 26 (header_bytes_of format p.written)
                (payload_of format p.written ++ more)
                (sym (length-header_bytes_of format p.written)),
          )
          (decode-header_bytes_of format p.written w)

    body-frame : drop 26 (drop (length before) file) ≡ payload_of format p.written ++ more
    body-frame = rw at_frame (
        drop-append_exact 26 (header_bytes_of format p.written)
          (payload_of format p.written ++ more) (sym (length-header_bytes_of format p.written)))

    size : length file ≡ length before + (26 + (length (payload_of format p.written) + length more))
    size = omega (
      arith,
      length-append before (frame_of format p.written ++ more),
      length-append (frame_of format p.written) more,
      length-frame_of format p.written,
    )

    round :
        (fuel : ℕ) (saw : Bool)
        → expired_from now_ms policy (suc fuel) file (length before) saw ≡ (
            (p.is_tombstone || is_expired now_ms policy p.written.stream_name p.written.timestamp)
            && expired_from now_ms policy fuel file
                (length before + (26 + length (payload_of format p.written)))
                (saw || not p.is_tombstone))
    unfolding expired_from
    round fuel saw =
        rw
          (
            header_at-frame,
            body-frame,
            live_is_expired-payload_of p.written more w,
            le→ltb (length file) (length before + 26) (omega (arith, size)),
            le→ltb (length file) (length before + 26 + length (payload_of format p.written))
                (omega (arith, size)),
            if◌then◌else◌,
          )
          (settle p.is_tombstone p.written.flags f
            (is_expired now_ms policy p.written.stream_name p.written.timestamp) saw
            (expired_from now_ms policy fuel file
              (length before + (26 + length (payload_of format p.written)))))
      where
        settle :
            (t : Bool) (flags : ℕ)
            → flags ≡ (if t then 2 else 1)
            → (e s : Bool) (next : Bool → Bool)
            → (if flag_set 2 flags then next s else (if e then next true else false))
              ≡ ((t || e) && next (s || not t))
        settle true flags g e s next = rw (g, or_false s) refl
        settle false flags g true s next = rw (g, or_true s) refl
        settle false flags g false s next = rw g refl

  expired_from-end :
      (fuel : ℕ) (file : Bytes) (offset : ℕ) (saw : Bool)
      → offset ≡ length file
      → expired_from now_ms policy fuel file offset saw ≡ (saw || offset == 0)
  unfolding expired_from
  expired_from-end zero file offset saw e = refl
  expired_from-end (suc fuel) file offset saw e =
      rw (lt→ltb (length file) (offset + 26) (omega (arith, e)), if◌then◌else◌) refl

  after_frame :
      (p : Pending) (ps : List Pending) (fuel : ℕ) (before : Bytes) (saw : Bool)
      → AreWritten format (p ∷ ps)
      → expired_from now_ms policy fuel
          ((before ++ frame_of format p.written) ++ frames_of format ps)
          (length (before ++ frame_of format p.written))
          (saw || not p.is_tombstone)
        ≡ (all_expired ps
            && ((saw || not p.is_tombstone)
                || any_live ps
                || length (before ++ frame_of format p.written) + length (frames_of format ps)
                  == 0))
      → expired_from now_ms policy
          (suc fuel)
          (before ++ frames_of format (p ∷ ps))
          (length before)
          saw
        ≡ (all_expired (p ∷ ps)
            && (saw
                || any_live (p ∷ ps)
                || length before + length (frames_of format (p ∷ ps)) == 0))
  after_frame p ps fuel before saw w rest =
      round p before (frames_of format ps) w.0.0 w.0.1 fuel saw
      ∙ ap
          (λ b.
            (p.is_tombstone || is_expired now_ms policy p.written.stream_name p.written.timestamp)
            && b)
          later
      ∙ regroup
          (p.is_tombstone || is_expired now_ms policy p.written.stream_name p.written.timestamp)
          (all_expired ps) saw (not p.is_tombstone) (any_live ps) _ _
          (ap (λ n. n == 0)
            (omega (
              arith,
              length-append before (frame_of format p.written),
              length-append (frame_of format p.written) (frames_of format ps),
            )))
    where
      next : ℕ
      next = length before + (26 + length (payload_of format p.written))

      there : length (before ++ frame_of format p.written) ≡ next
      there = omega (
        arith,
        length-append before (frame_of format p.written),
        length-frame_of format p.written,
      )

      later :
          expired_from now_ms policy fuel
            (before ++ (frame_of format p.written ++ frames_of format ps))
            next
            (saw || not p.is_tombstone)
          ≡ (all_expired ps
              && ((saw || not p.is_tombstone)
                  || any_live ps
                  || length (before ++ frame_of format p.written) + length (frames_of format ps)
                    == 0))
      later =
          ap (λ f. expired_from now_ms policy fuel f next (saw || not p.is_tombstone))
            (sym (append_assoc before (frame_of format p.written) (frames_of format ps)))
          ∙ ap
              (λ n.
                expired_from now_ms policy fuel
                  ((before ++ frame_of format p.written) ++ frames_of format ps) n
                  (saw || not p.is_tombstone))
              (sym there)
          ∙ rest

      regroup :
          (x a s n v z z' : Bool)
          → z ≡ z'
          → (x && (a && ((s || n) || v || z))) ≡ ((x && a) && (s || (n || v) || z'))
      regroup false a s n v z z' e = refl
      regroup true false s n v z z' e = refl
      regroup true true true n v z z' e = refl
      regroup true true false true v z z' e = refl
      regroup true true false false true z z' e = refl
      regroup true true false false false z z' e = e

  plus_zero : (n : ℕ) → n ≡ n + 0
  plus_zero n = omega arith

  zero_plus : (n : ℕ) → 0 + n ≡ n
  zero_plus n = omega arith

  -- What the loop says from a frame on, with `saw` said of the frames before.
  expired_from-frames_of :
      (ps : List Pending) (fuel : ℕ) (before : Bytes) (saw : Bool)
      → length (frames_of format ps) ≤ fuel
      → AreWritten format ps
      → expired_from now_ms policy fuel (before ++ frames_of format ps) (length before) saw ≡ (
          all_expired ps
          && (saw || any_live ps || length before + length (frames_of format ps) == 0))
  expired_from-frames_of [] fuel before saw enough w =
      expired_from-end fuel (before ++ []) (length before) saw (ap length (sym (append-nil before)))
      ∙ ap (λ b. b || length before == 0) (sym (or_false saw))
      ∙ ap (λ n. (saw || false) || n == 0) (plus_zero (length before))
  expired_from-frames_of (p ∷ ps) zero before saw enough w = absurd (
      omega (
        arith,
        enough,
        length-append (frame_of format p.written) (frames_of format ps),
        length-frame_of format p.written,
      ))
  expired_from-frames_of (p ∷ ps) (suc fuel) before saw enough w =
      after_frame p ps fuel before saw w (
        expired_from-frames_of ps fuel (before ++ frame_of format p.written)
          (saw || not p.is_tombstone)
          (omega (
            arith,
            enough,
            length-append (frame_of format p.written) (frames_of format ps),
            length-frame_of format p.written,
          ))
          w.1)

  -- what the loop says of a segment of whole frames, by its own tests
  pub segment_is_fully_expired-tests :
      (ps : List Pending)
      → AreWritten format ps
      → segment_is_fully_expired now_ms policy (frames_of format ps)
        ≡ (all_expired ps && (any_live ps || length (frames_of format ps) == 0))
  unfolding segment_is_fully_expired
  segment_is_fully_expired-tests ps w =
      expired_from-frames_of ps (length (frames_of format ps)) [] false (omega arith) w
      ∙ ap (λ n. all_expired ps && (any_live ps || n == 0))
          (zero_plus (length (frames_of format ps)))
