-- ===== src/Storage/Recovery/Directory.antt =====
-- The replay of a data directory whose segments hold whole frames only: the index shows the newest
-- frame of each key, in whatever order the segments and the frames in them were written.
use liven.Prelude.{
  true, ◌+◌, ℕ, ◌≤◌, ◌≡◌, refl, sym, ap, ◌∙◌, Option, none, some, List, [], ◌∷◌, arith, length, All,
  All-map,
}
use liven.Prelude.Sort.{sort, sort-All}
use mathlib.Core.Path.{subst}
use liven.Bytes.{Bytes}
use liven.Bytes.Order.{bytes_eq_refl}
use liven.Types.{LogPointer, Record}
use liven.Error.{LivenError, Result, ok, err, ◌>>=◌}
use liven.Storage.Payload.{PayloadFormat}
use liven.Storage.SkipMap.{SkipMap}
use liven.Storage.SkipMap.Laws.{get-new, total-new}
use liven.Storage.Index.{record_key, get_stream, stream_index, primary_charge}
use liven.Storage.Index.Keys.{name_key, stamp_key, Stamp}
use liven.Storage.Flusher.{Pending, u64_add}
use liven.Storage.Flusher.Built.{frames_of}
use liven.Storage.Flusher.Live.{ShowsAt}
use liven.Storage.Recovery.{RecoveryLimits, SegmentScan}
use liven.Storage.Recovery.Segments.{
  State, Pass, pass_segment, replay_segment, replay_all, empty_state, Recovered, replay_directory,
  fresh_scan, add_tear, Summary, active_segment,
}
use liven.Storage.Index.Fresh.{IsFresh}
use liven.Storage.Index.Charge.{IsAccounted}
use liven.Storage.Recovery.Extent.{Extent, IsCapped}
use liven.Storage.Recovery.Loads.{IsLimit}
use liven.Storage.Recovery.Replays.{IsWithin, Represents}
use liven.Storage.Recovery.Views.{View, outranks, merge_all, live_of, seq_of, AreWritten}
use liven.Storage.Recovery.Whole.{Replays, replay_frames-Replays}
use liven.Storage.Recovery.Segmented.{
  Segment, all_records, HasOwnId, by_segment, merge_all-append, sorted-All, IsNewest-sort,
  segments_of, sort-segments_of, IsHeld, segments_of-IsHeld,
}
use liven.Storage.Recovery.Newest.{HasKey, IsNewest, merge_all-IsNewest}

IsCapped-outranks :
    (bound n : ℕ) (o : Option ℕ) → bound + 1 ≤ n → IsCapped bound o → outranks n o ≡ true
IsCapped-outranks bound n none above h = refl
IsCapped-outranks bound n (some m) above h = ground arith

module _ (bound : ℕ) where
  IsNewest-bound :
      (k : Bytes) (ps : List Pending) (o : Option (ℕ × Option Record))
      → IsNewest k ps o
      → IsCapped bound (seq_of o)
      → All (λ p. HasKey k p → p.written.sequence_id ≤ bound) ps
  IsNewest-bound k ps none absent h =
      All-map _ _ ps (λ p other same. absurd (ground (arith, other, same))) absent
  IsNewest-bound k ps (some e) newest h =
      All-map _ _ ps (λ p below same. ground (arith, below same, h)) newest.0

  All-keys :
      (ps : List Pending)
      → ((k : Bytes) → All (λ p. HasKey k p → p.written.sequence_id ≤ bound) ps)
      → All (λ p. p.written.sequence_id ≤ bound) ps
  All-keys [] h = tt
  All-keys (p ∷ ps) h = (
    (h (record_key p.written)).0 (bytes_eq_refl (record_key p.written)),
    All-keys ps (λ k. (h k).1),
  )

  -- The sequence ids of frames that are merged are within the bound of what they leave.
  AreBelow-newest :
      (ps : List Pending)
      → ((k : Bytes) → IsCapped bound (seq_of (merge_all ps (λ j. none) k)))
      → All (λ p. p.written.sequence_id ≤ bound) ps
  AreBelow-newest ps capped =
      All-keys ps (λ k. IsNewest-bound k ps _ (merge_all-IsNewest k ps) (capped k))

module _ (format : PayloadFormat) where
  module _ (P : SkipMap Bytes LogPointer name_key) (T : SkipMap Stamp LogPointer stamp_key)
      (limits : RecoveryLimits) (within : Extent) where
    module _ (files : List (ℕ × Bytes)) where
      -- a limit error, or the view and no tear
      abbrev Passes : View → Result LivenError (Pass format P T limits) → Type 0
      Passes v (err x) = IsLimit format P T limits within x
      Passes v (ok p) = Represents format P T limits within files v p.state × (p.tears ≡ [])

      Passes-bind :
          (v u : View) (r : Result LivenError (State format P T limits × SegmentScan))
          (f : State format P T limits × SegmentScan → Result LivenError (Pass format P T limits))
          → Replays format P T limits within files v r
          → ((s : State format P T limits) (c : SegmentScan)
              → Represents format P T limits within files v s
              → c.tear ≡ none
              → Passes u (f (s, c)))
          → Passes u (r >>= f)
      Passes-bind v u (ok (s, c)) f h g = g s c h.0 h.1
      Passes-bind v u (err x) f h g = h

      replay_all-Passes :
          (ws : List Segment) (p : Pass format P T limits) (v : View)
          → All (IsHeld format files) ws
          → All (λ w. AreWritten format w.1) ws
          → All (λ w. All (IsWithin within) w.1) ws
          → Represents format P T limits within files v p.state
          → p.tears ≡ []
          → Passes
              (merge_all (all_records ws) v)
              (replay_all format P T limits (segments_of format ws) p)
      unfolding replay_all replay_segment merge_all
      replay_all-Passes [] p v held written inside h whole = (h, whole)
      replay_all-Passes (w ∷ ws) p v held written inside h whole =
          subst (λ u. Passes u (replay_all format P T limits (segments_of format (w ∷ ws)) p))
            (sym (merge_all-append w.1 (all_records ws) v))
            (Passes-bind (merge_all w.1 v) (merge_all (all_records ws) (merge_all w.1 v))
              (replay_segment format P T limits w.0 (frames_of format w.1) p.state)
              (λ r.
                replay_all format P T limits (segments_of format ws)
                  (pass_segment format P T limits w.0 r p))
              (replay_frames-Replays format P T limits within files w.0 (frames_of format w.1)
                held.0 w.1 (length (frames_of format w.1)) [] fresh_scan p.state v refl refl refl
                (omega arith) written.0 inside.0 h)
              (λ s c h' clean.
                replay_all-Passes ws (pass_segment format P T limits w.0 (s, c) p) (merge_all w.1 v)
                  held.1 written.1 inside.1 h' (ap (add_tear p.tears) clean ∙ whole)))

    empty-Represents :
        (files : List (ℕ × Bytes))
        → Represents format P T limits within files (λ k. none) (empty_state format P T limits)
    unfolding get_stream stream_index
    empty-Represents files = record {
      marks = λ k. refl;
      shows = λ k. rw (get-new name_key P k) tt;
      tops = λ k. tt;
      capped = omega arith;
      drawn = tt;
      accounted = record { counted = rw (total-new name_key P primary_charge) refl };
      absent = λ u k above. get-new stamp_key T k;
    }

    -- No sequence id above the highest one is in the timestamp indexes.
    Represents-IsFresh :
        (files : List (ℕ × Bytes)) (v : View) (s : State format P T limits)
        → Represents format P T limits within files v s
        → IsFresh P T (s.highest_seq + 1) s.index
    Represents-IsFresh files v s h = record {
      absent = λ u k above. h.absent u k (
          IsCapped-outranks s.highest_seq k.1 (seq_of (v (within.owner k.1))) above
            (h.tops (within.owner k.1)));
    }

    -- No tear, for each key what its newest frame says, and a next sequence id: one above a highest
    -- one, which no frame is above.
    pub record IsRebuilt (ws : List Segment) (r : Recovered format P T limits) : Type 0 where
      pub clean : r.pass.tears ≡ []
      pub shows :
          (k : Bytes)
          → (o : Option (ℕ × Option Record)) × IsNewest k (all_records ws) o
            × ShowsAt format
                (segments_of format ws)
                (P.get k r.pass.state.index.skipmap)
                (live_of o)
      pub next :
          (highest : ℕ) × (r.current_sequence_id ≡ u64_add highest 1)
          × (highest ≤ within.last_seq)
          × All (λ p. p.written.sequence_id ≤ highest) (all_records ws)
          × IsFresh P T (highest + 1) r.pass.state.index
      pub accounted : IsAccounted P T r.pass.state.index

    abbrev pub Rebuilds : List Segment → Result LivenError (Recovered format P T limits) → Type 0
    Rebuilds ws (err x) = IsLimit format P T limits within x
    Rebuilds ws (ok r) = IsRebuilt ws r

    Rebuilds-sorted :
        (ws : List Segment) (r : Result LivenError (Pass format P T limits))
        (active_of : List Summary → ℕ)
        → Passes
            (segments_of format ws)
            (merge_all (all_records (sort by_segment ws)) (λ k. none))
            r
        → Rebuilds ws (
            r >>= λ p. ok (record {
              pass = p;
              active_id = active_of p.summaries;
              current_sequence_id = u64_add p.state.highest_seq 1;
            }))
    Rebuilds-sorted ws (err x) active_of h = h
    Rebuilds-sorted ws (ok p) active_of (h, clean) = record {
      clean = clean;
      shows = λ k.
          let o = merge_all (all_records (sort by_segment ws)) (λ j. none) k in
          (
            o,
            IsNewest-sort k ws o (merge_all-IsNewest k (all_records (sort by_segment ws))),
            h.shows k,
          );
      next = (
        p.state.highest_seq,
        refl,
        h.capped,
        sorted-All (λ q. q.written.sequence_id ≤ p.state.highest_seq) ws
            (AreBelow-newest p.state.highest_seq (all_records (sort by_segment ws)) h.tops),
        Represents-IsFresh (segments_of format ws) _ p.state h,
      );
      accounted = h.accounted;
    }

    -- Recovery from a data directory whose segments, each with its own id, hold whole frames of
    -- records as they are written, of streams and up to a sequence id that are given and with no
    -- sequence id under two keys, finds no tear, and for each key the index shows what the frame of
    -- the key with the highest sequence id says: the frame of that record, or nothing where it is a
    -- tombstone or the key has no frame. The order of the segments and of the frames in them does not
    -- matter. The byte counter of the index is exact, and the next sequence id follows one that is
    -- within the given one and that no frame and no entry of the timestamp indexes exceeds. Recovery
    -- ends with an error only where there are more given streams than the limit allows, or in strict
    -- mode where the index needs more memory than its limit.
    pub replay_directory-Rebuilds :
        (ws : List Segment)
        → HasOwnId ws
        → All (λ w. AreWritten format w.1) ws
        → All (λ w. All (IsWithin within) w.1) ws
        → Rebuilds ws (replay_directory format P T limits (segments_of format ws))
    unfolding replay_directory
    replay_directory-Rebuilds ws own written inside = rw (sort-segments_of format ws) (
        Rebuilds-sorted ws
          (replay_all format P T limits (segments_of format (sort by_segment ws)) start)
          active_segment
          (replay_all-Passes (segments_of format ws) (sort by_segment ws) start (λ k. none)
            (sort-All by_segment (IsHeld format (segments_of format ws)) ws
              (segments_of-IsHeld format ws own))
            (sort-All by_segment (λ w. AreWritten format w.1) ws written)
            (sort-All by_segment (λ w. All (IsWithin within) w.1) ws inside)
            (empty-Represents (segments_of format ws)) refl))
      where
        start : Pass format P T limits
        start = record { state = empty_state format P T limits; summaries = []; tears = [] }
