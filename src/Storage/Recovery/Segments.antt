-- ===== src/Storage/Recovery/Segments.antt =====
-- All segments of a data directory (src/storage.rs, `recover`): the replay of each in the order of
-- the ids, and the choice of the segment that writes go to.
use liven.Prelude.{
  ℕ, Bool, true, false, ◌&&◌, ◌||◌, Option, none, some, List, [], ◌∷◌, ◌++◌, ltb, leb, ◌==◌,
  if◌then◌else◌, length,
}
use liven.Prelude.Sort.{sort}
use liven.Bytes.{Bytes}
use liven.Types.{LogPointer}
use liven.Error.{LivenError, Result, ok, ◌>>=◌}
use liven.Storage.Payload.{PayloadFormat}
use liven.Storage.SkipMap.{SkipMap}
use liven.Storage.Index.Keys.{name_key, stamp_key, Stamp}
use liven.Storage.Flusher.{u64_add}
use liven.Storage.Flusher.Batch.{compaction_id_base}
use liven.Storage.Recovery.{RecoveryLimits, DeferredTear, SegmentScan, Replay, replay_frames}

abbrev pub by_id : ℕ × Bytes → ℕ × Bytes → Bool
by_id a b = leb a.0 b.0

-- (segment id, highest sequence id of a whole frame, whether it has a whole frame)
abbrev pub Summary : Type 0
Summary = ℕ × ℕ × Bool

-- `max_by_key` returns the last of the greatest.
unfoldable pub highest_normal : List Summary → Option Summary → Option Summary
highest_normal [] best = best
highest_normal (s ∷ summaries) none = highest_normal summaries (some s)
highest_normal (s ∷ summaries) (some b) =
    highest_normal summaries (some (if ltb s.0 b.0 then b else s))

abbrev pub is_behind : Summary → Summary → Bool
is_behind a b = ltb a.1 b.1 || (a.1 == b.1 && ltb a.0 b.0)

-- the segment with a frame and the highest (sequence id, segment id)
unfoldable pub most_recent : List Summary → Option Summary → Option Summary
most_recent [] best = best
most_recent ((id, seq, false) ∷ summaries) best = most_recent summaries best
most_recent ((id, seq, true) ∷ summaries) none = most_recent summaries (some (id, seq, true))
most_recent ((id, seq, true) ∷ summaries) (some b) =
    most_recent summaries (some (if is_behind (id, seq, true) b then b else (id, seq, true)))

abbrev pub id_or : ℕ → Option Summary → ℕ
id_or n none = n
id_or n (some s) = s.0

abbrev pub active_from : Option Summary → Option Summary → ℕ
active_from (some (id, seq, false)) recent = id
active_from _ recent = id_or 1 recent

unfoldable pub active_segment : List Summary → ℕ
unfolding highest_normal most_recent
active_segment summaries = active_from (highest_normal summaries none) (most_recent summaries none)

abbrev pub add_tear : List DeferredTear → Option DeferredTear → List DeferredTear
add_tear tears none = tears
add_tear tears (some t) = tears ++ (t ∷ [])

abbrev pub fresh_scan : SegmentScan
fresh_scan = record {
  offset = 0;
  seg_max_seq = 0;
  seg_has_frame = false;
  max_seq_in_prefix = 0;
  tear = none;
}

module _ (format : PayloadFormat) (P : SkipMap Bytes LogPointer name_key)
    (T : SkipMap Stamp LogPointer stamp_key) (limits : RecoveryLimits) where
  abbrev pub State : Type 0
  State = Replay format P T limits

  -- A round of the loop takes 26 bytes or more, so that the length of the file is enough fuel.
  unfoldable pub replay_segment : ℕ → Bytes → State → Result LivenError (State × SegmentScan)
  unfolding replay_frames
  replay_segment segment_id file s =
      replay_frames format P T limits (length file) segment_id file fresh_scan s

  pub record Pass : Type 0 where
    pub state : State
    pub summaries : List Summary
    pub tears : List DeferredTear

  abbrev pub pass_segment : ℕ → State × SegmentScan → Pass → Pass
  pass_segment segment_id r p = record {
    state = r.0;
    summaries =
        if ltb segment_id compaction_id_base
        then p.summaries ++ ((segment_id, r.1.seg_max_seq, r.1.seg_has_frame) ∷ [])
        else p.summaries;
    tears = add_tear p.tears r.1.tear;
  }

  unfoldable pub replay_all : List (ℕ × Bytes) → Pass → Result LivenError Pass
  unfolding replay_segment
  replay_all [] p = ok p
  replay_all ((segment_id, file) ∷ segments) p = do
    r ← replay_segment segment_id file p.state
    replay_all segments (pass_segment segment_id r p)

  abbrev pub empty_state : State
  empty_state = record {
    index = record { skipmap = P.new; timestamp_indexes = []; index_ram_bytes = 0 };
    streams_set = [];
    seq_watermarks = [];
    highest_seq = 0;
    index_high_water_reached = false;
  }

  pub record Recovered : Type 0 where
    pub pass : Pass
    pub active_id : ℕ
    pub current_sequence_id : ℕ

  -- `recover` up to the tears
  unfoldable pub replay_directory : List (ℕ × Bytes) → Result LivenError Recovered
  unfolding replay_all sort active_segment
  replay_directory files = do
    p ← replay_all (sort by_id files) (record { state = empty_state; summaries = []; tears = [] })
    ok (record {
      pass = p;
      active_id = active_segment p.summaries;
      current_sequence_id = u64_add p.state.highest_seq 1;
    })
