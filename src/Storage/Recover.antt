-- ===== src/Storage/Recover.antt =====
-- Recovery as a whole (src/storage.rs, `recover`): the ids of the segments, the replay of all of
-- them, and then what is done about the tears that it met.
pub mod Torn
pub mod Kept
pub mod Completes
use liven.Prelude.{ℕ, ◌+◌, List, [], ◌∷◌, ltb, if◌then◌else◌, ℤ, Bool, false}
use liven.Bytes.{Bytes}
use liven.Types.{LogPointer}
use liven.Error.{LivenError, Result, ok, err, ◌>>=◌}
use liven.Storage.Payload.{PayloadFormat}
use liven.Storage.SkipMap.{SkipMap}
use liven.Storage.Index.{Index}
use liven.Storage.Index.Keys.{name_key, stamp_key, Stamp}
use liven.Storage.Flusher.{u64_add}
use liven.Storage.Flusher.Batch.{compaction_id_base}
use liven.Storage.Recovery.{RecoveryLimits, max_of}
use liven.Storage.Recovery.Segments.{Recovered, replay_directory}
use liven.Storage.Salvage.Tears.{Directory, RecoveryReport}
use liven.Storage.Salvage.Decisions.{process_deferred_tears}

unfoldable pub max_segment : List (ℕ × Bytes) → ℕ → ℕ
max_segment [] highest = highest
max_segment ((id, file) ∷ files) highest = max_segment files (max_of highest id)

unfoldable pub max_normal_segment : List (ℕ × Bytes) → ℕ → ℕ
max_normal_segment [] highest = highest
max_normal_segment ((id, file) ∷ files) highest =
    max_normal_segment files (if ltb id compaction_id_base then max_of highest id else highest)

abbrev pub empty_report : RecoveryReport
empty_report = record {
  truncated_segments = [];
  skipped_segments = [];
  repair_backups = [];
  torn_backups = [];
  salvaged_frames = 0;
  salvage_segments = [];
  had_issues = false;
}

-- the directory as it is found, with what is known of its ids
unfoldable pub found_directory : Directory → Directory
unfolding max_segment max_normal_segment
found_directory d = record d {
  max_normal_segment_id = max_normal_segment d.segments 0;
  max_segment_id = max_segment d.segments 0;
  report = empty_report;
}

module _ (no_torn_region : ℕ → ℕ → Bytes) (format : PayloadFormat) (now_ms : ℤ)
    (P : SkipMap Bytes LogPointer name_key) (T : SkipMap Stamp LogPointer stamp_key)
    (limits : RecoveryLimits) where
  -- the engine that recovery leaves, up to the handle of the active file
  pub record Opened : Type 0 where
    pub directory : Directory
    pub index : Index P T
    pub streams_set : List Bytes
    pub index_high_water_reached : Bool
    pub current_sequence_id : ℕ
    pub active_segment_id : ℕ

  abbrev pub resolve_tears : Directory → Recovered format P T limits → Result LivenError Opened
  resolve_tears d r = do
    s ←
        process_deferred_tears no_torn_region format limits.recovery_mode now_ms P T r.active_id
          r.pass.tears (d, r.pass.state.index)
    ok (record {
      directory = s.0;
      index = s.1;
      streams_set = r.pass.state.streams_set;
      index_high_water_reached = r.pass.state.index_high_water_reached;
      current_sequence_id = r.current_sequence_id;
      active_segment_id = r.active_id;
    })

  unfoldable pub recover : Directory → Result LivenError Opened
  unfolding found_directory replay_directory process_deferred_tears
  recover d = do
    r ← replay_directory format P T limits d.segments
    resolve_tears (found_directory d) r
