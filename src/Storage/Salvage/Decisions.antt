-- ===== src/Storage/Salvage/Decisions.antt =====
-- The decision about one tear, and what all of them lead to (src/storage.rs, `handle_tear`,
-- `process_deferred_tears`). A tear's file has the length that the replay found.
use liven.Prelude.{
  ℕ, ◌+◌, ◌-◌, Bool, true, not, ◌&&◌, Option, none, some, List, [], ◌∷◌, ◌++◌, ltb, leb, ◌==◌,
  if◌then◌else◌, length, take, drop, ℤ,
}
use liven.Bytes.{Bytes}
use liven.Types.{LogPointer}
use liven.Error.{
  LivenError, storage, recovery_required, strict_crc_mismatch, Result, ok, err, ◌>>=◌,
}
use liven.Storage.Payload.{PayloadFormat}
use liven.Storage.SkipMap.{SkipMap, is_some}
use liven.Storage.Index.{Index, primary_charge, fetch_sub}
use liven.Storage.Index.Keys.{name_key, stamp_key, Stamp}
use liven.Storage.Flusher.Batch.{segment_bytes, compaction_id_base}
use liven.Storage.Recovery.{RecoveryMode, is_strict, TearKind, DeferredTear}
use liven.Storage.Salvage.{
  StrandedFrame, u64_saturating_add, find_resync, collect_stranded, extract_key_at,
}
use liven.Storage.Salvage.Tears.{
  Directory, TearDecision, truncate, skip_remainder, TearName, is_repair, is_damage, is_trailing,
  remove_at, write_segment, write_salvage_segment, keys_label, listed,
}

-- the text of the error, with the segment's path
module _ (no_torn_region : ℕ → ℕ → Bytes) where
  unfoldable pub backup_torn_region : ℕ → Bytes → ℕ → Directory → Result LivenError Directory
  backup_torn_region segment_id file tear_offset d =
      if leb (length file) tear_offset
      then err (storage (no_torn_region segment_id tear_offset))
      else ok (record d {
        torn_backups = ((segment_id, tear_offset), drop tear_offset file) ∷ d.torn_backups;
      })

  -- the note of a backup in the report
  abbrev pub note_backup : TearName → Directory → Directory
  note_backup name d = record d {
    report = record d.report {
      torn_backups = d.report.torn_backups ++ (name ∷ []);
      had_issues = true;
    };
  }

  abbrev pub note_salvaged : ℕ → Directory → Directory
  note_salvaged n d = record d {
    report = record d.report { salvaged_frames = d.report.salvaged_frames + n };
  }

  module _ (format : PayloadFormat) (mode : RecoveryMode) (now_ms : ℤ) where
    abbrev pub min_seq_of : ℕ → ℕ → Option ℕ
    min_seq_of segment_id max_seq_in_prefix =
        if ltb segment_id compaction_id_base then some max_seq_in_prefix else none

    abbrev pub stranded_from : Bytes → ℕ → Option ℕ → Option ℕ → List StrandedFrame × ℕ
    stranded_from file tear_offset min_seq none = ([], tear_offset)
    stranded_from file tear_offset min_seq (some resync) =
        collect_stranded format file resync now_ms min_seq

    unfoldable pub stranded_after : Bytes → DeferredTear → List StrandedFrame × ℕ
    unfolding find_resync collect_stranded
    stranded_after file tear =
        let min_seq = min_seq_of tear.segment_id tear.max_seq_in_prefix in
        stranded_from file tear.offset min_seq
          (find_resync format file (u64_saturating_add tear.offset 1) now_ms min_seq)

    -- the keys of the torn frame, and of one that follows the stranded frames
    abbrev pub torn_keys : Bytes → DeferredTear → ℕ → List Bytes
    torn_keys file tear stranded_end =
        (if is_trailing tear.kind then [] else listed (extract_key_at file tear.offset))
        ++ (if ltb stranded_end (length file)
            then listed (extract_key_at file stranded_end)
            else [])

    abbrev pub Decision : Type 0
    Decision = Result LivenError (Directory × TearDecision)

    -- no frames are stranded after the tear
    abbrev pub handle_plain : Bytes → DeferredTear → Bool → Directory → Decision
    handle_plain file tear is_active d =
        if is_strict mode && is_damage tear.kind
        then err (strict_crc_mismatch tear.segment_id tear.offset)
        else if not is_active && not (is_trailing tear.kind)
        then ok (d, skip_remainder)
        else (do
          b ← backup_torn_region tear.segment_id file tear.offset d
          ok (note_backup (tear.segment_id, tear.offset) b, truncate tear.offset none))

    abbrev pub salvage : Bytes → DeferredTear → List StrandedFrame → Directory → Decision
    salvage file tear stranded d = do
      w ← write_salvage_segment file (tear.segment_id, tear.offset) stranded d
      b ← backup_torn_region tear.segment_id file tear.offset w.0
      ok (
        note_salvaged (length stranded) (note_backup (tear.segment_id, tear.offset) b),
        truncate tear.offset (some (tear.segment_id, tear.offset)),
      )

    abbrev pub handle_stranded :
        Bytes → DeferredTear → Bool → Directory → List StrandedFrame × ℕ → Decision
    handle_stranded file tear is_active d ([], end) = handle_plain file tear is_active d
    handle_stranded file tear is_active d (f ∷ frames, end) =
        if is_repair mode
        then salvage file tear (f ∷ frames) d
        else err (
            recovery_required tear.segment_id tear.offset (length (f ∷ frames))
              (keys_label (torn_keys file tear end)))

    unfoldable pub handle_tear : Bytes → DeferredTear → Bool → Directory → Decision
    unfolding stranded_after backup_torn_region write_salvage_segment keys_label extract_key_at
    handle_tear file tear is_active d =
        handle_stranded file tear is_active d (stranded_after file tear)

    abbrev pub backup_for_repair : Bytes → DeferredTear → Directory → Directory
    backup_for_repair file tear d =
        if is_damage tear.kind && is_repair mode
        then record d {
          repair_backups = (tear.segment_id, file) ∷ d.repair_backups;
          report = record d.report {
            repair_backups = d.report.repair_backups ++ (tear.segment_id ∷ []);
          };
        }
        else d

    abbrev pub drop_marker : Option TearName → Directory → Directory
    drop_marker none d = d
    drop_marker (some name) d = record d { markers = remove_at name d.markers }

    -- `set_len` to an offset within the file
    unfoldable pub truncate_segment : DeferredTear → ℕ → Directory → Directory
    unfolding segment_bytes write_segment
    truncate_segment tear target d = record d {
      segments =
          write_segment tear.segment_id (take target (segment_bytes tear.segment_id d.segments))
            d.segments;
      report = record d.report {
        truncated_segments =
            d.report.truncated_segments ++ ((tear.segment_id, target, tear.file_len - target) ∷ []);
      };
    }

    abbrev pub note_skipped : DeferredTear → ℕ → Directory → Directory
    note_skipped tear keys d = record d {
      report = record d.report {
        skipped_segments = d.report.skipped_segments ++ ((tear.segment_id, tear.offset, keys) ∷ []);
        had_issues = true;
      };
    }

    module _ (P : SkipMap Bytes LogPointer name_key) (T : SkipMap Stamp LogPointer stamp_key) where
      abbrev pub keys_in : ℕ → List (Bytes × LogPointer) → List Bytes
      keys_in segment_id [] = []
      keys_in segment_id ((key, p) ∷ m) =
          let rest = keys_in segment_id m in if p.segment_id == segment_id then key ∷ rest else rest

      abbrev pub remove_primary : Bytes → Index P T → Index P T
      remove_primary key ix =
          if is_some (P.get key ix.skipmap)
          then record {
            skipmap = P.remove key ix.skipmap;
            timestamp_indexes = ix.timestamp_indexes;
            index_ram_bytes = fetch_sub ix.index_ram_bytes (primary_charge key);
          }
          else ix

      unfoldable pub remove_all : List Bytes → Index P T → Index P T
      remove_all [] ix = ix
      remove_all (key ∷ keys) ix = remove_all keys (remove_primary key ix)

      abbrev pub Salvaged : Type 0
      Salvaged = Directory × Index P T

      abbrev pub skip_segment : DeferredTear → TearKind → Directory → Index P T → Salvaged
      skip_segment tear TearKind.torn_payload d ix = (note_skipped tear 0 d, ix)
      skip_segment tear TearKind.torn_header d ix = (d, ix)
      skip_segment tear TearKind.trailing d ix = (d, ix)
      skip_segment tear _ d ix =
          let keys = keys_in tear.segment_id (P.entries ix.skipmap) in
          (note_skipped tear (length keys) d, remove_all keys ix)

      abbrev pub carry_out : DeferredTear → Index P T → Directory × TearDecision → Salvaged
      carry_out tear ix (d, truncate t marker) =
          (drop_marker marker (truncate_segment tear t d), ix)
      carry_out tear ix (d, skip_remainder) = skip_segment tear tear.kind d ix

      unfoldable pub process_tear : ℕ → DeferredTear → Salvaged → Result LivenError Salvaged
      unfolding handle_tear truncate_segment remove_all segment_bytes
      process_tear active_id tear (d, ix) =
          let file = segment_bytes tear.segment_id d.segments in
          let is_active = tear.segment_id == active_id in
          let outcome = (do
            r ← handle_tear file tear is_active (backup_for_repair file tear d)
            ok (carry_out tear ix r)) in
          if is_trailing tear.kind && not is_active then ok (d, ix) else outcome

      unfoldable pub process_deferred_tears :
          ℕ → List DeferredTear → Salvaged → Result LivenError Salvaged
      unfolding process_tear
      process_deferred_tears active_id [] s = ok s
      process_deferred_tears active_id (tear ∷ tears) s = do
        s' ← process_tear active_id tear s
        process_deferred_tears active_id tears s'
