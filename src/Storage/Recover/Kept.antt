-- ===== src/Storage/Recover/Kept.antt =====
-- Recovery loses no byte of a segment.
use mathlib.Core.Path.{subst}
use liven.Prelude.{ℕ, ◌≡◌, refl, sym, true, [], ℤ}
use liven.Bytes.{Bytes}
use liven.Types.{LogPointer}
use liven.Error.{LivenError, Result, ok, err, ◌>>=◌}
use liven.Storage.Payload.{PayloadFormat}
use liven.Storage.SkipMap.{SkipMap}
use liven.Storage.Index.Keys.{name_key, stamp_key, Stamp}
use liven.Storage.Flusher.Batch.{segment_bytes}
use liven.Storage.Recovery.{RecoveryLimits}
use liven.Storage.Recovery.Segments.{Recovered, replay_directory}
use liven.Storage.Salvage.Tears.{Directory, has_segment}
use liven.Storage.Salvage.Decisions.{Salvaged, process_deferred_tears}
use liven.Storage.Salvage.Lossless.{IsKept, Ends, process_deferred_tears-IsKept}
use liven.Storage.Recover.{Opened, recover, resolve_tears, found_directory}
use liven.Storage.Recover.Torn.{HasOwnFile, NotesOnce, replay_directory-NotesOnce}

module _ (no_torn_region : ℕ → ℕ → Bytes) (format : PayloadFormat) (now_ms : ℤ)
    (P : SkipMap Bytes LogPointer name_key) (T : SkipMap Stamp LogPointer stamp_key)
    (limits : RecoveryLimits) where
  -- what holds of the directory where recovery succeeds
  abbrev pub Opens :
      (Directory → Type 0)
      → Result LivenError (Opened no_torn_region format now_ms P T limits)
      → Type 0
  Opens Q (err x) = Unit
  Opens Q (ok o) = Q o.directory

  -- A recovery that succeeds, from a directory whose segments have their own ids and that has no
  -- marker of an earlier run, keeps the bytes of every segment: its file holds them, or the first of
  -- them up to a place for which a sidecar holds the rest.
  pub recover-IsKept :
      (d : Directory) (id : ℕ)
      → d.markers ≡ []
      → HasOwnFile d.segments
      → has_segment id d.segments ≡ true
      → Opens
          (IsKept id (segment_bytes id d.segments))
          (recover no_torn_region format now_ms P T limits d)
  unfolding recover found_directory
  recover-IsKept d id clean own there =
      replayed (replay_directory format P T limits d.segments)
        (replay_directory-NotesOnce format P T limits d.segments own)
    where
      resolved :
          (r : Result LivenError (Salvaged no_torn_region format limits.recovery_mode now_ms P T))
          (f : Salvaged no_torn_region format limits.recovery_mode now_ms P T
            → Opened no_torn_region format now_ms P T limits)
          → ((s : Salvaged no_torn_region format limits.recovery_mode now_ms P T)
              → (f s).directory ≡ s.0)
          → (active_id : ℕ)
          → Ends no_torn_region format limits.recovery_mode now_ms P T active_id
              (IsKept id (segment_bytes id d.segments))
              r
          → Opens (IsKept id (segment_bytes id d.segments)) (r >>= λ s. ok (f s))
      resolved (ok s) f e active_id h =
          subst (IsKept id (segment_bytes id d.segments)) (sym (e s)) h
      resolved (err x) f e active_id h = tt

      replayed :
          (r : Result LivenError (Recovered format P T limits))
          → NotesOnce format P T limits r
          → Opens
              (IsKept id (segment_bytes id d.segments))
              (r >>= resolve_tears no_torn_region format now_ms P T limits (found_directory d))
      replayed (err x) h = tt
      replayed (ok r) h =
          resolved
            (process_deferred_tears no_torn_region format limits.recovery_mode now_ms P T
              r.active_id r.pass.tears (found_directory d, r.pass.state.index))
            _ (λ s. refl) r.active_id
            (process_deferred_tears-IsKept no_torn_region format limits.recovery_mode now_ms P T
              r.active_id r.pass.tears (found_directory d) r.pass.state.index id clean h there)
