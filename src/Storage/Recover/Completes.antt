-- ===== src/Storage/Recover/Completes.antt =====
-- Recovery from whole segments gets through, and leaves the segments alone.
use liven.Prelude.{
  [], none, some, Any, ◌∷◌, Bool-cases, if◌then◌else◌, ℕ, ◌+◌, ◌^◌, ◌<◌, ◌≤◌, ◌≡◌, refl, sym, false,
  inl, inr, Option, List, arith, All, All-map, length, ℤ,
}
use mathlib.Core.Path.{subst}
use liven.Bytes.{Bytes}
use liven.Bytes.Order.{bytes_eq_iff}
use liven.Types.{LogPointer, Record}
use liven.Error.{LivenError, Result, ok, err, ◌>>=◌}
use liven.Storage.Payload.{PayloadFormat}
use liven.Storage.SkipMap.{SkipMap}
use liven.Storage.Index.Keys.{name_key, stamp_key, Stamp}
use liven.Storage.Index.{record_key}
use liven.Storage.Index.Fresh.{IsFresh}
use liven.Storage.Flusher.{Pending}
use liven.Storage.Flusher.Batch.{segment_bytes}
use liven.Storage.Flusher.Stands.{StandsAt, IsIndexed}
use liven.Storage.Flusher.Counts.{IsSound}
use liven.Storage.Flusher.Live.{ShowsAt}
use liven.Storage.Recovery.{RecoveryLimits, is_strict}
use liven.Storage.Recovery.Extent.{Extent}
use liven.Storage.Recovery.Replays.{IsWithin}
use liven.Storage.Recovery.Segments.{Recovered, replay_directory}
use liven.Storage.Recovery.Segmented.{Segment, all_records, HasOwnId, segments_of}
use liven.Storage.Recovery.Newest.{HasKey, IsNewest}
use liven.Storage.Recovery.Views.{live_of, entry_of, AreWritten}
use liven.Storage.Recovery.Directory.{IsRebuilt, Rebuilds, replay_directory-Rebuilds}
use liven.Storage.Salvage.Tears.{Directory}
use liven.Storage.Salvage.Decisions.{process_deferred_tears}
use liven.Storage.Recover.{Opened, recover, resolve_tears, found_directory}

-- The live record of a key has that key.
record_key-newest :
    (k : Bytes) (ps : List Pending) (n : ℕ) (r : Record)
    → Any (λ p. HasKey k p × (entry_of p ≡ (n, some r))) ps
    → record_key r ≡ k
record_key-newest k [] n r h = absurd h
record_key-newest k (p ∷ ps) n r (inl (same, is)) = elim (Bool-cases p.is_tombstone) [
  | inl dead ↦ absurd (ground (arith, rw (dead, if◌then◌else◌) at is))
  | inr alive ↦
      let read : ◌≡◌ {A = ℕ × Option Record} (p.written.sequence_id, some p.written) (n, some r) =
        rw (alive, if◌then◌else◌) at is in
      let found : k ≡ record_key p.written = (bytes_eq_iff k (record_key p.written)).0 same in cc
]
record_key-newest k (p ∷ ps) n r (inr later) = record_key-newest k ps n r later

newest-record :
    (format : PayloadFormat) (k : Bytes) (ps : List Pending) (files : List (ℕ × Bytes))
    (o : Option (ℕ × Option Record)) (p : LogPointer)
    → IsNewest k ps o
    → ShowsAt format files (some p) (live_of o)
    → (r : Record) × (record_key r ≡ k) × StandsAt format (segment_bytes p.segment_id files) p r
newest-record format k ps files none p h w = absurd w
newest-record format k ps files (some (n, none)) p h w = absurd w
newest-record format k ps files (some (n, some r)) p h w = (r, record_key-newest k ps n r h.1, w)

module _ (no_torn_region : ℕ → ℕ → Bytes) (format : PayloadFormat) (now_ms : ℤ)
    (P : SkipMap Bytes LogPointer name_key) (T : SkipMap Stamp LogPointer stamp_key)
    (limits : RecoveryLimits) where
  -- The files are those that were found, the index shows the newest frame of each key, and the next
  -- sequence id is above that of every frame. The index is one that the flusher keeps sound: its
  -- counter is exact, no sequence id from the next one on is in it, and its pointers point at frames
  -- of records with the keys that they stand under.
  pub record IsOpened (ws : List Segment) (d : Directory)
      (o : Opened no_torn_region format now_ms P T limits) : Type 0 where
    pub segments : o.directory.segments ≡ d.segments
    pub torn_backups : o.directory.torn_backups ≡ d.torn_backups
    pub markers : o.directory.markers ≡ d.markers
    pub shows :
        (k : Bytes)
        → (e : Option (ℕ × Option Record)) × IsNewest k (all_records ws) e
          × ShowsAt format d.segments (P.get k o.index.skipmap) (live_of e)
    pub next : All (λ p. p.written.sequence_id < o.current_sequence_id) (all_records ws)
    pub sound : IsSound P T o.current_sequence_id o.index
    pub indexed : IsIndexed format P T d.segments o.index

  -- the engine that recovery leaves where there is no tear
  abbrev opened :
      Directory → Recovered format P T limits → Opened no_torn_region format now_ms P T limits
  opened d r = record {
    directory = found_directory d;
    index = r.pass.state.index;
    streams_set = r.pass.state.streams_set;
    index_high_water_reached = r.pass.state.index_high_water_reached;
    current_sequence_id = r.current_sequence_id;
    active_segment_id = r.active_id;
  }

  resolve_nothing :
      (d : Directory) (r : Recovered format P T limits)
      → r.pass.tears ≡ []
      → resolve_tears no_torn_region format now_ms P T limits d r
        ≡ ok (record (opened d r) { directory = d })
  unfolding process_deferred_tears
  resolve_nothing d r clean = rw clean refl

  module _ (within : Extent) (ws : List Segment) (d : Directory)
      (e : d.segments ≡ segments_of format ws) where
    rebuilt-IsIndexed :
        (r : Recovered format P T limits)
        → IsRebuilt format P T limits within ws r
        → IsIndexed format P T d.segments r.pass.state.index
    rebuilt-IsIndexed r h k p there = rw e (
        newest-record format k (all_records ws) (segments_of format ws) (h.shows k).0 p
          (h.shows k).1
          (subst (λ o. ShowsAt format (segments_of format ws) o (live_of (h.shows k).0)) there
            (h.shows k).2))

    opened-IsOpened :
        (r : Recovered format P T limits)
        → within.last_seq + 1 < 2 ^ 64
        → IsRebuilt format P T limits within ws r
        → IsOpened ws d (opened d r)
    unfolding found_directory
    opened-IsOpened r small h = record {
      segments = refl;
      torn_backups = refl;
      markers = refl;
      shows = λ k. rw e (h.shows k);
      next = All-map _ _ (all_records ws) (λ p below. omega (arith, below, no_wrap)) h.next.3;
      sound = record {
        accounted = h.accounted;
        fresh = subst (λ n. IsFresh P T n r.pass.state.index) (sym no_wrap) h.next.4;
      };
      indexed = rebuilt-IsIndexed r h;
    }
      where
        no_wrap : r.current_sequence_id ≡ h.next.0 + 1
        no_wrap = omega (arith, h.next.1, h.next.2, small)

    -- Recovery from a data directory whose segments, each with its own id, hold whole frames of
    -- records as they are written, no sequence id under two keys, gets through where it is not strict
    -- and there are no more streams than the limit allows. It leaves the files of the directory as
    -- they are, and the index shows the frame of each key with the highest sequence id, unless that is
    -- a tombstone. The index is as the flusher's batches keep it: its pointers point at frames of
    -- records with the keys that they stand under, its byte counter is exact, and the next sequence
    -- id is above every one in it and in the frames, where none of them is the highest of 64 bits.
    pub recover-Completes :
        HasOwnId ws
        → All (λ w. AreWritten format w.1) ws
        → All (λ w. All (IsWithin within) w.1) ws
        → is_strict limits.recovery_mode ≡ false
        → length within.streams ≤ limits.max_streams
        → within.last_seq + 1 < 2 ^ 64
        → (o : Opened no_torn_region format now_ms P T limits) × (recover no_torn_region format
              now_ms P T limits d
            ≡ ok o)
          × IsOpened ws d o
    unfolding recover
    recover-Completes own written inside lax room small =
        go (replay_directory format P T limits d.segments) (
          subst
            (λ files.
              Rebuilds format P T limits within ws (replay_directory format P T limits files))
            (sym e) (replay_directory-Rebuilds format P T limits within ws own written inside))
      where
        go :
            (r : Result LivenError (Recovered format P T limits))
            → Rebuilds format P T limits within ws r
            → (o : Opened no_torn_region format now_ms P T limits) × ((r
                  >>= resolve_tears no_torn_region format now_ms P T limits (found_directory d))
                ≡ ok o)
              × IsOpened ws d o
        go (err x) (inl (is, over)) = absurd (omega (arith, over, room))
        go (err x) (inr (strict, n, over, is)) = absurd (ground (arith, strict, lax))
        go (ok r) h =
            (opened d r, resolve_nothing (found_directory d) r h.clean, opened-IsOpened r small h)
