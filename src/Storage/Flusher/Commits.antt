-- ===== src/Storage/Flusher/Commits.antt =====
-- `execute_batch_append` against the abstract view of the engine.
use mathlib.Core.Path.{subst}
use liven.Prelude.{
  ℕ, ◌+◌, ◌^◌, ◌<◌, ◌≡◌, inl, inr, refl, sym, Bool, true, false, List, ℤ, arith, length, map,
}
use liven.Bytes.{Bytes}
use liven.Types.{LogPointer}
use liven.Error.{LivenError, Result, ok, err}
use liven.Storage.Payload.{PayloadFormat}
use liven.Storage.SkipMap.{SkipMap}
use liven.Storage.Index.Keys.{name_key, stamp_key, Stamp}
use liven.Storage.Flusher.{LogEntry, Pending, Config, Admission, Outcome, admit_all}
use liven.Storage.Flusher.Outcomes.{Ensures, Ends-Ensures}
use liven.Storage.Flusher.Built.{IsBuilt, admit_all-IsBuilt}
use liven.Storage.Flusher.Live.{Live, write_all}
use liven.Storage.Flusher.Pairs.{IsPaired}
use liven.Storage.Flusher.Takes.{change_of, Takes}
use liven.Storage.Flusher.Admits.{HasAdmitted, admit_all-HasAdmitted}
use liven.Storage.Flusher.Refines.{
  EngineShows, Leaves-both, Leaves-bind, Leaves-map, roll_over-Shows, write_frames-Shows,
  sync_frames-Shows, finish-Shows,
}
use liven.Storage.Flusher.Stages.{
  EngineIsIndexed, IsReady, HasFrames, Leaves, roll_over-Leaves, write_frames-Leaves,
  sync_frames-Leaves,
}
use liven.Storage.Flusher.Batch.{
  Engine, Io, segment_bytes, write_frames, sync_frames, finish, admitted, persist, needs_room,
  make_room, write_and_finish, sync_and_finish, start_batch, continue_batch, execute_batch_append,
}

module _ (format : PayloadFormat) (P : SkipMap Bytes LogPointer name_key)
    (T : SkipMap Stamp LogPointer stamp_key) where
  -- The engine represents the view with the changes of admitted entries written to it.
  pub record Commits (entries : List LogEntry) (m : Live) (e : Engine format P T) : Type 0 where
    pub pushed : List Pending
    pub takes : Takes entries (map change_of pushed)
    pub shows : EngineShows format P T (write_all pushed m) e

  module _ (cfg : Config) (now : ℕ → Result LivenError ℤ) (o : Io) where
    persist-Shows :
        (m : Live) (a : Admission) (s0 : ℕ) (e : Engine format P T)
        → IsBuilt format now s0 0 a
        → IsPaired a.completes a.pending
        → IsReady format P T e
        → e.segment_id_counter + 1 < 2 ^ 64
        → EngineShows format P T m e
        → Leaves format P T
            (EngineShows format P T (write_all a.pending m))
            (EngineShows format P T m)
            (persist format P T cfg o a e)
    unfolding finish
    persist-Shows m a s0 e b paired h room shown =
        Leaves-bind format P T (λ e1. IsReady format P T e1 × View e1) View Written
          (make_room format P T (needs_room format P T cfg a e) o e)
          (write_and_finish format P T cfg o a) (started (needs_room format P T cfg a e))
          λ e1 h1.
            Leaves-bind format P T (λ e2. Frames e2 × View e2) View Written
              (write_frames format P T a.frame_buf o e1) (sync_and_finish format P T cfg o a)
              (Leaves-both format P T Frames (EngineIsIndexed format P T) View
                (write_frames format P T a.frame_buf o e1)
                (write_frames-Leaves format P T o a.frame_buf e1 h1.0)
                (write_frames-Shows format P T cfg o m a.frame_buf e1 h1.1))
              λ e2 h2.
                Leaves-bind format P T (λ e3. Frames e3 × View e3) View Written
                  (sync_frames format P T cfg o e2) (finish format P T a)
                  (Leaves-both format P T Frames (EngineIsIndexed format P T) View
                    (sync_frames format P T cfg o e2)
                    (sync_frames-Leaves format P T o cfg a.frame_buf e2 h2.0)
                    (sync_frames-Shows format P T cfg o m e2 h2.1))
                  (λ e3 h3. finish-Shows format P T cfg o m a now s0 e3 b paired h3.0 h3.1)
      where
        View : Engine format P T → Type 0
        View = EngineShows format P T m

        Written : Engine format P T → Type 0
        Written = EngineShows format P T (write_all a.pending m)

        Frames : Engine format P T → Type 0
        Frames = HasFrames format P T a.frame_buf

        started :
            (n : Bool)
            → Leaves format P T
                (λ e1. IsReady format P T e1 × View e1)
                View
                (make_room format P T n o e)
        started true =
            Leaves-both format P T (IsReady format P T) (EngineIsIndexed format P T) View
              (make_room format P T true o e) (roll_over-Leaves format P T o e h room)
              (roll_over-Shows format P T cfg o m e shown)
        started false = (h, shown)

    -- The primary index and the segment files of a working engine represent, for each compound key,
    -- the record that was last written under it. A batch refines writing to this map the changes of
    -- some of its entries before a shutdown, in order, of each entry all or none, and none only of an entry
    -- that may add a key. When the batch fails, however the clock and the file system made it fail, the map is represented unchanged.
    pub execute_batch_append-Commits :
        (entries : List LogEntry) (e : Engine format P T) (m : Live)
        → EngineIsIndexed format P T e
        → e.failed ≡ false
        → e.segment_id_counter + 1 < 2 ^ 64
        → EngineShows format P T m e
        → Leaves format P T
            (Commits entries m)
            (EngineShows format P T m)
            (execute_batch_append format P T cfg now o entries e)
    unfolding execute_batch_append
    execute_batch_append-Commits entries e m h works room shown =
        go (admit_all format P T cfg now e.index entries start)
          (Ends-Ensures now (IsBuilt format now e.current_sequence_id 0)
            (admit_all format P T cfg now e.index entries start)
            (admit_all-IsBuilt format P T cfg now e.current_sequence_id e.index entries start
              (record {
                run = refl;
                frames = refl;
                measured = tt;
                stamped = tt;
                counted = omega arith;
              })))
          (admit_all-HasAdmitted format P T cfg now e.index entries start)
      where
        start : Admission
        start = start_batch format P T e

        size : e.active_size ≡ length (segment_bytes e.active_segment_id e.files)
        size = elim h.sized [ inl broken ↦ absurd (ground (arith, works)) | inr s ↦ s ]

        ready : (a : Admission) → IsReady format P T (admitted format P T a e)
        ready a = record {
          consistent = record {
            indexed = h.consistent.indexed;
            active = h.consistent.active;
            unused = h.consistent.unused;
          };
          sized = size;
        }

        go :
            (r : Outcome)
            → Ensures (IsBuilt format now e.current_sequence_id 0) r
            → Ensures (HasAdmitted format P T cfg now entries start) r
            → Leaves format P T
                (Commits entries m)
                (EngineShows format P T m)
                (continue_batch format P T cfg o e r)
        go (err x, a) b t = shown
        go (ok u, a) b t =
            Leaves-map format P T (EngineShows format P T (write_all a.pending m))
              (Commits entries m) (EngineShows format P T m)
              (persist format P T cfg o a (admitted format P T a e))
              (persist-Shows m a e.current_sequence_id (admitted format P T a e) b
                (rw (t.completes, t.pending) t.paired) (ready a) room shown)
              λ e' h'. record {
                pushed = a.pending;
                takes = subst (λ ps. Takes entries (map change_of ps)) (sym t.pending) t.takes;
                shows = h';
              }
