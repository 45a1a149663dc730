-- ===== src/Storage/Flusher/Refines.antt =====
-- A batch refines writing its admitted changes, in order, to the abstract view of the engine.
use mathlib.Core.Path.{subst}
use liven.Prelude.{
  ℕ, ℤ, ◌+◌, ◌≡◌, refl, sym, ap, ◌∙◌, Bool, true, false, List, [], ◌∷◌, ◌++◌, arith, take, length,
  length-append, append-nil, append_assoc, All,
}
use liven.Bytes.{Bytes}
use liven.Types.{LogPointer}
use liven.Error.{LivenError, Result, ok, err}
use liven.Storage.Payload.{PayloadFormat}
use liven.Storage.Frame.{frame_of}
use liven.Storage.SkipMap.{SkipMap}
use liven.Storage.Index.{Index}
use liven.Storage.Index.Keys.{name_key, stamp_key, Stamp}
use liven.Storage.Flusher.{Pending, Config, Admission}
use liven.Storage.Flusher.Built.{IsBuilt, frames_of, IsMeasured}
use liven.Storage.Flusher.Live.{Live, write, write_all, Shows, Shows-grows, index_record-Shows}
use liven.Storage.Flusher.Pairs.{IsPaired, index_all, complete_all-index}
use liven.Storage.Flusher.Stages.{HasFrames, Leaves}
use liven.Storage.Flusher.Batch.{
  WriteResult, written, torn, Engine, Io, Reply, segment_bytes, roll_over, write_frames,
  sync_frames, finish, and_next,
}

module _ (format : PayloadFormat) (P : SkipMap Bytes LogPointer name_key)
    (T : SkipMap Stamp LogPointer stamp_key) where
  -- Records whose frames stand one after the other from the offset on are written, one by one.
  index_all-Shows :
      (segment : ℕ) (files : List (ℕ × Bytes)) (after : Bytes) (ps : List Pending) (n : ℕ)
      (before : Bytes) (ix : Index P T) (m : Live)
      → segment_bytes segment files ≡ before ++ (frames_of format ps ++ after)
      → n ≡ length before
      → All (IsMeasured format) ps
      → Shows format P T files ix m
      → Shows format P T files (index_all P T segment ps n ix) (write_all ps m)
  unfolding index_all write_all
  index_all-Shows segment files after [] n before ix m holds off meas h = h
  index_all-Shows segment files after (p ∷ ps) n before ix m holds off meas h =
      index_all-Shows segment files after ps (n + p.frame_len) (before ++ frame_of format p.written)
        _ (write p m)
        (holds
          ∙ rw
              (
                append_assoc (frame_of format p.written) (frames_of format ps) after,
                append_assoc before (frame_of format p.written) (frames_of format ps ++ after),
              )
              refl)
        (omega (arith, off, meas.0, length-append before (frame_of format p.written))) meas.1
        (index_record-Shows format P T segment p n files ix m
          (record {
            before = before;
            after = frames_of format ps ++ after;
            holds =
                holds
                ∙ ap (λ x. before ++ x)
                    (append_assoc (frame_of format p.written) (frames_of format ps) after);
            offset = off;
          })
          h)

  abbrev pub EngineShows : Live → Engine format P T → Type 0
  EngineShows m e = Shows format P T e.files e.index m

  EngineShows-same :
      (m : Live) (a b : Engine format P T)
      → b.files ≡ a.files
      → b.index ≡ a.index
      → EngineShows m a
      → EngineShows m b
  EngineShows-same m a b ef ei h = rw (ef, ei) h

  -- both of two statements about what a computation leaves
  pub Leaves-both :
      (Q R S : Engine format P T → Type 0) (r : Reply format P T)
      → Leaves format P T Q R r
      → S r.1
      → Leaves format P T (λ e. Q e × S e) S r
  Leaves-both Q R S (ok u, e) h s = (h, s)
  Leaves-both Q R S (err x, e) h s = s

  pub Leaves-map :
      (Q S R : Engine format P T → Type 0) (r : Reply format P T)
      → Leaves format P T Q R r
      → ((e : Engine format P T) → Q e → S e)
      → Leaves format P T S R r
  Leaves-map Q S R (ok u, e) h f = f e h
  Leaves-map Q S R (err x, e) h f = h

  -- the rest of a computation, with what its errors and its success leave
  pub Leaves-bind :
      (Q R S : Engine format P T → Type 0) (r : Reply format P T)
      (k : Engine format P T → Reply format P T)
      → Leaves format P T Q R r
      → ((e : Engine format P T) → Q e → Leaves format P T S R (k e))
      → Leaves format P T S R (and_next format P T r k)
  Leaves-bind Q R S (ok u, e) k h go = go e h
  Leaves-bind Q R S (err x, e) k h go = h

  module _ (cfg : Config) (o : Io) (m : Live) where
    pub roll_over-Shows :
        (e : Engine format P T) → EngineShows m e → EngineShows m (roll_over format P T o e).1
    unfolding roll_over
    roll_over-Shows e h =
        EngineShows-same m e (roll_over format P T o e).1 (ground arith) (ground arith) h

    pub sync_frames-Shows :
        (e : Engine format P T) → EngineShows m e → EngineShows m (sync_frames format P T cfg o e).1
    unfolding sync_frames
    sync_frames-Shows e h =
        EngineShows-same m e (sync_frames format P T cfg o e).1 (ground arith) (ground arith) h

    pub write_frames-Shows :
        (buf : Bytes) (e : Engine format P T)
        → EngineShows m e
        → EngineShows m (write_frames format P T buf o e).1
    unfolding write_frames
    write_frames-Shows buf e h = go e.active_file o.write
      where
        go :
            (b : Bool) (w : WriteResult)
            → EngineShows m
                (write_frames format P T buf
                  (record o { write = w })
                  (record e { active_file = b })).1
        go false w = h
        go true written = Shows-grows format P T e.active_segment_id buf e.files e.index m h
        go true (torn n full x) =
            Shows-grows format P T e.active_segment_id (take n buf) e.files e.index m h

    pub finish-Shows :
        (a : Admission) (now : ℕ → Result LivenError ℤ) (s0 : ℕ) (e : Engine format P T)
        → IsBuilt format now s0 0 a
        → IsPaired a.completes a.pending
        → HasFrames format P T a.frame_buf e
        → EngineShows m e
        → EngineShows (write_all a.pending m) (finish format P T a e).1
    unfolding finish
    finish-Shows a now s0 e b paired f h =
        subst (λ ix. Shows format P T e.files ix (write_all a.pending m))
          (sym (
            complete_all-index P T e.active_segment_id a.completes a.pending
              (record {
                offset_acc = e.active_size;
                index = e.index;
                broadcasts = e.broadcasts;
                acks = e.acks;
              })
              paired))
          (index_all-Shows e.active_segment_id e.files [] a.pending e.active_size f.before e.index m
            (f.holds
              ∙ ap (λ x. f.before ++ x) (b.frames ∙ sym (append-nil (frames_of format a.pending))))
            f.sized b.measured h)
