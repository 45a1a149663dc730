-- ===== src/Storage/Flusher/Readable.antt =====
-- The index of an engine points at frames, before and after every batch.
use liven.Prelude.{
  ℕ, ◌+◌, ◌^◌, ◌<◌, ◌≡◌, inl, inr, refl, sym, ap, ◌∙◌, Bool, true, false, List, [], ◌++◌, ℤ, arith,
  length, append-nil,
}
use liven.Bytes.{Bytes}
use liven.Types.{LogPointer}
use liven.Error.{LivenError, Result, ok, err}
use liven.Storage.Payload.{PayloadFormat}
use liven.Storage.SkipMap.{SkipMap}
use liven.Storage.Index.Keys.{name_key, stamp_key, Stamp}
use liven.Storage.Flusher.{LogEntry, Config, Admission, Outcome, admit_all}
use liven.Storage.Flusher.Outcomes.{Ensures, Ends-Ensures}
use liven.Storage.Flusher.Built.{IsBuilt, admit_all-IsBuilt, frames_of}
use liven.Storage.Flusher.Stands.{IsAhead, index_record-IsAhead}
use liven.Storage.Flusher.Stages.{
  IsConsistent, EngineIsIndexed, IsReady, HasFrames, Leaves, Leaves-and_next, roll_over-Leaves,
  write_frames-Leaves, sync_frames-Leaves,
}
use liven.Storage.Flusher.Steps.{complete_all_ends}
use liven.Storage.Flusher.Batch.{
  Engine, Io, segment_bytes, write_frames, sync_frames, finish, admitted, persist, needs_room,
  make_room, write_and_finish, sync_and_finish, start_batch, continue_batch, execute_batch_append,
}

module _ (format : PayloadFormat) (P : SkipMap Bytes LogPointer name_key)
    (T : SkipMap Stamp LogPointer stamp_key) where
  finish-EngineIsIndexed :
      (a : Admission) (now : ℕ → Result LivenError ℤ) (s0 : ℕ) (e : Engine format P T)
      → IsBuilt format now s0 0 a
      → HasFrames format P T a.frame_buf e
      → EngineIsIndexed format P T (finish format P T a e).1
  unfolding finish
  finish-EngineIsIndexed a now s0 e b h =
      let done =
        complete_all_ends P T e.active_segment_id
          (IsAhead format P T e.active_segment_id e.files [])
          (λ p ps n ix q.
            index_record-IsAhead format P T e.active_segment_id e.files [] p.is_tombstone p ps n ix
              q)
          (λ p ps n ix q.
            index_record-IsAhead format P T e.active_segment_id e.files [] false p ps n ix q)
          a.completes a.pending
          (record {
            offset_acc = e.active_size;
            index = e.index;
            broadcasts = e.broadcasts;
            acks = e.acks;
          })
          (omega (arith, b.counted))
          (record {
            indexed = h.consistent.indexed;
            before = h.before;
            holds =
                h.holds
                ∙ ap (λ x. h.before ++ x)
                    (b.frames ∙ sym (append-nil (frames_of format a.pending)));
            offset = h.sized;
            measured = b.measured;
          }) in
      record {
        consistent = record {
          indexed = done.indexed;
          active = h.consistent.active;
          unused = h.consistent.unused;
        };
        sized = inr (done.offset ∙ ap length (sym (done.holds ∙ append-nil done.before)));
      }

  module _ (cfg : Config) (now : ℕ → Result LivenError ℤ) (o : Io) where
    persist-EngineIsIndexed :
        (a : Admission) (s0 : ℕ) (e : Engine format P T)
        → IsBuilt format now s0 0 a
        → IsReady format P T e
        → e.segment_id_counter + 1 < 2 ^ 64
        → EngineIsIndexed format P T (persist format P T cfg o a e).1
    persist-EngineIsIndexed a s0 e b h room =
        Leaves-and_next format P T (IsReady format P T) (EngineIsIndexed format P T)
          (make_room format P T (needs_room format P T cfg a e) o e)
          (write_and_finish format P T cfg o a) (started (needs_room format P T cfg a e))
          λ e1 h1.
            Leaves-and_next format P T (HasFrames format P T a.frame_buf)
              (EngineIsIndexed format P T) (write_frames format P T a.frame_buf o e1)
              (sync_and_finish format P T cfg o a)
              (write_frames-Leaves format P T o a.frame_buf e1 h1)
              λ e2 h2.
                Leaves-and_next format P T (HasFrames format P T a.frame_buf)
                  (EngineIsIndexed format P T) (sync_frames format P T cfg o e2)
                  (finish format P T a) (sync_frames-Leaves format P T o cfg a.frame_buf e2 h2)
                  (λ e3 h3. finish-EngineIsIndexed a now s0 e3 b h3)
      where
        started :
            (n : Bool)
            → Leaves format P T
                (IsReady format P T)
                (EngineIsIndexed format P T)
                (make_room format P T n o e)
        started true = roll_over-Leaves format P T o e h room
        started false = h

    -- If every pointer of the primary index points, in the segment that it names, at the whole frame
    -- of a record with the key that it stands under, then it is so again after a batch that a
    -- working engine executes, whatever the batch holds, whether it is refused, fails or is written,
    -- and however the clock and the file system answer. The engine has then failed, or the size it
    -- keeps is the size of the active segment's file, as before. Segment ids from the counter on
    -- have no file before and after, and the counter is not at its end.
    pub execute_batch_append-IsIndexed :
        (entries : List LogEntry) (e : Engine format P T)
        → EngineIsIndexed format P T e
        → e.failed ≡ false
        → e.segment_id_counter + 1 < 2 ^ 64
        → EngineIsIndexed format P T (execute_batch_append format P T cfg now o entries e).1
    unfolding execute_batch_append
    execute_batch_append-IsIndexed entries e h works room =
        go (admit_all format P T cfg now e.index entries start) (
          Ends-Ensures now (IsBuilt format now e.current_sequence_id 0)
            (admit_all format P T cfg now e.index entries start)
            (admit_all-IsBuilt format P T cfg now e.current_sequence_id e.index entries start
              (record {
                run = refl;
                frames = refl;
                measured = tt;
                stamped = tt;
                counted = omega arith;
              })))
      where
        start : Admission
        start = start_batch format P T e

        c : IsConsistent format P T e
        c = h.consistent

        size : e.active_size ≡ length (segment_bytes e.active_segment_id e.files)
        size = elim h.sized [ inl broken ↦ absurd (ground (arith, works)) | inr s ↦ s ]

        go :
            (r : Outcome)
            → Ensures (IsBuilt format now e.current_sequence_id 0) r
            → EngineIsIndexed format P T (continue_batch format P T cfg o e r).1
        go (err x, a) b = record {
          consistent = record { indexed = c.indexed; active = c.active; unused = c.unused };
          sized = inr size;
        }
        go (ok u, a) b =
            persist-EngineIsIndexed a e.current_sequence_id (admitted format P T a e) b
              (record {
                consistent = record { indexed = c.indexed; active = c.active; unused = c.unused };
                sized = size;
              })
              room
