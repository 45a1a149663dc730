-- ===== src/Storage/Flusher/Counts.antt =====
-- The byte counter of the indexes is exact after every batch, whatever the batch holds and however
-- the file system answers.
use mathlib.Core.Path.{subst}
use liven.Prelude.{
  ℕ, suc, ◌+◌, ◌^◌, ◌≤◌, ◌<◌, ◌≡◌, refl, sym, ◌∙◌, Bool, true, false, List, [], ◌∷◌, arith, length,
  ℤ,
}
use liven.Bytes.{Bytes}
use liven.Types.{LogPointer, Record}
use liven.Error.{LivenError, Result, ok, err}
use liven.Storage.Payload.{PayloadFormat}
use liven.Storage.SkipMap.{SkipMap}
use liven.Storage.Index.{Index, remove_key, insert_key}
use liven.Storage.Index.Keys.{name_key, stamp_key, Stamp}
use liven.Storage.Index.Charge.{IsAccounted, remove_key-IsAccounted}
use liven.Storage.Index.Fresh.{
  IsFresh, IsFresh-weaken, remove_key-IsFresh, insert_key-IsFresh, insert_key-IsAccounted,
}
use liven.Storage.Flusher.{LogEntry, Pending, Config, Admission, Outcome, u64_add, admit_all}
use liven.Storage.Flusher.Admit.{asked_all, Within, admit_all-Within}
use liven.Storage.Flusher.Outcomes.{Ensures, Ends-Ensures}
use liven.Storage.Flusher.Built.{IsRun, IsBuilt, admit_all-IsBuilt}
use liven.Storage.Flusher.Complete.{index_record, pointer_to}
use liven.Storage.Flusher.Steps.{complete_all_keeps}
use liven.Storage.Flusher.Batch.{
  Engine, Io, Reply, roll_over, write_frames, sync_frames, finish, admitted, and_next, persist,
  needs_room, make_room, write_and_finish, sync_and_finish, start_batch, continue_batch,
  execute_batch_append,
}

module _ (P : SkipMap Bytes LogPointer name_key) (T : SkipMap Stamp LogPointer stamp_key) where
  -- The counter is exact, and sequence ids from `n` on are new to the timestamp indexes.
  pub record IsSound (n : ℕ) (ix : Index P T) : Type 0 where
    pub accounted : IsAccounted P T ix
    pub fresh : IsFresh P T n ix

  -- sound at the id of the next record, with the records left to be done
  record IsCounted (end : ℕ) (ps : List Pending) (offset : ℕ) (ix : Index P T) : Type 0 where
    next : ℕ
    sound : IsSound next ix
    run : IsRun next ps end
    room : next + length ps < 2 ^ 64

  remove_key-IsSound :
      (r : Record) (ix : Index P T)
      → IsSound r.sequence_id ix
      → IsSound (suc r.sequence_id) (remove_key P T r ix)
  remove_key-IsSound r ix h = record {
    accounted = remove_key-IsAccounted P T r ix h.accounted;
    fresh =
        IsFresh-weaken P T r.sequence_id (suc r.sequence_id) (remove_key P T r ix) (omega arith)
          (remove_key-IsFresh P T r.sequence_id r ix h.fresh);
  }

  insert_key-IsSound :
      (r : Record) (p : LogPointer) (ix : Index P T)
      → IsSound r.sequence_id ix
      → IsSound (suc r.sequence_id) (insert_key P T r p ix)
  insert_key-IsSound r p ix h = record {
    accounted =
        insert_key-IsAccounted P T r p ix
          (h.fresh.absent r.stream_name (r.timestamp, r.sequence_id) (omega arith)) h.accounted;
    fresh = insert_key-IsFresh P T r p ix h.fresh;
  }

  index_record-IsSound :
      (segment : ℕ) (r : Record) (len n : ℕ) (t : Bool) (ix : Index P T)
      → IsSound r.sequence_id ix
      → IsSound (suc r.sequence_id) (
          index_record P T segment (record { written = r; frame_len = len; is_tombstone = t }) n ix)
  unfolding index_record
  index_record-IsSound segment r len n true ix h = remove_key-IsSound r ix h
  index_record-IsSound segment r len n false ix h =
      insert_key-IsSound r (pointer_to P T segment r n) ix h

  step :
      (segment end : ℕ) (p : Pending) (t : Bool) (ps : List Pending) (n m : ℕ) (ix : Index P T)
      → IsCounted end (p ∷ ps) n ix
      → IsCounted end ps m (index_record P T segment (record p { is_tombstone = t }) n ix)
  step segment end p t ps n m ix h = record {
    next = suc h.next;
    sound =
        subst (λ k. IsSound (suc k) (index_record P T segment (record p { is_tombstone = t }) n ix))
          h.run.0
          (index_record-IsSound segment p.written p.frame_len n t ix
            (subst (λ k. IsSound k ix) (sym h.run.0) h.sound));
    run = subst (λ k. IsRun k ps end) (omega (arith, h.room)) h.run.1;
    room = omega (arith, h.room);
  }

  IsRun-end : (s : ℕ) (ps : List Pending) (e : ℕ) → IsRun s ps e → s + length ps < 2 ^ 64 → s ≤ e
  IsRun-end s [] e h room = omega (arith, h)
  IsRun-end s (p ∷ ps) e h room =
      omega (arith, IsRun-end (u64_add s 1) ps e h.1 (omega (arith, room)))

  IsCounted-IsSound :
      (end : ℕ) (ps : List Pending) (n : ℕ) (ix : Index P T)
      → IsCounted end ps n ix
      → IsSound end ix
  IsCounted-IsSound end ps n ix h = record {
    accounted = h.sound.accounted;
    fresh = IsFresh-weaken P T h.next end ix (IsRun-end h.next ps end h.run h.room) h.sound.fresh;
  }

  module _ (format : PayloadFormat) (cfg : Config) (now : ℕ → Result LivenError ℤ) (o : Io) where
    -- what the steps before the completion leave alone
    record IsUntouched (before after : Engine format P T) : Type 0 where
      seq : after.current_sequence_id ≡ before.current_sequence_id
      index : after.index ≡ before.index

    roll_over-IsUntouched : (e : Engine format P T) → IsUntouched e (roll_over format P T o e).1
    unfolding roll_over
    roll_over-IsUntouched e = record { seq = ground arith; index = ground arith }

    write_frames-IsUntouched :
        (buf : Bytes) (e : Engine format P T) → IsUntouched e (write_frames format P T buf o e).1
    unfolding write_frames
    write_frames-IsUntouched buf e = record { seq = ground arith; index = ground arith }

    sync_frames-IsUntouched :
        (e : Engine format P T) → IsUntouched e (sync_frames format P T cfg o e).1
    unfolding sync_frames
    sync_frames-IsUntouched e = record { seq = ground arith; index = ground arith }

    -- the counter and the indexes of an engine that agree
    abbrev pub EngineIsSound : Engine format P T → Type 0
    EngineIsSound e = IsSound e.current_sequence_id e.index

    IsUntouched-IsSound :
        (a b : Engine format P T) → IsUntouched a b → EngineIsSound a → EngineIsSound b
    IsUntouched-IsSound a b u h = rw (u.seq, u.index) h

    and_next_rule :
        (Q R : Engine format P T → Type 0) (r : Reply format P T)
        (k : Engine format P T → Reply format P T)
        → Q r.1
        → ((e : Engine format P T) → Q e → R e)
        → ((e : Engine format P T) → Q e → R (k e).1)
        → R (and_next format P T r k).1
    and_next_rule Q R (ok u, e) k h stop go = go e h
    and_next_rule Q R (err x, e) k h stop go = stop e h

    module _ (a : Admission) (s0 : ℕ) (built : IsBuilt format now s0 0 a)
        (room : s0 + length a.pending < 2 ^ 64) where
      -- the engine that admission started from, as far as it matters here
      record IsReady (e : Engine format P T) : Type 0 where
        seq : e.current_sequence_id ≡ s0
        sound : IsSound s0 e.index

      IsReady-IsSound : (e : Engine format P T) → IsReady e → EngineIsSound e
      IsReady-IsSound e h = rw h.seq h.sound

      IsReady-IsUntouched : (b e : Engine format P T) → IsUntouched b e → IsReady b → IsReady e
      IsReady-IsUntouched b e u h = record { seq = u.seq ∙ h.seq; sound = rw u.index h.sound }

      finish-IsSound : (e : Engine format P T) → IsReady e → EngineIsSound (finish format P T a e).1
      unfolding finish
      finish-IsSound e h =
          let done =
            complete_all_keeps P T e.active_segment_id (IsCounted a.current_seq)
              (λ p ps n ix c.
                step e.active_segment_id a.current_seq p p.is_tombstone ps n (n + p.frame_len) ix c)
              (λ p ps n ix c.
                step e.active_segment_id a.current_seq p false ps n (n + p.frame_len) ix c)
              a.completes a.pending
              (record {
                offset_acc = e.active_size;
                index = e.index;
                broadcasts = e.broadcasts;
                acks = e.acks;
              })
              (record { next = s0; sound = h.sound; run = built.run; room = room }) in
          IsCounted-IsSound a.current_seq done.0 _ _ done.1

      persist-IsSound :
          (e : Engine format P T) → IsReady e → EngineIsSound (persist format P T cfg o a e).1
      persist-IsSound e h =
          and_next_rule IsReady EngineIsSound
            (make_room format P T (needs_room format P T cfg a e) o e)
            (write_and_finish format P T cfg o a) (started (needs_room format P T cfg a e))
            IsReady-IsSound
            λ e1 h1.
              and_next_rule IsReady EngineIsSound (write_frames format P T a.frame_buf o e1)
                (sync_and_finish format P T cfg o a)
                (IsReady-IsUntouched e1 (write_frames format P T a.frame_buf o e1).1
                  (write_frames-IsUntouched a.frame_buf e1) h1)
                IsReady-IsSound
                λ e2 h2.
                  and_next_rule IsReady EngineIsSound (sync_frames format P T cfg o e2)
                    (finish format P T a)
                    (IsReady-IsUntouched e2 (sync_frames format P T cfg o e2).1
                      (sync_frames-IsUntouched e2) h2)
                    IsReady-IsSound finish-IsSound
        where
          started : (b : Bool) → IsReady (make_room format P T b o e).1
          started true =
              IsReady-IsUntouched e (roll_over format P T o e).1 (roll_over-IsUntouched e) h
          started false = h

    -- After a batch, whatever it holds, whether it is refused, fails or is written, and however the
    -- clock and the file system answer, the index byte counter is again the exact charge of the
    -- entries of both indexes (modulo 2^64), and the sequence counter is above every sequence id in
    -- them. This is so if it was so before, and if the sequence ids that the batch can take stay
    -- below 2^64.
    pub execute_batch_append-IsSound :
        (entries : List LogEntry) (e : Engine format P T)
        → EngineIsSound e
        → e.current_sequence_id + asked_all entries < 2 ^ 64
        → EngineIsSound (execute_batch_append format P T cfg now o entries e).1
    unfolding execute_batch_append
    execute_batch_append-IsSound entries e h room =
        go (admit_all format P T cfg now e.index entries start)
          (Ends-Ensures now (IsBuilt format now e.current_sequence_id 0)
            (admit_all format P T cfg now e.index entries start)
            (admit_all-IsBuilt format P T cfg now e.current_sequence_id e.index entries start
              (record {
                run = refl;
                frames = refl;
                measured = tt;
                stamped = tt;
                counted = omega arith;
              })))
          (admit_all-Within format now P T cfg e.index entries 0 (asked_all entries) start
            (omega arith) (record { at_most = omega arith }))
      where
        start : Admission
        start = start_batch format P T e

        go :
            (r : Outcome)
            → Ensures (IsBuilt format now e.current_sequence_id 0) r
            → Ensures (Within (asked_all entries)) r
            → EngineIsSound (continue_batch format P T cfg o e r).1
        go (err x, a) b w = record { accounted = h.accounted; fresh = h.fresh }
        go (ok u, a) b w =
            persist-IsSound a e.current_sequence_id b (omega (arith, w.at_most))
              (admitted format P T a e) (record { seq = refl; sound = h })
