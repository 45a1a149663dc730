-- ===== src/Storage/Durable/Batches.antt =====
-- The segment files hold whole frames whose newest are the map that the batches have written.
use mathlib.Core.Path.{subst}
use liven.Prelude.{
  ℕ, ◌≤◌, ◌+◌, ◌^◌, ◌<◌, ◌≡◌, ◌⊎◌, inl, inr, refl, sym, ap, ◌∙◌, true, Option, none, some, List, [],
  ◌∷◌, ℤ, arith, All, Any, All-map, All-both, concat_map-All, length, map,
}
use liven.Bytes.{Bytes}
use liven.Types.{LogPointer, Record}
use liven.Error.{LivenError, Result, ok, err}
use liven.Storage.Payload.{PayloadFormat}
use liven.Storage.SkipMap.{SkipMap}
use liven.Storage.Index.Keys.{name_key, stamp_key, Stamp}
use liven.Storage.Flusher.{LogEntry, Pending, Config, Admission, Outcome, admit_all, contains_key}
use liven.Storage.Flusher.Outcomes.{Ensures, Ends-Ensures}
use liven.Storage.Flusher.Built.{IsBuilt, IsStamped, frames_of, admit_all-IsBuilt}
use liven.Storage.Flusher.Live.{Live, write_all}
use liven.Storage.Flusher.Takes.{change_of, Takes}
use liven.Storage.Flusher.Admits.{HasAdmitted, admit_all-HasAdmitted, length-map}
use liven.Storage.Flusher.Stages.{Leaves}
use liven.Storage.Flusher.Batch.{
  Engine, Io, Reply, append_bytes, persist, admitted, start_batch, continue_batch,
  execute_batch_append,
}
use liven.Storage.Recovery.Views.{View, seq_of, live_of, outranks, merge_all, entry_of, AreWritten}
use liven.Storage.Recovery.Segmented.{Segment, all_records, records_of, HasOwnId, segments_of}
use liven.Storage.Recovery.Newest.{HasKey, IsNewest}
use liven.Storage.Durable.Appended.{
  put_frames, append_bytes-segments_of, HasOwnId-put_frames, All-put_frames, IsNewest-appended,
}
use liven.Storage.Durable.Runs.{
  IsRun-end, IsRun-All, IsRun-below, IsRun-record_after, record_after, write_all-merge_all,
  IsBefore,
}
use liven.Storage.Durable.Files.{IsPersisted, Stays, persist-IsPersisted}
use liven.Storage.Durable.Accepted.{
  IsAccepted, IsInRange, IsAccepted-IsWritable, Takes-IsAccepted, length-Takes, asked_changes,
}

-- the record of a known stream that has its sequence id, which is below the next one
pub record IsKnown (streams : List Bytes) (at_seq : ℕ → Option Pending) (next : ℕ) (p : Pending)
    : Type 0 where
  pub stream : contains_key p.written.stream_name streams ≡ true
  pub frame : some p ≡ at_seq p.written.sequence_id
  pub below : p.written.sequence_id < next

newest-IsBefore :
    (s : ℕ) (k : Bytes) (qs : List Pending) (o : Option (ℕ × Option Record))
    → All (λ p. p.written.sequence_id < s) qs
    → IsNewest k qs o
    → outranks s (seq_of o) ≡ true
newest-IsBefore s k qs none below h = refl
newest-IsBefore s k qs (some e) below h = go qs below h.1
  where
    go :
        (ps : List Pending)
        → All (λ p. p.written.sequence_id < s) ps
        → Any (λ p. HasKey k p × (entry_of p ≡ e)) ps
        → outranks s (some e.0) ≡ true
    go [] b m = absurd m
    go (p ∷ ps) b (inl (same, is)) = ground (arith, b.0, ap (λ x. x.0) is)
    go (p ∷ ps) b (inr later) = go ps b.1 later

module _ (format : PayloadFormat) where
  -- The files are segments of whole frames of records as they are written, and the map has for each
  -- key what its newest frame says. Sequence ids are below the next one and each is of one frame.
  pub record IsDurable (streams : List Bytes) (m : Live) (files : List (ℕ × Bytes)) (next : ℕ)
      : Type 0 where
    pub segments : List Segment
    pub at_seq : ℕ → Option Pending
    pub holds : files ≡ segments_of format segments
    pub own : HasOwnId segments
    pub written : All (λ w. AreWritten format w.1) segments
    pub known : All (λ w. All (IsKnown streams at_seq next) w.1) segments
    pub newest :
        (k : Bytes)
        → (o : Option (ℕ × Option Record)) × IsNewest k (all_records segments) o × (m k ≡ live_of o)

  module _ (P : SkipMap Bytes LogPointer name_key) (T : SkipMap Stamp LogPointer stamp_key)
      (streams : List Bytes) (now : ℕ → Result LivenError ℤ) (range : IsInRange now) where
    abbrev pub EngineIsDurable : Live → Engine format P T → Type 0
    EngineIsDurable m e = IsDurable streams m e.files e.current_sequence_id

    persisted-IsDurable :
        (entries : List LogEntry) (m : Live) (a : Admission) (b e : Engine format P T)
        → IsBuilt format now b.current_sequence_id 0 a
        → Takes entries (map change_of a.pending)
        → All (IsAccepted format streams) (asked_changes entries)
        → b.current_sequence_id + length (asked_changes entries) < 2 ^ 64
        → IsPersisted format P T a b e
        → EngineIsDurable m b
        → EngineIsDurable (write_all a.pending m) e
    persisted-IsDurable entries m a b e built takes accepted room h d = record {
      segments = put_frames h.segment ps d.segments;
      at_seq = record_after ps d.at_seq;
      holds =
          h.files
          ∙ ap (λ f. append_bytes h.segment f b.files) built.frames
          ∙ ap (append_bytes h.segment (frames_of format ps)) d.holds
          ∙ append_bytes-segments_of format h.segment ps d.segments;
      own = HasOwnId-put_frames h.segment ps d.segments d.own;
      written = All-put_frames h.segment ps _ d.segments d.written (
          All-map _ _ ps
            (λ p f.
              IsAccepted-IsWritable format streams now p range f.0 f.1.0
                (omega (arith, f.1.1, small)))
            facts);
      known =
          All-put_frames h.segment ps _ d.segments
            (All-map _ _ d.segments
              (λ w. All-map _ _ w.1 (λ p q. record {
                stream = q.stream;
                frame =
                    q.frame
                    ∙ sym (
                        IsRun-below s a.current_seq p.written.sequence_id ps d.at_seq built.run
                          small q.below);
                below = omega (arith, q.below, end);
              }))
              d.known)
            (All-map _ _ ps
              (λ p f. record {
                stream = f.1.0.stream;
                frame = f.0;
                below = omega (arith, f.1.1.1, end);
              })
              (All-both _ _ ps (IsRun-record_after s a.current_seq ps d.at_seq built.run small)
                facts));
      newest = λ k. (
        merge_all ps v k,
        IsNewest-appended k h.segment ps d.segments v (d.newest k).1,
        write_all-merge_all s a.current_seq ps v m built.run small before (λ j. (d.newest j).2) k,
      );
    }
      where
        ps : List Pending
        ps = a.pending

        s : ℕ
        s = b.current_sequence_id

        v : View
        v k = (d.newest k).0

        small : s + length ps < 2 ^ 64
        small = omega (arith, room, sym (length-map change_of ps), length-Takes takes)

        end : e.current_sequence_id ≡ s + length ps
        end = h.seq ∙ IsRun-end s a.current_seq ps built.run small

        facts :
            All
              (λ p.
                IsAccepted format streams (change_of p)
                × (IsStamped format now p × (p.written.sequence_id < s + length ps)))
              ps
        facts =
            All-both _ _ ps (Takes-IsAccepted format streams ps takes accepted)
              (All-both _ _ ps built.stamped (IsRun-All s a.current_seq ps built.run small))

        before : IsBefore s v
        before k =
            newest-IsBefore s k (all_records d.segments) (v k)
              (concat_map-All _ records_of d.segments
                (All-map _ _ d.segments (λ w. All-map _ _ w.1 (λ p q. q.below)) d.known))
              (d.newest k).1

    -- the engine's files represent the map with the changes of admitted entries written to it
    pub record Persists (entries : List LogEntry) (m : Live) (b e : Engine format P T)
        : Type 0 where
      pub pushed : List Pending
      pub takes : Takes entries (map change_of pushed)
      pub durable : EngineIsDurable (write_all pushed m) e
      pub counted : e.current_sequence_id ≤ b.current_sequence_id + length (asked_changes entries)

    -- the engine has failed, or its files represent the map unchanged
    abbrev pub Survives : Live → Engine format P T → Engine format P T → Type 0
    Survives m b e =
        (e.failed ≡ true) ⊎ (EngineIsDurable m e × (e.current_sequence_id ≡ b.current_sequence_id))

    module _ (cfg : Config) (o : Io) where
      -- The segment files of an engine are whole frames of records as they are written, of given
      -- streams, each of another sequence id below the counter, and they represent a map: each
      -- key has the record of its frame with the highest sequence id, or none where that is a
      -- tombstone. After a batch that succeeds this is so with the changes of some of its entries
      -- before a shutdown written to the map, in order, of each entry all or none, and none only of an
      -- entry that may add a key. After one that fails, however the clock and the file system made it
      -- fail, the engine has failed or its files represent the map unchanged. The batch asks for
      -- records that can be read back, the clock answers within its range, and the sequence ids that
      -- the batch can take stay below 2^64.
      pub execute_batch_append-IsDurable :
          (entries : List LogEntry) (e : Engine format P T) (m : Live)
          → All (IsAccepted format streams) (asked_changes entries)
          → e.current_sequence_id + length (asked_changes entries) < 2 ^ 64
          → EngineIsDurable m e
          → Leaves format P T
              (Persists entries m e)
              (Survives m e)
              (execute_batch_append format P T cfg now o entries e)
      unfolding execute_batch_append
      execute_batch_append-IsDurable entries e m accepted room d =
          go (admit_all format P T cfg now e.index entries start)
            (Ends-Ensures now (IsBuilt format now e.current_sequence_id 0)
              (admit_all format P T cfg now e.index entries start)
              (admit_all-IsBuilt format P T cfg now e.current_sequence_id e.index entries start
                (record {
                  run = refl;
                  frames = refl;
                  measured = tt;
                  stamped = tt;
                  counted = omega arith;
                })))
            (admit_all-HasAdmitted format P T cfg now e.index entries start)
        where
          start : Admission
          start = start_batch format P T e

          small :
              (a : Admission)
              → Takes entries (map change_of a.pending)
              → e.current_sequence_id + length a.pending < 2 ^ 64
          small a t = omega (arith, room, sym (length-map change_of a.pending), length-Takes t)

          ends :
              (a : Admission) (r : Reply format P T)
              → IsBuilt format now e.current_sequence_id 0 a
              → Takes entries (map change_of a.pending)
              → Leaves format P T (IsPersisted format P T a e) (Stays format P T e) r
              → Leaves format P T (Persists entries m e) (Survives m e) r
          ends a (ok u, e') b t h = record {
            pushed = a.pending;
            takes = t;
            durable = persisted-IsDurable entries m a e e' b t accepted room h d;
            counted = omega (
              arith,
              h.seq,
              IsRun-end e.current_sequence_id a.current_seq a.pending b.run (small a t),
              small a t,
              sym (length-map change_of a.pending),
              length-Takes t,
            );
          }
          ends a (err x, e') b t (inl failed) = inl failed
          ends a (err x, e') b t (inr same) = inr (rw (same.0, same.1) d, same.1)

          go :
              (r : Outcome)
              → Ensures (IsBuilt format now e.current_sequence_id 0) r
              → Ensures (HasAdmitted format P T cfg now entries start) r
              → Leaves format P T
                  (Persists entries m e)
                  (Survives m e)
                  (continue_batch format P T cfg o e r)
          go (err x, a) b t = inr (d, refl)
          go (ok u, a) b t =
              ends a (persist format P T cfg o a (admitted format P T a e)) b
                (subst (λ ps. Takes entries (map change_of ps)) (sym t.pending) t.takes)
                (persist-IsPersisted format P T cfg o e a (admitted format P T a e) (refl, refl))
