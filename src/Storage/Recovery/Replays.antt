-- ===== src/Storage/Recovery/Replays.antt =====
-- What a replay has of the frames so far: the index, the watermarks, the streams and the highest
-- sequence id, and how one frame is merged into it.
use mathlib.Core.Path.{subst}
use liven.Prelude.{
  ℕ, ◌≤◌, ◌≡◌, refl, sym, ap, ◌∙◌, Bool, true, false, Bool-cases, inl, inr, Option, none, some,
  List, arith, ◌≢◌, if◌then◌else◌,
}
use liven.Bytes.{Bytes, bytes_eq}
use liven.Types.{LogPointer, Record}
use liven.Storage.Key.{as_str}
use liven.Storage.Payload.{PayloadFormat}
use liven.Storage.SkipMap.{SkipMap}
use liven.Storage.Index.{Index, record_key, get_stream, insert_key, remove_key}
use liven.Storage.Index.Lookup.{get-insert_key, get-remove_key}
use liven.Storage.Index.Charge.{IsAccounted, remove_key-IsAccounted}
use liven.Storage.Index.Fresh.{
  IsAbsent, remove_key-IsAbsent, insert_key-IsAbsent, insert_key-IsAccounted,
}
use liven.Storage.Index.Streams.{get_stream-set_stream}
use liven.Storage.Index.Keys.{name_key, stamp_key, Stamp}
use liven.Storage.Flusher.{Pending, contains_key}
use liven.Storage.Flusher.Live.{ShowsAt}
use liven.Storage.Flusher.Stands.{StandsAt}
use liven.Storage.Flusher.Batch.{segment_bytes}
use liven.Storage.Recovery.{
  RecoveryLimits, Replay, current_seq, is_above, pointer_seq, or_else, drop_key, load_key, note_seq,
  apply_newer, apply_frame, load_newer, max_of,
}
use liven.Storage.Recovery.Extent.{Extent, IsCapped, IsCapped-grows, AreDrawn}
use liven.Storage.Recovery.Loads.{
  Leaves, Loads, Loads-map, load_key-Leaves, drop_key-Leaves, register-Loads,
}
use liven.Storage.Recovery.Views.{
  View, seq_of, live_of, outranks, outranks-is_above, outranks-put_entry, outranks-itself, merge,
  IsFlagged, merge-newer, merge-older, put_entry,
}

-- a frame that a directory of this extent holds
pub record IsWithin (within : Extent) (p : Pending) : Type 0 where
  pub stream : contains_key p.written.stream_name within.streams ≡ true
  pub seq : p.written.sequence_id ≤ within.last_seq
  pub key : record_key p.written ≡ within.owner p.written.sequence_id

module _ (format : PayloadFormat) (P : SkipMap Bytes LogPointer name_key)
    (T : SkipMap Stamp LogPointer stamp_key) (limits : RecoveryLimits) (within : Extent) where
  module _ (files : List (ℕ × Bytes)) where
    -- The index points at the frames of the view, the watermarks are its sequence ids, the highest
    -- of them is known, and the streams are some of those of the directory. The counter of the index
    -- is exact, and a frame that would be newer has no entry in the timestamp indexes.
    pub record Represents (v : View) (s : Replay format P T limits) : Type 0 where
      pub marks : (k : Bytes) → get_stream k s.seq_watermarks ≡ seq_of (v k)
      pub shows : (k : Bytes) → ShowsAt format files (P.get k s.index.skipmap) (live_of (v k))
      pub tops : (k : Bytes) → IsCapped s.highest_seq (seq_of (v k))
      pub capped : s.highest_seq ≤ within.last_seq
      pub drawn : AreDrawn within.streams s.streams_set
      pub accounted : IsAccounted P T s.index
      pub absent :
          (u : Bytes) (k : Stamp)
          → outranks k.1 (seq_of (v (within.owner k.1))) ≡ true
          → IsAbsent P T u k s.index

    current_seq-Represents :
        (v : View) (s : Replay format P T limits) (k : Bytes)
        → Represents v s
        → current_seq format P T limits k s ≡ seq_of (v k)
    unfolding current_seq
    current_seq-Represents v s k h = go (v k) (P.get k s.index.skipmap) (h.marks k) (h.shows k)
      where
        go :
            (o : Option (ℕ × Option Record)) (p : Option LogPointer)
            → get_stream k s.seq_watermarks ≡ seq_of o
            → ShowsAt format files p (live_of o)
            → or_else (get_stream k s.seq_watermarks) (pointer_seq p) ≡ seq_of o
        go (some (n, o)) p e w = rw e refl
        go none none e w = rw e refl
        go none (some p) e w = absurd w

    -- The older frame of a key changes the highest sequence id at most.
    Represents-older :
        (u v : View) (s s' : Replay format P T limits)
        → ((k : Bytes) → u k ≡ v k)
        → s'.seq_watermarks ≡ s.seq_watermarks
        → s'.index ≡ s.index
        → s.highest_seq ≤ s'.highest_seq
        → s'.highest_seq ≤ within.last_seq
        → AreDrawn within.streams s'.streams_set
        → Represents v s
        → Represents u s'
    Represents-older u v s s' e ew ei higher capped drawn h = record {
      marks = λ k. rw (e k, ew) (h.marks k);
      shows = λ k. rw (e k, ei) (h.shows k);
      tops = λ k.
          rw (e k) (IsCapped-grows s.highest_seq s'.highest_seq (seq_of (v k)) higher (h.tops k));
      capped = capped;
      drawn = drawn;
      accounted = rw ei h.accounted;
      absent = λ u k above. rw ei (h.absent u k (rw (e (within.owner k.1)) at above));
    }

    -- the tombstone, and the active frame, of a key
    drop-shown :
        (p : Pending) (v : View) (s : Replay format P T limits) (k : Bytes)
        → p.is_tombstone ≡ true
        → Represents v s
        → ShowsAt format files
            (if bytes_eq k (record_key p.written) then none else P.get k s.index.skipmap)
            (live_of (put_entry p v k))
    drop-shown p v s k dead h = elim (Bool-cases (bytes_eq k (record_key p.written))) [
      | inl same ↦ rw (same, if◌then◌else◌, dead) tt
      | inr other ↦ rw (other, if◌then◌else◌) (h.shows k)
    ]

    load-shown :
        (p : Pending) (q : LogPointer) (v : View) (s : Replay format P T limits) (k : Bytes)
        → p.is_tombstone ≡ false
        → StandsAt format (segment_bytes q.segment_id files) q p.written
        → Represents v s
        → ShowsAt format files
            (if bytes_eq k (record_key p.written) then some q else P.get k s.index.skipmap)
            (live_of (put_entry p v k))
    load-shown p q v s k alive stands h = elim (Bool-cases (bytes_eq k (record_key p.written))) [
      | inl same ↦ rw (same, if◌then◌else◌, alive) stands
      | inr other ↦ rw (other, if◌then◌else◌) (h.shows k)
    ]

    module _ (p : Pending) (q : LogPointer) (v : View) (s : Replay format P T limits)
        (seq : q.seq_id ≡ p.written.sequence_id) (time : q.timestamp ≡ p.written.timestamp)
        (stands : StandsAt format (segment_bytes q.segment_id files) q p.written)
        (known : IsWithin within p) (h : Represents v s) where
      abbrev noted : Bool → Replay format P T limits
      noted newer = note_seq format P T limits newer (record_key p.written) q.seq_id s

      higher : s.highest_seq ≤ max_of s.highest_seq q.seq_id
      higher = ground arith

      capped : max_of s.highest_seq q.seq_id ≤ within.last_seq
      capped = ground (arith, h.capped, known.seq, seq)

      -- a frame that is newer than what is known of its key
      module _
          (wins : outranks p.written.sequence_id (seq_of (v (record_key p.written))) ≡ true) where
        -- what the index then shows decides
        Represents-newer :
            (names : List Bytes) (ix : Index P T) (s' : Replay format P T limits)
            → AreDrawn within.streams names
            → ((k : Bytes) → ShowsAt format files (P.get k ix.skipmap) (live_of (put_entry p v k)))
            → IsAccounted P T ix
            → ((u : Bytes) (k : Stamp)
                → k.1 ≢ p.written.sequence_id
                → IsAbsent P T u k s.index
                → IsAbsent P T u k ix)
            → Leaves format P T limits ix (record (noted true) { streams_set = names }) s'
            → Represents (merge p v) s'
        Represents-newer names ix s' drawn shown accounted absent l = record {
          marks = λ k.
              rw
                (
                  merge-newer p v k wins,
                  l.marks,
                  seq,
                  get_stream-set_stream (record_key p.written) k p.written.sequence_id
                      s.seq_watermarks,
                )
                (elim (Bool-cases (bytes_eq k (record_key p.written))) [
                  | inl same ↦ rw (same, if◌then◌else◌) refl
                  | inr other ↦ rw (other, if◌then◌else◌) (h.marks k)
                ]);
          shows = λ k. rw (merge-newer p v k wins, l.index) (shown k);
          tops = λ k.
              rw (merge-newer p v k wins, l.highest)
                (elim (Bool-cases (bytes_eq k (record_key p.written))) [
                  | inl same ↦ rw (same, if◌then◌else◌) (ground (arith, seq))
                  | inr other ↦
                      rw (other, if◌then◌else◌)
                        (IsCapped-grows s.highest_seq (max_of s.highest_seq q.seq_id) (seq_of (v k))
                          higher (h.tops k))
                ]);
          capped = rw l.highest capped;
          drawn = subst (AreDrawn within.streams) (sym l.streams) drawn;
          accounted = rw l.index accounted;
          absent = λ u k above.
              let above' = rw (merge-newer p v (within.owner k.1) wins) at above in
              rw l.index (
                absent u k (is_other k.1 above')
                  (h.absent u k (outranks-put_entry k.1 p v (within.owner k.1) wins above')));
        }
          where
            is_other :
                (n : ℕ)
                → outranks n (seq_of (put_entry p v (within.owner n))) ≡ true
                → n ≢ p.written.sequence_id
            is_other n above e =
                outranks-itself n p v
                  (subst (λ k. outranks n (seq_of (put_entry p v k)) ≡ true)
                    (ap within.owner e ∙ sym known.key) above)
                  e

        load_newer-Represents :
            (names : List Bytes)
            → AreDrawn within.streams names
            → p.is_tombstone ≡ false
            → Loads format P T limits within (Represents (merge p v)) (
                load_key format P T limits p.written.stream_name
                  (record_key p.written)
                  q
                  (record (noted true) { streams_set = names }))
        load_newer-Represents names drawn alive =
            Loads-map format P T limits within _ (Represents (merge p v))
              (load_key format P T limits p.written.stream_name (record_key p.written) q
                (record (noted true) { streams_set = names }))
              (λ s' l.
                Represents-newer names (insert_key P T p.written q s.index) s' drawn
                  (λ k.
                    rw (get-insert_key P T p.written q s.index k)
                      (load-shown p q v s k alive stands h))
                  (insert_key-IsAccounted P T p.written q s.index
                    (h.absent p.written.stream_name (p.written.timestamp, p.written.sequence_id)
                      (subst (λ k. outranks p.written.sequence_id (seq_of (v k)) ≡ true) known.key
                        wins))
                    h.accounted)
                  (λ u k differs.
                    insert_key-IsAbsent P T u k p.written q s.index (ground (arith, differs)))
                  l)
              (load_key-Leaves format P T limits within p.written q
                (record (noted true) { streams_set = names }) seq time)

        drop_newer-Represents :
            p.is_tombstone ≡ true
            → Represents (merge p v) (
                drop_key format P T limits p.written.stream_name
                  (record_key p.written)
                  (noted true))
        drop_newer-Represents dead =
            Represents-newer s.streams_set (remove_key P T p.written s.index)
              (drop_key format P T limits p.written.stream_name (record_key p.written) (noted true))
              h.drawn (λ k. rw (get-remove_key P T p.written s.index k) (drop-shown p v s k dead h))
              (remove_key-IsAccounted P T p.written s.index h.accounted)
              (λ u k differs. remove_key-IsAbsent P T u k p.written s.index)
              (drop_key-Leaves format P T limits p.written (noted true))

      apply_newer-Represents :
          (newer : Bool)
          → IsFlagged p
          → outranks p.written.sequence_id (seq_of (v (record_key p.written))) ≡ newer
          → Loads format P T limits within (Represents (merge p v)) (
              apply_newer format P T limits newer q p.written.flags p.written.stream_name
                (record_key p.written)
                (noted newer))
      apply_newer-Represents newer f e = go newer p.is_tombstone refl f e
        where
          replayed : Bool → ℕ → Type 0
          replayed b flags = Loads format P T limits within (Represents (merge p v)) (
              apply_newer format P T limits b q flags p.written.stream_name (record_key p.written)
                (noted b))

          go :
              (b t : Bool)
              → p.is_tombstone ≡ t
              → p.written.flags ≡ (if t then 2 else 1)
              → outranks p.written.sequence_id (seq_of (v (record_key p.written))) ≡ b
              → Loads format P T limits within (Represents (merge p v)) (
                  apply_newer format P T limits b q p.written.flags p.written.stream_name
                    (record_key p.written)
                    (noted b))
          go true true dead g o = subst (replayed true) (sym g) (drop_newer-Represents o dead)
          go true false alive g o = subst (replayed true) (sym g) (
              register-Loads format P T limits within p.written.stream_name (noted true)
                (Represents (merge p v))
                (load_newer format P T limits true p.written.stream_name (record_key p.written) q)
                known.stream h.drawn (λ names drawn. load_newer-Represents o names drawn alive))
          go false true dead g o = subst (replayed false) (sym g) (
              Represents-older (merge p v) v s (noted false) (λ k. merge-older p v k o) refl refl
                higher capped h.drawn h)
          go false false alive g o = subst (replayed false) (sym g) (
              register-Loads format P T limits within p.written.stream_name (noted false)
                (Represents (merge p v))
                (load_newer format P T limits false p.written.stream_name (record_key p.written) q)
                known.stream h.drawn
                (λ names drawn.
                  Represents-older (merge p v) v s (record (noted false) { streams_set = names })
                    (λ k. merge-older p v k o) refl refl higher capped drawn h))

    -- One frame of a record, replayed, is merged into the view.
    pub apply_frame-Represents :
        (p : Pending) (q : LogPointer) (v : View) (s : Replay format P T limits)
        → IsFlagged p
        → q.seq_id ≡ p.written.sequence_id
        → q.timestamp ≡ p.written.timestamp
        → StandsAt format (segment_bytes q.segment_id files) q p.written
        → IsWithin within p
        → Represents v s
        → Loads format P T limits within (Represents (merge p v)) (
            apply_frame format P T limits q p.written.flags p.written.stream_name
              (as_str p.written.key)
              s)
    unfolding apply_frame record_key
    apply_frame-Represents p q v s f seq time stands known h =
        rw (current_seq-Represents v s (record_key p.written) h) (
          apply_newer-Represents p q v s seq time stands known h
            (is_above q.seq_id (seq_of (v (record_key p.written)))) f
            (outranks-is_above p.written.sequence_id (seq_of (v (record_key p.written)))
              ∙ ap (λ n. is_above n (seq_of (v (record_key p.written)))) (sym seq)))
