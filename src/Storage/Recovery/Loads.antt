-- ===== src/Storage/Recovery/Loads.antt =====
-- What the steps of a replay do to the indexes, the streams and the watermarks, and the limits that
-- stop them.
use liven.Prelude.{
  ℕ, ◌+◌, ◌<◌, ◌≡◌, ◌⊎◌, refl, ap, ◌∙◌, Bool, true, false, ◌&&◌, Bool-cases, inl, inr, List, arith,
  length, ltb, ltb→lt, if◌then◌else◌, ℤ,
}
use liven.Bytes.{Bytes}
use liven.Types.{LogPointer, Record}
use liven.Error.{
  LivenError, stream_limit_exceeded, index_ram_limit_exceeded, Result, ok, err, ◌>>=◌,
}
use liven.Storage.Payload.{PayloadFormat}
use liven.Storage.SkipMap.{SkipMap, is_some}
use liven.Storage.TimestampIndex
use liven.Storage.Index.{
  Index, primary_charge, timestamp_index_node_bytes, prune_timestamp_entry, record_key, insert_key,
  remove_key, set_stream, stream_index, fetch_add,
}
use liven.Storage.Index.Keys.{name_key, stamp_key, Stamp}
use liven.Storage.Flusher.{u64_add, contains_key}
use liven.Storage.Recovery.{
  RecoveryLimits, is_strict, Replay, drop_key, load_key, register, insert_name,
}
use liven.Storage.Recovery.Extent.{Extent, AreDrawn, AreDrawn-insert_name, length-AreDrawn}

module _ (format : PayloadFormat) (P : SkipMap Bytes LogPointer name_key)
    (T : SkipMap Stamp LogPointer stamp_key) (limits : RecoveryLimits) where
  -- the index that a step makes, and what it leaves alone
  pub record Leaves (ix : Index P T) (s s' : Replay format P T limits) : Type 0 where
    pub index : s'.index ≡ ix
    pub marks : s'.seq_watermarks ≡ s.seq_watermarks
    pub streams : s'.streams_set ≡ s.streams_set
    pub highest : s'.highest_seq ≡ s.highest_seq

  module _ (within : Extent) where
    -- the two errors that a limit leads to: more streams than the limit allows, and in strict mode
    -- more memory
    abbrev pub IsLimit : LivenError → Type 0
    IsLimit x =
        ((x ≡ stream_limit_exceeded limits.max_streams)
          × (limits.max_streams < length within.streams))
        ⊎ ((is_strict limits.recovery_mode ≡ true)
            × (n : ℕ) × (limits.max_index_ram_bytes < n)
            × (x ≡ index_ram_limit_exceeded limits.max_index_ram_bytes n))

    abbrev pub Loads :
        (Replay format P T limits → Type 0) → Result LivenError (Replay format P T limits) → Type 0
    Loads Q (ok s') = Q s'
    Loads Q (err x) = IsLimit x

    pub Loads-map :
        (Q R : Replay format P T limits → Type 0) (r : Result LivenError (Replay format P T limits))
        → ((s : Replay format P T limits) → Q s → R s)
        → Loads Q r
        → Loads R r
    Loads-map Q R (ok s) f h = f s h
    Loads-map Q R (err x) f h = h

    -- A frame is loaded as the flusher indexes a record.
    pub load_key-Leaves :
        (r : Record) (q : LogPointer) (s : Replay format P T limits)
        → q.seq_id ≡ r.sequence_id
        → q.timestamp ≡ r.timestamp
        → Loads
            (Leaves (insert_key P T r q s.index) s)
            (load_key format P T limits r.stream_name (record_key r) q s)
    unfolding load_key insert_key
    load_key-Leaves r q s seq time =
        elim (Bool-cases (ltb limits.max_index_ram_bytes used && is_strict limits.recovery_mode)) [
          | inl refused ↦
              rw (refused, if◌then◌else◌)
                (inr (ground (arith, refused), used, ground (arith, refused), refl))
          | inr fits ↦
              rw (fits, if◌then◌else◌)
                (record { index = same; marks = refl; streams = refl; highest = refl })
        ]
      where
        pruned : Index P T
        pruned = prune_timestamp_entry P T r.stream_name (record_key r) s.index

        charge : Bool → ℕ
        charge existed =
            if existed
            then timestamp_index_node_bytes
            else primary_charge (record_key r) + timestamp_index_node_bytes

        used : ℕ
        used =
            u64_add pruned.index_ram_bytes (charge (is_some (P.get (record_key r) pruned.skipmap)))

        indexed : ℤ → ℕ → ℕ → Index P T
        indexed t n ram = record {
          skipmap = P.insert (record_key r) q pruned.skipmap;
          timestamp_indexes =
              set_stream r.stream_name
                (TimestampIndex.insert T t n q
                  (stream_index P T r.stream_name pruned.timestamp_indexes))
                pruned.timestamp_indexes;
          index_ram_bytes = ram;
        }

        added :
            (existed : Bool)
            → u64_add pruned.index_ram_bytes (charge existed)
              ≡ fetch_add
                  (if existed
                    then pruned.index_ram_bytes
                    else fetch_add pruned.index_ram_bytes (primary_charge (record_key r)))
                  timestamp_index_node_bytes
        added true = refl
        added false = omega arith

        same : indexed q.timestamp q.seq_id used ≡ insert_key P T r q s.index
        same =
            ap (λ t. indexed t q.seq_id used) time
            ∙ ap (λ n. indexed r.timestamp n used) seq
            ∙ ap (indexed r.timestamp r.sequence_id)
                (added (is_some (P.get (record_key r) pruned.skipmap)))

    -- what follows the registration of a stream
    pub register-Loads :
        (stream_name : Bytes) (s : Replay format P T limits) (R : Replay format P T limits → Type 0)
        (k : Replay format P T limits → Result LivenError (Replay format P T limits))
        → contains_key stream_name within.streams ≡ true
        → AreDrawn within.streams s.streams_set
        → ((names : List Bytes)
            → AreDrawn within.streams names
            → Loads R (k (record s { streams_set = names })))
        → Loads R (register format P T limits stream_name s >>= k)
    register-Loads stream_name s R k known drawn f =
        elim (Bool-cases (ltb limits.max_streams (length names))) [
          | inl over ↦
              rw (over, if◌then◌else◌)
                (inl (
                  refl,
                  omega (
                    arith,
                    ltb→lt limits.max_streams (length names) over,
                    length-AreDrawn within.streams names names-drawn,
                  ),
                ))
          | inr fits ↦ rw (fits, if◌then◌else◌) (f names names-drawn)
        ]
      where
        names : List Bytes
        names = insert_name stream_name s.streams_set

        names-drawn : AreDrawn within.streams names
        names-drawn = AreDrawn-insert_name within.streams stream_name s.streams_set known drawn

  -- A key is dropped as the flusher takes it out.
  pub drop_key-Leaves :
      (r : Record) (s : Replay format P T limits)
      → Leaves
          (remove_key P T r s.index)
          s
          (drop_key format P T limits r.stream_name (record_key r) s)
  unfolding drop_key remove_key
  drop_key-Leaves r s = elim (Bool-cases (is_some (P.get (record_key r) pruned.skipmap))) [
    | inl there ↦
        rw (there, if◌then◌else◌)
          (record { index = refl; marks = refl; streams = refl; highest = refl })
    | inr absent ↦
        rw (absent, if◌then◌else◌)
          (record { index = refl; marks = refl; streams = refl; highest = refl })
  ]
    where
      pruned : Index P T
      pruned = prune_timestamp_entry P T r.stream_name (record_key r) s.index
