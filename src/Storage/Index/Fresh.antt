-- ===== src/Storage/Index/Fresh.antt =====
-- Sequence ids in the timestamp indexes stay below the flusher's counter, so that an inserted entry
-- is never there yet and its charge is due.
use liven.Prelude.{
  ℕ, suc, ◌+◌, ◌≤◌, ◌≡◌, refl, false, Option, none, some, arith, if◌then◌else◌, Bool-cases, inl,
  inr, ◌∙◌,
}
use mathlib.Core.Path.{subst}
use liven.Bytes.{Bytes, bytes_eq}
use liven.Bytes.Order.{bytes_eq_iff}
use liven.Types.{LogPointer, Record}
use liven.Storage.SkipMap.{SkipMap, is_some}
use liven.Storage.SkipMap.Laws.{total-insert, get-insert, get-remove}
use liven.Storage.TimestampIndex
use liven.Storage.Index.{
  Index, get_stream, set_stream, stream_index, timestamp_index_node_bytes, primary_charge,
  record_key, prune_stream, prune_pointer, prune_timestamp_entry, remove_key, insert_key,
}
use liven.Storage.Index.Keys.{name_key, stamp_key, stamp_eq, Stamp}
use liven.Storage.Index.Streams.{
  stamps_charge, streams_charge, charge_of, stamps_charge-stream_index, streams_charge-set_stream,
  stream_index-set_stream, stream_index-some,
}
use liven.Storage.Index.Charge.{IsAccounted, names_charge, prune_timestamp_entry-IsAccounted}

module _ (P : SkipMap Bytes LogPointer name_key) (T : SkipMap Stamp LogPointer stamp_key) where
  -- No timestamp index has an entry with a sequence id from `n` on.
  pub record IsFresh (n : ℕ) (ix : Index P T) : Type 0 where
    pub absent :
        (s : Bytes) (k : Stamp) → n ≤ k.1 → T.get k (stream_index P T s ix.timestamp_indexes) ≡ none

  pub IsFresh-weaken : (m n : ℕ) (ix : Index P T) → m ≤ n → IsFresh m ix → IsFresh n ix
  IsFresh-weaken m n ix le h = record { absent = λ s k b. h.absent s k (omega arith) }

  get-remove_none : (k j : Stamp) (t : T.Carrier) → T.get k t ≡ none → T.get k (T.remove j t) ≡ none
  get-remove_none k j t h = get-remove stamp_key T j k t ∙ elim (Bool-cases (stamp_eq k j)) [
    | inl same ↦ rw (same, if◌then◌else◌)
    | inr other ↦ rw (other, if◌then◌else◌) h
  ]

  -- The timestamp index of the stream has no such entry.
  abbrev pub IsAbsent : Bytes → Stamp → Index P T → Type 0
  IsAbsent u k ix = T.get k (stream_index P T u ix.timestamp_indexes) ≡ none

  module _ (u : Bytes) (k : Stamp) where
    prune_stream-IsAbsent :
        (s : Bytes) (p : LogPointer) (o : Option T.Carrier) (ix : Index P T)
        → get_stream s ix.timestamp_indexes ≡ o
        → IsAbsent u k ix
        → IsAbsent u k (prune_stream P T s p o ix)
    unfolding prune_stream TimestampIndex.remove
    prune_stream-IsAbsent s p none ix e h = h
    prune_stream-IsAbsent s p (some t) ix e h =
        elim (Bool-cases (is_some (T.get (p.timestamp, p.seq_id) t))) [
          | inl there ↦ rw (there, if◌then◌else◌) gone
          | inr absent ↦ rw (absent, if◌then◌else◌) h
        ]
      where
        t' : T.Carrier
        t' = T.remove (p.timestamp, p.seq_id) t

        gone : T.get k (stream_index P T u (set_stream s t' ix.timestamp_indexes)) ≡ none
        gone =
            rw (stream_index-set_stream P T s u t' ix.timestamp_indexes)
              (elim (Bool-cases (bytes_eq u s)) [
                | inl same ↦
                    rw (same, if◌then◌else◌)
                      (get-remove_none k (p.timestamp, p.seq_id) t
                        (rw (stream_index-some P T s t ix.timestamp_indexes e) at
                          (subst (λ w. IsAbsent w k ix) ((bytes_eq_iff u s).0 same) h)))
                | inr other ↦ rw (other, if◌then◌else◌) h
              ])

    prune_timestamp_entry-IsAbsent :
        (s key : Bytes) (ix : Index P T)
        → IsAbsent u k ix
        → IsAbsent u k (prune_timestamp_entry P T s key ix)
    unfolding prune_timestamp_entry prune_pointer
    prune_timestamp_entry-IsAbsent s key ix h = go (P.get key ix.skipmap)
      where
        go : (o : Option LogPointer) → IsAbsent u k (prune_pointer P T s o ix)
        go none = h
        go (some p) = prune_stream-IsAbsent s p (get_stream s ix.timestamp_indexes) ix refl h

    pub remove_key-IsAbsent :
        (r : Record) (ix : Index P T) → IsAbsent u k ix → IsAbsent u k (remove_key P T r ix)
    unfolding remove_key
    remove_key-IsAbsent r ix0 h0 = elim (Bool-cases (is_some (P.get (record_key r) ix.skipmap))) [
      | inl there ↦ rw (there, if◌then◌else◌) h
      | inr absent ↦ rw (absent, if◌then◌else◌) h
    ]
      where
        ix : Index P T
        ix = prune_timestamp_entry P T r.stream_name (record_key r) ix0

        h : IsAbsent u k ix
        h = prune_timestamp_entry-IsAbsent r.stream_name (record_key r) ix0 h0

    pub insert_key-IsAbsent :
        (r : Record) (p : LogPointer) (ix : Index P T)
        → stamp_eq k (r.timestamp, r.sequence_id) ≡ false
        → IsAbsent u k ix
        → IsAbsent u k (insert_key P T r p ix)
    unfolding insert_key TimestampIndex.insert
    insert_key-IsAbsent r p ix0 differs h0 =
        rw
          (stream_index-set_stream P T r.stream_name u (T.insert (r.timestamp, r.sequence_id) p t)
            ix.timestamp_indexes)
          (elim (Bool-cases (bytes_eq u r.stream_name)) [
            | inl same ↦
                rw (same, if◌then◌else◌)
                  (get-insert stamp_key T (r.timestamp, r.sequence_id) k p t
                    ∙ rw (differs, if◌then◌else◌)
                        (subst (λ w. IsAbsent w k ix) ((bytes_eq_iff u r.stream_name).0 same) h))
            | inr other ↦ rw (other, if◌then◌else◌) h
          ])
      where
        ix : Index P T
        ix = prune_timestamp_entry P T r.stream_name (record_key r) ix0

        h : IsAbsent u k ix
        h = prune_timestamp_entry-IsAbsent r.stream_name (record_key r) ix0 h0

        t : T.Carrier
        t = stream_index P T r.stream_name ix.timestamp_indexes

  pub remove_key-IsFresh :
      (n : ℕ) (r : Record) (ix : Index P T) → IsFresh n ix → IsFresh n (remove_key P T r ix)
  remove_key-IsFresh n r ix h = record {
    absent = λ u k b. remove_key-IsAbsent u k r ix (h.absent u k b);
  }

  pub insert_key-IsFresh :
      (r : Record) (p : LogPointer) (ix : Index P T)
      → IsFresh r.sequence_id ix
      → IsFresh (suc r.sequence_id) (insert_key P T r p ix)
  insert_key-IsFresh r p ix h = record {
    absent =
        λ u k b. insert_key-IsAbsent u k r p ix (differs k b) (h.absent u k (omega (arith, b)));
  }
    where
      differs :
          (k : Stamp) → suc r.sequence_id ≤ k.1 → stamp_eq k (r.timestamp, r.sequence_id) ≡ false
      differs k b = ground arith

  -- Indexing an active frame keeps the counter exact, when the timestamp index of its stream has
  -- no entry for it yet.
  pub insert_key-IsAccounted :
      (r : Record) (p : LogPointer) (ix : Index P T)
      → IsAbsent r.stream_name (r.timestamp, r.sequence_id) ix
      → IsAccounted P T ix
      → IsAccounted P T (insert_key P T r p ix)
  unfolding insert_key TimestampIndex.insert
  insert_key-IsAccounted r p ix0 f0 h0 = elim (Bool-cases (is_some (P.get key ix.skipmap))) [
    | inl there ↦
        rw (there, if◌then◌else◌)
          (record { counted = omega (arith, h.counted, moved, added, held, rw there at named) })
    | inr absent ↦
        rw (absent, if◌then◌else◌)
          (record { counted = omega (arith, h.counted, moved, added, held, rw absent at named) })
  ]
    where
      key : Bytes
      key = record_key r

      ix : Index P T
      ix = prune_timestamp_entry P T r.stream_name key ix0

      h : IsAccounted P T ix
      h = prune_timestamp_entry-IsAccounted P T r.stream_name key ix0 h0

      f : IsAbsent r.stream_name (r.timestamp, r.sequence_id) ix
      f =
          prune_timestamp_entry-IsAbsent r.stream_name (r.timestamp, r.sequence_id) r.stream_name
            key ix0 f0

      t : T.Carrier
      t = stream_index P T r.stream_name ix.timestamp_indexes

      t' : T.Carrier
      t' = T.insert (r.timestamp, r.sequence_id) p t

      named :
          names_charge P T (P.insert key p ix.skipmap)
          ≡ (if is_some (P.get key ix.skipmap) then 0 else primary_charge key)
            + names_charge P T ix.skipmap
      named = total-insert name_key P primary_charge key p ix.skipmap

      added : stamps_charge P T t' ≡ 64 + stamps_charge P T t
      added = rw f at (
          total-insert stamp_key T (λ _. timestamp_index_node_bytes) (r.timestamp, r.sequence_id) p
            t)

      held : stamps_charge P T t ≡ charge_of P T (get_stream r.stream_name ix.timestamp_indexes)
      held = stamps_charge-stream_index P T r.stream_name ix.timestamp_indexes

      moved :
          streams_charge P T (set_stream r.stream_name t' ix.timestamp_indexes)
            + charge_of P T (get_stream r.stream_name ix.timestamp_indexes)
          ≡ streams_charge P T ix.timestamp_indexes + stamps_charge P T t'
      moved = streams_charge-set_stream P T r.stream_name t' ix.timestamp_indexes
