-- ===== src/Storage/Index/Charge.antt =====
-- The counter of index bytes is what the entries of both indexes are charged, whatever is removed
-- and inserted.
use liven.Prelude.{
  ℕ, ◌+◌, ◌%◌, ◌^◌, ◌≡◌, ◌⊎◌, refl, true, false, Option, none, some, arith, if◌then◌else◌,
  Bool-cases, inl, inr,
}
use liven.Bytes.{Bytes}
use liven.Types.{LogPointer, Record}
use liven.Storage.SkipMap.{SkipMap, is_some}
use liven.Storage.SkipMap.Laws.{total, total-remove}
use liven.Storage.TimestampIndex
use liven.Storage.Index.{
  Index, get_stream, set_stream, timestamp_index_node_bytes, primary_charge, record_key,
  prune_stream, prune_pointer, prune_timestamp_entry, remove_key,
}
use liven.Storage.Index.Keys.{name_key, stamp_key, Stamp}
use liven.Storage.Index.Streams.{stamps_charge, streams_charge, streams_charge-set_stream}

module _ (P : SkipMap Bytes LogPointer name_key) (T : SkipMap Stamp LogPointer stamp_key) where
  abbrev pub names_charge : P.Carrier → ℕ
  names_charge m = total name_key P primary_charge m

  -- what the entries of both indexes are charged
  abbrev pub index_charge : Index P T → ℕ
  index_charge ix = names_charge ix.skipmap + streams_charge P T ix.timestamp_indexes

  pub record IsAccounted (ix : Index P T) : Type 0 where
    pub counted : ix.index_ram_bytes ≡ index_charge ix % 2 ^ 64

  prune_stream-IsAccounted :
      (s : Bytes) (p : LogPointer) (o : Option T.Carrier) (ix : Index P T)
      → get_stream s ix.timestamp_indexes ≡ o
      → IsAccounted ix
      → IsAccounted (prune_stream P T s p o ix)
  unfolding prune_stream TimestampIndex.remove
  prune_stream-IsAccounted s p none ix e h = h
  prune_stream-IsAccounted s p (some t) ix e h =
      elim (Bool-cases (is_some (T.get (p.timestamp, p.seq_id) t))) [
        | inl there ↦
            rw (there, if◌then◌else◌)
              (record { counted = omega (arith, h.counted, less there, moved) })
        | inr absent ↦ rw (absent, if◌then◌else◌) h
      ]
    where
      t' : T.Carrier
      t' = T.remove (p.timestamp, p.seq_id) t

      less :
          is_some (T.get (p.timestamp, p.seq_id) t) ≡ true
          → stamps_charge P T t' + 64 ≡ stamps_charge P T t
      less there =
          rw there at
            (total-remove stamp_key T (λ _. timestamp_index_node_bytes) (p.timestamp, p.seq_id) t)

      moved :
          streams_charge P T (set_stream s t' ix.timestamp_indexes) + stamps_charge P T t
          ≡ streams_charge P T ix.timestamp_indexes + stamps_charge P T t'
      moved = rw e at (streams_charge-set_stream P T s t' ix.timestamp_indexes)

  prune_pointer-IsAccounted :
      (s : Bytes) (o : Option LogPointer) (ix : Index P T)
      → IsAccounted ix
      → IsAccounted (prune_pointer P T s o ix)
  unfolding prune_pointer
  prune_pointer-IsAccounted s none ix h = h
  prune_pointer-IsAccounted s (some p) ix h =
      prune_stream-IsAccounted s p (get_stream s ix.timestamp_indexes) ix refl h

  pub prune_timestamp_entry-IsAccounted :
      (s key : Bytes) (ix : Index P T)
      → IsAccounted ix
      → IsAccounted (prune_timestamp_entry P T s key ix)
  unfolding prune_timestamp_entry
  prune_timestamp_entry-IsAccounted s key ix h =
      prune_pointer-IsAccounted s (P.get key ix.skipmap) ix h

  skipmap-prune_stream :
      (s : Bytes) (p : LogPointer) (o : Option T.Carrier) (ix : Index P T)
      → (prune_stream P T s p o ix).skipmap ≡ ix.skipmap
  unfolding prune_stream TimestampIndex.remove
  skipmap-prune_stream s p none ix = refl
  skipmap-prune_stream s p (some t) ix =
      elim (Bool-cases (is_some (T.get (p.timestamp, p.seq_id) t))) [
        | inl there ↦ rw (there, if◌then◌else◌)
        | inr absent ↦ rw (absent, if◌then◌else◌)
      ]

  pub skipmap-prune_timestamp_entry :
      (s key : Bytes) (ix : Index P T) → (prune_timestamp_entry P T s key ix).skipmap ≡ ix.skipmap
  unfolding prune_timestamp_entry prune_pointer
  skipmap-prune_timestamp_entry s key ix = go (P.get key ix.skipmap)
    where
      go : (o : Option LogPointer) → (prune_pointer P T s o ix).skipmap ≡ ix.skipmap
      go none = refl
      go (some p) = skipmap-prune_stream s p (get_stream s ix.timestamp_indexes) ix

  -- Taking the key of a tombstone out of the indexes keeps the counter exact.
  pub remove_key-IsAccounted :
      (r : Record) (ix : Index P T) → IsAccounted ix → IsAccounted (remove_key P T r ix)
  unfolding remove_key
  remove_key-IsAccounted r ix0 h0 = go (Bool-cases (is_some (P.get key ix.skipmap)))
    where
      key : Bytes
      key = record_key r

      ix : Index P T
      ix = prune_timestamp_entry P T r.stream_name key ix0

      h : IsAccounted ix
      h = prune_timestamp_entry-IsAccounted r.stream_name key ix0 h0

      less :
          is_some (P.get key ix.skipmap) ≡ true
          → names_charge (P.remove key ix.skipmap) + primary_charge key ≡ names_charge ix.skipmap
      less there = rw there at (total-remove name_key P primary_charge key ix.skipmap)

      go :
          (is_some (P.get key ix.skipmap) ≡ true) ⊎ (is_some (P.get key ix.skipmap) ≡ false)
          → IsAccounted (remove_key P T r ix0)
      go (inl there) =
          rw (there, if◌then◌else◌) (record { counted = omega (arith, h.counted, less there) })
      go (inr absent) = rw (absent, if◌then◌else◌) h
