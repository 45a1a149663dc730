-- ===== src/Storage/Flusher/Live.antt =====
-- The abstract view of the engine: for each compound key the record that was last written under it.
-- `Shows` relates it to the primary index and the segment files.
use liven.Prelude.{
  ℕ, ◌≡◌, refl, Bool, true, false, Option, none, some, List, [], ◌∷◌, Bool-cases, inl, inr,
  if◌then◌else◌,
}
use liven.Bytes.{Bytes, bytes_eq}
use liven.Types.{LogPointer, Record}
use liven.Storage.Payload.{PayloadFormat}
use liven.Storage.SkipMap.{SkipMap}
use liven.Storage.Index.{Index, record_key, remove_key, insert_key}
use liven.Storage.Index.Keys.{name_key, stamp_key, Stamp}
use liven.Storage.Index.Lookup.{get-insert_key, get-remove_key}
use liven.Storage.Flusher.{Pending}
use liven.Storage.Flusher.Complete.{index_record, pointer_to}
use liven.Storage.Flusher.Batch.{segment_bytes, append_bytes}
use liven.Storage.Flusher.Stands.{StandsAt, StandsAt-grows, append_bytes-grows}

abbrev pub Live : Type 0
Live = Bytes → Option Record

-- a record or a tombstone, written
unfoldable pub write : Pending → Live → Live
write p m k =
    if bytes_eq k (record_key p.written)
    then (if p.is_tombstone then none else some p.written)
    else m k

unfoldable pub write_all : List Pending → Live → Live
write_all [] m = m
write_all (p ∷ ps) m = write_all ps (write p m)

module _ (format : PayloadFormat) where
  -- No pointer and no record, or a pointer at the frame of the record.
  abbrev pub ShowsAt : List (ℕ × Bytes) → Option LogPointer → Option Record → Type 0
  ShowsAt files none none = Unit
  ShowsAt files (some p) (some r) = StandsAt format (segment_bytes p.segment_id files) p r
  ShowsAt files none (some r) = ⊥
  ShowsAt files (some p) none = ⊥

  ShowsAt-grows :
      (id : ℕ) (new : Bytes) (files : List (ℕ × Bytes)) (p : Option LogPointer) (r : Option Record)
      → ShowsAt files p r
      → ShowsAt (append_bytes id new files) p r
  ShowsAt-grows id new files none none h = h
  ShowsAt-grows id new files none (some r) h = h
  ShowsAt-grows id new files (some p) none h = h
  ShowsAt-grows id new files (some p) (some r) h =
      let grown = append_bytes-grows p.segment_id id new files in
      rw grown.1 (StandsAt-grows format (segment_bytes p.segment_id files) grown.0 p r h)

  module _ (P : SkipMap Bytes LogPointer name_key) (T : SkipMap Stamp LogPointer stamp_key) where
    -- The index and the files hold just the records of the view.
    abbrev pub Shows : List (ℕ × Bytes) → Index P T → Live → Type 0
    Shows files ix m = (k : Bytes) → ShowsAt files (P.get k ix.skipmap) (m k)

    pub Shows-grows :
        (id : ℕ) (new : Bytes) (files : List (ℕ × Bytes)) (ix : Index P T) (m : Live)
        → Shows files ix m
        → Shows (append_bytes id new files) ix m
    Shows-grows id new files ix m h k = ShowsAt-grows id new files (P.get k ix.skipmap) (m k) (h k)

    remove_key-Shows :
        (p : Pending) (files : List (ℕ × Bytes)) (ix : Index P T) (m : Live)
        → p.is_tombstone ≡ true
        → Shows files ix m
        → Shows files (remove_key P T p.written ix) (write p m)
    unfolding write
    remove_key-Shows p files ix m dead h k =
        rw (get-remove_key P T p.written ix k, dead)
          (elim (Bool-cases (bytes_eq k (record_key p.written))) [
            | inl same ↦ rw (same, if◌then◌else◌) tt
            | inr other ↦ rw (other, if◌then◌else◌) (h k)
          ])

    insert_key-Shows :
        (p : Pending) (q : LogPointer) (files : List (ℕ × Bytes)) (ix : Index P T) (m : Live)
        → p.is_tombstone ≡ false
        → StandsAt format (segment_bytes q.segment_id files) q p.written
        → Shows files ix m
        → Shows files (insert_key P T p.written q ix) (write p m)
    unfolding write
    insert_key-Shows p q files ix m alive s h k =
        rw (get-insert_key P T p.written q ix k, alive)
          (elim (Bool-cases (bytes_eq k (record_key p.written))) [
            | inl same ↦ rw (same, if◌then◌else◌) s
            | inr other ↦ rw (other, if◌then◌else◌) (h k)
          ])

    -- Indexing a record whose frame stands at the offset writes it.
    pub index_record-Shows :
        (segment : ℕ) (p : Pending) (n : ℕ) (files : List (ℕ × Bytes)) (ix : Index P T) (m : Live)
        → StandsAt format
            (segment_bytes segment files)
            (pointer_to P T segment p.written n)
            p.written
        → Shows files ix m
        → Shows files (index_record P T segment p n ix) (write p m)
    unfolding index_record
    index_record-Shows segment p n files ix m s h = go p.is_tombstone refl
      where
        go :
            (t : Bool)
            → p.is_tombstone ≡ t
            → Shows files
                (if t
                  then remove_key P T p.written ix
                  else insert_key P T p.written (pointer_to P T segment p.written n) ix)
                (write p m)
        go true e = remove_key-Shows p files ix m e h
        go false e = insert_key-Shows p (pointer_to P T segment p.written n) files ix m e s h
