-- ===== src/Storage/Index/Lookup.antt =====
-- What the primary index answers after a record has been indexed.
use liven.Prelude.{
  ◌≡◌, refl, ap, ◌∙◌, arith, Bool-cases, inl, inr, false, Option, none, some, if◌then◌else◌,
}
use liven.Bytes.{Bytes, bytes_eq}
use liven.Bytes.Order.{bytes_eq_iff}
use liven.Types.{LogPointer, Record}
use liven.Storage.SkipMap.{SkipMap, is_some}
use liven.Storage.SkipMap.Laws.{get-insert, get-remove}
use liven.Storage.Index.{Index, record_key, prune_timestamp_entry, remove_key, insert_key}
use liven.Storage.Index.Charge.{skipmap-prune_timestamp_entry}
use liven.Storage.Index.Keys.{name_key, stamp_key, Stamp}

is_none : {A : Type 0} (o : Option A) → is_some o ≡ false → o ≡ none
is_none none h = refl
is_none (some a) h = absurd (ground arith)

module _ (P : SkipMap Bytes LogPointer name_key) (T : SkipMap Stamp LogPointer stamp_key) where
  pub get-insert_key :
      (r : Record) (p : LogPointer) (ix : Index P T) (k : Bytes)
      → P.get k (insert_key P T r p ix).skipmap
        ≡ (if bytes_eq k (record_key r) then some p else P.get k ix.skipmap)
  unfolding insert_key
  get-insert_key r p ix k =
      get-insert name_key P (record_key r) k p
        (prune_timestamp_entry P T r.stream_name (record_key r) ix).skipmap
      ∙ ap (λ m. if bytes_eq k (record_key r) then some p else P.get k m)
          (skipmap-prune_timestamp_entry P T r.stream_name (record_key r) ix)

  get-absent :
      (key k : Bytes) (m : P.Carrier)
      → is_some (P.get key m) ≡ false
      → P.get k m ≡ (if bytes_eq k key then none else P.get k m)
  get-absent key k m h = elim (Bool-cases (bytes_eq k key)) [
    | inl same ↦
        rw (same, if◌then◌else◌) (rw ((bytes_eq_iff k key).0 same) (is_none (P.get key m) h))
    | inr other ↦ rw (other, if◌then◌else◌) refl
  ]

  pub get-remove_key :
      (r : Record) (ix : Index P T) (k : Bytes)
      → P.get k (remove_key P T r ix).skipmap
        ≡ (if bytes_eq k (record_key r) then none else P.get k ix.skipmap)
  unfolding remove_key
  get-remove_key r ix k = elim (Bool-cases (is_some (P.get key pruned.skipmap))) [
    | inl there ↦ rw (there, if◌then◌else◌) (get-remove name_key P key k pruned.skipmap ∙ kept)
    | inr absent ↦ rw (absent, if◌then◌else◌) (get-absent key k pruned.skipmap absent ∙ kept)
  ]
    where
      key : Bytes
      key = record_key r

      pruned : Index P T
      pruned = prune_timestamp_entry P T r.stream_name key ix

      kept :
          (if bytes_eq k key then none else P.get k pruned.skipmap)
          ≡ (if bytes_eq k key then none else P.get k ix.skipmap)
      kept =
          ap (λ m. if bytes_eq k key then none else P.get k m)
            (skipmap-prune_timestamp_entry P T r.stream_name key ix)
