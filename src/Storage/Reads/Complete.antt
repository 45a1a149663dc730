-- ===== src/Storage/Reads/Complete.antt =====
-- The live scan against the abstract view of the engine.
use mathlib.Core.List.{Mem}
use mathlib.Core.List.Perm
use mathlib.Core.Path.{subst}
use liven.Prelude.{
  ℕ, ◌≤◌, ◌<◌, ◌⊎◌, append_assoc, ◌≡◌, refl, sym, ◌∙◌, true, false, ◌&&◌, Bool-cases, inl, inr,
  Option, none, some, List, [], ◌∷◌, ◌++◌, arith, length, min, ltb, leb, if◌then◌else◌,
}
use liven.Prelude.Sort.{sort-perm, length-sort}
use liven.Bytes.{Bytes, bytes_lt}
use liven.Bytes.Order.{bytes_eq_refl}
use liven.Types.{LogPointer, Record}
use liven.Error.{LivenError, Result, ok, err}
use liven.Storage.Payload.{PayloadFormat}
use liven.Storage.Frame.Read.{IsWritable}
use liven.Storage.SkipMap.{SkipMap}
use liven.Storage.Index.{compound_key}
use liven.Storage.Index.Keys.{name_key, stamp_key, Stamp}
use liven.Storage.Flusher.Live.{Live, ShowsAt}
use liven.Storage.Flusher.Refines.{EngineShows}
use liven.Storage.Flusher.Batch.{Engine}
use liven.Storage.Reads.{
  ReadConfig, has_prefix, stream_prefix, by_sequence_id, entries_from, read_live, scan_entries,
  scan_live_stream,
}
use liven.Storage.Reads.Get.{read_at-StandsAt}
use liven.Storage.Reads.Scans.{entries_from-IsRange, find-entries_from, scan-finds}

has_prefix-append : (p s : Bytes) → has_prefix p (p ++ s) ≡ true
unfolding has_prefix
has_prefix-append [] s = refl
has_prefix-append (x ∷ p) s = ground (arith, has_prefix-append p s)

bytes_lt-append : (p s : Bytes) → bytes_lt (p ++ s) p ≡ false
unfolding bytes_lt
bytes_lt-append [] [] = refl
bytes_lt-append [] (x ∷ s) = refl
bytes_lt-append (x ∷ p) s = ground (arith, bytes_lt-append p s)

module _ (format : PayloadFormat) (P : SkipMap Bytes LogPointer name_key)
    (T : SkipMap Stamp LogPointer stamp_key) (cfg : ReadConfig) where
  -- the pointer of a record of the view, and that it is read
  record IsFound (e : Engine format P T) (k : Bytes) (r : Record) : Type 0 where
    at : LogPointer
    indexed : P.get k e.index.skipmap ≡ some at
    reads : read_live format P T cfg e k at ≡ some r

  EngineShows-IsFound :
      (e : Engine format P T) (m : Live) (k : Bytes) (r : Record)
      → EngineShows format P T m e
      → m k ≡ some r
      → IsWritable format r
      → IsFound e k r
  EngineShows-IsFound e m k r shown live w = go (P.get k e.index.skipmap) refl
    where
      shown_at : ShowsAt format e.files (P.get k e.index.skipmap) (some r)
      shown_at = subst (λ x. ShowsAt format e.files (P.get k e.index.skipmap) x) live (shown k)

      go : (p : Option LogPointer) → P.get k e.index.skipmap ≡ p → IsFound e k r
      go none f = absurd (subst (λ x. ShowsAt format e.files x (some r)) f shown_at)
      go (some p) f = record {
        at = p;
        indexed = f;
        reads =
            rw
              (
                read_live,
                read_at-StandsAt format P T cfg e p r
                    (subst (λ x. ShowsAt format e.files x (some r)) f shown_at) w,
              )
              refl;
      }

  -- what a scan up to a limit says of a record that it should meet
  abbrev pub Meets : ℕ → Record → Result LivenError (List Record) → Type 0
  Meets max_records r (err x) = cfg.max_scan_results < max_records
  Meets max_records r (ok records) =
      (min max_records cfg.max_scan_results ≤ length records) ⊎ Mem r records

  scan_entries-Meets :
      (e : Engine format P T) (m : Live) (s key : Bytes) (r : Record) (limit : ℕ)
      → EngineShows format P T m e
      → m (compound_key s key) ≡ some r
      → IsWritable format r
      → r.stream_name ≡ s
      → (limit
          ≤ length (
              scan_entries format P T cfg e s limit
                (entries_from format P T cfg (stream_prefix s) (P.entries e.index.skipmap))
                []))
        ⊎ Mem r (
            scan_entries format P T cfg e s limit
              (entries_from format P T cfg (stream_prefix s) (P.entries e.index.skipmap))
              [])
  unfolding compound_key
  scan_entries-Meets e m s key r limit shown live w named =
      elim (Bool-cases (
        leb limit (
          length (
            scan_entries format P T cfg e s limit
              (entries_from format P T cfg (stream_prefix s) (P.entries e.index.skipmap)) [])))) [
                | inl full ↦ inl (ground (arith, full))
                | inr room ↦ inr (
                    scan-finds format P T cfg e s limit r (compound_key s key) found.at
                      (entries_from format P T cfg (stream_prefix s) (P.entries e.index.skipmap)) []
                      (entries_from-IsRange format P T cfg (stream_prefix s)
                        (P.entries e.index.skipmap) (P.ordered e.index.skipmap))
                      (find-entries_from format P T cfg (stream_prefix s) (compound_key s key)
                          (P.entries e.index.skipmap) after
                        ∙ sym (P.get_lem (compound_key s key) e.index.skipmap)
                        ∙ found.indexed)
                      found.reads (rw (named) (bytes_eq_refl s)) inside (ground (arith, room)))
              ]
    where
      found : IsFound e (compound_key s key) r
      found = EngineShows-IsFound e m (compound_key s key) r shown live w

      shape : compound_key s key ≡ stream_prefix s ++ key
      shape = sym (append_assoc s (b':' ∷ []) key)

      after : bytes_lt (compound_key s key) (stream_prefix s) ≡ false
      after = rw (shape) (bytes_lt-append (stream_prefix s) key)

      inside : has_prefix (stream_prefix s) (compound_key s key) ≡ true
      inside = rw (shape) (has_prefix-append (stream_prefix s) key)

  -- In an engine that represents a map from compound keys to records, a live scan of a stream
  -- returns each record that the map has under a key of the stream, provided the record can be
  -- written and carries the stream's name, unless as many records as the smaller of the two limits
  -- come back. It fails only where the caller's limit is above the configured one.
  pub scan_live_stream-Meets :
      (e : Engine format P T) (m : Live) (stream_name key : Bytes) (r : Record) (max_records : ℕ)
      → EngineShows format P T m e
      → m (compound_key stream_name key) ≡ some r
      → IsWritable format r
      → r.stream_name ≡ stream_name
      → Meets max_records r (scan_live_stream format P T cfg e stream_name max_records)
  unfolding scan_live_stream
  scan_live_stream-Meets e m s key r max_records shown live w named =
      elim (Bool-cases
        (leb cfg.max_scan_results (length records) && ltb cfg.max_scan_results max_records)) [
          | inl over ↦ rw (over, if◌then◌else◌) (ground (arith, over))
          | inr fits ↦
              rw (fits, if◌then◌else◌)
                (elim (scan_entries-Meets e m s key r (min max_records cfg.max_scan_results) shown
                  live w named) [
                    | inl full ↦ inl (rw (length-sort by_sequence_id records) full)
                    | inr found ↦ inr ((Perm.mem_iff (sort-perm by_sequence_id records)).1 found)
                  ])
        ]
    where
      records : List Record
      records =
          scan_entries format P T cfg e s (min max_records cfg.max_scan_results)
            (entries_from format P T cfg (stream_prefix s) (P.entries e.index.skipmap)) []
