-- ===== src/Storage/Reads/Sound.antt =====
-- What a live scan returns: records of the abstract view, of the stream, in order, up to the limit.
use mathlib.Core.Path.{subst}
use liven.Prelude.{
  ℕ, suc, ◌≤◌, ◌≡◌, refl, sym, ◌∙◌, false, ◌&&◌, Bool-cases, inl, inr, Option, none, some, List, [],
  ◌∷◌, arith, length, length-append, min, ltb, leb, All, All-append, if◌then◌else◌,
}
use liven.Prelude.Sort.{sort-All, sort-IsSorted, length-sort, IsSorted}
use liven.Bytes.{Bytes, bytes_eq, bytes_lt}
use liven.Bytes.Order.{bytes_eq_iff}
use liven.Types.{LogPointer, Record}
use liven.Error.{LivenError, Result, ok, err}
use liven.Storage.Payload.{PayloadFormat}
use liven.Storage.SkipMap.{SkipMap, Key, find, IsBelow, IsOrdered}
use liven.Storage.Index.Keys.{name_key, stamp_key, Stamp}
use liven.Storage.Flusher.Live.{Live, ShowsAt}
use liven.Storage.Flusher.Refines.{EngineShows}
use liven.Storage.Flusher.Batch.{Engine}
use liven.Storage.Reads.{
  ReadConfig, has_prefix, stream_prefix, by_sequence_id, entries_from, read_live, push_of,
  scan_entries, scan_live_stream,
}
use liven.Storage.Reads.Get.{IsReadable, read_at-StandsAt}

module _ {K V : Type 0} ⦃key : Key K⦄ where
  -- each entry is the one that its key finds
  abbrev pub AreFound : List (K × V) → List (K × V) → Type 0
  AreFound all m = All (λ e. find e.0 all ≡ some e.1) m

  AreFound-cons :
      (k : K) (v : V) (all m : List (K × V))
      → IsBelow k m
      → AreFound all m
      → AreFound ((k, v) ∷ all) m
  unfolding find
  AreFound-cons k v all [] b h = tt
  AreFound-cons k v all ((j, w) ∷ m) b h =
      (rw (distinct, later, if◌then◌else◌) h.0, AreFound-cons k v all m b.1 h.1)
    where
      later : key.lt j k ≡ false
      later = elim (Bool-cases (key.lt j k)) [
        | inl less ↦ absurd (ground (arith, key.trans k j k b.0 less, key.irrefl k))
        | inr more ↦ more
      ]

      distinct : key.eq j k ≡ false
      distinct = elim (Bool-cases (key.eq j k)) [
        | inl same ↦ absurd (ground (arith, rw ((key.eq_iff j k).0 same) at b.0, key.irrefl k))
        | inr other ↦ other
      ]

  pub IsOrdered-AreFound : (m : List (K × V)) → IsOrdered m → AreFound m m
  unfolding find
  IsOrdered-AreFound [] o = tt
  IsOrdered-AreFound ((k, v) ∷ m) o = (
    rw ((key.eq_iff k k).1 refl, if◌then◌else◌) refl,
    AreFound-cons k v m m o.0 (IsOrdered-AreFound m o.1),
  )

module _ (format : PayloadFormat) (P : SkipMap Bytes LogPointer name_key)
    (T : SkipMap Stamp LogPointer stamp_key) (cfg : ReadConfig) where
  entries_from-All :
      (Q : Bytes × LogPointer → Type 0) (p : Bytes) (m : List (Bytes × LogPointer))
      → All Q m
      → All Q (entries_from format P T cfg p m)
  entries_from-All Q p [] h = tt
  entries_from-All Q p ((k, v) ∷ m) h = elim (Bool-cases (bytes_lt k p)) [
    | inl less ↦ rw (less, if◌then◌else◌) (entries_from-All Q p m h.1)
    | inr more ↦ rw (more, if◌then◌else◌) h
  ]

  -- a record of the view that carries the stream's name
  pub record IsOf (m : Live) (s : Bytes) (r : Record) : Type 0 where
    pub key : Bytes
    pub live : m key ≡ some r
    pub named : r.stream_name ≡ s

  module _ (e : Engine format P T) (m : Live) (s : Bytes) (shown : EngineShows format P T m e)
      (readable : (k : Bytes) → IsReadable format (m k)) where
    read_live-Live :
        (k : Bytes) (p : LogPointer)
        → P.get k e.index.skipmap ≡ some p
        → read_live format P T cfg e k p ≡ m k
    read_live-Live k p f = go (m k) refl
      where
        go : (o : Option Record) → m k ≡ o → read_live format P T cfg e k p ≡ o
        go none g = absurd (
            subst (λ x. ShowsAt format e.files x none) f
              (subst (λ x. ShowsAt format e.files (P.get k e.index.skipmap) x) g (shown k)))
        go (some r) g =
            rw
              (
                read_live,
                read_at-StandsAt format P T cfg e p r
                    (subst (λ x. ShowsAt format e.files x (some r)) f
                      (subst (λ x. ShowsAt format e.files (P.get k e.index.skipmap) x) g (shown k)))
                    (subst (IsReadable format) g (readable k)),
              )
              refl

    push_of-IsOf :
        (k : Bytes) (o : Option Record) (records : List Record)
        → m k ≡ o
        → All (IsOf m s) records
        → All (IsOf m s) (push_of format P T cfg s o records)
    push_of-IsOf k none records g h = h
    push_of-IsOf k (some r) records g h = elim (Bool-cases (bytes_eq r.stream_name s)) [
      | inl same ↦
          rw (same, if◌then◌else◌)
            (All-append (IsOf m s) records (r ∷ []) h
              (record { key = k; live = g; named = (bytes_eq_iff r.stream_name s).0 same }, tt))
      | inr other ↦ rw (other, if◌then◌else◌) h
    ]

    length-push_of :
        (o : Option Record) (records : List Record)
        → length (push_of format P T cfg s o records) ≤ suc (length records)
    length-push_of none records = omega arith
    length-push_of (some r) records = elim (Bool-cases (bytes_eq r.stream_name s)) [
      | inl same ↦ rw (same, if◌then◌else◌) (omega (arith, length-append records (r ∷ [])))
      | inr other ↦ rw (other, if◌then◌else◌) (omega arith)
    ]

    scan-IsOf :
        (limit : ℕ) (es : List (Bytes × LogPointer)) (records : List Record)
        → AreFound ⦃key = name_key⦄ (P.entries e.index.skipmap) es
        → All (IsOf m s) records
        → All (IsOf m s) (scan_entries format P T cfg e s limit es records)
    unfolding scan_entries
    scan-IsOf limit [] records f h = h
    scan-IsOf limit ((k, p) ∷ es) records f h = elim (Bool-cases (has_prefix (stream_prefix s) k)) [
      | inl inside ↦
          rw (inside, if◌then◌else◌)
            (elim (Bool-cases (leb limit (length records))) [
              | inl full ↦ rw (full, if◌then◌else◌) h
              | inr room ↦
                  rw (room, if◌then◌else◌)
                    (scan-IsOf limit es
                      (push_of format P T cfg s (read_live format P T cfg e k p) records) f.1
                      (push_of-IsOf k (read_live format P T cfg e k p) records
                        (sym (read_live-Live k p (P.get_lem k e.index.skipmap ∙ f.0))) h))
            ])
      | inr outside ↦ rw (outside, if◌then◌else◌) h
    ]

    scan-length :
        (limit : ℕ) (es : List (Bytes × LogPointer)) (records : List Record)
        → length records ≤ limit
        → length (scan_entries format P T cfg e s limit es records) ≤ limit
    unfolding scan_entries
    scan-length limit [] records h = h
    scan-length limit ((k, p) ∷ es) records h = elim (Bool-cases (has_prefix (stream_prefix s) k)) [
      | inl inside ↦
          rw (inside, if◌then◌else◌)
            (elim (Bool-cases (leb limit (length records))) [
              | inl full ↦ rw (full, if◌then◌else◌) h
              | inr room ↦
                  rw (room, if◌then◌else◌)
                    (scan-length limit es
                      (push_of format P T cfg s (read_live format P T cfg e k p) records)
                      (ground
                        (arith, room, length-push_of (read_live format P T cfg e k p) records)))
            ])
      | inr outside ↦ rw (outside, if◌then◌else◌) h
    ]

  -- the records that a scan may return
  pub record IsScan (m : Live) (s : Bytes) (limit : ℕ) (records : List Record) : Type 0 where
    pub of : All (IsOf m s) records
    pub sorted : IsSorted by_sequence_id records
    pub bounded : length records ≤ limit

  abbrev pub Scans : Live → Bytes → ℕ → Result LivenError (List Record) → Type 0
  Scans m s limit (err x) = Unit
  Scans m s limit (ok records) = IsScan m s limit records

  -- In an engine that represents a map from compound keys to records that can be written, what a
  -- live scan returns without an error are records of the map that carry the stream's name, in the
  -- order of their sequence ids, and no more than the smaller of the two limits.
  pub scan_live_stream-Scans :
      (e : Engine format P T) (m : Live) (stream_name : Bytes) (max_records : ℕ)
      → EngineShows format P T m e
      → ((k : Bytes) → IsReadable format (m k))
      → Scans m stream_name
          (min max_records cfg.max_scan_results)
          (scan_live_stream format P T cfg e stream_name max_records)
  unfolding scan_live_stream
  scan_live_stream-Scans e m s max_records shown readable =
      elim (Bool-cases
        (leb cfg.max_scan_results (length records) && ltb cfg.max_scan_results max_records)) [
          | inl over ↦ rw (over, if◌then◌else◌) tt
          | inr fits ↦
              rw (fits, if◌then◌else◌)
                (record {
                  of =
                      sort-All by_sequence_id (IsOf m s) records
                        (scan-IsOf e m s shown readable limit entries [] found tt);
                  sorted =
                      sort-IsSorted by_sequence_id (λ x y h. ground (arith, h))
                        (λ x y z h k. ground (arith, h, k)) records;
                  bounded =
                      rw (length-sort by_sequence_id records)
                        (scan-length e m s shown readable limit entries [] (omega arith));
                })
        ]
    where
      limit : ℕ
      limit = min max_records cfg.max_scan_results

      entries : List (Bytes × LogPointer)
      entries = entries_from format P T cfg (stream_prefix s) (P.entries e.index.skipmap)

      found : AreFound ⦃key = name_key⦄ (P.entries e.index.skipmap) entries
      found =
          entries_from-All (λ x. find ⦃key = name_key⦄ x.0 (P.entries e.index.skipmap) ≡ some x.1)
            (stream_prefix s) (P.entries e.index.skipmap)
            (IsOrdered-AreFound ⦃key = name_key⦄ (P.entries e.index.skipmap)
              (P.ordered e.index.skipmap))

      records : List Record
      records = scan_entries format P T cfg e s limit entries []
