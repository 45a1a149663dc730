-- ===== src/Storage/Reads/Scans.antt =====
-- The live scan of a stream: what it returns, and that it misses nothing.
use mathlib.Core.List.{Mem, mem-append_left, mem-append_right, mem-cons_self}
use mathlib.Core.Path.{subst}
use liven.Prelude.{
  ℕ, ◌<◌, ◌≡◌, refl, true, false, Bool-cases, inl, inr, Option, none, some, List, [], ◌∷◌, arith,
  length, leb, All, if◌then◌else◌,
}
use liven.Bytes.{Bytes, bytes_eq, bytes_lt}
use liven.Bytes.Order.{bytes_eq_iff, bytes_lt_trans, bytes_lt_total}
use liven.Types.{LogPointer, Record}
use liven.Storage.Payload.{PayloadFormat}
use liven.Storage.SkipMap.{SkipMap, find, IsBelow, IsOrdered}
use liven.Storage.Index.Keys.{name_key, stamp_key, Stamp}
use liven.Storage.Flusher.Batch.{Engine}
use liven.Storage.Reads.{
  ReadConfig, has_prefix, stream_prefix, entries_from, read_live, push_of, scan_entries,
}

-- What lies between a prefix and a text with that prefix has the prefix too.
has_prefix-between :
    (p a b : Bytes)
    → has_prefix p b ≡ true
    → bytes_lt a p ≡ false
    → bytes_lt a b ≡ true
    → has_prefix p a ≡ true
unfolding has_prefix bytes_lt
has_prefix-between [] a b h l r = refl
has_prefix-between (x ∷ p) [] b h l r = cc
has_prefix-between (x ∷ p) (y ∷ a) [] h l r = cc
has_prefix-between (x ∷ p) (y ∷ a) (z ∷ b) h l r = ground (arith, has_prefix-between p a b)

-- every key of the entries is at or after `p`
abbrev IsFrom : Bytes → List (Bytes × LogPointer) → Type 0
IsFrom p m = All (λ e. bytes_lt e.0 p ≡ false) m

IsFrom-below :
    (p j : Bytes) (m : List (Bytes × LogPointer))
    → bytes_lt j p ≡ false
    → IsBelow ⦃key = name_key⦄ j m
    → IsFrom p m
IsFrom-below p j [] h b = tt
IsFrom-below p j ((k, v) ∷ m) h b = (
  elim (Bool-cases (bytes_lt k p)) [
    | inl less ↦ absurd (ground (arith, bytes_lt_trans j k p b.0 less))
    | inr more ↦ more
  ],
  IsFrom-below p j m h b.1,
)

module _ (format : PayloadFormat) (P : SkipMap Bytes LogPointer name_key)
    (T : SkipMap Stamp LogPointer stamp_key) (cfg : ReadConfig) where
  -- entries in the order of their keys, from a prefix on
  pub record IsRange (p : Bytes) (m : List (Bytes × LogPointer)) : Type 0 where
    pub from : IsFrom p m
    pub ordered : IsOrdered ⦃key = name_key⦄ m

  pub entries_from-IsRange :
      (p : Bytes) (m : List (Bytes × LogPointer))
      → IsOrdered ⦃key = name_key⦄ m
      → IsRange p (entries_from format P T cfg p m)
  entries_from-IsRange p [] o = record { from = tt; ordered = tt }
  entries_from-IsRange p ((k, v) ∷ m) o = elim (Bool-cases (bytes_lt k p)) [
    | inl less ↦ rw (less, if◌then◌else◌) (entries_from-IsRange p m o.1)
    | inr more ↦
        rw (more, if◌then◌else◌)
          (record { from = (more, IsFrom-below p k m more o.0); ordered = o })
  ]

  pub find-entries_from :
      (p k : Bytes) (m : List (Bytes × LogPointer))
      → bytes_lt k p ≡ false
      → find ⦃key = name_key⦄ k (entries_from format P T cfg p m) ≡ find ⦃key = name_key⦄ k m
  unfolding find
  find-entries_from p k [] h = refl
  find-entries_from p k ((j, v) ∷ m) h = elim (Bool-cases (bytes_lt j p)) [
    | inl less ↦
        rw (less, if◌then◌else◌)
          (ground (arith, find-entries_from p k m h, bytes_eq_iff k j, bytes_lt_trans k j p))
    | inr more ↦ rw (more, if◌then◌else◌) refl
  ]

  module _ (e : Engine format P T) (s : Bytes) (limit : ℕ) where
    push_of-keeps :
        (r : Record) (o : Option Record) (records : List Record)
        → Mem r records
        → Mem r (push_of format P T cfg s o records)
    push_of-keeps r none records h = h
    push_of-keeps r (some q) records h = elim (Bool-cases (bytes_eq q.stream_name s)) [
      | inl same ↦ rw (same, if◌then◌else◌) (mem-append_left (q ∷ []) h)
      | inr other ↦ rw (other, if◌then◌else◌) h
    ]

    scan-keeps :
        (r : Record) (m : List (Bytes × LogPointer)) (records : List Record)
        → Mem r records
        → Mem r (scan_entries format P T cfg e s limit m records)
    unfolding scan_entries
    scan-keeps r [] records h = h
    scan-keeps r ((k, p) ∷ m) records h = elim (Bool-cases (has_prefix (stream_prefix s) k)) [
      | inl inside ↦
          rw (inside, if◌then◌else◌)
            (elim (Bool-cases (leb limit (length records))) [
              | inl full ↦ rw (full, if◌then◌else◌) h
              | inr room ↦
                  rw (room, if◌then◌else◌)
                    (scan-keeps r m
                      (push_of format P T cfg s (read_live format P T cfg e k p) records)
                      (push_of-keeps r (read_live format P T cfg e k p) records h))
            ])
      | inr outside ↦ rw (outside, if◌then◌else◌) h
    ]

    pushed : Bytes → LogPointer → List Record → List Record
    pushed j q records = push_of format P T cfg s (read_live format P T cfg e j q) records

    scan-full :
        (j : Bytes) (q : LogPointer) (m : List (Bytes × LogPointer)) (records : List Record)
        → leb limit (length records) ≡ true
        → scan_entries format P T cfg e s limit ((j, q) ∷ m) records ≡ records
    unfolding scan_entries
    scan-full j q m records full = elim (Bool-cases (has_prefix (stream_prefix s) j)) [
      | inl inside ↦ rw (inside, full, if◌then◌else◌) refl
      | inr outside ↦ rw (outside, if◌then◌else◌) refl
    ]

    scan-next :
        (j : Bytes) (q : LogPointer) (m : List (Bytes × LogPointer)) (records : List Record)
        → leb limit (length records) ≡ false
        → has_prefix (stream_prefix s) j ≡ true
        → scan_entries format P T cfg e s limit ((j, q) ∷ m) records
          ≡ scan_entries format P T cfg e s limit m (pushed j q records)
    unfolding scan_entries pushed
    scan-next j q m records room inside = rw (inside, room, if◌then◌else◌) refl

    pushed-Mem :
        (r : Record) (j : Bytes) (q : LogPointer) (records : List Record)
        → read_live format P T cfg e j q ≡ some r
        → bytes_eq r.stream_name s ≡ true
        → Mem r (pushed j q records)
    unfolding pushed
    pushed-Mem r j q records rd st =
        rw (rd, st, if◌then◌else◌) (mem-append_right records mem-cons_self)

    -- A record behind a key of the stream is found, unless the limit is met.
    pub scan-finds :
        (r : Record) (k : Bytes) (p : LogPointer) (m : List (Bytes × LogPointer))
        (records : List Record)
        → IsRange (stream_prefix s) m
        → find ⦃key = name_key⦄ k m ≡ some p
        → read_live format P T cfg e k p ≡ some r
        → bytes_eq r.stream_name s ≡ true
        → has_prefix (stream_prefix s) k ≡ true
        → length (scan_entries format P T cfg e s limit m records) < limit
        → Mem r (scan_entries format P T cfg e s limit m records)
    unfolding find
    scan-finds r k p [] records g f rd st pre small = cc
    scan-finds r k p ((j, q) ∷ m) records g f rd st pre small =
        elim (Bool-cases (leb limit (length records))) [
          | inl full ↦ absurd (ground (arith, rw (scan-full j q m records full) at small, full))
          | inr room ↦ elim (Bool-cases (bytes_eq k j)) [
            | inl same ↦ rw (scan-next j q m records room (at_key same)) (here same)
            | inr other ↦ rw (scan-next j q m records room (before other)) (
                scan-finds r k p m (pushed j q records)
                  (record { from = g.from.1; ordered = g.ordered.1 })
                  (rw (other, later other, if◌then◌else◌) at f) rd st pre
                  (rw (scan-next j q m records room (before other)) at small))
          ]
        ]
      where
        at_key : bytes_eq k j ≡ true → has_prefix (stream_prefix s) j ≡ true
        at_key same = rw (← (bytes_eq_iff k j).0 same) pre

        found : bytes_eq k j ≡ true → p ≡ q
        found same = cc (rw (same, if◌then◌else◌) at f)

        here :
            bytes_eq k j ≡ true
            → Mem r (scan_entries format P T cfg e s limit m (pushed j q records))
        here same = scan-keeps r m (pushed j q records) (
            pushed-Mem r j q records
              (subst (λ x. read_live format P T cfg e x q ≡ some r) ((bytes_eq_iff k j).0 same)
                (subst (λ y. read_live format P T cfg e k y ≡ some r) (found same) rd))
              st)

        later : bytes_eq k j ≡ false → bytes_lt k j ≡ false
        later other = elim (Bool-cases (bytes_lt k j)) [
          | inl less ↦ absurd (ground (arith, rw (other, less, if◌then◌else◌) at f))
          | inr more ↦ more
        ]

        before : bytes_eq k j ≡ false → has_prefix (stream_prefix s) j ≡ true
        before other =
            has_prefix-between (stream_prefix s) j k pre g.from.0
              (bytes_lt_total k j (later other) other)
