-- ===== src/Storage/Salvage/Lossless.antt =====
-- All tears together: every segment keeps its bytes, in its file or in a sidecar of it.
use mathlib.Core.Path.{subst}
use liven.Prelude.{
  ℕ, ◌≡◌, ◌⊎◌, inl, inr, refl, sym, ap, ◌∙◌, true, false, Bool-cases, some, List, [], ◌∷◌, take,
  drop, ◌==◌, ==_iff, All, if◌then◌else◌, ℤ,
}
use liven.Bytes.{Bytes}
use liven.Types.{LogPointer}
use liven.Error.{LivenError, Result, ok, err, ◌>>=◌}
use liven.Storage.Payload.{PayloadFormat}
use liven.Storage.SkipMap.{SkipMap}
use liven.Storage.Index.{Index}
use liven.Storage.Index.Keys.{name_key, stamp_key, Stamp}
use liven.Storage.Flusher.Batch.{segment_bytes}
use liven.Storage.Recovery.{RecoveryMode, DeferredTear}
use liven.Storage.Salvage.Tears.{Directory, file_at, has_segment}
use liven.Storage.Salvage.Keeps.{Same, Cut, Resolves, process_tear-Resolves}
use liven.Storage.Salvage.Decisions.{Salvaged, process_tear, process_deferred_tears}

-- The file holds the bytes, or the first of them while a sidecar named for the place holds the rest.
abbrev pub IsKept : ℕ → Bytes → Directory → Type 0
IsKept id bytes e =
    (segment_bytes id e.segments ≡ bytes)
    ⊎ ((t : ℕ) × (segment_bytes id e.segments ≡ take t bytes)
        × (file_at (id, t) e.torn_backups ≡ some (drop t bytes)))

abbrev IsUntouched : ℕ → Directory → Directory → Type 0
IsUntouched id d e =
    (segment_bytes id e.segments ≡ segment_bytes id d.segments)
    × ((t : ℕ) → file_at (id, t) e.torn_backups ≡ file_at (id, t) d.torn_backups)

-- at most one tear of a segment
abbrev pub HasOwnSegment : List DeferredTear → Type 0
HasOwnSegment [] = Unit
HasOwnSegment (t ∷ tears) =
    All (λ u. (t.segment_id == u.segment_id) ≡ false) tears × HasOwnSegment tears

-- what one tear does for the segment `id`
step-IsUntouched :
    (tear : DeferredTear) (d e : Directory) (id : ℕ)
    → (id == tear.segment_id) ≡ false
    → has_segment id d.segments ≡ true
    → Same d e ⊎ Cut tear d e
    → IsUntouched id d e
step-IsUntouched tear d e id other there (inl same) =
    ((same.0 id there).1, λ t. ap (file_at (id, t)) same.1)
step-IsUntouched tear d e id other there (inr cut) = (
  (cut.0 id there).1 ∙ rw (other, if◌then◌else◌) refl,
  λ t. ap (file_at (id, t)) cut.1 ∙ rw (other, if◌then◌else◌) refl,
)

step-IsKept :
    (tear : DeferredTear) (d e : Directory)
    → has_segment tear.segment_id d.segments ≡ true
    → Same d e ⊎ Cut tear d e
    → IsKept tear.segment_id (segment_bytes tear.segment_id d.segments) e
step-IsKept tear d e there (inl same) = inl (same.0 tear.segment_id there).1
step-IsKept tear d e there (inr cut) = inr (
  tear.offset,
  (cut.0 tear.segment_id there).1
      ∙ rw ((==_iff tear.segment_id tear.segment_id).1 refl, if◌then◌else◌) refl,
  ap (file_at (tear.segment_id, tear.offset)) cut.1
      ∙ rw
          (
            (==_iff tear.segment_id tear.segment_id).1 refl,
            (==_iff tear.offset tear.offset).1 refl,
            if◌then◌else◌,
          )
          refl,
)

step-has_segment :
    (tear : DeferredTear) (d e : Directory) (id : ℕ)
    → has_segment id d.segments ≡ true
    → Same d e ⊎ Cut tear d e
    → has_segment id e.segments ≡ true
step-has_segment tear d e id there (inl same) = (same.0 id there).0
step-has_segment tear d e id there (inr cut) = (cut.0 id there).0

step-markers : (tear : DeferredTear) (d e : Directory) → Same d e ⊎ Cut tear d e → e.markers ≡ []
step-markers tear d e (inl same) = same.2
step-markers tear d e (inr cut) = cut.2

IsKept-IsUntouched :
    (id : ℕ) (bytes : Bytes) (d e : Directory)
    → IsUntouched id d e
    → IsKept id bytes d
    → IsKept id bytes e
IsKept-IsUntouched id bytes d e (u, w) (inl whole) = inl (u ∙ whole)
IsKept-IsUntouched id bytes d e (u, w) (inr (t, front, back)) = inr (t, (u ∙ front), (w t ∙ back))

module _ (no_torn_region : ℕ → ℕ → Bytes) (format : PayloadFormat) (mode : RecoveryMode)
    (now_ms : ℤ) (P : SkipMap Bytes LogPointer name_key) (T : SkipMap Stamp LogPointer stamp_key)
    (active_id : ℕ) where
  -- what holds where the tears are processed
  abbrev pub Ends :
      (Directory → Type 0)
      → Result LivenError (Salvaged no_torn_region format mode now_ms P T)
      → Type 0
  Ends Q (err x) = Unit
  Ends Q (ok s) = Q s.0

  rest-IsUntouched :
      (tears : List DeferredTear) (d : Directory) (ix : Index P T) (id : ℕ)
      → d.markers ≡ []
      → All (λ t. (id == t.segment_id) ≡ false) tears
      → has_segment id d.segments ≡ true
      → Ends
          (IsUntouched id d)
          (process_deferred_tears no_torn_region format mode now_ms P T active_id tears (d, ix))
  unfolding process_deferred_tears
  rest-IsUntouched [] d ix id clean others there = (refl, λ t. refl)
  rest-IsUntouched (tear ∷ tears) d ix id clean others there =
      go (process_tear no_torn_region format mode now_ms P T active_id tear (d, ix))
        (process_tear-Resolves no_torn_region format mode now_ms P T active_id tear d ix clean)
        (λ e jx marks there'. rest-IsUntouched tears e jx id marks others.1 there')
    where
      onward :
          (e : Directory) (r : Result LivenError (Salvaged no_torn_region format mode now_ms P T))
          → IsUntouched id d e
          → Ends (IsUntouched id e) r
          → Ends (IsUntouched id d) r
      onward e (err x) u h = tt
      onward e (ok s) u h = ((h.0 ∙ u.0), λ t. h.1 t ∙ u.1 t)

      go :
          (r : Result LivenError (Salvaged no_torn_region format mode now_ms P T))
          → Resolves no_torn_region format mode now_ms P T tear
              (tear.segment_id == active_id)
              d
              clean
              r
          → ((e : Directory) (jx : Index P T)
              → e.markers ≡ []
              → has_segment id e.segments ≡ true
              → Ends (IsUntouched id e) (
                  process_deferred_tears no_torn_region format mode now_ms P T active_id tears
                    (e, jx)))
          → Ends (IsUntouched id d) (
              r >>= λ s.
              process_deferred_tears no_torn_region format mode now_ms P T active_id tears s)
      go (err x) h next = tt
      go (ok (e, jx)) h next =
          onward e
            (process_deferred_tears no_torn_region format mode now_ms P T active_id tears (e, jx))
            (step-IsUntouched tear d e id others.0 there h)
            (next e jx (step-markers tear d e h) (step-has_segment tear d e id there h))

  -- the tears after the first, for its segment and for another one
  own_tear :
      (tear : DeferredTear) (tears : List DeferredTear) (d e : Directory) (jx : Index P T)
      → Same d e ⊎ Cut tear d e
      → All (λ u. (tear.segment_id == u.segment_id) ≡ false) tears
      → has_segment tear.segment_id d.segments ≡ true
      → Ends
          (IsKept tear.segment_id (segment_bytes tear.segment_id d.segments))
          (process_deferred_tears no_torn_region format mode now_ms P T active_id tears (e, jx))
  own_tear tear tears d e jx h others there =
      go (process_deferred_tears no_torn_region format mode now_ms P T active_id tears (e, jx)) (
        rest-IsUntouched tears e jx tear.segment_id (step-markers tear d e h) others
          (step-has_segment tear d e tear.segment_id there h))
    where
      go :
          (r : Result LivenError (Salvaged no_torn_region format mode now_ms P T))
          → Ends (IsUntouched tear.segment_id e) r
          → Ends (IsKept tear.segment_id (segment_bytes tear.segment_id d.segments)) r
      go (err x) u = tt
      go (ok s) u =
          IsKept-IsUntouched tear.segment_id (segment_bytes tear.segment_id d.segments) e s.0 u
            (step-IsKept tear d e there h)

  other_tear :
      (tear : DeferredTear) (d e : Directory) (id : ℕ)
      (r : Result LivenError (Salvaged no_torn_region format mode now_ms P T))
      → Same d e ⊎ Cut tear d e
      → (id == tear.segment_id) ≡ false
      → has_segment id d.segments ≡ true
      → Ends (IsKept id (segment_bytes id e.segments)) r
      → Ends (IsKept id (segment_bytes id d.segments)) r
  other_tear tear d e id r h other there k =
      subst (λ bytes. Ends (IsKept id bytes) r) (step-IsUntouched tear d e id other there h).0 k

  -- Recovery that gets through the tears of a directory, at most one of each segment and with no
  -- marker of an earlier run, keeps the bytes of every segment that was there: its file holds them,
  -- or the first of them up to a place for which a sidecar holds the rest.
  pub process_deferred_tears-IsKept :
      (tears : List DeferredTear) (d : Directory) (ix : Index P T) (id : ℕ)
      → d.markers ≡ []
      → HasOwnSegment tears
      → has_segment id d.segments ≡ true
      → Ends
          (IsKept id (segment_bytes id d.segments))
          (process_deferred_tears no_torn_region format mode now_ms P T active_id tears (d, ix))
  unfolding process_deferred_tears
  process_deferred_tears-IsKept [] d ix id clean own there = inl refl
  process_deferred_tears-IsKept (tear ∷ tears) d ix id clean own there =
      go (process_tear no_torn_region format mode now_ms P T active_id tear (d, ix))
        (process_tear-Resolves no_torn_region format mode now_ms P T active_id tear d ix clean)
        (λ e jx marks there'. process_deferred_tears-IsKept tears e jx id marks own.1 there')
    where
      go :
          (r : Result LivenError (Salvaged no_torn_region format mode now_ms P T))
          → Resolves no_torn_region format mode now_ms P T tear
              (tear.segment_id == active_id)
              d
              clean
              r
          → ((e : Directory) (jx : Index P T)
              → e.markers ≡ []
              → has_segment id e.segments ≡ true
              → Ends (IsKept id (segment_bytes id e.segments)) (
                  process_deferred_tears no_torn_region format mode now_ms P T active_id tears
                    (e, jx)))
          → Ends (IsKept id (segment_bytes id d.segments)) (
              r >>= λ s.
              process_deferred_tears no_torn_region format mode now_ms P T active_id tears s)
      go (err x) h next = tt
      go (ok (e, jx)) h next = elim (Bool-cases (id == tear.segment_id)) [
        | inl own_segment ↦
            let same : tear.segment_id ≡ id = sym ((==_iff id tear.segment_id).0 own_segment) in
            subst
              (λ n. Ends (IsKept n (segment_bytes n d.segments)) (
                process_deferred_tears no_torn_region format mode now_ms P T active_id tears
                  (e, jx)))
              same
              (own_tear tear tears d e jx h own.0
                (subst (λ n. has_segment n d.segments ≡ true) (sym same) there))
        | inr other ↦
            other_tear tear d e id
              (process_deferred_tears no_torn_region format mode now_ms P T active_id tears (e, jx))
              h other there
              (next e jx (step-markers tear d e h) (step-has_segment tear d e id there h))
      ]
