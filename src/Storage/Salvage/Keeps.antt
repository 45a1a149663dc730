-- ===== src/Storage/Salvage/Keeps.antt =====
-- What recovery does about tears loses no byte: what it cuts off a segment is in a sidecar.
use liven.Prelude.{
  ℕ, ◌≡◌, ◌⊎◌, inl, inr, refl, sym, ap, ◌∙◌, Bool, true, false, not, ◌&&◌, Bool-cases, none, some,
  List, [], ◌∷◌, ◌++◌, arith, length, take, drop, concat_map, leb, ◌==◌, ==_iff, if◌then◌else◌, ℤ,
}
use liven.Bytes.{Bytes}
use liven.Types.{LogPointer}
use liven.Error.{LivenError, Result, ok, err, ◌>>=◌}
use liven.Storage.Payload.{PayloadFormat}
use liven.Storage.SkipMap.{SkipMap}
use liven.Storage.Index.{Index}
use liven.Storage.Index.Keys.{name_key, stamp_key, Stamp}
use liven.Storage.Flusher.Batch.{segment_bytes}
use liven.Storage.Recovery.{RecoveryMode, is_strict, TearKind, DeferredTear}
use liven.Storage.Salvage.{StrandedFrame}
use liven.Storage.Salvage.Tears.{
  Directory, truncate, skip_remainder, file_at, remove_at, is_repair, is_damage, is_trailing,
  has_segment, write_segment, write_salvage_segment, next_salvage_id, salvage_target, frame_bytes,
}
use liven.Storage.Salvage.Files.{
  segment_bytes-write_segment, has_segment-write_segment, next_salvage_id-free,
}
use liven.Storage.Salvage.Decisions.{
  backup_torn_region, Decision, handle_plain, salvage, handle_stranded, handle_tear, stranded_after,
  drop_marker, truncate_segment, skip_segment, carry_out, Salvaged, process_tear,
}

-- The segments that are there stay there with their bytes, and no sidecar changes.
abbrev pub Same : Directory → Directory → Type 0
Same d e =
    ((id : ℕ)
      → has_segment id d.segments ≡ true
      → (has_segment id e.segments ≡ true)
        × (segment_bytes id e.segments ≡ segment_bytes id d.segments))
    × (e.torn_backups ≡ d.torn_backups)
    × (e.markers ≡ [])

-- The segment of the tear is cut at its offset, and the rest is in a new sidecar.
abbrev pub Cut : DeferredTear → Directory → Directory → Type 0
Cut tear d e =
    ((id : ℕ)
      → has_segment id d.segments ≡ true
      → (has_segment id e.segments ≡ true)
        × (segment_bytes id e.segments ≡ (
            if id == tear.segment_id
            then take tear.offset (segment_bytes id d.segments)
            else segment_bytes id d.segments)))
    × (e.torn_backups
        ≡ (
          (tear.segment_id, tear.offset),
          drop tear.offset (segment_bytes tear.segment_id d.segments),
        )
          ∷ d.torn_backups)
    × (e.markers ≡ [])

module _ (no_torn_region : ℕ → ℕ → Bytes) (format : PayloadFormat) (mode : RecoveryMode)
    (now_ms : ℤ) (P : SkipMap Bytes LogPointer name_key)
    (T : SkipMap Stamp LogPointer stamp_key) where
  -- a directory after a backup, before the segment is cut
  abbrev Backed : DeferredTear → Directory → Directory → Type 0
  Backed tear d e =
      ((id : ℕ)
        → has_segment id d.segments ≡ true
        → (has_segment id e.segments ≡ true)
          × (segment_bytes id e.segments ≡ segment_bytes id d.segments))
      × (e.torn_backups
          ≡ (
            (tear.segment_id, tear.offset),
            drop tear.offset (segment_bytes tear.segment_id d.segments),
          )
            ∷ d.torn_backups)

  -- a decision that the steps below carry out without a loss
  abbrev Decides : DeferredTear → Directory → Decision no_torn_region format mode now_ms → Type 0
  Decides tear d (err x) = Unit
  Decides tear d (ok (e, skip_remainder)) = Same d e
  Decides tear d (ok (e, truncate t none)) = (t ≡ tear.offset) × Backed tear d e × (e.markers ≡ [])
  Decides tear d (ok (e, truncate t (some name))) =
      (t ≡ tear.offset) × Backed tear d e × (remove_at name e.markers ≡ [])

  module _ (tear : DeferredTear) (is_active : Bool) (d : Directory) (clean : d.markers ≡ []) where
    abbrev file : Bytes
    file = segment_bytes tear.segment_id d.segments

    handle_plain-Decides :
        Decides tear d (handle_plain no_torn_region format mode now_ms file tear is_active d)
    unfolding backup_torn_region
    handle_plain-Decides = elim (Bool-cases (is_strict mode && is_damage tear.kind)) [
      | inl strict ↦ rw (strict, if◌then◌else◌) tt
      | inr lax ↦
          rw (lax, if◌then◌else◌)
            (elim (Bool-cases (not is_active && not (is_trailing tear.kind))) [
              | inl inactive ↦ rw (inactive, if◌then◌else◌) ((λ id h. (h, refl)), refl, clean)
              | inr active ↦
                  rw (active, if◌then◌else◌)
                    (elim (Bool-cases (leb (length file) tear.offset)) [
                      | inl past ↦ rw (past, if◌then◌else◌) tt
                      | inr inside ↦
                          rw (inside, if◌then◌else◌) (refl, ((λ id h. (h, refl)), refl), clean)
                    ])
            ])
    ]

    same_own_name : ((tear.segment_id == tear.segment_id) && (tear.offset == tear.offset)) ≡ true
    same_own_name =
        rw
          ((==_iff tear.segment_id tear.segment_id).1 refl, (==_iff tear.offset tear.offset).1 refl)
          refl

    -- a salvage segment is a new file
    salvage_segment-Backed :
        (id : ℕ) (new : Bytes)
        → has_segment id d.segments ≡ false
        → (i : ℕ) → has_segment i d.segments ≡ true
        → (has_segment i (write_segment id new d.segments) ≡ true)
          × (segment_bytes i (write_segment id new d.segments) ≡ segment_bytes i d.segments)
    salvage_segment-Backed id new free i there = (
      has_segment-write_segment i id new d.segments there,
      segment_bytes-write_segment i id new d.segments
          ∙ rw (other (Bool-cases (i == id)), if◌then◌else◌) refl,
    )
      where
        other : ((i == id) ≡ true) ⊎ ((i == id) ≡ false) → (i == id) ≡ false
        other (inr apart) = apart
        other (inl same) = absurd (
            ground (
              arith,
              sym free ∙ ap (λ n. has_segment n d.segments) (sym ((==_iff i id).0 same)) ∙ there,
            ))

    Result-cases :
        (r : Result LivenError ℕ) → ((n : ℕ) × (r ≡ ok n)) ⊎ ((x : LivenError) × (r ≡ err x))
    Result-cases (ok n) = inl (n, refl)
    Result-cases (err x) = inr (x, refl)

    unmarked : file_at (tear.segment_id, tear.offset) d.markers ≡ none
    unmarked = ap (λ m. file_at (tear.segment_id, tear.offset) m) clean

    salvage-Decides :
        (frames : List StrandedFrame)
        → Decides tear d (salvage no_torn_region format mode now_ms file tear frames d)
    unfolding backup_torn_region write_salvage_segment salvage_target
    salvage-Decides frames = elim (Result-cases (next_salvage_id d)) [
      | inr refused ↦ rw (unmarked, refused.1) tt
      | inl chosen ↦ elim (Bool-cases (leb (length file) tear.offset)) [
        | inl past ↦ rw (unmarked, chosen.1, past, if◌then◌else◌) tt
        | inr inside ↦
            rw (unmarked, chosen.1, inside, if◌then◌else◌)
              (
                refl,
                (
                  salvage_segment-Backed chosen.0 (concat_map (frame_bytes file) frames)
                      (next_salvage_id-free d chosen.0 chosen.1),
                  refl,
                ),
                rw (same_own_name, if◌then◌else◌)
                    (ap (λ m. remove_at (tear.segment_id, tear.offset) m) clean),
              )
      ]
    ]

    handle_tear-Decides :
        Decides tear d (handle_tear no_torn_region format mode now_ms file tear is_active d)
    unfolding handle_tear
    handle_tear-Decides = go (stranded_after no_torn_region format mode now_ms file tear)
      where
        go :
            (x : List StrandedFrame × ℕ)
            → Decides tear d
                (handle_stranded no_torn_region format mode now_ms file tear is_active d x)
        go ([], end) = handle_plain-Decides
        go (f ∷ frames, end) = elim (Bool-cases (is_repair mode)) [
          | inl repairs ↦ rw (repairs, if◌then◌else◌) (salvage-Decides (f ∷ frames))
          | inr refuses ↦ rw (refuses, if◌then◌else◌) tt
        ]

    -- what a decision leaves
    abbrev pub Resolves :
        Result LivenError (Salvaged no_torn_region format mode now_ms P T) → Type 0
    Resolves (err x) = Unit
    Resolves (ok s) = Same d s.0 ⊎ Cut tear d s.0

    Backed-Cut :
        (e : Directory) (t : ℕ)
        → t ≡ tear.offset
        → Backed tear d e
        → (marks : e.markers ≡ [])
        → Cut tear d (truncate_segment no_torn_region format mode now_ms tear t e)
    unfolding truncate_segment
    Backed-Cut e t same b marks = (
      (λ id there.
          let kept = b.0 id there in
          (
            has_segment-write_segment id tear.segment_id
                (take t (segment_bytes tear.segment_id e.segments)) e.segments kept.0,
            segment_bytes-write_segment id tear.segment_id
                  (take t (segment_bytes tear.segment_id e.segments)) e.segments
                ∙ cut id (Bool-cases (id == tear.segment_id)) kept.1,
          )),
      b.1,
      marks,
    )
      where
        cut :
            (id : ℕ)
            → ((id == tear.segment_id) ≡ true) ⊎ ((id == tear.segment_id) ≡ false)
            → segment_bytes id e.segments ≡ segment_bytes id d.segments
            → (if id == tear.segment_id
                then take t (segment_bytes tear.segment_id e.segments)
                else segment_bytes id e.segments)
              ≡ (if id == tear.segment_id
                  then take tear.offset (segment_bytes id d.segments)
                  else segment_bytes id d.segments)
        cut id (inl here) kept =
            rw (here, if◌then◌else◌)
              (ap (λ n. take t (segment_bytes n e.segments))
                  (sym ((==_iff id tear.segment_id).0 here))
                ∙ ap (take t) kept
                ∙ ap (λ n. take n (segment_bytes id d.segments)) same)
        cut id (inr there) kept = rw (there, if◌then◌else◌) kept

    skip_segment-Same :
        (kind : TearKind) (e : Directory) (ix : Index P T)
        → Same d e
        → Same d (skip_segment no_torn_region format mode now_ms P T tear kind e ix).0
    skip_segment-Same TearKind.torn_header e ix h = h
    skip_segment-Same TearKind.torn_payload e ix h = h
    skip_segment-Same TearKind.torn_crc e ix h = h
    skip_segment-Same TearKind.unparsed e ix h = h
    skip_segment-Same TearKind.trailing e ix h = h

    carry_out-Resolves :
        (r : Decision no_torn_region format mode now_ms) (ix : Index P T)
        → Decides tear d r
        → Resolves (r >>= λ x. ok (carry_out no_torn_region format mode now_ms P T tear ix x))
    unfolding truncate_segment
    carry_out-Resolves (err x) ix h = tt
    carry_out-Resolves (ok (e, skip_remainder)) ix h = inl (skip_segment-Same tear.kind e ix h)
    carry_out-Resolves (ok (e, truncate t none)) ix h = inr (Backed-Cut e t h.0 h.1 h.2)
    carry_out-Resolves (ok (e, truncate t (some name))) ix h =
        inr (Backed-Cut (drop_marker no_torn_region format mode now_ms (some name) e) t h.0 h.1 h.2)

  -- One tear leaves the directory as it is, or cuts its segment with a sidecar.
  pub process_tear-Resolves :
      (active_id : ℕ) (tear : DeferredTear) (d : Directory) (ix : Index P T)
      → (clean : d.markers ≡ [])
      → Resolves tear
          (tear.segment_id == active_id)
          d
          clean
          (process_tear no_torn_region format mode now_ms P T active_id tear (d, ix))
  unfolding process_tear
  process_tear-Resolves active_id tear d ix clean =
      elim (Bool-cases (is_trailing tear.kind && not is_active)) [
        | inl ignored ↦ rw (ignored, if◌then◌else◌) (inl ((λ id h. (h, refl)), refl, clean))
        | inr handled ↦
            rw (handled, if◌then◌else◌)
              (elim (Bool-cases (is_damage tear.kind && is_repair mode)) [
                | inl copied ↦ rw (copied, if◌then◌else◌) (resolved copy clean)
                | inr bare ↦ rw (bare, if◌then◌else◌) (resolved d clean)
              ])
      ]
    where
      is_active : Bool
      is_active = tear.segment_id == active_id

      copy : Directory
      copy = record d {
        repair_backups =
            (tear.segment_id, segment_bytes tear.segment_id d.segments) ∷ d.repair_backups;
        report = record d.report {
          repair_backups = d.report.repair_backups ++ (tear.segment_id ∷ []);
        };
      }

      resolved :
          (e : Directory) (clean : e.markers ≡ [])
          → Resolves tear is_active e clean (
              handle_tear no_torn_region format mode now_ms
                (segment_bytes tear.segment_id e.segments)
                tear
                is_active
                e
              >>= λ x. ok (carry_out no_torn_region format mode now_ms P T tear ix x))
      resolved e clean =
          carry_out-Resolves tear is_active e clean
            (handle_tear no_torn_region format mode now_ms
              (segment_bytes tear.segment_id e.segments) tear is_active e)
            ix (handle_tear-Decides tear is_active e clean)
