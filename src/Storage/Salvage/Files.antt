-- ===== src/Storage/Salvage/Files.antt =====
-- The segment files that a salvage writes and the ids that are free for one.
use mathlib.Core.Path.{subst}
use liven.Prelude.{
  ℕ, zero, suc, ◌+◌, ◌≤◌, ◌<◌, ◌≡◌, refl, Bool, true, false, Bool-cases, inl, inr, List, [], ◌∷◌,
  arith, length, leb, ◌==◌, ==_iff, if◌then◌else◌,
}
use liven.Bytes.{Bytes}
use liven.Error.{ok}
use liven.Storage.Flusher.Batch.{segment_bytes, compaction_id_base}
use liven.Storage.Recovery.{max_of}
use liven.Storage.Salvage.{u64_saturating_add}
use liven.Storage.Salvage.Tears.{Directory, has_segment, write_segment, free_id, next_salvage_id}

pub segment_bytes-write_segment :
    (id j : ℕ) (new : Bytes) (files : List (ℕ × Bytes))
    → segment_bytes id (write_segment j new files)
      ≡ (if id == j then new else segment_bytes id files)
unfolding segment_bytes write_segment
segment_bytes-write_segment id j new [] = refl
segment_bytes-write_segment id j new ((i, bs) ∷ files) = elim (Bool-cases (j == i)) [
  | inl same ↦
      let e : j ≡ i = (==_iff j i).0 same in
      rw (same, if◌then◌else◌, ← e) (absorb (id == j) new bs (segment_bytes id files))
  | inr other ↦
      rw (other, if◌then◌else◌, segment_bytes-write_segment id j new files)
        (apart id j i other bs new (segment_bytes id files))
]
  where
    absorb :
        (b : Bool) (x y z : Bytes) → (if b then x else z) ≡ (if b then x else (if b then y else z))
    absorb true x y z = refl
    absorb false x y z = refl

    apart :
        (id j i : ℕ)
        → (j == i) ≡ false
        → (x y z : Bytes)
        → (if id == i then x else (if id == j then y else z))
          ≡ (if id == j then y else (if id == i then x else z))
    apart id j i other x y z = ground arith

pub has_segment-write_segment :
    (id j : ℕ) (new : Bytes) (files : List (ℕ × Bytes))
    → has_segment id files ≡ true
    → has_segment id (write_segment j new files) ≡ true
unfolding has_segment write_segment
has_segment-write_segment id j new [] h = absurd (ground (arith, h))
has_segment-write_segment id j new ((i, bs) ∷ files) h = elim (Bool-cases (j == i)) [
  | inl same ↦ rw (same, if◌then◌else◌) h
  | inr other ↦
      rw (other, if◌then◌else◌)
        (elim (Bool-cases (id == i)) [
          | inl here ↦ rw (here, if◌then◌else◌) refl
          | inr there ↦
              let h' : has_segment id files ≡ true = rw (there, if◌then◌else◌) at h in
              rw (there, if◌then◌else◌) (has_segment-write_segment id j new files h')
        ])
]

-- how many files have an id that is not below
abbrev count_from : ℕ → List (ℕ × Bytes) → ℕ
count_from id [] = 0
count_from id ((j, bs) ∷ files) = (if leb id j then 1 else 0) + count_from id files

count_from-suc :
    (id : ℕ) (files : List (ℕ × Bytes)) → count_from (suc id) files ≤ count_from id files
count_from-suc id [] = omega arith
count_from-suc id ((j, bs) ∷ files) = ground (arith, count_from-suc id files)

count_from-has :
    (id : ℕ) (files : List (ℕ × Bytes))
    → has_segment id files ≡ true
    → count_from (suc id) files < count_from id files
unfolding has_segment
count_from-has id [] h = absurd (ground (arith, h))
count_from-has id ((j, bs) ∷ files) h = elim (Bool-cases (id == j)) [
  | inl here ↦ ground (arith, here, count_from-suc id files)
  | inr there ↦
      let h' : has_segment id files ≡ true = rw (there, if◌then◌else◌) at h in
      ground (arith, there, count_from-has id files h')
]

count_from-length : (id : ℕ) (files : List (ℕ × Bytes)) → count_from id files ≤ length files
count_from-length id [] = omega arith
count_from-length id ((j, bs) ∷ files) = ground (arith, count_from-length id files)

free_id-free :
    (fuel id : ℕ) (files : List (ℕ × Bytes))
    → count_from id files < fuel
    → has_segment (free_id fuel id files) files ≡ false
unfolding free_id
free_id-free zero id files h = absurd (omega arith)
free_id-free (suc fuel) id files h = elim (Bool-cases (has_segment id files)) [
  | inl taken ↦
      rw (taken, if◌then◌else◌)
        (free_id-free fuel (suc id) files (omega (arith, count_from-has id files taken)))
  | inr free ↦ rw (free, if◌then◌else◌) free
]

-- A new salvage segment has no file yet.
pub next_salvage_id-free :
    (d : Directory) (id : ℕ) → next_salvage_id d ≡ ok id → has_segment id d.segments ≡ false
unfolding next_salvage_id
next_salvage_id-free d id h = elim (Bool-cases (leb compaction_id_base chosen)) [
  | inl full ↦ absurd (ground (arith, (rw (full, if◌then◌else◌) at h)))
  | inr free ↦
      let e : chosen ≡ id = ground (arith, (rw (free, if◌then◌else◌) at h)) in
      subst (λ n. has_segment n d.segments ≡ false) e
        (free_id-free (suc (length d.segments))
          (max_of (u64_saturating_add d.max_normal_segment_id 1) 1) d.segments
          (omega (
            arith,
            count_from-length (max_of (u64_saturating_add d.max_normal_segment_id 1) 1) d.segments,
          )))
]
  where
    chosen : ℕ
    chosen =
        free_id (suc (length d.segments)) (max_of (u64_saturating_add d.max_normal_segment_id 1) 1)
          d.segments
