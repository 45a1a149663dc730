-- ===== src/Storage/Recovery/Segmented.antt =====
-- Segments that hold whole frames, by the records of the frames, and what does not depend on their
-- order.
use liven.Prelude.{
  ℕ, ◌≤◌, ◌≡◌, refl, ap, ◌∙◌, Bool, false, Bool-cases, inl, inr, Option, none, some, List, [], ◌∷◌,
  ◌++◌, All, Any, concat_map, All-concat_map, concat_map-All, Any-concat_map, concat_map-Any, ◌==◌,
  ==_iff, leb, if◌then◌else◌,
}
use liven.Prelude.Sort.{sort, insert_sorted, sort-All_inv, sort-Any_inv}
use liven.Bytes.{Bytes, bytes_eq}
use liven.Types.{Record}
use liven.Storage.Payload.{PayloadFormat}
use liven.Storage.Index.{record_key}
use liven.Storage.Flusher.{Pending}
use liven.Storage.Flusher.Built.{frames_of}
use liven.Storage.Flusher.Batch.{segment_bytes}
use liven.Storage.Recovery.Segments.{by_id}
use liven.Storage.Recovery.Views.{View, merge, merge_all, entry_of}
use liven.Storage.Recovery.Newest.{HasKey, IsNewest}

-- a segment id and the records whose frames the segment holds
abbrev pub Segment : Type 0
Segment = ℕ × List Pending

abbrev pub records_of : Segment → List Pending
records_of w = w.1

abbrev pub all_records : List Segment → List Pending
all_records ws = concat_map records_of ws

abbrev pub HasOwnId : List Segment → Type 0
HasOwnId [] = Unit
HasOwnId (w ∷ ws) = All (λ u. (u.0 == w.0) ≡ false) ws × HasOwnId ws

abbrev pub by_segment : Segment → Segment → Bool
by_segment a b = leb a.0 b.0

pub merge_all-append :
    (ps qs : List Pending) (v : View) → merge_all (ps ++ qs) v ≡ merge_all qs (merge_all ps v)
unfolding merge_all
merge_all-append [] qs v = refl
merge_all-append (p ∷ ps) qs v = merge_all-append ps qs (merge p v)

pub sorted-All :
    (Q : Pending → Type 0) (ws : List Segment)
    → All Q (all_records (sort by_segment ws))
    → All Q (all_records ws)
sorted-All Q ws h = concat_map-All Q records_of ws (
    sort-All_inv by_segment (λ w. All Q w.1) ws
      (All-concat_map Q records_of (sort by_segment ws) h))

sorted-Any :
    (Q : Pending → Type 0) (ws : List Segment)
    → Any Q (all_records (sort by_segment ws))
    → Any Q (all_records ws)
sorted-Any Q ws h = concat_map-Any Q records_of ws (
    sort-Any_inv by_segment (λ w. Any Q w.1) ws
      (Any-concat_map Q records_of (sort by_segment ws) h))

-- What is newest does not depend on the order of the segments.
pub IsNewest-sort :
    (k : Bytes) (ws : List Segment) (o : Option (ℕ × Option Record))
    → IsNewest k (all_records (sort by_segment ws)) o
    → IsNewest k (all_records ws) o
IsNewest-sort k ws none h = sorted-All (λ p. bytes_eq k (record_key p.written) ≡ false) ws h
IsNewest-sort k ws (some e) h = (
  sorted-All (λ p. HasKey k p → p.written.sequence_id ≤ e.0) ws h.0,
  sorted-Any (λ p. HasKey k p × (entry_of p ≡ e)) ws h.1,
)

module _ (format : PayloadFormat) where
  abbrev pub segments_of : List Segment → List (ℕ × Bytes)
  segments_of [] = []
  segments_of (w ∷ ws) = (w.0, frames_of format w.1) ∷ segments_of ws

  insert_sorted-segments_of :
      (w : Segment) (ws : List Segment)
      → insert_sorted by_id (w.0, frames_of format w.1) (segments_of ws)
        ≡ segments_of (insert_sorted by_segment w ws)
  unfolding insert_sorted
  insert_sorted-segments_of w [] = refl
  insert_sorted-segments_of w (u ∷ ws) = elim (Bool-cases (leb w.0 u.0)) [
    | inl less ↦ rw (less, if◌then◌else◌) refl
    | inr more ↦
        rw (more, if◌then◌else◌)
          (ap (λ fs. (u.0, frames_of format u.1) ∷ fs) (insert_sorted-segments_of w ws))
  ]

  pub sort-segments_of :
      (ws : List Segment) → sort by_id (segments_of ws) ≡ segments_of (sort by_segment ws)
  unfolding sort
  sort-segments_of [] = refl
  sort-segments_of (w ∷ ws) =
      ap (insert_sorted by_id (w.0, frames_of format w.1)) (sort-segments_of ws)
      ∙ insert_sorted-segments_of w (sort by_segment ws)

  -- The bytes under the id of a segment are its frames.
  abbrev pub IsHeld : List (ℕ × Bytes) → Segment → Type 0
  IsHeld files w = segment_bytes w.0 files ≡ frames_of format w.1

  IsHeld-later :
      (w : Segment) (files : List (ℕ × Bytes)) (us : List Segment)
      → All (λ u. (u.0 == w.0) ≡ false) us
      → All (IsHeld files) us
      → All (IsHeld ((w.0, frames_of format w.1) ∷ files)) us
  unfolding segment_bytes
  IsHeld-later w files [] d h = tt
  IsHeld-later w files (u ∷ us) d h = (rw (d.0, if◌then◌else◌) h.0, IsHeld-later w files us d.1 h.1)

  pub segments_of-IsHeld : (ws : List Segment) → HasOwnId ws → All (IsHeld (segments_of ws)) ws
  unfolding segment_bytes
  segments_of-IsHeld [] d = tt
  segments_of-IsHeld (w ∷ ws) d = (
    rw ((==_iff w.0 w.0).1 refl, if◌then◌else◌) refl,
    IsHeld-later w (segments_of ws) ws d.0 (segments_of-IsHeld ws d.1),
  )
