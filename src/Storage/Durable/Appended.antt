-- ===== src/Storage/Durable/Appended.antt =====
-- Segments of whole frames that grow by the frames of a batch, and the newest frame of a key in them.
use mathlib.Core.Path.{subst}
use liven.Prelude.{
  ℕ, ◌≡◌, ◌⊎◌, refl, sym, ap, false, Bool-cases, inl, inr, Option, none, some, List, [], ◌∷◌, ◌++◌,
  arith, All, Any, All-append, All-map, All-split, Any-split, Any-left, Any-right, append_assoc,
  ◌==◌, if◌then◌else◌,
}
use liven.Bytes.{Bytes}
use liven.Types.{Record}
use liven.Storage.Payload.{PayloadFormat}
use liven.Storage.Frame.{frame_of}
use liven.Storage.Flusher.{Pending}
use liven.Storage.Flusher.Built.{frames_of}
use liven.Storage.Flusher.Batch.{append_bytes}
use liven.Storage.Recovery.Segmented.{Segment, all_records, HasOwnId, segments_of}
use liven.Storage.Recovery.Newest.{HasKey, IsNewest, Grows, merge_all-Grows}
use liven.Storage.Recovery.Views.{View, merge_all, entry_of}

-- more records at the end of a segment, which is made where it is not there
abbrev pub put_frames : ℕ → List Pending → List Segment → List Segment
put_frames id ps [] = (id, ps) ∷ []
put_frames id ps (w ∷ ws) =
    let rest = put_frames id ps ws in if id == w.0 then (w.0, w.1 ++ ps) ∷ ws else w ∷ rest

frames_of-join :
    (format : PayloadFormat) (ps qs : List Pending)
    → frames_of format (ps ++ qs) ≡ frames_of format ps ++ frames_of format qs
frames_of-join format [] qs = refl
frames_of-join format (p ∷ ps) qs =
    rw (frames_of-join format ps qs)
      (sym (append_assoc (frame_of format p.written) (frames_of format ps) (frames_of format qs)))

pub append_bytes-segments_of :
    (format : PayloadFormat) (id : ℕ) (ps : List Pending) (ws : List Segment)
    → append_bytes id (frames_of format ps) (segments_of format ws)
      ≡ segments_of format (put_frames id ps ws)
unfolding append_bytes
append_bytes-segments_of format id ps [] = refl
append_bytes-segments_of format id ps (w ∷ ws) = elim (Bool-cases (id == w.0)) [
  | inl same ↦ rw (same, if◌then◌else◌, frames_of-join format w.1 ps) refl
  | inr other ↦
      rw (other, if◌then◌else◌)
        (ap (λ fs. (w.0, frames_of format w.1) ∷ fs) (append_bytes-segments_of format id ps ws))
]

module _ (id : ℕ) (ps : List Pending) where
  put_frames-All :
      (Q : Segment → Type 0) (ws : List Segment)
      → ((w : Segment) → Q w → Q (w.0, w.1 ++ ps))
      → Q (id, ps)
      → All Q ws
      → All Q (put_frames id ps ws)
  put_frames-All Q [] grow new h = (new, tt)
  put_frames-All Q (w ∷ ws) grow new h = elim (Bool-cases (id == w.0)) [
    | inl same ↦ rw (same, if◌then◌else◌) (grow w h.0, h.1)
    | inr other ↦ rw (other, if◌then◌else◌) (h.0, put_frames-All Q ws grow new h.1)
  ]

  pub HasOwnId-put_frames : (ws : List Segment) → HasOwnId ws → HasOwnId (put_frames id ps ws)
  HasOwnId-put_frames [] h = (tt, tt)
  HasOwnId-put_frames (w ∷ ws) h = elim (Bool-cases (id == w.0)) [
    | inl same ↦ rw (same, if◌then◌else◌) h
    | inr other ↦
        rw (other, if◌then◌else◌)
          (
            put_frames-All (λ u. (u.0 == w.0) ≡ false) ws (λ u e. e) other h.0,
            HasOwnId-put_frames ws h.1,
          )
  ]

  -- what holds of the records of each segment
  pub All-put_frames :
      (Q : Pending → Type 0) (ws : List Segment)
      → All (λ w. All Q w.1) ws
      → All Q ps
      → All (λ w. All Q w.1) (put_frames id ps ws)
  All-put_frames Q ws h new =
      put_frames-All (λ w. All Q w.1) ws (λ w e. All-append Q w.1 ps e new) new h

  -- The records are those of before and the new ones.
  module _ (Q : Pending → Type 0) where
    all_records-All :
        (ws : List Segment)
        → All Q (all_records ws ++ ps)
        → All Q (all_records (put_frames id ps ws))
    all_records-All [] h = All-append Q ps [] h tt
    all_records-All (w ∷ ws) h = elim (Bool-cases (id == w.0)) [
      | inl same ↦
          rw (same, if◌then◌else◌)
            (All-append Q (w.1 ++ ps) (all_records ws) (All-append Q w.1 ps parts.0 rest.1) rest.0)
      | inr other ↦
          rw (other, if◌then◌else◌) (All-append Q w.1 _ parts.0 (all_records-All ws parts.1))
    ]
      where
        parts : All Q w.1 × All Q (all_records ws ++ ps)
        parts =
            All-split Q w.1 (all_records ws ++ ps) (rw (append_assoc w.1 (all_records ws) ps) at h)

        rest : All Q (all_records ws) × All Q ps
        rest = All-split Q (all_records ws) ps parts.1

    all_records-Any :
        (ws : List Segment)
        → Any Q (all_records ws ++ ps)
        → Any Q (all_records (put_frames id ps ws))
    all_records-Any [] h = Any-left Q ps [] h
    all_records-Any (w ∷ ws) h = elim (Bool-cases (id == w.0)) [
      | inl same ↦
          rw (same, if◌then◌else◌)
            (elim parts [
              | inl old ↦ Any-left Q (w.1 ++ ps) (all_records ws) (Any-left Q w.1 ps old)
              | inr more ↦ elim (Any-split Q (all_records ws) ps more) [
                | inl later ↦ Any-right Q (w.1 ++ ps) (all_records ws) later
                | inr new ↦ Any-left Q (w.1 ++ ps) (all_records ws) (Any-right Q w.1 ps new)
              ]
            ])
      | inr other ↦
          rw (other, if◌then◌else◌)
            (elim parts [
              | inl old ↦ Any-left Q w.1 _ old
              | inr more ↦ Any-right Q w.1 _ (all_records-Any ws more)
            ])
    ]
      where
        parts : Any Q w.1 ⊎ Any Q (all_records ws ++ ps)
        parts =
            Any-split Q w.1 (all_records ws ++ ps) (rw (append_assoc w.1 (all_records ws) ps) at h)

  IsNewest-put_frames :
      (k : Bytes) (ws : List Segment) (o : Option (ℕ × Option Record))
      → IsNewest k (all_records ws ++ ps) o
      → IsNewest k (all_records (put_frames id ps ws)) o
  IsNewest-put_frames k ws none h = all_records-All _ ws h
  IsNewest-put_frames k ws (some e) h = (all_records-All _ ws h.0, all_records-Any _ ws h.1)

module _ (k : Bytes) where
  IsNewest-Grows :
      (qs ps : List Pending) (first o : Option (ℕ × Option Record))
      → IsNewest k qs first
      → Grows k first ps o
      → IsNewest k (qs ++ ps) o
  IsNewest-Grows qs ps none none h (e, n) = All-append _ qs ps h n
  IsNewest-Grows qs ps (some f) none h (e, n) = absurd (ground (arith, e))
  IsNewest-Grows qs ps none (some e) h (b, a, m) = (
    All-append _ qs ps (All-map _ _ qs (λ p other same. absurd (ground (arith, other, same))) h) a,
    elim m [ inl wrong ↦ absurd (ground (arith, wrong)) | inr new ↦ Any-right _ qs ps new ],
  )
  IsNewest-Grows qs ps (some f) (some e) h (b, a, m) = (
    All-append _ qs ps (All-map _ _ qs (λ p below same. ground (arith, below same, b)) h.0) a,
    elim m [
      | inl same ↦
          let same' : f ≡ e = cc in
          Any-left _ qs ps (subst (λ x. Any (λ p. HasKey k p × (entry_of p ≡ x)) qs) same' h.1)
      | inr new ↦ Any-right _ qs ps new
    ],
  )

  -- New frames are merged into what was newest, wherever they are put.
  pub IsNewest-appended :
      (id : ℕ) (ps : List Pending) (ws : List Segment) (v : View)
      → IsNewest k (all_records ws) (v k)
      → IsNewest k (all_records (put_frames id ps ws)) (merge_all ps v k)
  IsNewest-appended id ps ws v h =
      IsNewest-put_frames id ps k ws (merge_all ps v k)
        (IsNewest-Grows (all_records ws) ps (v k) (merge_all ps v k) h (merge_all-Grows k ps v))
