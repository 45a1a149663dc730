-- ===== src/Storage/Flusher/Stands.antt =====
-- Index pointers and the frames that they point at, as records are indexed and segments grow.
use mathlib.Core.Path.{subst}
use liven.Prelude.{
  ℕ, ◌+◌, ◌≡◌, refl, sym, ap, ◌∙◌, Bool, true, false, some, List, [], ◌∷◌, ◌++◌, arith, length,
  length-append, append_assoc, append-nil, Bool-cases, inl, inr, if◌then◌else◌, ◌==◌, All,
}
use liven.Bytes.{Bytes, bytes_eq}
use liven.Bytes.Order.{bytes_eq_iff}
use liven.Types.{LogPointer, Record}
use liven.Storage.Payload.{PayloadFormat}
use liven.Storage.Frame.{frame_of}
use liven.Storage.SkipMap.{SkipMap}
use liven.Storage.Index.{Index, record_key, remove_key, insert_key}
use liven.Storage.Index.Keys.{name_key, stamp_key, Stamp}
use liven.Storage.Index.Lookup.{get-insert_key, get-remove_key}
use liven.Storage.Flusher.{Pending}
use liven.Storage.Flusher.Built.{frames_of, IsMeasured}
use liven.Storage.Flusher.Complete.{index_record, pointer_to}
use liven.Storage.Flusher.Batch.{segment_bytes, append_bytes}

pub segment_bytes-append_bytes :
    (j id : ℕ) (new : Bytes) (files : List (ℕ × Bytes))
    → segment_bytes j (append_bytes id new files)
      ≡ (if j == id then segment_bytes j files ++ new else segment_bytes j files)
unfolding segment_bytes append_bytes
segment_bytes-append_bytes j id new [] = ground arith
segment_bytes-append_bytes j id new ((i, bs) ∷ files) =
    grind (arith, segment_bytes-append_bytes j id new files)

-- what a segment file holds stays there, and what is new comes after it
pub append_bytes-grows :
    (j id : ℕ) (new : Bytes) (files : List (ℕ × Bytes))
    → (more : Bytes) × (segment_bytes j (append_bytes id new files) ≡ segment_bytes j files ++ more)
append_bytes-grows j id new files = elim (Bool-cases (j == id)) [
  | inl same ↦ (new, segment_bytes-append_bytes j id new files ∙ rw (same, if◌then◌else◌) refl)
  | inr other ↦ (
    [],
    segment_bytes-append_bytes j id new files
        ∙ rw (other, if◌then◌else◌) (sym (append-nil (segment_bytes j files))),
  )
]

module _ (format : PayloadFormat) where
  -- The frame of `r` stands in the file at the pointer's offset.
  pub record StandsAt (file : Bytes) (p : LogPointer) (r : Record) : Type 0 where
    pub before : Bytes
    pub after : Bytes
    pub holds : file ≡ before ++ (frame_of format r ++ after)
    pub offset : p.file_offset ≡ length before

  pub StandsAt-grows :
      (file more : Bytes) (p : LogPointer) (r : Record)
      → StandsAt file p r
      → StandsAt (file ++ more) p r
  StandsAt-grows file more p r h = record {
    before = h.before;
    after = h.after ++ more;
    holds = rw h.holds (
        rw
          (
            append_assoc h.before (frame_of format r ++ h.after) more,
            append_assoc (frame_of format r) h.after more,
          )
          refl);
    offset = h.offset;
  }

  module _ (P : SkipMap Bytes LogPointer name_key) (T : SkipMap Stamp LogPointer stamp_key) where
    -- Every pointer of the primary index points at a frame of a record with the key that it stands
    -- under.
    abbrev pub IsIndexed : List (ℕ × Bytes) → Index P T → Type 0
    IsIndexed files ix =
        (k : Bytes) (p : LogPointer)
        → P.get k ix.skipmap ≡ some p
        → (r : Record) × (record_key r ≡ k) × StandsAt (segment_bytes p.segment_id files) p r

    pub IsIndexed-grows :
        (id : ℕ) (new : Bytes) (files : List (ℕ × Bytes)) (ix : Index P T)
        → IsIndexed files ix
        → IsIndexed (append_bytes id new files) ix
    IsIndexed-grows id new files ix h k p e =
        let found = h k p e in
        let grown = append_bytes-grows p.segment_id id new files in
        (
          found.0,
          found.1,
          rw grown.1 (StandsAt-grows (segment_bytes p.segment_id files) grown.0 p found.0 found.2),
        )

    remove_key-IsIndexed :
        (r : Record) (files : List (ℕ × Bytes)) (ix : Index P T)
        → IsIndexed files ix
        → IsIndexed files (remove_key P T r ix)
    remove_key-IsIndexed r files ix h k p e = elim (Bool-cases (bytes_eq k (record_key r))) [
      | inl same ↦ absurd (ground (arith, e, get-remove_key P T r ix k, same))
      | inr other ↦ h k p (sym (rw (other, if◌then◌else◌) at (get-remove_key P T r ix k)) ∙ e)
    ]

    insert_key-IsIndexed :
        (r : Record) (q : LogPointer) (files : List (ℕ × Bytes)) (ix : Index P T)
        → StandsAt (segment_bytes q.segment_id files) q r
        → IsIndexed files ix
        → IsIndexed files (insert_key P T r q ix)
    insert_key-IsIndexed r q files ix s h k p e = elim (Bool-cases (bytes_eq k (record_key r))) [
      | inl same ↦ (
        r,
        sym ((bytes_eq_iff k (record_key r)).0 same),
        subst (λ x. StandsAt (segment_bytes x.segment_id files) x r) (found same) s,
      )
      | inr other ↦ h k p (sym (rw (other, if◌then◌else◌) at (get-insert_key P T r q ix k)) ∙ e)
    ]
      where
        found : bytes_eq k (record_key r) ≡ true → q ≡ p
        found same = cc (e, rw (same, if◌then◌else◌) at (get-insert_key P T r q ix k))

    module _ (segment : ℕ) (files : List (ℕ × Bytes)) (after : Bytes) where
      -- The frames of the records still to be indexed stand in the segment from the offset `n` on,
      -- and `after` follows them.
      pub record IsAhead (ps : List Pending) (n : ℕ) (ix : Index P T) : Type 0 where
        pub indexed : IsIndexed files ix
        pub before : Bytes
        pub holds : segment_bytes segment files ≡ before ++ (frames_of format ps ++ after)
        pub offset : n ≡ length before
        pub measured : All (IsMeasured format) ps

      index_record-IsIndexed :
          (p : Pending) (t : Bool) (n : ℕ) (ix : Index P T)
          → StandsAt (segment_bytes segment files) (pointer_to P T segment p.written n) p.written
          → IsIndexed files ix
          → IsIndexed files (index_record P T segment (record p { is_tombstone = t }) n ix)
      unfolding index_record
      index_record-IsIndexed p true n ix s h = remove_key-IsIndexed p.written files ix h
      index_record-IsIndexed p false n ix s h =
          insert_key-IsIndexed p.written (pointer_to P T segment p.written n) files ix s h

      pub index_record-IsAhead :
          (t : Bool) (p : Pending) (ps : List Pending) (n : ℕ) (ix : Index P T)
          → IsAhead (p ∷ ps) n ix
          → IsAhead ps
              (n + p.frame_len)
              (index_record P T segment (record p { is_tombstone = t }) n ix)
      index_record-IsAhead t p ps n ix h = record {
        indexed =
            index_record-IsIndexed p t n ix
              (record {
                before = h.before;
                after = frames_of format ps ++ after;
                holds =
                    h.holds
                    ∙ ap (λ x. h.before ++ x)
                        (append_assoc (frame_of format p.written) (frames_of format ps) after);
                offset = h.offset;
              })
              h.indexed;
        before = h.before ++ frame_of format p.written;
        holds =
            h.holds
            ∙ rw
                (
                  append_assoc (frame_of format p.written) (frames_of format ps) after,
                  append_assoc h.before (frame_of format p.written) (frames_of format ps ++ after),
                )
                refl;
        offset =
            omega
              (arith, h.offset, h.measured.0, length-append h.before (frame_of format p.written));
        measured = h.measured.1;
      }
