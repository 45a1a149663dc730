-- ===== src/Storage/Flusher/Steps.antt =====
-- An induction rule for the completion of a batch: what each record keeps, all of them keep.
use liven.Prelude.{ℕ, zero, suc, false, ◌≤◌, ◌≡◌, arith, length, List, [], ◌∷◌, ◌++◌, ◌+◌}
use liven.Bytes.{Bytes}
use liven.Types.{LogPointer, Record}
use liven.Storage.SkipMap.{SkipMap}
use liven.Storage.Index.{Index}
use liven.Storage.Index.Keys.{name_key, stamp_key, Stamp}
use liven.Storage.Flusher.{Pending, PendingComplete, single, replace, batch}
use liven.Storage.Flusher.Built.{awaits, awaited}
use liven.Storage.Flusher.Complete.{
  Completion, index_record, complete_record, complete_records, complete_one, complete_all,
}

-- How many records a response takes off the list.
module _ (P : SkipMap Bytes LogPointer name_key) (T : SkipMap Stamp LogPointer stamp_key)
    (segment : ℕ) where
  complete_records_counts :
      (count : ℕ) (ps : List Pending) (added : List Record) (c : Completion P T)
      → count ≤ length ps
      → length (complete_records P T segment count ps added c).1 + count ≡ length ps
  unfolding complete_records
  complete_records_counts zero ps added c h = omega arith
  complete_records_counts (suc n) [] added c h = absurd (omega (arith, h))
  complete_records_counts (suc n) (p ∷ ps) added c h = omega (
    arith,
    complete_records_counts n ps (added ++ (p.written ∷ [])) (complete_record P T segment p c)
        (omega (arith, h)),
  )

  complete_one_counts :
      (k : PendingComplete) (ps : List Pending) (c : Completion P T)
      → awaits k ≤ length ps
      → length (complete_one P T segment k ps c).0 + awaits k ≡ length ps
  unfolding complete_one
  complete_one_counts (single tx) [] c h = absurd (omega (arith, h))
  complete_one_counts (single tx) (p ∷ ps) c h = omega arith
  complete_one_counts (replace tx) [] c h = absurd (omega (arith, h))
  complete_one_counts (replace tx) (p ∷ ps) c h = omega arith
  complete_one_counts (batch tx count) ps c h = complete_records_counts count ps [] c h

-- a statement about the records still to be done, the offset of the next one, and the indexes
module _ (P : SkipMap Bytes LogPointer name_key) (T : SkipMap Stamp LogPointer stamp_key)
    (segment : ℕ) (Q : List Pending → ℕ → Index P T → Type 0)
    (step : (p : Pending) (ps : List Pending) (n : ℕ) (ix : Index P T)
      → Q (p ∷ ps) n ix
      → Q ps (n + p.frame_len) (index_record P T segment p n ix))
    (replaced : (p : Pending) (ps : List Pending) (n : ℕ) (ix : Index P T)
      → Q (p ∷ ps) n ix
      → Q ps
          (n + p.frame_len)
          (index_record P T segment (record p { is_tombstone = false }) n ix)) where
  abbrev At : List Pending → Completion P T → Type 0
  At ps c = Q ps c.offset_acc c.index

  complete_records_keeps :
      (count : ℕ) (ps : List Pending) (added : List Record) (c : Completion P T)
      → At ps c
      → At
          (complete_records P T segment count ps added c).1
          (complete_records P T segment count ps added c).2
  unfolding complete_records
  complete_records_keeps zero ps added c h = h
  complete_records_keeps (suc n) [] added c h = complete_records_keeps n [] added c h
  complete_records_keeps (suc n) (p ∷ ps) added c h =
      complete_records_keeps n ps (added ++ (p.written ∷ [])) (complete_record P T segment p c)
        (step p ps c.offset_acc c.index h)

  complete_one_keeps :
      (k : PendingComplete) (ps : List Pending) (c : Completion P T)
      → At ps c
      → At (complete_one P T segment k ps c).0 (complete_one P T segment k ps c).1
  unfolding complete_one
  complete_one_keeps (single tx) [] c h = h
  complete_one_keeps (single tx) (p ∷ ps) c h = step p ps c.offset_acc c.index h
  complete_one_keeps (replace tx) [] c h = h
  complete_one_keeps (replace tx) (p ∷ ps) c h = replaced p ps c.offset_acc c.index h
  complete_one_keeps (batch tx count) ps c h = complete_records_keeps count ps [] c h

  -- for some rest of the records
  pub complete_all_keeps :
      (ks : List PendingComplete) (ps : List Pending) (c : Completion P T)
      → At ps c
      → (left : List Pending) × At left (complete_all P T segment ks ps c)
  unfolding complete_all
  complete_all_keeps [] ps c h = (ps, h)
  complete_all_keeps (k ∷ ks) ps c h =
      complete_all_keeps ks (complete_one P T segment k ps c).0 (complete_one P T segment k ps c).1
        (complete_one_keeps k ps c h)

  -- with a response for every record, none is left
  pub complete_all_ends :
      (ks : List PendingComplete) (ps : List Pending) (c : Completion P T)
      → awaited ks ≡ length ps
      → At ps c
      → At [] (complete_all P T segment ks ps c)
  unfolding complete_all
  complete_all_ends [] [] c e h = h
  complete_all_ends [] (p ∷ ps) c e h = absurd (omega (arith, e))
  complete_all_ends (k ∷ ks) ps c e h =
      complete_all_ends ks (complete_one P T segment k ps c).0 (complete_one P T segment k ps c).1
        (omega (arith, e, complete_one_counts P T segment k ps c (omega (arith, e))))
        (complete_one_keeps k ps c h)
