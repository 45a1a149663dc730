-- ===== src/Storage/Flusher/Pairs.antt =====
-- Which pending records each response of a batch waits for, and what completing them does to the
-- indexes.
use liven.Prelude.{
  ℕ, zero, suc, ◌+◌, ◌≡◌, refl, sym, ap, ◌∙◌, false, List, [], ◌∷◌, ◌++◌, arith, length,
  append_assoc, append-nil,
}
use liven.Bytes.{Bytes}
use liven.Types.{LogPointer, Record}
use liven.Storage.SkipMap.{SkipMap}
use liven.Storage.Index.{Index}
use liven.Storage.Index.Keys.{name_key, stamp_key, Stamp}
use liven.Storage.Flusher.{Pending, PendingComplete, single, replace, batch}
use liven.Storage.Flusher.Complete.{
  Completion, index_record, complete_record, complete_records, complete_one, complete_all,
}

-- the records that one response waits for
abbrev pub Answers : PendingComplete → List Pending → Type 0
Answers (single tx) ps = (p : Pending) × (ps ≡ p ∷ [])
Answers (replace tx) ps = (p : Pending) × (ps ≡ p ∷ []) × (p.is_tombstone ≡ false)
Answers (batch tx count) ps = length ps ≡ count

-- a list of responses and the records that they wait for, in order
abbrev pub IsPaired : List PendingComplete → List Pending → Type 0
IsPaired [] ps = ps ≡ []
IsPaired (k ∷ ks) ps =
    (qs : List Pending) × (rs : List Pending) × (ps ≡ qs ++ rs) × Answers k qs × IsPaired ks rs

pub IsPaired-append :
    (ks : List PendingComplete) (ps : List Pending) (k : PendingComplete) (qs : List Pending)
    → IsPaired ks ps
    → Answers k qs
    → IsPaired (ks ++ (k ∷ [])) (ps ++ qs)
IsPaired-append [] ps k qs h a = rw h (qs, [], sym (append-nil qs), a, refl)
IsPaired-append (j ∷ ks) ps k qs h a =
    (h.0, h.1 ++ qs, rw h.2 (append_assoc h.0 h.1 qs), h.3, IsPaired-append ks h.1 k qs h.4 a)

module _ (P : SkipMap Bytes LogPointer name_key) (T : SkipMap Stamp LogPointer stamp_key)
    (segment : ℕ) where
  -- indexing the records one after the other, and the offset behind them
  unfoldable pub index_all : List Pending → ℕ → Index P T → Index P T
  index_all [] n ix = ix
  index_all (p ∷ ps) n ix = index_all ps (n + p.frame_len) (index_record P T segment p n ix)

  unfoldable pub end_of : List Pending → ℕ → ℕ
  end_of [] n = n
  end_of (p ∷ ps) n = end_of ps (n + p.frame_len)

  -- a completion that has taken the records `qs` of the list, from `c` on
  record HasTaken (qs rs : List Pending) (c : Completion P T) (left : List Pending)
      (d : Completion P T) : Type 0 where
    left_lem : left ≡ rs
    offset : d.offset_acc ≡ end_of qs c.offset_acc
    index : d.index ≡ index_all qs c.offset_acc c.index

  complete_records-HasTaken :
      (qs rs : List Pending) (added : List Record) (c : Completion P T) (n : ℕ)
      → length qs ≡ n
      → HasTaken qs rs c
          (complete_records P T segment n (qs ++ rs) added c).1
          (complete_records P T segment n (qs ++ rs) added c).2
  unfolding complete_records index_all end_of
  complete_records-HasTaken [] rs added c zero e = record {
    left_lem = refl;
    offset = refl;
    index = refl;
  }
  complete_records-HasTaken [] rs added c (suc n) e = absurd (omega (arith, e))
  complete_records-HasTaken (q ∷ qs) rs added c zero e = absurd (omega (arith, e))
  complete_records-HasTaken (q ∷ qs) rs added c (suc n) e =
      let h =
        complete_records-HasTaken qs rs (added ++ (q.written ∷ []))
          (complete_record P T segment q c) n (omega (arith, e)) in
      record { left_lem = h.left_lem; offset = h.offset; index = h.index }

  complete_one-HasTaken :
      (k : PendingComplete) (qs rs : List Pending) (c : Completion P T)
      → Answers k qs
      → HasTaken qs rs c
          (complete_one P T segment k (qs ++ rs) c).0
          (complete_one P T segment k (qs ++ rs) c).1
  unfolding complete_one index_all end_of
  complete_one-HasTaken (single tx) qs rs c (p, e) =
      rw e (record { left_lem = refl; offset = refl; index = refl })
  complete_one-HasTaken (replace tx) qs rs c (p, e, alive) = rw e (record {
    left_lem = refl;
    offset = refl;
    index =
        ap (λ b. index_record P T segment (record p { is_tombstone = b }) c.offset_acc c.index)
          (sym alive);
  })
  complete_one-HasTaken (batch tx n) qs rs c e =
      let h = complete_records-HasTaken qs rs [] c n e in
      record { left_lem = h.left_lem; offset = h.offset; index = h.index }

  index_all-append :
      (qs rs : List Pending) (n : ℕ) (ix : Index P T)
      → index_all (qs ++ rs) n ix ≡ index_all rs (end_of qs n) (index_all qs n ix)
  unfolding index_all end_of
  index_all-append [] rs n ix = refl
  index_all-append (q ∷ qs) rs n ix =
      index_all-append qs rs (n + q.frame_len) (index_record P T segment q n ix)

  -- Completing a batch indexes its records in order.
  pub complete_all-index :
      (ks : List PendingComplete) (ps : List Pending) (c : Completion P T)
      → IsPaired ks ps
      → (complete_all P T segment ks ps c).index ≡ index_all ps c.offset_acc c.index
  unfolding complete_all
  complete_all-index [] ps c h = rw h nothing
    where
      nothing : c.index ≡ index_all [] c.offset_acc c.index
      nothing = unfold index_all in refl
  complete_all-index (k ∷ ks) ps c (qs, rs, e, a, h) = rw e (
      let d = complete_one P T segment k (qs ++ rs) c in
      let t = complete_one-HasTaken k qs rs c a in
      complete_all-index ks d.0 d.1 (rw t.left_lem h)
      ∙ rw (t.left_lem, t.offset, t.index) (sym (index_all-append qs rs c.offset_acc c.index)))
