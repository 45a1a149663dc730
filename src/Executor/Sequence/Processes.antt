-- ===== src/Executor/Sequence/Processes.antt =====
-- What one record does to the sequence automaton, on every branch of `process`.
use liven.Prelude.{
  suc, ◌<◌, ◌≡◌, refl, true, false, Bool-cases, inl, inr, none, some, ◌≤◌, take_all, ◌∙◌, List, [],
  ◌∷◌, ◌++◌, arith, length, if◌then◌else◌, leb, ◌==◌,
}
use liven.Prelude.Subsequence.{
  Subsequence-nil, Subsequence-refl, Subsequence-left, Subsequence-right,
}
use liven.Types.{FilterExpr, Record}
use liven.Executor.Filter.{FilterLibrary, evaluate_filter_expr}
use liven.Executor.Sequence.{
  SequenceMatcher, reset, step_at, process, expired, first_step, restart, next_step, open_window,
  advance, last_match,
}
use liven.Executor.Sequence.Matches.{
  last_match-append, step_at-some, IsTime, IsMatching, Completes, Processed, ProcessesTo,
  Matches-step, Matches-last, silent, reset-IsMatching, length-partial, opened-IsMatching,
  advance-IsMatching, InTime-expired,
}

module _ (lib : FilterLibrary) (m : SequenceMatcher) (r : Record) (v : IsMatching lib m)
    (time : IsTime r) where
  empty : (rs : List Record) → length rs ≡ 0 → rs ≡ []
  empty [] e = refl
  empty (q ∷ rs) e = absurd (omega (arith, e))

  -- The record completes the pattern only if it passes the next filter and that is the last.
  Completes-last :
      (s : FilterExpr)
      → step_at m.steps m.current_step ≡ some s
      → Completes lib m r
      → (evaluate_filter_expr lib r s ≡ true) × (length m.steps ≡ suc m.current_step)
  Completes-last s at c =
      Matches-last lib m.steps m.current_step s m.partial_matches r at v.found c.0

  reset-silent :
      (m' : SequenceMatcher)
      → m'.steps ≡ m.steps
      → m'.within_ms ≡ m.within_ms
      → ¬ Completes lib m r
      → Processed lib m r none (reset m')
  unfolding reset
  reset-silent m' e w fails =
      silent lib m r v time (reset m')
        (reset-IsMatching lib m' (rw e (omega (arith, v.next))) (rw w v.within)) e w
        (Subsequence-nil (m.partial_matches ++ (r ∷ []))) fails

  unchanged : ¬ Completes lib m r → Processed lib m r none m
  unchanged fails =
      silent lib m r v time m v refl refl (Subsequence-right m.partial_matches (r ∷ [])) fails

  first_step-Processes :
      (s : FilterExpr)
      → step_at m.steps 0 ≡ some s
      → m.current_step ≡ 0
      → ProcessesTo lib m r (first_step lib m r (step_at m.steps 0))
  first_step-Processes s at z = rw at (elim (Bool-cases (evaluate_filter_expr lib r s)) [
    | inr fails ↦ rw (fails, if◌then◌else◌) (unchanged (λ c. cc ((Completes-last s at_next c).0)))
    | inl holds ↦ elim (Bool-cases (leb (length m.steps) 1)) [
      | inl single ↦
          rw (holds, single, if◌then◌else◌)
            (reset-silent (open_window lib m r) refl refl (λ c. ground (arith, single, c.2)))
      | inr more ↦
          rw (holds, more, if◌then◌else◌)
            (silent lib m r v time (open_window lib m r)
              (opened-IsMatching lib m r v time s at holds (ground (arith, more)) m.partial_matches
                nothing_yet)
              refl refl (Subsequence-refl (m.partial_matches ++ (r ∷ [])))
              (λ c. ground (arith, more, z, (Completes-last s at_next c).1)))
    ]
  ])
    where
      at_next : step_at m.steps m.current_step ≡ some s
      at_next = rw z at

      nothing_yet : m.partial_matches ≡ []
      nothing_yet = empty m.partial_matches (length-partial lib m r v time ∙ z)

  restart-Processes :
      (s : FilterExpr)
      → step_at m.steps 0 ≡ some s
      → 0 < m.current_step
      → expired lib m r ≡ true
      → ProcessesTo lib m r (restart lib (reset m) r (step_at m.steps 0))
  unfolding reset
  restart-Processes s at later late = rw at (elim (Bool-cases (evaluate_filter_expr lib r s)) [
    | inr fails ↦ rw (fails, if◌then◌else◌) (reset-silent m refl refl too_late)
    | inl holds ↦
        rw (holds, if◌then◌else◌)
          (silent lib m r v time (open_window lib (reset m) r)
            (opened-IsMatching lib m r v time s at holds (omega (arith, v.next)) [] refl) refl refl
            (Subsequence-left m.partial_matches (r ∷ [])) too_late)
  ])
    where
      too_late : ¬ Completes lib m r
      too_late c = let open_still = (InTime-expired lib m r v time later).1 c.1 in cc (open_still)

  -- the record that is the last of a match
  completed :
      (s : FilterExpr)
      → step_at m.steps m.current_step ≡ some s
      → 0 < m.current_step
      → evaluate_filter_expr lib r s ≡ true
      → expired lib m r ≡ false
      → length m.steps ≤ suc m.current_step
      → Processed lib m r (last_match (m.partial_matches ++ (r ∷ []))) (reset (advance lib m r))
  unfolding reset
  completed s at later holds early last = record {
    matching = reset-IsMatching lib (advance lib m r) (omega (arith, v.next)) v.within;
    steps = refl;
    same_window = refl;
    kept = Subsequence-nil (m.partial_matches ++ (r ∷ []));
    emitted = inl (
      (
        rw (take_all (suc m.current_step) m.steps last) at
            (Matches-step lib m.steps m.current_step s m.partial_matches r at holds v.found),
        (InTime-expired lib m r v time later).0 early,
        omega (arith, later, v.next),
      ),
      last_match-append m.partial_matches r,
      refl,
    );
  }

  next_step-Processes :
      (s : FilterExpr)
      → step_at m.steps m.current_step ≡ some s
      → 0 < m.current_step
      → expired lib m r ≡ false
      → ProcessesTo lib m r (next_step lib m r (step_at m.steps m.current_step))
  next_step-Processes s at later early = rw at (elim (Bool-cases (evaluate_filter_expr lib r s)) [
    | inr fails ↦ rw (fails, if◌then◌else◌) (unchanged (λ c. cc ((Completes-last s at c).0)))
    | inl holds ↦ elim (Bool-cases (leb (length m.steps) (suc m.current_step))) [
      | inl last ↦
          rw (holds, last, if◌then◌else◌) (completed s at later holds early (ground (arith, last)))
      | inr more ↦
          rw (holds, more, if◌then◌else◌)
            (silent lib m r v time (advance lib m r)
              (advance-IsMatching lib m r v time s at holds
                ((InTime-expired lib m r v time later).0 early) (ground (arith, more)) later)
              refl refl (Subsequence-refl (m.partial_matches ++ (r ∷ [])))
              (λ c. ground (arith, more, (Completes-last s at c).1)))
    ]
  ])

  -- An automaton whose partial match is one of the steps before the next, in its window, does not
  -- panic on a record. It is such an automaton afterwards, with the same pattern, and its partial
  -- match is a subsequence of the one before and the record. The record is emitted, and the partial
  -- match dropped, exactly when with it the partial match is one of all steps, of which there are
  -- two or more: each record passes the filter of its step, and none is later than the window
  -- allows after the first. Otherwise nothing is emitted. The record's time is in the range of an
  -- i64 from 1970 on, and the length of the window fits in 63 bits.
  pub process-ProcessesTo : ProcessesTo lib m r (process lib m r)
  unfolding process
  process-ProcessesTo = elim (Bool-cases (m.current_step == 0)) [
    | inl none_yet ↦
        rw (none_yet, if◌then◌else◌)
          (first_step-Processes first.0 first.1 (ground (arith, none_yet)))
    | inr some_found ↦ elim (Bool-cases (expired lib m r)) [
      | inl late ↦
          rw (some_found, late, if◌then◌else◌)
            (restart-Processes first.0 first.1 (ground (arith, some_found)) late)
      | inr in_time ↦
          rw (some_found, in_time, if◌then◌else◌)
            (next_step-Processes next.0 next.1 (ground (arith, some_found)) in_time)
    ]
  ]
    where
      first : (e : FilterExpr) × (step_at m.steps 0 ≡ some e)
      first = step_at-some m.steps 0 (omega (arith, v.next))

      next : (e : FilterExpr) × (step_at m.steps m.current_step ≡ some e)
      next = step_at-some m.steps m.current_step v.next
