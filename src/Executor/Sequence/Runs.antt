-- ===== src/Executor/Sequence/Runs.antt =====
-- Patterns of a single step.
use liven.Prelude.{
  ◌<◌, ◌≡◌, refl, true, none, some, List, [], ◌∷◌, arith, length, Bool-cases, inl, inr,
  if◌then◌else◌, leb, ◌==◌,
}
use liven.Types.{FilterExpr, Record}
use liven.Executor.Filter.{FilterLibrary, evaluate_filter_expr}
use liven.Executor.Sequence.{SequenceMatcher, reset, step_at, process, run, open_window}
use liven.Executor.Sequence.Matches.{step_at-some}

-- The step to find next is one of the pattern's, and the partial match has the steps before it.
pub record IsValid (m : SequenceMatcher) : Type 0 where
  pub next : m.current_step < length m.steps
  pub partial : length m.partial_matches ≡ m.current_step

module _ (lib : FilterLibrary) where
  -- a record that leaves the automaton as it was, but for the start of the window
  record Silent (m : SequenceMatcher) (r : Record) : Type 0 where
    after : SequenceMatcher
    processes : process lib m r ≡ some (none, after)
    valid : IsValid after
    steps : after.steps ≡ m.steps

  process-Silent : (m : SequenceMatcher) (r : Record) → IsValid m → length m.steps ≡ 1 → Silent m r
  unfolding process reset
  process-Silent m r v one = elim (Bool-cases (evaluate_filter_expr lib r first.0)) [
    | inr fails ↦ record {
      after = m;
      processes = rw (none_yet, first.1, fails, if◌then◌else◌) refl;
      valid = v;
      steps = refl;
    }
    | inl holds ↦ record {
      after = reset (open_window lib m r);
      processes = rw (none_yet, first.1, holds, single, if◌then◌else◌) refl;
      valid = record { next = omega (arith, one); partial = refl };
      steps = refl;
    }
  ]
    where
      first : (e : FilterExpr) × (step_at m.steps 0 ≡ some e)
      first = step_at-some m.steps 0 (omega (arith, one))

      none_yet : (m.current_step == 0) ≡ true
      none_yet = ground (arith, v.next, one)

      single : leb (length m.steps) 1 ≡ true
      single = ground (arith, one)

  -- A pattern of a single step never emits a record: from a valid automaton with one step, the run
  -- over any records ends without a panic and with no result.
  pub run-single :
      (m : SequenceMatcher) (rs : List Record)
      → IsValid m
      → length m.steps ≡ 1
      → run lib m rs ≡ some []
  unfolding run
  run-single m [] v one = refl
  run-single m (r ∷ rs) v one =
      let s = process-Silent m r v one in
      rw (s.processes, run-single s.after rs s.valid (rw s.steps one)) refl
