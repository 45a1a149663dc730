-- ===== src/Executor/Sequence.antt =====
-- `SequenceMatcher` (src/executor.rs): an automaton that finds the steps of a pattern in order, in a
-- window of time from the first of them. A result `none` is a panic (an index out of bounds).
pub mod Runs
pub mod Matches
pub mod Processes
pub mod Finds
use liven.Prelude.{
  ℕ, zero, suc, ◌+◌, Bool, true, false, Option, none, some, List, [], ◌∷◌, ◌++◌, ℤ, pos, ◌-ℤ◌,
  ltb_ℤ, leb, ltb, ◌==◌, if◌then◌else◌, length,
}
use liven.Bytes.{i64_bits, i64_of_bits}
use liven.Types.{FilterExpr, Record}
use liven.Executor.Filter.{FilterLibrary, evaluate_filter_expr}

pub record SequenceMatcher : Type 0 where
  pub steps : List FilterExpr
  pub current_step : ℕ
  pub window_start_ms : ℤ
  pub within_ms : ℕ
  pub partial_matches : List Record

unfoldable pub new : List FilterExpr → ℕ → SequenceMatcher
new steps within_ms = record {
  steps = steps;
  current_step = 0;
  window_start_ms = pos 0;
  within_ms = within_ms;
  partial_matches = [];
}

unfoldable pub reset : SequenceMatcher → SequenceMatcher
reset m = record m { current_step = 0; window_start_ms = pos 0; partial_matches = [] }

-- `steps[i]`
unfoldable pub step_at : List FilterExpr → ℕ → Option FilterExpr
step_at [] i = none
step_at (s ∷ steps) zero = some s
step_at (s ∷ steps) (suc i) = step_at steps i

abbrev pub last_match : List Record → Option Record
last_match [] = none
last_match (r ∷ rs) = elim rs [ [] ↦ some r | _ ∷ _ ↦ last_match rs ]

-- What one record does: a panic, or what is emitted and the next state.
abbrev pub Outcome : Type 0
Outcome = Option (Option Record × SequenceMatcher)

module _ (lib : FilterLibrary) where
  abbrev pub advance : SequenceMatcher → Record → SequenceMatcher
  advance m r = record m {
    current_step = suc m.current_step;
    partial_matches = m.partial_matches ++ (r ∷ []);
  }

  -- the first step, found at `r`
  abbrev pub open_window : SequenceMatcher → Record → SequenceMatcher
  open_window m r = record m {
    window_start_ms = r.timestamp;
    current_step = 1;
    partial_matches = m.partial_matches ++ (r ∷ []);
  }

  -- in the state with no step found
  abbrev pub first_step : SequenceMatcher → Record → Option FilterExpr → Outcome
  first_step m r none = none
  first_step m r (some expr) =
      if evaluate_filter_expr lib r expr
      then (let m' = open_window m r in
          if leb (length m.steps) m'.current_step then some (none, reset m') else some (none, m'))
      else some (none, m)

  -- after the window has run out
  abbrev pub restart : SequenceMatcher → Record → Option FilterExpr → Outcome
  restart m r none = none
  restart m r (some expr) =
      if evaluate_filter_expr lib r expr then some (none, open_window m r) else some (none, m)

  -- a further step
  abbrev pub next_step : SequenceMatcher → Record → Option FilterExpr → Outcome
  next_step m r none = none
  next_step m r (some expr) =
      if evaluate_filter_expr lib r expr
      then (let m' = advance m r in
          if leb (length m.steps) m'.current_step
          then some (last_match m'.partial_matches, reset m')
          else some (none, m'))
      else some (none, m)

  -- `record.timestamp - self.window_start_ms > self.within_ms as i64`, where the difference wraps
  -- as in a release build
  abbrev pub expired : SequenceMatcher → Record → Bool
  expired m r =
      ltb_ℤ (i64_of_bits m.within_ms) (i64_of_bits (i64_bits (r.timestamp -ℤ m.window_start_ms)))

  unfoldable pub process : SequenceMatcher → Record → Outcome
  unfolding reset step_at
  process m r =
      if m.current_step == 0
      then first_step m r (step_at m.steps 0)
      else if expired m r
      then restart (reset m) r (step_at m.steps 0)
      else next_step m r (step_at m.steps m.current_step)

  abbrev pub keep_emitted : Option Record → List Record → List Record
  keep_emitted none rs = rs
  keep_emitted (some r) rs = r ∷ rs

  abbrev pub collect : Option Record → Option (List Record) → Option (List Record)
  collect out none = none
  collect out (some found) = some (keep_emitted out found)

  abbrev pub and_rest : Outcome → (SequenceMatcher → Option (List Record)) → Option (List Record)
  and_rest none k = none
  and_rest (some (out, m')) k = collect out (k m')

  -- the loop of the `Sequence` stage over the records in timestamp order: the completed records
  unfoldable pub run : SequenceMatcher → List Record → Option (List Record)
  run m [] = some []
  run m (r ∷ rs) = and_rest (process m r) (λ m'. run m' rs)
