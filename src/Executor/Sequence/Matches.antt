-- ===== src/Executor/Sequence/Matches.antt =====
-- What the sequence automaton has matched: when a record completes a pattern, apart from the code.
use liven.Prelude.{
  ℕ, zero, suc, ◌^◌, ◌<◌, ◌≡◌, ◌⊎◌, ◌↔◌, refl, ap, true, false, inr, Option, none, some, List, [],
  ◌∷◌, ◌++◌, ℤ, pos, negsuc, ◌+ℤ◌, ◌≤ℤ◌, ◌<ℤ◌, ◌-ℤ◌, ltb_ℤ, arith, length, length-take, take, All,
  All-append, All-split,
}
use liven.Prelude.Subsequence.{Subsequence}
use liven.Bytes.{i64_bits, i64_of_bits}
use liven.Types.{FilterExpr, Record}
use liven.Executor.Filter.{FilterLibrary, evaluate_filter_expr}
use liven.Executor.Sequence.{SequenceMatcher, reset, step_at, expired, Outcome, advance, last_match}

pub last_match-append : (rs : List Record) (r : Record) → last_match (rs ++ (r ∷ [])) ≡ some r
last_match-append [] r = refl
last_match-append (q ∷ []) r = refl
last_match-append (q ∷ p ∷ rs) r = last_match-append (p ∷ rs) r

pub step_at-some :
    (steps : List FilterExpr) (i : ℕ)
    → i < length steps
    → (e : FilterExpr) × (step_at steps i ≡ some e)
unfolding step_at
step_at-some [] i h = absurd (omega arith)
step_at-some (s ∷ steps) zero h = (s, refl)
step_at-some (s ∷ steps) (suc i) h = step_at-some steps i (omega arith)

-- a time from 1970 on that an i64 holds
abbrev pub IsTime : Record → Type 0
IsTime r = (pos 0 ≤ℤ r.timestamp) × (r.timestamp <ℤ pos (2 ^ 63))

-- no record is more than that many milliseconds after the first
abbrev pub InTime : ℕ → List Record → Type 0
InTime within_ms [] = Unit
InTime within_ms (r ∷ rs) = All (λ q. q.timestamp ≤ℤ r.timestamp +ℤ pos within_ms) rs

-- the window starts with the first record, whose time is in range
abbrev pub Opens : ℤ → List Record → Type 0
Opens start [] = Unit
Opens start (r ∷ rs) = (start ≡ r.timestamp) × IsTime r

-- the wrapped difference of times in range is their difference
numbers :
    (within_ms : ℕ) (start time : ℤ)
    → within_ms < 2 ^ 63
    → (pos 0 ≤ℤ start) × (start <ℤ pos (2 ^ 63))
    → (pos 0 ≤ℤ time) × (time <ℤ pos (2 ^ 63))
    → (ltb_ℤ (i64_of_bits within_ms) (i64_of_bits (i64_bits (time -ℤ start))) ≡ false)
      ↔ (time ≤ℤ start +ℤ pos within_ms)
unfolding i64_of_bits i64_bits
numbers within_ms (pos a) (pos b) small h k = (λ e. ground (arith, e), λ e. ground (arith, e))
numbers within_ms (negsuc a) time small h k = absurd (omega (arith, h.0))
numbers within_ms (pos a) (negsuc b) small h k = absurd (omega (arith, k.0))

module _ (lib : FilterLibrary) where
  -- the records pass the filters, each its own
  abbrev pub Matches : List FilterExpr → List Record → Type 0
  Matches [] [] = Unit
  Matches [] (r ∷ rs) = ⊥
  Matches (s ∷ steps) [] = ⊥
  Matches (s ∷ steps) (r ∷ rs) = (evaluate_filter_expr lib r s ≡ true) × Matches steps rs

  pub length-Matches :
      (steps : List FilterExpr) (rs : List Record) → Matches steps rs → length steps ≡ length rs
  length-Matches [] [] h = refl
  length-Matches [] (r ∷ rs) h = absurd h
  length-Matches (s ∷ steps) [] h = absurd h
  length-Matches (s ∷ steps) (r ∷ rs) h = ap suc (length-Matches steps rs h.1)

  -- one more step
  pub Matches-step :
      (steps : List FilterExpr) (i : ℕ) (s : FilterExpr) (rs : List Record) (r : Record)
      → step_at steps i ≡ some s
      → evaluate_filter_expr lib r s ≡ true
      → Matches (take i steps) rs
      → Matches (take (suc i) steps) (rs ++ (r ∷ []))
  unfolding step_at
  Matches-step [] i s rs r at holds h = cc
  Matches-step (t ∷ steps) zero s [] r at holds h = let e : t ≡ s = cc in (rw e holds, tt)
  Matches-step (t ∷ steps) zero s (q ∷ rs) r at holds h = absurd h
  Matches-step (t ∷ steps) (suc i) s [] r at holds h = absurd h
  Matches-step (t ∷ steps) (suc i) s (q ∷ rs) r at holds h =
      (h.0, Matches-step steps i s rs r at holds h.1)

  -- The last of the records that match a pattern passes its last filter.
  pub Matches-last :
      (steps : List FilterExpr) (i : ℕ) (s : FilterExpr) (rs : List Record) (r : Record)
      → step_at steps i ≡ some s
      → Matches (take i steps) rs
      → Matches steps (rs ++ (r ∷ []))
      → (evaluate_filter_expr lib r s ≡ true) × (length steps ≡ suc i)
  unfolding step_at
  Matches-last [] i s rs r at h m = cc
  Matches-last (t ∷ steps) zero s [] r at h m =
      let e : s ≡ t = cc in (rw e m.0, ap suc (length-Matches steps [] m.1))
  Matches-last (t ∷ steps) zero s (q ∷ rs) r at h m = absurd h
  Matches-last (t ∷ steps) (suc i) s [] r at h m = absurd h
  Matches-last (t ∷ steps) (suc i) s (q ∷ rs) r at h m =
      let rest = Matches-last steps i s rs r at h.1 m.1 in (rest.0, ap suc rest.1)

  -- the test of the window, on times in range
  expired-InTime :
      (m : SequenceMatcher) (r : Record)
      → m.within_ms < 2 ^ 63
      → (pos 0 ≤ℤ m.window_start_ms) × (m.window_start_ms <ℤ pos (2 ^ 63))
      → IsTime r
      → (expired lib m r ≡ false) ↔ (r.timestamp ≤ℤ m.window_start_ms +ℤ pos m.within_ms)
  expired-InTime m r within start time =
      numbers m.within_ms m.window_start_ms r.timestamp within start time

  -- The partial match is one of the steps before the next, in the window.
  pub record IsMatching (m : SequenceMatcher) : Type 0 where
    pub next : m.current_step < length m.steps
    pub found : Matches (take m.current_step m.steps) m.partial_matches
    pub in_time : InTime m.within_ms m.partial_matches
    pub opens : Opens m.window_start_ms m.partial_matches
    pub within : m.within_ms < 2 ^ 63

  -- With this record the partial match is one of the whole pattern, of two steps or more, in time.
  abbrev pub Completes : SequenceMatcher → Record → Type 0
  Completes m r =
      Matches m.steps (m.partial_matches ++ (r ∷ []))
      × InTime m.within_ms (m.partial_matches ++ (r ∷ []))
      × (1 < length m.steps)

  -- What one record does to such an automaton.
  pub record Processed (m : SequenceMatcher) (r : Record) (out : Option Record)
      (m' : SequenceMatcher) : Type 0 where
    pub matching : IsMatching m'
    pub steps : m'.steps ≡ m.steps
    pub same_window : m'.within_ms ≡ m.within_ms
    pub kept : Subsequence m'.partial_matches (m.partial_matches ++ (r ∷ []))
    pub emitted :
        (Completes m r × (out ≡ some r) × (m'.partial_matches ≡ []))
        ⊎ ((¬ Completes m r) × (out ≡ none))

  -- no panic, and such a result
  abbrev pub ProcessesTo : SequenceMatcher → Record → Outcome → Type 0
  ProcessesTo m r none = ⊥
  ProcessesTo m r (some (out, m')) = Processed m r out m'

  pub reset-IsMatching :
      (m : SequenceMatcher) → 0 < length m.steps → m.within_ms < 2 ^ 63 → IsMatching (reset m)
  unfolding reset
  reset-IsMatching m some_steps within = record {
    next = some_steps;
    found = tt;
    in_time = tt;
    opens = tt;
    within = within;
  }

  module _ (m : SequenceMatcher) (r : Record) (v : IsMatching m) (time : IsTime r) where
    -- nothing is emitted
    pub silent :
        (m' : SequenceMatcher)
        → IsMatching m'
        → m'.steps ≡ m.steps
        → m'.within_ms ≡ m.within_ms
        → Subsequence m'.partial_matches (m.partial_matches ++ (r ∷ []))
        → ¬ Completes m r
        → Processed m r none m'
    silent m' v' e w kept fails = record {
      matching = v';
      steps = e;
      same_window = w;
      kept = kept;
      emitted = inr (fails, refl);
    }

    -- the number of records of a partial match
    pub length-partial : length m.partial_matches ≡ m.current_step
    length-partial = omega (
      arith,
      length-Matches (take m.current_step m.steps) m.partial_matches v.found,
      length-take m.current_step m.steps,
      v.next,
    )

    -- the record as the first of a match
    pub opened-IsMatching :
        (s : FilterExpr)
        → step_at m.steps 0 ≡ some s
        → evaluate_filter_expr lib r s ≡ true
        → 1 < length m.steps
        → (rs : List Record) → rs ≡ []
        → IsMatching (record m {
          window_start_ms = r.timestamp;
          current_step = 1;
          partial_matches = rs ++ (r ∷ []);
        })
    opened-IsMatching s at holds more rs e = record {
      next = more;
      found = rw e (Matches-step m.steps 0 s [] r at holds tt);
      in_time = rw e tt;
      opens = rw e (refl, time);
      within = v.within;
    }

    pub advance-IsMatching :
        (s : FilterExpr)
        → step_at m.steps m.current_step ≡ some s
        → evaluate_filter_expr lib r s ≡ true
        → InTime m.within_ms (m.partial_matches ++ (r ∷ []))
        → suc m.current_step < length m.steps
        → 0 < m.current_step
        → IsMatching (advance lib m r)
    advance-IsMatching s at holds in_time more some_found = record {
      next = more;
      found = Matches-step m.steps m.current_step s m.partial_matches r at holds v.found;
      in_time = in_time;
      opens = still m.partial_matches v.opens (omega (arith, length-partial, some_found));
      within = v.within;
    }
      where
        still :
            (rs : List Record)
            → Opens m.window_start_ms rs
            → 0 < length rs
            → Opens m.window_start_ms (rs ++ (r ∷ []))
        still [] o h = absurd (omega (arith, h))
        still (q ∷ rs) o h = o

    -- whether the window is still open
    pub InTime-expired :
        0 < m.current_step
        → (expired lib m r ≡ false) ↔ InTime m.within_ms (m.partial_matches ++ (r ∷ []))
    InTime-expired some_found =
        at_first m.partial_matches v.opens v.in_time (omega (arith, length-partial, some_found))
      where
        at_first :
            (rs : List Record)
            → Opens m.window_start_ms rs
            → InTime m.within_ms rs
            → 0 < length rs
            → (expired lib m r ≡ false) ↔ InTime m.within_ms (rs ++ (r ∷ []))
        at_first [] o t h = absurd (omega (arith, h))
        at_first (q ∷ rs) o t h =
            let test = expired-InTime m r v.within (rw (o.0) o.1) time in
            (
              λ e.
                  All-append (λ x. x.timestamp ≤ℤ q.timestamp +ℤ pos m.within_ms) rs (r ∷ []) t
                    (rw o.0 at (test.0 e), tt),
              λ all. test.1 (
                  rw o.0 (
                    (All-split (λ x. x.timestamp ≤ℤ q.timestamp +ℤ pos m.within_ms) rs (r ∷ [])
                      all).1.0)),
            )
