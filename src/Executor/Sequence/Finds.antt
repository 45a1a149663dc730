-- ===== src/Executor/Sequence/Finds.antt =====
-- What a run of the sequence automaton finds.
use mathlib.Core.Path.{subst}
use liven.Prelude.{
  ℕ, ◌<◌, ◌^◌, ◌≡◌, refl, ap, inl, inr, Option, none, some, List, [], ◌∷◌, ◌++◌, map, append_assoc,
  All, concat_map, length,
}
use liven.Prelude.Subsequence.{
  Subsequence, Subsequence-nil, Subsequence-refl, Subsequence-append, Subsequence-trans,
}
use liven.Types.{FilterExpr, Record}
use liven.Executor.Filter.{FilterLibrary}
use liven.Executor.Sequence.{SequenceMatcher, new, process, run, Outcome, and_rest, collect}
use liven.Executor.Sequence.Matches.{IsTime, InTime, Matches, IsMatching, ProcessesTo}
use liven.Executor.Sequence.Processes.{process-ProcessesTo}

-- the records of an occurrence, of which the last is apart
abbrev pub with_last : List Record × Record → List Record
with_last o = o.0 ++ (o.1 ∷ [])

module _ (lib : FilterLibrary) (steps : List FilterExpr) (within_ms : ℕ) where
  -- The results are the last records of occurrences of the pattern, which stand in the records one
  -- after the other.
  pub record Occurrences (records found : List Record) : Type 0 where
    occurrences : List (List Record × Record)
    each : All (λ o. Matches lib steps (with_last o) × InTime within_ms (with_last o)) occurrences
    lasts : map (λ o. o.1) occurrences ≡ found
    apart : Subsequence (concat_map with_last occurrences) records

  -- no panic, and such results
  abbrev pub Finds : List Record → Option (List Record) → Type 0
  Finds records none = ⊥
  Finds records (some found) = Occurrences records found

  Finds-none :
      (records : List Record) {less : List Record} (o : Option (List Record))
      → Subsequence less records
      → Finds less o
      → Finds records (collect lib none o)
  Finds-none records none h f = f
  Finds-none records (some found) h f = record {
    occurrences = f.occurrences;
    each = f.each;
    lasts = f.lasts;
    apart = Subsequence-trans h f.apart;
  }

  Finds-some :
      (partial : List Record) (r : Record) (rs : List Record) (o : Option (List Record))
      → Matches lib steps (partial ++ (r ∷ [])) × InTime within_ms (partial ++ (r ∷ []))
      → Finds rs o
      → Finds ((partial ++ (r ∷ [])) ++ rs) (collect lib (some r) o)
  Finds-some partial r rs none h f = f
  Finds-some partial r rs (some found) h f = record {
    occurrences = (partial, r) ∷ f.occurrences;
    each = (h, f.each);
    lasts = ap (λ l. r ∷ l) f.lasts;
    apart =
        Subsequence-append (concat_map with_last f.occurrences) rs
          (Subsequence-refl (partial ++ (r ∷ []))) f.apart;
  }

module _ (lib : FilterLibrary) where
  Finds-same :
      (steps steps' : List FilterExpr) (within_ms within_ms' : ℕ) (records records' : List Record)
      (o : Option (List Record))
      → steps' ≡ steps
      → within_ms' ≡ within_ms
      → records' ≡ records
      → Finds lib steps' within_ms' records' o
      → Finds lib steps within_ms records o
  Finds-same steps steps' within_ms within_ms' records records' o e w r h = rw (e, w, r) at h

  -- what a matching automaton finds in the records of its partial match and those to come
  run-more :
      (m : SequenceMatcher) (rs : List Record)
      → IsMatching lib m
      → All IsTime rs
      → Finds lib m.steps m.within_ms (m.partial_matches ++ rs) (run lib m rs)
  unfolding run
  run-more m [] v times = record {
    occurrences = [];
    each = tt;
    lasts = refl;
    apart = Subsequence-nil (m.partial_matches ++ []);
  }
  run-more m (r ∷ rs) v times =
      subst
        (λ l.
          Finds lib m.steps m.within_ms l (and_rest lib (process lib m r) (λ m'. run lib m' rs)))
        (append_assoc m.partial_matches (r ∷ []) rs)
        (go (process lib m r) (process-ProcessesTo lib m r v times.0)
          (λ m' h. run-more m' rs h times.1))
    where
      go :
          (o : Outcome)
          → ProcessesTo lib m r o
          → ((m' : SequenceMatcher)
              → IsMatching lib m'
              → Finds lib m'.steps m'.within_ms (m'.partial_matches ++ rs) (run lib m' rs))
          → Finds lib m.steps m.within_ms
              ((m.partial_matches ++ (r ∷ [])) ++ rs)
              (and_rest lib o (λ m'. run lib m' rs))
      go none h rest = absurd h
      go (some (out, m')) h rest = elim h.emitted [
        | inl (c, e, dropped) ↦ rw e (
            Finds-some lib m.steps m.within_ms m.partial_matches r rs (run lib m' rs) (c.0, c.1)
              (Finds-same m.steps m'.steps m.within_ms m'.within_ms rs (m'.partial_matches ++ rs)
                (run lib m' rs) h.steps h.same_window (ap (λ l. l ++ rs) dropped)
                (rest m' h.matching)))
        | inr (c, e) ↦ rw e (
            Finds-none lib m.steps m.within_ms ((m.partial_matches ++ (r ∷ [])) ++ rs)
              (run lib m' rs) (Subsequence-append rs rs h.kept (Subsequence-refl rs))
              (Finds-same m.steps m'.steps m.within_ms m'.within_ms (m'.partial_matches ++ rs)
                (m'.partial_matches ++ rs) (run lib m' rs) h.steps h.same_window refl
                (rest m' h.matching)))
      ]

  -- The run of a new automaton over records with times in the range of an i64 from 1970 on ends
  -- without a panic. Its results, in order, are the last records of occurrences of the pattern:
  -- each has a record for each step that passes the step's filter, and none is later than the
  -- window allows after the first. The occurrences stand in the records one after the other and
  -- share none. The pattern has a step, and the length of the window fits in 63 bits.
  pub run-Finds :
      (steps : List FilterExpr) (within_ms : ℕ) (rs : List Record)
      → 0 < length steps
      → within_ms < 2 ^ 63
      → All IsTime rs
      → Finds lib steps within_ms rs (run lib (new steps within_ms) rs)
  unfolding new
  run-Finds steps within_ms rs some_steps within times =
      run-more (new steps within_ms) rs
        (record { next = some_steps; found = tt; in_time = tt; opens = tt; within = within }) times
