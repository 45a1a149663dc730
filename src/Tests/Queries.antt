-- ===== src/Tests/Queries.antt =====
-- Filters and sequences at concrete records.
use liven.Prelude.{
  ◌≡◌, ◌≢◌, ◌↔◌, refl, Bool, true, false, none, some, [], ◌∷◌, pos, pos_part, ◌*◌, ◌/◌, ◌<ℤ◌, arith,
  ltb, ◌==◌,
}
use liven.Bytes.{Bytes, ascii, bytes_eq}
use liven.Types.{DataValue, string, int, uint, FilterExpr, simple, and, Op, Record, PipelineStage}
use liven.Types
use liven.Storage.Key.{as_str, as_bytes, pad}
use liven.Storage.Key.RoundTrip.{key_of}
use liven.Bytes
use liven.Executor.Filter.{FilterLibrary, evaluate_filter_expr, extract_key_from_filter}
use liven.Executor.Filter.Keys.{
  key_is, remaining_stages, extract_key_from_filter-fixes, negated_key, dropped_conjunct,
}
use liven.Executor.TimeRange.{i64_min, has_time_range_filter}
use liven.Executor.TimeRange.Bounds.{before_number, has_time_range_filter-misses}
use liven.Executor.Sequence.{SequenceMatcher, new, process, run}
use liven.Executor.Sequence.Runs.{run-single}
use liven.Executor.Sequence.Matches.{ProcessesTo}
use liven.Executor.Sequence.Processes.{process-ProcessesTo}
use liven.Executor.Sequence.Finds.{Finds, run-Finds}

abbrev values_eq : DataValue → DataValue → Bool
values_eq (string a) (string b) = bytes_eq a b
values_eq _ _ = false

-- numbers by their bits, and no documents
abbrev pub plain : FilterLibrary
plain = record {
  of_i64 = λ i. Bytes.i64_bits i;
  of_u64 = λ u. u;
  f64_eq = λ a b. a == b;
  f64_lt = λ a b. ltb a b;
  value_eq = values_eq;
  value_lt = λ a b. false;
  json_field = λ s f. none;
  msgpack_field = λ s f. none;
}

abbrev pub reading : Record
reading = record {
  sequence_id = 7;
  timestamp = pos 1000;
  type_tag = 5;
  flags = 1;
  stream_name = ascii "a";
  key = key_of (ascii "k");
  value = string (ascii "v");
}

abbrev recent : FilterExpr
recent = simple (ascii "sequence_id") Op.gt (uint 9)

old : evaluate_filter_expr plain reading recent ≡ false
unfolding evaluate_filter_expr bytes_eq
old = refl

extract_key_from_filter-fixes_example : as_str reading.key ≡ ascii "k"
unfolding extract_key_from_filter evaluate_filter_expr bytes_eq as_str as_bytes pad Bytes.is_utf8
extract_key_from_filter-fixes_example =
    extract_key_from_filter-fixes plain (λ a b. refl) reading (key_is (ascii "k")) (ascii "k") tt
      refl refl

negated_key_example :
    (extract_key_from_filter (Types.FilterExpr.not (key_is (ascii "j"))) ≡ some (ascii "j"))
    × ((evaluate_filter_expr plain reading (Types.FilterExpr.not (key_is (ascii "j"))) ≡ true)
        ↔ (as_str reading.key ≢ ascii "j"))
negated_key_example = negated_key plain (λ a b. refl) reading (ascii "j")

dropped_conjunct_example :
    (extract_key_from_filter (and (key_is (ascii "k")) recent) ≡ some (ascii "k"))
    × (remaining_stages (
          PipelineStage.from (ascii "a")
          ∷ PipelineStage.filter (and (key_is (ascii "k")) recent)
          ∷ [])
        ≡ [])
    × (evaluate_filter_expr plain reading (and (key_is (ascii "k")) recent) ≡ false)
dropped_conjunct_example =
    dropped_conjunct plain (λ a b. refl) reading (ascii "a") (ascii "k") recent old

-- a key, then a sequence id above 9
abbrev pattern_of_two : SequenceMatcher
pattern_of_two = record {
  steps = key_is (ascii "k") ∷ recent ∷ [];
  current_step = 0;
  window_start_ms = pos 0;
  within_ms = 100;
  partial_matches = [];
}

abbrev pub later : Record
later = record reading { sequence_id = 10; timestamp = pos 1050 }

finds_later : run plain pattern_of_two (reading ∷ later ∷ []) ≡ some (later ∷ [])
unfolding run process evaluate_filter_expr bytes_eq as_str as_bytes pad Bytes.is_utf8
    Bytes.i64_of_bits Bytes.i64_bits
finds_later = refl

-- the first step, found at the reading
abbrev one_found : SequenceMatcher
one_found = record pattern_of_two {
  current_step = 1;
  window_start_ms = pos 1000;
  partial_matches = reading ∷ [];
}

has_key : evaluate_filter_expr plain reading (key_is (ascii "k")) ≡ true
unfolding evaluate_filter_expr bytes_eq as_str as_bytes pad Bytes.is_utf8
has_key = refl

process-ProcessesTo_example : ProcessesTo plain one_found later (process plain one_found later)
process-ProcessesTo_example =
    process-ProcessesTo plain one_found later
      (record {
        next = omega arith;
        found = (has_key, tt);
        in_time = tt;
        opens = (refl, (omega arith, omega arith));
        within = omega arith;
      })
      (omega arith, omega arith)

abbrev pattern_of_one : SequenceMatcher
pattern_of_one = record pattern_of_two { steps = key_is (ascii "k") ∷ [] }

run-single_example : run plain pattern_of_one (reading ∷ later ∷ []) ≡ some []
run-single_example =
    run-single plain pattern_of_one (reading ∷ later ∷ [])
      (record { next = omega arith; partial = refl }) refl

run-Finds_example :
    Finds plain
      (key_is (ascii "k") ∷ recent ∷ [])
      100
      (reading ∷ later ∷ [])
      (run plain (new (key_is (ascii "k") ∷ recent ∷ []) 100) (reading ∷ later ∷ []))
run-Finds_example =
    run-Finds plain (key_is (ascii "k") ∷ recent ∷ []) 100 (reading ∷ later ∷ []) (omega arith)
      (omega arith) ((omega arith, omega arith), ((omega arith, omega arith), tt))

-- positive floats in thousandths: `as i64` drops the fraction
abbrev thousandths : FilterLibrary
thousandths = record plain { of_i64 = λ i. pos_part i * 1000 }

has_time_range_filter-misses_example :
    (evaluate_filter_expr thousandths reading (before_number 1000500) ≡ true)
    × (has_time_range_filter thousandths
          (λ f. pos (f / 1000))
          (PipelineStage.filter (before_number 1000500) ∷ [])
        ≡ some (i64_min, pos 999))
    × (pos 999 <ℤ reading.timestamp)
has_time_range_filter-misses_example =
    has_time_range_filter-misses thousandths (λ f. pos (f / 1000)) reading 999 1000500 refl
      (omega arith) refl refl
