-- ===== src/Executor/TimeRange/Bounds.antt =====
-- The range of a comparison with a number between two milliseconds.
use liven.Prelude.{ℕ, suc, ◌^◌, ◌<◌, ◌≡◌, ap, true, some, ◌∷◌, [], ℤ, pos, arith, ◌<ℤ◌}
use liven.Bytes.{ascii, bytes_eq, i64_bits, i64_of_bits}
use liven.Types.{float, FilterExpr, simple, Op, Record, PipelineStage}
use liven.Executor.Filter.{
  FilterLibrary, to_f64, compare_values, compare_ordered, evaluate_record_field,
  evaluate_filter_expr,
}
use liven.Executor.TimeRange.{i64_min, previous_ms, has_time_range_filter}

-- `timestamp < v`
abbrev pub before_number : ℕ → FilterExpr
before_number v = simple (ascii "timestamp") Op.lt (float v)

previous_ms-suc : (t : ℕ) → suc t < 2 ^ 63 → previous_ms (pos (suc t)) ≡ pos t
unfolding i64_bits i64_of_bits
previous_ms-suc t small = ground arith

-- The time range that the planner reads off `timestamp < v` ends before a record that the filter
-- lets through, when the record's timestamp is positive and `v`, converted to an integer, is that
-- timestamp: `v` is the timestamp and a fraction.
pub has_time_range_filter-misses :
    (lib : FilterLibrary) (to_i64 : ℕ → ℤ) (r : Record) (t v : ℕ)
    → r.timestamp ≡ pos (suc t)
    → suc t < 2 ^ 63
    → lib.f64_lt (lib.of_i64 r.timestamp) v ≡ true
    → to_i64 v ≡ r.timestamp
    → (evaluate_filter_expr lib r (before_number v) ≡ true)
      × (has_time_range_filter lib to_i64 (PipelineStage.filter (before_number v) ∷ [])
          ≡ some (i64_min, pos t))
      × (pos t <ℤ r.timestamp)
unfolding evaluate_filter_expr evaluate_record_field compare_values compare_ordered to_f64
    has_time_range_filter bytes_eq i64_bits i64_of_bits
has_time_range_filter-misses lib to_i64 r t v e small less same =
    (less, rw (same, e) (ap (λ x. some (i64_min, x)) (previous_ms-suc t small)), rw e (omega arith))
