-- ===== src/Executor/TimeRange.antt =====
-- Time ranges that the planner reads off a filter (src/executor.rs), for the timestamp indexes.
pub mod Bounds
use liven.Prelude.{
  ℕ, ◌+◌, ◌-◌, ◌%◌, ◌^◌, Bool, true, false, ◌||◌, Option, none, some, List, [], ◌∷◌, ℤ, pos, negsuc,
  ltb_ℤ, if◌then◌else◌,
}
use liven.Bytes.{Bytes, ascii, bytes_eq, i64_bits, i64_of_bits}
use liven.Types.{DataValue, array, nil, cons, FilterExpr, simple, and, or, Op, PipelineStage}
use liven.Types
use liven.Executor.Filter.{FilterLibrary, to_f64}

-- from the first to the last millisecond, both included
abbrev pub TimeRange : Type 0
TimeRange = ℤ × ℤ

-- `i64::MIN` and `i64::MAX`
abbrev pub i64_min : ℤ
i64_min = negsuc (2 ^ 63 - 1)

abbrev pub i64_max : ℤ
i64_max = pos (2 ^ 63 - 1)

-- `+ 1` and `- 1` of a release build, which wrap
abbrev pub next_ms : ℤ → ℤ
next_ms t = i64_of_bits ((i64_bits t + 1) % 2 ^ 64)

abbrev pub previous_ms : ℤ → ℤ
previous_ms t = i64_of_bits ((i64_bits t + (2 ^ 64 - 1)) % 2 ^ 64)

abbrev earlier : ℤ → ℤ → ℤ
earlier a b = if ltb_ℤ b a then b else a

abbrev later : ℤ → ℤ → ℤ
later a b = if ltb_ℤ a b then b else a

abbrev with_number : Option ℕ → (ℕ → TimeRange) → Option TimeRange
with_number none f = none
with_number (some n) f = some (f n)

abbrev with_bounds : Option ℕ → Option ℕ → (ℕ → ℕ → TimeRange) → Option TimeRange
with_bounds (some lo) (some hi) f = some (f lo hi)
with_bounds _ _ f = none

-- `And` of two filters: the hull of two ranges
abbrev merge_ranges : Option TimeRange → Option TimeRange → Option TimeRange
merge_ranges (some a) (some b) = some (earlier a.0 b.0, later a.1 b.1)
merge_ranges (some a) none = some a
merge_ranges none b = b

-- `to_i64` is the conversion `as i64` of a float.
module _ (lib : FilterLibrary) (to_i64 : ℕ → ℤ) where
  unfoldable pub operator_range : Op → DataValue → Option TimeRange
  unfolding to_f64 i64_bits i64_of_bits
  operator_range Op.gt value = with_number (to_f64 lib value) (λ n. (next_ms (to_i64 n), i64_max))
  operator_range Op.gt_eq value = with_number (to_f64 lib value) (λ n. (to_i64 n, i64_max))
  operator_range Op.lt value =
      with_number (to_f64 lib value) (λ n. (i64_min, previous_ms (to_i64 n)))
  operator_range Op.lt_eq value = with_number (to_f64 lib value) (λ n. (i64_min, to_i64 n))
  operator_range Op.eq value = with_number (to_f64 lib value) (λ n. (to_i64 n, to_i64 n))
  operator_range Op.between (array (cons lo (cons hi nil))) =
      with_bounds (to_f64 lib lo) (to_f64 lib hi) (λ a b. (to_i64 a, to_i64 b))
  operator_range _ _ = none

  unfoldable pub extract_time_range_filter : FilterExpr → Option TimeRange
  unfolding operator_range
  extract_time_range_filter (simple name op value) =
      if bytes_eq name (ascii "timestamp") then operator_range op value else none
  extract_time_range_filter (and left right) =
      merge_ranges (extract_time_range_filter left) (extract_time_range_filter right)
  extract_time_range_filter _ = none

  -- only the first filter of a pipeline is read
  unfoldable pub has_time_range_filter : List PipelineStage → Option TimeRange
  unfolding extract_time_range_filter
  has_time_range_filter [] = none
  has_time_range_filter (PipelineStage.filter expr ∷ stages) = extract_time_range_filter expr
  has_time_range_filter (stage ∷ stages) = has_time_range_filter stages

unfoldable pub has_history_stage : List PipelineStage → Bool
has_history_stage [] = false
has_history_stage (PipelineStage.history ∷ stages) = true
has_history_stage (stage ∷ stages) = has_history_stage stages
