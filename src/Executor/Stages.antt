-- ===== src/Executor/Stages.antt =====
-- The stages of a pipeline over the records of a query (src/executor.rs,
-- `try_apply_pipeline_stages_to_vec`). A result `none` is a panic; `now` is the clock's answer.
pub mod Text
pub mod Window
pub mod Group
pub mod Joins
pub mod Pages
pub mod Distinct
pub mod Windows
use liven.Prelude.{
  ℕ, zero, suc, ◌+◌, ◌-◌, ◌*◌, ◌/◌, ◌%◌, ◌^◌, Bool, true, false, not, ◌&&◌, ◌||◌, Option, none,
  some, List, [], ◌∷◌, ◌++◌, ℤ, ltb, leb, leb_ℤ, ◌==◌, if◌then◌else◌, length, min, take, drop, map,
}
use liven.Prelude.Sort.{sort}
use liven.Types
use liven.Bytes.{Bytes, ascii, bytes_eq, bytes_lt}
use liven.Types.{DataValue, null, uint, Record, PipelineStage}
use liven.Error.{LivenError, Result, ok, err}
use liven.Storage.Key.{as_str, from_str_truncated}
use liven.Executor.Filter.{FilterLibrary, to_f64, evaluate_record_field, evaluate_filter_expr}
use liven.Executor.Json.{JsonLibrary, project_record, unwrap_or}
use liven.Executor.Vector.{FloatLibrary, vector_filter, vector_search}
use liven.Executor.Sequence
use liven.Executor.Stages.Text.{TextLibrary, distinct_text}
use liven.Executor.Stages.Window.{window}
use liven.Executor.Stages.Group.{group}
use liven.Executor.Stages.Joins.{EngineReads, enrich_record, chain_record, correlate}

-- `Vec::retain`
unfoldable pub retain : (Record → Bool) → List Record → List Record
retain keep [] = []
retain keep (r ∷ records) = let rest = retain keep records in if keep r then r ∷ rest else rest

abbrev pub has_flag : ℕ → Record → Bool
has_flag bit r = not (r.flags / bit % 2 == 0)

abbrev pub is_deleted : Record → Bool
is_deleted r = has_flag 2 r && not (has_flag 4 r)

unfoldable pub is_trash : Record → Bool
is_trash r = has_flag 4 r || bytes_eq (as_str r.key) (ascii "*")

-- `records[start..end]`, with the wrap-around of usize; a slice that ends before it starts panics.
unfoldable pub page : ℕ → ℕ → List Record → Option (List Record)
page page_number page_size records =
    let start = (page_number - 1) * page_size % 2 ^ 64 in
    let end = min ((start + page_size) % 2 ^ 64) (length records) in
    if page_number == 0 || page_size == 0
    then some records
    else if ltb start (length records)
    then (if ltb end start then none else some (take (end - start) (drop start records)))
    else some []

unfoldable pub page_cursor : Bytes → ℕ → List Record → List Record
unfolding retain
page_cursor cursor page_size records =
    take page_size (retain (λ r. bytes_lt cursor (as_str r.key)) records)

abbrev pub first_stream : List Record → Bytes
first_stream [] = ascii "stream"
first_stream (r ∷ records) = r.stream_name

unfoldable pub count : ℤ → List Record → List Record
unfolding from_str_truncated
count now records =
    record {
      sequence_id = 1;
      timestamp = now;
      type_tag = 3;
      flags = 1;
      stream_name = first_stream records;
      key = from_str_truncated (ascii "count");
      value = uint (length records);
    }
    ∷ []

-- `sort_by_key(|r| r.timestamp)`
abbrev pub by_timestamp : Record → Record → Bool
by_timestamp a b = leb_ℤ a.timestamp b.timestamp

-- `HashSet::insert`: true of a new text
unfoldable pub is_new : Bytes → List Bytes → Bool
is_new t [] = true
is_new t (s ∷ seen) = not (bytes_eq t s) && is_new t seen

-- the records whose text was not seen before
unfoldable pub distinct_by : (Record → Bytes) → List Bytes → List Record → List Record
unfolding is_new
distinct_by text seen [] = []
distinct_by text seen (r ∷ records) =
    let old = distinct_by text seen records in
    let new = distinct_by text (text r ∷ seen) records in
    if is_new (text r) seen then r ∷ new else old

-- What a stage leaves: a panic, an error or records.
abbrev pub Stage : Type 0
Stage = Option (Result LivenError (List Record))

abbrev pub and_then : Stage → (List Record → Stage) → Stage
and_then none f = none
and_then (some (err x)) f = some (err x)
and_then (some (ok records)) f = f records

abbrev pub whole : Option (List Record) → Stage
whole none = none
whole (some records) = some (ok records)

module _ (lib : FilterLibrary) (F : FloatLibrary) (J : JsonLibrary) (texts : TextLibrary)
    (f64_max f64_min : ℕ) where
  abbrev less_found : Option ℕ → Option ℕ → DataValue → DataValue → Bool
  less_found (some x) (some y) a b = lib.f64_lt x y
  less_found _ _ a b = lib.value_lt a b

  unfoldable pub less_value : DataValue → DataValue → Bool
  unfolding to_f64
  less_value a b = less_found (to_f64 lib a) (to_f64 lib b) a b

  unfoldable pub field_or_null : Bytes → Record → DataValue
  unfolding evaluate_record_field
  field_or_null name r = unwrap_or null (evaluate_record_field lib r name)

  -- not after in the order of the field, or in its reverse
  unfoldable pub by_field : Bytes → Bool → Record → Record → Bool
  unfolding less_value field_or_null
  by_field name descending a b =
      if descending
      then not (less_value (field_or_null name a) (field_or_null name b))
      else not (less_value (field_or_null name b) (field_or_null name a))

  unfoldable pub distinct : Bytes → List Record → List Record
  unfolding distinct_by distinct_text field_or_null
  distinct name records = distinct_by (λ r. distinct_text texts (field_or_null name r)) [] records

  module _ (engine : EngineReads) (now : ℤ) where
    unfoldable pub apply_stage : PipelineStage → List Record → Stage
    unfolding retain is_trash page page_cursor count sort by_field distinct evaluate_filter_expr
        vector_filter vector_search project_record window group enrich_record chain_record correlate
        Sequence.run
    apply_stage (Types.from stream_name) records =
        some (ok (retain (λ r. bytes_eq r.stream_name stream_name) records))
    apply_stage Types.history records = some (ok records)
    apply_stage Types.delete records = some (ok (retain is_deleted records))
    apply_stage Types.trash records = some (ok (retain is_trash records))
    apply_stage (Types.filter expr) records =
        some (ok (retain (λ r. evaluate_filter_expr lib r expr) records))
    apply_stage (Types.vector_filter name query_vector threshold) records =
        some (vector_filter lib F name query_vector threshold records)
    apply_stage (Types.vector_search name query_vector top_k) records =
        some (vector_search lib F J name query_vector top_k records)
    apply_stage (Types.get key) records =
        some (ok (retain (λ r. bytes_eq (as_str r.key) key) records))
    apply_stage Types.count records = some (ok (count now records))
    apply_stage (Types.sort name descending) records =
        some (ok (sort (by_field name descending) records))
    apply_stage (Types.page page_number page_size) records =
        whole (page page_number page_size records)
    apply_stage (Types.page_cursor cursor page_size) records =
        some (ok (page_cursor cursor page_size records))
    apply_stage (Types.group name aggregations) records =
        some (ok (group lib F J texts f64_max f64_min name aggregations now records))
    apply_stage (Types.map projections) records =
        some (ok (map (project_record J projections) records))
    apply_stage (Types.limit n) records = some (ok (take n records))
    apply_stage (Types.enrich source_stream join_key) records =
        some (ok (map (enrich_record lib J texts engine source_stream join_key) records))
    apply_stage (Types.window duration_ms strategy) records =
        whole (window lib F J duration_ms strategy records)
    apply_stage (Types.correlate source_stream join_key within_ms) records =
        some (ok (correlate lib J texts engine source_stream join_key within_ms records))
    apply_stage (Types.sequence steps within_ms) records =
        whole (Sequence.run lib (Sequence.new steps within_ms) (sort by_timestamp records))
    apply_stage (Types.chain target_stream join_key) records =
        some (ok (map (chain_record lib J texts engine target_stream join_key) records))
    apply_stage (Types.distinct name) records = some (ok (distinct name records))
    apply_stage (Types.export format) records = some (ok records)

    unfoldable pub try_apply_pipeline_stages_to_vec : List PipelineStage → List Record → Stage
    unfolding apply_stage
    try_apply_pipeline_stages_to_vec [] records = some (ok records)
    try_apply_pipeline_stages_to_vec (stage ∷ stages) records =
        and_then (apply_stage stage records) (try_apply_pipeline_stages_to_vec stages)
