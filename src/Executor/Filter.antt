-- ===== src/Executor/Filter.antt =====
-- Filters over records (src/executor.rs): fields, comparison of values, and what the planner reads
-- off a filter.
pub mod Keys
use liven.Prelude.{
  ℕ, zero, suc, Bool, true, false, not, ◌&&◌, ◌||◌, Option, none, some, List, [], ◌∷◌, ℤ, ltb, leb,
  ◌==◌, if◌then◌else◌, length, take,
}
use liven.Bytes.{Bytes, ascii, bytes_eq}
use liven.Types.{
  DataValue, null, bool, int, uint, float, string, binary, array, object, vector, Values, nil, cons,
  Fields, end, field, FilterExpr, simple, and, or, Op, Record, PipelineStage,
}
use liven.Types
use liven.Storage.Key.{as_str}

-- `f64` and the libraries that a filter relies on: conversion of integers, the order of
-- `OrderedFloat`, the derived order of values, and a JSON or MessagePack document's field, as a value
-- (`json_field_to_datavalue` of what `get` finds, `none` where the text is no document or has no such
-- field).
pub record FilterLibrary : Type 0 where
  pub of_i64 : ℤ → ℕ
  pub of_u64 : ℕ → ℕ
  pub f64_eq : ℕ → ℕ → Bool
  pub f64_lt : ℕ → ℕ → Bool
  pub value_eq : DataValue → DataValue → Bool
  pub value_lt : DataValue → DataValue → Bool
  pub json_field : Bytes → Bytes → Option DataValue
  pub msgpack_field : Bytes → Bytes → Option DataValue

-- `BTreeMap::get`
unfoldable pub get_field : Bytes → Fields → Option DataValue
get_field name end = none
get_field name (field k v fs) = if bytes_eq name k then some v else get_field name fs

-- the prefix, suffix and substring tests of `str`
unfoldable pub starts_with : Bytes → Bytes → Bool
starts_with s [] = true
starts_with [] (b ∷ p) = false
starts_with (a ∷ s) (b ∷ p) = a == b && starts_with s p

unfoldable pub contains : Bytes → Bytes → Bool
unfolding starts_with
contains [] p = starts_with [] p
contains (a ∷ s) p = starts_with (a ∷ s) p || contains s p

unfoldable pub ends_with : Bytes → Bytes → Bool
ends_with [] p = bytes_eq [] p
ends_with (a ∷ s) p = bytes_eq (a ∷ s) p || ends_with s p

-- an operator other than the five that read text or a list
pub data Comparison : Type 0 where
  eq not_eq gt lt gt_eq lt_eq : Comparison

module _ (lib : FilterLibrary) where
  unfoldable pub to_f64 : DataValue → Option ℕ
  to_f64 (int i) = some (lib.of_i64 i)
  to_f64 (uint u) = some (lib.of_u64 u)
  to_f64 (float f) = some f
  to_f64 _ = none

  -- the six operators on two values of one ordered type
  abbrev compare_by {ℓ} : {A : Type ℓ} → (A → A → Bool) → (A → A → Bool) → Comparison → A → A → Bool
  compare_by same less eq a b = same a b
  compare_by same less not_eq a b = not (same a b)
  compare_by same less gt a b = less b a
  compare_by same less lt a b = less a b
  compare_by same less gt_eq a b = less b a || same a b
  compare_by same less lt_eq a b = less a b || same a b

  abbrev compare_numbers : Option ℕ → Option ℕ → Comparison → DataValue → DataValue → Bool
  compare_numbers (some x) (some y) op a b = compare_by lib.f64_eq lib.f64_lt op x y
  compare_numbers (some x) none op a b = compare_by lib.value_eq lib.value_lt op a b
  compare_numbers none y op a b = compare_by lib.value_eq lib.value_lt op a b

  unfoldable pub compare_ordered : Comparison → DataValue → DataValue → Bool
  unfolding to_f64
  compare_ordered op a b = compare_numbers (to_f64 a) (to_f64 b) op a b

  unfoldable pub any_equal : DataValue → Values → Bool
  unfolding compare_ordered
  any_equal a nil = false
  any_equal a (cons item items) = compare_ordered eq a item || any_equal a items

  abbrev between_numbers : Option ℕ → Option ℕ → Option ℕ → Bool
  between_numbers (some lo) (some hi) (some v) =
      (lib.f64_lt lo v || lib.f64_eq v lo) && (lib.f64_lt v hi || lib.f64_eq v hi)
  between_numbers _ _ _ = false

  abbrev pub text_test : (Bytes → Bytes → Bool) → DataValue → DataValue → Bool
  text_test test (string s) (string t) = test s t
  text_test test _ _ = false

  unfoldable pub compare_values : DataValue → Op → DataValue → Bool
  unfolding any_equal to_f64 starts_with contains ends_with compare_ordered
  compare_values a Op.in_ (array items) = any_equal a items
  compare_values a Op.in_ _ = false
  compare_values a Op.starts_with b = text_test starts_with a b
  compare_values a Op.contains b = text_test contains a b
  compare_values a Op.ends_with b = text_test ends_with a b
  compare_values a Op.between (array (cons lo (cons hi nil))) =
      between_numbers (to_f64 lo) (to_f64 hi) (to_f64 a)
  compare_values a Op.between _ = false
  compare_values a Op.eq b = compare_ordered eq a b
  compare_values a Op.not_eq b = compare_ordered not_eq a b
  compare_values a Op.gt b = compare_ordered gt a b
  compare_values a Op.lt b = compare_ordered lt a b
  compare_values a Op.gt_eq b = compare_ordered gt_eq a b
  compare_values a Op.lt_eq b = compare_ordered lt_eq a b

  unfoldable pub extract_field : DataValue → Bytes → Option DataValue
  unfolding get_field
  extract_field (string s) name = lib.json_field s name
  extract_field (binary b) name = lib.msgpack_field b name
  extract_field (object fields) name = get_field name fields
  extract_field _ name = none

  unfoldable pub evaluate_record_field : Record → Bytes → Option DataValue
  unfolding extract_field
  evaluate_record_field r name =
      if bytes_eq name (ascii "key")
      then some (string (as_str r.key))
      else if bytes_eq name (ascii "timestamp")
      then some (int r.timestamp)
      else if bytes_eq name (ascii "sequence_id")
      then some (uint r.sequence_id)
      else if bytes_eq name (ascii "stream")
      then some (string r.stream_name)
      else if bytes_eq name (ascii "value")
      then some r.value
      else extract_field r.value name

  abbrev pub compare_found : Option DataValue → Op → DataValue → Bool
  compare_found none op value = false
  compare_found (some actual) op value = compare_values actual op value

  unfoldable pub evaluate_filter_expr : Record → FilterExpr → Bool
  unfolding compare_values evaluate_record_field
  evaluate_filter_expr r (simple name op value) =
      compare_found (evaluate_record_field r name) op value
  evaluate_filter_expr r (and left right) =
      evaluate_filter_expr r left && evaluate_filter_expr r right
  evaluate_filter_expr r (or left right) =
      evaluate_filter_expr r left || evaluate_filter_expr r right
  evaluate_filter_expr r (Types.FilterExpr.not expr) = not (evaluate_filter_expr r expr)

abbrev pub is_eq : Op → Bool
is_eq Op.eq = true
is_eq _ = false

abbrev pub text_of : DataValue → Option Bytes
text_of (string k) = some k
text_of _ = none

abbrev pub or_else {ℓ} : {A : Type ℓ} → Option A → Option A → Option A
or_else (some a) o = some a
or_else none o = o

unfoldable pub extract_key_from_filter : FilterExpr → Option Bytes
extract_key_from_filter (simple name op value) =
    if bytes_eq name (ascii "key") && is_eq op then text_of value else none
extract_key_from_filter (and left right) =
    or_else (extract_key_from_filter left) (extract_key_from_filter right)
extract_key_from_filter (Types.FilterExpr.not expr) = extract_key_from_filter expr
extract_key_from_filter (or left right) = none

unfoldable pub extract_unique_key_from_pipeline : List PipelineStage → Option Bytes
unfolding extract_key_from_filter
extract_unique_key_from_pipeline [] = none
extract_unique_key_from_pipeline (PipelineStage.get key ∷ stages) = some key
extract_unique_key_from_pipeline (PipelineStage.filter expr ∷ stages) =
    or_else (extract_key_from_filter expr) (extract_unique_key_from_pipeline stages)
extract_unique_key_from_pipeline (stage ∷ stages) = extract_unique_key_from_pipeline stages

unfoldable pub is_key_equality_filter : FilterExpr → Bool
is_key_equality_filter (simple name op value) = bytes_eq name (ascii "key") && is_eq op
is_key_equality_filter (and left right) =
    is_key_equality_filter left || is_key_equality_filter right
is_key_equality_filter _ = false
