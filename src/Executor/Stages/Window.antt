-- ===== src/Executor/Stages/Window.antt =====
-- The `window` stage (src/executor.rs): records grouped by the start of their time window, and one
-- aggregate record for each group. `none` is a panic.
use liven.Prelude.{
  ℕ, zero, suc, ◌/◌, ◌%◌, ◌^◌, ◌&&◌, Option, none, some, List, [], ◌∷◌, ◌++◌, ℤ, pos, negsuc, ◌*ℤ◌,
  ltb_ℤ, ◌==◌, if◌then◌else◌, length,
}
use liven.Bytes.{Bytes, ascii, i64_bits, i64_of_bits}
use liven.Types.{
  DataValue, int, uint, float, string, Record, type_tag, AggregateStrategy, count, sum, average,
}
use liven.Storage.Key.{from_str_truncated}
use liven.Executor.Filter.{FilterLibrary, to_f64}
use liven.Executor.Json.{JsonLibrary}
use liven.Executor.Vector.{FloatLibrary}
use liven.Executor.Stages.Text.{show_i64}

abbrev pub negate : ℕ → ℤ
negate zero = pos 0
negate (suc n) = negsuc n

-- Division of i64 values, towards zero: none by zero, and none where the quotient overflows.
unfoldable pub div_i64 : ℤ → ℤ → Option ℤ
div_i64 (pos a) (pos zero) = none
div_i64 (negsuc a) (pos zero) = none
div_i64 (pos a) (pos (suc b)) = some (pos (a / suc b))
div_i64 (pos a) (negsuc b) = some (negate (a / suc b))
div_i64 (negsuc a) (pos (suc b)) = some (negate (suc a / suc b))
div_i64 (negsuc a) (negsuc b) =
    if suc a == 2 ^ 63 && b == 0 then none else some (pos (suc a / suc b))

abbrev scaled : ℤ → Option ℤ → Option ℤ
scaled d none = none
scaled d (some q) = some (q *ℤ d)

-- the start of the window of a time
unfoldable pub window_start : ℕ → ℤ → Option ℤ
unfolding div_i64 i64_of_bits
window_start duration_ms timestamp =
    let d = i64_of_bits (duration_ms % 2 ^ 64) in scaled d (div_i64 timestamp d)

-- `windows.entry(win_start).or_default().push(r)` on a sorted map
unfoldable pub push_window : ℤ → Record → List (ℤ × List Record) → List (ℤ × List Record)
push_window k r [] = (k, r ∷ []) ∷ []
push_window k r ((j, rs) ∷ windows) =
    let rest = push_window k r windows in
    if ltb_ℤ k j
    then (k, r ∷ []) ∷ (j, rs) ∷ windows
    else if ltb_ℤ j k
    then (j, rs) ∷ rest
    else (j, rs ++ (r ∷ [])) ∷ windows

abbrev pub push_start : Option ℤ → Record → List (ℤ × List Record) → Option (List (ℤ × List Record))
push_start none r windows = none
push_start (some k) r windows = some (push_window k r windows)

abbrev pub and_windows :
    {A : Type 0} → Option (List (ℤ × List Record)) → (List (ℤ × List Record) → Option A) → Option A
and_windows none f = none
and_windows (some w) f = f w

unfoldable pub windows_of :
    ℕ → List Record → List (ℤ × List Record) → Option (List (ℤ × List Record))
unfolding push_window window_start
windows_of duration_ms [] windows = some windows
windows_of duration_ms (r ∷ records) windows =
    and_windows (push_start (window_start duration_ms r.timestamp) r windows)
      (windows_of duration_ms records)

module _ (lib : FilterLibrary) (F : FloatLibrary) (J : JsonLibrary) where
  abbrev or_number : Option ℕ → Option ℕ → Option ℕ
  or_number (some n) o = some n
  or_number none o = o

  abbrev first_number : List (Bytes × J.Json) → Option ℕ
  first_number [] = none
  first_number ((k, v) ∷ es) = or_number (J.as_f64 v) (first_number es)

  abbrev map_number : Option J.Map → Option ℕ
  map_number none = none
  map_number (some m) = first_number (J.entries m)

  abbrev json_number : Option J.Json → Option ℕ
  json_number none = none
  json_number (some j) = map_number (J.as_object j)

  -- the first numeric field of a document that is a text
  abbrev text_number : DataValue → Option ℕ
  text_number (string s) = json_number (J.from_str s)
  text_number _ = none

  unfoldable pub number_of : DataValue → Option ℕ
  unfolding to_f64
  number_of value = or_number (to_f64 lib value) (text_number value)

  -- the sum of the numbers from the left, and how many there are
  abbrev add_number : Option ℕ → ℕ × ℕ → ℕ × ℕ
  add_number none a = a
  add_number (some n) a = (F.add a.0 n, suc a.1)

  unfoldable pub sum_numbers : List Record → ℕ × ℕ → ℕ × ℕ
  unfolding number_of
  sum_numbers [] a = a
  sum_numbers (r ∷ records) a = sum_numbers records (add_number (number_of r.value) a)

  unfoldable pub aggregate : AggregateStrategy → List Record → DataValue
  unfolding sum_numbers
  aggregate count group = uint (length group)
  aggregate sum group =
      let total = sum_numbers group (0, 0) in if total.1 == 0 then int (pos 0) else float total.0
  aggregate average group =
      let total = sum_numbers group (0, 0) in
      if total.1 == 0 then float 0 else float (F.div total.0 (lib.of_u64 total.1))

  abbrev first_stream : List Record → Bytes
  first_stream [] = []
  first_stream (r ∷ group) = r.stream_name

  unfoldable pub window_record : AggregateStrategy → ℤ → List Record → Record
  unfolding aggregate type_tag from_str_truncated show_i64 i64_bits
  window_record strategy start group =
      let value = aggregate strategy group in
      record {
        sequence_id = i64_bits start;
        timestamp = start;
        type_tag = type_tag value;
        flags = 1;
        stream_name = first_stream group;
        key = from_str_truncated (ascii "window_" ++ show_i64 start);
        value = value;
      }

  unfoldable pub window_records : AggregateStrategy → List (ℤ × List Record) → List Record
  unfolding window_record
  window_records strategy [] = []
  window_records strategy ((start, group) ∷ windows) =
      window_record strategy start group ∷ window_records strategy windows

  unfoldable pub window : ℕ → AggregateStrategy → List Record → Option (List Record)
  unfolding windows_of window_records
  window duration_ms strategy records =
      and_windows (windows_of duration_ms records [])
        (λ windows. some (window_records strategy windows))
