-- ===== src/Executor/Stages/Group.antt =====
-- The `group` stage (src/executor.rs): records grouped by the text of a field, and one document of
-- aggregates for each group.
use liven.Prelude.{
  ℕ, suc, ◌-◌, Bool, true, false, ◌&&◌, Option, none, some, List, [], ◌∷◌, ◌++◌, ℤ, if◌then◌else◌,
  length, take, drop, ◌==◌,
}
use liven.Bytes.{Bytes, ascii, bytes_eq, bytes_lt}
use liven.Types.{DataValue, null, string, Record}
use liven.Storage.Key.{from_str_truncated}
use liven.Executor.Filter.{FilterLibrary, to_f64, evaluate_record_field, starts_with, ends_with}
use liven.Executor.Json.{JsonLibrary, unwrap_or}
use liven.Executor.Vector.{FloatLibrary}
use liven.Executor.Stages.Text.{TextLibrary, group_text}

-- `groups.entry(group_key).or_default().push(r)` on a sorted map
unfoldable pub push_group : Bytes → Record → List (Bytes × List Record) → List (Bytes × List Record)
push_group k r [] = (k, r ∷ []) ∷ []
push_group k r ((j, rs) ∷ groups) =
    let rest = push_group k r groups in
    if bytes_eq k j
    then (j, rs ++ (r ∷ [])) ∷ groups
    else if bytes_lt k j
    then (k, r ∷ []) ∷ (j, rs) ∷ groups
    else (j, rs) ∷ rest

module _ (lib : FilterLibrary) (F : FloatLibrary) (J : JsonLibrary) (texts : TextLibrary)
    (f64_max f64_min : ℕ) where
  unfoldable pub groups_of :
      Bytes → List Record → List (Bytes × List Record) → List (Bytes × List Record)
  unfolding push_group evaluate_record_field group_text
  groups_of name [] groups = groups
  groups_of name (r ∷ records) groups =
      groups_of name records
        (push_group (group_text texts (unwrap_or null (evaluate_record_field lib r name))) r groups)

  abbrev number_in : Option DataValue → Option ℕ
  number_in none = none
  number_in (some v) = to_f64 lib v

  -- the numbers of a field in a group
  unfoldable pub numbers_of : Bytes → List Record → List ℕ
  unfolding to_f64 evaluate_record_field
  numbers_of arg [] = []
  numbers_of arg (r ∷ group) =
      let rest = numbers_of arg group in
      elim (number_in (evaluate_record_field lib r arg)) [ none ↦ rest | some n ↦ n ∷ rest ]

  abbrev sum_from : ℕ → List ℕ → ℕ
  sum_from a [] = a
  sum_from a (n ∷ ns) = sum_from (F.add a n) ns

  abbrev average_of : List ℕ → ℕ
  average_of ns = if length ns == 0 then 0 else F.div (sum_from 0 ns) (lib.of_u64 (length ns))

  -- the least number below `best`, found so far or not
  abbrev least : ℕ → Bool → List ℕ → Option ℕ
  least best found [] = if found then some best else none
  least best found (n ∷ ns) =
      least (if F.lt n best then n else best) (if F.lt n best then true else found) ns

  abbrev greatest : ℕ → Bool → List ℕ → Option ℕ
  greatest best found [] = if found then some best else none
  greatest best found (n ∷ ns) =
      greatest (if F.lt best n then n else best) (if F.lt best n then true else found) ns

  abbrev float_json : ℕ → J.Json
  float_json n = unwrap_or J.null (J.from_f64 n)

  abbrev found_json : Option ℕ → J.Json
  found_json none = J.null
  found_json (some n) = float_json n

  -- the argument of an aggregation of four letters and a parenthesis, `sum(x)`
  abbrev argument : Bytes → Bytes
  argument agg = take (length agg - 1 - 4) (drop 4 agg)

  abbrev calls : Bytes → Bytes → Bool
  calls agg name = starts_with agg name && ends_with agg (ascii ")")

  unfoldable pub add_aggregation : List Record → Bytes → J.Map → J.Map
  unfolding numbers_of starts_with ends_with
  add_aggregation group agg obj =
      let arg = argument agg in
      let ns = numbers_of arg group in
      if bytes_eq agg (ascii "count()")
      then J.insert (ascii "count") (J.of_u64 (length group)) obj
      else if calls agg (ascii "sum(")
      then J.insert (ascii "sum_" ++ arg) (float_json (sum_from 0 ns)) obj
      else if calls agg (ascii "avg(")
      then J.insert (ascii "avg_" ++ arg) (float_json (average_of ns)) obj
      else if calls agg (ascii "min(")
      then J.insert (ascii "min_" ++ arg) (found_json (least f64_max false ns)) obj
      else if calls agg (ascii "max(")
      then J.insert (ascii "max_" ++ arg) (found_json (greatest f64_min false ns)) obj
      else obj

  abbrev add_aggregations : List Record → List Bytes → J.Map → J.Map
  add_aggregations group [] obj = obj
  add_aggregations group (agg ∷ aggs) obj =
      add_aggregations group aggs (add_aggregation group agg obj)

  unfoldable pub group_record : Bytes → List Bytes → ℤ → Bytes → ℕ → Bytes → List Record → Record
  unfolding add_aggregation from_str_truncated
  group_record name aggregations now stream_name index group_key group = record {
    sequence_id = suc index;
    timestamp = now;
    type_tag = 5;
    flags = 1;
    stream_name = stream_name;
    key = from_str_truncated group_key;
    value = string (
        J.to_string (
          J.object
            (add_aggregations group aggregations (J.insert name (J.string group_key) J.new))));
  }

  unfoldable pub group_records :
      Bytes → List Bytes → ℤ → Bytes → ℕ → List (Bytes × List Record) → List Record
  unfolding group_record
  group_records name aggregations now stream_name index [] = []
  group_records name aggregations now stream_name index ((k, group) ∷ groups) =
      group_record name aggregations now stream_name index k group
      ∷ group_records name aggregations now stream_name (suc index) groups

  unfoldable pub group : Bytes → List Bytes → ℤ → List Record → List Record
  unfolding groups_of group_records
  group name aggregations now [] = []
  group name aggregations now (r ∷ records) =
      group_records name aggregations now r.stream_name 0 (groups_of name (r ∷ records) [])
