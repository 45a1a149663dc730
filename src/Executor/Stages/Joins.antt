-- ===== src/Executor/Stages/Joins.antt =====
-- The stages that read other streams (src/executor.rs): `enrich`, `chain` and `correlate`. The
-- reads of the engine are an interface.
use liven.Prelude.{
  ℕ, suc, ◌-◌, ◌%◌, ◌^◌, ◌||◌, Option, none, some, List, [], ◌∷◌, ◌++◌, ℤ, ◌+ℤ◌, ◌-ℤ◌, ltb_ℤ, ◌==◌,
  if◌then◌else◌,
}
use liven.Bytes.{Bytes, ascii, bytes_eq, i64_bits, i64_of_bits}
use liven.Types.{DataValue, string, Record}
use liven.Error.{LivenError, Result, ok, err}
use liven.Executor.Filter.{FilterLibrary, evaluate_record_field}
use liven.Executor.Json.{
  JsonLibrary, datavalue_to_json, text_json, merge_record_values, enrich_with,
}
use liven.Executor.Stages.Text.{TextLibrary, join_text, show_u64}

-- the reads that the stages call
pub record EngineReads : Type 0 where
  pub get : Bytes → Bytes → Result LivenError (Option Record)
  pub scan_live_stream : Bytes → ℕ → Result LivenError (List Record)

-- a lookup whose error counts as nothing found
abbrev found : Result LivenError (Option Record) → Option Record
found (ok o) = o
found (err x) = none

-- `unwrap_or_default`
abbrev records_of : Result LivenError (List Record) → List Record
records_of (ok rs) = rs
records_of (err x) = []

module _ (lib : FilterLibrary) (J : JsonLibrary) (texts : TextLibrary) (engine : EngineReads) where
  abbrev enriched : Record → Option Record → Record
  enriched r none = r
  enriched r (some other) = enrich_with J r other

  abbrev enrich_by : Bytes → Record → Option DataValue → Record
  enrich_by source_stream r none = r
  enrich_by source_stream r (some v) =
      enriched r (found (engine.get source_stream (join_text texts v)))

  unfoldable pub enrich_record : Bytes → Bytes → Record → Record
  unfolding evaluate_record_field join_text enrich_with
  enrich_record source_stream join_key r =
      enrich_by source_stream r (evaluate_record_field lib r join_key)

  abbrev merged : Bytes → Record → Option Record → Record
  merged target_stream r none = r
  merged target_stream r (some target) = record r {
    value = merge_record_values J r target target_stream;
  }

  abbrev text_or : Bytes → Option Bytes → Bytes
  text_or printed none = printed
  text_or printed (some s) = s

  -- a text without its quotes, any other document as it is printed
  abbrev json_text : J.Json → Bytes
  json_text j = text_or (J.to_string j) (J.as_str j)

  abbrev member : Bytes → Option J.Map → Option J.Json
  member name none = none
  member name (some m) = J.get name m

  -- the join key in the first nested document that has it
  abbrev nested_key : Bytes → List (Bytes × J.Json) → Option J.Json
  nested_key join_key [] = none
  nested_key join_key ((k, v) ∷ es) =
      let rest = nested_key join_key es in
      elim (member join_key (J.as_object v)) [ none ↦ rest | some j ↦ some j ]

  abbrev nested_in_map : Bytes → Option J.Map → Option J.Json
  nested_in_map join_key none = none
  nested_in_map join_key (some m) = nested_key join_key (J.entries m)

  abbrev nested_in : Bytes → Option J.Json → Option J.Json
  nested_in join_key none = none
  nested_in join_key (some j) = nested_in_map join_key (J.as_object j)

  abbrev nested_of : Bytes → DataValue → Option J.Json
  nested_of join_key (string s) = nested_in join_key (J.from_str s)
  nested_of join_key _ = none

  abbrev chain_nested : Bytes → Record → Option J.Json → Record
  chain_nested target_stream r none = r
  chain_nested target_stream r (some j) =
      merged target_stream r (found (engine.get target_stream (json_text j)))

  abbrev chain_by : Bytes → Bytes → Record → Option DataValue → Record
  chain_by target_stream join_key r (some v) =
      merged target_stream r (found (engine.get target_stream (join_text texts v)))
  chain_by target_stream join_key r none = chain_nested target_stream r (nested_of join_key r.value)

  unfoldable pub chain_record : Bytes → Bytes → Record → Record
  unfolding evaluate_record_field join_text merge_record_values
  chain_record target_stream join_key r =
      chain_by target_stream join_key r (evaluate_record_field lib r join_key)

  abbrev keyed : Record → Option DataValue → List (Bytes × Record) → List (Bytes × Record)
  keyed r none m = m
  keyed r (some v) m = (join_text texts v, r) ∷ m

  -- the records of the other stream with their join keys, in the order of the scan
  unfoldable pub source_map : Bytes → List Record → List (Bytes × Record)
  unfolding evaluate_record_field join_text
  source_map join_key [] = []
  source_map join_key (r ∷ rs) =
      keyed r (evaluate_record_field lib r join_key) (source_map join_key rs)

  abbrev insert_match : Option J.Map → ℕ → Record → J.Json → J.Json
  insert_match none n other value = value
  insert_match (some m) n other value =
      J.object (J.insert (ascii "correlated_" ++ show_u64 n) (text_json J other.value) m)

  -- the matches among the candidates: how many, and the document with them
  unfoldable pub matches : Bytes → ℤ → ℤ → List (Bytes × Record) → ℕ × J.Json → ℕ × J.Json
  unfolding datavalue_to_json show_u64
  matches key lo hi [] (n, value) = (n, value)
  matches key lo hi ((k, other) ∷ m) (n, value) =
      let next =
        matches key lo hi m (suc n, insert_match (J.as_object value) (suc n) other value) in
      let skip = matches key lo hi m (n, value) in
      if bytes_eq k key
      then (if ltb_ℤ other.timestamp lo || ltb_ℤ hi other.timestamp then skip else next)
      else skip

  abbrev with_count : ℕ → J.Json → Option J.Map → J.Json
  with_count n value none = value
  with_count n value (some m) = J.object (J.insert (ascii "correlated_count") (J.of_u64 n) m)

  abbrev correlated : Record → ℕ × J.Json → List Record → List Record
  correlated r (n, value) rest =
      if n == 0
      then rest
      else record r { value = string (J.to_string (with_count n value (J.as_object value))) } ∷ rest

  -- the wrap-around of i64
  abbrev wrapped : ℤ → ℤ
  wrapped z = i64_of_bits (i64_bits z)

  abbrev correlate_by :
      List (Bytes × Record) → ℤ → Record → Option DataValue → List Record → List Record
  correlate_by m within r none rest = rest
  correlate_by m within r (some v) rest =
      correlated r
        (matches (join_text texts v) (wrapped (r.timestamp -ℤ within))
          (wrapped (r.timestamp +ℤ within)) m (0, datavalue_to_json J r.value))
        rest

  unfoldable pub correlate_records : List (Bytes × Record) → Bytes → ℤ → List Record → List Record
  unfolding evaluate_record_field join_text matches datavalue_to_json i64_bits i64_of_bits
  correlate_records m join_key within [] = []
  correlate_records m join_key within (r ∷ records) =
      correlate_by m within r (evaluate_record_field lib r join_key)
        (correlate_records m join_key within records)

  unfoldable pub correlate : Bytes → Bytes → ℕ → List Record → List Record
  unfolding source_map correlate_records i64_of_bits
  correlate source_stream join_key within_ms records =
      correlate_records
        (source_map join_key (records_of (engine.scan_live_stream source_stream (2 ^ 64 - 1))))
        join_key (i64_of_bits (within_ms % 2 ^ 64)) records
