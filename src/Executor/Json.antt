-- ===== src/Executor/Json.antt =====
-- The JSON side of the executor (src/executor.rs): values as documents, and the stages that write a
-- document into a record. serde_json and MessagePack are not part of the repository: documents and
-- their maps are an argument.
use liven.Prelude.{ℕ, Bool, Option, none, some, List, [], ◌∷◌, ℤ, if◌then◌else◌}
use liven.Bytes.{Bytes, ascii, bytes_eq}
use liven.Types.{
  DataValue, null, bool, int, uint, float, string, binary, array, object, vector, Values, nil, cons,
  Fields, end, field, Record,
}
use liven.Storage.Key.{as_str}

-- `serde_json::Value` and its `Map`
pub record JsonLibrary : Type 1 where
  pub Json : Type 0
  pub Map : Type 0
  pub null : Json
  pub bool : Bool → Json
  pub of_i64 : ℤ → Json
  pub of_u64 : ℕ → Json
  pub from_f64 : ℕ → Option Json
  pub string : Bytes → Json
  pub array : List Json → Json
  pub object : Map → Json
  pub as_object : Json → Option Map
  pub is_null : Json → Bool
  pub as_f64 : Json → Option ℕ
  pub as_str : Json → Option Bytes
  pub new : Map
  pub insert : Bytes → Json → Map → Map
  pub get : Bytes → Map → Option Json
  pub entries : Map → List (Bytes × Json)
  pub from_str : Bytes → Option Json
  pub to_string : Json → Bytes
  pub from_slice : Bytes → Option Json
  pub from_utf8_lossy : Bytes → Bytes

abbrev pub unwrap_or {ℓ} : {A : Type ℓ} → A → Option A → A
unwrap_or a none = a
unwrap_or a (some b) = b

module _ (J : JsonLibrary) where
  abbrev vector_json : List ℤ → List J.Json
  vector_json [] = []
  vector_json (x ∷ xs) = J.of_i64 x ∷ vector_json xs

  unfoldable mutual
    pub datavalue_to_json : DataValue → J.Json
    datavalue_to_json null = J.null
    datavalue_to_json (bool b) = J.bool b
    datavalue_to_json (int i) = J.of_i64 i
    datavalue_to_json (uint u) = J.of_u64 u
    datavalue_to_json (float f) = unwrap_or J.null (J.from_f64 f)
    datavalue_to_json (string s) = unwrap_or (J.string s) (J.from_str s)
    datavalue_to_json (binary b) = unwrap_or (J.string (J.from_utf8_lossy b)) (J.from_slice b)
    datavalue_to_json (array items) = J.array (values_json items)
    datavalue_to_json (object fields) = J.object (fields_json fields J.new)
    datavalue_to_json (vector xs) = J.array (vector_json xs)

    values_json : Values → List J.Json
    values_json nil = []
    values_json (cons v vs) = datavalue_to_json v ∷ values_json vs

    fields_json : Fields → J.Map → J.Map
    fields_json end m = m
    fields_json (field k v fs) m = fields_json fs (J.insert k (datavalue_to_json v) m)

  -- a document's map, or a map with the document under `value`
  abbrev as_map : J.Json → Option J.Map → J.Map
  as_map json (some m) = m
  as_map json none = J.insert (ascii "value") json J.new

  unfoldable pub attach_score : Record → ℕ → Record
  unfolding datavalue_to_json
  attach_score r score =
      let base = datavalue_to_json r.value in
      let obj = as_map base (J.as_object base) in
      record r {
        value = string (
            J.to_string
              (J.object (J.insert (ascii "_score") (unwrap_or J.null (J.from_f64 score)) obj)));
      }

  -- A text is parsed, and kept as a text where it is no document.
  abbrev pub text_json : DataValue → J.Json
  text_json (string s) = unwrap_or (J.string s) (J.from_str s)
  text_json other = datavalue_to_json other

  unfoldable pub merge_record_values : Record → Record → Bytes → DataValue
  unfolding datavalue_to_json
  merge_record_values source target target_stream =
      let source_json = text_json source.value in
      let merged = as_map source_json (J.as_object source_json) in
      string (J.to_string (J.object (J.insert target_stream (text_json target.value) merged)))

  -- what the fields of a projection are read from
  abbrev projection_source : DataValue → Option J.Json
  projection_source (string s) = J.from_str s
  projection_source (object fields) = some (datavalue_to_json (object fields))
  projection_source _ = none

  -- `json.get(proj)`
  abbrev member : Bytes → Option J.Map → Option J.Json
  member name none = none
  member name (some m) = J.get name m

  abbrev insert_some : Bytes → Option J.Json → J.Map → J.Map
  insert_some name none m = m
  insert_some name (some v) m = J.insert name v m

  abbrev project_other : Record → Option J.Json → Bytes → J.Map → J.Map
  project_other r (some json) name m = insert_some name (member name (J.as_object json)) m
  project_other r none name m =
      if bytes_eq name (ascii "value") then J.insert name (datavalue_to_json r.value) m else m

  unfoldable pub project_field : Record → Option J.Json → Bytes → J.Map → J.Map
  unfolding datavalue_to_json
  project_field r source name m =
      if bytes_eq name (ascii "key")
      then J.insert name (J.string (as_str r.key)) m
      else if bytes_eq name (ascii "timestamp")
      then J.insert name (J.of_i64 r.timestamp) m
      else if bytes_eq name (ascii "sequence_id")
      then J.insert name (J.of_u64 r.sequence_id) m
      else if bytes_eq name (ascii "stream")
      then J.insert name (J.string r.stream_name) m
      else project_other r source name m

  unfoldable pub project_fields : Record → Option J.Json → List Bytes → J.Map → J.Map
  unfolding project_field
  project_fields r source [] m = m
  project_fields r source (name ∷ names) m =
      project_fields r source names (project_field r source name m)

  unfoldable pub project_record : List Bytes → Record → Record
  unfolding project_fields datavalue_to_json
  project_record projections r = record r {
    value =
        string
          (J.to_string (J.object (project_fields r (projection_source r.value) projections J.new)));
  }

  abbrev insert_all : List (Bytes × J.Json) → J.Map → J.Map
  insert_all [] m = m
  insert_all ((k, v) ∷ es) m = insert_all es (J.insert k v m)

  -- the two documents of an enrichment
  abbrev main_json : DataValue → J.Json
  main_json (string s) = unwrap_or J.null (J.from_str s)
  main_json (object fields) = datavalue_to_json (object fields)
  main_json _ = J.null

  abbrev other_json : DataValue → J.Json
  other_json (string s) = unwrap_or J.null (J.from_str s)
  other_json _ = J.null

  abbrev enrich_maps : Record → Record → Bool → Option J.Map → Option J.Map → Record
  enrich_maps r other empty (some m) (some o) = record r {
    value = string (J.to_string (J.object (insert_all (J.entries o) m)));
  }
  enrich_maps r other empty none (some o) = if empty then record r { value = other.value } else r
  enrich_maps r other empty m none = r

  unfoldable pub enrich_with : Record → Record → Record
  unfolding datavalue_to_json
  enrich_with r other =
      let main = main_json r.value in
      enrich_maps r other (J.is_null main) (J.as_object main) (J.as_object (other_json other.value))
