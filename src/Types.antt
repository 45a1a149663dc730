-- ===== src/Types.antt =====
-- src/types.rs: the values, filters, pipeline stages, pointers and records of the engine. A `String`
-- is its UTF-8 bytes, an `f64` (`OrderedFloat<f64>`) its 64-bit pattern, a `usize` a number.
use liven.Prelude.{ℕ, Bool, List, ℤ}
use liven.Bytes.{Bytes}

-- `Array(Vec<DataValue>)` and `Object(BTreeMap<String, DataValue>)` hold lists of values; the
-- entries of an object stand in the order of their keys.
mutual
  pub data DataValue : Type 0 where
    null : DataValue
    bool : Bool → DataValue
    int : ℤ → DataValue
    uint : ℕ → DataValue
    float : ℕ → DataValue
    string : Bytes → DataValue
    binary : Bytes → DataValue
    array : Values → DataValue
    object : Fields → DataValue
    vector : List ℤ → DataValue

  pub data Values : Type 0 where
    nil : Values
    cons : DataValue → Values → Values

  pub data Fields : Type 0 where
    end : Fields
    field : Bytes → DataValue → Fields → Fields

pub data Op : Type 0 where
  eq not_eq gt lt gt_eq lt_eq in_ starts_with contains ends_with between : Op

pub data FilterExpr : Type 0 where
  simple : Bytes → Op → DataValue → FilterExpr
  and or : FilterExpr → FilterExpr → FilterExpr
  not : FilterExpr → FilterExpr

pub data AggregateStrategy : Type 0 where
  count sum average : AggregateStrategy

pub data ExportFormat : Type 0 where
  jsonl csv msg_pack : ExportFormat

pub data PipelineStage : Type 0 where
  from : Bytes → PipelineStage
  filter : FilterExpr → PipelineStage
  vector_filter : Bytes → List ℤ → ℕ → PipelineStage
  vector_search : Bytes → List ℤ → ℕ → PipelineStage
  get : Bytes → PipelineStage
  map : List Bytes → PipelineStage
  window : ℕ → AggregateStrategy → PipelineStage
  limit : ℕ → PipelineStage
  export : ExportFormat → PipelineStage
  enrich : Bytes → Bytes → PipelineStage
  delete trash count : PipelineStage
  sort : Bytes → Bool → PipelineStage
  page : ℕ → ℕ → PipelineStage
  page_cursor : Bytes → ℕ → PipelineStage
  group : Bytes → List Bytes → PipelineStage
  correlate : Bytes → Bytes → ℕ → PipelineStage
  sequence : List FilterExpr → ℕ → PipelineStage
  chain : Bytes → Bytes → PipelineStage
  distinct : Bytes → PipelineStage
  history : PipelineStage

pub record LogPointer : Type 0 where
  pub segment_id : ℕ
  pub file_offset : ℕ
  pub seq_id : ℕ
  pub timestamp : ℤ

-- `StreamKey` (src/storage/key.rs): 32 bytes, of which the first `len` count.
pub record StreamKey : Type 0 where
  pub bytes : Bytes
  pub len : ℕ

pub record Record : Type 0 where
  pub sequence_id : ℕ
  pub timestamp : ℤ
  pub type_tag : ℕ
  pub flags : ℕ
  pub stream_name : Bytes
  pub key : StreamKey
  pub value : DataValue

-- `DataValue::type_tag`
unfoldable pub type_tag : DataValue → ℕ
type_tag null = 0
type_tag (bool _) = 1
type_tag (int _) = 2
type_tag (uint _) = 3
type_tag (float _) = 4
type_tag (string _) = 5
type_tag (binary _) = 6
type_tag (array _) = 7
type_tag (object _) = 9
type_tag (vector _) = 8
