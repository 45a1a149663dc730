-- ===== src/Tests/Pipelines.antt =====
-- Pipeline stages at concrete records.
use liven.Prelude.{◌≡◌, false, none, some, [], ◌∷◌, pos, arith, ltb}
use liven.Bytes.{Bytes, ascii}
use liven.Types.{vector, Record}
use liven.Error.{ok}
use liven.Executor.Json.{JsonLibrary}
use liven.Executor.Vector.{FloatLibrary, vector_search}
use liven.Executor.Vector.Top.{IsFloatOrder}
use liven.Executor.Vector.Search.{Answers, candidates, vector_search-Answers}
use liven.Executor.Stages.{distinct}
use liven.Executor.Stages.Text.{TextLibrary}
use liven.Executor.Stages.Joins.{EngineReads}
use liven.Executor.Stages.Distinct.{IsDistinct, distinct-IsDistinct}
use liven.Executor.Stages.Pages.{pages, pages-take}
use liven.Executor.Stages.Windows.{Groups, windows_of-Groups}
use liven.Executor.Stages.Window.{windows_of}
use liven.Tests.Queries.{plain, reading, later}

-- numbers by their bits
abbrev floats : FloatLibrary
floats = record {
  add = λ a b. a;
  mul = λ a b. a;
  div = λ a b. a;
  sqrt = λ a. a;
  lt = λ a b. ltb a b;
  ge = λ a b. ltb b a;
}

-- documents that are texts, and no maps
abbrev documents : JsonLibrary
documents = record {
  Json = Bytes;
  Map = Bytes;
  null = [];
  bool = λ b. [];
  of_i64 = λ i. [];
  of_u64 = λ u. [];
  from_f64 = λ f. none;
  string = λ s. s;
  array = λ js. [];
  object = λ m. m;
  as_object = λ j. none;
  is_null = λ j. false;
  as_f64 = λ j. none;
  as_str = λ j. some j;
  new = [];
  insert = λ k v m. v;
  get = λ k m. none;
  entries = λ m. [];
  from_str = λ s. none;
  to_string = λ j. j;
  from_slice = λ b. none;
  from_utf8_lossy = λ b. b;
}

abbrev texts : TextLibrary
texts = record { show_f64 = λ f. []; debug = λ v. []; display = λ v. [] }

abbrev no_reads : EngineReads
no_reads = record { get = λ s k. ok none; scan_live_stream = λ s n. ok [] }

plain-IsFloatOrder : IsFloatOrder plain
plain-IsFloatOrder = record {
  same = λ x y. ground arith;
  asym = λ x y h. ground (arith, h);
  trans = λ x y z h k. ground (arith, h, k);
}

abbrev placed : Record
placed = record reading { value = vector (pos 3 ∷ pos 4 ∷ []) }

vector_search-Answers_example :
    Answers plain floats
      (ascii "value")
      (pos 1 ∷ pos 2 ∷ [])
      plain-IsFloatOrder
      1
      documents
      (candidates plain floats (ascii "value") (pos 1 ∷ pos 2 ∷ []) (placed ∷ placed ∷ []))
      (vector_search plain floats documents
        (ascii "value")
        (pos 1 ∷ pos 2 ∷ [])
        1
        (placed ∷ placed ∷ []))
vector_search-Answers_example =
    vector_search-Answers plain floats (ascii "value") (pos 1 ∷ pos 2 ∷ []) plain-IsFloatOrder 1
      documents (placed ∷ placed ∷ []) (omega arith)

distinct-IsDistinct_example :
    IsDistinct plain floats documents texts 0 0
      (ascii "key")
      (reading ∷ later ∷ [])
      (distinct plain floats documents texts 0 0 (ascii "key") (reading ∷ later ∷ []))
distinct-IsDistinct_example =
    distinct-IsDistinct plain floats documents texts 0 0 (ascii "key") (reading ∷ later ∷ [])

pages-take_example : pages 2 1 (reading ∷ later ∷ reading ∷ []) ≡ some (reading ∷ later ∷ [])
pages-take_example = pages-take 2 1 (reading ∷ later ∷ reading ∷ []) (omega arith) (omega arith)

windows_of-Groups_example :
    Groups 100 (reading ∷ later ∷ []) (windows_of 100 (reading ∷ later ∷ []) [])
windows_of-Groups_example = windows_of-Groups 100 (reading ∷ later ∷ []) (omega arith) (omega arith)
