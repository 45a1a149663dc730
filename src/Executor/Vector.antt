-- ===== src/Executor/Vector.antt =====
-- The vector stages (src/executor.rs): strict conversion of a field to int8 values, cosine
-- similarity, `vector_filter` and `vector_search`. The heap of `vector_search` keeps its worst
-- candidate at the head.
pub mod Top
pub mod Search
use liven.Prelude.{
  ℕ, ◌+◌, Bool, true, false, not, ◌&&◌, ◌||◌, Option, none, some, List, [], ◌∷◌, ℤ, pos, ◌+ℤ◌, ◌*ℤ◌,
  neg_part, pos_part, ltb, leb, ◌==◌, if◌then◌else◌, length, map, drop,
}
use liven.Prelude.Sort.{insert_sorted, sort}
use liven.Bytes.{Bytes, ascii}
use liven.Types.{
  DataValue, null, bool, int, uint, float, string, binary, array, object, vector, Values, nil, cons,
  Record,
}
use liven.Error.{LivenError, query, Result, ok, err, ◌>>=◌}
use liven.Executor.Filter.{FilterLibrary, evaluate_record_field}
use liven.Executor.Json.{JsonLibrary, attach_score}

-- `f64` arithmetic, on bit patterns
pub record FloatLibrary : Type 0 where
  pub add : ℕ → ℕ → ℕ
  pub mul : ℕ → ℕ → ℕ
  pub div : ℕ → ℕ → ℕ
  pub sqrt : ℕ → ℕ
  pub lt : ℕ → ℕ → Bool
  pub ge : ℕ → ℕ → Bool

-- `i8::try_from` of an i64
abbrev pub is_i8 : ℤ → Bool
is_i8 i = ltb (pos_part i) 128 && leb (neg_part i) 128

-- one element of a vector; the errors keep the first words of their messages
abbrev pub element : DataValue → Result LivenError ℤ
element (int i) =
    if is_i8 i then ok i else err (query (ascii "int8 element out of range -128..=127"))
element (uint u) =
    if ltb u 128 then ok (pos u) else err (query (ascii "int8 element out of range 0..=127"))
element (float f) = err (query (ascii "floating-point element is not supported"))
element other = err (query (ascii "unsupported element type"))

unfoldable pub elements : Values → Result LivenError (List ℤ)
elements nil = ok []
elements (cons item items) = do b ← element item; bs ← elements items; ok (b ∷ bs)

unfoldable pub to_vector_strict : DataValue → Result LivenError (List ℤ)
unfolding elements
to_vector_strict (vector v) = ok v
to_vector_strict (array items) = elements items
to_vector_strict (string s) = err (query (ascii "field is a string, not an int8 vector"))
to_vector_strict other = err (query (ascii "unsupported type"))

-- Σ xᵢ·yᵢ over the common length. The sums of int8 products stay within i64.
unfoldable pub dot_product : List ℤ → List ℤ → ℤ
dot_product [] ys = pos 0
dot_product (x ∷ xs) [] = pos 0
dot_product (x ∷ xs) (y ∷ ys) = x *ℤ y +ℤ dot_product xs ys

abbrev pub is_zero : ℤ → Bool
is_zero i = pos_part i == 0 && neg_part i == 0

module _ (lib : FilterLibrary) (F : FloatLibrary) where
  unfoldable pub cosine_similarity : List ℤ → List ℤ → Option ℕ
  unfolding dot_product
  cosine_similarity a b =
      if not (length a == length b) || length a == 0
      then none
      else if is_zero (dot_product a a) || is_zero (dot_product b b)
      then some 0
      else some (
          F.div (lib.of_i64 (dot_product a b))
            (F.mul (F.sqrt (lib.of_i64 (dot_product a a))) (F.sqrt (lib.of_i64 (dot_product b b)))))

  -- The vector of a record that has the field, of the query's dimension.
  abbrev checked : List ℤ → Result LivenError (List ℤ) → Result LivenError (List ℤ)
  checked query_vector v = do
    xs ← v
    if not (length xs == length query_vector)
        then err (query (ascii "dimension mismatch"))
        else ok xs

  abbrev pub vector_of : List ℤ → Option DataValue → Result LivenError (Option (List ℤ))
  vector_of query_vector none = ok none
  vector_of query_vector (some val) = do
    xs ← checked query_vector (to_vector_strict val)
    ok (some xs)

  abbrev pub reaches : ℕ → Option ℕ → Bool
  reaches threshold none = false
  reaches threshold (some sim) = F.ge sim threshold

  abbrev keep_near : List ℤ → ℕ → Record → Option (List ℤ) → List Record → List Record
  keep_near query_vector threshold r none kept = kept
  keep_near query_vector threshold r (some xs) kept =
      if reaches threshold (cosine_similarity xs query_vector) then r ∷ kept else kept

  unfoldable pub vector_filter : Bytes → List ℤ → ℕ → List Record → Result LivenError (List Record)
  unfolding evaluate_record_field to_vector_strict cosine_similarity
  vector_filter field query_vector threshold [] = ok []
  vector_filter field query_vector threshold (r ∷ records) = do
    v ← vector_of query_vector (evaluate_record_field lib r field)
    kept ← vector_filter field query_vector threshold records
    ok (keep_near query_vector threshold r v kept)

  pub record ScoredCandidate : Type 0 where
    pub score : ℕ
    pub sequence_id : ℕ
    pub candidate : Record

  -- `Ord for ScoredCandidate`: a lower score, or the same score and a higher sequence id
  abbrev pub is_worse : ScoredCandidate → ScoredCandidate → Bool
  is_worse a b =
      lib.f64_lt a.score b.score || (lib.f64_eq a.score b.score && ltb b.sequence_id a.sequence_id)

  abbrev pub worst_first : ScoredCandidate → ScoredCandidate → Bool
  worst_first a b = not (is_worse b a)

  abbrev pub best_first : ScoredCandidate → ScoredCandidate → Bool
  best_first a b = not (is_worse a b)

  abbrev pub scored : Record → ℕ → ScoredCandidate
  scored r score = record { score = score; sequence_id = r.sequence_id; candidate = r }

  -- `heap.push`, and `heap.pop` beyond the bound
  unfoldable pub push_bounded : ℕ → ScoredCandidate → List ScoredCandidate → List ScoredCandidate
  unfolding insert_sorted
  push_bounded top_k c heap =
      let pushed = insert_sorted worst_first c heap in
      if ltb top_k (length pushed) then drop 1 pushed else pushed

  abbrev pub zero_score : Option ℕ → ℕ
  zero_score none = 0
  zero_score (some sim) = sim

  abbrev pub push_record :
      List ℤ → ℕ → Record → Option (List ℤ) → List ScoredCandidate → List ScoredCandidate
  push_record query_vector top_k r none heap = heap
  push_record query_vector top_k r (some xs) heap =
      push_bounded top_k (scored r (zero_score (cosine_similarity xs query_vector))) heap

  unfoldable pub search :
      Bytes
      → List ℤ
      → ℕ
      → List Record
      → List ScoredCandidate
      → Result LivenError (List ScoredCandidate)
  unfolding evaluate_record_field to_vector_strict cosine_similarity push_bounded
  search field query_vector top_k [] heap = ok heap
  search field query_vector top_k (r ∷ records) heap = do
    v ← vector_of query_vector (evaluate_record_field lib r field)
    search field query_vector top_k records (push_record query_vector top_k r v heap)

  module _ (J : JsonLibrary) where
    abbrev pub attach : ScoredCandidate → Record
    attach c = attach_score J c.candidate c.score

    unfoldable pub vector_search :
        Bytes → List ℤ → ℕ → List Record → Result LivenError (List Record)
    unfolding search sort attach_score
    vector_search field query_vector top_k records =
        if top_k == 0 then err (query (ascii "vector_search: k must be >= 1")) else (do
          heap ← search field query_vector top_k records []
          ok (map attach (sort best_first heap)))
