-- ===== src/Executor/Filter/Keys.antt =====
-- The point lookup of `execute_query`: which filters fix the key, and which stages are left out.
use liven.Prelude.{
  ◌≡◌, ◌≢◌, ◌↔◌, refl, sym, ap, ◌∙◌, Bool, true, false, not, ◌&&◌, some, List, [], ◌∷◌, arith,
  if◌then◌else◌, and_false, Bool-cases, Option-cases, inl, inr,
}
use liven.Bytes.{Bytes, ascii, bytes_eq}
use liven.Bytes.Order.{bytes_eq_iff, bytes_eq→eq}
use liven.Types.{
  DataValue, null, bool, int, uint, float, string, binary, array, object, vector, FilterExpr,
  simple, and, or, Op, Record, PipelineStage,
}
use liven.Types
use liven.Storage.Key.{as_str}
use liven.Executor.Filter.{
  FilterLibrary, evaluate_filter_expr, extract_key_from_filter, is_key_equality_filter,
}

abbrev pub key_field : Bytes
key_field = ascii "key"

-- `key == k`
abbrev pub key_is : Bytes → FilterExpr
key_is k = simple key_field Op.eq (string k)

-- a filter with no negation
abbrev pub IsPositive : FilterExpr → Type 0
IsPositive (simple _ _ _) = Unit
IsPositive (and left right) = IsPositive left × IsPositive right
IsPositive (or left right) = IsPositive left × IsPositive right
IsPositive (Types.FilterExpr.not expr) = ⊥

-- the stages that are still applied to the record of a point lookup
abbrev satisfied : PipelineStage → Bool
satisfied (PipelineStage.from _) = true
satisfied (PipelineStage.get _) = true
satisfied (PipelineStage.filter expr) = is_key_equality_filter expr
satisfied _ = false

unfoldable pub remaining_stages : List PipelineStage → List PipelineStage
remaining_stages [] = []
remaining_stages (stage ∷ stages) =
    let rest = remaining_stages stages in if satisfied stage then rest else stage ∷ rest

and_parts : (a b : Bool) → (a && b) ≡ true → (a ≡ true) × (b ≡ true)
and_parts true true h = (refl, refl)
and_parts true false h = cc
and_parts false b h = cc

module _ (lib : FilterLibrary)
    (strings : (a b : Bytes) → lib.value_eq (string a) (string b) ≡ bytes_eq a b) where
  evaluate-key_is :
      (r : Record) (k : Bytes) → evaluate_filter_expr lib r (key_is k) ≡ bytes_eq (as_str r.key) k
  unfolding evaluate_filter_expr bytes_eq
  evaluate-key_is r k = strings (as_str r.key) k

  simple_key :
      (r : Record) (name : Bytes) (op : Op) (v : DataValue) (k : Bytes)
      → extract_key_from_filter (simple name op v) ≡ some k
      → (name ≡ key_field) × (op ≡ Op.eq) × (v ≡ string k)
  unfolding extract_key_from_filter
  simple_key r name op v k e = elim (Bool-cases (bytes_eq name key_field)) [
    | inl same ↦ (bytes_eq→eq name key_field same, ground arith, ground arith)
    | inr other ↦ absurd (ground arith)
  ]

  -- A filter without a negation from which the planner reads the key `k` lets only records with
  -- that key through, so that looking `k` up finds all of them.
  pub extract_key_from_filter-fixes :
      (r : Record) (expr : FilterExpr) (k : Bytes)
      → IsPositive expr
      → extract_key_from_filter expr ≡ some k
      → evaluate_filter_expr lib r expr ≡ true
      → as_str r.key ≡ k
  extract_key_from_filter-fixes r (simple name op v) k pos e h =
      let (en, eo, ev) = simple_key r name op v k e in
      bytes_eq→eq (as_str r.key) k (sym (evaluate-key_is r k) ∙ (rw (en, eo, ev) at h))
  extract_key_from_filter-fixes r (and left right) k pos e h =
      elim (Option-cases (extract_key_from_filter left)) [
        | inl without ↦
            extract_key_from_filter-fixes r right k pos.1
              (unfold extract_key_from_filter in ground (arith, e, without)) (parts.1)
        | inr found ↦
            extract_key_from_filter-fixes r left k pos.0
              (unfold extract_key_from_filter in ground (arith, e, found.1)) (parts.0)
      ]
    where
      parts : (evaluate_filter_expr lib r left ≡ true) × (evaluate_filter_expr lib r right ≡ true)
      parts =
          and_parts (evaluate_filter_expr lib r left) (evaluate_filter_expr lib r right)
            (unfold evaluate_filter_expr in h)
  extract_key_from_filter-fixes r (or left right) k pos e h = unfold extract_key_from_filter in cc
  extract_key_from_filter-fixes r (Types.FilterExpr.not expr) k pos e h = absurd pos

  evaluate-negated :
      (r : Record) (k : Bytes)
      → evaluate_filter_expr lib r (Types.FilterExpr.not (key_is k))
        ≡ not (bytes_eq (as_str r.key) k)
  evaluate-negated r k = step ∙ ap not (evaluate-key_is r k)
    where
      step :
          evaluate_filter_expr lib r (Types.FilterExpr.not (key_is k))
          ≡ not (evaluate_filter_expr lib r (key_is k))
      step = unfold evaluate_filter_expr in refl

  other_keys :
      (r : Record) (k : Bytes)
      → (evaluate_filter_expr lib r (Types.FilterExpr.not (key_is k)) ≡ true) ↔ (as_str r.key ≢ k)
  other_keys r k = rw (evaluate-negated r k) (
    λ h e. ground (arith, h, e, bytes_eq_iff (as_str r.key) k),
    λ h. ground (arith, h, bytes_eq_iff (as_str r.key) k),
  )

  -- The planner reads the key `k` off the negated filter `not(key == k)` too, but the records that
  -- this filter lets through are exactly those with another key.
  pub negated_key :
      (r : Record) (k : Bytes)
      → (extract_key_from_filter (Types.FilterExpr.not (key_is k)) ≡ some k)
        × ((evaluate_filter_expr lib r (Types.FilterExpr.not (key_is k)) ≡ true)
            ↔ (as_str r.key ≢ k))
  unfolding extract_key_from_filter bytes_eq
  negated_key r k = (refl, other_keys r k)

  fails_right :
      (r : Record) (left right : FilterExpr)
      → evaluate_filter_expr lib r right ≡ false
      → evaluate_filter_expr lib r (and left right) ≡ false
  fails_right r left right h =
      unfold evaluate_filter_expr in rw h (and_false (evaluate_filter_expr lib r left))

  -- A point lookup by `key == k and rest` applies no filter to the record that it finds: both
  -- conjuncts are left out of the remaining stages, also when the record with the key `k` does not
  -- pass the filter, because it fails `rest`.
  pub dropped_conjunct :
      (r : Record) (s k : Bytes) (rest : FilterExpr)
      → evaluate_filter_expr lib r rest ≡ false
      → (extract_key_from_filter (and (key_is k) rest) ≡ some k)
        × (remaining_stages (PipelineStage.from s ∷ PipelineStage.filter (and (key_is k) rest) ∷ [])
            ≡ [])
        × (evaluate_filter_expr lib r (and (key_is k) rest) ≡ false)
  unfolding extract_key_from_filter remaining_stages is_key_equality_filter bytes_eq
  dropped_conjunct r s k rest h = (refl, refl, fails)
    where
      fails : evaluate_filter_expr lib r (and (key_is k) rest) ≡ false
      fails = fails_right r (key_is k) rest h
