-- ===== src/Executor/Vector/Search.antt =====
-- `vector_search` against its description: the best candidates, best first.
use mathlib.Core.List.{Perm, perm_middle}
use mathlib.Core.List.Perm
use liven.Prelude.{
  ℕ, ◌<◌, ◌≡◌, refl, true, false, inl, inr, Option, none, some, List, [], ◌∷◌, ◌++◌, ℤ, arith, ◌==◌,
  All, map, append-nil, if◌then◌else◌,
}
use liven.Prelude.Sort.{sort, sort-All, sort-IsSorted, sort-perm, length-sort, IsSorted}
use liven.Bytes.{Bytes}
use liven.Types.{Record}
use liven.Error.{LivenError, Result, ok, err, ◌>>=◌}
use liven.Executor.Filter.{FilterLibrary, evaluate_record_field}
use liven.Executor.Json.{JsonLibrary}
use liven.Executor.Vector.{
  FloatLibrary, ScoredCandidate, best_first, scored, push_bounded, vector_of, zero_score,
  cosine_similarity, search, vector_search, attach, push_record,
}
use liven.Executor.Vector.Top.{
  IsFloatOrder, IsTop, IsHeap, push_bounded-IsHeap, best_first_trans, worst_first-total,
}

module _ (lib : FilterLibrary) (F : FloatLibrary) (field : Bytes) (query_vector : List ℤ) where
  abbrev pub add_candidate :
      Record → Option (List ℤ) → List (ScoredCandidate lib F) → List (ScoredCandidate lib F)
  add_candidate r none cs = cs
  add_candidate r (some xs) cs =
      scored lib F r (zero_score lib F (cosine_similarity lib F xs query_vector)) ∷ cs

  -- All records with the field, scored, in the order of the records; an error where a field is no
  -- vector of the query's dimension.
  abbrev pub candidates : List Record → Result LivenError (List (ScoredCandidate lib F))
  candidates [] = ok []
  candidates (r ∷ records) = do
    v ← vector_of lib F query_vector (evaluate_record_field lib r field)
    cs ← candidates records
    ok (add_candidate r v cs)

  module _ (o : IsFloatOrder lib) (k : ℕ) where
    -- A heap after `seen` and the candidates to come, or the same error.
    abbrev Agrees :
        List (ScoredCandidate lib F)
        → Result LivenError (List (ScoredCandidate lib F))
        → Result LivenError (List (ScoredCandidate lib F))
        → Type 0
    Agrees seen (ok cs) (ok heap) = IsHeap lib F o k (cs ++ seen) heap
    Agrees seen (err x) (err y) = x ≡ y
    Agrees seen _ _ = ⊥

    IsHeap-perm :
        (seen other heap : List (ScoredCandidate lib F))
        → Perm seen other
        → IsHeap lib F o k seen heap
        → IsHeap lib F o k other heap
    IsHeap-perm seen other heap p g = record {
      top = record {
        dropped = g.top.dropped;
        perm = Perm.trans g.top.perm p;
        better = g.top.better;
        bounded = g.top.bounded;
        full = g.top.full;
      };
      sorted = g.sorted;
    }

    Agrees-cons :
        (c : ScoredCandidate lib F) (seen : List (ScoredCandidate lib F))
        (cs heap : Result LivenError (List (ScoredCandidate lib F)))
        → Agrees (c ∷ seen) cs heap
        → Agrees seen (cs >>= λ x. ok (c ∷ x)) heap
    Agrees-cons c seen (ok cs) (ok heap) g =
        IsHeap-perm (cs ++ (c ∷ seen)) (c ∷ (cs ++ seen)) heap (perm_middle cs seen) g
    Agrees-cons c seen (err x) (err y) g = g
    Agrees-cons c seen (ok cs) (err y) g = g
    Agrees-cons c seen (err x) (ok heap) g = g

    Agrees-same :
        (seen : List (ScoredCandidate lib F))
        (cs heap : Result LivenError (List (ScoredCandidate lib F)))
        → Agrees seen cs heap
        → Agrees seen (cs >>= λ x. ok x) heap
    Agrees-same seen (ok cs) heap g = g
    Agrees-same seen (err x) heap g = g

    -- one record, and the records after it from any heap
    step-Agrees :
        (r : Record) (records : List Record) (seen heap : List (ScoredCandidate lib F))
        (v : Result LivenError (Option (List ℤ)))
        → IsHeap lib F o k seen heap
        → ((seen' heap' : List (ScoredCandidate lib F))
            → IsHeap lib F o k seen' heap'
            → Agrees seen' (candidates records) (search lib F field query_vector k records heap'))
        → Agrees seen (v >>= λ x. candidates records >>= λ cs. ok (add_candidate r x cs)) (
            v >>= λ x.
            search lib F field query_vector k records (push_record lib F query_vector k r x heap))
    step-Agrees r records seen heap (err x) g rest = refl
    step-Agrees r records seen heap (ok none) g rest =
        Agrees-same seen (candidates records) (search lib F field query_vector k records heap)
          (rest seen heap g)
    step-Agrees r records seen heap (ok (some xs)) g rest =
        let c = scored lib F r (zero_score lib F (cosine_similarity lib F xs query_vector)) in
        Agrees-cons c seen (candidates records)
          (search lib F field query_vector k records (push_bounded lib F k c heap))
          (rest (c ∷ seen) (push_bounded lib F k c heap)
            (push_bounded-IsHeap lib F o k c seen heap g))

    search-Agrees :
        (records : List Record) (seen heap : List (ScoredCandidate lib F))
        → IsHeap lib F o k seen heap
        → Agrees seen (candidates records) (search lib F field query_vector k records heap)
    unfolding search
    search-Agrees [] seen heap g = g
    search-Agrees (r ∷ records) seen heap g =
        step-Agrees r records seen heap
          (vector_of lib F query_vector (evaluate_record_field lib r field)) g
          (search-Agrees records)

    -- the best candidates, best first, with their scores attached
    pub record IsAnswer (J : JsonLibrary) (cs : List (ScoredCandidate lib F))
        (records : List Record) : Type 0 where
      top : List (ScoredCandidate lib F)
      best : IsTop lib F k cs top
      sorted : IsSorted (best_first lib F) top
      attached : records ≡ map (attach lib F J) top

    abbrev pub Answers :
        JsonLibrary
        → Result LivenError (List (ScoredCandidate lib F))
        → Result LivenError (List Record)
        → Type 0
    Answers J (ok cs) (ok records) = IsAnswer J cs records
    Answers J (err x) (err y) = x ≡ y
    Answers J _ _ = ⊥

    sort-IsAnswer :
        (J : JsonLibrary) (cs heap : List (ScoredCandidate lib F))
        → IsHeap lib F o k cs heap
        → IsAnswer J cs (map (attach lib F J) (sort (best_first lib F) heap))
    sort-IsAnswer J cs heap g = record {
      top = sort (best_first lib F) heap;
      best = record {
        dropped = g.top.dropped;
        perm =
            Perm.trans (Perm.append_right g.top.dropped (sort-perm (best_first lib F) heap))
              g.top.perm;
        better =
            sort-All (best_first lib F) (λ t. All (λ d. best_first lib F t d ≡ true) g.top.dropped)
              heap g.top.better;
        bounded = rw (length-sort (best_first lib F) heap) g.top.bounded;
        full = elim g.top.full [
          | inl e ↦ inl e
          | inr f ↦ inr (rw (length-sort (best_first lib F) heap) f)
        ];
      };
      sorted =
          sort-IsSorted (best_first lib F) (λ x y h. worst_first-total lib F o y x h)
            (best_first_trans lib F o) heap;
      attached = refl;
    }

    -- Where scores are compared by a total order and k is above 0, `vector_search` fails with the
    -- error of the first field that is no vector of the query's dimension, or returns at most k of
    -- the candidates, each with its score attached, in the order best first: none that it leaves
    -- out is better than one that it returns, and it leaves out none unless it returns k.
    pub vector_search-Answers :
        (J : JsonLibrary) (records : List Record)
        → 0 < k
        → Answers J (candidates records) (vector_search lib F J field query_vector k records)
    unfolding vector_search
    vector_search-Answers J records positive =
        rw (nonzero, if◌then◌else◌)
          (go (candidates records) (search lib F field query_vector k records [])
            (search-Agrees records [] [] empty))
      where
        nonzero : (k == 0) ≡ false
        nonzero = ground arith

        empty : IsHeap lib F o k [] []
        empty = record {
          top = record {
            dropped = [];
            perm = Perm.refl [];
            better = tt;
            bounded = omega arith;
            full = inl refl;
          };
          sorted = tt;
        }

        go :
            (cs heap : Result LivenError (List (ScoredCandidate lib F)))
            → Agrees [] cs heap
            → Answers J cs (heap >>= λ h. ok (map (attach lib F J) (sort (best_first lib F) h)))
        go (ok cs) (ok heap) g = sort-IsAnswer J cs heap (rw (append-nil cs) at g)
        go (err x) (err y) g = g
        go (ok cs) (err y) g = absurd g
        go (err x) (ok heap) g = absurd g
