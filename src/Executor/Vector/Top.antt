-- ===== src/Executor/Vector/Top.antt =====
-- `vector_search` against its description: the best candidates, best first.
use mathlib.Core.List.Perm
use mathlib.Core.List.{Perm, perm_middle}
use mathlib.Core.Path.{subst}
use liven.Prelude.{
  ℕ, suc, ◌≤◌, ◌<◌, ◌≡◌, ◌⊎◌, refl, true, false, not, ◌&&◌, Bool-cases, inl, inr, List, [], ◌∷◌,
  ◌++◌, arith, length, ltb, All, All-map, All-both, drop, append-nil, if◌then◌else◌,
}
use liven.Prelude.Sort.{
  insert_sorted, insert_sorted-perm, insert_sorted-IsSorted, length-insert_sorted, IsSorted,
}
use liven.Executor.Filter.{FilterLibrary}
use liven.Executor.Vector.{FloatLibrary, ScoredCandidate, worst_first, best_first, push_bounded}

All-always {ℓ} : {A : Type ℓ} (P : A → Type 0) (xs : List A) → ((a : A) → P a) → All P xs
All-always P [] f = tt
All-always P (x ∷ xs) f = (f x, All-always P xs f)

-- `OrderedFloat` is a total order whose equality is that neither side is less.
pub record IsFloatOrder (lib : FilterLibrary) : Type 0 where
  pub same : (x y : ℕ) → lib.f64_eq x y ≡ (not (lib.f64_lt x y) && not (lib.f64_lt y x))
  pub asym : (x y : ℕ) → lib.f64_lt x y ≡ true → lib.f64_lt y x ≡ false
  pub trans : (x y z : ℕ) → lib.f64_lt x y ≡ false → lib.f64_lt y z ≡ false → lib.f64_lt x z ≡ false

module _ (lib : FilterLibrary) (F : FloatLibrary) where
  -- `top` are the best of `seen`, up to `k` of them.
  pub record IsTop (k : ℕ) (seen top : List (ScoredCandidate lib F)) : Type 0 where
    pub dropped : List (ScoredCandidate lib F)
    pub perm : Perm (top ++ dropped) seen
    pub better : All (λ t. All (λ d. best_first lib F t d ≡ true) dropped) top
    pub bounded : length top ≤ k
    pub full : (dropped ≡ []) ⊎ (k ≤ length top)

  module _ (o : IsFloatOrder lib) where
    pub worst_first-total :
        (a b : ScoredCandidate lib F) → worst_first lib F a b ≡ false → worst_first lib F b a ≡ true
    worst_first-total a b h =
        grind (arith, o.same a.score b.score, o.same b.score a.score, o.asym b.score a.score)

    pub best_first_trans :
        (a b c : ScoredCandidate lib F)
        → best_first lib F a b ≡ true
        → best_first lib F b c ≡ true
        → best_first lib F a c ≡ true
    best_first_trans a b c h k = grind (
      arith,
      o.same a.score b.score,
      o.same b.score c.score,
      o.same a.score c.score,
      o.trans a.score b.score c.score,
      o.trans b.score c.score a.score,
      o.trans c.score a.score b.score,
    )

    inserted-IsSorted :
        (c : ScoredCandidate lib F) (heap : List (ScoredCandidate lib F))
        → IsSorted (worst_first lib F) heap
        → IsSorted (worst_first lib F) (insert_sorted (worst_first lib F) c heap)
    inserted-IsSorted =
        insert_sorted-IsSorted (worst_first lib F) worst_first-total
          (λ u v w p q. best_first_trans w v u q p)

    drop-insert-better :
        (c : ScoredCandidate lib F) (heap dropped : List (ScoredCandidate lib F))
        → IsSorted (worst_first lib F) heap
        → All (λ t. All (λ d. best_first lib F t d ≡ true) dropped) heap
        → All
            (λ t. All (λ d. best_first lib F t d ≡ true) dropped)
            (drop 1 (insert_sorted (worst_first lib F) c heap))
    unfolding insert_sorted
    drop-insert-better c [] dropped s h = tt
    drop-insert-better c (y ∷ ys) dropped s h = elim (Bool-cases (worst_first lib F c y)) [
      | inl less ↦ rw (less, if◌then◌else◌) h
      | inr more ↦
          let sorted = inserted-IsSorted c (y ∷ ys) s in
          rw (more, if◌then◌else◌)
            (All-map (λ t. worst_first lib F y t ≡ true)
              (λ t. All (λ d. best_first lib F t d ≡ true) dropped)
              (insert_sorted (worst_first lib F) c ys)
              (λ t p.
                All-map (λ d. best_first lib F y d ≡ true) (λ d. best_first lib F t d ≡ true)
                  dropped (λ d q. best_first_trans t y d p q) h.0)
              (rw (more, if◌then◌else◌) at sorted).0)
    ]

    -- a heap of the best candidates so far
    pub record IsHeap (k : ℕ) (seen heap : List (ScoredCandidate lib F)) : Type 0 where
      pub top : IsTop k seen heap
      pub sorted : IsSorted (worst_first lib F) heap

    overflow-IsHeap :
        (k : ℕ) (c x : ScoredCandidate lib F) (seen heap rest : List (ScoredCandidate lib F))
        → IsHeap k seen heap
        → insert_sorted (worst_first lib F) c heap ≡ x ∷ rest
        → k < length (x ∷ rest)
        → IsHeap k (c ∷ seen) rest
    overflow-IsHeap k c x seen heap rest g e long = record {
      top = record {
        dropped = x ∷ g.top.dropped;
        perm = Perm.trans (perm_middle rest g.top.dropped) (
            Perm.trans
              (rw (e) at
                (Perm.append_right g.top.dropped (insert_sorted-perm (worst_first lib F) c heap)))
              (Perm.cons c g.top.perm));
        better =
            All-both (λ t. best_first lib F t x ≡ true)
              (λ t. All (λ d. best_first lib F t d ≡ true) g.top.dropped) rest ordered.0
              (rw (e) at (drop-insert-better c heap g.top.dropped g.sorted g.top.better));
        bounded = omega (arith, g.top.bounded, size);
        full = inr (omega (arith, long));
      };
      sorted = ordered.1;
    }
      where
        ordered : IsSorted (worst_first lib F) (x ∷ rest)
        ordered = rw (e) at (inserted-IsSorted c heap g.sorted)

        size : length (x ∷ rest) ≡ suc (length heap)
        size = rw (e) at (length-insert_sorted (worst_first lib F) c heap)

    pub push_bounded-IsHeap :
        (k : ℕ) (c : ScoredCandidate lib F) (seen heap : List (ScoredCandidate lib F))
        → IsHeap k seen heap
        → IsHeap k (c ∷ seen) (push_bounded lib F k c heap)
    unfolding push_bounded
    push_bounded-IsHeap k c seen heap g = go (insert_sorted (worst_first lib F) c heap) refl
      where
        size : length (insert_sorted (worst_first lib F) c heap) ≡ suc (length heap)
        size = length-insert_sorted (worst_first lib F) c heap

        fits :
            length (insert_sorted (worst_first lib F) c heap) ≤ k
            → IsHeap k (c ∷ seen) (insert_sorted (worst_first lib F) c heap)
        fits small = record {
          top = record {
            dropped = [];
            perm = rw (append-nil (insert_sorted (worst_first lib F) c heap)) (
                Perm.trans (insert_sorted-perm (worst_first lib F) c heap)
                  (Perm.cons c (rw (nothing, append-nil heap) at g.top.perm)));
            better = All-always (λ t. Unit) (insert_sorted (worst_first lib F) c heap) (λ t. tt);
            bounded = small;
            full = inl refl;
          };
          sorted = inserted-IsSorted c heap g.sorted;
        }
          where
            nothing : g.top.dropped ≡ []
            nothing = elim g.top.full [
              | inl e ↦ e
              | inr full ↦ absurd (omega (arith, full, small, size))
            ]

        go :
            (pushed : List (ScoredCandidate lib F))
            → insert_sorted (worst_first lib F) c heap ≡ pushed
            → IsHeap k (c ∷ seen) (if ltb k (length pushed) then drop 1 pushed else pushed)
        go [] e = absurd (omega (arith, rw (e) at size))
        go (x ∷ rest) e = elim (Bool-cases (ltb k (length (x ∷ rest)))) [
          | inl long ↦
              rw (long, if◌then◌else◌)
                (overflow-IsHeap k c x seen heap rest g e (ground (arith, long)))
          | inr short ↦
              rw (short, if◌then◌else◌)
                (subst (IsHeap k (c ∷ seen)) e (fits (ground (arith, short, e))))
        ]
