-- ===== src/Storage/SkipMap/Lists.antt =====
-- What `put` and `erase` do to lookups, sums and predicates over the entries.
use liven.Prelude.{ℕ, ◌+◌, ◌≡◌, refl, true, none, some, List, [], ◌∷◌, arith, if◌then◌else◌, ap}
use liven.Storage.SkipMap.{Key, find, put, erase, IsBelow, IsOrdered, is_some}

module _ {K V : Type 0} ⦃key : Key K⦄ where
  find-below : (k : K) (m : List (K × V)) → IsBelow k m → find k m ≡ none
  unfolding find
  find-below k [] h = refl
  find-below k ((j, w) ∷ m) h = ground (arith, key.eq_iff k j, key.irrefl j, h.0)

  find-before : (j k : K) (m : List (K × V)) → key.lt j k ≡ true → IsBelow k m → find j m ≡ none
  unfolding find
  find-before j k [] lt h = refl
  find-before j k ((i, w) ∷ m) lt h = ground (arith, key.eq_iff j i, key.irrefl j, key.trans j k i)

  pub find-put :
      (k j : K) (v : V) (m : List (K × V))
      → find j (put k v m) ≡ (if key.eq j k then some v else find j m)
  unfolding find put
  find-put k j v [] = ground (arith, key.eq_iff j k)
  find-put k j v ((i, w) ∷ m) = ground (
    arith,
    find-put k j v m,
    key.eq_iff j k,
    key.eq_iff k i,
    key.eq_iff j i,
    key.trans j k i,
    key.irrefl i,
    key.irrefl j,
    key.irrefl k,
    key.trans k j i,
    key.total k j,
    key.total j k,
  )

  pub find-erase :
      (k j : K) (m : List (K × V))
      → IsOrdered m
      → find j (erase k m) ≡ (if key.eq j k then none else find j m)
  unfolding find erase
  find-erase k j [] h = ground (arith, key.eq_iff j k)
  find-erase k j ((i, w) ∷ m) h = ground (
    arith,
    find-erase k j m h.1,
    find-below i m h.0,
    find-before j i m,
    key.eq_iff j k,
    key.eq_iff k i,
    key.eq_iff j i,
    key.trans j k i,
    key.irrefl i,
    key.irrefl j,
    key.irrefl k,
    key.trans k j i,
    key.total k j,
    key.total j k,
  )

  -- a sum over the keys
  abbrev pub weight : (K → ℕ) → List (K × V) → ℕ
  weight c [] = 0
  weight c ((k, v) ∷ m) = c k + weight c m

  pub weight-put :
      (c : K → ℕ) (k : K) (v : V) (m : List (K × V))
      → weight c (put k v m) ≡ (if is_some (find k m) then 0 else c k) + weight c m
  unfolding find put
  weight-put c k v [] = omega arith
  weight-put c k v ((j, w) ∷ m) =
      ground (arith, weight-put c k v m, key.eq_iff k j, ap c {x = k} {y = j})

  pub weight-erase :
      (c : K → ℕ) (k : K) (m : List (K × V))
      → weight c (erase k m) + (if is_some (find k m) then c k else 0) ≡ weight c m
  unfolding find erase
  weight-erase c k [] = omega arith
  weight-erase c k ((j, w) ∷ m) =
      ground (arith, weight-erase c k m, key.eq_iff k j, ap c {x = k} {y = j})
