-- ===== src/Storage/SkipMap.antt =====
-- The ordered maps that the indexes stand on. `crossbeam_skiplist::SkipMap` is not part of the
-- repository: it is a parameter with its documented behaviour, that of a map whose entries are
-- listed in the order of their keys, each key once. `find`, `put` and `erase` say what that is.
pub mod Laws
pub mod Lists
pub mod Sorted
use liven.Prelude.{
  ℕ, ◌≡◌, ◌↔◌, Bool, true, false, Option, none, some, List, [], ◌∷◌, if◌then◌else◌, All,
}

-- a strict total order on keys
pub record Key (K : Type 0) : Type 0 where
  pub eq : K → K → Bool
  pub lt : K → K → Bool
  pub eq_iff : (a b : K) → (eq a b ≡ true) ↔ (a ≡ b)
  pub irrefl : (a : K) → lt a a ≡ false
  pub trans : (a b c : K) → lt a b ≡ true → lt b c ≡ true → lt a c ≡ true
  pub total : (a b : K) → lt a b ≡ false → eq a b ≡ false → lt b a ≡ true

module _ {K V : Type 0} ⦃key : Key K⦄ where
  unfoldable pub find : K → List (K × V) → Option V
  find k [] = none
  find k ((j, w) ∷ m) = if key.eq k j then some w else if key.lt k j then none else find k m

  unfoldable pub put : K → V → List (K × V) → List (K × V)
  put k v [] = (k, v) ∷ []
  put k v ((j, w) ∷ m) =
      let rest = put k v m in
      if key.eq k j then (k, v) ∷ m else if key.lt k j then (k, v) ∷ (j, w) ∷ m else (j, w) ∷ rest

  unfoldable pub erase : K → List (K × V) → List (K × V)
  erase k [] = []
  erase k ((j, w) ∷ m) =
      let rest = erase k m in
      if key.eq k j then m else if key.lt k j then (j, w) ∷ m else (j, w) ∷ rest

  abbrev pub IsBelow : K → List (K × V) → Type 0
  IsBelow k [] = Unit
  IsBelow k ((j, w) ∷ m) = (key.lt k j ≡ true) × IsBelow k m

  abbrev pub IsOrdered : List (K × V) → Type 0
  IsOrdered [] = Unit
  IsOrdered ((k, v) ∷ m) = IsBelow k m × IsOrdered m

pub record SkipMap (K V : Type 0) (key : Key K) : Type 1 where
  pub Carrier : Type 0
  pub new : Carrier
  pub get : K → Carrier → Option V
  pub insert : K → V → Carrier → Carrier
  pub remove : K → Carrier → Carrier
  pub entries : Carrier → List (K × V)
  pub entries-new : entries new ≡ []
  pub get_lem : (k : K) (m : Carrier) → get k m ≡ find ⦃key = key⦄ k (entries m)
  pub entries-insert :
      (k : K) (v : V) (m : Carrier) → entries (insert k v m) ≡ put ⦃key = key⦄ k v (entries m)
  pub entries-remove :
      (k : K) (m : Carrier) → entries (remove k m) ≡ erase ⦃key = key⦄ k (entries m)
  pub ordered : (m : Carrier) → IsOrdered ⦃key = key⦄ (entries m)

abbrev pub is_some {ℓ} : {A : Type ℓ} → Option A → Bool
is_some none = false
is_some (some a) = true
