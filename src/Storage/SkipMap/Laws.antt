-- ===== src/Storage/SkipMap/Laws.antt =====
-- The laws of a skip map in terms of lookups and sums, from its entries.
use liven.Prelude.{ℕ, ◌+◌, ◌≡◌, refl, none, some, if◌then◌else◌}
use liven.Storage.SkipMap.{Key, SkipMap, is_some, find}
use liven.Storage.SkipMap.Lists.{find-put, find-erase, weight, weight-put, weight-erase}

module _ {K V : Type 0} (key : Key K) (M : SkipMap K V key) where
  -- the sum of `c` over the keys that are present
  abbrev pub total : (K → ℕ) → M.Carrier → ℕ
  total c m = weight ⦃key = key⦄ c (M.entries m)

  pub get-insert :
      (k j : K) (v : V) (m : M.Carrier)
      → M.get j (M.insert k v m) ≡ (if key.eq j k then some v else M.get j m)
  get-insert k j v m =
      rw (M.get_lem j (M.insert k v m), M.entries-insert k v m, M.get_lem j m)
        (find-put ⦃key = key⦄ k j v (M.entries m))

  pub get-remove :
      (k j : K) (m : M.Carrier) → M.get j (M.remove k m) ≡ (if key.eq j k then none else M.get j m)
  get-remove k j m =
      rw (M.get_lem j (M.remove k m), M.entries-remove k m, M.get_lem j m)
        (find-erase ⦃key = key⦄ k j (M.entries m) (M.ordered m))

  pub total-insert :
      (c : K → ℕ) (k : K) (v : V) (m : M.Carrier)
      → total c (M.insert k v m) ≡ (if is_some (M.get k m) then 0 else c k) + total c m
  total-insert c k v m =
      rw (M.entries-insert k v m, M.get_lem k m) (weight-put ⦃key = key⦄ c k v (M.entries m))

  pub total-remove :
      (c : K → ℕ) (k : K) (m : M.Carrier)
      → total c (M.remove k m) + (if is_some (M.get k m) then c k else 0) ≡ total c m
  total-remove c k m =
      rw (M.entries-remove k m, M.get_lem k m) (weight-erase ⦃key = key⦄ c k (M.entries m))

  pub total-new : (c : K → ℕ) → total c M.new ≡ 0
  total-new c = rw M.entries-new refl

  pub get-new : (k : K) → M.get k M.new ≡ none
  unfolding find
  get-new k = rw (M.get_lem k M.new, M.entries-new) refl
