-- ===== src/Storage/SkipMap/Sorted.antt =====
-- Ordered association lists are such a map: the parameter can be met.
use mathlib.Core.Path.{subst}
use liven.Prelude.{◌≡◌, refl, sym, true, List, [], ◌∷◌, if◌then◌else◌, Bool-cases, inl, inr}
use liven.Storage.SkipMap.{Key, SkipMap, find, put, erase, IsBelow, IsOrdered}

module _ {K V : Type 0} ⦃key : Key K⦄ where
  IsBelow-put :
      (i k : K) (v : V) (m : List (K × V)) → key.lt i k ≡ true → IsBelow i m → IsBelow i (put k v m)
  unfolding put
  IsBelow-put i k v [] lt h = (lt, tt)
  IsBelow-put i k v ((j, w) ∷ m) lt h = elim (Bool-cases (key.eq k j)) [
    | inl same ↦ rw (same, if◌then◌else◌) (lt, h.1)
    | inr other ↦ elim (Bool-cases (key.lt k j)) [
      | inl less ↦ rw (other, less, if◌then◌else◌) (lt, h)
      | inr more ↦ rw (other, more, if◌then◌else◌) (h.0, IsBelow-put i k v m lt h.1)
    ]
  ]

  IsBelow-trans : (i j : K) (m : List (K × V)) → key.lt i j ≡ true → IsBelow j m → IsBelow i m
  IsBelow-trans i j [] lt h = tt
  IsBelow-trans i j ((k, w) ∷ m) lt h = (key.trans i j k lt h.0, IsBelow-trans i j m lt h.1)

  pub put-IsOrdered : (k : K) (v : V) (m : List (K × V)) → IsOrdered m → IsOrdered (put k v m)
  unfolding put
  put-IsOrdered k v [] h = (tt, tt)
  put-IsOrdered k v ((j, w) ∷ m) h = elim (Bool-cases (key.eq k j)) [
    | inl same ↦
        rw (same, if◌then◌else◌) (subst (λ x. IsBelow x m) (sym ((key.eq_iff k j).0 same)) h.0, h.1)
    | inr other ↦ elim (Bool-cases (key.lt k j)) [
      | inl less ↦ rw (other, less, if◌then◌else◌) ((less, IsBelow-trans k j m less h.0), h)
      | inr more ↦
          rw (other, more, if◌then◌else◌)
            (IsBelow-put j k v m (key.total k j more other) h.0, put-IsOrdered k v m h.1)
    ]
  ]

  IsBelow-erase : (i k : K) (m : List (K × V)) → IsBelow i m → IsBelow i (erase k m)
  unfolding erase
  IsBelow-erase i k [] h = tt
  IsBelow-erase i k ((j, w) ∷ m) h = elim (Bool-cases (key.eq k j)) [
    | inl same ↦ rw (same, if◌then◌else◌) h.1
    | inr other ↦ elim (Bool-cases (key.lt k j)) [
      | inl less ↦ rw (other, less, if◌then◌else◌) h
      | inr more ↦ rw (other, more, if◌then◌else◌) (h.0, IsBelow-erase i k m h.1)
    ]
  ]

  pub erase-IsOrdered : (k : K) (m : List (K × V)) → IsOrdered m → IsOrdered (erase k m)
  unfolding erase
  erase-IsOrdered k [] h = tt
  erase-IsOrdered k ((j, w) ∷ m) h = elim (Bool-cases (key.eq k j)) [
    | inl same ↦ rw (same, if◌then◌else◌) h.1
    | inr other ↦ elim (Bool-cases (key.lt k j)) [
      | inl less ↦ rw (other, less, if◌then◌else◌) h
      | inr more ↦
          rw (other, more, if◌then◌else◌) (IsBelow-erase j k m h.0, erase-IsOrdered k m h.1)
    ]
  ]

abbrev pub sorted_lists : (K V : Type 0) (key : Key K) → SkipMap K V key
sorted_lists K V key = record {
  Carrier = (m : List (K × V)) × IsOrdered ⦃key = key⦄ m;
  new = ([], tt);
  get = λ k m. find ⦃key = key⦄ k m.0;
  insert = λ k v m. (put ⦃key = key⦄ k v m.0, put-IsOrdered ⦃key = key⦄ k v m.0 m.1);
  remove = λ k m. (erase ⦃key = key⦄ k m.0, erase-IsOrdered ⦃key = key⦄ k m.0 m.1);
  entries = λ m. m.0;
  entries-new = refl;
  get_lem = λ k m. refl;
  entries-insert = λ k v m. refl;
  entries-remove = λ k m. refl;
  ordered = λ m. m.1;
}
