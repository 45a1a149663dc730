-- ===== src/Prelude/Sort.antt =====
-- The stable sort of the standard library (`sort_by`), by insertion.
use mathlib.Core.List.{List, [], ◌∷◌, Perm}
use mathlib.Core.List.Perm
use Prim.Native.Nat.{suc}
use mathlib.Core.Path.{◌≡◌, refl, ap, ◌∙◌}
use mathlib.Core.Bool.{Bool, true, false}
use mathlib.Core.Logic.{inl, inr}
use liven.Prelude.Tests.{if◌then◌else◌, Bool-cases}
use liven.Prelude.Lists.{All, Any, length}

module _ {A : Type 0} (le : A → A → Bool) where
  -- before the first element that is not less
  unfoldable pub insert_sorted : A → List A → List A
  insert_sorted x [] = x ∷ []
  insert_sorted x (y ∷ ys) =
      let rest = insert_sorted x ys in if le x y then x ∷ y ∷ ys else y ∷ rest

  unfoldable pub sort : List A → List A
  unfolding insert_sorted
  sort [] = []
  sort (x ∷ xs) = insert_sorted x (sort xs)

  abbrev pub IsSorted : List A → Type 0
  IsSorted [] = Unit
  IsSorted (x ∷ xs) = All (λ y. le x y ≡ true) xs × IsSorted xs

  pub insert_sorted-All :
      (Q : A → Type 0) (x : A) (ys : List A) → Q x → All Q ys → All Q (insert_sorted x ys)
  unfolding insert_sorted
  insert_sorted-All Q x [] q h = (q, tt)
  insert_sorted-All Q x (y ∷ ys) q h = elim (Bool-cases (le x y)) [
    | inl less ↦ rw (less, if◌then◌else◌) (q, h)
    | inr more ↦ rw (more, if◌then◌else◌) (h.0, insert_sorted-All Q x ys q h.1)
  ]

  -- What holds of all elements holds of all elements of the sorted list.
  pub sort-All : (Q : A → Type 0) (xs : List A) → All Q xs → All Q (sort xs)
  unfolding sort
  sort-All Q [] h = tt
  sort-All Q (x ∷ xs) h = insert_sorted-All Q x (sort xs) h.0 (sort-All Q xs h.1)

  insert_sorted-All_inv :
      (Q : A → Type 0) (x : A) (ys : List A) → All Q (insert_sorted x ys) → Q x × All Q ys
  unfolding insert_sorted
  insert_sorted-All_inv Q x [] h = (h.0, tt)
  insert_sorted-All_inv Q x (y ∷ ys) h = elim (Bool-cases (le x y)) [
    | inl less ↦ rw (less, if◌then◌else◌) at h
    | inr more ↦
        let h' : All Q (y ∷ insert_sorted x ys) = rw (more, if◌then◌else◌) at h in
        let rest = insert_sorted-All_inv Q x ys h'.1 in (rest.0, (h'.0, rest.1))
  ]

  insert_sorted-Any_inv :
      (Q : A → Type 0) (x : A) (ys : List A) → Any Q (insert_sorted x ys) → Any Q (x ∷ ys)
  unfolding insert_sorted
  insert_sorted-Any_inv Q x [] h = h
  insert_sorted-Any_inv Q x (y ∷ ys) h = elim (Bool-cases (le x y)) [
    | inl less ↦ rw (less, if◌then◌else◌) at h
    | inr more ↦
        let h' : Any Q (y ∷ insert_sorted x ys) = rw (more, if◌then◌else◌) at h in
        elim h' [
          | inl first ↦ inr (inl first)
          | inr later ↦ elim (insert_sorted-Any_inv Q x ys later) [
            | inl here ↦ inl here
            | inr there ↦ inr (inr there)
          ]
        ]
  ]

  -- What holds of all, or of one, of the sorted elements holds so of the elements.
  pub sort-All_inv : (Q : A → Type 0) (xs : List A) → All Q (sort xs) → All Q xs
  unfolding sort
  sort-All_inv Q [] h = tt
  sort-All_inv Q (x ∷ xs) h =
      let parts = insert_sorted-All_inv Q x (sort xs) h in (parts.0, sort-All_inv Q xs parts.1)

  pub sort-Any_inv : (Q : A → Type 0) (xs : List A) → Any Q (sort xs) → Any Q xs
  unfolding sort
  sort-Any_inv Q [] h = h
  sort-Any_inv Q (x ∷ xs) h = elim (insert_sorted-Any_inv Q x (sort xs) h) [
    | inl here ↦ inl here
    | inr there ↦ inr (sort-Any_inv Q xs there)
  ]

  pub insert_sorted-perm : (x : A) (ys : List A) → Perm (insert_sorted x ys) (x ∷ ys)
  unfolding insert_sorted
  insert_sorted-perm x [] = Perm.refl (x ∷ [])
  insert_sorted-perm x (y ∷ ys) = elim (Bool-cases (le x y)) [
    | inl less ↦ rw (less, if◌then◌else◌) (Perm.refl (x ∷ y ∷ ys))
    | inr more ↦
        rw (more, if◌then◌else◌)
          (Perm.trans (Perm.cons y (insert_sorted-perm x ys)) (Perm.swap x y ys))
  ]

  pub sort-perm : (xs : List A) → Perm (sort xs) xs
  unfolding sort
  sort-perm [] = Perm.refl []
  sort-perm (x ∷ xs) = Perm.trans (insert_sorted-perm x (sort xs)) (Perm.cons x (sort-perm xs))

  pub length-insert_sorted : (x : A) (ys : List A) → length (insert_sorted x ys) ≡ length (x ∷ ys)
  unfolding insert_sorted
  length-insert_sorted x [] = refl
  length-insert_sorted x (y ∷ ys) = elim (Bool-cases (le x y)) [
    | inl less ↦ rw (less, if◌then◌else◌) refl
    | inr more ↦ rw (more, if◌then◌else◌) (ap suc (length-insert_sorted x ys))
  ]

  pub length-sort : (xs : List A) → length (sort xs) ≡ length xs
  unfolding sort
  length-sort [] = refl
  length-sort (x ∷ xs) = length-insert_sorted x (sort xs) ∙ ap suc (length-sort xs)

  module _ (total : (x y : A) → le x y ≡ false → le y x ≡ true)
      (trans : (x y z : A) → le x y ≡ true → le y z ≡ true → le x z ≡ true) where
    All-trans :
        (x y : A) (ys : List A)
        → le x y ≡ true
        → All (λ z. le y z ≡ true) ys
        → All (λ z. le x z ≡ true) ys
    All-trans x y [] h a = tt
    All-trans x y (z ∷ ys) h a = (trans x y z h a.0, All-trans x y ys h a.1)

    pub insert_sorted-IsSorted : (x : A) (ys : List A) → IsSorted ys → IsSorted (insert_sorted x ys)
    unfolding insert_sorted
    insert_sorted-IsSorted x [] s = (tt, tt)
    insert_sorted-IsSorted x (y ∷ ys) s = elim (Bool-cases (le x y)) [
      | inl less ↦ rw (less, if◌then◌else◌) ((less, All-trans x y ys less s.0), s)
      | inr more ↦
          rw (more, if◌then◌else◌)
            (
              insert_sorted-All (λ z. le y z ≡ true) x ys (total x y more) s.0,
              insert_sorted-IsSorted x ys s.1,
            )
    ]

    pub sort-IsSorted : (xs : List A) → IsSorted (sort xs)
    unfolding sort
    sort-IsSorted [] = tt
    sort-IsSorted (x ∷ xs) = insert_sorted-IsSorted x (sort xs) (sort-IsSorted xs)
