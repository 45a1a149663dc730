-- ===== src/Prelude/Subsequence.antt =====
-- Lists that are left of others.
use mathlib.Core.List.{List, [], ◌∷◌, ◌++◌}

-- What is left when elements are taken out.
pub data Subsequence {ℓ} {A : Type ℓ} : List A → List A → Type ℓ where
  done : Subsequence [] []
  skip : {x : A} {xs ys : List A} → Subsequence xs ys → Subsequence xs (x ∷ ys)
  keep : {x : A} {xs ys : List A} → Subsequence xs ys → Subsequence (x ∷ xs) (x ∷ ys)

module _ {ℓ} {A : Type ℓ} where
  pub Subsequence-nil : (ys : List A) → Subsequence [] ys
  Subsequence-nil [] = done
  Subsequence-nil (y ∷ ys) = skip (Subsequence-nil ys)

  pub Subsequence-refl : (ys : List A) → Subsequence ys ys
  Subsequence-refl [] = done
  Subsequence-refl (y ∷ ys) = keep (Subsequence-refl ys)

  pub Subsequence-left : (xs ys : List A) → Subsequence ys (xs ++ ys)
  Subsequence-left [] ys = Subsequence-refl ys
  Subsequence-left (x ∷ xs) ys = skip (Subsequence-left xs ys)

  pub Subsequence-right : (xs ys : List A) → Subsequence xs (xs ++ ys)
  Subsequence-right [] ys = Subsequence-nil ys
  Subsequence-right (x ∷ xs) ys = keep (Subsequence-right xs ys)

  pub Subsequence-append :
      {xs ys : List A} (us vs : List A)
      → Subsequence xs ys
      → Subsequence us vs
      → Subsequence (xs ++ us) (ys ++ vs)
  Subsequence-append us vs done k = k
  Subsequence-append us vs (skip h) k = skip (Subsequence-append us vs h k)
  Subsequence-append us vs (keep h) k = keep (Subsequence-append us vs h k)

  pub Subsequence-trans :
      {ys zs : List A} → Subsequence ys zs → {xs : List A} → Subsequence xs ys → Subsequence xs zs
  Subsequence-trans done h = h
  Subsequence-trans (skip k) h = skip (Subsequence-trans k h)
  Subsequence-trans (keep k) (skip h) = skip (Subsequence-trans k h)
  Subsequence-trans (keep k) (keep h) = keep (Subsequence-trans k h)
