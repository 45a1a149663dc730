-- ===== src/Executor/Stages/Pages.antt =====
-- Pages of records.
use liven.Prelude.{
  ℕ, zero, suc, ◌+◌, ◌-◌, ◌*◌, ◌%◌, ◌^◌, ◌≤◌, ◌<◌, ◌≡◌, ◌⊎◌, refl, sym, ap, ◌∙◌, false, ◌||◌,
  Bool-cases, inl, inr, Option, none, some, List, [], ◌∷◌, ◌++◌, arith, length, min, take, drop,
  take_all, length-drop, ltb, ◌==◌, if◌then◌else◌,
}
use liven.Types.{Record}
use liven.Executor.Stages.{page}

drop_all : {A : Type 0} (n : ℕ) (xs : List A) → length xs ≤ n → drop n xs ≡ []
drop_all zero [] h = refl
drop_all zero (x ∷ xs) h = absurd (omega (arith, h))
drop_all (suc n) [] h = refl
drop_all (suc n) (x ∷ xs) h = drop_all n xs (omega (arith, h))

take-empty : {A : Type 0} (n : ℕ) → take {A = A} n [] ≡ []
take-empty zero = refl
take-empty (suc n) = refl

drop-empty : {A : Type 0} (n : ℕ) → drop {A = A} n [] ≡ []
drop-empty zero = refl
drop-empty (suc n) = refl

take-add : {A : Type 0} (m n : ℕ) (xs : List A) → take m xs ++ take n (drop m xs) ≡ take (m + n) xs
take-add zero n xs = ap (λ k. take k xs) (omega arith)
take-add (suc m) n [] = take-empty n ∙ sym (take-empty (suc m + n))
take-add (suc m) n (x ∷ xs) = ap (λ l. x ∷ l) (take-add m n xs) ∙ ap (λ k. take k (x ∷ xs)) one
  where
    one : suc (m + n) ≡ suc m + n
    one = omega arith

-- Taking more than there is takes all.
take_same :
    {A : Type 0} (m n : ℕ) (xs : List A)
    → (m ≡ n) ⊎ ((length xs ≤ m) × (length xs ≤ n))
    → take m xs ≡ take n xs
take_same m n xs (inl e) = ap (λ k. take k xs) e
take_same m n xs (inr h) = take_all m xs h.0 ∙ sym (take_all n xs h.1)

slice :
    (start size : ℕ) (records : List Record)
    → start + size < 2 ^ 64
    → (if ltb start (length records)
        then (if ltb (min ((start + size) % 2 ^ 64) (length records)) start
            then none
            else some (
                take (min ((start + size) % 2 ^ 64) (length records) - start) (drop start records)))
        else some [])
      ≡ some (take size (drop start records))
slice start size records small = elim (Bool-cases (ltb start (length records))) [
  | inl inside ↦
      let ordered : ltb (min ((start + size) % 2 ^ 64) (length records)) start ≡ false =
        ground (arith, inside) in
      rw (inside, ordered, if◌then◌else◌)
        (ap some (
          take_same (min ((start + size) % 2 ^ 64) (length records) - start) size
            (drop start records) (ground (arith, inside, small, length-drop start records))))
  | inr outside ↦
      rw (outside, if◌then◌else◌)
        (ap some (
          sym
            (ap (take size) (drop_all start records (ground (arith, outside))) ∙ take-empty size)))
]

-- one page, from 0
page-take :
    (i size : ℕ) (records : List Record)
    → 0 < size
    → i * size + size < 2 ^ 64
    → page (suc i) size records ≡ some (take size (drop (i * size) records))
unfolding page
page-take i size records positive small =
    rw (nonzero, start, if◌then◌else◌) (slice (i * size) size records small)
  where
    nonzero : (suc i == 0 || size == 0) ≡ false
    nonzero = ground (arith, positive)

    start : (suc i - 1) * size % 2 ^ 64 ≡ i * size
    start = ap (λ k. k * size % 2 ^ 64) one ∙ omega (arith, small)
      where
        one : suc i - 1 ≡ i
        one = omega arith

abbrev pub append_page : Option (List Record) → Option (List Record) → Option (List Record)
append_page (some a) (some b) = some (a ++ b)
append_page _ _ = none

-- the first `n` pages one after the other
abbrev pub pages : ℕ → ℕ → List Record → Option (List Record)
pages zero size records = some []
pages (suc n) size records = append_page (pages n size records) (page (suc n) size records)

-- The first `n` pages of a positive size, one after the other, are the first n * size records, each
-- record once and in order, and no page panics, where n * size is below 2 ^ 64.
pub pages-take :
    (n size : ℕ) (records : List Record)
    → 0 < size
    → n * size < 2 ^ 64
    → pages n size records ≡ some (take (n * size) records)
pages-take zero size records positive small = ap (λ k. some (take k records)) none_yet
  where
    none_yet : 0 ≡ 0 * size
    none_yet = omega arith
pages-take (suc n) size records positive small =
    rw
      (
        pages-take n size records positive (omega (arith, bound)),
        page-take n size records positive (omega (arith, bound)),
        append_page,
      )
      (ap some (take-add (n * size) size records ∙ ap (λ k. take k records) (sym step)))
  where
    step : suc n * size ≡ n * size + size
    step = grind arith

    bound : n * size + size < 2 ^ 64
    bound = rw (step) at small
