-- ===== src/Storage/Recovery/Extent.antt =====
-- What the frames of a data directory stay within: the streams that they name, their highest sequence
-- id, and for each sequence id the key that it was given to. The registered streams are drawn from these, each once.
use liven.Prelude.{
  ℕ, suc, ◌≤◌, ◌≡◌, refl, sym, Bool-cases, true, false, inl, inr, Option, none, some, List, [], ◌∷◌,
  arith, length, if◌then◌else◌,
}
use liven.Bytes.{Bytes, bytes_eq}
use liven.Bytes.Order.{bytes_eq_iff}
use liven.Storage.Flusher.{contains_key}
use liven.Storage.Recovery.{insert_name}

pub record Extent : Type 0 where
  pub streams : List Bytes
  pub last_seq : ℕ
  pub owner : ℕ → Bytes

-- no sequence id, or one within a bound
abbrev pub IsCapped : ℕ → Option ℕ → Type 0
IsCapped bound none = Unit
IsCapped bound (some n) = n ≤ bound

pub IsCapped-grows : (m n : ℕ) (o : Option ℕ) → m ≤ n → IsCapped m o → IsCapped n o
IsCapped-grows m n none le h = tt
IsCapped-grows m n (some k) le h = omega (arith, le, h)

abbrev pub AreDrawn : List Bytes → List Bytes → Type 0
AreDrawn names [] = Unit
AreDrawn names (x ∷ xs) =
    (contains_key x names ≡ true) × (contains_key x xs ≡ false) × AreDrawn names xs

pub AreDrawn-insert_name :
    (names : List Bytes) (s : Bytes) (xs : List Bytes)
    → contains_key s names ≡ true
    → AreDrawn names xs
    → AreDrawn names (insert_name s xs)
unfolding insert_name
AreDrawn-insert_name names s xs known h = elim (Bool-cases (contains_key s xs)) [
  | inl old ↦ rw (old, if◌then◌else◌) h
  | inr new ↦ rw (new, if◌then◌else◌) (known, new, h)
]

-- the names without the first that is x
abbrev without : Bytes → List Bytes → List Bytes
without x [] = []
without x (n ∷ names) = if bytes_eq x n then names else n ∷ without x names

length-without :
    (x : Bytes) (names : List Bytes)
    → contains_key x names ≡ true
    → length names ≡ suc (length (without x names))
unfolding contains_key
length-without x [] h = absurd (ground (arith, h))
length-without x (n ∷ names) h = elim (Bool-cases (bytes_eq x n)) [
  | inl same ↦ rw (same, if◌then◌else◌) refl
  | inr other ↦
      rw (other, if◌then◌else◌) (omega (arith, length-without x names (ground (arith, h, other))))
]

contains_key-without :
    (x y : Bytes) (names : List Bytes)
    → bytes_eq y x ≡ false
    → contains_key y names ≡ true
    → contains_key y (without x names) ≡ true
unfolding contains_key
contains_key-without x y [] d h = absurd (ground (arith, h))
contains_key-without x y (n ∷ names) d h = elim (Bool-cases (bytes_eq x n)) [
  | inl same ↦ rw (same, if◌then◌else◌) (ground (arith, h, (bytes_eq_iff x n).0 same, d))
  | inr other ↦
      rw (other, if◌then◌else◌)
        (elim (Bool-cases (bytes_eq y n)) [
          | inl this ↦ rw this refl
          | inr later ↦ rw later (contains_key-without x y names d (ground (arith, h, later)))
        ])
]

AreDrawn-without :
    (x : Bytes) (names xs : List Bytes)
    → contains_key x xs ≡ false
    → AreDrawn names xs
    → AreDrawn (without x names) xs
unfolding contains_key
AreDrawn-without x names [] d h = tt
AreDrawn-without x names (y ∷ xs) d (known, once, h) = (
  contains_key-without x y names apart known,
  once,
  AreDrawn-without x names xs (ground (arith, d)) h,
)
  where
    apart : bytes_eq y x ≡ false
    apart = elim (Bool-cases (bytes_eq y x)) [
      | inl same ↦
          absurd (ground (arith, d, (bytes_eq_iff x y).1 (sym ((bytes_eq_iff y x).0 same))))
      | inr other ↦ other
    ]

-- Streams that are registered once are at most as many as the names they are drawn from.
pub length-AreDrawn : (names xs : List Bytes) → AreDrawn names xs → length xs ≤ length names
length-AreDrawn names [] h = omega arith
length-AreDrawn names (x ∷ xs) (known, once, h) = omega (
  arith,
  length-without x names known,
  length-AreDrawn (without x names) xs (AreDrawn-without x names xs once h),
)
