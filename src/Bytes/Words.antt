-- ===== src/Bytes/Words.antt =====
-- Big-endian words and two's complement are inverse to their decoders.
use native.Mathlib.Nat.{pow-suc}
use liven.Prelude.{
  ℕ, zero, suc, ◌+◌, ◌*◌, ◌/◌, ◌%◌, ◌^◌, ◌≤◌, ◌<◌, ◌≡◌, refl, ◌∙◌, List, [], ◌∷◌, ◌++◌, ℤ, pos,
  negsuc, neg_part, pos_part, map, arith, length, length-append, All,
}
use liven.Bytes.{Bytes, to_be_bytes, be_from, from_be_bytes}
use liven.Bytes.{i64_bits, i64_of_bits, i8_bits, i8_of_bits}

pub length-to_be_bytes : (w x : ℕ) → length (to_be_bytes w x) ≡ w
unfolding to_be_bytes
length-to_be_bytes zero x = refl
length-to_be_bytes (suc w) x =
    omega (
      arith,
      length-append (to_be_bytes w (x / 256)) (x % 256 ∷ []),
      length-to_be_bytes w (x / 256),
    )

be_from-append : (acc : ℕ) (xs ys : Bytes) → be_from acc (xs ++ ys) ≡ be_from (be_from acc xs) ys
unfolding be_from
be_from-append acc [] ys = refl
be_from-append acc (x ∷ xs) ys = be_from-append (acc * 256 + x) xs ys

-- Reading back a word that fits in its bytes.
pub from_be_bytes-to_be_bytes : (w x : ℕ) → x < 256 ^ w → from_be_bytes (to_be_bytes w x) ≡ x
unfolding from_be_bytes to_be_bytes
from_be_bytes-to_be_bytes zero x h = omega arith
from_be_bytes-to_be_bytes (suc w) x h =
    be_from-append 0 (to_be_bytes w (x / 256)) (x % 256 ∷ [])
    ∙ omega (arith, from_be_bytes-to_be_bytes w (x / 256) (omega (arith, pow-suc 256 w)))

-- What an `i64` and an `i8` hold.
abbrev pub IsI64 : ℤ → Type 0
IsI64 z = (pos_part z < 2 ^ 63) × (neg_part z ≤ 2 ^ 63)

abbrev pub IsI8 : ℤ → Type 0
IsI8 z = (pos_part z < 128) × (neg_part z ≤ 128)

pub i64_bits-lt : (z : ℤ) → i64_bits z < 256 ^ 8
unfolding i64_bits
i64_bits-lt (pos n) = omega arith
i64_bits-lt (negsuc n) = omega arith

pub i64_of_bits-i64_bits : (z : ℤ) → IsI64 z → i64_of_bits (i64_bits z) ≡ z
unfolding i64_bits i64_of_bits
i64_of_bits-i64_bits (pos n) h = ground arith
i64_of_bits-i64_bits (negsuc n) h = ground arith

pub i8_of_bits-i8_bits : (z : ℤ) → IsI8 z → i8_of_bits (i8_bits z) ≡ z
unfolding i8_bits i8_of_bits
i8_of_bits-i8_bits (pos n) h = ground arith
i8_of_bits-i8_bits (negsuc n) h = ground arith

pub map-i8_roundtrip : (v : List ℤ) → All IsI8 v → map i8_of_bits (map i8_bits v) ≡ v
map-i8_roundtrip [] h = refl
map-i8_roundtrip (z ∷ v) h = rw (i8_of_bits-i8_bits z h.0, map-i8_roundtrip v h.1)
