-- ===== src/Security/Hex.antt =====
-- A hexadecimal text that is written is read back.
use liven.Prelude.{
  ℕ, ◌/◌, ◌%◌, ◌<◌, ◌≤◌, ◌≡◌, refl, ap, false, some, [], ◌∷◌, arith, All, length, ◌==◌,
  if◌then◌else◌,
}
use liven.Bytes.{Bytes}
use liven.Error.{ok}
use liven.Security.{
  to_digit, from_str_radix, starts_inside, decode_pairs, hex_decode, digit, hex_encode,
}

to_digit-digit : (n : ℕ) → n < 16 → to_digit (digit n) ≡ some n
unfolding to_digit
to_digit-digit n h = ground arith

-- the digits are of two ranges below the plus sign's successor and the letters
abbrev pub IsHexText : Bytes → Type 0
IsHexText = All (λ c. (48 ≤ c) × (c ≤ 102))

digit-range : (n : ℕ) → n < 16 → (48 ≤ digit n) × (digit n ≤ 102)
digit-range n h = (ground arith, ground arith)

hex_encode-IsHexText : (bs : Bytes) → All (λ b. b < 256) bs → IsHexText (hex_encode bs)
unfolding hex_encode
hex_encode-IsHexText [] h = tt
hex_encode-IsHexText (b ∷ bs) h = (
  digit-range (b / 16) (omega (arith, h.0)),
  (digit-range (b % 16) (omega (arith, h.0)), hex_encode-IsHexText bs h.1),
)

starts_inside-IsHexText : (cs : Bytes) → IsHexText cs → starts_inside cs ≡ false
starts_inside-IsHexText [] h = refl
starts_inside-IsHexText (c ∷ cs) h = ground (arith, h.0)

from_str_radix-digits :
    (b : ℕ) → b < 256 → from_str_radix (digit (b / 16)) (digit (b % 16)) ≡ some b
unfolding from_str_radix
from_str_radix-digits b h =
    rw
      (
        no_plus,
        if◌then◌else◌,
        to_digit-digit (b / 16) (omega (arith, h)),
        to_digit-digit (b % 16) (omega (arith, h)),
      )
      (ap some (omega arith))
  where
    no_plus : (digit (b / 16) == 43) ≡ false
    no_plus = ground (arith, digit-range (b / 16) (omega (arith, h)))

decode_pairs-hex_encode :
    (bs : Bytes) → All (λ b. b < 256) bs → decode_pairs (hex_encode bs) ≡ some (ok bs)
unfolding decode_pairs hex_encode
decode_pairs-hex_encode [] h = refl
decode_pairs-hex_encode (b ∷ bs) h =
    rw
      (
        starts_inside-IsHexText (hex_encode bs) (hex_encode-IsHexText bs h.1),
        if◌then◌else◌,
        from_str_radix-digits b h.0,
        decode_pairs-hex_encode bs h.1,
      )
      refl

even-hex_encode : (bs : Bytes) → length (hex_encode bs) % 2 ≡ 0
unfolding hex_encode
even-hex_encode [] = refl
even-hex_encode (b ∷ bs) = omega (arith, even-hex_encode bs)

-- Bytes that are written as a hexadecimal text are read back without a panic, where `trim` leaves
-- a text of digits and letters alone.
pub hex_decode-hex_encode :
    (trim : Bytes → Bytes) (bs : Bytes)
    → ((s : Bytes) → IsHexText s → trim s ≡ s)
    → All (λ b. b < 256) bs
    → hex_decode trim (hex_encode bs) ≡ some (ok bs)
unfolding hex_decode
hex_decode-hex_encode trim bs leaves h =
    rw (leaves (hex_encode bs) (hex_encode-IsHexText bs h), even-hex_encode bs, if◌then◌else◌)
      (decode_pairs-hex_encode bs h)
