-- ===== src/Security.antt =====
-- Hexadecimal texts and roles (src/security.rs). A result `none` is a panic. `str::trim` knows the
-- white space of Unicode: it is an argument.
pub mod Hex
use liven.Prelude.{
  ℕ, zero, suc, ◌+◌, ◌-◌, ◌*◌, ◌/◌, ◌%◌, Bool, true, false, ◌&&◌, Option, none, some, List, [], ◌∷◌,
  ltb, leb, ◌==◌, if◌then◌else◌, length,
}
use liven.Bytes.{Bytes, ascii, bytes_eq}
use liven.Error.{Result, ok, err}

-- `char::to_digit(16)`
unfoldable pub to_digit : ℕ → Option ℕ
to_digit c =
    if leb 48 c && leb c 57
    then some (c - 48)
    else if leb 97 c && leb c 102
    then some (c - 87)
    else if leb 65 c && leb c 70
    then some (c - 55)
    else none

abbrev pub two_digits : Option ℕ → Option ℕ → Option ℕ
two_digits (some a) (some b) = some (a * 16 + b)
two_digits _ _ = none

-- `u8::from_str_radix` of two bytes: a plus sign may come first
unfoldable pub from_str_radix : ℕ → ℕ → Option ℕ
unfolding to_digit
from_str_radix a b = if a == 43 then to_digit b else two_digits (to_digit a) (to_digit b)

-- A slice that ends inside a character panics.
abbrev pub starts_inside : Bytes → Bool
starts_inside [] = false
starts_inside (c ∷ cs) = leb 128 c && leb c 191

abbrev pub push_byte : ℕ → Option (Result Bytes Bytes) → Option (Result Bytes Bytes)
push_byte b none = none
push_byte b (some (err e)) = some (err e)
push_byte b (some (ok bs)) = some (ok (b ∷ bs))

abbrev pub pushed : Option ℕ → Option (Result Bytes Bytes) → Option (Result Bytes Bytes)
pushed none rest = some (err (ascii "Invalid hex character"))
pushed (some b) rest = push_byte b rest

unfoldable pub decode_pairs : Bytes → Option (Result Bytes Bytes)
unfolding from_str_radix
decode_pairs [] = some (ok [])
decode_pairs (a ∷ []) = none
decode_pairs (a ∷ b ∷ cs) =
    let rest = decode_pairs cs in
    if starts_inside cs then none else pushed (from_str_radix a b) rest

unfoldable pub hex_decode : (Bytes → Bytes) → Bytes → Option (Result Bytes Bytes)
unfolding decode_pairs
hex_decode trim s =
    if length (trim s) % 2 == 0 then decode_pairs (trim s) else some (err (ascii "Odd hex length"))

abbrev pub digit : ℕ → ℕ
digit n = if ltb n 10 then 48 + n else 87 + n

-- `{:02x}` of each byte
unfoldable pub hex_encode : Bytes → Bytes
hex_encode [] = []
hex_encode (b ∷ bs) = digit (b / 16) ∷ digit (b % 16) ∷ hex_encode bs

-- the bits of the capabilities
unfoldable pub capabilities_for_role : Bytes → ℕ
unfolding bytes_eq
capabilities_for_role role =
    if bytes_eq role (ascii "admin")
    then 0xFF
    else if bytes_eq role (ascii "read-only")
    then 0x01
    else if bytes_eq role (ascii "write")
    then 0x03
    else if bytes_eq role (ascii "write-delete")
    then 0x07
    else 0x00
