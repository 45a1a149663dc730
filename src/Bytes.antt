-- ===== src/Bytes.antt =====
-- Byte strings: big-endian words, two's complement, UTF-8 validity and comparison, as the Rust
-- standard library defines them on `[u8]`, `u16`, `u32`, `u64`, `i64`, `i8` and `str`. A byte is a
-- number below 256; a `String` is the list of its UTF-8 bytes.
pub mod Words
pub mod Utf8
pub mod Order
use Prim.Native.Char.{code}
use Prim.Native.String
use Prim.Native.String.{String}
use liven.Prelude.{
  ℕ, zero, suc, ◌+◌, ◌-◌, ◌*◌, ◌/◌, ◌%◌, ◌^◌, ◌<◌, Bool, true, false, ◌&&◌, ◌||◌, List, [], ◌∷◌,
  ◌++◌, ℤ, pos, negsuc, ltb, leb, ◌==◌, if◌then◌else◌,
}

abbrev pub Bytes : Type 0
Bytes = List ℕ

-- the bytes of an ASCII text
abbrev pub ascii : String → Bytes
ascii String.[] = []
ascii (String.◌∷◌ c s) = code c ∷ ascii s

-- `(x as uN).to_be_bytes()` on `w` bytes
unfoldable pub to_be_bytes : ℕ → ℕ → Bytes
to_be_bytes zero x = []
to_be_bytes (suc w) x = to_be_bytes w (x / 256) ++ (x % 256 ∷ [])

unfoldable pub be_from : ℕ → Bytes → ℕ
be_from acc [] = acc
be_from acc (b ∷ bs) = be_from (acc * 256 + b) bs

-- `uN::from_be_bytes(..)`
unfoldable pub from_be_bytes : Bytes → ℕ
unfolding be_from
from_be_bytes bs = be_from 0 bs

-- the bit pattern of an `i64`, and back
unfoldable pub i64_bits : ℤ → ℕ
i64_bits (pos n) = n % 2 ^ 64
i64_bits (negsuc n) = 2 ^ 64 - 1 - n % 2 ^ 64

unfoldable pub i64_of_bits : ℕ → ℤ
i64_of_bits u = if ltb u (2 ^ 63) then pos u else negsuc (2 ^ 64 - 1 - u)

-- `as u8` and `as i8`
unfoldable pub i8_bits : ℤ → ℕ
i8_bits (pos n) = n % 256
i8_bits (negsuc n) = 255 - n % 256

unfoldable pub i8_of_bits : ℕ → ℤ
i8_of_bits b = if ltb (b % 256) 128 then pos (b % 256) else negsuc (255 - b % 256)

-- What a decoder of UTF-8 still expects: nothing, one to three continuation bytes, or a first
-- continuation byte in a narrower range (after E0, ED, F0 and F4). `bad` is final.
pub data Utf8State : Type 0 where
  start one two three e0 ed f0 f4 bad : Utf8State

abbrev pub within : ℕ → ℕ → ℕ → Bool
within lo hi b = leb lo b && leb b hi

unfoldable pub utf8_next : Utf8State → ℕ → Utf8State
utf8_next start b =
    if ltb b 0x80
    then start
    else if within 0xc2 0xdf b
    then one
    else if b == 0xe0
    then e0
    else if b == 0xed
    then ed
    else if within 0xe1 0xef b
    then two
    else if b == 0xf0
    then f0
    else if within 0xf1 0xf3 b
    then three
    else if b == 0xf4
    then f4
    else bad
utf8_next one b = if within 0x80 0xbf b then start else bad
utf8_next two b = if within 0x80 0xbf b then one else bad
utf8_next three b = if within 0x80 0xbf b then two else bad
utf8_next e0 b = if within 0xa0 0xbf b then one else bad
utf8_next ed b = if within 0x80 0x9f b then one else bad
utf8_next f0 b = if within 0x90 0xbf b then two else bad
utf8_next f4 b = if within 0x80 0x8f b then two else bad
utf8_next bad b = bad

unfoldable pub utf8_run : Utf8State → Bytes → Utf8State
unfolding utf8_next
utf8_run s [] = s
utf8_run s (b ∷ bs) = utf8_run (utf8_next s b) bs

unfoldable pub at_start : Utf8State → Bool
at_start start = true
at_start _ = false

-- `std::str::from_utf8(bs).is_ok()`
unfoldable pub is_utf8 : Bytes → Bool
unfolding utf8_run at_start
is_utf8 bs = at_start (utf8_run start bs)

-- equality of strings
unfoldable pub bytes_eq : Bytes → Bytes → Bool
bytes_eq [] [] = true
bytes_eq [] (b ∷ bs) = false
bytes_eq (a ∷ as') [] = false
bytes_eq (a ∷ as') (b ∷ bs) = a == b && bytes_eq as' bs

-- the order of strings, `str::cmp`: `true` where the first is smaller
unfoldable pub bytes_lt : Bytes → Bytes → Bool
bytes_lt [] [] = false
bytes_lt [] (b ∷ bs) = true
bytes_lt (a ∷ as') [] = false
bytes_lt (a ∷ as') (b ∷ bs) = ltb a b || (a == b && bytes_lt as' bs)
