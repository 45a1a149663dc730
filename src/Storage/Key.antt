-- ===== src/Storage/Key.antt =====
-- src/storage/key.rs: keys of at most 32 bytes.
pub mod Truncate
pub mod RoundTrip
use liven.Prelude.{
  ℕ, zero, suc, ◌-◌, Bool, true, false, List, [], ◌∷◌, ◌++◌, ltb, length, take, replicate,
  if◌then◌else◌,
}
use liven.Bytes.{Bytes, is_utf8}
use liven.Types.{StreamKey}
use liven.Error.{LivenError, key_too_long, Result, ok, err}

-- the array that the constructors fill: the bytes, then zeros up to 32
unfoldable pub pad : Bytes → Bytes
pad bs = bs ++ replicate (32 - length bs) 0

unfoldable pub from_str : Bytes → Result LivenError StreamKey
unfolding pad
from_str s =
    if ltb 32 (length s)
    then err (key_too_long (length s) s)
    else ok (record { bytes = pad s; len = length s })

unfoldable pub try_new : Bytes → Result LivenError StreamKey
unfolding from_str
try_new s = from_str s

-- `while from_utf8(bytes).is_err() && !bytes.is_empty() { drop the last byte }`, on the first `n`
-- bytes of `s`
unfoldable pub trim_to_utf8 : Bytes → ℕ → ℕ
trim_to_utf8 s zero = zero
trim_to_utf8 s (suc n) = elim (is_utf8 (take (suc n) s)) [ true ↦ suc n | false ↦ trim_to_utf8 s n ]

unfoldable pub from_str_truncated : Bytes → StreamKey
unfolding pad trim_to_utf8
from_str_truncated s =
    let kept = if ltb 32 (length s) then take (trim_to_utf8 s 32) s else s in
    record { bytes = pad kept; len = length kept }

-- `&self.bytes[..self.len as usize]`
unfoldable pub as_bytes : StreamKey → Bytes
as_bytes k = take k.len k.bytes

-- `from_utf8(..).unwrap_or("")`
unfoldable pub as_str : StreamKey → Bytes
unfolding as_bytes
as_str k = if is_utf8 (as_bytes k) then as_bytes k else []
