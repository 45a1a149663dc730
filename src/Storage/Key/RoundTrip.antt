-- ===== src/Storage/Key/RoundTrip.antt =====
-- A key that is accepted gives its text back.
use liven.Prelude.{
  ℕ, ◌-◌, ◌≤◌, ◌<◌, ◌≡◌, refl, true, arith, length, take, replicate, take-append_exact,
  length-append, length-replicate, lt→ltb, le→ltb,
}
use liven.Bytes.{Bytes, is_utf8}
use liven.Types.{StreamKey}
use liven.Error.{key_too_long, ok, err}
use liven.Storage.Key.{pad, from_str, as_bytes, as_str}

-- What a constructor of keys may produce.
pub record IsKey (k : StreamKey) : Type 0 where
  pub short : k.len ≤ 32
  pub filled : length k.bytes ≡ 32
  pub text : is_utf8 (as_bytes k) ≡ true

pub take-pad : (bs : Bytes) → take (length bs) (pad bs) ≡ bs
unfolding pad
take-pad bs = take-append_exact (length bs) bs (replicate (32 - length bs) 0) refl

pub length-pad : (bs : Bytes) → length bs ≤ 32 → length (pad bs) ≡ 32
unfolding pad
length-pad bs h = omega (
  arith,
  length-append bs (replicate (32 - length bs) 0),
  length-replicate {A = ℕ} (32 - length bs) 0,
)

pub as_str-eq-as_bytes : (k : StreamKey) → IsKey k → as_str k ≡ as_bytes k
unfolding as_str
as_str-eq-as_bytes k h = rw h.text refl

-- the key that holds `s`
abbrev pub key_of : Bytes → StreamKey
key_of s = record { bytes = pad s; len = length s }

pub key_of-IsKey : (s : Bytes) → length s ≤ 32 → is_utf8 s ≡ true → IsKey (key_of s)
unfolding as_bytes
key_of-IsKey s h u = record { short = h; filled = length-pad s h; text = rw (take-pad s) u }

pub as_str-key_of : (s : Bytes) → is_utf8 s ≡ true → as_str (key_of s) ≡ s
unfolding as_str as_bytes
as_str-key_of s u = rw (take-pad s, u) refl

pub from_str_accepts : (s : Bytes) → length s ≤ 32 → from_str s ≡ ok (key_of s)
unfolding from_str
from_str_accepts s h = rw (le→ltb 32 (length s) h) refl

pub from_str_rejects : (s : Bytes) → 32 < length s → from_str s ≡ err (key_too_long (length s) s)
unfolding from_str
from_str_rejects s h = rw (lt→ltb 32 (length s) h) refl
