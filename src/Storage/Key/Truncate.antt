-- ===== src/Storage/Key/Truncate.antt =====
-- `from_str_truncated` keeps the longest prefix that is valid UTF-8 and fits.
use liven.Prelude.{
  ℕ, zero, suc, ◌≤◌, ◌<◌, ◌≡◌, refl, true, inl, inr, arith, length, take, ltb, Bool-cases,
  length-take, take_all,
}
use liven.Bytes.{Bytes, is_utf8}
use liven.Bytes.Utf8.{is_utf8-nil}
use liven.Storage.Key.{trim_to_utf8, from_str_truncated, as_str}
use liven.Storage.Key.RoundTrip.{key_of, as_str-key_of}

record IsTrimmed (s : Bytes) (n m : ℕ) : Type 0 where
  at_most : m ≤ n
  text : is_utf8 (take m s) ≡ true
  longest : (k : ℕ) → k ≤ n → is_utf8 (take k s) ≡ true → k ≤ m

trim_to_utf8-IsTrimmed : (s : Bytes) (n : ℕ) → IsTrimmed s n (trim_to_utf8 s n)
unfolding trim_to_utf8
trim_to_utf8-IsTrimmed s zero = record {
  at_most = omega arith;
  text = is_utf8-nil;
  longest = λ k h u. h;
}
trim_to_utf8-IsTrimmed s (suc n) = elim (Bool-cases (is_utf8 (take (suc n) s))) [
  | inl valid ↦
      rw (valid, trim_to_utf8)
        (record { at_most = omega arith; text = valid; longest = λ k h u. h })
  | inr torn ↦
      rw (torn, trim_to_utf8)
        (record {
          at_most = omega (arith, (trim_to_utf8-IsTrimmed s n).at_most);
          text = (trim_to_utf8-IsTrimmed s n).text;
          longest =
              λ k h u. (trim_to_utf8-IsTrimmed s n).longest k (below k h (λ e. cc (torn, u, e))) u;
        })
]
  where
    below : (k : ℕ) → k ≤ suc n → ¬ (k ≡ suc n) → k ≤ n
    below k h ne = omega arith

-- `t` is the longest prefix of `s` that has at most 32 bytes and is valid UTF-8.
pub record IsLongestPrefix (s t : Bytes) : Type 0 where
  pub fits : length t ≤ 32
  pub prefix : take (length t) s ≡ t
  pub text : is_utf8 t ≡ true
  pub longest : (k : ℕ) → k ≤ 32 → is_utf8 (take k s) ≡ true → length (take k s) ≤ length t

trimmed : (s : Bytes) (m : ℕ) → 32 < length s → IsTrimmed s 32 m → IsLongestPrefix s (take m s)
trimmed s m long t =
    let kept : length (take m s) ≡ m = omega (arith, length-take m s, t.at_most) in
    record {
      fits = omega (arith, t.at_most);
      prefix = rw kept refl;
      text = t.text;
      longest = λ k h u. omega (arith, length-take k s, t.longest k h u);
    }

whole : (s : Bytes) → length s ≤ 32 → is_utf8 s ≡ true → IsLongestPrefix s s
whole s h u = record {
  fits = h;
  prefix = take_all (length s) s (omega arith);
  text = u;
  longest = λ k _ _. omega (arith, length-take k s);
}

key_of-IsLongestPrefix : (s t : Bytes) → IsLongestPrefix s t → IsLongestPrefix s (as_str (key_of t))
key_of-IsLongestPrefix s t h = rw (as_str-key_of t h.text) h

-- The key made from a valid text by truncation reads back as the longest prefix of the text that
-- has at most 32 bytes and is valid UTF-8.
pub from_str_truncated-IsLongestPrefix :
    (s : Bytes) → is_utf8 s ≡ true → IsLongestPrefix s (as_str (from_str_truncated s))
unfolding from_str_truncated
from_str_truncated-IsLongestPrefix s u = elim (Bool-cases (ltb 32 (length s))) [
  | inl long ↦ rw long (
      key_of-IsLongestPrefix s (take (trim_to_utf8 s 32) s)
        (trimmed s (trim_to_utf8 s 32) (ground (arith, long)) (trim_to_utf8-IsTrimmed s 32)))
  | inr short ↦ rw short (key_of-IsLongestPrefix s s (whole s (ground (arith, short)) u))
]
