-- ===== src/Executor/Stages/Text.antt =====
-- The texts of values that stages compare: join keys, group keys and the keys of `distinct`.
use liven.Prelude.{
  ℕ, zero, suc, ◌+◌, ◌/◌, ◌%◌, Bool, true, false, [], ◌∷◌, ℤ, pos, negsuc, ltb, if◌then◌else◌,
}
use liven.Bytes.{Bytes, ascii}
use liven.Types.{DataValue, null, bool, int, uint, float, string}

-- `Display` of floats, and the `Debug` and `Display` texts of values
pub record TextLibrary : Type 0 where
  pub show_f64 : ℕ → Bytes
  pub debug : DataValue → Bytes
  pub display : DataValue → Bytes

-- The decimal digits of `n` before `rest`: at most as many as the fuel.
unfoldable pub digits : ℕ → ℕ → Bytes → Bytes
digits zero n rest = rest
digits (suc fuel) n rest =
    let more = digits fuel (n / 10) ((48 + n % 10) ∷ rest) in
    if ltb n 10 then (48 + n) ∷ rest else more

-- `u64::to_string`; a u64 has at most 20 digits.
unfoldable pub show_u64 : ℕ → Bytes
unfolding digits
show_u64 n = digits 20 n []

unfoldable pub show_i64 : ℤ → Bytes
unfolding show_u64
show_i64 (pos n) = show_u64 n
show_i64 (negsuc n) = b'-' ∷ show_u64 (suc n)

abbrev show_bool : Bool → Bytes
show_bool true = ascii "true"
show_bool false = ascii "false"

module _ (texts : TextLibrary) where
  -- the key of a join
  unfoldable pub join_text : DataValue → Bytes
  unfolding show_i64 show_u64
  join_text (string s) = s
  join_text (int i) = show_i64 i
  join_text (uint u) = show_u64 u
  join_text other = texts.debug other

  unfoldable pub group_text : DataValue → Bytes
  group_text (string s) = s
  group_text other = texts.display other

  unfoldable pub distinct_text : DataValue → Bytes
  unfolding show_i64 show_u64
  distinct_text (string s) = s
  distinct_text (int i) = show_i64 i
  distinct_text (uint u) = show_u64 u
  distinct_text (float f) = texts.show_f64 f
  distinct_text (bool b) = show_bool b
  distinct_text null = []
  distinct_text other = texts.debug other
