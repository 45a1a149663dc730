-- ===== src/Storage/Index/Keys.antt =====
-- The orders of the keys of the two skip maps: strings, and pairs of a timestamp and a sequence id.
use liven.Prelude.{
  ℕ, ◌≡◌, ◌↔◌, Bool, true, false, ◌&&◌, ◌||◌, ℤ, pos_part, neg_part, arith, ltb, ◌==◌, ltb_ℤ,
  eq_of_parts, ◌+◌,
}
use liven.Bytes.{Bytes, bytes_eq, bytes_lt}
use liven.Bytes.Order.{bytes_eq_iff, bytes_lt_irrefl, bytes_lt_trans, bytes_lt_total}
use liven.Storage.SkipMap.{Key}

abbrev pub name_key : Key Bytes
name_key = record {
  eq = bytes_eq;
  lt = bytes_lt;
  eq_iff = bytes_eq_iff;
  irrefl = bytes_lt_irrefl;
  trans = bytes_lt_trans;
  total = bytes_lt_total;
}

-- (timestamp, sequence id)
abbrev pub Stamp : Type 0
Stamp = ℤ × ℕ

abbrev pub eq_ℤ : ℤ → ℤ → Bool
eq_ℤ a b = pos_part a + neg_part b == pos_part b + neg_part a

abbrev pub stamp_eq : Stamp → Stamp → Bool
stamp_eq a b = eq_ℤ a.0 b.0 && a.1 == b.1

abbrev pub stamp_lt : Stamp → Stamp → Bool
stamp_lt a b = ltb_ℤ a.0 b.0 || (eq_ℤ a.0 b.0 && ltb a.1 b.1)

stamp_eq→eq : (a b : Stamp) → stamp_eq a b ≡ true → a ≡ b
stamp_eq→eq (x, m) (y, n) h = ground (arith, eq_of_parts x y)

stamp_eq_refl : (a : Stamp) → stamp_eq a a ≡ true
stamp_eq_refl a = ground arith

pub stamp_eq_iff : (a b : Stamp) → (stamp_eq a b ≡ true) ↔ (a ≡ b)
stamp_eq_iff a b = (stamp_eq→eq a b, λ e. rw e (stamp_eq_refl b))

pub stamp_lt_irrefl : (a : Stamp) → stamp_lt a a ≡ false
stamp_lt_irrefl a = ground arith

pub stamp_lt_trans :
    (a b c : Stamp) → stamp_lt a b ≡ true → stamp_lt b c ≡ true → stamp_lt a c ≡ true
stamp_lt_trans a b c h k = ground arith

pub stamp_lt_total :
    (a b : Stamp) → stamp_lt a b ≡ false → stamp_eq a b ≡ false → stamp_lt b a ≡ true
stamp_lt_total a b h k = ground arith

abbrev pub stamp_key : Key Stamp
stamp_key = record {
  eq = stamp_eq;
  lt = stamp_lt;
  eq_iff = stamp_eq_iff;
  irrefl = stamp_lt_irrefl;
  trans = stamp_lt_trans;
  total = stamp_lt_total;
}
