-- ===== src/Executor/Stages/Windows.antt =====
-- The windows of records: each record in the window of its time, none lost, no panic.
use mathlib.Core.Path.{subst}
use mathlib.Core.List.{Perm, perm_middle}
use mathlib.Core.List.Perm
use liven.Prelude.{
  ℕ, zero, suc, false, ◌+◌, ◌*ℤ◌, ◌/◌, ◌%◌, ◌^◌, ◌<◌, ◌≡◌, refl, Bool-cases, inl, inr, Option, none,
  some, List, [], ◌∷◌, ℤ, pos, negsuc, pos_part, neg_part, ◌≤ℤ◌, ◌<ℤ◌, ◌+ℤ◌, ◌≤◌, ◌*◌, eq_of_parts,
  arith, All, All-append, All-map, length, length-append, concat_map, append_assoc, append-nil,
  ◌++◌, ltb_ℤ, if◌then◌else◌,
}
use liven.Bytes.{i64_of_bits}
use liven.Types.{Record}
use liven.Executor.Stages.Window.{div_i64, window_start, negate, push_window, windows_of}

-- The window of a time starts at a multiple of the duration, less than a duration before the time. A
-- window of times before 1970 ends there: they are divided towards zero.
pub record InWindow (duration_ms : ℕ) (start t : ℤ) : Type 0 where
  pub index : ℤ
  pub multiple : start ≡ index *ℤ pos duration_ms
  pub after_1970 : pos 0 ≤ℤ t → (start ≤ℤ t) × (t <ℤ start +ℤ pos duration_ms)
  pub before_1970 : t <ℤ pos 0 → (t ≤ℤ start) × (start <ℤ t +ℤ pos duration_ms)

-- Under a positive duration, each time has a window.
record HasWindow (duration_ms : ℕ) (t : ℤ) : Type 0 where
  start : ℤ
  starts : window_start duration_ms t ≡ some start
  inside : InWindow duration_ms start t

-- the duration as an i64
duration-pos : (d : ℕ) → suc d < 2 ^ 63 → i64_of_bits (suc d % 2 ^ 64) ≡ pos (suc d)
unfolding i64_of_bits
duration-pos d small = ground (arith, small)

rounded : (n d : ℕ) → (n / suc d * suc d ≤ n) × (n < n / suc d * suc d + suc d)
rounded n d = grind arith

-- the parts of a product with a number that is not negative
negate-parts :
    (q d : ℕ) → (pos_part (negate q *ℤ pos d) ≡ 0) × (neg_part (negate q *ℤ pos d) ≡ q * d)
negate-parts zero d = (grind arith, grind arith)
negate-parts (suc q) d = (grind arith, grind arith)

pos-parts : (q d : ℕ) → (pos_part (pos q *ℤ pos d) ≡ q * d) × (neg_part (pos q *ℤ pos d) ≡ 0)
pos-parts q d = (grind arith, grind arith)

-- a time from 1970 on, and one before, beside a start with the sign of the time
start_before :
    (k : ℤ) (n m d : ℕ)
    → (pos_part k ≡ m) × (neg_part k ≡ 0)
    → (m ≤ n) × (n < m + d)
    → (k ≤ℤ pos n) × (pos n <ℤ k +ℤ pos d)
start_before k n m d e h = (omega (arith, e.0, e.1, h.0), ground (arith, e.0, e.1, h.1))

start_after :
    (k : ℤ) (n m d : ℕ)
    → (pos_part k ≡ 0) × (neg_part k ≡ m)
    → (m ≤ suc n) × (suc n < m + d)
    → (negsuc n ≤ℤ k) × (k <ℤ negsuc n +ℤ pos d)
start_after k n m d e h = (omega (arith, e.0, e.1, h.0), ground (arith, e.0, e.1, h.1))

HasWindow-positive :
    (duration_ms : ℕ) (t : ℤ) → 0 < duration_ms → duration_ms < 2 ^ 63 → HasWindow duration_ms t
unfolding window_start div_i64
HasWindow-positive zero t positive small = absurd (omega (arith, positive))
HasWindow-positive (suc d) (pos n) positive small = record {
  start = pos (n / suc d) *ℤ pos (suc d);
  starts = rw (duration-pos d small) refl;
  inside = record {
    index = pos (n / suc d);
    multiple = refl;
    after_1970 = λ h.
        start_before (pos (n / suc d) *ℤ pos (suc d)) n (n / suc d * suc d) (suc d)
          (pos-parts (n / suc d) (suc d)) (rounded n d);
    before_1970 = λ h. absurd (omega (arith, h));
  };
}
HasWindow-positive (suc d) (negsuc n) positive small = record {
  start = negate (suc n / suc d) *ℤ pos (suc d);
  starts = rw (duration-pos d small) refl;
  inside = record {
    index = negate (suc n / suc d);
    multiple = refl;
    after_1970 = λ h. absurd (omega (arith, h));
    before_1970 = λ h.
        start_after (negate (suc n / suc d) *ℤ pos (suc d)) n (suc n / suc d * suc d) (suc d)
          (negate-parts (suc n / suc d) (suc d)) (rounded (suc n) d);
  };
}

-- the groups have records, each in its group's window
abbrev pub AreIn : ℕ → List (ℤ × List Record) → Type 0
AreIn duration_ms =
    All (λ w. (0 < length w.1) × All (λ r. InWindow duration_ms w.0 r.timestamp) w.1)

-- one group for a start, in order
abbrev pub Ascending : List (ℤ × List Record) → Type 0
Ascending [] = Unit
Ascending (w ∷ windows) = All (λ v. w.0 <ℤ v.0) windows × Ascending windows

abbrev pub grouped : List (ℤ × List Record) → List Record
grouped = concat_map (λ w. w.1)

same_start : (k j : ℤ) → ltb_ℤ k j ≡ false → ltb_ℤ j k ≡ false → k ≡ j
same_start k j h l = ground (arith, eq_of_parts k j, h, l)

module _ (k : ℤ) (r : Record) where
  push_window-AreIn :
      (duration_ms : ℕ) (windows : List (ℤ × List Record))
      → InWindow duration_ms k r.timestamp
      → AreIn duration_ms windows
      → AreIn duration_ms (push_window k r windows)
  unfolding push_window
  push_window-AreIn duration_ms [] e h = ((omega arith, (e, tt)), tt)
  push_window-AreIn duration_ms ((j, rs) ∷ windows) e h = elim (Bool-cases (ltb_ℤ k j)) [
    | inl less ↦ rw (less, if◌then◌else◌) ((omega arith, (e, tt)), h)
    | inr not_less ↦
        rw (not_less, if◌then◌else◌)
          (elim (Bool-cases (ltb_ℤ j k)) [
            | inl more ↦ rw (more, if◌then◌else◌) (h.0, push_window-AreIn duration_ms windows e h.1)
            | inr not_more ↦
                rw (not_more, if◌then◌else◌)
                  (
                    (
                      omega (arith, length-append rs (r ∷ [])),
                      All-append (λ x. InWindow duration_ms j x.timestamp) rs (r ∷ []) h.0.1
                          (
                            subst (λ i. InWindow duration_ms i r.timestamp)
                                (same_start k j not_less not_more) e,
                            tt,
                          ),
                    ),
                    h.1,
                  )
          ])
  ]

  -- the starts of the groups after
  push_window-starts :
      (P : ℤ → Type 0) (windows : List (ℤ × List Record))
      → P k
      → All (λ w. P w.0) windows
      → All (λ w. P w.0) (push_window k r windows)
  unfolding push_window
  push_window-starts P [] e h = (e, tt)
  push_window-starts P ((j, rs) ∷ windows) e h = elim (Bool-cases (ltb_ℤ k j)) [
    | inl less ↦ rw (less, if◌then◌else◌) (e, h)
    | inr not_less ↦
        rw (not_less, if◌then◌else◌)
          (elim (Bool-cases (ltb_ℤ j k)) [
            | inl more ↦ rw (more, if◌then◌else◌) (h.0, push_window-starts P windows e h.1)
            | inr not_more ↦ rw (not_more, if◌then◌else◌) h
          ])
  ]

  push_window-Ascending :
      (windows : List (ℤ × List Record)) → Ascending windows → Ascending (push_window k r windows)
  unfolding push_window
  push_window-Ascending [] h = (tt, tt)
  push_window-Ascending ((j, rs) ∷ windows) h = elim (Bool-cases (ltb_ℤ k j)) [
    | inl less ↦
        rw (less, if◌then◌else◌)
          (
            (
              ground (arith, less),
              All-map (λ w. j <ℤ w.0) (λ w. k <ℤ w.0) windows (λ w l. ground (arith, less, l)) h.0,
            ),
            h,
          )
    | inr not_less ↦
        rw (not_less, if◌then◌else◌)
          (elim (Bool-cases (ltb_ℤ j k)) [
            | inl more ↦
                rw (more, if◌then◌else◌)
                  (
                    push_window-starts (λ i. j <ℤ i) windows (ground (arith, more)) h.0,
                    push_window-Ascending windows h.1,
                  )
            | inr not_more ↦ rw (not_more, if◌then◌else◌) h
          ])
  ]

  push_window-perm :
      (windows : List (ℤ × List Record))
      → Perm (grouped (push_window k r windows)) (r ∷ grouped windows)
  unfolding push_window
  push_window-perm [] = Perm.refl (r ∷ [])
  push_window-perm ((j, rs) ∷ windows) = elim (Bool-cases (ltb_ℤ k j)) [
    | inl less ↦ rw (less, if◌then◌else◌) (Perm.refl (r ∷ (rs ++ grouped windows)))
    | inr not_less ↦
        rw (not_less, if◌then◌else◌)
          (elim (Bool-cases (ltb_ℤ j k)) [
            | inl more ↦
                rw (more, if◌then◌else◌)
                  (Perm.trans (Perm.append_left rs (push_window-perm windows))
                    (perm_middle rs (grouped windows)))
            | inr not_more ↦
                rw (not_more, if◌then◌else◌, append_assoc rs (r ∷ []) (grouped windows))
                  (perm_middle rs (grouped windows))
          ])
  ]

-- Groups of the records, one for each window, in the order of their starts.
pub record AreGroups (duration_ms : ℕ) (records : List Record) (windows : List (ℤ × List Record))
    : Type 0 where
  pub inside : AreIn duration_ms windows
  pub ascending : Ascending windows
  pub perm : Perm (grouped windows) records

-- no panic, and such groups
abbrev pub Groups : ℕ → List Record → Option (List (ℤ × List Record)) → Type 0
Groups duration_ms records none = ⊥
Groups duration_ms records (some windows) = AreGroups duration_ms records windows

Groups-perm :
    (duration_ms : ℕ) (records others : List Record) (o : Option (List (ℤ × List Record)))
    → Perm records others
    → Groups duration_ms records o
    → Groups duration_ms others o
Groups-perm duration_ms records others none p g = g
Groups-perm duration_ms records others (some windows) p g = record {
  inside = g.inside;
  ascending = g.ascending;
  perm = Perm.trans g.perm p;
}

windows_of-more :
    (duration_ms : ℕ) (records : List Record) (windows : List (ℤ × List Record))
    → 0 < duration_ms
    → duration_ms < 2 ^ 63
    → AreIn duration_ms windows
    → Ascending windows
    → Groups duration_ms (grouped windows ++ records) (windows_of duration_ms records windows)
unfolding windows_of
windows_of-more duration_ms [] windows positive small h a = record {
  inside = h;
  ascending = a;
  perm = rw (append-nil (grouped windows)) (Perm.refl (grouped windows));
}
windows_of-more duration_ms (r ∷ records) windows positive small h a =
    let w = HasWindow-positive duration_ms r.timestamp positive small in
    rw (w.starts) (
      Groups-perm duration_ms (grouped (push_window w.start r windows) ++ records)
        (grouped windows ++ (r ∷ records))
        (windows_of duration_ms records (push_window w.start r windows))
        (Perm.trans (Perm.append_right records (push_window-perm w.start r windows))
          (Perm.symm (perm_middle (grouped windows) records)))
        (windows_of-more duration_ms records (push_window w.start r windows) positive small
          (push_window-AreIn w.start r duration_ms windows w.inside h)
          (push_window-Ascending w.start r windows a)))

-- Under a positive duration below 2 ^ 63 the grouping of records by window does not panic. The
-- groups have starts that ascend, one group for a start, none is empty, and together they hold the
-- records, each as often as it was given. Each record is in the window of its group: the start is a
-- multiple of the duration, and the record's time is at it or less than a duration after it, or,
-- before 1970, at it or less than a duration before it.
pub windows_of-Groups :
    (duration_ms : ℕ) (records : List Record)
    → 0 < duration_ms
    → duration_ms < 2 ^ 63
    → Groups duration_ms records (windows_of duration_ms records [])
windows_of-Groups duration_ms records positive small =
    windows_of-more duration_ms records [] positive small tt tt
