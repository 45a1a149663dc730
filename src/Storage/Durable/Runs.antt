-- ===== src/Storage/Durable/Runs.antt =====
-- Records that carry consecutive sequence ids: what is written last is what has the highest id, and
-- each id belongs to one of them.
use mathlib.Core.Path.{subst}
use liven.Prelude.{
  ℕ, ◌+◌, ◌^◌, ◌<◌, ◌≡◌, refl, sym, ◌∙◌, true, false, Bool-cases, inl, inr, Option, none, some,
  List, [], ◌∷◌, arith, All, All-map, length, ◌==◌, ==_iff, if◌then◌else◌,
}
use liven.Bytes.{Bytes, bytes_eq}
use liven.Storage.Index.{record_key}
use liven.Storage.Flusher.{Pending}
use liven.Storage.Flusher.Built.{IsRun}
use liven.Storage.Flusher.Live.{Live, write, write_all}
use liven.Storage.Recovery.Views.{View, seq_of, live_of, outranks, merge, merge_all, merge-newer}

IsRun-tail :
    (s e : ℕ) (p : Pending) (ps : List Pending)
    → IsRun s (p ∷ ps) e
    → s + length (p ∷ ps) < 2 ^ 64
    → IsRun (s + 1) ps e
IsRun-tail s e p ps run room = subst (λ n. IsRun n ps e) (omega (arith, room)) run.1

-- A run ends where it would by counting, and its ids lie in between.
pub IsRun-end :
    (s e : ℕ) (ps : List Pending) → IsRun s ps e → s + length ps < 2 ^ 64 → e ≡ s + length ps
IsRun-end s e [] run room = omega (arith, run)
IsRun-end s e (p ∷ ps) run room =
    omega (arith, IsRun-end (s + 1) e ps (IsRun-tail s e p ps run room) (omega (arith, room)))

pub IsRun-All :
    (s e : ℕ) (ps : List Pending)
    → IsRun s ps e
    → s + length ps < 2 ^ 64
    → All (λ p. p.written.sequence_id < s + length ps) ps
IsRun-All s e [] run room = tt
IsRun-All s e (p ∷ ps) run room = (
  omega (arith, run.0),
  All-map _ _ ps (λ q below. omega (arith, below))
      (IsRun-All (s + 1) e ps (IsRun-tail s e p ps run room) (omega (arith, room))),
)

-- every sequence id of the view is below s
abbrev pub IsBefore : ℕ → View → Type 0
IsBefore s v = (k : Bytes) → outranks s (seq_of (v k)) ≡ true

outranks-later : (s : ℕ) (o : Option ℕ) → outranks s o ≡ true → outranks (s + 1) o ≡ true
outranks-later s none h = refl
outranks-later s (some n) h = ground arith

module _ (p : Pending) (v : View) (before : IsBefore p.written.sequence_id v) where
  merge-IsBefore : IsBefore (p.written.sequence_id + 1) (merge p v)
  merge-IsBefore k =
      rw (merge-newer p v k (before (record_key p.written)))
        (elim (Bool-cases (bytes_eq k (record_key p.written))) [
          | inl same ↦ rw (same, if◌then◌else◌) (ground arith)
          | inr other ↦
              rw (other, if◌then◌else◌)
                (outranks-later p.written.sequence_id (seq_of (v k)) (before k))
        ])

  live_of-merge : (m : Live) (k : Bytes) → m k ≡ live_of (v k) → write p m k ≡ live_of (merge p v k)
  unfolding write
  live_of-merge m k h =
      rw (merge-newer p v k (before (record_key p.written)))
        (elim (Bool-cases (bytes_eq k (record_key p.written))) [
          | inl same ↦ rw (same, if◌then◌else◌) refl
          | inr other ↦ rw (other, if◌then◌else◌) h
        ])

-- Writing a run of records is merging their frames.
pub write_all-merge_all :
    (s e : ℕ) (ps : List Pending) (v : View) (m : Live)
    → IsRun s ps e
    → s + length ps < 2 ^ 64
    → IsBefore s v
    → ((k : Bytes) → m k ≡ live_of (v k))
    → (k : Bytes) → write_all ps m k ≡ live_of (merge_all ps v k)
unfolding write_all merge_all
write_all-merge_all s e [] v m run room before h k = h k
write_all-merge_all s e (p ∷ ps) v m run room before h k =
    write_all-merge_all (s + 1) e ps (merge p v) (write p m) (IsRun-tail s e p ps run room)
      (omega (arith, room))
      (subst (λ n. IsBefore (n + 1) (merge p v)) run.0 (merge-IsBefore p v before'))
      (λ j. live_of-merge p v before' m j (h j)) k
  where
    before' : IsBefore p.written.sequence_id v
    before' = subst (λ n. IsBefore n v) (sym run.0) before

-- the record of each sequence id, with more records
abbrev pub record_after : List Pending → (ℕ → Option Pending) → ℕ → Option Pending
record_after [] f n = f n
record_after (p ∷ ps) f n =
    record_after ps (λ i. if i == p.written.sequence_id then some p else f i) n

pub IsRun-below :
    (s e n : ℕ) (ps : List Pending) (f : ℕ → Option Pending)
    → IsRun s ps e
    → s + length ps < 2 ^ 64
    → n < s
    → record_after ps f n ≡ f n
IsRun-below s e n [] f run room less = refl
IsRun-below s e n (p ∷ ps) f run room less =
    IsRun-below (s + 1) e n ps _ (IsRun-tail s e p ps run room) (omega (arith, room))
      (omega (arith, less))
    ∙ rw (other, if◌then◌else◌) refl
  where
    other : (n == p.written.sequence_id) ≡ false
    other = ground (arith, run.0, less)

pub IsRun-record_after :
    (s e : ℕ) (ps : List Pending) (f : ℕ → Option Pending)
    → IsRun s ps e
    → s + length ps < 2 ^ 64
    → All (λ p. some p ≡ record_after ps f p.written.sequence_id) ps
IsRun-record_after s e [] f run room = tt
IsRun-record_after s e (p ∷ ps) f run room = (
  sym (
      IsRun-below (s + 1) e p.written.sequence_id ps _ (IsRun-tail s e p ps run room)
        (omega (arith, room)) (omega (arith, run.0))
      ∙ rw ((==_iff p.written.sequence_id p.written.sequence_id).1 refl, if◌then◌else◌) refl),
  IsRun-record_after (s + 1) e ps _ (IsRun-tail s e p ps run room) (omega (arith, room)),
)
