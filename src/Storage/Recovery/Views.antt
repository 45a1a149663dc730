-- ===== src/Storage/Recovery/Views.antt =====
-- The abstract view of recovery: for each key the highest sequence id of its frames, and the record
-- of that frame unless it is a tombstone.
use liven.Prelude.{
  ℕ, ◌≡◌, refl, Bool, true, false, ◌&&◌, Bool-cases, inl, inr, Option, none, some, List, [], ◌∷◌,
  ltb, if◌then◌else◌, All, ◌≢◌, arith, ltb→lt,
}
use liven.Bytes.{Bytes, bytes_eq}
use liven.Bytes.Order.{bytes_eq_iff, bytes_eq_refl}
use liven.Types.{Record}
use liven.Storage.Index.{record_key}
use liven.Storage.Payload.{PayloadFormat}
use liven.Storage.Frame.Read.{IsWritable}
use liven.Storage.Flusher.{Pending}
use liven.Storage.Recovery.{is_above}

-- for a key the highest sequence id, and the record of that frame unless it is a tombstone
abbrev pub View : Type 0
View = Bytes → Option (ℕ × Option Record)

abbrev pub seq_of : Option (ℕ × Option Record) → Option ℕ
seq_of none = none
seq_of (some (n, o)) = some n

abbrev pub live_of : Option (ℕ × Option Record) → Option Record
live_of none = none
live_of (some (n, o)) = o

abbrev pub outranks : ℕ → Option ℕ → Bool
outranks n none = true
outranks n (some m) = ltb m n

pub outranks-is_above : (n : ℕ) (o : Option ℕ) → outranks n o ≡ is_above n o
outranks-is_above n none = refl
outranks-is_above n (some m) = refl

abbrev pub entry_of : Pending → ℕ × Option Record
entry_of p = (p.written.sequence_id, if p.is_tombstone then none else some p.written)

-- a frame counts where its sequence id is the highest so far
unfoldable pub merge : Pending → View → View
merge p v k =
    if bytes_eq k (record_key p.written) && outranks p.written.sequence_id (seq_of (v k))
    then some (entry_of p)
    else v k

unfoldable pub merge_all : List Pending → View → View
merge_all [] v = v
merge_all (p ∷ ps) v = merge_all ps (merge p v)

-- the flags that the flusher writes
abbrev pub IsFlagged : Pending → Type 0
IsFlagged p = p.written.flags ≡ (if p.is_tombstone then 2 else 1)

-- records that are read back, with the flags that the flusher writes
abbrev pub AreWritten : PayloadFormat → List Pending → Type 0
AreWritten format = All (λ p. IsWritable format p.written × IsFlagged p)

pub merge-newer :
    (p : Pending) (v : View) (k : Bytes)
    → outranks p.written.sequence_id (seq_of (v (record_key p.written))) ≡ true
    → merge p v k ≡ (if bytes_eq k (record_key p.written) then some (entry_of p) else v k)
unfolding merge
merge-newer p v k h = elim (Bool-cases (bytes_eq k (record_key p.written))) [
  | inl same ↦ rw (same, (bytes_eq_iff k (record_key p.written)).0 same, h, if◌then◌else◌) refl
  | inr other ↦ rw (other, if◌then◌else◌) refl
]

pub merge-older :
    (p : Pending) (v : View) (k : Bytes)
    → outranks p.written.sequence_id (seq_of (v (record_key p.written))) ≡ false
    → merge p v k ≡ v k
unfolding merge
merge-older p v k h = elim (Bool-cases (bytes_eq k (record_key p.written))) [
  | inl same ↦ rw (same, (bytes_eq_iff k (record_key p.written)).0 same, h, if◌then◌else◌) refl
  | inr other ↦ rw (other, if◌then◌else◌) refl
]

-- a newer frame, by its key
abbrev pub put_entry : Pending → View → View
put_entry p v k = if bytes_eq k (record_key p.written) then some (entry_of p) else v k

outranks_trans :
    (m n : ℕ) (o : Option ℕ)
    → outranks m o ≡ true
    → outranks n (some m) ≡ true
    → outranks n o ≡ true
outranks_trans m n none h l = refl
outranks_trans m n (some j) h l = ground arith

-- What outranks the view after a newer frame outranked it before, and is not that frame.
pub outranks-put_entry :
    (n : ℕ) (p : Pending) (v : View) (k : Bytes)
    → outranks p.written.sequence_id (seq_of (v (record_key p.written))) ≡ true
    → outranks n (seq_of (put_entry p v k)) ≡ true
    → outranks n (seq_of (v k)) ≡ true
outranks-put_entry n p v k wins h = elim (Bool-cases (bytes_eq k (record_key p.written))) [
  | inl same ↦ rw ((bytes_eq_iff k (record_key p.written)).0 same) (
      outranks_trans p.written.sequence_id n (seq_of (v (record_key p.written))) wins
        (rw (same, if◌then◌else◌) at h))
  | inr other ↦ rw (other, if◌then◌else◌) at h
]

pub outranks-itself :
    (n : ℕ) (p : Pending) (v : View)
    → outranks n (seq_of (put_entry p v (record_key p.written))) ≡ true
    → n ≢ p.written.sequence_id
outranks-itself n p v h e =
    let above : ltb p.written.sequence_id n ≡ true =
      rw (bytes_eq_refl (record_key p.written), if◌then◌else◌) at h in
    omega (arith, ltb→lt p.written.sequence_id n above, e)
