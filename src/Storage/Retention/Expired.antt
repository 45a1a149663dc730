-- ===== src/Storage/Retention/Expired.antt =====
-- Which segments of whole frames count as expired.
use liven.Prelude.{
  ℕ, zero, suc, ◌+◌, ◌^◌, ◌≡◌, refl, Bool, true, false, not, ◌&&◌, ◌||◌, List, [], ◌∷◌, arith,
  length, length-append, ◌==◌, ℤ, pos, ◌+ℤ◌, ◌-ℤ◌, ltb_ℤ, ◌≤ℤ◌, ◌<ℤ◌, ◌<◌, ◌↔◌, ◌⊎◌, inl, inr, All,
  Any, negsuc,
}
use liven.Bytes.{i64_of_bits}
use liven.Types.{Record}
use liven.Storage.Payload.{PayloadFormat}
use liven.Storage.Frame.{frame_of}
use liven.Storage.Frame.Read.{payload_of, length-frame_of}
use liven.Storage.Flusher.{Pending}
use liven.Storage.Flusher.Built.{frames_of}
use liven.Storage.Recovery.Views.{AreWritten}
use liven.Storage.Retention.{
  RetentionPolicy, max_age_of, i64_saturating_sub, is_expired, segment_is_fully_expired,
}
use liven.Storage.Retention.Walk.{all_expired, any_live, segment_is_fully_expired-tests}

module _ (format : PayloadFormat) (now_ms : ℤ) (policy : RetentionPolicy) where
  -- The record is older than its stream's age, where that is not 0.
  abbrev pub IsOld : Record → Type 0
  IsOld r =
      (0 < max_age_of policy r.stream_name)
      × (r.timestamp +ℤ pos (max_age_of policy r.stream_name) <ℤ now_ms)

  -- the ages fit in 63 bits
  abbrev pub IsBounded : Record → Type 0
  IsBounded r = max_age_of policy r.stream_name < 2 ^ 63

  -- each record that is not a tombstone is so old
  abbrev pub AreOld : List Pending → Type 0
  AreOld = All (λ p. (p.is_tombstone ≡ true) ⊎ IsOld p.written)

  -- The subtraction does not saturate on a clock from 1970 on.
  saturating_sub-age :
      (now : ℤ) (age : ℕ)
      → (pos 0 ≤ℤ now) × (now <ℤ pos (2 ^ 63))
      → age < 2 ^ 63
      → i64_saturating_sub now (i64_of_bits age) ≡ now -ℤ pos age
  unfolding i64_of_bits
  saturating_sub-age (pos n) age h small = ground arith
  saturating_sub-age (negsuc n) age h small = absurd (omega (arith, h.0))

  -- the code's test of an age
  cutoff :
      (time now : ℤ) (age : ℕ)
      → (pos 0 ≤ℤ now) × (now <ℤ pos (2 ^ 63))
      → age < 2 ^ 63
      → ((not (age == 0) && ltb_ℤ time (i64_saturating_sub now (i64_of_bits age))) ≡ true)
        ↔ ((0 < age) × (time +ℤ pos age <ℤ now))
  cutoff time now age h small =
      rw (saturating_sub-age now age h small) (λ e. past age e, λ e. ground (arith, e.0, e.1))
    where
      past :
          (a : ℕ)
          → (not (a == 0) && ltb_ℤ time (now -ℤ pos a)) ≡ true
          → (0 < a) × (time +ℤ pos a <ℤ now)
      past zero e = cc
      past (suc a) e = (omega arith, ground (arith, e))

  is_expired-IsOld :
      (r : Record)
      → (pos 0 ≤ℤ now_ms) × (now_ms <ℤ pos (2 ^ 63))
      → IsBounded r
      → (is_expired now_ms policy r.stream_name r.timestamp ≡ true) ↔ IsOld r
  unfolding is_expired
  is_expired-IsOld r h small = cutoff r.timestamp now_ms (max_age_of policy r.stream_name) h small

  -- the tests of the records are those of their ages
  all_expired-AreOld :
      (ps : List Pending)
      → (pos 0 ≤ℤ now_ms) × (now_ms <ℤ pos (2 ^ 63))
      → All (λ p. IsBounded p.written) ps
      → (all_expired format now_ms policy ps ≡ true) ↔ AreOld ps
  all_expired-AreOld [] h small = (λ e. tt, λ e. refl)
  all_expired-AreOld (p ∷ ps) h small =
      here p.is_tombstone (is_expired now_ms policy p.written.stream_name p.written.timestamp)
        (all_expired format now_ms policy ps) (is_expired-IsOld p.written h small.0)
        (all_expired-AreOld ps h small.1)
    where
      here :
          (t x rest : Bool) {A B : Type 0}
          → (x ≡ true) ↔ A
          → (rest ≡ true) ↔ B
          → (((t || x) && rest) ≡ true) ↔ (((t ≡ true) ⊎ A) × B)
      here true x rest f g = (λ e. (inl refl, g.0 e), λ e. g.1 e.1)
      here false true rest f g = (λ e. (inr (f.0 refl), g.0 e), λ e. g.1 e.1)
      here false false rest f g = (λ e. cc, λ e. elim (e.0) [ inl c ↦ cc (c) | inr a ↦ cc (f.1 a) ])

  any_live-Any :
      (ps : List Pending)
      → (any_live format now_ms policy ps ≡ true) ↔ Any (λ p. p.is_tombstone ≡ false) ps
  any_live-Any [] = (λ e. cc, λ e. absurd e)
  any_live-Any (p ∷ ps) = here p.is_tombstone (any_live format now_ms policy ps) (any_live-Any ps)
    where
      here :
          (t rest : Bool) {B : Type 0}
          → (rest ≡ true) ↔ B
          → ((not t || rest) ≡ true) ↔ ((t ≡ false) ⊎ B)
      here true rest g = (λ e. inr (g.0 e), λ e. elim e [ inl c ↦ cc (c) | inr b ↦ g.1 b ])
      here false rest g = (λ e. inl refl, λ e. refl)

  no_frames : (ps : List Pending) → ((length (frames_of format ps) == 0) ≡ true) ↔ (ps ≡ [])
  no_frames [] = (λ e. refl, λ e. refl)
  no_frames (p ∷ ps) = (λ e. absurd (ground (arith, e, size)), λ e. cc (e))
    where
      size :
          length (frames_of format (p ∷ ps))
          ≡ 26 + length (payload_of format p.written) + length (frames_of format ps)
      size = omega (
        arith,
        length-append (frame_of format p.written) (frames_of format ps),
        length-frame_of format p.written,
      )

  -- A segment that holds whole frames as they are written counts as expired exactly when each
  -- record in it that is not a tombstone is older than the age that `max_age_of` finds for its
  -- stream, which is not 0, and there is such a record in it or it has no frame at all. The clock
  -- is in the range of an i64 from 1970 on, and the ages fit in 63 bits.
  pub segment_is_fully_expired-frames_of :
      (ps : List Pending)
      → AreWritten format ps
      → (pos 0 ≤ℤ now_ms) × (now_ms <ℤ pos (2 ^ 63))
      → All (λ p. IsBounded p.written) ps
      → (segment_is_fully_expired now_ms policy (frames_of format ps) ≡ true)
        ↔ (AreOld ps × (Any (λ p. p.is_tombstone ≡ false) ps ⊎ (ps ≡ [])))
  segment_is_fully_expired-frames_of ps w clock small =
      rw (segment_is_fully_expired-tests format now_ms policy ps w) (
        join (all_expired format now_ms policy ps) (any_live format now_ms policy ps)
          (length (frames_of format ps) == 0) (all_expired-AreOld ps clock small) (any_live-Any ps)
          (no_frames ps))
    where
      join :
          (a v n : Bool) {A V N : Type 0}
          → (a ≡ true) ↔ A
          → (v ≡ true) ↔ V
          → (n ≡ true) ↔ N
          → ((a && (v || n)) ≡ true) ↔ (A × (V ⊎ N))
      join false v n f g h = (λ e. cc, λ e. f.1 e.0)
      join true true n f g h = (λ e. (f.0 refl, inl (g.0 refl)), λ e. refl)
      join true false n f g h =
          (λ e. (f.0 refl, inr (h.0 e)), λ e. elim (e.1) [ inl v ↦ cc (g.1 v) | inr m ↦ h.1 m ])
