-- ===== src/Tests/Retention.antt =====
-- Retention at a segment with one record.
use liven.Prelude.{◌≡◌, ◌↔◌, ◌⊎◌, true, false, Any, arith, refl, [], ◌∷◌, pos}
use liven.Storage.Flusher.Built.{frames_of}
use liven.Storage.Retention.{RetentionPolicy, max_age_of, segment_is_fully_expired}
use liven.Storage.Retention.Expired.{AreOld, IsBounded, segment_is_fully_expired-frames_of}
use liven.Tests.Disk.{text_format, sample-IsWritable}
use liven.Tests.Views.{stored}

-- a second
abbrev policy : RetentionPolicy
policy = record { default_max_age_ms = 1000; streams = [] }

bounded : IsBounded text_format (pos 5000) policy stored.written
unfolding max_age_of
bounded = omega arith

segment_is_fully_expired-frames_of_example :
    (segment_is_fully_expired (pos 5000) policy (frames_of text_format (stored ∷ [])) ≡ true) ↔ (
      AreOld text_format (pos 5000) policy (stored ∷ [])
      × (Any (λ p. p.is_tombstone ≡ false) (stored ∷ []) ⊎ (stored ∷ [] ≡ [])))
segment_is_fully_expired-frames_of_example =
    segment_is_fully_expired-frames_of text_format (pos 5000) policy (stored ∷ [])
      ((sample-IsWritable, refl), tt) (omega arith, omega arith) (bounded, tt)
