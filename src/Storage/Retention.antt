-- ===== src/Storage/Retention.antt =====
-- Retention (src/storage.rs, `segment_is_fully_expired`): whether every live record of a segment is
-- older than its stream allows. A segment is its bytes, and its reads do not fail.
pub mod Walk
pub mod Expired
use liven.Prelude.{
  ℕ, zero, suc, ◌+◌, ◌-◌, ◌^◌, Bool, true, false, not, ◌&&◌, ◌||◌, Option, none, some, List, [],
  ◌∷◌, ltb, ◌==◌, if◌then◌else◌, length, take, drop, ℤ, pos, negsuc, ltb_ℤ, ◌-ℤ◌,
}
use liven.Bytes.{Bytes, from_be_bytes, i64_of_bits, is_utf8}
use liven.Storage.Frame.{FrameHeader}
use liven.Storage.Index.{get_stream}
use liven.Storage.Recovery.{flag_set}
use liven.Storage.Salvage.{header_at}

pub record RetentionPolicy : Type 0 where
  pub default_max_age_ms : ℕ
  pub streams : List (Bytes × ℕ)

abbrev pub or_default : ℕ → Option ℕ → ℕ
or_default n none = n
or_default n (some m) = m

unfoldable pub max_age_of : RetentionPolicy → Bytes → ℕ
unfolding get_stream
max_age_of policy stream_name =
    or_default policy.default_max_age_ms (get_stream stream_name policy.streams)

-- `i64::saturating_sub`
abbrev pub i64_saturating_sub : ℤ → ℤ → ℤ
i64_saturating_sub a b =
    if ltb_ℤ (pos (2 ^ 63 - 1)) (a -ℤ b)
    then pos (2 ^ 63 - 1)
    else if ltb_ℤ (a -ℤ b) (negsuc (2 ^ 63 - 1))
    then negsuc (2 ^ 63 - 1)
    else a -ℤ b

module _ (now_ms : ℤ) (policy : RetentionPolicy) where
  -- `max_age_ms as i64` wraps.
  unfoldable pub is_expired : Bytes → ℤ → Bool
  unfolding max_age_of i64_of_bits
  is_expired stream_name timestamp =
      let max_age_ms = max_age_of policy stream_name in
      not (max_age_ms == 0) && ltb_ℤ timestamp (i64_saturating_sub now_ms (i64_of_bits max_age_ms))

  -- a live frame, by the bytes after its header
  unfoldable pub live_is_expired : FrameHeader → Bytes → Bool
  live_is_expired h body =
      let stream_len = from_be_bytes (take 2 body) in
      let stream_name = take stream_len (drop 2 body) in
      not (ltb h.payload_len 2)
      && not (ltb h.payload_len (stream_len + 2))
      && is_utf8 stream_name
      && is_expired stream_name h.timestamp

  -- `while offset + 26 <= file_len`; an early `return Ok(false)` ends it
  unfoldable pub expired_from : ℕ → Bytes → ℕ → Bool → Bool
  expired_from zero file offset saw_live_frame = saw_live_frame || offset == 0
  expired_from (suc fuel) file offset saw_live_frame =
      let h = header_at file offset in
      let next = expired_from fuel file (offset + (26 + h.payload_len)) in
      let skipped = next saw_live_frame in
      let counted = next true in
      if ltb (length file) (offset + 26)
      then saw_live_frame || offset == 0
      else if ltb (length file) (offset + 26 + h.payload_len)
      then false
      else if flag_set 2 h.flags
      then skipped
      else if live_is_expired h (drop 26 (drop offset file))
      then counted
      else false

  -- A round takes 26 bytes or more, so that the length of the file is enough fuel.
  unfoldable pub segment_is_fully_expired : Bytes → Bool
  unfolding expired_from
  segment_is_fully_expired file = expired_from (length file) file 0 false
