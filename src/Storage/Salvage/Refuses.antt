-- ===== src/Storage/Salvage/Refuses.antt =====
-- Recovery outside of repair does not cut off a tear that readable frames follow.
use liven.Prelude.{◌++◌, ℤ}
use liven.Bytes.{Bytes}
use liven.Types.{Record}
use liven.Storage.Payload.{PayloadFormat}
use liven.Storage.Frame.{frame_of}

module _ (format : PayloadFormat) (now_ms : ℤ) where
  -- two frames in a row, in a file
  abbrev pub two_frames : Bytes → Bytes → Record → Record → Bytes
  two_frames before after r s = before ++ (frame_of format r ++ (frame_of format s ++ after))
