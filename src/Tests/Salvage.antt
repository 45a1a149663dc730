-- ===== src/Tests/Salvage.antt =====
-- Tears at a segment with frames after the tear, and at one with trailing bytes.
use liven.Prelude.{ℕ, false, refl, none, [], ◌∷◌, ◌++◌, pos, ℤ, length}
use liven.Storage
use liven.Bytes
use liven.Bytes.{Bytes, ascii}
use liven.Types.{Record}
use liven.Storage.Frame.{frame_of}
use liven.Storage.Flusher.Batch.{segment_bytes}
use liven.Storage.Recovery.{RecoveryMode, RecoveryLimits, TearKind, DeferredTear}
use liven.Storage.Salvage.Tears.{Directory, has_segment}
use liven.Storage.Salvage.Refuses.{two_frames}
use liven.Storage.Salvage.Lossless.{IsKept}
use liven.Storage.Recover.{recover}
use liven.Storage.Recover.Kept.{Opens, recover-IsKept}
use liven.Tests.Disk.{text_format, sample_at}
use liven.Tests.Flush.{names, stamps}

abbrev pub now_ms : ℤ
now_ms = pos 1700000000001

abbrev recent : ℕ → Record
recent n = sample_at n (pos 1700000000000) 1

abbrev pub no_torn_region : ℕ → ℕ → Bytes
no_torn_region id offset = ascii "no torn region"

abbrev torn : Bytes
torn = 0 ∷ 0 ∷ 0 ∷ []

abbrev torn_tear : DeferredTear
torn_tear = record {
  segment_id = 1;
  file_len = length (two_frames text_format now_ms torn [] (recent 7) (recent 8));
  offset = 0;
  max_seq_in_prefix = 0;
  kind = TearKind.torn_crc;
  declared_payload_len = 0;
  parse_error = none;
}

abbrev pub fresh_directory : Directory
fresh_directory = record {
  segments = (1, torn) ∷ [];
  torn_backups = [];
  repair_backups = [];
  markers = [];
  max_normal_segment_id = 1;
  max_segment_id = 1;
  report = record {
    truncated_segments = [];
    skipped_segments = [];
    repair_backups = [];
    torn_backups = [];
    salvaged_frames = 0;
    salvage_segments = [];
    had_issues = false;
  };
}

-- a frame, and a few bytes after it
abbrev torn_directory : Directory
torn_directory = record fresh_directory {
  segments = (1, frame_of text_format (recent 7) ++ torn) ∷ [];
}

abbrev pub recovery_limits : RecoveryLimits
recovery_limits = record {
  max_streams = 4;
  max_index_ram_bytes = 10000;
  recovery_mode = RecoveryMode.default;
}

recover-IsKept_example :
    Opens no_torn_region text_format now_ms names stamps recovery_limits
      (IsKept 1 (segment_bytes 1 torn_directory.segments))
      (recover no_torn_region text_format now_ms names stamps recovery_limits torn_directory)
unfolding has_segment
recover-IsKept_example =
    recover-IsKept no_torn_region text_format now_ms names stamps recovery_limits torn_directory 1
      refl (tt, tt) refl
