-- ===== src/Tests/Recovery.antt =====
-- Recovery at a data directory of two segments.
use liven.Prelude.{replicate, All, List, ◌≡◌, pos, refl, true, [], ◌∷◌, arith, length}
use liven.Types.{Record}
use liven.Storage.Frame.{frame_of}
use liven.Storage.Frame.Read.{IsWritable}
use liven.Storage.Recovery.{RecoveryMode, RecoveryLimits, replay_frames}
use liven.Storage.Recovery.Segments.{replay_directory, fresh_scan, empty_state}
use liven.Storage.Recovery.Fuel.{replay_frames-Terminates}
use liven.Error.{ok}
use liven.Bytes.{bytes_eq}
use liven.Storage.Index.{record_key}
use liven.Storage.Flusher.{Pending, contains_key}
use liven.Storage.Recovery.Views.{AreWritten}
use liven.Storage.Recovery.Extent.{Extent}
use liven.Storage.Recovery.Replays.{IsWithin}
use liven.Storage.Recovery.Segmented.{Segment, segments_of}
use liven.Storage.Recovery.Directory.{Rebuilds, replay_directory-Rebuilds}
use liven.Storage.Salvage.Tears.{Directory}
use liven.Storage.Recover.{Opened, recover}
use liven.Storage.Recover.Completes.{IsOpened, recover-Completes}
use liven.Tests.Salvage.{now_ms, no_torn_region, fresh_directory, recovery_limits}
use liven.Tests.Disk.{
  text_format, stream_a, sample, sample_at, sample_at-IsWritable, sample-IsWritable,
}
use liven.Tests.Flush.{names, stamps}
use liven.Tests.Views.{stored}

abbrev limits : RecoveryLimits
limits = record {
  max_streams = 4;
  max_index_ram_bytes = 10000;
  recovery_mode = RecoveryMode.strict;
}

-- an older tombstone of the sample's key
abbrev removal : Record
removal = sample_at 5 (pos 1000) 2

removal-IsWritable : IsWritable text_format removal
removal-IsWritable = sample_at-IsWritable 5 (pos 1000) 2 (omega arith) (omega arith)

abbrev pub removed : Pending
removed = record {
  written = removal;
  frame_len = length (frame_of text_format removal);
  is_tombstone = true;
}

-- The segment with the higher id holds the older frame.
abbrev pub directory : List Segment
directory = (1, stored ∷ []) ∷ (3, removed ∷ []) ∷ []

pub directory-AreWritten : All (λ w. AreWritten text_format w.1) directory
directory-AreWritten = (((sample-IsWritable, refl), tt), (((removal-IsWritable, refl), tt), tt))

abbrev extent : Extent
extent = record { streams = stream_a ∷ []; last_seq = 9; owner = λ n. record_key sample }

stored-IsWithin : IsWithin extent stored
unfolding contains_key bytes_eq record_key
stored-IsWithin = record { stream = refl; seq = omega arith; key = refl }

removed-IsWithin : IsWithin extent removed
unfolding contains_key bytes_eq record_key
removed-IsWithin = record { stream = refl; seq = omega arith; key = refl }

replay_directory-Rebuilds_example :
    Rebuilds text_format names stamps limits extent directory
      (replay_directory text_format names stamps limits (segments_of text_format directory))
replay_directory-Rebuilds_example =
    replay_directory-Rebuilds text_format names stamps limits extent directory
      ((refl, tt), (tt, tt)) directory-AreWritten
      ((stored-IsWithin, tt), ((removed-IsWithin, tt), tt))

abbrev pub whole_directory : Directory
whole_directory = record fresh_directory { segments = segments_of text_format directory }

recover-Completes_example :
    (o : Opened no_torn_region text_format now_ms names stamps recovery_limits) × (recover
        no_torn_region text_format now_ms names stamps recovery_limits whole_directory
      ≡ ok o)
    × IsOpened no_torn_region text_format now_ms names stamps recovery_limits directory
        whole_directory o
recover-Completes_example =
    recover-Completes no_torn_region text_format now_ms names stamps recovery_limits extent
      directory whole_directory refl ((refl, tt), (tt, tt)) directory-AreWritten
      ((stored-IsWithin, tt), ((removed-IsWithin, tt), tt)) refl (omega arith) (omega arith)

-- a file that is no whole frame
replay_frames-Terminates_example :
    replay_frames text_format names stamps limits 40 1
      (replicate 30 0)
      fresh_scan
      (empty_state text_format names stamps limits)
    ≡ replay_frames text_format names stamps limits 30 1
        (replicate 30 0)
        fresh_scan
        (empty_state text_format names stamps limits)
replay_frames-Terminates_example =
    replay_frames-Terminates text_format names stamps limits 1 (replicate 30 0) 40 30 fresh_scan
      (empty_state text_format names stamps limits) (omega arith) (omega arith)
