-- ===== src/Storage/Salvage/Tears.antt =====
-- What recovery does about the tears that the replay noted (src/storage.rs, `handle_tear`,
-- `write_salvage_segment`, `process_deferred_tears`): it refuses, skips the rest of the segment, or
-- copies what it cuts off and truncates the file. The calls of the file system succeed. The wall
-- clock stands still, and a file name is the pair of ids that it is made of.
use liven.Prelude.{
  ℕ, zero, suc, ◌+◌, Bool, true, false, not, ◌&&◌, Option, none, some, List, [], ◌∷◌, ◌++◌, ltb,
  leb, ◌==◌, if◌then◌else◌, length, take, drop, concat_map,
}
use liven.Prelude.Sort.{sort}
use liven.Bytes.{Bytes, ascii, bytes_eq, bytes_lt}
use liven.Error.{LivenError, internal, Result, ok, err, ◌>>=◌}
use liven.Storage.Flusher.Batch.{segment_bytes, compaction_id_base}
use liven.Storage.Recovery.{RecoveryMode, TearKind, max_of}
use liven.Storage.Salvage.{StrandedFrame, u64_saturating_add}

abbrev pub is_repair : RecoveryMode → Bool
is_repair RecoveryMode.repair = true
is_repair _ = false

-- `matches!(kind, TearKind::Crc | TearKind::Parse)`
abbrev pub is_damage : TearKind → Bool
is_damage TearKind.torn_crc = true
is_damage TearKind.unparsed = true
is_damage _ = false

abbrev pub is_trailing : TearKind → Bool
is_trailing TearKind.trailing = true
is_trailing _ = false

-- the file of a segment id and the offset of a tear in it
abbrev pub TearName : Type 0
TearName = ℕ × ℕ

abbrev pub same_name : TearName → TearName → Bool
same_name a b = a.0 == b.0 && a.1 == b.1

-- the newest file of a name
abbrev pub file_at {ℓ} : {V : Type ℓ} → TearName → List (TearName × V) → Option V
file_at n [] = none
file_at n ((m, v) ∷ files) = let rest = file_at n files in if same_name n m then some v else rest

abbrev pub remove_at {ℓ} : {V : Type ℓ} → TearName → List (TearName × V) → List (TearName × V)
remove_at n [] = []
remove_at n ((m, v) ∷ files) =
    let rest = remove_at n files in if same_name n m then rest else (m, v) ∷ rest

-- a segment file is there, and is written as a whole
unfoldable pub has_segment : ℕ → List (ℕ × Bytes) → Bool
has_segment id [] = false
has_segment id ((j, bs) ∷ files) = let rest = has_segment id files in if id == j then true else rest

unfoldable pub write_segment : ℕ → Bytes → List (ℕ × Bytes) → List (ℕ × Bytes)
write_segment id new [] = (id, new) ∷ []
write_segment id new ((j, bs) ∷ files) =
    let rest = write_segment id new files in if id == j then (j, new) ∷ files else (j, bs) ∷ rest

pub record RecoveryReport : Type 0 where
  pub truncated_segments : List (ℕ × ℕ × ℕ)
  pub skipped_segments : List (ℕ × ℕ × ℕ)
  pub repair_backups : List ℕ
  pub torn_backups : List TearName
  pub salvaged_frames : ℕ
  pub salvage_segments : List ℕ
  pub had_issues : Bool

-- the `.liven` files, the sidecars `.torn-*.bak`, the full copies, the `.salvage-*` markers
pub record Directory : Type 0 where
  pub segments : List (ℕ × Bytes)
  pub torn_backups : List (TearName × Bytes)
  pub repair_backups : List (ℕ × Bytes)
  pub markers : List (TearName × (ℕ × ℕ))
  pub max_normal_segment_id : ℕ
  pub max_segment_id : ℕ
  pub report : RecoveryReport

pub data TearDecision : Type 0 where
  truncate : ℕ → Option TearName → TearDecision
  skip_remainder : TearDecision

-- a file that is not there makes the loop end
unfoldable pub free_id : ℕ → ℕ → List (ℕ × Bytes) → ℕ
unfolding has_segment
free_id zero id files = id
free_id (suc fuel) id files =
    let next = free_id fuel (suc id) files in if has_segment id files then next else id

unfoldable pub next_salvage_id : Directory → Result LivenError ℕ
unfolding free_id
next_salvage_id d =
    let id =
      free_id (suc (length d.segments)) (max_of (u64_saturating_add d.max_normal_segment_id 1) 1)
        d.segments in
    if leb compaction_id_base id
    then err (internal (ascii "normal segment ID space exhausted while salvaging"))
    else ok id

abbrev pub frame_bytes : Bytes → StrandedFrame → Bytes
frame_bytes file f = take f.len (drop f.offset file)

abbrev pub total_len : List StrandedFrame → ℕ
total_len [] = 0
total_len (f ∷ frames) = f.len + total_len frames

-- the id in a marker that an earlier run left, or a new one
unfoldable pub salvage_target : Option (ℕ × ℕ) → Directory → Result LivenError ℕ
unfolding next_salvage_id
salvage_target none d = next_salvage_id d
salvage_target (some (id, len)) d =
    let fresh = next_salvage_id d in if ltb 0 id && ltb id compaction_id_base then ok id else fresh

abbrev pub is_written : Option (ℕ × ℕ) → ℕ → ℕ → Directory → Bool
is_written none target_id total d = false
is_written (some (id, len)) target_id total d =
    id == target_id
    && len == total
    && has_segment target_id d.segments
    && length (segment_bytes target_id d.segments) == total

unfoldable pub write_salvage_segment :
    Bytes → TearName → List StrandedFrame → Directory → Result LivenError (Directory × ℕ)
unfolding segment_bytes write_segment has_segment salvage_target
write_salvage_segment file name frames d = do
  target_id ← salvage_target (file_at name d.markers) d
  ok (
    record d {
      markers = (name, (target_id, total_len frames)) ∷ d.markers;
      segments =
          if is_written (file_at name d.markers) target_id (total_len frames) d
          then d.segments
          else write_segment target_id (concat_map (frame_bytes file) frames) d.segments;
      max_normal_segment_id = max_of d.max_normal_segment_id target_id;
      max_segment_id = max_of d.max_segment_id target_id;
      report = record d.report { salvage_segments = d.report.salvage_segments ++ (target_id ∷ []) };
    },
    target_id,
  )

-- `keys.sort()`, `keys.dedup()`, `keys.join(", ")`
abbrev pub by_text : Bytes → Bytes → Bool
by_text a b = not (bytes_lt b a)

unfoldable pub dedup : List Bytes → List Bytes
dedup [] = []
dedup (a ∷ []) = a ∷ []
dedup (a ∷ b ∷ keys) = let rest = dedup (b ∷ keys) in if bytes_eq a b then rest else a ∷ rest

unfoldable pub join : List Bytes → Bytes
join [] = []
join (a ∷ []) = a
join (a ∷ b ∷ keys) = a ++ (ascii ", " ++ join (b ∷ keys))

abbrev pub listed : Option Bytes → List Bytes
listed none = []
listed (some key) = key ∷ []

unfoldable pub keys_label : List Bytes → Bytes
unfolding dedup join sort
keys_label [] = ascii "none parseable"
keys_label (k ∷ keys) = join (dedup (sort by_text (k ∷ keys)))
