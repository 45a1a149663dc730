-- ===== src/Storage/Flusher/Batch.antt =====
-- `execute_batch_append` as a whole: admission, rollover to a new segment, the write and the sync,
-- and the completion; and what `run_flusher_loop` sends when it fails. The file system answers each
-- call as `Io` says.
use liven.Prelude.{
  ℕ, ◌+◌, ◌-◌, ◌/◌, ◌^◌, Bool, true, false, Option, none, some, List, [], ◌∷◌, ◌++◌, ltb, leb, ◌==◌,
  if◌then◌else◌, length, take, ℤ,
}
use liven.Bytes.{Bytes, ascii}
use liven.Types.{LogPointer, Record}
use liven.Error.{LivenError, internal, io, disk_full, message, Result, ok, err}
use liven.Storage.Payload.{PayloadFormat}
use liven.Storage.SkipMap.{SkipMap}
use liven.Storage.Index.{Index}
use liven.Storage.Index.Keys.{name_key, stamp_key, Stamp}
use liven.Storage.Flusher.{
  LogEntry, single, replace, batch, tombstone_batch, shutdown, Ack, refused, Config, Admission,
  Outcome, admit_all, u64_add,
}
use liven.Storage.Flusher.Complete.{complete_all}

-- How the file system answers: an error is its text. A write that fails has written some bytes.
pub data WriteResult : Type 0 where
  written : WriteResult
  torn : ℕ → Bool → Bytes → WriteResult

pub record Io : Type 0 where
  pub sync_old : Option Bytes
  pub create : Option Bytes
  pub sync_dir : Option Bytes
  pub write : WriteResult
  pub sync : Option Bytes

-- `u64::MAX / 2`
abbrev pub compaction_id_base : ℕ
compaction_id_base = (2 ^ 64 - 1) / 2

-- The bytes of a segment file; a file that is not there has none.
unfoldable pub segment_bytes : ℕ → List (ℕ × Bytes) → Bytes
segment_bytes id [] = []
segment_bytes id ((j, bs) ∷ files) = if id == j then bs else segment_bytes id files

unfoldable pub append_bytes : ℕ → Bytes → List (ℕ × Bytes) → List (ℕ × Bytes)
append_bytes id new [] = (id, new) ∷ []
append_bytes id new ((j, bs) ∷ files) =
    let rest = append_bytes id new files in
    if id == j then (j, bs ++ new) ∷ files else (j, bs) ∷ rest

-- `file_handles.remove(&segment_id)`
unfoldable pub forget_handle : ℕ → List ℕ → List ℕ
forget_handle id [] = []
forget_handle id (j ∷ js) = let rest = forget_handle id js in if id == j then rest else j ∷ rest

module _ (format : PayloadFormat) (P : SkipMap Bytes LogPointer name_key)
    (T : SkipMap Stamp LogPointer stamp_key) where
  -- what the flusher shares with the rest of the engine, and the segment files
  pub record Engine : Type 0 where
    pub current_sequence_id : ℕ
    pub active_segment_id : ℕ
    pub segment_id_counter : ℕ
    pub active_file : Bool
    pub active_size : ℕ
    pub index : Index P T
    pub files : List (ℕ × Bytes)
    pub failed : Bool
    pub high_water_reached : Bool
    pub flush_fsyncs : ℕ
    pub broadcasts : List Record
    pub acks : List (ℕ × Ack)
    pub file_handles : List ℕ

  abbrev pub Reply : Type 0
  Reply = Result LivenError (Unit {0}) × Engine

  abbrev pub and_next : Reply → (Engine → Reply) → Reply
  and_next (ok _, e) k = k e
  and_next (err x, e) k = (err x, e)

  abbrev pub fail : LivenError → Engine → Reply
  fail x e = (err x, record e { failed = true })

  -- the steps of a rollover, each after the one before succeeded
  abbrev pub open_segment : Io → Engine → Reply
  open_segment o e = elim o.create [
    | some x ↦ fail (io x) e
    | none ↦ elim o.sync_dir [
      | some x ↦ fail (io x) e
      | none ↦ (ok tt, record e { active_file = true; active_size = 0 })
    ]
  ]

  abbrev pub take_segment_id : Io → Engine → Reply
  take_segment_id o e =
      if leb compaction_id_base e.segment_id_counter
      then (
        err (internal (ascii "normal segment ID space exhausted")),
        record e { segment_id_counter = u64_add e.segment_id_counter 1 },
      )
      else open_segment o (record e {
        segment_id_counter = u64_add e.segment_id_counter 1;
        active_segment_id = e.segment_id_counter;
      })

  -- `active_file_guard.take()` leaves no active file, and syncs the one that was there.
  unfoldable pub roll_over : Io → Engine → Reply
  roll_over o e =
      if e.active_file
      then elim o.sync_old [
        | some x ↦ fail (io x) (record e { active_file = false })
        | none ↦ take_segment_id o (record e { active_file = false })
      ]
      else take_segment_id o e

  unfoldable pub write_frames : Bytes → Io → Engine → Reply
  unfolding append_bytes
  write_frames buf o e =
      if e.active_file
      then elim o.write [
        | written ↦ (ok tt, record e { files = append_bytes e.active_segment_id buf e.files })
        | torn n full x ↦
            fail (if full then disk_full else io x)
              (record e { files = append_bytes e.active_segment_id (take n buf) e.files })
      ]
      else fail (internal (ascii "No active file handle found")) e

  unfoldable pub sync_frames : Config → Io → Engine → Reply
  sync_frames cfg o e =
      if cfg.sync_always
      then elim o.sync [
        | some x ↦ fail (io x) e
        | none ↦ (ok tt, record e { flush_fsyncs = u64_add e.flush_fsyncs 1 })
      ]
      else (ok tt, e)

  -- after the durable write
  unfoldable pub finish : Admission → Engine → Reply
  unfolding forget_handle
  finish a e =
      let c = complete_all P T e.active_segment_id a.completes a.pending (record {
        offset_acc = e.active_size;
        index = e.index;
        broadcasts = e.broadcasts;
        acks = e.acks;
      }) in
      (
        ok tt,
        record e {
          active_size = c.offset_acc;
          index = c.index;
          broadcasts = c.broadcasts;
          acks = c.acks;
          current_sequence_id = a.current_seq;
          file_handles = forget_handle e.active_segment_id e.file_handles;
        },
      )

  abbrev pub start_batch : Engine → Admission
  start_batch e = record {
    current_seq = e.current_sequence_id;
    projected_new_bytes = 0;
    batch_new_keys = [];
    high_water_reached = e.high_water_reached;
    frame_buf = [];
    pending = [];
    completes = [];
    acks = e.acks;
  }

  -- what admission has sent and flagged stands whatever follows
  abbrev pub admitted : Admission → Engine → Engine
  admitted a e = record e { high_water_reached = a.high_water_reached; acks = a.acks }

  abbrev pub needs_room : Config → Admission → Engine → Bool
  needs_room cfg a e = ltb cfg.max_segment_size (e.active_size + length a.frame_buf)

  abbrev pub sync_and_finish : Config → Io → Admission → Engine → Reply
  sync_and_finish cfg o a e = and_next (sync_frames cfg o e) (finish a)

  abbrev pub write_and_finish : Config → Io → Admission → Engine → Reply
  write_and_finish cfg o a e = and_next (write_frames a.frame_buf o e) (sync_and_finish cfg o a)

  abbrev pub make_room : Bool → Io → Engine → Reply
  make_room true o e = roll_over o e
  make_room false o e = (ok tt, e)

  abbrev pub persist : Config → Io → Admission → Engine → Reply
  persist cfg o a e = and_next (make_room (needs_room cfg a e) o e) (write_and_finish cfg o a)

  abbrev pub continue_batch : Config → Io → Engine → Outcome → Reply
  continue_batch cfg o e (err x, a) = (err x, admitted a e)
  continue_batch cfg o e (ok _, a) = persist cfg o a (admitted a e)

  unfoldable pub execute_batch_append :
      Config → (ℕ → Result LivenError ℤ) → Io → List LogEntry → Engine → Reply
  unfolding roll_over write_frames sync_frames finish
  execute_batch_append cfg now o entries e =
      continue_batch cfg o e (admit_all format P T cfg now e.index entries (start_batch e))

  -- the failure branch of `run_flusher_loop`: every request of the batch is told the error's text
  unfoldable pub notify : Bytes → List LogEntry → List (ℕ × Ack)
  notify text [] = []
  notify text (single _ _ _ _ tx ∷ entries) = (tx, refused (message text)) ∷ notify text entries
  notify text (tombstone_batch _ _ tx ∷ entries) =
      (tx, refused (message text)) ∷ notify text entries
  notify text (replace _ _ _ tx ∷ entries) = (tx, refused (message text)) ∷ notify text entries
  notify text (batch _ tx ∷ entries) = (tx, refused (message text)) ∷ notify text entries
  notify text (shutdown ∷ entries) = notify text entries
