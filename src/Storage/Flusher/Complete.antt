-- ===== src/Storage/Flusher/Complete.antt =====
-- The end of `execute_batch_append`: with the frames durable, the records of the batch are indexed,
-- broadcast and acknowledged in order.
use liven.Prelude.{ℕ, zero, suc, ◌+◌, false, List, [], ◌∷◌, ◌++◌, if◌then◌else◌}
use liven.Bytes.{Bytes}
use liven.Types.{LogPointer, Record}
use liven.Storage.SkipMap.{SkipMap}
use liven.Storage.Index.{Index, remove_key, insert_key}
use liven.Storage.Index.Keys.{name_key, stamp_key, Stamp}
use liven.Storage.Flusher.{
  Pending, PendingComplete, single, replace, batch, Ack, record_written, records_written,
}

module _ (P : SkipMap Bytes LogPointer name_key) (T : SkipMap Stamp LogPointer stamp_key) where
  pub record Completion : Type 0 where
    pub offset_acc : ℕ
    pub index : Index P T
    pub broadcasts : List Record
    pub acks : List (ℕ × Ack)

  module _ (segment_id : ℕ) where
    abbrev pub pointer_to : Record → ℕ → LogPointer
    pointer_to r offset = record {
      segment_id = segment_id;
      file_offset = offset;
      seq_id = r.sequence_id;
      timestamp = r.timestamp;
    }

    unfoldable pub index_record : Pending → ℕ → Index P T → Index P T
    index_record p offset ix =
        if p.is_tombstone
        then remove_key P T p.written ix
        else insert_key P T p.written (pointer_to p.written offset) ix

    unfoldable pub complete_record : Pending → Completion → Completion
    unfolding index_record
    complete_record p c = record {
      offset_acc = c.offset_acc + p.frame_len;
      index = index_record p c.offset_acc c.index;
      broadcasts = c.broadcasts ++ (p.written ∷ []);
      acks = c.acks;
    }

    abbrev send : ℕ → Ack → Completion → Completion
    send tx ack c = record c { acks = c.acks ++ ((tx, ack) ∷ []) }

    -- `for _ in 0..count`: the records taken, those left, and the new state
    unfoldable pub complete_records :
        ℕ → List Pending → List Record → Completion → List Record × List Pending × Completion
    unfolding complete_record
    complete_records zero ps added c = (added, ps, c)
    complete_records (suc n) [] added c = complete_records n [] added c
    complete_records (suc n) (p ∷ ps) added c =
        complete_records n ps (added ++ (p.written ∷ [])) (complete_record p c)

    unfoldable pub complete_one :
        PendingComplete → List Pending → Completion → List Pending × Completion
    unfolding complete_record complete_records
    complete_one (single tx) [] c = ([], c)
    complete_one (single tx) (p ∷ ps) c =
        (ps, send tx (record_written p.written) (complete_record p c))
    complete_one (replace tx) [] c = ([], c)
    complete_one (replace tx) (p ∷ ps) c = (
      ps,
      send tx (record_written p.written) (complete_record (record p { is_tombstone = false }) c),
    )
    complete_one (batch tx count) ps c =
        let (added, left, c') = complete_records count ps [] c in
        (left, send tx (records_written added) c')

    unfoldable pub complete_all : List PendingComplete → List Pending → Completion → Completion
    unfolding complete_one
    complete_all [] ps c = c
    complete_all (k ∷ ks) ps c = let (left, c') = complete_one k ps c in complete_all ks left c'
