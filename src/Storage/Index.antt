-- ===== src/Storage/Index.antt =====
-- The two indexes of the engine (src/storage.rs): the primary index
-- from `stream:key` to the pointer of the key's live frame, a timestamp index for each stream, and
-- the bytes that both are charged for.
pub mod Keys
pub mod Streams
pub mod Charge
pub mod Fresh
pub mod Lookup
use liven.Prelude.{
  ℕ, ◌+◌, ◌-◌, ◌%◌, ◌^◌, Bool, true, false, ◌&&◌, ◌||◌, Option, none, some, List, [], ◌∷◌, ◌++◌, ℤ,
  negsuc, pos, map, ltb_ℤ, leb_ℤ, ltb, leb, ◌==◌, if◌then◌else◌, length, ◌-ℤ◌,
}
use liven.Bytes.{Bytes, ascii, bytes_eq}
use liven.Types.{LogPointer, Record}
use liven.Storage.Key.{as_str}
use liven.Storage.SkipMap.{SkipMap, is_some}
use liven.Storage.TimestampIndex
use liven.Storage.Index.Keys.{name_key, stamp_key, Stamp}

abbrev pub primary_index_node_bytes : ℕ
primary_index_node_bytes = 64

abbrev pub timestamp_index_node_bytes : ℕ
timestamp_index_node_bytes = 64

-- `fetch_add` and `fetch_sub` on an `AtomicU64` wrap.
abbrev pub fetch_add : ℕ → ℕ → ℕ
fetch_add a b = (a + b) % 2 ^ 64

abbrev pub fetch_sub : ℕ → ℕ → ℕ
fetch_sub a b = (a + 2 ^ 64 - b % 2 ^ 64) % 2 ^ 64

-- `format!("{}:{}", stream_name, key)`
unfoldable pub compound_key : Bytes → Bytes → Bytes
compound_key stream_name key = stream_name ++ (ascii ":" ++ key)

unfoldable pub record_key : Record → Bytes
unfolding compound_key
record_key r = compound_key r.stream_name (as_str r.key)

unfoldable pub primary_charge : Bytes → ℕ
primary_charge key = length key + primary_index_node_bytes

-- `HashMap<String, A>` of the standard library, as an association list
module _ {A : Type 0} where
  unfoldable pub get_stream : Bytes → List (Bytes × A) → Option A
  get_stream s [] = none
  get_stream s ((t, a) ∷ m) = if bytes_eq s t then some a else get_stream s m

  unfoldable pub set_stream : Bytes → A → List (Bytes × A) → List (Bytes × A)
  set_stream s a [] = (s, a) ∷ []
  set_stream s a ((t, b) ∷ m) =
      let rest = set_stream s a m in if bytes_eq s t then (t, a) ∷ m else (t, b) ∷ rest

module _ (P : SkipMap Bytes LogPointer name_key) (T : SkipMap Stamp LogPointer stamp_key) where
  pub record Index : Type 0 where
    pub skipmap : P.Carrier
    pub timestamp_indexes : List (Bytes × T.Carrier)
    pub index_ram_bytes : ℕ

  -- the timestamp index of a stream, made when it is not there yet
  unfoldable pub stream_index : Bytes → List (Bytes × T.Carrier) → T.Carrier
  stream_index s m = elim (get_stream s m) [ none ↦ T.new | some t ↦ t ]

  prune_stream : Bytes → LogPointer → Option T.Carrier → Index → Index
  unfolding TimestampIndex.remove
  prune_stream s p none ix = ix
  prune_stream s p (some t) ix =
      let (t', existed) = TimestampIndex.remove T p.timestamp p.seq_id t in
      if existed
      then record {
        skipmap = ix.skipmap;
        timestamp_indexes = set_stream s t' ix.timestamp_indexes;
        index_ram_bytes = fetch_sub ix.index_ram_bytes timestamp_index_node_bytes;
      }
      else ix

  prune_pointer : Bytes → Option LogPointer → Index → Index
  unfolding prune_stream
  prune_pointer s none ix = ix
  prune_pointer s (some p) ix = prune_stream s p (get_stream s ix.timestamp_indexes) ix

  unfoldable pub prune_timestamp_entry : Bytes → Bytes → Index → Index
  unfolding prune_pointer
  prune_timestamp_entry s key ix = prune_pointer s (P.get key ix.skipmap) ix

  -- what the flusher does to the indexes for a durable tombstone, and for a durable active frame
  unfoldable pub remove_key : Record → Index → Index
  unfolding prune_timestamp_entry
  remove_key r ix0 =
      let key = record_key r in
      let ix = prune_timestamp_entry r.stream_name key ix0 in
      if is_some (P.get key ix.skipmap)
      then record {
        skipmap = P.remove key ix.skipmap;
        timestamp_indexes = ix.timestamp_indexes;
        index_ram_bytes = fetch_sub ix.index_ram_bytes (primary_charge key);
      }
      else ix

  unfoldable pub insert_key : Record → LogPointer → Index → Index
  unfolding prune_timestamp_entry TimestampIndex.insert stream_index
  insert_key r p ix0 =
      let key = record_key r in
      let ix = prune_timestamp_entry r.stream_name key ix0 in
      let existed = is_some (P.get key ix.skipmap) in
      let ram =
        if existed then ix.index_ram_bytes else fetch_add ix.index_ram_bytes (primary_charge key) in
      record {
        skipmap = P.insert key p ix.skipmap;
        timestamp_indexes =
            set_stream r.stream_name
              (TimestampIndex.insert T r.timestamp r.sequence_id p
                (stream_index r.stream_name ix.timestamp_indexes))
              ix.timestamp_indexes;
        index_ram_bytes = fetch_add ram timestamp_index_node_bytes;
      }
