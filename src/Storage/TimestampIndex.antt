-- ===== src/Storage/TimestampIndex.antt =====
-- src/storage/timestamp_index.rs: the index of one stream from (timestamp, sequence id) to pointers.
use liven.Prelude.{
  ℕ, ◌-◌, ◌^◌, Bool, ◌&&◌, ◌||◌, List, [], ◌∷◌, ℤ, ltb_ℤ, leb_ℤ, leb, ◌==◌, if◌then◌else◌, length,
}
use liven.Types.{LogPointer}
use liven.Storage.SkipMap.{SkipMap, is_some}
use liven.Storage.Index.Keys.{stamp_key, Stamp}

module _ (T : SkipMap Stamp LogPointer stamp_key) where
  unfoldable pub insert : ℤ → ℕ → LogPointer → T.Carrier → T.Carrier
  insert timestamp seq_id pointer inner = T.insert (timestamp, seq_id) pointer inner

  -- with the removal, whether the entry was there
  unfoldable pub remove : ℤ → ℕ → T.Carrier → T.Carrier × Bool
  remove timestamp seq_id inner =
      (T.remove (timestamp, seq_id) inner, is_some (T.get (timestamp, seq_id) inner))

  abbrev in_range : ℤ → ℤ → Stamp → Bool
  in_range start_ms end_ms k =
      (ltb_ℤ start_ms k.0 || (leb_ℤ start_ms k.0 && leb 0 k.1))
      && (ltb_ℤ k.0 end_ms || (leb_ℤ k.0 end_ms && leb k.1 (2 ^ 64 - 1)))

  abbrev pub keep_range : ℤ → ℤ → List (Stamp × LogPointer) → List LogPointer
  keep_range start_ms end_ms [] = []
  keep_range start_ms end_ms ((k, p) ∷ m) =
      let rest = keep_range start_ms end_ms m in
      if in_range start_ms end_ms k then p ∷ rest else rest

  -- `SkipMap::range` from (start, 0) to (end, u64::MAX), both included, in the order of the keys
  unfoldable pub range : ℤ → ℤ → T.Carrier → List LogPointer
  range start_ms end_ms inner = keep_range start_ms end_ms (T.entries inner)

  unfoldable pub len : T.Carrier → ℕ
  len inner = length (T.entries inner)

  unfoldable pub is_empty : T.Carrier → Bool
  unfolding len
  is_empty inner = len inner == 0
