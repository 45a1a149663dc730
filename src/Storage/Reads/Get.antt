-- ===== src/Storage/Reads/Get.antt =====
-- A lookup answers what the abstract view holds under the key.
use liven.Prelude.{◌≡◌, refl, ap, ◌∙◌, Option, none, some}
use liven.Bytes.{Bytes}
use liven.Types.{LogPointer, Record}
use liven.Error.{ok, ◌>>=◌}
use liven.Storage.Payload.{PayloadFormat}
use liven.Storage.Frame.{read_record}
use liven.Storage.Frame.Read.{IsWritable, read_record-frame_of}
use liven.Storage.SkipMap.{SkipMap}
use liven.Storage.Index.{compound_key}
use liven.Storage.Index.Keys.{name_key, stamp_key, Stamp}
use liven.Storage.Flusher.Batch.{Engine, segment_bytes}
use liven.Storage.Flusher.Live.{Live, ShowsAt}
use liven.Storage.Flusher.Refines.{EngineShows}
use liven.Storage.Flusher.Stands.{StandsAt}
use liven.Storage.Reads.{ReadConfig, read_at, read_entry, get}

-- a record that is there can be written and read back
abbrev pub IsReadable : PayloadFormat → Option Record → Type 0
IsReadable format none = Unit
IsReadable format (some r) = IsWritable format r

module _ (format : PayloadFormat) (P : SkipMap Bytes LogPointer name_key)
    (T : SkipMap Stamp LogPointer stamp_key) (cfg : ReadConfig) where
  pub read_at-StandsAt :
      (e : Engine format P T) (p : LogPointer) (r : Record)
      → StandsAt format (segment_bytes p.segment_id e.files) p r
      → IsWritable format r
      → read_at format P T cfg e p ≡ ok r
  read_at-StandsAt e p r s w =
      ap (λ f. read_record format cfg.max_segment_size f p) s.holds
      ∙ read_record-frame_of format cfg.max_segment_size s.before s.after r p w s.offset

  read_entry-ShowsAt :
      (e : Engine format P T) (p : Option LogPointer) (r : Option Record)
      → ShowsAt format e.files p r
      → IsReadable format r
      → read_entry format P T cfg e p ≡ ok r
  read_entry-ShowsAt e none none s w = refl
  read_entry-ShowsAt e none (some r) s w = absurd s
  read_entry-ShowsAt e (some p) none s w = absurd s
  read_entry-ShowsAt e (some p) (some r) s w =
      ap (λ x. x >>= λ y. ok (some y)) (read_at-StandsAt e p r s w)

  -- In an engine that represents a map from compound keys to records, `get` answers the record that
  -- the map has under the stream and the key, or that there is none, and no error. A record that is
  -- there is one that can be written.
  pub get-EngineShows :
      (e : Engine format P T) (m : Live) (stream_name key : Bytes)
      → EngineShows format P T m e
      → IsReadable format (m (compound_key stream_name key))
      → get format P T cfg e stream_name key ≡ ok (m (compound_key stream_name key))
  unfolding get
  get-EngineShows e m stream_name key shown w =
      read_entry-ShowsAt e (P.get (compound_key stream_name key) e.index.skipmap)
        (m (compound_key stream_name key)) (shown (compound_key stream_name key)) w
