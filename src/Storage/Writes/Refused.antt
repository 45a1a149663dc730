-- ===== src/Storage/Writes/Refused.antt =====
-- A request whose key is too long is refused after its stream was registered.
use liven.Prelude.{
  ℕ, ◌<◌, ◌≡◌, refl, ◌∙◌, Bool, true, false, ◌∷◌, leb, length, lt→leb, if◌then◌else◌,
}
use liven.Bytes.{Bytes}
use liven.Types.{DataValue, LogPointer}
use liven.Error.{key_too_long, ok, err}
use liven.Storage.Key.RoundTrip.{from_str_rejects}
use liven.Storage.SkipMap.{SkipMap}
use liven.Storage.Index.{Index}
use liven.Storage.Index.Keys.{name_key, stamp_key, Stamp}
use liven.Storage.Flusher.{contains_key}
use liven.Storage.Writes.{Writer, WriteLimits, ensure_writable, register_stream, append_async}

-- A delete under a key of more than 32 bytes, in a stream that is not registered while there is room
-- for one more, is refused with `key_too_long`, and leaves the stream registered: it counts against
-- the limit on streams from then on.
pub append_async-registers_refused :
    (limits : WriteLimits) (P : SkipMap Bytes LogPointer name_key)
    (T : SkipMap Stamp LogPointer stamp_key) (ix : Index P T) (stream_name key : Bytes)
    (value : DataValue) (rx : ℕ) (w : Writer)
    → w.failed ≡ false
    → w.is_running ≡ true
    → contains_key stream_name w.streams_set ≡ false
    → length w.streams_set < limits.max_streams
    → 32 < length key
    → append_async limits P T ix stream_name key value true rx w ≡ (
      err (key_too_long (length key) key),
      record w { streams_set = stream_name ∷ w.streams_set },
    )
unfolding append_async ensure_writable register_stream
append_async-registers_refused limits P T ix stream_name key value rx w healthy running new room
      long =
    rw (ensured, registered, from_str_rejects key long) refl
  where
    if_true : {A : Type 0} (b : Bool) (a c : A) → b ≡ true → (if b then a else c) ≡ a
    if_true b a c h = rw (h, if◌then◌else◌) refl

    if_false : {A : Type 0} (b : Bool) (a c : A) → b ≡ false → (if b then a else c) ≡ c
    if_false b a c h = rw (h, if◌then◌else◌) refl

    ensured : ensure_writable w ≡ (ok tt, w)
    ensured = if_false w.failed _ _ healthy ∙ if_true w.is_running _ _ running

    registered :
        register_stream limits stream_name w
        ≡ (ok tt, record w { streams_set = stream_name ∷ w.streams_set })
    registered =
        if_false (contains_key stream_name w.streams_set) _ _ new
        ∙ if_false (leb limits.max_streams (length w.streams_set)) _ _
            (lt→leb limits.max_streams (length w.streams_set) room)
