-- ===== src/Storage/Flusher/Loop.antt =====
-- `run_flusher_loop` (src/storage.rs): batches are executed one after the other until a shutdown, the
-- end of the channel, or a failure. What the channel hands over, and how the file system answers, is
-- given turn by turn: the drain window decides only which entries make a batch.
use liven.Prelude.{ℕ, Bool, true, false, List, [], ◌∷◌, ◌++◌, ℤ, length, if◌then◌else◌}
use liven.Bytes.{Bytes}
use liven.Types.{LogPointer}
use liven.Error.{LivenError, Result, ok, err}
use liven.Storage.Payload.{PayloadFormat}
use liven.Storage.SkipMap.{SkipMap}
use liven.Storage.Index.Keys.{name_key, stamp_key, Stamp}
use liven.Storage.Flusher.{LogEntry, shutdown, Config, u64_add}
use liven.Storage.Flusher.Batch.{Engine, Io, Reply, execute_batch_append, notify}

-- a batch of at least one entry, nothing within the timeout, or no more senders
pub data Turn : Type 0 where
  received : LogEntry → List LogEntry → Io → Turn
  timeout disconnected : Turn

abbrev pub is_shutdown : LogEntry → Bool
is_shutdown shutdown = true
is_shutdown _ = false

module _ (format : PayloadFormat) (P : SkipMap Bytes LogPointer name_key)
    (T : SkipMap Stamp LogPointer stamp_key) (cfg : Config) (now : ℕ → Result LivenError ℤ)
    (describe : LivenError → Bytes) where
  pub record Flusher : Type 0 where
    pub engine : Engine format P T
    pub is_running : Bool
    pub flush_batches : ℕ
    pub flush_entries : ℕ

  -- A batch that fails is told to all its callers, and an engine that has failed stops the loop.
  abbrev pub after_batch : List LogEntry → Flusher → Reply format P T → Flusher
  after_batch batch s (ok _, e) = record s { engine = e }
  after_batch batch s (err x, e) = record s {
    engine = record e { acks = e.acks ++ notify format P T (describe x) batch };
    is_running = if e.failed then false else s.is_running;
  }

  abbrev pub count_batch : List LogEntry → Flusher → Flusher
  count_batch batch s = record s {
    flush_batches = u64_add s.flush_batches 1;
    flush_entries = u64_add s.flush_entries (length batch);
  }

  abbrev pub flush : List LogEntry → Io → Flusher → Flusher
  flush batch o s =
      after_batch batch (count_batch batch s)
        (execute_batch_append format P T cfg now o batch s.engine)

  unfoldable pub run_flusher_loop : List Turn → Flusher → Flusher
  unfolding execute_batch_append notify
  run_flusher_loop [] s = s
  run_flusher_loop (disconnected ∷ turns) s = s
  run_flusher_loop (timeout ∷ turns) s =
      let rest = run_flusher_loop turns s in if s.is_running then rest else s
  run_flusher_loop (received first more o ∷ turns) s =
      let rest = run_flusher_loop turns (flush (first ∷ more) o s) in
      if s.is_running then (if is_shutdown first then s else rest) else s
