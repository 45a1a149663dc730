-- ===== src/Storage/Durable/Loop.antt =====
-- The flusher over any number of batches.
use mathlib.Core.Path.{subst}
use liven.Prelude.{
  ℕ, ◌+◌, ◌^◌, ◌≤◌, ◌<◌, ◌≡◌, ◌⊎◌, inl, inr, refl, sym, Bool, true, false, List, [], ◌∷◌, ◌++◌, ℤ,
  arith, All, All-split, length, length-append, map, if◌then◌else◌,
}
use liven.Bytes.{Bytes}
use liven.Types.{LogPointer}
use liven.Error.{LivenError, Result, ok, err}
use liven.Storage.Payload.{PayloadFormat}
use liven.Storage.SkipMap.{SkipMap}
use liven.Storage.Index.Keys.{name_key, stamp_key, Stamp}
use liven.Storage.Flusher.{LogEntry, Pending, Config}
use liven.Storage.Flusher.Batch.{Io, Engine, Reply, execute_batch_append}
use liven.Storage.Flusher.Live.{Live, write_all}
use liven.Storage.Flusher.Loop.{
  Turn, received, timeout, disconnected, is_shutdown, Flusher, after_batch, count_batch,
  run_flusher_loop,
}
use liven.Storage.Flusher.Stages.{Leaves}
use liven.Storage.Flusher.Takes.{Change, change_of, Takes}
use liven.Storage.Durable.Accepted.{IsAccepted, IsInRange, asked_changes}
use liven.Storage.Durable.Batches.{
  EngineIsDurable, Persists, Survives, execute_batch_append-IsDurable,
}

-- all that the batches ask for
abbrev pub asked_turns : List Turn → List Change
asked_turns [] = []
asked_turns (received first more o ∷ ts) = asked_changes (first ∷ more) ++ asked_turns ts
asked_turns (timeout ∷ ts) = asked_turns ts
asked_turns (disconnected ∷ ts) = asked_turns ts

module _ (format : PayloadFormat) (P : SkipMap Bytes LogPointer name_key)
    (T : SkipMap Stamp LogPointer stamp_key) (streams : List Bytes) (now : ℕ → Result LivenError ℤ)
    (range : IsInRange now) (cfg : Config) (describe : LivenError → Bytes) where
  -- The map that the loop makes of a map: a batch that succeeds writes the changes of its admitted
  -- entries, and one that fails, like all that follows the end of the loop, writes nothing.
  pub data Writes : List Turn → Flusher format P T cfg now describe → Live → Live → Type 0 where
    ended : {s : Flusher format P T cfg now describe} {m : Live} → Writes [] s m m
    closed :
        {ts : List Turn} {s : Flusher format P T cfg now describe} {m : Live}
        → Writes (disconnected ∷ ts) s m m
    stopped :
        {ts : List Turn} {s : Flusher format P T cfg now describe} {m : Live}
        → s.is_running ≡ false
        → Writes ts s m m
    shut :
        {first : LogEntry} {more : List LogEntry} {o : Io} {ts : List Turn}
        {s : Flusher format P T cfg now describe} {m : Live}
        → is_shutdown first ≡ true
        → Writes (received first more o ∷ ts) s m m
    idle :
        {ts : List Turn} {s : Flusher format P T cfg now describe} {m m' : Live}
        → Writes ts s m m'
        → Writes (timeout ∷ ts) s m m'
    wrote :
        {first : LogEntry} {more : List LogEntry} {o : Io} {ts : List Turn}
        {s : Flusher format P T cfg now describe} {m m' : Live} (e : Engine format P T)
        (pushed : List Pending)
        → execute_batch_append format P T cfg now o (first ∷ more) s.engine ≡ (ok tt, e)
        → Takes (first ∷ more) (map change_of pushed)
        → Writes ts
            (after_batch format P T cfg now describe
              (first ∷ more)
              (count_batch format P T cfg now describe (first ∷ more) s)
              (ok tt, e))
            (write_all pushed m)
            m'
        → Writes (received first more o ∷ ts) s m m'
    lost :
        {first : LogEntry} {more : List LogEntry} {o : Io} {ts : List Turn}
        {s : Flusher format P T cfg now describe} {m m' : Live} (x : LivenError)
        (e : Engine format P T)
        → execute_batch_append format P T cfg now o (first ∷ more) s.engine ≡ (err x, e)
        → Writes ts
            (after_batch format P T cfg now describe
              (first ∷ more)
              (count_batch format P T cfg now describe (first ∷ more) s)
              (err x, e))
            m
            m'
        → Writes (received first more o ∷ ts) s m m'

  -- the engine has failed, or its files represent the map that the loop has made
  abbrev pub Outlives :
      List Turn
      → Flusher format P T cfg now describe
      → Live
      → Flusher format P T cfg now describe
      → Type 0
  Outlives ts s m s' =
      (s'.engine.failed ≡ true)
      ⊎ ((m' : Live) × Writes ts s m m' × EngineIsDurable format P T streams now range m' s'.engine)

  run_stopped :
      (ts : List Turn) (s : Flusher format P T cfg now describe)
      → s.is_running ≡ false
      → run_flusher_loop format P T cfg now describe ts s ≡ s
  unfolding run_flusher_loop
  run_stopped [] s h = refl
  run_stopped (disconnected ∷ ts) s h = refl
  run_stopped (timeout ∷ ts) s h = rw (h, if◌then◌else◌) refl
  run_stopped (received first more o ∷ ts) s h = rw (h, if◌then◌else◌) refl

  if_rule :
      (Q : Flusher format P T cfg now describe → Type 0) (b : Bool)
      (s t : Flusher format P T cfg now describe)
      → (b ≡ true → Q s)
      → (b ≡ false → Q t)
      → Q (if b then s else t)
  if_rule Q true s t f g = f refl
  if_rule Q false s t f g = g refl

  Outlives-map :
      (us ts : List Turn) (s t : Flusher format P T cfg now describe) (m n : Live)
      (s' : Flusher format P T cfg now describe)
      → ((m' : Live) → Writes us s m m' → Writes ts t n m')
      → Outlives us s m s'
      → Outlives ts t n s'
  Outlives-map us ts s t m n s' f (inl failed) = inl failed
  Outlives-map us ts s t m n s' f (inr (m', w, d)) = inr (m', f m' w, d)

  module _ (first : LogEntry) (more : List LogEntry) (o : Io) (ts : List Turn)
      (s : Flusher format P T cfg now describe) (m : Live) where
    abbrev after : Reply format P T → Flusher format P T cfg now describe
    after r =
        after_batch format P T cfg now describe (first ∷ more)
          (count_batch format P T cfg now describe (first ∷ more) s) r

    -- What a batch leaves, and then the rest of the loop.
    after_batch-Outlives :
        (r : Reply format P T)
        → execute_batch_append format P T cfg now o (first ∷ more) s.engine ≡ r
        → Leaves format P T
            (Persists format P T streams now range (first ∷ more) m s.engine)
            (Survives format P T streams now range m s.engine)
            r
        → ((s' : Flusher format P T cfg now describe) (m' : Live)
            → s'.engine.current_sequence_id
              ≤ s.engine.current_sequence_id + length (asked_changes (first ∷ more))
            → EngineIsDurable format P T streams now range m' s'.engine
            → Outlives ts s' m' (run_flusher_loop format P T cfg now describe ts s'))
        → Outlives
            (received first more o ∷ ts)
            s
            m
            (run_flusher_loop format P T cfg now describe ts (after r))
    after_batch-Outlives (ok u, e) read h rest =
        Outlives-map ts (received first more o ∷ ts) (after (ok u, e)) s (write_all h.pushed m) m
          (run_flusher_loop format P T cfg now describe ts (after (ok u, e)))
          (λ m' w. wrote e h.pushed read h.takes w)
          (rest (after (ok u, e)) (write_all h.pushed m) h.counted h.durable)
    after_batch-Outlives (err x, e) read (inl failed) rest =
        subst (Outlives (received first more o ∷ ts) s m)
          (sym (run_stopped ts (after (err x, e)) (rw (failed, if◌then◌else◌) refl))) (inl failed)
    after_batch-Outlives (err x, e) read (inr (d', same)) rest =
        Outlives-map ts (received first more o ∷ ts) (after (err x, e)) s m m
          (run_flusher_loop format P T cfg now describe ts (after (err x, e)))
          (λ m' w. lost x e read w) (rest (after (err x, e)) m (omega (arith, same)) d')

  -- The segment files of an engine are whole frames that represent a map, as a batch keeps them. Then
  -- after any number of batches, until a shutdown, the end of the channel or a failure, and however
  -- the clock and the file system answer, the engine has failed or its files represent a map that
  -- the batches have made of the first one: each batch that succeeded has written the changes of some
  -- of its entries before a shutdown, in order, of each entry all or none, and each that failed
  -- nothing. The batches ask for records that can be read back, the clock answers within its range,
  -- and the sequence ids that they can take stay below 2^64.
  pub run_flusher_loop-Outlives :
      (ts : List Turn) (s : Flusher format P T cfg now describe) (m : Live)
      → All (IsAccepted format streams) (asked_turns ts)
      → s.engine.current_sequence_id + length (asked_turns ts) < 2 ^ 64
      → EngineIsDurable format P T streams now range m s.engine
      → Outlives ts s m (run_flusher_loop format P T cfg now describe ts s)
  unfolding run_flusher_loop
  run_flusher_loop-Outlives [] s m accepted room d = inr (m, ended, d)
  run_flusher_loop-Outlives (disconnected ∷ ts) s m accepted room d = inr (m, closed, d)
  run_flusher_loop-Outlives (timeout ∷ ts) s m accepted room d =
      if_rule (Outlives (timeout ∷ ts) s m) s.is_running _ s
        (λ runs.
          Outlives-map ts (timeout ∷ ts) s s m m (run_flusher_loop format P T cfg now describe ts s)
            (λ m' w. idle w) (run_flusher_loop-Outlives ts s m accepted room d))
        (λ quit. inr (m, stopped quit, d))
  run_flusher_loop-Outlives (received first more o ∷ ts) s m accepted room d =
      if_rule Post s.is_running _ s
        (λ runs.
          if_rule Post (is_shutdown first) s _ (λ ends. inr (m, shut ends, d))
            (λ goes.
              after_batch-Outlives first more o ts s m
                (execute_batch_append format P T cfg now o batch s.engine) refl
                (execute_batch_append-IsDurable format P T streams now range cfg o batch s.engine m
                  parts.0 (omega (arith, room, size)) d)
                (λ s' m' below d'.
                  run_flusher_loop-Outlives ts s' m' parts.1 (omega (arith, room, size, below))
                    d')))
        (λ quit. inr (m, stopped quit, d))
    where
      Post : Flusher format P T cfg now describe → Type 0
      Post = Outlives (received first more o ∷ ts) s m

      batch : List LogEntry
      batch = first ∷ more

      parts :
          All (IsAccepted format streams) (asked_changes batch)
          × All (IsAccepted format streams) (asked_turns ts)
      parts = All-split (IsAccepted format streams) (asked_changes batch) (asked_turns ts) accepted

      size :
          length (asked_changes batch ++ asked_turns ts)
          ≡ length (asked_changes batch) + length (asked_turns ts)
      size = length-append (asked_changes batch) (asked_turns ts)
