-- ===== src/Storage/Writes/Admits.antt =====
-- What a write request leaves: a refused one puts nothing into the queue, and one that is taken
-- puts one entry there whose streams are registered. The number of streams keeps to its limit.
use liven.Prelude.{
  ℕ, ◌+◌, ◌≤◌, ◌≡◌, refl, sym, ap, ◌∙◌, Bool, true, false, List, [], ◌∷◌, ◌++◌, arith, All, leb,
  ltb, length, if◌then◌else◌, or_true,
}
use liven.Bytes.{Bytes, bytes_eq}
use liven.Bytes.Order.{bytes_eq_refl}
use liven.Types.{DataValue, LogPointer, StreamKey}
use liven.Error.{LivenError, flusher_terminated, Result, ok, err}
use liven.Storage.Key.{from_str}
use liven.Storage.SkipMap.{SkipMap, is_some}
use liven.Storage.Index.{Index, compound_key, primary_charge, timestamp_index_node_bytes}
use liven.Storage.Index.Keys.{name_key, stamp_key, Stamp}
use liven.Storage.Flusher.{LogEntry, single, u64_add, contains_key}
use liven.Storage.Writes.{
  Writer, WriteLimits, Answer, and_then, ensure_writable, tx_send, register_stream, check_index,
  append_async,
}

module _ (limits : WriteLimits) where
  -- the queue and the two flags stay, no stream is forgotten, and the limit on streams holds on
  pub record Keeps (w v : Writer) : Type 0 where
    pub queue : v.queue ≡ w.queue
    pub failed : v.failed ≡ w.failed
    pub running : v.is_running ≡ w.is_running
    pub grows :
        (s : Bytes) → contains_key s w.streams_set ≡ true → contains_key s v.streams_set ≡ true
    pub bounded :
        length w.streams_set ≤ limits.max_streams → length v.streams_set ≤ limits.max_streams

  pub Keeps-refl : (w : Writer) → Keeps w w
  Keeps-refl w = record {
    queue = refl;
    failed = refl;
    running = refl;
    grows = λ s h. h;
    bounded = λ h. h;
  }

  Keeps-trans : (u w v : Writer) → Keeps u w → Keeps w v → Keeps u v
  Keeps-trans u w v a b = record {
    queue = b.queue ∙ a.queue;
    failed = b.failed ∙ a.failed;
    running = b.running ∙ a.running;
    grows = λ s h. b.grows s (a.grows s h);
    bounded = λ h. b.bounded (a.bounded h);
  }

  -- one step of a request, with what it establishes when it succeeds
  abbrev pub Steps : {A : Type 0} → (A → Writer → Type 0) → Writer → Answer A → Type 0
  Steps Post w (ok a, v) = Keeps w v × Post a v
  Steps Post w (err e, v) = Keeps w v

  -- A refused request leaves the queue; one that is taken adds an entry with `Q` to it, whose
  -- streams are registered, in an engine that is writable.
  abbrev pub Admits : List Bytes → (LogEntry → Type 0) → Writer → Answer Unit → Type 0
  Admits names Q w (err e, v) =
      (v.queue ≡ w.queue)
      × (length w.streams_set ≤ limits.max_streams → length v.streams_set ≤ limits.max_streams)
  Admits names Q w (ok _, v) =
      (w.failed ≡ false)
      × (w.is_running ≡ true)
      × ((entry : LogEntry) × Q entry × (v.queue ≡ w.queue ++ (entry ∷ [])))
      × All (λ s. contains_key s v.streams_set ≡ true) names
      × (length w.streams_set ≤ limits.max_streams → length v.streams_set ≤ limits.max_streams)

  Admits-Keeps :
      (names : List Bytes) (Q : LogEntry → Type 0) (w v : Writer) (a : Answer Unit)
      → Keeps w v
      → Admits names Q v a
      → Admits names Q w a
  Admits-Keeps names Q w v (err e, u) k h = ((h.0 ∙ k.queue), λ b. h.1 (k.bounded b))
  Admits-Keeps names Q w v (ok x, u) k h = (
    (sym k.failed ∙ h.0),
    (sym k.running ∙ h.1),
    (h.2.0, h.2.1, (h.2.2 ∙ ap (λ q. q ++ (h.2.0 ∷ [])) k.queue)),
    h.3,
    λ b. h.4 (k.bounded b),
  )

  pub Admits-and_then :
      {A : Type 0} (Post : A → Writer → Type 0) (names : List Bytes) (Q : LogEntry → Type 0)
      (w : Writer) (a : Answer A) (f : A → Writer → Answer Unit)
      → Steps Post w a
      → ((x : A) (v : Writer) → Keeps w v → Post x v → Admits names Q v (f x v))
      → Admits names Q w (and_then a f)
  Admits-and_then Post names Q w (ok x, v) f h g =
      Admits-Keeps names Q w v (f x v) h.0 (g x v h.0 h.1)
  Admits-and_then Post names Q w (err e, v) f h g = (h.queue, h.bounded)

  pub Steps-if :
      {A : Type 0} (Post : A → Writer → Type 0) (w : Writer) (b : Bool) (a c : Answer A)
      → (b ≡ true → Steps Post w a)
      → (b ≡ false → Steps Post w c)
      → Steps Post w (if b then a else c)
  Steps-if Post w true a c f g = f refl
  Steps-if Post w false a c f g = g refl

  abbrev pub IsWritableNow : Unit {0} → Writer → Type 0
  IsWritableNow _ v = (v.failed ≡ false) × (v.is_running ≡ true)

  pub ensure_writable-Steps : (w : Writer) → Steps IsWritableNow w (ensure_writable w)
  unfolding ensure_writable
  ensure_writable-Steps w =
      Steps-if IsWritableNow w w.failed _ _ (λ failed. Keeps-refl w)
        (λ healthy.
          Steps-if IsWritableNow w w.is_running _ _ (λ running. (Keeps-refl w, (healthy, running)))
            (λ stopped. Keeps-refl w))

  register_stream-Steps :
      (s : Bytes) (w : Writer)
      → Steps (λ _ v. contains_key s v.streams_set ≡ true) w (register_stream limits s w)
  unfolding register_stream contains_key
  register_stream-Steps s w =
      Steps-if Post w (contains_key s w.streams_set) _ _ (λ known. (Keeps-refl w, known))
        (λ new.
          Steps-if Post w (leb limits.max_streams (length w.streams_set)) _ _ (λ full. Keeps-refl w)
            (λ room. (
              record {
                queue = refl;
                failed = refl;
                running = refl;
                grows = λ n h. rw h (or_true (bytes_eq n s));
                bounded = λ h. ground (arith, room);
              },
              rw (bytes_eq_refl s) refl,
            )))
    where
      Post : Unit {0} → Writer → Type 0
      Post _ v = contains_key s v.streams_set ≡ true

  check_index-Steps :
      (P : SkipMap Bytes LogPointer name_key) (T : SkipMap Stamp LogPointer stamp_key)
      (ix : Index P T) (key : Bytes) (w : Writer)
      → Steps (λ _ v. Unit) w (check_index limits P T ix key w)
  unfolding check_index
  check_index-Steps P T ix key w =
      Steps-if (λ _ v. Unit) w (is_some (P.get key ix.skipmap)) _ _ (λ known. (Keeps-refl w, tt))
        (λ new.
          Steps-if (λ _ v. Unit) w
            (ltb limits.max_index_ram_bytes
              (u64_add ix.index_ram_bytes (primary_charge key + timestamp_index_node_bytes)))
            _ _ (λ over. Keeps-refl w)
            (λ fits. (
              record {
                queue = refl;
                failed = refl;
                running = refl;
                grows = λ s h. h;
                bounded = λ h. h;
              },
              tt,
            )))

  -- a computation that does not touch the state
  pub pure-Steps :
      {A : Type 0} (r : Result LivenError A) (w : Writer) → Steps (λ a v. r ≡ ok a) w (r, w)
  pure-Steps (ok a) w = (Keeps-refl w, refl)
  pure-Steps (err e) w = Keeps-refl w

  pub tx_send-Admits :
      (names : List Bytes) (Q : LogEntry → Type 0) (entry : LogEntry) (w : Writer)
      → Q entry
      → w.failed ≡ false
      → w.is_running ≡ true
      → All (λ s. contains_key s w.streams_set ≡ true) names
      → Admits names Q w (tx_send entry w)
  unfolding tx_send
  tx_send-Admits names Q entry w q healthy running known = go w.is_open
    where
      go :
          (b : Bool)
          → Admits names Q w (
              if b
              then (ok tt, record w { queue = w.queue ++ (entry ∷ []) })
              else (err flusher_terminated, w))
      go true = (healthy, running, (entry, q, refl), known, λ h. h)
      go false = (refl, λ h. h)

  -- An append that is refused puts nothing into the queue of the flusher. One that is taken puts
  -- just its entry there, with a key of at most 32 bytes, the stream is registered, and the engine
  -- has not failed and runs. The number of registered streams stays within its limit either way.
  pub append_async-Admits :
      (P : SkipMap Bytes LogPointer name_key) (T : SkipMap Stamp LogPointer stamp_key)
      (ix : Index P T) (stream_name key : Bytes) (value : DataValue) (is_tombstone : Bool) (rx : ℕ)
      (w : Writer)
      → Admits
          (stream_name ∷ [])
          (λ entry.
            (k : StreamKey) × (from_str key ≡ ok k)
            × (entry ≡ single stream_name k value is_tombstone rx))
          w
          (append_async limits P T ix stream_name key value is_tombstone rx w)
  unfolding append_async
  append_async-Admits P T ix stream_name key value is_tombstone rx w0 =
      Admits-and_then IsWritableNow (stream_name ∷ []) Q w0 (ensure_writable w0) _
        (ensure_writable-Steps w0)
        (λ _ w1 k1 now.
          Admits-and_then (λ _ v. contains_key stream_name v.streams_set ≡ true) (stream_name ∷ [])
            Q w1 (register_stream limits stream_name w1) _ (register_stream-Steps stream_name w1)
            (λ _ w2 k2 known.
              Admits-and_then (λ _ v. Unit) (stream_name ∷ []) Q w2
                (if is_tombstone
                  then (ok tt, w2)
                  else check_index limits P T ix (compound_key stream_name key) w2)
                _
                (Steps-if (λ _ v. Unit) w2 is_tombstone _ _ (λ _. (Keeps-refl w2, tt))
                  (λ _. check_index-Steps P T ix (compound_key stream_name key) w2))
                (λ _ w3 k3 _.
                  Admits-and_then (λ k v. from_str key ≡ ok k) (stream_name ∷ []) Q w3
                    (from_str key, w3) _ (pure-Steps (from_str key) w3)
                    (λ k w4 k4 e.
                      tx_send-Admits (stream_name ∷ []) Q
                        (single stream_name k value is_tombstone rx) w4 (k, e, refl)
                        (k4.failed ∙ k3.failed ∙ k2.failed ∙ now.0)
                        (k4.running ∙ k3.running ∙ k2.running ∙ now.1)
                        (k4.grows stream_name (k3.grows stream_name known), tt)))))
    where
      Q : LogEntry → Type 0
      Q entry =
          (k : StreamKey) × (from_str key ≡ ok k)
          × (entry ≡ single stream_name k value is_tombstone rx)
