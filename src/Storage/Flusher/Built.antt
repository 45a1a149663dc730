-- ===== src/Storage/Flusher/Built.antt =====
-- What admission builds: the pending records carry consecutive sequence ids from the counter on, and
-- the frame buffer is their frames in order.
use mathlib.Core.Path.{subst}
use liven.Prelude.{
  ℕ, suc, ◌+◌, ◌-◌, ◌≡◌, refl, sym, ap, ◌∙◌, Bool, true, false, none, some, List, [], ◌∷◌, ◌++◌, ℤ,
  arith, length, length-append, All, All-append, append_assoc, append-nil, if◌then◌else◌, ltb, leb,
  ◌||◌,
}
use liven.Bytes.{Bytes}
use liven.Types.{DataValue, null, LogPointer, Record, StreamKey, type_tag}
use liven.Error.{LivenError, Result, ok, err}
use liven.Storage.Key.{as_str}
use liven.Storage.Payload.{PayloadFormat}
use liven.Storage.Frame.{frame_of}
use liven.Storage.SkipMap.{SkipMap}
use liven.Storage.Index.{Index, compound_key}
use liven.Storage.Index.Keys.{name_key, stamp_key, Stamp}
use liven.Storage.Flusher.Outcomes.{Ensures, Ends, Ends-and_then}
use liven.Storage.Flusher.{
  LogEntry, single, replace, batch, tombstone_batch, shutdown, Pending, PendingComplete, Admission,
  Config, u64_add, push_stamped, push_record, push_tombstones, push_batch, await, reserve, reject,
  is_new_key, entry_charge, push_reserved, check_batch, push_checked, admit, admit_all,
}

-- The ids of the records are `s`, the next one, and so on up to `e`.
abbrev pub IsRun : ℕ → List Pending → ℕ → Type 0
IsRun s [] e = e ≡ s
IsRun s (p ∷ ps) e = (p.written.sequence_id ≡ s) × IsRun (u64_add s 1) ps e

IsRun-append :
    (s : ℕ) (ps : List Pending) (e : ℕ) (p : Pending)
    → IsRun s ps e
    → p.written.sequence_id ≡ e
    → IsRun s (ps ++ (p ∷ [])) (u64_add e 1)
IsRun-append s [] e p h q = (q ∙ h, ap (λ n. u64_add n 1) h)
IsRun-append s (r ∷ ps) e p h q = (h.0, IsRun-append (u64_add s 1) ps e p h.1 q)

-- how many records a response waits for
abbrev pub awaits : PendingComplete → ℕ
awaits (PendingComplete.single tx) = 1
awaits (PendingComplete.replace tx) = 1
awaits (PendingComplete.batch tx count) = count

abbrev pub awaited : List PendingComplete → ℕ
awaited [] = 0
awaited (c ∷ cs) = awaits c + awaited cs

awaited-append :
    (cs : List PendingComplete) (c : PendingComplete)
    → awaited (cs ++ (c ∷ [])) ≡ awaited cs + awaits c
awaited-append [] c = omega arith
awaited-append (d ∷ cs) c = omega (arith, awaited-append cs c)

module _ (format : PayloadFormat) where
  abbrev pub frames_of : List Pending → Bytes
  frames_of [] = []
  frames_of (p ∷ ps) = frame_of format p.written ++ frames_of ps

  frames_of-append :
      (ps : List Pending) (p : Pending)
      → frames_of (ps ++ (p ∷ [])) ≡ frames_of ps ++ frame_of format p.written
  frames_of-append [] p = append-nil (frame_of format p.written)
  frames_of-append (q ∷ ps) p =
      rw (frames_of-append ps p)
        (sym (append_assoc (frame_of format q.written) (frames_of ps) (frame_of format p.written)))

  abbrev pub IsMeasured : Pending → Type 0
  IsMeasured p = p.frame_len ≡ length (frame_of format p.written)

  -- the type tag of the value, the flag of a tombstone or of a record, and the clock's time
  pub record IsStamped (now : ℕ → Result LivenError ℤ) (p : Pending) : Type 0 where
    pub tag : p.written.type_tag ≡ type_tag p.written.value
    pub flagged : p.written.flags ≡ (if p.is_tombstone then 2 else 1)
    pub time : now p.written.sequence_id ≡ ok p.written.timestamp

  -- Admission from the counter `s0`, with `n` records pushed that no response waits for yet.
  pub record IsBuilt (now : ℕ → Result LivenError ℤ) (s0 n : ℕ) (a : Admission) : Type 0 where
    pub run : IsRun s0 a.pending a.current_seq
    pub frames : a.frame_buf ≡ frames_of a.pending
    pub measured : All IsMeasured a.pending
    pub stamped : All (IsStamped now) a.pending
    pub counted : awaited a.completes + n ≡ length a.pending

  module _ (now : ℕ → Result LivenError ℤ) (s0 : ℕ) where
    push_stamped-IsBuilt :
        (stream : Bytes) (key : StreamKey) (v : DataValue) (t : Bool) (n : ℕ) (a : Admission)
        (r : Result LivenError ℤ)
        → now a.current_seq ≡ r
        → IsBuilt now s0 n a
        → Ends now (IsBuilt now s0 (suc n)) (push_stamped format now stream key v t a r)
    push_stamped-IsBuilt stream key v t n a (err e) read h = (a.current_seq, read)
    push_stamped-IsBuilt stream key v t n a (ok time) read h = record {
      run = IsRun-append s0 a.pending a.current_seq p h.run refl;
      frames = rw (frames_of-append a.pending p, h.frames);
      measured = All-append IsMeasured a.pending (p ∷ []) h.measured (refl, tt);
      stamped =
          All-append (IsStamped now) a.pending (p ∷ []) h.stamped
            (record { tag = refl; flagged = refl; time = read }, tt);
      counted = omega (arith, h.counted, length-append a.pending (p ∷ []));
    }
      where
        r : Record
        r = record {
          sequence_id = a.current_seq;
          timestamp = time;
          type_tag = type_tag v;
          flags = if t then 0x02 else 0x01;
          stream_name = stream;
          key = key;
          value = v;
        }

        p : Pending
        p = record { written = r; frame_len = length (frame_of format r); is_tombstone = t }

    push_record-IsBuilt :
        (stream : Bytes) (key : StreamKey) (v : DataValue) (t : Bool) (n : ℕ) (a : Admission)
        → IsBuilt now s0 n a
        → Ends now (IsBuilt now s0 (suc n)) (push_record format now stream key v t a)
    unfolding push_record
    push_record-IsBuilt stream key v t n a h =
        push_stamped-IsBuilt stream key v t n a (now a.current_seq) refl h

    push_tombstones-IsBuilt :
        (stream : Bytes) (keys : List StreamKey) (n : ℕ) (a : Admission)
        → IsBuilt now s0 n a
        → Ends now (IsBuilt now s0 (length keys + n)) (push_tombstones format now stream keys a)
    unfolding push_tombstones
    push_tombstones-IsBuilt stream [] n a h = subst (λ k. IsBuilt now s0 k a) (omega arith) h
    push_tombstones-IsBuilt stream (key ∷ keys) n a h =
        Ends-and_then now (IsBuilt now s0 (suc n)) (IsBuilt now s0 (suc (length keys) + n))
          (push_record format now stream key null true a) (push_tombstones format now stream keys)
          (push_record-IsBuilt stream key null true n a h)
          λ b hb.
            subst (λ k. Ends now (IsBuilt now s0 k) (push_tombstones format now stream keys b))
              (omega arith) (push_tombstones-IsBuilt stream keys (suc n) b hb)

    push_batch-IsBuilt :
        (records : List (Bytes × StreamKey × DataValue)) (n : ℕ) (a : Admission)
        → IsBuilt now s0 n a
        → Ends now (IsBuilt now s0 (length records + n)) (push_batch format now records a)
    unfolding push_batch
    push_batch-IsBuilt [] n a h = subst (λ k. IsBuilt now s0 k a) (omega arith) h
    push_batch-IsBuilt ((stream, key, v) ∷ records) n a h =
        Ends-and_then now (IsBuilt now s0 (suc n)) (IsBuilt now s0 (suc (length records) + n))
          (push_record format now stream key v false a) (push_batch format now records)
          (push_record-IsBuilt stream key v false n a h)
          λ b hb.
            subst (λ k. Ends now (IsBuilt now s0 k) (push_batch format now records b)) (omega arith)
              (push_batch-IsBuilt records (suc n) b hb)

  await-IsBuilt :
      (now : ℕ → Result LivenError ℤ) (s0 : ℕ) (c : PendingComplete) (n : ℕ) (a : Admission)
      → awaits c ≡ n
      → IsBuilt now s0 n a
      → Ensures (IsBuilt now s0 0) (await c a)
  await-IsBuilt now s0 c n a e h = record {
    run = h.run;
    frames = h.frames;
    measured = h.measured;
    stamped = h.stamped;
    counted = omega (arith, h.counted, awaited-append a.completes c);
  }

  -- a change of what `IsBuilt` does not speak of
  IsBuilt-same :
      (now : ℕ → Result LivenError ℤ) (s0 n : ℕ) (a b : Admission)
      → b.pending ≡ a.pending
      → b.current_seq ≡ a.current_seq
      → b.frame_buf ≡ a.frame_buf
      → b.completes ≡ a.completes
      → IsBuilt now s0 n a
      → IsBuilt now s0 n b
  IsBuilt-same now s0 n a b ep es ef ec h = record {
    run = rw (ep, es) h.run;
    frames = rw (ep, ef) h.frames;
    measured = rw ep h.measured;
    stamped = rw ep h.stamped;
    counted = rw (ep, ec) h.counted;
  }

  module _ (P : SkipMap Bytes LogPointer name_key) (T : SkipMap Stamp LogPointer stamp_key)
      (cfg : Config) (now : ℕ → Result LivenError ℤ) (s0 : ℕ) where
    abbrev Kept : Result ℕ Admission → Type 0
    Kept (ok a) = IsBuilt now s0 0 a
    Kept (err n) = Unit

    Kept-if :
        (new over : Bool) (n : ℕ) (a b : Admission)
        → IsBuilt now s0 0 a
        → IsBuilt now s0 0 b
        → Kept (if new then (if over then err n else ok a) else ok b)
    Kept-if true true n a b ha hb = tt
    Kept-if true false n a b ha hb = ha
    Kept-if false over n a b ha hb = hb

    reserve-Kept :
        (ix : Index P T) (key : Bytes) (a : Admission)
        → IsBuilt now s0 0 a
        → Kept (reserve P T cfg ix key a)
    unfolding reserve
    reserve-Kept ix key a h =
        Kept-if (is_new_key P T cfg ix a key) (ltb cfg.max_index_ram_bytes projected) projected a' a
          (IsBuilt-same now s0 0 a a' refl refl refl refl h) h
      where
        size : ℕ
        size = entry_charge P T cfg key

        projected : ℕ
        projected = u64_add (u64_add ix.index_ram_bytes a.projected_new_bytes) size

        a' : Admission
        a' = record a {
          projected_new_bytes = u64_add a.projected_new_bytes size;
          batch_new_keys = key ∷ a.batch_new_keys;
          high_water_reached = a.high_water_reached || leb cfg.high_water_bytes projected;
        }

    push_reserved-IsBuilt :
        (stream : Bytes) (key : StreamKey) (v : DataValue) (tx : ℕ) (c : PendingComplete)
        (a : Admission) (r : Result ℕ Admission)
        → awaits c ≡ 1
        → IsBuilt now s0 0 a
        → Kept r
        → Ends now (IsBuilt now s0 0) (push_reserved format P T cfg now stream key v tx c a r)
    push_reserved-IsBuilt stream key v tx c a (err n) e h k =
        IsBuilt-same now s0 0 a (reject P T cfg tx n none a) refl refl refl refl h
    push_reserved-IsBuilt stream key v tx c a (ok a') e h k =
        Ends-and_then now (IsBuilt now s0 1) (IsBuilt now s0 0)
          (push_record format now stream key v false a') (await c)
          (push_record-IsBuilt now s0 stream key v false 0 a' k)
          (λ b hb. await-IsBuilt now s0 c 1 b e hb)

    push_checked-IsBuilt :
        (ix : Index P T) (records : List (Bytes × StreamKey × DataValue)) (tx : ℕ) (a : Admission)
        (r : Result (Bytes × ℕ) (ℕ × List Bytes))
        → IsBuilt now s0 0 a
        → Ends now (IsBuilt now s0 0) (push_checked format P T cfg now ix records tx a r)
    push_checked-IsBuilt ix records tx a (err (key, n)) h =
        IsBuilt-same now s0 0 a (reject P T cfg tx n (some key) a) refl refl refl refl h
    push_checked-IsBuilt ix records tx a (ok (projected, local_new)) h =
        Ends-and_then now (IsBuilt now s0 (length records + 0)) (IsBuilt now s0 0)
          (push_batch format now records a') (await (PendingComplete.batch tx (length records)))
          (push_batch-IsBuilt now s0 records 0 a'
            (IsBuilt-same now s0 0 a a' refl refl refl refl h))
          (λ b hb.
            await-IsBuilt now s0 (PendingComplete.batch tx (length records)) (length records + 0) b
              (omega arith) hb)
      where
        a' : Admission
        a' = record a {
          projected_new_bytes = projected - ix.index_ram_bytes;
          batch_new_keys = local_new ++ a.batch_new_keys;
        }

    admit-IsBuilt :
        (ix : Index P T) (entry : LogEntry) (a : Admission)
        → IsBuilt now s0 0 a
        → Ends now (IsBuilt now s0 0) (admit format P T cfg now ix entry a)
    unfolding admit
    admit-IsBuilt ix (single stream key v true tx) a h =
        Ends-and_then now (IsBuilt now s0 1) (IsBuilt now s0 0)
          (push_record format now stream key v true a) (await (PendingComplete.single tx))
          (push_record-IsBuilt now s0 stream key v true 0 a h)
          (λ b hb. await-IsBuilt now s0 (PendingComplete.single tx) 1 b refl hb)
    admit-IsBuilt ix (single stream key v false tx) a h =
        push_reserved-IsBuilt stream key v tx (PendingComplete.single tx) a
          (reserve P T cfg ix (compound_key stream (as_str key)) a) refl h
          (reserve-Kept ix (compound_key stream (as_str key)) a h)
    admit-IsBuilt ix (replace stream key v tx) a h =
        push_reserved-IsBuilt stream key v tx (PendingComplete.replace tx) a
          (reserve P T cfg ix (compound_key stream (as_str key)) a) refl h
          (reserve-Kept ix (compound_key stream (as_str key)) a h)
    admit-IsBuilt ix (tombstone_batch stream keys tx) a h =
        Ends-and_then now (IsBuilt now s0 (length keys + 0)) (IsBuilt now s0 0)
          (push_tombstones format now stream keys a)
          (await (PendingComplete.batch tx (length keys)))
          (push_tombstones-IsBuilt now s0 stream keys 0 a h)
          (λ b hb.
            await-IsBuilt now s0 (PendingComplete.batch tx (length keys)) (length keys + 0) b
              (omega arith) hb)
    admit-IsBuilt ix (batch records tx) a h =
        push_checked-IsBuilt ix records tx a
          (check_batch P T cfg ix a records (u64_add ix.index_ram_bytes a.projected_new_bytes) []) h
    admit-IsBuilt ix shutdown a h = h

    -- Whatever a batch holds, its admission fails only with an error that the clock gave. If it does
    -- not fail, the pending records carry consecutive sequence ids from the counter on, the type tag
    -- of their value, the flag of a record or a tombstone and a time that the clock gave, the frame
    -- buffer is their frames in order, and the responses to come wait for as many records as are
    -- pending. The admission starts from a state with these properties, such as an empty one.
    pub admit_all-IsBuilt :
        (ix : Index P T) (entries : List LogEntry) (a : Admission)
        → IsBuilt now s0 0 a
        → Ends now (IsBuilt now s0 0) (admit_all format P T cfg now ix entries a)
    unfolding admit_all
    admit_all-IsBuilt ix [] a h = h
    admit_all-IsBuilt ix (shutdown ∷ entries) a h = h
    admit_all-IsBuilt ix (entry ∷ entries) a h =
        Ends-and_then now (IsBuilt now s0 0) (IsBuilt now s0 0)
          (admit format P T cfg now ix entry a) (admit_all format P T cfg now ix entries)
          (admit-IsBuilt ix entry a h) (λ b hb. admit_all-IsBuilt ix entries b hb)
