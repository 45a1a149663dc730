-- ===== src/Storage/Flusher/Atomic.antt =====
-- A batch request is admitted as a whole or not at all.
use mathlib.Core.List.{map-append}
use liven.Prelude.{
  ℕ, ◌-◌, ◌<◌, Bool, true, not, ◌||◌, if◌then◌else◌, ltb, ltb→lt, ◌≡◌, ◌⊎◌, inl, inr, refl, sym, ap,
  ◌∙◌, false, some, List, [], ◌∷◌, ◌++◌, ℤ, length, map, append_assoc, append-nil,
}
use liven.Bytes.{Bytes}
use liven.Types.{DataValue, LogPointer, StreamKey}
use liven.Error.{LivenError, index_ram, Result, ok, err}
use liven.Storage.Payload.{PayloadFormat}
use liven.Storage.SkipMap.{SkipMap}
use liven.Storage.Key.{as_str}
use liven.Storage.Index.{Index, compound_key}
use liven.Storage.Index.Keys.{name_key, stamp_key, Stamp}
use liven.Storage.Flusher.{
  LogEntry, refused, contains_key, is_new_key, entry_charge, Pending, PendingComplete, Admission,
  Config, Outcome, u64_add, push_stamped, push_record, push_batch, await, push_checked, check_batch,
  admit,
}
use liven.Storage.Flusher.Outcomes.{Ends, Ends-and_then}

abbrev pub Request : Type 0
Request = Bytes × StreamKey × DataValue

-- what was asked for, of a record that waits to be indexed
abbrev pub request_of : Pending → Request
request_of p = (p.written.stream_name, p.written.key, p.written.value)

-- Just the records asked for have been pushed, and nothing has been answered.
pub record HasPushed (records : List Request) (a b : Admission) : Type 0 where
  pub pushed : List Pending
  pub pending : b.pending ≡ a.pending ++ pushed
  pub requests : map request_of pushed ≡ records
  pub acks : b.acks ≡ a.acks
  pub completes : b.completes ≡ a.completes

HasPushed-cons :
    (r : Request) (rs : List Request) (a b c : Admission)
    → HasPushed (r ∷ []) a b
    → HasPushed rs b c
    → HasPushed (r ∷ rs) a c
HasPushed-cons r rs a b c h k = record {
  pushed = h.pushed ++ k.pushed;
  pending = k.pending ∙ rw (h.pending) (append_assoc a.pending h.pushed k.pushed);
  requests = map-append request_of h.pushed k.pushed ∙ rw (h.requests, k.requests) refl;
  acks = k.acks ∙ h.acks;
  completes = k.completes ∙ h.completes;
}

Ends-map :
    (now : ℕ → Result LivenError ℤ) (Q R : Admission → Type 0) (o : Outcome)
    → Ends now Q o
    → ((a : Admission) → Q a → R a)
    → Ends now R o
Ends-map now Q R (ok u, a) h f = f a h
Ends-map now Q R (err e, a) h f = h

module _ (format : PayloadFormat) (now : ℕ → Result LivenError ℤ) where
  push_stamped-HasPushed :
      (s : Bytes) (k : StreamKey) (v : DataValue) (a : Admission) (t : Result LivenError ℤ)
      → now a.current_seq ≡ t
      → Ends now (HasPushed ((s, k, v) ∷ []) a) (push_stamped format now s k v false a t)
  push_stamped-HasPushed s k v a (err e) read = (a.current_seq, read)
  push_stamped-HasPushed s k v a (ok time) read = record {
    pushed = _ ∷ [];
    pending = refl;
    requests = refl;
    acks = refl;
    completes = refl;
  }

  push_batch-HasPushed :
      (records : List Request) (a : Admission)
      → Ends now (HasPushed records a) (push_batch format now records a)
  unfolding push_batch push_record
  push_batch-HasPushed [] a = record {
    pushed = [];
    pending = sym (append-nil a.pending);
    requests = refl;
    acks = refl;
    completes = refl;
  }
  push_batch-HasPushed ((s, k, v) ∷ records) a =
      Ends-and_then now (HasPushed ((s, k, v) ∷ []) a) (HasPushed ((s, k, v) ∷ records) a)
        (push_record format now s k v false a) (push_batch format now records)
        (push_stamped-HasPushed s k v a (now a.current_seq) refl)
        λ b hb.
          Ends-map now (HasPushed records b) (HasPushed ((s, k, v) ∷ records) a)
            (push_batch format now records b) (push_batch-HasPushed records b)
            (λ c hc. HasPushed-cons (s, k, v) records a b c hb hc)

  module _ (P : SkipMap Bytes LogPointer name_key) (T : SkipMap Stamp LogPointer stamp_key)
      (cfg : Config) where
    abbrev IsOver : Result (Bytes × ℕ) (ℕ × List Bytes) → Type 0
    IsOver (err (key, n)) = cfg.max_index_ram_bytes < n
    IsOver (ok r) = Unit

    IsOver-if :
        (known over : Bool) (key : Bytes) (n : ℕ) (skip add : Result (Bytes × ℕ) (ℕ × List Bytes))
        → (over ≡ true → cfg.max_index_ram_bytes < n)
        → IsOver skip
        → IsOver add
        → IsOver (if known then skip else if over then err (key, n) else add)
    IsOver-if true over key n skip add e hs ha = hs
    IsOver-if false true key n skip add e hs ha = e refl
    IsOver-if false false key n skip add e hs ha = ha

    check_batch-IsOver :
        (ix : Index P T) (a : Admission) (records : List Request) (projected : ℕ)
        (local_new : List Bytes)
        → IsOver (check_batch P T cfg ix a records projected local_new)
    unfolding check_batch
    check_batch-IsOver ix a [] projected local_new = tt
    check_batch-IsOver ix a ((s, k, v) ∷ records) projected local_new =
        let key = compound_key s (as_str k) in
        let n = u64_add projected (entry_charge P T cfg key) in
        IsOver-if (not (is_new_key P T cfg ix a key) || contains_key key local_new)
          (ltb cfg.max_index_ram_bytes n) key n
          (check_batch P T cfg ix a records projected local_new)
          (check_batch P T cfg ix a records n (key ∷ local_new))
          (λ e. ltb→lt cfg.max_index_ram_bytes n e)
          (check_batch-IsOver ix a records projected local_new)
          (check_batch-IsOver ix a records n (key ∷ local_new))

    -- Nothing is written for the request, and its client is told the key that does not fit.
    pub record IsRejected (tx : ℕ) (a b : Admission) : Type 0 where
      pub key : Bytes
      pub current_bytes : ℕ
      pub over : cfg.max_index_ram_bytes < current_bytes
      pub pending : b.pending ≡ a.pending
      pub frame_buf : b.frame_buf ≡ a.frame_buf
      pub current_seq : b.current_seq ≡ a.current_seq
      pub completes : b.completes ≡ a.completes
      pub acks :
          b.acks
          ≡ a.acks
            ++ ((tx, refused (index_ram cfg.max_index_ram_bytes current_bytes (some key))) ∷ [])

    -- All of the request is written, and its client will be told of all of it.
    pub record IsAccepted (records : List Request) (tx : ℕ) (a b : Admission) : Type 0 where
      pub pushed : List Pending
      pub pending : b.pending ≡ a.pending ++ pushed
      pub requests : map request_of pushed ≡ records
      pub completes : b.completes ≡ a.completes ++ (PendingComplete.batch tx (length records) ∷ [])
      pub acks : b.acks ≡ a.acks

    abbrev pub IsAllOrNothing : List Request → ℕ → Admission → Admission → Type 0
    IsAllOrNothing records tx a b = IsRejected tx a b ⊎ IsAccepted records tx a b

    push_checked-IsAllOrNothing :
        (ix : Index P T) (records : List Request) (tx : ℕ) (a : Admission)
        (r : Result (Bytes × ℕ) (ℕ × List Bytes))
        → IsOver r
        → Ends now (IsAllOrNothing records tx a) (push_checked format P T cfg now ix records tx a r)
    push_checked-IsAllOrNothing ix records tx a (err (key, n)) o = inl (record {
      key = key;
      current_bytes = n;
      over = o;
      pending = refl;
      frame_buf = refl;
      current_seq = refl;
      completes = refl;
      acks = refl;
    })
    push_checked-IsAllOrNothing ix records tx a (ok (projected, local_new)) o =
        Ends-and_then now (HasPushed records a') (IsAllOrNothing records tx a)
          (push_batch format now records a') (await (PendingComplete.batch tx (length records)))
          (push_batch-HasPushed records a')
          λ b h. inr (record {
            pushed = h.pushed;
            pending = h.pending;
            requests = h.requests;
            completes = ap (λ x. x ++ (PendingComplete.batch tx (length records) ∷ [])) h.completes;
            acks = h.acks;
          })
      where
        a' : Admission
        a' = record a {
          projected_new_bytes = projected - ix.index_ram_bytes;
          batch_new_keys = local_new ++ a.batch_new_keys;
        }

    -- The admission of a batch request fails only with an error that the clock gave. Otherwise either
    -- no record, frame or sequence id is taken for it and its client is told a key and the bytes
    -- beyond the index budget that it would need, or a record is pending for each of its entries, in their order, and one
    -- response for all of them.
    pub admit-IsAllOrNothing :
        (ix : Index P T) (records : List Request) (tx : ℕ) (a : Admission)
        → Ends now
            (IsAllOrNothing records tx a)
            (admit format P T cfg now ix (LogEntry.batch records tx) a)
    unfolding admit
    admit-IsAllOrNothing ix records tx a =
        push_checked-IsAllOrNothing ix records tx a
          (check_batch P T cfg ix a records (u64_add ix.index_ram_bytes a.projected_new_bytes) [])
          (check_batch-IsOver ix a records (u64_add ix.index_ram_bytes a.projected_new_bytes) [])
