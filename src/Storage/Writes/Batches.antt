-- ===== src/Storage/Writes/Batches.antt =====
-- A batch of records is taken as a whole: its new streams are counted once, before any is registered.
use mathlib.Core.Path.{subst}
use liven.Prelude.{
  ℕ, ◌+◌, ◌≡◌, refl, sym, ◌∙◌, Bool, true, false, not, ◌&&◌, Bool-cases, inl, inr, ◌⊎◌, List, [],
  ◌∷◌, ◌++◌, arith, All, ltb, length, length-append, map, if◌then◌else◌, or_true,
}
use liven.Bytes.{Bytes, bytes_eq}
use liven.Bytes.Order.{bytes_eq_refl}
use liven.Types.{DataValue, StreamKey}
use liven.Error.{LivenError, Result, ok, err}
use liven.Storage.Flusher.{LogEntry, batch, contains_key}
use liven.Storage.Writes.{
  Writer, WriteLimits, ensure_writable, register_streams, new_streams, append_batch_async,
  batch_records, Entry,
}
use liven.Storage.Writes.Admits.{
  Keeps-refl, Steps, Steps-if, Admits, Admits-and_then, IsWritableNow, ensure_writable-Steps,
  tx_send-Admits,
}

abbrev pub stream_of : Entry → Bytes
stream_of e = e.0

contains_key-left :
    (s : Bytes) (xs ys : List Bytes) → contains_key s xs ≡ true → contains_key s (xs ++ ys) ≡ true
unfolding contains_key
contains_key-left s [] ys h = absurd (ground (arith, h))
contains_key-left s (x ∷ xs) ys h = elim (Bool-cases (bytes_eq s x)) [
  | inl same ↦ rw (same) refl
  | inr other ↦
      let h' : contains_key s xs ≡ true = rw (other) at h in
      rw (other) (contains_key-left s xs ys h')
]

contains_key-right :
    (s : Bytes) (xs ys : List Bytes) → contains_key s ys ≡ true → contains_key s (xs ++ ys) ≡ true
unfolding contains_key
contains_key-right s [] ys h = h
contains_key-right s (x ∷ xs) ys h = rw (contains_key-right s xs ys h) (or_true (bytes_eq s x))

module _ (known : List Bytes) where
  -- the names found after one more entry
  abbrev found_next : Entry → List Bytes → List Bytes
  found_next e found =
      if not (contains_key e.0 known) && not (contains_key e.0 found) then e.0 ∷ found else found

  found_next-keeps :
      (e : Entry) (found : List Bytes) (s : Bytes)
      → contains_key s found ≡ true
      → contains_key s (found_next e found) ≡ true
  unfolding contains_key
  found_next-keeps e found s h =
      elim (Bool-cases (not (contains_key e.0 known) && not (contains_key e.0 found))) [
        | inl new ↦ rw (new, if◌then◌else◌) (contains_key-right s (e.0 ∷ []) found h)
        | inr old ↦ rw (old, if◌then◌else◌) h
      ]

  new_streams-keeps :
      (entries : List Entry) (found : List Bytes) (s : Bytes)
      → contains_key s found ≡ true
      → contains_key s (new_streams known entries found) ≡ true
  unfolding new_streams
  new_streams-keeps [] found s h = h
  new_streams-keeps (e ∷ entries) found s h =
      new_streams-keeps entries (found_next e found) s (found_next-keeps e found s h)

  found_next-has :
      (e : Entry) (found : List Bytes)
      → (contains_key e.0 known ≡ true) ⊎ (contains_key e.0 (found_next e found) ≡ true)
  unfolding contains_key
  found_next-has e found = go (contains_key e.0 known) (contains_key e.0 found) refl refl
    where
      go :
          (a b : Bool)
          → contains_key e.0 known ≡ a
          → contains_key e.0 found ≡ b
          → (contains_key e.0 known ≡ true) ⊎ (contains_key e.0 (found_next e found) ≡ true)
      go true b p q = inl p
      go false true p q = inr (found_next-keeps e found e.0 q)
      go false false p q = inr (rw (p, q, if◌then◌else◌, bytes_eq_refl e.0) refl)

  new_streams-has :
      (entries : List Entry) (found : List Bytes)
      → All
          (λ s. contains_key s (new_streams known entries found ++ known) ≡ true)
          (map stream_of entries)
  unfolding new_streams
  new_streams-has [] found = tt
  new_streams-has (e ∷ entries) found = (
    elim (found_next-has e found) [
      | inl old ↦ contains_key-right e.0 (new_streams known (e ∷ entries) found) known old
      | inr new ↦
          contains_key-left e.0 (new_streams known (e ∷ entries) found) known
            (new_streams-keeps entries (found_next e found) e.0 new)
    ],
    new_streams-has entries (found_next e found),
  )

module _ (limits : WriteLimits) where
  register_streams-Steps :
      (entries : List Entry) (w : Writer)
      → Steps limits
          (λ _ v. All (λ s. contains_key s v.streams_set ≡ true) (map stream_of entries))
          w
          (register_streams limits entries w)
  unfolding register_streams
  register_streams-Steps entries w =
      Steps-if limits
        (λ _ v. All (λ s. contains_key s v.streams_set ≡ true) (map stream_of entries)) w
        (ltb limits.max_streams (length w.streams_set + length found)) _ _
        (λ over. Keeps-refl limits w)
        (λ fits. (
          record {
            queue = refl;
            failed = refl;
            running = refl;
            grows = λ s h. contains_key-right s found w.streams_set h;
            bounded = λ h. ground (arith, fits, length-append found w.streams_set);
          },
          new_streams-has w.streams_set entries [],
        ))
    where
      found : List Bytes
      found = new_streams w.streams_set entries []

  -- A batch that is refused puts nothing into the queue of the flusher. One that is taken puts one
  -- entry there, the records with their keys, all their streams are registered, and the engine has
  -- not failed and runs. The number of registered streams stays within its limit either way.
  pub append_batch_async-Admits :
      (entries : List Entry) (rx : ℕ) (w : Writer)
      → Admits limits
          (map stream_of entries)
          (λ entry.
            (records : List (Bytes × StreamKey × DataValue)) × (batch_records entries ≡ ok records)
            × (entry ≡ batch records rx))
          w
          (append_batch_async limits entries rx w)
  unfolding append_batch_async
  append_batch_async-Admits entries rx w0 =
      Admits-and_then limits (IsWritableNow limits) names Q w0 (ensure_writable w0) _
        (ensure_writable-Steps limits w0)
        (λ _ w1 k1 now.
          Admits-and_then limits (λ _ v. All (λ s. contains_key s v.streams_set ≡ true) names) names
            Q w1 (register_streams limits entries w1) _ (register_streams-Steps entries w1)
            (λ _ w2 k2 known.
              Admits-and_then limits (λ records v. (batch_records entries ≡ ok records) × (v ≡ w2))
                names Q w2 (batch_records entries, w2) _ (same (batch_records entries) w2)
                (λ records w3 k3 e.
                  tx_send-Admits limits names Q (batch records rx) w3 (records, e.0, refl)
                    (k3.failed ∙ k2.failed ∙ now.0) (k3.running ∙ k2.running ∙ now.1)
                    (subst (λ v. All (λ s. contains_key s v.streams_set ≡ true) names) (sym e.1)
                      known))))
    where
      names : List Bytes
      names = map stream_of entries

      Q : LogEntry → Type 0
      Q entry =
          (records : List (Bytes × StreamKey × DataValue)) × (batch_records entries ≡ ok records)
          × (entry ≡ batch records rx)

      same :
          (r : Result LivenError (List (Bytes × StreamKey × DataValue))) (w : Writer)
          → Steps limits (λ records v. (r ≡ ok records) × (v ≡ w)) w (r, w)
      same (ok records) w = (Keeps-refl limits w, (refl, refl))
      same (err e) w = Keeps-refl limits w
