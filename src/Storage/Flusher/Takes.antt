-- ===== src/Storage/Flusher/Takes.antt =====
-- Which entries of a batch are admitted, and the records that wait for them.
use mathlib.Core.List.{map-append}
use liven.Prelude.{
  ℕ, ◌≡◌, refl, sym, ◌∙◌, Bool, true, false, not, List, [], ◌∷◌, ◌++◌, ℤ, map, append_assoc,
  append-nil,
}
use liven.Bytes.{Bytes}
use liven.Types.{DataValue, null, StreamKey}
use liven.Error.{LivenError, Result, ok, err}
use liven.Storage.Payload.{PayloadFormat}
use liven.Storage.Flusher.{
  LogEntry, single, replace, batch, tombstone_batch, shutdown, Pending, Admission, Outcome,
  push_stamped, push_record, push_tombstones, push_batch,
}
use liven.Storage.Flusher.Outcomes.{Ensures, Ensures-and_then}

-- stream, key, value, and whether it is a tombstone
abbrev pub Change : Type 0
Change = Bytes × StreamKey × DataValue × Bool

abbrev pub change_of : Pending → Change
change_of p = (p.written.stream_name, p.written.key, p.written.value, p.is_tombstone)

-- what an entry asks for
abbrev pub changes : LogEntry → List Change
changes (single s k v t tx) = (s, k, v, t) ∷ []
changes (replace s k v tx) = (s, k, v, false) ∷ []
changes (tombstone_batch s keys tx) = map (λ k. (s, k, null, true)) keys
changes (batch records tx) = map (λ r. (r.0, r.1, r.2, false)) records
changes shutdown = []

-- Only an entry that may add keys can be refused.
abbrev pub is_refusable : LogEntry → Bool
is_refusable (single s k v t tx) = not t
is_refusable (replace s k v tx) = true
is_refusable (tombstone_batch s keys tx) = false
is_refusable (batch records tx) = true
is_refusable shutdown = false

-- The changes of the entries before a shutdown, in order, of each entry all of them, or none where
-- the entry can be refused.
pub data Takes : List LogEntry → List Change → Type 0 where
  done : Takes [] []
  stop : {es : List LogEntry} → Takes (shutdown ∷ es) []
  take :
      (e : LogEntry) {es : List LogEntry} {cs : List Change}
      → Takes es cs
      → Takes (e ∷ es) (changes e ++ cs)
  skip :
      (e : LogEntry) {es : List LogEntry} {cs : List Change}
      → is_refusable e ≡ true
      → Takes es cs
      → Takes (e ∷ es) cs

-- Just these changes are pending in addition, with no response for them yet.
pub record Pushes (cs : List Change) (a b : Admission) : Type 0 where
  pub pushed : List Pending
  pub pending : b.pending ≡ a.pending ++ pushed
  pub asked : map change_of pushed ≡ cs
  pub completes : b.completes ≡ a.completes

Pushes-nil : (a : Admission) → Pushes [] a a
Pushes-nil a = record {
  pushed = [];
  pending = sym (append-nil a.pending);
  asked = refl;
  completes = refl;
}

Pushes-append :
    (cs ds : List Change) (a b c : Admission)
    → Pushes cs a b
    → Pushes ds b c
    → Pushes (cs ++ ds) a c
Pushes-append cs ds a b c h k = record {
  pushed = h.pushed ++ k.pushed;
  pending = k.pending ∙ rw h.pending (append_assoc a.pending h.pushed k.pushed);
  asked = map-append change_of h.pushed k.pushed ∙ rw (h.asked, k.asked) refl;
  completes = k.completes ∙ h.completes;
}

pub Ensures-map :
    (Q R : Admission → Type 0) (o : Outcome)
    → Ensures Q o
    → ((a : Admission) → Q a → R a)
    → Ensures R o
Ensures-map Q R (ok u, a) h f = f a h
Ensures-map Q R (err e, a) h f = tt

module _ (format : PayloadFormat) (now : ℕ → Result LivenError ℤ) where
  push_stamped-Pushes :
      (s : Bytes) (k : StreamKey) (v : DataValue) (t : Bool) (a : Admission)
      (r : Result LivenError ℤ)
      → Ensures (Pushes ((s, k, v, t) ∷ []) a) (push_stamped format now s k v t a r)
  push_stamped-Pushes s k v t a (err e) = tt
  push_stamped-Pushes s k v t a (ok time) = record {
    pushed = _ ∷ [];
    pending = refl;
    asked = refl;
    completes = refl;
  }

  pub push_record-Pushes :
      (s : Bytes) (k : StreamKey) (v : DataValue) (t : Bool) (a : Admission)
      → Ensures (Pushes ((s, k, v, t) ∷ []) a) (push_record format now s k v t a)
  unfolding push_record
  push_record-Pushes s k v t a = push_stamped-Pushes s k v t a (now a.current_seq)

  pub push_tombstones-Pushes :
      (s : Bytes) (keys : List StreamKey) (a : Admission)
      → Ensures
          (Pushes (map (λ k. (s, k, null, true)) keys) a)
          (push_tombstones format now s keys a)
  unfolding push_tombstones
  push_tombstones-Pushes s [] a = Pushes-nil a
  push_tombstones-Pushes s (k ∷ keys) a =
      Ensures-and_then (Pushes ((s, k, null, true) ∷ []) a)
        (Pushes (map (λ k. (s, k, null, true)) (k ∷ keys)) a)
        (push_record format now s k null true a) (push_tombstones format now s keys)
        (push_record-Pushes s k null true a)
        λ b h.
          Ensures-map (Pushes (map (λ k. (s, k, null, true)) keys) b)
            (Pushes (map (λ k. (s, k, null, true)) (k ∷ keys)) a)
            (push_tombstones format now s keys b) (push_tombstones-Pushes s keys b)
            (λ c g. Pushes-append ((s, k, null, true) ∷ []) _ a b c h g)

  pub push_batch-Pushes :
      (records : List (Bytes × StreamKey × DataValue)) (a : Admission)
      → Ensures
          (Pushes (map (λ r. (r.0, r.1, r.2, false)) records) a)
          (push_batch format now records a)
  unfolding push_batch
  push_batch-Pushes [] a = Pushes-nil a
  push_batch-Pushes ((s, k, v) ∷ records) a =
      Ensures-and_then (Pushes ((s, k, v, false) ∷ []) a)
        (Pushes (map (λ r. (r.0, r.1, r.2, false)) ((s, k, v) ∷ records)) a)
        (push_record format now s k v false a) (push_batch format now records)
        (push_record-Pushes s k v false a)
        λ b h.
          Ensures-map (Pushes (map (λ r. (r.0, r.1, r.2, false)) records) b)
            (Pushes (map (λ r. (r.0, r.1, r.2, false)) ((s, k, v) ∷ records)) a)
            (push_batch format now records b) (push_batch-Pushes records b)
            (λ c g. Pushes-append ((s, k, v, false) ∷ []) _ a b c h g)
