-- ===== src/Storage/Flusher/Admit.antt =====
-- Admission pushes no more records than the batch asks for.
use mathlib.Core.Path.{subst}
use liven.Prelude.{
  ℕ, suc, ◌+◌, ◌-◌, ◌≤◌, ◌≡◌, refl, Bool, true, false, List, [], ◌∷◌, ◌++◌, arith, length,
  length-append, if◌then◌else◌, ltb, leb, ◌||◌, ℤ,
}
use liven.Bytes.{Bytes}
use liven.Types.{DataValue, null, LogPointer, StreamKey}
use liven.Error.{LivenError, Result, ok, err}
use liven.Storage.Key.{as_str}
use liven.Storage.Payload.{PayloadFormat}
use liven.Storage.SkipMap.{SkipMap}
use liven.Storage.Index.{Index, compound_key}
use liven.Storage.Index.Keys.{name_key, stamp_key, Stamp}
use liven.Storage.Flusher.{
  LogEntry, single, replace, batch, tombstone_batch, shutdown, PendingComplete, Admission, Config,
  u64_add, push_stamped, push_record, push_tombstones, push_batch, await, reserve, is_new_key,
  entry_charge, push_reserved, check_batch, push_checked, admit, admit_all,
}
use liven.Storage.Flusher.Outcomes.{Ensures, Ensures-and_then}

-- the records that an entry, and a batch, ask for
abbrev pub asked : LogEntry → ℕ
asked (single _ _ _ _ _) = 1
asked (replace _ _ _ _) = 1
asked (tombstone_batch _ keys _) = length keys
asked (batch records _) = length records
asked shutdown = 0

abbrev pub asked_all : List LogEntry → ℕ
asked_all [] = 0
asked_all (entry ∷ entries) = asked entry + asked_all entries

pub record Within (n : ℕ) (a : Admission) : Type 0 where
  pub at_most : length a.pending ≤ n

module _ (format : PayloadFormat) (now : ℕ → Result LivenError ℤ) where
  push_stamped-Within :
      (s : Bytes) (k : StreamKey) (v : DataValue) (t : Bool) (n : ℕ) (a : Admission)
      (r : Result LivenError ℤ)
      → Within n a
      → Ensures (Within (suc n)) (push_stamped format now s k v t a r)
  push_stamped-Within s k v t n a (err e) h = tt
  push_stamped-Within s k v t n a (ok time) h = record {
    at_most = omega (arith, h.at_most, length-append a.pending (_ ∷ []));
  }

  push_record-Within :
      (s : Bytes) (k : StreamKey) (v : DataValue) (t : Bool) (n : ℕ) (a : Admission)
      → Within n a
      → Ensures (Within (suc n)) (push_record format now s k v t a)
  unfolding push_record
  push_record-Within s k v t n a h = push_stamped-Within s k v t n a (now a.current_seq) h

  push_tombstones-Within :
      (s : Bytes) (keys : List StreamKey) (n m : ℕ) (a : Admission)
      → m ≡ length keys + n
      → Within n a
      → Ensures (Within m) (push_tombstones format now s keys a)
  unfolding push_tombstones
  push_tombstones-Within s [] n m a e h = record { at_most = omega (arith, h.at_most) }
  push_tombstones-Within s (key ∷ keys) n m a e h =
      Ensures-and_then (Within (suc n)) (Within m) (push_record format now s key null true a)
        (push_tombstones format now s keys) (push_record-Within s key null true n a h)
        (λ b hb. push_tombstones-Within s keys (suc n) m b (omega arith) hb)

  push_batch-Within :
      (records : List (Bytes × StreamKey × DataValue)) (n m : ℕ) (a : Admission)
      → m ≡ length records + n
      → Within n a
      → Ensures (Within m) (push_batch format now records a)
  unfolding push_batch
  push_batch-Within [] n m a e h = record { at_most = omega (arith, h.at_most) }
  push_batch-Within ((s, key, v) ∷ records) n m a e h =
      Ensures-and_then (Within (suc n)) (Within m) (push_record format now s key v false a)
        (push_batch format now records) (push_record-Within s key v false n a h)
        (λ b hb. push_batch-Within records (suc n) m b (omega arith) hb)

  module _ (P : SkipMap Bytes LogPointer name_key) (T : SkipMap Stamp LogPointer stamp_key)
      (cfg : Config) where
    abbrev Reserved : ℕ → Result ℕ Admission → Type 0
    Reserved n (ok a) = Within n a
    Reserved n (err x) = Unit

    Reserved-if :
        (new over : Bool) (x n : ℕ) (a b : Admission)
        → Within n a
        → Within n b
        → Reserved n (if new then (if over then err x else ok a) else ok b)
    Reserved-if true true x n a b ha hb = tt
    Reserved-if true false x n a b ha hb = ha
    Reserved-if false over x n a b ha hb = hb

    reserve-Within :
        (ix : Index P T) (key : Bytes) (n : ℕ) (a : Admission)
        → Within n a
        → Reserved n (reserve P T cfg ix key a)
    unfolding reserve
    reserve-Within ix key n a h =
        Reserved-if (is_new_key P T cfg ix a key) (ltb cfg.max_index_ram_bytes projected) projected
          n
          (record a {
            projected_new_bytes = u64_add a.projected_new_bytes (entry_charge P T cfg key);
            batch_new_keys = key ∷ a.batch_new_keys;
            high_water_reached = a.high_water_reached || leb cfg.high_water_bytes projected;
          })
          a (record { at_most = h.at_most }) h
      where
        projected : ℕ
        projected =
            u64_add (u64_add ix.index_ram_bytes a.projected_new_bytes) (entry_charge P T cfg key)

    push_reserved-Within :
        (s : Bytes) (k : StreamKey) (v : DataValue) (tx : ℕ) (c : PendingComplete) (n : ℕ)
        (a : Admission) (r : Result ℕ Admission)
        → Within n a
        → Reserved n r
        → Ensures (Within (suc n)) (push_reserved format P T cfg now s k v tx c a r)
    push_reserved-Within s k v tx c n a (err x) h hr = record { at_most = omega (arith, h.at_most) }
    push_reserved-Within s k v tx c n a (ok a') h hr =
        Ensures-and_then (Within (suc n)) (Within (suc n)) (push_record format now s k v false a')
          (await c) (push_record-Within s k v false n a' hr)
          (λ b hb. record { at_most = hb.at_most })

    push_checked-Within :
        (ix : Index P T) (records : List (Bytes × StreamKey × DataValue)) (tx n m : ℕ)
        (a : Admission) (r : Result (Bytes × ℕ) (ℕ × List Bytes))
        → m ≡ length records + n
        → Within n a
        → Ensures (Within m) (push_checked format P T cfg now ix records tx a r)
    push_checked-Within ix records tx n m a (err (key, x)) e h = record {
      at_most = omega (arith, h.at_most);
    }
    push_checked-Within ix records tx n m a (ok (projected, local_new)) e h =
        Ensures-and_then (Within m) (Within m)
          (push_batch format now records (record a {
            projected_new_bytes = projected - ix.index_ram_bytes;
            batch_new_keys = local_new ++ a.batch_new_keys;
          }))
          (await (PendingComplete.batch tx (length records)))
          (push_batch-Within records n m _ e (record { at_most = h.at_most }))
          (λ b hb. record { at_most = hb.at_most })

    admit-Within :
        (ix : Index P T) (entry : LogEntry) (n m : ℕ) (a : Admission)
        → m ≡ asked entry + n
        → Within n a
        → Ensures (Within m) (admit format P T cfg now ix entry a)
    unfolding admit
    admit-Within ix (single s k v true tx) n m a e h =
        Ensures-and_then (Within (suc n)) (Within m) (push_record format now s k v true a)
          (await (PendingComplete.single tx)) (push_record-Within s k v true n a h)
          (λ b hb. record { at_most = omega (arith, hb.at_most) })
    admit-Within ix (single s k v false tx) n m a e h =
        subst
          (λ j. Ensures (Within j) (
            push_reserved format P T cfg now s k v tx (PendingComplete.single tx) a
              (reserve P T cfg ix (compound_key s (as_str k)) a)))
          (omega arith)
          (push_reserved-Within s k v tx (PendingComplete.single tx) n a
            (reserve P T cfg ix (compound_key s (as_str k)) a) h
            (reserve-Within ix (compound_key s (as_str k)) n a h))
    admit-Within ix (replace s k v tx) n m a e h =
        subst
          (λ j. Ensures (Within j) (
            push_reserved format P T cfg now s k v tx (PendingComplete.replace tx) a
              (reserve P T cfg ix (compound_key s (as_str k)) a)))
          (omega arith)
          (push_reserved-Within s k v tx (PendingComplete.replace tx) n a
            (reserve P T cfg ix (compound_key s (as_str k)) a) h
            (reserve-Within ix (compound_key s (as_str k)) n a h))
    admit-Within ix (tombstone_batch s keys tx) n m a e h =
        Ensures-and_then (Within m) (Within m) (push_tombstones format now s keys a)
          (await (PendingComplete.batch tx (length keys))) (push_tombstones-Within s keys n m a e h)
          (λ b hb. record { at_most = hb.at_most })
    admit-Within ix (batch records tx) n m a e h =
        push_checked-Within ix records tx n m a
          (check_batch P T cfg ix a records (u64_add ix.index_ram_bytes a.projected_new_bytes) []) e
          h
    admit-Within ix shutdown n m a e h = record { at_most = omega (arith, h.at_most) }

    pub admit_all-Within :
        (ix : Index P T) (entries : List LogEntry) (n m : ℕ) (a : Admission)
        → m ≡ asked_all entries + n
        → Within n a
        → Ensures (Within m) (admit_all format P T cfg now ix entries a)
    unfolding admit_all
    admit_all-Within ix [] n m a e h = record { at_most = omega (arith, h.at_most) }
    admit_all-Within ix (shutdown ∷ entries) n m a e h = record {
      at_most = omega (arith, h.at_most);
    }
    admit_all-Within ix (entry ∷ entries) n m a e h =
        Ensures-and_then (Within (asked entry + n)) (Within m) (admit format P T cfg now ix entry a)
          (admit_all format P T cfg now ix entries)
          (admit-Within ix entry n (asked entry + n) a refl h)
          (λ b hb. admit_all-Within ix entries (asked entry + n) m b (omega arith) hb)
