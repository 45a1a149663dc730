-- ===== src/Storage/Flusher/Admits.antt =====
-- Admission as a whole: the changes of the admitted entries are pending, paired with responses.
use mathlib.Core.List.{map-append}
use mathlib.Core.Path.{subst}
use liven.Prelude.{
  ℕ, ◌-◌, ◌≡◌, ◌⊎◌, inl, inr, refl, sym, ap, ◌∙◌, Bool, true, false, List, [], ◌∷◌, ◌++◌, ℤ, arith,
  length, map, append_assoc, append-nil, if◌then◌else◌, ltb, leb, ◌||◌, get_or,
}
use liven.Bytes.{Bytes}
use liven.Types.{DataValue, null, LogPointer, StreamKey}
use liven.Error.{LivenError, Result, ok, err}
use liven.Storage.Key.{as_str}
use liven.Storage.Payload.{PayloadFormat}
use liven.Storage.SkipMap.{SkipMap}
use liven.Storage.Index.{Index, compound_key}
use liven.Storage.Index.Keys.{name_key, stamp_key, Stamp}
use liven.Storage.Flusher.{
  LogEntry, single, replace, batch, tombstone_batch, shutdown, Pending, PendingComplete, Admission,
  Config, and_then, u64_add, push_record, push_tombstones, push_batch, await, reserve, is_new_key,
  entry_charge, push_reserved, check_batch, push_checked, admit, admit_all,
}
use liven.Storage.Flusher.Outcomes.{Ensures, Ensures-and_then}
use liven.Storage.Flusher.Pairs.{Answers, IsPaired}
use liven.Storage.Flusher.Takes.{
  Change, change_of, changes, is_refusable, Takes, done, stop, take, skip, Pushes, Ensures-map,
  push_record-Pushes, push_tombstones-Pushes, push_batch-Pushes,
}

-- All changes of the entry are pending in addition, with one response, or nothing is, of an entry
-- that can be refused.
record Admits (entry : LogEntry) (a b : Admission) : Type 0 where
  pushed : List Pending
  answered : List PendingComplete
  pending : b.pending ≡ a.pending ++ pushed
  completes : b.completes ≡ a.completes ++ answered
  paired : IsPaired answered pushed
  taken : (map change_of pushed ≡ changes entry) ⊎ ((pushed ≡ []) × (is_refusable entry ≡ true))

Admits-nothing :
    (entry : LogEntry) (a b : Admission)
    → b.pending ≡ a.pending
    → b.completes ≡ a.completes
    → is_refusable entry ≡ true
    → Admits entry a b
Admits-nothing entry a b p c r = record {
  pushed = [];
  answered = [];
  pending = p ∙ sym (append-nil a.pending);
  completes = c ∙ sym (append-nil a.completes);
  paired = refl;
  taken = inr (refl, r);
}

await-Admits :
    (entry : LogEntry) (c : PendingComplete) (a b : Admission) (h : Pushes (changes entry) a b)
    → Answers c h.pushed
    → Ensures (Admits entry a) (await c b)
await-Admits entry c a b h n = record {
  pushed = h.pushed;
  answered = c ∷ [];
  pending = h.pending;
  completes = ap (λ x. x ++ (c ∷ [])) h.completes;
  paired = (h.pushed, [], sym (append-nil h.pushed), n, refl);
  taken = inl h.asked;
}

-- one change, one record
one_pending :
    (ps : List Pending) (c : Change)
    → map change_of ps ≡ c ∷ []
    → (p : Pending) × (ps ≡ p ∷ []) × (p.is_tombstone ≡ c.3)
one_pending [] c e = cc
one_pending (p ∷ []) c e = (p, refl, ap (λ cs. (get_or cs 0 c).3) e)
one_pending (p ∷ q ∷ ps) c e = cc

pub length-map {ℓ κ} :
    {A : Type ℓ} {B : Type κ} (f : A → B) (xs : List A) → length (map f xs) ≡ length xs
length-map f [] = refl
length-map f (x ∷ xs) = omega (arith, length-map f xs)

module _ (format : PayloadFormat) (P : SkipMap Bytes LogPointer name_key)
    (T : SkipMap Stamp LogPointer stamp_key) (cfg : Config) (now : ℕ → Result LivenError ℤ) where
  -- a reservation leaves what is pending alone
  abbrev Reserves : Admission → Result ℕ Admission → Type 0
  Reserves a (ok b) = (b.pending ≡ a.pending) × (b.completes ≡ a.completes)
  Reserves a (err n) = Unit

  Reserves-if :
      (new over : Bool) (n : ℕ) (a b : Admission)
      → b.pending ≡ a.pending
      → b.completes ≡ a.completes
      → Reserves a (if new then (if over then err n else ok b) else ok a)
  Reserves-if true true n a b p c = tt
  Reserves-if true false n a b p c = (p, c)
  Reserves-if false over n a b p c = (refl, refl)

  reserve-Reserves :
      (ix : Index P T) (key : Bytes) (a : Admission) → Reserves a (reserve P T cfg ix key a)
  unfolding reserve
  reserve-Reserves ix key a =
      Reserves-if (is_new_key P T cfg ix a key) (ltb cfg.max_index_ram_bytes projected) projected a
        (record a {
          projected_new_bytes = u64_add a.projected_new_bytes (entry_charge P T cfg key);
          batch_new_keys = key ∷ a.batch_new_keys;
          high_water_reached = a.high_water_reached || leb cfg.high_water_bytes projected;
        })
        refl refl
    where
      projected : ℕ
      projected =
          u64_add (u64_add ix.index_ram_bytes a.projected_new_bytes) (entry_charge P T cfg key)

  Pushes-from :
      (cs : List Change) (a b c : Admission)
      → b.pending ≡ a.pending
      → b.completes ≡ a.completes
      → Pushes cs b c
      → Pushes cs a c
  Pushes-from cs a b c p k h = record {
    pushed = h.pushed;
    pending = rw (← p) h.pending;
    asked = h.asked;
    completes = h.completes ∙ k;
  }

  push_reserved-Admits :
      (entry : LogEntry) (s : Bytes) (k : StreamKey) (v : DataValue) (tx : ℕ) (c : PendingComplete)
      (a : Admission) (r : Result ℕ Admission)
      → changes entry ≡ (s, k, v, false) ∷ []
      → is_refusable entry ≡ true
      → ((ps : List Pending) → map change_of ps ≡ changes entry → Answers c ps)
      → Reserves a r
      → Ensures (Admits entry a) (push_reserved format P T cfg now s k v tx c a r)
  push_reserved-Admits entry s k v tx c a (err n) e can answers h =
      Admits-nothing entry a _ refl refl can
  push_reserved-Admits entry s k v tx c a (ok a') e can answers h =
      Ensures-and_then (Pushes ((s, k, v, false) ∷ []) a') (Admits entry a)
        (push_record format now s k v false a') (await c)
        (push_record-Pushes format now s k v false a')
        λ b g.
          let g' : Pushes (changes entry) a b =
            Pushes-from (changes entry) a a' b h.0 h.1 (subst (λ cs. Pushes cs a' b) (sym e) g) in
          await-Admits entry c a b g' (answers g'.pushed g'.asked)

  push_checked-Admits :
      (ix : Index P T) (records : List (Bytes × StreamKey × DataValue)) (tx : ℕ) (a : Admission)
      (r : Result (Bytes × ℕ) (ℕ × List Bytes))
      → Ensures (Admits (batch records tx) a) (push_checked format P T cfg now ix records tx a r)
  push_checked-Admits ix records tx a (err (key, n)) =
      Admits-nothing (batch records tx) a _ refl refl refl
  push_checked-Admits ix records tx a (ok (projected, local_new)) =
      Ensures-and_then (Pushes (changes (batch records tx)) a') (Admits (batch records tx) a)
        (push_batch format now records a') (await (PendingComplete.batch tx (length records)))
        (push_batch-Pushes format now records a')
        λ b g.
          let g' : Pushes (changes (batch records tx)) a b =
            Pushes-from (changes (batch records tx)) a a' b refl refl g in
          await-Admits (batch records tx) (PendingComplete.batch tx (length records)) a b g' (
            sym (length-map change_of g'.pushed)
            ∙ ap length g'.asked
            ∙ length-map (λ r. (r.0, r.1, r.2, false)) records)
    where
      a' : Admission
      a' = record a {
        projected_new_bytes = projected - ix.index_ram_bytes;
        batch_new_keys = local_new ++ a.batch_new_keys;
      }

  one_answer :
      (tx : ℕ) (c : Change) (ps : List Pending)
      → map change_of ps ≡ c ∷ []
      → Answers (PendingComplete.single tx) ps
  one_answer tx c ps e = let o = one_pending ps c e in (o.0, o.1)

  live_answer :
      (tx : ℕ) (s : Bytes) (k : StreamKey) (v : DataValue) (ps : List Pending)
      → map change_of ps ≡ (s, k, v, false) ∷ []
      → Answers (PendingComplete.replace tx) ps
  live_answer tx s k v ps e = one_pending ps (s, k, v, false) e

  admit-Admits :
      (ix : Index P T) (entry : LogEntry) (a : Admission)
      → Ensures (Admits entry a) (admit format P T cfg now ix entry a)
  unfolding admit
  admit-Admits ix (single s k v true tx) a =
      Ensures-and_then (Pushes ((s, k, v, true) ∷ []) a) (Admits (single s k v true tx) a)
        (push_record format now s k v true a) (await (PendingComplete.single tx))
        (push_record-Pushes format now s k v true a)
        λ b g.
          await-Admits (single s k v true tx) (PendingComplete.single tx) a b g
            (one_answer tx (s, k, v, true) g.pushed g.asked)
  admit-Admits ix (single s k v false tx) a =
      push_reserved-Admits (single s k v false tx) s k v tx (PendingComplete.single tx) a
        (reserve P T cfg ix (compound_key s (as_str k)) a) refl refl
        (one_answer tx (s, k, v, false)) (reserve-Reserves ix (compound_key s (as_str k)) a)
  admit-Admits ix (replace s k v tx) a =
      push_reserved-Admits (replace s k v tx) s k v tx (PendingComplete.replace tx) a
        (reserve P T cfg ix (compound_key s (as_str k)) a) refl refl (live_answer tx s k v)
        (reserve-Reserves ix (compound_key s (as_str k)) a)
  admit-Admits ix (tombstone_batch s keys tx) a =
      Ensures-and_then (Pushes (changes (tombstone_batch s keys tx)) a)
        (Admits (tombstone_batch s keys tx) a) (push_tombstones format now s keys a)
        (await (PendingComplete.batch tx (length keys)))
        (push_tombstones-Pushes format now s keys a)
        λ b g.
          await-Admits (tombstone_batch s keys tx) (PendingComplete.batch tx (length keys)) a b g (
            sym (length-map change_of g.pushed)
            ∙ ap length g.asked
            ∙ length-map (λ k. (s, k, null, true)) keys)
  admit-Admits ix (batch records tx) a =
      push_checked-Admits ix records tx a
        (check_batch P T cfg ix a records (u64_add ix.index_ram_bytes a.projected_new_bytes) [])
  admit-Admits ix shutdown a = record {
    pushed = [];
    answered = [];
    pending = sym (append-nil a.pending);
    completes = sym (append-nil a.completes);
    paired = refl;
    taken = inl refl;
  }

  -- The changes of the admitted entries are pending, each response with its own.
  pub record HasAdmitted (entries : List LogEntry) (a b : Admission) : Type 0 where
    pub pushed : List Pending
    pub answered : List PendingComplete
    pub pending : b.pending ≡ a.pending ++ pushed
    pub completes : b.completes ≡ a.completes ++ answered
    pub paired : IsPaired answered pushed
    pub takes : Takes entries (map change_of pushed)

  IsPaired-join :
      (ks ls : List PendingComplete) (ps qs : List Pending)
      → IsPaired ks ps
      → IsPaired ls qs
      → IsPaired (ks ++ ls) (ps ++ qs)
  IsPaired-join [] ls ps qs h g = rw h g
  IsPaired-join (k ∷ ks) ls ps qs (xs, ys, e, a, h) g =
      (xs, ys ++ qs, rw e (append_assoc xs ys qs), a, IsPaired-join ks ls ys qs h g)

  HasAdmitted-nil :
      (entries : List LogEntry) (a : Admission) → Takes entries [] → HasAdmitted entries a a
  HasAdmitted-nil entries a t = record {
    pushed = [];
    answered = [];
    pending = sym (append-nil a.pending);
    completes = sym (append-nil a.completes);
    paired = refl;
    takes = t;
  }

  Takes-cons :
      (entry : LogEntry) (entries : List LogEntry) (ps qs : List Pending)
      → (map change_of ps ≡ changes entry) ⊎ ((ps ≡ []) × (is_refusable entry ≡ true))
      → Takes entries (map change_of qs)
      → Takes (entry ∷ entries) (map change_of (ps ++ qs))
  Takes-cons entry entries ps qs (inl e) t = rw (map-append change_of ps qs, e) (take entry t)
  Takes-cons entry entries ps qs (inr (e, can)) t = rw e (skip entry can t)

  HasAdmitted-cons :
      (entry : LogEntry) (entries : List LogEntry) (a b c : Admission)
      → Admits entry a b
      → HasAdmitted entries b c
      → HasAdmitted (entry ∷ entries) a c
  HasAdmitted-cons entry entries a b c h g = record {
    pushed = h.pushed ++ g.pushed;
    answered = h.answered ++ g.answered;
    pending = g.pending ∙ rw h.pending (append_assoc a.pending h.pushed g.pushed);
    completes = g.completes ∙ rw h.completes (append_assoc a.completes h.answered g.answered);
    paired = IsPaired-join h.answered g.answered h.pushed g.pushed h.paired g.paired;
    takes = Takes-cons entry entries h.pushed g.pushed h.taken g.takes;
  }

  admit_entry :
      (ix : Index P T) (entry : LogEntry) (entries : List LogEntry) (a : Admission)
      → ((b : Admission)
          → Ensures (HasAdmitted entries b) (admit_all format P T cfg now ix entries b))
      → Ensures
          (HasAdmitted (entry ∷ entries) a)
          (and_then (admit format P T cfg now ix entry a) (admit_all format P T cfg now ix entries))
  admit_entry ix entry entries a rest =
      Ensures-and_then (Admits entry a) (HasAdmitted (entry ∷ entries) a)
        (admit format P T cfg now ix entry a) (admit_all format P T cfg now ix entries)
        (admit-Admits ix entry a)
        λ b h.
          Ensures-map (HasAdmitted entries b) (HasAdmitted (entry ∷ entries) a)
            (admit_all format P T cfg now ix entries b) (rest b)
            (λ c g. HasAdmitted-cons entry entries a b c h g)

  pub admit_all-HasAdmitted :
      (ix : Index P T) (entries : List LogEntry) (a : Admission)
      → Ensures (HasAdmitted entries a) (admit_all format P T cfg now ix entries a)
  unfolding admit_all
  admit_all-HasAdmitted ix [] a = HasAdmitted-nil [] a done
  admit_all-HasAdmitted ix (shutdown ∷ entries) a = HasAdmitted-nil (shutdown ∷ entries) a stop
  admit_all-HasAdmitted ix (entry ∷ entries) a =
      admit_entry ix entry entries a (admit_all-HasAdmitted ix entries)
