-- ===== src/Storage/Durable/Restart.antt =====
-- Recovery of a directory that represents a map.
use mathlib.Core.Path.{subst}
use liven.Prelude.{
  ℕ, ◌+◌, ◌^◌, ◌≤◌, ◌<◌, ◌≡◌, refl, sym, ap, ◌∙◌, false, Option, none, some, List, [], ◌∷◌, inl,
  inr, ℤ, arith, All, Any, All-map, All-both, concat_map-All, All-concat_map, length,
}
use liven.Bytes.{Bytes}
use liven.Types.{LogPointer, Record}
use liven.Error.{ok}
use liven.Storage.Payload.{PayloadFormat}
use liven.Storage.SkipMap.{SkipMap}
use liven.Storage.Index.{record_key}
use liven.Storage.Index.Keys.{name_key, stamp_key, Stamp}
use liven.Storage.Flusher.{Pending}
use liven.Storage.Flusher.Counts.{IsSound}
use liven.Storage.Flusher.Stands.{IsIndexed}
use liven.Storage.Flusher.Live.{Live, Shows, ShowsAt}
use liven.Storage.Recovery.{RecoveryLimits, is_strict}
use liven.Storage.Recovery.Extent.{Extent}
use liven.Storage.Recovery.Replays.{IsWithin}
use liven.Storage.Recovery.Segmented.{all_records, records_of}
use liven.Storage.Recovery.Newest.{HasKey, IsNewest}
use liven.Storage.Recovery.Views.{live_of, entry_of}
use liven.Storage.Salvage.Tears.{Directory}
use liven.Storage.Recover.{Opened, recover}
use liven.Storage.Recover.Completes.{IsOpened, recover-Completes}
use liven.Storage.Durable.Batches.{IsDurable}

pick :
    (Q R : Pending → Type 0) (ps : List Pending) → Any Q ps → All R ps → (p : Pending) × (Q p × R p)
pick Q R [] m h = absurd m
pick Q R (p ∷ ps) (inl here) h = (p, (here, h.0))
pick Q R (p ∷ ps) (inr later) h = pick Q R ps later h.1

abbrev says : Option Pending → Option (ℕ × Option Record)
says none = none
says (some p) = some (entry_of p)

-- Where each sequence id is of one frame, there is one newest frame of a key.
module _ (at_seq : ℕ → Option Pending) (k : Bytes) (ps : List Pending)
    (one : All (λ p. some p ≡ at_seq p.written.sequence_id) ps) where
  IsNewest-unique : (a b : Option (ℕ × Option Record)) → IsNewest k ps a → IsNewest k ps b → a ≡ b
  IsNewest-unique none none h g = refl
  IsNewest-unique none (some e) h g =
      let p = pick _ _ ps g.1 h in absurd (ground (arith, p.1.0.0, p.1.1))
  IsNewest-unique (some e) none h g =
      let p = pick _ _ ps h.1 g in absurd (ground (arith, p.1.0.0, p.1.1))
  IsNewest-unique (some e) (some f) h g =
      ap some (sym p.1.0.1) ∙ ap says (p.1.1.1 ∙ ap at_seq level ∙ sym q.1.1.1) ∙ ap some q.1.0.1
    where
      p :
          (p : Pending) × ((HasKey k p × (entry_of p ≡ e))
            × ((HasKey k p → p.written.sequence_id ≤ f.0)
                × (some p ≡ at_seq p.written.sequence_id)))
      p = pick _ _ ps h.1 (All-both _ _ ps g.0 one)

      q :
          (q : Pending) × ((HasKey k q × (entry_of q ≡ f))
            × ((HasKey k q → q.written.sequence_id ≤ e.0)
                × (some q ≡ at_seq q.written.sequence_id)))
      q = pick _ _ ps g.1 (All-both _ _ ps h.0 one)

      level : p.0.written.sequence_id ≡ q.0.written.sequence_id
      level =
          omega
            (arith, p.1.1.0 p.1.0.0, q.1.1.0 q.1.0.0, ap (λ x. x.0) p.1.0.1, ap (λ x. x.0) q.1.0.1)

abbrev owner_of : Option Pending → Bytes
owner_of none = []
owner_of (some p) = record_key p.written

module _ (no_torn_region : ℕ → ℕ → Bytes) (format : PayloadFormat) (now_ms : ℤ)
    (P : SkipMap Bytes LogPointer name_key) (T : SkipMap Stamp LogPointer stamp_key)
    (limits : RecoveryLimits) (streams : List Bytes) where
  -- The directory is as it was, and the engine represents the map and is as the flusher keeps it.
  pub record Restores (m : Live) (d : Directory)
      (o : Opened no_torn_region format now_ms P T limits) : Type 0 where
    pub segments : o.directory.segments ≡ d.segments
    pub shows : Shows format P T d.segments o.index m
    pub sound : IsSound P T o.current_sequence_id o.index
    pub indexed : IsIndexed format P T d.segments o.index
    pub durable : IsDurable format streams m d.segments o.current_sequence_id

  -- Recovery of a directory whose segment files represent a map gets through where it is not strict
  -- and there are no more streams than the limit allows, and its sequence ids are not at their end.
  -- It leaves the files as they are, and the engine that it opens represents the same map with its
  -- primary index. The index is as the flusher's batches keep it: its pointers point at frames of
  -- records with the keys that they stand under, its byte counter is exact and the next sequence id
  -- is above every one in it, and the files represent the map with this sequence id as before.
  pub recover-Restores :
      (m : Live) (d : Directory) (next : ℕ)
      → IsDurable format streams m d.segments next
      → is_strict limits.recovery_mode ≡ false
      → length streams ≤ limits.max_streams
      → next + 1 < 2 ^ 64
      → (o : Opened no_torn_region format now_ms P T limits) × (recover no_torn_region format now_ms
            P T limits d
          ≡ ok o)
        × Restores m d o
  recover-Restores m d next h lax room small = (
    opened.0,
    opened.1,
    record {
      segments = opened.2.segments;
      shows = λ k.
          subst (ShowsAt format d.segments (P.get k opened.0.index.skipmap)) (same k)
            (opened.2.shows k).2;
      sound = opened.2.sound;
      indexed = opened.2.indexed;
      durable = record {
        segments = h.segments;
        at_seq = h.at_seq;
        holds = h.holds;
        own = h.own;
        written = h.written;
        known =
            All-map _ _ h.segments
              (λ w f.
                All-map _ _ w.1
                  (λ p q. record { stream = q.0.stream; frame = q.0.frame; below = q.1 })
                  (All-both _ _ w.1 f.0 f.1))
              (All-both _ _ h.segments h.known
                (All-concat_map _ records_of h.segments opened.2.next));
        newest = h.newest;
      };
    },
  )
    where
      within : Extent
      within = record { streams = streams; last_seq = next; owner = λ n. owner_of (h.at_seq n) }

      inside : All (λ w. All (IsWithin within) w.1) h.segments
      inside =
          All-map _ _ h.segments
            (λ w. All-map _ _ w.1 (λ p q. record {
              stream = q.stream;
              seq = omega (arith, q.below);
              key = ap owner_of q.frame;
            }))
            h.known

      opened :
          (o : Opened no_torn_region format now_ms P T limits) × (recover no_torn_region format
              now_ms P T limits d
            ≡ ok o)
          × IsOpened no_torn_region format now_ms P T limits h.segments d o
      opened =
          recover-Completes no_torn_region format now_ms P T limits within h.segments d h.holds
            h.own h.written inside lax room small

      same : (k : Bytes) → live_of (opened.2.shows k).0 ≡ m k
      same k =
          ap live_of (
            IsNewest-unique h.at_seq k (all_records h.segments)
              (concat_map-All _ records_of h.segments
                (All-map _ _ h.segments (λ w. All-map _ _ w.1 (λ p q. q.frame)) h.known))
              (opened.2.shows k).0 (h.newest k).0 (opened.2.shows k).1 (h.newest k).1)
          ∙ sym (h.newest k).2
