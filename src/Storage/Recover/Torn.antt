-- ===== src/Storage/Recover/Torn.antt =====
-- A replay notes at most one tear of a segment.
use liven.Prelude.{
  ℕ, zero, suc, ◌+◌, ◌≡◌, refl, sym, Bool, true, false, Bool-cases, inl, inr, Option, none, some,
  List, [], ◌∷◌, arith, All, All-append, leb, ltb, length, take, drop, ◌==◌, if◌then◌else◌,
}
use mathlib.Core.Path.{subst}
use liven.Prelude.Sort.{sort, insert_sorted, insert_sorted-All, sort-All}
use liven.Bytes.{Bytes}
use liven.Types.{LogPointer, DataValue}
use liven.Error.{LivenError, Result, ok, err, ◌>>=◌}
use liven.Storage.Payload.{PayloadFormat, deserialize_payload_borrowed}
use liven.Storage.Frame.{FrameHeader, decode_frame_header}
use liven.Storage.SkipMap.{SkipMap}
use liven.Storage.Index.Keys.{name_key, stamp_key, Stamp}
use liven.Storage.Recovery.{
  RecoveryLimits, DeferredTear, SegmentScan, Replay, Replayed, replay_frames, end_segment,
  parsed_frame, count_frame, pass_frame, apply_frame, pointer_of,
}
use liven.Storage.Recovery.Segments.{
  by_id, Pass, pass_segment, replay_segment, replay_all, add_tear, fresh_scan, replay_directory,
  Recovered, State, empty_state,
}
use liven.Storage.Salvage.Lossless.{HasOwnSegment}

abbrev pub HasOwnFile : List (ℕ × Bytes) → Type 0
HasOwnFile [] = Unit
HasOwnFile (f ∷ files) = All (λ g. (g.0 == f.0) ≡ false) files × HasOwnFile files

insert_sorted-HasOwnFile :
    (f : ℕ × Bytes) (files : List (ℕ × Bytes))
    → All (λ g. (g.0 == f.0) ≡ false) files
    → HasOwnFile files
    → HasOwnFile (insert_sorted by_id f files)
unfolding insert_sorted
insert_sorted-HasOwnFile f [] a h = (tt, tt)
insert_sorted-HasOwnFile f (g ∷ files) a h = elim (Bool-cases (leb f.0 g.0)) [
  | inl less ↦ rw (less, if◌then◌else◌) (a, h)
  | inr more ↦
      rw (more, if◌then◌else◌)
        (
          insert_sorted-All by_id (λ x. (x.0 == g.0) ≡ false) f files (flip f.0 g.0 a.0) h.0,
          insert_sorted-HasOwnFile f files a.1 h.1,
        )
]
  where
    flip : (m n : ℕ) → (n == m) ≡ false → (m == n) ≡ false
    flip m n h = ground arith

pub sort-HasOwnFile : (files : List (ℕ × Bytes)) → HasOwnFile files → HasOwnFile (sort by_id files)
unfolding sort
sort-HasOwnFile [] h = tt
sort-HasOwnFile (f ∷ files) h =
    insert_sorted-HasOwnFile f (sort by_id files)
      (sort-All by_id (λ g. (g.0 == f.0) ≡ false) files h.0) (sort-HasOwnFile files h.1)

-- no tear yet, or one of this segment
abbrev IsOf : ℕ → Option DeferredTear → Type 0
IsOf id none = Unit
IsOf id (some t) = t.segment_id ≡ id

module _ (format : PayloadFormat) (P : SkipMap Bytes LogPointer name_key)
    (T : SkipMap Stamp LogPointer stamp_key) (limits : RecoveryLimits) where
  abbrev Tears : ℕ → Replayed format P T limits → Type 0
  Tears id (err x) = Unit
  Tears id (ok (s, c)) = IsOf id c.tear

  Tears-if :
      (id : ℕ) (b : Bool) (x y : Replayed format P T limits)
      → Tears id x
      → Tears id y
      → Tears id (if b then x else y)
  Tears-if id true x y h k = h
  Tears-if id false x y h k = k

  module _ (id : ℕ) where
    parsed_frame-Tears :
        (len : ℕ) (h : FrameHeader) (c : SegmentScan) (s : Replay format P T limits)
        (next : SegmentScan → Replay format P T limits → Replayed format P T limits)
        (r : Result LivenError (Bytes × Bytes × DataValue))
        → ((s' : Replay format P T limits) → Tears id (next (pass_frame format P T limits h c) s'))
        → Tears id (parsed_frame format P T limits id len h c s next r)
    parsed_frame-Tears len h c s next (err e) f = refl
    parsed_frame-Tears len h c s next (ok parts) f = go (
        apply_frame format P T limits (pointer_of format P T limits id h c.offset) h.flags parts.0
          parts.1 s)
      where
        go :
            (r : Result LivenError (Replay format P T limits))
            → Tears id (r >>= λ s'. next (pass_frame format P T limits h c) s')
        go (ok s') = f s'
        go (err e) = tt

    end_segment-Tears :
        (len : ℕ) (c : SegmentScan) (s : Replay format P T limits)
        → IsOf id c.tear
        → Tears id (end_segment format P T limits id len c s)
    end_segment-Tears len c s h = Tears-if id (ltb c.offset len) _ (ok (s, c)) refl h

    replay_frames-Tears :
        (fuel : ℕ) (file : Bytes) (c : SegmentScan) (s : Replay format P T limits)
        → IsOf id c.tear
        → Tears id (replay_frames format P T limits fuel id file c s)
    unfolding replay_frames
    replay_frames-Tears zero file c s h = end_segment-Tears (length file) c s h
    replay_frames-Tears (suc fuel) file c s h =
        Tears-if id (ltb (length file) (c.offset + 26)) _ _ (end_segment-Tears (length file) c s h)
          (Tears-if id (ltb (length body) head.payload_len) _ _ refl (
            Tears-if id (format.crc32 (take head.payload_len body) == head.crc32) _ _
              (parsed_frame-Tears (length file) head (count_frame format P T limits head.seq_id c) s
                (λ c' s'. replay_frames format P T limits fuel id file c' s')
                (deserialize_payload_borrowed format (take head.payload_len body) head.type_tag)
                (λ s'.
                  replay_frames-Tears fuel file
                    (pass_frame format P T limits head
                      (count_frame format P T limits head.seq_id c))
                    s' h))
              refl))
      where
        head : FrameHeader
        head = decode_frame_header (take 26 (drop c.offset file))

        body : Bytes
        body = drop 26 (drop c.offset file)

  -- The noted tears are of segments that are not replayed again.
  abbrev IsFresh : List (ℕ × Bytes) → List DeferredTear → Type 0
  IsFresh files tears = All (λ f. All (λ t. (t.segment_id == f.0) ≡ false) tears) files

  HasOwnSegment-add_tear :
      (id : ℕ) (tears : List DeferredTear) (o : Option DeferredTear)
      → HasOwnSegment tears
      → All (λ t. (t.segment_id == id) ≡ false) tears
      → IsOf id o
      → HasOwnSegment (add_tear tears o)
  HasOwnSegment-add_tear id tears none h a i = h
  HasOwnSegment-add_tear id [] (some t) h a i = (tt, tt)
  HasOwnSegment-add_tear id (u ∷ tears) (some t) h a i = (
    All-append (λ x. (u.segment_id == x.segment_id) ≡ false) tears (t ∷ []) h.0
        (subst (λ n. (u.segment_id == n) ≡ false) (sym i) a.0, tt),
    HasOwnSegment-add_tear id tears (some t) h.1 a.1 i,
  )

  IsFresh-add_tear :
      (id : ℕ) (files : List (ℕ × Bytes)) (tears : List DeferredTear) (o : Option DeferredTear)
      → All (λ g. (g.0 == id) ≡ false) files
      → IsFresh files tears
      → IsOf id o
      → IsFresh files (add_tear tears o)
  IsFresh-add_tear id [] tears o d h i = tt
  IsFresh-add_tear id (f ∷ files) tears none d h i = h
  IsFresh-add_tear id (f ∷ files) tears (some t) d h i = (
    All-append (λ x. (x.segment_id == f.0) ≡ false) tears (t ∷ []) h.0
        (subst (λ n. (n == f.0) ≡ false) (sym i) (flip f.0 id d.0), tt),
    IsFresh-add_tear id files tears (some t) d.1 h.1 i,
  )
    where
      flip : (m n : ℕ) → (m == n) ≡ false → (n == m) ≡ false
      flip m n e = ground arith

  abbrev Notes : Result LivenError (Pass format P T limits) → Type 0
  Notes (err x) = Unit
  Notes (ok p) = HasOwnSegment p.tears

  replay_all-Notes :
      (files : List (ℕ × Bytes)) (p : Pass format P T limits)
      → HasOwnFile files
      → HasOwnSegment p.tears
      → IsFresh files p.tears
      → Notes (replay_all format P T limits files p)
  unfolding replay_all replay_segment
  replay_all-Notes [] p d h fresh = h
  replay_all-Notes ((id, file) ∷ files) p d h fresh =
      go (replay_segment format P T limits id file p.state)
        (replay_frames-Tears id (length file) file fresh_scan p.state tt)
        (λ s c own.
          replay_all-Notes files (pass_segment format P T limits id (s, c) p) d.1
            (HasOwnSegment-add_tear id p.tears c.tear h fresh.0 own)
            (IsFresh-add_tear id files p.tears c.tear d.0 fresh.1 own))
    where
      go :
          (r : Replayed format P T limits)
          → Tears id r
          → ((s : State format P T limits) (c : SegmentScan)
              → IsOf id c.tear
              → Notes
                  (replay_all format P T limits files (pass_segment format P T limits id (s, c) p)))
          → Notes (
              r >>= λ x. replay_all format P T limits files (pass_segment format P T limits id x p))
      go (ok (s, c)) own next = next s c own
      go (err x) own next = tt

  nothing-IsFresh : (files : List (ℕ × Bytes)) → IsFresh files []
  nothing-IsFresh [] = tt
  nothing-IsFresh (f ∷ files) = (tt, nothing-IsFresh files)

  abbrev pub NotesOnce : Result LivenError (Recovered format P T limits) → Type 0
  NotesOnce (err x) = Unit
  NotesOnce (ok r) = HasOwnSegment r.pass.tears

  pub replay_directory-NotesOnce :
      (files : List (ℕ × Bytes))
      → HasOwnFile files
      → NotesOnce (replay_directory format P T limits files)
  unfolding replay_directory
  replay_directory-NotesOnce files d =
      go (replay_all format P T limits (sort by_id files) start) _ (λ p. refl)
        (replay_all-Notes (sort by_id files) start (sort-HasOwnFile files d) tt
          (nothing-IsFresh (sort by_id files)))
    where
      start : Pass format P T limits
      start = record { state = empty_state format P T limits; summaries = []; tears = [] }

      go :
          (r : Result LivenError (Pass format P T limits))
          (f : Pass format P T limits → Recovered format P T limits)
          → ((p : Pass format P T limits) → (f p).pass ≡ p)
          → Notes r
          → NotesOnce (r >>= λ p. ok (f p))
      go (ok p) f e h = subst (λ q. HasOwnSegment q.tears) (sym (e p)) h
      go (err x) f e h = tt
