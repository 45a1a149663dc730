-- ===== src/Storage/Flusher/Stages.antt =====
-- The steps of `execute_batch_append` before the completion, as the index, the segment files and the
-- size of the active segment see them.
use liven.Prelude.{
  ℕ, ◌+◌, ◌^◌, ◌≤◌, ◌<◌, ◌≡◌, ◌⊎◌, inl, inr, refl, ◌∙◌, Bool, true, false, Option, none, some, [],
  ◌++◌, arith, length, take, if◌then◌else◌, ◌==◌, ==_iff, leb,
}
use liven.Bytes.{Bytes, ascii}
use liven.Types.{LogPointer}
use liven.Error.{internal, ok, err}
use liven.Storage.Payload.{PayloadFormat}
use liven.Storage.SkipMap.{SkipMap}
use liven.Storage.Index.Keys.{name_key, stamp_key, Stamp}
use liven.Storage.Flusher.{Config, u64_add}
use liven.Storage.Flusher.Stands.{IsIndexed, IsIndexed-grows, segment_bytes-append_bytes}
use liven.Storage.Flusher.Batch.{
  WriteResult, written, torn, compaction_id_base, Engine, Io, Reply, segment_bytes, append_bytes,
  roll_over, write_frames, sync_frames, and_next, open_segment, take_segment_id,
}

module _ (format : PayloadFormat) (P : SkipMap Bytes LogPointer name_key)
    (T : SkipMap Stamp LogPointer stamp_key) where
  -- The index points at frames, and the segment ids from the counter on have no file.
  pub record IsConsistent (e : Engine format P T) : Type 0 where
    pub indexed : IsIndexed format P T e.files e.index
    pub active : e.active_segment_id < e.segment_id_counter
    pub unused : (j : ℕ) → e.segment_id_counter ≤ j → segment_bytes j e.files ≡ []

  -- the end of the active segment, while the engine has not failed
  pub record EngineIsIndexed (e : Engine format P T) : Type 0 where
    pub consistent : IsConsistent e
    pub sized :
        (e.failed ≡ true) ⊎ (e.active_size ≡ length (segment_bytes e.active_segment_id e.files))

  -- what a computation leaves when it succeeds, and when it fails
  abbrev pub Leaves :
      (Engine format P T → Type 0) → (Engine format P T → Type 0) → Reply format P T → Type 0
  Leaves Q R (ok _, e) = Q e
  Leaves Q R (err x, e) = R e

  pub Leaves-and_next :
      (Q R : Engine format P T → Type 0) (r : Reply format P T)
      (k : Engine format P T → Reply format P T)
      → Leaves Q R r
      → ((e : Engine format P T) → Q e → R (k e).1)
      → R (and_next format P T r k).1
  Leaves-and_next Q R (ok u, e) k h go = go e h
  Leaves-and_next Q R (err x, e) k h go = h

  pub record IsReady (e : Engine format P T) : Type 0 where
    pub consistent : IsConsistent e
    pub sized : e.active_size ≡ length (segment_bytes e.active_segment_id e.files)

  -- the frames of a batch stand after the end of the active segment
  pub record HasFrames (buf : Bytes) (e : Engine format P T) : Type 0 where
    pub consistent : IsConsistent e
    pub before : Bytes
    pub holds : segment_bytes e.active_segment_id e.files ≡ before ++ buf
    pub sized : e.active_size ≡ length before

  pub IsReady-EngineIsIndexed : (e : Engine format P T) → IsReady e → EngineIsIndexed e
  IsReady-EngineIsIndexed e h = record { consistent = h.consistent; sized = inr h.sized }

  module _ (o : Io) where
    open_segment-Leaves :
        (e : Engine format P T)
        → IsConsistent e
        → segment_bytes e.active_segment_id e.files ≡ []
        → Leaves IsReady EngineIsIndexed (open_segment format P T o e)
    open_segment-Leaves e c empty = go o.create o.sync_dir
      where
        go :
            (x y : Option Bytes)
            → Leaves IsReady EngineIsIndexed
                (open_segment format P T (record o { create = x; sync_dir = y }) e)
        go (some x) y = record {
          consistent = record { indexed = c.indexed; active = c.active; unused = c.unused };
          sized = inl refl;
        }
        go none (some y) = record {
          consistent = record { indexed = c.indexed; active = c.active; unused = c.unused };
          sized = inl refl;
        }
        go none none = record {
          consistent = record { indexed = c.indexed; active = c.active; unused = c.unused };
          sized = rw empty refl;
        }

    take_segment_id-Leaves :
        (e : Engine format P T)
        → IsReady e
        → e.segment_id_counter + 1 < 2 ^ 64
        → Leaves IsReady EngineIsIndexed (take_segment_id format P T o e)
    take_segment_id-Leaves e h room = go (leb compaction_id_base e.segment_id_counter)
      where
        c : IsConsistent e
        c = h.consistent

        opened : Engine format P T
        opened = record e {
          segment_id_counter = u64_add e.segment_id_counter 1;
          active_segment_id = e.segment_id_counter;
        }

        refused : Engine format P T
        refused = record e { segment_id_counter = u64_add e.segment_id_counter 1 }

        go :
            (b : Bool)
            → Leaves IsReady EngineIsIndexed (
                if b
                then (err (internal (ascii "normal segment ID space exhausted")), refused)
                else open_segment format P T o opened)
        go true = record {
          consistent = record {
            indexed = c.indexed;
            active = omega (arith, c.active, room);
            unused = λ j b. c.unused j (omega (arith, room, b));
          };
          sized = inr h.sized;
        }
        go false =
            open_segment-Leaves opened
              (record {
                indexed = c.indexed;
                active = omega (arith, room);
                unused = λ j b. c.unused j (omega (arith, room, b));
              })
              (c.unused e.segment_id_counter (omega arith))

    pub roll_over-Leaves :
        (e : Engine format P T)
        → IsReady e
        → e.segment_id_counter + 1 < 2 ^ 64
        → Leaves IsReady EngineIsIndexed (roll_over format P T o e)
    unfolding roll_over
    roll_over-Leaves e h room = go e.active_file o.sync_old
      where
        closed : Engine format P T
        closed = record e { active_file = false }

        c : IsConsistent closed
        c = record {
          indexed = h.consistent.indexed;
          active = h.consistent.active;
          unused = h.consistent.unused;
        }

        ready : IsReady closed
        ready = record { consistent = c; sized = h.sized }

        go :
            (b : Bool) (x : Option Bytes)
            → Leaves IsReady EngineIsIndexed
                (roll_over format P T (record o { sync_old = x }) (record e { active_file = b }))
        go false x = take_segment_id-Leaves closed ready room
        go true none = take_segment_id-Leaves closed ready room
        go true (some x) = record {
          consistent = record { indexed = c.indexed; active = c.active; unused = c.unused };
          sized = inl refl;
        }

    -- a write that may have ended early
    append-IsConsistent :
        (buf : Bytes) (e : Engine format P T)
        → IsConsistent e
        → IsConsistent (record e { files = append_bytes e.active_segment_id buf e.files })
    append-IsConsistent buf e c = record {
      indexed = IsIndexed-grows format P T e.active_segment_id buf e.files e.index c.indexed;
      active = c.active;
      unused = λ j b.
          segment_bytes-append_bytes j e.active_segment_id buf e.files
          ∙ rw (other j b, if◌then◌else◌) (c.unused j b);
    }
      where
        other : (j : ℕ) → e.segment_id_counter ≤ j → (j == e.active_segment_id) ≡ false
        other j b = ground (arith, c.active)

    pub write_frames-Leaves :
        (buf : Bytes) (e : Engine format P T)
        → IsReady e
        → Leaves (HasFrames buf) EngineIsIndexed (write_frames format P T buf o e)
    unfolding write_frames
    write_frames-Leaves buf e h = go e.active_file o.write
      where
        grown : Bytes → Engine format P T
        grown bs = record e { files = append_bytes e.active_segment_id bs e.files }

        c : (bs : Bytes) → IsConsistent (grown bs)
        c bs = append-IsConsistent bs e h.consistent

        go :
            (b : Bool) (w : WriteResult)
            → Leaves (HasFrames buf) EngineIsIndexed (
                write_frames format P T buf (record o { write = w }) (record e { active_file = b }))
        go false w = record {
          consistent = record {
            indexed = h.consistent.indexed;
            active = h.consistent.active;
            unused = h.consistent.unused;
          };
          sized = inl refl;
        }
        go true (torn n full x) = record {
          consistent = record {
            indexed = (c (take n buf)).indexed;
            active = (c (take n buf)).active;
            unused = (c (take n buf)).unused;
          };
          sized = inl refl;
        }
        go true written = record {
          consistent = record {
            indexed = (c buf).indexed;
            active = (c buf).active;
            unused = (c buf).unused;
          };
          before = segment_bytes e.active_segment_id e.files;
          holds =
              segment_bytes-append_bytes e.active_segment_id e.active_segment_id buf e.files
              ∙ rw ((==_iff e.active_segment_id e.active_segment_id).1 refl, if◌then◌else◌) refl;
          sized = h.sized;
        }

    pub sync_frames-Leaves :
        (cfg : Config) (buf : Bytes) (e : Engine format P T)
        → HasFrames buf e
        → Leaves (HasFrames buf) EngineIsIndexed (sync_frames format P T cfg o e)
    unfolding sync_frames
    sync_frames-Leaves cfg buf e h = go cfg.sync_always o.sync
      where
        c : IsConsistent e
        c = h.consistent

        go :
            (b : Bool) (x : Option Bytes)
            → Leaves
                (HasFrames buf)
                EngineIsIndexed
                (sync_frames format P T (record cfg { sync_always = b }) (record o { sync = x }) e)
        go false x = h
        go true none = record {
          consistent = record { indexed = c.indexed; active = c.active; unused = c.unused };
          before = h.before;
          holds = h.holds;
          sized = h.sized;
        }
        go true (some x) = record {
          consistent = record { indexed = c.indexed; active = c.active; unused = c.unused };
          sized = inl refl;
        }
