-- ===== src/Storage/Durable/Files.antt =====
-- The segment files after a batch: they have grown by its frames, they are as before, or the engine
-- has failed.
use liven.Prelude.{◌≡◌, ◌⊎◌, inl, inr, refl, ap, Bool, true, false, ℕ, Option, none, some, arith}
use liven.Bytes.{Bytes}
use liven.Types.{LogPointer}
use liven.Error.{ok, err}
use liven.Storage.Payload.{PayloadFormat}
use liven.Storage.SkipMap.{SkipMap}
use liven.Storage.Index.Keys.{name_key, stamp_key, Stamp}
use liven.Storage.Flusher.{Config, Admission}
use liven.Storage.Flusher.Stages.{Leaves}
use liven.Storage.Flusher.Refines.{Leaves-bind}
use liven.Storage.Flusher.Batch.{
  WriteResult, written, torn, Engine, Io, Reply, append_bytes, roll_over, write_frames, sync_frames,
  finish, persist, needs_room, make_room, write_and_finish, sync_and_finish,
}

module _ (format : PayloadFormat) (P : SkipMap Bytes LogPointer name_key)
    (T : SkipMap Stamp LogPointer stamp_key) where
  pub record IsPersisted (a : Admission) (b e : Engine format P T) : Type 0 where
    pub segment : ℕ
    pub files : e.files ≡ append_bytes segment a.frame_buf b.files
    pub seq : e.current_sequence_id ≡ a.current_seq

  abbrev pub IsSame : Engine format P T → Engine format P T → Type 0
  IsSame b e = (e.files ≡ b.files) × (e.current_sequence_id ≡ b.current_sequence_id)

  abbrev pub Stays : Engine format P T → Engine format P T → Type 0
  Stays b e = (e.failed ≡ true) ⊎ IsSame b e

  -- the frames are written and nothing else is changed yet
  abbrev HasGrown : Bytes → Engine format P T → Engine format P T → Type 0
  HasGrown buf b e = (segment : ℕ) × (e.files ≡ append_bytes segment buf b.files)

  Leaves-always :
      (Q R : Engine format P T → Type 0) (r : Reply format P T)
      → Q r.1
      → ((e : Engine format P T) → Q e → R e)
      → Leaves format P T Q R r
  Leaves-always Q R (ok u, e) h f = h
  Leaves-always Q R (err x, e) h f = f e h

  module _ (cfg : Config) (o : Io) (b : Engine format P T) where
    roll_over-IsSame : (e : Engine format P T) → IsSame b e → IsSame b (roll_over format P T o e).1
    unfolding roll_over
    roll_over-IsSame e h = (ground arith, ground arith)

    write_frames-HasGrown :
        (buf : Bytes) (e : Engine format P T)
        → IsSame b e
        → Leaves format P T (HasGrown buf b) (Stays b) (write_frames format P T buf o e)
    unfolding write_frames
    write_frames-HasGrown buf e h = go e.active_file o.write
      where
        go :
            (x : Bool) (w : WriteResult)
            → Leaves format P T (HasGrown buf b) (Stays b) (
                write_frames format P T buf (record o { write = w }) (record e { active_file = x }))
        go false w = inl refl
        go true (torn n full x) = inl refl
        go true written = (e.active_segment_id, ap (append_bytes e.active_segment_id buf) h.0)

    sync_frames-HasGrown :
        (buf : Bytes) (e : Engine format P T)
        → HasGrown buf b e
        → Leaves format P T (HasGrown buf b) (Stays b) (sync_frames format P T cfg o e)
    unfolding sync_frames
    sync_frames-HasGrown buf e h = go cfg.sync_always o.sync
      where
        go :
            (x : Bool) (y : Option Bytes)
            → Leaves format P T
                (HasGrown buf b)
                (Stays b)
                (sync_frames format P T (record cfg { sync_always = x }) (record o { sync = y }) e)
        go false y = h
        go true none = h
        go true (some y) = inl refl

    finish-IsPersisted :
        (a : Admission) (e : Engine format P T)
        → HasGrown a.frame_buf b e
        → IsPersisted a b (finish format P T a e).1
    unfolding finish
    finish-IsPersisted a e h = record { segment = h.0; files = h.1; seq = refl }

    pub persist-IsPersisted :
        (a : Admission) (e : Engine format P T)
        → IsSame b e
        → Leaves format P T (IsPersisted a b) (Stays b) (persist format P T cfg o a e)
    unfolding finish
    persist-IsPersisted a e h =
        Leaves-bind format P T (IsSame b) (Stays b) (IsPersisted a b)
          (make_room format P T (needs_room format P T cfg a e) o e)
          (write_and_finish format P T cfg o a) (started (needs_room format P T cfg a e))
          λ e1 h1.
            Leaves-bind format P T (HasGrown a.frame_buf b) (Stays b) (IsPersisted a b)
              (write_frames format P T a.frame_buf o e1) (sync_and_finish format P T cfg o a)
              (write_frames-HasGrown a.frame_buf e1 h1)
              λ e2 h2.
                Leaves-bind format P T (HasGrown a.frame_buf b) (Stays b) (IsPersisted a b)
                  (sync_frames format P T cfg o e2) (finish format P T a)
                  (sync_frames-HasGrown a.frame_buf e2 h2) (λ e3 h3. finish-IsPersisted a e3 h3)
      where
        started : (n : Bool) → Leaves format P T (IsSame b) (Stays b) (make_room format P T n o e)
        started true =
            Leaves-always (IsSame b) (Stays b) (roll_over format P T o e) (roll_over-IsSame e h)
              (λ e1 s. inr s)
        started false = h
