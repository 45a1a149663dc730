-- ===== src/Storage/Durable/Accepted.antt =====
-- Changes that can be read back, and the records that the flusher makes of them.
use liven.Prelude.{
  ℕ, ◌^◌, ◌≤◌, ◌<◌, ◌≡◌, true, List, [], ◌∷◌, ℤ, arith, All, All-append, All-split, concat_map,
  length, length-append, map,
}
use liven.Bytes.{Bytes, is_utf8}
use liven.Bytes.Words.{IsI64}
use liven.Error.{LivenError, Result, ok}
use liven.Storage.Key.{as_str}
use liven.Storage.Key.RoundTrip.{key_of}
use liven.Storage.Payload.{PayloadFormat, serialize_payload_into}
use liven.Storage.Payload.RoundTrip.{IsName, IsStorable}
use liven.Storage.Frame.Read.{IsWritable}
use liven.Storage.Flusher.{LogEntry, Pending, contains_key}
use liven.Storage.Flusher.Built.{IsStamped}
use liven.Storage.Flusher.Takes.{Change, change_of, changes, Takes, done, stop, take, skip}
use liven.Storage.Recovery.Views.{IsFlagged}

-- all that a batch asks for
abbrev pub asked_changes : List LogEntry → List Change
asked_changes entries = concat_map changes entries

pub Takes-All :
    (Q : Change → Type 0) {entries : List LogEntry} {cs : List Change}
    → Takes entries cs
    → All Q (asked_changes entries)
    → All Q cs
Takes-All Q done h = tt
Takes-All Q stop h = tt
Takes-All Q (take e {es} {cs} t) h =
    let parts = All-split Q (changes e) (asked_changes es) h in
    All-append Q (changes e) cs parts.0 (Takes-All Q t parts.1)
Takes-All Q (skip e {es} {cs} can t) h =
    Takes-All Q t (All-split Q (changes e) (asked_changes es) h).1

pub length-Takes :
    {entries : List LogEntry} {cs : List Change}
    → Takes entries cs
    → length cs ≤ length (asked_changes entries)
length-Takes done = omega arith
length-Takes (stop {es}) = omega arith
length-Takes (take e {es} {cs} t) = omega (
  arith,
  length-Takes t,
  length-append (changes e) cs,
  length-append (changes e) (asked_changes es),
)
length-Takes (skip e {es} {cs} can t) =
    omega (arith, length-Takes t, length-append (changes e) (asked_changes es))

map-All :
    {A : Type 0} {B : Type 0} (f : A → B) (Q : B → Type 0) (xs : List A)
    → All Q (map f xs)
    → All (λ x. Q (f x)) xs
map-All f Q [] h = tt
map-All f Q (x ∷ xs) h = (h.0, map-All f Q xs h.1)

-- A known stream with a name that fits, a key made from a text, and a value that is read back, with
-- a payload that fits.
pub record IsAccepted (format : PayloadFormat) (streams : List Bytes) (c : Change) : Type 0 where
  pub stream : contains_key c.0 streams ≡ true
  pub name : IsName c.0
  pub key : c.1 ≡ key_of (as_str c.1)
  pub key_short : length (as_str c.1) ≤ 32
  pub key_text : is_utf8 (as_str c.1) ≡ true
  pub value : IsStorable format c.2
  pub size : length (serialize_payload_into format c.0 (as_str c.1) c.2) < 2 ^ 32
  pub crc : format.crc32 (serialize_payload_into format c.0 (as_str c.1) c.2) < 2 ^ 32

-- The clock answers within the range of its type.
abbrev pub IsInRange : (ℕ → Result LivenError ℤ) → Type 0
IsInRange now = (n : ℕ) (time : ℤ) → now n ≡ ok time → IsI64 time

pub IsAccepted-IsWritable :
    (format : PayloadFormat) (streams : List Bytes) (now : ℕ → Result LivenError ℤ) (p : Pending)
    → IsInRange now
    → IsAccepted format streams (change_of p)
    → IsStamped format now p
    → p.written.sequence_id < 2 ^ 64
    → IsWritable format p.written × IsFlagged p
IsAccepted-IsWritable format streams now p range a s small = (
  record {
    seq = small;
    time = range p.written.sequence_id p.written.timestamp s.time;
    tag = s.tag;
    name = a.name;
    key = a.key;
    key_short = a.key_short;
    key_text = a.key_text;
    value = a.value;
    size = a.size;
    crc = a.crc;
  },
  s.flagged,
)

pub Takes-IsAccepted :
    (format : PayloadFormat) (streams : List Bytes) {entries : List LogEntry} (ps : List Pending)
    → Takes entries (map change_of ps)
    → All (IsAccepted format streams) (asked_changes entries)
    → All (λ p. IsAccepted format streams (change_of p)) ps
Takes-IsAccepted format streams ps t h =
    map-All change_of (IsAccepted format streams) ps (Takes-All (IsAccepted format streams) t h)
