-- ===== src/Storage/Index/Streams.antt =====
-- The table of timestamp indexes: lookups and charges after an update.
use liven.Prelude.{
  ℕ, ◌+◌, ◌≡◌, refl, Option, none, some, List, [], ◌∷◌, arith, if◌then◌else◌, Bool-cases, inl, inr,
}
use liven.Bytes.{Bytes, bytes_eq}
use liven.Bytes.Order.{bytes_eq_iff}
use liven.Types.{LogPointer}
use liven.Storage.SkipMap.{SkipMap}
use liven.Storage.SkipMap.Laws.{total, total-new}
use liven.Storage.Index.{get_stream, set_stream, stream_index, timestamp_index_node_bytes}
use liven.Storage.Index.Keys.{name_key, stamp_key, Stamp}

module _ {A : Type 0} where
  pub get_stream-set_stream :
      (s t : Bytes) (a : A) (m : List (Bytes × A))
      → get_stream t (set_stream s a m) ≡ (if bytes_eq t s then some a else get_stream t m)
  unfolding get_stream set_stream
  get_stream-set_stream s t a [] = ground (arith, bytes_eq_iff t s)
  get_stream-set_stream s t a ((u, b) ∷ m) =
      ground
        (arith, get_stream-set_stream s t a m, bytes_eq_iff t s, bytes_eq_iff s u, bytes_eq_iff t u)

module _ (P : SkipMap Bytes LogPointer name_key) (T : SkipMap Stamp LogPointer stamp_key) where
  -- what one timestamp index is charged
  abbrev pub stamps_charge : T.Carrier → ℕ
  stamps_charge t = total stamp_key T (λ _. timestamp_index_node_bytes) t

  abbrev pub streams_charge : List (Bytes × T.Carrier) → ℕ
  streams_charge [] = 0
  streams_charge ((s, t) ∷ m) = stamps_charge t + streams_charge m

  -- the charge of a stream's index, which is nothing where there is none
  abbrev pub charge_of : Option T.Carrier → ℕ
  charge_of none = 0
  charge_of (some t) = stamps_charge t

  pub stamps_charge-stream_index :
      (s : Bytes) (m : List (Bytes × T.Carrier))
      → stamps_charge (stream_index P T s m) ≡ charge_of (get_stream s m)
  unfolding stream_index
  stamps_charge-stream_index s m = go (get_stream s m)
    where
      go :
          (o : Option T.Carrier)
          → stamps_charge (elim o [ none ↦ T.new | some t ↦ t ]) ≡ charge_of o
      go none = total-new stamp_key T (λ _. timestamp_index_node_bytes)
      go (some t) = refl

  pub streams_charge-set_stream :
      (s : Bytes) (t : T.Carrier) (m : List (Bytes × T.Carrier))
      → streams_charge (set_stream s t m) + charge_of (get_stream s m)
        ≡ streams_charge m + stamps_charge t
  unfolding get_stream set_stream
  streams_charge-set_stream s t [] = omega arith
  streams_charge-set_stream s t ((u, b) ∷ m) = elim (Bool-cases (bytes_eq s u)) [
    | inl same ↦ rw (same, if◌then◌else◌) (omega arith)
    | inr other ↦ rw (other, if◌then◌else◌) (omega (arith, streams_charge-set_stream s t m))
  ]

  pub stream_index-set_stream :
      (s u : Bytes) (t : T.Carrier) (m : List (Bytes × T.Carrier))
      → stream_index P T u (set_stream s t m) ≡ (if bytes_eq u s then t else stream_index P T u m)
  unfolding stream_index
  stream_index-set_stream s u t m = elim (Bool-cases (bytes_eq u s)) [
    | inl same ↦ rw (get_stream-set_stream s u t m, same, stream_index, if◌then◌else◌)
    | inr other ↦ rw (get_stream-set_stream s u t m, other, stream_index, if◌then◌else◌)
  ]

  pub stream_index-some :
      (s : Bytes) (t : T.Carrier) (m : List (Bytes × T.Carrier))
      → get_stream s m ≡ some t
      → stream_index P T s m ≡ t
  unfolding stream_index
  stream_index-some s t m e = rw (e, stream_index)
