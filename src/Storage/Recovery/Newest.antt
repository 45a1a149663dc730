-- ===== src/Storage/Recovery/Newest.antt =====
-- The frame with the highest sequence id, whatever the order in which frames are merged.
use mathlib.Core.Path.{subst}
use liven.Prelude.{
  ℕ, ◌≤◌, ◌≡◌, ◌⊎◌, refl, true, false, Bool-cases, inl, inr, Option, none, some, List, [], ◌∷◌,
  arith, All, Any, if◌then◌else◌,
}
use liven.Bytes.{Bytes, bytes_eq}
use liven.Types.{Record}
use liven.Storage.Index.{record_key}
use liven.Storage.Flusher.{Pending}
use liven.Storage.Recovery.Views.{View, seq_of, outranks, entry_of, merge, merge_all}

module _ (k : Bytes) where
  abbrev pub HasKey : Pending → Type 0
  HasKey p = bytes_eq k (record_key p.written) ≡ true

  -- no frame of the key, or the entry of one whose sequence id is the highest
  abbrev pub IsNewest : List Pending → Option (ℕ × Option Record) → Type 0
  IsNewest ps none = All (λ p. bytes_eq k (record_key p.written) ≡ false) ps
  IsNewest ps (some e) =
      All (λ p. HasKey p → p.written.sequence_id ≤ e.0) ps
      × Any (λ p. HasKey p × (entry_of p ≡ e)) ps

  abbrev pub IsBelow : ℕ → Option (ℕ × Option Record) → Type 0
  IsBelow n none = Unit
  IsBelow n (some e) = e.0 ≤ n

  -- the same from a first entry on
  abbrev pub Grows : Option (ℕ × Option Record) → List Pending → Option (ℕ × Option Record) → Type 0
  Grows first ps none = (first ≡ none) × IsNewest ps none
  Grows first ps (some e) =
      IsBelow e.0 first
      × All (λ p. HasKey p → p.written.sequence_id ≤ e.0) ps
      × ((first ≡ some e) ⊎ Any (λ p. HasKey p × (entry_of p ≡ e)) ps)

  merge-entry :
      (p : Pending) (v : View)
      → HasKey p
      → outranks p.written.sequence_id (seq_of (v k)) ≡ true
      → merge p v k ≡ some (entry_of p)
  unfolding merge
  merge-entry p v same wins = rw (same, wins, if◌then◌else◌) refl

  merge-kept :
      (p : Pending) (v : View)
      → (HasKey p → outranks p.written.sequence_id (seq_of (v k)) ≡ false)
      → merge p v k ≡ v k
  unfolding merge
  merge-kept p v loses = elim (Bool-cases (bytes_eq k (record_key p.written))) [
    | inl same ↦ rw (same, loses same, if◌then◌else◌) refl
    | inr other ↦ rw (other, if◌then◌else◌) refl
  ]

  -- a frame that takes the place of the first entry
  newer :
      (p : Pending) (first : Option (ℕ × Option Record)) (ps : List Pending)
      (o : Option (ℕ × Option Record))
      → HasKey p
      → outranks p.written.sequence_id (seq_of first) ≡ true
      → Grows (some (entry_of p)) ps o
      → Grows first (p ∷ ps) o
  newer p first ps none same wins h = absurd (ground (arith, h.0))
  newer p none ps (some e) same wins (b, a, m) = (
    tt,
    ((λ _. b), a),
    inr (elim m [ inl here ↦ inl (same, ground (arith, here)) | inr there ↦ inr there ]),
  )
  newer p (some f) ps (some e) same wins (b, a, m) = (
    ground (arith, wins, b),
    ((λ _. b), a),
    inr (elim m [ inl here ↦ inl (same, ground (arith, here)) | inr there ↦ inr there ]),
  )

  -- one that does not
  older :
      (p : Pending) (first : Option (ℕ × Option Record)) (ps : List Pending)
      (o : Option (ℕ × Option Record))
      → (HasKey p → outranks p.written.sequence_id (seq_of first) ≡ false)
      → Grows first ps o
      → Grows first (p ∷ ps) o
  older p none ps none loses h = (refl, (go (Bool-cases (bytes_eq k (record_key p.written))), h.1))
    where
      go :
          (bytes_eq k (record_key p.written) ≡ true) ⊎ (bytes_eq k (record_key p.written) ≡ false)
          → bytes_eq k (record_key p.written) ≡ false
      go (inl same) = absurd (ground (arith, loses same))
      go (inr other) = other
  older p (some f) ps none loses h = absurd (ground (arith, h.0))
  older p none ps (some e) loses (b, a, m) = (
    b,
    ((λ same. absurd (ground (arith, loses same))), a),
    elim m [ inl x ↦ inl x | inr y ↦ inr (inr y) ],
  )
  older p (some f) ps (some e) loses (b, a, m) = (
    b,
    ((λ same. ground (arith, loses same, b)), a),
    elim m [ inl x ↦ inl x | inr y ↦ inr (inr y) ],
  )

  Grows-merge :
      (p : Pending) (v : View) (ps : List Pending) (o : Option (ℕ × Option Record))
      → Grows (merge p v k) ps o
      → Grows (v k) (p ∷ ps) o
  Grows-merge p v ps o h = elim (Bool-cases (bytes_eq k (record_key p.written))) [
    | inl same ↦ elim (Bool-cases (outranks p.written.sequence_id (seq_of (v k)))) [
      | inl wins ↦
          newer p (v k) ps o same wins (subst (λ x. Grows x ps o) (merge-entry p v same wins) h)
      | inr loses ↦
          older p (v k) ps o (λ _. loses)
            (subst (λ x. Grows x ps o) (merge-kept p v (λ _. loses)) h)
    ]
    | inr other ↦
        older p (v k) ps o (λ same. absurd (ground (arith, same, other)))
          (subst (λ x. Grows x ps o) (merge-kept p v (λ same. absurd (ground (arith, same, other))))
            h)
  ]

  pub merge_all-Grows : (ps : List Pending) (v : View) → Grows (v k) ps (merge_all ps v k)
  unfolding merge_all
  merge_all-Grows [] v = go (v k)
    where
      go : (o : Option (ℕ × Option Record)) → Grows o [] o
      go none = (refl, tt)
      go (some e) = (omega arith, tt, inl refl)
  merge_all-Grows (p ∷ ps) v =
      Grows-merge p v ps (merge_all ps (merge p v) k) (merge_all-Grows ps (merge p v))

  -- Frames merged into the empty view leave the newest of each key.
  pub merge_all-IsNewest : (ps : List Pending) → IsNewest ps (merge_all ps (λ j. none) k)
  merge_all-IsNewest ps = settle (merge_all ps (λ j. none) k) (merge_all-Grows ps (λ j. none))
    where
      settle : (o : Option (ℕ × Option Record)) → Grows none ps o → IsNewest ps o
      settle none h = h.1
      settle (some e) (b, a, inl first) = absurd (ground (arith, first))
      settle (some e) (b, a, inr one) = (a, one)
