-- ===== src/Executor/Stages/Distinct.antt =====
-- The `distinct` stage: one record for each text of the field.
use mathlib.Core.Path.{subst}
use liven.Prelude.{
  ℕ, ◌≡◌, ◌⊎◌, refl, sym, true, false, not, and_false, Bool-cases, inl, inr, List, [], ◌∷◌, arith,
  All, map, if◌then◌else◌,
}
use liven.Bytes.{Bytes, bytes_eq}
use liven.Bytes.Order.{bytes_eq_refl}
use liven.Types.{Record}
use liven.Executor.Filter.{FilterLibrary}
use liven.Executor.Stages.Text.{TextLibrary, distinct_text}
use liven.Executor.Json.{JsonLibrary}
use liven.Executor.Vector.{FloatLibrary}
use liven.Executor.Stages.{is_new, distinct_by, distinct, field_or_null}

module _ (text : Record → Bytes) where
  -- the texts of the records differ
  abbrev pub Unlike : List Record → Type 0
  Unlike [] = Unit
  Unlike (r ∷ records) = All (λ s. bytes_eq (text s) (text r) ≡ false) records × Unlike records

  -- a text that was seen before, or that a record has
  abbrev pub Known : List Bytes → List Record → Bytes → Type 0
  Known seen records t = (is_new t seen ≡ false) ⊎ (is_new t (map text records) ≡ false)

  All-weaken :
      (t : Bytes) (seen : List Bytes) (records : List Record)
      → All (λ s. is_new (text s) (t ∷ seen) ≡ true) records
      → All (λ s. is_new (text s) seen ≡ true) records
        × All (λ s. bytes_eq (text s) t ≡ false) records
  unfolding is_new
  All-weaken t seen [] h = (tt, tt)
  All-weaken t seen (s ∷ records) h =
      let rest = All-weaken t seen records h.1 in
      ((ground (arith, h.0), rest.0), (ground (arith, h.0), rest.1))

  distinct_by-unseen :
      (seen : List Bytes) (records : List Record)
      → All (λ s. is_new (text s) seen ≡ true) (distinct_by text seen records)
  unfolding distinct_by
  distinct_by-unseen seen [] = tt
  distinct_by-unseen seen (r ∷ records) = elim (Bool-cases (is_new (text r) seen)) [
    | inl new ↦
        rw (new, if◌then◌else◌)
          (
            new,
            (All-weaken (text r) seen (distinct_by text (text r ∷ seen) records)
                (distinct_by-unseen (text r ∷ seen) records)).0,
          )
    | inr old ↦ rw (old, if◌then◌else◌) (distinct_by-unseen seen records)
  ]

  distinct_by-Unlike :
      (seen : List Bytes) (records : List Record) → Unlike (distinct_by text seen records)
  unfolding distinct_by
  distinct_by-Unlike seen [] = tt
  distinct_by-Unlike seen (r ∷ records) = elim (Bool-cases (is_new (text r) seen)) [
    | inl new ↦
        rw (new, if◌then◌else◌)
          (
            (All-weaken (text r) seen (distinct_by text (text r ∷ seen) records)
                (distinct_by-unseen (text r ∷ seen) records)).1,
            distinct_by-Unlike (text r ∷ seen) records,
          )
    | inr old ↦ rw (old, if◌then◌else◌) (distinct_by-Unlike seen records)
  ]

  Known-cons :
      (r : Record) (t : Bytes) (seen : List Bytes) (out : List Record)
      → Known (text r ∷ seen) out t
      → Known seen (r ∷ out) t
  unfolding is_new
  Known-cons r t seen out (inl h) = elim (Bool-cases (bytes_eq t (text r))) [
    | inl same ↦ inr (rw (same) refl)
    | inr other ↦ inl (ground (arith, h, other))
  ]
  Known-cons r t seen out (inr h) = inr (rw (h) (and_false (not (bytes_eq t (text r)))))

  All-Known-cons :
      (r : Record) (seen : List Bytes) (out records : List Record)
      → All (λ s. Known (text r ∷ seen) out (text s)) records
      → All (λ s. Known seen (r ∷ out) (text s)) records
  All-Known-cons r seen out [] h = tt
  All-Known-cons r seen out (s ∷ records) h =
      (Known-cons r (text s) seen out h.0, All-Known-cons r seen out records h.1)

  distinct_by-new :
      (seen : List Bytes) (r : Record) (records : List Record)
      → is_new (text r) seen ≡ true
      → distinct_by text seen (r ∷ records) ≡ r ∷ distinct_by text (text r ∷ seen) records
  unfolding distinct_by
  distinct_by-new seen r records new = rw (new, if◌then◌else◌) refl

  distinct_by-old :
      (seen : List Bytes) (r : Record) (records : List Record)
      → is_new (text r) seen ≡ false
      → distinct_by text seen (r ∷ records) ≡ distinct_by text seen records
  unfolding distinct_by
  distinct_by-old seen r records old = rw (old, if◌then◌else◌) refl

  distinct_by-Known :
      (seen : List Bytes) (records : List Record)
      → All (λ s. Known seen (distinct_by text seen records) (text s)) records
  unfolding is_new
  distinct_by-Known seen [] = tt
  distinct_by-Known seen (r ∷ records) = elim (Bool-cases (is_new (text r) seen)) [
    | inl new ↦
        subst (λ out. All (λ s. Known seen out (text s)) (r ∷ records))
          (sym (distinct_by-new seen r records new))
          (
            inr (rw (bytes_eq_refl (text r)) refl),
            All-Known-cons r seen (distinct_by text (text r ∷ seen) records) records
                (distinct_by-Known (text r ∷ seen) records),
          )
    | inr old ↦
        subst (λ out. All (λ s. Known seen out (text s)) (r ∷ records))
          (sym (distinct_by-old seen r records old)) (inl old, distinct_by-Known seen records)
  ]

module _ (lib : FilterLibrary) (F : FloatLibrary) (J : JsonLibrary) (texts : TextLibrary)
    (f64_max f64_min : ℕ) where
  field_text : Bytes → Record → Bytes
  field_text name r = distinct_text texts (field_or_null lib F J texts f64_max f64_min name r)

  -- one record for each text of the field among the records
  pub record IsDistinct (name : Bytes) (records out : List Record) : Type 0 where
    unlike : Unlike (field_text name) out
    covered : All (λ r. is_new (field_text name r) (map (field_text name) out) ≡ false) records

  -- The records that `distinct` leaves have different texts in the field, and the text of each of
  -- the records it is given is that of one it leaves.
  pub distinct-IsDistinct :
      (name : Bytes) (records : List Record)
      → IsDistinct name records (distinct lib F J texts f64_max f64_min name records)
  unfolding distinct is_new field_text bytes_eq
  distinct-IsDistinct name records = record {
    unlike = distinct_by-Unlike (field_text name) [] records;
    covered =
        settle records (distinct_by (field_text name) [] records)
          (distinct_by-Known (field_text name) [] records);
  }
    where
      settle :
          (rs out : List Record)
          → All (λ s. Known (field_text name) [] out (field_text name s)) rs
          → All (λ s. is_new (field_text name s) (map (field_text name) out) ≡ false) rs
      settle [] out h = tt
      settle (r ∷ rs) out (inl h, rest) = absurd (ground (arith, h))
      settle (r ∷ rs) out (inr h, rest) = (h, settle rs out rest)
