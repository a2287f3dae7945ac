-- ===== src/Traits/Missing.antt =====
-- What `FieldTraits::find_missing` of include/fix8/traits.hpp finds.
use fix.Base.{
  ℕ, suc, ◌≤◌, ◌≡◌, refl, ◌∙◌, true, false, List, [], ◌∷◌, arith, Bool-cases, ◌↔◌, ◌≢◌, inl, inr,
  All,
}
use fix.Traits.{FieldTrait}
use fix.Traits.Laws.{Rising}
use fix.Traits.Fields.{trait_present, has_trait, get, find_missing}
use fix.Traits.Flags.{Rising-weaken, seek, reads, get-seek}

-- A field with the trait `type` is present.
abbrev pub Meets : ℕ → FieldTrait → Type 0
Meets type t = has_trait type t ≡ true → has_trait trait_present t ≡ true

find_missing-All :
    (type lo : ℕ) (fp : List FieldTrait)
    → Rising (suc lo) fp
    → find_missing type fp ≡ 0
    → All (Meets type) fp
unfolding find_missing
find_missing-All type lo [] r e = tt
find_missing-All type lo (t ∷ fp) r e = elim (Bool-cases (has_trait type t)) [
  | inl c ↦ elim (Bool-cases (has_trait trait_present t)) [
    | inl d ↦ (λ h. d, find_missing-All type t.fnum fp r.1 (ground (arith, c, d, e)))
    | inr d ↦ absurd (ground (arith, c, d, e, r.0))
  ]
  | inr c ↦ (
    λ h. absurd (ground (arith, c, h)),
    find_missing-All type t.fnum fp r.1 (ground (arith, c, e)),
  )
]

All-find_missing :
    (type : ℕ) (fp : List FieldTrait) → All (Meets type) fp → find_missing type fp ≡ 0
unfolding find_missing
All-find_missing type [] a = refl
All-find_missing type (t ∷ fp) a = elim (Bool-cases (has_trait type t)) [
  | inl c ↦ ground (arith, c, a.0 c, All-find_missing type fp a.1)
  | inr c ↦ ground (arith, c, All-find_missing type fp a.1)
]

find_missing-seek :
    (type lo : ℕ) (fp : List FieldTrait)
    → Rising lo fp
    → find_missing type fp ≢ 0
    → (lo ≤ find_missing type fp)
      × (reads type (seek (find_missing type fp) fp) ≡ true)
      × (reads trait_present (seek (find_missing type fp) fp) ≡ false)
unfolding find_missing
find_missing-seek type lo [] r ne = absurd (ne refl)
find_missing-seek type lo (t ∷ fp) r ne = elim (Bool-cases (has_trait type t)) [
  | inl c ↦ elim (Bool-cases (has_trait trait_present t)) [
    | inl d ↦
        let (le, one, two) =
          find_missing-seek type (suc t.fnum) fp r.1 (ground (arith, c, d, ne)) in
        ground (arith, c, d, le, one, two, r.0)
    | inr d ↦ ground (arith, c, d, r.0)
  ]
  | inr c ↦
      let (le, one, two) = find_missing-seek type (suc t.fnum) fp r.1 (ground (arith, c, ne)) in
      ground (arith, c, le, one, two, r.0)
]

-- In a set of traits in rising order, with numbers from 1 on, `find_missing` returns 0 exactly if
-- every field with the trait is present; any other number that it returns is that of a field of the
-- set that has the trait and is not present.
pub find_missing_iff :
    (type : ℕ) (fp : List FieldTrait)
    → Rising 1 fp
    → ((find_missing type fp ≡ 0) ↔ All (Meets type) fp)
      × (find_missing type fp ≢ 0
          → (get (find_missing type fp) type fp ≡ true)
            × (get (find_missing type fp) trait_present fp ≡ false))
find_missing_iff type fp r =
    let from_zero = Rising-weaken 0 1 fp (omega arith) r in
    (
      (find_missing-All type 0 fp r, All-find_missing type fp),
      λ ne.
          let (le, one, two) = find_missing-seek type 1 fp r ne in
          (
            get-seek (find_missing type fp) type fp from_zero ∙ one,
            get-seek (find_missing type fp) trait_present fp from_zero ∙ two,
          ),
    )
