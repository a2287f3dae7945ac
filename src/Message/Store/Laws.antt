-- ===== src/Message/Store/Laws.antt =====
-- The maps of a message agree with the traits and with each other, whatever is added, replaced and
-- removed.
use fix.Base.{ℕ, ◌≡◌, true, List, none, arith, is_some, Bool-cases, Option-cases, inl, inr}
use fix.Base.SortedMap.{find, IsSorted, insert-From, assign-From, find-insert, find-assign}
use fix.Traits.{FieldTrait}
use fix.Traits.Laws.{Rising}
use fix.Traits.Fields.{trait_present, find_trait, has, get, get_pos}
use fix.Traits.Flags.{get-set, set-Rising, clear-Rising}
use fix.Message.Store.{Store, erase_position, position_of, replace, remove, add_field_at}
use fix.Message.Store.Counts.{
  count, count-add_position, count-erase_position, count-insert, count-assign, count-erase_field,
  count-find, erase_field-From, find-erase_field,
}

-- The traits rise, the map of fields is in the order of its keys and has exactly the fields that are
-- present, and each field stands in `_pos` as often as in `_fields`.
pub record IsStore (s : Store) : Type 0 where
  pub rising : Rising 0 s.fp
  pub sorted : IsSorted s.fields
  pub present : (fnum : ℕ) → is_some (find fnum s.fields) ≡ get fnum trait_present s.fp
  pub positioned : (x : ℕ) → count x s.positions ≡ count x s.fields

has-get : (fnum : ℕ) (fp : List FieldTrait) → get fnum trait_present fp ≡ true → has fnum fp ≡ true
unfolding get
has-get fnum fp e = elim (Option-cases (find_trait fnum fp)) [
  | inl n ↦ absurd (ground (arith, n, e))
  | inr (t, n) ↦ ground (arith, n)
]

pub replace-IsStore : (fnum what : ℕ) (s : Store) → IsStore s → IsStore (replace fnum what s).0
unfolding replace
replace-IsStore fnum what s h = elim (Option-cases (find fnum s.fields)) [
  | inl n ↦ rw (replace, n) h
  | inr (old, n) ↦
      rw (replace, n)
        (record {
          rising = set-Rising fnum trait_present s.fp h.rising;
          sorted = assign-From fnum what 0 s.fields h.sorted;
          present = λ j.
              let (put, gone, up, down) =
                get-set j trait_present fnum trait_present s.fp h.rising in
              let there = has-get fnum s.fp (ground (arith, h.present fnum, n)) in
              ground (arith, put, there, n, h.present j, find-assign fnum j what s.fields);
          positioned = λ x.
              let pos = position_of (get_pos fnum s.fp) old s.positions in
              let enough = count-find fnum old s.fields n in
              omega (
                arith,
                count-add_position x pos what (erase_position old s.positions),
                count-erase_position x old s.positions (omega (arith, enough, h.positioned old)),
                count-assign x fnum old what s.fields n,
                h.positioned x,
              );
        })
]

pub remove-IsStore : (fnum : ℕ) (s : Store) → IsStore s → IsStore (remove fnum s).0
unfolding remove
remove-IsStore fnum s h = elim (Option-cases (find fnum s.fields)) [
  | inl n ↦ rw (remove, n) h
  | inr (old, n) ↦
      rw (remove, n)
        (record {
          rising = clear-Rising fnum trait_present s.fp h.rising;
          sorted = erase_field-From fnum 0 s.fields h.sorted;
          present = λ j.
              let (put, gone, up, down) =
                get-set j trait_present fnum trait_present s.fp h.rising in
              ground (arith, gone, h.present j, find-erase_field j fnum 0 s.fields h.sorted);
          positioned = λ x.
              let enough = count-find fnum old s.fields n in
              omega (
                arith,
                count-erase_position x old s.positions (omega (arith, enough, h.positioned old)),
                count-erase_field x fnum old s.fields n,
                h.positioned x,
              );
        })
]

pub add_field_at-IsStore :
    (fnum pos what : ℕ) (s : Store)
    → has fnum s.fp ≡ true
    → IsStore s
    → IsStore (add_field_at fnum pos what true s)
unfolding add_field_at
add_field_at-IsStore fnum pos what s legal h = elim (Bool-cases (get fnum trait_present s.fp)) [
  | inl c ↦ rw (add_field_at, c) (replace-IsStore fnum what s h)
  | inr c ↦
      let n : find fnum s.fields ≡ none = ground (arith, h.present fnum, c) in
      rw (add_field_at, c)
        (record {
          rising = set-Rising fnum trait_present s.fp h.rising;
          sorted = insert-From fnum what 0 s.fields (omega arith) h.sorted;
          present = λ j.
              let (put, gone, up, down) =
                get-set j trait_present fnum trait_present s.fp h.rising in
              ground
                (arith, put, legal, n, h.present j, find-insert fnum j what 0 s.fields h.sorted);
          positioned = λ x. omega (
            arith,
            count-add_position x pos what s.positions,
            count-insert x fnum what s.fields n,
            h.positioned x,
          );
        })
]
