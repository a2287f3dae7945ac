-- ===== src/Tests/Store.antt =====
-- The theorems of the maps of a message at concrete inputs.
use fix.Base.{
  ℕ, suc, sym, ◌∙◌, ◌≡◌, refl, false, not, List, [], ◌∷◌, ◌&&◌, if◌then◌else◌, arith, is_some,
}
use fix.Base.SortedMap.{find}
use fix.Traits.{FieldTrait}
use fix.Traits.Laws.{Rising}
use fix.Traits.Flags.{get-seek}
use fix.Traits.Fields.{trait_present, has_trait, get, has}
use fix.Message.Store.{Store, have, get_field}
use fix.Message.Store.Counts.{count}
use fix.Message.Store.Laws.{IsStore}
use fix.Message.Store.Refines.{Change, run, adds, replaces, removes, view_run, run-refines}
use fix.Message.Copy.{body, ungrouped, copied, copy_legal}
use fix.Message.Copy.Laws.{copy_of, copy_legal-flat}

abbrev trait : ℕ → ℕ → FieldTrait
trait fnum bits = record { fnum = fnum; ftype = 0; pos = fnum; bits = bits }

-- A message that may have the fields 49 and 56, at their positions, and has none.
abbrev blank : Store
blank = record { fp = trait 49 4 ∷ trait 56 4 ∷ []; fields = []; positions = [] }

blank-Rising : Rising 0 blank.fp
blank-Rising = (omega arith, (omega arith, tt))

blank-present : (n : ℕ) → is_some (find n blank.fields) ≡ get n trait_present blank.fp
unfolding find has_trait
blank-present n = sym (get-seek n trait_present blank.fp blank-Rising ∙ ground arith)

blank-IsStore : IsStore blank
unfolding count
blank-IsStore = record {
  rising = blank-Rising;
  sorted = tt;
  present = blank-present;
  positioned = λ x. refl;
}

abbrev changes : List Change
changes = adds 49 7 ∷ adds 56 8 ∷ replaces 49 9 ∷ removes 56 ∷ adds 57 5 ∷ []

run-refines_example :
    IsStore (run changes blank)
    × ((j : ℕ)
        → (get_field j (run changes blank)
            ≡ view_run (λ n. has n blank.fp) changes (λ n. get_field n blank) j)
          × (have j (run changes blank) ≡ is_some (get_field j (run changes blank))))
run-refines_example = run-refines changes blank blank-IsStore

abbrev filled : Store
filled = record {
  fp = trait 49 6 ∷ trait 56 4 ∷ [];
  fields = (49, 7) ∷ [];
  positions = (49, 7) ∷ [];
}

filled-Rising : Rising 0 filled.fp
filled-Rising = (omega arith, (omega arith, tt))

filled-IsStore : IsStore filled
unfolding count find has_trait
filled-IsStore = record {
  rising = filled-Rising;
  sorted = (omega arith, tt);
  present = λ n. sym (get-seek n trait_present filled.fp filled-Rising ∙ ground arith);
  positioned = λ x. refl;
}

copy_legal-flat_example :
    (q : Store) × (n : ℕ) × (copy_legal suc
        (λ fnum. body blank ungrouped)
        false
        (body filled ungrouped)
        (body blank ungrouped)
      ≡ copied (body q ungrouped, n))
    × IsStore q
    × ((j : ℕ)
        → get_field j q ≡ (
            if have j filled && (has j blank.fp && not (have j blank))
            then copy_of suc (get_field j filled)
            else get_field j blank))
unfolding has_trait
copy_legal-flat_example =
    copy_legal-flat suc (λ fnum. body blank ungrouped) filled blank ungrouped ungrouped
      filled-IsStore blank-IsStore (refl, (refl, tt))
