-- ===== src/Message/Store/Refines.antt =====
-- The maps of a message as one map from the numbers of its fields: a sequence of changes against the
-- same changes of such a map.
use fix.Base.{
  ℕ, ◌≡◌, refl, ap, sym, ◌∙◌, Bool, true, false, List, Option, none, some, [], ◌∷◌, ◌==◌, ◌&&◌,
  if◌then◌else◌, arith, is_some, Bool-cases, Option-cases, inl, inr, ℕ_discrete,
}
use fix.Base.SortedMap.{find, find-insert, find-assign}
use fix.Traits.Fields.{trait_present, has, get, get_pos}
use fix.Traits.Flags.{has-set}
use fix.Message.Store.{Store, replace, remove, add_field_at, add_what, have, get_field}
use fix.Message.Store.Counts.{find-erase_field}
use fix.Message.Store.Laws.{IsStore, replace-IsStore, remove-IsStore, add_field_at-IsStore}

-- What a client does to a message. `InvalidField` leaves it as it was.
pub data Change : Type 0 where
  adds : ℕ → ℕ → Change
  replaces : ℕ → ℕ → Change
  removes : ℕ → Change

unfoldable pub change : Change → Store → Store
unfolding add_what replace remove
change (adds fnum what) s = elim (add_what fnum what s) [ none ↦ s | some q ↦ q ]
change (replaces fnum what) s = (replace fnum what s).0
change (removes fnum) s = (remove fnum s).0

unfoldable pub run : List Change → Store → Store
unfolding change
run [] s = s
run (c ∷ cs) s = run cs (change c s)

-- The same on a map from numbers to fields, where some numbers are legal.
abbrev pub view_change : (ℕ → Bool) → Change → (ℕ → Option ℕ) → ℕ → Option ℕ
view_change legal (adds fnum what) view j = if j == fnum && legal fnum then some what else view j
view_change legal (replaces fnum what) view j =
    if j == fnum && is_some (view fnum) then some what else view j
view_change legal (removes fnum) view j = if j == fnum then none else view j

abbrev pub view_run : (ℕ → Bool) → List Change → (ℕ → Option ℕ) → ℕ → Option ℕ
view_run legal [] view = view
view_run legal (c ∷ cs) view = view_run legal cs (view_change legal c view)

change-IsStore : (c : Change) (s : Store) → IsStore s → IsStore (change c s)
unfolding change
change-IsStore (adds fnum what) s h = elim (Bool-cases (has fnum s.fp)) [
  | inl c ↦ rw (change, add_what, c) (add_field_at-IsStore fnum (get_pos fnum s.fp) what s c h)
  | inr c ↦ rw (change, add_what, c) h
]
change-IsStore (replaces fnum what) s h = replace-IsStore fnum what s h
change-IsStore (removes fnum) s h = remove-IsStore fnum s h

replace-view :
    (fnum what : ℕ) (s : Store)
    → IsStore s
    → (j : ℕ)
    → let q = (replace fnum what s).0 in
      (find j q.fields
        ≡ (if j == fnum && is_some (find fnum s.fields) then some what else find j s.fields))
      × (has j q.fp ≡ has j s.fp)
unfolding replace
replace-view fnum what s h j = elim (Option-cases (find fnum s.fields)) [
  | inl n ↦ rw (replace, n) (ground arith, refl)
  | inr (old, n) ↦
      rw (replace, n)
        (
          ground (arith, n, find-assign fnum j what s.fields),
          (has-set j fnum trait_present s.fp h.rising).0,
        )
]

find-gone :
    (fnum j : ℕ) (fs : List (ℕ × ℕ))
    → find fnum fs ≡ none
    → find j fs ≡ (if j == fnum then none else find j fs)
find-gone fnum j fs n = elim (ℕ_discrete j fnum) [
  | yes same ↦ ground (arith, same, ap (λ k. find k fs) same ∙ n)
  | no ne ↦ ground (arith, ne)
]

remove-view :
    (fnum : ℕ) (s : Store)
    → IsStore s
    → (j : ℕ)
    → let q = (remove fnum s).0 in
      (find j q.fields ≡ (if j == fnum then none else find j s.fields)) × (has j q.fp ≡ has j s.fp)
unfolding remove
remove-view fnum s h j = elim (Option-cases (find fnum s.fields)) [
  | inl n ↦ rw (remove, n) (find-gone fnum j s.fields n, refl)
  | inr (old, n) ↦
      rw (remove, n)
        (
          find-erase_field j fnum 0 s.fields h.sorted,
          (has-set j fnum trait_present s.fp h.rising).1,
        )
]

pub add_field_at-view :
    (fnum pos what : ℕ) (s : Store)
    → IsStore s
    → (j : ℕ)
    → let q = add_field_at fnum pos what true s in
      (find j q.fields ≡ (if j == fnum then some what else find j s.fields))
      × (has j q.fp ≡ has j s.fp)
unfolding add_field_at
add_field_at-view fnum pos what s h j = elim (Bool-cases (get fnum trait_present s.fp)) [
  | inl c ↦
      let there : is_some (find fnum s.fields) ≡ true = h.present fnum ∙ c in
      let (view, same) = replace-view fnum what s h j in
      rw (add_field_at, c) (ground (arith, view, there), same)
  | inr c ↦
      let gone : is_some (find fnum s.fields) ≡ false = h.present fnum ∙ c in
      rw (add_field_at, c)
        (
          ground (arith, gone, find-insert fnum j what 0 s.fields h.sorted),
          (has-set j fnum trait_present s.fp h.rising).0,
        )
]

-- One change, at one number.
change-view :
    (c : Change) (s : Store) (legal : ℕ → Bool)
    → IsStore s
    → ((n : ℕ) → has n s.fp ≡ legal n)
    → (j : ℕ)
    → (get_field j (change c s) ≡ view_change legal c (λ n. get_field n s) j)
      × (has j (change c s).fp ≡ has j s.fp)
unfolding change get_field
change-view (adds fnum what) s legal h legal_is j = elim (Bool-cases (has fnum s.fp)) [
  | inl c ↦
      let (view, same) = add_field_at-view fnum (get_pos fnum s.fp) what s h j in
      rw (change, add_what, c) (ground (arith, view, c, legal_is fnum), same)
  | inr c ↦ rw (change, add_what, c) (ground (arith, c, legal_is fnum), refl)
]
change-view (replaces fnum what) s legal h legal_is j = replace-view fnum what s h j
change-view (removes fnum) s legal h legal_is j = remove-view fnum s h j

view_change-same :
    (c : Change) (legal : ℕ → Bool) (u v : ℕ → Option ℕ)
    → ((n : ℕ) → u n ≡ v n)
    → (j : ℕ) → view_change legal c u j ≡ view_change legal c v j
view_change-same (adds fnum what) legal u v same j = ground (arith, same j)
view_change-same (replaces fnum what) legal u v same j = ground (arith, same j, same fnum)
view_change-same (removes fnum) legal u v same j = ground (arith, same j)

view_run-same :
    (cs : List Change) (legal : ℕ → Bool) (u v : ℕ → Option ℕ)
    → ((n : ℕ) → u n ≡ v n)
    → (j : ℕ) → view_run legal cs u j ≡ view_run legal cs v j
view_run-same [] legal u v same j = same j
view_run-same (c ∷ cs) legal u v same j =
    view_run-same cs legal (view_change legal c u) (view_change legal c v)
      (view_change-same c legal u v same) j

run-view :
    (cs : List Change) (s : Store) (legal : ℕ → Bool)
    → IsStore s
    → ((n : ℕ) → has n s.fp ≡ legal n)
    → (j : ℕ) → get_field j (run cs s) ≡ view_run legal cs (λ n. get_field n s) j
unfolding run
run-view [] s legal h legal_is j = refl
run-view (c ∷ cs) s legal h legal_is j =
    run-view cs (change c s) legal (change-IsStore c s h)
      (λ n. (change-view c s legal h legal_is n).1 ∙ legal_is n) j
    ∙ view_run-same cs legal (λ n. get_field n (change c s))
        (view_change legal c (λ n. get_field n s)) (λ n. (change-view c s legal h legal_is n).0) j

run-IsStore : (cs : List Change) (s : Store) → IsStore s → IsStore (run cs s)
unfolding run
run-IsStore [] s h = h
run-IsStore (c ∷ cs) s h = run-IsStore cs (change c s) (change-IsStore c s h)

-- Any additions, replacements and removals of fields leave the maps of a message in agreement: the
-- traits and the fields in order, a field in the map exactly where it is marked present, and every
-- field in `_pos` as often as in `_fields`. And they do to the message what they do to one map from
-- numbers to fields, where an addition puts a field at a legal number, over the one that was there,
-- a replacement only over one that was, and a removal takes it away; `have` says what is there.
pub run-refines :
    (cs : List Change) (s : Store)
    → IsStore s
    → IsStore (run cs s)
      × ((j : ℕ)
          → (get_field j (run cs s) ≡ view_run (λ n. has n s.fp) cs (λ n. get_field n s) j)
            × (have j (run cs s) ≡ is_some (get_field j (run cs s))))
unfolding have get_field
run-refines cs s h =
    let after = run-IsStore cs s h in
    (after, λ j. (run-view cs s (λ n. has n s.fp) h (λ n. refl) j, sym (after.present j)))
