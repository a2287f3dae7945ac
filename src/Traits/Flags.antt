-- ===== src/Traits/Flags.antt =====
-- The traits of the fields of a message: what `get` reads after `set` and `clear`.
use fix.Base.{
  ℕ, suc, ◌≤◌, ◌≡◌, ◌≢◌, refl, ap, sym, ◌∙◌, Bool, true, false, List, Option, none, some, [], ◌∷◌,
  ◌==◌, ◌&&◌, if◌then◌else◌, get_elem?, arith, Option-cases, inl, inr, is_some,
}
use fix.Traits.{FieldTrait}
use fix.Traits.Laws.{Rising, index_of, find_hashed-index_of}
use fix.Traits.Bits.{has_bit-set_bit, has_bit-clear_bit}
use fix.Traits.Fields.{
  has_trait, find_trait, has, get, change_at, with_bit, without_bit, set, clear,
}

pub Rising-weaken : (lo hi : ℕ) (ts : List FieldTrait) → lo ≤ hi → Rising hi ts → Rising lo ts
Rising-weaken lo hi [] h r = tt
Rising-weaken lo hi (t ∷ ts) h r = (omega (arith, r.0), r.1)

-- A search from the front, and a change of what it finds.
abbrev pub seek : ℕ → List FieldTrait → Option FieldTrait
seek key [] = none
seek key (t ∷ ts) = let rest = seek key ts in if t.fnum == key then some t else rest

abbrev modify : (FieldTrait → FieldTrait) → ℕ → List FieldTrait → List FieldTrait
modify change key [] = []
modify change key (t ∷ ts) =
    let rest = modify change key ts in if t.fnum == key then change t ∷ ts else t ∷ rest

find-index_of :
    (key : ℕ) (ts : List FieldTrait)
    → (elim (index_of key ts) [ none ↦ none | some i ↦ get_elem? ts i ]) ≡ seek key ts
find-index_of key [] = refl
find-index_of key (t ∷ ts) = elim (Option-cases (index_of key ts)) [
  | inl n ↦ ground (arith, n, find-index_of key ts)
  | inr (i, n) ↦ ground (arith, n, find-index_of key ts)
]

change-index_of :
    (change : FieldTrait → FieldTrait) (key : ℕ) (ts : List FieldTrait)
    → (elim (index_of key ts) [ none ↦ ts | some i ↦ change_at change i ts ]) ≡ modify change key ts
unfolding change_at
change-index_of change key [] = refl
change-index_of change key (t ∷ ts) = elim (Option-cases (index_of key ts)) [
  | inl n ↦ ground (arith, n, change-index_of change key ts)
  | inr (i, n) ↦ ground (arith, n, change-index_of change key ts)
]

pub find_trait-seek :
    (key : ℕ) (ts : List FieldTrait) → Rising 0 ts → find_trait key ts ≡ seek key ts
find_trait-seek key ts r = rw (find_trait, find_hashed-index_of key ts r) (find-index_of key ts)

set-modify :
    (key type : ℕ) (ts : List FieldTrait)
    → Rising 0 ts
    → set key type ts ≡ modify (with_bit type) key ts
unfolding set
set-modify key type ts r =
    rw (set, find_hashed-index_of key ts r) (change-index_of (with_bit type) key ts)

clear-modify :
    (key type : ℕ) (ts : List FieldTrait)
    → Rising 0 ts
    → clear key type ts ≡ modify (without_bit type) key ts
unfolding clear
clear-modify key type ts r =
    rw (clear, find_hashed-index_of key ts r) (change-index_of (without_bit type) key ts)

module _ (change : FieldTrait → FieldTrait)
    (keeps : (t : FieldTrait) → (change t).fnum ≡ t.fnum) where
  modify-Rising :
      (key lo : ℕ) (ts : List FieldTrait) → Rising lo ts → Rising lo (modify change key ts)
  modify-Rising key lo [] r = tt
  modify-Rising key lo (t ∷ ts) r = ground (arith, keeps t, modify-Rising key (suc t.fnum) ts r.1)

  seek-modify :
      (j key : ℕ) (ts : List FieldTrait)
      → seek j (modify change key ts) ≡ (
          if j == key
          then (elim (seek j ts) [ none ↦ none | some t ↦ some (change t) ])
          else seek j ts)
  seek-modify j key [] = ground arith
  seek-modify j key (t ∷ ts) = ground (arith, keeps t, seek-modify j key ts)

pub has_trait-with_bit :
    (type u : ℕ) (t : FieldTrait)
    → has_trait type (with_bit u t) ≡ (if type == u then true else has_trait type t)
unfolding has_trait
has_trait-with_bit type u t = has_bit-set_bit type u t.bits

has_trait-without_bit :
    (type u : ℕ) (t : FieldTrait)
    → has_trait type (without_bit u t) ≡ (if type == u then false else has_trait type t)
unfolding has_trait
has_trait-without_bit type u t = has_bit-clear_bit type u t.bits

abbrev pub reads : ℕ → Option FieldTrait → Bool
reads type none = false
reads type (some t) = has_trait type t

pub get-seek :
    (j type : ℕ) (fp : List FieldTrait) → Rising 0 fp → get j type fp ≡ reads type (seek j fp)
unfolding get
get-seek j type fp r = ap (reads type) (find_trait-seek j fp r)

reads-set :
    (j type key u : ℕ) (fp : List FieldTrait)
    → reads type (seek j (modify (with_bit u) key fp))
      ≡ (if j == key && type == u then is_some (seek key fp) else reads type (seek j fp))
reads-set j type key u fp =
    ap (reads type) (seek-modify (with_bit u) (λ t. refl) j key fp)
    ∙ (elim (Option-cases (seek j fp)) [
      | inl n ↦ ground (arith, n)
      | inr (t, n) ↦ ground (arith, n, has_trait-with_bit type u t)
    ])

reads-clear :
    (j type key u : ℕ) (fp : List FieldTrait)
    → reads type (seek j (modify (without_bit u) key fp))
      ≡ (if j == key && type == u then false else reads type (seek j fp))
reads-clear j type key u fp =
    ap (reads type) (seek-modify (without_bit u) (λ t. refl) j key fp)
    ∙ (elim (Option-cases (seek j fp)) [
      | inl n ↦ ground (arith, n)
      | inr (t, n) ↦ ground (arith, n, has_trait-without_bit type u t)
    ])

pub set-Rising : (key u : ℕ) (fp : List FieldTrait) → Rising 0 fp → Rising 0 (set key u fp)
set-Rising key u fp r =
    rw (set-modify key u fp r) (modify-Rising (with_bit u) (λ t. refl) key 0 fp r)

pub clear-Rising : (key u : ℕ) (fp : List FieldTrait) → Rising 0 fp → Rising 0 (clear key u fp)
clear-Rising key u fp r =
    rw (clear-modify key u fp r) (modify-Rising (without_bit u) (λ t. refl) key 0 fp r)

-- In a set of traits in rising order, setting a trait of a field is seen when that trait of that
-- field is read, if the set has the field; clearing it is seen too, and any other trait of any field
-- reads as before. Both keep the order.
pub get-set :
    (j type key u : ℕ) (fp : List FieldTrait)
    → Rising 0 fp
    → (get j type (set key u fp) ≡ (if j == key && type == u then has key fp else get j type fp))
      × (get j type (clear key u fp) ≡ (if j == key && type == u then false else get j type fp))
      × Rising 0 (set key u fp)
      × Rising 0 (clear key u fp)
get-set j type key u fp r =
    let found = get-seek j type fp r in
    let had = ap is_some (find_trait-seek key fp r) in
    (
      get-seek j type (set key u fp) (set-Rising key u fp r)
          ∙ ap (λ ts. reads type (seek j ts)) (set-modify key u fp r)
          ∙ reads-set j type key u fp
          ∙ sym (ground (arith, found, had)),
      get-seek j type (clear key u fp) (clear-Rising key u fp r)
          ∙ ap (λ ts. reads type (seek j ts)) (clear-modify key u fp r)
          ∙ reads-clear j type key u fp
          ∙ sym (ground (arith, found)),
      set-Rising key u fp r,
      clear-Rising key u fp r,
    )

-- A trait of one field that is set leaves the others, and what is not found is not found then either.
pub find_trait-set_other :
    (j key u : ℕ) (fp : List FieldTrait)
    → Rising 0 fp
    → j ≢ key
    → find_trait j (set key u fp) ≡ find_trait j fp
find_trait-set_other j key u fp r ne =
    find_trait-seek j (set key u fp) (set-Rising key u fp r)
    ∙ ap (seek j) (set-modify key u fp r)
    ∙ seek-modify (with_bit u) (λ t. refl) j key fp
    ∙ ground (arith, ne, find_trait-seek j fp r)

pub find_trait-set-none :
    (j key u : ℕ) (fp : List FieldTrait)
    → Rising 0 fp
    → find_trait j fp ≡ none
    → find_trait j (set key u fp) ≡ none
find_trait-set-none j key u fp r e =
    find_trait-seek j (set key u fp) (set-Rising key u fp r)
    ∙ ap (seek j) (set-modify key u fp r)
    ∙ seek-modify (with_bit u) (λ t. refl) j key fp
    ∙ ground (arith, e, find_trait-seek j fp r)

-- The field itself is found with the trait.
pub find_trait-set_same :
    (key u : ℕ) (fp : List FieldTrait) (t : FieldTrait)
    → Rising 0 fp
    → find_trait key fp ≡ some t
    → find_trait key (set key u fp) ≡ some (with_bit u t)
find_trait-set_same key u fp t r e =
    find_trait-seek key (set key u fp) (set-Rising key u fp r)
    ∙ ap (seek key) (set-modify key u fp r)
    ∙ seek-modify (with_bit u) (λ x. refl) key key fp
    ∙ ground (arith, e, find_trait-seek key fp r)

is_some-modify :
    (change : FieldTrait → FieldTrait) (j key : ℕ) (ts : List FieldTrait)
    → ((t : FieldTrait) → (change t).fnum ≡ t.fnum)
    → is_some (seek j (modify change key ts)) ≡ is_some (seek j ts)
is_some-modify change j key ts keeps =
    ap is_some (seek-modify change keeps j key ts) ∙ (elim (Option-cases (seek j ts)) [
      | inl n ↦ ground (arith, n)
      | inr (t, n) ↦ ground (arith, n)
    ])

-- Neither adds a field to the set.
pub has-set :
    (j key u : ℕ) (fp : List FieldTrait)
    → Rising 0 fp
    → (has j (set key u fp) ≡ has j fp) × (has j (clear key u fp) ≡ has j fp)
has-set j key u fp r =
    let had = ap is_some (find_trait-seek j fp r) in
    (
      ap is_some (find_trait-seek j (set key u fp) (set-Rising key u fp r))
          ∙ ap (λ ts. is_some (seek j ts)) (set-modify key u fp r)
          ∙ is_some-modify (with_bit u) j key fp (λ t. refl)
          ∙ sym had,
      ap is_some (find_trait-seek j (clear key u fp) (clear-Rising key u fp r))
          ∙ ap (λ ts. is_some (seek j ts)) (clear-modify key u fp r)
          ∙ is_some-modify (without_bit u) j key fp (λ t. refl)
          ∙ sym had,
    )
