-- ===== src/Traits/Laws.antt =====
-- The search by the hash array against a search from the front, and the bounds of an insertion.
use fix.Base.{
  ℕ, zero, suc, ◌+◌, ◌≤◌, ◌<◌, ◌≡◌, refl, true, false, List, Option, none, some, [], ◌∷◌, ◌==◌,
  if◌then◌else◌, length, arith, Bool-cases, Option-cases, inl, inr,
}
use fix.Traits.{
  FieldTrait, slot, hash_size, is_at, find_hashed, Presence, insert_sorted, contains, insert,
  calc_reserve,
}

-- The numbers rise, from `lo` on.
abbrev pub Rising : ℕ → List FieldTrait → Type 0
Rising lo [] = Unit
Rising lo (t ∷ ts) = (lo ≤ t.fnum) × Rising (suc t.fnum) ts

-- The offset of the first element with the number.
abbrev pub index_of : ℕ → List FieldTrait → Option ℕ
index_of key [] = none
index_of key (t ∷ ts) =
    if t.fnum == key then some 0 else elim (index_of key ts) [ none ↦ none | some i ↦ some (suc i) ]

slot_below :
    (key lo : ℕ) (ts : List FieldTrait) (offset found : ℕ)
    → Rising lo ts
    → key < lo
    → slot key ts offset found ≡ found
unfolding slot
slot_below key lo [] offset found r h = refl
slot_below key lo (t ∷ ts) offset found r h =
    ground (arith, slot_below key (suc t.fnum) ts (offset + 1) found r.1)

index_of-is_at :
    (key i : ℕ) (ts : List FieldTrait) → index_of key ts ≡ some i → is_at i key ts ≡ true
unfolding is_at
index_of-is_at key i [] e = ground arith
index_of-is_at key zero (t ∷ ts) e = elim (Bool-cases (t.fnum == key)) [
  | inl c ↦ c
  | inr c ↦ elim (Option-cases (index_of key ts)) [
    | inl n ↦ absurd (ground (arith, e, c, n))
    | inr (k, n) ↦ absurd (ground (arith, e, c, n))
  ]
]
index_of-is_at key (suc i) (t ∷ ts) e = elim (Option-cases (index_of key ts)) [
  | inl n ↦ absurd (ground (arith, e, n))
  | inr (k, n) ↦ ground (arith, e, n, index_of-is_at key i ts)
]

slot-index_of :
    (key lo : ℕ) (ts : List FieldTrait) (offset found : ℕ)
    → Rising lo ts
    → slot key ts offset found ≡ (elim (index_of key ts) [ none ↦ found | some i ↦ offset + i ])
unfolding slot
slot-index_of key lo [] offset found r = refl
slot-index_of key lo (t ∷ ts) offset found r = elim (Bool-cases (t.fnum == key)) [
  | inl c ↦ ground (arith, c, slot_below key (suc t.fnum) ts (offset + 1) offset r.1)
  | inr c ↦ elim (Option-cases (index_of key ts)) [
    | inl n ↦ ground (arith, c, n, slot-index_of key (suc t.fnum) ts (offset + 1) found r.1)
    | inr (k, n) ↦ ground (arith, c, n, slot-index_of key (suc t.fnum) ts (offset + 1) found r.1)
  ]
]

hash_size-above :
    (lo : ℕ) (t : FieldTrait) (ts : List FieldTrait) → Rising lo (t ∷ ts) → lo < hash_size (t ∷ ts)
unfolding hash_size
hash_size-above lo t [] r = omega (arith, r.0)
hash_size-above lo t (u ∷ ts) r = omega (arith, r.0, hash_size-above (suc t.fnum) u ts r.1)

index_of-hash_size :
    (key lo i : ℕ) (ts : List FieldTrait)
    → Rising lo ts
    → index_of key ts ≡ some i
    → key < hash_size ts
unfolding hash_size
index_of-hash_size key lo i [] r e = absurd (ground (arith, e))
index_of-hash_size key lo i (t ∷ []) r e = ground (arith, e)
index_of-hash_size key lo i (t ∷ u ∷ ts) r e = elim (Bool-cases (t.fnum == key)) [
  | inl c ↦ let above = hash_size-above (suc t.fnum) u ts r.1 in ground (arith, above, c)
  | inr c ↦ elim (Option-cases (index_of key (u ∷ ts))) [
    | inl n ↦ absurd (ground (arith, e, c, n))
    | inr (k, n) ↦ index_of-hash_size key (suc t.fnum) k (u ∷ ts) r.1 n
  ]
]

index_of-first : (key : ℕ) (ts : List FieldTrait) → index_of key ts ≡ none → is_at 0 key ts ≡ false
unfolding is_at
index_of-first key [] e = refl
index_of-first key (t ∷ ts) e = elim (Bool-cases (t.fnum == key)) [
  | inl c ↦ absurd (ground (arith, e, c))
  | inr c ↦ c
]

-- On elements in rising order, the search by the hash array gives the offset of the element with the
-- number, and `end()` where there is none: as a search from the front does.
pub find_hashed-index_of :
    (key : ℕ) (ts : List FieldTrait) → Rising 0 ts → find_hashed key ts ≡ index_of key ts
unfolding find_hashed
find_hashed-index_of key ts r = elim (Option-cases (index_of key ts)) [
  | inl n ↦ ground (arith, n, slot-index_of key 0 ts 0 0 r, index_of-first key ts n)
  | inr (i, n) ↦ ground (
    arith,
    n,
    slot-index_of key 0 ts 0 0 r,
    index_of-is_at key i ts n,
    index_of-hash_size key 0 i ts r n,
  )
]

insert_sorted-length :
    (what : FieldTrait) (ts : List FieldTrait) → length (insert_sorted what ts) ≡ suc (length ts)
unfolding insert_sorted
insert_sorted-length what [] = refl
insert_sorted-length what (t ∷ ts) = ground (arith, insert_sorted-length what ts)

insert_sorted-Rising :
    (what : FieldTrait) (lo : ℕ) (ts : List FieldTrait)
    → Rising lo ts
    → lo ≤ what.fnum
    → contains what.fnum ts ≡ false
    → Rising lo (insert_sorted what ts)
unfolding insert_sorted contains
insert_sorted-Rising what lo [] r h c = (h, tt)
insert_sorted-Rising what lo (t ∷ ts) r h c =
    ground (arith, insert_sorted-Rising what (suc t.fnum) ts r.1)

-- An insertion keeps the order of the set and keeps its elements within the memory that it has
-- reserved, and adds one element exactly if it returns true.
pub insert-bounded :
    (what : FieldTrait) (p : Presence)
    → Rising 0 p.elements
    → length p.elements ≤ p.rsz
    → 0 < p.rsz
    → let (q, done) = insert what p in
      Rising 0 q.elements
      × (length q.elements ≤ q.rsz)
      × (0 < q.rsz)
      × (length q.elements ≡ (if done then suc (length p.elements) else length p.elements))
unfolding insert calc_reserve
insert-bounded what p r b pos = ground (
  arith,
  insert_sorted-length what p.elements,
  insert_sorted-Rising what 0 p.elements r (omega arith),
)
